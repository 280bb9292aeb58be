-- ===== src/Production/Claims/Once.antt =====
-- A claim is granted once, whatever the calls and their order.
use kairos_execution_engine.Common.{
  ℕ, ◌+◌, ◌≤◌, ◌≡◌, refl, sym, true, ◌&&◌, List, [], ◌∷◌, Option, none, some, arith, ◌==◌, inl, inr,
  Bool-cases, and_parts,
}
use kairos_execution_engine.Production.Records.{Digest}
use kairos_execution_engine.Production.Database.{
  ClaimKind, manual_nonce, typed_signing, wire_dispatch, ClaimRow, find, same_kind, is_claim,
}
use kairos_execution_engine.Production.Database.Rows.{find-append}
use kairos_execution_engine.Production.Claims.{
  TerminalRow, ClaimStore, claim, finish_signing, finish_wire, insert_terminal, Call, call_claim,
  call_finish_signing, call_finish_wire, after, grant, grants, granted, kept_claim, kept,
}

same_kind_lem : (a b : ClaimKind) → same_kind a b ≡ true → a ≡ b
same_kind_lem manual_nonce manual_nonce h = refl
same_kind_lem typed_signing typed_signing h = refl
same_kind_lem wire_dispatch wire_dispatch h = refl
same_kind_lem a b h = cc

abbrev pub found : Option ClaimRow → ℕ
found none = 0
found (some c) = 1

abbrev pub held : ClaimKind → ℕ → ℕ → ClaimStore → ℕ
held kind namespace identity store = found (find (is_claim kind namespace identity) store.claims)

held_one : (o : Option ClaimRow) → found o ≤ 1
held_one none = ground arith
held_one (some c) = ground arith

pub signing-claims :
    (context : Digest) (store : ClaimStore) (new : TerminalRow)
    → (kept store (finish_signing context store new)).claims ≡ store.claims
unfolding finish_signing insert_terminal
signing-claims context store new = ground arith

pub wire-claims :
    (context : Digest) (store : ClaimStore) (new : TerminalRow)
    → (kept store (finish_wire context store new)).claims ≡ store.claims
unfolding finish_wire insert_terminal
wire-claims context store new = ground arith

-- A grant takes an identity that is free.
claim_own :
    (context : Digest) (store : ClaimStore) (kind : ClaimKind) (namespace identity : ℕ)
    (request : Digest)
    → granted (claim context store kind namespace identity request)
        + held kind namespace identity store
      ≤ held kind namespace identity
          (kept_claim store (claim context store kind namespace identity request))
unfolding claim
claim_own context store kind namespace identity request = ground (
  arith,
  find-append (is_claim kind namespace identity) store.claims (record {
    kind = kind;
    namespace = namespace;
    identity = identity;
    request_sha256 = request;
    context_sha256 = context;
  }),
)

-- A call never frees an identity.
claim_other :
    (context : Digest) (store : ClaimStore) (kind k : ClaimKind) (namespace identity n i : ℕ)
    (request : Digest)
    → held kind namespace identity store
      ≤ held kind namespace identity (kept_claim store (claim context store k n i request))
unfolding claim
claim_other context store kind k namespace identity n i request = ground (
  arith,
  find-append (is_claim kind namespace identity) store.claims (record {
    kind = k;
    namespace = n;
    identity = i;
    request_sha256 = request;
    context_sha256 = context;
  }),
)

claim_same :
    (context : Digest) (store : ClaimStore) (kind k : ClaimKind) (namespace identity n i : ℕ)
    (request : Digest)
    → (same_kind kind k && (n == namespace && i == identity)) ≡ true
    → granted (claim context store k n i request) + held kind namespace identity store
      ≤ held kind namespace identity (kept_claim store (claim context store k n i request))
claim_same context store kind k namespace identity n i request same =
    let (kinds, rest) = and_parts (same_kind kind k) (n == namespace && i == identity) same in
    let names : n ≡ namespace = ground arith in
    let ids : i ≡ identity = ground arith in
    rw (sym (same_kind_lem kind k kinds), names, ids)
      (claim_own context store kind namespace identity request)

step :
    (kind : ClaimKind) (namespace identity : ℕ) (store : ClaimStore) (c : Call)
    → grant kind namespace identity store c + held kind namespace identity store
      ≤ held kind namespace identity (after store c)
unfolding after
step kind namespace identity store (call_claim context k n i request) =
    elim (Bool-cases (same_kind kind k && (n == namespace && i == identity))) [
      | inl same ↦ rw same (claim_same context store kind k namespace identity n i request same)
      | inr other ↦ rw other (
          let kept = claim_other context store kind k namespace identity n i request in omega arith)
    ]
step kind namespace identity store (call_finish_signing context new) =
    rw (signing-claims context store new) (ground arith)
step kind namespace identity store (call_finish_wire context new) =
    rw (wire-claims context store new) (ground arith)

-- Of all claims of one identity, by any processes and in any order among any other calls, at most
-- one is granted, and none where the identity is already claimed (`held` counts its claim).
pub grants-once :
    (kind : ClaimKind) (namespace identity : ℕ) (store : ClaimStore) (calls : List Call)
    → grants kind namespace identity store calls + held kind namespace identity store ≤ 1
unfolding grants
grants-once kind namespace identity store [] =
    let one = held_one (find (is_claim kind namespace identity) store.claims) in omega arith
grants-once kind namespace identity store (c ∷ cs) =
    let first = step kind namespace identity store c in
    let later = grants-once kind namespace identity (after store c) cs in omega arith
