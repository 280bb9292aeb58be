-- ===== src/Production/Claims/Register.antt =====
-- The claims of a store as registers that are written once.
use kairos_execution_engine.Common.{
  ℕ, ◌≡◌, refl, sym, ◌∙◌, ap, ◌&&◌, List, [], ◌∷◌, Option, none, some, arith, ◌==◌, if◌then◌else◌,
}
use kairos_execution_engine.Production.Records.{Digest}
use kairos_execution_engine.Production.Database.{ClaimKind, ClaimRow, find, same_kind, is_claim}
use kairos_execution_engine.Production.Database.Rows.{find-append}
use kairos_execution_engine.Production.Claims.{
  ClaimStore, claim, Call, call_claim, call_finish_signing, call_finish_wire, after, run,
  kept_claim,
}
use kairos_execution_engine.Production.Claims.Once.{signing-claims, wire-claims}

-- What a register holds: the request and the context of its claim.
abbrev content : Option ClaimRow → Option (Digest × Digest)
content none = none
content (some c) = some (c.request_sha256, c.context_sha256)

-- The register of an identity in a store.
abbrev pub register : ClaimKind → ℕ → ℕ → ClaimStore → Option (Digest × Digest)
register kind namespace identity store =
    content (find (is_claim kind namespace identity) store.claims)

-- A claim of the identity writes a register that is empty; nothing else writes it.
abbrev write : ClaimKind → ℕ → ℕ → Option (Digest × Digest) → Call → Option (Digest × Digest)
write kind namespace identity (some held) c = some held
write kind namespace identity none (call_claim context k n i request) =
    if same_kind kind k && (n == namespace && i == identity) then some (request, context) else none
write kind namespace identity none _ = none

unfoldable pub writes :
    ClaimKind → ℕ → ℕ → Option (Digest × Digest) → List Call → Option (Digest × Digest)
writes kind namespace identity held [] = held
writes kind namespace identity held (c ∷ cs) =
    writes kind namespace identity (write kind namespace identity held c) cs

claim-write :
    (kind : ClaimKind) (namespace identity : ℕ) (store : ClaimStore) (context : Digest)
    (k : ClaimKind) (n i : ℕ) (request : Digest)
    → register kind namespace identity (kept_claim store (claim context store k n i request))
      ≡ write kind namespace identity
          (register kind namespace identity store)
          (call_claim context k n i request)
unfolding claim
claim-write kind namespace identity store context k n i request = ground (
  arith,
  find-append (is_claim kind namespace identity) store.claims (record {
    kind = k;
    namespace = n;
    identity = i;
    request_sha256 = request;
    context_sha256 = context;
  }),
)

same_write :
    (kind : ClaimKind) (namespace identity : ℕ) (held : Option (Digest × Digest)) (c : Call)
    → (◌≡◌ {A = Option (Digest × Digest)} (write kind namespace identity none c) none)
    → write kind namespace identity held c ≡ held
same_write kind namespace identity none c h = h
same_write kind namespace identity (some b) c h = refl

after-write :
    (kind : ClaimKind) (namespace identity : ℕ) (store : ClaimStore) (c : Call)
    → register kind namespace identity (after store c)
      ≡ write kind namespace identity (register kind namespace identity store) c
unfolding after
after-write kind namespace identity store (call_claim context k n i request) =
    claim-write kind namespace identity store context k n i request
after-write kind namespace identity store (call_finish_signing context new) =
    ap (λ claims. content (find (is_claim kind namespace identity) claims))
      (signing-claims context store new)
    ∙ sym (
        same_write kind namespace identity (register kind namespace identity store)
          (call_finish_signing context new) refl)
after-write kind namespace identity store (call_finish_wire context new) =
    ap (λ claims. content (find (is_claim kind namespace identity) claims))
      (wire-claims context store new)
    ∙ sym (
        same_write kind namespace identity (register kind namespace identity store)
          (call_finish_wire context new) refl)

-- Over every sequence of calls, the store of claims refines one register for each identity, which
-- the first claim of the identity writes with its request and its context, and nothing writes again.
pub run-writes :
    (kind : ClaimKind) (namespace identity : ℕ) (store : ClaimStore) (calls : List Call)
    → register kind namespace identity (run store calls)
      ≡ writes kind namespace identity (register kind namespace identity store) calls
unfolding run writes
run-writes kind namespace identity store [] = refl
run-writes kind namespace identity store (c ∷ cs) =
    run-writes kind namespace identity (after store c) cs
    ∙ ap (λ held. writes kind namespace identity held cs)
        (after-write kind namespace identity store c)
