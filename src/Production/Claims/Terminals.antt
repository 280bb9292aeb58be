-- ===== src/Production/Claims/Terminals.antt =====
-- The terminals of a store: a terminal resolves its claim, and is never changed.
use kairos_execution_engine.Common.{
  ℕ, ◌≡◌, sym, ap, ◌∙◌, ok-injective, some-injective, Bool, true, false, List, [], ◌∷◌, ◌++◌,
  Option, none, some, arith, ◌==◌, if◌then◌else◌, Result, ok, err,
}
use kairos_execution_engine.Production.Records.{Digest}
use kairos_execution_engine.Production.Database.{
  ClaimKind, manual_nonce, typed_signing, wire_dispatch, ClaimRow, find, is_claim,
}
use kairos_execution_engine.Production.Database.Rows.{find-append}
use kairos_execution_engine.Production.Claims.{
  TerminalRow, ClaimStore, ClaimError, wrong_scope, claim, finish_signing, finish_wire,
  insert_terminal, terminal_of, view, load_claim, Call, call_claim, call_finish_signing,
  call_finish_wire, after, run, is_named,
}

-- What is found in a table is found in the table with more rows.
kept_find :
    {A : Type 0} (test : A → Bool) (rows : List A) (x a : A)
    → find test rows ≡ some a
    → find test (rows ++ x ∷ []) ≡ some a
kept_find test rows x a h = ground (arith, find-append test rows x)

after_claim :
    (kind : ClaimKind) (namespace identity : ℕ) (c : ClaimRow) (store : ClaimStore) (call : Call)
    → find (is_claim kind namespace identity) store.claims ≡ some c
    → find (is_claim kind namespace identity) (after store call).claims ≡ some c
unfolding after claim finish_signing finish_wire insert_terminal
after_claim kind namespace identity c store (call_claim context k n i request) h = ground (
  arith,
  kept_find (is_claim kind namespace identity) store.claims
      (record {
        kind = k;
        namespace = n;
        identity = i;
        request_sha256 = request;
        context_sha256 = context;
      })
      c,
)
after_claim kind namespace identity c store (call_finish_signing context new) h = ground arith
after_claim kind namespace identity c store (call_finish_wire context new) h = ground arith

after_terminal :
    (kind : ClaimKind) (namespace identity : ℕ) (t : TerminalRow) (store : ClaimStore) (call : Call)
    → terminal_of store kind namespace identity ≡ some t
    → terminal_of (after store call) kind namespace identity ≡ some t
unfolding after claim finish_signing finish_wire insert_terminal terminal_of
after_terminal manual_nonce namespace identity t store call h = cc
after_terminal typed_signing namespace identity t store (call_claim context k n i request) h =
    ground arith
after_terminal typed_signing namespace identity t store (call_finish_wire context new) h =
    ground arith
after_terminal typed_signing namespace identity t store (call_finish_signing context new) h =
    ground (arith, kept_find (is_named namespace identity) store.terminals new t)
after_terminal wire_dispatch namespace identity t store (call_claim context k n i request) h =
    ground arith
after_terminal wire_dispatch namespace identity t store (call_finish_signing context new) h =
    ground arith
after_terminal wire_dispatch namespace identity t store (call_finish_wire context new) h =
    ground (arith, kept_find (is_named namespace identity) store.wire_terminals new t)

run_claim :
    (kind : ClaimKind) (namespace identity : ℕ) (c : ClaimRow) (store : ClaimStore)
    (calls : List Call)
    → find (is_claim kind namespace identity) store.claims ≡ some c
    → find (is_claim kind namespace identity) (run store calls).claims ≡ some c
unfolding run
run_claim kind namespace identity c store [] h = h
run_claim kind namespace identity c store (call ∷ calls) h =
    run_claim kind namespace identity c (after store call) calls
      (after_claim kind namespace identity c store call h)

run_terminal :
    (kind : ClaimKind) (namespace identity : ℕ) (t : TerminalRow) (store : ClaimStore)
    (calls : List Call)
    → terminal_of store kind namespace identity ≡ some t
    → terminal_of (run store calls) kind namespace identity ≡ some t
unfolding run
run_terminal kind namespace identity t store [] h = h
run_terminal kind namespace identity t store (call ∷ calls) h =
    run_terminal kind namespace identity t (after store call) calls
      (after_terminal kind namespace identity t store call h)

viewed :
    (context : Digest) (found : Option ClaimRow) (terminal : Option TerminalRow) (c : ClaimRow)
    (t : TerminalRow)
    → view context found terminal ≡ ok (some (c, some t))
    → (found ≡ some c) × (terminal ≡ some t)
viewed context none terminal c t h = cc
viewed context (some d) terminal c t h = opened (d.context_sha256 == context) h
  where
    opened :
        (test : Bool)
        → ◌≡◌ {A = Result ClaimError (Option (ClaimRow × Option TerminalRow))}
            (if test then ok (some (d, terminal)) else err wrong_scope)
            (ok (some (c, some t)))
        → (some d ≡ some c) × (terminal ≡ some t)
    opened true h =
        let pair = some-injective (ok-injective h) in (ap (λ p. some p.0) pair, ap (λ p. p.1) pair)
    opened false h = cc

-- A claim that is observed with its terminal is observed with that terminal after any further
-- calls: a signature or a dispatch that is resolved is resolved once.
pub load_claim-run :
    (context : Digest) (kind : ClaimKind) (namespace identity : ℕ) (c : ClaimRow) (t : TerminalRow)
    (store : ClaimStore) (calls : List Call)
    → load_claim context store kind namespace identity ≡ ok (some (c, some t))
    → load_claim context (run store calls) kind namespace identity ≡ ok (some (c, some t))
unfolding load_claim
load_claim-run context kind namespace identity c t store calls h =
    let (claimed, resolved) =
      viewed context (find (is_claim kind namespace identity) store.claims)
        (terminal_of store kind namespace identity) c t h in
    (λ i.
      view context ((run_claim kind namespace identity c store calls claimed ∙ sym claimed) i)
        ((run_terminal kind namespace identity t store calls resolved ∙ sym resolved) i))
    ∙ h
