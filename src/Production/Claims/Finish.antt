-- ===== src/Production/Claims/Finish.antt =====
-- What a terminal that `finish_signing_async` or `finish_wire_async` has recorded is observed as.
use kairos_execution_engine.Common.{
  ◌≡◌, refl, subst, and_parts, bind_returned, sym, ◌∙◌, ok-injective, if_returned, unless_returned,
  Bool, true, false, ◌&&◌, List, [], ◌∷◌, ◌++◌, Option, none, some, arith, ◌==◌, ==_refl,
  if◌then◌else◌, Result, ok, err,
}
use kairos_execution_engine.Production.Records.{Digest}
use kairos_execution_engine.Production.Database.{
  ClaimKind, typed_signing, wire_dispatch, ClaimRow, find, is_claim,
}
use kairos_execution_engine.Production.Database.Rows.{find-append}
use kairos_execution_engine.Production.Authorization.{same_option}
use kairos_execution_engine.Production.Claims.{
  TerminalRow, ClaimStore, ClaimError, terminal_conflict, status_index, is_same_claim, resolves,
  finish_signing, finish_wire, insert_terminal, terminal_of, load_claim, view, same_terminal,
  is_named, is_terminal,
}

same_terminal_refl : (t : TerminalRow) → same_terminal t t ≡ true
same_terminal_refl t = results t.result_sha256
  where
    results :
        (o : Option Digest)
        → (status_index t.terminal_status == status_index t.terminal_status && same_option ◌==◌ o o)
          ≡ true
    results none = ground (arith, ==_refl (status_index t.terminal_status))
    results (some d) = ground (arith, ==_refl (status_index t.terminal_status), ==_refl d)

-- The row that a table has for a name after an insertion that returns.
inserted :
    (rows : List TerminalRow) (new : TerminalRow) (next : List TerminalRow)
    → insert_terminal rows new ≡ ok next
    → (t : TerminalRow) × (find (is_named new.namespace new.identity) next ≡ some t)
      × (same_terminal new t ≡ true)
unfolding insert_terminal
inserted rows new next h = by_row (find (is_named new.namespace new.identity) rows) refl h
  where
    by_row :
        (o : Option TerminalRow)
        → find (is_named new.namespace new.identity) rows ≡ o
        → (elim o as (λ _. Result ClaimError (List TerminalRow)) [
          | none ↦ ok (rows ++ new ∷ [])
          | some t ↦ if same_terminal new t then ok rows else err terminal_conflict
        ])
          ≡ ok next
        → (t : TerminalRow) × (find (is_named new.namespace new.identity) next ≡ some t)
          × (same_terminal new t ≡ true)
    by_row none absent h = (
      new,
      rw (sym (ok-injective h), find-append (is_named new.namespace new.identity) rows new, absent)
          (ground (arith, ==_refl new.namespace, ==_refl new.identity)),
      same_terminal_refl new,
    )
    by_row (some t) there h =
        let (same, returned) = if_returned (same_terminal new t) _ h in
        (t, rw (sym (ok-injective returned)) there, same)

resolved :
    (context : Digest) (store : ClaimStore) (kind : ClaimKind) (new : TerminalRow)
    → resolves context store kind new ≡ true
    → (c : ClaimRow) × (find (is_claim kind new.namespace new.identity) store.claims ≡ some c)
      × (is_same_claim context new.request_sha256 c ≡ true)
unfolding resolves
resolved context store kind new h =
    by_claim (find (is_claim kind new.namespace new.identity) store.claims) h
  where
    by_claim :
        (o : Option ClaimRow)
        → (elim o as (λ _. Bool) [
          | none ↦ false
          | some prior ↦ is_same_claim context new.request_sha256 prior
        ])
          ≡ true
        → (c : ClaimRow) × (o ≡ some c) × (is_same_claim context new.request_sha256 c ≡ true)
    by_claim none h = cc
    by_claim (some c) h = (c, refl, h)

-- The claim and the terminal of `new`, as they are observed.
abbrev pub Observed : Digest → ClaimStore → ClaimKind → TerminalRow → Type 0
Observed context store kind new =
    (c : ClaimRow) × (t : TerminalRow) × (load_claim context store kind new.namespace new.identity
      ≡ ok (some (c, some t)))
    × ((c.request_sha256 == new.request_sha256) ≡ true)
    × (same_terminal new t ≡ true)

observed :
    (context : Digest) (store : ClaimStore) (kind : ClaimKind) (new t : TerminalRow) (c : ClaimRow)
    → find (is_claim kind new.namespace new.identity) store.claims ≡ some c
    → is_same_claim context new.request_sha256 c ≡ true
    → terminal_of store kind new.namespace new.identity ≡ some t
    → same_terminal new t ≡ true
    → Observed context store kind new
unfolding load_claim
observed context store kind new t c claimed same terminal alike =
    let (request, scope) = and_parts _ _ same in
    (c, t, (λ i. view context (claimed i) (terminal i)) ∙ rw scope refl, request, alike)

-- A completed signature, or an unresolved one, is recorded only for the claim of its exact request
-- in its own context, and is then observed with that claim.
pub finish_signing-load_claim :
    (context : Digest) (store next : ClaimStore) (new : TerminalRow)
    → finish_signing context store new ≡ ok next
    → Observed context next typed_signing new
unfolding finish_signing terminal_of
finish_signing-load_claim context store next new h =
    let (valid, rest) = unless_returned (is_terminal new.terminal_status new.result_sha256) _ h in
    let (claimed, added) = unless_returned (resolves context store typed_signing new) _ rest in
    let (rows, put, same) =
      bind_returned (insert_terminal store.terminals new)
        (λ rows. ok (record store { terminals = rows })) added in
    let (c, there, exact) = resolved context store typed_signing new claimed in
    let (t, listed, alike) = inserted store.terminals new rows put in
    subst (λ next. Observed context next typed_signing new) (ok-injective same)
      (observed context (record store { terminals = rows }) typed_signing new t c there exact listed
        alike)

-- A wire dispatch's terminal is recorded only for the claim of its exact request
-- in its own context, and is then observed with that claim.
pub finish_wire-load_claim :
    (context : Digest) (store next : ClaimStore) (new : TerminalRow)
    → finish_wire context store new ≡ ok next
    → Observed context next wire_dispatch new
unfolding finish_wire terminal_of
finish_wire-load_claim context store next new h =
    let (valid, rest) = unless_returned (is_terminal new.terminal_status new.result_sha256) _ h in
    let (claimed, added) = unless_returned (resolves context store wire_dispatch new) _ rest in
    let (rows, put, same) =
      bind_returned (insert_terminal store.wire_terminals new)
        (λ rows. ok (record store { wire_terminals = rows })) added in
    let (c, there, exact) = resolved context store wire_dispatch new claimed in
    let (t, listed, alike) = inserted store.wire_terminals new rows put in
    subst (λ next. Observed context next wire_dispatch new) (ok-injective same)
      (observed context (record store { wire_terminals = rows }) wire_dispatch new t c there exact
        listed alike)
