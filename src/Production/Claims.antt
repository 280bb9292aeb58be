-- ===== src/Production/Claims.antt =====
-- production_claims.py: one-use claims and their terminals. Identities and digests are well formed,
-- the identity and privilege inspection of the database passes, and each call is one transaction
-- that commits. No row is updated or deleted, which a trigger of each table refuses.
pub mod Finish
pub mod Once
pub mod Register
pub mod Terminals
use kairos_execution_engine.Common.{
  ℕ, ◌+◌, Bool, true, false, not, ◌&&◌, ◌||◌, List, [], ◌∷◌, ◌++◌, Option, none, some, ◌==◌,
  if◌then◌else◌, is_some, Result, ok, err,
}
use kairos_execution_engine.Production.Records.{Digest}
use kairos_execution_engine.Production.Database.{
  ClaimKind, manual_nonce, typed_signing, wire_dispatch, ClaimRow, find, same_kind, is_claim,
}
use kairos_execution_engine.Production.Authorization.{same_option}

pub data TerminalStatus : Type 0 where
  completed unresolved other_status : TerminalStatus

-- A row of `terminals` or of `wire_terminals`.
pub record TerminalRow : Type 0 where
  pub namespace : ℕ
  pub identity : ℕ
  pub request_sha256 : Digest
  pub terminal_status : TerminalStatus
  pub result_sha256 : Option Digest

pub record ClaimStore : Type 0 where
  pub claims : List ClaimRow
  pub terminals : List TerminalRow
  pub wire_terminals : List TerminalRow

pub data ClaimError : Type 0 where
  claim_rebound invalid_terminal unclaimed_terminal terminal_conflict wrong_scope : ClaimError

-- A prior claim of the same request in the same context.
abbrev pub is_same_claim : Digest → Digest → ClaimRow → Bool
is_same_claim context request c = c.request_sha256 == request && c.context_sha256 == context

-- `INSERT ... ON CONFLICT DO NOTHING`: whether the claim is new.
unfoldable pub claim :
    Digest → ClaimStore → ClaimKind → ℕ → ℕ → Digest → Result ClaimError (Bool × ClaimStore)
claim context store kind namespace identity request =
    elim (find (is_claim kind namespace identity) store.claims) [
      | none ↦ ok (
        true,
        record store {
          claims =
              store.claims
              ++ record {
                kind = kind;
                namespace = namespace;
                identity = identity;
                request_sha256 = request;
                context_sha256 = context;
              }
                ∷ [];
        },
      )
      | some prior ↦
          if is_same_claim context request prior then ok (false, store) else err claim_rebound
    ]

abbrev pub status_index : TerminalStatus → ℕ
status_index completed = 0
status_index unresolved = 1
status_index other_status = 2

-- A completed terminal has a result, an unresolved one has none.
abbrev pub is_terminal : TerminalStatus → Option Digest → Bool
is_terminal completed result = is_some result
is_terminal unresolved result = not (is_some result)
is_terminal other_status result = false

abbrev pub is_named : ℕ → ℕ → TerminalRow → Bool
is_named namespace identity t = t.namespace == namespace && t.identity == identity

abbrev pub same_terminal : TerminalRow → TerminalRow → Bool
same_terminal new t =
    status_index t.terminal_status == status_index new.terminal_status
    && same_option ◌==◌ t.result_sha256 new.result_sha256

-- The insertion, and the comparison with the row that is there after it.
unfoldable pub insert_terminal :
    List TerminalRow → TerminalRow → Result ClaimError (List TerminalRow)
insert_terminal rows new = elim (find (is_named new.namespace new.identity) rows) [
  | none ↦ ok (rows ++ new ∷ [])
  | some t ↦ if same_terminal new t then ok rows else err terminal_conflict
]

-- The claim that a terminal resolves.
unfoldable pub resolves : Digest → ClaimStore → ClaimKind → TerminalRow → Bool
resolves context store kind new =
    elim (find (is_claim kind new.namespace new.identity) store.claims) [
      | none ↦ false
      | some prior ↦ is_same_claim context new.request_sha256 prior
    ]

unfoldable pub finish_signing : Digest → ClaimStore → TerminalRow → Result ClaimError ClaimStore
finish_signing context store new =
    if not (is_terminal new.terminal_status new.result_sha256)
    then err invalid_terminal
    else if not (resolves context store typed_signing new)
    then err unclaimed_terminal
    else elim (insert_terminal store.terminals new) [
      | err raised ↦ err raised
      | ok rows ↦ ok (record store { terminals = rows })
    ]

unfoldable pub finish_wire : Digest → ClaimStore → TerminalRow → Result ClaimError ClaimStore
finish_wire context store new =
    if not (is_terminal new.terminal_status new.result_sha256)
    then err invalid_terminal
    else if not (resolves context store wire_dispatch new)
    then err unclaimed_terminal
    else elim (insert_terminal store.wire_terminals new) [
      | err raised ↦ err raised
      | ok rows ↦ ok (record store { wire_terminals = rows })
    ]

-- The terminal that `LEFT JOIN ... USING(claim_kind,namespace,identity)` finds: a table of
-- terminals holds one kind.
unfoldable pub terminal_of : ClaimStore → ClaimKind → ℕ → ℕ → Option TerminalRow
terminal_of store wire_dispatch namespace identity =
    find (is_named namespace identity) store.wire_terminals
terminal_of store typed_signing namespace identity =
    find (is_named namespace identity) store.terminals
terminal_of store manual_nonce namespace identity = none

-- The row of the join, of the object's context.
abbrev pub view :
    Digest
    → Option ClaimRow
    → Option TerminalRow
    → Result ClaimError (Option (ClaimRow × Option TerminalRow))
view context none terminal = ok none
view context (some c) terminal =
    if c.context_sha256 == context then ok (some (c, terminal)) else err wrong_scope

unfoldable pub load_claim :
    Digest
    → ClaimStore
    → ClaimKind
    → ℕ
    → ℕ
    → Result ClaimError (Option (ClaimRow × Option TerminalRow))
load_claim context store kind namespace identity =
    view context (find (is_claim kind namespace identity) store.claims)
      (terminal_of store kind namespace identity)

-- A call of a `PostgresProductionClaims` object, with the context of the object.
pub data Call : Type 0 where
  call_claim : Digest → ClaimKind → ℕ → ℕ → Digest → Call
  call_finish_signing : Digest → TerminalRow → Call
  call_finish_wire : Digest → TerminalRow → Call

-- The store after a call; a transaction that raises is rolled back.
abbrev kept : ClaimStore → Result ClaimError ClaimStore → ClaimStore
kept store (err raised) = store
kept store (ok next) = next

abbrev kept_claim : ClaimStore → Result ClaimError (Bool × ClaimStore) → ClaimStore
kept_claim store (err raised) = store
kept_claim store (ok (granted, next)) = next

unfoldable pub after : ClaimStore → Call → ClaimStore
after store (call_claim context kind namespace identity request) =
    kept_claim store (claim context store kind namespace identity request)
after store (call_finish_signing context new) = kept store (finish_signing context store new)
after store (call_finish_wire context new) = kept store (finish_wire context store new)

-- The store after the calls of any number of processes, in the order of their transactions.
unfoldable pub run : ClaimStore → List Call → ClaimStore
run store [] = store
run store (c ∷ cs) = run (after store c) cs

-- The grants of one identity among the calls.
abbrev granted : Result ClaimError (Bool × ClaimStore) → ℕ
granted (ok (true, next)) = 1
granted _ = 0

abbrev pub grant : ClaimKind → ℕ → ℕ → ClaimStore → Call → ℕ
grant kind namespace identity store (call_claim context k n i request) =
    if same_kind kind k && (n == namespace && i == identity)
    then granted (claim context store k n i request)
    else 0
grant kind namespace identity store _ = 0

unfoldable pub grants : ClaimKind → ℕ → ℕ → ClaimStore → List Call → ℕ
grants kind namespace identity store [] = 0
grants kind namespace identity store (c ∷ cs) =
    grant kind namespace identity store c + grants kind namespace identity (after store c) cs
