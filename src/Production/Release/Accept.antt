-- ===== src/Production/Release/Accept.antt =====
-- The releases that `accept_terminal_receipt` writes: once each, of a reservation that there is.
use kairos_execution_engine.Common.{
  ℕ, ◌≡◌, refl, sym, subst, ap, Bool, true, false, ◌&&◌, [], ◌∷◌, ◌++◌, Option, none, some, arith,
  ◌==◌, ==_refl, if◌then◌else◌, ◌⊎◌, inl, inr, Result, ok, err, ok-pair, bind_returned, if_returned,
}
use kairos_execution_engine.Production.Records.{Digest}
use kairos_execution_engine.Production.Database.{Facts, TerminalReceipt, Release, Database, find}
use kairos_execution_engine.Production.Database.Rows.{find-append}
use kairos_execution_engine.Production.Accounting.{
  AccountingError, no_receipt, identity_rebound, scope_mismatch, unresolved_outcome,
  terminal_economics, verify_terminal_receipt,
}
use kairos_execution_engine.Production.Release.{
  ReleaseError, is_receipt, is_release, insert_release, Acceptor, new_release, in_scope,
  release_row, release_receipt, accept_terminal_receipt,
}
use kairos_execution_engine.Production.Release.Insert.{IsReleasing, insert_returned}

-- An acceptance that returns: the release was there, or it is a new one.
abbrev pub Accepted : Acceptor → Database → ℕ → Digest → Bool → Database → Type 0
Accepted a db id payload_sha256 created next =
    ((created ≡ false)
      × (next ≡ db)
      × ((old : Release) × (find (is_release id) db.releases ≡ some old)
          × ((old.receipt_payload_sha256 == payload_sha256
                && old.context_sha256 == a.context_sha256)
              ≡ true)))
    ⊎ ((created ≡ true)
        × ((new : Release) × IsReleasing db next new
            × (new.receipt_id ≡ id)
            × ((new.receipt_payload_sha256 == payload_sha256
                  && new.context_sha256 == a.context_sha256)
                ≡ true)))

inserted :
    (done : Result ReleaseError Database) (created : Bool) (next : Database)
    → (elim done as (λ _. Result AccountingError (Bool × Database)) [
      | err _ ↦ err unresolved_outcome
      | ok next ↦ ok (true, next)
    ])
      ≡ ok (created, next)
    → (created ≡ true) × (done ≡ ok next)
inserted (err raised) created next h = cc
inserted (ok db) created next h = let (made, same) = ok-pair h in (sym made, ap ok same)

row_returned :
    (a : Acceptor) (db : Database) (id : ℕ) (payload_sha256 : Digest) (t : TerminalReceipt)
    (payload : Facts) (now_at : ℕ) (created : Bool) (next : Database)
    → in_scope a payload_sha256 t ≡ true
    → release_row a db id payload_sha256 t payload now_at ≡ ok (created, next)
    → Accepted a db id payload_sha256 created next
unfolding release_row in_scope new_release
row_returned a db id payload_sha256 t payload now_at created next scope h =
    let (e, priced, rest) =
      bind_returned (terminal_economics payload)
        (λ e. elim (insert_release db (new_release a id payload_sha256 t e) now_at) [
          | err _ ↦ err unresolved_outcome
          | ok next ↦ ok (true, next)
        ])
        h in
    let (made, put) =
      inserted (insert_release db (new_release a id payload_sha256 t e) now_at) created next rest in
    inr (
      made,
      (
        new_release a id payload_sha256 t e,
        insert_returned db next (new_release a id payload_sha256 t e) now_at put,
        refl,
        ground (arith, ==_refl payload_sha256),
      ),
    )

receipt_returned :
    (sha256 : Facts → Digest) (a : Acceptor) (db : Database) (id : ℕ) (payload_sha256 : Digest)
    (t : TerminalReceipt) (now now_at : ℕ) (created : Bool) (next : Database)
    → release_receipt sha256 a db id payload_sha256 t now now_at ≡ ok (created, next)
    → Accepted a db id payload_sha256 created next
unfolding release_receipt
receipt_returned sha256 a db id payload_sha256 t now now_at created next h =
    let (payload, verified, rest) =
      bind_returned (verify_terminal_receipt sha256 (some t) now)
        (λ payload.
          if in_scope a payload_sha256 t
          then release_row a db id payload_sha256 t payload now_at
          else err scope_mismatch)
        h in
    let (scope, left) = if_returned (in_scope a payload_sha256 t) scope_mismatch rest in
    row_returned a db id payload_sha256 t payload now_at created next scope left

-- A release that is accepted was there already and the database is left as it is; or it is new, and
-- its row is added for a reservation of the account that no release had freed.
pub accept_terminal_receipt-Accepted :
    (sha256 : Facts → Digest) (a : Acceptor) (db : Database) (id : ℕ) (payload_sha256 : Digest)
    (now now_at : ℕ) (created : Bool) (next : Database)
    → accept_terminal_receipt sha256 a db id payload_sha256 now now_at ≡ ok (created, next)
    → Accepted a db id payload_sha256 created next
unfolding accept_terminal_receipt
accept_terminal_receipt-Accepted sha256 a db id payload_sha256 now now_at created next h =
    by_release (find (is_release id) db.releases) refl h
  where
    by_receipt :
        (o : Option TerminalReceipt)
        → (elim o as (λ _. Result AccountingError (Bool × Database)) [
          | none ↦ err no_receipt
          | some t ↦ release_receipt sha256 a db id payload_sha256 t now now_at
        ])
          ≡ ok (created, next)
        → Accepted a db id payload_sha256 created next
    by_receipt none k = cc
    by_receipt (some t) k =
        receipt_returned sha256 a db id payload_sha256 t now now_at created next k

    by_release :
        (o : Option Release)
        → find (is_release id) db.releases ≡ o
        → (elim o as (λ _. Result AccountingError (Bool × Database)) [
          | some existing ↦
              if existing.receipt_payload_sha256 == payload_sha256
                && existing.context_sha256 == a.context_sha256
              then ok (false, db)
              else err identity_rebound
          | none ↦ elim (find (is_receipt id) db.terminal_receipts) [
            | none ↦ err no_receipt
            | some t ↦ release_receipt sha256 a db id payload_sha256 t now now_at
          ]
        ])
          ≡ ok (created, next)
        → Accepted a db id payload_sha256 created next
    by_release none there k = by_receipt (find (is_receipt id) db.terminal_receipts) k
    by_release (some old) there k =
        let (exact, rest) =
          if_returned
            (old.receipt_payload_sha256 == payload_sha256 && old.context_sha256 == a.context_sha256)
            identity_rebound k in
        let (made, same) = ok-pair rest in inl (sym made, sym same, (old, there, exact))

listed :
    (a : Acceptor) (db next : Database) (id : ℕ) (payload_sha256 : Digest) (created : Bool)
    → Accepted a db id payload_sha256 created next
    → (old : Release) × (find (is_release id) next.releases ≡ some old)
      × ((old.receipt_payload_sha256 == payload_sha256 && old.context_sha256 == a.context_sha256)
          ≡ true)
listed a db next id payload_sha256 created (inl (made, same, (old, there, exact))) =
    (old, subst (λ db. find (is_release id) db.releases ≡ some old) (sym same) there, exact)
listed a db next id payload_sha256 created (inr (made, (new, added, named, exact))) = (
  new,
  subst (λ db. find (is_release id) db.releases ≡ some new) (sym added.is_row)
      (subst (λ id. find (is_release id) (db.releases ++ new ∷ []) ≡ some new) named
        (rw (find-append (is_release new.receipt_id) db.releases new, added.is_fresh)
          (rw (==_refl new.receipt_id) refl))),
  exact,
)

-- Exactly once: a receipt that is accepted again is accepted as the same release, whatever the time,
-- and the database is left as it is.
pub accept_terminal_receipt-again :
    (sha256 : Facts → Digest) (a : Acceptor) (db : Database) (id : ℕ) (payload_sha256 : Digest)
    (now now_at later later_at : ℕ) (created : Bool) (next : Database)
    → accept_terminal_receipt sha256 a db id payload_sha256 now now_at ≡ ok (created, next)
    → accept_terminal_receipt sha256 a next id payload_sha256 later later_at ≡ ok (false, next)
unfolding accept_terminal_receipt
accept_terminal_receipt-again sha256 a db id payload_sha256 now now_at later later_at created next
      h =
    let (old, there, exact) =
      listed a db next id payload_sha256 created (
        accept_terminal_receipt-Accepted sha256 a db id payload_sha256 now now_at created next h) in
    rw (accept_terminal_receipt, there, exact) refl
