-- ===== src/Production/Operator/Rows.antt =====
-- The rows that the trigger lets into the operator's history.
use kairos_execution_engine.Common.{
  ℕ, ◌≡◌, refl, sym, ◌∙◌, true, false, [], ◌∷◌, Option, none, some, arith, ltb, ◌==◌, if◌then◌else◌,
  ◌⊎◌, inl, inr, if_true, if_false, Bool-cases, absent, Result, ok, checked, checked_returned,
  bind_returned, unless_returned, Member,
}
use kairos_execution_engine.Production.Records.{
  Digest, LatchState, armed, disarmed, killed, LiveOperatorState,
}
use kairos_execution_engine.Production.Authorization.{is_armed, same_command}
use kairos_execution_engine.Production.Database.{OperatorRow, Database, find, select}
use kairos_execution_engine.Production.Database.Rows.{find-Member, latest-Member, select-Member}
use kairos_execution_engine.Production.Operator.{
  OperatorError, operator_time_order, operator_revision_content, operator_initial_state,
  operator_clock, is_disarmed, same_arm, arm_checks, guard_revision, guard_next, latest_row,
  enforce_operator_append,
}

-- The same command has the same arm.
command_arm :
    (new prior p : OperatorRow)
    → new.context_sha256 ≡ prior.context_sha256
    → same_command new.payload prior.payload ≡ true
    → same_arm new p ≡ true
    → same_arm prior p ≡ true
unfolding same_command
command_arm new prior p context same arm = ground arith

latest_found :
    (context : Digest) (db : Database) (prior : OperatorRow)
    → latest_row context db ≡ some prior
    → Member prior db.operator_observations × ((prior.context_sha256 == context) ≡ true)
latest_found context db prior h =
    select-Member (λ o. o.context_sha256 == context) db.operator_observations prior
      (latest-Member (λ o. o.observed_at)
        (select (λ o. o.context_sha256 == context) db.operator_observations) prior h)

pub arm_symmetric :
    (p q : OperatorRow)
    → is_armed p.payload.state ≡ true
    → same_arm p q ≡ true
    → same_arm q p ≡ true
arm_symmetric p q on same = ground arith

pub second_armed : (p q : OperatorRow) → same_arm p q ≡ true → is_armed q.payload.state ≡ true
second_armed p q same = ground arith

command_armed :
    (new prior : OperatorRow)
    → is_armed new.payload.state ≡ true
    → same_command new.payload prior.payload ≡ true
    → is_armed prior.payload.state ≡ true
unfolding same_command
command_armed new prior on same = ground arith

-- A rearm that the trigger lets in names an arm that no row has used.
rearm_fresh :
    (db : Database) (prior : LiveOperatorState) (new q : OperatorRow)
    → is_armed new.payload.state ≡ true
    → guard_revision db prior new ≡ ok tt
    → Member q db.operator_observations
    → same_arm new q ≡ false
unfolding guard_revision arm_checks
rearm_fresh db prior new q on guarded there =
    let (value, passed, _) =
      bind_returned (checked (arm_checks db prior new) tt) (λ _. _)
        (sym (if_true _ _ on) ∙ guarded) in
    let (fresh, _) = (checked_returned (arm_checks db prior new) tt passed).1.1 in
    find-Member (same_arm new) db.operator_observations q there
      (absent (find (same_arm new) db.operator_observations) fresh)

-- A row that the trigger lets in has the version of every row of its arm.
new_version :
    (db : Database) (prior new q : OperatorRow)
    → (once : (p q : OperatorRow)
        → Member p db.operator_observations
        → Member q db.operator_observations
        → is_armed p.payload.state ≡ true
        → same_arm p q ≡ true
        → p.version ≡ q.version)
    → Member prior db.operator_observations
    → new.context_sha256 ≡ prior.context_sha256
    → guard_next db prior new ≡ ok tt
    → Member q db.operator_observations
    → is_armed new.payload.state ≡ true
    → same_arm new q ≡ true
    → new.version ≡ q.version
unfolding guard_next
new_version db prior new q once before context guarded there on same =
    let (_, later) =
      unless_returned (ltb prior.observed_at new.observed_at) operator_time_order guarded in
    by_version (Bool-cases (new.version == prior.version)) later
  where
    by_version :
        ((new.version == prior.version) ≡ true) ⊎ ((new.version == prior.version) ≡ false)
        → (if new.version == prior.version
            then checked
                ((same_command new.payload prior.payload, operator_revision_content) ∷ [])
                tt
            else guard_revision db prior.payload new)
          ≡ ok tt
        → new.version ≡ q.version
    by_version (inl equal) later =
        let command =
          (checked_returned
            ((same_command new.payload prior.payload, operator_revision_content) ∷ []) tt
            (sym (if_true _ _ equal) ∙ later)).1.0 in
        let versions : new.version ≡ prior.version = ground arith in
        versions
        ∙ once prior q before there (command_armed new prior on command)
            (command_arm new prior q context command same)
    by_version (inr other) later =
        let fresh =
          rearm_fresh db prior.payload new q on (sym (if_false _ _ other) ∙ later) there in
        cc

disarmed_not : (s : LatchState) → is_disarmed s ≡ true → is_armed s ≡ true → ⊥
disarmed_not armed off on = cc
disarmed_not disarmed off on = cc
disarmed_not killed off on = cc

-- The trigger's two cases.
enforce_returned :
    (db : Database) (new : OperatorRow) (now_at : ℕ)
    → enforce_operator_append db new now_at ≡ ok tt
    → (is_disarmed new.payload.state ≡ true)
      ⊎ ((prior : OperatorRow) × (latest_row new.context_sha256 db ≡ some prior)
          × (guard_next db prior new ≡ ok tt))
unfolding enforce_operator_append
enforce_returned db new now_at guarded =
    by_latest (latest_row new.context_sha256 db) refl
      (unless_returned (ltb new.observed_at now_at) operator_clock guarded).1
  where
    by_latest :
        (o : Option OperatorRow)
        → latest_row new.context_sha256 db ≡ o
        → (elim o as (λ _. Result OperatorError (Unit {0})) [
          | none ↦ checked ((is_disarmed new.payload.state, operator_initial_state) ∷ []) tt
          | some prior ↦ guard_next db prior new
        ])
          ≡ ok tt
        → (is_disarmed new.payload.state ≡ true)
          ⊎ ((prior : OperatorRow) × (latest_row new.context_sha256 db ≡ some prior)
              × (guard_next db prior new ≡ ok tt))
    by_latest none read h =
        inl
          (checked_returned ((is_disarmed new.payload.state, operator_initial_state) ∷ []) tt h).1.0
    by_latest (some prior) read h = inr (prior, read, h)

-- A new row against the rows before it.
pub new_row :
    (db : Database) (new q : OperatorRow) (now_at : ℕ)
    → (once : (p q : OperatorRow)
        → Member p db.operator_observations
        → Member q db.operator_observations
        → is_armed p.payload.state ≡ true
        → same_arm p q ≡ true
        → p.version ≡ q.version)
    → enforce_operator_append db new now_at ≡ ok tt
    → Member q db.operator_observations
    → is_armed new.payload.state ≡ true
    → same_arm new q ≡ true
    → new.version ≡ q.version
new_row db new q now_at once guarded there on same = elim (enforce_returned db new now_at guarded) [
  | inl off ↦ elim (disarmed_not new.payload.state off on) [ ]
  | inr (prior, read, next) ↦
      let (before, context) = latest_found new.context_sha256 db prior read in
      new_version db prior new q once before (ground arith) next there on same
]
