-- ===== src/Production/Operator.antt =====
-- production_state.py: the operator's history, as `append_operator_observation_async` writes it and as
-- the trigger `enforce_operator_append` guards it.
pub mod History
pub mod Rows
use kairos_execution_engine.Common.{
  ℕ, ◌+◌, Bool, true, false, not, ◌&&◌, ◌||◌, List, [], ◌∷◌, ◌++◌, Option, none, some, leb, ltb,
  ◌==◌, if◌then◌else◌, is_some, Result, ok, err, checked,
}
use kairos_execution_engine.Production.Records.{
  Digest, LatchState, armed, disarmed, killed, LiveOperatorState, Hashes,
}
use kairos_execution_engine.Production.Authorization.{is_armed, same_command}
use kairos_execution_engine.Production.Database.{
  ArmRow, OperatorRow, Database, find, select, latest,
}

pub data OperatorError : Type 0 where
  context_differs operator_clock operator_initial_state operator_time_order : OperatorError
  operator_revision_content operator_arm_transition operator_nonce_reuse : OperatorError
  operator_owner_arm_link operator_revision_lineage append_rejected : OperatorError

abbrev pub is_disarmed : LatchState → Bool
is_disarmed disarmed = true
is_disarmed _ = false

-- SQL's `=`, which is not true of a NULL.
abbrev pub same_value : Option ℕ → Option ℕ → Bool
same_value (some a) (some b) = a == b
same_value _ _ = false

-- Whether the earlier row `p` is ARMED, of the nonce and the request of the new row.
abbrev pub same_arm : OperatorRow → OperatorRow → Bool
same_arm new p =
    p.context_sha256 == new.context_sha256
    && (is_armed p.payload.state
        && (same_value p.payload.arm_nonce new.payload.arm_nonce
            && same_value p.payload.arm_request_sha256 new.payload.arm_request_sha256))

-- The arm's row of the nonce and the request.
abbrev pub is_owner_arm : OperatorRow → ArmRow → Bool
is_owner_arm new a =
    a.context_sha256 == new.context_sha256
    && (same_value (some a.request_sha256) new.payload.arm_request_sha256
        && same_value (some a.nonce) new.payload.arm_nonce)

abbrev is_after : ℕ → Option ℕ → Bool
is_after now none = false
is_after now (some t) = ltb now t

-- The tests of a rearm.
unfoldable pub arm_checks : Database → LiveOperatorState → OperatorRow → List (Bool × OperatorError)
arm_checks db prior new =
    (
      not (is_armed prior.state)
          && (is_some new.payload.arm_nonce
              && (is_some new.payload.arm_request_sha256
                  && is_after new.observed_at new.payload.expires_at)),
      operator_arm_transition,
    )
    ∷ (not (is_some (find (same_arm new) db.operator_observations)), operator_nonce_reuse)
    ∷ (is_some (find (is_owner_arm new) db.owner_arms), operator_owner_arm_link)
    ∷ []

abbrev pub is_contiguous : ℕ → LiveOperatorState → LiveOperatorState → Bool
is_contiguous version prior new =
    version == prior.version + 1
    && (new.previous_command_sha256 == prior.command_sha256 && leb prior.changed_at new.changed_at)

-- A new revision of the command.
unfoldable pub guard_revision :
    Database → LiveOperatorState → OperatorRow → Result OperatorError (Unit {0})
guard_revision db prior new =
    let lineage =
      checked ((is_contiguous new.version prior new.payload, operator_revision_lineage) ∷ []) tt in
    if is_armed new.payload.state
    then elim (checked (arm_checks db prior new) tt) [ err raised ↦ err raised | ok _ ↦ lineage ]
    else lineage

unfoldable pub guard_next : Database → OperatorRow → OperatorRow → Result OperatorError (Unit {0})
guard_next db prior new =
    if not (ltb prior.observed_at new.observed_at)
    then err operator_time_order
    else if new.version == prior.version
    then checked ((same_command new.payload prior.payload, operator_revision_content) ∷ []) tt
    else guard_revision db prior.payload new

abbrev pub latest_row : Digest → Database → Option OperatorRow
latest_row context db =
    latest (λ o. o.observed_at) (select (λ o. o.context_sha256 == context) db.operator_observations)

unfoldable pub enforce_operator_append :
    Database → OperatorRow → ℕ → Result OperatorError (Unit {0})
enforce_operator_append db new now_at =
    if not (ltb new.observed_at now_at)
    then err operator_clock
    else elim (latest_row new.context_sha256 db) [
      | none ↦ checked ((is_disarmed new.payload.state, operator_initial_state) ∷ []) tt
      | some prior ↦ guard_next db prior new
    ]

-- The tests of `append_operator_observation_async` against the latest row.
unfoldable pub observation_checks :
    Option OperatorRow → LiveOperatorState → List (Bool × OperatorError)
observation_checks none state = (is_disarmed state.state, operator_initial_state) ∷ []
observation_checks (some latest) state =
    (ltb latest.payload.observed_at state.observed_at, operator_time_order)
    ∷ (
      not (state.version == latest.payload.version) || same_command state latest.payload,
      operator_revision_content,
    )
    ∷ (
      state.version == latest.payload.version || is_contiguous state.version latest.payload state,
      operator_revision_lineage,
    )
    ∷ []

-- The row that the INSERT writes.
unfoldable pub observation : Hashes → LiveOperatorState → OperatorRow
observation h state = record {
  context_sha256 = h.context state.context;
  version = state.version;
  observed_at = state.observed_at;
  payload = state;
  payload_sha256 = h.operator state;
}

-- The INSERT, guarded by the trigger.
unfoldable pub insert_observation : Database → OperatorRow → ℕ → Result OperatorError Database
insert_observation db new now_at = elim (enforce_operator_append db new now_at) [
  | err _ ↦ err append_rejected
  | ok _ ↦ ok (record db { operator_observations = db.operator_observations ++ new ∷ [] })
]

-- The writer of a context, with the clock as it reads it and as the trigger does.
unfoldable pub append_operator_observation :
    Hashes → ℕ → Database → LiveOperatorState → ℕ → ℕ → Result OperatorError Database
append_operator_observation h context db state db_now now_at =
    if not (state.context == context)
    then err context_differs
    else if not (ltb state.observed_at db_now)
    then err operator_clock
    else elim (checked (observation_checks (latest_row (h.context context) db) state) tt) [
      | err raised ↦ err raised
      | ok _ ↦ insert_observation db (observation h state) now_at
    ]
