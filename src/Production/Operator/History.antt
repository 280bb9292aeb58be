-- ===== src/Production/Operator/History.antt =====
-- The operator's history, as its writers and the other transactions leave it.
use kairos_execution_engine.Common.{
  ℕ, ◌≡◌, refl, sym, subst, ap, ◌∙◌, true, [], ◌∷◌, ◌++◌, ltb, ◌==◌, arith, some, ◌⊎◌, inl, inr,
  Result, ok, err, ok-injective, checked, bind_returned, unless_returned, Member, Member-append,
}
use kairos_execution_engine.Production.Records.{Digest, LiveOperatorState, Hashes}
use kairos_execution_engine.Production.Authorization.{is_armed}
use kairos_execution_engine.Production.Database.{OperatorRow, Database}
use kairos_execution_engine.Production.Operator.{
  OperatorError, context_differs, append_rejected, operator_clock, same_arm, latest_row,
  enforce_operator_append, observation_checks, observation, insert_observation,
  append_operator_observation,
}
use kairos_execution_engine.Production.Operator.Rows.{arm_symmetric, second_armed, new_row}

-- The history that the writers and other transactions leave.
pub data History (h : Hashes) : Database → Type 0 where
  begins : (db : Database) → db.operator_observations ≡ [] → History h db
  observes :
      {db next : Database} (context : ℕ) (state : LiveOperatorState) (db_now now_at : ℕ)
      → History h db
      → append_operator_observation h context db state db_now now_at ≡ ok next
      → History h next
  others :
      {db next : Database}
      → History h db
      → next.operator_observations ≡ db.operator_observations
      → History h next

put_returned :
    (db next : Database) (new : OperatorRow) (now_at : ℕ)
    → insert_observation db new now_at ≡ ok next
    → (enforce_operator_append db new now_at ≡ ok tt)
      × (next.operator_observations ≡ db.operator_observations ++ new ∷ [])
unfolding insert_observation
put_returned db next new now_at returned = by_guard (enforce_operator_append db new now_at) returned
  where
    by_guard :
        (guarded : Result OperatorError (Unit {0}))
        → (elim guarded as (λ _. Result OperatorError Database) [
          | err _ ↦ err append_rejected
          | ok _ ↦ ok (record db { operator_observations = db.operator_observations ++ new ∷ [] })
        ])
          ≡ ok next
        → (guarded ≡ ok tt) × (next.operator_observations ≡ db.operator_observations ++ new ∷ [])
    by_guard (err raised) h = cc
    by_guard (ok _) h = (refl, ap (λ db. db.operator_observations) (sym (ok-injective h)))

append_returned :
    (h : Hashes) (context : ℕ) (db next : Database) (state : LiveOperatorState) (db_now now_at : ℕ)
    → append_operator_observation h context db state db_now now_at ≡ ok next
    → (enforce_operator_append db (observation h state) now_at ≡ ok tt)
      × (next.operator_observations ≡ db.operator_observations ++ observation h state ∷ [])
unfolding append_operator_observation
append_returned h context db next state db_now now_at returned =
    let (_, timed) = unless_returned (state.context == context) context_differs returned in
    let (_, read) = unless_returned (ltb state.observed_at db_now) operator_clock timed in
    let (value, passed, put) =
      bind_returned (checked (observation_checks (latest_row (h.context context) db) state) tt)
        (λ _. insert_observation db (observation h state) now_at) read in
    put_returned db next (observation h state) now_at put

arms_once :
    (h : Hashes) (db : Database) (p q : OperatorRow)
    → History h db
    → Member p db.operator_observations
    → Member q db.operator_observations
    → is_armed p.payload.state ≡ true
    → same_arm p q ≡ true
    → p.version ≡ q.version
arms_once h db p q (begins _ empty) p_in q_in on same = elim (subst (Member p) empty p_in) [ ]
arms_once h next p q (others {db = prior} before kept) p_in q_in on same =
    arms_once h prior p q before (subst (Member p) kept p_in) (subst (Member q) kept q_in) on same
arms_once h next p q (observes {db = prior} context state db_now now_at before returned) p_in q_in
      on same =
    let (guarded, rows) = append_returned h context prior next state db_now now_at returned in
    by_members (λ p q. arms_once h prior p q before) guarded
      (Member-append p prior.operator_observations (observation h state)
        (subst (Member p) rows p_in))
      (Member-append q prior.operator_observations (observation h state)
        (subst (Member q) rows q_in))
  where
    by_members :
        (once : (p q : OperatorRow)
          → Member p prior.operator_observations
          → Member q prior.operator_observations
          → is_armed p.payload.state ≡ true
          → same_arm p q ≡ true
          → p.version ≡ q.version)
        → enforce_operator_append prior (observation h state) now_at ≡ ok tt
        → Member p prior.operator_observations ⊎ (p ≡ observation h state)
        → Member q prior.operator_observations ⊎ (q ≡ observation h state)
        → p.version ≡ q.version
    by_members once guarded (inl p_in) (inl q_in) = once p q p_in q_in on same
    by_members once guarded (inr p_new) (inr q_new) = ap (λ o. o.version) (p_new ∙ sym q_new)
    by_members once guarded (inr p_new) (inl q_in) =
        ap (λ o. o.version) p_new
        ∙ new_row prior (observation h state) q now_at once guarded q_in
            (subst (λ p. is_armed p.payload.state ≡ true) p_new on)
            (subst (λ p. same_arm p q ≡ true) p_new same)
    by_members once guarded (inl p_in) (inr q_new) = sym (
        ap (λ o. o.version) q_new
        ∙ new_row prior (observation h state) p now_at once guarded p_in
            (subst (λ q. is_armed q.payload.state ≡ true) q_new (second_armed p q same))
            (arm_symmetric p (observation h state) on
              (subst (λ q. same_arm p q ≡ true) q_new same)))

-- An owner's arm arms the operator by one command: whatever transactions have run, any two ARMED
-- rows of the history with the same owner nonce and request, in the same context, have one
-- version.
pub History-same_arm :
    (h : Hashes) (db : Database) (p q : OperatorRow) (nonce request : Digest)
    → History h db
    → Member p db.operator_observations
    → Member q db.operator_observations
    → (is_armed p.payload.state ≡ true) × (is_armed q.payload.state ≡ true)
    → p.context_sha256 ≡ q.context_sha256
    → (p.payload.arm_nonce ≡ some nonce) × (q.payload.arm_nonce ≡ some nonce)
    → (p.payload.arm_request_sha256 ≡ some request) × (q.payload.arm_request_sha256 ≡ some request)
    → p.version ≡ q.version
History-same_arm h db p q nonce request before p_in q_in on context nonces requests =
    arms_once h db p q before p_in q_in on.0 (ground arith)
