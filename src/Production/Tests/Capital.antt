-- ===== src/Production/Tests/Capital.antt =====
-- The reservation of the scene's entry, and its release.
use kairos_execution_engine.Common.{
  ◌≡◌, refl, ◌⊎◌, [], ◌∷◌, ok, err, true, false, checked, All, ◌+◌, ◌-◌, ltb, if◌then◌else◌, arith,
}
use kairos_execution_engine.Orders.{is_evedex_client_order_id}
use kairos_execution_engine.Production.Messages.{
  typed_message, message_checks, has_schema, expected_fields, fits_schema, entry_notional_usd,
  signed_notional,
}
use kairos_execution_engine.Production.Authorization.{
  same_command, validate_scope, validated_manual_request, verify_owner_signed_arm, is_claimed,
  is_bound, is_current, same_geometry, within_limits,
}
use kairos_execution_engine.Production.Verification.{
  entry_checks, verify_entry, fresh_enough, risk_checks, owner_checks, verify_geometry,
  verify_evidence,
}
use kairos_execution_engine.Production.Decimal.{context_limit, last_place, round_28}
use kairos_execution_engine.Production.Limits.{
  version_3, release_of, totals_of, reservation_totals, current_limits, is_within, guard_limits,
  is_admitted,
}
use kairos_execution_engine.Production.Limits.Agree.{IsPositive, IsPrecise, is_within-is_admitted}
use kairos_execution_engine.Production.Limits.Append.{IsStopped}
use kairos_execution_engine.Production.Guard.{
  matches_decision, expected_notional, matches_lease, matches_arm, guard_checks, guard_arm,
  enforce_risk_reservation, is_positive_row, table_checks, insert_reservation,
}
use kairos_execution_engine.Production.Reserve.{
  new_reservation, is_same_reservation, append_reservation, reserve_row, reserve, reserve_entry,
}
use kairos_execution_engine.Production.Lineage.{
  lineage_checks, lease_holds, is_persisted, is_accepted, is_current_command, evidence_checks,
  evidence_expired, operator_changed,
}
use kairos_execution_engine.Production.Reserve.Again.{reserve_entry-again}
use kairos_execution_engine.Production.Reserve.Capital.{
  Reachable, start, step, reserves, Covered, Reachable-Covered,
}
use kairos_execution_engine.Production.Reserve.Daily.{reserve_entry-IsStopped}
use kairos_execution_engine.Production.Flow.{verify_at, reserve_verify, verify_read, resolve_verify}
use kairos_execution_engine.Production.Flow.Reserved.{IsReserved, resolve_verify-IsReserved}
use kairos_execution_engine.Production.Tests.Scene.{
  hashes, verifier, binding, entry, entry_evidence, on_state,
}
use kairos_execution_engine.Production.Tests.Account.{source, before, row, after, clocks, sha256}

row-IsPositive : All IsPositive (row ∷ [])
unfolding is_positive_row
row-IsPositive = (refl, tt)

row-IsPrecise :
    IsPrecise
      (reservation_totals version_3 [] (row ∷ []) 1)
      (guard_limits version_3 (reservation_totals version_3 [] (row ∷ []) 1) row)
      row
unfolding release_of totals_of reservation_totals guard_limits
row-IsPrecise = record {
  equity = omega arith;
  open_risk = omega arith;
  open_notional = omega arith;
  loss = omega arith;
}

-- Ties go to the even digit: half a unit of the last place is dropped after 0, and added after 1.
rounds_half_even :
    (round_28 (context_limit + 5) ≡ context_limit)
    × (round_28 (context_limit + 15) ≡ context_limit + 20)
    × (round_28 (context_limit - 1) ≡ context_limit - 1)
unfolding round_28 last_place
rounds_half_even = (refl, refl, refl)

is_within-is_admitted_example :
    is_within
      (reservation_totals version_3 [] (row ∷ []) 1)
      (current_limits version_3 (reservation_totals version_3 [] (row ∷ []) 1) row)
      row
    ≡ is_admitted
        (reservation_totals version_3 [] (row ∷ []) 1)
        (guard_limits version_3 (reservation_totals version_3 [] (row ∷ []) 1) row)
        row
is_within-is_admitted_example =
    is_within-is_admitted version_3 [] (row ∷ []) 1 row row-IsPositive row-IsPrecise

entry_reserved :
    reserve_entry hashes source before entry binding entry_evidence 100100 100200 ≡ ok after
unfolding typed_message message_checks has_schema expected_fields fits_schema
    is_evedex_client_order_id checked entry_notional_usd same_command release_of totals_of
    reservation_totals current_limits is_within round_28 guard_limits is_admitted matches_decision
    expected_notional matches_lease matches_arm guard_checks guard_arm enforce_risk_reservation
    is_positive_row table_checks insert_reservation lineage_checks lease_holds is_persisted
    is_accepted is_current_command new_reservation is_same_reservation append_reservation
    reserve_row evidence_checks reserve reserve_entry
entry_reserved = refl

-- The operator's command ends at 180000, the lease of the decision at 115000.
reserve_entry-again_example :
    reserve_entry hashes source after entry binding entry_evidence 102000 300000 ≡ (
      if lease_holds source entry_evidence.risk entry_evidence.owner_arm.request 102000
      then (if ltb 102000 180000 then ok after else err operator_changed)
      else err evidence_expired)
reserve_entry-again_example =
    reserve_entry-again hashes source before after entry binding entry_evidence on_state 180000
      100100 100200 102000 300000 refl entry_reserved refl refl

lease_over_time :
    (lease_holds source entry_evidence.risk entry_evidence.owner_arm.request 102000 ≡ true)
    × (lease_holds source entry_evidence.risk entry_evidence.owner_arm.request 120000 ≡ false)
unfolding lease_holds
lease_over_time = (refl, refl)

before-Reachable : Reachable hashes sha256 version_3 before
before-Reachable = start before refl refl

Reachable-Covered_example : Covered version_3 1 after
Reachable-Covered_example = Reachable-Covered hashes sha256 version_3 after 1 (
    step before-Reachable
      (reserves source entry binding entry_evidence 100100 100200 refl entry_reserved))

reserve_entry-IsStopped_example :
    (after ≡ before)
    ⊎ IsStopped (
        reservation_totals version_3 after.releases after.reservations
          (hashes.account source.context))
reserve_entry-IsStopped_example =
    reserve_entry-IsStopped hashes sha256 source before after entry binding entry_evidence 100100
      100200 before-Reachable refl refl entry_reserved

entry_resolved :
    resolve_verify hashes verifier source before entry binding entry_evidence true clocks ≡ ok after
unfolding typed_message message_checks has_schema expected_fields fits_schema
    is_evedex_client_order_id checked entry_notional_usd same_command release_of totals_of
    reservation_totals current_limits is_within round_28 guard_limits is_admitted matches_decision
    expected_notional matches_lease matches_arm guard_checks guard_arm enforce_risk_reservation
    is_positive_row table_checks insert_reservation lineage_checks lease_holds is_persisted
    is_accepted is_current_command new_reservation is_same_reservation append_reservation
    reserve_row evidence_checks reserve reserve_entry validate_scope validated_manual_request
    verify_owner_signed_arm is_claimed is_bound is_current same_geometry within_limits entry_checks
    verify_entry fresh_enough risk_checks owner_checks verify_geometry verify_evidence
    signed_notional verify_at reserve_verify verify_read resolve_verify
entry_resolved = refl

resolve_verify-IsReserved_example :
    IsReserved hashes source after entry binding entry_evidence 100300
resolve_verify-IsReserved_example =
    resolve_verify-IsReserved hashes verifier source before after entry binding entry_evidence
      clocks refl entry_resolved
