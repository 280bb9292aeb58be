-- ===== src/Production/Tests/Signing.antt =====
-- The authorization theorems at the entry and at the exit of the scene.
use kairos_execution_engine.Common.{ℕ, ◌≡◌, refl, ◌<◌, some, ok, checked}
use kairos_execution_engine.Orders.{is_evedex_client_order_id}
use kairos_execution_engine.Production.Records.{Message, ExposureSnapshot, LiveOperatorState}
use kairos_execution_engine.Production.Messages.{
  typed_message, message_checks, has_schema, expected_fields, fits_schema, entry_notional_usd,
  signed_notional,
}
use kairos_execution_engine.Production.Messages.Notional.{typed_notional}
use kairos_execution_engine.Production.Authorization.{
  validated_manual_request, verify_owner_signed_arm, is_claimed, is_bound, is_current,
  same_geometry, within_limits,
}
use kairos_execution_engine.Production.Verification.{
  exit_checks, verify_exit, entry_checks, verify_entry, fresh_enough, risk_checks, owner_checks,
  verify_geometry, verify_evidence,
}
use kairos_execution_engine.Production.Verification.Exits.{
  IsReducing, verify_evidence-operator, verify_evidence-IsReducing,
}
use kairos_execution_engine.Production.Verification.Entries.{
  IsArmedBy, IsBounded, verify_evidence-IsArmedBy,
}
use kairos_execution_engine.Production.Tests.Scene.{
  hashes, verifier, binding, entry_message, entry, entry_evidence, exit, exit_evidence, off_state,
}

entry_typed : typed_message entry binding ≡ ok entry_message
unfolding typed_message message_checks has_schema expected_fields fits_schema
    is_evedex_client_order_id checked
entry_typed = refl

typed_notional_example :
    (entry_notional_usd entry_message ≡ ok (signed_notional entry_message))
    × (0 < signed_notional entry_message)
typed_notional_example = typed_notional entry binding entry_message refl entry_typed

entry_verified : verify_evidence hashes verifier entry binding entry_evidence 100000 ≡ ok tt
unfolding typed_message message_checks has_schema expected_fields fits_schema
    is_evedex_client_order_id validated_manual_request verify_owner_signed_arm is_claimed is_bound
    is_current same_geometry within_limits exit_checks verify_exit entry_checks verify_entry
    fresh_enough risk_checks owner_checks verify_geometry verify_evidence checked signed_notional
entry_verified = refl

exit_verified : verify_evidence hashes verifier exit binding exit_evidence 100000 ≡ ok tt
unfolding typed_message message_checks has_schema expected_fields fits_schema
    is_evedex_client_order_id validated_manual_request verify_owner_signed_arm is_claimed is_bound
    is_current same_geometry within_limits exit_checks verify_exit entry_checks verify_entry
    fresh_enough risk_checks owner_checks verify_geometry verify_evidence checked signed_notional
exit_verified = refl

verify_evidence-operator_example :
    verify_evidence hashes verifier exit binding
      (record exit_evidence { operator = some off_state })
      100000
    ≡ verify_evidence hashes verifier exit binding exit_evidence 100000
verify_evidence-operator_example =
    verify_evidence-operator hashes verifier exit binding exit_evidence (some off_state) 100000 refl

verify_evidence-IsReducing_example :
    (m : Message) × (x : ExposureSnapshot) × (quantity : ℕ) × (typed_message exit binding ≡ ok m)
    × (exit_evidence.exposure ≡ some x)
    × IsReducing exit binding m x 100000 quantity
verify_evidence-IsReducing_example =
    verify_evidence-IsReducing hashes verifier exit binding exit_evidence 100000 refl exit_verified

verify_evidence-IsArmedBy_example :
    (m : Message) × (o : LiveOperatorState) × (typed_message entry binding ≡ ok m)
    × (entry_evidence.operator ≡ some o)
    × IsArmedBy hashes entry_evidence.owner_arm.request o 100000 entry.expires_at
    × IsBounded entry_evidence.risk entry_evidence.owner_arm.request (signed_notional m)
verify_evidence-IsArmedBy_example =
    verify_evidence-IsArmedBy hashes verifier entry binding entry_evidence 100000 refl
      entry_verified
