-- ===== src/Production/Messages.antt =====
-- managed_signer.py: the typed message of a signing request, and its exact notional.
pub mod Notional
use kairos_execution_engine.Common.{
  ℕ, ◌*◌, ◌^◌, Bool, true, false, not, ◌&&◌, ◌||◌, List, [], ◌∷◌, Option, none, some, leb, ltb,
  ◌==◌, if◌then◌else◌, all, is_some, Result, ok, err, checked,
}
use kairos_execution_engine.Orders.{is_evedex_client_order_id}
use kairos_execution_engine.Production.Records.{
  Text, Operation, new_limit_order, new_market_order, new_stop_limit_order, position_close_order,
  new_protection, Side, buy, sell, other_side, ProtectionType, stop_loss, take_profit, other_type,
  Message, ManagedSigningRequest, CustodyBinding,
}

pub data Field : Type 0 where
  id instrument side time_in_force leverage quantity cash_quantity limit_price : Field
  stop_price price type order chain_id : Field

abbrev field_index : Field → ℕ
field_index id = 0
field_index instrument = 1
field_index side = 2
field_index time_in_force = 3
field_index leverage = 4
field_index quantity = 5
field_index cash_quantity = 6
field_index limit_price = 7
field_index stop_price = 8
field_index price = 9
field_index type = 10
field_index order = 11
field_index chain_id = 12

abbrev all_fields : List Field
all_fields =
    id ∷ instrument ∷ side ∷ time_in_force ∷ leverage ∷ quantity ∷ cash_quantity ∷ limit_price
    ∷ stop_price ∷ price ∷ type ∷ order ∷ chain_id ∷ []

-- `production_signing_types` with the metadata field `order` of a protection.
unfoldable pub expected_fields : Operation → List Field
expected_fields new_limit_order =
    id ∷ instrument ∷ side ∷ leverage ∷ quantity ∷ limit_price ∷ chain_id ∷ []
expected_fields new_market_order =
    id ∷ instrument ∷ side ∷ time_in_force ∷ leverage ∷ cash_quantity ∷ chain_id ∷ []
expected_fields new_stop_limit_order =
    id ∷ instrument ∷ side ∷ leverage ∷ quantity ∷ limit_price ∷ stop_price ∷ chain_id ∷ []
expected_fields position_close_order = id ∷ instrument ∷ leverage ∷ quantity ∷ chain_id ∷ []
expected_fields new_protection = instrument ∷ type ∷ side ∷ quantity ∷ price ∷ order ∷ []

abbrev carries : Message → Field → Bool
carries m id = is_some m.id
carries m instrument = is_some m.instrument
carries m side = is_some m.side
carries m time_in_force = is_some m.time_in_force_ioc
carries m leverage = is_some m.leverage
carries m quantity = is_some m.quantity
carries m cash_quantity = is_some m.cash_quantity
carries m limit_price = is_some m.limit_price
carries m stop_price = is_some m.stop_price
carries m price = is_some m.price
carries m type = is_some m.type
carries m order = is_some m.order
carries m chain_id = is_some m.chain_id

abbrev lists : List Field → Field → Bool
lists [] f = false
lists (g ∷ gs) f = field_index g == field_index f || lists gs f

abbrev pub same_bool : Bool → Bool → Bool
same_bool true b = b
same_bool false b = not b

-- `set(message) == expected_fields | metadata_fields`.
unfoldable pub has_schema : Operation → Message → Bool
unfolding expected_fields
has_schema op m = all (λ f. same_bool (carries m f) (lists (expected_fields op) f)) all_fields

-- A test of a field that is present.
abbrev pub if_present {ℓ} : {A : Type ℓ} → (A → Bool) → Option A → Bool
if_present test none = true
if_present test (some a) = test a

abbrev pub is_positive : ℕ → Bool
is_positive n = ltb 0 n

-- `0 <= value < 2**bits` of each integer field of the schema.
unfoldable pub fits_schema : Message → Bool
fits_schema m =
    if_present (λ n. ltb n (2 ^ 8)) m.leverage
    && (if_present (λ n. ltb n (2 ^ 96)) m.quantity
        && (if_present (λ n. ltb n (2 ^ 96)) m.cash_quantity
            && (if_present (λ n. ltb n (2 ^ 80)) m.limit_price
                && (if_present (λ n. ltb n (2 ^ 80)) m.stop_price
                    && (if_present (λ n. ltb n (2 ^ 80)) m.price
                        && if_present (λ n. ltb n (2 ^ 256)) m.chain_id)))))

abbrev pub is_member : List ℕ → ℕ → Bool
is_member [] a = false
is_member (x ∷ xs) a = x == a || is_member xs a

abbrev pub is_side : Side → Bool
is_side other_side = false
is_side _ = true

abbrev pub is_protection_type : ProtectionType → Bool
is_protection_type other_type = false
is_protection_type _ = true

abbrev pub is_protection : Operation → Bool
is_protection new_protection = true
is_protection _ = false

pub data MessageError : Type 0 where
  wrong_schema wrong_integer unapproved_instrument wrong_chain wrong_side : MessageError
  wrong_leverage wrong_time_in_force wrong_order_id wrong_parent_id wrong_type : MessageError
  price_not_positive quantity_not_positive : MessageError

-- `_typed_message`, of a message that is parsed: the message itself, or the refusal. The tests of a
-- text's length and characters follow from the later ones of its value, and are left out.
unfoldable pub message_checks :
    ManagedSigningRequest → CustodyBinding → Message → List (Bool × MessageError)
message_checks r b m =
    (has_schema r.operation m, wrong_schema)
    ∷ (fits_schema m, wrong_integer)
    ∷ (
      elim m.instrument [ none ↦ false | some i ↦ is_member b.approved_instruments i ],
      unapproved_instrument,
    )
    ∷ (if_present (λ n. n == b.chain_id) m.chain_id, wrong_chain)
    ∷ (if_present is_side m.side, wrong_side)
    ∷ (if_present (λ n. n == 1) m.leverage, wrong_leverage)
    ∷ (if_present (λ ioc. ioc) m.time_in_force_ioc, wrong_time_in_force)
    ∷ (if_present is_evedex_client_order_id m.id, wrong_order_id)
    ∷ (if_present is_evedex_client_order_id m.order, wrong_parent_id)
    ∷ (if_present is_protection_type m.type, wrong_type)
    ∷ (
      if_present is_positive m.cash_quantity
          && (if_present is_positive m.limit_price
              && (if_present is_positive m.stop_price && if_present is_positive m.price)),
      price_not_positive,
    )
    ∷ (is_protection r.operation || if_present is_positive m.quantity, quantity_not_positive)
    ∷ []

unfoldable pub typed_message : ManagedSigningRequest → CustodyBinding → Result MessageError Message
typed_message r b = checked (message_checks r b r.message) r.message

pub data NotionalError : Type 0 where
  no_cash_notional no_quantity_or_price : NotionalError

abbrev or_else {ℓ} : {A : Type ℓ} → Option A → Option A → Option A
or_else (some a) b = some a
or_else none b = b

-- `message.get("limitPrice", message.get("price"))`.
abbrev pub order_price : Message → Option ℕ
order_price m = or_else m.limit_price m.price

-- `_entry_notional_usd` of production_state.py, in units of 10^-16 USD.
unfoldable pub entry_notional_usd : Message → Result NotionalError ℕ
entry_notional_usd m = elim m.cash_quantity [
  | some amount ↦ if is_positive amount then ok (amount * 10 ^ 8) else err no_cash_notional
  | none ↦ elim m.quantity [
    | none ↦ err no_quantity_or_price
    | some q ↦ elim (order_price m) [
      | none ↦ err no_quantity_or_price
      | some p ↦ if is_positive q && is_positive p then ok (q * p) else err no_quantity_or_price
    ]
  ]
]

-- The notional of `_verify_evidence` in signing_authorization.py.
unfoldable pub signed_notional : Message → ℕ
signed_notional m = elim m.cash_quantity [
  | some amount ↦ amount * 10 ^ 8
  | none ↦ elim m.quantity [
    | none ↦ 0
    | some q ↦ elim (order_price m) [ none ↦ 0 | some p ↦ q * p ]
  ]
]

-- `operation in {"Position close order", "New take-profit/stop-loss"}`.
abbrev pub is_exit : Operation → Bool
is_exit position_close_order = true
is_exit new_protection = true
is_exit _ = false
