-- ===== src/Production/Messages/Notional.antt =====
-- A typed entry message has one positive notional, which its two readers agree on.
use kairos_execution_engine.Common.{
  is_some, ℕ, ◌*◌, ◌<◌, ◌≡◌, refl, true, false, ◌||◌, Option, none, some, ok, arith,
  checked_returned, ◌⊎◌, inl, inr,
}
use kairos_execution_engine.Production.Records.{
  Operation, Message, ManagedSigningRequest, CustodyBinding,
}
use kairos_execution_engine.Production.Messages.{
  typed_message, has_schema, entry_notional_usd, signed_notional, is_exit, message_checks,
  is_positive, if_present, is_protection,
}

-- What an accepted message satisfies of the tests that its notional reads.
accepted :
    (r : ManagedSigningRequest) (b : CustodyBinding) (m : Message)
    → typed_message r b ≡ ok m
    → (m ≡ r.message)
      × (has_schema r.operation r.message ≡ true)
      × (if_present is_positive r.message.cash_quantity ≡ true)
      × (if_present is_positive r.message.limit_price ≡ true)
      × ((is_protection r.operation || if_present is_positive r.message.quantity) ≡ true)
unfolding typed_message message_checks
accepted r b m h =
    let (same, passed) = checked_returned (message_checks r b r.message) r.message h in ground arith

-- The fields that an entry message carries.
entry_fields :
    (op : Operation) (m : Message)
    → is_exit op ≡ false
    → has_schema op m ≡ true
    → (is_some m.cash_quantity ≡ true)
      ⊎ ((is_some m.cash_quantity ≡ false)
          × (is_some m.quantity ≡ true)
          × (is_some m.limit_price ≡ true)
          × (is_protection op ≡ false))
unfolding has_schema
entry_fields op m h k = ground arith

mul_pos : (q p : ℕ) → 0 < q → 0 < p → 0 < q * p
mul_pos q p h k = grind arith

carried {ℓ} : {A : Type ℓ} (o : Option A) → is_some o ≡ true → (a : A) × (o ≡ some a)
carried none h = cc
carried (some a) h = (a, refl)

absent {ℓ} : {A : Type ℓ} (o : Option A) → is_some o ≡ false → o ≡ none
absent none h = refl
absent (some a) h = cc

cash_notional :
    (m : Message) (q : ℕ)
    → m.cash_quantity ≡ some q
    → if_present is_positive m.cash_quantity ≡ true
    → (entry_notional_usd m ≡ ok (signed_notional m)) × (0 < signed_notional m)
unfolding entry_notional_usd signed_notional
cash_notional m q h k = ground arith

priced_notional :
    (m : Message) (q p : ℕ)
    → m.cash_quantity ≡ none
    → m.quantity ≡ some q
    → m.limit_price ≡ some p
    → 0 < q
    → 0 < p
    → (entry_notional_usd m ≡ ok (signed_notional m)) × (0 < signed_notional m)
unfolding entry_notional_usd signed_notional
priced_notional m q p h i j k l = ground (arith, mul_pos q p)

-- An entry message that `_typed_message` accepts has a notional for the reservation, which is
-- positive and is the one that the signing limits are tested with.
pub typed_notional :
    (r : ManagedSigningRequest) (b : CustodyBinding) (m : Message)
    → is_exit r.operation ≡ false
    → typed_message r b ≡ ok m
    → (entry_notional_usd m ≡ ok (signed_notional m)) × (0 < signed_notional m)
typed_notional r b m h k =
    let (same, schema, cash, limit, size) = accepted r b m k in
    rw same (elim (entry_fields r.operation r.message h schema) [
      | inl priced_in_cash ↦
          let (q, carries) = carried r.message.cash_quantity priced_in_cash in
          cash_notional r.message q carries cash
      | inr (no_cash, has_quantity, has_limit, no_protection) ↦
          let (q, carries) = carried r.message.quantity has_quantity in
          let (p, priced) = carried r.message.limit_price has_limit in
          priced_notional r.message q p (absent r.message.cash_quantity no_cash) carries priced
            (ground arith) (ground arith)
    ])
