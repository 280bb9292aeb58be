-- ===== src/Orders/Ids.antt =====
-- EVEDEX client order ids: what is printed is read back, and is fresh for two days.
use kairos_execution_engine.Common.{
  inl, inr, ℕ, ◌+◌, ◌-◌, ◌/◌, ◌%◌, ◌≤◌, ◌<◌, ◌≡◌, ◌↔◌, ◌⊎◌, refl, true, List, ◌∷◌, ◌++◌, ok, err,
  arith, all, length,
}
use kairos_execution_engine.Orders.{
  evedex_client_order_id, five_digits, is_evedex_client_order_id, is_fresh_evedex_client_order_id,
  order_day, is_hex, is_digit, day_out_of_range,
}

is_digit_lem : (n : ℕ) → is_digit (b'0' + n % 10) ≡ true
is_digit_lem n = ground arith

-- The five digits of a number below 100000 spell that number.
order_day-five_digits :
    (n : ℕ) (suffix : List ℕ) → n ≤ 99999 → order_day (five_digits n ++ b':' ∷ suffix) ≡ n
unfolding five_digits
order_day-five_digits n suffix h = omega arith

-- What `f"{n:05d}:{suffix}"` prints has the form.
printed_form :
    (n : ℕ) (suffix : List ℕ)
    → all is_hex suffix ≡ true
    → length suffix ≡ 26
    → is_evedex_client_order_id (five_digits n ++ b':' ∷ suffix) ≡ true
unfolding is_evedex_client_order_id five_digits
printed_form n suffix hex size =
    rw
      (
        is_digit_lem (n / 10000),
        is_digit_lem (n / 1000),
        is_digit_lem (n / 100),
        is_digit_lem (n / 10),
        is_digit_lem n,
        hex,
        size,
      )
      refl

fresh_days :
    (epoch later : ℕ) (id : List ℕ)
    → is_evedex_client_order_id id ≡ true
    → (is_fresh_evedex_client_order_id epoch later id ≡ true)
      ↔ ((later ≡ epoch + order_day id) ⊎ (later ≡ epoch + order_day id + 1))
unfolding is_fresh_evedex_client_order_id
fresh_days epoch later id h = ground arith

generated :
    (epoch today : ℕ) (suffix : List ℕ)
    → epoch ≤ today
    → today ≤ epoch + 99999
    → evedex_client_order_id epoch today suffix ≡ ok (five_digits (today - epoch) ++ b':' ∷ suffix)
unfolding evedex_client_order_id
generated epoch today suffix h k = ground arith

ungenerated :
    (epoch today : ℕ) (suffix : List ℕ)
    → (today < epoch) ⊎ (epoch + 99999 < today)
    → evedex_client_order_id epoch today suffix ≡ err day_out_of_range
unfolding evedex_client_order_id
ungenerated epoch today suffix h = ground arith

day_range :
    (epoch today : ℕ)
    → ((today < epoch) ⊎ (epoch + 99999 < today)) ⊎ ((epoch ≤ today) × (today ≤ epoch + 99999))
day_range epoch today = ground arith

named_days :
    (epoch day today later : ℕ) (id : List ℕ)
    → order_day id ≡ day
    → epoch + day ≡ today
    → (is_fresh_evedex_client_order_id epoch later id ≡ true)
      ↔ ((later ≡ epoch + order_day id) ⊎ (later ≡ epoch + order_day id + 1))
    → (epoch + order_day id ≡ today)
      × ((is_fresh_evedex_client_order_id epoch later id ≡ true)
          ↔ ((later ≡ today) ⊎ (later ≡ today + 1)))
named_days epoch day today later id named is_day fresh = ground arith

-- From the epoch to its 99999th day, and on no other day, an id is generated. It has the documented
-- form, it names its own day, and it is fresh on that day and on the next one only.
pub generated_fresh :
    (epoch today later : ℕ) (suffix : List ℕ)
    → all is_hex suffix ≡ true
    → length suffix ≡ 26
    → (evedex_client_order_id epoch today suffix ≡ err day_out_of_range)
        × ((today < epoch) ⊎ (epoch + 99999 < today))
      ⊎ (epoch ≤ today)
        × (today ≤ epoch + 99999)
        × ((id : List ℕ) × (evedex_client_order_id epoch today suffix ≡ ok id)
            × (is_evedex_client_order_id id ≡ true)
            × (epoch + order_day id ≡ today)
            × ((is_fresh_evedex_client_order_id epoch later id ≡ true)
                ↔ ((later ≡ today) ⊎ (later ≡ today + 1))))
generated_fresh epoch today later suffix hex size = elim (day_range epoch today) [
  | inl out ↦ inl (ungenerated epoch today suffix out, out)
  | inr (h, k) ↦
      let day : ℕ = today - epoch in
      let id : List ℕ = five_digits day ++ b':' ∷ suffix in
      let form = printed_form day suffix hex size in
      let (names, fresh) =
        named_days epoch day today later id (order_day-five_digits day suffix (omega arith))
          (omega arith) (fresh_days epoch later id form) in
      inr (h, k, (id, generated epoch today suffix h k, form, names, fresh))
]
