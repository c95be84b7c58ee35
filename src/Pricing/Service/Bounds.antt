-- ===== src/Pricing/Service/Bounds.antt =====
-- What holds of every price that the service returns.
use vpn_mediator_public.Prelude.{
  ℕ, ◌+◌, ◌-◌, ◌*◌, ◌/◌, ◌≤◌, ◌<◌, ◌≡◌, ◌⊎◌, inl, inr, true, false, ok, arith, ltb, Bool-cases,
}
use vpn_mediator_public.Prelude.Int.{pos, pos_part, ltb_ℤ, leb_ℤ}
use vpn_mediator_public.Pricing.Catalog.{ProductCatalog, base_price_for_provider}
use vpn_mediator_public.Pricing.Service.{
  CalculatedPrice, Operation, check_operation, upgrade_amount, extension_amount, price_of,
  calculate_operation, is_upgrade_only, month_seconds, pays_for_devices, ceil_div,
}

-- A successful calculation passed its checks, found a base price and priced the two amounts.
pub calculate-inversion :
    (c : ProductCatalog) (o : Operation) {p : CalculatedPrice}
    → calculate_operation c o ≡ ok p
    → (b : ℕ) × (check_operation c o ≡ ok tt)
      × (base_price_for_provider c o.payment_provider ≡ ok b)
      × (price_of c o (upgrade_amount o b) (extension_amount c o b) ≡ ok p)
unfolding calculate_operation
calculate-inversion c o h = ground arith

-- What the checks establish.
pub record IsChecked (o : Operation) : Type 0 where
  pub discount_from : leb_ℤ (pos 0) o.personal_discount_bps ≡ true
  pub discount_to : pos_part o.personal_discount_bps ≤ 10000
  pub limit_kept : o.current_max_devices ≤ o.requested_max_devices
  pub upgrade_grows :
      is_upgrade_only o.operation_kind ≡ true → o.current_max_devices < o.requested_max_devices
  pub upgrade_period : is_upgrade_only o.operation_kind ≡ true → o.period_count ≡ 0
  pub time_bought : is_upgrade_only o.operation_kind ≡ false → 0 < o.period_count

pub check-IsChecked :
    (c : ProductCatalog) (o : Operation) → check_operation c o ≡ ok tt → IsChecked o
unfolding check_operation
check-IsChecked c o h = record {
  discount_from = ground arith;
  discount_to = ground arith;
  limit_kept = ground arith;
  upgrade_grows = λ u. ground arith;
  upgrade_period = λ u. ground arith;
  time_bought = λ u. ground arith;
}

-- A part of at most ten thousand ten-thousandths is no more than the whole.
pub part-le : (s b : ℕ) → b ≤ 10000 → s * b / 10000 ≤ s
part-le s b h = let m : s * b ≤ s * 10000 = grind arith in omega arith

-- The fields of a price, from the two amounts that it is made of.
price_of_parts :
    (c : ProductCatalog) (o : Operation) (u e : ℕ) {p : CalculatedPrice}
    → price_of c o u e ≡ ok p
    → pos_part o.personal_discount_bps ≤ 10000
    → (p.upgrade_amount_minor_units ≡ u)
      × (p.extension_amount_minor_units ≡ e)
      × (p.price_before_personal_discount ≡ u + e)
      × (p.amount_minor_units + p.personal_discount_amount_minor_units ≡ u + e)
      × (p.personal_discount_amount_minor_units ≡ (u + e) * p.personal_discount_bps / 10000)
      × ((0 < p.amount_minor_units) ⊎ ((p.personal_discount_bps ≡ 10000) × (0 < u + e)))
      × (p.max_devices ≡ o.requested_max_devices)
      × (p.duration_days ≡ 30 * o.period_count)
unfolding price_of
price_of_parts c o u e {p} h b =
    let part : (u + e) * pos_part o.personal_discount_bps / 10000 ≤ u + e =
      part-le (u + e) (pos_part o.personal_discount_bps) b in
    (
      ground arith,
      ground arith,
      ground arith,
      ground arith,
      ground arith,
      ground arith,
      ground arith,
      ground arith,
    )

-- Every price that the service returns adds up: the subtotal is the upgrade plus the extension, the
-- amount to pay and the personal discount make the subtotal, and the discount is its share of the
-- subtotal, rounded down. The amount is positive, unless a discount of the whole of a positive
-- subtotal makes the order complimentary.
pub price_adds_up :
    (c : ProductCatalog) (o : Operation) (p : CalculatedPrice)
    → calculate_operation c o ≡ ok p
    → (p.price_before_personal_discount
        ≡ p.upgrade_amount_minor_units + p.extension_amount_minor_units)
      × (p.amount_minor_units + p.personal_discount_amount_minor_units
          ≡ p.price_before_personal_discount)
      × (p.personal_discount_amount_minor_units
          ≡ p.price_before_personal_discount * p.personal_discount_bps / 10000)
      × ((0 < p.amount_minor_units)
          ⊎ ((p.personal_discount_bps ≡ 10000) × (0 < p.price_before_personal_discount)))
price_adds_up c o p h =
    let (b, checked, base, priced) = calculate-inversion c o h in
    let k : IsChecked o = check-IsChecked c o checked in
    let parts =
      price_of_parts c o (upgrade_amount o b) (extension_amount c o b) priced k.discount_to in
    ground (arith, parts)

-- No operation that the service prices takes a device slot away; an upgrade adds at least one and
-- buys no time, and every other kind buys thirty days for each of one or more months.
pub price_grants :
    (c : ProductCatalog) (o : Operation) (p : CalculatedPrice)
    → calculate_operation c o ≡ ok p
    → (o.current_max_devices ≤ p.max_devices)
      × (is_upgrade_only o.operation_kind ≡ true
          → (o.current_max_devices < p.max_devices) × (p.duration_days ≡ 0))
      × (is_upgrade_only o.operation_kind ≡ false
          → (30 ≤ p.duration_days) × (p.duration_days ≡ 30 * o.period_count))
price_grants c o p h =
    let (b, checked, base, priced) = calculate-inversion c o h in
    let k : IsChecked o = check-IsChecked c o checked in
    let parts =
      price_of_parts c o (upgrade_amount o b) (extension_amount c o b) priced k.discount_to in
    let grows = k.upgrade_grows in
    let none_bought = k.upgrade_period in
    let bought = k.time_bought in
    (
      omega (arith, k.limit_kept, parts.6),
      λ u. (omega (arith, grows u, parts.6), omega (arith, none_bought u, parts.7)),
      λ u. (omega (arith, bought u, parts.7), parts.7),
    )

-- Rounding up gives the least whole number of months' prices that covers the amount.
ceil_div_covers :
    (n : ℕ)
    → (n ≤ ceil_div n month_seconds * month_seconds)
      × (ceil_div n month_seconds * month_seconds < n + month_seconds)
ceil_div_covers n = (omega arith, omega arith)

upgrade_amount_covers :
    (o : Operation) (b : ℕ)
    → pays_for_devices o.operation_kind ≡ true
    → ltb_ℤ (pos 0) o.remaining_paid_seconds ≡ true
    → let n =
        (o.requested_max_devices - o.current_max_devices) * b * pos_part o.remaining_paid_seconds in
      (n ≤ upgrade_amount o b * month_seconds)
      × (upgrade_amount o b * month_seconds < n + month_seconds)
unfolding upgrade_amount
upgrade_amount_covers o b pays remains =
    let added = o.requested_max_devices - o.current_max_devices in
    elim (Bool-cases (ltb 0 added)) [
      | inl more ↦
          rw (pays, more, remains) (ceil_div_covers (added * b * pos_part o.remaining_paid_seconds))
      | inr same ↦ let z : added ≡ 0 = ground arith in rw (pays, same, z) (grind arith, grind arith)
    ]

-- The price of added devices is the least whole amount that covers their monthly price for the
-- paid time that remains: devices times price times seconds, per month of thirty days.
pub upgrade_covers :
    (c : ProductCatalog) (o : Operation) (p : CalculatedPrice)
    → calculate_operation c o ≡ ok p
    → pays_for_devices o.operation_kind ≡ true
    → ltb_ℤ (pos 0) o.remaining_paid_seconds ≡ true
    → (b : ℕ) × (base_price_for_provider c o.payment_provider ≡ ok b)
      × ((o.requested_max_devices - o.current_max_devices) * b * pos_part o.remaining_paid_seconds
          ≤ p.upgrade_amount_minor_units * month_seconds)
      × (p.upgrade_amount_minor_units * month_seconds
          < (o.requested_max_devices - o.current_max_devices)
              * b
              * pos_part o.remaining_paid_seconds
            + month_seconds)
upgrade_covers c o p h pays remains =
    let (b, checked, base, priced) = calculate-inversion c o h in
    let k : IsChecked o = check-IsChecked c o checked in
    let parts =
      price_of_parts c o (upgrade_amount o b) (extension_amount c o b) priced k.discount_to in
    let covers = upgrade_amount_covers o b pays remains in
    (b, base, grind (arith, covers, parts.0), grind (arith, covers, parts.0))
