-- ===== src/Pricing/Service/Offers.antt =====
-- Which operations have a price.
use vpn_mediator_public.Prelude.{
  ℕ, ◌+◌, ◌-◌, ◌*◌, ◌/◌, ◌≤◌, ◌<◌, ◌≡◌, inl, inr, Bool, true, false, Bool-cases, Result, refl, ok,
  err, arith, not, ◌==◌, ◌&&◌,
}
use vpn_mediator_public.Prelude.Int.{pos, pos_part, ltb_ℤ}
use vpn_mediator_public.Pricing.Catalog.{
  ProductCatalog, base_price_for_provider, Provider, other_provider, telegram_stars, yookassa_sbp,
  discount_for, calculate_list_price_for_provider, non_positive_order_price, currency_for_provider,
  pricing_identity_for_provider,
}
use vpn_mediator_public.Pricing.Settings.Valid.{
  IsCatalog, discount_for-lt, discounted_pos, gross_pos,
}
use vpn_mediator_public.Pricing.Service.{
  CalculatedPrice, Operation, check_operation, upgrade_amount, extension_amount, price_of,
  calculate_operation, is_upgrade_only, pays_for_time, is_supported, grandfathered,
  pays_for_devices,
}
use vpn_mediator_public.Pricing.Service.Bounds.{IsChecked, check-IsChecked, part-le}

-- The two providers that the bot accepts.
abbrev pub is_provider : Provider → Bool
is_provider (other_provider name) = false
is_provider _ = true

-- A discount of less than the whole of a positive amount leaves something.
part-lt : (s b : ℕ) → 0 < s → b < 10000 → s * b / 10000 < s
part-lt s b hs h = let m : s * b ≤ s * 9999 = grind arith in omega arith

abbrev pub is_ok {ℓ κ} : {E : Type ℓ} {A : Type κ} → Result E A → Bool
is_ok (ok a) = true
is_ok (err e) = false

-- A positive subtotal always has a price.
price_of_positive :
    (c : ProductCatalog) (o : Operation) (u e : ℕ)
    → 0 < u + e
    → pos_part o.personal_discount_bps ≤ 10000
    → is_provider o.payment_provider ≡ true
    → is_ok (price_of c o u e) ≡ true
unfolding price_of currency_for_provider pricing_identity_for_provider
price_of_positive c o u e hs hb hp =
    let bps = pos_part o.personal_discount_bps in
    let part : (u + e) * bps / 10000 ≤ u + e = part-le (u + e) bps hb in
    elim (Bool-cases (bps == 10000)) [
      | inl whole ↦ ground arith
      | inr below ↦
          let less : (u + e) * bps / 10000 < u + e = part-lt (u + e) bps hs (ground arith) in
          ground arith
    ]

price_of_zero :
    (c : ProductCatalog) (o : Operation) → price_of c o 0 0 ≡ err non_positive_order_price
unfolding price_of
price_of_zero c o = ground arith

upgrade_amount_pos :
    (o : Operation) (b : ℕ)
    → IsChecked o
    → 0 < b
    → is_upgrade_only o.operation_kind ≡ true
    → ltb_ℤ (pos 0) o.remaining_paid_seconds ≡ true
    → 0 < upgrade_amount o b
unfolding upgrade_amount
upgrade_amount_pos o b k hb only remains =
    let grows = k.upgrade_grows only in
    let covered =
      gross_pos (o.requested_max_devices - o.current_max_devices) b
        (pos_part o.remaining_paid_seconds) (omega arith) hb (ground arith) in
    ground arith

extension_amount_pos :
    {c : ProductCatalog} (v : IsCatalog c) (o : Operation) (b : ℕ)
    → IsChecked o
    → 0 < b
    → 0 < o.requested_max_devices
    → is_supported o.operation_kind ≡ true
    → is_upgrade_only o.operation_kind ≡ false
    → 0 < extension_amount c o b
unfolding extension_amount
extension_amount_pos {c} v o b k hb hd known timed =
    let bought = k.time_bought timed in
    let left =
      discounted_pos (o.period_count * o.requested_max_devices * b)
        (discount_for c.duration_discounts o.period_count)
        (gross_pos o.period_count o.requested_max_devices b bought hd hb)
        (discount_for-lt c.duration_discounts o.period_count v.discounts_below) in
    ground arith

extension_amount_none :
    (c : ProductCatalog) (o : Operation) (b : ℕ)
    → is_upgrade_only o.operation_kind ≡ true
    → extension_amount c o b ≡ 0
unfolding extension_amount
extension_amount_none c o b only = ground arith

upgrade_amount_none :
    (o : Operation) (b : ℕ)
    → ltb_ℤ (pos 0) o.remaining_paid_seconds ≡ false
    → upgrade_amount o b ≡ 0
unfolding upgrade_amount
upgrade_amount_none o b over = ground arith

base_price_pos :
    {c : ProductCatalog} (v : IsCatalog c) (provider : Provider)
    → is_provider provider ≡ true
    → (b : ℕ) × (base_price_for_provider c provider ≡ ok b) × (0 < b)
unfolding base_price_for_provider
base_price_pos {c} v telegram_stars h = (c.base_device_month_stars, refl, v.stars_positive)
base_price_pos {c} v yookassa_sbp h = (c.base_device_month_rub_kopecks, refl, v.rub_positive)
base_price_pos v (other_provider name) h = cc

check-is_supported :
    (c : ProductCatalog) (o : Operation)
    → check_operation c o ≡ ok tt
    → is_supported o.operation_kind ≡ true
unfolding check_operation
check-is_supported c o h = ground arith

-- The upgrade of a subscription with no paid time left.
abbrev pub is_worthless_upgrade : Operation → Bool
is_worthless_upgrade o =
    is_upgrade_only o.operation_kind && not (ltb_ℤ (pos 0) o.remaining_paid_seconds)

subtotal_pos :
    {c : ProductCatalog} (v : IsCatalog c) (o : Operation) (b : ℕ)
    → IsChecked o
    → 0 < b
    → 0 < o.requested_max_devices
    → is_supported o.operation_kind ≡ true
    → is_worthless_upgrade o ≡ false
    → 0 < upgrade_amount o b + extension_amount c o b
subtotal_pos v o b k hb hd known w = elim (Bool-cases (is_upgrade_only o.operation_kind)) [
  | inl only ↦ omega (arith, upgrade_amount_pos o b k hb only (ground arith))
  | inr timed ↦ omega (arith, extension_amount_pos v o b k hb hd known timed)
]

-- With a valid catalog and a known provider, an operation for at least one device that passes the
-- checks always gets a price, with one exception: an upgrade of devices with no paid time left is
-- refused as having no positive price.
pub checked_has_price :
    (c : ProductCatalog) (o : Operation)
    → IsCatalog c
    → is_provider o.payment_provider ≡ true
    → 0 < o.requested_max_devices
    → check_operation c o ≡ ok tt
    → (is_worthless_upgrade o ≡ false → is_ok (calculate_operation c o) ≡ true)
      × (is_worthless_upgrade o ≡ true → calculate_operation c o ≡ err non_positive_order_price)
unfolding calculate_operation
checked_has_price c o v hp hd checked =
    let k = check-IsChecked c o checked in
    let (b, base, hb) = base_price_pos v o.payment_provider hp in
    (
      λ w.
          rw (checked, base)
            (price_of_positive c o (upgrade_amount o b) (extension_amount c o b)
              (subtotal_pos v o b k hb hd (check-is_supported c o checked) w) k.discount_to hp),
      λ w.
          rw
            (
              checked,
              base,
              upgrade_amount_none o b (ground arith),
              extension_amount_none c o b (ground arith),
            )
            (price_of_zero c o),
    )

-- Without a personal discount, the price of a purchase, an extension or a resumption is the list
-- price of the catalog for the same provider, months and devices.
pub price-eq-list_price :
    (c : ProductCatalog) (o : Operation) (p : CalculatedPrice)
    → pays_for_time o.operation_kind ≡ true
    → pays_for_devices o.operation_kind ≡ false
    → pos_part o.personal_discount_bps ≡ 0
    → calculate_operation c o ≡ ok p
    → calculate_list_price_for_provider c o.payment_provider o.period_count o.requested_max_devices
        (grandfathered o.operation_kind o.current_max_devices)
      ≡ ok p.amount_minor_units
unfolding calculate_operation check_operation price_of upgrade_amount extension_amount
    calculate_list_price_for_provider
price-eq-list_price c o p timed plain free h = ground arith
