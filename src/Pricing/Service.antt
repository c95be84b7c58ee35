-- ===== src/Pricing/Service.antt =====
-- `PricingService` of commerce.py: the price of one operation, in minor units.
-- Counts of months and devices are natural numbers; the discount and the remaining time, whose
-- sign the code tests, are integers.
pub mod Bounds
pub mod Offers
use vpn_mediator_public.Prelude.{
  ℕ, zero, suc, ◌+◌, ◌-◌, ◌*◌, ◌/◌, String, Bool, true, false, ◌&&◌, ◌||◌, not, Option, none, some,
  ltb, leb, ◌==◌, if◌then◌else◌, Result, ok, err, ◌>>=◌, ◌>>◌, raise_if,
}
use vpn_mediator_public.Prelude.Int.{ℤ, pos, pos_part, neg_part, ltb_ℤ, leb_ℤ}
use vpn_mediator_public.Pricing.Catalog.{
  PricingError, unsupported_order_kind, invalid_personal_discount, invalid_remaining_paid_time,
  upgrade_period_must_be_zero, paid_period_required, device_limit_decrease_not_allowed,
  device_limit_must_increase, non_positive_order_price, Provider, telegram_stars, ProductCatalog,
  discount_for, Checked, validate_period, validate_device_limit, base_price_for_provider,
  currency_for_provider, pricing_identity_for_provider,
}

-- ORDER_KIND_*, and any other string.
pub data OrderKind : Type 0 where
  purchase extend extend_and_upgrade resume upgrade_devices : OrderKind
  other_kind : String → OrderKind

pub record CalculatedPrice : Type 0 where
  pub period_count : ℕ
  pub duration_days : ℕ
  pub max_devices : ℕ
  pub amount_minor_units : ℕ
  pub currency : String
  pub pricing_version : String
  pub upgrade_amount_minor_units : ℕ
  pub extension_amount_minor_units : ℕ
  pub price_before_personal_discount : ℕ
  pub personal_discount_bps : ℕ
  pub personal_discount_amount_minor_units : ℕ

-- The arguments of `calculate_operation`.
pub record Operation : Type 0 where
  pub operation_kind : OrderKind
  pub period_count : ℕ
  pub requested_max_devices : ℕ
  pub current_max_devices : ℕ
  pub remaining_paid_seconds : ℤ
  pub personal_discount_bps : ℤ
  pub payment_provider : Provider

-- `operation_kind in supported_operations`
abbrev pub is_supported : OrderKind → Bool
is_supported (other_kind name) = false
is_supported _ = true

abbrev pub is_upgrade_only : OrderKind → Bool
is_upgrade_only upgrade_devices = true
is_upgrade_only _ = false

-- `{ORDER_KIND_UPGRADE_DEVICES, ORDER_KIND_EXTEND_AND_UPGRADE}`
abbrev pub pays_for_devices : OrderKind → Bool
pays_for_devices upgrade_devices = true
pays_for_devices extend_and_upgrade = true
pays_for_devices _ = false

-- The four kinds that buy time.
abbrev pub pays_for_time : OrderKind → Bool
pays_for_time purchase = true
pays_for_time extend = true
pays_for_time extend_and_upgrade = true
pays_for_time resume = true
pays_for_time _ = false

-- The device limit that a customer may keep although it is no longer sold.
abbrev pub grandfathered : OrderKind → ℕ → Option ℕ
grandfathered extend current = some current
grandfathered resume current = some current
grandfathered _ current = none

abbrev pub product_month_days : ℕ
product_month_days = 30

abbrev pub month_seconds : ℕ
month_seconds = product_month_days * 24 * 60 * 60

-- `_ceil_div`; its only caller passes a positive constant.
abbrev pub ceil_div : ℕ → ℕ → ℕ
ceil_div numerator denominator = (numerator + denominator - 1) / denominator

-- Every check that `calculate_operation` makes before it prices.
unfoldable pub check_operation : ProductCatalog → Operation → Checked
unfolding validate_period validate_device_limit
check_operation c o =
    let upgrade_only = is_upgrade_only o.operation_kind in
    do
      raise_if (not (is_supported o.operation_kind)) unsupported_order_kind
      raise_if
          (not (leb_ℤ (pos 0) o.personal_discount_bps && leb_ℤ o.personal_discount_bps (pos 10000)))
          invalid_personal_discount
      raise_if (ltb_ℤ o.remaining_paid_seconds (pos 0)) invalid_remaining_paid_time
      validate_period c o.period_count upgrade_only
      raise_if (upgrade_only && not (o.period_count == 0)) upgrade_period_must_be_zero
      raise_if (not upgrade_only && (o.period_count == 0)) paid_period_required
      validate_device_limit c o.requested_max_devices
          (grandfathered o.operation_kind o.current_max_devices)
      raise_if (ltb o.requested_max_devices o.current_max_devices) device_limit_decrease_not_allowed
      raise_if (upgrade_only && leb o.requested_max_devices o.current_max_devices)
          device_limit_must_increase

-- The prorated price of the added devices for the time that is already paid.
unfoldable pub upgrade_amount : Operation → ℕ → ℕ
upgrade_amount o monthly_device_price =
    let added_devices = o.requested_max_devices - o.current_max_devices in
    if pays_for_devices o.operation_kind
      && ltb 0 added_devices
      && ltb_ℤ (pos 0) o.remaining_paid_seconds
    then ceil_div (added_devices * monthly_device_price * pos_part o.remaining_paid_seconds)
        month_seconds
    else 0

-- The price of the bought months, less the discount for their number.
unfoldable pub extension_amount : ProductCatalog → Operation → ℕ → ℕ
extension_amount c o monthly_device_price =
    let gross_extension = o.period_count * o.requested_max_devices * monthly_device_price in
    let duration_discount =
      gross_extension * discount_for c.duration_discounts o.period_count / 100 in
    if pays_for_time o.operation_kind then gross_extension - duration_discount else 0

-- The personal discount and the result.
unfoldable pub price_of : ProductCatalog → Operation → ℕ → ℕ → Result PricingError CalculatedPrice
unfolding currency_for_provider pricing_identity_for_provider
price_of c o upgrade extension =
    let bps = pos_part o.personal_discount_bps in
    let subtotal = upgrade + extension in
    let personal_discount_amount = subtotal * bps / 10000 in
    let final_amount = subtotal - personal_discount_amount in
    let is_complimentary = ltb 0 subtotal && (bps == 10000) && (final_amount == 0) in
    do
      raise_if (leb final_amount 0 && not is_complimentary) non_positive_order_price
      currency ← currency_for_provider o.payment_provider
      pricing_version ← pricing_identity_for_provider c o.payment_provider
      ok (record {
        period_count = o.period_count;
        duration_days = o.period_count * product_month_days;
        max_devices = o.requested_max_devices;
        amount_minor_units = final_amount;
        currency = currency;
        pricing_version = pricing_version;
        upgrade_amount_minor_units = upgrade;
        extension_amount_minor_units = extension;
        price_before_personal_discount = subtotal;
        personal_discount_bps = bps;
        personal_discount_amount_minor_units = personal_discount_amount;
      })

unfoldable pub calculate_operation :
    ProductCatalog → Operation → Result PricingError CalculatedPrice
calculate_operation c o = do
  check_operation c o
  monthly_device_price ← base_price_for_provider c o.payment_provider
  price_of c o (upgrade_amount o monthly_device_price) (extension_amount c o monthly_device_price)

-- The arguments that `calculate` passes on, defaults included.
abbrev pub purchase_of : ℕ → ℕ → Operation
purchase_of period_count max_devices = record {
  operation_kind = purchase;
  period_count = period_count;
  requested_max_devices = max_devices;
  current_max_devices = 0;
  remaining_paid_seconds = pos 0;
  personal_discount_bps = pos 0;
  payment_provider = telegram_stars;
}

unfoldable pub calculate : ProductCatalog → ℕ → ℕ → Result PricingError CalculatedPrice
unfolding calculate_operation
calculate c period_count max_devices = do
  validate_period c period_count false
  validate_device_limit c max_devices none
  calculate_operation c (purchase_of period_count max_devices)

-- The columns of `PurchaseQuote` that an offer reads.
pub record Quote : Type 0 where
  pub order_kind : OrderKind
  pub period_count : ℕ
  pub requested_max_devices : Option ℕ
  pub max_devices : ℕ
  pub base_max_devices : Option ℕ
  pub remaining_paid_seconds_at_quote : ℤ
  pub personal_discount_bps : ℤ

-- `value or default`: `None` and 0 are both false.
abbrev pub or_else : Option ℕ → ℕ → ℕ
or_else none d = d
or_else (some n) d = if n == 0 then d else n

abbrev pub operation_of : Quote → Provider → Operation
operation_of q provider = record {
  operation_kind = q.order_kind;
  period_count = q.period_count;
  requested_max_devices = or_else q.requested_max_devices q.max_devices;
  current_max_devices = or_else q.base_max_devices 0;
  remaining_paid_seconds = q.remaining_paid_seconds_at_quote;
  personal_discount_bps = q.personal_discount_bps;
  payment_provider = provider;
}

unfoldable pub calculate_quote_offer :
    ProductCatalog → Quote → Provider → Result PricingError CalculatedPrice
unfolding calculate_operation
calculate_quote_offer c q provider = calculate_operation c (operation_of q provider)
