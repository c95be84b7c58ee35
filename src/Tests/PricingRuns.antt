-- ===== src/Tests/PricingRuns.antt =====
-- A catalog of one, three and six months for one to five devices, and prices from it.
use vpn_mediator_public.Prelude.{
  ℕ, ◌+◌, ◌-◌, ◌*◌, ◌/◌, ◌≤◌, ◌<◌, ◌≡◌, ◌⊎◌, refl, Bool, true, false, ◌&&◌, String, Option, none,
  some, [], ◌∷◌, ok, err, arith, ◌==◌, leb, if◌then◌else◌,
}
use vpn_mediator_public.Prelude.Int.{ℤ, pos}
use vpn_mediator_public.Pricing.Catalog.{
  non_positive_order_price, telegram_stars, ProductCatalog, base_price_for_provider,
  calculate_list_price_for_provider, validate_period, validate_device_limit, currency_for_provider,
  pricing_identity_for_provider, validate_prices, validate_periods, validate_devices, validate_pair,
}
use vpn_mediator_public.Pricing.Options.{
  Text, parse_positive_options, parse_discounts, split, sorted, read_parts, read_discounts,
  add_discount, read_pair, check_options,
}
use vpn_mediator_public.Pricing.Settings.{Settings, Payload, from_settings, catalog_of}
use vpn_mediator_public.Pricing.Settings.Valid.{IsCatalog, from_settings-IsCatalog}
use vpn_mediator_public.Pricing.Service.{
  extend, extend_and_upgrade, Operation, CalculatedPrice, check_operation, upgrade_amount,
  extension_amount, price_of, calculate_operation, month_seconds,
}
use vpn_mediator_public.Pricing.Service.Bounds.{price_adds_up, upgrade_covers}
use vpn_mediator_public.Pricing.Service.Offers.{
  is_ok, is_worthless_upgrade, checked_has_price, price-eq-list_price,
}

abbrev catalog : ProductCatalog
catalog = record {
  period_options = 1 ∷ 3 ∷ 6 ∷ [];
  device_options = 1 ∷ 2 ∷ 3 ∷ 5 ∷ [];
  base_device_month_stars = 100;
  base_device_month_rub_kopecks = 15000;
  duration_discounts = (3, 10) ∷ (6, 20) ∷ [];
  currency = "XTR";
  pricing_identity = "v1:abc";
  rub_pricing_identity = "v1:rub:abc";
}

catalog-IsCatalog : IsCatalog catalog
catalog-IsCatalog = record {
  periods_rise = (omega arith, (omega arith, (omega arith, tt)));
  devices_rise = (omega arith, (omega arith, (omega arith, (omega arith, tt))));
  stars_positive = omega arith;
  rub_positive = omega arith;
  discounts_below = ((omega arith, omega arith), ((omega arith, omega arith), tt));
  discounts_offered = refl;
}

-- Three months for three devices, and one more device for the fifteen days that are left.
abbrev upgrade : Operation
upgrade = record {
  operation_kind = extend_and_upgrade;
  period_count = 3;
  requested_max_devices = 3;
  current_max_devices = 2;
  remaining_paid_seconds = pos 1296000;
  personal_discount_bps = pos 1000;
  payment_provider = telegram_stars;
}

abbrev renewal : Operation
renewal = record upgrade {
  operation_kind = extend;
  current_max_devices = 3;
  personal_discount_bps = pos 0;
}

abbrev upgrade_price : CalculatedPrice
upgrade_price = record {
  period_count = 3;
  duration_days = 90;
  max_devices = 3;
  amount_minor_units = 774;
  currency = "XTR";
  pricing_version = "v1:abc";
  upgrade_amount_minor_units = 50;
  extension_amount_minor_units = 810;
  price_before_personal_discount = 860;
  personal_discount_bps = 1000;
  personal_discount_amount_minor_units = 86;
}

upgrade_priced : calculate_operation catalog upgrade ≡ ok upgrade_price
unfolding calculate_operation check_operation validate_period validate_device_limit
    base_price_for_provider upgrade_amount extension_amount price_of currency_for_provider
    pricing_identity_for_provider
upgrade_priced = refl

abbrev renewal_price : CalculatedPrice
renewal_price = record {
  period_count = 3;
  duration_days = 90;
  max_devices = 3;
  amount_minor_units = 810;
  currency = "XTR";
  pricing_version = "v1:abc";
  upgrade_amount_minor_units = 0;
  extension_amount_minor_units = 810;
  price_before_personal_discount = 810;
  personal_discount_bps = 0;
  personal_discount_amount_minor_units = 0;
}

renewal_priced : calculate_operation catalog renewal ≡ ok renewal_price
unfolding calculate_operation check_operation validate_period validate_device_limit
    base_price_for_provider upgrade_amount extension_amount price_of currency_for_provider
    pricing_identity_for_provider
renewal_priced = refl

renewal_checked : check_operation catalog renewal ≡ ok tt
unfolding check_operation validate_period validate_device_limit
renewal_checked = refl

price_adds_up_example :
    (860 ≡ 50 + 810)
    × (774 + 86 ≡ 860)
    × (86 ≡ 860 * 1000 / 10000)
    × ((0 < 774) ⊎ ((upgrade_price.personal_discount_bps ≡ 10000) × (0 < 860)))
price_adds_up_example = price_adds_up catalog upgrade upgrade_price upgrade_priced

upgrade_covers_example :
    (b : ℕ) × (base_price_for_provider catalog telegram_stars ≡ ok b)
    × ((3 - 2) * b * 1296000 ≤ 50 * month_seconds)
    × (50 * month_seconds < (3 - 2) * b * 1296000 + month_seconds)
upgrade_covers_example = upgrade_covers catalog upgrade upgrade_price upgrade_priced refl refl

checked_has_price_example :
    (is_worthless_upgrade renewal ≡ false → is_ok (calculate_operation catalog renewal) ≡ true)
    × (is_worthless_upgrade renewal ≡ true
        → calculate_operation catalog renewal ≡ err non_positive_order_price)
checked_has_price_example =
    checked_has_price catalog renewal catalog-IsCatalog refl (omega arith) renewal_checked

price-eq-list_price_example :
    calculate_list_price_for_provider catalog telegram_stars 3 3 (some 3) ≡ ok 810
price-eq-list_price_example =
    price-eq-list_price catalog renewal renewal_price refl refl refl renewal_priced

-- One month, one device and no discounts, from texts of digits; a space is the code point 32.
abbrev is_space : ℕ → Bool
is_space c = c == 32

abbrev read_digit : Text → Option ℤ
read_digit (c ∷ []) = if leb 48 c && leb c 57 then some (pos (c - 48)) else none
read_digit _ = none

abbrev digest : Payload → String
digest p = "abc"

abbrev settings : Settings
settings = record {
  purchasable_period_options = b'1' ∷ b',' ∷ b'3' ∷ [];
  purchasable_device_options = b'1' ∷ b',' ∷ b' ' ∷ b'2' ∷ [];
  pricing_duration_discounts = b'3' ∷ b':' ∷ b'9' ∷ [];
  pricing_base_device_month_stars = pos 100;
  pricing_base_device_month_rub_kopecks = pos 15000;
  pricing_version = "v1";
}

abbrev small_catalog : ProductCatalog
small_catalog = catalog_of digest settings (1 ∷ 3 ∷ []) (1 ∷ 2 ∷ []) ((3, 9) ∷ [])

settings_read : from_settings is_space read_digit digest settings ≡ ok small_catalog
unfolding from_settings parse_positive_options read_parts split check_options sorted parse_discounts
    read_discounts add_discount read_pair validate_prices validate_periods validate_devices
    validate_pair
settings_read = refl

from_settings-IsCatalog_example : IsCatalog small_catalog
from_settings-IsCatalog_example =
    from_settings-IsCatalog is_space read_digit digest settings small_catalog settings_read
