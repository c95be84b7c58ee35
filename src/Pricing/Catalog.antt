-- ===== src/Pricing/Catalog.antt =====
-- The validated catalog of product_catalog.py: what can be bought and for how much.
use vpn_mediator_public.Prelude.{
  ℕ, ◌-◌, ◌*◌, ◌/◌, String, Bool, false, ◌&&◌, ◌||◌, not, Option, none, some, List, [], ◌∷◌, ltb,
  leb, ◌==◌, if◌then◌else◌, Result, ok, err, ◌>>=◌, ◌>>◌, raise_if,
}

-- The texts of the `ValueError`s of product_catalog.py and of `PricingService`.
pub data PricingError : Type 0 where
  unsupported_period_option unsupported_device_option unsupported_payment_provider : PricingError
  stars_price_not_positive rub_price_not_positive : PricingError
  unsupported_order_kind invalid_personal_discount invalid_remaining_paid_time : PricingError
  upgrade_period_must_be_zero paid_period_required : PricingError
  device_limit_decrease_not_allowed device_limit_must_increase non_positive_order_price :
      PricingError

-- PAYMENT_MODE_TELEGRAM_STARS, PAYMENT_MODE_YOOKASSA_SBP, and any other string.
pub data Provider : Type 0 where
  telegram_stars yookassa_sbp : Provider
  other_provider : String → Provider

pub record ProductCatalog : Type 0 where
  pub period_options : List ℕ
  pub device_options : List ℕ
  pub base_device_month_stars : ℕ
  pub base_device_month_rub_kopecks : ℕ
  pub duration_discounts : List (ℕ × ℕ)
  pub currency : String
  pub pricing_identity : String
  pub rub_pricing_identity : String

-- `value in options`
abbrev pub contains : ℕ → List ℕ → Bool
contains n [] = false
contains n (x ∷ xs) = (n == x) || contains n xs

-- `value in discounts`
abbrev pub has_key : ℕ → List (ℕ × ℕ) → Bool
has_key n [] = false
has_key n ((k, v) ∷ xs) = (n == k) || has_key n xs

-- `discounts.get(period, 0)`
abbrev pub discount_for : List (ℕ × ℕ) → ℕ → ℕ
discount_for [] n = 0
discount_for ((k, v) ∷ xs) n = if n == k then v else discount_for xs n

abbrev pub Checked : Type 0
Checked = Result PricingError (Unit {0})

unfoldable pub validate_period : ProductCatalog → ℕ → Bool → Checked
validate_period c period_count allow_zero =
    if allow_zero && (period_count == 0)
    then ok tt
    else raise_if (not (contains period_count c.period_options)) unsupported_period_option

-- `grandfathered_value is not None and max_devices == grandfathered_value`
abbrev pub is_grandfathered : ℕ → Option ℕ → Bool
is_grandfathered max_devices none = false
is_grandfathered max_devices (some value) = max_devices == value

unfoldable pub validate_device_limit : ProductCatalog → ℕ → Option ℕ → Checked
validate_device_limit c max_devices grandfathered_value =
    if is_grandfathered max_devices grandfathered_value
    then ok tt
    else raise_if (not (contains max_devices c.device_options)) unsupported_device_option

unfoldable pub larger_device_options : ProductCatalog → ℕ → List ℕ
larger_device_options c current = larger c.device_options
  where
    larger : List ℕ → List ℕ
    larger [] = []
    larger (x ∷ xs) = if ltb current x then x ∷ larger xs else larger xs

unfoldable pub base_price_for_provider : ProductCatalog → Provider → Result PricingError ℕ
base_price_for_provider c telegram_stars = ok c.base_device_month_stars
base_price_for_provider c yookassa_sbp = ok c.base_device_month_rub_kopecks
base_price_for_provider c (other_provider name) = err unsupported_payment_provider

unfoldable pub currency_for_provider : Provider → Result PricingError String
currency_for_provider telegram_stars = ok "XTR"
currency_for_provider yookassa_sbp = ok "RUB"
currency_for_provider (other_provider name) = err unsupported_payment_provider

unfoldable pub pricing_identity_for_provider :
    ProductCatalog → Provider → Result PricingError String
pricing_identity_for_provider c telegram_stars = ok c.pricing_identity
pricing_identity_for_provider c yookassa_sbp = ok c.rub_pricing_identity
pricing_identity_for_provider c (other_provider name) = err unsupported_payment_provider

-- `gross - gross * discount_percent // 100`; the discount is below 100 percent, so nothing is cut
-- off at 0.
abbrev pub discounted : ℕ → ℕ → ℕ
discounted gross percent = gross - gross * percent / 100

unfoldable pub calculate_list_price : ProductCatalog → ℕ → ℕ → Option ℕ → Result PricingError ℕ
unfolding validate_period validate_device_limit
calculate_list_price c period_count max_devices grandfathered_value = do
  validate_period c period_count false
  validate_device_limit c max_devices grandfathered_value
  ok (
      discounted (period_count * max_devices * c.base_device_month_stars)
        (discount_for c.duration_discounts period_count))

unfoldable pub calculate_list_price_for_provider :
    ProductCatalog → Provider → ℕ → ℕ → Option ℕ → Result PricingError ℕ
unfolding validate_period validate_device_limit base_price_for_provider
calculate_list_price_for_provider c provider period_count max_devices grandfathered_value = do
  validate_period c period_count false
  validate_device_limit c max_devices grandfathered_value
  base ← base_price_for_provider c provider
  ok (
      discounted (period_count * max_devices * base)
        (discount_for c.duration_discounts period_count))

-- The body of the two loops of `validate_prices`; `<= 0` is `== 0`.
unfoldable pub validate_pair : ProductCatalog → ℕ → ℕ → Checked
validate_pair c period_count max_devices = do
  raise_if
      (leb
        (discounted (period_count * max_devices * c.base_device_month_stars)
          (discount_for c.duration_discounts period_count))
        0)
      stars_price_not_positive
  raise_if
      (leb
        (discounted (period_count * max_devices * c.base_device_month_rub_kopecks)
          (discount_for c.duration_discounts period_count))
        0)
      rub_price_not_positive

-- The inner loop.
unfoldable pub validate_devices : ProductCatalog → ℕ → List ℕ → Checked
validate_devices c period_count [] = ok tt
validate_devices c period_count (d ∷ ds) = do
  validate_pair c period_count d
  validate_devices c period_count ds

-- The outer loop.
unfoldable pub validate_periods : ProductCatalog → List ℕ → Checked
validate_periods c [] = ok tt
validate_periods c (p ∷ ps) = do validate_devices c p c.device_options; validate_periods c ps

unfoldable pub validate_prices : ProductCatalog → Checked
validate_prices c = validate_periods c c.period_options
