-- ===== src/Pricing/Settings.antt =====
-- `ProductCatalog.from_settings` of product_catalog.py.
pub mod Valid
use Prim.Native.String.{◌++◌}
use vpn_mediator_public.Prelude.{
  ℕ, String, Bool, true, false, ◌||◌, not, Option, List, [], ◌∷◌, Result, ok, err, ◌>>=◌, ◌>>◌,
  raise_if,
}
use vpn_mediator_public.Prelude.Int.{ℤ, pos, pos_part, neg_part, leb_ℤ}
use vpn_mediator_public.Pricing.Catalog.{contains, PricingError, ProductCatalog, validate_prices}
use vpn_mediator_public.Pricing.Options.{
  Text, OptionsError, parse_positive_options, parse_discounts,
}

-- The fields of `Settings` that the catalog is built from.
pub record Settings : Type 0 where
  pub purchasable_period_options : Text
  pub purchasable_device_options : Text
  pub pricing_duration_discounts : Text
  pub pricing_base_device_month_stars : ℤ
  pub pricing_base_device_month_rub_kopecks : ℤ
  pub pricing_version : String

-- The payload whose canonical JSON is hashed into the pricing identity.
pub record Payload : Type 0 where
  pub version : String
  pub periods : List ℕ
  pub devices : List ℕ
  pub base : ℕ
  pub discounts : List (ℕ × ℕ)
  pub currency : String

pub data SettingsError : Type 0 where
  bad_period_options bad_device_options bad_discounts : OptionsError → SettingsError
  unsupported_discount_periods stars_base_not_positive rub_base_not_positive : SettingsError
  bad_prices : PricingError → SettingsError

-- The same exception, under the setting that raised it.
abbrev pub map_err {ℓ κ ι} :
    {E : Type ℓ} {F : Type κ} {A : Type ι} → (E → F) → Result E A → Result F A
map_err f (ok a) = ok a
map_err f (err e) = err (f e)

-- `set(discounts) - set(period_options)` is not empty.
abbrev pub has_unknown_period : List ℕ → List (ℕ × ℕ) → Bool
has_unknown_period periods [] = false
has_unknown_period periods ((k, v) ∷ ds) = not (contains k periods) || has_unknown_period periods ds

abbrev pub catalog_of :
    (Payload → String) → Settings → List ℕ → List ℕ → List (ℕ × ℕ) → ProductCatalog
catalog_of digest s periods devices discounts =
    let payload : Payload = record {
      version = s.pricing_version;
      periods = periods;
      devices = devices;
      base = pos_part s.pricing_base_device_month_stars;
      discounts = discounts;
      currency = "XTR";
    } in
    let rub_payload : Payload = record payload {
      base = pos_part s.pricing_base_device_month_rub_kopecks;
      currency = "RUB";
    } in
    record {
      period_options = periods;
      device_options = devices;
      base_device_month_stars = pos_part s.pricing_base_device_month_stars;
      base_device_month_rub_kopecks = pos_part s.pricing_base_device_month_rub_kopecks;
      duration_discounts = discounts;
      currency = "XTR";
      pricing_identity = s.pricing_version ++ (":" ++ digest payload);
      rub_pricing_identity = s.pricing_version ++ (":rub:" ++ digest rub_payload);
    }

-- `is_space` and `int` are Python's, as for the options; `digest` stands for the first twelve hex
-- digits of the SHA-256 of the payload's canonical JSON, whose pairs `json` sorts.
module _ (is_space : ℕ → Bool) (int : Text → Option ℤ) (digest : Payload → String) where
  unfoldable pub from_settings : Settings → Result SettingsError ProductCatalog
  from_settings s = do
    periods ←
        map_err bad_period_options
          (parse_positive_options is_space int s.purchasable_period_options)
    devices ←
        map_err bad_device_options
          (parse_positive_options is_space int s.purchasable_device_options)
    discounts ← map_err bad_discounts (parse_discounts is_space int s.pricing_duration_discounts)
    raise_if (has_unknown_period periods discounts) unsupported_discount_periods
    raise_if (leb_ℤ s.pricing_base_device_month_stars (pos 0)) stars_base_not_positive
    raise_if (leb_ℤ s.pricing_base_device_month_rub_kopecks (pos 0)) rub_base_not_positive
    let catalog = catalog_of digest s periods devices discounts
    map_err bad_prices (validate_prices catalog)
    ok catalog
