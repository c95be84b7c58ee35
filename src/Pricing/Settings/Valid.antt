-- ===== src/Pricing/Settings/Valid.antt =====
-- What the catalog of a running bot satisfies.
use vpn_mediator_public.Prelude.{
  ℕ, ◌*◌, ◌≤◌, ◌<◌, ◌≡◌, inl, inr, Bool, true, false, List, [], ◌∷◌, ◌++◌, map, All, ok, err, arith,
  >>=-eq-ok, Bool-cases, refl, leb, Option, some, none, String,
}
use vpn_mediator_public.Prelude.Int.{ℤ, pos_part}
use vpn_mediator_public.Pricing.Catalog.{
  PricingError, ProductCatalog, contains, discount_for, discounted, validate_pair, validate_devices,
  validate_periods, validate_prices,
}
use vpn_mediator_public.Pricing.Options.{
  Text, any_not_positive, all_distinct, same_list, sorted, insert_sorted, check_options,
  parse_positive_options, read_parts, read_discounts, add_discount, parse_discounts, split, strip,
  read_pair, is_blank,
}
use vpn_mediator_public.Pricing.Settings.{
  Settings, Payload, bad_prices, has_unknown_period, catalog_of, from_settings,
}

-- In strictly rising order, above a bound.
abbrev pub Rises : ℕ → List ℕ → Type 0
Rises low [] = Unit
Rises low (x ∷ xs) = (low < x) × Rises x xs

-- Below 100 percent.
abbrev pub IsDiscount : ℕ × ℕ → Type 0
IsDiscount (period, percent) = (0 < period) × (percent < 100)

-- Options are positive, sorted and distinct, base prices are positive, and discounts leave
-- something to pay.
pub record IsCatalog (c : ProductCatalog) : Type 0 where
  pub periods_rise : Rises 0 c.period_options
  pub devices_rise : Rises 0 c.device_options
  pub stars_positive : 0 < c.base_device_month_stars
  pub rub_positive : 0 < c.base_device_month_rub_kopecks
  pub discounts_below : All IsDiscount c.duration_discounts
  pub discounts_offered : has_unknown_period c.period_options c.duration_discounts ≡ false

pub discount_for-lt : (ds : List (ℕ × ℕ)) (n : ℕ) → All IsDiscount ds → discount_for ds n < 100
discount_for-lt [] n h = omega arith
discount_for-lt ((k, v) ∷ ds) n h = ground (arith, discount_for-lt ds n h.1)

-- A positive price stays positive under a discount of less than 100 percent.
pub discounted_pos : (g d : ℕ) → 0 < g → d < 100 → 0 < discounted g d
discounted_pos g d hg hd = let m : g * d ≤ g * 99 = grind arith in omega arith

pub gross_pos : (a b c : ℕ) → 0 < a → 0 < b → 0 < c → 0 < a * b * c
gross_pos a b c ha hb hc = grind arith

module _ {c : ProductCatalog} (v : IsCatalog c) where
  validate_pair_ok : (m d : ℕ) → 0 < m → 0 < d → validate_pair c m d ≡ ok tt
  unfolding validate_pair
  validate_pair_ok m d hm hd =
      let k = discount_for-lt c.duration_discounts m v.discounts_below in
      ground (
        arith,
        discounted_pos (m * d * c.base_device_month_stars) (discount_for c.duration_discounts m)
            (gross_pos m d c.base_device_month_stars hm hd v.stars_positive) k,
        discounted_pos (m * d * c.base_device_month_rub_kopecks)
            (discount_for c.duration_discounts m)
            (gross_pos m d c.base_device_month_rub_kopecks hm hd v.rub_positive) k,
      )

  validate_devices_ok :
      (m low : ℕ) (ds : List ℕ) → 0 < m → Rises low ds → validate_devices c m ds ≡ ok tt
  unfolding validate_devices
  validate_devices_ok m low [] hm h = refl
  validate_devices_ok m low (d ∷ ds) hm h =
      rw (validate_pair_ok m d hm (omega arith)) (validate_devices_ok m d ds hm h.1)

  validate_periods_ok : (low : ℕ) (ps : List ℕ) → Rises low ps → validate_periods c ps ≡ ok tt
  unfolding validate_periods
  validate_periods_ok low [] h = refl
  validate_periods_ok low (p ∷ ps) h =
      rw (validate_devices_ok p 0 c.device_options (omega arith) v.devices_rise)
        (validate_periods_ok p ps h.1)

  pub validate_prices_ok : validate_prices c ≡ ok tt
  unfolding validate_prices
  validate_prices_ok = validate_periods_ok 0 c.period_options v.periods_rise

-- In weakly rising order, from a bound on.
abbrev Ascends : ℕ → List ℕ → Type 0
Ascends low [] = Unit
Ascends low (x ∷ xs) = (low ≤ x) × Ascends x xs

insert_sorted-Ascends :
    (low n : ℕ) (xs : List ℕ) → low ≤ n → Ascends low xs → Ascends low (insert_sorted n xs)
insert_sorted-Ascends low n [] h a = (h, tt)
insert_sorted-Ascends low n (x ∷ xs) h a = elim (Bool-cases (leb n x)) [
  | inl before ↦ rw before (h, (ground arith, a.1))
  | inr after ↦ rw after (a.0, insert_sorted-Ascends x n xs (ground arith) a.1)
]

sorted-Ascends : (xs : List ℕ) → Ascends 0 (sorted xs)
unfolding sorted
sorted-Ascends [] = tt
sorted-Ascends (x ∷ xs) = insert_sorted-Ascends 0 x (sorted xs) (omega arith) (sorted-Ascends xs)

same_list-eq : (xs ys : List ℕ) → same_list xs ys ≡ true → xs ≡ ys
same_list-eq [] [] h = refl
same_list-eq [] (y ∷ ys) h = cc
same_list-eq (x ∷ xs) [] h = cc
same_list-eq (x ∷ xs) (y ∷ ys) h = ground (arith, same_list-eq xs ys)

-- A sorted list with no repetition rises strictly.
Rises-of_distinct :
    (low : ℕ) (xs : List ℕ)
    → Ascends low xs
    → contains low xs ≡ false
    → all_distinct xs ≡ true
    → Rises low xs
Rises-of_distinct low [] a n d = tt
Rises-of_distinct low (x ∷ xs) a n d =
    (ground arith, Rises-of_distinct x xs a.1 (ground arith) (ground arith))

positive-not-zero :
    (ns : List ℤ) → any_not_positive ns ≡ false → contains 0 (map pos_part ns) ≡ false
positive-not-zero [] h = refl
positive-not-zero (n ∷ ns) h = ground (arith, positive-not-zero ns)

-- Options that pass the checks rise from a positive first one.
check_options-Rises : (ns : List ℤ) (ps : List ℕ) → check_options ns ≡ ok ps → Rises 0 ps
unfolding check_options
check_options-Rises ns ps h =
    let sorts : map pos_part ns ≡ sorted (map pos_part ns) =
      same_list-eq (map pos_part ns) (sorted (map pos_part ns)) (ground arith) in
    let same : map pos_part ns ≡ ps = ground arith in
    rw (← same) (
      Rises-of_distinct 0 (map pos_part ns) (rw sorts (sorted-Ascends (map pos_part ns)))
        (positive-not-zero ns (ground arith)) (ground arith))

All-append {ℓ} :
    {A : Type ℓ} (P : A → Type 0) (xs ys : List A) → All P xs → All P ys → All P (xs ++ ys)
All-append P [] ys hx hy = hy
All-append P (x ∷ xs) ys hx hy = (hx.0, All-append P xs ys hx.1 hy)

add_discount-All :
    (ds : List (ℕ × ℕ)) (pair : Option (ℤ × ℤ)) (r : List (ℕ × ℕ))
    → All IsDiscount ds
    → add_discount ds pair ≡ ok r
    → All IsDiscount r
unfolding add_discount
add_discount-All ds none r a h = cc
add_discount-All ds (some (period, discount)) r a h =
    let added : ds ++ (pos_part period, pos_part discount) ∷ [] ≡ r = ground arith in
    rw (← added) (All-append IsDiscount ds _ a ((ground arith, ground arith), tt))

module _ (is_space : ℕ → Bool) (int : Text → Option ℤ) where
  parse_positive_options-Rises :
      (value : Text) (ps : List ℕ) → parse_positive_options is_space int value ≡ ok ps → Rises 0 ps
  unfolding parse_positive_options
  parse_positive_options-Rises value ps h =
      let (ns, parts, checked) =
        >>=-eq-ok (read_parts is_space int (split b',' value)) check_options h in
      check_options-Rises ns ps checked

  read_discounts-All :
      (ds : List (ℕ × ℕ)) (items : List Text) (r : List (ℕ × ℕ))
      → All IsDiscount ds
      → read_discounts is_space int ds items ≡ ok r
      → All IsDiscount r
  unfolding read_discounts
  read_discounts-All ds [] r a h = ground arith
  read_discounts-All ds (item ∷ items) r a h =
      elim (Bool-cases (is_blank (strip is_space int item))) [
        | inl blank ↦ read_discounts-All ds items r a (ground arith)
        | inr given ↦
            let (added, one, others) =
              >>=-eq-ok (add_discount ds (read_pair is_space int item))
                (λ es. read_discounts is_space int es items) (rw given at h) in
            read_discounts-All added items r
              (add_discount-All ds (read_pair is_space int item) added a one) others
      ]

  parse_discounts-All :
      (value : Text) (ds : List (ℕ × ℕ))
      → parse_discounts is_space int value ≡ ok ds
      → All IsDiscount ds
  unfolding parse_discounts
  parse_discounts-All value ds h = read_discounts-All [] (split b',' value) ds tt h

  module _ (digest : Payload → String) where
    -- A catalog is built from three texts that parse, discounts for offered periods, and positive
    -- base prices.
    from_settings-inversion :
        (s : Settings) (c : ProductCatalog)
        → from_settings is_space int digest s ≡ ok c
        → (periods : List ℕ) × (devices : List ℕ) × (discounts : List (ℕ × ℕ))
          × (parse_positive_options is_space int s.purchasable_period_options ≡ ok periods)
          × (parse_positive_options is_space int s.purchasable_device_options ≡ ok devices)
          × (parse_discounts is_space int s.pricing_duration_discounts ≡ ok discounts)
          × (has_unknown_period periods discounts ≡ false)
          × (0 < pos_part s.pricing_base_device_month_stars)
          × (0 < pos_part s.pricing_base_device_month_rub_kopecks)
          × (c ≡ catalog_of digest s periods devices discounts)
    unfolding from_settings
    from_settings-inversion s c h = ground arith

    -- Every catalog that the settings give has positive, strictly rising period and device options,
    -- positive base prices in both currencies, and discounts below 100 percent that belong to
    -- offered periods.
    pub from_settings-IsCatalog :
        (s : Settings) (c : ProductCatalog)
        → from_settings is_space int digest s ≡ ok c
        → IsCatalog c
    from_settings-IsCatalog s c h =
        let (periods, devices, discounts, p, d, ds, known, stars, rub, e) =
          from_settings-inversion s c h in
        rw e (record {
          periods_rise = parse_positive_options-Rises s.purchasable_period_options periods p;
          devices_rise = parse_positive_options-Rises s.purchasable_device_options devices d;
          stars_positive = stars;
          rub_positive = rub;
          discounts_below = parse_discounts-All s.pricing_duration_discounts discounts ds;
          discounts_offered = known;
        })

    bad_prices-inversion :
        (s : Settings) (e : PricingError)
        → from_settings is_space int digest s ≡ err (bad_prices e)
        → (periods : List ℕ) × (devices : List ℕ) × (discounts : List (ℕ × ℕ))
          × (parse_positive_options is_space int s.purchasable_period_options ≡ ok periods)
          × (parse_positive_options is_space int s.purchasable_device_options ≡ ok devices)
          × (parse_discounts is_space int s.pricing_duration_discounts ≡ ok discounts)
          × (has_unknown_period periods discounts ≡ false)
          × (0 < pos_part s.pricing_base_device_month_stars)
          × (0 < pos_part s.pricing_base_device_month_rub_kopecks)
          × (validate_prices (catalog_of digest s periods devices discounts) ≡ err e)
    unfolding from_settings
    bad_prices-inversion s e h = ground arith

    -- The final check of all prices can never fail: settings that parse to a catalog offer no pair
    -- of options whose price is not positive, in either currency.
    pub prices_never_bad :
        (s : Settings) (e : PricingError)
        → ¬ (from_settings is_space int digest s ≡ err (bad_prices e))
    prices_never_bad s e h =
        let (periods, devices, discounts, p, d, ds, known, stars, rub, bad) =
          bad_prices-inversion s e h in
        let valid : IsCatalog (catalog_of digest s periods devices discounts) = record {
          periods_rise = parse_positive_options-Rises s.purchasable_period_options periods p;
          devices_rise = parse_positive_options-Rises s.purchasable_device_options devices d;
          stars_positive = stars;
          rub_positive = rub;
          discounts_below = parse_discounts-All s.pricing_duration_discounts discounts ds;
          discounts_offered = known;
        } in
        cc (bad, validate_prices_ok valid)
