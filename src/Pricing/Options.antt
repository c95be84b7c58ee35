-- ===== src/Pricing/Options.antt =====
-- The text settings of product_catalog.py: lists of positive numbers and PERIOD:PERCENT pairs.
-- A text is the list of its code points. Two of Python's own functions are parameters: `is_space`
-- is the test by which `str.strip` strips, and `int` reads a stripped text, or raises (`none`).
use vpn_mediator_public.Prelude.{
  ℕ, Bool, true, false, ◌&&◌, ◌||◌, not, Option, none, some, List, [], ◌∷◌, ◌++◌, map, leb, ◌==◌,
  if◌then◌else◌, Result, ok, err, ◌>>=◌, ◌>>◌, raise_if, length,
}
use vpn_mediator_public.Prelude.Int.{ℤ, pos, pos_part, ltb_ℤ, leb_ℤ}
use vpn_mediator_public.Pricing.Catalog.{contains, has_key}

abbrev pub Text : Type 0
Text = List ℕ

pub data OptionsError : Type 0 where
  not_an_integer_list empty_options not_positive not_unique not_sorted : OptionsError
  not_pairs discount_out_of_range discount_not_unique : OptionsError

-- `text.split(separator)`
unfoldable pub split : ℕ → Text → List Text
split separator [] = [] ∷ []
split separator (c ∷ text) =
    let rest = split separator text in
    if c == separator then [] ∷ rest else elim rest [ [] ↦ (c ∷ []) ∷ [] | w ∷ ws ↦ (c ∷ w) ∷ ws ]

-- `text.split(separator, maxsplit=1)` as the pair that it is unpacked to; `none` raises.
unfoldable pub split_once : ℕ → Text → Option (Text × Text)
split_once separator [] = none
split_once separator (c ∷ text) =
    let rest = split_once separator text in
    if c == separator
    then some ([], text)
    else elim rest [ none ↦ none | some (l, r) ↦ some (c ∷ l, r) ]

-- `sorted(options)`
abbrev pub insert_sorted : ℕ → List ℕ → List ℕ
insert_sorted n [] = n ∷ []
insert_sorted n (x ∷ xs) = if leb n x then n ∷ x ∷ xs else x ∷ insert_sorted n xs

unfoldable pub sorted : List ℕ → List ℕ
sorted [] = []
sorted (x ∷ xs) = insert_sorted x (sorted xs)

-- `tuple(a) == tuple(b)`
abbrev pub same_list : List ℕ → List ℕ → Bool
same_list [] [] = true
same_list (x ∷ xs) (y ∷ ys) = (x == y) && same_list xs ys
same_list _ _ = false

-- `len(set(options)) == len(options)`
abbrev pub all_distinct : List ℕ → Bool
all_distinct [] = true
all_distinct (x ∷ xs) = not (contains x xs) && all_distinct xs

-- `any(option <= 0 for option in options)`
abbrev pub any_not_positive : List ℤ → Bool
any_not_positive [] = false
any_not_positive (n ∷ ns) = leb_ℤ n (pos 0) || any_not_positive ns

-- `not text`
abbrev pub is_blank : Text → Bool
is_blank [] = true
is_blank (c ∷ text) = false

-- The checks on the numbers; after the second one they are natural numbers.
unfoldable pub check_options : List ℤ → Result OptionsError (List ℕ)
check_options options =
    let naturals = map pos_part options in
    do
      raise_if (length options == 0) empty_options
      raise_if (any_not_positive options) not_positive
      raise_if (not (all_distinct naturals)) not_unique
      raise_if (not (same_list naturals (sorted naturals))) not_sorted
      ok naturals

-- The checks of one item and `discounts[period] = discount`.
unfoldable pub add_discount : List (ℕ × ℕ) → Option (ℤ × ℤ) → Result OptionsError (List (ℕ × ℕ))
add_discount discounts none = err not_pairs
add_discount discounts (some (period, discount)) = do
  raise_if (leb_ℤ period (pos 0) || not (leb_ℤ (pos 0) discount && ltb_ℤ discount (pos 100)))
      discount_out_of_range
  raise_if (has_key (pos_part period) discounts) discount_not_unique
  ok (discounts ++ (pos_part period, pos_part discount) ∷ [])

module _ (is_space : ℕ → Bool) (int : Text → Option ℤ) where
  unfoldable pub lstrip : Text → Text
  lstrip [] = []
  lstrip (c ∷ text) = if is_space c then lstrip text else c ∷ text

  unfoldable pub rstrip : Text → Text
  rstrip [] = []
  rstrip (c ∷ text) =
      let rest = rstrip text in
      elim rest [ [] ↦ (if is_space c then [] else c ∷ []) | d ∷ ds ↦ c ∷ d ∷ ds ]

  unfoldable pub strip : Text → Text
  unfolding lstrip rstrip
  strip text = rstrip (lstrip text)

  -- `int(part.strip()) for part in parts if part.strip()`
  unfoldable pub read_parts : List Text → Result OptionsError (List ℤ)
  unfolding strip
  read_parts [] = ok []
  read_parts (part ∷ parts) =
      let rest = read_parts parts in
      if is_blank (strip part) then rest else elim (int (strip part)) [
        | none ↦ err not_an_integer_list
        | some n ↦ rest >>= λ ns. ok (n ∷ ns)
      ]

  -- `_parse_positive_options`
  unfoldable pub parse_positive_options : Text → Result OptionsError (List ℕ)
  parse_positive_options value = do options ← read_parts (split b',' value); check_options options

  -- The two `int` calls of one item.
  unfoldable pub read_pair : Text → Option (ℤ × ℤ)
  unfolding split_once strip
  read_pair item = elim (split_once b':' item) [
    | none ↦ none
    | some (period_text, discount_text) ↦ elim (int (strip period_text)) [
      | none ↦ none
      | some period ↦ elim (int (strip discount_text)) [
        | none ↦ none
        | some discount ↦ some (period, discount)
      ]
    ]
  ]

  -- The loop of `_parse_discounts`.
  unfoldable pub read_discounts : List (ℕ × ℕ) → List Text → Result OptionsError (List (ℕ × ℕ))
  read_discounts discounts [] = ok discounts
  read_discounts discounts (item ∷ items) =
      let rest = read_discounts discounts items in
      if is_blank (strip item)
      then rest
      else add_discount discounts (read_pair item) >>= λ ds. read_discounts ds items

  -- `_parse_discounts`
  unfoldable pub parse_discounts : Text → Result OptionsError (List (ℕ × ℕ))
  parse_discounts value = read_discounts [] (split b',' value)
