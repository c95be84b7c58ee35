-- ===== src/Table/Rows.antt =====
-- What holds of the rows of a table after a statement.
use vpn_mediator_public.Prelude.{
  ◌≡◌, refl, Bool, true, some, List, [], ◌∷◌, ◌++◌, map, All, Bool-cases, inl, inr, arith,
  if◌then◌else◌,
}
use vpn_mediator_public.Table.{find, update_where, count_where}

-- A row predicate that an UPDATE keeps on the rows that it takes holds of the whole table after it.
pub All-update_where :
    {A : Type 0} (P : A → Type 0) (p : A → Bool) (f : A → A)
    → ((r : A) → P r → p r ≡ true → P (f r))
    → (t : List A) → All P t
    → All P (update_where p f t)
All-update_where P p f keep [] h = tt
All-update_where P p f keep (r ∷ t) h = elim (Bool-cases (p r)) [
  | inl yes_p ↦ rw yes_p (keep r h.0 yes_p, All-update_where P p f keep t h.1)
  | inr no_p ↦ rw no_p (h.0, All-update_where P p f keep t h.1)
]

pub All-append {ℓ κ} :
    {Row : Type ℓ} (Holds : Row → Type κ) (table added : List Row)
    → All Holds table
    → All Holds added
    → All Holds (table ++ added)
All-append Holds [] added known new = new
All-append Holds (r ∷ table) added known new = (known.0, All-append Holds table added known.1 new)

-- An UPDATE that takes no row changes nothing.
pub update_where-none :
    {A : Type 0} (p : A → Bool) (f : A → A) (t : List A)
    → count_where p t ≡ 0
    → update_where p f t ≡ t
update_where-none p f [] h = refl
update_where-none p f (r ∷ t) h = ground (arith, update_where-none p f t)

-- The row that `find` returns passes the test and satisfies what all rows do.
pub find-passes : {A : Type 0} (p : A → Bool) (t : List A) (r : A) → find p t ≡ some r → p r ≡ true
find-passes p [] r h = cc
find-passes p (s ∷ t) r h = elim (Bool-cases (p s)) [
  | inl yes_p ↦ let e : s ≡ r = ground arith in rw (← e) yes_p
  | inr no_p ↦ find-passes p t r (rw no_p at h)
]

pub find-All :
    {A : Type 0} (P : A → Type 0) (p : A → Bool) (t : List A) (r : A)
    → All P t
    → find p t ≡ some r
    → P r
find-All P p [] r a h = cc
find-All P p (s ∷ t) r a h = elim (Bool-cases (p s)) [
  | inl yes_p ↦ let e : s ≡ r = ground arith in rw (← e) a.0
  | inr no_p ↦ find-All P p t r a.1 (rw no_p at h)
]

-- Two updates one after the other are one pass over the table.
pub update_where_twice :
    {A : Type 0} (p q : A → Bool) (f g : A → A) (t : List A)
    → update_where q g (update_where p f t)
      ≡ map (λ r. let s = if p r then f r else r in if q s then g s else s) t
update_where_twice p q f g [] = refl
update_where_twice p q f g (r ∷ t) = rw (update_where_twice p q f g t)

pub map-ext : {A B : Type 0} (f g : A → B) (t : List A) → ((r : A) → f r ≡ g r) → map f t ≡ map g t
map-ext f g [] h = refl
map-ext f g (r ∷ t) h = rw (h r, map-ext f g t h)

pub update_where-eq-map :
    {A : Type 0} (p : A → Bool) (f : A → A) (t : List A)
    → update_where p f t ≡ map (λ r. if p r then f r else r) t
update_where-eq-map p f [] = refl
update_where-eq-map p f (r ∷ t) = rw (update_where-eq-map p f t)
