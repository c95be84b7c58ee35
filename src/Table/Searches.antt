-- ===== src/Table/Searches.antt =====
-- What a search returns after an UPDATE of any rows or an INSERT.
use vpn_mediator_public.Prelude.{
  ◌≡◌, refl, Bool, Option, none, some, List, [], ◌∷◌, ◌++◌, Bool-cases, inl, inr, arith,
  if◌then◌else◌,
}
use vpn_mediator_public.Table.{find, update_where}

module _ {A : Type 0} where
  -- What an UPDATE makes of a row that was found.
  abbrev pub updated_row : (A → Bool) → (A → A) → Option A → Option A
  updated_row q f none = none
  updated_row q f (some r) = some (if q r then f r else r)

  pub find-update_any :
      (p q : A → Bool) (f : A → A) (t : List A)
      → ((r : A) → p (f r) ≡ p r)
      → find p (update_where q f t) ≡ updated_row q f (find p t)
  find-update_any p q f [] keeps = refl
  find-update_any p q f (r ∷ t) keeps = elim (Bool-cases (q r)) [
    | inl took ↦ ground (arith, took, keeps r, find-update_any p q f t keeps)
    | inr left ↦ ground (arith, left, find-update_any p q f t keeps)
  ]

  pub find-append_found :
      (p : A → Bool) (t added : List A) (r : A) → find p t ≡ some r → find p (t ++ added) ≡ some r
  find-append_found p [] added r h = cc
  find-append_found p (s ∷ t) added r h = ground (arith, find-append_found p t added r)
