-- ===== src/Table.antt =====
-- Database tables as lists of rows, and the statements that the repositories send: SELECT with
-- WHERE, ORDER BY and LIMIT, UPDATE with WHERE and its row count, and INSERT at the end.
pub mod Rows
pub mod Counts
pub mod Searches
use vpn_mediator_public.Prelude.{
  ℕ, zero, suc, ◌+◌, ◌≡◌, refl, ap, Bool, true, false, ◌&&◌, ◌||◌, Option, none, some, List, [],
  ◌∷◌, ◌++◌, ◌≤◌, map, All, Bool-cases, inl, inr, arith, if◌then◌else◌,
}

module _ {A : Type 0} where
  -- SELECT ... WHERE p
  abbrev pub select : (A → Bool) → List A → List A
  select p [] = []
  select p (r ∷ t) = if p r then r ∷ select p t else select p t

  -- The row of `scalar_one_or_none()`, where a key makes it the only one.
  abbrev pub find : (A → Bool) → List A → Option A
  find p [] = none
  find p (r ∷ t) = if p r then some r else find p t

  -- UPDATE ... SET f WHERE p
  abbrev pub update_where : (A → Bool) → (A → A) → List A → List A
  update_where p f [] = []
  update_where p f (r ∷ t) = (if p r then f r else r) ∷ update_where p f t

  -- The row count of such an UPDATE, and SELECT count(...) WHERE p.
  abbrev pub count_where : (A → Bool) → List A → ℕ
  count_where p [] = 0
  count_where p (r ∷ t) = if p r then suc (count_where p t) else count_where p t

  -- DELETE ... WHERE p
  abbrev pub delete_where : (A → Bool) → List A → List A
  delete_where p [] = []
  delete_where p (r ∷ t) = if p r then delete_where p t else r ∷ delete_where p t

  abbrev pub insert_by : (A → A → Bool) → A → List A → List A
  insert_by before r [] = r ∷ []
  insert_by before r (s ∷ t) = if before r s then r ∷ s ∷ t else s ∷ insert_by before r t

  -- ORDER BY
  abbrev pub order_by : (A → A → Bool) → List A → List A
  order_by before [] = []
  order_by before (r ∷ t) = insert_by before r (order_by before t)
