-- ===== src/Table/Counts.antt =====
-- How many rows pass a test, and which one a search returns, after a statement.
use vpn_mediator_public.Prelude.{
  ◌+◌, ◌≡◌, refl, Bool, true, false, none, some, List, [], ◌∷◌, ◌++◌, ◌≤◌, All, Bool-cases, inl,
  inr, arith, if◌then◌else◌,
}
use vpn_mediator_public.Table.{find, update_where, count_where, delete_where}
use vpn_mediator_public.Table.Rows.{update_where-none}

module _ {A : Type 0} where
  -- The counts and searches of a table after an INSERT or an UPDATE.
  pub count-append :
      (p : A → Bool) (t : List A) (r : A)
      → count_where p (t ++ r ∷ []) ≡ count_where p t + (if p r then 1 else 0)
  count-append p [] r = ground arith
  count-append p (s ∷ t) r = ground (arith, count-append p t r)

  pub count_of_missing : (p : A → Bool) (t : List A) → find p t ≡ none → count_where p t ≡ 0
  count_of_missing p [] h = refl
  count_of_missing p (r ∷ t) h = ground (arith, count_of_missing p t)

  pub count-update_where :
      (p q : A → Bool) (f : A → A) (t : List A)
      → ((r : A) → p (f r) ≡ p r)
      → count_where p (update_where q f t) ≡ count_where p t
  count-update_where p q f [] h = refl
  count-update_where p q f (r ∷ t) h = ground (arith, count-update_where p q f t h, h r)

  pub find-append :
      (p : A → Bool) (t : List A) (r : A)
      → find p t ≡ none
      → p r ≡ true
      → find p (t ++ r ∷ []) ≡ some r
  find-append p [] r h e = ground arith
  find-append p (s ∷ t) r h e = ground (arith, find-append p t r)

  pub find-update_where :
      (p : A → Bool) (f : A → A) (t : List A) (r : A)
      → ((s : A) → p (f s) ≡ p s)
      → find p t ≡ some r
      → find p (update_where p f t) ≡ some (f r)
  find-update_where p f [] r keeps h = cc
  find-update_where p f (s ∷ t) r keeps h = ground (arith, find-update_where p f t r keeps, keeps s)

  pub count_mono :
      (p q : A → Bool) (t : List A)
      → ((r : A) → p r ≡ true → q r ≡ true)
      → count_where p t ≤ count_where q t
  count_mono p q [] h = omega arith
  count_mono p q (r ∷ t) h = ground (arith, count_mono p q t h, h r)

  -- An UPDATE of the only row that passes a test counts that row anew.
  pub count_one_updated :
      (p q : A → Bool) (f : A → A) (t : List A) (r : A)
      → count_where p t ≤ 1
      → find p t ≡ some r
      → count_where q (update_where p f t) + (if q r then 1 else 0)
        ≡ count_where q t + (if q (f r) then 1 else 0)
  count_one_updated p q f [] r one h = cc
  count_one_updated p q f (s ∷ t) r one h = elim (Bool-cases (p s)) [
    | inl hit ↦
        let e : s ≡ r = ground arith in
        let none_left : count_where p t ≡ 0 = ground arith in
        rw (hit, update_where-none p f t none_left, ← e)
          (elim (Bool-cases (q s)) [
            | inl a ↦ elim (Bool-cases (q (f s))) [
              | inl b ↦ rw (a, b) (omega arith)
              | inr b ↦ rw (a, b) (omega arith)
            ]
            | inr a ↦ elim (Bool-cases (q (f s))) [
              | inl b ↦ rw (a, b) (omega arith)
              | inr b ↦ rw (a, b) (omega arith)
            ]
          ])
    | inr miss ↦
        let rest = count_one_updated p q f t r (ground arith) (ground arith) in
        rw miss (elim (Bool-cases (q s)) [ inl a ↦ rw a (omega (arith, rest)) | inr a ↦ rw a rest ])
  ]

  -- If as many rows pass `p` as pass the wider `q`, they are the same rows.
  pub All-of_count :
      (p q : A → Bool) (t : List A)
      → ((r : A) → p r ≡ true → q r ≡ true)
      → count_where q t ≤ count_where p t
      → All (λ (r : A). q r ≡ true → p r ≡ true) t
  All-of_count p q [] h c = tt
  All-of_count p q (r ∷ t) h c =
      let m = count_mono p q t h in
      (
        λ e. elim (Bool-cases (p r)) [ inl y ↦ y | inr n ↦ absurd (ground (arith, m)) ],
        All-of_count p q t h (ground (arith, m, h r)),
      )

  pub All-both : (P Q : A → Type 0) (t : List A) → All P t → All Q t → All (λ (r : A). P r × Q r) t
  All-both P Q [] a b = tt
  All-both P Q (r ∷ t) a b = ((a.0, b.0), All-both P Q t a.1 b.1)

  pub All-update_where_into :
      (P Q : A → Type 0) (p : A → Bool) (f : A → A)
      → ((r : A) → P r → p r ≡ true → Q (f r))
      → ((r : A) → P r → p r ≡ false → Q r)
      → (t : List A) → All P t
      → All Q (update_where p f t)
  All-update_where_into P Q p f hit miss [] h = tt
  All-update_where_into P Q p f hit miss (r ∷ t) h = elim (Bool-cases (p r)) [
    | inl yes_p ↦ rw yes_p (hit r h.0 yes_p, All-update_where_into P Q p f hit miss t h.1)
    | inr no_p ↦ rw no_p (miss r h.0 no_p, All-update_where_into P Q p f hit miss t h.1)
  ]

  pub All-mapped : (P Q : A → Type 0) → ((r : A) → P r → Q r) → (t : List A) → All P t → All Q t
  All-mapped P Q f [] h = tt
  All-mapped P Q f (r ∷ t) h = (f r h.0, All-mapped P Q f t h.1)

  pub delete_where-none : (p : A → Bool) (t : List A) → count_where p t ≡ 0 → delete_where p t ≡ t
  delete_where-none p [] h = refl
  delete_where-none p (r ∷ t) h = ground (arith, delete_where-none p t)

  -- A DELETE of the only row that passes a test no longer counts it.
  pub count_one_deleted :
      (p q : A → Bool) (t : List A) (r : A)
      → count_where p t ≤ 1
      → find p t ≡ some r
      → count_where q (delete_where p t) + (if q r then 1 else 0) ≡ count_where q t
  count_one_deleted p q [] r one h = cc
  count_one_deleted p q (s ∷ t) r one h = elim (Bool-cases (p s)) [
    | inl hit ↦
        let e : s ≡ r = ground arith in
        let none_left : count_where p t ≡ 0 = ground arith in
        rw (hit, delete_where-none p t none_left, ← e)
          (elim (Bool-cases (q s)) [ inl a ↦ rw a (omega arith) | inr a ↦ rw a (omega arith) ])
    | inr miss ↦
        let rest = count_one_deleted p q t r (ground arith) (ground arith) in
        rw miss (elim (Bool-cases (q s)) [ inl a ↦ rw a (omega (arith, rest)) | inr a ↦ rw a rest ])
  ]

  pub All-delete_where :
      (P : A → Type 0) (p : A → Bool) (t : List A) → All P t → All P (delete_where p t)
  All-delete_where P p [] a = tt
  All-delete_where P p (r ∷ t) a = elim (Bool-cases (p r)) [
    | inl hit ↦ rw hit (All-delete_where P p t a.1)
    | inr miss ↦ rw miss (a.0, All-delete_where P p t a.1)
  ]

  -- An UPDATE of other rows leaves what a search finds.
  pub find-update_other :
      (p q : A → Bool) (f : A → A) (t : List A) (r : A)
      → ((s : A) → q s ≡ true → p (f s) ≡ p s)
      → find p t ≡ some r
      → q r ≡ false
      → find p (update_where q f t) ≡ some r
  find-update_other p q f [] r keeps h other = cc
  find-update_other p q f (s ∷ t) r keeps h other = elim (Bool-cases (p s)) [
    | inl hit ↦
        let e : s ≡ r = ground (arith, hit) in rw (e, other) (rw (← e) (ground (arith, hit)))
    | inr miss ↦ ground (arith, find-update_other p q f t r keeps, miss, keeps s)
  ]

  pub count_found :
      (p : A → Bool) (t : List A) (r : A)
      → find p t ≡ some r
      → count_where p t ≤ 1
      → count_where p t ≡ 1
  count_found p [] r h one = cc
  count_found p (s ∷ t) r h one = elim (Bool-cases (p s)) [
    | inl hit ↦ ground (arith, hit)
    | inr miss ↦ ground (arith, miss, count_found p t r)
  ]
