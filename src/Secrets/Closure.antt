-- ===== src/Secrets/Closure.antt =====
-- Which texts the search for secrets reads.
use vpn_mediator_public.Prelude.{
  ℕ, zero, suc, ◌+◌, ◌<◌, ◌≡◌, refl, Bool, true, false, ◌||◌, some, List, [], ◌∷◌, ◌++◌, length,
  take, arith, Bool-cases, inl, inr,
}
use vpn_mediator_public.CheckoutTokens.{Text, same_text, is_empty}
use vpn_mediator_public.Secrets.{
  Library, max_text_length, max_variants, seen, unseen, bounded_decode, url_parts, new_pending,
  scan, candidate_variants, some_match, some_candidate, contains_secret_material,
}

pub same_text_sound : (a b : Text) → same_text a b ≡ true → a ≡ b
same_text_sound [] [] h = refl
same_text_sound [] (y ∷ b) h = absurd (ground (arith, h))
same_text_sound (x ∷ a) [] h = absurd (ground (arith, h))
same_text_sound (x ∷ a) (y ∷ b) h =
    let e : x ≡ y = ground (arith, h) in
    let rest : a ≡ b = same_text_sound a b (ground (arith, h)) in rw (e, rest) refl

pub same_text_refl : (a : Text) → same_text a a ≡ true
same_text_refl [] = refl
same_text_refl (x ∷ a) = ground (arith, same_text_refl a)

pub seen-append : (a : Text) (s t : List Text) → seen a (s ++ t) ≡ (seen a s || seen a t)
seen-append a [] t = refl
seen-append a (b ∷ s) t = ground (arith, seen-append a s t)

seen_of_same :
    (a b : Text) (t : List Text) → same_text a b ≡ true → seen b t ≡ true → seen a t ≡ true
seen_of_same a b t same h = rw (same_text_sound a b same) h

seen-unseen :
    (v : List Text) (a : Text) (t : List Text)
    → seen a t ≡ true
    → (seen a v || seen a (unseen v t)) ≡ true
seen-unseen v a [] h = absurd (ground (arith, h))
seen-unseen v a (b ∷ t) h = elim (Bool-cases (same_text a b)) [
  | inl same ↦
      let e = same_text_sound a b same in
      elim (Bool-cases (seen b v)) [
        | inl old ↦ ground (arith, seen_of_same a b v same old)
        | inr new ↦ ground (arith, new, same)
      ]
  | inr other ↦
      let rest = seen-unseen v a t (ground (arith, h, other)) in
      elim (Bool-cases (seen b v)) [
        | inl old ↦ ground (arith, old, rest)
        | inr new ↦ ground (arith, new, rest)
      ]
]

none_pending : (b : Bool) → (b || false) ≡ true → b ≡ true
none_pending true h = refl
none_pending false h = h

module _ (lib : Library) where
  -- What a text contains when it is decoded once or twice, or read as a URL.
  abbrev pub pieces : Text → List Text
  pieces c = bounded_decode lib c ++ url_parts lib (lib.urlsplit c)

  -- A text, its pieces, their pieces and so on.
  pub data Reaches (text : Text) : Text → Type 0 where
    whole : Reaches text text
    piece : {c : Text} (d : Text) → Reaches text c → seen d (pieces c) ≡ true → Reaches text d

  -- The pieces of the variants are variants, or pending.
  abbrev pub IsCovered : List Text → List Text → Type 0
  IsCovered variants pending =
      (c d : Text)
      → seen c variants ≡ true
      → seen d (pieces c) ≡ true
      → (seen d variants || seen d pending) ≡ true

  covered_repeat :
      (c : Text) (p v : List Text) (d : Text)
      → seen c v ≡ true
      → (seen d v || seen d (c ∷ p)) ≡ true
      → (seen d v || seen d p) ≡ true
  covered_repeat c p v d old h = elim (Bool-cases (same_text d c)) [
    | inl same ↦ ground (arith, seen_of_same d c v same old)
    | inr other ↦ ground (arith, h, other)
  ]

  covered_moved :
      (c : Text) (p more v : List Text) (d : Text)
      → (seen d v || seen d (c ∷ p)) ≡ true
      → (seen d (v ++ c ∷ []) || seen d (p ++ more)) ≡ true
  covered_moved c p more v d h = ground (arith, h, seen-append d v (c ∷ []), seen-append d p more)

  covered_new :
      (c : Text) (p v : List Text) (d : Text)
      → seen d (pieces c) ≡ true
      → (seen d v || seen d (p ++ new_pending lib v c)) ≡ true
  unfolding new_pending
  covered_new c p v d h =
      let decoded = bounded_decode lib c in
      let parts = url_parts lib (lib.urlsplit c) in
      let split = seen-append d decoded parts in
      let pending = seen-append d p (unseen v decoded ++ parts) in
      let pushed = seen-append d (unseen v decoded) parts in
      elim (Bool-cases (seen d decoded)) [
        | inl among ↦ ground (arith, among, seen-unseen v d decoded among, pending, pushed)
        | inr beyond ↦ ground (arith, beyond, h, split, pending, pushed)
      ]

  step-IsCovered :
      (c : Text) (p v : List Text)
      → IsCovered v (c ∷ p)
      → IsCovered (v ++ c ∷ []) (p ++ new_pending lib (v ++ c ∷ []) c)
  step-IsCovered c p v h b d in_v in_pieces =
      let split = seen-append b v (c ∷ []) in
      elim (Bool-cases (same_text b c)) [
        | inl same ↦ covered_new c p (v ++ c ∷ []) d (rw (same_text_sound b c same) at in_pieces)
        | inr other ↦
            covered_moved c p (new_pending lib (v ++ c ∷ []) c) v d
              (h b d (ground (arith, other, split, in_v)) in_pieces)
      ]

  length-snoc : (v : List Text) (c : Text) → length (v ++ c ∷ []) ≡ suc (length v)
  length-snoc [] c = refl
  length-snoc (b ∷ v) c = ground (arith, length-snoc v c)

  -- A scan that ends with room left has taken in everything that was pending, and all pieces.
  scan-IsCovered :
      (room : ℕ) (p v : List Text)
      → IsCovered v p
      → length (scan lib room p v) < length v + room
      → IsCovered (scan lib room p v) []
        × ((d : Text) → (seen d v || seen d p) ≡ true → seen d (scan lib room p v) ≡ true)
  unfolding scan
  scan-IsCovered zero p v h short = absurd (omega (arith, short))
  scan-IsCovered (suc room) [] v h short = (h, λ d e. ground (arith, e))
  scan-IsCovered (suc room) (c ∷ p) v h short = elim (Bool-cases (seen c v)) [
    | inl old ↦
        let same : scan lib (suc room) (c ∷ p) v ≡ scan lib (suc room) p v = ground (arith, old) in
        let rest =
          scan-IsCovered (suc room) p v
            (λ b d in_v in_pieces. covered_repeat c p v d old (h b d in_v in_pieces))
            (rw same at short) in
        rw same (rest.0, λ d e. rest.1 d (covered_repeat c p v d old e))
    | inr new ↦
        let more = new_pending lib (v ++ c ∷ []) c in
        let same : scan lib (suc room) (c ∷ p) v ≡ scan lib room (p ++ more) (v ++ c ∷ []) =
          ground (arith, new) in
        let rest =
          scan-IsCovered room (p ++ more) (v ++ c ∷ []) (step-IsCovered c p v h)
            (omega (arith, (rw same at short), length-snoc v c)) in
        rw same (rest.0, λ d e. rest.1 d (covered_moved c p more v d e))
  ]

  reached-seen :
      (text : Text)
      → length (candidate_variants lib text) < max_variants
      → (d : Text) → Reaches (take max_text_length text) d
      → seen d (candidate_variants lib text) ≡ true
  unfolding candidate_variants
  reached-seen text short d whole =
      let whole_text = take max_text_length text in
      (scan-IsCovered max_variants (whole_text ∷ []) []
          (λ b e in_v in_pieces. absurd (ground (arith, in_v))) short).1
        d (ground (arith, same_text_refl d))
  reached-seen text short d (piece {c} _ reached among) =
      let whole_text = take max_text_length text in
      let before = reached-seen text short c reached in
      let covered =
        (scan-IsCovered max_variants (whole_text ∷ []) []
            (λ b e in_v in_pieces. absurd (ground (arith, in_v))) short).0
          c d before among in
      none_pending (seen d (candidate_variants lib text)) covered

found_candidate :
    (ps : List (Text → Bool)) (d : Text) (t : List Text)
    → seen d t ≡ true
    → some_match ps d ≡ true
    → some_candidate ps t ≡ true
found_candidate ps d [] h match = absurd (ground (arith, h))
found_candidate ps d (b ∷ t) h match = elim (Bool-cases (same_text d b)) [
  | inl same ↦
      let e : some_match ps b ≡ true = rw (same_text_sound d b same) at match in ground (arith, e)
  | inr other ↦ ground (arith, found_candidate ps d t (ground (arith, h, other)) match)
]

-- If fewer than 32 variants of a message are found, a secret that stands in its first 32,768 signs, or
-- in what they contain when they are decoded or read as a URL again and again, is reported.
pub secret_found :
    (lib : Library) (text d : Text)
    → is_empty text ≡ false
    → length (candidate_variants lib text) < max_variants
    → Reaches lib (take max_text_length text) d
    → some_match lib.patterns d ≡ true
    → contains_secret_material lib (some text) ≡ true
unfolding contains_secret_material
secret_found lib text d some_text short reached match = rw some_text (
    found_candidate lib.patterns d (candidate_variants lib text)
      (reached-seen lib text short d reached) match)
