-- ===== src/Secrets/Reported.antt =====
-- Which texts a report of a secret rests on.
use vpn_mediator_public.Prelude.{
  ℕ, zero, suc, ◌≡◌, Bool, true, some, List, [], ◌∷◌, ◌++◌, take, arith, Bool-cases, inl, inr,
}
use vpn_mediator_public.CheckoutTokens.{Text, same_text, is_empty}
use vpn_mediator_public.Secrets.{
  Library, max_text_length, max_variants, seen, unseen, bounded_decode, url_parts, new_pending,
  scan, candidate_variants, some_match, some_candidate, contains_secret_material,
}
use vpn_mediator_public.Secrets.Closure.{
  same_text_sound, same_text_refl, seen-append, pieces, Reaches, whole, piece,
}

unseen-seen :
    (v : List Text) (a : Text) (t : List Text) → seen a (unseen v t) ≡ true → seen a t ≡ true
unseen-seen v a [] h = h
unseen-seen v a (b ∷ t) h = elim (Bool-cases (seen b v)) [
  | inl old ↦ ground (arith, old, unseen-seen v a t (ground (arith, old, h)))
  | inr new ↦ elim (Bool-cases (same_text a b)) [
    | inl same ↦ ground (arith, same)
    | inr other ↦ ground (arith, other, unseen-seen v a t (ground (arith, new, h, other)))
  ]
]

module _ (lib : Library) where
  new_pending-seen :
      (v : List Text) (c d : Text)
      → seen d (new_pending lib v c) ≡ true
      → seen d (pieces lib c) ≡ true
  unfolding new_pending
  new_pending-seen v c d h =
      let decoded = bounded_decode lib c in
      let parts = url_parts lib (lib.urlsplit c) in
      let pushed = seen-append d (unseen v decoded) parts in
      let split = seen-append d decoded parts in
      elim (Bool-cases (seen d (unseen v decoded))) [
        | inl among ↦ ground (arith, split, unseen-seen v d decoded among)
        | inr beyond ↦ ground (arith, split, beyond, pushed, h)
      ]

  -- All these texts stand in the message, or in what it contains.
  abbrev IsReached : Text → List Text → Type 0
  IsReached text t = (d : Text) → seen d t ≡ true → Reaches lib text d

  append-IsReached :
      (text : Text) (s t : List Text)
      → IsReached text s
      → IsReached text t
      → IsReached text (s ++ t)
  append-IsReached text s t hs ht d h = elim (Bool-cases (seen d s)) [
    | inl first ↦ hs d first
    | inr other ↦ ht d (ground (arith, h, other, seen-append d s t))
  ]

  scan-IsReached :
      (text : Text) (room : ℕ) (p v : List Text)
      → IsReached text p
      → IsReached text v
      → IsReached text (scan lib room p v)
  unfolding scan
  scan-IsReached text zero p v hp hv = hv
  scan-IsReached text (suc room) [] v hp hv = hv
  scan-IsReached text (suc room) (c ∷ p) v hp hv =
      let here = hp c (ground (arith, same_text_refl c)) in
      let rest : IsReached text p = λ d h. hp d (ground (arith, h)) in
      elim (Bool-cases (seen c v)) [
        | inl old ↦
            let same : scan lib (suc room) (c ∷ p) v ≡ scan lib (suc room) p v =
              ground (arith, old) in
            rw same (scan-IsReached text (suc room) p v rest hv)
        | inr new ↦
            let v2 = v ++ c ∷ [] in
            let more = new_pending lib v2 c in
            let same : scan lib (suc room) (c ∷ p) v ≡ scan lib room (p ++ more) v2 =
              ground (arith, new) in
            let alone : IsReached text (c ∷ []) = λ d h. elim (Bool-cases (same_text d c)) [
              | inl e ↦ rw (same_text_sound d c e) here
              | inr e ↦ absurd (ground (arith, h, e))
            ] in
            rw same (
              scan-IsReached text room (p ++ more) v2
                (append-IsReached text p more rest
                  (λ d h. piece d here (new_pending-seen v2 c d h)))
                (append-IsReached text v (c ∷ []) hv alone))
      ]

matching_candidate :
    (ps : List (Text → Bool)) (t : List Text)
    → some_candidate ps t ≡ true
    → (d : Text) × (seen d t ≡ true) × (some_match ps d ≡ true)
matching_candidate ps [] h = absurd (ground (arith, h))
matching_candidate ps (b ∷ t) h = elim (Bool-cases (some_match ps b)) [
  | inl match ↦ (b, ground (arith, same_text_refl b), match)
  | inr other ↦
      let (d, among, match) = matching_candidate ps t (ground (arith, h, other)) in
      (d, ground (arith, among), match)
]

-- A message is reported only if one of the patterns matches its first 32,768 signs, or a text that
-- these contain when they are decoded or read as a URL again and again.
pub secret_reported :
    (lib : Library) (text : Text)
    → contains_secret_material lib (some text) ≡ true
    → (d : Text) × Reaches lib (take max_text_length text) d × (some_match lib.patterns d ≡ true)
unfolding contains_secret_material candidate_variants
secret_reported lib text h =
    let t = candidate_variants lib text in
    let start : IsReached lib (take max_text_length text) (take max_text_length text ∷ []) = λ d e.
      elim (Bool-cases (same_text d (take max_text_length text))) [
        | inl same ↦ rw (same_text_sound d (take max_text_length text) same) whole
        | inr other ↦ absurd (ground (arith, e, other))
      ] in
    let found : some_candidate lib.patterns t ≡ true = elim (Bool-cases (is_empty text)) [
      | inl empty ↦ absurd (ground (arith, h, empty))
      | inr e ↦ ground (arith, h, e)
    ] in
    let (d, among, match) = matching_candidate lib.patterns t found in
    (
      d,
      scan-IsReached lib (take max_text_length text) max_variants (take max_text_length text ∷ [])
          [] start (λ b e. absurd (ground (arith, e))) d among,
      match,
    )
