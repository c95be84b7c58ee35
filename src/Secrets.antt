-- ===== src/Secrets.antt =====
-- support_security.py: the search for secrets in a customer's message to the support.
pub mod Closure
pub mod Reported
use vpn_mediator_public.Prelude.{
  ℕ, zero, suc, Bool, true, false, ◌||◌, not, Option, none, some, List, [], ◌∷◌, ◌++◌, ltb,
  if◌then◌else◌, length, take,
}
use vpn_mediator_public.CheckoutTokens.{Text, same_text, is_empty}

-- What `urlsplit` finds, as far as it is read.
pub record SplitUrl : Type 0 where
  pub query : Text
  pub fragment : Text

-- What the standard library provides: `unquote`, `urlsplit`, which may raise, `parse_qsl` with blank
-- values kept, and the searches of the patterns.
pub record Library : Type 0 where
  pub unquote : Text → Text
  pub urlsplit : Text → Option SplitUrl
  pub parse_qsl : Text → List (Text × Text)
  pub patterns : List (Text → Bool)

abbrev pub max_text_length : ℕ
max_text_length = 32768

abbrev pub max_decode_passes : ℕ
max_decode_passes = 2

abbrev pub max_variants : ℕ
max_variants = 32

abbrev pub seen : Text → List Text → Bool
seen a [] = false
seen a (b ∷ t) = same_text a b || seen a t

abbrev pub unseen : List Text → List Text → List Text
unseen v [] = []
unseen v (a ∷ t) = if seen a v then unseen v t else a ∷ unseen v t

abbrev pub keys_and_values : List (Text × Text) → List Text
keys_and_values [] = []
keys_and_values ((k, v) ∷ t) = k ∷ v ∷ keys_and_values t

abbrev pub some_match : List (Text → Bool) → Text → Bool
some_match [] a = false
some_match (p ∷ ps) a = p a || some_match ps a

abbrev pub some_candidate : List (Text → Bool) → List Text → Bool
some_candidate ps [] = false
some_candidate ps (a ∷ t) = some_match ps a || some_candidate ps t

module _ (lib : Library) where
  -- The loop of `_bounded_decode`, which stops at a text that decodes to itself or to too much.
  abbrev pub decode_passes : ℕ → Text → List Text
  decode_passes zero current = []
  decode_passes (suc passes) current =
      let decoded = lib.unquote current in
      let rest = decode_passes passes decoded in
      if same_text decoded current || ltb max_text_length (length decoded)
      then []
      else decoded ∷ rest

  unfoldable pub bounded_decode : Text → List Text
  bounded_decode value = value ∷ decode_passes max_decode_passes value

  abbrev pub url_parts : Option SplitUrl → List Text
  url_parts none = []
  url_parts (some parsed) =
      (if is_empty parsed.query then [] else keys_and_values (lib.parse_qsl parsed.query))
      ++ (if is_empty parsed.fragment then [] else parsed.fragment ∷ [])

  -- What the loop of `_candidate_variants` puts on the list of pending texts for a candidate, when
  -- the texts `variants` have been seen.
  unfoldable pub new_pending : List Text → Text → List Text
  unfolding bounded_decode
  new_pending variants candidate =
      unseen variants (bounded_decode candidate) ++ url_parts (lib.urlsplit candidate)

  -- The loop itself, while `room` variants still fit in; the texts that were seen are the variants.
  unfoldable pub scan : ℕ → List Text → List Text → List Text
  unfolding new_pending
  scan zero pending variants = variants
  scan (suc room) [] variants = variants
  scan (suc room) (candidate ∷ pending) variants = elim (seen candidate variants) [
    | true ↦ scan (suc room) pending variants
    | false ↦
        scan room (pending ++ new_pending (variants ++ candidate ∷ []) candidate)
          (variants ++ candidate ∷ [])
  ]

  unfoldable pub candidate_variants : Text → List Text
  unfolding scan
  candidate_variants text = scan max_variants (take max_text_length text ∷ []) []

  unfoldable pub contains_secret_material : Option Text → Bool
  unfolding candidate_variants
  contains_secret_material none = false
  contains_secret_material (some text) =
      if is_empty text then false else some_candidate lib.patterns (candidate_variants text)
