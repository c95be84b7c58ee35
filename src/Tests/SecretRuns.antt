-- ===== src/Tests/SecretRuns.antt =====
-- A secret under three layers of quoting, where quoting puts a percent sign in front.
use vpn_mediator_public.Prelude.{◌≡◌, refl, true, some, [], ◌∷◌, ◌==◌, if◌then◌else◌, arith, take}
use vpn_mediator_public.CheckoutTokens.{Text, same_text}
use vpn_mediator_public.Secrets.{
  Library, bounded_decode, new_pending, scan, candidate_variants, contains_secret_material,
  some_match, max_text_length,
}
use vpn_mediator_public.Secrets.Reported.{secret_reported}
use vpn_mediator_public.Secrets.Closure.{secret_found, whole, piece, Reaches}

abbrev strip_percent : Text → Text
strip_percent [] = []
strip_percent (c ∷ t) = if c == 37 then t else c ∷ t

abbrev secret : Text
secret = 1 ∷ 2 ∷ []

abbrev quoting_library : Library
quoting_library = record {
  unquote = strip_percent;
  urlsplit = λ t. some (record { query = []; fragment = [] });
  parse_qsl = λ t. [];
  patterns = same_text secret ∷ [];
}

abbrev quoted : Text
quoted = 37 ∷ 37 ∷ 37 ∷ secret

variants_run :
    candidate_variants quoting_library quoted
    ≡ quoted ∷ (37 ∷ 37 ∷ secret) ∷ (37 ∷ secret) ∷ secret ∷ []
unfolding candidate_variants scan new_pending bounded_decode
variants_run = refl

secret_found_example : contains_secret_material quoting_library (some quoted) ≡ true
unfolding candidate_variants scan new_pending bounded_decode
secret_found_example =
    secret_found quoting_library quoted secret refl (omega arith)
      (piece {c = 37 ∷ secret} secret (piece {c = quoted} (37 ∷ secret) whole refl) refl) refl

secret_reported_example :
    (d : Text) × Reaches quoting_library (take max_text_length quoted) d
    × (some_match quoting_library.patterns d ≡ true)
unfolding candidate_variants scan new_pending bounded_decode contains_secret_material
secret_reported_example = secret_reported quoting_library quoted refl
