-- ===== src/Tests/TokenRuns.antt =====
-- A checkout token under a library that is small enough to run: a payload is written as a list of
-- numbers, the alphabet skips the dot, and a signature is the secret followed by the text.
use vpn_mediator_public.Prelude.{
  ℕ, zero, suc, ◌+◌, ◌-◌, ◌≡◌, refl, Option, none, some, [], ◌∷◌, ◌++◌, ok, arith, map, ltb,
  if◌then◌else◌,
}
use vpn_mediator_public.Prelude.Int.{ℤ, pos, negsuc}
use vpn_mediator_public.CheckoutTokens.{Text, Claims, Payload, Library, issue, verify, sign_payload}
use vpn_mediator_public.CheckoutTokens.RoundTrip.{IsDotless, IsLossless, verify-issue}

abbrev sign_of : ℤ → ℕ
sign_of (pos n) = zero
sign_of (negsuc n) = suc zero

abbrev size_of : ℤ → ℕ
size_of (pos n) = n
size_of (negsuc n) = n

abbrev read_int : ℕ → ℕ → ℤ
read_int zero n = pos n
read_int (suc k) n = negsuc n

read_int_lem : (z : ℤ) → read_int (sign_of z) (size_of z) ≡ z
read_int_lem (pos n) = refl
read_int_lem (negsuc n) = refl

abbrev tag_of {ℓ} : {A : Type ℓ} → Option A → ℕ
tag_of none = zero
tag_of (some a) = suc zero

abbrev value_or {ℓ} : {A : Type ℓ} → A → Option A → A
value_or b none = b
value_or b (some a) = a

abbrev read_option {ℓ} : {A : Type ℓ} → ℕ → A → Option A
read_option zero a = none
read_option (suc k) a = some a

read_option_lem {ℓ} :
    {A : Type ℓ} (b : A) (o : Option A) → read_option (tag_of o) (value_or b o) ≡ o
read_option_lem b none = refl
read_option_lem b (some a) = refl

-- A text, its end, and what follows it.
abbrev write_text : Text → Text → Text
write_text [] rest = zero ∷ rest
write_text (c ∷ cs) rest = suc c ∷ write_text cs rest

abbrev read_text : Text → Text × Text
read_text [] = ([], [])
read_text (zero ∷ rest) = ([], rest)
read_text (suc c ∷ cs) = let (text, rest) = read_text cs in (c ∷ text, rest)

read_text-write_text : (t rest : Text) → read_text (write_text t rest) ≡ (t, rest)
read_text-write_text [] rest = refl
read_text-write_text (c ∷ cs) rest = rw (read_text-write_text cs rest) refl

abbrev write_payload : Payload → Text
write_payload p =
    let amount = value_or (pos 0) p.claims.amount_minor_units in
    sign_of p.version
    ∷ size_of p.version
    ∷ sign_of p.claims.expires_at_unix
    ∷ size_of p.claims.expires_at_unix
    ∷ tag_of p.claims.amount_minor_units
    ∷ sign_of amount
    ∷ size_of amount
    ∷ tag_of p.claims.pricing_version
    ∷ write_text (value_or [] p.claims.pricing_version) p.claims.quote_id

abbrev read_payload : Text → Option Payload
read_payload (a ∷ b ∷ c ∷ d ∷ e ∷ f ∷ g ∷ h ∷ rest) =
    let (pricing, quote) = read_text rest in
    some (record {
      claims = record {
        quote_id = quote;
        expires_at_unix = read_int c d;
        amount_minor_units = read_option e (read_int f g);
        pricing_version = read_option h pricing;
      };
      version = read_int a b;
    })
read_payload _ = none

read_payload-write_payload : (p : Payload) → read_payload (write_payload p) ≡ some p
read_payload-write_payload p =
    rw
      (
        read_text-write_text (value_or [] p.claims.pricing_version) p.claims.quote_id,
        read_int_lem p.version,
        read_int_lem p.claims.expires_at_unix,
        read_int_lem (value_or (pos 0) p.claims.amount_minor_units),
        read_option_lem (pos 0) p.claims.amount_minor_units,
        read_option_lem [] p.claims.pricing_version,
      )
      refl

abbrev skip_dot : ℕ → ℕ
skip_dot c = if ltb c 46 then c else c + 1

abbrev unskip_dot : ℕ → ℕ
unskip_dot c = if ltb c 46 then c else c - 1

unskip-skip : (t : Text) → map unskip_dot (map skip_dot t) ≡ t
unskip-skip [] = refl
unskip-skip (c ∷ t) = ground (arith, unskip-skip t)

skip-IsDotless : (t : Text) → IsDotless (map skip_dot t)
skip-IsDotless [] = tt
skip-IsDotless (c ∷ t) = (ground arith, skip-IsDotless t)

abbrev sample_library : Library
sample_library = record {
  dumps = write_payload;
  loads = read_payload;
  b64encode = map skip_dot;
  b64decode = λ t. some (map unskip_dot t);
  sign = λ secret t. secret ++ t;
}

sample_library-IsLossless : IsLossless sample_library
sample_library-IsLossless = record {
  json = read_payload-write_payload;
  base64 = λ t. ground (arith, unskip-skip t);
  alphabet = skip-IsDotless;
}

abbrev sample_claims : Claims
sample_claims = record {
  quote_id = 113 ∷ 46 ∷ [];
  expires_at_unix = pos 2000;
  amount_minor_units = some (pos 500);
  pricing_version = none;
}

abbrev sample_secret : Text
sample_secret = 1 ∷ 2 ∷ 3 ∷ []

abbrev sample_token : Text
sample_token =
    sign_payload sample_library sample_secret (record { claims = sample_claims; version = pos 1 })

verify-issue_example :
    verify sample_library sample_secret sample_token (pos 1000) ≡ ok sample_claims
unfolding issue
verify-issue_example =
    verify-issue sample_library sample_secret sample_token sample_claims (pos 1000)
      sample_library-IsLossless refl
