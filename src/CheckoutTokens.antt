-- ===== src/CheckoutTokens.antt =====
-- `CheckoutTokenCodec` of checkout_tokens.py: the signed token of a checkout link. Texts and bytes
-- are lists of codes.
pub mod RoundTrip
use vpn_mediator_public.Prelude.{
  ℕ, ◌≡◌, Bool, true, false, ◌||◌, ◌&&◌, not, Option, none, some, List, [], ◌∷◌, ◌++◌, ◌==◌,
  if◌then◌else◌, Result, ok, err, ◌>>=◌, ◌>>◌, raise_if,
}
use vpn_mediator_public.Prelude.Int.{ℤ, pos, leb_ℤ}

abbrev pub Text : Type 0
Text = List ℕ

-- `CheckoutTokenClaims`
pub record Claims : Type 0 where
  pub quote_id : Text
  pub expires_at_unix : ℤ
  pub amount_minor_units : Option ℤ
  pub pricing_version : Option Text

-- What stands in the token: the claims and a version.
pub record Payload : Type 0 where
  pub claims : Claims
  pub version : ℤ

-- What the standard library provides: JSON with sorted keys, with the conversions of its members;
-- URL-safe base64 without padding; HMAC-SHA256. A text that cannot be read gives nothing.
pub record Library : Type 0 where
  pub dumps : Payload → Text
  pub loads : Text → Option Payload
  pub b64encode : Text → Text
  pub b64decode : Text → Option Text
  pub sign : Text → Text → Text

pub data TokenError : Type 0 where
  checkout_token_invalid checkout_token_expired invalid_checkout_token_claims : TokenError

abbrev pub dot : ℕ
dot = 46

abbrev pub same_text : Text → Text → Bool
same_text [] [] = true
same_text [] (y ∷ ys) = false
same_text (x ∷ xs) [] = false
same_text (x ∷ xs) (y ∷ ys) = if x == y then same_text xs ys else false

abbrev pub is_empty : Text → Bool
is_empty [] = true
is_empty (x ∷ xs) = false

abbrev pub prepend : ℕ → Option (Text × Text) → Option (Text × Text)
prepend c none = none
prepend c (some (a, b)) = some (c ∷ a, b)

-- `token.split(".", maxsplit=1)`, unpacked into two names.
unfoldable pub split_once : Text → Option (Text × Text)
split_once [] = none
split_once (c ∷ cs) = if c == dot then some ([], cs) else prepend c (split_once cs)

module _ (lib : Library) where
  abbrev pub sign_payload : Text → Payload → Text
  sign_payload secret p =
      let encoded = lib.b64encode (lib.dumps p) in
      encoded ++ dot ∷ lib.b64encode (lib.sign secret encoded)

  -- `issue`, under the secret of the codec.
  unfoldable pub issue : Text → Claims → Result TokenError Text
  issue secret c =
      if is_empty c.quote_id || leb_ℤ c.expires_at_unix (pos 0)
      then err invalid_checkout_token_claims
      else ok (sign_payload secret (record { claims = c; version = pos 1 }))

  abbrev pub need {ℓ} : {A : Type ℓ} → Option A → Result TokenError A
  need none = err checkout_token_invalid
  need (some a) = ok a

  abbrev pub is_bad_amount : Option ℤ → Bool
  is_bad_amount none = false
  is_bad_amount (some amount) = leb_ℤ amount (pos 0)

  abbrev pub is_version : ℤ → Bool
  is_version v = leb_ℤ v (pos 1) && leb_ℤ (pos 1) v

  -- The checks on a payload whose signature is good.
  unfoldable pub check_payload : ℤ → Payload → Result TokenError Claims
  check_payload now p =
      raise_if (not (is_version p.version) || is_empty p.claims.quote_id) checkout_token_invalid
      >> raise_if (leb_ℤ p.claims.expires_at_unix now) checkout_token_expired
      >> raise_if (is_bad_amount p.claims.amount_minor_units) checkout_token_invalid
      >> ok p.claims

  -- `verify`
  unfoldable pub verify : Text → Text → ℤ → Result TokenError Claims
  unfolding split_once check_payload
  verify secret token now = do
    (encoded, supplied) ← need (split_once token)
    actual ← need (lib.b64decode supplied)
    raise_if (not (same_text actual (lib.sign secret encoded))) checkout_token_invalid
    bytes ← need (lib.b64decode encoded)
    payload ← need (lib.loads bytes)
    check_payload now payload
