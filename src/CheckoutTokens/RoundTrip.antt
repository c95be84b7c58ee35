-- ===== src/CheckoutTokens/RoundTrip.antt =====
-- What `verify` makes of a token of `issue`.
use vpn_mediator_public.Prelude.{
  ℕ, ◌≡◌, refl, true, false, ◌||◌, some, [], ◌∷◌, ◌++◌, ◌==◌, if◌then◌else◌, ok, err, All, arith,
  Bool-cases, inl, inr,
}
use vpn_mediator_public.Prelude.Int.{ℤ, pos, leb_ℤ}
use vpn_mediator_public.CheckoutTokens.{
  Text, Claims, Payload, Library, checkout_token_expired, checkout_token_invalid, dot, same_text,
  is_empty, split_once, sign_payload, issue, is_bad_amount, check_payload, verify,
}

abbrev pub IsDotless : Text → Type 0
IsDotless = All (λ (c : ℕ). c == dot ≡ false)

-- What the standard library promises: reading undoes writing, and the base64 alphabet has no dot.
pub record IsLossless (lib : Library) : Type 0 where
  pub json : (p : Payload) → lib.loads (lib.dumps p) ≡ some p
  pub base64 : (t : Text) → lib.b64decode (lib.b64encode t) ≡ some t
  pub alphabet : (t : Text) → IsDotless (lib.b64encode t)

split_once-append : (a b : Text) → IsDotless a → split_once (a ++ dot ∷ b) ≡ some (a, b)
unfolding split_once
split_once-append [] b h = refl
split_once-append (c ∷ a) b h = rw (h.0, split_once-append a b h.1) refl

same_text_refl : (t : Text) → same_text t t ≡ true
same_text_refl [] = refl
same_text_refl (c ∷ t) = ground (arith, same_text_refl t)

verify-sign_payload :
    (lib : Library) (secret : Text) (p : Payload) (now : ℤ)
    → IsLossless lib
    → verify lib secret (sign_payload lib secret p) now ≡ check_payload lib now p
unfolding verify
verify-sign_payload lib secret p now h =
    let encoded = lib.b64encode (lib.dumps p) in
    let signature = lib.b64encode (lib.sign secret encoded) in
    rw (split_once-append encoded signature (h.alphabet (lib.dumps p))) (
      rw
        (
          h.base64 (lib.sign secret encoded),
          same_text_refl (lib.sign secret encoded),
          h.base64 (lib.dumps p),
          h.json p,
        )
        refl)

-- A token that was issued for claims is accepted until the moment they name, and gives back these
-- claims; from then on it is refused as expired, and a token for an amount that is not positive is
-- refused before.
pub verify-issue :
    (lib : Library) (secret token : Text) (c : Claims) (now : ℤ)
    → IsLossless lib
    → issue lib secret c ≡ ok token
    → verify lib secret token now ≡ (
        if leb_ℤ c.expires_at_unix now
        then err checkout_token_expired
        else if is_bad_amount lib c.amount_minor_units
        then err checkout_token_invalid
        else ok c)
unfolding issue check_payload
verify-issue lib secret token c now h issued =
    elim (Bool-cases (is_empty c.quote_id || leb_ℤ c.expires_at_unix (pos 0))) [
      | inl bad ↦ absurd (ground (arith, bad, issued))
      | inr good ↦
          let p : Payload = record { claims = c; version = pos 1 } in
          let is_token : token ≡ sign_payload lib secret p = ground (arith, good, issued) in
          rw (is_token, verify-sign_payload lib secret p now h) (ground (arith, good))
    ]
