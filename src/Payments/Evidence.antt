-- ===== src/Payments/Evidence.antt =====
-- A charge that is reported again.
use text.Mathlib.TextPositions.{eq_refl}
use vpn_mediator_public.Prelude.{
  ℕ, String, ◌≡◌, refl, ◌∙◌, true, false, Option, none, some, List, [], ◌∷◌, ◌++◌, arith,
  Bool-cases, inl, inr,
}
use vpn_mediator_public.Clock.{Instant}
use vpn_mediator_public.Table.{find, update_where}
use vpn_mediator_public.Table.Counts.{find-append, find-update_where}
use vpn_mediator_public.Payments.Inbox.{
  Inbox, Charge, has_charge, inbox_of, same_evidence, absorb, receive, fill_evidence, str_or,
  same_opt, fill,
}

fill_refl {ℓ} : {A : Type ℓ} (a : Option A) → fill a a ≡ a
fill_refl none = refl
fill_refl (some a) = refl

same_opt_refl : (a : Option String) → same_opt (str_or a a) a ≡ true
same_opt_refl none = refl
same_opt_refl (some String.[]) = refl
same_opt_refl (some (String.◌∷◌ c s)) = eq_refl (String.◌∷◌ c s)

module _ (hash upper : String → String) where
  absorb_key :
      (c : Charge) (now : Instant) (r : Inbox)
      → has_charge c (absorb hash upper c now r) ≡ has_charge c r
  unfolding absorb
  absorb_key c now r = elim (Bool-cases (same_evidence hash upper c r)) [
    | inl same ↦ rw same
    | inr other ↦ rw other
  ]

  receive_known :
      (id : ℕ) (c : Charge) (now : Instant) (t : List Inbox) (i : Inbox)
      → find (has_charge c) t ≡ some i
      → receive hash upper id c now t ≡ (
        update_where (has_charge c) (absorb hash upper c now) t,
        absorb hash upper c now i,
        false,
      )
  unfolding receive
  receive_known id c now t i known = ground (arith, known)

  receive_new :
      (id : ℕ) (c : Charge) (now : Instant) (t : List Inbox)
      → find (has_charge c) t ≡ none
      → receive hash upper id c now t
        ≡ (t ++ inbox_of hash upper id c now ∷ [], inbox_of hash upper id c now, true)
  unfolding receive
  receive_new id c now t new = ground (arith, new)

  fill_same :
      (id : ℕ) (c : Charge) (now now' : Instant)
      → fill_evidence c now' (inbox_of hash upper id c now)
        ≡ record (inbox_of hash upper id c now) { updated_at = now' }
  fill_same id c now now' = rw (fill_refl c.provider_occurred_at, fill_refl c.payment_bot_key) refl

  absorb_same :
      (c : Charge) (now : Instant) (i : Inbox)
      → same_evidence hash upper c i ≡ true
      → absorb hash upper c now i ≡ fill_evidence c now i
  unfolding absorb
  absorb_same c now i same = rw same

  inbox_of-same :
      (id : ℕ) (c : Charge) (now : Instant)
      → upper (upper c.currency) ≡ upper c.currency
      → same_evidence hash upper c (inbox_of hash upper id c now) ≡ true
  unfolding same_evidence
  inbox_of-same id c now idem =
      let same_bot : same_opt (str_or c.payment_bot_key c.payment_bot_key) c.payment_bot_key
          ≡ true =
        same_opt_refl c.payment_bot_key in
      rw
        (
          same_bot,
          idem,
          eq_refl (hash c.invoice_payload),
          eq_refl c.payer_external_id,
          eq_refl (upper c.currency),
        )
        (ground arith)

  -- A charge that was stored and is reported again, with the same evidence, stores no row and
  -- changes nothing of the stored row but the time of its update, where `upper` changes no
  -- text that it returned.
  pub replay_kept :
      (id id' : ℕ) (c : Charge) (now now' : Instant) (t : List Inbox)
      → upper (upper c.currency) ≡ upper c.currency
      → find (has_charge c) t ≡ none
      → let first = receive hash upper id c now t in
        let second = receive hash upper id' c now' first.0 in
        (first.2 ≡ true)
        × (second.2 ≡ false)
        × (second.1 ≡ record first.1 { updated_at = now' })
        × (find (has_charge c) second.0 ≡ some second.1)
  replay_kept id id' c now now' t idem new =
      let row = inbox_of hash upper id c now in
      let e = receive_new id c now t new in
      let key : has_charge c row ≡ true =
        ground (arith, eq_refl c.provider, eq_refl c.provider_charge_id) in
      let known = find-append (has_charge c) t row new key in
      let e' = receive_known id' c now' (t ++ row ∷ []) row known in
      let stored =
        find-update_where (has_charge c) (absorb hash upper c now') (t ++ row ∷ []) row
          (absorb_key c now') known in
      let marked = absorb_same c now' row (inbox_of-same id c now idem) ∙ fill_same id c now now' in
      rw e (rw e' (refl, refl, marked, stored))
