-- ===== src/Payments/Safety.antt =====
-- What the reconciliation of a payment may do to orders.

use vpn_mediator_public.Prelude.{
  ℕ, ◌≡◌, refl, inl, inr, String, Bool, true, ◌&&◌, Option, none, some, List, [], ◌∷◌, ok, arith,
  str_eq, ◌==◌, if◌then◌else◌, Bool-cases, Option-cases, ◌∙◌, ap,
}
use vpn_mediator_public.Prelude.Int.{ℤ}
use vpn_mediator_public.Clock.{Instant}
use vpn_mediator_public.Table.{find, update_where}
use vpn_mediator_public.Table.Rows.{find-passes}
use vpn_mediator_public.Orders.Repository.{
  Order, has_order_id, put_order, claim_payment_bot, accepts_bot, get_by_provider_payment_id,
  get_for_payment_payload_for_user, get_unique_for_payment_payload_hash_for_user,
}
use vpn_mediator_public.Payments.Inbox.{Inbox, str_or, fill}
use vpn_mediator_public.Payments.Reconcile.{
  Env, World, Reconciled, is_authorized_payment, check_charge, check_bot, is_evidence_for,
  check_evidence, match_order, reconcile_payer, reconcile_payment_inbox,
}
use vpn_mediator_public.Payments.Bound.{settle-IsBound, IsFree, IsBound}

check_charge-IsBound :
    (has_application : ℕ → Bool) (now : Instant) (i : Inbox) (o : Order) (w : World)
    (r : Reconciled)
    → check_charge has_application now i o w ≡ ok r
    → r.outcome.needs_activation ≡ true
    → IsBound i o w r × IsFree o i w.orders
unfolding check_charge
check_charge-IsBound has_application now i o w r h n =
    elim (Option-cases (get_by_provider_payment_id o.provider i.provider_charge_id w.orders)) [
      | inl free ↦ (
        settle-IsBound has_application now i o w r (ground (arith, free)) n,
        λ other e. cc (free, e),
      )
      | inr (existing, found) ↦
          let same : (existing.id == o.id) ≡ true = ground (arith, found) in
          (
            settle-IsBound has_application now i o w r (ground (arith, found)) n,
            λ other e. ground (arith, found),
          )
    ]

abbrev pub with_bot : String → Order → Order
with_bot bot o = record o { payment_bot_key = some bot }

abbrev pub bot_rows : ℕ → String → Order → Bool
bot_rows i bot r = has_order_id i r && accepts_bot bot r

-- A granted claim writes the bot to the order and to its row alone.
pub claim_payment_bot-inversion :
    (bot : String) (o c : Order) (t t' : List Order)
    → claim_payment_bot bot o t ≡ some (c, t')
    → (c ≡ with_bot bot o) × (t' ≡ update_where (bot_rows o.id bot) (with_bot bot) t)
unfolding claim_payment_bot
claim_payment_bot-inversion String.[] o c t t' h = cc
claim_payment_bot-inversion (String.◌∷◌ a s) o c t t' h = (ground arith, ground arith)

-- Writing an order hides what was written to its row before.
put_order-after :
    (b : Order) (bot : String) (i : ℕ) (t : List Order)
    → b.id ≡ i
    → put_order b (update_where (bot_rows i bot) (with_bot bot) t) ≡ put_order b t
put_order-after b bot i [] e = refl
put_order-after b bot i (r ∷ t) e = ground (arith, put_order-after b bot i t e)

find-update_where :
    (p q : Order → Bool) (f : Order → Order) (t : List Order) (r : Order)
    → ((o : Order) → p (f o) ≡ p o)
    → find p t ≡ some r
    → find p (update_where q f t) ≡ some (if q r then f r else r)
find-update_where p q f [] r keeps h = cc
find-update_where p q f (o ∷ t) r keeps h =
    ground (arith, keeps o, find-update_where p q f t r keeps)

abbrev pub claimed_world : String → Order → World → World
claimed_world bot o w = record w {
  orders = update_where (bot_rows o.id bot) (with_bot bot) w.orders;
}

-- The facts about the claimed order hold of the order as it was found.
claimed-IsBound :
    (bot : String) (i : Inbox) (o : Order) (w : World) (r : Reconciled)
    → IsBound i (with_bot bot o) (claimed_world bot o w) r
    → IsBound i o w r
unfolding is_authorized_payment
claimed-IsBound bot i o w r k = record {
  order = k.order;
  same_id = k.same_id;
  same_owner = k.same_owner;
  same_amount = k.same_amount;
  payable = k.payable;
  taken = k.taken;
  written = k.written ∙ put_order-after k.order bot o.id w.orders k.same_id;
  marked = k.marked;
  linked = k.linked;
}

claimed-IsFree :
    (bot : String) (i : Inbox) (o : Order) (w : World)
    → IsFree (with_bot bot o) i (claimed_world bot o w).orders
    → IsFree o i w.orders
unfolding get_by_provider_payment_id
claimed-IsFree bot i o w free other e =
    let moved =
      find-update_where _ (bot_rows o.id bot) (with_bot bot) w.orders other (λ x. refl) e in
    let same = free (if bot_rows o.id bot other then with_bot bot other else other) moved in
    ground arith

check_bot-IsBound :
    (normalize : String → String) (has_application : ℕ → Bool) (now : Instant) (i : Inbox)
    (o : Order) (w : World) (r : Reconciled)
    → check_bot normalize has_application now i o w ≡ ok r
    → r.outcome.needs_activation ≡ true
    → IsBound i o w r × IsFree o i w.orders
unfolding check_bot
check_bot-IsBound normalize has_application now i o w r h n =
    elim (Option-cases (str_or i.payment_bot_key i.origin_bot_key)) [
      | inl unknown ↦ check_charge-IsBound has_application now i o w r (ground (arith, unknown)) n
      | inr (key, e) ↦ elim (Option-cases (claim_payment_bot (normalize key) o w.orders)) [
        | inl refused ↦ absurd (ground (arith, e, refused))
        | inr ((c, t'), granted) ↦
            let written = claim_payment_bot-inversion (normalize key) o c w.orders t' granted in
            let k =
              check_charge-IsBound has_application now i (with_bot (normalize key) o)
                (claimed_world (normalize key) o w) r
                (ground (arith, e, granted, written.0, written.1)) n in
            (claimed-IsBound (normalize key) i o w r k.0, claimed-IsFree (normalize key) i o w k.1)
      ]
    ]

find_unique-owner :
    (hash : String → String) (h : String) (u : ℕ) (orders : List Order) (o : Order)
    → get_unique_for_payment_payload_hash_for_user hash h u orders ≡ some o
    → u ≡ o.user_id
unfolding get_unique_for_payment_payload_hash_for_user
find_unique-owner hash h u orders o e =
    let p = λ (x : Order). (x.user_id == u) && str_eq (hash x.invoice_payload) h in
    let passes = find-passes p orders o (ground arith) in ground arith

match_order-owner :
    (hash : String → String) (i : Inbox) (user : Option ℕ) (orders : List Order) (o : Order)
    → match_order hash i user orders ≡ some o
    → user ≡ some o.user_id
unfolding match_order get_for_payment_payload_for_user
match_order-owner hash i none orders o h = cc
match_order-owner hash i (some u) orders o h = elim (Option-cases i.invoice_payload) [
  | inl lost ↦
      ap some (find_unique-owner hash i.invoice_payload_hash u orders o (ground (arith, lost)))
  | inr (payload, e) ↦
      let passes =
        find-passes (λ (x : Order). str_eq x.invoice_payload payload && (x.user_id == u)) orders o
          (ground (arith, e)) in
      ground arith
]

-- The facts do not depend on the payload that the evidence carries.
payload-IsBound :
    (p : Option String) (i : Inbox) (o : Order) (w : World) (r : Reconciled)
    → IsBound (record i { invoice_payload = p }) o w r
    → IsBound i o w r
unfolding is_authorized_payment
payload-IsBound p i o w r k = record {
  order = k.order;
  same_id = k.same_id;
  same_owner = k.same_owner;
  same_amount = k.same_amount;
  payable = k.payable;
  taken = k.taken;
  written = k.written;
  marked = k.marked;
  linked = k.linked;
}

module _ (env : Env) where
  open env use {upper, normalize, hash, int, user_of, has_application}

  check_evidence-IsBound :
      (now : Instant) (i : Inbox) (o : Order) (w : World) (r : Reconciled)
      → check_evidence env now i o w ≡ ok r
      → r.outcome.needs_activation ≡ true
      → (is_evidence_for upper i o ≡ true) × IsBound i o w r × IsFree o i w.orders
  unfolding check_evidence
  check_evidence-IsBound now i o w r h n = elim (Bool-cases (is_evidence_for upper i o)) [
    | inl fits ↦
        let k = check_bot-IsBound normalize has_application now i o w r (ground (arith, fits)) n in
        (fits, k.0, k.1)
    | inr other ↦ absurd (ground (arith, other))
  ]

  -- A payment that asks for activation is one that a known payer made for the order of theirs that
  -- the evidence names, with the provider, amount and currency of that order; the order could take it, as pending, already
  -- paid for, or expired but authorized when the payment happened; and the charge is bound to no
  -- other order. Afterwards the row of that order says that it is paid for, when and by a charge,
  -- no other row differs, and the evidence is linked to the order.
  pub payment_safe :
      (now : Instant) (i : Inbox) (w : World) (r : Reconciled)
      → reconcile_payment_inbox env now i w ≡ ok r
      → r.outcome.needs_activation ≡ true
      → (payer : ℤ) × (o : Order) × (int i.payer_external_id ≡ some payer)
        × (user_of payer ≡ some o.user_id)
        × (match_order hash i (user_of payer) w.orders ≡ some o)
        × (is_evidence_for upper i o ≡ true)
        × IsBound i o w r
        × IsFree o i w.orders
  unfolding reconcile_payment_inbox reconcile_payer is_evidence_for
  payment_safe now i w r h n = elim (Option-cases (int i.payer_external_id)) [
    | inl unread ↦ absurd (ground (arith, unread))
    | inr (payer, read) ↦ elim (Option-cases (match_order hash i (user_of payer) w.orders)) [
      | inl missing ↦ absurd (ground (arith, read, missing))
      | inr (o, found) ↦
          let p = fill i.invoice_payload (some o.invoice_payload) in
          let k =
            check_evidence-IsBound now (record i { invoice_payload = p }) o w r
              (ground (arith, read, found)) n in
          (
            payer,
            o,
            read,
            match_order-owner hash i (user_of payer) w.orders o found,
            found,
            k.0,
            payload-IsBound p i o w r k.1,
            k.2,
          )
    ]
  ]
