-- ===== src/Payments/Frame.antt =====
-- What a reconciliation that accepts no payment leaves alone, and that no evidence stays undecided.

use vpn_mediator_public.Prelude.{
  ℕ, ◌≡◌, ◌≢◌, refl, inl, inr, String, Bool, true, false, none, some, List, [], ◌∷◌, map, ok, arith,
  Bool-cases, Option-cases, Result-cases,
}
use vpn_mediator_public.Clock.{Instant}
use vpn_mediator_public.Table.{update_where}
use vpn_mediator_public.Discounts.{restore_for_paid_order}
use vpn_mediator_public.Orders.Status
use vpn_mediator_public.Orders.Status.{is_expired_order}
use vpn_mediator_public.Orders.Repository.{Order, claim_payment_bot}
use vpn_mediator_public.Payments.Inbox.{received, Inbox, str_or, fill}
use vpn_mediator_public.Payments.Reconcile.{
  Env, World, Reconciled, is_manual_review, is_authorized_payment, bind_payment, accept, reopen,
  settle, check_charge, check_bot, is_evidence_for, check_evidence, match_order, reconcile_payer,
  reconcile_payment_inbox,
}
use vpn_mediator_public.Payments.Safety.{with_bot, bot_rows, claim_payment_bot-inversion}

accept_refused :
    (now : Instant) (i : Inbox) (o : Order) (w : World) (r : Reconciled)
    → accept now i o w ≡ ok r
    → r.outcome.needs_activation ≡ false
    → r.world ≡ w
unfolding accept bind_payment
accept_refused now i o w r h n = ground arith

accept-pending :
    (now : Instant) (i : Inbox) (o : Order) (w : World) (r : Reconciled)
    → o.status ≡ Status.pending
    → accept now i o w ≡ ok r
    → r.outcome.needs_activation ≡ true
unfolding accept bind_payment
accept-pending now i o w r p h = ground arith

reopen_refused :
    (now : Instant) (i : Inbox) (o : Order) (w : World) (r : Reconciled)
    → reopen now i o w ≡ ok r
    → r.outcome.needs_activation ≡ false
    → r.world ≡ w
unfolding reopen
reopen_refused now i o w r h n = elim (Bool-cases (is_authorized_payment o i)) [
  | inl authorized ↦ elim (Result-cases (restore_for_paid_order o.id now w.discounts)) [
    | inl (restored, e) ↦
        let opened : Order = record o { status = Status.pending; cancelled_at = none } in
        absurd (
          ground (
            arith,
            accept-pending now i opened (record w { discounts = restored }) r refl
                (ground (arith, e)),
          ))
    | inr (x, e) ↦ absurd (ground (arith, e))
  ]
  | inr late ↦ ground arith
]

settle_refused :
    (has_application : ℕ → Bool) (now : Instant) (i : Inbox) (o : Order) (w : World)
    (r : Reconciled)
    → settle has_application now i o w ≡ ok r
    → r.outcome.needs_activation ≡ false
    → r.world ≡ w
unfolding settle
settle_refused has_application now i o w r h n =
    ground (arith, accept_refused now i o w r, reopen_refused now i o w r)

check_charge_refused :
    (has_application : ℕ → Bool) (now : Instant) (i : Inbox) (o : Order) (w : World)
    (r : Reconciled)
    → check_charge has_application now i o w ≡ ok r
    → r.outcome.needs_activation ≡ false
    → r.world ≡ w
unfolding check_charge
check_charge_refused has_application now i o w r h n =
    ground (arith, settle_refused has_application now i o w r)

-- An order but for the bot that takes its payments.
abbrev pub without_bot : Order → Order
without_bot o = record o { payment_bot_key = none }

-- Nothing changed but the bots of orders.
pub record IsKept (w : World) (r : Reconciled) : Type 0 where
  pub orders : map without_bot r.world.orders ≡ map without_bot w.orders
  pub discounts : r.world.discounts ≡ w.discounts
  pub events : r.world.events ≡ w.events

claim_kept :
    (i : ℕ) (bot : String) (t : List Order)
    → map without_bot (update_where (bot_rows i bot) (with_bot bot) t) ≡ map without_bot t
claim_kept i bot [] = refl
claim_kept i bot (o ∷ t) = elim (Bool-cases (bot_rows i bot o)) [
  | inl hit ↦ rw (hit, claim_kept i bot t)
  | inr miss ↦ rw (miss, claim_kept i bot t)
]

same_world : (w : World) (r : Reconciled) → r.world ≡ w → IsKept w r
same_world w r e = rw e (record { orders = refl; discounts = refl; events = refl })

check_bot_refused :
    (normalize : String → String) (has_application : ℕ → Bool) (now : Instant) (i : Inbox)
    (o : Order) (w : World) (r : Reconciled)
    → check_bot normalize has_application now i o w ≡ ok r
    → r.outcome.needs_activation ≡ false
    → IsKept w r
unfolding check_bot
check_bot_refused normalize has_application now i o w r h n =
    elim (Option-cases (str_or i.payment_bot_key i.origin_bot_key)) [
      | inl unknown ↦
          same_world w r
            (check_charge_refused has_application now i o w r (ground (arith, unknown)) n)
      | inr (key, e) ↦ elim (Option-cases (claim_payment_bot (normalize key) o w.orders)) [
        | inl refused ↦ same_world w r (ground (arith, e, refused))
        | inr ((c, t'), granted) ↦
            let written = claim_payment_bot-inversion (normalize key) o c w.orders t' granted in
            let same =
              check_charge_refused has_application now i c (record w { orders = t' }) r
                (ground (arith, e, granted)) n in
            rw (same, written.1)
              (record {
                orders = claim_kept o.id (normalize key) w.orders;
                discounts = refl;
                events = refl;
              })
      ]
    ]

module _ (env : Env) where
  open env use {upper, normalize, hash, int, user_of, has_application}

  -- Unless it asks for activation, a reconciliation changes nothing but the bot that an order is
  -- bound to: every order keeps its status, amounts, charge and times, and no discount and no
  -- event is touched.
  pub refused_payment-IsKept :
      (now : Instant) (i : Inbox) (w : World) (r : Reconciled)
      → reconcile_payment_inbox env now i w ≡ ok r
      → r.outcome.needs_activation ≡ false
      → IsKept w r
  unfolding reconcile_payment_inbox reconcile_payer check_evidence
  refused_payment-IsKept now i w r h n = elim (Option-cases (int i.payer_external_id)) [
    | inl unread ↦ same_world w r (ground (arith, unread))
    | inr (payer, read) ↦ elim (Option-cases (match_order hash i (user_of payer) w.orders)) [
      | inl missing ↦ same_world w r (ground (arith, read, missing))
      | inr (o, found) ↦
          let i' : Inbox = record i {
            invoice_payload = fill i.invoice_payload (some o.invoice_payload);
          } in
          elim (Bool-cases (is_manual_review i.reconciliation_status)) [
            | inl waits ↦ same_world w r (ground arith)
            | inr active ↦ elim (Bool-cases (is_evidence_for upper i' o)) [
              | inl fits ↦
                  check_bot_refused normalize has_application now i' o w r
                    (ground (arith, read, found, fits)) n
              | inr other ↦ same_world w r (ground (arith, read, found, other))
            ]
          ]
    ]
  ]

-- The outcome names the status that the evidence was left in, which is no longer the one of fresh
-- evidence.
pub record IsDecided (r : Reconciled) : Type 0 where
  pub reported : r.outcome.inbox_status ≡ r.inbox.reconciliation_status
  pub decided : r.inbox.reconciliation_status ≢ received

accept-IsDecided :
    (now : Instant) (i : Inbox) (o : Order) (w : World) (r : Reconciled)
    → accept now i o w ≡ ok r
    → IsDecided r
unfolding accept
accept-IsDecided now i o w r h = record { reported = ground arith; decided = λ e. ground arith }

settle-IsDecided :
    (has_application : ℕ → Bool) (now : Instant) (i : Inbox) (o : Order) (w : World)
    (r : Reconciled)
    → settle has_application now i o w ≡ ok r
    → IsDecided r
unfolding settle reopen accept
settle-IsDecided has_application now i o w r h = record {
  reported = ground arith;
  decided = λ e. ground arith;
}

check_bot-IsDecided :
    (normalize : String → String) (has_application : ℕ → Bool) (now : Instant) (i : Inbox)
    (o : Order) (w : World) (r : Reconciled)
    → check_bot normalize has_application now i o w ≡ ok r
    → IsDecided r
unfolding check_bot check_charge settle reopen accept
check_bot-IsDecided normalize has_application now i o w r h = record {
  reported = ground arith;
  decided = λ e. ground arith;
}

module _ (env : Env) where
  open env use {upper, normalize, hash, int, user_of, has_application}

  -- A reconciliation that returns has decided: the outcome names the status that the evidence was
  -- left in, and that status is not `received`.
  pub evidence-IsDecided :
      (now : Instant) (i : Inbox) (w : World) (r : Reconciled)
      → reconcile_payment_inbox env now i w ≡ ok r
      → IsDecided r
  unfolding reconcile_payment_inbox reconcile_payer check_evidence
  evidence-IsDecided now i w r h = elim (Bool-cases (is_manual_review i.reconciliation_status)) [
    | inl waits ↦ record { reported = ground (arith, waits); decided = λ e. ground (arith, waits) }
    | inr active ↦ elim (Option-cases (int i.payer_external_id)) [
      | inl unread ↦ record {
        reported = ground (arith, active, unread);
        decided = λ e. ground (arith, active, unread);
      }
      | inr (payer, read) ↦ elim (Option-cases (match_order hash i (user_of payer) w.orders)) [
        | inl missing ↦ record {
          reported = ground (arith, active, read, missing);
          decided = λ e. ground (arith, active, read, missing);
        }
        | inr (o, found) ↦
            let i' : Inbox = record i {
              invoice_payload = fill i.invoice_payload (some o.invoice_payload);
            } in
            elim (Bool-cases (is_evidence_for upper i' o)) [
              | inl fits ↦
                  check_bot-IsDecided normalize has_application now i' o w r
                    (ground (arith, active, read, found, fits))
              | inr other ↦ record {
                reported = ground (arith, active, read, found, other);
                decided = λ e. ground (arith, active, read, found, other);
              }
            ]
      ]
    ]
  ]
