-- ===== src/Payments/Bound.antt =====
-- What binding an accepted payment to an order does.
use vpn_mediator_public.Prelude.{
  ℕ, ◌≡◌, inl, inr, Bool, true, false, ◌&&◌, ◌||◌, Option, none, some, List, ok, arith, Bool-cases,
  Option-cases, Result-cases,
}
use vpn_mediator_public.Clock.{Instant}
use vpn_mediator_public.Discounts.{restore_for_paid_order}
use vpn_mediator_public.Orders.Status
use vpn_mediator_public.Orders.Status.{
  OrderStatus, is_pending, is_expired_order, is_paid, is_refund, allows_activation,
}
use vpn_mediator_public.Orders.Repository.{Order, put_order, get_by_provider_payment_id}
use vpn_mediator_public.Payments.Inbox.{InboxStatus, Inbox}
use vpn_mediator_public.Payments.Reconcile.{
  World, Reconciled, is_authorized_payment, bind_payment, accept, reopen, settle,
}

abbrev pub is_some {ℓ} : {A : Type ℓ} → Option A → Bool
is_some none = false
is_some (some a) = true

-- An order that has received the payment and may be activated.
pub record IsPayable (b : Order) : Type 0 where
  pub activatable : allows_activation b.status ≡ true
  pub paid : is_some b.paid_at ≡ true
  pub charged : is_some b.provider_payment_id ≡ true

-- The state of an order in which a payment for it is taken.
abbrev pub takes_payment : Order → Inbox → Bool
takes_payment o i =
    is_pending o.status
    || allows_activation o.status
    || (is_expired_order o.status && is_authorized_payment o i)

-- What an accepted payment did, from the order as the call found it.
pub record IsBound (i : Inbox) (o : Order) (w : World) (r : Reconciled) : Type 0 where
  pub order : Order
  pub same_id : order.id ≡ o.id
  pub same_owner : order.user_id ≡ o.user_id
  pub same_amount : order.amount_minor_units ≡ o.amount_minor_units
  pub payable : IsPayable order
  pub taken : takes_payment o i ≡ true
  pub written : r.world.orders ≡ put_order order w.orders
  pub marked : r.inbox.reconciliation_status ≡ InboxStatus.matched
  pub linked : r.inbox.matched_order_id ≡ some o.id

bind_payment-IsPayable : (i : Inbox) (o b : Order) → bind_payment i o ≡ some b → IsPayable b
unfolding bind_payment
bind_payment-IsPayable i o b h = record {
  activatable = ground arith;
  paid = ground arith;
  charged = ground arith;
}

bind_payment-keeps :
    (i : Inbox) (o b : Order)
    → bind_payment i o ≡ some b
    → (b.id ≡ o.id)
      × (b.user_id ≡ o.user_id)
      × (b.amount_minor_units ≡ o.amount_minor_units)
      × ((is_pending o.status || allows_activation o.status) ≡ true)
unfolding bind_payment
bind_payment-keeps i o b h = (ground arith, ground arith, ground arith, ground arith)

accept-IsBound :
    (now : Instant) (i : Inbox) (o : Order) (w : World) (r : Reconciled)
    → accept now i o w ≡ ok r
    → r.outcome.needs_activation ≡ true
    → IsBound i o w r
unfolding accept
accept-IsBound now i o w r h n = elim (Option-cases (bind_payment i o)) [
  | inl refused ↦ absurd (ground (arith, refused))
  | inr (b, bound) ↦
      let keeps = bind_payment-keeps i o b bound in
      record {
        order = b;
        same_id = keeps.0;
        same_owner = keeps.1;
        same_amount = keeps.2;
        payable = bind_payment-IsPayable i o b bound;
        taken = ground (arith, keeps.3);
        written = ground (arith, bound);
        marked = ground (arith, bound);
        linked = ground (arith, bound);
      }
]

reopen-IsBound :
    (now : Instant) (i : Inbox) (o : Order) (w : World) (r : Reconciled)
    → is_expired_order o.status ≡ true
    → reopen now i o w ≡ ok r
    → r.outcome.needs_activation ≡ true
    → IsBound i o w r
unfolding reopen
reopen-IsBound now i o w r e h n = elim (Bool-cases (is_authorized_payment o i)) [
  | inl authorized ↦ elim (Result-cases (restore_for_paid_order o.id now w.discounts)) [
    | inl (restored, e') ↦
        let opened : Order = record o { status = Status.pending; cancelled_at = none } in
        let k =
          accept-IsBound now i opened (record w { discounts = restored }) r (ground (arith, e'))
            n in
        record {
          order = k.order;
          same_id = k.same_id;
          same_owner = k.same_owner;
          same_amount = k.same_amount;
          payable = k.payable;
          taken = ground arith;
          written = k.written;
          marked = k.marked;
          linked = k.linked;
        }
    | inr (x, e') ↦ absurd (ground (arith, e'))
  ]
  | inr late ↦ absurd (ground arith)
]

pub settle-IsBound :
    (has_application : ℕ → Bool) (now : Instant) (i : Inbox) (o : Order) (w : World)
    (r : Reconciled)
    → settle has_application now i o w ≡ ok r
    → r.outcome.needs_activation ≡ true
    → IsBound i o w r
unfolding settle
settle-IsBound has_application now i o w r h n = elim (Bool-cases (is_expired_order o.status)) [
  | inl over ↦ reopen-IsBound now i o w r over (ground arith) n
  | inr open_order ↦ accept-IsBound now i o w r (ground arith) n
]

-- The charge is bound to no order but this one.
abbrev pub IsFree : Order → Inbox → List Order → Type 0
IsFree o i orders =
    (other : Order)
    → get_by_provider_payment_id o.provider i.provider_charge_id orders ≡ some other
    → other.id ≡ o.id
