-- ===== src/Refunds/Expired.antt =====
-- A refund whose confirmation has expired.
use vpn_mediator_public.Prelude.{
  ℕ, ◌≡◌, refl, String, Bool, true, false, Option, none, some, List, [], ◌∷◌, arith, Result-cases,
  inl, inr, ◌>>◌,
}
use vpn_mediator_public.Clock.{Instant}
use vpn_mediator_public.Refunds.{
  PlanState, plan_expired, RefundPlan, PlanValues, create_or_refresh, Refund,
}
use vpn_mediator_public.Refunds.Preview.{
  Snapshot, Asking, check_candidate, refund_target, preview_refund, prepared_refund, plan_values,
  is_refunding,
}
use vpn_mediator_public.Refunds.Confirm.{mark_refund_provider_unknown}
use vpn_mediator_public.Refunds.Complete.{Completing, complete_refund}
use vpn_mediator_public.Refunds.Calls.{
  RefundCall, preview_call, confirm_call, unknown_call, complete_call, refund_call, asks_provider,
  provider_requests,
}
use vpn_mediator_public.Refunds.Single.{plan_closed, confirm_locked}

abbrev pub is_expired_plan : Option RefundPlan → Bool
is_expired_plan none = false
is_expired_plan (some p) = is_expired_state p.state
  where
    is_expired_state : PlanState → Bool
    is_expired_state plan_expired = true
    is_expired_state _ = false

-- The confirmation of the refund has expired before the order was refunded.
pub record IsStuck (r : Refund) : Type 0 where
  pub expired : is_expired_plan r.plan ≡ true
  pub unconfirmed : is_refunding r.order.status ≡ false

expired_closed : (p : Option RefundPlan) → is_expired_plan p ≡ true → plan_closed p ≡ true
expired_closed none h = cc
expired_closed (some p) h = ground arith

refreshed_expired :
    (v : PlanValues) (now : Instant) (p : Option RefundPlan)
    → is_expired_plan p ≡ true
    → is_expired_plan (some (create_or_refresh v now p)) ≡ true
unfolding create_or_refresh
refreshed_expired v now none h = cc
refreshed_expired v now (some p) h = ground arith

preview-IsStuck :
    (upper : String → String) (s : Snapshot) (q : Asking) (now : Instant) (r : Refund)
    → IsStuck r
    → IsStuck (preview_refund upper s q now r).0
unfolding preview_refund
preview-IsStuck upper s q now r v =
    elim (Result-cases (check_candidate upper r.order s >> refund_target r.terms s now)) [
      | inr (reason, refused) ↦
          let e : (preview_refund upper s q now r).0 ≡ r = ground (arith, refused) in rw e v
      | inl (target, eligible) ↦
          let e : (preview_refund upper s q now r).0 ≡ prepared_refund target q now r =
            ground (arith, eligible) in
          rw e (record {
            expired = refreshed_expired (plan_values target q now) now r.plan v.expired;
            unconfirmed = v.unconfirmed;
          })
    ]

complete_stuck : (c : Completing) (r : Refund) → IsStuck r → (complete_refund c r).0 ≡ r
unfolding complete_refund
complete_stuck c r v = ground (arith, v.unconfirmed)

unknown-IsStuck :
    (code : String) (id : ℕ) (now : Instant) (r : Refund)
    → IsStuck r
    → IsStuck (mark_refund_provider_unknown code id now r)
unfolding mark_refund_provider_unknown
unknown-IsStuck code id now r v = record {
  expired = ground (arith, v.expired);
  unconfirmed = ground (arith, v.unconfirmed);
}

-- Once the confirmation of a refund has expired, no further preview opens it again: whatever
-- previews and confirmations follow, the provider is never asked for this refund.
pub expired_never_requested :
    (upper : String → String) (cs : List RefundCall) (r : Refund)
    → IsStuck r
    → provider_requests upper cs r ≡ 0
unfolding provider_requests refund_call asks_provider
expired_never_requested upper [] r v = refl
expired_never_requested upper (preview_call s q now ∷ cs) r v = omega (
  arith,
  expired_never_requested upper cs (preview_refund upper s q now r).0
      (preview-IsStuck upper s q now r v),
)
expired_never_requested upper (confirm_call c ∷ cs) r v =
    let (same, zero_asked) = confirm_locked c r (expired_closed r.plan v.expired) in
    rw (zero_asked, same) (omega (arith, expired_never_requested upper cs r v))
expired_never_requested upper (unknown_call code id now ∷ cs) r v = omega (
  arith,
  expired_never_requested upper cs (mark_refund_provider_unknown code id now r)
      (unknown-IsStuck code id now r v),
)
expired_never_requested upper (complete_call c ∷ cs) r v =
    rw (complete_stuck c r v) (omega (arith, expired_never_requested upper cs r v))
