-- ===== src/Refunds/Calls.antt =====
-- Sequences of calls on one order's refund.
use vpn_mediator_public.Prelude.{ℕ, ◌+◌, ◌≤◌, String, List, [], ◌∷◌, Result, ok, err, arith}
use vpn_mediator_public.Clock.{Instant}
use vpn_mediator_public.Refunds.{Refund}
use vpn_mediator_public.Refunds.Preview.{Snapshot, Asking, preview_refund}
use vpn_mediator_public.Refunds.Confirm.{Confirming, confirm_refund, mark_refund_provider_unknown}
use vpn_mediator_public.Refunds.Complete.{Completing, complete_refund}

-- What administrators, the provider's answers and the recovery do to one order's refund.
pub data RefundCall : Type 0 where
  preview_call : (snapshot : Snapshot) (asking : Asking) (now : Instant) → RefundCall
  confirm_call : (confirming : Confirming) → RefundCall
  unknown_call : (error_code : String) (notice_id : ℕ) (now : Instant) → RefundCall
  complete_call : (completing : Completing) → RefundCall

abbrev pub is_ok : Result String (Unit {0}) → ℕ
is_ok (ok done) = 1
is_ok (err code) = 0

pub at_most_one : (result : Result String (Unit {0})) → is_ok result ≤ 1
at_most_one (ok done) = omega arith
at_most_one (err code) = omega arith

module _ (upper : String → String) where
  unfoldable pub refund_call : RefundCall → Refund → Refund
  unfolding preview_refund confirm_refund mark_refund_provider_unknown complete_refund
  refund_call (preview_call s q now) r = (preview_refund upper s q now r).0
  refund_call (confirm_call c) r = (confirm_refund c r).0
  refund_call (unknown_call code id now) r = mark_refund_provider_unknown code id now r
  refund_call (complete_call c) r = (complete_refund c r).0

  -- A confirmation that returns is followed by a request to the provider.
  unfoldable pub asks_provider : RefundCall → Refund → ℕ
  unfolding confirm_refund
  asks_provider (confirm_call c) r = is_ok (confirm_refund c r).1
  asks_provider _ r = 0

  -- How often the provider is asked over a sequence of calls.
  unfoldable pub provider_requests : List RefundCall → Refund → ℕ
  unfolding refund_call asks_provider
  provider_requests [] r = 0
  provider_requests (c ∷ cs) r = asks_provider c r + provider_requests cs (refund_call c r)
