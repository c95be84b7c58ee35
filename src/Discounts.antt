-- ===== src/Discounts.antt =====
-- Personal discounts: `DiscountRepository` and `DiscountRedemptionRepository` of repositories.py.
pub mod Counts
pub mod Laws
use vpn_mediator_public.Prelude.{
  ℕ, suc, ◌+◌, ◌-◌, Bool, true, false, ◌&&◌, ◌||◌, Option, none, some, List, [], ◌∷◌, ◌++◌, ltb,
  leb, ◌==◌, if◌then◌else◌, Result, ok, err,
}
use vpn_mediator_public.Clock.{Instant}
use vpn_mediator_public.Table.{find, update_where, count_where}

-- The columns of `UserDiscount` that a redemption reads; `is_active` is `status == "active"`.
pub record Discount : Type 0 where
  pub id : ℕ
  pub user_id : ℕ
  pub is_active : Bool
  pub starts_at : Option Instant
  pub expires_at : Option Instant
  pub max_uses : Option ℕ
  pub used_count : ℕ

-- The statuses that the code writes, and any other string.
pub data RedemptionStatus : Type 0 where
  reserved applied released unknown : RedemptionStatus

pub record Redemption : Type 0 where
  pub discount_id : ℕ
  pub order_id : ℕ
  pub status : RedemptionStatus
  pub discount_amount : ℕ
  pub reserved_at : Option Instant
  pub applied_at : Option Instant
  pub released_at : Option Instant

pub record Store : Type 0 where
  pub discounts : List Discount
  pub redemptions : List Redemption

pub data DiscountError : Type 0 where
  discount_no_longer_available redemption_not_reserved invalid_recovery_state : DiscountError

abbrev pub is_reserved : RedemptionStatus → Bool
is_reserved reserved = true
is_reserved _ = false

abbrev pub is_released : RedemptionStatus → Bool
is_released released = true
is_released _ = false

abbrev pub of_order : ℕ → Redemption → Bool
of_order order_id r = r.order_id == order_id

abbrev pub has_started : Instant → Discount → Bool
has_started now d = elim d.starts_at [ none ↦ true | some t ↦ leb t now ]

abbrev pub not_expired : Instant → Discount → Bool
not_expired now d = elim d.expires_at [ none ↦ true | some t ↦ ltb now t ]

abbrev pub has_uses_left : Discount → Bool
has_uses_left d = elim d.max_uses [ none ↦ true | some n ↦ ltb d.used_count n ]

-- The loop of `get_active_for_user` over the discounts that its query returns, newest first.
unfoldable pub first_usable : Instant → List Discount → Option Discount
first_usable now [] = none
first_usable now (d ∷ ds) =
    if has_started now d && not_expired now d && has_uses_left d
    then some d
    else first_usable now ds

-- The WHERE of the claim in `reserve_for_order`.
abbrev pub can_reserve : ℕ → ℕ → Instant → Discount → Bool
can_reserve discount_id user_id now d =
    (d.id == discount_id)
    && (d.user_id == user_id)
    && d.is_active
    && has_started now d
    && not_expired now d
    && has_uses_left d

abbrev pub use_once : Discount → Discount
use_once d = record d { used_count = d.used_count + 1 }

-- `reserve_for_order` of an order that carries a positive discount.
unfoldable pub reserve : ℕ → ℕ → ℕ → ℕ → Instant → Store → Result DiscountError Store
reserve order_id user_id discount_id amount now s = elim (find (of_order order_id) s.redemptions) [
  | some existing ↦ ok s
  | none ↦
      let p = can_reserve discount_id user_id now in
      if count_where p s.discounts == 1
      then ok (record {
        discounts = update_where p use_once s.discounts;
        redemptions =
            s.redemptions
            ++ record {
              discount_id = discount_id;
              order_id = order_id;
              status = reserved;
              discount_amount = amount;
              reserved_at = some now;
              applied_at = none;
              released_at = none;
            }
              ∷ [];
      })
      else err discount_no_longer_available
]

-- `reserve_for_order`; `personal_discount_id` may be missing and the amount 0.
unfoldable pub reserve_for_order :
    ℕ → ℕ → Option ℕ → ℕ → Instant → Store → Result DiscountError Store
unfolding reserve
reserve_for_order order_id user_id none amount now s = ok s
reserve_for_order order_id user_id (some discount_id) amount now s =
    if leb amount 0 then ok s else reserve order_id user_id discount_id amount now s

abbrev pub apply_redemption : Instant → Redemption → Redemption
apply_redemption now r = record r { status = applied; applied_at = some now }

apply_found : ℕ → Instant → Store → RedemptionStatus → Result DiscountError Store
apply_found order_id now s applied = ok s
apply_found order_id now s reserved = ok (record s {
  redemptions = update_where (of_order order_id) (apply_redemption now) s.redemptions;
})
apply_found order_id now s _ = err redemption_not_reserved

unfoldable pub apply_for_order : ℕ → Instant → Store → Result DiscountError Store
unfolding apply_found
apply_for_order order_id now s = elim (find (of_order order_id) s.redemptions) [
  | none ↦ ok s
  | some redemption ↦ apply_found order_id now s redemption.status
]

abbrev pub release_redemption : Instant → Redemption → Redemption
release_redemption now r = record r { status = released; released_at = some now }

-- `if discount.used_count > 0: discount.used_count -= 1`: the subtraction on ℕ stops at 0.
abbrev pub unuse_once : Discount → Discount
unuse_once d = record d { used_count = d.used_count - 1 }

release_found : ℕ → Instant → Store → Redemption → RedemptionStatus → Store
release_found order_id now s r released = s
release_found order_id now s r applied = s
release_found order_id now s r _ = record {
  discounts = update_where (λ (d : Discount). d.id == r.discount_id) unuse_once s.discounts;
  redemptions = update_where (of_order order_id) (release_redemption now) s.redemptions;
}

unfoldable pub release_for_order : ℕ → Instant → Store → Store
unfolding release_found
release_for_order order_id now s = elim (find (of_order order_id) s.redemptions) [
  | none ↦ s
  | some redemption ↦ release_found order_id now s redemption redemption.status
]

abbrev pub restore_redemption : Instant → Redemption → Redemption
restore_redemption now r = record r {
  status = reserved;
  released_at = none;
  reserved_at = some now;
}

restore_other : Store → RedemptionStatus → Result DiscountError Store
restore_other s reserved = ok s
restore_other s applied = ok s
restore_other s _ = err invalid_recovery_state

-- `restore_for_paid_order`: a released redemption counts again.
unfoldable pub restore_for_paid_order : ℕ → Instant → Store → Result DiscountError Store
unfolding restore_other
restore_for_paid_order order_id now s =
    let p = λ (r : Redemption). of_order order_id r && is_released r.status in
    elim (find p s.redemptions) [
      | some redemption ↦ ok (record {
        discounts =
            update_where (λ (d : Discount). d.id == redemption.discount_id) use_once s.discounts;
        redemptions = update_where p (restore_redemption now) s.redemptions;
      })
      | none ↦ elim (find (of_order order_id) s.redemptions) [
        | none ↦ ok s
        | some redemption ↦ restore_other s redemption.status
      ]
    ]
