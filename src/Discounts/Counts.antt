-- ===== src/Discounts/Counts.antt =====
-- The use counts of personal discounts, and what a change of one redemption does to them.
use vpn_mediator_public.Prelude.{
  ℕ, ◌≤◌, ◌≡◌, refl, Bool, true, false, ◌&&◌, not, some, List, ◌==◌, All, arith,
}
use vpn_mediator_public.Table.{find, update_where, count_where}
use vpn_mediator_public.Table.Counts.{
  count-update_where, count_one_updated, All-update_where_into, All-mapped,
}
use vpn_mediator_public.Discounts
use vpn_mediator_public.Discounts.{
  Discount, is_reserved, RedemptionStatus, reserved, applied, released, unknown, Redemption,
  DiscountError, of_order, is_released, can_reserve, use_once, unuse_once, apply_redemption,
  release_redemption, restore_redemption, reserve, reserve_for_order, apply_for_order,
  release_for_order, restore_for_paid_order, apply_found, release_found, restore_other,
}

-- A redemption that counts as a use of the discount: any but a released one.
abbrev pub is_use_of : ℕ → Redemption → Bool
is_use_of discount_id r = (r.discount_id == discount_id) && not (is_released r.status)

abbrev pub has_id : ℕ → Discount → Bool
has_id n d = d.id == n

-- The use count of every discount is the number of redemptions that were not released.
abbrev pub UsesMatch : List Redemption → Discount → Type 0
UsesMatch t d = d.used_count ≡ count_where (is_use_of d.id) t

-- The tables keep their keys and the use counts are right.
pub record IsCounted (s : Discounts.Store) : Type 0 where
  pub one_discount : (n : ℕ) → count_where (has_id n) s.discounts ≤ 1
  pub one_redemption : (n : ℕ) → count_where (of_order n) s.redemptions ≤ 1
  pub uses : All (UsesMatch s.redemptions) s.discounts

-- The redemption rows of a rewritten table keep their key.
keeps_keys :
    (p : Redemption → Bool) (f : Redemption → Redemption) (t : List Redemption)
    → ((r : Redemption) → (f r).order_id ≡ r.order_id)
    → ((n : ℕ) → count_where (of_order n) t ≤ 1)
    → (n : ℕ) → count_where (of_order n) (update_where p f t) ≤ 1
keeps_keys p f t keeps one n =
    rw (count-update_where (of_order n) p f t (λ r. rw (keeps r) refl)) (one n)

-- A redemption is rewritten into one that counts for the same discount.
pub same_uses :
    (p : Redemption → Bool) (f : Redemption → Redemption) (s : Discounts.Store) (r : Redemption)
    → IsCounted s
    → ((q : Redemption) → (f q).order_id ≡ q.order_id)
    → count_where p s.redemptions ≤ 1
    → find p s.redemptions ≡ some r
    → ((n : ℕ) → is_use_of n (f r) ≡ is_use_of n r)
    → IsCounted (record s { redemptions = update_where p f s.redemptions })
same_uses p f s r v keeps one found same = record {
  one_discount = v.one_discount;
  one_redemption = keeps_keys p f s.redemptions keeps v.one_redemption;
  uses =
      All-mapped (UsesMatch s.redemptions) (UsesMatch (update_where p f s.redemptions))
        (λ d e.
          ground
            (arith, e, count_one_updated p (is_use_of d.id) f s.redemptions r one found, same d.id))
        s.discounts v.uses;
}

-- A redemption that counted no longer does, and its discount has one use less.
pub uses_fewer :
    (p : Redemption → Bool) (f : Redemption → Redemption) (s : Discounts.Store) (r : Redemption)
    → IsCounted s
    → ((q : Redemption) → (f q).order_id ≡ q.order_id)
    → count_where p s.redemptions ≤ 1
    → find p s.redemptions ≡ some r
    → is_released r.status ≡ false
    → ((n : ℕ) → is_use_of n (f r) ≡ false)
    → IsCounted (record {
      discounts = update_where (λ (d : Discount). d.id == r.discount_id) unuse_once s.discounts;
      redemptions = update_where p f s.redemptions;
    })
uses_fewer p f s r v keeps one found counted gone =
    let moved = λ (n : ℕ). count_one_updated p (is_use_of n) f s.redemptions r one found in
    record {
      one_discount = λ n.
          rw
            (count-update_where (has_id n) (λ (d : Discount). d.id == r.discount_id) unuse_once
              s.discounts (λ d. refl))
            (v.one_discount n);
      one_redemption = keeps_keys p f s.redemptions keeps v.one_redemption;
      uses =
          All-update_where_into (UsesMatch s.redemptions)
            (UsesMatch (update_where p f s.redemptions)) (λ (d : Discount). d.id == r.discount_id)
            unuse_once (λ d e hit. ground (arith, e, counted, moved d.id, gone d.id))
            (λ d e miss. ground (arith, e, moved d.id, gone d.id)) s.discounts v.uses;
    }

-- A redemption that did not count does so again, and its discount has one use more.
pub uses_more :
    (p : Redemption → Bool) (f : Redemption → Redemption) (s : Discounts.Store) (r : Redemption)
    → IsCounted s
    → ((q : Redemption) → (f q).order_id ≡ q.order_id)
    → count_where p s.redemptions ≤ 1
    → find p s.redemptions ≡ some r
    → is_released r.status ≡ true
    → ((n : ℕ) → is_use_of n (f r) ≡ (r.discount_id == n))
    → IsCounted (record {
      discounts = update_where (λ (d : Discount). d.id == r.discount_id) use_once s.discounts;
      redemptions = update_where p f s.redemptions;
    })
uses_more p f s r v keeps one found gone counted =
    let moved = λ (n : ℕ). count_one_updated p (is_use_of n) f s.redemptions r one found in
    record {
      one_discount = λ n.
          rw
            (count-update_where (has_id n) (λ (d : Discount). d.id == r.discount_id) use_once
              s.discounts (λ d. refl))
            (v.one_discount n);
      one_redemption = keeps_keys p f s.redemptions keeps v.one_redemption;
      uses =
          All-update_where_into (UsesMatch s.redemptions)
            (UsesMatch (update_where p f s.redemptions)) (λ (d : Discount). d.id == r.discount_id)
            use_once (λ d e hit. ground (arith, e, gone, moved d.id, counted d.id))
            (λ d e miss. ground (arith, e, gone, moved d.id, counted d.id)) s.discounts v.uses;
    }
