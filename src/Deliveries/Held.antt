-- ===== src/Deliveries/Held.antt =====
-- Deliveries that no claim takes until a moment, and what keeps them so.
use vpn_mediator_public.Prelude.{
  ℕ, ◌≤◌, ◌≡◌, refl, String, Bool, true, false, Option, none, some, List, [], ◌∷◌, ◌++◌, ltb, ◌==◌,
  eq_iff, arith, Bool-cases, Option-cases, inl, inr,
}
use vpn_mediator_public.Clock.{Instant}
use vpn_mediator_public.Table.{find, update_where, count_where}
use vpn_mediator_public.Table.Rows.{find-All}
use vpn_mediator_public.Table.Counts.{All-of_count, find-update_other}
use vpn_mediator_public.Table.Searches.{find-update_any, find-append_found}
use vpn_mediator_public.Deliveries.{
  Delivery, DeliveryKey, has_key, has_id, bot_key_or, new_delivery, is_accepted, may_send,
  is_reclaimable, reclaimed, claim_again, claim_delivery,
}

abbrev pub IsPrimary : List Delivery → Type 0
IsPrimary t = (i : ℕ) → count_where (has_id i) t ≤ 1

-- Until `limit`, no claim takes the delivery.
abbrev pub IsBlocked : Instant → Delivery → Type 0
IsBlocked limit d =
    (now : Instant) → ltb now limit ≡ true → may_send now d.status d.claimed_at ≡ false

pub record IsHeld (k : DeliveryKey) (i : ℕ) (limit : Instant) (t : List Delivery) : Type 0 where
  pub row : Delivery
  pub found : find (has_key k) t ≡ some row
  pub same_id : has_id i row ≡ true
  pub blocked : IsBlocked limit row

pub has_key_refl :
    (id : ℕ) (k : DeliveryKey) (bot_key : String) (now : Instant)
    → has_key k (new_delivery id k bot_key now) ≡ true
has_key_refl id k bot_key now =
    ground
      (arith, eq_iff k.notification_kind k.notification_kind, eq_iff k.delivery_key k.delivery_key)

-- The row is still the one that is found.
same_row-IsHeld :
    (k : DeliveryKey) (i : ℕ) (limit : Instant) (t after : List Delivery) (h : IsHeld k i limit t)
    → find (has_key k) after ≡ some h.row
    → IsHeld k i limit after
same_row-IsHeld k i limit t after h found = record {
  row = h.row;
  found = found;
  same_id = h.same_id;
  blocked = h.blocked;
}

pub claim-IsHeld :
    (id : ℕ) (j : DeliveryKey) (given : Option String) (own : String) (now : Instant)
    (k : DeliveryKey) (i : ℕ) (limit : Instant) (t : List Delivery)
    → ltb now limit ≡ true
    → IsHeld k i limit t
    → IsHeld k i limit (claim_delivery id j given own now t).0
unfolding claim_delivery claim_again
claim-IsHeld id j given own now k i limit t early h = elim (Option-cases (find (has_key j) t)) [
  | inl missing ↦
      let new = new_delivery id j (bot_key_or given own) now in
      let e : (claim_delivery id j given own now t).0 ≡ t ++ new ∷ [] = ground (arith, missing) in
      rw e (
        same_row-IsHeld k i limit t (t ++ new ∷ []) h
          (find-append_found (has_key k) t (new ∷ []) h.row h.found))
  | inr (d, stored) ↦
      let q = is_reclaimable d.id now in
      let blocked = h.blocked now early in
      let untouched : q h.row ≡ false = ground (arith, blocked) in
      elim (Bool-cases (is_accepted d.status)) [
        | inl over ↦
            let e : (claim_delivery id j given own now t).0 ≡ t = ground (arith, stored, over) in
            rw e h
        | inr unsent ↦
            let e : (claim_delivery id j given own now t).0 ≡ update_where q (reclaimed now) t =
              ground (arith, stored, unsent) in
            rw e (
              same_row-IsHeld k i limit t (update_where q (reclaimed now) t) h (
                find-update_other (has_key k) q (reclaimed now) t h.row (λ (r : Delivery) yes. refl)
                  h.found untouched))
      ]
]

-- Among rows with different ids, an UPDATE that counts one row of an id took every row of that id.
pub counted_row :
    (now : Instant) (k : DeliveryKey) (d : Delivery) (t : List Delivery)
    → IsPrimary t
    → find (has_key k) t ≡ some d
    → (count_where (is_reclaimable d.id now) t == 1) ≡ true
    → may_send now d.status d.claimed_at ≡ true
counted_row now k d t p found one =
    let primary = p d.id in
    let all =
      All-of_count (is_reclaimable d.id now) (has_id d.id) t (λ (r : Delivery) h. ground (arith, h))
        (ground (arith, primary, one)) in
    let took =
      find-All (λ (r : Delivery). has_id d.id r ≡ true → is_reclaimable d.id now r ≡ true)
        (has_key k) t d all found (ground arith) in
    ground (arith, took)

pub held_refused :
    (id : ℕ) (given : Option String) (own : String) (now : Instant) (k : DeliveryKey) (i : ℕ)
    (limit : Instant) (t : List Delivery)
    → IsPrimary t
    → ltb now limit ≡ true
    → IsHeld k i limit t
    → (claim_delivery id k given own now t).1 ≡ none
unfolding claim_delivery claim_again
held_refused id given own now k i limit t p early h =
    let blocked = h.blocked now early in
    let found = h.found in
    elim (Bool-cases (count_where (is_reclaimable h.row.id now) t == 1)) [
      | inl one ↦ absurd (ground (arith, blocked, counted_row now k h.row t p found one))
      | inr other ↦ ground (arith, found, other)
    ]

pub update-IsHeld :
    (k : DeliveryKey) (i : ℕ) (limit : Instant) (q : Delivery → Bool) (f : Delivery → Delivery)
    (t : List Delivery)
    → ((r : Delivery) → has_key k (f r) ≡ has_key k r)
    → ((r : Delivery) → has_id i (f r) ≡ has_id i r)
    → ((r : Delivery) → has_id i r ≡ true → q r ≡ true → IsBlocked limit (f r))
    → IsHeld k i limit t
    → IsHeld k i limit (update_where q f t)
update-IsHeld k i limit q f t keys ids stays h =
    let found = h.found in
    let same_id = h.same_id in
    let ids_of_row = ids h.row in
    elim (Bool-cases (q h.row)) [
      | inl took ↦ record {
        row = f h.row;
        found = ground (arith, find-update_any (has_key k) q f t keys, found, took);
        same_id = ground (arith, ids_of_row, same_id);
        blocked = stays h.row h.same_id took;
      }
      | inr left ↦
          same_row-IsHeld k i limit t (update_where q f t) h
            (ground (arith, find-update_any (has_key k) q f t keys, found, left))
    ]
