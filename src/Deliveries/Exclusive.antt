-- ===== src/Deliveries/Exclusive.antt =====
-- A notification that one worker is sending is not given to another.
use vpn_mediator_public.Prelude.{
  ℕ, ◌+◌, ◌≡◌, refl, String, true, false, Option, none, some, List, [], ◌∷◌, ◌++◌, ltb, ◌==◌, All,
  arith, Bool-cases, Option-cases, inl, inr,
}
use vpn_mediator_public.Clock.{Instant, minutes}
use vpn_mediator_public.Table.{find, update_where, count_where}
use vpn_mediator_public.Table.Rows.{find-passes}
use vpn_mediator_public.Table.Counts.{count-append, count-update_where, find-append}
use vpn_mediator_public.Table.Searches.{find-update_any}
use vpn_mediator_public.Deliveries.{
  Delivery, DeliveryKey, has_key, has_id, bot_key_or, new_delivery, is_reclaimable, reclaimed,
  claim_again, claim_delivery, accepted, mark_accepted, failure, mark_delivery_failed,
}
use vpn_mediator_public.Deliveries.Held.{
  IsPrimary, IsHeld, has_key_refl, claim-IsHeld, counted_row, held_refused, update-IsHeld,
}

-- What a worker asks of the table: to claim a delivery at a moment, to note that the provider took
-- it, to note that sending it failed.
pub data Call : Type 0 where
  claims : DeliveryKey → Option String → String → Instant → Call
  accepts : ℕ → Option String → Instant → Call
  fails : ℕ → String → Instant → Call

-- No claim at `limit` or later, and no failure of the delivery `i`.
abbrev pub IsAllowed : ℕ → Instant → Call → Type 0
IsAllowed i limit (claims k given own now) = ltb now limit ≡ true
IsAllowed i limit (accepts j bot_key now) = Unit
IsAllowed i limit (fails j code now) = i == j ≡ false

module _ (next_id : List Delivery → ℕ) where
  unfoldable pub serve_call : Call → List Delivery → List Delivery
  unfolding claim_delivery mark_accepted mark_delivery_failed
  serve_call (claims k given own now) t = (claim_delivery (next_id t) k given own now t).0
  serve_call (accepts i bot_key now) t = mark_accepted i bot_key now t
  serve_call (fails i code now) t = mark_delivery_failed i code now t

  unfoldable pub serve_calls : List Call → List Delivery → List Delivery
  unfolding serve_call
  serve_calls [] t = t
  serve_calls (c ∷ cs) t = serve_calls cs (serve_call c t)

  module _ (fresh : (t : List Delivery) → count_where (has_id (next_id t)) t ≡ 0) where
    claim-IsPrimary :
        (k : DeliveryKey) (given : Option String) (own : String) (now : Instant) (t : List Delivery)
        → IsPrimary t
        → IsPrimary (claim_delivery (next_id t) k given own now t).0
    unfolding claim_delivery claim_again
    claim-IsPrimary k given own now t p i =
        let new = new_delivery (next_id t) k (bot_key_or given own) now in
        let primary = p i in
        elim (Option-cases (find (has_key k) t)) [
          | inl missing ↦
              let none_yet = fresh t in
              let counted = count-append (has_id i) t new in
              elim (Bool-cases (next_id t == i)) [
                | inl e ↦
                    let same : next_id t ≡ i = ground (arith, e) in
                    ground (arith, missing, counted, e, (rw same at none_yet))
                | inr e ↦ ground (arith, missing, counted, e, primary)
              ]
          | inr (d, found) ↦
              let kept =
                count-update_where (has_id i) (is_reclaimable d.id now) (reclaimed now) t
                  (λ (r : Delivery). refl) in
              ground (arith, found, kept, primary)
        ]

    serve_call-IsPrimary : (c : Call) (t : List Delivery) → IsPrimary t → IsPrimary (serve_call c t)
    unfolding serve_call mark_accepted mark_delivery_failed
    serve_call-IsPrimary (claims k given own now) t p i = claim-IsPrimary k given own now t p i
    serve_call-IsPrimary (accepts j bot_key now) t p i =
        rw
          (count-update_where (has_id i) (has_id j) (accepted bot_key now) t
            (λ (r : Delivery). refl))
          (p i)
    serve_call-IsPrimary (fails j code now) t p i =
        rw (count-update_where (has_id i) (has_id j) (failure code now) t (λ (r : Delivery). refl))
          (p i)

    serve_call-IsHeld :
        (k : DeliveryKey) (i : ℕ) (limit : Instant) (c : Call) (t : List Delivery)
        → IsAllowed i limit c
        → IsHeld k i limit t
        → IsHeld k i limit (serve_call c t)
    unfolding serve_call mark_accepted mark_delivery_failed
    serve_call-IsHeld k i limit (claims j given own now) t a h =
        claim-IsHeld (next_id t) j given own now k i limit t a h
    serve_call-IsHeld k i limit (accepts j bot_key now) t a h =
        update-IsHeld k i limit (has_id j) (accepted bot_key now) t (λ r. refl) (λ r. refl)
          (λ r same took m early. refl) h
    serve_call-IsHeld k i limit (fails j code now) t a h =
        update-IsHeld k i limit (has_id j) (failure code now) t (λ r. refl) (λ r. refl)
          (λ r same took m early. absurd (ground (arith, same, took, a))) h

    serve_calls-IsHeld :
        (k : DeliveryKey) (i : ℕ) (limit : Instant) (cs : List Call) (t : List Delivery)
        → All (IsAllowed i limit) cs
        → IsPrimary t
        → IsHeld k i limit t
        → IsPrimary (serve_calls cs t) × IsHeld k i limit (serve_calls cs t)
    unfolding serve_calls
    serve_calls-IsHeld k i limit [] t a p h = (p, h)
    serve_calls-IsHeld k i limit (c ∷ cs) t a p h =
        serve_calls-IsHeld k i limit cs (serve_call c t) a.1 (serve_call-IsPrimary c t p)
          (serve_call-IsHeld k i limit c t a.0 h)

    claimed-IsHeld :
        (k : DeliveryKey) (given : Option String) (own : String) (now : Instant) (t : List Delivery)
        (d : Delivery)
        → IsPrimary t
        → (claim_delivery (next_id t) k given own now t).1 ≡ some d
        → IsHeld k d.id (now + minutes 15) (claim_delivery (next_id t) k given own now t).0
    unfolding claim_delivery claim_again
    claimed-IsHeld k given own now t d p got = elim (Option-cases (find (has_key k) t)) [
      | inl missing ↦
          let new = new_delivery (next_id t) k (bot_key_or given own) now in
          let e : (claim_delivery (next_id t) k given own now t).0 ≡ t ++ new ∷ [] =
            ground (arith, missing) in
          let same : new ≡ d = ground (arith, missing, got) in
          rw e (record {
            row = new;
            found =
                find-append (has_key k) t new missing
                  (has_key_refl (next_id t) k (bot_key_or given own) now);
            same_id = rw (← same) (ground arith);
            blocked = λ m early. ground (arith, early);
          })
      | inr (s, stored) ↦
          let q = is_reclaimable s.id now in
          elim (Bool-cases (count_where q t == 1)) [
            | inr other ↦ absurd (ground (arith, stored, got, other))
            | inl one ↦
                let may = counted_row now k s t p stored one in
                let e : (claim_delivery (next_id t) k given own now t).0
                    ≡ update_where q (reclaimed now) t =
                  ground (arith, stored, got, one) in
                let got_d : find (has_id s.id) (update_where q (reclaimed now) t) ≡ some d =
                  ground (arith, stored, got, one) in
                let same = find-passes (has_id s.id) (update_where q (reclaimed now) t) d got_d in
                let took : q s ≡ true = ground (arith, may) in
                rw e (record {
                  row = reclaimed now s;
                  found = ground (
                    arith,
                    find-update_any (has_key k) q (reclaimed now) t (λ (r : Delivery). refl),
                    stored,
                    took,
                  );
                  same_id = ground (arith, same);
                  blocked = λ m early. ground (arith, early);
                })
          ]
    ]

-- While a worker sends a notification, no other worker is given it: less than a quarter of an hour
-- after a claim that gave it out, and whatever was claimed, accepted or failed since then at such
-- moments, short of a failure of this very delivery, a claim of the same notification is refused.
-- The database gives fresh ids to new rows.
pub claim_exclusive :
    (next_id : List Delivery → ℕ) (k : DeliveryKey) (given again : Option String)
    (own other : String) (now later : Instant) (t : List Delivery) (d : Delivery) (cs : List Call)
    → ((s : List Delivery) → count_where (has_id (next_id s)) s ≡ 0)
    → IsPrimary t
    → (claim_delivery (next_id t) k given own now t).1 ≡ some d
    → All (IsAllowed d.id (now + minutes 15)) cs
    → ltb later (now + minutes 15) ≡ true
    → (claim_delivery
        (next_id (serve_calls next_id cs (claim_delivery (next_id t) k given own now t).0))
        k
        again
        other
        later
        (serve_calls next_id cs (claim_delivery (next_id t) k given own now t).0)).1
      ≡ none
claim_exclusive next_id k given again own other now later t d cs fresh p got allowed early =
    let claimed = (claim_delivery (next_id t) k given own now t).0 in
    let limit = now + minutes 15 in
    let after =
      serve_calls-IsHeld next_id fresh k d.id limit cs claimed allowed
        (claim-IsPrimary next_id fresh k given own now t p)
        (claimed-IsHeld next_id fresh k given own now t d p got) in
    held_refused (next_id (serve_calls next_id cs claimed)) again other later k d.id limit
      (serve_calls next_id cs claimed) after.0 early after.1

-- Once the provider has accepted a notification, it is never given out again, whatever is claimed,
-- accepted or failed afterwards and however late, short of a failure of this very delivery.
pub accepted_stays :
    (next_id : List Delivery → ℕ) (k : DeliveryKey) (bot_key again : Option String) (own : String)
    (now later : Instant) (limit : Instant) (t : List Delivery) (d : Delivery) (cs : List Call)
    → ((s : List Delivery) → count_where (has_id (next_id s)) s ≡ 0)
    → IsPrimary t
    → find (has_key k) t ≡ some d
    → All (IsAllowed d.id limit) cs
    → ltb later limit ≡ true
    → (claim_delivery
        (next_id (serve_calls next_id cs (mark_accepted d.id bot_key now t)))
        k
        again
        own
        later
        (serve_calls next_id cs (mark_accepted d.id bot_key now t))).1
      ≡ none
unfolding mark_accepted serve_call
accepted_stays next_id k bot_key again own now later limit t d cs fresh p found allowed early =
    let t1 = mark_accepted d.id bot_key now t in
    let held : IsHeld k d.id limit t1 = record {
      row = accepted bot_key now d;
      found = ground (
        arith,
        find-update_any (has_key k) (has_id d.id) (accepted bot_key now) t (λ (r : Delivery). refl),
        found,
      );
      same_id = ground arith;
      blocked = λ m before. refl;
    } in
    let after =
      serve_calls-IsHeld next_id fresh k d.id limit cs t1 allowed
        (serve_call-IsPrimary next_id fresh (accepts d.id bot_key now) t p) held in
    held_refused (next_id (serve_calls next_id cs t1)) again own later k d.id limit
      (serve_calls next_id cs t1) after.0 early after.1
