-- ===== src/Updates/Leases.antt =====
-- Leases and duplicates: a row belongs to one worker at a time, and an update is stored once.
use text.Mathlib.TextPositions.{eq_refl}
use vpn_mediator_public.Prelude.{
  ℕ, ◌≤◌, ◌<◌, ◌≡◌, ◌≢◌, ◌∙◌, sym, refl, ap, String, true, false, ◌&&◌, none, some, List, [], ◌∷◌,
  All, map, arith, str_eq, eq_iff, if◌then◌else◌, ◌==◌, Bool-cases, Option-cases, inl, inr,
}
use vpn_mediator_public.Clock.{Instant}
use vpn_mediator_public.Table.{count_where, find}
use vpn_mediator_public.Table.Rows.{update_where-eq-map, update_where-none, map-ext}
use vpn_mediator_public.Table.Counts.{
  count-append, count_of_missing, find-append, count-update_where,
}
use vpn_mediator_public.Updates.Inbox.{
  Row, contains, is_claimable, claim_row, claim_one, claim_all, due_ids, claim_due, lease_until,
  is_held, mark_processed, mark_failed, Failure, receive, has_key, new_row, finish, conflict,
}

-- What a claim of the ids does to one row.
abbrev pub claim_if : String → ℕ → Instant → List ℕ → Row → Row
claim_if worker lease now ids r =
    if contains r.id ids && is_claimable now r then claim_row worker lease now r else r

map-map {ℓ} :
    {A B C : Type ℓ} (g : B → C) (f : A → B) (t : List A) → map g (map f t) ≡ map (λ r. g (f r)) t
map-map g f [] = refl
map-map g f (r ∷ t) = ap (λ rest. g (f r) ∷ rest) (map-map g f t)

map_same : {A : Type 0} (f : A → A) (t : List A) → ((r : A) → f r ≡ r) → map f t ≡ t
map_same f [] h = refl
map_same f (r ∷ t) h = rw (h r, map_same f t h)

-- A row that was just claimed cannot be claimed before its lease ends.
claim_row-leased :
    (worker : String) (lease : ℕ) (now later : Instant) (r : Row)
    → later < lease_until now lease
    → is_claimable later (claim_row worker lease now r) ≡ false
claim_row-leased worker lease now later r h = ground arith

claim_one_lem :
    (worker : String) (lease : ℕ) (now : Instant) (i : ℕ) (t : List Row)
    → (claim_one worker lease now i t).0
      ≡ map
          (λ (r : Row).
            if (r.id == i) && is_claimable now r then claim_row worker lease now r else r)
          t
unfolding claim_one
claim_one_lem worker lease now i t =
    update_where-eq-map (λ (r : Row). (r.id == i) && is_claimable now r)
      (claim_row worker lease now) t

claim_if_step :
    (worker : String) (lease : ℕ) (now : Instant) (i : ℕ) (ids : List ℕ) (r : Row)
    → claim_if worker lease now ids
        (if (r.id == i) && is_claimable now r then claim_row worker lease now r else r)
      ≡ claim_if worker lease now (i ∷ ids) r
claim_if_step worker lease now i ids r = elim (Bool-cases ((r.id == i) && is_claimable now r)) [
  | inl took ↦ rw took (ground (arith, claim_row-leased worker lease now now r (omega arith)))
  | inr left ↦ rw left (ground arith)
]

-- The loop of UPDATEs is one pass over the table: each selected row that may be claimed is claimed
-- once, whatever ids repeat.
pub claim_all-eq-map :
    (worker : String) (lease : ℕ) (now : Instant) (ids : List ℕ) (t : List Row)
    → (claim_all worker lease now ids t).0 ≡ map (claim_if worker lease now ids) t
unfolding claim_all
claim_all-eq-map worker lease now [] t = sym (map_same (claim_if worker lease now []) t (λ r. refl))
claim_all-eq-map worker lease now (i ∷ ids) t =
    claim_all-eq-map worker lease now ids (claim_one worker lease now i t).0
    ∙ ap (map (claim_if worker lease now ids)) (claim_one_lem worker lease now i t)
    ∙ map-map (claim_if worker lease now ids) _ t
    ∙ map-ext _ (claim_if worker lease now (i ∷ ids)) t (claim_if_step worker lease now i ids)

claim_if_after :
    (worker worker' : String) (lease lease' : ℕ) (now now' : Instant) (ids ids' : List ℕ) (r : Row)
    → now' < lease_until now lease
    → claim_if worker' lease' now' ids' (claim_if worker lease now ids r) ≡ (
        if contains r.id ids && is_claimable now r
        then claim_row worker lease now r
        else claim_if worker' lease' now' ids' r)
claim_if_after worker worker' lease lease' now now' ids ids' r h =
    elim (Bool-cases (contains r.id ids && is_claimable now r)) [
      | inl took ↦ rw took (ground (arith, claim_row-leased worker lease now now' r h))
      | inr left ↦ rw left
    ]

-- Two workers never hold the same row: a claim that is made before the lease of an earlier one ends
-- leaves every row that the earlier claim took as that claim left it, and acts on the others alone.
pub claims_exclusive :
    (worker worker' : String) (limit limit' lease lease' : ℕ) (now now' : Instant) (t : List Row)
    → now' < lease_until now lease
    → let first = (claim_due worker limit lease now t).0 in
      (claim_due worker' limit' lease' now' first).0
      ≡ map
          (λ (r : Row).
            if contains r.id (due_ids limit now t) && is_claimable now r
            then claim_row worker lease now r
            else claim_if worker' lease' now' (due_ids limit' now' first) r)
          t
unfolding claim_due
claims_exclusive worker worker' limit limit' lease lease' now now' t h =
    let ids = due_ids limit now t in
    let first = (claim_all worker lease now ids t).0 in
    let ids' = due_ids limit' now' first in
    claim_all-eq-map worker' lease' now' ids' first
    ∙ ap (map (claim_if worker' lease' now' ids')) (claim_all-eq-map worker lease now ids t)
    ∙ map-map (claim_if worker' lease' now' ids') (claim_if worker lease now ids) t
    ∙ map-ext _ _ t (λ r. claim_if_after worker worker' lease lease' now now' ids ids' r h)

-- No row is held by a worker if the rows of that id are claimed by another.
held_none :
    (i : ℕ) (worker owner : String) (t : List Row)
    → worker ≢ owner
    → All (λ (r : Row). r.id ≡ i → r.claimed_by ≡ some owner) t
    → (count_where (is_held i worker) t ≡ 0) × (find (is_held i worker) t ≡ none)
held_none i worker owner [] ne h = (refl, refl)
held_none i worker owner (r ∷ t) ne h =
    let rest = held_none i worker owner t ne h.1 in
    let claimed = h.0 in
    let free : is_held i worker r ≡ false = elim (Bool-cases (r.id == i)) [
      | inl same ↦ let c = claimed (ground arith) in ground (arith, eq_iff owner worker)
      | inr other ↦ rw other
    ] in
    rw free rest

-- A worker whose lease on a row was taken over by another one can neither finish the row nor fail
-- it: the call reports that, and changes nothing.
pub lost_lease_refused :
    (i : ℕ) (worker owner : String) (f : Failure) (now : Instant) (t : List Row)
    → worker ≢ owner
    → All (λ (r : Row). r.id ≡ i → r.claimed_by ≡ some owner) t
    → (mark_processed i worker now t ≡ (t, false)) × (mark_failed i worker f now t ≡ (t, none))
unfolding mark_processed mark_failed
lost_lease_refused i worker owner f now t ne h =
    let held = held_none i worker owner t ne h in
    (
      grind (arith, held, update_where-none (is_held i worker) (finish now) t held.0),
      ground (arith, held.1),
    )

-- Telegram may deliver an update any number of times: a delivery that stored a row makes every
-- later delivery of the same payload store nothing and change nothing.
pub receive_twice :
    (hash : String → String) (id id' : ℕ) (bot_key : String) (update_id : ℕ) (payload : String)
    (now now' : Instant) (t : List Row)
    → (receive hash id bot_key update_id payload now t).1 ≡ true
    → receive hash id' bot_key update_id payload now'
        (receive hash id bot_key update_id payload now t).0
      ≡ ((receive hash id bot_key update_id payload now t).0, false)
unfolding receive
receive_twice hash id id' bot_key update_id payload now now' t h =
    elim (Option-cases (find (has_key bot_key update_id) t)) [
      | inl missing ↦
          let r = new_row id bot_key update_id (hash payload) payload now in
          let key : has_key bot_key update_id r ≡ true = ground (arith, eq_refl bot_key) in
          ground
            (arith, find-append (has_key bot_key update_id) t r missing key, eq_refl (hash payload))
      | inr (inbox, found) ↦ cc (rw (found, receive) at h)
    ]

-- The key of an update stays unique: if no two rows share a bot and an update number before a
-- delivery, none do after it.
pub receive_unique :
    (hash : String → String) (id : ℕ) (bot_key : String) (update_id : ℕ) (payload : String)
    (now : Instant) (t : List Row)
    → ((b : String) (u : ℕ) → count_where (has_key b u) t ≤ 1)
    → (b : String) (u : ℕ)
    → count_where (has_key b u) (receive hash id bot_key update_id payload now t).0 ≤ 1
unfolding receive
receive_unique hash id bot_key update_id payload now t unique b u =
    elim (Option-cases (find (has_key bot_key update_id) t)) [
      | inl missing ↦
          let r = new_row id bot_key update_id (hash payload) payload now in
          let added = count-append (has_key b u) t r in
          rw (missing, receive)
            (elim (Bool-cases (has_key b u r)) [
              | inl same ↦
                  let eb : bot_key ≡ b = ground (arith, eq_iff bot_key b) in
                  let eu : update_id ≡ u = ground arith in
                  let z : count_where (has_key b u) t ≡ 0 =
                    rw (← eb, ← eu) (count_of_missing (has_key bot_key update_id) t missing) in
                  rw added (rw same (omega (arith, z)))
              | inr other ↦ rw added (rw other (omega (arith, unique b u)))
            ])
      | inr (inbox, found) ↦
          let kept =
            count-update_where (has_key b u) (has_key bot_key update_id) (conflict now) t
              (λ r. refl) in
          rw (found, receive)
            (elim (Bool-cases (str_eq inbox.payload_hash (hash payload))) [
              | inl same ↦ rw same (unique b u)
              | inr other ↦ rw other (rw kept (unique b u))
            ])
    ]
