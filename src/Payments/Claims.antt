-- ===== src/Payments/Claims.antt =====
-- `PaymentInboxRepository.claim_due` and `mark_applied_for_order` of repositories.py: which evidence
-- a worker reconciles. The lease is a natural number, since the code raises it to at least 1.
use vpn_mediator_public.Prelude.{
  ℕ, ◌+◌, ◌≡◌, ◌<◌, ◌⊎◌, inl, inr, All, refl, String, Bool, true, false, ◌&&◌, ◌||◌, Option, none,
  some, List, [], ◌∷◌, map, take, max, ltb, leb, ◌==◌, if◌then◌else◌, arith,
}
use vpn_mediator_public.Clock.{Instant, seconds}
use vpn_mediator_public.Table.{select, find, update_where, count_where, order_by}
use vpn_mediator_public.Table.Counts.{find-update_other}
use vpn_mediator_public.Payments.Inbox.{InboxStatus, received, matched, applied, Inbox}

abbrev pub is_received : InboxStatus → Bool
is_received received = true
is_received _ = false

abbrev pub is_matched : InboxStatus → Bool
is_matched matched = true
is_matched _ = false

-- `column IS NULL OR column <= now`
abbrev pub is_open : Instant → Option Instant → Bool
is_open now none = true
is_open now (some t) = leb t now

-- The WHERE of the UPDATE, without the id.
abbrev pub is_unclaimed : Instant → Inbox → Bool
is_unclaimed now i = is_received i.reconciliation_status && is_open now i.claim_expires_at

abbrev pub claim_evidence : String → ℕ → Instant → Inbox → Inbox
claim_evidence worker lease_seconds now i = record i {
  claimed_by = some worker;
  claim_expires_at = some (now + seconds (max lease_seconds 1));
  attempt_count = i.attempt_count + 1;
  updated_at = now;
}

-- ORDER BY received_at_utc, id
abbrev pub is_earlier : Inbox → Inbox → Bool
is_earlier i j =
    ltb i.received_at j.received_at || ((i.received_at == j.received_at) && leb i.id j.id)

unfoldable pub due_evidence : ℕ → Instant → List Inbox → List ℕ
due_evidence limit now t =
    map (λ (i : Inbox). i.id)
      (take limit (
        order_by is_earlier
          (select (λ (i : Inbox). is_unclaimed now i && is_open now i.next_attempt_at) t)))

abbrev pub is_free_evidence : ℕ → Instant → Inbox → Bool
is_free_evidence id now i = (i.id == id) && is_unclaimed now i

-- The loop over the selected ids: the table and the ids that were claimed.
unfoldable pub claim_each : String → ℕ → Instant → List ℕ → List Inbox → List Inbox × List ℕ
claim_each worker lease_seconds now [] t = (t, [])
claim_each worker lease_seconds now (i ∷ ids) t =
    let took = count_where (is_free_evidence i now) t == 1 in
    let (t', rest) =
      claim_each worker lease_seconds now ids
        (update_where (is_free_evidence i now) (claim_evidence worker lease_seconds now) t) in
    (t', if took then i ∷ rest else rest)

abbrev pub contains : ℕ → List ℕ → Bool
contains n [] = false
contains n (x ∷ xs) = (n == x) || contains n xs

-- `claim_due`: the table and the claimed rows.
unfoldable pub claim_due : String → ℕ → ℕ → Instant → List Inbox → List Inbox × List Inbox
claim_due worker limit lease_seconds now t =
    let (t', claimed_ids) = claim_each worker lease_seconds now (due_evidence limit now t) t in
    (t', order_by is_earlier (select (λ (i : Inbox). contains i.id claimed_ids) t'))

abbrev pub is_matched_to : ℕ → Inbox → Bool
is_matched_to order_id i =
    elim i.matched_order_id [ none ↦ false | some o ↦ o == order_id ]
    && is_matched i.reconciliation_status

abbrev pub settle_evidence : Instant → Inbox → Inbox
settle_evidence now i = record i {
  reconciliation_status = applied;
  failure_code = none;
  claimed_by = none;
  claim_expires_at = none;
  next_attempt_at = none;
  processed_at = some now;
  updated_at = now;
}

unfoldable pub mark_applied_for_order : Instant → ℕ → List Inbox → List Inbox
mark_applied_for_order now order_id t =
    update_where (is_matched_to order_id) (settle_evidence now) t

abbrev pub has_inbox_id : ℕ → Inbox → Bool
has_inbox_id id i = i.id == id

each_kept :
    (worker : String) (lease : ℕ) (now : Instant) (ids : List ℕ) (id : ℕ) (t : List Inbox)
    (i : Inbox)
    → find (has_inbox_id id) t ≡ some i
    → is_unclaimed now i ≡ false
    → find (has_inbox_id id) (claim_each worker lease now ids t).0 ≡ some i
unfolding claim_each
each_kept worker lease now [] id t i found busy = found
each_kept worker lease now (j ∷ ids) id t i found busy =
    each_kept worker lease now ids id
      (update_where (is_free_evidence j now) (claim_evidence worker lease now) t) i
      (find-update_other (has_inbox_id id) (is_free_evidence j now)
        (claim_evidence worker lease now) t i (λ s e. refl) found (ground (arith, busy)))
      busy

-- The arguments of one call of `claim_due`.
pub record Claim : Type 0 where
  pub worker : String
  pub limit : ℕ
  pub lease_seconds : ℕ
  pub at : Instant

unfoldable pub claims : List Claim → List Inbox → List Inbox
claims [] t = t
claims (c ∷ cs) t = claims cs (claim_due c.worker c.limit c.lease_seconds c.at t).0

reserved_is_claimed :
    (c : Claim) (i : Inbox) (until : Instant)
    → i.claim_expires_at ≡ some until
    → c.at < until
    → is_unclaimed c.at i ≡ false
reserved_is_claimed c i until leased early = ground (arith, leased, early)

all_busy :
    (cs : List Claim) (i : Inbox)
    → (is_received i.reconciliation_status ≡ false)
      ⊎ ((until : Instant) × (i.claim_expires_at ≡ some until)
          × All (λ (c : Claim). c.at < until) cs)
    → All (λ (c : Claim). is_unclaimed c.at i ≡ false) cs
all_busy [] i h = tt
all_busy (c ∷ cs) i (inl decided) = (ground (arith, decided), all_busy cs i (inl decided))
all_busy (c ∷ cs) i (inr (until, leased, early)) =
    (reserved_is_claimed c i until leased early.0, all_busy cs i (inr (until, leased, early.1)))

busy_kept :
    (cs : List Claim) (id : ℕ) (t : List Inbox) (i : Inbox)
    → find (has_inbox_id id) t ≡ some i
    → All (λ (c : Claim). is_unclaimed c.at i ≡ false) cs
    → find (has_inbox_id id) (claims cs t) ≡ some i
unfolding claims claim_due
busy_kept [] id t i found busy = found
busy_kept (c ∷ cs) id t i found busy =
    busy_kept cs id (claim_due c.worker c.limit c.lease_seconds c.at t).0 i
      (each_kept c.worker c.lease_seconds c.at (due_evidence c.limit c.at t) id t i found busy.0)
      busy.1

-- Evidence that is no longer in the state "received", or whose claim ends after the moments of all
-- of a sequence of claims, is left as it is by that sequence, whoever makes them.
pub claims_leave :
    (cs : List Claim) (id : ℕ) (t : List Inbox) (i : Inbox)
    → find (has_inbox_id id) t ≡ some i
    → (is_received i.reconciliation_status ≡ false)
      ⊎ ((until : Instant) × (i.claim_expires_at ≡ some until)
          × All (λ (c : Claim). c.at < until) cs)
    → find (has_inbox_id id) (claims cs t) ≡ some i
claims_leave cs id t i found reserved = busy_kept cs id t i found (all_busy cs i reserved)
