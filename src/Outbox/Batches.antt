-- ===== src/Outbox/Batches.antt =====
-- No notification is sent by two workers at once.
use vpn_mediator_public.Prelude.{
  ℕ, zero, suc, ◌+◌, ◌≡◌, ◌<◌, refl, max, String, Bool, true, false, Option, none, some, List, [],
  ◌∷◌, ◌++◌, take, ◌==◌, All, arith, Bool-cases, Option-cases, inl, inr,
}
use vpn_mediator_public.Clock.{Instant, minutes}
use vpn_mediator_public.Table.{select, find, update_where, order_by, insert_by}
use vpn_mediator_public.Table.Rows.{All-append}
use vpn_mediator_public.Outbox.{
  Item, is_deliverable, is_earlier, batch, send, write_batch, claim_batch, mark_provider_accepted,
  Retries, mark_failed_bounded, mark_failed, mark_terminal_failed, new_item,
  enqueue_once_with_status, has_idempotency_key,
}

module _ {A : Type 0} (P : A → Type 0) where
  All-insert_by :
      (before : A → A → Bool) (r : A) (t : List A) → P r → All P t → All P (insert_by before r t)
  All-insert_by before r [] h a = (h, tt)
  All-insert_by before r (s ∷ t) h a = elim (Bool-cases (before r s)) [
    | inl first ↦ rw first (h, a)
    | inr later ↦ rw later (a.0, All-insert_by before r t h a.1)
  ]

  All-order_by : (before : A → A → Bool) (t : List A) → All P t → All P (order_by before t)
  All-order_by before [] a = tt
  All-order_by before (r ∷ t) a =
      All-insert_by before r (order_by before t) a.0 (All-order_by before t a.1)

  All-take : (n : ℕ) (t : List A) → All P t → All P (take n t)
  All-take zero t a = tt
  All-take (suc n) [] a = tt
  All-take (suc n) (r ∷ t) a = (a.0, All-take n t a.1)

  All-select :
      (p : A → Bool) (t : List A) → All (λ (r : A). p r ≡ true → P r) t → All P (select p t)
  All-select p [] a = tt
  All-select p (r ∷ t) a = elim (Bool-cases (p r)) [
    | inl hit ↦ rw hit (a.0 hit, All-select p t a.1)
    | inr miss ↦ rw miss (All-select p t a.1)
  ]

-- What the senders ask of the outbox: a batch, a note that the provider took an item or that sending
-- it failed, and a new item.
pub data Call : Type 0 where
  claims : (timeout limit : ℕ) (at : Instant) → Call
  accepts : (id : ℕ) (bot_key : Option String) (at : Instant) → Call
  fails : (id : ℕ) (r : Retries) (error_code : String) (after : Option ℕ) (at : Instant) → Call
  enqueues : (id : ℕ) (key content : String) (at : Instant) → Call

abbrev pub has_number : ℕ → Item → Bool
has_number n i = i.id == n

unfoldable pub serve_call : Call → List Item → List Item
unfolding claim_batch mark_failed_bounded enqueue_once_with_status
serve_call (claims timeout limit at) t = claim_batch timeout limit at t
serve_call (accepts n bot_key at) t =
    update_where (has_number n) (mark_provider_accepted bot_key at) t
serve_call (fails n r code after at) t =
    update_where (has_number n) (mark_failed_bounded r code after at) t
serve_call (enqueues n key content at) t = (enqueue_once_with_status n key content at t).0

unfoldable pub serve_calls : List Call → List Item → List Item
unfolding serve_call
serve_calls [] t = t
serve_calls (c ∷ cs) t = serve_calls cs (serve_call c t)

-- A batch that is claimed within its timeout of `now`, a failure of another item, a new id.
abbrev pub IsAllowed : ℕ → Instant → Call → Type 0
IsAllowed n now (claims timeout limit at) = at < now + minutes (max timeout 1)
IsAllowed n now (accepts m bot_key at) = Unit
IsAllowed n now (fails m r code after at) = m == n ≡ false
IsAllowed n now (enqueues m key content at) = m == n ≡ false

-- An item that no batch takes within its timeout.
abbrev pub IsBlocked : Instant → Item → Type 0
IsBlocked now i =
    (timeout : ℕ) (at : Instant)
    → at < now + minutes (max timeout 1)
    → is_deliverable timeout at i ≡ false

abbrev pub IsHeld : ℕ → Instant → List Item → Type 0
IsHeld n now t = All (λ (i : Item). has_number n i ≡ true → IsBlocked now i) t

batch_free :
    (n timeout limit : ℕ) (now at : Instant) (t : List Item)
    → at < now + minutes (max timeout 1)
    → IsHeld n now t
    → All (λ (i : Item). has_number n i ≡ false) (batch timeout limit at t)
unfolding batch
batch_free n timeout limit now at t early held =
    let P = λ (i : Item). has_number n i ≡ false in
    All-take P limit (order_by is_earlier (select (is_deliverable timeout at) t)) (
      All-order_by P is_earlier (select (is_deliverable timeout at) t)
        (All-select P (is_deliverable timeout at) t (free t held)))
  where
    free :
        (s : List Item)
        → IsHeld n now s
        → All (λ (i : Item). is_deliverable timeout at i ≡ true → has_number n i ≡ false) s
    free [] h = tt
    free (i ∷ s) h = (
      λ due. elim (Bool-cases (has_number n i)) [
        | inl mine ↦ let idle = h.0 mine timeout at early in absurd (ground (arith, due, idle))
        | inr other ↦ other
      ],
      free s h.1,
    )

-- An UPDATE of one id holds an item if it is of another id, or leaves its rows blocked.
update-IsHeld :
    (n m : ℕ) (now : Instant) (f : Item → Item) (t : List Item)
    → ((i : Item) → (f i).id ≡ i.id)
    → ((i : Item) → m == n ≡ true → IsBlocked now (f i))
    → IsHeld n now t
    → IsHeld n now (update_where (has_number m) f t)
update-IsHeld n m now f [] ids stays h = tt
update-IsHeld n m now f (i ∷ t) ids stays h = elim (Bool-cases (has_number m i)) [
  | inl hit ↦
      rw hit (
        λ mine. stays i (ground (arith, hit, mine, ids i)),
        update-IsHeld n m now f t ids stays h.1,
      )
  | inr miss ↦ rw miss (h.0, update-IsHeld n m now f t ids stays h.1)
]

write_batch-IsHeld :
    (n : ℕ) (now at : Instant) (loaded t : List Item)
    → All (λ (i : Item). has_number n i ≡ false) loaded
    → IsHeld n now t
    → IsHeld n now (write_batch at loaded t)
unfolding write_batch
write_batch-IsHeld n now at [] t free h = h
write_batch-IsHeld n now at (l ∷ loaded) t free h =
    write_batch-IsHeld n now at loaded (update_where (has_number l.id) (send at l) t) free.1 (
      update-IsHeld n l.id now (send at l) t (λ i. refl)
        (λ i mine. absurd (ground (arith, mine, free.0))) h)

-- Writing the rows of a batch holds those that are held already, and all of its own.
written-IsHeld :
    (n : ℕ) (now : Instant) (loaded t : List Item)
    → IsHeld n now t
    → IsHeld n now (write_batch now loaded t)
unfolding write_batch
written-IsHeld n now [] t h = h
written-IsHeld n now (l ∷ loaded) t h =
    written-IsHeld n now loaded (update_where (has_number l.id) (send now l) t) (
      update-IsHeld n l.id now (send now l) t (λ i. refl)
        (λ i mine timeout at early. ground (arith, early)) h)

all_sent :
    (n : ℕ) (now : Instant) (l : Item) (t : List Item)
    → has_number n l ≡ true
    → IsHeld n now (update_where (has_number l.id) (send now l) t)
all_sent n now l [] same = tt
all_sent n now l (i ∷ t) same = elim (Bool-cases (has_number l.id i)) [
  | inl hit ↦ rw hit (λ mine timeout at early. ground (arith, early), all_sent n now l t same)
  | inr miss ↦ rw miss (λ mine. absurd (ground (arith, mine, miss, same)), all_sent n now l t same)
]

batch-IsHeld :
    (n : ℕ) (now : Instant) (loaded t : List Item) (l : Item)
    → find (has_number n) loaded ≡ some l
    → IsHeld n now (write_batch now loaded t)
unfolding write_batch
batch-IsHeld n now [] t l found = cc
batch-IsHeld n now (k ∷ loaded) t l found = elim (Bool-cases (has_number n k)) [
  | inl mine ↦
      written-IsHeld n now loaded (update_where (has_number k.id) (send now k) t)
        (all_sent n now k t mine)
  | inr other ↦
      batch-IsHeld n now loaded (update_where (has_number k.id) (send now k) t) l
        (rw other at found)
]

serve_call-IsHeld :
    (n : ℕ) (now : Instant) (c : Call) (t : List Item)
    → IsAllowed n now c
    → IsHeld n now t
    → IsHeld n now (serve_call c t)
unfolding serve_call claim_batch mark_failed_bounded mark_failed mark_terminal_failed
    enqueue_once_with_status
serve_call-IsHeld n now (claims timeout limit at) t early h =
    write_batch-IsHeld n now at (batch timeout limit at t) t
      (batch_free n timeout limit now at t early h) h
serve_call-IsHeld n now (accepts m bot_key at) t a h =
    update-IsHeld n m now (mark_provider_accepted bot_key at) t (λ i. refl)
      (λ i mine timeout later early. ground arith) h
serve_call-IsHeld n now (fails m r code after at) t other h =
    update-IsHeld n m now (mark_failed_bounded r code after at) t (λ i. ground arith)
      (λ i mine. absurd (ground (arith, mine, other))) h
serve_call-IsHeld n now (enqueues m key content at) t other h =
    elim (Option-cases (find (has_idempotency_key key) t)) [
      | inr (i, known) ↦
          let same : (enqueue_once_with_status m key content at t).0 ≡ t = ground (arith, known) in
          rw same h
      | inl missing ↦
          let grown : (enqueue_once_with_status m key content at t).0
              ≡ t ++ new_item m key content at ∷ [] =
            ground (arith, missing) in
          rw grown (
            All-append (λ (i : Item). has_number n i ≡ true → IsBlocked now i) t
              (new_item m key content at ∷ []) h (λ mine. absurd (ground (arith, mine, other)), tt))
    ]

serve_calls-IsHeld :
    (n : ℕ) (now : Instant) (cs : List Call) (t : List Item)
    → All (IsAllowed n now) cs
    → IsHeld n now t
    → IsHeld n now (serve_calls cs t)
unfolding serve_calls
serve_calls-IsHeld n now [] t a h = h
serve_calls-IsHeld n now (c ∷ cs) t a h =
    serve_calls-IsHeld n now cs (serve_call c t) a.1 (serve_call-IsHeld n now c t a.0 h)

none_found :
    (n : ℕ) (t : List Item)
    → All (λ (i : Item). has_number n i ≡ false) t
    → find (has_number n) t ≡ none
none_found n [] a = refl
none_found n (i ∷ t) a = rw a.0 (none_found n t a.1)

-- An item that a batch took is in no later batch that is claimed within its timeout, whatever batches
-- were claimed within theirs, whatever was accepted and enqueued with a fresh id, and whatever other
-- items failed in between. Each batch is claimed with no other writer between its reading and its
-- writing.
pub batches_exclusive :
    (timeout timeout' limit limit' n : ℕ) (now later : Instant) (t : List Item) (i : Item)
    (cs : List Call)
    → find (has_number n) (batch timeout limit now t) ≡ some i
    → All (IsAllowed n now) cs
    → later < now + minutes (max timeout' 1)
    → find
        (has_number n)
        (batch timeout' limit' later (serve_calls cs (claim_batch timeout limit now t)))
      ≡ none
unfolding claim_batch
batches_exclusive timeout timeout' limit limit' n now later t i cs taken allowed early =
    let t' = serve_calls cs (claim_batch timeout limit now t) in
    none_found n (batch timeout' limit' later t') (
      batch_free n timeout' limit' now later t' early (
        serve_calls-IsHeld n now cs (claim_batch timeout limit now t) allowed
          (batch-IsHeld n now (batch timeout limit now t) t i taken)))
