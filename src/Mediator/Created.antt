-- ===== src/Mediator/Created.antt =====
-- What the creation of a subscription does to the mediator's log and subscriptions.
use vpn_mediator_public.Prelude.{
  ℕ, ◌≡◌, ◌⊎◌, refl, sym, ap, ◌∙◌, String, Bool, true, none, some, List, [], ◌∷◌, ◌++◌, str_eq,
  eq_iff, All, arith, Bool-cases, Option-cases, inl, inr,
}
use vpn_mediator_public.Clock.{Instant}
use vpn_mediator_public.Table.{find, count_where}
use vpn_mediator_public.Table.Rows.{All-append}
use vpn_mediator_public.Table.Counts.{count-append, find-append, All-mapped}
use vpn_mediator_public.Table.Searches.{find-append_found}
use vpn_mediator_public.Mediator.{
  MediatedSubscription, LoggedOperation, Mediator, Platform, has_operation, has_guid,
  is_valid_entitlement,
}
use vpn_mediator_public.Mediator.Calls.{
  NewSubscription, has_external, lookup_id, new_subscription, creation_entry, is_insertable,
  insert_subscription, create_subscription,
}
use vpn_mediator_public.Mediator.Log.{has_result, Covered, IsValid}

abbrev pub inserted : Platform → NewSubscription → Instant → Mediator → Mediator
inserted platform c now m = record {
  subscriptions = m.subscriptions ++ new_subscription c ∷ [];
  log = m.log ++ creation_entry platform c now ∷ [];
}

-- A creation changes nothing, or inserts what the UNIQUE columns admit.
pub create_subscription-cases :
    (platform : Platform) (c : NewSubscription) (now : Instant) (m : Mediator)
    → ((create_subscription platform c now m).0 ≡ m)
      ⊎ (((create_subscription platform c now m).0 ≡ inserted platform c now m)
          × (is_insertable platform c m ≡ true))
unfolding create_subscription insert_subscription
create_subscription-cases platform c now m =
    elim (Bool-cases (is_valid_entitlement c.entitlement)) [
      | inr bad ↦ inl (ground (arith, bad))
      | inl good ↦
          elim (Option-cases
            (find (has_external (lookup_id platform c.external_request_id)) m.subscriptions)) [
              | inr (s, existing) ↦ inl (rw (good, existing) refl)
              | inl new ↦ elim (Bool-cases (is_insertable platform c m)) [
                | inl free ↦ inr (rw (good, new) (rw free refl), free)
                | inr taken ↦ inl (rw (good, new) (rw taken refl))
              ]
            ]
    ]

find_of_no_rows : {A : Type 0} (p : A → Bool) (t : List A) → count_where p t ≡ 0 → find p t ≡ none
find_of_no_rows p [] h = refl
find_of_no_rows p (r ∷ t) h = ground (arith, h, find_of_no_rows p t)

-- No operation in a covered log is of an unknown subscription.
count_unknown :
    (ss : List MediatedSubscription) (log : List LoggedOperation) (guid : String) (v : ℕ)
    → All (Covered ss) log
    → find (has_guid guid) ss ≡ none
    → count_where (has_result guid v) log ≡ 0
count_unknown ss [] guid v a h = refl
count_unknown ss (l ∷ log) guid v a h = elim (Bool-cases (str_eq l.public_guid guid)) [
  | inr other ↦ ground (arith, other, count_unknown ss log guid v a.1 h)
  | inl same ↦
      let (s, found, le) = a.0 in
      let e : l.public_guid ≡ guid = ground (arith, same, eq_iff l.public_guid guid) in
      let clash : some s ≡ none = sym found ∙ ap (λ g. find (has_guid g) ss) e ∙ h in
      absurd (ground (arith, clash))
]

inserted-IsValid :
    (platform : Platform) (c : NewSubscription) (now : Instant) (m : Mediator)
    → is_insertable platform c m ≡ true
    → IsValid m
    → IsValid (inserted platform c now m)
inserted-IsValid platform c now m free v =
    let entry = creation_entry platform c now in
    let s = new_subscription c in
    let no_guid : count_where (has_guid c.public_guid) m.subscriptions ≡ 0 = ground (arith, free) in
    let no_entry : count_where (has_operation (platform.creation_id c.public_guid)) m.log ≡ 0 =
      ground (arith, free) in
    let unknown = find_of_no_rows (has_guid c.public_guid) m.subscriptions no_guid in
    record {
      unique = λ i. elim (Bool-cases (str_eq (platform.creation_id c.public_guid) i)) [
        | inl same ↦
            let e : platform.creation_id c.public_guid ≡ i =
              ground (arith, same, eq_iff (platform.creation_id c.public_guid) i) in
            let none_yet : count_where (has_operation i) m.log ≡ 0 = rw e at no_entry in
            ground (arith, count-append (has_operation i) m.log entry, none_yet)
        | inr other ↦ ground (arith, count-append (has_operation i) m.log entry, v.unique i, other)
      ];
      versions = λ guid n. elim (Bool-cases (str_eq c.public_guid guid)) [
        | inl same ↦
            let e : c.public_guid ≡ guid = ground (arith, same, eq_iff c.public_guid guid) in
            let none_yet = count_unknown m.subscriptions m.log guid n v.covered (rw e at unknown) in
            ground (arith, count-append (has_result guid n) m.log entry, none_yet)
        | inr other ↦
            ground (arith, count-append (has_result guid n) m.log entry, v.versions guid n, other)
      ];
      covered =
          All-append (Covered (m.subscriptions ++ s ∷ [])) m.log (entry ∷ [])
            (All-mapped (Covered m.subscriptions) (Covered (m.subscriptions ++ s ∷ []))
              (λ l (old, found, le). (
                old,
                find-append_found (has_guid l.public_guid) m.subscriptions (s ∷ []) old found,
                le,
              ))
              m.log v.covered)
            (
              (
                s,
                find-append (has_guid c.public_guid) m.subscriptions s unknown
                    (ground (arith, eq_iff c.public_guid c.public_guid)),
                omega arith,
              ),
              tt,
            );
    }

pub create_subscription-IsValid :
    (platform : Platform) (c : NewSubscription) (now : Instant) (m : Mediator)
    → IsValid m
    → IsValid (create_subscription platform c now m).0
create_subscription-IsValid platform c now m v = elim (create_subscription-cases platform c now m) [
  | inl kept ↦ rw kept v
  | inr (made, free) ↦ rw made (inserted-IsValid platform c now m free v)
]

-- An entry of the log stays.
pub create_subscription-find :
    (platform : Platform) (c : NewSubscription) (now : Instant) (m : Mediator) (i : String)
    (l : LoggedOperation)
    → find (has_operation i) m.log ≡ some l
    → find (has_operation i) (create_subscription platform c now m).0.log ≡ some l
create_subscription-find platform c now m i l found =
    elim (create_subscription-cases platform c now m) [
      | inl kept ↦ rw kept found
      | inr (made, free) ↦
          rw made
            (find-append_found (has_operation i) m.log (creation_entry platform c now ∷ []) l found)
    ]
