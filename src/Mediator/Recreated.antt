-- ===== src/Mediator/Recreated.antt =====
-- A creation that is asked for again, because its answer was lost.
use vpn_mediator_public.Prelude.{
  ◌≡◌, refl, sym, ap, ◌∙◌, String, Bool, true, false, ◌&&◌, none, some, List, [], ◌∷◌, ◌++◌, eq_iff,
  arith, Bool-cases, Option-cases, inl, inr,
}
use vpn_mediator_public.Clock.{Instant}
use vpn_mediator_public.Table.{find, update_where}
use vpn_mediator_public.Table.Counts.{find-append}
use vpn_mediator_public.Table.Searches.{find-update_any, find-append_found}
use vpn_mediator_public.Mediator.{
  MediatedSubscription, Entitlement, Mediator, Platform, has_guid, put_entitlement, requested,
  is_update, is_valid_entitlement, apply_operation, apply_entitlement,
}
use vpn_mediator_public.Mediator.Calls.{
  NewSubscription, has_external, lookup_id, new_subscription, is_insertable, insert_subscription,
  create_subscription, MediatorCall, create_call, operation_call, entitlement_call, tokens_call,
  put_tokens, serve, serve_all,
}
use vpn_mediator_public.Mediator.Log.{version_of, apply_operation-cases}
use vpn_mediator_public.Mediator.Created.{create_subscription-cases, inserted}

-- The external id names a subscription with the guid.
pub record IsNamed (i g : String) (m : Mediator) : Type 0 where
  pub row : MediatedSubscription
  pub found : find (has_external (some i)) m.subscriptions ≡ some row
  pub guid : row.public_guid ≡ g

update-IsNamed :
    (i g : String) (p : MediatedSubscription → Bool)
    (f : MediatedSubscription → MediatedSubscription) (m after : Mediator)
    → ((s : MediatedSubscription) → (f s).external_request_id ≡ s.external_request_id)
    → ((s : MediatedSubscription) → (f s).public_guid ≡ s.public_guid)
    → after.subscriptions ≡ update_where p f m.subscriptions
    → IsNamed i g m
    → IsNamed i g after
update-IsNamed i g p f m after ext guids e h =
    let all =
      find-update_any (has_external (some i)) p f m.subscriptions (λ s. ground (arith, ext s)) in
    let found = h.found in
    let guid = h.guid in
    let kept = guids h.row in
    let at_after : find (has_external (some i)) after.subscriptions
        ≡ find (has_external (some i)) (update_where p f m.subscriptions) =
      ap (λ t. find (has_external (some i)) t) e in
    elim (Bool-cases (p h.row)) [
      | inl took ↦ record {
        row = f h.row;
        found = at_after ∙ ground (arith, all, found, took);
        guid = kept ∙ guid;
      }
      | inr left ↦ record {
        row = h.row;
        found = at_after ∙ ground (arith, all, found, left);
        guid = guid;
      }
    ]

create-IsNamed :
    (platform : Platform) (c : NewSubscription) (now : Instant) (i g : String) (m : Mediator)
    → IsNamed i g m
    → IsNamed i g (create_subscription platform c now m).0
create-IsNamed platform c now i g m h = elim (create_subscription-cases platform c now m) [
  | inl kept ↦ rw kept h
  | inr (made, free) ↦ rw made (record {
    row = h.row;
    found =
        find-append_found (has_external (some i)) m.subscriptions (new_subscription c ∷ []) h.row
          h.found;
    guid = h.guid;
  })
]

apply_entitlement-IsNamed :
    (guid : String) (e : Entitlement) (i g : String) (m : Mediator)
    → IsNamed i g m
    → IsNamed i g (apply_entitlement guid e m)
unfolding apply_entitlement
apply_entitlement-IsNamed guid e i g m h =
    elim (Option-cases (find (has_guid guid) m.subscriptions)) [
      | inl missing ↦
          let kept : apply_entitlement guid e m ≡ m = ground (arith, missing) in rw kept h
      | inr (s, found) ↦ elim (Bool-cases (is_valid_entitlement e && is_update e s)) [
        | inr refused ↦
            let kept : apply_entitlement guid e m ≡ m = ground (arith, refused, found) in rw kept h
        | inl admitted ↦
            update-IsNamed i g (has_guid guid) (put_entitlement e) m (apply_entitlement guid e m)
              (λ x. refl) (λ x. refl) (ground (arith, admitted, found)) h
      ]
    ]

serve-IsNamed :
    (platform : Platform) (c : MediatorCall) (now : Instant) (i g : String) (m : Mediator)
    → IsNamed i g m
    → IsNamed i g (serve platform c now m)
unfolding serve
serve-IsNamed platform (create_call c) now i g m h = create-IsNamed platform c now i g m h
serve-IsNamed platform (operation_call guid r) now i g m h =
    elim (apply_operation-cases platform guid r now m) [
      | inl kept ↦ rw kept.state h
      | inr c ↦
          update-IsNamed i g (has_guid c.target.public_guid)
            (put_entitlement (requested r (version_of c.target))) m
            (apply_operation platform guid r now m).0 (λ x. refl) (λ x. refl)
            (ap (λ (w : Mediator). w.subscriptions) c.state) h
    ]
serve-IsNamed platform (entitlement_call guid e) now i g m h =
    apply_entitlement-IsNamed guid e i g m h
serve-IsNamed platform (tokens_call guid active) now i g m h =
    update-IsNamed i g (has_guid guid) (put_tokens active) m
      (serve platform (tokens_call guid active) now m) (λ x. refl) (λ x. refl) refl h

serve_all-IsNamed :
    (platform : Platform) (cs : List (MediatorCall × Instant)) (i g : String) (m : Mediator)
    → IsNamed i g m
    → IsNamed i g (serve_all platform cs m)
unfolding serve_all
serve_all-IsNamed platform [] i g m h = h
serve_all-IsNamed platform ((c, now) ∷ cs) i g m h =
    serve_all-IsNamed platform cs i g (serve platform c now m)
      (serve-IsNamed platform c now i g m h)

existing_kept :
    (platform : Platform) (c : NewSubscription) (now : Instant) (i : String) (m : Mediator)
    (s : MediatedSubscription)
    → is_valid_entitlement c.entitlement ≡ true
    → lookup_id platform c.external_request_id ≡ some i
    → find (has_external (some i)) m.subscriptions ≡ some s
    → create_subscription platform c now m ≡ (m, some (s.public_guid, true))
unfolding create_subscription
existing_kept platform c now i m s good look found =
    let looked : find (has_external (lookup_id platform c.external_request_id)) m.subscriptions
        ≡ some s =
      ap (λ x. find (has_external x) m.subscriptions) look ∙ found in
    rw (good, looked) refl

created-IsNamed :
    (platform : Platform) (c : NewSubscription) (now : Instant) (i g : String) (old : Bool)
    (m : Mediator)
    → c.external_request_id ≡ some i
    → platform.is_blank i ≡ false
    → (create_subscription platform c now m).1 ≡ some (g, old)
    → IsNamed i g (create_subscription platform c now m).0
unfolding create_subscription insert_subscription
created-IsNamed platform c now i g old m ext solid got =
    let look : lookup_id platform c.external_request_id ≡ some i = rw ext (rw solid refl) in
    elim (Bool-cases (is_valid_entitlement c.entitlement)) [
      | inr bad ↦ absurd (ground (arith, bad, got))
      | inl good ↦ elim (Option-cases (find (has_external (some i)) m.subscriptions)) [
        | inr (s, found) ↦
            let e : create_subscription platform c now m ≡ (m, some (s.public_guid, true)) =
              existing_kept platform c now i m s good look found in
            let same : some (s.public_guid, true) ≡ some (g, old) = sym (ap (λ r. r.1) e) ∙ got in
            rw e (record { row = s; found = found; guid = ground (arith, same) })
        | inl new ↦
            let looked : find (has_external (lookup_id platform c.external_request_id))
                  m.subscriptions
                ≡ none =
              ap (λ x. find (has_external x) m.subscriptions) look ∙ new in
            elim (Bool-cases (is_insertable platform c m)) [
              | inr taken ↦ absurd (
                  let e : create_subscription platform c now m ≡ (m, none) =
                    rw (good, looked) (rw taken refl) in
                  let clash : none ≡ some (g, old) = sym (ap (λ r. r.1) e) ∙ got in
                  ground (arith, clash))
              | inl free ↦
                  let e : create_subscription platform c now m
                      ≡ (inserted platform c now m, some (c.public_guid, false)) =
                    rw (good, looked) (rw free refl) in
                  let made : (create_subscription platform c now m).0.subscriptions
                      ≡ m.subscriptions ++ new_subscription c ∷ [] =
                    ap (λ r. r.0.subscriptions) e in
                  let same : some (c.public_guid, false) ≡ some (g, old) =
                    sym (ap (λ r. r.1) e) ∙ got in
                  record {
                    row = new_subscription c;
                    found =
                        ap (λ t. find (has_external (some i)) t) made
                        ∙ find-append (has_external (some i)) m.subscriptions (new_subscription c)
                            new (ground (arith, ext, eq_iff i i));
                    guid = ground (arith, same);
                  }
            ]
      ]
    ]

-- A creation that is asked for again with the same external id, which is not blank, creates nothing,
-- whatever the entitlement and guid of the second request, if it is valid, and whatever is asked of the
-- mediator in between: it is answered with the guid of the first one.
pub create_subscription_twice :
    (platform : Platform) (c again : NewSubscription) (now later : Instant)
    (cs : List (MediatorCall × Instant)) (i g : String) (old : Bool) (m : Mediator)
    → c.external_request_id ≡ some i
    → again.external_request_id ≡ some i
    → platform.is_blank i ≡ false
    → is_valid_entitlement again.entitlement ≡ true
    → (create_subscription platform c now m).1 ≡ some (g, old)
    → let after = serve_all platform cs (create_subscription platform c now m).0 in
      create_subscription platform again later after ≡ (after, some (g, true))
create_subscription_twice platform c again now later cs i g old m ext ext_again solid valid got =
    let after = serve_all platform cs (create_subscription platform c now m).0 in
    let named =
      serve_all-IsNamed platform cs i g (create_subscription platform c now m).0
        (created-IsNamed platform c now i g old m ext solid got) in
    let look : lookup_id platform again.external_request_id ≡ some i =
      rw ext_again (rw solid refl) in
    existing_kept platform again later i after named.row valid look named.found
    ∙ ap (λ (s : String). (after, some (s, true))) named.guid
