-- ===== src/Mediator/Served.antt =====
-- The invariant of the mediator over all that is asked of it.
use vpn_mediator_public.Prelude.{
  ◌≤◌, ◌≡◌, refl, String, ◌&&◌, some, List, [], ◌∷◌, arith, Bool-cases, Option-cases, inl, inr,
}
use vpn_mediator_public.Clock.{Instant}
use vpn_mediator_public.Table.{find, update_where}
use vpn_mediator_public.Table.Counts.{All-mapped}
use vpn_mediator_public.Mediator.{
  Entitlement, MediatedSubscription, Mediator, Platform, has_guid, put_entitlement,
  is_valid_entitlement, is_update, apply_entitlement,
}
use vpn_mediator_public.Mediator.Calls.{
  MediatorCall, create_call, operation_call, entitlement_call, tokens_call, put_tokens, serve,
  serve_all,
}
use vpn_mediator_public.Mediator.Created.{create_subscription-IsValid}
use vpn_mediator_public.Mediator.Log.{
  version_of, Covered, IsValid, Covered-update, apply_operation-IsValid,
}

-- A change of one subscription that lowers no version.
changed-IsValid :
    (g : String) (f : MediatedSubscription → MediatedSubscription) (m : Mediator)
    → ((s : MediatedSubscription) → (f s).public_guid ≡ s.public_guid)
    → ((s : MediatedSubscription)
        → find (has_guid g) m.subscriptions ≡ some s
        → version_of s ≤ version_of (f s))
    → IsValid m
    → IsValid (record m { subscriptions = update_where (has_guid g) f m.subscriptions })
changed-IsValid g f m keeps grows v = record {
  unique = v.unique;
  versions = v.versions;
  covered =
      All-mapped (Covered m.subscriptions) (Covered (update_where (has_guid g) f m.subscriptions))
        (Covered-update g f m.subscriptions keeps grows) m.log v.covered;
}

apply_entitlement-IsValid :
    (guid : String) (e : Entitlement) (m : Mediator)
    → IsValid m
    → IsValid (apply_entitlement guid e m)
unfolding apply_entitlement
apply_entitlement-IsValid guid e m v = elim (Option-cases (find (has_guid guid) m.subscriptions)) [
  | inl missing ↦ let kept : apply_entitlement guid e m ≡ m = ground (arith, missing) in rw kept v
  | inr (s, found) ↦ elim (Bool-cases (is_valid_entitlement e && is_update e s)) [
    | inr refused ↦
        let kept : apply_entitlement guid e m ≡ m = ground (arith, refused, found) in rw kept v
    | inl admitted ↦
        let put : apply_entitlement guid e m ≡ record m {
          subscriptions = update_where (has_guid guid) (put_entitlement e) m.subscriptions;
        } =
          ground (arith, admitted, found) in
        rw put (
          changed-IsValid guid (put_entitlement e) m (λ x. refl)
            (λ x h. ground (arith, h, found, admitted)) v)
  ]
]

serve-IsValid :
    (platform : Platform) (c : MediatorCall) (now : Instant) (m : Mediator)
    → IsValid m
    → IsValid (serve platform c now m)
unfolding serve
serve-IsValid platform (create_call c) now m v = create_subscription-IsValid platform c now m v
serve-IsValid platform (operation_call guid r) now m v =
    apply_operation-IsValid platform guid r now m v
serve-IsValid platform (entitlement_call guid e) now m v = apply_entitlement-IsValid guid e m v
serve-IsValid platform (tokens_call guid active) now m v =
    changed-IsValid guid (put_tokens active) m (λ x. refl) (λ x h. omega arith) v

-- Whatever subscriptions are created, operations applied, entitlements updated and device tokens
-- counted, in any order: an operation id stands in the mediator's log at most once, each version of a
-- subscription is the result of at most one operation, and every operation in the log is of a
-- subscription that exists, whose entitlement has no version below the one that it made.
pub serve_all-IsValid :
    (platform : Platform) (cs : List (MediatorCall × Instant)) (m : Mediator)
    → IsValid m
    → IsValid (serve_all platform cs m)
unfolding serve_all
serve_all-IsValid platform [] m v = v
serve_all-IsValid platform ((c, now) ∷ cs) m v =
    serve_all-IsValid platform cs (serve platform c now m) (serve-IsValid platform c now m v)
