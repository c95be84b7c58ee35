-- ===== src/Mediator/Calls.antt =====
-- The creation of a subscription, `CreateMediatedSubscriptionAsync` of MediatorStorage.cs, and the
-- sequences of all that is asked of the mediator.
use vpn_mediator_public.Prelude.{
  ℕ, String, Bool, true, false, ◌&&◌, not, Option, none, some, List, [], ◌∷◌, ◌++◌, ◌==◌,
  if◌then◌else◌, str_eq,
}
use vpn_mediator_public.Clock.{Instant}
use vpn_mediator_public.Table.{find, update_where, count_where}
use vpn_mediator_public.Mediator.{
  Entitlement, MediatedSubscription, OperationRequest, LoggedOperation, Mediator, Platform,
  is_valid_entitlement, has_operation, has_guid, apply_operation, apply_entitlement,
}

-- `CreateSubscriptionCommand`, where `public_guid` is the given guid or the one that is drawn.
pub record NewSubscription : Type 0 where
  pub public_guid : String
  pub external_request_id : Option String
  pub entitlement : Entitlement

abbrev pub same_external : Option String → String → Bool
same_external none i = false
same_external (some j) i = str_eq j i

abbrev pub has_external : Option String → MediatedSubscription → Bool
has_external none s = false
has_external (some i) s = same_external s.external_request_id i

-- The id by which an earlier creation is looked up.
abbrev pub lookup_id : Platform → Option String → Option String
lookup_id platform none = none
lookup_id platform (some i) = if platform.is_blank i then none else some i

abbrev pub new_subscription : NewSubscription → MediatedSubscription
new_subscription c = record {
  public_guid = c.public_guid;
  external_request_id = c.external_request_id;
  entitlement = some c.entitlement;
  active_device_tokens = 0;
}

abbrev pub creation_request : Platform → NewSubscription → OperationRequest
creation_request platform c = record {
  operation_id = platform.creation_id c.public_guid;
  operation_type = "subscription_creation";
  expected_version = 0;
  status = c.entitlement.status;
  valid_until = c.entitlement.valid_until;
  max_device_tokens = c.entitlement.max_device_tokens;
}

abbrev pub creation_entry : Platform → NewSubscription → Instant → LoggedOperation
creation_entry platform c now = record {
  operation_id = platform.creation_id c.public_guid;
  public_guid = c.public_guid;
  operation_type = "subscription_creation";
  request_fingerprint = platform.fingerprint c.public_guid (creation_request platform c);
  expected_version = 0;
  result_version = c.entitlement.version;
  result_status = c.entitlement.status;
  result_valid_until = c.entitlement.valid_until;
  result_max_device_tokens = c.entitlement.max_device_tokens;
  applied_at = now;
}

-- The columns that are UNIQUE take the new rows.
abbrev pub is_insertable : Platform → NewSubscription → Mediator → Bool
is_insertable platform c m =
    (count_where (has_guid c.public_guid) m.subscriptions == 0)
    && (count_where (has_external c.external_request_id) m.subscriptions == 0)
    && (count_where (has_operation (platform.creation_id c.public_guid)) m.log == 0)

-- The transaction that inserts the subscription, its entitlement and the entry in the log, or raises
-- and is rolled back.
unfoldable pub insert_subscription :
    Platform → NewSubscription → Instant → Mediator → Mediator × Option (String × Bool)
insert_subscription platform c now m =
    if is_insertable platform c m
    then (
      record {
        subscriptions = m.subscriptions ++ new_subscription c ∷ [];
        log = m.log ++ creation_entry platform c now ∷ [];
      },
      some (c.public_guid, false),
    )
    else (m, none)

-- `CreateMediatedSubscriptionAsync`: the guid and whether it existed already, or nothing if it raises.
unfoldable pub create_subscription :
    Platform → NewSubscription → Instant → Mediator → Mediator × Option (String × Bool)
unfolding insert_subscription
create_subscription platform c now m =
    if not (is_valid_entitlement c.entitlement)
    then (m, none)
    else elim (find (has_external (lookup_id platform c.external_request_id)) m.subscriptions) [
      | some existing ↦ (m, some (existing.public_guid, true))
      | none ↦ insert_subscription platform c now m
    ]

-- What anyone may ask of the mediator: a new subscription, an operation, an update of an entitlement,
-- or a change of the number of active device tokens.
pub data MediatorCall : Type 0 where
  create_call : (command : NewSubscription) → MediatorCall
  operation_call : (guid : String) (request : OperationRequest) → MediatorCall
  entitlement_call : (guid : String) (entitlement : Entitlement) → MediatorCall
  tokens_call : (guid : String) (active : ℕ) → MediatorCall

abbrev pub put_tokens : ℕ → MediatedSubscription → MediatedSubscription
put_tokens active s = record s { active_device_tokens = active }

unfoldable pub serve : Platform → MediatorCall → Instant → Mediator → Mediator
unfolding apply_operation apply_entitlement create_subscription
serve platform (create_call c) now m = (create_subscription platform c now m).0
serve platform (operation_call guid r) now m = (apply_operation platform guid r now m).0
serve platform (entitlement_call guid e) now m = apply_entitlement guid e m
serve platform (tokens_call guid active) now m = record m {
  subscriptions = update_where (has_guid guid) (put_tokens active) m.subscriptions;
}

unfoldable pub serve_all : Platform → List (MediatorCall × Instant) → Mediator → Mediator
serve_all platform [] m = m
serve_all platform ((c, now) ∷ cs) m = serve_all platform cs (serve platform c now m)
