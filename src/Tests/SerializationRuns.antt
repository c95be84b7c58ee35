-- ===== src/Tests/SerializationRuns.antt =====
-- Two updates of one user: the second waits until the first has left the lock.
use vpn_mediator_public.Prelude.{Bool, ◌≤◌, ◌≡◌, refl, true, false, none, some, List, [], ◌∷◌}
use vpn_mediator_public.Table.{count_where}
use vpn_mediator_public.Serialization.{
  Update, initial, serialized_actor, should_bypass, actor_id, enter, arrive, lock, unlock, leave,
  Action, perform, performs, acquire_entry, release_entry,
}
use vpn_mediator_public.Serialization.Counted.{runs}
use vpn_mediator_public.Serialization.Exclusive.{handlers_exclusive}

-- An ordinary message of user 7, and a payment, which is not delayed by the user's other updates.
abbrev message_of_7 : Bool → Update
message_of_7 is_payment = record {
  has_pre_checkout_query = false;
  callback_author = none;
  message = some (record { from_user = some 7; is_successful_payment = is_payment });
  edited_message = none;
}

abbrev ordinary : Update
ordinary = message_of_7 false

abbrev payment : Update
payment = message_of_7 true

payment_bypasses : serialized_actor payment ≡ none
unfolding serialized_actor should_bypass
payment_bypasses = refl

abbrev overlap : List Action
overlap = arrive 1 ordinary ∷ arrive 2 ordinary ∷ lock 1 ∷ lock 2 ∷ arrive 3 payment ∷ []

abbrev both_leave : List Action
both_leave =
    arrive 1 ordinary
    ∷ arrive 2 ordinary
    ∷ lock 1
    ∷ unlock 1
    ∷ lock 2
    ∷ leave 1
    ∷ unlock 2
    ∷ leave 2
    ∷ []

-- The payment is in its handler beside the one ordinary message that has the lock.
one_runs :
    (count_where runs (performs 7 overlap initial).tasks ≡ 1)
    × ((performs 7 overlap initial).unlocked ≡ 3 ∷ [])
unfolding performs perform enter acquire_entry serialized_actor should_bypass actor_id
one_runs = (refl, refl)

forgotten :
    ((performs 7 both_leave initial).tasks ≡ []) × ((performs 7 both_leave initial).entry ≡ none)
unfolding performs perform enter acquire_entry release_entry serialized_actor should_bypass actor_id
forgotten = (refl, refl)

handlers_exclusive_example :
    (count_where runs (performs 7 overlap initial).tasks ≤ 1)
    × ((performs 7 overlap initial).tasks ≡ [] → (performs 7 overlap initial).entry ≡ none)
handlers_exclusive_example = handlers_exclusive 7 overlap
