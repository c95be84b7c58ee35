-- ===== src/Boundary.antt =====
-- access_boundary.py: which Telegram updates reach a handler. Customers are served in private chats
-- only; a group admits replies of support agents and the commands of administrators.
pub mod Laws
use Prim.Native.Char.{code}
use Prim.Native.String
use vpn_mediator_public.Prelude.{
  ℕ, String, Bool, true, false, ◌&&◌, ◌||◌, not, Option, none, some, List, [], ◌∷◌, ◌==◌,
  if◌then◌else◌,
}
use vpn_mediator_public.Prelude.Int.{ℤ, pos_part, neg_part}
use vpn_mediator_public.Pricing.Options.{Text, same_list, split_once}

-- The code points of a text.
abbrev pub codes : String → Text
codes String.[] = []
codes (String.◌∷◌ c s) = code c ∷ codes s

abbrev pub one_of : Text → List String → Bool
one_of t [] = false
one_of t (s ∷ ss) = same_list t (codes s) || one_of t ss

-- `command in commands`, where the command may be `None`.
abbrev pub command_in : Option Text → List String → Bool
command_in none commands = false
command_in (some t) commands = one_of t commands

abbrev pub admin_commands : List String
admin_commands =
    "admin" ∷ "broadcast" ∷ "broadcast_confirm" ∷ "broadcast_regex" ∷ "pending_orders"
    ∷ "failed_orders" ∷ "order" ∷ "approve_order" ∷ "retry_order" ∷ "refund_order" ∷ "sync_expired"
    ∷ "reconcile_status" ∷ "reconcile_adopt_remote" ∷ "reconcile_adopt_expired"
    ∷ "reconcile_adopt_disabled" ∷ "reconcile_restore_local" ∷ "test_buy" ∷ "referral_stats"
    ∷ "discount_set" ∷ "discount_show" ∷ "discount_list" ∷ "discount_remove" ∷ "support_close"
    ∷ "workers" ∷ "commerce_status" ∷ "commerce_stop" ∷ "commerce_start" ∷ "capacity_status"
    ∷ "campaign_create" ∷ "campaign_status" ∷ "confirm_refund" ∷ "product_funnel" ∷ []

abbrev pub private_admin_commands : List String
private_admin_commands = "broadcast" ∷ "broadcast_confirm" ∷ "broadcast_regex" ∷ []

-- The fields of aiogram's objects that the boundary reads. The text of a message is `None` or its
-- code points.
pub record Message : Type 0 where
  pub is_private : Bool
  pub chat_id : ℤ
  pub from_user : Option ℕ
  pub is_reply : Bool
  pub text : Option Text
  pub caption : Option Text

-- A callback's message may be missing; of the message only the kind of chat is read.
pub record Callback : Type 0 where
  pub message_is_private : Option Bool

pub record Update : Type 0 where
  pub has_pre_checkout_query : Bool
  pub callback_query : Option Callback
  pub message : Option Message
  pub edited_message : Option Message

pub record Settings : Type 0 where
  pub support_chat_id : Option ℤ
  pub support_agent_telegram_ids : List ℕ
  pub admin_telegram_ids : List ℕ

pub record BoundaryDecision : Type 0 where
  pub allowed : Bool
  pub notify_user : Bool

abbrev pub has_id : ℕ → List ℕ → Bool
has_id n [] = false
has_id n (x ∷ xs) = (n == x) || has_id n xs

abbrev pub same_chat : Option ℤ → ℤ → Bool
same_chat none chat = false
same_chat (some support) chat =
    (pos_part chat == pos_part support) && (neg_part chat == neg_part support)

-- `a or b` on optional texts: an empty text is false.
abbrev pub text_or : Option Text → Option Text → Option Text
text_or (some (c ∷ t)) other = some (c ∷ t)
text_or _ other = other

abbrev pub or_else {ℓ} : {A : Type ℓ} → Option A → Option A → Option A
or_else none b = b
or_else (some a) b = some a

-- `text or None`
abbrev pub non_empty : Text → Option Text
non_empty [] = none
non_empty (c ∷ t) = some (c ∷ t)

abbrev pub starts_with_slash : Text → Bool
starts_with_slash [] = false
starts_with_slash (c ∷ t) = c == b'/'

abbrev pub tail_of : Text → Text
tail_of [] = []
tail_of (c ∷ t) = t

-- `text.split("@", maxsplit=1)[0]`
abbrev pub before_at : Text → Text
before_at t = elim (split_once b'@' t) [ none ↦ t | some (name, bot) ↦ name ]

-- The reply of a support agent in the support chat.
unfoldable pub is_support_reply : Settings → Message → ℕ → Bool
is_support_reply s m actor =
    same_chat s.support_chat_id m.chat_id && has_id actor s.support_agent_telegram_ids && m.is_reply

abbrev refuse : Bool → BoundaryDecision
refuse notify = record { allowed = false; notify_user = notify }

abbrev allow : BoundaryDecision
allow = record { allowed = true; notify_user = false }

-- `command is not None`
abbrev is_command : Option Text → Bool
is_command none = false
is_command (some t) = true

unfoldable pub evaluate_callback : Callback → BoundaryDecision
evaluate_callback c = elim c.message_is_private [
  | none ↦ refuse true
  | some private_chat ↦ if private_chat then allow else refuse true
]

-- What the middleware does with an event: it calls the handler, or answers the callback or the
-- message that a private chat is required, or stays silent.
pub data Effect : Type 0 where
  handled alerted answered silent : Effect

-- `_notify_private_chat_required`
unfoldable pub notify_private_chat_required : Update → Bool → Effect
notify_private_chat_required u notify_user =
    if not notify_user then silent else elim u.callback_query [
      | some callback ↦ alerted
      | none ↦ elim (or_else u.message u.edited_message) [ none ↦ silent | some m ↦ answered ]
    ]

-- `normalize` stands for Python's `.strip().lower()`, and `is_space` for the test by which
-- `str.split` finds words.
module _ (is_space : ℕ → Bool) (normalize : Text → Text) where
  -- `text.split(maxsplit=1)[0]` of a text that begins with no space.
  unfoldable pub first_token : Text → Text
  first_token [] = []
  first_token (c ∷ t) = let rest = first_token t in if is_space c then [] else c ∷ rest

  -- `_command_name`
  unfoldable pub command_name : Message → Option Text
  unfolding first_token
  command_name m = elim (text_or m.text m.caption) [
    | none ↦ none
    | some text ↦
        if starts_with_slash text
        then non_empty (normalize (before_at (tail_of (first_token text))))
        else none
  ]

  -- The decision on a message of a known author outside a private chat.
  unfoldable pub evaluate_group_message : Settings → Message → ℕ → BoundaryDecision
  evaluate_group_message s m actor =
      if is_support_reply s m actor
      then allow
      else if command_in (command_name m) private_admin_commands
      then refuse true
      else if has_id actor s.admin_telegram_ids && command_in (command_name m) admin_commands
      then allow
      else refuse (is_command (command_name m))

  unfoldable pub evaluate_message : Settings → Message → BoundaryDecision
  evaluate_message s m =
      if m.is_private
      then allow
      else elim m.from_user [ none ↦ refuse false | some actor ↦ evaluate_group_message s m actor ]

  unfoldable pub evaluate_update_boundary : Update → Settings → BoundaryDecision
  evaluate_update_boundary u s = if u.has_pre_checkout_query then allow else elim u.callback_query [
    | some callback ↦ evaluate_callback callback
    | none ↦ elim (or_else u.message u.edited_message) [
      | none ↦ allow
      | some m ↦ evaluate_message s m
    ]
  ]

  -- `PrivateCustomerBoundaryMiddleware.__call__`; an event that is no `Update` is `none`.
  unfoldable pub call_middleware : Settings → Option Update → Effect
  unfolding notify_private_chat_required
  call_middleware s none = handled
  call_middleware s (some u) =
      let decision = evaluate_update_boundary u s in
      if decision.allowed then handled else notify_private_chat_required u decision.notify_user
