-- ===== src/Boundary/Laws.antt =====
-- Who is served where.
use vpn_mediator_public.Prelude.{ℕ, ◌≡◌, Bool, true, false, none, []}
use vpn_mediator_public.Pricing.Options.{Text}
use vpn_mediator_public.Boundary.{
  Message, Settings, Effect, handled, has_id, same_chat, command_in, admin_commands,
  private_admin_commands, command_name,
}

abbrev pub is_handled : Effect → Bool
is_handled handled = true
is_handled _ = false

-- A bot without staff: no support chat, no agents, no administrators.
abbrev pub no_staff : Settings
no_staff = record {
  support_chat_id = none;
  support_agent_telegram_ids = [];
  admin_telegram_ids = [];
}

-- The sender is an agent, and the message is a reply in the support chat.
pub record IsAgentReply (s : Settings) (m : Message) (sender : ℕ) : Type 0 where
  pub agent : has_id sender s.support_agent_telegram_ids ≡ true
  pub chat : same_chat s.support_chat_id m.chat_id ≡ true
  pub reply : m.is_reply ≡ true

module _ (is_space : ℕ → Bool) (normalize : Text → Text) where
  -- The sender is an administrator, and the message is one of their commands that need no private
  -- chat.
  pub record IsAdminCommand (s : Settings) (m : Message) (sender : ℕ) : Type 0 where
    pub admin : has_id sender s.admin_telegram_ids ≡ true
    pub command : command_in (command_name is_space normalize m) admin_commands ≡ true
    pub public : command_in (command_name is_space normalize m) private_admin_commands ≡ false
