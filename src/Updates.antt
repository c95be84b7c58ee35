-- ===== src/Updates.antt =====
-- telegram/update_inbox.py: the durable inbox of Telegram updates, a lease per row.
pub mod Inbox
pub mod Valid
pub mod Leases
