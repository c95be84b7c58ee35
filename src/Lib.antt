-- ===== src/Lib.antt =====
-- The Telegram access bot of the VPN mediator: its prices, its orders and payments, its inbox of
-- Telegram updates, the lifecycle of subscriptions, and who may reach its handlers.
--
-- The program is the Python package VpnAccessBot/vpn_access_bot. A customer talks to the bot in a
-- private chat (access_boundary.py); Telegram's updates are stored before they are handled
-- (telegram/update_inbox.py); a purchase is priced from a validated catalog (product_catalog.py,
-- commerce.py), may use up a personal discount (repositories.py), and becomes an order; a provider's
-- charge is stored as evidence and reconciled with the order (repositories.py, services.py); what
-- was bought ends at a moment that expiration.py computes; and the local subscription follows the
-- entitlement that the mediator holds (entitlement_lifecycle.py).
--
-- Which file models what; a Python file is named by its path in VpnAccessBot/vpn_access_bot:
--   Clock        `to_aware_utc` of repositories.py and its copies
--   Lifecycle    entitlement_lifecycle.py; Lifecycle/Laws its theorems
--   Pricing      product_catalog.py: Options (`_parse_positive_options`, `_parse_discounts`),
--                Catalog (`ProductCatalog`), Settings (`from_settings`), Settings/Valid its theorems;
--                Service `PricingService` of commerce.py, Service/Bounds and Service/Offers theorems
--   Commerce     `CabinetStateBuilder`, `RefundPolicy`, `calculate_renewal_valid_until` of commerce.py
--   Expiration   expiration.py
--   Boundary     access_boundary.py
--   Updates      `TelegramUpdateInboxRepository` of telegram/update_inbox.py: Inbox the operations,
--                Valid the invariant of rows, Leases the claims of workers and repeated deliveries
--   Deliveries   `NotificationDeliveryRepository` of repositories.py; Deliveries/Held and
--                Deliveries/Exclusive its theorems
--   Discounts    `DiscountRedemptionRepository` and the loop of `DiscountRepository` of
--                repositories.py; Discounts/Counts and Discounts/Laws its theorems
--   Orders       Status the statuses of constants.py, Repository `OrderRepository` of
--                repositories.py, Claims the compare-and-set of statuses
--   Payments     Inbox `PaymentInboxRepository.receive` and its marks of repositories.py, Claims
--                its `claim_due` and `mark_applied_for_order`, Reconcile
--                `PurchaseService.reconcile_payment_inbox_by_id` of services.py; Evidence, Bound,
--                Safety and Frame their theorems
--   Operations   `EntitlementOperationRepository` of repositories.py: the record and its claim,
--                Marks the rest; Operations/Ownership and Operations/Single its theorems
--   Mediator     `CreateMediatedSubscriptionAsync`, `ApplyEntitlementOperationAsync` and
--                `ApplyEntitlementAsync` of MediatorStorage.cs, with Calls, in which the creation is; Log,
--                Created, Recreated, Served and Replay its theorems
--   Coordinator  `EntitlementOperationCoordinator` of operations.py: Client its requests by
--                mediator_client.py and the responses of Program.cs, Plan what it computes, Apply its
--                methods, Recovery `EntitlementRecoveryWorker`; Rules conditions on actions, Agreement,
--                Exactness, Attempts and Once its safety, Progress and Success what is undisturbed,
--                Sends and Requests its bound
--   Leases       `AccessOperationLeaseRepository` of repositories.py; Leases/Exclusive its theorem
--   Refunds      `RefundOperationRepository` and `RefundPlanRepository` of repositories.py, and the
--                refund methods of `PurchaseService` of services.py: Preview, Confirm, Complete;
--                Calls, Single and Expired their theorems
--   Outbox       `NotificationOutboxRepository` of repositories.py; Outbox/Delivery and Outbox/Batches its
--                theorems
--   Segments     `CommercialEntitlementSegmentRepository` of repositories.py: the paid time of a
--                subscription; Segments/Remaining its theorems
--   Trial        `TrialEligibilityService` of trial.py and `TrialClaimRepository` of repositories.py;
--                Trial/Agreement that they agree
--   CheckoutTokens  checkout_tokens.py; CheckoutTokens/RoundTrip its theorem
--   Secrets      support_security.py; Secrets/Closure and Secrets/Reported its theorems
--   Serialization  user_operation_serialization.py; Serialization/Counted its invariant,
--                Serialization/Exclusive its theorem
--   Table        the SQL statements that the repositories send, as functions on lists of rows
--   Prelude      shared names; Tests runs, and the theorems at concrete inputs
--
-- How the state is read. A database table is a list of rows, SELECT, UPDATE and INSERT are the
-- functions of Table, and a row count is the number of rows that pass the WHERE. A transaction that
-- raises is not committed, so an operation that may raise returns a result, and its caller keeps the
-- old tables. A loaded row that the code mutates is a record; flushing it is an UPDATE of its id. A
-- call that reads the clock takes the moment as an argument. An interleaving of workers is a
-- sequence of calls, each at its own moment.
--
-- A refund is the rows of one order with the tables of leases and notifications; what the completion
-- writes to the subscription, its segments and the discount is outside this state.
--
-- The coordinator's methods are actions on a world: its row, the mediator, and the number of requests
-- sent. A timeline gives, for each request, the time, what others ask of the mediator before it, and
-- whether the request or its response is lost.
--
-- The locks of one user's calls are a state of their own, in which an action is the code between two
-- awaits, and any sequence of actions may happen; payments, pre-checkout queries and updates with no
-- actor pass the lock by.
--
-- `claim_batch` of the outbox reads rows and writes them when the session is flushed, without a
-- condition on what the table holds then. Its two halves are definitions of their own, and what is
-- shown of batches is for claims between whose halves no other session writes.
--
-- Bounds. Counts, prices and moments are natural numbers, and integers where the code tests a sign;
-- Python's integers have no width. A moment is a number of microseconds in UTC. The loops of the
-- source run over lists, so the definitions are by recursion on those lists and need no fuel;
-- that of the search for secrets recurs on the room for variants and on the pending texts.
--
-- What the code takes from elsewhere is a parameter: SHA-256 and the canonical JSON that is hashed,
-- `str.upper`, `str.strip().lower()`, the mediator's fingerprint of a request, its syntax checks
-- and its format of a guid,
-- JSON, base64 and HMAC of the checkout tokens, the URL functions and regular expressions of the
-- search for secrets, the test for white space, `int` of a text, the time zone database, the lookup
-- in the table of users, and the keys that the database gives to new rows.
-- What a theorem needs of them is a hypothesis of it: of the time zone, that the next local midnight
-- lies ahead, by at most 25 hours, and begins its date; of `upper`, that it keeps a text that it
-- returned; of JSON and base64, that reading undoes writing, and that base64 has no dot; of the
-- database, that the ids of new deliveries are fresh.
--
-- Not modelled: the handlers, keyboards and texts, the calls of Telegram and of YooKassa, the
-- schema and its migrations, logging, broadcasts, the referral and support flows, and the
-- mediator's device tokens, feeds and accounts.
pub mod Prelude
pub mod Clock
pub mod Lifecycle
pub mod Pricing
pub mod Orders
pub mod Commerce
pub mod Expiration
pub mod Boundary
pub mod Table
pub mod Updates
pub mod Deliveries
pub mod Discounts
pub mod Payments
pub mod Leases
pub mod Secrets
pub mod Segments
pub mod Trial
pub mod CheckoutTokens
pub mod Refunds
pub mod Outbox
pub mod Serialization
pub mod Operations
pub mod Mediator
pub mod Coordinator
mod Tests
