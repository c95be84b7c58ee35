-- ===== src/Coordinator.antt =====
-- `EntitlementOperationCoordinator` of operations.py with the calls of mediator_client.py that it
-- makes: one row of the operations table, the mediator at the other end of the network, and
-- anything that the network and the mediator's other clients do between two calls.
-- The coordinator commits before each request, so a rollback after a failed one undoes nothing.
-- The clock is read anew after each call of the mediator, and the row is this coordinator's alone.
pub mod Client
pub mod Plan
pub mod Apply
pub mod Rules
pub mod Agreement
pub mod Exactness
pub mod Attempts
pub mod Once
pub mod Recovery
pub mod Progress
pub mod Success
pub mod Sends
pub mod Requests
use vpn_mediator_public.Prelude.{ℕ, ◌+◌, String, Option, some, List, Result, ok, err}
use vpn_mediator_public.Clock.{Instant}
use vpn_mediator_public.Operations.{Operation}
use vpn_mediator_public.Mediator.{Mediator, Platform}
use vpn_mediator_public.Mediator.Calls.{MediatorCall, serve_all}

-- The error code of a `MediatorClientError`.
abbrev pub Code : Type 0
Code = Option String

-- The row, the mediator, and how many requests have been sent to it.
pub record World : Type 0 where
  pub operation : Operation
  pub mediator : Mediator
  pub requests : ℕ

-- A request arrives and is answered, is lost, or is served and its response is lost.
pub data Fault : Type 0 where
  delivered request_lost response_lost : Fault

-- What surrounds one request: the time, what others ask of the mediator before it, and its fate.
pub record Moment : Type 0 where
  pub now : Instant
  pub before : List (MediatorCall × Instant)
  pub fault : Fault

-- A method that may raise; what it changed before stays changed.
abbrev pub Action : Type 0 → Type 0
Action A = World → Result Code A × World

module _ {A : Type 0} where
  abbrev pub pure : A → Action A
  pure a w = (ok a, w)

  abbrev pub raise : Code → Action A
  raise code w = (err code, w)

  abbrev pub lift : Result Code A → Action A
  lift r w = (r, w)

  -- `try`: the exception becomes a value.
  abbrev pub try_ : Action A → Action (Result Code A)
  try_ m w = let (r, w') = m w in (ok r, w')

module _ {A B : Type 0} where
  abbrev pub continue : Result Code A → (A → Action B) → Action B
  continue (ok a) f w = f a w
  continue (err code) f w = (err code, w)

  infixl 10 ◌>>=◌ ◌>>◌
  unfoldable pub ◌>>=◌ : Action A → (A → Action B) → Action B
  ◌>>=◌ m f w = let (r, w') = m w in continue r f w'

  abbrev pub ◌>>◌ : Action A → Action B → Action B
  m >> n = m >>= λ _. n

module _ (timeline : ℕ → Moment) where
  -- `utc_now()` beside the next request.
  abbrev pub clock : World → Instant
  clock w = (timeline w.requests).now

  -- A change of the row, at the clock's time.
  unfoldable pub mark : (Instant → Operation → Operation) → Action (Unit {0})
  mark f w = (ok tt, record w { operation = f (clock w) w.operation })

-- What the coordinator sees of a request: the mediator `m` is as it was before, and `served` is the
-- mediator after it with its answer. `_request` turns a failure into an exception.
abbrev pub fate : {A : Type 0} → Fault → World → Mediator → Mediator × A → Result Code A × World
fate delivered w m served =
    (ok served.1, record w { mediator = served.0; requests = w.requests + 1 })
fate request_lost w m served =
    (err (some "mediator_unavailable"), record w { mediator = m; requests = w.requests + 1 })
fate response_lost w m served =
    (err (some "mediator_unavailable"), record w { mediator = served.0; requests = w.requests + 1 })

-- A request that the mediator serves by `f`, after what others ask of it.
unfoldable pub remote :
    {A : Type 0} → Platform → (ℕ → Moment) → (Instant → Mediator → Mediator × A) → Action A
remote platform timeline f w =
    let e = timeline w.requests in
    let m = serve_all platform e.before w.mediator in fate e.fault w m (f e.now m)
