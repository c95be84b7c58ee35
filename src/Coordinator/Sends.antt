-- ===== src/Coordinator/Sends.antt =====
-- How many requests an action sends, by rules for each way to build one.
use vpn_mediator_public.Prelude.{ℕ, ◌+◌, ◌≤◌, Result, ok, err, arith}
use vpn_mediator_public.Clock.{Instant}
use vpn_mediator_public.Mediator.{Mediator, Platform}
use vpn_mediator_public.Operations.{Operation}
use vpn_mediator_public.Coordinator.{
  Code, World, Moment, Fault, delivered, request_lost, response_lost, Action, fate, remote, mark,
  continue, ◌>>=◌, lift, try_,
}

-- The action sends at most `k` requests.
pub record Sends {A : Type 0} (k : ℕ) (m : Action A) : Type 0 where
  pub at : (w : World) → (m w).1.requests ≤ w.requests + k

module _ {A B : Type 0} where
  continue-Sends :
      (f : A → Action B) (n j k : ℕ) (r : Result Code A × World)
      → r.1.requests ≤ n + j
      → ((a : A) → Sends k (f a))
      → (continue r.0 f r.1).1.requests ≤ n + (j + k)
  continue-Sends f n j k (ok a, w) h hf = omega (arith, h, (hf a).at w)
  continue-Sends f n j k (err code, w) h hf = omega (arith, h)

  pub Sends-bind :
      (j k : ℕ) (m : Action A) (f : A → Action B)
      → Sends j m
      → ((a : A) → Sends k (f a))
      → Sends (j + k) (m >>= f)
  unfolding ◌>>=◌
  Sends-bind j k m f hm hf = record { at = λ w. continue-Sends f w.requests j k (m w) (hm.at w) hf }

pub Sends-more : {A : Type 0} (j k : ℕ) (m : Action A) → j ≤ k → Sends j m → Sends k m
Sends-more j k m le h = record { at = λ w. omega (arith, le, h.at w) }

pub Sends-pure : {A : Type 0} (r : Result Code A) (k : ℕ) → Sends k (lift r)
Sends-pure r k = record { at = λ w. omega arith }

fate-Sends :
    {A : Type 0} (fault : Fault) (w : World) (m : Mediator) (served : Mediator × A)
    → (fate fault w m served).1.requests ≤ w.requests + 1
fate-Sends delivered w m served = omega arith
fate-Sends request_lost w m served = omega arith
fate-Sends response_lost w m served = omega arith

module _ (platform : Platform) (timeline : ℕ → Moment) where
  pub Sends-remote :
      {A : Type 0} (f : Instant → Mediator → Mediator × A) → Sends 1 (remote platform timeline f)
  unfolding remote
  Sends-remote f = record { at = λ w. fate-Sends (timeline w.requests).fault w _ _ }

  pub Sends-mark : (f : Instant → Operation → Operation) (k : ℕ) → Sends k (mark timeline f)
  unfolding mark
  Sends-mark f k = record { at = λ w. omega arith }

pub Sends-try : {A : Type 0} (k : ℕ) (m : Action A) → Sends k m → Sends k (try_ m)
Sends-try k m h = record { at = λ w. h.at w }
