-- ===== src/Coordinator/Rules.antt =====
-- Conditions on an action: what holds of what it returns, and what holds if it raises.
use vpn_mediator_public.Prelude.{◌≡◌, refl, Result, ok, err}
use vpn_mediator_public.Coordinator.{Code, World, Action, pure, raise, lift, try_, continue, ◌>>=◌}

module _ {A : Type 0} where
  abbrev pub Postcondition :
      (A → World → Type 0) → (World → Type 0) → Result Code A × World → Type 0
  Postcondition Returned Raised (ok a, w) = Returned a w
  Postcondition Returned Raised (err code, w) = Raised w

  pub record Ensures (Before : World → Type 0) (m : Action A) (Returned : A → World → Type 0)
      (Raised : World → Type 0) : Type 0 where
    pub at : (w : World) → Before w → Postcondition Returned Raised (m w)

module _ {A : Type 0} {Before : World → Type 0} {Returned : A → World → Type 0}
    {Raised : World → Type 0} where
  pub Ensures-pure :
      (a : A) → ((w : World) → Before w → Returned a w) → Ensures Before (pure a) Returned Raised
  Ensures-pure a h = record { at = h }

  pub Ensures-raise :
      (code : Code)
      → ((w : World) → Before w → Raised w)
      → Ensures Before (raise {A = A} code) Returned Raised
  Ensures-raise code h = record { at = h }

  pub Ensures-lift :
      (r : Result Code A)
      → ((a : A) → r ≡ ok a → (w : World) → Before w → Returned a w)
      → ((w : World) → Before w → Raised w)
      → Ensures Before (lift r) Returned Raised
  Ensures-lift (ok a) h k = record { at = h a refl }
  Ensures-lift (err code) h k = record { at = k }

  -- A caught exception is the value `err`, after which what is ensured of a raise holds.
  pub Ensures-try :
      (m : Action A)
      → Ensures Before m Returned Raised
      → Ensures Before (try_ m) (λ r w. Postcondition Returned Raised (r, w)) Raised
  Ensures-try m h = record { at = λ w b. h.at w b }

  pub Ensures-weaken :
      {Stronger : World → Type 0} {Wider : A → World → Type 0} (m : Action A)
      → ((w : World) → Stronger w → Before w)
      → ((a : A) (w : World) → Returned a w → Wider a w)
      → Ensures Before m Returned Raised
      → Ensures Stronger m Wider Raised
  Ensures-weaken {Stronger} {Wider} m before after h = record {
    at = λ w b. weaken-Postcondition (m w) (h.at w (before w b));
  }
    where
      weaken-Postcondition :
          (r : Result Code A × World)
          → Postcondition Returned Raised r
          → Postcondition Wider Raised r
      weaken-Postcondition (ok a, w) b = after a w b
      weaken-Postcondition (err code, w) b = b

module _ {A B : Type 0} {Middle : A → World → Type 0} {Returned : B → World → Type 0}
    {Raised : World → Type 0} where
  continue-Postcondition :
      (f : A → Action B) (r : Result Code A × World)
      → ((a : A) → Ensures (Middle a) (f a) Returned Raised)
      → Postcondition Middle Raised r
      → Postcondition Returned Raised (continue r.0 f r.1)
  continue-Postcondition f (ok a, w) h b = (h a).at w b
  continue-Postcondition f (err code, w) h b = b

  pub Ensures-bind :
      {Before : World → Type 0} (m : Action A) (f : A → Action B)
      → Ensures Before m Middle Raised
      → ((a : A) → Ensures (Middle a) (f a) Returned Raised)
      → Ensures Before (m >>= f) Returned Raised
  unfolding ◌>>=◌
  Ensures-bind {Before} m f hm hf = record {
    at = λ w b. continue-Postcondition f (m w) hf (hm.at w b);
  }
