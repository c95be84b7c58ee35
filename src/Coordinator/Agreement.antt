-- ===== src/Coordinator/Agreement.antt =====
-- The row and the mediator agree: a result that the row records is the entry of the mediator's log.
use vpn_mediator_public.Prelude.{
  ℕ, ◌+◌, ◌≡◌, ap, ◌∙◌, String, Option, none, some, List, ◌⊎◌, inl, inr,
}
use vpn_mediator_public.Clock.{Instant}
use vpn_mediator_public.Table.{find}
use vpn_mediator_public.Operations.{Operation}
use vpn_mediator_public.Mediator.{LoggedOperation, Mediator, Platform, has_operation}
use vpn_mediator_public.Mediator.Calls.{MediatorCall, serve_all}
use vpn_mediator_public.Mediator.Log.{IsValid}
use vpn_mediator_public.Mediator.Served.{serve_all-IsValid}
use vpn_mediator_public.Mediator.Replay.{serve_all-find}
use vpn_mediator_public.Coordinator.{
  World, Moment, Fault, delivered, request_lost, response_lost, fate, remote, mark,
}
use vpn_mediator_public.Coordinator.Rules.{Postcondition, Ensures}

-- The recorded result, as far as it comes from the mediator.
pub record View : Type 0 where
  pub public_id : String
  pub version : Option ℕ
  pub status : Option String
  pub valid_until : Option Instant
  pub device_limit : Option ℕ
  pub applied_at : Option Instant

abbrev pub view : Operation → View
view o = record {
  public_id = o.public_id;
  version = o.external_result_version;
  status = o.external_result_status;
  valid_until = o.external_result_valid_until;
  device_limit = o.external_result_device_limit;
  applied_at = o.external_applied_at;
}

-- The record is the log's entry of the operation.
pub record Reflects (v : View) (log : List LoggedOperation) : Type 0 where
  pub entry : LoggedOperation
  pub found : find (has_operation v.public_id) log ≡ some entry
  pub version : v.version ≡ some entry.result_version
  pub status : v.status ≡ some entry.result_status
  pub valid_until : v.valid_until ≡ entry.result_valid_until
  pub device_limit : v.device_limit ≡ some entry.result_max_device_tokens
  pub applied_at : v.applied_at ≡ some entry.applied_at

-- The mediator's log is valid, and the row records nothing or what the log says.
pub record Agrees (i : String) (w : World) : Type 0 where
  pub valid : IsValid w.mediator
  pub named : w.operation.public_id ≡ i
  pub recorded :
      (w.operation.external_result_version ≡ none) ⊎ Reflects (view w.operation) w.mediator.log

Reflects-grow :
    (v : View) (log log' : List LoggedOperation)
    → ((l : LoggedOperation)
        → find (has_operation v.public_id) log ≡ some l
        → find (has_operation v.public_id) log' ≡ some l)
    → Reflects v log
    → Reflects v log'
Reflects-grow v log log' grows r = record {
  entry = r.entry;
  found = grows r.entry r.found;
  version = r.version;
  status = r.status;
  valid_until = r.valid_until;
  device_limit = r.device_limit;
  applied_at = r.applied_at;
}

-- A mediator that is as valid and whose log has grown.
pub record Extends (m m' : Mediator) : Type 0 where
  pub valid : IsValid m → IsValid m'
  pub grows :
      (i : String) (l : LoggedOperation)
      → find (has_operation i) m.log ≡ some l
      → find (has_operation i) m'.log ≡ some l

Agrees-extend :
    (i : String) (w : World) (m : Mediator) (n : ℕ)
    → Extends w.mediator m
    → Agrees i w
    → Agrees i (record w { mediator = m; requests = n })
Agrees-extend i w m n e a = record {
  valid = e.valid a.valid;
  named = a.named;
  recorded = elim a.recorded [
    | inl empty ↦ inl empty
    | inr r ↦
        inr
          (Reflects-grow (view w.operation) w.mediator.log m.log (e.grows w.operation.public_id) r)
  ];
}

serve_all-Extends :
    (platform : Platform) (cs : List (MediatorCall × Instant)) (m : Mediator)
    → Extends m (serve_all platform cs m)
serve_all-Extends platform cs m = record {
  valid = serve_all-IsValid platform cs m;
  grows = serve_all-find platform cs m;
}

Extends-trans : (a b c : Mediator) → Extends a b → Extends b c → Extends a c
Extends-trans a b c ab bc = record {
  valid = λ v. bc.valid (ab.valid v);
  grows = λ i l h. bc.grows i l (ab.grows i l h);
}

fate-Postcondition :
    {A : Type 0} (Answered : A → Mediator → Type 0) (i : String) (fault : Fault) (w : World)
    (m : Mediator) (served : Mediator × A)
    → Agrees i w
    → Extends w.mediator m
    → Extends w.mediator served.0
    → Answered served.1 served.0
    → Postcondition
        (λ a w'. Agrees i w' × Answered a w'.mediator)
        (Agrees i)
        (fate fault w m served)
fate-Postcondition Answered i delivered w m served a lost both answered =
    (Agrees-extend i w served.0 (w.requests + 1) both a, answered)
fate-Postcondition Answered i request_lost w m served a lost both answered =
    Agrees-extend i w m (w.requests + 1) lost a
fate-Postcondition Answered i response_lost w m served a lost both answered =
    Agrees-extend i w served.0 (w.requests + 1) both a

-- Whatever happens around a request that only extends the mediator, row and mediator agree, and a
-- response that arrives was made from the mediator as it then is.
pub remote-Ensures :
    {A : Type 0} (platform : Platform) (timeline : ℕ → Moment)
    (f : Instant → Mediator → Mediator × A) (Answered : A → Mediator → Type 0) (i : String)
    → ((now : Instant) (m : Mediator) → Extends m (f now m).0)
    → ((now : Instant) (m : Mediator) → Answered (f now m).1 (f now m).0)
    → Ensures
        (Agrees i)
        (remote platform timeline f)
        (λ a w. Agrees i w × Answered a w.mediator)
        (Agrees i)
unfolding remote
remote-Ensures platform timeline f Answered i extends answers = record {
  at = λ w a.
      let e = timeline w.requests in
      let m = serve_all platform e.before w.mediator in
      let first = serve_all-Extends platform e.before w.mediator in
      let both = Extends-trans w.mediator m (f e.now m).0 first (extends e.now m) in
      fate-Postcondition Answered i e.fault w m (f e.now m) a first both (answers e.now m);
}

-- A mark that leaves the recorded result alone.
pub mark-Ensures :
    (timeline : ℕ → Moment) (f : Instant → Operation → Operation) (i : String)
    → ((now : Instant) (o : Operation) → view (f now o) ≡ view o)
    → Ensures (Agrees i) (mark timeline f) (λ x w. Agrees i w) (Agrees i)
unfolding mark
mark-Ensures timeline f i keeps = record {
  at = λ w a.
      let same = keeps (timeline w.requests).now w.operation in
      record {
        valid = a.valid;
        named = ap (λ (v : View). v.public_id) same ∙ a.named;
        recorded = elim a.recorded [
          | inl empty ↦ inl (ap (λ (v : View). v.version) same ∙ empty)
          | inr r ↦ inr (rw same r)
        ];
      };
}
