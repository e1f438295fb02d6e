-- ===== src/Service/Reported.antt =====
-- The calls of accelerator/core/control-plane-service.js as steps on its registry and on the
-- submissions that await their gateway, and the classifications that its records have.
use surgical_dev_ops.Base.Outcome.{Outcome, ok, bind-ok, then-ok, ok-injective}
use surgical_dev_ops.Base.{
  some-injective, ◌≡◌, refl, ap, subst, ℕ, zero, suc, Option, none, String, Bool, true, List, [],
  ◌∷◌, some, ◌&&◌, ◌||◌, str_eq, All, Bool-cases, inl, inr,
}
use surgical_dev_ops.Json.{Value, get, text_satisfies, same}
use surgical_dev_ops.Registry.{Entry, Registry, Table, empty, lookup, set, store}
use surgical_dev_ops.Registry.Claim.{
  Claim, replayed, created, claim, claim_request, claim_key, after_claim, new_entry, is_some,
}
use surgical_dev_ops.Registry.Observe.{observe, observed_entry}
use surgical_dev_ops.Registry.Refinement.Claims.{claim_key-created}
use surgical_dev_ops.Service.{Settings, Surroundings}
use surgical_dev_ops.Service.Valid.{known-copied}
use surgical_dev_ops.Service.Operations.{
  Submission, answered, awaiting, submit, resume, reconcile, inspect, cancel,
}

-- The service between its calls: the registry, and the submissions that await their gateway.
pub record ServiceState : Type 0 where
  pub registry : Registry
  pub pending : List (Value × Entry)

abbrev pub idle : ServiceState
idle = record { registry = empty; pending = [] }

-- What happens to the service, with what the outside answers to it. A submission that awaits its
-- gateway is resumed by `gateway_answering`, at its place among those that wait; whatever else
-- happens in between is a step of its own.
pub data Call : Type 0 where
  submitting : Surroundings → Value → Call
  gateway_answering : ℕ → Outcome (Unit {0}) → Outcome Value → Call
  reconciling : Outcome Value → Value → Call
  inspecting : Outcome Value → Value → Call
  cancelling : Outcome Value → Value → Call

abbrev pub with_registry : ServiceState → Registry → ServiceState
with_registry s r = record s { registry = r }

-- The state after the first part of a submission.
abbrev pub left_waiting : List (Value × Entry) → Registry × Submission → ServiceState
left_waiting waiting (r, answered v) = record { registry = r; pending = waiting }
left_waiting waiting (r, awaiting request e) = record {
  registry = r;
  pending = (request, e) ∷ waiting;
}

-- The submission at a place, and the others.
unfoldable pub pick : ℕ → List (Value × Entry) → Option ((Value × Entry) × List (Value × Entry))
pick n [] = none
pick zero (p ∷ ps) = some (p, ps)
pick (suc n) (p ∷ ps) = elim (pick n ps) [ none ↦ none | some (q, rest) ↦ some (q, p ∷ rest) ]

unfoldable pub resumed :
    ServiceState
    → Outcome (Unit {0})
    → Outcome Value
    → Option ((Value × Entry) × List (Value × Entry))
    → ServiceState
resumed s gateway clock none = s
resumed s gateway clock (some ((request, e), rest)) = record {
  registry = (resume request e s.registry gateway clock).0;
  pending = rest;
}

-- The state after a call, whether it answered or threw.
unfoldable pub service_step : Settings → ServiceState → Call → ServiceState
service_step settings s (submitting world input) =
    left_waiting s.pending (submit settings world s.registry input)
service_step settings s (gateway_answering n gateway clock) =
    resumed s gateway clock (pick n s.pending)
service_step settings s (reconciling clock input) =
    with_registry s (reconcile clock s.registry input).0
service_step settings s (inspecting clock input) =
    with_registry s (inspect clock s.registry input).0
service_step settings s (cancelling clock input) =
    with_registry s (cancel settings clock s.registry input).0

unfoldable pub service_after : Settings → ServiceState → List Call → ServiceState
service_after settings s [] = s
service_after settings s (c ∷ cs) = service_after settings (service_step settings s c) cs

-- The classifications that a service may give, by its settings.
abbrev pub may_report : Settings → String → Bool
may_report settings s =
    str_eq s "accepted"
    || str_eq s "unknown"
    || (str_eq s "cancelled" && settings.supports_cancellation)
    || (str_eq s "indeterminate" && settings.invokes_gateway)

abbrev pub Reported : Settings → Value → Type 0
Reported settings v = text_satisfies (may_report settings) v ≡ true

-- Every record is classified so.
abbrev pub AllReported : Settings → Registry → Type 0
AllReported settings r = All (λ p. Reported settings p.1.current_observation_state) r.by_operation

set-All :
    (P : Entry → Type 0) (k : Value) (e : Entry) (t : Table)
    → All (λ p. P p.1) t
    → P e
    → All (λ p. P p.1) (set k e t)
unfolding set
set-All P k e [] h p = (p, tt)
set-All P k e ((j, d) ∷ t) h p = elim (Bool-cases (same j k)) [
  | inl g ↦ rw g (p, h.1)
  | inr g ↦ rw g (h.0, set-All P k e t h.1 p)
]

pub lookup-All :
    (P : Entry → Type 0) (k : Value) (t : Table) (e : Entry)
    → All (λ p. P p.1) t
    → lookup k t ≡ some e
    → P e
unfolding lookup
lookup-All P k [] e h found = cc
lookup-All P k ((j, d) ∷ t) e h found = elim (Bool-cases (same j k)) [
  | inl g ↦ subst P (some-injective (rw g at found)) h.0
  | inr g ↦ lookup-All P k t e h.1 (rw g at found)
]

store-AllReported :
    (settings : Settings) (r : Registry) (e : Entry)
    → AllReported settings r
    → Reported settings e.current_observation_state
    → AllReported settings (store r e)
unfolding store
store-AllReported settings r e h new =
    set-All (λ d. Reported settings d.current_observation_state) e.operation_id e r.by_operation h
      new

accepted-Reported :
    (settings : Settings) (n : ℕ) (q x o : Value)
    → Reported settings (new_entry n q x o).current_observation_state
unfolding new_entry
accepted-Reported settings n q x o = refl

after-AllReported :
    (settings : Settings) (r : Registry) (q x o : Value) (made : Claim)
    → AllReported settings r
    → claim_key
        (lookup (get q "idempotencyKey") r.by_idempotency)
        (lookup (get q "operationId") r.by_operation)
        (is_some (lookup x r.by_external))
        (new_entry r.made q x o)
        q
      ≡ ok made
    → AllReported settings (after_claim r made).0
after-AllReported settings r q x o (replayed d) h keyed = h
after-AllReported settings r q x o (created d) h keyed = store-AllReported settings r d h (
    subst (λ e. Reported settings e.current_observation_state)
      (claim_key-created _ _ _ _ d q keyed).made_now (accepted-Reported settings r.made q x o))

pub claim-AllReported :
    (settings : Settings) (r s : Registry) (input : Value) (result : Claim)
    → AllReported settings r
    → claim r input ≡ ok (s, result)
    → AllReported settings s
unfolding claim claim_request
claim-AllReported settings r s input result h called = bind-ok _ _ called λ q checked called.
    bind-ok _ _ called λ made keyed called.
      subst (AllReported settings) (ap (λ p. p.0) (ok-injective called)) (
        after-AllReported settings r q (get input "externalExecutionId") (get input "observedAt")
          made h keyed)

pub observe-AllReported :
    (settings : Settings) (r s : Registry) (input : Value) (e : Entry)
    → AllReported settings r
    → Reported settings (get input "classification")
    → observe r input ≡ ok (s, e)
    → AllReported settings s
unfolding observe observed_entry
observe-AllReported settings r s input e h new called = then-ok _ _ called λ fields called.
    then-ok _ _ called λ free called. bind-ok _ _ called λ d bound called.
      then-ok _ _ called λ checked called.
        let next =
          observed_entry r.made d (get input "classification") (get input "code")
            (get input "observedAt") in
        subst (AllReported settings) (ap (λ p. p.0) (ok-injective called)) (
          store-AllReported settings r next h
            (known-copied (may_report settings) (get input "classification") new))
