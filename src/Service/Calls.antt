-- ===== src/Service/Calls.antt =====
-- Sequences of calls of accelerator/core/control-plane-service.js and the classifications that
-- they give.
use surgical_dev_ops.Base.Outcome.{Outcome, ok, throw, bind-ok, then-ok, require-ok, ok-injective}
use surgical_dev_ops.Base.{
  ◌≡◌, ◌∙◌, refl, ap, subst, String, Bool, true, false, List, [], ◌∷◌, ℕ, Option, some, none, ◌⊎◌,
  inl, inr, ◌&&◌, if◌then◌else◌, arith,
}
use surgical_dev_ops.Json.{Value, text, number, get}
use surgical_dev_ops.Protocol.Request.{validate_request}
use surgical_dev_ops.Registry.{Entry, Registry, lookup}
use surgical_dev_ops.Registry.Claim.{Claim, entry_of}
use surgical_dev_ops.Registry.Observe.{get_entry, require_bound}
use surgical_dev_ops.Registry.Refinement.Observations.{one_object-first}
use surgical_dev_ops.Service.{
  Settings, Surroundings, observation_request, observe_input, lists_text, result_of,
}
use surgical_dev_ops.Service.Operations.{
  answer, is_created, observe_failure, after_claiming, claim_for, answered, awaiting, resume,
  submit_request, submit, observe_request, observed_answer, failure_observation, observe_operation,
  reconcile, inspected, inspect_found, inspect, cancel_request, cancel, claim_code,
  unsupported_capability,
}
use surgical_dev_ops.Service.Reported.{
  Call, submitting, gateway_answering, reconciling, inspecting, cancelling, ServiceState, idle,
  left_waiting, pick, resumed, service_step, service_after, Reported, AllReported, lookup-All,
  claim-AllReported, observe-AllReported,
}

-- The registry of an answer is that of the call, or the one before it.
answer-AllReported :
    {A : Type 0} (settings : Settings) (r : Registry) (f : A → Value) (m : Outcome (Registry × A))
    → AllReported settings r
    → ((p : Registry × A) → m ≡ ok p → AllReported settings p.0)
    → AllReported settings (answer r f m).0
answer-AllReported settings r f (ok p) h called = called p refl
answer-AllReported settings r f (throw e) h called = h

observe_operation-AllReported :
    (settings : Settings) (operation : String) (clock : Outcome Value) (r : Registry)
    (input c : Value) (code : String)
    → AllReported settings r
    → Reported settings c
    → AllReported settings (observe_operation operation clock r input c code).0
unfolding observe_operation observed_answer observe_request
observe_operation-AllReported settings operation clock r input c code h new =
    answer-AllReported settings r (λ p. p) (observed_answer operation clock r input c code) h
      λ p called. bind-ok _ _ called λ q valid called. bind-ok _ _ called λ observed made called.
        bind-ok _ _ made λ d got made. bind-ok _ _ made λ t read made.
          subst (AllReported settings) (ap (λ x. x.0) (ok-injective called)) (
            observe-AllReported settings r observed.0
              (observe_input (observation_request q (get q "afterObservationSequence") d) c code t)
              observed.1 h new made)

-- The record that a request reads is one of those that the registry holds.
get_entry-Reported :
    (settings : Settings) (r : Registry) (q : Value) (d : Entry)
    → AllReported settings r
    → get_entry r q ≡ ok d
    → Reported settings d.current_observation_state
unfolding get_entry require_bound
get_entry-Reported settings r q d h got = then-ok _ _ got λ free got.
    require-ok _ _ _ got λ some_value got. bind-ok _ _ got λ e one got. then-ok _ _ got λ bound got.
      lookup-All (λ x. Reported settings x.current_observation_state) (get q "operationId")
        r.by_operation d h (one_object-first _ _ d (one ∙ got))

inspect_found-AllReported :
    (settings : Settings) (clock : Outcome Value) (r : Registry) (input : Value)
    (m : Outcome (Value × Value))
    → AllReported settings r
    → inspected r input ≡ m
    → AllReported settings (inspect_found clock r m).0
unfolding inspect_found inspected
inspect_found-AllReported settings clock r input (throw e) h was = h
inspect_found-AllReported settings clock r input (ok found) h was = bind-ok _ _ was λ q valid was.
    bind-ok _ _ was λ d got was.
      observe_operation-AllReported settings "inspect" clock r found.0 found.1
        "OBSERVATION_INSPECTED" h
        (subst (Reported settings) (ap (λ p. p.1) (ok-injective was))
          (get_entry-Reported settings r q d h got))

-- A property of both branches of a test.
either {ℓ κ} :
    {A : Type ℓ} (P : A → Type κ) (test : Bool) (x y : A)
    → (test ≡ true → P x)
    → P y
    → P (if test then x else y)
either P true x y h k = h refl
either P false x y h k = k

cancelled-Reported :
    (settings : Settings)
    → settings.supports_cancellation ≡ true
    → Reported settings (text "cancelled")
cancelled-Reported settings h = ground arith

cancel_request-AllReported :
    (settings : Settings) (clock : Outcome Value) (r : Registry) (m : Outcome Value)
    → AllReported settings r
    → AllReported settings (cancel_request settings clock r m).0
unfolding cancel_request
cancel_request-AllReported settings clock r (throw e) h = h
cancel_request-AllReported settings clock r (ok request) h =
    either (λ x. AllReported settings x.0) settings.supports_cancellation
      (observe_operation "cancel" clock r request (text "cancelled") "CANCELLATION_REGISTERED")
      (r, throw unsupported_capability)
      (λ supported.
        observe_operation-AllReported settings "cancel" clock r request (text "cancelled")
          "CANCELLATION_REGISTERED" h (cancelled-Reported settings supported))
      h

observe_failure-AllReported :
    (settings : Settings) (request : Value) (e : Entry) (r : Registry) (clock : Outcome Value)
    → AllReported settings r
    → settings.invokes_gateway ≡ true
    → AllReported settings (observe_failure request e r clock).0
unfolding observe_failure failure_observation
observe_failure-AllReported settings request e r clock h invokes =
    answer-AllReported settings r _ (failure_observation request e r clock) h λ p called.
      bind-ok _ _ called λ t read called.
        observe-AllReported settings r p.0
          (observe_input (observation_request request (number e.observation_sequence) e)
            (text "indeterminate") "NON_PHYSICAL_GATEWAY_FAILURE" t)
          p.1 h invokes called

-- The invariant of a service: its records are classified so, and a submission waits only where a
-- gateway is invoked.
abbrev Keeps : Settings → ServiceState → Type 0
Keeps settings s =
    AllReported settings s.registry × ((s.pending ≡ []) ⊎ (settings.invokes_gateway ≡ true))

both-invokes : (a b : Bool) → (a && b) ≡ true → a ≡ true
both-invokes a b h = ground arith

after_claiming-Keeps :
    (settings : Settings) (world : Surroundings) (waiting : List (Value × Entry)) (request : Value)
    (r : Registry) (m : Outcome (Registry × Claim))
    → AllReported settings r
    → (waiting ≡ []) ⊎ (settings.invokes_gateway ≡ true)
    → claim_for world r request ≡ m
    → Keeps settings (left_waiting waiting (after_claiming settings request r m))
unfolding after_claiming claim_for
after_claiming-Keeps settings world waiting request r (throw e) h w was = (h, w)
after_claiming-Keeps settings world waiting request r (ok p) h w was =
    bind-ok _ _ was λ external given was. bind-ok _ _ was λ observed read was.
      let claimed = claim-AllReported settings r p.0 _ p.1 h was in
      either (λ x. Keeps settings (left_waiting waiting x))
        (settings.invokes_gateway && is_created p.1) (p.0, awaiting request (entry_of p.1))
        (p.0, answered (ok (result_of request (entry_of p.1) (text "accepted") (claim_code p.1))))
        (λ invoked. (claimed, inr (both-invokes settings.invokes_gateway (is_created p.1) invoked)))
        (claimed, w)

submit_request-Keeps :
    (settings : Settings) (world : Surroundings) (waiting : List (Value × Entry)) (r : Registry)
    (m : Outcome Value)
    → AllReported settings r
    → (waiting ≡ []) ⊎ (settings.invokes_gateway ≡ true)
    → Keeps settings (left_waiting waiting (submit_request settings world r m))
unfolding submit_request
submit_request-Keeps settings world waiting r (throw e) h w = (h, w)
submit_request-Keeps settings world waiting r (ok request) h w =
    either (λ x. Keeps settings (left_waiting waiting x))
      (lists_text settings.requested_capabilities (get request "requestedCapability"))
      (after_claiming settings request r (claim_for world r request))
      (r, answered (throw unsupported_capability))
      (λ listed.
        after_claiming-Keeps settings world waiting request r (claim_for world r request) h w refl)
      (h, w)

resume-AllReported :
    (settings : Settings) (request : Value) (e : Entry) (r : Registry)
    (gateway : Outcome (Unit {0})) (clock : Outcome Value)
    → AllReported settings r
    → settings.invokes_gateway ≡ true
    → AllReported settings (resume request e r gateway clock).0
unfolding resume
resume-AllReported settings request e r (ok _) clock h invokes = h
resume-AllReported settings request e r (throw _) clock h invokes =
    observe_failure-AllReported settings request e r clock h invokes

resumed-Keeps :
    (settings : Settings) (s : ServiceState) (n : ℕ) (gateway : Outcome (Unit {0}))
    (clock : Outcome Value) (picked : Option ((Value × Entry) × List (Value × Entry)))
    → Keeps settings s
    → pick n s.pending ≡ picked
    → Keeps settings (resumed s gateway clock picked)
unfolding resumed pick
resumed-Keeps settings s n gateway clock none h was = h
resumed-Keeps settings s n gateway clock (some ((request, e), rest)) (h, inl idles) was =
    let nothing : pick n s.pending ≡ none = rw idles refl in cc
resumed-Keeps settings s n gateway clock (some ((request, e), rest)) (h, inr invokes) was =
    (resume-AllReported settings request e s.registry gateway clock h invokes, inr invokes)

service_step-Keeps :
    (settings : Settings) (s : ServiceState) (c : Call)
    → Keeps settings s
    → Keeps settings (service_step settings s c)
unfolding service_step submit reconcile inspect cancel
service_step-Keeps settings s (submitting world input) (h, w) =
    submit_request-Keeps settings world s.pending s.registry (validate_request "submit" input) h w
service_step-Keeps settings s (gateway_answering n gateway clock) kept =
    resumed-Keeps settings s n gateway clock (pick n s.pending) kept refl
service_step-Keeps settings s (reconciling clock input) (h, w) = (
  observe_operation-AllReported settings "reconcile" clock s.registry input (text "unknown")
      "OBSERVATION_UNKNOWN" h refl,
  w,
)
service_step-Keeps settings s (inspecting clock input) (h, w) = (
  inspect_found-AllReported settings clock s.registry input (inspected s.registry input) h refl,
  w,
)
service_step-Keeps settings s (cancelling clock input) (h, w) =
    (cancel_request-AllReported settings clock s.registry (validate_request "cancel" input) h, w)

service_after-Keeps :
    (settings : Settings) (s : ServiceState) (cs : List Call)
    → Keeps settings s
    → Keeps settings (service_after settings s cs)
unfolding service_after
service_after-Keeps settings s [] h = h
service_after-Keeps settings s (c ∷ cs) h =
    service_after-Keeps settings (service_step settings s c) cs (service_step-Keeps settings s c h)

-- After any sequence of calls of a service on an empty registry, in which a submission that awaits its
-- gateway is resumed after any others, whatever the outside answered and whether the calls threw,
-- every submission is accepted or unknown, or cancelled if cancellation is supported, or indeterminate
-- if a gateway is invoked. None is running, succeeded, failed or rejected.
pub service_after-Reported :
    (settings : Settings) (calls : List Call) (k : Value) (e : Entry)
    → lookup k (service_after settings idle calls).registry.by_operation ≡ some e
    → Reported settings e.current_observation_state
service_after-Reported settings calls k e found =
    lookup-All (λ x. Reported settings x.current_observation_state) k
      (service_after settings idle calls).registry.by_operation e
      (service_after-Keeps settings idle calls (tt, inl refl)).0 found
