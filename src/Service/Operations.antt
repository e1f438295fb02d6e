-- ===== src/Service/Operations.antt =====
-- The operations of accelerator/core/control-plane-service.js that change the registry.
use surgical_dev_ops.Base.Outcome.{Outcome, ok, throw, ◌>>=◌}
use surgical_dev_ops.Base.{String, Bool, true, false, ◌&&◌, if◌then◌else◌}
use surgical_dev_ops.Json.{Value, text, number, get}
use surgical_dev_ops.Protocol.Request.{validate_request}
use surgical_dev_ops.Registry.{Entry, Registry}
use surgical_dev_ops.Registry.Claim.{Claim, replayed, created, entry_of, claim}
use surgical_dev_ops.Registry.Observe.{get_entry, observe}
use surgical_dev_ops.Service.{
  Settings, Surroundings, read_clock, result_of, observation_request, claim_input, observe_input,
  lists_text, or_registry_failure,
}

abbrev pub unsupported_capability : String
unsupported_capability = "unsupported_capability UNSUPPORTED_CAPABILITY"

-- The registry after a call, which stays as it was if the call threw, and what is made of its answer.
abbrev pub answer :
    {A : Type 0} → Registry → (A → Value) → Outcome (Registry × A) → Registry × Outcome Value
answer r f (ok p) = (p.0, ok (f p.1))
answer r f (throw e) = (r, throw e)

abbrev pub claim_code : Claim → String
claim_code (created e) = "SUBMISSION_REGISTERED"
claim_code (replayed e) = "IDENTICAL_REPLAY"

abbrev pub is_created : Claim → Bool
is_created (created e) = true
is_created (replayed e) = false

-- The record of a claim whose gateway has failed is observed as indeterminate.
unfoldable pub failure_observation :
    Value → Entry → Registry → Outcome Value → Outcome (Registry × Entry)
failure_observation request entry r clock = do
  observed ← read_clock clock
  observe r (
      observe_input (observation_request request (number entry.observation_sequence) entry)
        (text "indeterminate") "NON_PHYSICAL_GATEWAY_FAILURE" observed)

unfoldable pub observe_failure : Value → Entry → Registry → Outcome Value → Registry × Outcome Value
observe_failure request entry r clock =
    answer r (λ e. result_of request e (text "indeterminate") "NON_PHYSICAL_GATEWAY_FAILURE")
      (failure_observation request entry r clock)

-- A submission that has answered, or one that awaits its gateway with the request and the record that
-- it created.
pub data Submission : Type 0 where
  answered : Outcome Value → Submission
  awaiting : Value → Entry → Submission

-- After the claim: the gateway is called for a record that was created.
unfoldable pub after_claiming :
    Settings → Value → Registry → Outcome (Registry × Claim) → Registry × Submission
after_claiming settings request r (throw e) = (r, answered (throw e))
after_claiming settings request r (ok p) =
    if settings.invokes_gateway && is_created p.1
    then (p.0, awaiting request (entry_of p.1))
    else (p.0, answered (ok (result_of request (entry_of p.1) (text "accepted") (claim_code p.1))))

-- `registry.claim({ request, externalExecutionId, observedAt })`.
unfoldable pub claim_for : Surroundings → Registry → Value → Outcome (Registry × Claim)
claim_for world r request = do
  external ← or_registry_failure world.external
  observed ← read_clock world.claimed_at
  claim r (claim_input request external observed)

unfoldable pub submit_request :
    Settings → Surroundings → Registry → Outcome Value → Registry × Submission
submit_request settings world r (throw e) = (r, answered (throw e))
submit_request settings world r (ok request) =
    if lists_text settings.requested_capabilities (get request "requestedCapability")
    then after_claiming settings request r (claim_for world r request)
    else (r, answered (throw unsupported_capability))

-- `submit(input)` up to its `await`.
unfoldable pub submit : Settings → Surroundings → Registry → Value → Registry × Submission
submit settings world r input = submit_request settings world r (validate_request "submit" input)

-- `submit(input)` from its `await` on, in the registry as it is when the gateway has answered.
unfoldable pub resume :
    Value → Entry → Registry → Outcome (Unit {0}) → Outcome Value → Registry × Outcome Value
resume request entry r (ok _) clock =
    (r, ok (result_of request entry (text "accepted") "SUBMISSION_REGISTERED"))
resume request entry r (throw _) clock = observe_failure request entry r clock

-- `observe(operation, input, classification, code)`, of a checked request.
unfoldable pub observe_request :
    Outcome Value → Registry → Value → Value → String → Outcome (Registry × Entry)
observe_request clock r request classification code = do
  current ← get_entry r request
  observed ← read_clock clock
  observe r (
      observe_input (observation_request request (get request "afterObservationSequence") current)
        classification code observed)

unfoldable pub observed_answer :
    String → Outcome Value → Registry → Value → Value → String → Outcome (Registry × Value)
observed_answer operation clock r input classification code = do
  request ← validate_request operation input
  observed ← observe_request clock r request classification code
  ok (observed.0, result_of request observed.1 classification code)

unfoldable pub observe_operation :
    String → Outcome Value → Registry → Value → Value → String → Registry × Outcome Value
observe_operation operation clock r input classification code =
    answer r (λ p. p) (observed_answer operation clock r input classification code)

-- `reconcile(input)`.
unfoldable pub reconcile : Outcome Value → Registry → Value → Registry × Outcome Value
reconcile clock r input =
    observe_operation "reconcile" clock r input (text "unknown") "OBSERVATION_UNKNOWN"

-- What stands before `observe` in `inspect`: the request and the record's classification.
unfoldable pub inspected : Registry → Value → Outcome (Value × Value)
inspected r input = do
  request ← validate_request "inspect" input
  current ← get_entry r request
  ok (request, current.current_observation_state)

unfoldable pub inspect_found :
    Outcome Value → Registry → Outcome (Value × Value) → Registry × Outcome Value
inspect_found clock r (throw e) = (r, throw e)
inspect_found clock r (ok found) =
    observe_operation "inspect" clock r found.0 found.1 "OBSERVATION_INSPECTED"

-- `inspect(input)`.
unfoldable pub inspect : Outcome Value → Registry → Value → Registry × Outcome Value
inspect clock r input = inspect_found clock r (inspected r input)

unfoldable pub cancel_request :
    Settings → Outcome Value → Registry → Outcome Value → Registry × Outcome Value
cancel_request settings clock r (throw e) = (r, throw e)
cancel_request settings clock r (ok request) =
    if settings.supports_cancellation
    then observe_operation "cancel" clock r request (text "cancelled") "CANCELLATION_REGISTERED"
    else (r, throw unsupported_capability)

-- `cancel(input)`.
unfoldable pub cancel : Settings → Outcome Value → Registry → Value → Registry × Outcome Value
cancel settings clock r input = cancel_request settings clock r (validate_request "cancel" input)
