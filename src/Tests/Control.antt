-- ===== src/Tests/Control.antt =====
-- The control plane's theorems at a submission that is claimed, observed and cancelled.
use surgical_dev_ops.Base.Outcome.{Outcome, ok, throw}
use surgical_dev_ops.Base.{◌≡◌, ◌≢◌, refl, true, false, List, [], ◌∷◌, Option, some, none}
use surgical_dev_ops.Json.{Value, undefined, text, number, array, nil, cons, get}
use surgical_dev_ops.Protocol.Serialize.{is_serializable}
use surgical_dev_ops.Protocol.Request.{validate_request}
use surgical_dev_ops.Protocol.Reply.{validate_operation_result}
use surgical_dev_ops.Registry.Observe.{get_entry, observe, is_terminal_value}
use surgical_dev_ops.Registry.Progress.{observe-cancelled}
use surgical_dev_ops.Protocol.Credentials.{is_credential_free}
use surgical_dev_ops.Registry.{Entry, Registry, empty, lookup, store}
use surgical_dev_ops.Registry.Claim.{created, replayed, claim, check_claim}
use surgical_dev_ops.Registry.Spec.{Command, claiming, observing, getting, after, run, spec_run}
use surgical_dev_ops.Registry.Refinement.Runs.{no_submissions, run-spec_run}
use surgical_dev_ops.Registry.History.{Evolved}
use surgical_dev_ops.Registry.History.Lifetime.{lookup-Evolved}
use surgical_dev_ops.Registry.History.Replay.{claim-replayed}
use surgical_dev_ops.Service.{Settings, Surroundings, claim_input, observe_input}
use surgical_dev_ops.Service.Operations.{cancel}
use surgical_dev_ops.Service.Valid.{last_sequence}
use surgical_dev_ops.Service.Checked.{cancel-valid}
use surgical_dev_ops.Service.Reported.{
  Call, submitting, gateway_answering, cancelling, idle, service_after, Reported,
}
use surgical_dev_ops.Service.Calls.{service_after-Reported}
use surgical_dev_ops.Tests.Scenario.{or_default}
use surgical_dev_ops.Tests.Serving.{
  serving, submission, execution, moment, following, claim_call, first_entry, first_registry,
}

abbrev claims : List Command
claims = claiming claim_call ∷ []

abbrev observations : List Command
observations =
    observing (observe_input (following 1) (text "running") "STARTED" moment)
    ∷ observing (observe_input (following 2) (text "succeeded") "DONE" moment)
    ∷ observing (observe_input (following 3) (text "accepted") "AGAIN" moment)
    ∷ getting (following 3)
    ∷ []

run-spec_run_example :
    run empty (claiming claim_call ∷ observations)
    ≡ spec_run no_submissions (claiming claim_call ∷ observations)
run-spec_run_example = run-spec_run (claiming claim_call ∷ observations)

held : lookup (text "operation-1") (after empty claims).by_operation ≡ some first_entry
unfolding serving
held = refl

lookup-Evolved_example :
    (d : Entry) × (lookup
        (text "operation-1")
        (after (after empty claims) observations).by_operation
      ≡ some d)
    × Evolved first_entry d
lookup-Evolved_example = lookup-Evolved claims observations (text "operation-1") first_entry held

abbrev second_call : Value
second_call = claim_input submission (text "execution-2") (text "2026-01-01T00:00:09.000Z")

claimed : claim (after empty []) claim_call ≡ ok (first_registry, created first_entry)
unfolding serving
claimed = refl

checked_first : check_claim claim_call ≡ ok submission
unfolding serving
checked_first = refl

checked_second : check_claim second_call ≡ ok submission
unfolding serving
checked_second = refl

written : is_serializable submission ≡ true
unfolding serving
written = refl

claim-replayed_example :
    (d : Entry) × (claim (after first_registry observations) second_call
      ≡ ok (after first_registry observations, replayed d))
    × Evolved first_entry d
claim-replayed_example =
    claim-replayed [] observations claim_call second_call submission first_registry first_entry
      claimed checked_first checked_second written

abbrev settings : Settings
settings = record {
  requested_capabilities = array true (cons (text "mutation.propose") nil);
  supports_cancellation = true;
  invokes_gateway = false;
}

abbrev clock : Outcome Value
clock = ok (text "2026-01-01T00:00:02.000Z")

abbrev cancelled : Registry × Outcome Value
cancelled = cancel settings clock first_registry (following 1)

abbrev cancel_answer : Value
cancel_answer = or_default undefined cancelled.1

valid_cancel : validate_request "cancel" (following 1) ≡ ok (following 1)
unfolding serving
valid_cancel = refl

not_last : get (following 1) "afterObservationSequence" ≢ number last_sequence
not_last = λ h. cc

cancelling_answers :
    cancel settings clock first_registry (following 1) ≡ (cancelled.0, ok cancel_answer)
unfolding serving
cancelling_answers = refl

cancel-valid_example : validate_operation_result cancel_answer (following 1) ≡ ok cancel_answer
cancel-valid_example =
    cancel-valid settings clock first_registry cancelled.0 (following 1) (following 1) cancel_answer
      valid_cancel not_last cancelling_answers

abbrev world : Surroundings
world = record { external = ok execution; claimed_at = ok moment }

abbrev with_gateway : Settings
with_gateway = record settings { invokes_gateway = true }

-- The submission is cancelled while its gateway is awaited, and the gateway then fails.
abbrev calls : List Call
calls =
    submitting world submission
    ∷ cancelling clock (following 1)
    ∷ gateway_answering 0 (throw "unavailable") clock
    ∷ []

abbrev or_entry : Option Entry → Entry
or_entry (some e) = e
or_entry none = first_entry

abbrev last_entry : Entry
last_entry =
    or_entry
      (lookup (text "operation-1") (service_after with_gateway idle calls).registry.by_operation)

held_after :
    lookup (text "operation-1") (service_after with_gateway idle calls).registry.by_operation
    ≡ some last_entry
unfolding serving
held_after = refl

service_after-Reported_example : Reported with_gateway last_entry.current_observation_state
service_after-Reported_example =
    service_after-Reported with_gateway calls (text "operation-1") last_entry held_after

cancelled_stays : last_entry.current_observation_state ≡ text "cancelled"
unfolding serving
cancelled_stays = refl

reads : get_entry first_registry (following 1) ≡ ok first_entry
unfolding serving
reads = refl

still_running : is_terminal_value first_entry.current_observation_state ≡ false
unfolding serving
still_running = refl

free_code : is_credential_free (text "CANCELLATION_REGISTERED") ≡ true
unfolding serving
free_code = refl

free_time : is_credential_free moment ≡ true
unfolding serving
free_time = refl

observe-cancelled_example :
    (e : Entry) × (observe first_registry
        (observe_input (following 1) (text "cancelled") "CANCELLATION_REGISTERED" moment)
      ≡ ok (store first_registry e, e))
    × (e.current_observation_state ≡ text "cancelled")
    × (e.observation_sequence ≡ 2)
observe-cancelled_example =
    observe-cancelled first_registry (following 1) first_entry "CANCELLATION_REGISTERED" moment
      reads refl still_running free_code free_time
