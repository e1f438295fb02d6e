-- ===== src/Tests/Mission.antt =====
-- The lifecycle, the classification of a recovery and a step of a mission, at concrete inputs.
use surgical_dev_ops.Base.Text.{
  is_hash, trim, upper, upper_char, is_space, is_blank, units, is_text, has_shape,
}
use surgical_dev_ops.Base.Outcome.{ok, chains}
use surgical_dev_ops.Base.{◌≡◌, ◌↔◌, refl, Bool, true, false}
use surgical_dev_ops.Json.{
  Value, null, boolean, text, array, object, nil, cons, end, field, get, is_string, deep_freeze,
}
use surgical_dev_ops.Json.Canonical.{canonical_json, decimal, number_text, quote}
use surgical_dev_ops.Recovery.{digest, recovery_fingerprint}
use surgical_dev_ops.Recovery.Classify.{
  classify_mutation_recovery, bound_inputs, is_commit_proven, verdict, decide, is_applied_stage,
}
use surgical_dev_ops.Recovery.Laws.{
  IsSettled, classify_mutation_recovery-fingerprint, classify_mutation_recovery-release,
}
use surgical_dev_ops.Lifecycle.{
  find_symbol, symbol_of, canonical_symbol, spelled, is_filled_text, operation_outcome,
  boundary_status, boundary, classify_state_boundary, resolve_lifecycle_transition, transition,
}
use surgical_dev_ops.Lifecycle.Laws.{Resolves, resolve_lifecycle_transition_iff}
use surgical_dev_ops.Lifecycle.Boundary.{Facts, classify_state_boundary-Facts}
use surgical_dev_ops.Runner.{
  opened, require_text, require_texts, distinct, sorted, require_string_list, require_count,
  require_friction, risk_order,
}
use surgical_dev_ops.Runner.Envelope.{
  normalized_risk, normalize_mission, create_mission_execution_envelope,
  validate_mission_execution_envelope,
}
use surgical_dev_ops.Runner.Step.{
  Request, first_signal, exceeded, conclude, within_budget, without_signals, within_limits,
  evaluate_mission_runner_step, plain,
}
use surgical_dev_ops.Tests.Scenario.{sha, hash, or_default}

-- Named on an `unfolding` line, it lets these components compute.
unfoldable working : Unit {0}
unfolding chains is_hash is_text has_shape trim upper upper_char is_space is_blank units deep_freeze
    canonical_json decimal number_text quote digest recovery_fingerprint classify_mutation_recovery
    bound_inputs is_commit_proven verdict decide is_applied_stage find_symbol symbol_of
    canonical_symbol spelled is_filled_text operation_outcome boundary_status
    classify_state_boundary resolve_lifecycle_transition opened require_text require_texts distinct
    sorted require_string_list require_count require_friction risk_order normalized_risk
    normalize_mission create_mission_execution_envelope validate_mission_execution_envelope
    first_signal exceeded conclude within_budget without_signals within_limits
    evaluate_mission_runner_step
working = tt

abbrev completing : Value
completing =
    object false
      (field "currentStatus" (text " pending ") (field "transitionType" (text "Complete") end))

resolve_lifecycle_transition_iff_example :
    (resolve_lifecycle_transition completing ≡ ok (transition "PENDING" "COMPLETE" "COMPLETED"))
    ↔ Resolves completing (transition "PENDING" "COMPLETE" "COMPLETED")
resolve_lifecycle_transition_iff_example =
    resolve_lifecycle_transition_iff completing (transition "PENDING" "COMPLETE" "COMPLETED")

abbrev boundary_input : Value
boundary_input =
    object false
      (field "authorizationStatus" (text "authorized") (field "afterPresent" (boolean true) end))

classify_state_boundary-Facts_example :
    (failed after : Bool) × Facts boundary_input failed after (boundary "COMPLETED")
unfolding working
classify_state_boundary-Facts_example =
    classify_state_boundary-Facts boundary_input (boundary "COMPLETED") refl

abbrev commit : Value
commit = object true (
    field "fingerprint" (text hash) (
      field "transactionId" (text "t") (
        field "target" (text "/w/a.js")
          (field "beforeSha256" (text hash) (field "replacementSha256" (text hash) end)))))

abbrev journal : Value
journal = object true (
    field "journalId" (text "j") (
      field "identity" (object true (field "transactionId" (text "t") end)) (
        field "transaction"
          (object true (
            field "transactionId" (text "t") (
              field "workspace" (text "/w") (
                field "target" (text "/w/a.js") (
                  field "beforeSha256" (text hash) (
                    field "replacementSha256" (text hash) (
                      field "stage" (text "PHYSICAL_APPLIED")
                        (field "commitAuthority" commit end))))))))
          end)))

abbrev physical : Value
physical = object true (
    field "transactionId" (text "t") (
      field "workspace" (text "/w") (
        field "target" (text "/w/a.js")
          (field "classification" (text "REPLACEMENT") (field "sha256" (text hash) end)))))

abbrev matched : Value
matched = object true (field "classification" (text "MATCHED") end)

abbrev allowed : Value
allowed = object true (field "decision" (text "ALLOWED") end)

abbrev recovery : Value
recovery = or_default null (classify_mutation_recovery sha journal physical matched allowed)

recovery_is : classify_mutation_recovery sha journal physical matched allowed ≡ ok recovery
unfolding working
recovery_is = refl

classify_mutation_recovery-fingerprint_example :
    get recovery "fingerprint" ≡ text (recovery_fingerprint sha recovery)
classify_mutation_recovery-fingerprint_example =
    classify_mutation_recovery-fingerprint sha journal physical matched allowed recovery_is

released : is_string (get recovery "lockDisposition") "RELEASED" ≡ true
unfolding working
released = refl

classify_mutation_recovery-release_example :
    IsSettled
      (text "MATCHED")
      (text "REPLACEMENT")
      (text "PHYSICAL_APPLIED")
      (is_commit_proven (get journal "transaction"))
classify_mutation_recovery-release_example =
    classify_mutation_recovery-release sha journal physical matched allowed recovery_is released

abbrev mission_input : Value
mission_input = object false (
    field "objective" (text "Fix the parser") (
      field "workspace" (text "/w") (
        field "allowedOperations" (array true (cons (text "patch") (cons (text "build") nil))) (
          field "allowedTargets" (array true (cons (text "a.js") nil))
            (field "completionCriterion" (text "All tests pass") end)))))

abbrev mission : Value
mission = or_default null (create_mission_execution_envelope sha mission_input)

abbrev request : Request
request = record {
  envelope = mission;
  operation = text "patch";
  target = text "a.js";
  risk = text "baixo";
  signals = object false end;
  friction_spent = object false end;
  equivalent_attempts = 1;
  previous_evidence = null;
  current_evidence = null;
}

abbrev going : Value
going = plain "CONTINUE" "Step remains inside the authorized mission envelope."
