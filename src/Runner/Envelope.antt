-- ===== src/Runner/Envelope.antt =====
-- accelerator/core/mission-runner-policy.js: creating and validating the envelope of a mission.
use surgical_dev_ops.Base.Text.{codes, upper, includes, is_hash}
use surgical_dev_ops.Base.Outcome.{Outcome, ok, require, ◌>>=◌, ◌>>◌, every}
use surgical_dev_ops.Base.{String, false, List, [], ◌∷◌, if◌then◌else◌}
use surgical_dev_ops.Json.{
  Value, Fields, boolean, number, text, array, object, end, field, get, is_frozen, is_string,
  is_number, text_satisfies, deep_freeze, is_truthy, same,
}
use surgical_dev_ops.Recovery.{digest}
use surgical_dev_ops.Lifecycle.{find_symbol, symbol_of}
use surgical_dev_ops.Runner.{
  Friction, envelope_schema, risks, environments, default_friction_budget, opened, defaulted,
  require_text, require_string_list, require_friction, texts, friction_value,
}

-- What an envelope says.
pub record Mission : Type 0 where
  pub objective : String
  pub workspace : String
  pub environment : Value
  pub risk : String
  pub allowed_operations : List String
  pub allowed_targets : List String
  pub completion_criterion : String
  pub friction_budget : Friction

-- `fields`, before what ends them.
abbrev pub mission_fields : Mission → Fields → Fields
mission_fields m rest = field "schema" (text envelope_schema) (
    field "objective" (text m.objective) (
      field "workspace" (text m.workspace) (
        field "environment" m.environment (
          field "risk" (text m.risk) (
            field "allowedOperations" (array false (texts m.allowed_operations)) (
              field "allowedTargets" (array false (texts m.allowed_targets)) (
                field "completionCriterion" (text m.completion_criterion) (
                  field "frictionBudget" (friction_value m.friction_budget) (
                    field "equivalentAttemptCeiling" (number 2) (
                      field "operationalAuthority" (boolean false) (
                        field "mutationAuthority" (boolean false)
                          (field "publicationAuthority" (boolean false) rest))))))))))))

abbrev pub envelope_digest : (String → String) → Mission → String
envelope_digest sha256 m = digest sha256 envelope_schema (mission_fields m end)

abbrev pub envelope_of : (String → String) → Mission → Value
envelope_of sha256 m = deep_freeze (
    object false
      (mission_fields m (field "envelopeFingerprint" (text (envelope_digest sha256 m)) end)))

-- The risk that a text names, in upper case.
unfoldable pub normalized_risk : Value → String → Outcome String
normalized_risk v label = do
  s ← require_text v label 16
  symbol_of (find_symbol risks (upper (codes s))) "Mission risk is unsupported."

-- The fields of `createMissionExecutionEnvelope`.
unfoldable pub normalize_mission : Value → Outcome Mission
normalize_mission given = do
  input ← opened given
  risk ← normalized_risk (defaulted (get input "risk") (text "BAIXO")) "Mission risk"
  let environment = defaulted (get input "environment") (text "localhost")
  require (text_satisfies (includes environments) environment) "Mission environment is unsupported."
  require (is_number (defaulted (get input "equivalentAttemptCeiling") (number 2)) 2)
      "Mission equivalent-attempt ceiling must be exactly two."
  friction_budget ← require_friction (
      if is_truthy (get input "frictionBudget")
      then get input "frictionBudget"
      else default_friction_budget risk)
  objective ← require_text (get input "objective") "Mission objective" 4096
  workspace ← require_text (get input "workspace") "Mission workspace" 1024
  allowed_operations ← require_string_list (get input "allowedOperations") "Allowed operation" 32
  allowed_targets ← require_string_list (get input "allowedTargets") "Allowed target" 32
  completion_criterion ← require_text (get input "completionCriterion") "Completion criterion" 4096
  ok (record {
    objective = objective;
    workspace = workspace;
    environment = environment;
    risk = risk;
    allowed_operations = allowed_operations;
    allowed_targets = allowed_targets;
    completion_criterion = completion_criterion;
    friction_budget = friction_budget;
  })

unfoldable pub create_mission_execution_envelope : (String → String) → Value → Outcome Value
create_mission_execution_envelope sha256 input = do
  m ← normalize_mission input
  ok (envelope_of sha256 m)

unfoldable pub validate_mission_execution_envelope : (String → String) → Value → Outcome Value
validate_mission_execution_envelope sha256 value = do
  require
      (every (
        (is_truthy value)
        ∷ (is_string (get value "schema") envelope_schema)
        ∷ (is_frozen value)
        ∷ (text_satisfies is_hash (get value "envelopeFingerprint"))
        ∷ (same (get value "operationalAuthority") (boolean false))
        ∷ (same (get value "mutationAuthority") (boolean false))
        ∷ (same (get value "publicationAuthority") (boolean false))
        ∷ []))
      "Immutable mission execution envelope is required."
  recreated ← create_mission_execution_envelope sha256 value
  require (same (get recreated "envelopeFingerprint") (get value "envelopeFingerprint"))
      "Mission execution envelope fingerprint mismatch."
  ok value
