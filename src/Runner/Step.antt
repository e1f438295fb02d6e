-- ===== src/Runner/Step.antt =====
-- accelerator/core/mission-runner-policy.js: the evaluation of one step of a mission.
use Prim.Native.String
use surgical_dev_ops.Base.Text.{codes, upper}
use surgical_dev_ops.Base.Outcome.{Outcome, ok, require, ◌>>=◌, ◌>>◌}
use surgical_dev_ops.Base.{
  ℕ, String, Bool, true, false, List, [], ◌∷◌, ◌&&◌, ◌||◌, not, ltb, leb, Option, none, some,
  if◌then◌else◌,
}
use surgical_dev_ops.Json.{
  Value, Items, Fields, boolean, number, text, array, object, nil, cons, end, field, get, is_truthy,
  is_string, same,
}
use surgical_dev_ops.Recovery.Classify.{is_present}
use surgical_dev_ops.Lifecycle.{find_symbol}
use surgical_dev_ops.Runner.{require_text, require_count, risks, risk_order, Friction}
use surgical_dev_ops.Runner.Envelope.{validate_mission_execution_envelope}
use surgical_dev_ops.Runner.Evidence.{evidence_identity, can_reuse_evidence}

-- The argument of `evaluateMissionRunnerStep`, with its defaults filled in; the number of equivalent
-- attempts is a natural number.
pub record Request : Type 0 where
  pub envelope : Value
  pub operation : Value
  pub target : Value
  pub risk : Value
  pub signals : Value
  pub friction_spent : Value
  pub equivalent_attempts : ℕ
  pub previous_evidence : Value
  pub current_evidence : Value

abbrev pub stop_signals : List String
stop_signals =
    "authorityExpansion" ∷ "credentialRequired" ∷ "destructive" ∷ "production" ∷ "publication"
    ∷ "scopeExpansion" ∷ []

-- `decision(classification, reason, details)`
abbrev pub decision : String → String → (Fields → Fields) → Value
decision classification reason details = object true (
    field "schema" (text "sdo.mission_runner_policy.v1") (
      field "classification" (text classification) (
        field "reason" (text reason) (
          details (
            field "operationalAuthority" (boolean false) (
              field "mutationAuthority" (boolean false) (
                field "publicationAuthority" (boolean false)
                  (field "authorityExpansion" (boolean false) end))))))))

abbrev pub plain : String → String → Value
plain classification reason = decision classification reason (λ rest. rest)

-- `list.includes(text)` of an array of texts.
abbrev pub holds_item : Items → String → Bool
holds_item nil s = false
holds_item (cons v vs) s = is_string v s || holds_item vs s

abbrev pub list_includes : Value → String → Bool
list_includes (array _ vs) s = holds_item vs s
list_includes _ s = false

-- `RISK_ORDER[left] > RISK_ORDER[right]`; a comparison with a missing entry is false.
abbrev pub riskier : Option ℕ → Option ℕ → Bool
riskier (some left) (some right) = ltb right left
riskier _ _ = false

-- `count >= limit` and `count > limit`, false where the limit is no number.
abbrev pub reaches : ℕ → Value → Bool
reaches n (number limit) = leb limit n
reaches n _ = false

abbrev pub exceeds : ℕ → Value → Bool
exceeds n (number limit) = ltb limit n
exceeds n _ = false

-- The first stop signal that is on.
unfoldable pub first_signal : List String → Value → Option String
first_signal [] signals = none
first_signal (s ∷ names) signals =
    let rest = first_signal names signals in
    if same (get signals s) (boolean true) then some s else rest

abbrev pub or_zero : Value → Value
or_zero v = if is_truthy v then v else number 0

-- The first count that its budget does not allow.
unfoldable pub exceeded : Friction → Value → Option String
exceeded spent budget =
    if exceeds spent.gates (get budget "gates")
    then some "gates"
    else if exceeds spent.interruptions (get budget "interruptions")
    then some "interruptions"
    else if exceeds spent.manual_actions (get budget "manualActions")
    then some "manualActions"
    else none

module _ (sha256 : String → String) where
  -- Whether the evidence of an earlier step is used again.
  unfoldable pub conclude : Request → Outcome Value
  conclude r =
      if is_truthy r.previous_evidence
        && is_truthy r.current_evidence
        && can_reuse_evidence sha256 r.previous_evidence r.current_evidence
      then (evidence_identity sha256 r.current_evidence >>= λ identity. ok (
          decision "REUSE_EVIDENCE" "Physical evidence identity is unchanged."
            (λ rest. field "evidenceFingerprint" (get identity "evidenceFingerprint") rest)))
      else ok (plain "CONTINUE" "Step remains inside the authorized mission envelope.")

  -- The friction of a step, after the signals.
  unfoldable pub within_budget : Request → Value → Outcome Value
  within_budget r mission = do
    require (is_present (get mission "frictionBudget") && is_present r.friction_spent)
        "Cannot read properties of null."
    gates ← require_count (or_zero (get r.friction_spent "gates")) "Spent gates"
    interruptions ←
        require_count (or_zero (get r.friction_spent "interruptions")) "Spent interruptions"
    manual_actions ←
        require_count (or_zero (get r.friction_spent "manualActions")) "Spent manual actions"
    let spent : Friction = record {
      gates = gates;
      interruptions = interruptions;
      manual_actions = manual_actions;
    }
    elim (exceeded spent (get mission "frictionBudget")) [
      | some name ↦ ok (
          plain "BLOCKED"
            (String.◌++◌ (String.◌++◌ "Mission friction budget exceeded for " name) "."))
      | none ↦ conclude r
    ]

  -- The signals of a step, after the limits of the mission.
  unfoldable pub without_signals : Request → Value → Outcome Value
  without_signals r mission = do
    require (is_present r.signals) "Cannot read properties of null."
    elim (first_signal stop_signals r.signals) [
      | some name ↦ ok (
          plain "HUMAN_AUTHORITY_REQUIRED"
            (String.◌++◌ (String.◌++◌ "Requested step reached the " name) " boundary."))
      | none ↦ within_budget r mission
    ]

  -- The limits that a mission sets, in the source's order, for a risk that is known.
  unfoldable pub within_limits : Request → Value → String → String → String → Outcome Value
  within_limits r mission operation target risk =
      if not (list_includes (get mission "allowedOperations") operation)
        || not (list_includes (get mission "allowedTargets") target)
      then ok (plain "BLOCKED" "Requested step expands the authorized mission scope.")
      else if riskier (risk_order (text risk)) (risk_order (get mission "risk"))
      then ok (plain "HUMAN_AUTHORITY_REQUIRED" "Requested step increases mission risk.")
      else if reaches r.equivalent_attempts (get mission "equivalentAttemptCeiling")
      then ok (plain "BLOCKED" "Two equivalent attempts ended without verified progress.")
      else without_signals r mission

  unfoldable pub evaluate_mission_runner_step : Request → Outcome Value
  evaluate_mission_runner_step r = do
    mission ← validate_mission_execution_envelope sha256 r.envelope
    operation ← require_text r.operation "Requested operation" 256
    target ← require_text r.target "Requested target" 1024
    risk ←
        require_text (if is_truthy r.risk then r.risk else get mission "risk") "Requested risk" 16
    elim (find_symbol risks (upper (codes risk))) [
      | none ↦ ok (plain "BLOCKED" "Requested risk is unsupported.")
      | some symbol ↦ within_limits r mission operation target symbol
    ]
