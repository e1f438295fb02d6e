-- ===== src/Risk/Classify.antt =====
-- `evaluatePolicy` and `classifyScope` of accelerator/core/risk-classification.js. A policy that denies
-- is the throw of its reason, and one that allows gives the approval it rests on, or null. Of the
-- governance that a classification states, the parts are left out that are constant or follow from
-- its level and its mode.
use surgical_dev_ops.Base.Text.{includes}
use surgical_dev_ops.Base.Outcome.{Outcome, ok, throw, require, reject, ◌>>◌, is_ok}
use surgical_dev_ops.Base.{
  String, Bool, true, false, List, [], ◌∷◌, ◌++◌, ◌&&◌, not, if◌then◌else◌, ltb, Option, some, none,
  map, str_eq,
}
use surgical_dev_ops.Json.{
  Value, Fields, null, text, field, end, get, is_object, is_string, text_satisfies,
}
use surgical_dev_ops.Identity.{Temporal}
use surgical_dev_ops.Risk.{
  Level, r0, r1, r2, r3, level_order, highest_level, normalize_mode, CallerRisk, absent, malformed,
  given, normalize_caller_risk, fact, is_boolean_value, validate_facts, validate_mode_facts,
  validate_numeric_facts, computed_level, computed_signals,
}
use surgical_dev_ops.Risk.Approval.{or_null, evaluate_r3}

abbrev pub is_r3 : Level → Bool
is_r3 r3 = true
is_r3 _ = false

abbrev pub is_r0 : Level → Bool
is_r0 r0 = true
is_r0 _ = false

-- A classification and what its policy came to.
pub record Classification : Type 0 where
  pub level : Option Level
  pub computed : Option Level
  pub caller_risk : CallerRisk
  pub mode : Option String
  pub execution_allowed : Bool
  pub policy : Outcome Value
  pub signals : List String
  pub reasons : List String
  pub risk : Option String
  pub human_approval_required : Bool

abbrev pub level_is_r3 : Option Level → Bool
level_is_r3 (some level) = is_r3 level
level_is_r3 none = false

-- `LEGACY_LABEL[level]`.
abbrev pub legacy_label : Level → String
legacy_label r0 = "BAIXO"
legacy_label r1 = "BAIXO"
legacy_label r2 = "MÉDIO"
legacy_label r3 = "ALTO"

abbrev label_of : Option Level → Option String
label_of (some level) = some (legacy_label level)
label_of none = none

-- The reason that is recorded with a signal.
abbrev pub reason_of : String → String
reason_of signal =
    if str_eq signal "SENSITIVE_OPERATION"
    then "Sensitive or expanded operational scope requires R2 treatment."
    else if str_eq signal "CRITICAL_OPERATION"
    then "Critical, irreversible, architectural or broad scope requires R3 treatment."
    else "Caller-supplied risk elevated the computed risk."

-- `denied(reason, details)`.
unfoldable pub denied : String → Option String → Option Level → List String → Classification
denied reason mode level signals = record {
  level = level;
  computed = none;
  caller_risk = absent;
  mode = mode;
  execution_allowed = false;
  policy = throw reason;
  signals = signals;
  reasons = reason ∷ [];
  risk = label_of level;
  human_approval_required = level_is_r3 level;
}

-- The first defect of several.
abbrev pub first_defect : List (Option String) → Option String
first_defect [] = none
first_defect (some reason ∷ ds) = some reason
first_defect (none ∷ ds) = first_defect ds

unfoldable pub validate_flags : Value → Option String
validate_flags input =
    if is_boolean_value (get input "architecturalChange")
      && is_boolean_value (get input "worktreeClean")
    then none
    else some "Required classification facts are missing or ambiguous."

-- All defects of an input with a mode.
unfoldable pub defect : Value → String → Option String
defect input mode = first_defect (
    validate_facts (get input "facts")
    ∷ validate_mode_facts mode (get input "facts")
    ∷ validate_numeric_facts input
    ∷ validate_flags input
    ∷ [])

-- What an approval of the operation is expected to say.
abbrev pub approval_expected : Value → Fields
approval_expected input = field "operationId" (get input "operationId") (
    field "workspace" (get input "workspace") (
      field "capabilityType" (get input "capabilityType") (
        field "action" (get input "action") (
          field "scope" (get input "scope") (
            field "riskLevel" (text "R3") (
              field "policyDecision" (text "APPROVAL_REQUIRED") (
                field "tenantId" (or_null (get input "tenantId"))
                  (field "projectId" (or_null (get input "projectId")) end))))))))

-- `CALLER_RISK_ELEVATION`, where the caller's risk is above the computed one.
abbrev pub elevation : CallerRisk → Level → List String
elevation (given level) computed =
    if ltb (level_order computed) (level_order level) then "CALLER_RISK_ELEVATION" ∷ [] else []
elevation _ computed = []

abbrev pub raised : Level → CallerRisk → Level
raised computed (given level) = highest_level computed level
raised computed _ = computed

module _ (sha256 : String → String) (authorized_root : String → Option String) where
  -- The policy of an operation of level R3.
  unfoldable pub evaluate_approved_policy : Temporal → Value → Value → Outcome Value
  evaluate_approved_policy t policy input = do
    require (is_string (get policy "decision") "APPROVAL_REQUIRED")
        "R3 policy must remain APPROVAL_REQUIRED until bound approval."
    evaluate_r3 sha256 authorized_root t (get policy "approvalAuthority") (approval_expected input)

  -- `evaluatePolicy(policy, level, input, temporalAuthority)`.
  unfoldable pub evaluate_policy : Temporal → Value → Level → Value → Outcome Value
  evaluate_policy t policy level input = do
    require (is_object policy) "Policy is missing."
    require
        (text_satisfies (includes ("ALLOW" ∷ "DENY" ∷ "APPROVAL_REQUIRED" ∷ []))
          (get policy "decision"))
        "Policy decision is missing or ambiguous."
    reject (is_string (get policy "decision") "DENY") "Policy explicitly denied the operation."
    if is_r3 level then evaluate_approved_policy t policy input else do
      require (is_string (get policy "decision") "ALLOW")
          "Approval-required policy is invalid for non-R3 risk."
      ok null

  unfoldable pub classified :
      Value → String → CallerRisk → Level → List String → Outcome Value → Classification
  classified input mode caller level signals policy = record {
    level = some level;
    computed = some (computed_level input mode);
    caller_risk = caller;
    mode = some mode;
    execution_allowed = is_ok policy;
    policy = policy;
    signals = signals;
    reasons = map reason_of signals;
    risk = some (legacy_label level);
    human_approval_required = is_r3 level;
  }

  -- The classification of a checked input with its level.
  unfoldable pub with_level :
      Temporal → Value → String → CallerRisk → Level → List String → Classification
  with_level t input mode caller level signals =
      if not (fact input "worktreeClean") && not (is_r0 level)
      then denied "Mutating operations require a clean worktree." (some mode) (some level) signals
      else classified input mode caller level signals
          (evaluate_policy t (get input "policy") level input)

  unfoldable pub with_risk : Temporal → Value → String → CallerRisk → Classification
  with_risk t input mode malformed =
      denied "Caller-supplied risk is malformed or ambiguous." (some mode) none []
  with_risk t input mode caller =
      with_level t input mode caller (raised (computed_level input mode) caller)
        (computed_signals input mode ++ elevation caller (computed_level input mode))

  unfoldable pub with_defect : Temporal → Value → String → Option String → Classification
  with_defect t input mode (some reason) = denied reason (some mode) none []
  with_defect t input mode none = with_risk t input mode (normalize_caller_risk (get input "risk"))

  unfoldable pub with_mode : Temporal → Value → Option String → Classification
  with_mode t input none = denied "Execution mode is missing or unsupported." none none []
  with_mode t input (some mode) = with_defect t input mode (defect input mode)

  -- `classifyScope(input, temporalAuthority)`.
  unfoldable pub classify_scope : Temporal → Value → Classification
  classify_scope t input =
      if is_object input
      then with_mode t input (normalize_mode (get input "mode"))
      else denied "Classification input is missing or invalid." none none []
