-- ===== src/Tests/Risky.antt =====
-- A refactoring that a human has approved.
use surgical_dev_ops.Base.Outcome.{ok}
use surgical_dev_ops.Base.Text.{is_space, is_blank, trim, upper, upper_char}
use surgical_dev_ops.Base.{◌≡◌, refl, String, true, false, Option, some}
use surgical_dev_ops.Json.{
  Value, undefined, boolean, text, number, array, object, nil, cons, end, field, get,
}
use surgical_dev_ops.Lifecycle.{find_symbol}
use surgical_dev_ops.Identity.{
  stringify, text_or_null, timestamp_or_null, optional_text, canonical_workspace, Temporal,
  is_assertion, require_allowed, differs, meets_audience,
}
use surgical_dev_ops.Identity.Evaluate.{
  assertion_fields, check_time, check_expected, evaluate_fields, evaluate_identity,
}
use surgical_dev_ops.Identity.Laws.{Verified, evaluate_identity-Verified}
use surgical_dev_ops.Risk.{
  level_order, highest_level, normalize_mode, normalize_caller_risk, validate_facts,
  validate_mode_facts, validate_numeric_facts, is_sensitive, is_critical, computed_level,
  computed_signals,
}
use surgical_dev_ops.Risk.Approval.{
  identity_expected, approval_fields, parsed, is_approval, check_entries, resolve_expected,
  evaluate_approval, evaluate_r3,
}
use surgical_dev_ops.Risk.Classify.{
  denied, validate_flags, defect, evaluate_approved_policy, evaluate_policy, classified, with_level,
  with_risk, with_defect, with_mode, classify_scope,
}
use surgical_dev_ops.Risk.Laws.{Permitted, classify_scope-Permitted}
use surgical_dev_ops.Risk.Approved.{Approved, classify_scope-Approved}
use surgical_dev_ops.Tests.Scenario.{running, sha, reading, or_default}

-- Named on an `unfolding` line, it lets the classification compute.
classifying : Unit {0}
unfolding running is_space is_blank trim upper upper_char find_symbol stringify text_or_null
    timestamp_or_null optional_text canonical_workspace is_assertion require_allowed differs
    meets_audience assertion_fields check_time check_expected evaluate_fields evaluate_identity
    level_order highest_level normalize_mode normalize_caller_risk validate_facts
    validate_mode_facts validate_numeric_facts is_sensitive is_critical computed_level
    computed_signals approval_fields parsed is_approval check_entries resolve_expected
    evaluate_approval evaluate_r3 denied validate_flags defect evaluate_approved_policy
    evaluate_policy classified with_level with_risk with_defect with_mode classify_scope
classifying = tt

abbrev root : String → Option String
root s = some s

abbrev temporal : Temporal
temporal = record { require_current = true; reading = reading "2024-01-01T00:00:10.000Z" "10" }

abbrev assertion : Value
assertion = object true (
    field "schema" (text "sdo.verified_human_identity_assertion.v1") (
      field "verification" (text "VERIFIED") (
        field "assertionId" (text "assertion-1") (
          field "subject"
            (object true (field "id" (text "human-1") (field "type" (text "HUMAN") end)))
            (field "issuer" (text "issuer-1") (
              field "authentication"
                (object true (field "method" (text "key") (field "context" (text "desk") end)))
                (field "issuedAt" (text "2024-01-01T00:00:00.000Z") (
                  field "expiresAt" (text "2024-01-02T00:00:00.000Z") (
                    field "audience" (array true (cons (text "sdo") nil)) (
                      field "operationId" (text "op-1") (
                        field "workspace" (text "/w") (
                          field "revocationStatus" (text "NOT_REVOKED")
                            (field "verifiedAt" (text "2024-01-01T00:00:01.000Z") end)))))))))))))

abbrev scope : Value
scope = object true (field "target" (text "/w/a.js") end)

abbrev approval : Value
approval = object true (
    field "approvalAuthorityId" (text "approval-1") (
      field "operationId" (text "op-1") (
        field "approver"
          (object true (field "id" (text "human-1") (field "type" (text "HUMAN") end)))
          (field "decision" (text "APPROVED") (
            field "riskLevel" (text "R3") (
              field "capabilityType" (text "FILESYSTEM_PATCH") (
                field "action" (text "PATCH_FILE") (
                  field "workspace" (text "/w") (
                    field "scope" scope (
                      field "policyDecision" (text "APPROVAL_REQUIRED") (
                        field "timestamp" (text "2024-01-01T00:00:02.000Z") (
                          field "expiresAt" (text "2024-01-01T12:00:00.000Z")
                            (field "verifiedIdentityAssertion" assertion end)))))))))))))

abbrev facts : Value
facts = object true (
    field "readOnly" (boolean false) (
      field "externalEffect" (boolean false) (
        field "reversible" (boolean true) (
          field "sensitive" (boolean false)
            (field "critical" (boolean true) (field "irreversible" (boolean false) end))))))

abbrev operation : Value
operation = object true (
    field "mode" (text "refractor") (
      field "facts" facts (
        field "estimatedDiffLines" (number 120) (
          field "files" (array true (cons (object true (field "lines" (number 40) end)) nil)) (
            field "architecturalChange" (boolean false) (
              field "worktreeClean" (boolean true) (
                field "risk" (text "médio") (
                  field "operationId" (text "op-1") (
                    field "workspace" (text "/w") (
                      field "capabilityType" (text "FILESYSTEM_PATCH") (
                        field "action" (text "PATCH_FILE") (
                          field "scope" scope (
                            field "policy"
                              (object true (
                                field "decision" (text "APPROVAL_REQUIRED")
                                  (field "approvalAuthority" approval end)))
                              end)))))))))))))

is_allowed : (classify_scope sha root temporal operation).execution_allowed ≡ true
unfolding classifying
is_allowed = refl

classify_scope-Permitted_example :
    Permitted sha root temporal operation (classify_scope sha root temporal operation)
classify_scope-Permitted_example = classify_scope-Permitted sha root temporal operation is_allowed

moded : normalize_mode (get operation "mode") ≡ some "REFRACTOR"
unfolding classifying
moded = refl

critical : is_critical operation "REFRACTOR" ≡ true
unfolding classifying
critical = refl

classify_scope-Approved_example :
    Approved sha root temporal (get (get operation "policy") "approvalAuthority") operation
classify_scope-Approved_example =
    classify_scope-Approved sha root temporal operation "REFRACTOR" is_allowed moded critical

abbrev verified : Value
verified =
    or_default undefined
      (evaluate_identity sha root temporal assertion (identity_expected approval (text "/w")))

identity_verified :
    evaluate_identity sha root temporal assertion (identity_expected approval (text "/w"))
    ≡ ok verified
unfolding classifying
identity_verified = refl

evaluate_identity-Verified_example :
    Verified sha root temporal assertion
      (object false (assertion_fields sha root assertion))
      (identity_expected approval (text "/w"))
evaluate_identity-Verified_example =
    evaluate_identity-Verified sha root temporal assertion (identity_expected approval (text "/w"))
      verified identity_verified
