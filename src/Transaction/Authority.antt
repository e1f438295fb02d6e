-- ===== src/Transaction/Authority.antt =====
-- accelerator/core/mutation-transaction.js: the evidence of commit authority, which must bind every
-- field of its transaction and an evaluation of the authoritative clock.
use surgical_dev_ops.Base.Text.{is_hash}
use surgical_dev_ops.Base.Outcome.{Outcome, ok, throw, require, ◌>>◌, every}
use surgical_dev_ops.Base.{String, Bool, true, false, List, [], ◌∷◌, ◌&&◌, str_eq, some}
use surgical_dev_ops.Json.{
  is_truthy, Value, Fields, text, number, object, end, field, get, is_object, is_frozen, is_string,
  is_number, text_satisfies, deep_freeze,
}
use surgical_dev_ops.Json.Canonical.{canonical_json}
use surgical_dev_ops.Clock.Authority.{classify_mutation_authority, time_schema}
use surgical_dev_ops.Recovery.{digest, spread, without}
use surgical_dev_ops.Transaction.Data.{Transaction}

abbrev pub evidence_schema : String
evidence_schema = "sdo.mutation_commit_authority_evidence.v1"

-- `{ ...value, key: v }`
abbrev pub with_field : String → Value → Value → Value
with_field k v value = object false (field k v (without k (spread value)))

-- `canonicalJson(left) === canonicalJson(right)`
unfoldable pub same_json : Value → Value → Bool
same_json left right = str_eq (canonical_json left) (canonical_json right)

-- The fields that must be those of the transaction.
abbrev pub binding_tests : Transaction → Value → List Bool
binding_tests t e =
    ((is_string (get e "transactionId") t.transaction_id)
      ∷ (is_string (get e "operationId") t.definition.operation_id)
      ∷ (is_string (get e "workspace") t.definition.workspace)
      ∷ (is_string (get e "target") t.definition.target)
      ∷ (is_string (get e "beforeSha256") t.definition.before_sha256)
      ∷ (is_string (get e "replacementSha256") t.definition.replacement_sha256)
      ∷ (is_string (get e "grantFingerprint") t.definition.grant_fingerprint)
      ∷ (is_string (get e "approvalAuthorityFingerprint")
          t.definition.approval_authority_fingerprint)
      ∷ (is_string (get e "verifiedIdentityAssertionFingerprint")
          t.definition.verified_identity_assertion_fingerprint)
      ∷ [])

unfoldable pub binds_transaction : Transaction → Value → Bool
binds_transaction t e = every (binding_tests t e)

-- The decision, the risk, the capability and the scope that it must state.
abbrev pub patch_tests : Transaction → Value → List Bool
patch_tests t e =
    let target = get (get e "scope") "target" in
    ((is_string (get e "policyDecision") "ALLOWED")
      ∷ (is_string (get e "riskLevel") "R3")
      ∷ (is_string (get e "capabilityType") "FILESYSTEM_PATCH")
      ∷ (is_string (get e "action") "PATCH_FILE")
      ∷ (is_truthy target)
      ∷ (is_string (get target "canonicalPath") t.definition.target)
      ∷ (is_string (get target "beforeSha256") t.definition.before_sha256)
      ∷ (is_string (get target "replacementSha256") t.definition.replacement_sha256)
      ∷ [])

unfoldable pub permits_patch : Transaction → Value → Bool
permits_patch t e = every (patch_tests t e)

-- The fields of the evidence that `createCommitAuthorityEvidence` makes of its input.
abbrev pub evidence_fields : Transaction → Value → Fields
evidence_fields t input =
    let evaluation = get input "authoritativeEvaluation" in
    let bounds = get evaluation "bounds" in
    field "schema" (text evidence_schema) (
      field "version" (number 1) (
        field "transactionId" (text t.transaction_id) (
          field "operationId" (text t.definition.operation_id) (
            field "workspace" (text t.definition.workspace) (
              field "target" (text t.definition.target) (
                field "beforeSha256" (text t.definition.before_sha256) (
                  field "replacementSha256" (text t.definition.replacement_sha256) (
                    field "verifiedIdentityAssertionFingerprint"
                      (text t.definition.verified_identity_assertion_fingerprint)
                      (field "approvalAuthorityFingerprint"
                        (text t.definition.approval_authority_fingerprint)
                        (field "grantFingerprint" (text t.definition.grant_fingerprint) (
                          field "policyDecision" (get input "policyDecision") (
                            field "riskLevel" (get input "riskLevel") (
                              field "capabilityType" (get input "capabilityType") (
                                field "action" (get input "action") (
                                  field "scope" (get input "scope") (
                                    field "identityValidity" (get bounds "identity") (
                                      field "approvalValidity" (get bounds "approval") (
                                        field "grantValidity" (get bounds "grant") (
                                          field "authoritativeReading" (get evaluation "reading") (
                                            field "authoritativeEvaluation" evaluation
                                              end))))))))))))))))))))

-- `made.fingerprint === fingerprint`; an exception counts as false.
abbrev pub fingerprint_matches : Outcome Value → Value → Bool
fingerprint_matches (ok made) fingerprint =
    text_satisfies (λ s. is_string fingerprint s) (get made "fingerprint")
fingerprint_matches (throw _) fingerprint = false

module _ (sha256 : String → String) where
  unfoldable pub commit_authority_digest : Fields → String
  commit_authority_digest fields = digest sha256 evidence_schema fields

  unfoldable pub derive_commit_authority_evidence_fingerprint : Value → Outcome String
  derive_commit_authority_evidence_fingerprint evidence = do
    require (is_object evidence) "Commit-authority evidence must be an unambiguous plain object."
    ok (commit_authority_digest (without "fingerprint" (spread evidence)))

  -- The evidence that the clock's classification makes anew of an evaluation's reading, bounds and
  -- progression. Freezing the progression with the reading in it freezes the reading that is then
  -- classified.
  unfoldable pub reclassify : Value → Outcome Value
  reclassify evaluation =
      let progression =
        deep_freeze
          (with_field "reading" (get evaluation "reading") (get evaluation "progression")) in
      classify_mutation_authority sha256 (deep_freeze (get evaluation "reading"))
        (get evaluation "bounds") (some (progression, true))

  -- `authoritativeFingerprintValid`
  unfoldable pub authoritative_fingerprint_valid : Value → Bool
  authoritative_fingerprint_valid evaluation =
      fingerprint_matches (reclassify evaluation) (get evaluation "fingerprint")

  -- The evaluation of the clock, whose bounds are those of the transaction's authorities.
  abbrev pub evaluation_tests : Transaction → Value → List Bool
  evaluation_tests t e =
      let evaluation = get e "authoritativeEvaluation" in
      let bounds = get evaluation "bounds" in
      ((is_truthy evaluation)
        ∷ (is_string (get evaluation "schema") time_schema)
        ∷ (is_string (get evaluation "decision") "ALLOWED")
        ∷ (authoritative_fingerprint_valid evaluation)
        ∷ (is_truthy bounds)
        ∷ (is_string (get (get bounds "identity") "fingerprint")
            t.definition.verified_identity_assertion_fingerprint)
        ∷ (is_string (get (get bounds "approval") "fingerprint")
            t.definition.approval_authority_fingerprint)
        ∷ (is_string (get (get bounds "grant") "fingerprint") t.definition.grant_fingerprint)
        ∷ (same_json (get e "identityValidity") (get bounds "identity"))
        ∷ (same_json (get e "approvalValidity") (get bounds "approval"))
        ∷ (same_json (get e "grantValidity") (get bounds "grant"))
        ∷ (same_json (get e "authoritativeReading") (get evaluation "reading"))
        ∷ [])

  unfoldable pub matches_evaluation : Transaction → Value → Bool
  matches_evaluation t e = every (evaluation_tests t e)

  -- The evidence's own fingerprint, which covers its other fields.
  unfoldable pub is_sealed : Value → Bool
  is_sealed e =
      text_satisfies is_hash (get e "fingerprint")
      && is_string (get e "fingerprint")
          (commit_authority_digest (without "fingerprint" (spread e)))

  unfoldable pub require_commit_authority_evidence : Transaction → Value → Outcome Value
  require_commit_authority_evidence t e = do
    require (is_object e) "Commit-authority evidence must be an unambiguous plain object."
    require
        (every (
          (is_string (get e "schema") evidence_schema)
          ∷ (is_number (get e "version") 1)
          ∷ (is_frozen e)
          ∷ (binds_transaction t e)
          ∷ (permits_patch t e)
          ∷ (matches_evaluation t e)
          ∷ (is_sealed e)
          ∷ []))
        "Commit-authority evidence is malformed, altered, or mismatched."
    ok e
