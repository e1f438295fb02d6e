-- ===== src/Recovery/Classify.antt =====
-- accelerator/core/mutation-recovery.js: the classification of an interrupted mutation, from its
-- journal, the state of the target, the lock and the authoritative observation.
use surgical_dev_ops.Base.Text.{includes, is_hash}
use surgical_dev_ops.Base.Outcome.{Outcome, ok, require, ◌>>◌, every}
use surgical_dev_ops.Base.{
  String, Bool, true, false, List, [], ◌∷◌, ◌&&◌, ◌||◌, str_eq, if◌then◌else◌,
}
use surgical_dev_ops.Json.{
  Value, Fields, undefined, null, text, number, object, end, field, get, is_frozen, is_string,
  text_satisfies, deep_freeze, is_truthy, same,
}
use surgical_dev_ops.Recovery.{digest, recovery_schema}

abbrev pub pre_commit : List String
pre_commit = "PREPARED" ∷ "LOCKED" ∷ "BEFORE_VERIFIED" ∷ "MUTATION_STARTED" ∷ []

abbrev pub post_commit : List String
post_commit = "PHYSICAL_APPLIED" ∷ "AFTER_VERIFIED" ∷ "EVIDENCE_RECORDED" ∷ "FINALIZED_SUCCESS" ∷ []

abbrev pub physical_classifications : List String
physical_classifications = "BEFORE" ∷ "REPLACEMENT" ∷ "OTHER" ∷ "UNAVAILABLE" ∷ []

abbrev pub lock_classifications : List String
lock_classifications = "MATCHED" ∷ "MISSING" ∷ "CORRUPT" ∷ "AMBIGUOUS_OWNER" ∷ []

-- A value with properties, of which reading one does not throw.
abbrev pub is_present : Value → Bool
is_present undefined = false
is_present null = false
is_present _ = true

-- The guard at the head of `classifyMutationRecovery`.
unfoldable pub bound_inputs : Value → Value → Value → Value → Bool
bound_inputs journal physical lock observation =
    let t = get journal "transaction" in
    every (
      (is_truthy journal)
      ∷ (is_truthy t)
      ∷ (is_frozen journal)
      ∷ (is_present (get journal "identity"))
      ∷ (same (get (get journal "identity") "transactionId") (get t "transactionId"))
      ∷ (is_truthy physical)
      ∷ (same (get physical "transactionId") (get t "transactionId"))
      ∷ (same (get physical "workspace") (get t "workspace"))
      ∷ (same (get physical "target") (get t "target"))
      ∷ (text_satisfies (includes physical_classifications) (get physical "classification"))
      ∷ (is_truthy lock)
      ∷ (text_satisfies (includes lock_classifications) (get lock "classification"))
      ∷ (is_truthy observation)
      ∷ (is_string (get observation "decision") "ALLOWED")
      ∷ (is_frozen observation)
      ∷ [])

unfoldable pub is_commit_proven : Value → Bool
is_commit_proven t =
    let commit = get t "commitAuthority" in
    every (
      (is_truthy commit)
      ∷ (text_satisfies is_hash (get commit "fingerprint"))
      ∷ (same (get commit "transactionId") (get t "transactionId"))
      ∷ (same (get commit "target") (get t "target"))
      ∷ (same (get commit "beforeSha256") (get t "beforeSha256"))
      ∷ (same (get commit "replacementSha256") (get t "replacementSha256"))
      ∷ [])

-- The classification, the terminal stage and the outcome.
pub record Verdict : Type 0 where
  pub classification : String
  pub terminal_stage : String
  pub outcome : String

abbrev pub unresolved : Verdict
unresolved = record {
  classification = "RECOVERY_UNRESOLVED";
  terminal_stage = "RECOVERY_UNRESOLVED";
  outcome = "FAILED";
}

abbrev pub not_applied : Verdict
not_applied = record {
  classification = "NOT_APPLIED";
  terminal_stage = "FINALIZED_FAILED";
  outcome = "FAILED";
}

abbrev pub restored : Verdict
restored = record {
  classification = "RESTORED";
  terminal_stage = "FINALIZED_FAILED";
  outcome = "FAILED";
}

abbrev pub applied : Verdict
applied = record {
  classification = "PREVIOUSLY_AUTHORIZED_APPLIED";
  terminal_stage = "FINALIZED_SUCCESS";
  outcome = "SUCCESS";
}

-- The stages at which an authorised replacement counts as applied.
unfoldable pub is_applied_stage : Value → Bool
is_applied_stage stage =
    is_string stage "COMMIT_AUTHORITY_VERIFIED"
    || text_satisfies (includes post_commit) stage
    || is_string stage "RECOVERY_REQUIRED"
    || is_string stage "RECOVERED"

-- The tests of the classification, in the source's order.
unfoldable pub decide :
    (matched before is_pre_commit is_recovered replacement commit_proven is_applied : Bool)
    → Verdict
decide matched before is_pre_commit is_recovered replacement commit_proven is_applied =
    if matched
    then (if before && is_pre_commit
        then not_applied
        else if before && is_recovered
        then restored
        else if replacement && commit_proven && is_applied
        then applied
        else unresolved)
    else unresolved

unfoldable pub verdict : Value → Value → Value → Bool → Verdict
verdict lock physical stage commit_proven =
    decide (is_string lock "MATCHED") (is_string physical "BEFORE")
      (text_satisfies (includes pre_commit) stage) (is_string stage "RECOVERED")
      (is_string physical "REPLACEMENT") commit_proven (is_applied_stage stage)

abbrev pub lock_disposition : String → String
lock_disposition terminal_stage =
    if str_eq terminal_stage "RECOVERY_UNRESOLVED" then "RETAINED" else "RELEASED"

-- The fields of the evidence, in order, before what ends them.
abbrev pub recovery_fields : Value → Value → Value → Value → Verdict → Bool → Fields → Fields
recovery_fields journal physical lock observation v proven rest =
    let t = get journal "transaction" in
    field "schema" (text recovery_schema) (
      field "version" (number 1) (
        field "transactionId" (get t "transactionId") (
          field "operationId" (get t "operationId") (
            field "journalId" (get journal "journalId") (
              field "workspace" (get t "workspace") (
                field "target" (get t "target") (
                  field "beforeSha256" (get t "beforeSha256") (
                    field "replacementSha256" (get t "replacementSha256") (
                      field "verifiedIdentityAssertionFingerprint"
                        (get t "verifiedIdentityAssertionFingerprint")
                        (field "approvalAuthorityFingerprint" (get t "approvalAuthorityFingerprint")
                          (field "grantFingerprint" (get t "grantFingerprint") (
                            field "commitAuthorityFingerprint"
                              (if proven then get (get t "commitAuthority") "fingerprint" else null)
                              (field "previousJournalStage" (get t "stage") (
                                field "observedHash" (get physical "sha256") (
                                  field "physicalClassification" (get physical "classification") (
                                    field "lockClassification" (get lock "classification") (
                                      field "recoveryClassification" (text v.classification) (
                                        field "terminalStage" (text v.terminal_stage) (
                                          field "outcome" (text v.outcome) (
                                            field "finalRecoveryState" (text v.terminal_stage) (
                                              field "lockDisposition"
                                                (text (lock_disposition v.terminal_stage))
                                                (field "authoritativeObservation" observation
                                                  rest))))))))))))))))))))))

-- The evidence of a verdict, with its fingerprint as the last field.
abbrev pub recovery_evidence :
    (String → String) → Value → Value → Value → Value → Verdict → Bool → Value
recovery_evidence sha256 journal physical lock observation v proven =
    let print =
      digest sha256 recovery_schema
        (recovery_fields journal physical lock observation v proven end) in
    deep_freeze (
      object false (
        recovery_fields journal physical lock observation v proven
          (field "fingerprint" (text print) end)))

unfoldable pub classify_mutation_recovery :
    (String → String) → Value → Value → Value → Value → Outcome Value
classify_mutation_recovery sha256 journal physical lock observation = do
  require (bound_inputs journal physical lock observation)
      "Recovery inputs are missing, mutable, or inconsistently bound."
  let t = get journal "transaction"
  let proven = is_commit_proven t
  let v = verdict (get lock "classification") (get physical "classification") (get t "stage") proven
  ok (recovery_evidence sha256 journal physical lock observation v proven)
