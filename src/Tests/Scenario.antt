-- ===== src/Tests/Scenario.antt =====
-- One mutation from its definition to the moment at which the target has been written. The digest is
-- a constant function, which is a digest in form.
use surgical_dev_ops.Base.Text.{is_hash, is_text, has_shape}
use surgical_dev_ops.Base.Outcome.{Outcome, ok, throw, chains}
use surgical_dev_ops.Base.{String, true, false, []}
use surgical_dev_ops.Json.{Value, null, text, number, object, end, field, deep_freeze}
use surgical_dev_ops.Json.Canonical.{canonical_json, decimal, number_text, quote}
use surgical_dev_ops.Timestamp.{parse_iso, date_parse, is_canonical}
use surgical_dev_ops.NodePath.{
  split, join, resolve, normalize, segments, relative_segments, relative,
}
use surgical_dev_ops.Recovery.{digest, recovery_fingerprint}
use surgical_dev_ops.Clock.{
  is_decimal, big_int, canonical_timestamp, monotonic, source_identity, fingerprint,
  normalize_reading, validate_reading, progress, expiry_decision, classify_clock_progression,
  classify_expiry, reading_value,
}
use surgical_dev_ops.Clock.Authority.{
  authority_bound, normalize_progression, time_evidence, classify_mutation_authority,
}
use surgical_dev_ops.Transaction.Stage.{
  prepared, stage_name, stage_of, is_terminal, permits, ordinal, same_stage,
}
use surgical_dev_ops.Transaction.Data.{
  Transaction, require_text, require_hash, is_canonical_absolute, require_canonical_absolute,
  is_contained, require_contained_target, exact_input, normalize_definition, replay_identity_for,
  transaction_id_for, derive_mutation_lock_id,
}
use surgical_dev_ops.Transaction.Authority.{
  same_json, binds_transaction, permits_patch, commit_authority_digest,
  derive_commit_authority_evidence_fingerprint, reclassify, authoritative_fingerprint_valid,
  matches_evaluation, is_sealed, require_commit_authority_evidence,
}
use surgical_dev_ops.Transaction.Validate.{
  is_owner_token, has_fitting_keys, event_ok, check_history, first_authority, require_lock_metadata,
  check_identity, check_lock, check_authority, binds_recovery, check_recovery, require_transaction,
}
use surgical_dev_ops.Transaction.Operations.{
  create_mutation_transaction, create_commit_authority_evidence, bind_commit_authority_evidence,
  bind_mutation_recovery_evidence, bind_mutation_lock, known_stage, transition_mutation_transaction,
}

-- Named on an `unfolding` line, it lets the clock and the transaction compute.
unfoldable pub running : Unit {0}
unfolding chains is_hash is_text has_shape deep_freeze canonical_json decimal number_text quote
    parse_iso date_parse is_canonical split join resolve normalize segments relative_segments
    relative digest recovery_fingerprint is_decimal big_int canonical_timestamp monotonic
    source_identity fingerprint normalize_reading validate_reading progress expiry_decision
    classify_clock_progression classify_expiry authority_bound normalize_progression time_evidence
    classify_mutation_authority stage_name stage_of is_terminal permits ordinal same_stage
    require_text require_hash is_canonical_absolute require_canonical_absolute is_contained
    require_contained_target exact_input normalize_definition replay_identity_for transaction_id_for
    derive_mutation_lock_id same_json binds_transaction permits_patch commit_authority_digest
    derive_commit_authority_evidence_fingerprint reclassify authoritative_fingerprint_valid
    matches_evaluation is_sealed require_commit_authority_evidence is_owner_token has_fitting_keys
    event_ok check_history first_authority require_lock_metadata check_identity check_lock
    check_authority binds_recovery check_recovery require_transaction create_mutation_transaction
    create_commit_authority_evidence bind_commit_authority_evidence bind_mutation_recovery_evidence
    bind_mutation_lock known_stage transition_mutation_transaction
running = tt

abbrev pub hash : String
hash = "aaaaaaaaaaaaaaaaaaaaaaaaaaaaaaaaaaaaaaaaaaaaaaaaaaaaaaaaaaaaaaaa"

abbrev pub sha : String → String
sha s = hash

abbrev pub definition_value : Value
definition_value = object true (
    field "operationId" (text "op-1") (
      field "workspace" (text "/w") (
        field "target" (text "/w/a.js") (
          field "beforeSha256" (text hash) (
            field "replacementSha256" (text hash) (
              field "grantFingerprint" (text hash) (
                field "approvalAuthorityFingerprint" (text hash) (
                  field "verifiedIdentityAssertionFingerprint" (text hash)
                    (field "idempotencyKey" (text "key-1") end)))))))))

abbrev pub lock_value : Value
lock_value = object true (
    field "schema" (text "sdo.mutation_lock.v1") (
      field "adapter" (text "FILESYSTEM_EXCLUSIVE_CREATE") (
        field "version" (number 1) (
          field "transactionId" (text hash) (
            field "operationId" (text "op-1") (
              field "workspace" (text "/w") (
                field "target" (text "/w/a.js") (
                  field "lockId" (text hash) (
                    field "ownerToken" (text hash) (
                      field "ownerProcess" (text "7")
                        (field "acquiredAt" (text "2024-01-01T00:00:02.000Z") end)))))))))))

abbrev pub reading : String → String → Value
reading wall_time nanoseconds = reading_value sha "system" wall_time nanoseconds

abbrev pub bound : Value
bound = object true (
    field "issuedAt" (text "2024-01-01T00:00:00.000Z")
      (field "expiresAt" (text "2024-01-02T00:00:00.000Z") (field "fingerprint" (text hash) end)))

abbrev pub bounds : Value
bounds = object true (field "identity" bound (field "approval" bound (field "grant" bound end)))

-- What an outcome holds, or the default.
abbrev pub or_default {ℓ} : {A : Type ℓ} → A → Outcome A → A
or_default d (ok a) = a
or_default d (throw e) = d

-- Where there is none.
abbrev pub no_transaction : Transaction
no_transaction = record {
  schema = "";
  version = 0;
  transaction_id = "";
  replay_identity = "";
  definition = record {
    operation_id = "";
    workspace = "";
    target = "";
    before_sha256 = "";
    replacement_sha256 = "";
    grant_fingerprint = "";
    approval_authority_fingerprint = "";
    verified_identity_assertion_fingerprint = "";
    idempotency_key = "";
  };
  stage = prepared;
  lock = null;
  commit_authority = null;
  recovery_evidence = null;
  history = [];
  frozen = false;
}
