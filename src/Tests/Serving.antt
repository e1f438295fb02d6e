-- ===== src/Tests/Serving.antt =====
-- A submission through the control plane, from its claim to its cancellation.
use surgical_dev_ops.Base.Text.{is_hash, has_shape, is_space, units}
use surgical_dev_ops.Base.Outcome.{ok, chains}
use surgical_dev_ops.Base.{◌≡◌, refl, ℕ, String, true, [], ◌∷◌}
use surgical_dev_ops.Json.{Value, undefined, text, number, object, end, field}
use surgical_dev_ops.Json.Canonical.{canonical_json, decimal, number_text, quote}
use surgical_dev_ops.Timestamp.{parse_iso, date_parse, is_canonical}
use surgical_dev_ops.Protocol.{
  exact_fields, assert_dense_array, coerced, is_identifier, is_git_head, require_identifier,
  require_timestamp, is_sequence, require_sequence,
}
use surgical_dev_ops.Protocol.Credentials.{
  is_credential_field, carries_credential, is_credential_free, free_items, free_fields,
  assert_credential_free,
}
use surgical_dev_ops.Protocol.Copy.{deep_freeze_copy, copy_value, copy_items, copy_fields}
use surgical_dev_ops.Protocol.Serialize.{is_serializable, canonical_serialize, schema_digest}
use surgical_dev_ops.Protocol.Request.{
  is_digest, validate_principal, validate_authority, is_workspace_path, validate_workspace,
  validate_repository, validate_expected_state, validate_binding, are_distinct_texts,
  lists_distinct, validate_versions, validate_submission, validate_external, validate_details,
  validate_contents, fields_of, check_request, validate_request,
}
use surgical_dev_ops.Registry.{Entry, Registry, empty, lookup, set, store}
use surgical_dev_ops.Registry.Claim.{
  created, same_value, require_same, refuse_substitution, new_entry, claim_operation, claim_key,
  claim_request, check_claim, claim,
}
use surgical_dev_ops.Registry.Observe.{
  one_object, check_bound, require_bound, get_entry, is_terminal_value, progress, falls_back,
  check_observation, observed_entry, observe,
}
use surgical_dev_ops.Registry.Spec.{step, after}
use surgical_dev_ops.Service.{
  read_clock, result_of, observation_request, negotiation, negotiate, capabilities_answer,
  capabilities, claim_input,
}
use surgical_dev_ops.Service.Operations.{
  failure_observation, observe_failure, after_claiming, claim_for, submit_request, submit, resume,
  observe_request, observed_answer, observe_operation, reconcile, inspected, inspect_found, inspect,
  cancel_request, cancel,
}
use surgical_dev_ops.Service.Reported.{service_step, service_after, pick, resumed}

-- Named on an `unfolding` line, it lets the control plane compute.
unfoldable pub serving : Unit {0}
unfolding chains is_hash has_shape is_space units canonical_json decimal number_text quote parse_iso
    date_parse is_canonical exact_fields assert_dense_array coerced is_identifier is_git_head
    require_identifier require_timestamp is_sequence require_sequence is_credential_field
    carries_credential is_credential_free free_items free_fields assert_credential_free
    deep_freeze_copy copy_value copy_items copy_fields is_serializable canonical_serialize
    schema_digest is_digest validate_principal validate_authority is_workspace_path
    validate_workspace validate_repository validate_expected_state validate_binding
    are_distinct_texts lists_distinct validate_versions validate_submission validate_external
    validate_details validate_contents fields_of check_request validate_request lookup set store
    same_value require_same refuse_substitution new_entry claim_operation claim_key claim_request
    check_claim claim one_object check_bound require_bound get_entry is_terminal_value progress
    falls_back check_observation observed_entry observe step after read_clock result_of
    observation_request negotiation negotiate capabilities_answer capabilities failure_observation
    observe_failure after_claiming claim_for submit_request submit resume observe_request
    observed_answer observe_operation reconcile inspected inspect_found inspect cancel_request
    cancel service_step service_after pick resumed
serving = tt

abbrev pub digest_text : String
digest_text = "00000000000000000000000000000000000000000000000000000000000000aa"

abbrev pub head_text : String
head_text = "00000000000000000000000000000000000000bb"

abbrev pub principal : Value
principal = object true (field "type" (text "human") (field "id" (text "human-0001") end))

abbrev pub authority : Value
authority =
    object true (
      field "reference" (text "authority-1")
        (field "delegationReference" (text "delegation-1") end))

abbrev pub workspace : Value
workspace =
    object true (field "path" (text "/work/tree") (field "physicalIdentity" (text digest_text) end))

abbrev pub repository : Value
repository = object true (field "id" (text "repository-1") (field "head" (text head_text) end))

abbrev pub expected_state : Value
expected_state = object true (
    field "repositoryHead" (text head_text)
      (field "worktreeFingerprint" (text digest_text) (field "cas" (text digest_text) end)))

abbrev pub submission : Value
submission = object true (
    field "protocolVersion" (text "sacp.sdo-local/v1") (
      field "requestId" (text "request-0001") (
        field "operationId" (text "operation-1") (
          field "idempotencyKey" (text "key-000001") (
            field "intentFingerprint" (text digest_text) (
              field "principal" principal (
                field "authority" authority (
                  field "requestedCapability" (text "mutation.propose") (
                    field "workspace" workspace (
                      field "repository" repository (
                        field "expectedState" expected_state (
                          field "approvalReference" (text "approval-1")
                            (field "submittedAt" (text "2026-01-01T00:00:00.000Z") end)))))))))))))

abbrev pub execution : Value
execution = text "execution-1"

abbrev pub moment : Value
moment = text "2026-01-01T00:00:01.000Z"

-- A later request about the submission, which has seen a sequence.
abbrev pub following : ℕ → Value
following seen = object true (
    field "protocolVersion" (text "sacp.sdo-local/v1") (
      field "requestId" (text "request-0002") (
        field "operationId" (text "operation-1") (
          field "idempotencyKey" (text "key-000001") (
            field "intentFingerprint" (text digest_text) (
              field "principal" principal (
                field "authority" authority (
                  field "workspace" workspace (
                    field "repository" repository (
                      field "externalExecutionId" execution
                        (field "afterObservationSequence" (number seen) end)))))))))))

abbrev pub claim_call : Value
claim_call = claim_input submission execution moment

abbrev pub first_entry : Entry
first_entry = record {
  identity = 0;
  protocol_version = text "sacp.sdo-local/v1";
  operation_id = text "operation-1";
  request_id = text "request-0001";
  idempotency_key = text "key-000001";
  intent_fingerprint = text digest_text;
  principal = principal;
  authority = authority;
  workspace = workspace;
  repository = repository;
  request = submission;
  external_execution_id = execution;
  current_observation_state = text "accepted";
  observation_sequence = 1;
  observed_at = moment;
  last_code = undefined;
}

abbrev pub first_registry : Registry
first_registry = record {
  by_operation = (text "operation-1", first_entry) ∷ [];
  by_idempotency = (text "key-000001", first_entry) ∷ [];
  by_external = (execution, first_entry) ∷ [];
  made = 1;
}

pub first_claim : claim empty claim_call ≡ ok (first_registry, created first_entry)
unfolding serving
first_claim = refl
