-- ===== src/Service.antt =====
-- accelerator/core/control-plane-service.js over the registry of submissions: each operation checks
-- its request, calls the registry and answers with a message of the protocol. What the service calls
-- outside itself (the clock, the maker of external executions, the gateway) is given by what it
-- answers during a call. An operation that throws may have changed the registry before.
pub mod Operations
pub mod Observed
pub mod Valid
pub mod Checked
pub mod Answers
pub mod Reported
pub mod Calls
pub mod Discovery
use surgical_dev_ops.Base.Text.{codes, units, includes}
use surgical_dev_ops.Base.Outcome.{Outcome, ok, throw, require, ◌>>=◌, ◌>>◌}
use surgical_dev_ops.Base.{
  ℕ, String, Bool, true, false, List, [], ◌∷◌, ◌&&◌, ◌||◌, not, str_eq, if◌then◌else◌, leb,
}
use surgical_dev_ops.Json.{
  Value, Items, undefined, null, boolean, number, text, array, object, nil, cons, end, field, get,
  is_string, is_truthy, text_satisfies,
}
use surgical_dev_ops.Timestamp.{is_canonical}
use surgical_dev_ops.Protocol.{protocol_version}
use surgical_dev_ops.Protocol.Credentials.{assert_credential_free}
use surgical_dev_ops.Protocol.Copy.{deep_freeze_copy}
use surgical_dev_ops.Protocol.Serialize.{schema_digest}
use surgical_dev_ops.Protocol.Request.{validate_request, lists_distinct, is_empty_array, item_texts}
use surgical_dev_ops.Registry.{Entry, Registry}
use surgical_dev_ops.Registry.Claim.{Claim, replayed, created, entry_of, claim}
use surgical_dev_ops.Registry.Observe.{get_entry, observe}

-- What a service is created with: the capabilities that a submission may request, and two switches.
pub record Settings : Type 0 where
  pub requested_capabilities : Value
  pub supports_cancellation : Bool
  pub invokes_gateway : Bool

-- `options.supportedRequestedCapabilities || ['mutation.propose']`.
abbrev pub capabilities_or_default : Value → Value
capabilities_or_default v =
    if is_truthy v then v else array false (cons (text "mutation.propose") nil)

abbrev pub is_plain_true : Value → Bool
is_plain_true (boolean b) = b
is_plain_true _ = false

abbrev pub is_plain_false : Value → Bool
is_plain_false (boolean b) = not b
is_plain_false _ = false

-- The gateway's description of itself must deny physical dispatch.
unfoldable pub check_gateway : Bool → Value → Outcome (Unit {0})
check_gateway invokes descriptor =
    if invokes
    then require
        (is_truthy descriptor
          && is_string (get descriptor "protocol") "sdo.non_physical_gateway.v1"
          && is_plain_false (get descriptor "physicalDispatch"))
        "Injected gateway must prove physical dispatch is disabled"
    else ok tt

abbrev pub or_empty : Value → Value
or_empty v = if is_truthy v then v else array false nil

-- `createControlPlaneProtocolService`, from the options that are data and the gateway's description.
unfoldable pub create_service : Value → Value → Outcome Settings
create_service options descriptor = do
  assert_credential_free (or_empty (get options "supportedRequestedCapabilities"))
  let requested = capabilities_or_default (get options "supportedRequestedCapabilities") in
      do
        require
            (not (is_empty_array requested)
              && lists_distinct (λ s. leb 8 (units (codes s))) requested)
            "Requested capability catalog is invalid"
        check_gateway (is_plain_true (get options "invokeNonPhysicalGateway")) descriptor
        ok (record {
          requested_capabilities = requested;
          supports_cancellation = is_plain_true (get options "supportsCancellation");
          invokes_gateway = is_plain_true (get options "invokeNonPhysicalGateway");
        })

abbrev pub internal_failure : String
internal_failure = "internal_failure INTERNAL_FAILURE"

abbrev pub registry_failure : String
registry_failure = "internal_failure REGISTRY_FAILURE"

-- `requireTimestamp(now)`, of what the clock answered.
unfoldable pub read_clock : Outcome Value → Outcome Value
read_clock (throw e) = throw internal_failure
read_clock (ok value) = do require (text_satisfies is_canonical value) internal_failure; ok value

-- `result(request, entry, classification, code)`.
unfoldable pub result_of : Value → Entry → Value → String → Value
result_of request entry classification code = deep_freeze_copy (
    object false (
      field "protocolVersion" (text protocol_version) (
        field "requestId" (get request "requestId") (
          field "operationId" (get request "operationId") (
            field "idempotencyKey" (get request "idempotencyKey") (
              field "intentFingerprint" (get request "intentFingerprint") (
                field "externalExecutionId" entry.external_execution_id (
                  field "classification" classification (
                    field "code" (text code) (
                      field "observationSequence" (number entry.observation_sequence)
                        (field "observedAt" entry.observed_at end)))))))))))

-- `observationRequest(request, entry)`.
unfoldable pub observation_request : Value → Value → Entry → Value
observation_request request sequence entry = deep_freeze_copy (
    object false (
      field "protocolVersion" (text protocol_version) (
        field "requestId" (get request "requestId") (
          field "operationId" entry.operation_id (
            field "idempotencyKey" entry.idempotency_key (
              field "intentFingerprint" entry.intent_fingerprint (
                field "principal" entry.principal (
                  field "authority" entry.authority (
                    field "workspace" entry.workspace (
                      field "repository" entry.repository (
                        field "externalExecutionId" entry.external_execution_id
                          (field "afterObservationSequence" sequence end))))))))))))

abbrev pub claim_input : Value → Value → Value → Value
claim_input request external observed = object false (
    field "request" request
      (field "externalExecutionId" external (field "observedAt" observed end)))

abbrev pub observe_input : Value → Value → String → Value → Value
observe_input request classification code observed = object false (
    field "request" request (
      field "classification" classification
        (field "code" (text code) (field "observedAt" observed end))))

-- What the outside answers to a submission before its gateway is called: the external execution and
-- the clock at the claim.
pub record Surroundings : Type 0 where
  pub external : Outcome Value
  pub claimed_at : Outcome Value

abbrev pub lists_text : Value → Value → Bool
lists_text (array _ xs) (text s) = item_texts xs s
lists_text _ _ = false

-- Any error of the maker of external executions is the registry's failure.
abbrev pub or_registry_failure : Outcome Value → Outcome Value
or_registry_failure (ok v) = ok v
or_registry_failure (throw e) = throw registry_failure

-- The answer to a negotiation, by whether the version is among the supported ones.
unfoldable pub negotiation : Bool → Value → Value
negotiation compatible name = deep_freeze_copy (
    object false (
      field "requestId" name (
        field "selectedVersion" (if compatible then text protocol_version else null) (
          field "supportedVersions" (array false (cons (text protocol_version) nil)) (
            field "classification" (text (if compatible then "accepted" else "protocol_failure")) (
              field "code"
                (text
                  (if compatible then "PROTOCOL_NEGOTIATED" else "UNSUPPORTED_PROTOCOL_VERSION"))
                end))))))

-- `negotiate(input)`.
unfoldable pub negotiate : Value → Outcome Value
negotiate input = do
  request ← validate_request "negotiate" input
  ok (
      negotiation (lists_text (get request "supportedVersions") (text protocol_version))
        (get request "requestId"))

-- `PROTOCOL_CAPABILITIES` without `cancel` where it is not supported.
abbrev pub available : Bool → Value
available supports_cancellation =
    let others = cons (text "inspect") (cons (text "reconcile") (cons (text "submit") nil)) in
    array false (if supports_cancellation then cons (text "cancel") others else others)

unfoldable pub capabilities_answer : (String → String) → Bool → Value → Value
capabilities_answer sha256 supports_cancellation name = deep_freeze_copy (
    object false (
      field "protocolVersion" (text protocol_version) (
        field "requestId" name (
          field "capabilities" (available supports_cancellation) (
            field "physicalDispatchEnabled" (boolean false) (
              field "classification" (text "accepted") (
                field "code" (text "CAPABILITIES_DISCOVERED")
                  (field "schemaDigest" (text (schema_digest sha256)) end))))))))

-- `capabilities(input)`.
unfoldable pub capabilities : (String → String) → Settings → Value → Outcome Value
capabilities sha256 settings input = do
  request ← validate_request "capabilities" input
  ok (capabilities_answer sha256 settings.supports_cancellation (get request "requestId"))
