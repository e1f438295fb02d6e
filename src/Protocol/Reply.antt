-- ===== src/Protocol/Reply.antt =====
-- The checks of what a service answers, of accelerator/core/control-plane-protocol.js. The request
-- that an answer is held against has itself been checked.
use Prim.Native.Nat.{Ordering}
use Prim.Native.String.{compare}
use surgical_dev_ops.Base.Text.{includes}
use surgical_dev_ops.Base.Outcome.{Outcome, ok, require, ◌>>◌, every}
use surgical_dev_ops.Base.{String, Bool, true, false, List, [], ◌∷◌, ◌&&◌, ◌||◌, not, ltb}
use surgical_dev_ops.Json.{
  Value, Items, boolean, number, text, array, nil, cons, get, is_string, is_null, text_satisfies,
  same, is_truthy,
}
use surgical_dev_ops.Protocol.{
  malformed, protocol_version, result_classifications, protocol_capabilities, exact_fields,
  assert_dense_array, coerced, is_identifier, require_timestamp, is_sequence,
}
use surgical_dev_ops.Protocol.Credentials.{assert_credential_free}
use surgical_dev_ops.Protocol.Copy.{deep_freeze_copy}
use surgical_dev_ops.Protocol.Serialize.{schema_digest}
use surgical_dev_ops.Protocol.Request.{lists_distinct}

abbrev pub is_text_value : Value → Bool
is_text_value v = text_satisfies (λ s. true) v

abbrev all_texts : Items → Bool
all_texts nil = true
all_texts (cons v vs) = is_text_value v && all_texts vs

abbrev pub lists_texts : Value → Bool
lists_texts (array _ xs) = all_texts xs
lists_texts _ = false

-- `value === null || value === PROTOCOL_VERSION`.
abbrev pub is_selection : Value → Bool
is_selection v = is_null v || is_string v protocol_version

unfoldable pub validate_negotiation_result : Value → Value → Outcome Value
validate_negotiation_result result request = do
  assert_credential_free result
  exact_fields result
      ("requestId" ∷ "selectedVersion" ∷ "supportedVersions" ∷ "classification" ∷ "code" ∷ []) []
  assert_dense_array (get result "supportedVersions")
  require
      (every (
        same (get result "requestId") (get request "requestId")
        ∷ lists_texts (get result "supportedVersions")
        ∷ is_selection (get result "selectedVersion")
        ∷ text_satisfies (includes ("accepted" ∷ "protocol_failure" ∷ []))
            (get result "classification")
        ∷ is_text_value (get result "code")
        ∷ []))
      malformed
  ok (deep_freeze_copy result)

abbrev not_above : String → String → Bool
not_above a b = elim (compare a b) [ Ordering.gt ↦ false | _ ↦ true ]

abbrev text_not_above : Value → Value → Bool
text_not_above (text a) (text b) = not_above a b
text_not_above _ _ = false

-- The elements are texts in order, so that sorting them changes nothing.
abbrev in_order : Items → Bool
in_order nil = true
in_order (cons v nil) = true
in_order (cons v (cons w vs)) = text_not_above v w && in_order (cons w vs)

abbrev pub is_sorted : Value → Bool
is_sorted (array _ xs) = in_order xs
is_sorted _ = false

abbrev pub is_boolean_value : Value → Bool
is_boolean_value (boolean b) = true
is_boolean_value _ = false

abbrev pub capability_fields : List String
capability_fields =
    "protocolVersion" ∷ "requestId" ∷ "capabilities" ∷ "physicalDispatchEnabled" ∷ "classification"
    ∷ "code" ∷ "schemaDigest" ∷ []

unfoldable pub validate_capabilities_result : (String → String) → Value → Value → Outcome Value
validate_capabilities_result sha256 result request = do
  assert_credential_free result
  exact_fields result capability_fields []
  assert_dense_array (get result "capabilities")
  require
      (every (
        is_string (get result "protocolVersion") protocol_version
        ∷ same (get result "requestId") (get request "requestId")
        ∷ lists_distinct (includes protocol_capabilities) (get result "capabilities")
        ∷ is_sorted (get result "capabilities")
        ∷ is_boolean_value (get result "physicalDispatchEnabled")
        ∷ is_string (get result "classification") "accepted"
        ∷ is_string (get result "code") "CAPABILITIES_DISCOVERED"
        ∷ is_string (get result "schemaDigest") (schema_digest sha256)
        ∷ []))
      malformed
  ok (deep_freeze_copy result)

abbrev pub result_fields : List String
result_fields =
    "protocolVersion" ∷ "requestId" ∷ "operationId" ∷ "idempotencyKey" ∷ "intentFingerprint"
    ∷ "externalExecutionId" ∷ "classification" ∷ "code" ∷ "observationSequence" ∷ "observedAt" ∷ []

-- `result.observationSequence > request.afterObservationSequence`, where the request says what it
-- has seen.
abbrev pub is_later : Value → Value → Bool
is_later (number n) (number m) = ltb m n
is_later v _ = true

unfoldable pub is_external : Value → Bool
unfolding coerced is_identifier
is_external v = is_null v || is_identifier (coerced v)

unfoldable pub validate_operation_result : Value → Value → Outcome Value
validate_operation_result result request = do
  assert_credential_free result
  exact_fields result result_fields []
  require
      (every (
        is_string (get result "protocolVersion") protocol_version
        ∷ same (get result "requestId") (get request "requestId")
        ∷ same (get result "operationId") (get request "operationId")
        ∷ same (get result "idempotencyKey") (get request "idempotencyKey")
        ∷ same (get result "intentFingerprint") (get request "intentFingerprint")
        ∷ text_satisfies (includes result_classifications) (get result "classification")
        ∷ is_text_value (get result "code")
        ∷ is_external (get result "externalExecutionId")
        ∷ (not (is_truthy (get request "externalExecutionId"))
            || same (get result "externalExecutionId") (get request "externalExecutionId"))
        ∷ is_sequence false (get result "observationSequence")
        ∷ is_later (get result "observationSequence") (get request "afterObservationSequence")
        ∷ []))
      malformed
  require_timestamp (get result "observedAt")
  ok (deep_freeze_copy result)
