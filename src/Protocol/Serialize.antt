-- ===== src/Protocol/Serialize.antt =====
-- `canonicalSerialize` of accelerator/core/control-plane-protocol.js, the text under which two values
-- are compared, and the digest of the schema's document.
use surgical_dev_ops.Base.Outcome.{Outcome, ok, require, ◌>>◌}
use surgical_dev_ops.Base.{String, Bool, true, false, List, [], ◌∷◌, ◌&&◌}
use surgical_dev_ops.Json.{
  Value, Items, Fields, undefined, boolean, other_number, text, array, object, nil, cons, end,
  field,
}
use surgical_dev_ops.Json.Canonical.{canonical_json}
use surgical_dev_ops.Protocol.{
  malformed, protocol_version, operations, result_classifications, protocol_capabilities,
  submit_fields, reconcile_fields, external_fields,
}

mutual
  is_serializable_value : Value → Bool
  is_serializable_value undefined = false
  is_serializable_value (other_number finite s) = finite
  is_serializable_value (array _ xs) = serializable_items xs
  is_serializable_value (object _ fs) = serializable_fields fs
  is_serializable_value _ = true

  serializable_items : Items → Bool
  serializable_items nil = true
  serializable_items (cons v vs) = is_serializable_value v && serializable_items vs

  serializable_fields : Fields → Bool
  serializable_fields end = true
  serializable_fields (field k v fs) = is_serializable_value v && serializable_fields fs

-- Every part can be written: nothing is undefined and every number is finite.
unfoldable pub is_serializable : Value → Bool
unfolding is_serializable_value serializable_items serializable_fields
is_serializable value = is_serializable_value value

unfoldable pub canonical_serialize : Value → Outcome String
unfolding is_serializable canonical_json
canonical_serialize value = do require (is_serializable value) malformed; ok (canonical_json value)

texts : List String → Items
texts [] = nil
texts (s ∷ l) = cons (text s) (texts l)

list_value : List String → Value
unfolding texts
list_value l = array true (texts l)

-- `SCHEMA_DOCUMENT`.
schema_document : Value
unfolding list_value
schema_document = object true (
    field "protocolVersion" (text protocol_version) (
      field "operations" (list_value operations) (
        field "resultClassifications" (list_value result_classifications) (
          field "protocolCapabilities" (list_value protocol_capabilities) (
            field "requests"
              (object true (
                field "negotiate"
                  (list_value ("protocolVersion" ∷ "requestId" ∷ "supportedVersions" ∷ []))
                  (field "capabilities" (list_value ("protocolVersion" ∷ "requestId" ∷ [])) (
                    field "submit" (list_value submit_fields) (
                      field "reconcile" (list_value reconcile_fields) (
                        field "cancel" (list_value external_fields)
                          (field "inspect" (list_value external_fields) end)))))))
              (field "optionalRequestFields"
                (object true (field "reconcile" (list_value ("externalExecutionId" ∷ [])) end))
                (field "submitBindings" (list_value submit_fields) (
                  field "secretPolicy"
                    (object true (
                      field "recursiveCredentialFieldRejection" (boolean true) (
                        field "bearerValueRejection" (boolean true) (
                          field "privateKeyValueRejection" (boolean true) (
                            field "rawHttpRequestRejection" (boolean true)
                              (field "environmentObjectRejection" (boolean true) end))))))
                    (field "transport" (text "deferred")
                      (field "physicalDispatchDefault" (boolean false) end))))))))))

-- `SCHEMA_DIGEST`.
unfoldable pub schema_digest : (String → String) → String
unfolding schema_document canonical_json
schema_digest sha256 = sha256 (canonical_json schema_document)
