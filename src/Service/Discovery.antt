-- ===== src/Service/Discovery.antt =====
-- The answers to negotiations and to questions for capabilities under the protocol's own checks.
use surgical_dev_ops.Base.Outcome.{ok, bind-ok, ok-injective, chains}
use surgical_dev_ops.Base.{
  ◌≡◌, ◌∙◌, refl, sym, ap, subst, String, Bool, true, false, if◌then◌else◌, eq_refl,
}
use surgical_dev_ops.Json.{
  Value, null, boolean, text, array, object, nil, cons, end, field, get, is_string,
}
use surgical_dev_ops.Protocol.{exact_fields, assert_dense_array, protocol_version}
use surgical_dev_ops.Protocol.Credentials.{
  assert_credential_free, is_credential_free, free_fields, free_items, is_credential_field,
  carries_credential,
}
use surgical_dev_ops.Protocol.Copy.{deep_freeze_copy}
use surgical_dev_ops.Protocol.Serialize.{schema_digest}
use surgical_dev_ops.Protocol.Request.{validate_request, lists_distinct, are_distinct_texts}
use surgical_dev_ops.Protocol.Names.{validate_request-named}
use surgical_dev_ops.Protocol.Reply.{validate_negotiation_result, validate_capabilities_result}
use surgical_dev_ops.Service.{
  Settings, negotiate, negotiation, capabilities, capabilities_answer, lists_text,
}
use surgical_dev_ops.Service.Answers.{get-free}
use surgical_dev_ops.Service.Observed.{assert-free}

-- The answer to a negotiation.
abbrev negotiated : Bool → Value → Value
negotiated compatible name = object true (
    field "requestId" name (
      field "selectedVersion" (if compatible then text protocol_version else null) (
        field "supportedVersions" (array true (cons (text protocol_version) nil)) (
          field "classification" (text (if compatible then "accepted" else "protocol_failure")) (
            field "code"
              (text (if compatible then "PROTOCOL_NEGOTIATED" else "UNSUPPORTED_PROTOCOL_VERSION"))
              end)))))

negotiated-valid :
    (compatible : Bool) (s : String) (request : Value)
    → get request "requestId" ≡ text s
    → is_credential_free (text s) ≡ true
    → validate_negotiation_result (negotiated compatible (text s)) request
      ≡ ok (negotiated compatible (text s))
unfolding validate_negotiation_result assert_credential_free is_credential_free free_fields
    free_items is_credential_field carries_credential exact_fields assert_dense_array
    deep_freeze_copy chains
negotiated-valid true s request named free = rw named rw free rw (eq_refl s) refl
negotiated-valid false s request named free = rw named rw free rw (eq_refl s) refl

negotiation-negotiated :
    (compatible : Bool) (s : String)
    → negotiation compatible (text s) ≡ negotiated compatible (text s)
unfolding negotiation deep_freeze_copy
negotiation-negotiated true s = refl
negotiation-negotiated false s = refl

selected :
    (compatible : Bool) (s : String)
    → is_string (get (negotiated compatible (text s)) "selectedVersion") protocol_version
      ≡ compatible
selected true s = refl
selected false s = refl

-- The answer to a negotiation is one that the protocol's check of answers takes as it is, and it
-- selects a version exactly if the request lists the version that the service speaks.
pub negotiate-valid :
    (input request result : Value)
    → validate_request "negotiate" input ≡ ok request
    → negotiate input ≡ ok result
    → (validate_negotiation_result result request ≡ ok result)
      × (is_string (get result "selectedVersion") protocol_version
          ≡ lists_text (get request "supportedVersions") (text protocol_version))
unfolding negotiate
negotiate-valid input request result valid h = bind-ok _ _ h λ q valid' h.
    let same_request : q ≡ request = ok-injective (sym valid' ∙ valid) in
    let compatible = lists_text (get request "supportedVersions") (text protocol_version) in
    let name = validate_request-named "negotiate" input request valid in
    let s = name.1.0 in
    let made : negotiated compatible (text s) ≡ result =
      sym (negotiation-negotiated compatible s)
      ∙ ap (negotiation compatible) (sym name.1.1)
      ∙ subst
          (λ x.
            negotiation (lists_text (get x "supportedVersions") (text protocol_version))
              (get x "requestId")
            ≡ result)
          same_request (ok-injective h) in
    let free =
      subst (λ v. is_credential_free v ≡ true) name.1.1
        (get-free request "requestId" (assert-free request name.0)) in
    (
      subst (λ x. validate_negotiation_result x request ≡ ok x) made
          (negotiated-valid compatible s request name.1.1 free),
      subst (λ x. is_string (get x "selectedVersion") protocol_version ≡ compatible) made
          (selected compatible s),
    )

-- The answer to a question for capabilities.
abbrev offered : Bool → Value → String → Value
offered cancels name digest = object true (
    field "protocolVersion" (text protocol_version) (
      field "requestId" name (
        field "capabilities"
          (array true (
            if cancels
            then cons (text "cancel")
                (cons (text "inspect") (cons (text "reconcile") (cons (text "submit") nil)))
            else cons (text "inspect") (cons (text "reconcile") (cons (text "submit") nil))))
          (field "physicalDispatchEnabled" (boolean false) (
            field "classification" (text "accepted") (
              field "code" (text "CAPABILITIES_DISCOVERED")
                (field "schemaDigest" (text digest) end)))))))

offered-valid :
    (sha256 : String → String) (cancels : Bool) (s : String) (request : Value)
    → get request "requestId" ≡ text s
    → is_credential_free (text s) ≡ true
    → is_credential_free (text (schema_digest sha256)) ≡ true
    → validate_capabilities_result sha256 (offered cancels (text s) (schema_digest sha256)) request
      ≡ ok (offered cancels (text s) (schema_digest sha256))
unfolding validate_capabilities_result assert_credential_free is_credential_free free_fields
    free_items is_credential_field carries_credential exact_fields assert_dense_array
    deep_freeze_copy lists_distinct are_distinct_texts chains
offered-valid sha256 true s request named free digest =
    rw named rw free rw digest rw (eq_refl s) rw (eq_refl (schema_digest sha256)) refl
offered-valid sha256 false s request named free digest =
    rw named rw free rw digest rw (eq_refl s) rw (eq_refl (schema_digest sha256)) refl

capabilities-offered :
    (sha256 : String → String) (cancels : Bool) (s : String)
    → capabilities_answer sha256 cancels (text s) ≡ offered cancels (text s) (schema_digest sha256)
unfolding capabilities_answer deep_freeze_copy
capabilities-offered sha256 true s = refl
capabilities-offered sha256 false s = refl

-- The answer to a question for capabilities is one that the protocol's check of answers takes as it
-- is: sorted capabilities without repetition, the schema's digest, and no physical dispatch, whether
-- cancellation is supported or not. The digest must not spell a credential, which no hexadecimal
-- text does.
pub capabilities-valid :
    (sha256 : String → String) (settings : Settings) (input request result : Value)
    → is_credential_free (text (schema_digest sha256)) ≡ true
    → validate_request "capabilities" input ≡ ok request
    → capabilities sha256 settings input ≡ ok result
    → (validate_capabilities_result sha256 result request ≡ ok result)
      × (get result "physicalDispatchEnabled" ≡ boolean false)
unfolding capabilities
capabilities-valid sha256 settings input request result digest valid h = bind-ok _ _ h λ q valid' h.
    let same_request : q ≡ request = ok-injective (sym valid' ∙ valid) in
    let cancels = settings.supports_cancellation in
    let name = validate_request-named "capabilities" input request valid in
    let s = name.1.0 in
    let made : offered cancels (text s) (schema_digest sha256) ≡ result =
      sym (capabilities-offered sha256 cancels s)
      ∙ ap (capabilities_answer sha256 cancels) (sym name.1.1)
      ∙ subst (λ x. capabilities_answer sha256 cancels (get x "requestId") ≡ result) same_request
          (ok-injective h) in
    let free =
      subst (λ v. is_credential_free v ≡ true) name.1.1
        (get-free request "requestId" (assert-free request name.0)) in
    (
      subst (λ x. validate_capabilities_result sha256 x request ≡ ok x) made
          (offered-valid sha256 cancels s request name.1.1 free digest),
      subst (λ x. get x "physicalDispatchEnabled" ≡ boolean false) made refl,
    )
