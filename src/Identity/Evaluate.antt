-- ===== src/Identity/Evaluate.antt =====
-- `evaluateVerifiedHumanIdentityAssertion` of accelerator/core/human-identity-assertion.js.
use surgical_dev_ops.Base.Text.{includes}
use surgical_dev_ops.Base.Outcome.{Outcome, ok, throw, require, reject, ◌>>◌, is_ok}
use surgical_dev_ops.Base.{String, false, ◌&&◌, not, if◌then◌else◌, any, Option}
use surgical_dev_ops.Json.{
  Value, Items, Fields, undefined, null, text, array, object, end, field, get, keys, is_object,
  is_string, is_null, is_truthy, same, deep_freeze,
}
use surgical_dev_ops.Clock.{classify_expiry}
use surgical_dev_ops.Identity.{
  stringify, text_or_null, timestamp_or_null, optional_text, canonical_workspace, audience_of,
  subject_of, authentication_of, assertion_schema, Temporal, caller_times, put_last, is_assertion,
  require_allowed, differs, expiry_reason, meets_audience,
}

abbrev value_of : Outcome Value → Value
value_of (ok v) = v
value_of (throw e) = null

abbrev fingerprint_of : Outcome Value → Value
fingerprint_of (ok v) = get v "fingerprint"
fingerprint_of (throw e) = null

module _ (sha256 : String → String) (authorized_root : String → Option String) where
  -- The normalised fields of an assertion.
  unfoldable pub assertion_fields : Value → Fields
  unfolding text_or_null timestamp_or_null optional_text canonical_workspace
  assertion_fields c = field "schema" (text assertion_schema) (
      field "verification" (get c "verification") (
        field "assertionId" (text_or_null (get c "assertionId")) (
          field "subject" (subject_of (get c "subject")) (
            field "issuer" (text_or_null (get c "issuer")) (
              field "authentication" (authentication_of (get c "authentication")) (
                field "issuedAt" (timestamp_or_null (get c "issuedAt")) (
                  field "expiresAt" (timestamp_or_null (get c "expiresAt")) (
                    field "audience" (array false (audience_of (get c "audience"))) (
                      field "operationId" (text_or_null (get c "operationId")) (
                        field "workspace" (canonical_workspace authorized_root (get c "workspace"))
                          (field "tenantId" (optional_text (get c "tenantId")) (
                            field "projectId" (optional_text (get c "projectId")) (
                              field "revocationStatus" (get c "revocationStatus") (
                                field "verifiedAt" (timestamp_or_null (get c "verifiedAt"))
                                  end))))))))))))))

  -- The time checks of an authority with an interval.
  unfoldable pub check_time :
      Temporal → Value → Value → String → String → (Value → String) → Outcome (Unit {0})
  check_time t issued expires required malformed reason =
      if is_truthy t.reading
      then require_allowed (classify_expiry sha256 t.reading issued expires) malformed reason
      else reject t.require_current required

  unfoldable pub check_expected : Value → Value → Items → String → Outcome (Unit {0})
  check_expected expected f audience fingerprint = do
    reject
        (includes (keys expected) "workspace"
          && is_null (canonical_workspace authorized_root (get expected "workspace")))
        "Verified human identity assertion workspace mismatch."
    reject (differs expected "subjectId" (get (get f "subject") "id"))
        "Verified human identity assertion subjectId mismatch."
    reject (differs expected "issuer" (get f "issuer"))
        "Verified human identity assertion issuer mismatch."
    reject (differs expected "operationId" (get f "operationId"))
        "Verified human identity assertion operationId mismatch."
    reject
        (includes (keys expected) "workspace"
          && not (
              same (canonical_workspace authorized_root (get expected "workspace"))
                (get f "workspace")))
        "Verified human identity assertion workspace mismatch."
    reject (differs expected "tenantId" (get f "tenantId"))
        "Verified human identity assertion tenantId mismatch."
    reject (differs expected "projectId" (get f "projectId"))
        "Verified human identity assertion projectId mismatch."
    require (meets_audience (get expected "audience") audience)
        "Verified human identity assertion audience mismatch."
    reject
        (not (same (get expected "fingerprint") undefined)
          && not (is_string (get expected "fingerprint") fingerprint))
        "Verified human identity assertion fingerprint mismatch."

  -- `evaluateVerifiedHumanIdentityAssertion`, of a candidate whose fields and digest are given.
  unfoldable pub evaluate_fields : Temporal → Value → Value → Fields → Outcome Value
  evaluate_fields t c expected fields =
      let fingerprint = sha256 (stringify (object false fields)) in
      let f = object false fields in
      do
        require (is_assertion c f fingerprint)
            "Verified human identity assertion is malformed or unverifiable."
        reject (any (includes (keys expected)) caller_times)
            "Caller-supplied current time cannot authorize human identity."
        check_time t (get f "issuedAt") (get f "expiresAt")
            "Authoritative clock evidence is required for human identity validity."
            "Authoritative human identity time evidence is malformed." expiry_reason
        check_expected expected f (audience_of (get c "audience")) fingerprint
        ok (deep_freeze (object false (put_last "fingerprint" (text fingerprint) fields)))

  -- `evaluateVerifiedHumanIdentityAssertion`.
  unfoldable pub evaluate_identity : Temporal → Value → Value → Outcome Value
  evaluate_identity t candidate expected = do
    require (is_object candidate) "Verified human identity assertion is missing."
    evaluate_fields t candidate expected (assertion_fields candidate)

  -- `identityAssertionFingerprint`.
  unfoldable pub identity_assertion_fingerprint : Value → Value
  identity_assertion_fingerprint value = fingerprint_of (
      evaluate_identity (record { require_current = false; reading = undefined }) value
        (object false end))

  -- `reconcileVerifiedHumanIdentityAssertion`, which throws in earnest.
  unfoldable pub reconcile_identity : Temporal → Value → Value → Value → Outcome Value
  reconcile_identity t previous candidate expected =
      let prior = evaluate_identity t previous expected in
      let next = evaluate_identity t candidate expected in
      do
        require (is_ok prior && is_ok next) "Verified identity replay is malformed."
        require
            (same (get (value_of prior) "assertionId") (get (value_of next) "assertionId")
              && same (get (value_of prior) "operationId") (get (value_of next) "operationId"))
            "Verified identity replay context conflicts."
        require (same (get (value_of prior) "fingerprint") (get (value_of next) "fingerprint"))
            "Conflicting verified identity assertion replay."
        ok (value_of prior)
