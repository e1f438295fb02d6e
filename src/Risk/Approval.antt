-- ===== src/Risk/Approval.antt =====
-- `evaluateR3ApprovalAuthority` of accelerator/core/risk-classification.js: a human approval that is
-- bound to one operation and to a verified identity. A denial is the throw of its reason. `Date.parse`
-- is read on ISO timestamps; a text of another form is no timestamp.
use Prim.Native.String
use surgical_dev_ops.Base.Text.{codes, is_blank, includes}
use surgical_dev_ops.Base.Outcome.{Outcome, ok, throw, require, reject, ◌>>=◌, ◌>>◌, every, is_ok}
use surgical_dev_ops.Base.{
  ℕ, String, Bool, true, false, [], ◌∷◌, ◌&&◌, ◌||◌, not, str_eq, if◌then◌else◌, ltb, leb, any,
  Option, some, none,
}
use surgical_dev_ops.Json.{
  Value, Fields, undefined, null, text, object, end, field, get, field_names, is_object, is_string,
  is_null, is_truthy, text_satisfies, deep_freeze,
}
use surgical_dev_ops.Lifecycle.{is_reference}
use surgical_dev_ops.Timestamp.{parse_iso}
use surgical_dev_ops.Identity.{stringify, canonical_workspace, Temporal, caller_times, put_last}
use surgical_dev_ops.Identity.Evaluate.{check_time, evaluate_identity}

-- `value === undefined ? null : value`.
abbrev pub or_null : Value → Value
or_null undefined = null
or_null v = v

abbrev approver_of : Value → Value
approver_of v =
    if is_truthy v
    then object false (field "id" (get v "id") (field "type" (get v "type") end))
    else v

-- What the identity is expected to be bound to.
abbrev pub identity_expected : Value → Value → Value
identity_expected c workspace = object false (
    field "subjectId" (get (get c "approver") "id") (
      field "operationId" (get c "operationId") (
        field "workspace" workspace (
          field "tenantId" (or_null (get c "tenantId"))
            (field "projectId" (or_null (get c "projectId")) end)))))

-- `identityEvaluation.assertion`.
abbrev pub assertion_of : Outcome Value → Value
assertion_of (ok assertion) = assertion
assertion_of (throw e) = null

abbrev fingerprint_or_null : Value → Value
fingerprint_or_null assertion = if is_truthy assertion then get assertion "fingerprint" else null

unfoldable pub approval_fields : Value → Value → Value → Fields
approval_fields c workspace assertion = field "approvalAuthorityId" (get c "approvalAuthorityId") (
    field "operationId" (get c "operationId") (
      field "approver" (approver_of (get c "approver")) (
        field "decision" (get c "decision") (
          field "riskLevel" (get c "riskLevel") (
            field "capabilityType" (get c "capabilityType") (
              field "action" (get c "action") (
                field "workspace" workspace (
                  field "tenantId" (or_null (get c "tenantId")) (
                    field "projectId" (or_null (get c "projectId")) (
                      field "scope" (get c "scope") (
                        field "policyDecision" (get c "policyDecision") (
                          field "timestamp" (get c "timestamp") (
                            field "expiresAt" (get c "expiresAt") (
                              field "verifiedIdentityAssertionFingerprint"
                                (fingerprint_or_null assertion) end))))))))))))))

-- `typeof value === 'string' && value.trim()`.
abbrev is_filled : Value → Bool
is_filled v = text_satisfies (λ s. not (is_blank (codes s))) v

-- `Date.parse(value)`, where it is finite.
unfoldable pub parsed : Value → Option ℕ
parsed (text s) = parse_iso s
parsed v = none

-- A comparison of two times, which fails where one is none.
abbrev before : Option ℕ → Option ℕ → Bool
before (some a) (some b) = ltb a b
before _ _ = false

abbrev not_after : Option ℕ → Option ℕ → Bool
not_after (some a) (some b) = leb a b
not_after _ _ = false

-- The conditions of a well-formed approval, from the candidate, its workspace, the evaluation of the
-- identity and the digest of the fields.
unfoldable pub is_approval : Value → Value → Outcome Value → String → Bool
unfolding parsed
is_approval c workspace identity computed =
    let assertion = assertion_of identity in
    every (
      is_filled (get c "approvalAuthorityId")
      ∷ is_filled (get c "operationId")
      ∷ is_filled (get (get c "approver") "id")
      ∷ is_string (get (get c "approver") "type") "HUMAN"
      ∷ is_string (get c "decision") "APPROVED"
      ∷ is_string (get c "riskLevel") "R3"
      ∷ is_string (get c "capabilityType") "FILESYSTEM_PATCH"
      ∷ is_string (get c "action") "PATCH_FILE"
      ∷ is_truthy workspace
      ∷ is_reference (get c "scope")
      ∷ is_string (get c "policyDecision") "APPROVAL_REQUIRED"
      ∷ before (parsed (get c "timestamp")) (parsed (get c "expiresAt"))
      ∷ is_ok identity
      ∷ not_after (parsed (get assertion "issuedAt")) (parsed (get c "timestamp"))
      ∷ not_after (parsed (get c "expiresAt")) (parsed (get assertion "expiresAt"))
      ∷ (not (is_truthy (get c "verifiedIdentityAssertionFingerprint"))
          || (is_string_of (get c "verifiedIdentityAssertionFingerprint")
              (get assertion "fingerprint")))
      ∷ (not (is_truthy (get c "fingerprint")) || is_string (get c "fingerprint") computed)
      ∷ [])
  where
    is_string_of : Value → Value → Bool
    is_string_of v (text s) = is_string v s
    is_string_of v _ = false

-- Every value that is expected is the field's.
unfoldable pub check_entries : Fields → Value → Outcome (Unit {0})
check_entries end f = ok tt
check_entries (field k undefined es) f = check_entries es f
check_entries (field k v es) f = do
  require (not (is_undefined_value (get f k)) && str_eq (stringify (get f k)) (stringify v))
      (String.◌++◌ "R3 approval authority " (String.◌++◌ k " mismatch."))
  check_entries es f
  where
    is_undefined_value : Value → Bool
    is_undefined_value undefined = true
    is_undefined_value _ = false

-- The fields with another value under a key that they have.
abbrev put_field : String → Value → Fields → Fields
put_field k v end = end
put_field k v (field j w fs) = if str_eq j k then field j v fs else field j w (put_field k v fs)

module _ (sha256 : String → String) (authorized_root : String → Option String) where
  -- What is expected, with its workspace resolved.
  unfoldable pub resolve_expected : Fields → Outcome Fields
  resolve_expected es =
      if includes (field_names es) "workspace"
      then (do
        let workspace = canonical_workspace authorized_root (get (object false es) "workspace") in
            do
              reject (is_null workspace) "R3 approval authority workspace mismatch."
              ok (put_field "workspace" workspace es))
      else ok es

  -- The evaluation of an approval whose identity has been evaluated.
  unfoldable pub evaluate_approval :
      Temporal → Value → Value → Outcome Value → Fields → Outcome Value
  evaluate_approval t c workspace identity expected =
      let fields = approval_fields c workspace (assertion_of identity) in
      let computed = sha256 (stringify (object false fields)) in
      do
        require (is_approval c workspace identity computed) "R3 approval authority is malformed."
        reject (any (includes (field_names expected)) caller_times)
            "Caller-supplied current time cannot authorize R3 approval."
        entries ← resolve_expected expected
        check_entries entries (object false fields)
        check_time sha256 authorized_root t (get c "timestamp") (get c "expiresAt")
            "Authoritative clock evidence is required for R3 approval."
            "Authoritative R3 approval time evidence is malformed."
            (λ expiry. "R3 approval authority is expired or not yet valid.")
        ok (
            deep_freeze (
              object false (
                put_last "fingerprint" (text computed)
                  (put_last "verifiedIdentityAssertion" (assertion_of identity) fields))))

  -- `evaluateR3ApprovalAuthority`.
  unfoldable pub evaluate_r3 : Temporal → Value → Fields → Outcome Value
  evaluate_r3 t candidate expected = do
    require (is_object candidate) "R3 approval authority is missing."
    let workspace = canonical_workspace authorized_root (get candidate "workspace") in
        evaluate_approval t candidate workspace
          (evaluate_identity sha256 authorized_root t (get candidate "verifiedIdentityAssertion")
            (identity_expected candidate workspace))
          expected
