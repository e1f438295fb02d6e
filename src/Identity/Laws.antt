-- ===== src/Identity/Laws.antt =====
-- accelerator/core/human-identity-assertion.js: what is known of an identity that was verified.
use surgical_dev_ops.Base.Outcome.{
  Outcome, ok, throw, reject, require-ok, reject-ok, then-ok, require-eq-ok, every-AllTrue,
}
use surgical_dev_ops.Base.{
  ◌≡◌, refl, ◌⊎◌, inl, inr, ◌<◌, String, Bool, true, false, Bool-cases, Option, ltb→lt, leb→le, ◌≤◌,
  ◌&&◌, not, any, arith,
}
use surgical_dev_ops.Json.{
  Value, Items, Fields, undefined, object, get, keys, is_string, is_truthy, is_null, same,
}
use surgical_dev_ops.Base.Text.{includes}
use surgical_dev_ops.Clock.{classify_expiry}
use surgical_dev_ops.Identity.{
  Temporal, is_assertion, require_allowed, differs, audience_of, time_of, canonical_workspace,
  meets_audience, stringify, caller_times,
}
use surgical_dev_ops.Identity.Evaluate.{
  assertion_fields, check_time, check_expected, evaluate_fields, evaluate_identity,
}

unrequired : (b : Bool) (message : String) → reject b message ≡ ok tt → b ≡ false
unfolding reject
unrequired false message h = refl
unrequired true message h = cc

module _ (sha256 : String → String) (authorized_root : String → Option String) where
  -- The clock was not asked, or its reading lies in the interval.
  abbrev pub Timely : Temporal → Value → Value → Type 0
  Timely t issued expires =
      ((is_truthy t.reading ≡ false) × (t.require_current ≡ false))
      ⊎ ((e : Value) × (classify_expiry sha256 t.reading issued expires ≡ ok e)
          × (is_string (get e "decision") "ALLOWED" ≡ true))

  allowed-expiry :
      (m : Outcome Value) (malformed : String) (reason : Value → String)
      → require_allowed m malformed reason ≡ ok tt
      → (e : Value) × (m ≡ ok e) × (is_string (get e "decision") "ALLOWED" ≡ true)
  unfolding require_allowed
  allowed-expiry (ok e) malformed reason h = (e, refl, require-eq-ok _ _ h)
  allowed-expiry (throw x) malformed reason h = cc

  pub check_time-Timely :
      (t : Temporal) (issued expires : Value) (required malformed : String)
      (reason : Value → String)
      → check_time sha256 authorized_root t issued expires required malformed reason ≡ ok tt
      → Timely t issued expires
  unfolding check_time
  check_time-Timely t issued expires required malformed reason h =
      elim (Bool-cases (is_truthy t.reading)) [
        | inl read ↦ inr (
            allowed-expiry (classify_expiry sha256 t.reading issued expires) malformed reason
              (rw read at h))
        | inr none_read ↦ inl (none_read, unrequired t.require_current required (rw none_read at h))
      ]

  -- A key is not expected, or what is expected under it is what the assertion has.
  abbrev pub Agrees : Value → String → Value → Type 0
  Agrees expected key actual =
      (includes (keys expected) key ≡ false) ⊎ (same (get expected key) actual ≡ true)

  -- What the caller expects: the fields of the assertion `f` and its audience and digest agree with
  -- it wherever it says something, the workspace once it has been resolved.
  pub record IsExpected (expected f : Value) (audience : Items) (fingerprint : String)
      : Type 0 where
    pub subject : Agrees expected "subjectId" (get (get f "subject") "id")
    pub issuer : Agrees expected "issuer" (get f "issuer")
    pub operation : Agrees expected "operationId" (get f "operationId")
    pub workspace :
        (includes (keys expected) "workspace" ≡ false)
        ⊎ ((is_null (canonical_workspace authorized_root (get expected "workspace")) ≡ false)
            × (same
                  (canonical_workspace authorized_root (get expected "workspace"))
                  (get f "workspace")
                ≡ true))
    pub tenant : Agrees expected "tenantId" (get f "tenantId")
    pub project : Agrees expected "projectId" (get f "projectId")
    pub audience_met : meets_audience (get expected "audience") audience ≡ true
    pub digest :
        (same (get expected "fingerprint") undefined ≡ true)
        ⊎ (is_string (get expected "fingerprint") fingerprint ≡ true)

  -- What an evaluation that verified knows of the candidate, its fields and what was expected.
  pub record Verified (t : Temporal) (candidate f expected : Value) : Type 0 where
    pub verification : is_string (get f "verification") "VERIFIED" ≡ true
    pub human : is_string (get (get f "subject") "type") "HUMAN" ≡ true
    pub not_revoked : is_string (get f "revocationStatus") "NOT_REVOKED" ≡ true
    pub verified_inside :
        (time_of (get f "issuedAt") ≤ time_of (get f "verifiedAt"))
        × (time_of (get f "verifiedAt") < time_of (get f "expiresAt"))
    pub timely : Timely t (get f "issuedAt") (get f "expiresAt")
    pub no_caller_time : any (includes (keys expected)) caller_times ≡ false
    pub is_expected :
        IsExpected expected f (audience_of (get candidate "audience")) (sha256 (stringify f))

  differs-Agrees :
      (expected actual : Value) (key : String)
      → differs expected key actual ≡ false
      → Agrees expected key actual
  unfolding differs
  differs-Agrees expected actual key h = elim (Bool-cases (includes (keys expected) key)) [
    | inl has ↦ inr (ground (arith, has, h))
    | inr lacks ↦ inl lacks
  ]

  met : (absent is : Bool) → (not absent && not is) ≡ false → (absent ≡ true) ⊎ (is ≡ true)
  met true is h = inl refl
  met false true h = inr refl
  met false false h = cc

  resolved :
      (has none_there equal : Bool)
      → (has && none_there) ≡ false
      → (has && not equal) ≡ false
      → (has ≡ false) ⊎ ((none_there ≡ false) × (equal ≡ true))
  resolved false none_there equal h k = inl refl
  resolved true false true h k = inr (refl, refl)
  resolved true false false h k = cc
  resolved true true equal h k = cc

  check_expected-IsExpected :
      (expected f : Value) (xs : Items) (fingerprint : String)
      → check_expected sha256 authorized_root expected f xs fingerprint ≡ ok tt
      → IsExpected expected f xs fingerprint
  unfolding check_expected
  check_expected-IsExpected expected f xs fingerprint h = reject-ok _ _ _ h λ there h.
      reject-ok _ _ _ h λ subject h. reject-ok _ _ _ h λ issuer h. reject-ok _ _ _ h λ operation h.
        reject-ok _ _ _ h λ equal h. reject-ok _ _ _ h λ tenant h. reject-ok _ _ _ h λ project h.
          require-ok _ _ _ h λ audience h. record {
            subject = differs-Agrees _ _ _ subject;
            issuer = differs-Agrees _ _ _ issuer;
            operation = differs-Agrees _ _ _ operation;
            workspace = resolved _ _ _ there equal;
            tenant = differs-Agrees _ _ _ tenant;
            project = differs-Agrees _ _ _ project;
            audience_met = audience;
            digest = met _ _ (unrequired _ _ h);
          }

  evaluate_fields-Verified :
      (t : Temporal) (c expected a : Value) (fields : Fields)
      → evaluate_fields sha256 authorized_root t c expected fields ≡ ok a
      → Verified t c (object false fields) expected
  unfolding evaluate_fields is_assertion
  evaluate_fields-Verified t c expected a fields h = require-ok _ _ _ h λ formed h.
      reject-ok _ _ _ h λ no_time h. then-ok _ _ h λ timed h. then-ok _ _ h λ agreed h.
        let f = object false fields in
        let all = every-AllTrue _ formed in
        record {
          verification = all.1.0;
          human = all.1.1.1.1.0;
          not_revoked = all.1.1.1.1.1.1.1.1.1.1.1.1.1.0;
          verified_inside = (
            leb→le _ _ all.1.1.1.1.1.1.1.1.1.1.1.1.1.1.1.1.0,
            ltb→lt _ _ all.1.1.1.1.1.1.1.1.1.1.1.1.1.1.1.1.1.0,
          );
          timely = check_time-Timely t (get f "issuedAt") (get f "expiresAt") _ _ _ timed;
          no_caller_time = no_time;
          is_expected = check_expected-IsExpected expected f _ _ agreed;
        }

  -- An identity is verified only if the assertion says so of a human subject, has not been revoked,
  -- was verified inside its own interval, and agrees with the subject, the issuer, the operation, the
  -- workspace, the tenant, the project, the audience and the fingerprint that are expected, each where
  -- it is expected; where a reading of the clock is given it allows that interval, and none may be
  -- missing where one is required; and the caller supplies no time of its own.
  pub evaluate_identity-Verified :
      (t : Temporal) (candidate expected assertion : Value)
      → evaluate_identity sha256 authorized_root t candidate expected ≡ ok assertion
      → Verified t candidate
          (object false (assertion_fields sha256 authorized_root candidate))
          expected
  unfolding evaluate_identity
  evaluate_identity-Verified t candidate expected assertion h = require-ok _ _ _ h λ object h.
      evaluate_fields-Verified t candidate expected assertion
        (assertion_fields sha256 authorized_root candidate) h
