-- ===== src/Clock/Authority.antt =====
-- The time evidence of accelerator/core/authoritative-clock.js: `classifyMutationAuthority` decides
-- whether the identity, the approval and the grant behind a mutation all hold at one reading.
-- A regular expression is tested on texts alone: a value of another type, which the language would
-- print first, fails the test.
pub mod Windows
use Prim.Native.String
use surgical_dev_ops.Base.Text.{is_hash}
use surgical_dev_ops.Base.Outcome.{Outcome, ok, throw, require, ◌>>=◌, ◌>>◌}
use surgical_dev_ops.Base.{
  String, Bool, true, false, ◌&&◌, ◌||◌, Option, none, some, if◌then◌else◌, ◌==◌, length,
}
use surgical_dev_ops.Json.{
  Value, Fields, text, object, end, field, get, keys, is_object, is_frozen, is_string,
  text_satisfies,
}
use surgical_dev_ops.Json.Canonical.{canonical_json}
use surgical_dev_ops.Clock.{canonical_timestamp, validate_reading, classify_expiry, progression}

abbrev pub bound_value : String → String → Value → Value
bound_value issued expires fingerprint = object true (
    field "issuedAt" (text issued)
      (field "expiresAt" (text expires) (field "fingerprint" fingerprint end)))

unfoldable pub authority_bound : Value → String → Outcome Value
authority_bound value label = do
  require
      (is_object value
        && length (keys value) == 3
        && text_satisfies is_hash (get value "fingerprint"))
      (String.◌++◌ label " authority validity bound is malformed.")
  issued ← canonical_timestamp (get value "issuedAt") (String.◌++◌ label ".issuedAt")
  expires ← canonical_timestamp (get value "expiresAt") (String.◌++◌ label ".expiresAt")
  ok (bound_value issued expires (get value "fingerprint"))

-- The progression that the caller passes, if any, with whether its reading is the validated reading
-- itself and no copy.
unfoldable pub normalize_progression : Value → Option (Value × Bool) → Outcome Value
normalize_progression now none =
    ok (progression "ALLOWED" "INITIAL" "Initial authoritative clock observation." now)
normalize_progression now (some (p, same_reading)) = do
  require
      (is_object p
        && is_frozen p
        && same_reading
        && (is_string (get p "decision") "ALLOWED" || is_string (get p "decision") "DENIED"))
      "Authoritative clock progression evidence is malformed."
  ok p

abbrev pub three : Value → Value → Value → Value
three identity approval grant =
    object true (field "identity" identity (field "approval" approval (field "grant" grant end)))

abbrev pub time_schema : String
time_schema = "sdo.mutation_authority_time_evidence.v1"

-- The evidence's fields, with `rest` after them.
abbrev pub time_fields : Bool → Value → Value → Value → Value → Fields → Fields
time_fields allowed now progressed bounds evaluations rest = field "schema" (text time_schema) (
    field "decision" (text (if allowed then "ALLOWED" else "DENIED")) (
      field "reading" now (
        field "progression" progressed
          (field "bounds" bounds (field "evaluations" evaluations rest)))))

abbrev pub all_allowed : Value → Value → Value → Value → Bool
all_allowed progressed identity approval grant =
    is_string (get progressed "decision") "ALLOWED"
    && is_string (get identity "decision") "ALLOWED"
    && is_string (get approval "decision") "ALLOWED"
    && is_string (get grant "decision") "ALLOWED"

module _ (sha256 : String → String) where
  unfoldable pub time_evidence : Bool → Value → Value → Value → Value → Value
  time_evidence allowed now progressed bounds evaluations =
      let fields = time_fields allowed now progressed bounds evaluations end in
      object true (
        time_fields allowed now progressed bounds evaluations (
          field "fingerprint"
            (text (
              sha256 (
                String.◌++◌ "sdo.mutation_authority_time_evidence.v1\0"
                  (canonical_json (object false fields)))))
            end))

  abbrev pub bound_expiry : Value → Value → Outcome Value
  bound_expiry now bound = classify_expiry sha256 now (get bound "issuedAt") (get bound "expiresAt")

  unfoldable pub classify_mutation_authority : Value → Value → Option (Value × Bool) → Outcome Value
  classify_mutation_authority reading bounds progressed = do
    now ← validate_reading sha256 reading
    require (is_object bounds && length (keys bounds) == 3)
        "Mutation authority validity bounds are malformed."
    identity ← authority_bound (get bounds "identity") "identity"
    approval ← authority_bound (get bounds "approval") "approval"
    grant ← authority_bound (get bounds "grant") "grant"
    p ← normalize_progression now progressed
    identity_holds ← bound_expiry now identity
    approval_holds ← bound_expiry now approval
    grant_holds ← bound_expiry now grant
    ok (
        time_evidence (all_allowed p identity_holds approval_holds grant_holds) now p
          (three identity approval grant) (three identity_holds approval_holds grant_holds))
