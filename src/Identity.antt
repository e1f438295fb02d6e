-- ===== src/Identity.antt =====
-- accelerator/core/human-identity-assertion.js: an assertion of a human identity that an external
-- authority has verified. An evaluation that denies is written as the throw of its reason. How the
-- file system resolves an authorised root is an argument, and so is the digest.
pub mod Evaluate
pub mod Laws
use Prim.Native.String
use Prim.Native.Char.{Char, code}
use surgical_dev_ops.Base.Text.{codes, includes, is_space, same_codes}
use surgical_dev_ops.Base.Outcome.{Outcome, ok, throw, require, reject, ◌>>=◌, ◌>>◌, every}
use surgical_dev_ops.Base.{
  ℕ, String, Bool, true, false, List, [], ◌∷◌, ◌&&◌, ◌||◌, not, str_eq, if◌then◌else◌, ltb, leb,
  any, all, Option, some, none,
}
use surgical_dev_ops.Json.{
  Value, Items, Fields, undefined, null, boolean, number, other_number, text, array, object, nil,
  cons, end, field, get, keys, is_object, is_string, is_null, is_truthy, text_satisfies, same,
  deep_freeze,
}
use surgical_dev_ops.Json.Canonical.{canonical_json}
use surgical_dev_ops.Timestamp.{is_canonical, date_parse}
use surgical_dev_ops.NodePath.{normalize, is_absolute}
use surgical_dev_ops.Clock.{classify_expiry}

mutual
  defined_value : Value → Value
  defined_value (array b xs) = array b (defined_items xs)
  defined_value (object b fs) = object b (defined_fields fs)
  defined_value v = v

  defined_items : Items → Items
  defined_items nil = nil
  defined_items (cons undefined vs) = cons null (defined_items vs)
  defined_items (cons v vs) = cons (defined_value v) (defined_items vs)

  defined_fields : Fields → Fields
  defined_fields end = end
  defined_fields (field k undefined fs) = defined_fields fs
  defined_fields (field k v fs) = field k (defined_value v) (defined_fields fs)

-- `JSON.stringify(canonicalize(value))`, which leaves out what is undefined.
unfoldable pub stringify : Value → String
unfolding defined_value defined_items defined_fields canonical_json
stringify value = canonical_json (defined_value value)

abbrev trim_front : String → String
trim_front String.[] = String.[]
trim_front (String.◌∷◌ c s) = if is_space (code c) then trim_front s else String.◌∷◌ c s

abbrev keep_back : Char → String → String
keep_back c String.[] = if is_space (code c) then String.[] else String.◌∷◌ c String.[]
keep_back c (String.◌∷◌ d s) = String.◌∷◌ c (String.◌∷◌ d s)

abbrev trim_back : String → String
trim_back String.[] = String.[]
trim_back (String.◌∷◌ c s) = keep_back c (trim_back s)

-- `text(value)`.
unfoldable pub text_or_null : Value → Value
text_or_null (text s) =
    let trimmed = trim_back (trim_front s) in if str_eq trimmed "" then null else text trimmed
text_or_null v = null

-- `timestamp(value)`.
unfoldable pub timestamp_or_null : Value → Value
timestamp_or_null (text s) = if is_canonical s then text s else null
timestamp_or_null v = null

-- A value that may be missing.
unfoldable pub optional_text : Value → Value
unfolding text_or_null
optional_text undefined = null
optional_text null = null
optional_text v = text_or_null v

abbrev pub is_missing : Value → Bool
is_missing undefined = true
is_missing null = true
is_missing _ = false

-- The time of a timestamp.
abbrev pub time_of : Value → ℕ
time_of (text s) = date_parse s
time_of _ = 0

abbrev resolved : Option String → Value
resolved (some s) = text s
resolved none = null

-- `canonicalWorkspace(value)`.
unfoldable pub canonical_workspace : (String → Option String) → Value → Value
unfolding text_or_null
canonical_workspace authorized_root value = resolved_root (text_or_null value)
  where
    resolved_root : Value → Value
    resolved_root (text s) =
        if is_absolute (codes s) && same_codes (normalize (codes s)) (codes s)
        then resolved (authorized_root s)
        else null
    resolved_root _ = null

abbrev pub text_items : Items → Items
text_items nil = nil
text_items (cons v vs) = cons (text_or_null v) (text_items vs)

abbrev pub audience_of : Value → Items
audience_of (array _ xs) = text_items xs
audience_of v = cons (text_or_null v) nil

abbrev pub item_holds : Items → String → Bool
item_holds nil s = false
item_holds (cons v vs) s = is_string v s || item_holds vs s

-- Not empty, every element a text, and none twice.
abbrev pub distinct_texts : Items → Bool
distinct_texts nil = true
distinct_texts (cons (text s) vs) = not (item_holds vs s) && distinct_texts vs
distinct_texts (cons _ vs) = false

abbrev pub is_audience : Items → Bool
is_audience nil = false
is_audience xs = distinct_texts xs

-- `subject && { id, type }`, and the authentication alike.
abbrev pub subject_of : Value → Value
subject_of v =
    if is_truthy v
    then object false (field "id" (text_or_null (get v "id")) (field "type" (get v "type") end))
    else v

abbrev pub authentication_of : Value → Value
authentication_of v =
    if is_truthy v
    then object false (
        field "method" (text_or_null (get v "method"))
          (field "context" (text_or_null (get v "context")) end))
    else v

abbrev pub assertion_schema : String
assertion_schema = "sdo.verified_human_identity_assertion.v1"

-- What the clock contributes: whether a current time is required, and a reading.
pub record Temporal : Type 0 where
  pub require_current : Bool
  pub reading : Value

abbrev pub caller_times : List String
caller_times = "now" ∷ "currentTime" ∷ "validationTime" ∷ "observedAt" ∷ []

-- `{ ...fields, key: value }` with a key that the fields do not have.
abbrev pub put_last : String → Value → Fields → Fields
put_last k v end = field k v end
put_last k v (field j w fs) = field j w (put_last k v fs)

-- The conditions of a well-formed assertion, from the candidate, its fields and their digest.
unfoldable pub is_assertion : Value → Value → String → Bool
is_assertion c f fingerprint = every (
    is_string (get c "schema") assertion_schema
    ∷ is_string (get f "verification") "VERIFIED"
    ∷ is_truthy (get f "assertionId")
    ∷ is_truthy (get (get f "subject") "id")
    ∷ is_string (get (get f "subject") "type") "HUMAN"
    ∷ is_truthy (get f "issuer")
    ∷ is_truthy (get (get f "authentication") "method")
    ∷ is_truthy (get (get f "authentication") "context")
    ∷ is_truthy (get f "issuedAt")
    ∷ is_truthy (get f "expiresAt")
    ∷ is_audience (audience_of (get c "audience"))
    ∷ is_truthy (get f "operationId")
    ∷ is_truthy (get f "workspace")
    ∷ is_string (get f "revocationStatus") "NOT_REVOKED"
    ∷ is_truthy (get f "verifiedAt")
    ∷ ltb (time_of (get f "issuedAt")) (time_of (get f "expiresAt"))
    ∷ leb (time_of (get f "issuedAt")) (time_of (get f "verifiedAt"))
    ∷ ltb (time_of (get f "verifiedAt")) (time_of (get f "expiresAt"))
    ∷ (is_missing (get c "tenantId") || is_truthy (get f "tenantId"))
    ∷ (is_missing (get c "projectId") || is_truthy (get f "projectId"))
    ∷ (not (is_truthy (get c "fingerprint")) || is_string (get c "fingerprint") fingerprint)
    ∷ [])

-- An expiry that was classified must be allowed; one that could not be is malformed.
unfoldable pub require_allowed : Outcome Value → String → (Value → String) → Outcome (Unit {0})
require_allowed (throw e) malformed reason = throw malformed
require_allowed (ok expiry) malformed reason =
    require (is_string (get expiry "decision") "ALLOWED") (reason expiry)

-- `expected` has the key, and another value under it.
unfoldable pub differs : Value → String → Value → Bool
differs expected key actual = includes (keys expected) key && not (same (get expected key) actual)

abbrev pub expiry_reason : Value → String
expiry_reason expiry =
    if is_string (get expiry "classification") "ISSUED_IN_FUTURE"
    then "Verified human identity assertion is not yet valid."
    else "Verified human identity assertion is expired."

-- The audience that is expected is among that of the assertion.
abbrev all_hold : Items → Items → Bool
all_hold nil xs = true
all_hold (cons (text s) vs) xs = item_holds xs s && all_hold vs xs
all_hold (cons _ vs) xs = false

unfoldable pub meets_audience : Value → Items → Bool
meets_audience undefined xs = true
meets_audience (array _ nil) xs = false
meets_audience (array _ vs) xs = all_hold vs xs
meets_audience v xs = all_hold (cons v nil) xs
