-- ===== src/Protocol.antt =====
-- accelerator/core/control-plane-protocol.js: the messages of the control plane, which are checked
-- field by field before a service or a registry reads them. A protocol error is written as its
-- classification and its code. Values are trees, so no object occurs twice in a message.
pub mod Credentials
pub mod Copy
pub mod Serialize
pub mod Request
pub mod Reply
pub mod Stable
pub mod Names
pub mod External
use Prim.Native.String
use surgical_dev_ops.Base.Text.{
  codes, is_hash, is_lower_hex, is_alphanumeric, is_mark, has_shape, includes, contains,
}
use surgical_dev_ops.Base.Outcome.{Outcome, ok, throw, require, ◌>>=◌, ◌>>◌}
use surgical_dev_ops.Base.{
  String, Bool, true, false, List, [], ◌∷◌, ◌++◌, ◌&&◌, ◌||◌, not, str_eq, if◌then◌else◌, all,
  length, ◌==◌, ℕ, ltb, Option, none, some,
}
use surgical_dev_ops.Json.{
  Value, Items, Fields, undefined, null, boolean, number, other_number, text, array, object, nil,
  cons, end, field, get, keys, is_object, text_satisfies,
}
use surgical_dev_ops.Json.Canonical.{number_text}
use surgical_dev_ops.Timestamp.{is_canonical}

abbrev pub protocol_version : String
protocol_version = "sacp.sdo-local/v1"

abbrev pub operations : List String
operations = "negotiate" ∷ "capabilities" ∷ "submit" ∷ "reconcile" ∷ "cancel" ∷ "inspect" ∷ []

abbrev pub result_classifications : List String
result_classifications =
    "accepted" ∷ "running" ∷ "succeeded" ∷ "failed" ∷ "cancelled" ∷ "rejected" ∷ "unknown"
    ∷ "indeterminate" ∷ "authentication_failure" ∷ "authorization_failure" ∷ "protocol_failure"
    ∷ "unsupported_capability" ∷ "stale_state" ∷ "transport_failure" ∷ "internal_failure" ∷ []

abbrev pub protocol_capabilities : List String
protocol_capabilities = "cancel" ∷ "inspect" ∷ "reconcile" ∷ "submit" ∷ []

-- The fields that every bound request has.
abbrev pub bound_fields : List String
bound_fields =
    "protocolVersion" ∷ "requestId" ∷ "operationId" ∷ "idempotencyKey" ∷ "intentFingerprint"
    ∷ "principal" ∷ "authority" ∷ []

abbrev pub submit_fields : List String
submit_fields =
    bound_fields
    ++ ("requestedCapability" ∷ "workspace" ∷ "repository" ∷ "expectedState" ∷ "approvalReference"
        ∷ "submittedAt" ∷ [])

abbrev pub reconcile_fields : List String
reconcile_fields = bound_fields ++ ("workspace" ∷ "repository" ∷ "afterObservationSequence" ∷ [])

abbrev pub external_fields : List String
external_fields =
    bound_fields
    ++ ("workspace" ∷ "repository" ∷ "externalExecutionId" ∷ "afterObservationSequence" ∷ [])

-- `REQUEST_FIELDS[operation]`.
abbrev pub request_fields : String → Option (List String)
request_fields operation =
    if str_eq operation "negotiate"
    then some ("protocolVersion" ∷ "requestId" ∷ "supportedVersions" ∷ [])
    else if str_eq operation "capabilities"
    then some ("protocolVersion" ∷ "requestId" ∷ [])
    else if str_eq operation "submit"
    then some submit_fields
    else if str_eq operation "reconcile"
    then some reconcile_fields
    else if str_eq operation "cancel" || str_eq operation "inspect"
    then some external_fields
    else none

-- `failure(classification, code)`.
abbrev pub failure : String → String → String
failure classification code = String.◌++◌ classification (String.◌++◌ " " code)

abbrev pub malformed : String
malformed = "protocol_failure MALFORMED_PROTOCOL_MESSAGE"

-- `exactFields`.
unfoldable pub exact_fields : Value → List String → List String → Outcome (Unit {0})
exact_fields value required optional = do
  require (is_object value) malformed
  require
      (all (includes (required ++ optional)) (keys value) && all (includes (keys value)) required)
      malformed

abbrev pub is_array : Value → Bool
is_array (array _ _) = true
is_array _ = false

-- `assertDenseArray`: every array of the model is dense.
unfoldable pub assert_dense_array : Value → Outcome (Unit {0})
assert_dense_array value = require (is_array value) malformed

-- An element of an array that is joined: nothing stands for no value.
unless_empty : Value → String → String
unless_empty undefined s = ""
unless_empty null s = ""
unless_empty v s = s

mutual
  unfolding unless_empty

  coerced_value : Value → String
  coerced_value undefined = "undefined"
  coerced_value null = "null"
  coerced_value (boolean true) = "true"
  coerced_value (boolean false) = "false"
  coerced_value (number n) = number_text n
  coerced_value (other_number finite s) = s
  coerced_value (text s) = s
  coerced_value (array _ xs) = joined xs
  coerced_value (object _ _) = "[object Object]"

  joined : Items → String
  joined nil = ""
  joined (cons v nil) = unless_empty v (coerced_value v)
  joined (cons v vs) = String.◌++◌ (unless_empty v (coerced_value v)) (String.◌++◌ "," (joined vs))

-- `String(value)`, which `RegExp.test` applies to what it is given.
unfoldable pub coerced : Value → String
unfolding coerced_value joined unless_empty
coerced value = coerced_value value

-- `/^[A-Za-z0-9][A-Za-z0-9._:@/-]{7,255}$/`
unfoldable pub is_identifier : String → Bool
unfolding has_shape
is_identifier s = has_shape (λ c. is_alphanumeric c || is_mark c) 7 255 (codes s)

-- `/^[a-f0-9]{40}(?:[a-f0-9]{24})?$/`
unfoldable pub is_git_head : String → Bool
is_git_head s = let cs = codes s in (length cs == 40 || length cs == 64) && all is_lower_hex cs

-- `requireIdentifier`.
unfoldable pub require_identifier : Value → Outcome (Unit {0})
unfolding is_identifier
require_identifier value =
    require (text_satisfies (λ s. is_identifier s && not (contains (codes "..") (codes s))) value)
      malformed

-- `requireTimestamp`.
unfoldable pub require_timestamp : Value → Outcome (Unit {0})
unfolding is_canonical
require_timestamp value = require (text_satisfies is_canonical value) malformed

-- `Number.isSafeInteger(value) && value >= 0`, with the negative zero among the other numbers.
unfoldable pub is_sequence : Bool → Value → Bool
is_sequence allow_zero (number n) = ltb n 9007199254740992 && (allow_zero || not (n == 0))
is_sequence allow_zero (other_number finite s) = allow_zero && finite && str_eq s "0"
is_sequence allow_zero _ = false

-- `requireSequence`.
unfoldable pub require_sequence : Bool → Value → Outcome (Unit {0})
unfolding is_sequence
require_sequence allow_zero value = require (is_sequence allow_zero value) malformed
