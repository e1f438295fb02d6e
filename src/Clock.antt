-- ===== src/Clock.antt =====
-- accelerator/core/authoritative-clock.js: readings of the authoritative clock, the classification of
-- its progress and of validity intervals, and the time evidence that authorises a mutation.
-- `sha256` is the hexadecimal digest of `node:crypto`. Objects are passed as values; where the source
-- compares two objects by identity, the caller says whether they are the same object.
pub mod Reading
pub mod Expiry
pub mod Progress
pub mod Authority
pub mod Port
use surgical_dev_ops.Base.Text.{codes, is_digit, has_shape, is_hash, is_alphanumeric, is_mark}
use surgical_dev_ops.Base.Outcome.{Outcome, ok, throw, require, reject, ◌>>=◌, ◌>>◌}
use surgical_dev_ops.Base.{
  ℕ, ◌+◌, ◌-◌, ◌*◌, ◌/◌, String, Bool, true, false, List, [], ◌∷◌, ◌&&◌, ◌||◌, not, str_eq, Option,
  none, some, if◌then◌else◌, ltb, leb, ◌==◌, length, all,
}
use surgical_dev_ops.Json.{
  Value, Fields, text, number, boolean, object, end, field, get, keys, is_object, is_frozen,
  is_string, text_satisfies, deep_freeze,
}
use surgical_dev_ops.Json.Canonical.{canonical_json}
use surgical_dev_ops.Timestamp.{is_canonical, date_parse}
use Prim.Native.String

-- `/^(0|[1-9][0-9]*)$/`
unfoldable pub is_decimal : List ℕ → Bool
is_decimal [] = false
is_decimal (c ∷ []) = is_digit c
is_decimal (c ∷ cs) = is_digit c && not (c == b'0') && all is_digit cs

-- `BigInt(value)` of a text of decimal digits.
abbrev big_int_from : ℕ → List ℕ → ℕ
big_int_from acc [] = acc
big_int_from acc (c ∷ cs) = big_int_from (acc * 10 + (c - b'0')) cs

abbrev pub text_or_empty : Value → String
text_or_empty (text s) = s
text_or_empty _ = ""

unfoldable pub big_int : Value → ℕ
big_int v = big_int_from 0 (codes (text_or_empty v))

-- `Date.parse(value)` of a text that is known to be canonical.
abbrev pub moment : Value → ℕ
moment v = date_parse (text_or_empty v)

abbrev pub reading_schema : String
reading_schema = "sdo.authoritative_clock_reading.v1"

abbrev pub progression_schema : String
progression_schema = "sdo.authoritative_clock_progression.v1"

-- `canonicalTimestamp`; the label is that of the message.
unfoldable pub canonical_timestamp : Value → String → Outcome String
canonical_timestamp (text s) label = do
  require (is_canonical s) (String.◌++◌ label " must be a canonical ISO timestamp.")
  ok s
canonical_timestamp _ label = throw (String.◌++◌ label " is malformed.")

unfoldable pub monotonic : Value → Outcome String
monotonic (text s) = do
  require (is_decimal (codes s)) "Authoritative monotonic observation is malformed."
  ok s
monotonic _ = throw "Authoritative monotonic observation is malformed."

-- `/^[A-Za-z0-9][A-Za-z0-9._:+/-]{0,255}$/`
abbrev is_source : String → Bool
is_source s =
    has_shape (λ c. is_alphanumeric c || (is_mark c && not (c == b'@')) || c == b'+') 0 255
      (codes s)

unfoldable pub source_identity : Value → Outcome String
source_identity (text s) = do
  require (is_source s) "Authoritative clock source identity is malformed."
  ok s
source_identity _ = throw "Authoritative clock source identity is malformed."

module _ (sha256 : String → String) where
  -- The four fields that the fingerprint of a reading covers.
  abbrev pub reading_fields : String → String → String → Fields
  reading_fields source wall_time nanoseconds = field "schema" (text reading_schema) (
      field "source" (text source)
        (field "wallTime" (text wall_time) (field "monotonicNanoseconds" (text nanoseconds) end)))

  unfoldable pub fingerprint : Fields → String
  fingerprint fields =
      sha256
        (String.◌++◌ "sdo.authoritative_clock_reading.v1\0" (canonical_json (object false fields)))

  abbrev pub reading_value : String → String → String → Value
  reading_value source wall_time nanoseconds = object true (
      field "schema" (text reading_schema) (
        field "source" (text source) (
          field "wallTime" (text wall_time) (
            field "monotonicNanoseconds" (text nanoseconds) (
              field "fingerprint" (text (fingerprint (reading_fields source wall_time nanoseconds)))
                end)))))

  unfoldable pub normalize_reading : Value → Outcome Value
  normalize_reading raw = do
    require
        (is_object raw
          && is_string (get raw "schema") "sdo.system_clock_observation.v1"
          && is_string (get raw "availability") "AVAILABLE")
        "Authoritative clock is unavailable or returned malformed evidence."
    source ← source_identity (get raw "source")
    wall_time ← canonical_timestamp (get raw "wallTime") "Authoritative wall time"
    nanoseconds ← monotonic (get raw "monotonicNanoseconds")
    ok (reading_value source wall_time nanoseconds)

  unfoldable pub validate_reading : Value → Outcome Value
  validate_reading reading = do
    require
        (is_object reading && is_string (get reading "schema") reading_schema && is_frozen reading)
        "Authoritative clock reading is missing or mutable."
    source ← source_identity (get reading "source")
    wall_time ← canonical_timestamp (get reading "wallTime") "Authoritative wall time"
    nanoseconds ← monotonic (get reading "monotonicNanoseconds")
    require
        (is_string (get reading "fingerprint")
            (fingerprint (reading_fields source wall_time nanoseconds))
          && length (keys reading) == 5)
        "Authoritative clock reading integrity is invalid."
    ok reading

-- A progression: `denied` of the source with the decision "DENIED".
abbrev pub progression : String → String → String → Value → Value
progression decision classification reason reading = object true (
    field "schema" (text progression_schema) (
      field "decision" (text decision) (
        field "classification" (text classification)
          (field "reason" (text reason) (field "reading" reading end)))))

-- A threshold is a natural number of milliseconds, its default where the caller gave none; any other
-- value counts as malformed.
abbrev pub threshold : Value → Outcome ℕ
threshold (number n) = ok n
threshold _ = throw "Clock anomaly thresholds are malformed."

-- The chain of tests after validation. With `drift` the wall time that passed less the monotonic
-- time that passed, the tests on the drift are written without negative numbers.
unfoldable pub progress : Value → Value → ℕ → ℕ → Value
progress before after forward backward =
    let wall_before = moment (get before "wallTime") in
    let wall_after = moment (get after "wallTime") in
    let mono_before = big_int (get before "monotonicNanoseconds") in
    let mono_after = big_int (get after "monotonicNanoseconds") in
    let passed = (mono_after - mono_before) / 1000000 in
    if not (is_string (get before "source") (text_or_empty (get after "source")))
    then progression "DENIED" "AMBIGUOUS_SOURCE" "Authoritative clock source changed." after
    else if leb mono_after mono_before
    then progression "DENIED" "NON_MONOTONIC" "Monotonic clock did not progress." after
    else if ltb wall_after wall_before || ltb (wall_after + backward) (wall_before + passed)
    then progression "DENIED" "WALL_CLOCK_ROLLBACK" "Authoritative wall clock moved backward." after
    else if ltb (wall_before + passed + forward) wall_after
    then progression "DENIED" "SUSPICIOUS_FORWARD_JUMP"
        "Authoritative wall clock advanced beyond permitted monotonic drift." after
    else progression "ALLOWED" "NORMAL_FORWARD" "Wall and monotonic clocks progressed consistently."
        after

abbrev pub expiry_evaluation : String → String → Value → String → String → Value
expiry_evaluation decision classification now issued expires = object true (
    field "schema" (text "sdo.authoritative_expiry_evaluation.v1") (
      field "decision" (text decision) (
        field "classification" (text classification) (
          field "valid" (boolean (str_eq decision "ALLOWED")) (
            field "authoritativeNow" (get now "wallTime") (
              field "issuedAt" (text issued) (
                field "expiresAt" (text expires)
                  (field "clockFingerprint" (get now "fingerprint") end))))))))

unfoldable pub expiry_decision : ℕ → ℕ → ℕ → String × String
expiry_decision now issued expires =
    if ltb now issued
    then ("DENIED", "ISSUED_IN_FUTURE")
    else if leb expires now
    then ("DENIED", "EXPIRED")
    else ("ALLOWED", "VALID")

module _ (sha256 : String → String) where
  unfoldable pub classify_clock_progression : Value → Value → Value → Value → Outcome Value
  classify_clock_progression previous current forward backward = do
    before ← validate_reading sha256 previous
    after ← validate_reading sha256 current
    f ← threshold forward
    b ← threshold backward
    ok (progress before after f b)

  unfoldable pub classify_expiry : Value → Value → Value → Outcome Value
  classify_expiry reading issued_at expires_at = do
    now ← validate_reading sha256 reading
    issued ← canonical_timestamp issued_at "issuedAt"
    expires ← canonical_timestamp expires_at "expiresAt"
    reject (leb (date_parse expires) (date_parse issued)) "Expiry interval is malformed or empty."
    let d = expiry_decision (moment (get now "wallTime")) (date_parse issued) (date_parse expires)
    ok (expiry_evaluation d.0 d.1 now issued expires)
