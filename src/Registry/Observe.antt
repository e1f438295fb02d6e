-- ===== src/Registry/Observe.antt =====
-- `get`, `observe` and `inspect` of accelerator/adapters/control-plane-submission-registry.js.
use surgical_dev_ops.Base.Text.{includes}
use surgical_dev_ops.Base.Outcome.{Outcome, ok, throw, require, reject, ◌>>=◌, ◌>>◌}
use surgical_dev_ops.Base.{
  ℕ, suc, String, Bool, true, false, List, [], ◌∷◌, Option, none, some, if◌then◌else◌, ◌==◌, ltb,
  str_eq, not, ◌&&◌, ◌||◌,
}
use surgical_dev_ops.Json.{Value, undefined, null, text, get, text_satisfies, same, is_number}
use surgical_dev_ops.Protocol.{exact_fields, malformed, result_classifications}
use surgical_dev_ops.Protocol.Credentials.{assert_credential_free}
use surgical_dev_ops.Protocol.Copy.{deep_freeze_copy}
use surgical_dev_ops.Registry.{Entry, Registry, Table, lookup, store}
use surgical_dev_ops.Registry.Claim.{refuse_substitution, unknown_submission}

abbrev pub is_undefined : Value → Bool
is_undefined undefined = true
is_undefined _ = false

-- The object that both maps gave, if they gave the same one.
unfoldable pub one_object : Option Entry → Option Entry → Outcome Entry
one_object (some entry) (some keyed) = do
  require (entry.identity == keyed.identity) unknown_submission
  ok entry
one_object _ _ = throw unknown_submission

-- What a record and a request must share.
unfoldable pub check_bound : Entry → Value → Outcome (Unit {0})
check_bound entry request = do
  refuse_substitution entry request
  require (same entry.intent_fingerprint (get request "intentFingerprint"))
      "protocol_failure INTENT_FINGERPRINT_MISMATCH"
  require
      (is_undefined (get request "externalExecutionId")
        || same (get request "externalExecutionId") entry.external_execution_id)
      "protocol_failure FORGED_EXTERNAL_EXECUTION_ID"

-- Reading a property of what is no value at all throws.
abbrev pub no_properties : String
no_properties = "TypeError: Cannot read properties of undefined or null."

abbrev pub has_properties : Value → Bool
has_properties undefined = false
has_properties null = false
has_properties _ = true

-- `requireBound(request)`.
unfoldable pub require_bound : Registry → Value → Outcome Entry
require_bound r request = do
  require (has_properties request) no_properties
  entry ←
      one_object (lookup (get request "operationId") r.by_operation)
        (lookup (get request "idempotencyKey") r.by_idempotency)
  check_bound entry request
  ok entry

-- `get(request)`.
unfoldable pub get_entry : Registry → Value → Outcome Entry
get_entry r request = do assert_credential_free request; require_bound r request

-- `TERMINAL`.
abbrev pub terminal : List String
terminal = "succeeded" ∷ "failed" ∷ "cancelled" ∷ "rejected" ∷ []

unfoldable pub is_terminal_value : Value → Bool
is_terminal_value v = text_satisfies (includes terminal) v

-- `PROGRESS[value]`.
unfoldable pub progress : Value → Option ℕ
progress (text s) =
    if str_eq s "accepted"
    then some 1
    else if str_eq s "running"
    then some 2
    else if includes terminal s
    then some 3
    else none
progress v = none

-- Both ranks are known and the next is lower.
unfoldable pub falls_back : Option ℕ → Option ℕ → Bool
falls_back (some previous) (some next) = ltb next previous
falls_back _ _ = false

abbrev pub regression : String
regression = "stale_state RESULT_STATE_REGRESSION"

-- The checks of an observation of a record.
unfoldable pub check_observation : Entry → Value → Value → Outcome (Unit {0})
check_observation record_entry request classification = do
  require (text_satisfies (includes result_classifications) classification) malformed
  require (is_number (get request "afterObservationSequence") record_entry.observation_sequence)
      "stale_state STALE_OBSERVATION_SEQUENCE"
  reject
      (is_terminal_value record_entry.current_observation_state
        && not (same classification record_entry.current_observation_state))
      regression
  reject (falls_back (progress record_entry.current_observation_state) (progress classification))
      regression

-- The record after an observation, an object of its own.
unfoldable pub observed_entry : ℕ → Entry → Value → Value → Value → Entry
observed_entry n e classification code observed = record {
  identity = n;
  protocol_version = e.protocol_version;
  operation_id = e.operation_id;
  request_id = e.request_id;
  idempotency_key = e.idempotency_key;
  intent_fingerprint = e.intent_fingerprint;
  principal = e.principal;
  authority = e.authority;
  workspace = e.workspace;
  repository = e.repository;
  request = e.request;
  external_execution_id = e.external_execution_id;
  current_observation_state = deep_freeze_copy classification;
  observation_sequence = suc e.observation_sequence;
  observed_at = deep_freeze_copy observed;
  last_code = deep_freeze_copy code;
}

abbrev pub observe_fields : List String
observe_fields = "request" ∷ "classification" ∷ "code" ∷ "observedAt" ∷ []

-- `observe(input)`: the registry after it, and the record.
unfoldable pub observe : Registry → Value → Outcome (Registry × Entry)
observe r input = do
  exact_fields input observe_fields []
  assert_credential_free input
  entry ← require_bound r (get input "request")
  check_observation entry (get input "request") (get input "classification")
  let next =
        observed_entry r.made entry (get input "classification") (get input "code")
          (get input "observedAt") in
      ok (store r next, next)

abbrev insert_entry : (Value → Value → Bool) → Entry → List Entry → List Entry
insert_entry before e [] = e ∷ []
insert_entry before e (d ∷ l) =
    if before d.operation_id e.operation_id then d ∷ insert_entry before e l else e ∷ d ∷ l

abbrev sort_entries : (Value → Value → Bool) → Table → List Entry
sort_entries before [] = []
sort_entries before (p ∷ t) = insert_entry before p.1 (sort_entries before t)

-- `inspect()`: the records in the order of their operations, by what `localeCompare` puts before.
unfoldable pub list_entries : (Value → Value → Bool) → Registry → List Entry
list_entries before r = sort_entries before r.by_operation
