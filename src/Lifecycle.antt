-- ===== src/Lifecycle.antt =====
-- accelerator/reconstruction/v3/core/operation-state-contract.js: the lifecycle of an operation, its
-- only transitions, and the classification of a state boundary. Symbols are read as the source reads
-- them, trimmed and in upper case.
pub mod Laws
pub mod Boundary
use Prim.Native.String
use surgical_dev_ops.Base.Text.{codes, trim, upper, is_blank, same_codes, includes}
use surgical_dev_ops.Base.Outcome.{Outcome, ok, throw, require, reject, ◌>>=◌, ◌>>◌}
use surgical_dev_ops.Base.{
  String, Bool, true, false, List, [], ◌∷◌, ◌&&◌, ◌||◌, not, str_eq, Option, none, some,
  if◌then◌else◌, ℕ,
}
use surgical_dev_ops.Json.{
  Value, Fields, Items, undefined, null, boolean, text, array, object, nil, cons, end, field, get,
}

abbrev pub contract_schema : String
contract_schema = "sdo.reconstruction.operation_state_contract.v1"

abbrev pub lifecycle_states : List String
lifecycle_states = "PENDING" ∷ "COMPLETED" ∷ "FAILED" ∷ "NOT_EXECUTABLE" ∷ []

abbrev pub initial_lifecycle_states : List String
initial_lifecycle_states = "PENDING" ∷ "NOT_EXECUTABLE" ∷ []

abbrev pub terminal_lifecycle_states : List String
terminal_lifecycle_states = "COMPLETED" ∷ "FAILED" ∷ "NOT_EXECUTABLE" ∷ []

abbrev pub transition_types : List String
transition_types = "COMPLETE" ∷ "FAIL" ∷ []

abbrev pub boundary_statuses : List String
boundary_statuses = "PENDING_AFTER_STATE" ∷ "COMPLETED" ∷ "FAILED" ∷ "NOT_EXECUTABLE" ∷ []

-- `TRANSITION_TABLE[from][type]`, where every row but the first is empty.
abbrev pub transition_table : String → String → Option String
transition_table from type =
    if str_eq from "PENDING" && str_eq type "COMPLETE"
    then some "COMPLETED"
    else if str_eq from "PENDING" && str_eq type "FAIL"
    then some "FAILED"
    else none

-- The symbol of a list that a text spells.
unfoldable pub find_symbol : List String → List ℕ → Option String
find_symbol [] symbol = none
find_symbol (s ∷ allowed) symbol =
    let rest = find_symbol allowed symbol in if same_codes symbol (codes s) then some s else rest

unfoldable pub symbol_of : Option String → String → Outcome String
symbol_of (some s) message = ok s
symbol_of none message = throw message

unfoldable pub canonical_symbol : Value → List String → String → Outcome String
canonical_symbol (text s) allowed name = do
  reject (is_blank (codes s)) (String.◌++◌ name " must be a non-empty string.")
  symbol_of (find_symbol allowed (upper (trim (codes s)))) (String.◌++◌ "Unknown " name)
canonical_symbol _ allowed name = throw (String.◌++◌ name " must be a non-empty string.")

-- `input && typeof input === 'object'`: arrays included.
abbrev pub is_reference : Value → Bool
is_reference (object _ _) = true
is_reference (array _ _) = true
is_reference _ = false

abbrev pub transition : String → String → String → Value
transition from type to = object true (
    field "schema" (text contract_schema) (
      field "from" (text from) (
        field "type" (text type) (
          field "to" (text to)
            (field "terminal" (boolean (includes terminal_lifecycle_states to)) end)))))

unfoldable pub resolve_lifecycle_transition : Value → Outcome Value
resolve_lifecycle_transition input = do
  require (is_reference input) "Lifecycle transition input must be an object."
  from ← canonical_symbol (get input "currentStatus") lifecycle_states "lifecycle state"
  type ← canonical_symbol (get input "transitionType") transition_types "lifecycle transition"
  reject (includes terminal_lifecycle_states from) "Lifecycle state is terminal."
  to ← symbol_of (transition_table from type) "Transition is forbidden."
  ok (transition from type to)

-- `typeof value === 'string' && value.trim()`, then `value.trim().toUpperCase()`.
unfoldable pub is_filled_text : Value → Bool
is_filled_text (text s) = not (is_blank (codes s))
is_filled_text _ = false

unfoldable pub spelled : Value → String → Bool
spelled (text s) symbol = same_codes (upper (trim (codes s))) (codes symbol)
spelled _ symbol = false

abbrev pub is_boolean : Value → Bool
is_boolean (boolean b) = true
is_boolean _ = false

-- The operation's outcome: nothing, or the only symbol there is.
unfoldable pub operation_outcome : Value → Outcome (Option String)
operation_outcome undefined = ok none
operation_outcome null = ok none
operation_outcome v = do
  symbol ← canonical_symbol v ("FAILED" ∷ []) "operation outcome"
  ok (some symbol)

abbrev pub has_failed : Option String → Bool
has_failed (some s) = str_eq s "FAILED"
has_failed none = false

abbrev pub is_true : Value → Bool
is_true (boolean b) = b
is_true _ = false

unfoldable pub boundary_status : Bool → Bool → Bool → String
boundary_status authorized failed after_present =
    if not authorized
    then "NOT_EXECUTABLE"
    else if failed
    then "FAILED"
    else if after_present
    then "COMPLETED"
    else "PENDING_AFTER_STATE"

abbrev pub boundary : String → Value
boundary status = object true (
    field "schema" (text contract_schema) (
      field "status" (text status)
        (field "terminal" (boolean (not (str_eq status "PENDING_AFTER_STATE"))) end)))

unfoldable pub classify_state_boundary : Value → Outcome Value
classify_state_boundary input = do
  require (is_reference input) "State-boundary classification input must be an object."
  require (is_filled_text (get input "authorizationStatus"))
      "authorizationStatus must be a non-empty string."
  require (is_boolean (get input "afterPresent")) "afterPresent must be a boolean."
  outcome ← operation_outcome (get input "outcome")
  ok (
      boundary (
        boundary_status (spelled (get input "authorizationStatus") "AUTHORIZED")
          (has_failed outcome) (is_true (get input "afterPresent"))))

abbrev texts : List String → Items
texts [] = nil
texts (s ∷ l) = cons (text s) (texts l)

-- The rows of the table as a value.
abbrev pub table_value : Value
table_value = object true (
    field "PENDING"
      (object true (field "COMPLETE" (text "COMPLETED") (field "FAIL" (text "FAILED") end)))
      (field "COMPLETED" (object true end)
        (field "FAILED" (object true end) (field "NOT_EXECUTABLE" (object true end) end))))

unfoldable pub describe_operation_state_contract : Value
describe_operation_state_contract = object true (
    field "schema" (text contract_schema) (
      field "lifecycleStates" (array true (texts lifecycle_states)) (
        field "initialLifecycleStates" (array true (texts initial_lifecycle_states)) (
          field "terminalLifecycleStates" (array true (texts terminal_lifecycle_states)) (
            field "transitionTypes" (array true (texts transition_types)) (
              field "boundaryStatuses" (array true (texts boundary_statuses))
                (field "transitionTable" table_value end)))))))
