-- ===== src/Risk.antt =====
-- accelerator/core/risk-classification.js: the level of an operation's risk and whether its policy lets
-- it be executed. Counts of lines are natural numbers; other numbers are refused.
pub mod Approval
pub mod Classify
pub mod Laws
pub mod Approved
use surgical_dev_ops.Base.Text.{codes, is_blank, trim, upper, includes}
use surgical_dev_ops.Base.{
  ℕ, String, Bool, true, false, List, [], ◌∷◌, ◌++◌, ◌&&◌, ◌||◌, not, if◌then◌else◌, ltb, leb,
  Option, some, none,
}
use surgical_dev_ops.Json.{
  Value, Items, undefined, null, boolean, number, text, array, object, nil, cons, get, is_object,
  is_string, is_truthy,
}
use surgical_dev_ops.Lifecycle.{find_symbol}

pub data Level : Type 0 where
  r0 r1 r2 r3 : Level

-- `LEVEL_ORDER`.
unfoldable pub level_order : Level → ℕ
level_order r0 = 0
level_order r1 = 1
level_order r2 = 2
level_order r3 = 3

-- `highestLevel(left, right)`.
unfoldable pub highest_level : Level → Level → Level
unfolding level_order
highest_level left right = if ltb (level_order left) (level_order right) then right else left

abbrev pub or_caller : Level → Option Level → Level
or_caller computed (some level) = highest_level computed level
or_caller computed none = computed

-- `normalizeMode(value)`.
unfoldable pub normalize_mode : Value → Option String
normalize_mode (text s) =
    find_symbol ("OBSERVE" ∷ "PATCH" ∷ "REFRACTOR" ∷ []) (upper (trim (codes s)))
normalize_mode v = none

abbrev level_of_symbol : Option String → Option Level
level_of_symbol none = none
level_of_symbol (some s) =
    if includes ("R0" ∷ []) s
    then some r0
    else if includes ("R1" ∷ "BAIXO" ∷ []) s
    then some r1
    else if includes ("R2" ∷ "MÉDIO" ∷ []) s
    then some r2
    else some r3

-- The caller's risk: none given, one that is known, or one that is malformed.
pub data CallerRisk : Type 0 where
  absent malformed : CallerRisk
  given : Level → CallerRisk

abbrev caller_risk_of : Option Level → CallerRisk
caller_risk_of (some level) = given level
caller_risk_of none = malformed

-- `normalizeCallerRisk(value)`.
unfoldable pub normalize_caller_risk : Value → CallerRisk
normalize_caller_risk undefined = absent
normalize_caller_risk null = absent
normalize_caller_risk (text s) = caller_risk_of (
    level_of_symbol (
      find_symbol ("R0" ∷ "R1" ∷ "R2" ∷ "R3" ∷ "BAIXO" ∷ "MÉDIO" ∷ "ALTO" ∷ [])
        (upper (trim (codes s)))))
normalize_caller_risk v = malformed

-- `facts[name]`, once it is known to be a Boolean.
abbrev pub fact : Value → String → Bool
fact facts name = is_true_value (get facts name)
  where
    is_true_value : Value → Bool
    is_true_value (boolean b) = b
    is_true_value _ = false

abbrev pub is_boolean_value : Value → Bool
is_boolean_value (boolean b) = true
is_boolean_value _ = false

abbrev pub required_facts : List String
required_facts =
    "readOnly" ∷ "externalEffect" ∷ "reversible" ∷ "sensitive" ∷ "critical" ∷ "irreversible" ∷ []

abbrev missing_fact : List String → Value → Bool
missing_fact [] facts = false
missing_fact (n ∷ ns) facts = not (is_boolean_value (get facts n)) || missing_fact ns facts

-- `validateFacts(facts)`: the reason of the first defect.
unfoldable pub validate_facts : Value → Option String
validate_facts facts =
    if not (is_object facts)
    then some "Required operation facts are missing."
    else if missing_fact required_facts facts
    then some "Required operation fact is missing or ambiguous."
    else if fact facts "readOnly" && fact facts "reversible"
    then some "Operation facts are ambiguous: read-only operations are not reversible mutations."
    else if fact facts "readOnly"
        && (fact facts "externalEffect"
            || fact facts "sensitive"
            || fact facts "critical"
            || fact facts "irreversible")
    then some "Operation facts are contradictory for a read-only operation."
    else if fact facts "irreversible" && not (fact facts "critical")
    then some "Operation facts are ambiguous: irreversible operations must be critical."
    else if not (fact facts "readOnly")
        && not (fact facts "reversible")
        && not (fact facts "irreversible")
    then some "Operation facts are ambiguous: mutations must declare reversibility."
    else none

-- `validateModeFacts(mode, facts)`.
unfoldable pub validate_mode_facts : String → Value → Option String
validate_mode_facts mode facts =
    if includes ("OBSERVE" ∷ []) mode && not (fact facts "readOnly")
    then some "Operation mode and facts are contradictory: OBSERVE must be read-only."
    else if not (includes ("OBSERVE" ∷ []) mode) && fact facts "readOnly"
    then some "Operation mode and facts are contradictory: the mode is mutating."
    else none

abbrev is_count : Value → Bool
is_count (number n) = true
is_count _ = false

abbrev pub count : Value → ℕ
count (number n) = n
count _ = 0

abbrev counted : Items → Bool
counted nil = true
counted (cons file files) = is_truthy file && is_count (get file "lines") && counted files

abbrev validate_files : Bool → Value → Option String
validate_files repository (array _ nil) =
    if repository then none else some "A non-empty file scope is required."
validate_files repository (array _ files) =
    if repository
    then some "Repository scope cannot contain file inspection entries."
    else if counted files
    then none
    else some "Every file line count must be a finite non-negative number."
validate_files repository _ = some "File scope must be represented as an array."

-- `validateNumericFacts(input)`.
unfoldable pub validate_numeric_facts : Value → Option String
validate_numeric_facts input =
    if is_count (get input "estimatedDiffLines")
    then validate_files (is_string (get input "scopeKind") "REPOSITORY") (get input "files")
    else some "estimatedDiffLines must be a finite non-negative number."

abbrev any_longer : Items → Bool
any_longer nil = false
any_longer (cons file files) = ltb 300 (count (get file "lines")) || any_longer files

abbrev has_two : Items → Bool
has_two (cons a (cons b files)) = true
has_two _ = false

abbrev items_of : Value → Items
items_of (array _ files) = files
items_of _ = nil

-- The conditions under which the level is raised to R2, and to R3.
unfoldable pub is_sensitive : Value → Bool
is_sensitive input =
    fact (get input "facts") "sensitive"
    || fact (get input "facts") "externalEffect"
    || has_two (items_of (get input "files"))
    || any_longer (items_of (get input "files"))
    || ltb 30 (count (get input "estimatedDiffLines"))

unfoldable pub is_critical : Value → String → Bool
is_critical input mode =
    fact (get input "facts") "critical"
    || fact (get input "facts") "irreversible"
    || includes ("REFRACTOR" ∷ []) mode
    || fact input "architecturalChange"
    || ltb 100 (count (get input "estimatedDiffLines"))

abbrev raise_if : Bool → Level → Level → Level
raise_if test next level = if test then highest_level level next else level

-- `computedLevel(input, mode, ...)`.
unfoldable pub computed_level : Value → String → Level
unfolding highest_level is_sensitive is_critical
computed_level input mode =
    raise_if (is_critical input mode) r3
      (raise_if (is_sensitive input) r2 (if fact (get input "facts") "readOnly" then r0 else r1))

abbrev signal_if : Bool → String → List String
signal_if test signal = if test then signal ∷ [] else []

-- The signals that the computation of the level gives.
unfoldable pub computed_signals : Value → String → List String
unfolding is_sensitive is_critical
computed_signals input mode =
    signal_if (is_sensitive input) "SENSITIVE_OPERATION"
    ++ signal_if (is_critical input mode) "CRITICAL_OPERATION"
