-- ===== src/Runner.antt =====
-- accelerator/core/mission-runner-policy.js: the envelope of a mission, its validation, and the texts,
-- lists and counts that it is made of. A value that is destructured has its missing keys defaulted.
pub mod Envelope
pub mod Evidence
pub mod Step
pub mod Laws
use Prim.Native.String
use Prim.Native.Nat.{Ordering}
use surgical_dev_ops.Base.Text.{codes, trim, upper, is_blank, same_codes, includes, units, is_hash}
use surgical_dev_ops.Base.Outcome.{Outcome, ok, throw, require, reject, ◌>>=◌, ◌>>◌, every}
use surgical_dev_ops.Base.{
  ℕ, String, Bool, true, false, List, [], ◌∷◌, ◌&&◌, ◌||◌, not, str_eq, Option, none, some,
  if◌then◌else◌, any, leb, ◌==◌, length,
}
use surgical_dev_ops.Json.{
  Value, Items, Fields, undefined, null, boolean, number, other_number, text, array, object, nil,
  cons, end, field, get, is_frozen, is_string, is_number, text_satisfies, deep_freeze, is_truthy,
}
use surgical_dev_ops.Recovery.{digest}
use surgical_dev_ops.Lifecycle.{find_symbol, symbol_of}

abbrev pub envelope_schema : String
envelope_schema = "sdo.mission_execution_envelope.v1"

abbrev pub risks : List String
risks = "BAIXO" ∷ "MÉDIO" ∷ "ALTO" ∷ []

-- `RISK_ORDER[risk]`
unfoldable pub risk_order : Value → Option ℕ
risk_order (text s) =
    if str_eq s "BAIXO"
    then some 0
    else if str_eq s "MÉDIO"
    then some 1
    else if str_eq s "ALTO"
    then some 2
    else none
risk_order _ = none

abbrev pub environments : List String
environments = "localhost" ∷ "Preview" ∷ "Production" ∷ []

-- `DEFAULT_FRICTION_BUDGET[risk]`, whose three counts are equal.
abbrev pub budget_of : ℕ → Value
budget_of n = object true (
    field "gates" (number n)
      (field "interruptions" (number n) (field "manualActions" (number n) end)))

abbrev pub default_friction_budget : String → Value
default_friction_budget risk =
    if str_eq risk "BAIXO"
    then budget_of 1
    else if str_eq risk "MÉDIO"
    then budget_of 2
    else budget_of 3

-- An argument that is destructured with the default `{}`: nothing is read of `null`.
unfoldable pub opened : Value → Outcome Value
opened undefined = ok (object false end)
opened null = throw "Cannot destructure null."
opened v = ok v

-- The value of a key, or its default where there is none.
abbrev pub defaulted : Value → Value → Value
defaulted undefined d = d
defaulted v d = v

unfoldable pub require_text : Value → String → ℕ → Outcome String
require_text (text s) label maximum = do
  let cs = codes s
  require
      (every (
        (not (is_blank cs))
        ∷ (same_codes cs (trim cs))
        ∷ (leb (units cs) maximum)
        ∷ (not (any (λ c. c == 0) cs))
        ∷ []))
      (String.◌++◌ label " is malformed.")
  ok s
require_text _ label maximum = throw (String.◌++◌ label " is malformed.")

unfoldable pub require_texts : Items → String → Outcome (List String)
require_texts nil label = ok []
require_texts (cons v vs) label = do
  s ← require_text v label 1024
  rest ← require_texts vs label
  ok (s ∷ rest)

abbrev pub count_items : Items → ℕ
count_items nil = 0
count_items (cons v vs) = ℕ.suc (count_items vs)

-- `[...new Set(list)]`: each text where it stands first.
abbrev without_text : String → List String → List String
without_text s [] = []
without_text s (t ∷ l) = let rest = without_text s l in if str_eq s t then rest else t ∷ rest

unfoldable pub distinct : List String → List String
distinct [] = []
distinct (s ∷ l) = s ∷ without_text s (distinct l)

abbrev insert : String → List String → List String
insert s [] = s ∷ []
insert s (t ∷ l) = elim (String.compare t s) [ Ordering.gt ↦ s ∷ t ∷ l | _ ↦ t ∷ insert s l ]

-- `list.sort()`
unfoldable pub sorted : List String → List String
sorted [] = []
sorted (s ∷ l) = insert s (sorted l)

unfoldable pub require_string_list : Value → String → ℕ → Outcome (List String)
require_string_list (array _ vs) label maximum = do
  require (not (count_items vs == 0) && leb (count_items vs) maximum)
      (String.◌++◌ label " is malformed.")
  all_texts ← require_texts vs label
  require (length (distinct all_texts) == count_items vs)
      (String.◌++◌ label " contains duplicates.")
  ok (sorted (distinct all_texts))
require_string_list _ label maximum = throw (String.◌++◌ label " is malformed.")

unfoldable pub require_count : Value → String → Outcome ℕ
require_count (number n) label = ok n
require_count (other_number finite s) label =
    if finite && str_eq s "0" then ok 0 else throw (String.◌++◌ label " is malformed.")
require_count _ label = throw (String.◌++◌ label " is malformed.")

abbrev pub texts : List String → Items
texts [] = nil
texts (s ∷ l) = cons (text s) (texts l)

-- The friction that a budget allows.
pub record Friction : Type 0 where
  pub gates : ℕ
  pub interruptions : ℕ
  pub manual_actions : ℕ

unfoldable pub require_friction : Value → Outcome Friction
require_friction budget = do
  gates ← require_count (get budget "gates") "Friction gate budget"
  interruptions ← require_count (get budget "interruptions") "Friction interruption budget"
  manual_actions ← require_count (get budget "manualActions") "Friction manual-action budget"
  ok (record { gates = gates; interruptions = interruptions; manual_actions = manual_actions })

abbrev pub friction_value : Friction → Value
friction_value b = object false (
    field "gates" (number b.gates) (
      field "interruptions" (number b.interruptions)
        (field "manualActions" (number b.manual_actions) end)))
