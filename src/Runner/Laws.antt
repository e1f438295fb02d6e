-- ===== src/Runner/Laws.antt =====
-- accelerator/core/mission-runner-policy.js: what a step of a mission may do.
use surgical_dev_ops.Base.Outcome.{ok}
use surgical_dev_ops.Base.{
  ℕ, ◌≡◌, ◌⊎◌, ◌≤◌, ◌<◌, Option, String, Bool, true, not, ◌||◌, str_eq, none, some,
}
use surgical_dev_ops.Json.{Value, get, text, number, is_string}
use surgical_dev_ops.Runner.{require_count, risk_order, Friction}
use surgical_dev_ops.Runner.Step.{Request, stop_signals, list_includes, first_signal, or_zero}

-- Whether a decision lets the runner go on.
abbrev pub proceeds : Value → Bool
proceeds d =
    is_string (get d "classification") "CONTINUE"
    || is_string (get d "classification") "REUSE_EVIDENCE"

abbrev pub natural : Value → Option ℕ
natural (number n) = some n
natural _ = none

-- A count below a limit, or up to it, where the limit is a number.
abbrev pub Below : ℕ → Value → Type 0
Below n v = ((limit : ℕ) × (v ≡ number limit) × (n < limit)) ⊎ (natural v ≡ none)

abbrev pub UpTo : ℕ → Value → Type 0
UpTo n v = ((limit : ℕ) × (v ≡ number limit) × (n ≤ limit)) ⊎ (natural v ≡ none)

-- A rank up to another, where both are known.
abbrev pub RanksUpTo : Option ℕ → Option ℕ → Type 0
RanksUpTo (some n) (some top) = n ≤ top
RanksUpTo _ _ = Unit {0}

-- The count of a key of the request's friction, 0 where it is missing.
abbrev pub Counts : Request → String → String → ℕ → Type 0
Counts r key label n = require_count (or_zero (get r.friction_spent key)) label ≡ ok n

-- A step inside the mission `m`: its operation and its target are listed, its risk is no higher, no
-- stop signal is on, and neither the attempts nor any count of the request's friction goes beyond its
-- limit, where the mission has a number for it.
pub record Inside (r : Request) (m : Value) (operation target risk : String) : Type 0 where
  pub operation_listed : list_includes (get m "allowedOperations") operation ≡ true
  pub target_listed : list_includes (get m "allowedTargets") target ≡ true
  pub risk_bounded : RanksUpTo (risk_order (text risk)) (risk_order (get m "risk"))
  pub attempts_left : Below r.equivalent_attempts (get m "equivalentAttemptCeiling")
  pub silent : first_signal stop_signals r.signals ≡ none
  pub spent : Friction
  pub gates_spent : Counts r "gates" "Spent gates" spent.gates
  pub interruptions_spent : Counts r "interruptions" "Spent interruptions" spent.interruptions
  pub manual_actions_spent : Counts r "manualActions" "Spent manual actions" spent.manual_actions
  pub gates_affordable : UpTo spent.gates (get (get m "frictionBudget") "gates")
  pub interruptions_affordable :
      UpTo spent.interruptions (get (get m "frictionBudget") "interruptions")
  pub manual_actions_affordable :
      UpTo spent.manual_actions (get (get m "frictionBudget") "manualActions")

halts : (classification : String) → Bool
halts classification =
    not (str_eq classification "CONTINUE" || str_eq classification "REUSE_EVIDENCE")
