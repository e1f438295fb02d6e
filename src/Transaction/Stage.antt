-- ===== src/Transaction/Stage.antt =====
-- The stages of a mutation transaction and the transitions between them
-- (accelerator/core/mutation-transaction.js: STAGES, TERMINAL, TRANSITIONS).
use surgical_dev_ops.Base.{
  ℕ, String, Bool, true, false, Option, none, some, if◌then◌else◌, str_eq, ◌==◌, ==_refl, ◌≡◌, ◌↔◌,
  arith,
}

pub data Stage : Type 0 where
  prepared locked before_verified mutation_started commit_authority_verified : Stage
  physical_applied after_verified evidence_recorded finalized_success : Stage
  finalized_failed recovery_required recovered recovery_unresolved : Stage

pub Stage-discrete : Discrete Stage
Stage-discrete = hlevel

unfoldable pub stage_name : Stage → String
stage_name prepared = "PREPARED"
stage_name locked = "LOCKED"
stage_name before_verified = "BEFORE_VERIFIED"
stage_name mutation_started = "MUTATION_STARTED"
stage_name commit_authority_verified = "COMMIT_AUTHORITY_VERIFIED"
stage_name physical_applied = "PHYSICAL_APPLIED"
stage_name after_verified = "AFTER_VERIFIED"
stage_name evidence_recorded = "EVIDENCE_RECORDED"
stage_name finalized_success = "FINALIZED_SUCCESS"
stage_name finalized_failed = "FINALIZED_FAILED"
stage_name recovery_required = "RECOVERY_REQUIRED"
stage_name recovered = "RECOVERED"
stage_name recovery_unresolved = "RECOVERY_UNRESOLVED"

-- The stage of a name, if `STAGES.includes(name)`.
unfoldable pub stage_of : String → Option Stage
stage_of s =
    if str_eq s "PREPARED"
    then some prepared
    else if str_eq s "LOCKED"
    then some locked
    else if str_eq s "BEFORE_VERIFIED"
    then some before_verified
    else if str_eq s "MUTATION_STARTED"
    then some mutation_started
    else if str_eq s "COMMIT_AUTHORITY_VERIFIED"
    then some commit_authority_verified
    else if str_eq s "PHYSICAL_APPLIED"
    then some physical_applied
    else if str_eq s "AFTER_VERIFIED"
    then some after_verified
    else if str_eq s "EVIDENCE_RECORDED"
    then some evidence_recorded
    else if str_eq s "FINALIZED_SUCCESS"
    then some finalized_success
    else if str_eq s "FINALIZED_FAILED"
    then some finalized_failed
    else if str_eq s "RECOVERY_REQUIRED"
    then some recovery_required
    else if str_eq s "RECOVERED"
    then some recovered
    else if str_eq s "RECOVERY_UNRESOLVED"
    then some recovery_unresolved
    else none

-- `TERMINAL.has(stage)`
unfoldable pub is_terminal : Stage → Bool
is_terminal finalized_success = true
is_terminal finalized_failed = true
is_terminal recovery_unresolved = true
is_terminal _ = false

-- `(TRANSITIONS[from] || new Set()).has(to)`
unfoldable pub permits : Stage → Stage → Bool
permits prepared locked = true
permits prepared finalized_failed = true
permits prepared recovery_required = true
permits locked before_verified = true
permits locked finalized_failed = true
permits locked recovery_required = true
permits before_verified mutation_started = true
permits before_verified finalized_failed = true
permits before_verified recovery_required = true
permits mutation_started commit_authority_verified = true
permits mutation_started finalized_failed = true
permits mutation_started recovery_required = true
permits commit_authority_verified physical_applied = true
permits commit_authority_verified finalized_failed = true
permits commit_authority_verified recovery_required = true
permits physical_applied after_verified = true
permits physical_applied recovery_required = true
permits after_verified evidence_recorded = true
permits after_verified recovery_required = true
permits evidence_recorded finalized_success = true
permits evidence_recorded finalized_failed = true
permits evidence_recorded recovery_required = true
permits recovery_required recovered = true
permits recovery_required recovery_unresolved = true
permits recovered evidence_recorded = true
permits _ _ = false

-- Where a stage stands in the order of the enumeration, to compare stages by number.
unfoldable pub ordinal : Stage → ℕ
ordinal prepared = 0
ordinal locked = 1
ordinal before_verified = 2
ordinal mutation_started = 3
ordinal commit_authority_verified = 4
ordinal physical_applied = 5
ordinal after_verified = 6
ordinal evidence_recorded = 7
ordinal finalized_success = 8
ordinal finalized_failed = 9
ordinal recovery_required = 10
ordinal recovered = 11
ordinal recovery_unresolved = 12

-- `left === right`
unfoldable pub same_stage : Stage → Stage → Bool
unfolding ordinal
same_stage a b = ordinal a == ordinal b

pub same_stage_iff : (a b : Stage) → (same_stage a b ≡ true) ↔ (a ≡ b)
unfolding same_stage
same_stage_iff a b = (to a b, λ e. rw e (==_refl (ordinal b)))
  where
    to : (a b : Stage) → (ordinal a == ordinal b) ≡ true → a ≡ b
    to a b h = ground arith
