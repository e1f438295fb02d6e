-- ===== src/Transaction/BindRecovery.antt =====
-- accelerator/core/mutation-transaction.js: binding recovery evidence for the first time.
use surgical_dev_ops.Base.Outcome.{ok, bind-ok, require-ok, every-AllTrue, chains, ok-injective}
use surgical_dev_ops.Base.{
  ◌∙◌, ◌≡◌, refl, subst, String, Bool, true, false, arith, if◌then◌else◌, and_three,
}
use surgical_dev_ops.Json.{Value, text, get, is_string}
use surgical_dev_ops.Json.Access.{eq-text_of_is_string}
use surgical_dev_ops.Transaction.Stage.{
  Stage, locked, commit_authority_verified, recovered, recovery_unresolved, recovery_required,
  permits, same_stage, same_stage_iff,
}
use surgical_dev_ops.Transaction.Data.{recovery_evidence_fingerprint, Transaction}
use surgical_dev_ops.Json.{is_truthy}
use surgical_dev_ops.Transaction.Validate.{
  has_recovery, has_fitting_keys, check_recovery, require_transaction, binds_recovery, is_recovery,
}
use surgical_dev_ops.Json.{same}
use surgical_dev_ops.Transaction.Operations.{bind_mutation_recovery_evidence}
use surgical_dev_ops.Transaction.Safety.{
  Checked, require_transaction-Checked, Checked-require_transaction,
}
use surgical_dev_ops.Transaction.Extend.{extend, new_event, extend-Checked}
use surgical_dev_ops.Transaction.Preserve.{
  check_lock-other, check_authority-other, binds_recovery-ids, has_recovery-append,
}
use surgical_dev_ops.Transaction.Bind.{same-text, fitting-recovery, Agree-free}

fitting-recovery_key :
    (lock authority recovery : Value) (stage : Stage)
    → is_recovery stage ≡ true
    → is_truthy recovery ≡ true
    → same (get recovery "fingerprint") (get recovery "fingerprint") ≡ true
    → has_fitting_keys lock authority recovery stage
        (recovery_evidence_fingerprint (get recovery "fingerprint"))
      ≡ true
unfolding has_fitting_keys
fitting-recovery_key lock authority recovery stage r h k = rw (r, h, k) refl

-- The stage that a recovery ends in.
abbrev pub outcome_stage : Value → Stage
outcome_stage e =
    if is_string (get e "recoveryClassification") "RECOVERY_UNRESOLVED"
    then recovery_unresolved
    else recovered

-- It is one of the two, permitted after RECOVERY_REQUIRED, and neither LOCKED nor
-- COMMIT_AUTHORITY_VERIFIED.
outcome_stage-facts :
    (b : Bool)
    → (let s = if b then recovery_unresolved else recovered in
        (is_recovery s ≡ true)
        × (permits recovery_required s ≡ true)
        × (same_stage s locked ≡ false)
        × (same_stage s commit_authority_verified ≡ false))
unfolding permits same_stage
outcome_stage-facts true = (refl, refl, refl, refl)
outcome_stage-facts false = (refl, refl, refl, refl)

module _ (sha256 : String → String) where
  abbrev pub recover : Transaction → Value → Transaction
  recover t e =
      extend t (outcome_stage e) (recovery_evidence_fingerprint (get e "fingerprint")) t.lock
        t.commit_authority e

  check_recovery-new :
      (t : Transaction) (e : Value)
      → binds_recovery sha256 t e ≡ true
      → check_recovery sha256 (recover t e) ≡ ok tt
  unfolding check_recovery chains
  check_recovery-new t e h =
      let facts =
        outcome_stage-facts (is_string (get e "recoveryClassification") "RECOVERY_UNRESOLVED") in
      rw
        (
          has_recovery-append t.history
              (new_event t (outcome_stage e) (recovery_evidence_fingerprint (get e "fingerprint"))),
          facts.0,
          binds_recovery-ids,
          h,
        )
        (ground arith)

  recovery-Checked :
      (t : Transaction) (e : Value)
      → Checked sha256 t
      → t.stage ≡ recovery_required
      → has_recovery t.history ≡ false
      → is_truthy e ≡ true
      → binds_recovery sha256 t e ≡ true
      → same (get e "fingerprint") (get e "fingerprint") ≡ true
      → Checked sha256 (recover t e)
  recovery-Checked t e c at none_before truthy h key =
      let stage = outcome_stage e in
      let extra = recovery_evidence_fingerprint (get e "fingerprint") in
      let (ends, permitted, not_lock, not_authority) =
        outcome_stage-facts (is_string (get e "recoveryClassification") "RECOVERY_UNRESOLVED") in
      extend-Checked sha256 t stage extra t.lock t.commit_authority e c (rw at permitted)
        (Agree-free t (recover t e) is_recovery t.history none_before (λ d other f.
          fitting-recovery t.lock t.lock t.commit_authority t.commit_authority t.recovery_evidence e
            d.stage d.extra other f))
        (fitting-recovery_key t.lock t.commit_authority e stage ends truthy key)
        (check_lock-other sha256 t stage extra t.commit_authority e not_lock ∙ c.lock)
        (check_authority-other sha256 t stage extra t.lock e not_authority ∙ c.authority)
        (check_recovery-new t e h)

  pub binds_recovery-key :
      (t : Transaction) (e : Value)
      → binds_recovery sha256 t e ≡ true
      → (s : String) × (get e "fingerprint" ≡ text s)
  unfolding binds_recovery
  binds_recovery-key t e h = (_, eq-text_of_is_string _ _ (every-AllTrue _ h).1.1.1.1.0)

  -- What a binding of recovery evidence that returned has tested, and what it returned.
  pub bound :
      (t : Transaction) (e : Value) {u : Transaction}
      → bind_mutation_recovery_evidence sha256 t e ≡ ok u
      → Checked sha256 t
        × (t.stage ≡ recovery_required)
        × (is_truthy e ≡ true)
        × (binds_recovery sha256 t e ≡ true)
        × (recover t e ≡ u)
  unfolding bind_mutation_recovery_evidence
  bound t e h = bind-ok _ _ h λ current valid h1. require-ok _ _ _ h1 λ tests h2.
      let parts = and_three _ _ _ tests in
      let (same_t, c) = require_transaction-Checked sha256 t valid in
      rw same_t (
        subst (Checked sha256) same_t c,
        (same_stage_iff current.stage recovery_required).0 parts.0,
        parts.1,
        parts.2,
        ok-injective h2,
      )

  -- Binding recovery evidence to a transaction whose history holds no recovery yet returns a valid
  -- transaction.
  pub bind_recovery-valid :
      (t : Transaction) (e : Value) {u : Transaction}
      → bind_mutation_recovery_evidence sha256 t e ≡ ok u
      → has_recovery t.history ≡ false
      → require_transaction sha256 u ≡ ok u
  bind_recovery-valid t e h none_before =
      let (c, at, truthy, binds, made) = bound t e h in
      let (s, key) = binds_recovery-key t e binds in
      subst (λ v. require_transaction sha256 v ≡ ok v) made
        (Checked-require_transaction sha256 (recover t e) (
          recovery-Checked t e c at none_before truthy binds
            (same-text (get e "fingerprint") s key)))
