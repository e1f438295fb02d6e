-- ===== src/Transaction/BindEvidence.antt =====
-- accelerator/core/mutation-transaction.js: binding the proof of commit authority.
use surgical_dev_ops.Base.Outcome.{ok, bind-ok, require-ok, every-AllTrue, chains, ok-injective}
use surgical_dev_ops.Base.{
  ◌∙◌, ◌≡◌, refl, subst, String, true, false, List, [], ◌∷◌, ◌++◌, arith, or-split, and-split,
}
use surgical_dev_ops.Json.{Value, text, get, is_object}
use surgical_dev_ops.Json.Access.{eq-text_of_is_string}
use surgical_dev_ops.Transaction.Stage.{
  mutation_started, commit_authority_verified, permits, same_stage, same_stage_iff, ordinal,
}
use surgical_dev_ops.Transaction.Data.{commit_authority_fingerprint, Event, Transaction}
use surgical_dev_ops.Transaction.Authority.{require_commit_authority_evidence, is_sealed}
use surgical_dev_ops.Json.{is_truthy}
use surgical_dev_ops.Transaction.Validate.{
  has_stage, has_fitting_keys, check_authority, first_authority, authority_key, require_transaction,
}
use surgical_dev_ops.Json.{same}
use surgical_dev_ops.Transaction.Operations.{bind_commit_authority_evidence}
use surgical_dev_ops.Transaction.Safety.{
  Checked, require_transaction-Checked, Checked-require_transaction,
  require_commit_authority_evidence_self,
}
use surgical_dev_ops.Transaction.Early.{history-AllBelow, below-has_stage}
use surgical_dev_ops.Transaction.Extend.{extend, new_event, extend-Checked}
use surgical_dev_ops.Transaction.Preserve.{
  require_commit_authority_evidence-ids, check_lock-other, check_recovery-kept,
}
use surgical_dev_ops.Transaction.Bind.{
  has_stage-new, same-text, object-is_truthy, fitting-authority, Agree-free, at_end,
}

first_authority-new :
    (events : List Event) (e : Event)
    → has_stage commit_authority_verified events ≡ false
    → e.stage ≡ commit_authority_verified
    → first_authority (events ++ e ∷ []) ≡ authority_key e.extra
unfolding first_authority
first_authority-new [] e none_before at =
    rw ((same_stage_iff e.stage commit_authority_verified).1 at) refl
first_authority-new (d ∷ events) e none_before at =
    let (other, rest) = or-split (same_stage d.stage commit_authority_verified) _ none_before in
    rw other (first_authority-new events e rest at)

fitting-authority_key :
    (lock authority recovery : Value)
    → is_truthy authority ≡ true
    → same (get authority "fingerprint") (get authority "fingerprint") ≡ true
    → has_fitting_keys lock authority recovery commit_authority_verified
        (commit_authority_fingerprint (get authority "fingerprint"))
      ≡ true
unfolding has_fitting_keys same_stage
fitting-authority_key lock authority recovery h k = rw (h, k) refl

module _ (sha256 : String → String) where
  evidence-tests :
      (t : Transaction) (e : Value) {e' : Value}
      → require_commit_authority_evidence sha256 t e ≡ ok e'
      → (is_object e ≡ true) × ((s : String) × (get e "fingerprint" ≡ text s))
  unfolding require_commit_authority_evidence is_sealed
  evidence-tests t e h = require-ok _ _ _ h λ object h1. require-ok _ _ _ h1 λ tests _.
      let sealed = every-AllTrue _ tests in
      (object, (_, eq-text_of_is_string _ _ (and-split _ _ sealed.1.1.1.1.1.1.0).1))

  check_authority-new :
      (t : Transaction) (lock e recovery : Value)
      → has_stage commit_authority_verified t.history ≡ false
      → require_commit_authority_evidence sha256 t e ≡ ok e
      → same (get e "fingerprint") (get e "fingerprint") ≡ true
      → check_authority sha256 (
          extend t commit_authority_verified
            (commit_authority_fingerprint (get e "fingerprint"))
            lock
            e
            recovery)
        ≡ ok tt
  unfolding check_authority chains
  check_authority-new t lock e recovery none_before h k =
      let event =
        new_event t commit_authority_verified
          (commit_authority_fingerprint (get e "fingerprint")) in
      rw
        (
          has_stage-new commit_authority_verified t.history event refl,
          first_authority-new t.history event none_before refl,
          require_commit_authority_evidence-ids,
          h,
          k,
        )
        refl

  authority-Checked :
      (t : Transaction) (e : Value)
      → Checked sha256 t
      → t.stage ≡ mutation_started
      → require_commit_authority_evidence sha256 t e ≡ ok e
      → Checked sha256 (
          extend t commit_authority_verified
            (commit_authority_fingerprint (get e "fingerprint"))
            t.lock
            e
            t.recovery_evidence)
  unfolding permits ordinal same_stage
  authority-Checked t e c at h =
      let (object, named) = evidence-tests t e h in
      let key = same-text (get e "fingerprint") named.0 named.1 in
      let extra = commit_authority_fingerprint (get e "fingerprint") in
      let below =
        history-AllBelow t mutation_started (at_end sha256 t mutation_started c at) (omega arith) in
      let none_before = below-has_stage 3 commit_authority_verified t.history (omega arith) below in
      extend-Checked sha256 t commit_authority_verified extra t.lock e t.recovery_evidence c
        (rw at refl)
        (Agree-free t (extend t commit_authority_verified extra t.lock e t.recovery_evidence)
          (λ s. same_stage s commit_authority_verified) t.history none_before
          (λ d other f.
            fitting-authority t.lock t.lock t.commit_authority e t.recovery_evidence
              t.recovery_evidence d.stage d.extra other f))
        (fitting-authority_key t.lock e t.recovery_evidence (object-is_truthy e object) key)
        (check_lock-other sha256 t commit_authority_verified extra e t.recovery_evidence refl
          ∙ c.lock)
        (check_authority-new t t.lock e t.recovery_evidence none_before h key)
        (check_recovery-kept sha256 t commit_authority_verified extra t.lock e c.recovery)

  authority-valid :
      (t current : Transaction) (e e' : Value) {u : Transaction}
      → (t ≡ current) × Checked sha256 t
      → same_stage current.stage mutation_started ≡ true
      → require_commit_authority_evidence sha256 current e ≡ ok e'
      → extend current commit_authority_verified
          (commit_authority_fingerprint (get e' "fingerprint"))
          current.lock
          e'
          current.recovery_evidence
        ≡ u
      → require_transaction sha256 u ≡ ok u
  authority-valid t current e e' (same_t, checked) at h made =
      let kept = require_commit_authority_evidence_self sha256 current e h in
      let h' = subst (λ v. require_commit_authority_evidence sha256 current v ≡ ok e') kept h in
      subst (λ v. require_transaction sha256 v ≡ ok v) made
        (Checked-require_transaction sha256 _ (
          authority-Checked current e' (subst (Checked sha256) same_t checked)
            ((same_stage_iff current.stage mutation_started).0 at) h'))

  -- Binding the proof of commit authority returns a valid transaction.
  pub bind_authority-valid :
      (t : Transaction) (e : Value) {u : Transaction}
      → bind_commit_authority_evidence sha256 t e ≡ ok u
      → require_transaction sha256 u ≡ ok u
  unfolding bind_commit_authority_evidence
  bind_authority-valid t e {u} h = bind-ok _ _ h λ current valid h1. require-ok _ _ _ h1 λ at h2.
      bind-ok _ _ h2 λ e' held h3.
        authority-valid t current e e' (require_transaction-Checked sha256 t valid) at held
          (ok-injective h3)
