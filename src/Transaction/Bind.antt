-- ===== src/Transaction/Bind.antt =====
-- accelerator/core/mutation-transaction.js: binding the lock.
use surgical_dev_ops.Base.Outcome.{ok, bind-ok, require-ok, every-AllTrue, chains, ok-injective}
use surgical_dev_ops.Base.{
  ◌∙◌, ◌≡◌, refl, ap, subst, ◌+◌, String, Bool, true, false, List, [], ◌∷◌, ◌++◌, any, or-split,
  leb→le, none, some, arith, eq_refl,
}
use surgical_dev_ops.Json.{Value, text, get, is_object}
use surgical_dev_ops.Json.Access.{eq-text_of_is_string}
use surgical_dev_ops.Transaction.Stage.{
  Stage, prepared, locked, commit_authority_verified, permits, same_stage, same_stage_iff, ordinal,
}
use surgical_dev_ops.Transaction.Data.{
  Extra, lock_id, commit_authority_fingerprint, recovery_evidence_fingerprint, Event, Transaction,
}
use surgical_dev_ops.Json.{is_truthy}
use surgical_dev_ops.Transaction.Validate.{
  check_history, has_stage, has_fitting_keys, check_lock, require_transaction,
  require_lock_metadata, is_recovery,
}
use surgical_dev_ops.Json.{same}
use surgical_dev_ops.Transaction.Operations.{bind_mutation_lock, append}
use surgical_dev_ops.Transaction.Safety.{
  Checked, require_transaction-Checked, Checked-require_transaction, require_lock_metadata_self,
}
use surgical_dev_ops.Transaction.History.{check_history-IsPath}
use surgical_dev_ops.Transaction.Early.{history-AllBelow, below-has_stage, prepared-length}
use surgical_dev_ops.Transaction.Extend.{
  extend, new_event, fits, Agree, extend-Checked, check_identity-length, check_identity-positive,
  at_stage-some,
}
use surgical_dev_ops.Transaction.Preserve.{
  require_lock_metadata-ids, check_authority-other, check_recovery-kept,
}

pub has_stage-new :
    (stage : Stage) (events : List Event) (e : Event)
    → e.stage ≡ stage
    → has_stage stage (events ++ e ∷ []) ≡ true
has_stage-new stage [] e h = rw ((same_stage_iff e.stage stage).1 h) refl
has_stage-new stage (d ∷ events) e h = ground (arith, has_stage-new stage events e h)

pub same-text : (v : Value) (s : String) → v ≡ text s → same v v ≡ true
same-text v s h = rw (h, eq_refl) refl

pub object-is_truthy : (v : Value) → is_object v ≡ true → is_truthy v ≡ true
object-is_truthy v h = ground arith

-- The keys of an event are read against the lock at LOCKED alone, against the evidence of authority
-- at COMMIT_AUTHORITY_VERIFIED alone, and against recovery evidence at the two stages of recovery.
module _ (lock lock' authority authority' recovery recovery' : Value) (stage : Stage) where
  fitting-lock :
      (extra : Extra)
      → same_stage stage locked ≡ false
      → has_fitting_keys lock authority recovery stage extra ≡ true
      → has_fitting_keys lock' authority recovery stage extra ≡ true
  unfolding has_fitting_keys
  fitting-lock (lock_id v) h f = ground arith
  fitting-lock _ h f = f

  pub fitting-authority :
      (extra : Extra)
      → same_stage stage commit_authority_verified ≡ false
      → has_fitting_keys lock authority recovery stage extra ≡ true
      → has_fitting_keys lock authority' recovery stage extra ≡ true
  unfolding has_fitting_keys
  fitting-authority (commit_authority_fingerprint v) h f = ground arith
  fitting-authority _ h f = f

  pub fitting-recovery :
      (extra : Extra)
      → is_recovery stage ≡ false
      → has_fitting_keys lock authority recovery stage extra ≡ true
      → has_fitting_keys lock authority recovery' stage extra ≡ true
  unfolding has_fitting_keys
  fitting-recovery (recovery_evidence_fingerprint v) h f = ground arith
  fitting-recovery _ h f = f

fitting-lock_id :
    (lock authority recovery : Value)
    → is_truthy lock ≡ true
    → same (get lock "lockId") (get lock "lockId") ≡ true
    → has_fitting_keys lock authority recovery locked (lock_id (get lock "lockId")) ≡ true
unfolding has_fitting_keys same_stage
fitting-lock_id lock authority recovery h k = rw (h, k) refl

pub Agree-free :
    (t u : Transaction) (bad : Stage → Bool) (events : List Event)
    → any (λ (e : Event). bad e.stage) events ≡ false
    → ((e : Event) → bad e.stage ≡ false → fits t e ≡ true → fits u e ≡ true)
    → Agree t u events
Agree-free t u bad [] h k = tt
Agree-free t u bad (e ∷ events) h k =
    let (this, later) = or-split (bad e.stage) _ h in (k e this, Agree-free t u bad events later k)

module _ (sha256 : String → String) where
  pub at_end :
      (t : Transaction) (s : Stage) (c : Checked sha256 t)
      → t.stage ≡ s
      → check_history t none 0 t.history ≡ ok (some s)
  at_end t s c at = c.history ∙ ap ok (at_stage-some c.last t.stage c.at ∙ ap some at)

  check_lock-new :
      (t : Transaction) (lock authority recovery : Value) (extra : Extra) {lock' : Value}
      → require_lock_metadata sha256 t lock ≡ ok lock'
      → check_lock sha256 (extend t locked extra lock authority recovery) ≡ ok tt
  unfolding check_lock chains
  check_lock-new t lock authority recovery extra h =
      rw
        (
          has_stage-new locked t.history (new_event t locked extra) refl,
          require_lock_metadata-ids,
          h,
        )
        refl

  lock-tests :
      (t : Transaction) (lock : Value) {lock' : Value}
      → require_lock_metadata sha256 t lock ≡ ok lock'
      → (is_object lock ≡ true) × ((s : String) × (get lock "lockId" ≡ text s))
  unfolding require_lock_metadata
  lock-tests t lock h = require-ok _ _ _ h λ object h1. require-ok _ _ _ h1 λ _ h2.
      bind-ok _ _ h2 λ id _ h3.
        require-ok _ _ _ h3
          λ tests _. (object, (id, eq-text_of_is_string _ _ (every-AllTrue _ tests).0))

  lock-Checked :
      (t : Transaction) (lock : Value) {lock' : Value}
      → Checked sha256 t
      → t.stage ≡ prepared
      → require_lock_metadata sha256 t lock ≡ ok lock'
      → Checked sha256 (
          extend t locked (lock_id (get lock "lockId")) lock t.commit_authority t.recovery_evidence)
  unfolding permits ordinal same_stage
  lock-Checked t lock c at h =
      let (object, named) = lock-tests t lock h in
      let below = history-AllBelow t prepared (at_end t prepared c at) (omega arith) in
      extend-Checked sha256 t locked (lock_id (get lock "lockId")) lock t.commit_authority
        t.recovery_evidence c (rw at refl)
        (Agree-free t
          (extend t locked (lock_id (get lock "lockId")) lock t.commit_authority
            t.recovery_evidence)
          (λ s. same_stage s locked) t.history
          (below-has_stage 0 locked t.history (omega arith) below)
          (λ e other f.
            fitting-lock t.lock lock t.commit_authority t.commit_authority t.recovery_evidence
              t.recovery_evidence e.stage e.extra other f))
        (fitting-lock_id lock t.commit_authority t.recovery_evidence (object-is_truthy lock object)
          (same-text (get lock "lockId") named.0 named.1))
        (check_lock-new t lock t.commit_authority t.recovery_evidence (lock_id (get lock "lockId"))
          h)
        (check_authority-other sha256 t locked (lock_id (get lock "lockId")) lock
            t.recovery_evidence refl
          ∙ c.authority)
        (check_recovery-kept sha256 t locked (lock_id (get lock "lockId")) lock t.commit_authority
          c.recovery)

  -- A transaction at its first stage is at version 1, so the version 2 that the lock gets is next.
  prepared-version : (t : Transaction) → Checked sha256 t → t.stage ≡ prepared → t.version ≡ 1
  unfolding ordinal
  prepared-version t c at =
      let below = history-AllBelow t prepared (at_end t prepared c at) (omega arith) in
      let short =
        prepared-length t.history (check_history-IsPath t none 0 t.history c.history) below in
      let some_version = leb→le 1 t.version (check_identity-positive sha256 t c.identity) in
      omega (arith, check_identity-length sha256 t c.identity)

  lock-valid :
      (t current : Transaction) (lock lock' : Value) {u : Transaction}
      → (t ≡ current) × Checked sha256 t
      → same_stage current.stage prepared ≡ true
      → require_lock_metadata sha256 current lock ≡ ok lock'
      → (let next = append current locked (lock_id (get lock' "lockId")) 2 in
          record next { lock = lock' })
        ≡ u
      → require_transaction sha256 u ≡ ok u
  lock-valid t current lock lock' (same_t, checked) at held made =
      let c = subst (Checked sha256) same_t checked in
      let here = (same_stage_iff current.stage prepared).0 at in
      let kept = require_lock_metadata_self sha256 current lock held in
      let next : current.version + 1 ≡ 2 = omega (arith, prepared-version current c here) in
      let held' = subst (λ v. require_lock_metadata sha256 current v ≡ ok lock') kept held in
      let valid = Checked-require_transaction sha256 _ (lock-Checked current lock' c here held') in
      subst (λ v. require_transaction sha256 v ≡ ok v)
        (ap
            (λ n.
              let step = append current locked (lock_id (get lock' "lockId")) n in
              record step { lock = lock' })
            next
          ∙ made)
        valid

  -- Binding the lock returns a valid transaction.
  pub bind_lock-valid :
      (t : Transaction) (lock : Value) {u : Transaction}
      → bind_mutation_lock sha256 t lock ≡ ok u
      → require_transaction sha256 u ≡ ok u
  unfolding bind_mutation_lock
  bind_lock-valid t lock {u} h = bind-ok _ _ h λ current valid h1. require-ok _ _ _ h1 λ at h2.
      bind-ok _ _ h2 λ lock' held h3.
        lock-valid t current lock lock' (require_transaction-Checked sha256 t valid) at held
          (ok-injective h3)
