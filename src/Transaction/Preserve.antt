-- ===== src/Transaction/Preserve.antt =====
-- accelerator/core/mutation-transaction.js: the creation of a transaction and the transitions that bind
-- nothing.
use surgical_dev_ops.Base.Outcome.{ok, bind-ok, require-ok, reject-ok, chains, ok-injective}
use surgical_dev_ops.Base.{
  ◌∙◌, ◌≡◌, refl, sym, ap, subst, ◌+◌, String, true, false, List, [], ◌∷◌, ◌++◌, ◌||◌, some, arith,
  eq_refl,
}
use surgical_dev_ops.Json.{Value}
use surgical_dev_ops.Transaction.Stage.{
  Stage, prepared, locked, commit_authority_verified, permits, same_stage,
}
use surgical_dev_ops.Transaction.Data.{Extra, bare, Event, Transaction, Definition}
use surgical_dev_ops.Transaction.Authority.{
  binds_transaction, permits_patch, matches_evaluation, require_commit_authority_evidence,
}
use surgical_dev_ops.Transaction.Validate.{
  has_stage, has_recovery, is_recovery, has_fitting_keys, check_lock, check_authority,
  check_recovery, check_identity, check_history, event_ok, first_authority, require_transaction,
  require_lock_metadata, binds_recovery,
}
use surgical_dev_ops.Json.{same}
use surgical_dev_ops.Transaction.Operations.{
  prepare, create_mutation_transaction, transition_mutation_transaction, append,
}
use surgical_dev_ops.Transaction.Safety.{
  Checked, require_transaction-Checked, Checked-require_transaction,
}
use surgical_dev_ops.Transaction.Extend.{extend, new_event, fits, Agree, extend-Checked}

Agree-refl :
    (t u : Transaction) (events : List Event)
    → ((e : Event) → fits t e ≡ fits u e)
    → Agree t u events
Agree-refl t u [] h = tt
Agree-refl t u (e ∷ events) h = (λ f. sym (h e) ∙ f, Agree-refl t u events h)

module _ (sha256 : String → String) where
  -- A transaction that was just created is valid.
  prepare-Checked : (d : Definition) → Checked sha256 (prepare sha256 d)
  unfolding check_identity check_history event_ok check_lock check_authority check_recovery
      has_fitting_keys chains same_stage
  prepare-Checked d = record {
    identity = rw (eq_refl, eq_refl) refl;
    last = some prepared;
    history = refl;
    at = refl;
    lock = refl;
    authority = refl;
    recovery = refl;
  }

  -- Every transaction that is created is one that `requireTransaction` accepts.
  pub create-valid :
      (input : Value) {t : Transaction}
      → create_mutation_transaction sha256 input ≡ ok t
      → require_transaction sha256 t ≡ ok t
  unfolding create_mutation_transaction
  create-valid input {t} h = bind-ok _ _ h λ d _ made.
      let is : prepare sha256 d ≡ t = ok-injective made in
      rw (← is) (Checked-require_transaction sha256 (prepare sha256 d) (prepare-Checked d))

has_stage-other :
    (stage : Stage) (events : List Event) (e : Event)
    → same_stage e.stage stage ≡ false
    → has_stage stage (events ++ e ∷ []) ≡ has_stage stage events
has_stage-other stage [] e h = rw h
has_stage-other stage (d ∷ events) e h =
    ap (λ b. same_stage d.stage stage || b) (has_stage-other stage events e h)

first_authority-other :
    (events : List Event) (e : Event)
    → same_stage e.stage commit_authority_verified ≡ false
    → first_authority (events ++ e ∷ []) ≡ first_authority events
unfolding first_authority
first_authority-other [] e h = rw h
first_authority-other (d ∷ events) e h = rw (first_authority-other events e h)

pub has_recovery-append :
    (events : List Event) (e : Event)
    → has_recovery (events ++ e ∷ []) ≡ (has_recovery events || is_recovery e.stage)
has_recovery-append [] e = ground arith
has_recovery-append (d ∷ events) e = ground (arith, has_recovery-append events e)

module _ (sha256 : String → String) (t : Transaction) (stage : Stage) (extra : Extra) where
  -- The lock's metadata and the evidence are read against what no operation changes.
  pub require_lock_metadata-ids :
      (lock authority recovery v : Value)
      → require_lock_metadata sha256 (extend t stage extra lock authority recovery) v
        ≡ require_lock_metadata sha256 t v
  unfolding require_lock_metadata
  require_lock_metadata-ids lock authority recovery v = refl

  pub require_commit_authority_evidence-ids :
      (lock authority recovery v : Value)
      → require_commit_authority_evidence sha256 (extend t stage extra lock authority recovery) v
        ≡ require_commit_authority_evidence sha256 t v
  unfolding require_commit_authority_evidence binds_transaction permits_patch matches_evaluation
  require_commit_authority_evidence-ids lock authority recovery v = refl

  pub check_lock-other :
      (authority recovery : Value)
      → same_stage stage locked ≡ false
      → check_lock sha256 (extend t stage extra t.lock authority recovery) ≡ check_lock sha256 t
  unfolding check_lock
  check_lock-other authority recovery h =
      rw (has_stage-other locked t.history (new_event t stage extra) h, require_lock_metadata-ids)
        refl

  pub check_authority-other :
      (lock recovery : Value)
      → same_stage stage commit_authority_verified ≡ false
      → check_authority sha256 (extend t stage extra lock t.commit_authority recovery)
        ≡ check_authority sha256 t
  unfolding check_authority
  check_authority-other lock recovery h =
      rw
        (
          has_stage-other commit_authority_verified t.history (new_event t stage extra) h,
          first_authority-other t.history (new_event t stage extra) h,
          require_commit_authority_evidence-ids,
        )
        refl

  pub binds_recovery-ids :
      (lock authority recovery v : Value)
      → binds_recovery sha256 (extend t stage extra lock authority recovery) v
        ≡ binds_recovery sha256 t v
  unfolding binds_recovery
  binds_recovery-ids lock authority recovery v = refl

  pub check_recovery-kept :
      (lock authority : Value)
      → check_recovery sha256 t ≡ ok tt
      → check_recovery sha256 (extend t stage extra lock authority t.recovery_evidence) ≡ ok tt
  unfolding check_recovery chains
  check_recovery-kept lock authority h =
      rw (has_recovery-append t.history (new_event t stage extra), binds_recovery-ids)
        (ground arith)

module _ (sha256 : String → String) where
  transition-Checked :
      (t : Transaction) (next : Stage)
      → Checked sha256 t
      → same_stage next locked ≡ false
      → same_stage next commit_authority_verified ≡ false
      → permits t.stage next ≡ true
      → Checked sha256 (append t next bare (t.version + 1))
  unfolding has_fitting_keys
  transition-Checked t next c not_lock not_authority permitted =
      extend-Checked sha256 t next bare t.lock t.commit_authority t.recovery_evidence c permitted
        (Agree-refl t (append t next bare (t.version + 1)) t.history (λ e. refl)) refl
        (check_lock-other sha256 t next bare t.commit_authority t.recovery_evidence not_lock
          ∙ c.lock)
        (check_authority-other sha256 t next bare t.lock t.recovery_evidence not_authority
          ∙ c.authority)
        (check_recovery-kept sha256 t next bare t.lock t.commit_authority c.recovery)

  -- Every transition that returns gives a transaction that `requireTransaction` accepts.
  pub transition-valid :
      (t : Transaction) (name : String) {u : Transaction}
      → transition_mutation_transaction sha256 t name ≡ ok u
      → require_transaction sha256 u ≡ ok u
  unfolding transition_mutation_transaction
  transition-valid t name {u} h = bind-ok _ _ h λ current valid h1. bind-ok _ _ h1 λ next _ h2.
      reject-ok _ _ _ h2 λ _ h3. reject-ok _ _ _ h3 λ _ h4. reject-ok _ _ _ h4 λ not_lock h5.
        reject-ok _ _ _ h5 λ not_authority h6. require-ok _ _ _ h6 λ permitted h7.
          let (same, checked) = require_transaction-Checked sha256 t valid in
          let made : append current next bare (current.version + 1) ≡ u = ok-injective h7 in
          subst (λ v. require_transaction sha256 v ≡ ok v) made
            (Checked-require_transaction sha256 (append current next bare (current.version + 1)) (
              transition-Checked current next (subst (Checked sha256) same checked) not_lock
                not_authority permitted))
