-- ===== src/Transaction/Safety.antt =====
-- What a transaction that passes `requireTransaction` proves of the mutation.
use surgical_dev_ops.Base.Outcome.{
  ok, bind-ok, require-ok, then-ok, every-AllTrue, AllTrue, chains, ok-injective,
}
use surgical_dev_ops.Base.{◌∙◌, ◌≡◌, refl, sym, ap, String, true, List, ◌∷◌, Option, none}
use surgical_dev_ops.Json.{Value, text, get}
use surgical_dev_ops.Json.Access.{eq-text_of_is_string}
use surgical_dev_ops.Transaction.Stage.{
  Stage, prepared, locked, commit_authority_verified, physical_applied, mutation_started,
  before_verified,
}
use surgical_dev_ops.Transaction.Data.{Event, Transaction}
use surgical_dev_ops.Transaction.Authority.{
  require_commit_authority_evidence, binds_transaction, permits_patch, binding_tests, patch_tests,
  evaluation_tests, matches_evaluation, is_sealed, authoritative_fingerprint_valid,
}
use surgical_dev_ops.Transaction.Validate.{
  require_transaction, check_history, has_stage, at_stage, check_authority, check_lock,
  check_identity, check_recovery, require_lock_metadata,
}
use surgical_dev_ops.Transaction.History.{
  check_history-IsPath, stages, written-stages, has-locked, has-authority,
}

binds_transaction-tests :
    (t : Transaction) (e : Value) → binds_transaction t e ≡ true → AllTrue (binding_tests t e)
unfolding binds_transaction
binds_transaction-tests t e h = every-AllTrue _ h

permits_patch-tests :
    (t : Transaction) (e : Value) → permits_patch t e ≡ true → AllTrue (patch_tests t e)
unfolding permits_patch
permits_patch-tests t e h = every-AllTrue _ h

module _ (sha256 : String → String) where
  -- The parts of a validation that returned.
  pub record Checked (t : Transaction) : Type 0 where
    pub identity : check_identity sha256 t ≡ ok tt
    pub last : Option Stage
    pub history : check_history t none 0 t.history ≡ ok last
    pub at : at_stage last t.stage ≡ true
    pub lock : check_lock sha256 t ≡ ok tt
    pub authority : check_authority sha256 t ≡ ok tt
    pub recovery : check_recovery sha256 t ≡ ok tt

  pub require_transaction-Checked :
      (t : Transaction) {u : Transaction}
      → require_transaction sha256 t ≡ ok u
      → (t ≡ u) × Checked t
  unfolding require_transaction
  require_transaction-Checked t {u} h = then-ok _ _ h λ identity h1.
      bind-ok _ _ h1 λ last history h2. require-ok _ _ _ h2 λ at h3. then-ok _ _ h3 λ lock h4.
        then-ok _ _ h4 λ authority h5. then-ok _ _ h5 λ recovery h6. (
          ok-injective h6,
          record {
            identity = identity;
            last = last;
            history = history;
            at = at;
            lock = lock;
            authority = authority;
            recovery = recovery;
          },
        )

  pub Checked-require_transaction :
      (t : Transaction) → Checked t → require_transaction sha256 t ≡ ok t
  unfolding require_transaction chains
  Checked-require_transaction t c =
      rw (c.identity, c.history, c.at, c.lock, c.authority, c.recovery) refl

  -- What accepted evidence of commit authority says: it binds each field of its transaction, it
  -- allows the patch of this target with these contents at risk R3, the clock's classification of its
  -- own reading, bounds and progression has the fingerprint of the evaluation that it carries, whose
  -- bounds are those of the transaction's three authorities, and its own fingerprint covers the rest.
  pub record IsAuthorized (t : Transaction) (e : Value) : Type 0 where
    pub transaction_id : get e "transactionId" ≡ text t.transaction_id
    pub operation : get e "operationId" ≡ text t.definition.operation_id
    pub workspace : get e "workspace" ≡ text t.definition.workspace
    pub target : get e "target" ≡ text t.definition.target
    pub before : get e "beforeSha256" ≡ text t.definition.before_sha256
    pub replacement : get e "replacementSha256" ≡ text t.definition.replacement_sha256
    pub grant : get e "grantFingerprint" ≡ text t.definition.grant_fingerprint
    pub approval :
        get e "approvalAuthorityFingerprint" ≡ text t.definition.approval_authority_fingerprint
    pub human :
        get e "verifiedIdentityAssertionFingerprint"
        ≡ text t.definition.verified_identity_assertion_fingerprint
    pub allowed : get e "policyDecision" ≡ text "ALLOWED"
    pub risk : get e "riskLevel" ≡ text "R3"
    pub action : get e "action" ≡ text "PATCH_FILE"
    pub capability : get e "capabilityType" ≡ text "FILESYSTEM_PATCH"
    pub scope_path : get (get (get e "scope") "target") "canonicalPath" ≡ text t.definition.target
    pub scope_before :
        get (get (get e "scope") "target") "beforeSha256" ≡ text t.definition.before_sha256
    pub scope_replacement :
        get (get (get e "scope") "target") "replacementSha256"
        ≡ text t.definition.replacement_sha256
    pub evaluated : get (get e "authoritativeEvaluation") "decision" ≡ text "ALLOWED"
    pub reclassified :
        authoritative_fingerprint_valid sha256 (get e "authoritativeEvaluation") ≡ true
    pub identity_bound :
        get (get (get (get e "authoritativeEvaluation") "bounds") "identity") "fingerprint"
        ≡ text t.definition.verified_identity_assertion_fingerprint
    pub approval_bound :
        get (get (get (get e "authoritativeEvaluation") "bounds") "approval") "fingerprint"
        ≡ text t.definition.approval_authority_fingerprint
    pub grant_bound :
        get (get (get (get e "authoritativeEvaluation") "bounds") "grant") "fingerprint"
        ≡ text t.definition.grant_fingerprint
    pub sealed : is_sealed sha256 e ≡ true

  matches_evaluation-tests :
      (t : Transaction) (e : Value)
      → matches_evaluation sha256 t e ≡ true
      → AllTrue (evaluation_tests sha256 t e)
  unfolding matches_evaluation
  matches_evaluation-tests t e h = every-AllTrue _ h

  pub accepted-IsAuthorized :
      (t : Transaction) (e : Value) {e' : Value}
      → require_commit_authority_evidence sha256 t e ≡ ok e'
      → IsAuthorized t e
  unfolding require_commit_authority_evidence
  accepted-IsAuthorized t e h = require-ok _ _ _ h λ object h1. require-ok _ _ _ h1 λ tests h2.
      let parts = every-AllTrue _ tests in
      let b = binds_transaction-tests t e parts.1.1.1.0 in
      let p = permits_patch-tests t e parts.1.1.1.1.0 in
      let m = matches_evaluation-tests t e parts.1.1.1.1.1.0 in
      record {
        transaction_id = eq-text_of_is_string _ _ b.0;
        operation = eq-text_of_is_string _ _ b.1.0;
        workspace = eq-text_of_is_string _ _ b.1.1.0;
        target = eq-text_of_is_string _ _ b.1.1.1.0;
        before = eq-text_of_is_string _ _ b.1.1.1.1.0;
        replacement = eq-text_of_is_string _ _ b.1.1.1.1.1.0;
        grant = eq-text_of_is_string _ _ b.1.1.1.1.1.1.0;
        approval = eq-text_of_is_string _ _ b.1.1.1.1.1.1.1.0;
        human = eq-text_of_is_string _ _ b.1.1.1.1.1.1.1.1.0;
        allowed = eq-text_of_is_string _ _ p.0;
        risk = eq-text_of_is_string _ _ p.1.0;
        action = eq-text_of_is_string _ _ p.1.1.1.0;
        capability = eq-text_of_is_string _ _ p.1.1.0;
        scope_path = eq-text_of_is_string _ _ p.1.1.1.1.1.0;
        scope_before = eq-text_of_is_string _ _ p.1.1.1.1.1.1.0;
        scope_replacement = eq-text_of_is_string _ _ p.1.1.1.1.1.1.1.0;
        evaluated = eq-text_of_is_string _ _ m.1.1.0;
        reclassified = m.1.1.1.0;
        identity_bound = eq-text_of_is_string _ _ m.1.1.1.1.1.0;
        approval_bound = eq-text_of_is_string _ _ m.1.1.1.1.1.1.0;
        grant_bound = eq-text_of_is_string _ _ m.1.1.1.1.1.1.1.0;
        sealed = parts.1.1.1.1.1.1.0;
      }

  pub require_lock_metadata_self :
      (t : Transaction) (lock : Value) {lock' : Value}
      → require_lock_metadata sha256 t lock ≡ ok lock'
      → lock ≡ lock'
  unfolding require_lock_metadata
  require_lock_metadata_self t lock h = require-ok _ _ _ h λ _ h1.
      require-ok _ _ _ h1
        λ _ h2. bind-ok _ _ h2 λ _ _ h3. require-ok _ _ _ h3 λ _ h4. ok-injective h4

  pub require_commit_authority_evidence_self :
      (t : Transaction) (e : Value) {e' : Value}
      → require_commit_authority_evidence sha256 t e ≡ ok e'
      → e ≡ e'
  unfolding require_commit_authority_evidence
  require_commit_authority_evidence_self t e h =
      require-ok _ _ _ h λ _ h1. require-ok _ _ _ h1 λ _ h2. ok-injective h2

  pub check_lock-found :
      (t : Transaction)
      → has_stage locked t.history ≡ true
      → check_lock sha256 t ≡ ok tt
      → require_lock_metadata sha256 t t.lock ≡ ok t.lock
  unfolding check_lock
  check_lock-found t found h =
      bind-ok (require_lock_metadata sha256 t t.lock) (λ _. ok tt) (rw (found, check_lock) at h)
        λ lock is _. is ∙ ap ok (sym (require_lock_metadata_self t t.lock is))

  pub check_authority-found :
      (t : Transaction)
      → has_stage commit_authority_verified t.history ≡ true
      → check_authority sha256 t ≡ ok tt
      → require_commit_authority_evidence sha256 t t.commit_authority ≡ ok t.commit_authority
  unfolding check_authority
  check_authority-found t found h =
      bind-ok (require_commit_authority_evidence sha256 t t.commit_authority) _
        (rw (found, check_authority) at h)
        λ e is _. is ∙ ap ok (sym (require_commit_authority_evidence_self t t.commit_authority is))

  -- A valid transaction whose history records the write of the target has a history whose first
  -- stages are, in this order: PREPARED, LOCKED, BEFORE_VERIFIED, MUTATION_STARTED,
  -- COMMIT_AUTHORITY_VERIFIED, PHYSICAL_APPLIED. It carries well-formed lock metadata and evidence
  -- that authorises this very mutation.
  pub physical-IsAuthorized :
      (t : Transaction)
      → require_transaction sha256 t ≡ ok t
      → has_stage physical_applied t.history ≡ true
      → ((rest : List Event) × (stages t.history
            ≡ prepared
              ∷ locked
              ∷ before_verified
              ∷ mutation_started
              ∷ commit_authority_verified
              ∷ physical_applied
              ∷ stages rest))
        × (require_lock_metadata sha256 t t.lock ≡ ok t.lock)
        × IsAuthorized t t.commit_authority
  physical-IsAuthorized t valid written =
      let c = (require_transaction-Checked t valid).1 in
      let (rest, order) =
        written-stages t.history (check_history-IsPath t none 0 t.history c.history) written in
      (
        (rest, order),
        check_lock-found t (has-locked t.history rest order) c.lock,
        accepted-IsAuthorized t t.commit_authority
            (check_authority-found t (has-authority t.history rest order) c.authority),
      )
