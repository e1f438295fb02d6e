-- ===== src/Transaction/Operations.antt =====
-- accelerator/core/mutation-transaction.js: the operations. Each validates the transaction that it is
-- given and returns a new one; an error leaves the caller with the transaction that it had.
use surgical_dev_ops.Base.Outcome.{Outcome, ok, throw, require, reject, ◌>>=◌, ◌>>◌}
use surgical_dev_ops.Base.{
  ℕ, ◌+◌, String, Bool, true, false, [], ◌∷◌, ◌++◌, ◌&&◌, none, some, str_eq, if◌then◌else◌,
}
use surgical_dev_ops.Json.{
  Value, null, text, object, field, get, is_object, is_string, is_null, deep_freeze,
}
use surgical_dev_ops.Transaction.Stage.{
  Stage, prepared, locked, mutation_started, commit_authority_verified, recovery_required,
  recovered, recovery_unresolved, stage_of, is_terminal, permits, same_stage,
}
use surgical_dev_ops.Transaction.Data.{
  Extra, bare, lock_id, commit_authority_fingerprint, recovery_evidence_fingerprint, Transaction,
  Definition, transaction_schema, normalize_definition, replay_identity_for, transaction_id_for,
}
use surgical_dev_ops.Transaction.Authority.{
  evidence_fields, commit_authority_digest, require_commit_authority_evidence,
}
use surgical_dev_ops.Json.{is_truthy}
use surgical_dev_ops.Transaction.Validate.{
  require_lock_metadata, require_transaction, binds_recovery,
}

-- The new transaction after one more event.
abbrev pub append : Transaction → Stage → Extra → ℕ → Transaction
append t stage extra version = record t {
  version = version;
  stage = stage;
  history =
      t.history ++ record { sequence = version; stage = stage; extra = extra; frozen = true } ∷ [];
  frozen = true;
}

module _ (sha256 : String → String) where
  -- The transaction of a definition, at its first stage.
  abbrev pub prepare : Definition → Transaction
  prepare d = record {
    schema = transaction_schema;
    version = 1;
    transaction_id = transaction_id_for sha256 d;
    replay_identity = replay_identity_for sha256 d;
    definition = d;
    stage = prepared;
    lock = null;
    commit_authority = null;
    recovery_evidence = null;
    history = record { sequence = 1; stage = prepared; extra = bare; frozen = true } ∷ [];
    frozen = true;
  }

  unfoldable pub create_mutation_transaction : Value → Outcome Transaction
  create_mutation_transaction input = do
    definition ← normalize_definition input
    ok (prepare definition)

  unfoldable pub create_commit_authority_evidence : Transaction → Value → Outcome Value
  create_commit_authority_evidence t input = do
    current ← require_transaction sha256 t
    require (same_stage current.stage mutation_started && is_null current.commit_authority)
        "Commit authority may bind only at MUTATION_STARTED."
    require (is_object input) "Commit-authority evidence input must be an unambiguous plain object."
    let fields = evidence_fields current input
    let evidence =
        deep_freeze
          (object false (field "fingerprint" (text (commit_authority_digest sha256 fields)) fields))
    require_commit_authority_evidence sha256 current evidence

  unfoldable pub bind_commit_authority_evidence : Transaction → Value → Outcome Transaction
  bind_commit_authority_evidence t evidence = do
    current ← require_transaction sha256 t
    require (same_stage current.stage mutation_started)
        "Commit-authority evidence must immediately precede physical commit."
    authority ← require_commit_authority_evidence sha256 current evidence
    let version = current.version + 1
    let next =
        append current commit_authority_verified
          (commit_authority_fingerprint (get authority "fingerprint")) version
    ok (record next { commit_authority = authority })

  unfoldable pub bind_mutation_recovery_evidence : Transaction → Value → Outcome Transaction
  bind_mutation_recovery_evidence t evidence = do
    current ← require_transaction sha256 t
    require
        (same_stage current.stage recovery_required
          && is_truthy evidence
          && binds_recovery sha256 current evidence)
        "Recovery evidence may bind only to its exact RECOVERY_REQUIRED transaction."
    let stage =
        if is_string (get evidence "recoveryClassification") "RECOVERY_UNRESOLVED"
        then recovery_unresolved
        else recovered
    let version = current.version + 1
    let next =
        append current stage (recovery_evidence_fingerprint (get evidence "fingerprint")) version
    ok (record next { recovery_evidence = evidence })

  unfoldable pub bind_mutation_lock : Transaction → Value → Outcome Transaction
  bind_mutation_lock t lock_metadata = do
    current ← require_transaction sha256 t
    require (same_stage current.stage prepared)
        "Mutation lock may bind only to a PREPARED transaction."
    lock ← require_lock_metadata sha256 current lock_metadata
    let next = append current locked (lock_id (get lock "lockId")) 2
    ok (record next { lock = lock })

  unfoldable pub known_stage : String → Outcome Stage
  known_stage name = elim (stage_of name) [
    | some s ↦ ok s
    | none ↦ throw "Unknown mutation transaction stage."
  ]

  unfoldable pub transition_mutation_transaction : Transaction → String → Outcome Transaction
  transition_mutation_transaction t next_stage = do
    current ← require_transaction sha256 t
    next ← known_stage next_stage
    reject (is_terminal current.stage) "Terminal mutation transaction cannot transition."
    reject (same_stage next current.stage) "Repeated mutation transaction stage is forbidden."
    reject (same_stage next locked) "LOCKED transition requires immutable lock binding."
    reject (same_stage next commit_authority_verified)
        "COMMIT_AUTHORITY_VERIFIED requires immutable authority evidence binding."
    require (permits current.stage next) "Invalid or skipped mutation transaction stage."
    ok (append current next bare (current.version + 1))

  unfoldable pub assert_same_mutation_transaction : Transaction → Transaction → Outcome Bool
  assert_same_mutation_transaction left right = do
    first ← require_transaction sha256 left
    second ← require_transaction sha256 right
    require
        (str_eq first.transaction_id second.transaction_id
          && str_eq first.replay_identity second.replay_identity)
        "Conflicting mutation transaction replay."
    ok true
