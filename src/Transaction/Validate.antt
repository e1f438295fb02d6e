-- ===== src/Transaction/Validate.antt =====
-- accelerator/core/mutation-transaction.js: `requireTransaction` and what it calls.
use surgical_dev_ops.Base.Text.{codes, is_lower_hex}
use surgical_dev_ops.Base.Outcome.{Outcome, ok, require, every, ◌>>=◌, ◌>>◌}
use surgical_dev_ops.Base.{
  ℕ, suc, ◌+◌, String, Bool, true, false, List, [], ◌∷◌, ◌&&◌, ◌||◌, not, any, all, length, leb,
  ◌==◌, str_eq, Option, none, some, if◌then◌else◌,
}
use surgical_dev_ops.Json.{
  same, Value, undefined, text, get, is_object, is_frozen, is_string, is_number, is_null,
  text_satisfies, has_exactly,
}
use surgical_dev_ops.Timestamp.{is_canonical}
use surgical_dev_ops.Recovery.{recovery_fingerprint}
use surgical_dev_ops.Transaction.Stage.{
  Stage, prepared, locked, commit_authority_verified, recovered, recovery_unresolved, permits,
  same_stage,
}
use surgical_dev_ops.Transaction.Data.{
  Extra, bare, lock_id, commit_authority_fingerprint, recovery_evidence_fingerprint, others, Event,
  Transaction, transaction_schema, replay_identity_for, transaction_id_for, derive_mutation_lock_id,
}
use surgical_dev_ops.Transaction.Authority.{require_commit_authority_evidence}
use surgical_dev_ops.Json.{is_truthy}

abbrev pub lock_fields : List String
lock_fields =
    "schema" ∷ "adapter" ∷ "version" ∷ "lockId" ∷ "transactionId" ∷ "operationId" ∷ "workspace"
    ∷ "target" ∷ "ownerToken" ∷ "ownerProcess" ∷ "acquiredAt" ∷ []

-- `/^[a-f0-9]{32,128}$/`
unfoldable pub is_owner_token : String → Bool
is_owner_token s =
    let cs = codes s in leb 32 (length cs) && leb (length cs) 128 && all is_lower_hex cs

abbrev pub is_recovery : Stage → Bool
is_recovery s = same_stage s recovered || same_stage s recovery_unresolved

abbrev pub malformed_lock : String
malformed_lock = "Mutation lock metadata is malformed or mismatched."

-- Whether an event's third key is the one that its stage may have, with the value that the
-- transaction carries. An event has two keys, or that one more.
unfoldable pub has_fitting_keys : Value → Value → Value → Stage → Extra → Bool
has_fitting_keys lock authority recovery stage bare = true
has_fitting_keys lock authority recovery stage (lock_id v) =
    same_stage stage locked && is_truthy lock && same v (get lock "lockId")
has_fitting_keys lock authority recovery stage (commit_authority_fingerprint v) =
    same_stage stage commit_authority_verified
    && is_truthy authority
    && same v (get authority "fingerprint")
has_fitting_keys lock authority recovery stage (recovery_evidence_fingerprint v) =
    is_recovery stage && is_truthy recovery && same v (get recovery "fingerprint")
has_fitting_keys lock authority recovery stage (others n) = false

-- The stage that may come at a place of the history: PREPARED first, then what the transition
-- table permits.
abbrev pub follows : Option Stage → Stage → Bool
follows none stage = same_stage stage prepared
follows (some previous) stage = permits previous stage

-- One round of the loop over the history, at `index`.
unfoldable pub event_ok : Transaction → Option Stage → ℕ → Event → Bool
event_ok t previous index e = every (
    (has_fitting_keys t.lock t.commit_authority t.recovery_evidence e.stage e.extra)
    ∷ (e.sequence == index + 1)
    ∷ (e.frozen)
    ∷ (follows previous e.stage)
    ∷ [])

-- The loop. It returns the stage of the last event.
unfoldable pub check_history : Transaction → Option Stage → ℕ → List Event → Outcome (Option Stage)
check_history t previous index [] = ok previous
check_history t previous index (e ∷ events) = do
  require (event_ok t previous index e) "Mutation transaction history is malformed or out of order."
  check_history t (some e.stage) (suc index) events

-- `history.some((event) => event.stage === stage)`
abbrev pub has_stage : Stage → List Event → Bool
has_stage stage events = any (λ (e : Event). same_stage e.stage stage) events

abbrev pub has_recovery : List Event → Bool
has_recovery events = any (λ (e : Event). is_recovery e.stage) events

-- The first event of a stage, and the value of its key `commitAuthorityFingerprint`.
abbrev pub authority_key : Extra → Value
authority_key (commit_authority_fingerprint v) = v
authority_key _ = undefined

unfoldable pub first_authority : List Event → Value
first_authority [] = undefined
first_authority (e ∷ events) =
    if same_stage e.stage commit_authority_verified
    then authority_key e.extra
    else first_authority events

abbrev pub at_stage : Option Stage → Stage → Bool
at_stage none stage = false
at_stage (some s) stage = same_stage s stage

module _ (sha256 : String → String) where
  unfoldable pub require_lock_metadata : Transaction → Value → Outcome Value
  require_lock_metadata t lock = do
    require (is_object lock) "Mutation lock metadata must be an unambiguous plain object."
    require
        (every (
          (has_exactly lock_fields lock)
          ∷ (is_string (get lock "schema") "sdo.mutation_lock.v1")
          ∷ (is_string (get lock "adapter") "FILESYSTEM_EXCLUSIVE_CREATE")
          ∷ (is_number (get lock "version") 1)
          ∷ (is_string (get lock "transactionId") t.transaction_id)
          ∷ (is_string (get lock "operationId") t.definition.operation_id)
          ∷ (is_string (get lock "workspace") t.definition.workspace)
          ∷ (is_string (get lock "target") t.definition.target)
          ∷ []))
        malformed_lock
    id ← derive_mutation_lock_id sha256 (text t.definition.workspace) (text t.definition.target)
    require
        (every (
          (is_string (get lock "lockId") id)
          ∷ (text_satisfies is_owner_token (get lock "ownerToken"))
          ∷ (text_satisfies (λ s. not (str_eq s "")) (get lock "ownerProcess"))
          ∷ (text_satisfies is_canonical (get lock "acquiredAt"))
          ∷ (is_frozen lock)
          ∷ []))
        malformed_lock
    ok lock

  abbrev pub identity_tests : Transaction → List Bool
  identity_tests t =
      str_eq t.schema transaction_schema
      ∷ leb 1 t.version
      ∷ str_eq t.transaction_id (transaction_id_for sha256 t.definition)
      ∷ str_eq t.replay_identity (replay_identity_for sha256 t.definition)
      ∷ (length t.history == t.version)
      ∷ t.frozen
      ∷ []

  unfoldable pub check_identity : Transaction → Outcome (Unit {0})
  check_identity t =
      require (every (identity_tests t))
        "Mutation transaction is malformed or has conflicting identity."

  unfoldable pub check_lock : Transaction → Outcome (Unit {0})
  check_lock t =
      if has_stage locked t.history
      then (require_lock_metadata t t.lock >>= λ _. ok tt)
      else require (is_null t.lock) "Pre-lock transaction cannot carry a lock."

  unfoldable pub check_authority : Transaction → Outcome (Unit {0})
  check_authority t =
      if has_stage commit_authority_verified t.history
      then (require_commit_authority_evidence sha256 t t.commit_authority >>= λ _.
          require (same (first_authority t.history) (get t.commit_authority "fingerprint"))
            "Commit-authority history binding is malformed.")
      else require (is_null t.commit_authority)
          "Pre-commit transaction cannot carry commit-authority evidence."

  -- What recovery evidence must say of its transaction.
  unfoldable pub binds_recovery : Transaction → Value → Bool
  binds_recovery t e = every (
      (is_string (get e "transactionId") t.transaction_id)
      ∷ (is_string (get e "operationId") t.definition.operation_id)
      ∷ (is_string (get e "workspace") t.definition.workspace)
      ∷ (is_string (get e "target") t.definition.target)
      ∷ (is_string (get e "fingerprint") (recovery_fingerprint sha256 e))
      ∷ (is_frozen e)
      ∷ [])

  unfoldable pub check_recovery : Transaction → Outcome (Unit {0})
  check_recovery t =
      if has_recovery t.history
      then require (is_null t.recovery_evidence || binds_recovery t t.recovery_evidence)
          "Mutation recovery evidence is malformed or mismatched."
      else require (is_null t.recovery_evidence)
          "Transaction cannot carry unjournaled recovery evidence."

  unfoldable pub require_transaction : Transaction → Outcome Transaction
  require_transaction t = do
    check_identity t
    last ← check_history t none 0 t.history
    require (at_stage last t.stage) "Mutation transaction stage conflicts with its history."
    check_lock t
    check_authority t
    check_recovery t
    ok t
