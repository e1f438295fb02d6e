-- ===== src/Tests/Locking.antt =====
-- A lock that is acquired, contended and released, one that is left behind, and the interaction mode.
use surgical_dev_ops.Base.Text.{trim, upper, upper_char, is_space}
use surgical_dev_ops.Base.Outcome.{ok, throw, chains}
use surgical_dev_ops.Base.{◌≡◌, ◌≢◌, refl, String, true, false, List, [], ◌∷◌, none, some}
use surgical_dev_ops.Json.{Value, get, null, undefined, text, object, field, end}
use surgical_dev_ops.Transaction.Data.{Transaction}
use surgical_dev_ops.Transaction.Operations.{create_mutation_transaction, bind_mutation_lock}
use surgical_dev_ops.Lifecycle.{find_symbol, symbol_of}
use surgical_dev_ops.Lock.{
  parsed, Store, put, acquired, Attempt, metadata_of, agrees, read_content, validate_metadata,
  validate_expected, lock_identity, acquirable, contend, create, with_existing, with_file,
  with_identity, acquire_mutation_lock,
}
use surgical_dev_ops.Lock.Release.{
  remove_file, release_current, release_file, releasable, with_releasable, release_mutation_lock,
}
use surgical_dev_ops.Lock.Laws.{IsAcquired, acquire_mutation_lock-IsAcquired}
use surgical_dev_ops.Lock.Exclusive.{acquire_all, acquire_all-exclusive}
use surgical_dev_ops.Lock.Release.{IsReleased, release_mutation_lock-IsReleased}
use surgical_dev_ops.Mode.{normalize_interaction_mode, presentation_for, create_interaction_mode}
use surgical_dev_ops.Lock.Claim.{
  terminated, claim_of, acquired_claim, contended_claim, acquire_mutation_recovery_claim,
  release_mutation_recovery_claim, acquire_mutation_recovery_claim-release,
}
use surgical_dev_ops.Tests.Scenario.{
  running, sha, hash, definition_value, or_default, no_transaction,
}

unfoldable locking : Unit {0}
unfolding running agrees read_content validate_metadata validate_expected lock_identity acquirable
    contend create with_existing with_file with_identity acquire_mutation_lock remove_file
    release_current release_file releasable with_releasable release_mutation_lock
locking = tt

abbrev created : Transaction
created = or_default no_transaction (create_mutation_transaction sha definition_value)

abbrev attempt : Attempt
attempt = record {
  workspace = "/w";
  canonical_workspace = "/w";
  canonical_target = "/w/a.js";
  owner_token = hash;
  owner_process = "7";
  acquired_at = "2024-01-01T00:00:02.000Z";
  open_error = none;
  flushed = true;
  confirmed = true;
  unlinks = true;
}

abbrev empty : Store
empty k = none

abbrev metadata : Value
metadata = metadata_of created hash "/w" "/w/a.js" hash "7" "2024-01-01T00:00:02.000Z"

abbrev held : Transaction
held = or_default no_transaction (bind_mutation_lock sha created metadata)

acquired_is : (acquire_mutation_lock sha empty created attempt).1 ≡ ok (acquired metadata held)
unfolding locking
acquired_is = refl

acquire_mutation_lock-IsAcquired_example :
    IsAcquired sha empty
      (acquire_mutation_lock sha empty created attempt).0
      created
      held
      attempt
      metadata
acquire_mutation_lock-IsAcquired_example =
    acquire_mutation_lock-IsAcquired sha empty created attempt metadata held acquired_is

abbrev taken : Store
taken = put hash (parsed metadata) empty

acquirable_is : acquirable sha created attempt ≡ ok hash
unfolding locking
acquirable_is = refl

-- Two more attempts at the lock, which find it held.
abbrev attempts : List (Transaction × Attempt)
attempts = (created, attempt) ∷ (created, attempt) ∷ []

acquire_all-exclusive_example :
    (acquire_all sha taken attempts hash ≡ some (parsed metadata))
    × ((t : Transaction) (a : Attempt) (m : Value) (u : Transaction)
        → (acquire_mutation_lock sha (acquire_all sha taken attempts) t a).1 ≡ ok (acquired m u)
        → get m "lockId" ≢ text hash)
acquire_all-exclusive_example =
    acquire_all-exclusive sha hash (parsed metadata) taken attempts (refl, (refl, tt)) refl

-- An attempt that fails to open the file for want of descriptors deletes the file of the owner.
without_descriptors :
    (acquire_mutation_lock sha taken created (record attempt { open_error = some "EMFILE" })).0 hash
    ≡ none
unfolding locking
without_descriptors = refl

released_is : (release_mutation_lock sha taken held metadata true false true).1 ≡ ok "RELEASED"
unfolding locking
released_is = refl

release_mutation_lock-IsReleased_example :
    (id : String) × (expected : Value) × (releasable sha held metadata true ≡ ok (id, expected))
    × IsReleased sha taken
        (release_mutation_lock sha taken held metadata true false true).0
        id
        expected
release_mutation_lock-IsReleased_example =
    release_mutation_lock-IsReleased sha taken held metadata true false true released_is

-- A transaction at its first stage that is not frozen passes the guards and cannot be bound.
abbrev loose : Transaction
loose = record created { frozen = false }

loose_may : acquirable sha loose attempt ≡ ok hash
unfolding locking
loose_may = refl

abbrev complaint : String
complaint = "Mutation transaction is malformed or has conflicting identity."

loose_fails : bind_mutation_lock sha loose metadata ≡ throw complaint
unfolding locking
loose_fails = refl

-- So its acquisition throws and leaves the file of the lock behind.
left_behind : (acquire_mutation_lock sha empty loose attempt).0 hash ≡ some (parsed metadata)
unfolding locking
left_behind = refl

abbrev natural : Value
natural = or_default null (create_interaction_mode (text " natural "))

abbrev expert : Value
expert = or_default null (create_interaction_mode undefined)

natural_is : create_interaction_mode (text " natural ") ≡ ok natural
unfolding create_interaction_mode normalize_interaction_mode presentation_for find_symbol symbol_of
    trim upper upper_char is_space chains
natural_is = refl

expert_is : create_interaction_mode undefined ≡ ok expert
unfolding create_interaction_mode normalize_interaction_mode presentation_for chains
expert_is = refl

abbrev ended : Value
ended = object true (field "decision" (text "TERMINATED") (field "ownerProcess" (text "7") end))

ended_is : terminated held ended ≡ true
unfolding locking terminated
ended_is = refl

acquire_mutation_recovery_claim-release_example :
    (let taken = (acquire_mutation_recovery_claim empty held ended "one" true true).0 in
      ((acquire_mutation_recovery_claim empty held ended "one" true true).1
        ≡ ok (acquired_claim (claim_of held hash "one")))
      × (acquire_mutation_recovery_claim taken held ended "two" true true
          ≡ (taken, ok contended_claim))
      × ((release_mutation_recovery_claim taken held (claim_of held hash "one") true).1
          ≡ ok "RELEASED")
      × ((release_mutation_recovery_claim taken held (claim_of held hash "one") true).0 hash
          ≡ none))
unfolding locking
acquire_mutation_recovery_claim-release_example =
    acquire_mutation_recovery_claim-release empty held ended hash "one" "two" ended_is refl refl
