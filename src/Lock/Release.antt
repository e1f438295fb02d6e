-- ===== src/Lock/Release.antt =====
-- accelerator/adapters/mutation-lock-adapter.js: `releaseMutationLock`, what it does to the store of
-- locks.
use surgical_dev_ops.Base.Outcome.{
  require, ◌>>◌, Outcome, ok, throw, ◌>>=◌, bind-ok, require-ok, ok-injective,
}
use surgical_dev_ops.Base.{
  if◌then◌else◌, ◌≡◌, ◌≢◌, refl, String, Bool, true, false, ◌&&◌, eq_refl, eq_iff, Option, none,
  some,
}
use surgical_dev_ops.Json.{Value, get, is_frozen, is_string, same}
use surgical_dev_ops.Transaction.Data.{Transaction, derive_mutation_lock_id}
use surgical_dev_ops.Lock.{
  Content, Store, agrees, read_content, validate_expected, validate_metadata, unlink,
}
use surgical_dev_ops.Lock.Laws.{other_key}

-- What happens to the file while it is unlinked: it goes, or it had gone already.
unfoldable pub remove_file : Store → String → Bool → Bool → Store × Outcome String
remove_file store id vanished confirmed = if vanished then (unlink id store, ok "NOT_HELD") else (
  unlink id store,
  (if confirmed then ok "RELEASED" else throw "Durability receipt is missing."),
)

unfoldable pub release_current :
    Store → String → Value → Bool → Bool → Outcome Value → Store × Outcome String
release_current store id expected vanished confirmed (throw e) = (store, throw e)
release_current store id expected vanished confirmed (ok m) =
    remove_file store id vanished confirmed

module _ (sha256 : String → String) where
  unfoldable pub release_file :
      Store → String → Value → Bool → Bool → Option Content → Store × Outcome String
  release_file store id expected vanished confirmed none = (store, ok "NOT_HELD")
  release_file store id expected vanished confirmed (some c) =
      release_current store id expected vanished confirmed
        (read_content sha256 c >>= λ m. validate_expected sha256 m expected)

  -- The guards of a release: the exact lock of the transaction, and its id.
  unfoldable pub releasable : Transaction → Value → Bool → Outcome (String × Value)
  releasable t lock same_lock = do
    require (same_lock && t.frozen && is_frozen lock)
        "Release requires the exact immutable bound transaction and lock metadata."
    expected ← validate_metadata sha256 lock
    require
        (is_string (get expected "transactionId") t.transaction_id
          && is_string (get expected "operationId") t.definition.operation_id
          && is_string (get expected "workspace") t.definition.workspace
          && is_string (get expected "target") t.definition.target
          && same (get t.lock "lockId") (get expected "lockId")
          && same (get t.lock "ownerToken") (get expected "ownerToken"))
        "Mutation lock release ownership mismatch."
    id ← derive_mutation_lock_id sha256 (get expected "workspace") (get expected "target")
    ok (id, expected)

  unfoldable pub with_releasable :
      Store → Bool → Bool → Outcome (String × Value) → Store × Outcome String
  with_releasable store vanished confirmed (throw e) = (store, throw e)
  with_releasable store vanished confirmed (ok (id, expected)) =
      release_file store id expected vanished confirmed (store id)

  -- `releaseMutationLock`; the id is the one that validation derives again from the paths.
  unfoldable pub release_mutation_lock :
      Store → Transaction → Value → Bool → Bool → Bool → Store × Outcome String
  release_mutation_lock store t lock same_lock vanished confirmed =
      with_releasable store vanished confirmed (releasable t lock same_lock)

-- A file that was released: it held a well-formed record with every field of the expected one, it is
-- gone, and every other file is as before.
pub record IsReleased (sha256 : String → String) (before after : Store) (id : String)
    (expected : Value) : Type 0 where
  pub content : Content
  pub owner : Value
  pub present : before id ≡ some content
  pub read : read_content sha256 content ≡ ok owner
  pub owned : agrees expected owner ≡ true
  pub gone : after id ≡ none
  pub others : (k : String) → k ≢ id → after k ≡ before k

not_released : ◌≡◌ {A = String} "NOT_HELD" "RELEASED" → ⊥
not_released h = cc ((eq_iff "NOT_HELD" "RELEASED").1 h)

module _ (sha256 : String → String) where
  remove_file-IsReleased :
      (store : Store) (id : String) (vanished confirmed : Bool) (expected : Value) (c : Content)
      (owner : Value)
      → store id ≡ some c
      → read_content sha256 c ≡ ok owner
      → agrees expected owner ≡ true
      → (remove_file store id vanished confirmed).1 ≡ ok "RELEASED"
      → IsReleased sha256 store (remove_file store id vanished confirmed).0 id expected
  unfolding remove_file
  remove_file-IsReleased store id true confirmed expected c owner present read owned h =
      absurd (not_released (ok-injective h))
  remove_file-IsReleased store id false confirmed expected c owner present read owned h = record {
    content = c;
    owner = owner;
    present = present;
    read = read;
    owned = owned;
    gone = rw eq_refl refl;
    others = λ k ne. rw (other_key id k ne) refl;
  }

  validate_expected-agrees :
      (m expected : Value) {v : Value}
      → validate_expected sha256 m expected ≡ ok v
      → agrees expected m ≡ true
  unfolding validate_expected
  validate_expected-agrees m expected h =
      bind-ok _ _ h λ valid _ h1. require-ok _ _ _ h1 λ owned _. owned

  release_current-IsReleased :
      (store : Store) (id : String) (expected : Value) (vanished confirmed : Bool) (c : Content)
      (o : Outcome Value)
      → store id ≡ some c
      → (read_content sha256 c >>= λ m. validate_expected sha256 m expected) ≡ o
      → (release_current store id expected vanished confirmed o).1 ≡ ok "RELEASED"
      → IsReleased sha256 store
          (release_current store id expected vanished confirmed o).0
          id
          expected
  unfolding release_current
  release_current-IsReleased store id expected vanished confirmed c (throw e) present is h = cc
  release_current-IsReleased store id expected vanished confirmed c (ok v) present is h =
      bind-ok _ _ is λ owner read h1.
        remove_file-IsReleased store id vanished confirmed expected c owner present read
          (validate_expected-agrees owner expected h1) h

  release_file-IsReleased :
      (store : Store) (id : String) (expected : Value) (vanished confirmed : Bool)
      (o : Option Content)
      → store id ≡ o
      → (release_file sha256 store id expected vanished confirmed o).1 ≡ ok "RELEASED"
      → IsReleased sha256 store
          (release_file sha256 store id expected vanished confirmed o).0
          id
          expected
  unfolding release_file
  release_file-IsReleased store id expected vanished confirmed none present h =
      absurd (not_released (ok-injective h))
  release_file-IsReleased store id expected vanished confirmed (some c) present h =
      release_current-IsReleased store id expected vanished confirmed c _ present refl h

  with_releasable-IsReleased :
      (store : Store) (vanished confirmed : Bool) (o : Outcome (String × Value))
      → (with_releasable sha256 store vanished confirmed o).1 ≡ ok "RELEASED"
      → (id : String) × (expected : Value) × (o ≡ ok (id, expected))
        × IsReleased sha256 store (with_releasable sha256 store vanished confirmed o).0 id expected
  unfolding with_releasable
  with_releasable-IsReleased store vanished confirmed (throw e) h = cc
  with_releasable-IsReleased store vanished confirmed (ok (id, expected)) h = (
    id,
    expected,
    refl,
    release_file-IsReleased store id expected vanished confirmed (store id) refl h,
  )

  -- A release that reports RELEASED removed the file of the lock that the guards derived, whose
  -- record has every field of the lock that was passed, and touched no other file.
  pub release_mutation_lock-IsReleased :
      (store : Store) (t : Transaction) (lock : Value) (same_lock vanished confirmed : Bool)
      → (release_mutation_lock sha256 store t lock same_lock vanished confirmed).1 ≡ ok "RELEASED"
      → (id : String) × (expected : Value) × (releasable sha256 t lock same_lock
          ≡ ok (id, expected))
        × IsReleased sha256 store
            (release_mutation_lock sha256 store t lock same_lock vanished confirmed).0
            id
            expected
  unfolding release_mutation_lock
  release_mutation_lock-IsReleased store t lock same_lock vanished confirmed h =
      with_releasable-IsReleased store vanished confirmed (releasable sha256 t lock same_lock) h
