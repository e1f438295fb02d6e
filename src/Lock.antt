-- ===== src/Lock.antt =====
-- accelerator/adapters/mutation-lock-adapter.js: the lock of a target, a file that is created
-- exclusively. The directory of locks is a map from lock ids to what their files hold; the random
-- token, the process and the time are arguments, and so is what the durability adapter confirms and
-- how the workspace boundary resolves the paths.
pub mod Laws
pub mod Release
pub mod Claim
pub mod Exclusive
use surgical_dev_ops.Base.Text.{is_hash}
use surgical_dev_ops.Base.Outcome.{Outcome, ok, throw, require, reject, ◌>>=◌, ◌>>◌, every}
use surgical_dev_ops.Base.{
  String, Bool, true, false, List, [], ◌∷◌, ◌&&◌, ◌||◌, not, str_eq, Option, none, some,
  if◌then◌else◌, all,
}
use surgical_dev_ops.Json.{
  Value, Fields, null, text, number, object, end, field, get, keys, is_object, is_frozen, is_null,
  is_string, is_number, text_satisfies, has_exactly, deep_freeze, is_truthy, same,
}
use surgical_dev_ops.Timestamp.{is_canonical}
use surgical_dev_ops.Transaction.Stage.{prepared, same_stage}
use surgical_dev_ops.Transaction.Data.{Transaction, derive_mutation_lock_id}
use surgical_dev_ops.Transaction.Validate.{lock_fields, is_owner_token}
use surgical_dev_ops.Transaction.Operations.{bind_mutation_lock}

-- A file holds a value that parses, or something that does not.
pub data Content : Type 0 where
  parsed : Value → Content
  garbled : Content

abbrev pub Store : Type 0
Store = String → Option Content

abbrev pub put : String → Content → Store → Store
put id c store = λ k. if str_eq id k then some c else store k

abbrev pub unlink : String → Store → Store
unlink id store = λ k. if str_eq id k then none else store k

abbrev pub corrupt : String
corrupt = "Mutation lock record is malformed or corrupt."

abbrev pub is_filled : Value → Bool
is_filled v = text_satisfies (λ s. not (str_eq s "")) v

abbrev pub is_text_value : Value → Bool
is_text_value v = text_satisfies (λ s. true) v

-- `Object.keys(expected).some((key) => metadata[key] !== expected[key])`, negated.
unfoldable pub agrees : Value → Value → Bool
agrees expected metadata = all (λ k. same (get metadata k) (get expected k)) (keys expected)

-- The result of an acquisition: the owner's transaction, or the lock and the bound transaction.
pub data Acquisition : Type 0 where
  contended : Value → Acquisition
  acquired : Value → Transaction → Acquisition

-- What the environment contributes to an acquisition: the resolved paths, the owner, the error of
-- opening the file if it is another than that the file exists, whether the file's data and the directory
-- were made durable, and whether a file that is given up can be unlinked.
pub record Attempt : Type 0 where
  pub workspace : String
  pub canonical_workspace : String
  pub canonical_target : String
  pub owner_token : String
  pub owner_process : String
  pub acquired_at : String
  pub open_error : Option String
  pub flushed : Bool
  pub confirmed : Bool
  pub unlinks : Bool

-- `try { fs.unlinkSync(file); } catch {}`
abbrev pub given_up : String → Attempt → Store → Store
given_up id a store = if a.unlinks then unlink id store else store

-- The metadata that an acquisition writes.
abbrev pub metadata_of : Transaction → String → String → String → String → String → String → Value
metadata_of t id workspace target token process time = object true (
    field "schema" (text "sdo.mutation_lock.v1") (
      field "adapter" (text "FILESYSTEM_EXCLUSIVE_CREATE") (
        field "version" (number 1) (
          field "lockId" (text id) (
            field "transactionId" (text t.transaction_id) (
              field "operationId" (text t.definition.operation_id) (
                field "workspace" (text workspace) (
                  field "target" (text target) (
                    field "ownerToken" (text token) (
                      field "ownerProcess" (text process)
                        (field "acquiredAt" (text time) end)))))))))))

module _ (sha256 : String → String) where
  -- `validateMetadata` without an expected record.
  unfoldable pub validate_metadata : Value → Outcome Value
  validate_metadata m = do
    require (is_object m) corrupt
    require
        (every (
          (has_exactly lock_fields m)
          ∷ (is_string (get m "schema") "sdo.mutation_lock.v1")
          ∷ (is_string (get m "adapter") "FILESYSTEM_EXCLUSIVE_CREATE")
          ∷ (is_number (get m "version") 1)
          ∷ (text_satisfies is_hash (get m "lockId"))
          ∷ (text_satisfies is_hash (get m "transactionId"))
          ∷ (is_filled (get m "operationId"))
          ∷ (is_text_value (get m "workspace"))
          ∷ (is_text_value (get m "target"))
          ∷ []))
        corrupt
    id ← derive_mutation_lock_id sha256 (get m "workspace") (get m "target")
    require
        (every (
          (is_string (get m "lockId") id)
          ∷ (text_satisfies is_owner_token (get m "ownerToken"))
          ∷ (is_filled (get m "ownerProcess"))
          ∷ (text_satisfies is_canonical (get m "acquiredAt"))
          ∷ []))
        corrupt
    ok (deep_freeze m)

  unfoldable pub validate_expected : Value → Value → Outcome Value
  validate_expected m expected = do
    valid ← validate_metadata m
    require (agrees expected m) "Mutation lock ownership or transaction binding mismatch."
    ok valid

  unfoldable pub read_content : Content → Outcome Value
  read_content (parsed v) = validate_metadata v
  read_content garbled = throw corrupt

  -- `resolveMutationLockIdentity`
  unfoldable pub lock_identity : Attempt → Outcome String
  lock_identity a = do
    require (str_eq a.canonical_workspace a.workspace)
        "Mutation lock workspace must already be canonical."
    derive_mutation_lock_id sha256 (text a.canonical_workspace) (text a.canonical_target)

  -- The guards before the file is created.
  unfoldable pub acquirable : Transaction → Attempt → Outcome String
  acquirable t a = do
    require (same_stage t.stage prepared) "A PREPARED immutable mutation transaction is required."
    id ← lock_identity a
    require
        (str_eq t.definition.workspace a.canonical_workspace
          && str_eq t.definition.target a.canonical_target)
        "Mutation transaction target identity mismatch."
    ok id

  -- The file exists already.
  unfoldable pub contend : String → Attempt → Content → Outcome Acquisition
  contend id a c = do
    owner ← read_content c
    require
        (is_string (get owner "lockId") id
          && is_string (get owner "workspace") a.canonical_workspace
          && is_string (get owner "target") a.canonical_target)
        "Mutation lock contention record is mismatched or corrupt."
    ok (contended (get owner "transactionId"))

  -- The file is new: it is written and made durable, or removed again; then the lock is bound.
  unfoldable pub create : Store → Transaction → String → Attempt → Store × Outcome Acquisition
  create store t id a =
      let m =
        metadata_of t id a.canonical_workspace a.canonical_target a.owner_token a.owner_process
          a.acquired_at in
      let written = put id (parsed m) store in
      if a.flushed && a.confirmed
      then (written, (bind_mutation_lock sha256 t m >>= λ u. ok (acquired m u)))
      else (given_up id a written, throw "Durability receipt is missing.")

  unfoldable pub with_existing :
      Store → Transaction → String → Attempt → Option Content → Store × Outcome Acquisition
  with_existing store t id a (some c) = (store, contend id a c)
  with_existing store t id a none = create store t id a

  -- An error of opening the file, other than that it exists, unlinks whatever file is there.
  unfoldable pub with_file :
      Store → Transaction → String → Attempt → Option Content → Store × Outcome Acquisition
  with_file store t id a o = elim a.open_error [
    | some e ↦ (given_up id a store, throw e)
    | none ↦ with_existing store t id a o
  ]

  unfoldable pub with_identity :
      Store → Transaction → Attempt → Outcome String → Store × Outcome Acquisition
  with_identity store t a (throw e) = (store, throw e)
  with_identity store t a (ok id) = with_file store t id a (store id)

  -- `acquireMutationLock`
  unfoldable pub acquire_mutation_lock : Store → Transaction → Attempt → Store × Outcome Acquisition
  acquire_mutation_lock store t a = with_identity store t a (acquirable t a)

  -- `inspectMutationLock`: the classification, and the lock where it is matched.
  unfoldable pub classify_lock : Option Content → Value → String × Value
  classify_lock none lock = ("MISSING", null)
  classify_lock (some c) lock = elim (read_content c >>= λ m. validate_expected m lock) [
    | ok m ↦ ("MATCHED", m)
    | throw e ↦ ("CORRUPT", null)
  ]

  -- A malformed id names no file; the exception is caught, and counts as corrupt.
  unfoldable pub inspect_file : Value → Store → Value → String × Value
  inspect_file (text id) store lock =
      if is_hash id then classify_lock (store id) lock else ("CORRUPT", null)
  inspect_file _ store lock = ("CORRUPT", null)

  unfoldable pub inspect_mutation_lock : Store → Transaction → String × Value
  inspect_mutation_lock store t =
      if not t.frozen || not (is_truthy t.lock)
      then ("MISSING", null)
      else inspect_file (get t.lock "lockId") store t.lock
