-- ===== src/Lock/Claim.antt =====
-- accelerator/adapters/mutation-lock-adapter.js: the claim of a recovery, a second file that is created
-- exclusively once the owner of the lock has been seen to end. The store is that of the claims. A claim's
-- file opens or exists already: another error of opening it throws and changes nothing, and is left out.
use Prim.Native.String.{◌++◌}
use surgical_dev_ops.Base.Outcome.{Outcome, ok, throw, every}
use surgical_dev_ops.Base.{
  ◌≡◌, refl, String, Bool, true, [], ◌∷◌, ◌&&◌, str_eq, eq_refl, Option, none, some, if◌then◌else◌,
}
use surgical_dev_ops.Json.{
  Value, Items, Fields, undefined, text, array, object, nil, cons, end, field, get, is_truthy,
  is_frozen, is_string, same,
}
use surgical_dev_ops.Json.Canonical.{quote, canonical_json}
use surgical_dev_ops.Transaction.Data.{Transaction}
use surgical_dev_ops.Lock.{Content, parsed, garbled, Store, put, unlink}

abbrev separated : String → String → String
separated s t = if str_eq t "" then s else s ++ "," ++ t

mutual
  stringify_value : Value → String
  stringify_value (array _ vs) = "[" ++ stringify_items vs ++ "]"
  stringify_value (object _ fs) = "{" ++ stringify_fields fs ++ "}"
  stringify_value v = canonical_json v

  stringify_items : Items → String
  stringify_items nil = ""
  stringify_items (cons undefined vs) = separated "null" (stringify_items vs)
  stringify_items (cons v vs) = separated (stringify_value v) (stringify_items vs)

  stringify_fields : Fields → String
  stringify_fields end = ""
  stringify_fields (field k undefined fs) = stringify_fields fs
  stringify_fields (field k v fs) =
      separated (quote k ++ ":" ++ stringify_value v) (stringify_fields fs)

-- `JSON.stringify`, with the keys in the order of the object.
unfoldable pub stringify : Value → String
unfolding stringify_value stringify_items stringify_fields
stringify v = stringify_value v

-- The evidence that the owner of the lock has ended.
unfoldable pub terminated : Transaction → Value → Bool
terminated t evidence = every (
    (is_truthy t.lock)
    ∷ (t.frozen)
    ∷ (is_truthy evidence)
    ∷ (is_string (get evidence "decision") "TERMINATED")
    ∷ (same (get evidence "ownerProcess") (get t.lock "ownerProcess"))
    ∷ (is_frozen evidence)
    ∷ [])

abbrev pub claim_of : Transaction → String → String → Value
claim_of t id token = object true (
    field "schema" (text "sdo.mutation_recovery_claim.v1") (
      field "transactionId" (text t.transaction_id) (
        field "operationId" (text t.definition.operation_id)
          (field "lockId" (text id) (field "ownerToken" (text token) end)))))

abbrev pub text_of : Value → String
text_of (text s) = s
text_of _ = ""

-- The result: contended, or the claim.
pub data Claim : Type 0 where
  contended_claim : Claim
  acquired_claim : Value → Claim

-- The file is created or was there; what was created stays where durability is not confirmed.
unfoldable pub claim_file :
    Store → String → Value → Bool → Bool → Option Content → Store × Outcome Claim
claim_file store id claim flushed confirmed (some c) = (store, ok contended_claim)
claim_file store id claim flushed confirmed none = (
  put id (parsed claim) store,
  (if flushed && confirmed
      then ok (acquired_claim claim)
      else throw "Durability receipt is missing."),
)

-- `acquireMutationRecoveryClaim`, of a lock whose id is a text.
unfoldable pub acquire_mutation_recovery_claim :
    Store → Transaction → Value → String → Bool → Bool → Store × Outcome Claim
acquire_mutation_recovery_claim store t evidence token flushed confirmed =
    if terminated t evidence
    then claim_file store (text_of (get t.lock "lockId"))
        (claim_of t (text_of (get t.lock "lockId")) token) flushed confirmed
        (store (text_of (get t.lock "lockId")))
    else (store, throw "Trusted owner-termination evidence is required for recovery ownership.")

unfoldable pub release_claim_file :
    Store → String → Value → Bool → Option Content → Store × Outcome String
release_claim_file store id claim confirmed none = (store, ok "NOT_HELD")
release_claim_file store id claim confirmed (some garbled) =
    (store, throw "Recovery claim is corrupt or ambiguous.")
release_claim_file store id claim confirmed (some (parsed current)) =
    if str_eq (stringify current) (stringify claim)
    then (
      unlink id store,
      (if confirmed then ok "RELEASED" else throw "Durability receipt is missing."),
    )
    else (store, throw "Recovery claim ownership mismatch.")

-- `releaseMutationRecoveryClaim`
unfoldable pub release_mutation_recovery_claim :
    Store → Transaction → Value → Bool → Store × Outcome String
release_mutation_recovery_claim store t claim confirmed =
    if is_truthy claim
      && same (get claim "transactionId") (text t.transaction_id)
      && same (get claim "lockId") (get t.lock "lockId")
    then release_claim_file store (text_of (get claim "lockId")) claim confirmed
        (store (text_of (get claim "lockId")))
    else (store, throw "Recovery claim ownership mismatch.")

-- While no claim of a lock is held, a claim that is acquired and then released, both durably, is
-- released, its file is gone, and in between a second claim is contended and changes nothing.
pub acquire_mutation_recovery_claim-release :
    (store : Store) (t : Transaction) (evidence : Value) (id token other : String)
    → terminated t evidence ≡ true
    → get t.lock "lockId" ≡ text id
    → store id ≡ none
    → (let taken = (acquire_mutation_recovery_claim store t evidence token true true).0 in
        ((acquire_mutation_recovery_claim store t evidence token true true).1
          ≡ ok (acquired_claim (claim_of t id token)))
        × (acquire_mutation_recovery_claim taken t evidence other true true
            ≡ (taken, ok contended_claim))
        × ((release_mutation_recovery_claim taken t (claim_of t id token) true).1 ≡ ok "RELEASED")
        × ((release_mutation_recovery_claim taken t (claim_of t id token) true).0 id ≡ none))
unfolding acquire_mutation_recovery_claim claim_file release_mutation_recovery_claim
    release_claim_file
acquire_mutation_recovery_claim-release store t evidence id token other ended lock free =
    rw (ended, lock, free)
      (
        refl,
        rw (eq_refl id) refl,
        rw (eq_refl t.transaction_id, eq_refl id, eq_refl (stringify (claim_of t id token))) refl,
        rw
            (
              eq_refl t.transaction_id,
              eq_refl id,
              eq_refl (stringify (claim_of t id token)),
              eq_refl id,
            )
            refl,
      )
