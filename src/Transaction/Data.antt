-- ===== src/Transaction/Data.antt =====
-- accelerator/core/mutation-transaction.js: the definition of a transaction, its identity and the
-- transaction itself.
use Prim.Native.String
use surgical_dev_ops.Base.Text.{codes, is_hash, is_text}
use surgical_dev_ops.Base.Outcome.{Outcome, ok, throw, require, ◌>>=◌, ◌>>◌}
use surgical_dev_ops.Base.{ℕ, String, Bool, List, [], ◌∷◌, ◌&&◌, ◌||◌, not, any, length, ltb, ◌==◌}
use surgical_dev_ops.Json.{Value, Fields, text, end, field, get, is_object, has_exactly}
use surgical_dev_ops.Recovery.{digest}
use surgical_dev_ops.NodePath.{is_absolute, normalize, relative, is_empty, ends_with_separator}
use surgical_dev_ops.Base.Text.{same_codes}
use surgical_dev_ops.NodePath.Inside.{starts_up}
use surgical_dev_ops.Transaction.Stage.{Stage}

pub record Definition : Type 0 where
  pub operation_id : String
  pub workspace : String
  pub target : String
  pub before_sha256 : String
  pub replacement_sha256 : String
  pub grant_fingerprint : String
  pub approval_authority_fingerprint : String
  pub verified_identity_assertion_fingerprint : String
  pub idempotency_key : String

-- The key of a history event beside `sequence` and `stage`, if there is one. `others n` stands for
-- any `n + 1` keys that are not a single one of the three.
pub data Extra : Type 0 where
  bare : Extra
  lock_id commit_authority_fingerprint recovery_evidence_fingerprint : Value → Extra
  others : ℕ → Extra

pub record Event : Type 0 where
  pub sequence : ℕ
  pub stage : Stage
  pub extra : Extra
  pub frozen : Bool

pub record Transaction : Type 0 where
  pub schema : String
  pub version : ℕ
  pub transaction_id : String
  pub replay_identity : String
  pub definition : Definition
  pub stage : Stage
  pub lock : Value
  pub commit_authority : Value
  pub recovery_evidence : Value
  pub history : List Event
  pub frozen : Bool

abbrev pub transaction_schema : String
transaction_schema = "sdo.mutation_transaction.v1"

abbrev pub input_fields : List String
input_fields =
    "operationId" ∷ "workspace" ∷ "target" ∷ "beforeSha256" ∷ "replacementSha256"
    ∷ "grantFingerprint" ∷ "approvalAuthorityFingerprint" ∷ "verifiedIdentityAssertionFingerprint"
    ∷ "idempotencyKey" ∷ []

unfoldable pub require_text : Value → String → Outcome String
require_text (text s) label = do
  require (is_text s) (String.◌++◌ label " is missing or malformed.")
  ok s
require_text _ label = throw (String.◌++◌ label " is missing or malformed.")

unfoldable pub require_hash : Value → String → Outcome String
require_hash (text s) label = do
  require (is_hash s) (String.◌++◌ label " must be a lowercase SHA-256 digest.")
  ok s
require_hash _ label = throw (String.◌++◌ label " must be a lowercase SHA-256 digest.")

-- A text that names an absolute path in normal form, with no separator behind it but the root's.
unfoldable pub is_canonical_absolute : String → Bool
is_canonical_absolute value =
    let s = codes value in
    not (is_empty s)
    && not (any (λ c. c == 0) s)
    && is_absolute s
    && same_codes (normalize s) s
    && not (ltb 1 (length s) && ends_with_separator s)

unfoldable pub require_canonical_absolute : Value → String → Outcome String
require_canonical_absolute (text s) label = do
  require (is_canonical_absolute s) (String.◌++◌ label " must be a canonical absolute path.")
  ok s
require_canonical_absolute _ label = throw (String.◌++◌ label " must be a canonical absolute path.")

unfoldable pub is_contained : String → String → Bool
is_contained workspace target =
    let r = relative (codes workspace) (codes target) in
    not (is_empty r || starts_up r || is_absolute r)

unfoldable pub require_contained_target : String → String → Outcome String
require_contained_target workspace target = do
  require (is_contained workspace target)
      "Physical target must be an exact canonical path inside the workspace."
  ok target

unfoldable pub exact_input : Value → Outcome (Unit {0})
exact_input input = do
  require (is_object input) "Mutation transaction definition must be an unambiguous plain object."
  require (has_exactly input_fields input)
      "Mutation transaction definition has missing or unknown fields."

unfoldable pub normalize_definition : Value → Outcome Definition
normalize_definition input = do
  exact_input input
  workspace ← require_canonical_absolute (get input "workspace") "Workspace"
  path ← require_canonical_absolute (get input "target") "Physical target"
  target ← require_contained_target workspace path
  operation_id ← require_text (get input "operationId") "operationId"
  before ← require_hash (get input "beforeSha256") "BEFORE hash"
  replacement ← require_hash (get input "replacementSha256") "Replacement hash"
  grant ← require_hash (get input "grantFingerprint") "Grant fingerprint"
  approval ←
      require_hash (get input "approvalAuthorityFingerprint") "Approval-authority fingerprint"
  identity ←
      require_hash (get input "verifiedIdentityAssertionFingerprint")
        "Verified-human-identity fingerprint"
  key ← require_text (get input "idempotencyKey") "Idempotency key"
  ok (record {
    operation_id = operation_id;
    workspace = workspace;
    target = target;
    before_sha256 = before;
    replacement_sha256 = replacement;
    grant_fingerprint = grant;
    approval_authority_fingerprint = approval;
    verified_identity_assertion_fingerprint = identity;
    idempotency_key = key;
  })

-- The definition as the object that is hashed, with `rest` after its fields.
abbrev pub definition_fields : Definition → Fields → Fields
definition_fields d rest = field "operationId" (text d.operation_id) (
    field "workspace" (text d.workspace) (
      field "target" (text d.target) (
        field "beforeSha256" (text d.before_sha256) (
          field "replacementSha256" (text d.replacement_sha256) (
            field "grantFingerprint" (text d.grant_fingerprint) (
              field "approvalAuthorityFingerprint" (text d.approval_authority_fingerprint) (
                field "verifiedIdentityAssertionFingerprint"
                  (text d.verified_identity_assertion_fingerprint)
                  (field "idempotencyKey" (text d.idempotency_key) rest))))))))

module _ (sha256 : String → String) where
  -- `identityFor`: the replay identity, and the transaction's id, which covers it.
  unfoldable pub replay_identity_for : Definition → String
  replay_identity_for d = digest sha256 "sdo.mutation_replay.v1" (definition_fields d end)

  unfoldable pub transaction_id_for : Definition → String
  transaction_id_for d =
      digest sha256 "sdo.mutation_transaction.v1"
        (definition_fields d (field "replayIdentity" (text (replay_identity_for d)) end))

  unfoldable pub derive_mutation_lock_id : Value → Value → Outcome String
  derive_mutation_lock_id workspace target = do
    w ← require_canonical_absolute workspace "Workspace"
    path ← require_canonical_absolute target "Physical target"
    t ← require_contained_target w path
    ok (
        digest sha256 "sdo.mutation_target_lock.v1"
          (field "workspace" (text w) (field "target" (text t) end)))
