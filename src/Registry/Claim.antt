-- ===== src/Registry/Claim.antt =====
-- `claim` of accelerator/adapters/control-plane-submission-registry.js.
use surgical_dev_ops.Base.Text.{codes, units}
use surgical_dev_ops.Base.Outcome.{Outcome, ok, throw, require, reject, ◌>>=◌, ◌>>◌}
use surgical_dev_ops.Base.{
  ℕ, String, Bool, true, false, List, [], ◌∷◌, Option, none, some, leb, str_eq,
}
use surgical_dev_ops.Json.{Value, undefined, text, get, text_satisfies}
use surgical_dev_ops.Protocol.{exact_fields}
use surgical_dev_ops.Protocol.Credentials.{assert_credential_free}
use surgical_dev_ops.Protocol.Copy.{deep_freeze_copy}
use surgical_dev_ops.Protocol.Serialize.{canonical_serialize}
use surgical_dev_ops.Protocol.Request.{validate_request}
use surgical_dev_ops.Registry.{Entry, Registry, lookup, store}

-- `same(left, right)`.
unfoldable pub same_value : Value → Value → Outcome Bool
same_value left right = do
  a ← canonical_serialize left
  b ← canonical_serialize right
  ok (str_eq a b)

-- A test that the two values be the same.
unfoldable pub require_same : Value → Value → String → Outcome (Unit {0})
require_same left right message = do agree ← same_value left right; require agree message

abbrev pub unknown_submission : String
unknown_submission = "unknown UNKNOWN_SUBMISSION"

-- The principal, the authority and the place of a record are those of the request.
unfoldable pub refuse_substitution : Entry → Value → Outcome (Unit {0})
refuse_substitution entry request = do
  require_same entry.principal (get request "principal")
      "authorization_failure PRINCIPAL_SUBSTITUTION"
  require_same entry.authority (get request "authority") "authorization_failure AUTHORITY_WIDENING"
  require_same entry.workspace (get request "workspace") "stale_state WORKSPACE_REPOSITORY_MISMATCH"
  require_same entry.repository (get request "repository")
      "stale_state WORKSPACE_REPOSITORY_MISMATCH"

-- What a claim comes to: an identical replay of a record, or a new record.
pub data Claim : Type 0 where
  replayed : Entry → Claim
  created : Entry → Claim

abbrev pub entry_of : Claim → Entry
entry_of (replayed e) = e
entry_of (created e) = e

-- The record of a new submission: `bindingFrom(request)` and the first observation.
unfoldable pub new_entry : ℕ → Value → Value → Value → Entry
new_entry n request external observed = record {
  identity = n;
  protocol_version = deep_freeze_copy (get request "protocolVersion");
  operation_id = deep_freeze_copy (get request "operationId");
  request_id = deep_freeze_copy (get request "requestId");
  idempotency_key = deep_freeze_copy (get request "idempotencyKey");
  intent_fingerprint = deep_freeze_copy (get request "intentFingerprint");
  principal = deep_freeze_copy (get request "principal");
  authority = deep_freeze_copy (get request "authority");
  workspace = deep_freeze_copy (get request "workspace");
  repository = deep_freeze_copy (get request "repository");
  request = deep_freeze_copy request;
  external_execution_id = deep_freeze_copy external;
  current_observation_state = text "accepted";
  observation_sequence = 1;
  observed_at = deep_freeze_copy observed;
  last_code = undefined;
}

abbrev pub is_some {ℓ} : {A : Type ℓ} → Option A → Bool
is_some (some a) = true
is_some none = false

-- The key is free; the operation has a record or not, and the external execution one or not.
unfoldable pub claim_operation : Option Entry → Bool → Entry → Value → Outcome Claim
claim_operation (some entry) taken fresh request = do
  refuse_substitution entry request
  throw "protocol_failure OPERATION_BINDING_CONFLICT"
claim_operation none taken fresh request = do
  reject taken "protocol_failure EXTERNAL_EXECUTION_ID_CONFLICT"
  ok (created fresh)

-- The key has a record, which is replayed for the same request alone.
unfoldable pub claim_key : Option Entry → Option Entry → Bool → Entry → Value → Outcome Claim
claim_key (some entry) by_operation taken fresh request = do
  agree ← same_value entry.request request
  require agree "protocol_failure IDEMPOTENCY_CONFLICT"
  ok (replayed entry)
claim_key none by_operation taken fresh request = claim_operation by_operation taken fresh request

abbrev pub after_claim : Registry → Claim → Registry × Claim
after_claim r (replayed e) = (r, replayed e)
after_claim r (created e) = (store r e, created e)

-- The claim of a checked request.
unfoldable pub claim_request : Registry → Value → Value → Value → Outcome (Registry × Claim)
claim_request r request external observed = do
  result ←
      claim_key (lookup (get request "idempotencyKey") r.by_idempotency)
        (lookup (get request "operationId") r.by_operation)
        (is_some (lookup external r.by_external)) (new_entry r.made request external observed)
        request
  ok (after_claim r result)

abbrev pub claim_fields : List String
claim_fields = "request" ∷ "externalExecutionId" ∷ "observedAt" ∷ []

-- The checks of a claim's input; the checked request is returned.
unfoldable pub check_claim : Value → Outcome Value
check_claim input = do
  exact_fields input claim_fields []
  assert_credential_free input
  request ← validate_request "submit" (get input "request")
  require (text_satisfies (λ s. leb 8 (units (codes s))) (get input "externalExecutionId"))
      "internal_failure REGISTRY_FAILURE"
  ok request

-- `claim(input)`: the registry after it, and what it answers.
unfoldable pub claim : Registry → Value → Outcome (Registry × Claim)
claim r input = do
  request ← check_claim input
  claim_request r request (get input "externalExecutionId") (get input "observedAt")
