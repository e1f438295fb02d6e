-- ===== src/Protocol/Request.antt =====
-- `validateRequest` of accelerator/core/control-plane-protocol.js with the checks of each part of a
-- request.
use surgical_dev_ops.Base.Text.{codes, between, is_hash, includes, same_codes}
use surgical_dev_ops.Base.Outcome.{Outcome, ok, throw, require, ◌>>=◌, ◌>>◌, every}
use surgical_dev_ops.Base.{
  ℕ, String, Bool, true, false, List, [], ◌∷◌, ◌&&◌, ◌||◌, not, str_eq, if◌then◌else◌, any, ◌==◌,
  Option, none, some,
}
use surgical_dev_ops.Json.{
  Value, Items, array, nil, cons, get, keys, is_object, is_string, text_satisfies, same,
}
use surgical_dev_ops.Protocol.{
  malformed, protocol_version, request_fields, exact_fields, assert_dense_array, coerced,
  is_git_head, require_identifier, require_timestamp, require_sequence,
}
use surgical_dev_ops.Protocol.Credentials.{assert_credential_free}
use surgical_dev_ops.Protocol.Copy.{deep_freeze_copy}

-- `DIGEST.test(value)`.
unfoldable pub is_digest : Value → Bool
unfolding is_hash coerced
is_digest value = is_hash (coerced value)

unfoldable pub validate_principal : Value → Outcome (Unit {0})
validate_principal value = do
  exact_fields value ("type" ∷ "id" ∷ []) []
  require (text_satisfies (includes ("human" ∷ "agent" ∷ "service" ∷ [])) (get value "type"))
      "authentication_failure BINDING_MISMATCH"
  require_identifier (get value "id")

unfoldable pub validate_authority : Value → Outcome (Unit {0})
validate_authority value = do
  exact_fields value ("reference" ∷ "delegationReference" ∷ []) []
  require_identifier (get value "reference")
  require_identifier (get value "delegationReference")

abbrev is_separator : ℕ → Bool
is_separator c = c == b'/' || c == b'\\'

-- `value.startsWith('/') || /^[A-Za-z]:[\\/]/.test(value)`
abbrev is_rooted : List ℕ → Bool
is_rooted (c ∷ d ∷ e ∷ cs) =
    c == b'/' || ((between b'A' b'Z' c || between b'a' b'z' c) && d == b':' && is_separator e)
is_rooted (c ∷ cs) = c == b'/'
is_rooted [] = false

-- The part that a path starts with, up to a separator.
abbrev first_part : List ℕ → List ℕ
first_part [] = []
first_part (c ∷ cs) = if is_separator c then [] else c ∷ first_part cs

abbrev later_parent : List ℕ → Bool
later_parent [] = false
later_parent (c ∷ cs) =
    (is_separator c && same_codes (first_part cs) (codes "..")) || later_parent cs

-- `value.split(/[\\/]+/).includes('..')`
abbrev has_parent : List ℕ → Bool
has_parent cs = same_codes (first_part cs) (codes "..") || later_parent cs

unfoldable pub is_workspace_path : String → Bool
is_workspace_path s =
    let cs = codes s in is_rooted cs && not (any (λ c. c == 0) cs) && not (has_parent cs)

unfoldable pub validate_workspace : Value → Outcome (Unit {0})
validate_workspace value = do
  exact_fields value ("path" ∷ "physicalIdentity" ∷ []) []
  require
      (text_satisfies is_workspace_path (get value "path")
        && is_digest (get value "physicalIdentity"))
      "authorization_failure BINDING_MISMATCH"

unfoldable pub validate_repository : Value → Outcome (Unit {0})
validate_repository value = do
  exact_fields value ("id" ∷ "head" ∷ []) []
  require_identifier (get value "id")
  require (is_git_head (coerced (get value "head"))) malformed

unfoldable pub validate_expected_state : Value → Value → Outcome (Unit {0})
validate_expected_state value repository = do
  exact_fields value ("repositoryHead" ∷ "worktreeFingerprint" ∷ "cas" ∷ []) []
  require
      (every (
        is_git_head (coerced (get value "repositoryHead"))
        ∷ same (get value "repositoryHead") (get repository "head")
        ∷ is_digest (get value "worktreeFingerprint")
        ∷ is_digest (get value "cas")
        ∷ []))
      "stale_state BINDING_MISMATCH"

unfoldable pub validate_binding : Value → Outcome (Unit {0})
validate_binding input = do
  require_identifier (get input "requestId")
  require_identifier (get input "operationId")
  require_identifier (get input "idempotencyKey")
  require (is_digest (get input "intentFingerprint")) malformed
  validate_principal (get input "principal")
  validate_authority (get input "authority")
  validate_workspace (get input "workspace")
  validate_repository (get input "repository")

-- Whether a text occurs among the elements of an array.
abbrev pub item_texts : Items → String → Bool
item_texts nil s = false
item_texts (cons v vs) s = is_string v s || item_texts vs s

-- Every element is a text that satisfies a test, and none occurs twice.
unfoldable pub are_distinct_texts : (String → Bool) → Items → Bool
are_distinct_texts test nil = true
are_distinct_texts test (cons v vs) =
    let rest = are_distinct_texts test vs in
    text_satisfies (λ s. test s && not (item_texts vs s)) v && rest

unfoldable pub lists_distinct : (String → Bool) → Value → Bool
lists_distinct test (array _ xs) = are_distinct_texts test xs
lists_distinct test _ = false

abbrev pub is_empty_array : Value → Bool
is_empty_array (array _ nil) = true
is_empty_array _ = false

unfoldable pub validate_versions : Value → Outcome (Unit {0})
validate_versions versions = do
  assert_dense_array versions
  require (not (is_empty_array versions) && lists_distinct (λ s. true) versions) malformed

unfoldable pub validate_submission : Value → Outcome (Unit {0})
validate_submission input = do
  require_identifier (get input "requestedCapability")
  validate_expected_state (get input "expectedState") (get input "repository")
  require_identifier (get input "approvalReference")
  require_timestamp (get input "submittedAt")

unfoldable pub validate_external : String → Value → Outcome (Unit {0})
validate_external operation input =
    if not (str_eq operation "reconcile") || includes (keys input) "externalExecutionId"
    then require_identifier (get input "externalExecutionId")
    else ok tt

unfoldable pub validate_details : String → Value → Outcome (Unit {0})
validate_details operation input =
    if str_eq operation "submit" then validate_submission input else do
      validate_external operation input
      require_sequence true (get input "afterObservationSequence")

unfoldable pub validate_contents : String → Value → Outcome (Unit {0})
validate_contents operation input =
    if str_eq operation "negotiate"
    then validate_versions (get input "supportedVersions")
    else if str_eq operation "capabilities"
    then ok tt
    else do validate_binding input; validate_details operation input

unfoldable pub fields_of : Option (List String) → Outcome (List String)
fields_of (some fields) = ok fields
fields_of none = throw malformed

abbrev pub optional_fields : String → List String
optional_fields operation = if str_eq operation "reconcile" then "externalExecutionId" ∷ [] else []

-- The checks of a request, without the copy that is returned.
unfoldable pub check_request : String → Value → Outcome (Unit {0})
check_request operation input = do
  require (is_object input && is_string (get input "protocolVersion") protocol_version)
      "protocol_failure UNSUPPORTED_PROTOCOL_VERSION"
  assert_credential_free input
  required ← fields_of (request_fields operation)
  exact_fields input required (optional_fields operation)
  require_identifier (get input "requestId")
  validate_contents operation input

unfoldable pub validate_request : String → Value → Outcome Value
validate_request operation input = do check_request operation input; ok (deep_freeze_copy input)
