-- ===== src/Protocol/Stable.antt =====
-- The checks of accelerator/core/control-plane-protocol.js on a request and on its frozen copy.
pub mod Values
pub mod Equal
use Prim.Native.String.{◌++◌}
use surgical_dev_ops.Base.Outcome.{Outcome, ok, ◌>>=◌, ◌>>◌, then-ok, then-eq, ok-injective}
use surgical_dev_ops.Base.{
  ◌≡◌, ◌∙◌, refl, ap, ap₂, subst, ℕ, String, Bool, true, false, ◌&&◌, ◌||◌, not, str_eq,
  if◌then◌else◌, List, ◌∷◌, [],
}
use surgical_dev_ops.Json.{
  Value, Items, Fields, undefined, null, boolean, number, other_number, text, array, object, nil,
  cons, end, field, get, keys, is_object, is_string, is_number, is_null, text_satisfies, same,
}
use surgical_dev_ops.Protocol.{
  coerced, coerced_value, joined, unless_empty, exact_fields, assert_dense_array, is_array,
  require_identifier, require_timestamp, require_sequence, is_sequence, is_git_head,
}
use surgical_dev_ops.Protocol.Credentials.{
  assert_credential_free, is_credential_free, free_items, free_fields, is_credential_field,
}
use surgical_dev_ops.Protocol.Copy.{
  deep_freeze_copy, copy_value, copy_items, copy_fields, get-deep_freeze_copy,
  keys-deep_freeze_copy, deep_freeze_copy-twice,
}
use surgical_dev_ops.Protocol.Request.{
  is_digest, validate_principal, validate_authority, validate_workspace, validate_repository,
  validate_expected_state, validate_binding, item_texts, are_distinct_texts, lists_distinct,
  is_empty_array, validate_versions, validate_submission, validate_external, validate_details,
  validate_contents, check_request, validate_request,
}
use surgical_dev_ops.Protocol.Stable.Values.{
  coerced-copy, assert_credential_free-copy, text_satisfies-copy, is_string-copy, is_object-copy,
  is_array-copy, is_sequence-copy,
}
use surgical_dev_ops.Protocol.Stable.Equal.{same-copy, lists_distinct-copy, is_empty_array-copy}

ruleset copies = (
  get-deep_freeze_copy, keys-deep_freeze_copy, coerced-copy, assert_credential_free-copy,
  text_satisfies-copy, is_string-copy, is_object-copy, is_array-copy, is_sequence-copy, same-copy,
  lists_distinct-copy, is_empty_array-copy,
)

check_request-copy :
    (operation : String) (v : Value)
    → check_request operation (deep_freeze_copy v) ≡ check_request operation v
unfolding check_request exact_fields validate_contents validate_versions assert_dense_array
    validate_binding validate_principal validate_authority validate_workspace validate_repository
    validate_details validate_submission validate_expected_state validate_external
    require_identifier require_timestamp require_sequence is_digest
check_request-copy operation v = simp copies

-- A request that was checked and copied passes the same checks again, and a second copy is the first:
-- what an operation hands on as a request of the same kind is taken as it is.
pub validate_request-twice :
    (operation : String) (input request : Value)
    → validate_request operation input ≡ ok request
    → validate_request operation request ≡ ok request
unfolding validate_request
validate_request-twice operation input request h = then-ok _ _ h λ checked copied.
    subst (λ r. (check_request operation r >> ok (deep_freeze_copy r)) ≡ ok r) (ok-injective copied)
      (then-eq _ (check_request-copy operation input ∙ checked)
        ∙ ap ok (deep_freeze_copy-twice input))
