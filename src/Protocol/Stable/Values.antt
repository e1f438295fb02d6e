-- ===== src/Protocol/Stable/Values.antt =====
-- What a value and its frozen copy have in common: how they are spelled, and that they carry no
-- credential.
use Prim.Native.String.{◌++◌}
use surgical_dev_ops.Base.{◌≡◌, ◌∙◌, refl, ap, ap₂, String, Bool, true, false, ◌&&◌, not}
use surgical_dev_ops.Json.{
  Value, Items, Fields, undefined, null, boolean, number, other_number, text, array, object, nil,
  cons, end, field, is_object, is_string, text_satisfies,
}
use surgical_dev_ops.Protocol.{coerced, coerced_value, joined, unless_empty, is_array, is_sequence}
use surgical_dev_ops.Protocol.Credentials.{
  assert_credential_free, is_credential_free, free_items, free_fields, is_credential_field,
}
use surgical_dev_ops.Protocol.Copy.{deep_freeze_copy, copy_value, copy_items, copy_fields}

mutual
  unfolding copy_value copy_items copy_fields is_credential_free free_items free_fields

  free_value-copy : (v : Value) → is_credential_free (copy_value v) ≡ is_credential_free v
  free_value-copy (array b xs) = free_items-copy xs
  free_value-copy (object b fs) = free_fields-copy fs
  free_value-copy undefined = refl
  free_value-copy null = refl
  free_value-copy (boolean b) = refl
  free_value-copy (number n) = refl
  free_value-copy (other_number b s) = refl
  free_value-copy (text s) = refl

  free_items-copy : (xs : Items) → free_items (copy_items xs) ≡ free_items xs
  free_items-copy nil = refl
  free_items-copy (cons v vs) = ap₂ (λ a b. a && b) (free_value-copy v) (free_items-copy vs)

  free_fields-copy : (fs : Fields) → free_fields (copy_fields fs) ≡ free_fields fs
  free_fields-copy end = refl
  free_fields-copy (field k v fs) =
      ap₂ (λ a b. not (is_credential_field k) && a && b) (free_value-copy v) (free_fields-copy fs)

unless_empty-copy : (v : Value) (s : String) → unless_empty (copy_value v) s ≡ unless_empty v s
unfolding unless_empty copy_value
unless_empty-copy (array b xs) s = refl
unless_empty-copy (object b fs) s = refl
unless_empty-copy undefined s = refl
unless_empty-copy null s = refl
unless_empty-copy (boolean b) s = refl
unless_empty-copy (number n) s = refl
unless_empty-copy (other_number b t) s = refl
unless_empty-copy (text t) s = refl

mutual
  unfolding copy_value copy_items copy_fields coerced_value joined

  coerced_value-copy : (v : Value) → coerced_value (copy_value v) ≡ coerced_value v
  coerced_value-copy (array b xs) = joined-copy xs
  coerced_value-copy (object b fs) = refl
  coerced_value-copy undefined = refl
  coerced_value-copy null = refl
  coerced_value-copy (boolean true) = refl
  coerced_value-copy (boolean false) = refl
  coerced_value-copy (number n) = refl
  coerced_value-copy (other_number b s) = refl
  coerced_value-copy (text s) = refl

  joined-copy : (xs : Items) → joined (copy_items xs) ≡ joined xs
  joined-copy nil = refl
  joined-copy (cons v nil) =
      unless_empty-copy v (coerced_value (copy_value v))
      ∙ ap (unless_empty v) (coerced_value-copy v)
  joined-copy (cons v (cons w vs)) =
      ap₂ (λ s t. s ++ "," ++ t)
        (unless_empty-copy v (coerced_value (copy_value v))
          ∙ ap (unless_empty v) (coerced_value-copy v))
        (joined-copy (cons w vs))

pub coerced-copy : (v : Value) → coerced (deep_freeze_copy v) ≡ coerced v
unfolding coerced deep_freeze_copy
coerced-copy v = coerced_value-copy v

pub assert_credential_free-copy :
    (v : Value) → assert_credential_free (deep_freeze_copy v) ≡ assert_credential_free v
unfolding assert_credential_free deep_freeze_copy
assert_credential_free-copy v = rw (free_value-copy v) refl

pub text_satisfies-copy :
    (test : String → Bool) (v : Value)
    → text_satisfies test (deep_freeze_copy v) ≡ text_satisfies test v
unfolding deep_freeze_copy
text_satisfies-copy test undefined = refl
text_satisfies-copy test null = refl
text_satisfies-copy test (boolean b) = refl
text_satisfies-copy test (number n) = refl
text_satisfies-copy test (other_number b s) = refl
text_satisfies-copy test (text s) = refl
text_satisfies-copy test (array b xs) = refl
text_satisfies-copy test (object b fs) = refl

pub is_string-copy : (v : Value) (t : String) → is_string (deep_freeze_copy v) t ≡ is_string v t
unfolding deep_freeze_copy
is_string-copy undefined t = refl
is_string-copy null t = refl
is_string-copy (boolean b) t = refl
is_string-copy (number n) t = refl
is_string-copy (other_number b s) t = refl
is_string-copy (text s) t = refl
is_string-copy (array b xs) t = refl
is_string-copy (object b fs) t = refl

pub is_object-copy : (v : Value) → is_object (deep_freeze_copy v) ≡ is_object v
unfolding deep_freeze_copy
is_object-copy undefined = refl
is_object-copy null = refl
is_object-copy (boolean b) = refl
is_object-copy (number n) = refl
is_object-copy (other_number b s) = refl
is_object-copy (text s) = refl
is_object-copy (array b xs) = refl
is_object-copy (object b fs) = refl

pub is_array-copy : (v : Value) → is_array (deep_freeze_copy v) ≡ is_array v
unfolding deep_freeze_copy
is_array-copy undefined = refl
is_array-copy null = refl
is_array-copy (boolean b) = refl
is_array-copy (number n) = refl
is_array-copy (other_number b s) = refl
is_array-copy (text s) = refl
is_array-copy (array b xs) = refl
is_array-copy (object b fs) = refl

pub is_sequence-copy : (z : Bool) (v : Value) → is_sequence z (deep_freeze_copy v) ≡ is_sequence z v
unfolding deep_freeze_copy is_sequence
is_sequence-copy z undefined = refl
is_sequence-copy z null = refl
is_sequence-copy z (boolean b) = refl
is_sequence-copy z (number n) = refl
is_sequence-copy z (other_number b s) = refl
is_sequence-copy z (text s) = refl
is_sequence-copy z (array b xs) = refl
is_sequence-copy z (object b fs) = refl

pub is_credential_free-copy :
    (v : Value) → is_credential_free (deep_freeze_copy v) ≡ is_credential_free v
unfolding deep_freeze_copy
is_credential_free-copy v = free_value-copy v
