-- ===== src/Protocol/Copy.antt =====
-- `deepFreezeCopy` of accelerator/core/control-plane-protocol.js: a copy that is frozen at every
-- depth, and what a copy shares with its original.
use surgical_dev_ops.Base.{◌≡◌, refl, ap, ap₂, String, true, str_eq, Bool-cases, inl, inr, ◌∷◌}
use surgical_dev_ops.Json.{
  Value, Items, Fields, undefined, null, boolean, number, other_number, text, array, object, nil,
  cons, end, field, get, find_field, keys, field_names,
}

unfoldable mutual
  pub copy_value : Value → Value
  copy_value (array _ xs) = array true (copy_items xs)
  copy_value (object _ fs) = object true (copy_fields fs)
  copy_value v = v

  pub copy_items : Items → Items
  copy_items nil = nil
  copy_items (cons v vs) = cons (copy_value v) (copy_items vs)

  pub copy_fields : Fields → Fields
  copy_fields end = end
  copy_fields (field k v fs) = field k (copy_value v) (copy_fields fs)

unfoldable pub deep_freeze_copy : Value → Value
unfolding copy_value copy_items copy_fields
deep_freeze_copy value = copy_value value

find_field-copy_fields :
    (k : String) (fs : Fields) → find_field k (copy_fields fs) ≡ copy_value (find_field k fs)
unfolding copy_fields copy_value
find_field-copy_fields k end = refl
find_field-copy_fields k (field j v fs) = elim (Bool-cases (str_eq j k)) [
  | inl e ↦ rw e refl
  | inr e ↦ rw e (find_field-copy_fields k fs)
]

pub get-deep_freeze_copy :
    (v : Value) (k : String) → get (deep_freeze_copy v) k ≡ deep_freeze_copy (get v k)
unfolding deep_freeze_copy
get-deep_freeze_copy (object b fs) k = find_field-copy_fields k fs
get-deep_freeze_copy (array b xs) k = refl
get-deep_freeze_copy undefined k = refl
get-deep_freeze_copy null k = refl
get-deep_freeze_copy (boolean b) k = refl
get-deep_freeze_copy (number n) k = refl
get-deep_freeze_copy (other_number b s) k = refl
get-deep_freeze_copy (text s) k = refl

field_names-copy_fields : (fs : Fields) → field_names (copy_fields fs) ≡ field_names fs
unfolding copy_fields
field_names-copy_fields end = refl
field_names-copy_fields (field k v fs) = ap (λ l. k ∷ l) (field_names-copy_fields fs)

pub keys-deep_freeze_copy : (v : Value) → keys (deep_freeze_copy v) ≡ keys v
unfolding deep_freeze_copy
keys-deep_freeze_copy (object b fs) = field_names-copy_fields fs
keys-deep_freeze_copy (array b xs) = refl
keys-deep_freeze_copy undefined = refl
keys-deep_freeze_copy null = refl
keys-deep_freeze_copy (boolean b) = refl
keys-deep_freeze_copy (number n) = refl
keys-deep_freeze_copy (other_number b s) = refl
keys-deep_freeze_copy (text s) = refl

mutual
  unfolding copy_value copy_items copy_fields

  copy_value-twice : (v : Value) → copy_value (copy_value v) ≡ copy_value v
  copy_value-twice (array b xs) = ap (array true) (copy_items-twice xs)
  copy_value-twice (object b fs) = ap (object true) (copy_fields-twice fs)
  copy_value-twice undefined = refl
  copy_value-twice null = refl
  copy_value-twice (boolean b) = refl
  copy_value-twice (number n) = refl
  copy_value-twice (other_number b s) = refl
  copy_value-twice (text s) = refl

  copy_items-twice : (xs : Items) → copy_items (copy_items xs) ≡ copy_items xs
  copy_items-twice nil = refl
  copy_items-twice (cons v vs) = ap₂ cons (copy_value-twice v) (copy_items-twice vs)

  copy_fields-twice : (fs : Fields) → copy_fields (copy_fields fs) ≡ copy_fields fs
  copy_fields-twice end = refl
  copy_fields-twice (field k v fs) = ap₂ (field k) (copy_value-twice v) (copy_fields-twice fs)

pub deep_freeze_copy-twice :
    (v : Value) → deep_freeze_copy (deep_freeze_copy v) ≡ deep_freeze_copy v
unfolding deep_freeze_copy
deep_freeze_copy-twice v = copy_value-twice v
