-- ===== src/Json/Canonical/Frozen.antt =====
-- `canonicalJson` of a value and of the same value frozen.
use Prim.Native.String.{◌++◌}
use surgical_dev_ops.Base.{◌≡◌, ◌∙◌, refl, sym, ap, ap₂, String, true, false}
use surgical_dev_ops.Json.{
  Value, Items, Fields, undefined, null, boolean, number, other_number, text, array, object, nil,
  cons, end, field, deep_freeze, deep_freeze_value, deep_freeze_items, deep_freeze_fields,
}
use surgical_dev_ops.Json.Canonical.{
  canonical_json, canonical_value, canonical_items, joined_item, sorted_fields, join_fields, insert,
}

item-frozen :
    (v : Value) {s t : String} → s ≡ t → joined_item (deep_freeze_value v) s ≡ joined_item v t
unfolding joined_item deep_freeze_value
item-frozen undefined h = refl
item-frozen (array false xs) h = h
item-frozen (object false fs) h = h
item-frozen (array true xs) h = h
item-frozen (object true fs) h = h
item-frozen null h = h
item-frozen (boolean b) h = h
item-frozen (number n) h = h
item-frozen (other_number b s) h = h
item-frozen (text s) h = h

mutual
  unfolding canonical_value canonical_items sorted_fields deep_freeze_value deep_freeze_items
      deep_freeze_fields

  value-frozen : (v : Value) → canonical_value (deep_freeze_value v) ≡ canonical_value v
  value-frozen (array false xs) = ap (λ s. "[" ++ s ++ "]") (items-frozen xs)
  value-frozen (object false fs) = ap (λ m. "{" ++ join_fields m ++ "}") (fields-frozen fs)
  value-frozen (array true xs) = refl
  value-frozen (object true fs) = refl
  value-frozen undefined = refl
  value-frozen null = refl
  value-frozen (boolean b) = refl
  value-frozen (number n) = refl
  value-frozen (other_number b s) = refl
  value-frozen (text s) = refl

  items-frozen : (xs : Items) → canonical_items (deep_freeze_items xs) ≡ canonical_items xs
  items-frozen nil = refl
  items-frozen (cons v nil) = item-frozen v (value-frozen v)
  items-frozen (cons v (cons w vs)) =
      ap₂ (λ s t. s ++ "," ++ t) (item-frozen v (value-frozen v)) (items-frozen (cons w vs))

  fields-frozen : (fs : Fields) → sorted_fields (deep_freeze_fields fs) ≡ sorted_fields fs
  fields-frozen end = refl
  fields-frozen (field k v fs) = ap₂ (insert k) (value-frozen v) (fields-frozen fs)

pub canonical_json-deep_freeze : (v : Value) → canonical_json (deep_freeze v) ≡ canonical_json v
unfolding canonical_json deep_freeze
canonical_json-deep_freeze v = value-frozen v

-- The same for the fields of an object that is frozen.
pub canonical_json-frozen :
    (fs gs : Fields)
    → deep_freeze (object false fs) ≡ object true gs
    → canonical_json (object false gs) ≡ canonical_json (object false fs)
unfolding canonical_json
canonical_json-frozen fs gs h =
    ap canonical_json (sym h) ∙ canonical_json-deep_freeze (object false fs)
