-- ===== src/Json.antt =====
-- The values that the core passes around: those of the language that JSON can carry, with the flag
-- that `Object.isFrozen` reads. Objects keep their own keys in order and hold each key once.
pub mod Canonical
pub mod Access
use surgical_dev_ops.Base.Text.{includes}
use surgical_dev_ops.Base.{
  ℕ, String, Bool, true, false, List, [], ◌∷◌, ◌&&◌, ◌||◌, not, str_eq, if◌then◌else◌, any, all,
  length, ◌==◌,
}

mutual
  pub data Value : Type 0 where
    undefined null : Value
    boolean : Bool → Value
    -- A natural number; any other number is given by whether it is finite and how it is printed.
    number : ℕ → Value
    other_number : Bool → String → Value
    text : String → Value
    array : Bool → Items → Value
    object : Bool → Fields → Value

  pub data Items : Type 0 where
    nil : Items
    cons : Value → Items → Items

  pub data Fields : Type 0 where
    end : Fields
    field : String → Value → Fields → Fields

abbrev pub find_field : String → Fields → Value
find_field k end = undefined
find_field k (field j v fs) = if str_eq j k then v else find_field k fs

-- `value.key`; a value that is no object has no such property.
abbrev pub get : Value → String → Value
get (object _ fs) k = find_field k fs
get _ k = undefined

abbrev pub field_names : Fields → List String
field_names end = []
field_names (field k v fs) = k ∷ field_names fs

-- `Object.keys(value)` of an object.
abbrev pub keys : Value → List String
keys (object _ fs) = field_names fs
keys _ = []

-- `value && typeof value === 'object' && !Array.isArray(value)`.
abbrev pub is_object : Value → Bool
is_object (object _ fs) = true
is_object _ = false

abbrev pub is_frozen : Value → Bool
is_frozen (object b fs) = b
is_frozen (array b xs) = b
is_frozen _ = true

-- `value === 'text'`.
abbrev pub is_string : Value → String → Bool
is_string (text s) t = str_eq s t
is_string _ t = false

-- `value === n` for a number written in the source.
abbrev pub is_number : Value → ℕ → Bool
is_number (number m) n = m == n
is_number _ n = false

abbrev pub is_null : Value → Bool
is_null null = true
is_null _ = false

-- `typeof value === 'string' && test(value)`.
abbrev pub text_satisfies : (String → Bool) → Value → Bool
text_satisfies test (text s) = test s
text_satisfies test _ = false

-- `keys.length === fields.size && keys.every((key) => fields.has(key))`.
abbrev pub has_exactly : List String → Value → Bool
has_exactly names v = length (keys v) == length names && all (includes names) (keys v)

mutual
  deep_freeze_value : Value → Value
  deep_freeze_value (array false xs) = array true (deep_freeze_items xs)
  deep_freeze_value (object false fs) = object true (deep_freeze_fields fs)
  deep_freeze_value v = v

  deep_freeze_items : Items → Items
  deep_freeze_items nil = nil
  deep_freeze_items (cons v vs) = cons (deep_freeze_value v) (deep_freeze_items vs)

  deep_freeze_fields : Fields → Fields
  deep_freeze_fields end = end
  deep_freeze_fields (field k v fs) = field k (deep_freeze_value v) (deep_freeze_fields fs)

-- `deepFreeze`: what is frozen already is not entered.
unfoldable pub deep_freeze : Value → Value
unfolding deep_freeze_value deep_freeze_fields deep_freeze_items
deep_freeze v = deep_freeze_value v

-- Whether a value counts as true in a test.
abbrev pub is_truthy : Value → Bool
is_truthy (object _ _) = true
is_truthy (array _ _) = true
is_truthy (boolean b) = b
is_truthy (text s) = not (str_eq s "")
is_truthy (number n) = not (is_number (number n) 0)
is_truthy (other_number finite s) = not (str_eq s "NaN" || str_eq s "0")
is_truthy _ = false

-- `left === right` of two values that are no objects.
abbrev pub same : Value → Value → Bool
same (text s) v = is_string v s
same (number n) v = is_number v n
same null v = is_null v
same undefined undefined = true
same (boolean true) (boolean true) = true
same (boolean false) (boolean false) = true
same _ _ = false
