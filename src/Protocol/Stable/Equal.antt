-- ===== src/Protocol/Stable/Equal.antt =====
-- The equality and the lists of accelerator/core/control-plane-protocol.js on frozen copies.
use surgical_dev_ops.Base.{◌≡◌, refl, ap₂, ℕ, String, Bool, true, false, ◌&&◌, ◌||◌, not}
use surgical_dev_ops.Json.{
  Value, Items, undefined, null, boolean, number, other_number, text, array, object, nil, cons,
  is_number, is_null, same,
}
use surgical_dev_ops.Protocol.Copy.{deep_freeze_copy, copy_value, copy_items}
use surgical_dev_ops.Protocol.Stable.Values.{is_string-copy}
use surgical_dev_ops.Protocol.Request.{
  item_texts, are_distinct_texts, lists_distinct, is_empty_array,
}

is_number-copy : (v : Value) (n : ℕ) → is_number (deep_freeze_copy v) n ≡ is_number v n
unfolding deep_freeze_copy
is_number-copy undefined n = refl
is_number-copy null n = refl
is_number-copy (boolean true) n = refl
is_number-copy (boolean false) n = refl
is_number-copy (number m) n = refl
is_number-copy (other_number b s) n = refl
is_number-copy (text s) n = refl
is_number-copy (array b xs) n = refl
is_number-copy (object b fs) n = refl

is_null-copy : (v : Value) → is_null (deep_freeze_copy v) ≡ is_null v
unfolding deep_freeze_copy
is_null-copy undefined = refl
is_null-copy null = refl
is_null-copy (boolean true) = refl
is_null-copy (boolean false) = refl
is_null-copy (number n) = refl
is_null-copy (other_number b s) = refl
is_null-copy (text s) = refl
is_null-copy (array b xs) = refl
is_null-copy (object b fs) = refl

pub same-copy : (v w : Value) → same (deep_freeze_copy v) (deep_freeze_copy w) ≡ same v w
unfolding deep_freeze_copy
same-copy (text s) w = is_string-copy w s
same-copy (number n) w = is_number-copy w n
same-copy null w = is_null-copy w
same-copy undefined undefined = refl
same-copy undefined null = refl
same-copy undefined (boolean true) = refl
same-copy undefined (boolean false) = refl
same-copy undefined (number n) = refl
same-copy undefined (other_number b s) = refl
same-copy undefined (text s) = refl
same-copy undefined (array b xs) = refl
same-copy undefined (object b fs) = refl
same-copy (boolean true) undefined = refl
same-copy (boolean true) null = refl
same-copy (boolean true) (boolean true) = refl
same-copy (boolean true) (boolean false) = refl
same-copy (boolean true) (number n) = refl
same-copy (boolean true) (other_number b s) = refl
same-copy (boolean true) (text s) = refl
same-copy (boolean true) (array b xs) = refl
same-copy (boolean true) (object b fs) = refl
same-copy (boolean false) undefined = refl
same-copy (boolean false) null = refl
same-copy (boolean false) (boolean true) = refl
same-copy (boolean false) (boolean false) = refl
same-copy (boolean false) (number n) = refl
same-copy (boolean false) (other_number b s) = refl
same-copy (boolean false) (text s) = refl
same-copy (boolean false) (array b xs) = refl
same-copy (boolean false) (object b fs) = refl
same-copy (other_number b s) w = refl
same-copy (array b xs) w = refl
same-copy (object b fs) w = refl

item_texts-copy : (xs : Items) (s : String) → item_texts (copy_items xs) s ≡ item_texts xs s
unfolding copy_items deep_freeze_copy
item_texts-copy nil s = refl
item_texts-copy (cons v vs) s = ap₂ (λ a b. a || b) (is_string-copy v s) (item_texts-copy vs s)

distinct_texts-copy :
    (test : String → Bool) (xs : Items)
    → are_distinct_texts test (copy_items xs) ≡ are_distinct_texts test xs
unfolding copy_items copy_value are_distinct_texts
distinct_texts-copy test nil = refl
distinct_texts-copy test (cons (text s) vs) =
    ap₂ (λ a b. (test s && not a) && b) (item_texts-copy vs s) (distinct_texts-copy test vs)
distinct_texts-copy test (cons undefined vs) = refl
distinct_texts-copy test (cons null vs) = refl
distinct_texts-copy test (cons (boolean true) vs) = refl
distinct_texts-copy test (cons (boolean false) vs) = refl
distinct_texts-copy test (cons (number n) vs) = refl
distinct_texts-copy test (cons (other_number b s) vs) = refl
distinct_texts-copy test (cons (array b xs) vs) = refl
distinct_texts-copy test (cons (object b fs) vs) = refl

pub lists_distinct-copy :
    (test : String → Bool) (v : Value)
    → lists_distinct test (deep_freeze_copy v) ≡ lists_distinct test v
unfolding lists_distinct deep_freeze_copy
lists_distinct-copy test (array b xs) = distinct_texts-copy test xs
lists_distinct-copy test undefined = refl
lists_distinct-copy test null = refl
lists_distinct-copy test (boolean true) = refl
lists_distinct-copy test (boolean false) = refl
lists_distinct-copy test (number n) = refl
lists_distinct-copy test (other_number b s) = refl
lists_distinct-copy test (text s) = refl
lists_distinct-copy test (object b fs) = refl

pub is_empty_array-copy : (v : Value) → is_empty_array (deep_freeze_copy v) ≡ is_empty_array v
unfolding deep_freeze_copy
is_empty_array-copy undefined = refl
is_empty_array-copy null = refl
is_empty_array-copy (boolean true) = refl
is_empty_array-copy (boolean false) = refl
is_empty_array-copy (number n) = refl
is_empty_array-copy (other_number b s) = refl
is_empty_array-copy (text s) = refl
is_empty_array-copy (object b fs) = refl
is_empty_array-copy (array b nil) = refl
is_empty_array-copy (array b (cons v vs)) = refl
