-- ===== src/Json/Canonical.antt =====
-- `canonicalJson`: the text that the fingerprints are taken of, with the keys of objects sorted.
pub mod Frozen
use Prim.Native.Char.{Char, code}
use Prim.Native.String.{compare, ◌++◌}
use Prim.Native.Nat.{Ordering}
use surgical_dev_ops.Base.{
  ℕ, zero, suc, ◌/◌, ◌%◌, String, true, false, List, [], ◌∷◌, ltb, ◌==◌, if◌then◌else◌, ◌&&◌,
  str_eq,
}
use surgical_dev_ops.Json.{
  Value, Items, Fields, undefined, null, boolean, number, other_number, text, array, object, nil,
  cons, end, field,
}

digit : ℕ → String
digit n =
    if n == 0
    then "0"
    else if n == 1
    then "1"
    else if n == 2
    then "2"
    else if n == 3
    then "3"
    else if n == 4
    then "4"
    else if n == 5
    then "5"
    else if n == 6
    then "6"
    else if n == 7
    then "7"
    else if n == 8
    then "8"
    else if n == 9
    then "9"
    else if n == 10
    then "a"
    else if n == 11
    then "b"
    else if n == 12
    then "c"
    else if n == 13
    then "d"
    else if n == 14
    then "e"
    else "f"

-- The digits of `n`, of which there are at most `n + 1`.
decimal_from : ℕ → ℕ → String → String
decimal_from zero n acc = acc
decimal_from (suc fuel) n acc =
    let more = decimal_from fuel (n / 10) (digit (n % 10) ++ acc) in
    if ltb n 10 then digit n ++ acc else more

unfoldable pub decimal : ℕ → String
unfolding decimal_from digit
decimal n = decimal_from (suc n) n ""

-- One character of `JSON.stringify` of a text.
-- The digits without the zeros at the end.
digits_up_to_zeros : String → String
digits_up_to_zeros String.[] = ""
digits_up_to_zeros (String.◌∷◌ c s) =
    let rest = digits_up_to_zeros s in
    if code c == 48 && str_eq rest "" then "" else String.◌∷◌ c rest

fraction : String → String
fraction digits = if str_eq digits "" then "" else "." ++ digits

count_chars : String → ℕ
count_chars String.[] = 0
count_chars (String.◌∷◌ c s) = suc (count_chars s)

-- A number from 10 ^ 21 on, as `1.5e+21`.
scientific : String → String
unfolding digits_up_to_zeros fraction count_chars
scientific String.[] = ""
scientific (String.◌∷◌ c s) =
    String.◌∷◌ c String.[] ++ fraction (digits_up_to_zeros s) ++ "e+" ++ decimal (count_chars s)

-- The text of a number. The source prints the fewest digits that read back as the number; here all are
-- printed, which differs above 2 ^ 53 only.
unfoldable pub number_text : ℕ → String
unfolding scientific decimal
number_text n = if ltb n 1000000000000000000000 then decimal n else scientific (decimal n)

quote_char : Char → String
quote_char c =
    if code c == 34
    then "\\\""
    else if code c == 92
    then "\\\\"
    else if code c == 8
    then "\\b"
    else if code c == 9
    then "\\t"
    else if code c == 10
    then "\\n"
    else if code c == 12
    then "\\f"
    else if code c == 13
    then "\\r"
    else if ltb (code c) 32
    then "\\u00" ++ digit (code c / 16) ++ digit (code c % 16)
    else String.◌∷◌ c String.[]

quote_chars : String → String
quote_chars String.[] = "\""
quote_chars (String.◌∷◌ c s) = quote_char c ++ quote_chars s

unfoldable pub quote : String → String
unfolding quote_chars quote_char digit
quote s = "\"" ++ quote_chars s

-- Insertion of a rendered field by its key.
abbrev insert : String → String → List (String × String) → List (String × String)
insert k v [] = (k, v) ∷ []
insert k v ((j, w) ∷ m) = elim (compare j k) [
  | Ordering.gt ↦ (k, v) ∷ (j, w) ∷ m
  | _ ↦ (j, w) ∷ insert k v m
]

join_fields : List (String × String) → String
join_fields [] = ""
join_fields ((k, v) ∷ []) = quote k ++ ":" ++ v
join_fields ((k, v) ∷ m) = quote k ++ ":" ++ v ++ "," ++ join_fields m

-- `join` prints nothing for an element that is undefined; `map` has made a text of null.
joined_item : Value → String → String
joined_item undefined s = ""
joined_item v s = s

mutual
  unfolding joined_item

  canonical_value : Value → String
  canonical_value undefined = "undefined"
  canonical_value null = "null"
  canonical_value (boolean true) = "true"
  canonical_value (boolean false) = "false"
  canonical_value (number n) = number_text n
  canonical_value (other_number true s) = s
  canonical_value (other_number false s) = "null"
  canonical_value (text s) = quote s
  canonical_value (array _ xs) = "[" ++ canonical_items xs ++ "]"
  canonical_value (object _ fs) = "{" ++ join_fields (sorted_fields fs) ++ "}"

  canonical_items : Items → String
  canonical_items nil = ""
  canonical_items (cons v nil) = joined_item v (canonical_value v)
  canonical_items (cons v vs) = joined_item v (canonical_value v) ++ "," ++ canonical_items vs

  sorted_fields : Fields → List (String × String)
  sorted_fields end = []
  sorted_fields (field k v fs) = insert k (canonical_value v) (sorted_fields fs)

unfoldable pub canonical_json : Value → String
unfolding canonical_value canonical_items joined_item sorted_fields join_fields number_text quote
canonical_json v = canonical_value v
