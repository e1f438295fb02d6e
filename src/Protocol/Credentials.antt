-- ===== src/Protocol/Credentials.antt =====
-- `assertCredentialFree` of accelerator/core/control-plane-protocol.js: no key of a message, at any
-- depth, names a credential, and no text in it carries one.
use surgical_dev_ops.Base.Text.{codes, between, is_digit, starts_with, contains, is_space}
use surgical_dev_ops.Base.Outcome.{Outcome, require}
use surgical_dev_ops.Base.{
  ℕ, ◌+◌, String, Bool, true, false, List, [], ◌∷◌, ◌&&◌, ◌||◌, not, if◌then◌else◌, any, ltb, ◌==◌,
  drop, length,
}
use surgical_dev_ops.Json.{Value, Items, Fields, text, array, object, nil, cons, end, field}

abbrev lower : List ℕ → List ℕ
lower [] = []
lower (c ∷ cs) = (if between b'A' b'Z' c then c + 32 else c) ∷ lower cs

-- What `.` matches: one unit that ends no line.
abbrev is_dot : ℕ → Bool
is_dot c = ltb c 65536 && not (c == 10 || c == 13 || c == 8232 || c == 8233)

-- After the first part: the second part at once, or behind one character.
abbrev after_gap : List ℕ → List ℕ → Bool
after_gap last [] = starts_with last []
after_gap last (c ∷ cs) = starts_with last (c ∷ cs) || (is_dot c && starts_with last cs)

-- `/first.?last/`
abbrev contains_gapped : List ℕ → List ℕ → List ℕ → Bool
contains_gapped first last [] = false
contains_gapped first last (c ∷ cs) =
    (starts_with first (c ∷ cs) && after_gap last (drop (length first) (c ∷ cs)))
    || contains_gapped first last cs

-- What stands at the start, up to an underscore or the end.
abbrev starts_segment : List ℕ → List ℕ → Bool
starts_segment [] [] = true
starts_segment [] (c ∷ cs) = c == b'_'
starts_segment (p ∷ ps) [] = false
starts_segment (p ∷ ps) (c ∷ cs) = p == c && starts_segment ps cs

-- `/(^|_)name($|_)/` behind the first position.
abbrev later_segment : List ℕ → List ℕ → Bool
later_segment name [] = false
later_segment name (c ∷ cs) = (c == b'_' && starts_segment name cs) || later_segment name cs

abbrev has_segment : List ℕ → List ℕ → Bool
has_segment name cs = starts_segment name cs || later_segment name cs

abbrev names_credential : List ℕ → Bool
names_credential cs =
    any (λ word. contains (codes word) cs)
      ("authorization" ∷ "bearer" ∷ "credential" ∷ "password" ∷ "passwd" ∷ "secret" ∷ "token" ∷ [])
    || contains_gapped (codes "private") (codes "key") cs
    || contains_gapped (codes "provider") (codes "token") cs
    || contains_gapped (codes "raw") (codes "request") cs
    || contains_gapped (codes "http") (codes "request") cs
    || has_segment (codes "env") cs
    || has_segment (codes "environment") cs

-- `CREDENTIAL_FIELD.test(key)`.
unfoldable pub is_credential_field : String → Bool
is_credential_field key = names_credential (lower (codes key))

abbrev is_word : ℕ → Bool
is_word c = is_digit c || between b'A' b'Z' c || between b'a' b'z' c || c == b'_'

abbrev starts_space : List ℕ → Bool
starts_space [] = false
starts_space (c ∷ cs) = is_space c

-- `/\bBearer\s/i`, with whether a character of a word has just been passed.
abbrev has_bearer : Bool → List ℕ → Bool
has_bearer inside [] = false
has_bearer inside (c ∷ cs) =
    (not inside && starts_with (codes "bearer") (lower (c ∷ cs)) && starts_space (drop 6 (c ∷ cs)))
    || has_bearer (is_word c) cs

-- `/^[A-Z ]*PRIVATE KEY-----/`
abbrev ends_armour : List ℕ → Bool
ends_armour [] = false
ends_armour (c ∷ cs) =
    starts_with (codes "PRIVATE KEY-----") (c ∷ cs)
    || ((between b'A' b'Z' c || c == 32) && ends_armour cs)

-- `/-----BEGIN [A-Z ]*PRIVATE KEY-----/`
abbrev has_armour : List ℕ → Bool
has_armour [] = false
has_armour (c ∷ cs) =
    (starts_with (codes "-----BEGIN ") (c ∷ cs) && ends_armour (drop 11 (c ∷ cs))) || has_armour cs

unfoldable pub carries_credential : String → Bool
unfolding is_space
carries_credential s = has_bearer false (codes s) || has_armour (codes s)

unfoldable mutual
  unfolding is_credential_field carries_credential

  pub is_credential_free : Value → Bool
  is_credential_free (text s) = not (carries_credential s)
  is_credential_free (array _ xs) = free_items xs
  is_credential_free (object _ fs) = free_fields fs
  is_credential_free _ = true

  pub free_items : Items → Bool
  free_items nil = true
  free_items (cons v vs) = is_credential_free v && free_items vs

  pub free_fields : Fields → Bool
  free_fields end = true
  free_fields (field k v fs) = not (is_credential_field k) && is_credential_free v && free_fields fs

unfoldable pub assert_credential_free : Value → Outcome (Unit {0})
unfolding is_credential_free free_items free_fields
assert_credential_free value =
    require (is_credential_free value) "protocol_failure CREDENTIAL_MATERIAL_REJECTED"
