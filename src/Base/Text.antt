-- ===== src/Base/Text.antt =====
-- The texts of the source as lists of code points, and the regular expressions that it uses.
use Prim.Native.Nat.{ℕ, ◌-◌, ◌+◌}
use Prim.Native.Char.{code}
use Prim.Native.String.{String}
use mathlib.Core.Bool.{Bool, true, false, ◌&&◌, ◌||◌}
use mathlib.Core.List.{List, [], ◌∷◌, ◌++◌}
use text.Mathlib.Text.{◌==◌ as str_eq}
use surgical_dev_ops.Base.Tests.{leb, ◌==◌, if◌then◌else◌}
use surgical_dev_ops.Base.Lists.{length, any, all}

abbrev pub codes : String → List ℕ
codes String.[] = []
codes (String.◌∷◌ c s) = code c ∷ codes s

abbrev pub between : ℕ → ℕ → ℕ → Bool
between lo hi c = leb lo c && leb c hi

abbrev pub is_digit : ℕ → Bool
is_digit c = between b'0' b'9' c

abbrev pub is_lower_hex : ℕ → Bool
is_lower_hex c = is_digit c || between b'a' b'f' c

abbrev pub is_alphanumeric : ℕ → Bool
is_alphanumeric c = is_digit c || between b'A' b'Z' c || between b'a' b'z' c

-- `[._:@/-]`
abbrev pub is_mark : ℕ → Bool
is_mark c = any (λ m. m == c) (codes "._:@/-")

-- `/^[a-f0-9]{64}$/`
unfoldable pub is_hash : String → Bool
is_hash s = let cs = codes s in length cs == 64 && all is_lower_hex cs

-- A first character that is alphanumeric, then from `lo` to `hi` of a class.
unfoldable pub has_shape : (ℕ → Bool) → ℕ → ℕ → List ℕ → Bool
has_shape rest lo hi [] = false
has_shape rest lo hi (c ∷ cs) = is_alphanumeric c && between lo hi (length cs) && all rest cs

-- `/^[A-Za-z0-9][A-Za-z0-9._:@/-]{0,255}$/`
unfoldable pub is_text : String → Bool
unfolding has_shape
is_text s = has_shape (λ c. is_alphanumeric c || is_mark c) 0 255 (codes s)

-- `includes` of a list of texts.
abbrev pub includes : List String → String → Bool
includes names s = any (λ n. str_eq n s) names

-- Whether a list begins with another.
abbrev pub starts_with : List ℕ → List ℕ → Bool
starts_with [] s = true
starts_with (p ∷ ps) [] = false
starts_with (p ∷ ps) (c ∷ cs) = p == c && starts_with ps cs

-- Whether a list holds another as a run.
abbrev pub contains : List ℕ → List ℕ → Bool
contains p [] = starts_with p []
contains p (c ∷ cs) = starts_with p (c ∷ cs) || contains p cs

-- The characters that `trim` removes.
unfoldable pub is_space : ℕ → Bool
is_space c =
    between 9 13 c
    || between 8192 8202 c
    || any (λ m. m == c) (32 ∷ 160 ∷ 5760 ∷ 8232 ∷ 8233 ∷ 8239 ∷ 8287 ∷ 12288 ∷ 65279 ∷ [])

abbrev pub trim_start : List ℕ → List ℕ
trim_start [] = []
trim_start (c ∷ cs) = if is_space c then trim_start cs else c ∷ cs

abbrev keep_unless_space : ℕ → List ℕ → List ℕ
keep_unless_space c [] = if is_space c then [] else c ∷ []
keep_unless_space c (d ∷ ds) = c ∷ d ∷ ds

abbrev pub trim_end : List ℕ → List ℕ
trim_end [] = []
trim_end (c ∷ cs) = keep_unless_space c (trim_end cs)

unfoldable pub trim : List ℕ → List ℕ
trim cs = trim_end (trim_start cs)

-- `!value.trim()`
unfoldable pub is_blank : List ℕ → Bool
is_blank cs = all is_space cs

-- `toUpperCase` of a character, where the result is in ASCII or Latin-1; other characters, whose
-- upper case lies outside both, stand for themselves.
unfoldable pub upper_char : ℕ → List ℕ
upper_char c =
    if between b'a' b'z' c || between 224 246 c || between 248 254 c
    then (c - 32) ∷ []
    else if c == 181
    then 924 ∷ []
    else if c == 223
    then b'S' ∷ b'S' ∷ []
    else if c == 305
    then b'I' ∷ []
    else if c == 383
    then b'S' ∷ []
    else if c == 64256
    then b'F' ∷ b'F' ∷ []
    else if c == 64257
    then b'F' ∷ b'I' ∷ []
    else if c == 64258
    then b'F' ∷ b'L' ∷ []
    else if c == 64259
    then b'F' ∷ b'F' ∷ b'I' ∷ []
    else if c == 64260
    then b'F' ∷ b'F' ∷ b'L' ∷ []
    else if c == 64261 || c == 64262
    then b'S' ∷ b'T' ∷ []
    else c ∷ []

unfoldable pub upper : List ℕ → List ℕ
upper [] = []
upper (c ∷ cs) = upper_char c ++ upper cs

abbrev pub same_codes : List ℕ → List ℕ → Bool
same_codes [] [] = true
same_codes (a ∷ s) (b ∷ t) = a == b && same_codes s t
same_codes _ _ = false

-- `value.length`: a character outside the basic plane counts twice.
unfoldable pub units : List ℕ → ℕ
units [] = 0
units (c ∷ cs) = (if leb 65536 c then 2 else 1) + units cs
