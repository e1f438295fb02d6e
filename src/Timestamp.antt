-- ===== src/Timestamp.antt =====
-- `Date.parse` and `toISOString` as the core uses them: a canonical timestamp is a text that
-- `toISOString` prints for the moment that it names. A moment is given in milliseconds from the start
-- of the year 0, so that orders and differences are those of `Date.parse`. Years outside 0 to 9999,
-- which are printed with a sign and six digits, are not read.
use surgical_dev_ops.Base.Text.{codes, is_digit}
use surgical_dev_ops.Base.{
  ◌≡◌, refl, ℕ, ◌+◌, ◌-◌, ◌*◌, ◌/◌, ◌%◌, String, Bool, true, false, List, [], ◌∷◌, ◌&&◌, ◌||◌, not,
  ltb, leb, ◌==◌, Option, none, some, if◌then◌else◌,
}

-- `n` digits, most significant first, and what follows them.
digits_from : ℕ → List ℕ → ℕ → Option (ℕ × List ℕ)
digits_from ℕ.zero s acc = some (acc, s)
digits_from (ℕ.suc n) [] acc = none
digits_from (ℕ.suc n) (c ∷ s) acc =
    let more = digits_from n s (acc * 10 + (c - b'0')) in if is_digit c then more else none

mark : ℕ → List ℕ → Option (List ℕ)
mark m [] = none
mark m (c ∷ s) = if m == c then some s else none

at_end : List ℕ → Bool
at_end [] = true
at_end _ = false

infixl 5 ◌>>=◌
abbrev ◌>>=◌ : {A B : Type 0} → Option A → (A → Option B) → Option B
none >>= k = none
some a >>= k = k a

is_leap : ℕ → Bool
is_leap y = y % 4 == 0 && (not (y % 100 == 0) || y % 400 == 0)

days_in_month : ℕ → ℕ → ℕ
days_in_month y m =
    if m == 2
    then (if is_leap y then 29 else 28)
    else if m == 4 || m == 6 || m == 9 || m == 11
    then 30
    else 31

-- The days of the months before `m` in the year `y`.
days_before_month : ℕ → ℕ → ℕ
days_before_month y ℕ.zero = 0
days_before_month y (ℕ.suc ℕ.zero) = 0
days_before_month y (ℕ.suc (ℕ.suc m)) = days_before_month y (ℕ.suc m) + days_in_month y (ℕ.suc m)

days_before_year : ℕ → ℕ
days_before_year y = if y == 0 then 0 else 365 * y + (y - 1) / 4 + (y - 1) / 400 + 1 - (y - 1) / 100

milliseconds : ℕ → ℕ → ℕ → ℕ → ℕ → ℕ → ℕ → ℕ
milliseconds y mo d h mi s ms =
    (((days_before_year y + days_before_month y mo + (d - 1)) * 24 + h) * 60 + mi) * 60000
    + s * 1000
    + ms

-- `YYYY-MM-DDTHH:mm:ss.sssZ`, or nothing if the text is not canonical.
unfoldable pub parse_iso : String → Option ℕ
unfolding digits_from mark at_end is_leap days_in_month days_before_month days_before_year
    milliseconds
parse_iso value = do
  (y, r) ← digits_from 4 (codes value) 0
  r ← mark b'-' r
  (mo, r) ← digits_from 2 r 0
  r ← mark b'-' r
  (d, r) ← digits_from 2 r 0
  r ← mark b'T' r
  (h, r) ← digits_from 2 r 0
  r ← mark b':' r
  (mi, r) ← digits_from 2 r 0
  r ← mark b':' r
  (s, r) ← digits_from 2 r 0
  r ← mark b'.' r
  (ms, r) ← digits_from 3 r 0
  r ← mark b'Z' r
  if at_end r
        && leb 1 mo
        && leb mo 12
        && leb 1 d
        && leb d (days_in_month y mo)
        && ltb h 24
        && ltb mi 60
        && ltb s 60
      then some (milliseconds y mo d h mi s ms)
      else none

abbrev pub milliseconds_or_zero : Option ℕ → ℕ
milliseconds_or_zero (some n) = n
milliseconds_or_zero none = 0

-- `Date.parse` of a text that is known to be canonical.
unfoldable pub date_parse : String → ℕ
date_parse value = milliseconds_or_zero (parse_iso value)

abbrev is_some : Option ℕ → Bool
is_some (some n) = true
is_some none = false

-- `Number.isFinite(Date.parse(value)) && new Date(Date.parse(value)).toISOString() === value`.
unfoldable pub is_canonical : String → Bool
is_canonical value = is_some (parse_iso value)

parse_iso_tests :
    (parse_iso "0001-01-01T00:00:00.000Z" ≡ some 31622400000)
    × (parse_iso "2024-02-29T23:59:59.999Z" ≡ some 63876470399999)
    × (parse_iso "2023-02-29T00:00:00.000Z" ≡ none)
    × (parse_iso "2024-01-01T24:00:00.000Z" ≡ none)
    × (parse_iso "2024-01-01" ≡ none)
unfolding parse_iso
parse_iso_tests = (refl, refl, refl, refl, refl)
