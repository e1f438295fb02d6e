-- ===== src/NodePath.antt =====
-- The functions of `node:path` that the core uses, in their POSIX form, on lists of code points.
-- `relative` is given for absolute paths, where it reads nothing of the process.
pub mod Inside
use surgical_dev_ops.Base.{
  ℕ, Bool, true, false, List, [], ◌∷◌, ◌++◌, ◌&&◌, ◌||◌, not, ◌==◌, if◌then◌else◌,
}
use surgical_dev_ops.Base.Text.{same_codes}
use mathlib.Core.List.{reverse}

abbrev pub Segments : Type 0
Segments = List (List ℕ)

abbrev prepend : ℕ → Segments → Segments
prepend c [] = (c ∷ []) ∷ []
prepend c (p ∷ ps) = (c ∷ p) ∷ ps

-- `value.split('/')`
unfoldable pub split : List ℕ → Segments
split [] = [] ∷ []
split (c ∷ s) = let rest = split s in if c == b'/' then [] ∷ rest else prepend c rest

unfoldable pub join : Segments → List ℕ
join [] = []
join (p ∷ []) = p
join (p ∷ ps) = p ++ b'/' ∷ join ps

abbrev pub is_dot : List ℕ → Bool
is_dot s = same_codes s (b'.' ∷ [])

abbrev pub is_dots : List ℕ → Bool
is_dots s = same_codes s (b'.' ∷ b'.' ∷ [])

abbrev pub is_empty : List ℕ → Bool
is_empty [] = true
is_empty _ = false

-- One step up: what can be left is left, and above the root of a relative path `..` is kept.
abbrev up : Bool → Segments → Segments
up above [] = if above then (b'.' ∷ b'.' ∷ []) ∷ [] else []
up above (p ∷ stack) = if is_dots p then (b'.' ∷ b'.' ∷ []) ∷ p ∷ stack else stack

-- The loop of `normalizeString`, with the last segment at the head of the stack.
unfoldable pub resolve : Bool → Segments → Segments → Segments
resolve above stack [] = reverse stack
resolve above stack (p ∷ ps) =
    resolve above
      (if is_empty p || is_dot p then stack else if is_dots p then up above stack else p ∷ stack) ps

abbrev pub is_absolute : List ℕ → Bool
is_absolute [] = false
is_absolute (c ∷ s) = c == b'/'

abbrev pub ends_with_separator : List ℕ → Bool
ends_with_separator [] = false
ends_with_separator (c ∷ []) = c == b'/'
ends_with_separator (c ∷ s) = ends_with_separator s

unfoldable pub normalize : List ℕ → List ℕ
unfolding split join resolve
normalize s =
    let body = join (resolve (not (is_absolute s)) [] (split s)) in
    if is_empty s
    then b'.' ∷ []
    else if is_empty body
    then (if is_absolute s
        then b'/' ∷ []
        else if ends_with_separator s
        then b'.' ∷ b'/' ∷ []
        else b'.' ∷ [])
    else (if is_absolute s then b'/' ∷ [] else [])
      ++ body
      ++ (if ends_with_separator s then b'/' ∷ [] else [])

-- The segments of an absolute path.
unfoldable pub segments : List ℕ → Segments
unfolding split resolve
segments s = resolve false [] (split s)

abbrev ups : Segments → Segments
ups [] = []
ups (p ∷ ps) = (b'.' ∷ b'.' ∷ []) ∷ ups ps

-- What is left of the two paths behind their common beginning: one step up for each segment of the
-- first, then the segments of the second.
unfoldable pub relative_segments : Segments → Segments → Segments
relative_segments [] ts = ts
relative_segments (f ∷ fs) [] = ups (f ∷ fs)
relative_segments (f ∷ fs) (t ∷ ts) =
    let rest = relative_segments fs ts in if same_codes f t then rest else ups (f ∷ fs) ++ t ∷ ts

unfoldable pub relative : List ℕ → List ℕ → List ℕ
unfolding join segments relative_segments
relative from to = join (relative_segments (segments from) (segments to))
