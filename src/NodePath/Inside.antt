-- ===== src/NodePath/Inside.antt =====
-- Relative paths and the directory that they start from.
use surgical_dev_ops.Base.{
  ◌≡◌, ◌≢◌, refl, sym, ℕ, Bool, true, false, List, [], ◌∷◌, ◌++◌, ◌||◌, Bool-cases, ==_iff, inl,
  inr, ap₂, and-split,
}
use surgical_dev_ops.Base.Text.{starts_with, same_codes}
use surgical_dev_ops.NodePath.{
  Segments, relative_segments, segments, relative, join, is_empty, is_dots, ups,
}

pub same_codes-eq : (s t : List ℕ) → same_codes s t ≡ true → s ≡ t
same_codes-eq [] [] h = refl
same_codes-eq (a ∷ s) (b ∷ t) h =
    let (p, q) = and-split _ _ h in ap₂ (λ x y. x ∷ y) ((==_iff a b).0 p) (same_codes-eq s t q)
same_codes-eq _ _ h = cc

-- A path begins by a step up: it is `..` or starts with `../`.
abbrev pub starts_up : List ℕ → Bool
starts_up r = is_dots r || starts_with (b'.' ∷ b'.' ∷ b'/' ∷ []) r

join_ups : (ps : Segments) → starts_up (join ((b'.' ∷ b'.' ∷ []) ∷ ps)) ≡ true
unfolding join
join_ups [] = refl
join_ups (p ∷ ps) = refl

not-starts_up : (ps : Segments) → starts_up (join ((b'.' ∷ b'.' ∷ []) ∷ ps)) ≡ false → ⊥
not-starts_up ps h = cc (join_ups ps)

join-ne-nil : (ts : Segments) → is_empty (join ts) ≡ false → ts ≢ []
unfolding join
join-ne-nil [] h e = cc
join-ne-nil (t ∷ ts) h e = cc

relative_inside :
    (fs ts : Segments)
    → is_empty (join (relative_segments fs ts)) ≡ false
    → starts_up (join (relative_segments fs ts)) ≡ false
    → (rest : Segments) × (ts ≡ fs ++ rest) × (rest ≢ [])
unfolding relative_segments
relative_inside [] ts h k = (ts, refl, λ e. join-ne-nil ts h e)
relative_inside (f ∷ fs) [] h k = absurd (not-starts_up (ups fs) k)
relative_inside (f ∷ fs) (t ∷ ts) h k = elim (Bool-cases (same_codes f t)) [
  | inl e ↦
      let (rest, p, q) = relative_inside fs ts (rw e at h) (rw e at k) in
      (rest, ap₂ (λ x y. x ∷ y) (sym (same_codes-eq f t e)) p, q)
  | inr e ↦ absurd (not-starts_up (ups fs ++ t ∷ ts) (rw e at k))
]

-- When the relative path from a directory to a target is not empty and does not start by a step up,
-- the target's segments are those of the directory followed by at least one more.
pub relative-inside :
    (from to : List ℕ)
    → is_empty (relative from to) ≡ false
    → starts_up (relative from to) ≡ false
    → (rest : Segments) × (segments to ≡ segments from ++ rest) × (rest ≢ [])
unfolding relative
relative-inside from to h k = relative_inside (segments from) (segments to) h k
