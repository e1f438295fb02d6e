-- ===== src/Registry/Tables.antt =====
-- Maps that are read after they were written.
use surgical_dev_ops.Base.{
  some-injective, ◌≡◌, refl, true, false, [], ◌∷◌, some, if◌then◌else◌, Bool-cases, inl, inr,
  eq_iff, ap, sym, ==_iff, subst, ◌∙◌,
}
use surgical_dev_ops.Json.{
  Value, undefined, null, boolean, number, other_number, text, array, object, same,
}
use surgical_dev_ops.Registry.{Entry, Table, lookup, set}

-- Keys that are the same are equal.
pub same-eq : (v w : Value) → same v w ≡ true → v ≡ w
same-eq (text s) (text t) h = ap text (sym ((eq_iff t s).0 h))
same-eq (number n) (number m) h = ap number (sym ((==_iff m n).0 h))
same-eq null null h = refl
same-eq undefined undefined h = refl
same-eq (boolean true) (boolean true) h = refl
same-eq (boolean false) (boolean false) h = refl
same-eq (text s) _ h = cc
same-eq (number n) _ h = cc
same-eq null _ h = cc
same-eq undefined _ h = cc
same-eq (boolean true) _ h = cc
same-eq (boolean false) _ h = cc
same-eq (other_number b s) w h = cc
same-eq (array b xs) w h = cc
same-eq (object b fs) w h = cc

-- Of two keys that are not the same, at most one is the same as a third.
same-apart : (i j k : Value) → same i j ≡ false → same i k ≡ true → same j k ≡ false
same-apart i j k apart h = elim (Bool-cases (same j k)) [
  | inr e ↦ e
  | inl e ↦
      let same_key : i ≡ j = same-eq i k h ∙ sym (same-eq j k e) in
      let same_self : same i j ≡ true = subst (λ x. same i x ≡ true) (sym (same-eq j k e)) h in cc
]

-- The map at a key, after an entry was put under a key.
pub lookup-set :
    (k j : Value) (e : Entry) (t : Table)
    → lookup k (set j e t) ≡ (if same j k then some e else lookup k t)
unfolding lookup set
lookup-set k j e [] = refl
lookup-set k j e ((i, d) ∷ t) = elim (Bool-cases (same i j)) [
  | inl h ↦ rw h elim (Bool-cases (same j k)) [
    | inl g ↦ rw (same-eq i j h) rw g refl
    | inr g ↦ rw (same-eq i j h) rw g refl
  ]
  | inr h ↦ rw h elim (Bool-cases (same i k)) [
    | inl g ↦ rw g rw (same-apart i j k h g) refl
    | inr g ↦ rw g (lookup-set k j e t)
  ]
]

pub lookup-set_here :
    (k : Value) (e : Entry) (t : Table) → same k k ≡ true → lookup k (set k e t) ≡ some e
lookup-set_here k e t h = lookup-set k k e t ∙ rw h refl

pub lookup-set_other :
    (k j : Value) (e : Entry) (t : Table) → same j k ≡ false → lookup k (set j e t) ≡ lookup k t
lookup-set_other k j e t h = lookup-set k j e t ∙ rw h refl

-- What the map holds after an entry was put in: that entry under its key, or what it held before.
pub lookup-set_cases {ρ} :
    {P : Type ρ} (k j : Value) (e d : Entry) (t : Table)
    → lookup k (set j e t) ≡ some d
    → (same j k ≡ true → e ≡ d → P)
    → (same j k ≡ false → lookup k t ≡ some d → P)
    → P
lookup-set_cases k j e d t h here there = elim (Bool-cases (same j k)) [
  | inl g ↦ here g (some-injective (sym (rw g refl) ∙ sym (lookup-set k j e t) ∙ h))
  | inr g ↦ there g (sym (lookup-set_other k j e t g) ∙ h)
]
