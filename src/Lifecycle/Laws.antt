-- ===== src/Lifecycle/Laws.antt =====
-- Which transitions and which boundaries an operation's lifecycle has.
use surgical_dev_ops.Base.Outcome.{ok, ◌>>=◌, chains, bind-ok, require-ok, reject-ok, ok-injective}
use surgical_dev_ops.Base.{
  ◌≡◌, ◌↔◌, ◌⊎◌, inl, inr, refl, sym, ap, subst, ℕ, String, true, false, List, [], ◌∷◌, ◌||◌,
  Option, none, some, Bool-cases, eq_iff, eq_refl, str_eq, arith,
}
use surgical_dev_ops.Base.Text.{codes, trim, upper, is_blank, same_codes, includes}
use surgical_dev_ops.NodePath.Inside.{same_codes-eq}
use surgical_dev_ops.Json.{Value, text, get}
use surgical_dev_ops.Lifecycle.{
  canonical_symbol, find_symbol, symbol_of, spelled, is_filled_text, lifecycle_states,
  transition_types, is_reference, terminal_lifecycle_states, transition_table, transition,
  resolve_lifecycle_transition,
}

-- A value is a text that spells a symbol, up to case and the white space around it.
abbrev pub Spells : Value → String → Type 0
Spells v s = (is_filled_text v ≡ true) × (spelled v s ≡ true)

find_symbol-found :
    (allowed : List String) (x : List ℕ) (s : String)
    → find_symbol allowed x ≡ some s
    → (same_codes x (codes s) ≡ true) × (includes allowed s ≡ true)
unfolding find_symbol
find_symbol-found [] x s h = cc
find_symbol-found (a ∷ allowed) x s h = elim (Bool-cases (same_codes x (codes a))) [
  | inl e ↦
      let same : some a ≡ some s = rw e at h in
      let is : a ≡ s = cc in
      (
        subst (λ t. same_codes x (codes t) ≡ true) is e,
        subst (λ t. (str_eq a t || includes allowed t) ≡ true) is (rw eq_refl refl),
      )
  | inr e ↦ let (p, q) = find_symbol-found allowed x s (rw e at h) in (p, ground (arith, q))
]

symbol_of-some :
    (o : Option String) (message : String) {s : String} → symbol_of o message ≡ ok s → o ≡ some s
unfolding symbol_of
symbol_of-some (some a) message h = ap some (ok-injective h)
symbol_of-some none message h = cc

pub canonical_symbol-Spells :
    (v : Value) (allowed : List String) (name s : String)
    → canonical_symbol v allowed name ≡ ok s
    → Spells v s × (includes allowed s ≡ true)
unfolding canonical_symbol is_filled_text spelled
canonical_symbol-Spells (text t) allowed name s h = reject-ok _ _ _ h λ filled found.
    let (p, q) = find_symbol-found allowed (upper (trim (codes t))) s (symbol_of-some _ _ found) in
    ((rw filled refl, p), q)
canonical_symbol-Spells _ allowed name s h = cc

Spells-canonical_symbol :
    (v : Value) (allowed : List String) (name s : String)
    → find_symbol allowed (codes s) ≡ some s
    → Spells v s
    → canonical_symbol v allowed name ≡ ok s
unfolding canonical_symbol is_filled_text spelled chains symbol_of
Spells-canonical_symbol (text t) allowed name s found (filled, same) =
    let filled' : is_blank (codes t) ≡ false = ground (arith, filled) in
    rw (filled', same_codes-eq (upper (trim (codes t))) (codes s) same, found) refl
Spells-canonical_symbol _ allowed name s found h = cc (h.0)

-- What a resolved transition is: it starts from a text that spells PENDING, and its kind decides
-- where it ends.
abbrev pub Resolves : Value → Value → Type 0
Resolves input r =
    (is_reference input ≡ true)
    × Spells (get input "currentStatus") "PENDING"
    × ((Spells (get input "transitionType") "COMPLETE"
          × (r ≡ transition "PENDING" "COMPLETE" "COMPLETED"))
        ⊎ (Spells (get input "transitionType") "FAIL" × (r ≡ transition "PENDING" "FAIL" "FAILED")))

pending_only :
    (s : String)
    → includes lifecycle_states s ≡ true
    → includes terminal_lifecycle_states s ≡ false
    → s ≡ "PENDING"
pending_only s h k =
    let is : str_eq "PENDING" s ≡ true = ground (arith, h, k) in sym ((eq_iff _ _).0 is)

two_types : (s : String) → includes transition_types s ≡ true → (s ≡ "COMPLETE") ⊎ (s ≡ "FAIL")
two_types s h = elim (Bool-cases (str_eq "COMPLETE" s)) [
  | inl e ↦ inl (sym ((eq_iff _ _).0 e))
  | inr e ↦ let is : str_eq "FAIL" s ≡ true = ground (arith, h, e) in inr (sym ((eq_iff _ _).0 is))
]

resolved :
    (input r : Value) (type : String)
    → (type ≡ "COMPLETE") ⊎ (type ≡ "FAIL")
    → Spells (get input "transitionType") type
    → (symbol_of (transition_table "PENDING" type) "Transition is forbidden." >>= λ to.
        ok (transition "PENDING" type to))
      ≡ ok r
    → (Spells (get input "transitionType") "COMPLETE"
        × (r ≡ transition "PENDING" "COMPLETE" "COMPLETED"))
      ⊎ (Spells (get input "transitionType") "FAIL" × (r ≡ transition "PENDING" "FAIL" "FAILED"))
unfolding symbol_of chains
resolved input r type (inl e) spells h = inl (rw e at spells, sym (ok-injective (rw e at h)))
resolved input r type (inr e) spells h = inr (rw e at spells, sym (ok-injective (rw e at h)))

resolve-forward : (input r : Value) → resolve_lifecycle_transition input ≡ ok r → Resolves input r
unfolding resolve_lifecycle_transition
resolve-forward input r h = require-ok _ _ _ h λ reference h1. bind-ok _ _ h1 λ from is_from h2.
    bind-ok _ _ h2 λ type is_type h3. reject-ok _ _ _ h3 λ live h4.
      let (spells, known) = canonical_symbol-Spells _ _ _ _ is_from in
      let (spells_type, known_type) = canonical_symbol-Spells _ _ _ _ is_type in
      let pending = pending_only from known live in
      (
        reference,
        subst (λ s. Spells (get input "currentStatus") s) pending spells,
        resolved input r type (two_types type known_type) spells_type (
            subst
              (λ s.
                (symbol_of (transition_table s type) "Transition is forbidden." >>= λ to.
                ok (transition s type to))
                ≡ ok r)
              pending h4),
      )

resolve-backward : (input r : Value) → Resolves input r → resolve_lifecycle_transition input ≡ ok r
unfolding resolve_lifecycle_transition chains symbol_of find_symbol
resolve-backward input r (reference, from, inl (type, e)) =
    rw
      (
        reference,
        Spells-canonical_symbol _ lifecycle_states "lifecycle state" "PENDING" refl from,
        Spells-canonical_symbol _ transition_types "lifecycle transition" "COMPLETE" refl type,
        e,
      )
      refl
resolve-backward input r (reference, from, inr (type, e)) =
    rw
      (
        reference,
        Spells-canonical_symbol _ lifecycle_states "lifecycle state" "PENDING" refl from,
        Spells-canonical_symbol _ transition_types "lifecycle transition" "FAIL" refl type,
        e,
      )
      refl

-- A lifecycle transition is resolved exactly when the current status spells PENDING and the type
-- spells COMPLETE or FAIL, and then it leads to COMPLETED or to FAILED; from every other status,
-- the terminal ones included, there is none.
pub resolve_lifecycle_transition_iff :
    (input r : Value) → (resolve_lifecycle_transition input ≡ ok r) ↔ Resolves input r
resolve_lifecycle_transition_iff input r = (resolve-forward input r, resolve-backward input r)
