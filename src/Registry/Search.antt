-- ===== src/Registry/Search.antt =====
-- Searches of the list of submissions: after one was added, and after one was replaced.
use surgical_dev_ops.Base.Outcome.{throw, ◌>>=◌, ◌>>◌, require}
use surgical_dev_ops.Base.{
  some-injective, ◌≡◌, ◌≢◌, ◌∙◌, refl, sym, ap, subst, ℕ, Bool, true, false, List, [], ◌∷◌, Option,
  none, some, if◌then◌else◌, ◌&&◌, All, Bool-cases, inl, inr, ◌==◌, ==_refl, ==_iff, arith,
}
use surgical_dev_ops.Json.{Value, same}
use surgical_dev_ops.Registry.{Entry}
use surgical_dev_ops.Registry.Tables.{same-eq}
use surgical_dev_ops.Registry.Observe.{one_object}
use surgical_dev_ops.Registry.Claim.{unknown_submission}
use surgical_dev_ops.Registry.Spec.{search, search_both, replace, known, Differs, Apart}

-- What is found has the property that all have.
pub search-All {ℓ} :
    (P : Entry → Type ℓ) (name : Entry → Value) (k : Value) (l : List Entry) {d : Entry}
    → All P l
    → search name k l ≡ some d
    → P d
unfolding search
search-All P name k [] h found = cc
search-All P name k (e ∷ l) {d} h found = elim (Bool-cases (same (name e) k)) [
  | inl g ↦ subst P (some-injective (rw g at found)) h.0
  | inr g ↦ search-All P name k l h.1 (rw g at found)
]

-- What is found has the name.
pub search-name :
    (name : Entry → Value) (k : Value) (l : List Entry) {d : Entry}
    → search name k l ≡ some d
    → name d ≡ k
unfolding search
search-name name k [] found = cc
search-name name k (e ∷ l) found = elim (Bool-cases (same (name e) k)) [
  | inl g ↦ sym (ap name (some-injective (rw g at found))) ∙ same-eq (name e) k g
  | inr g ↦ search-name name k l (rw g at found)
]

-- Where nothing is found, nothing has the name.
pub search-none :
    (name : Entry → Value) (k : Value) (l : List Entry)
    → search name k l ≡ none
    → same k k ≡ true
    → All (λ d. k ≢ name d) l
unfolding search
search-none name k [] h self = tt
search-none name k (e ∷ l) h self = elim (Bool-cases (same (name e) k)) [
  | inl g ↦ let clash : some e ≡ none = rw g at h in cc
  | inr g ↦ (
    λ eq. let clash = subst (λ x. same x k ≡ true) eq self in cc,
    search-none name k l (rw g at h) self,
  )
]

pub All-replace {ℓ} :
    (P : Entry → Type ℓ) (e : Entry) (l : List Entry) → All P l → P e → All P (replace e l)
unfolding replace
All-replace P e [] h p = tt
All-replace P e (d ∷ l) h p = elim (Bool-cases (same d.operation_id e.operation_id)) [
  | inl g ↦ rw g (p, h.1)
  | inr g ↦ rw g (h.0, All-replace P e l h.1 p)
]

-- A name that tells apart what differs.
abbrev pub Telling : (Entry → Value) → Type 0
Telling name = (a b : Entry) → Differs a b → name a ≢ name b

-- A replaced submission is found under its names, and every other as before.
pub search-replace :
    (name : Entry → Value) (k : Value) (e d : Entry) (l : List Entry)
    → Telling name
    → Apart l
    → search (λ x. x.operation_id) e.operation_id l ≡ some d
    → name e ≡ name d
    → search name k (replace e l) ≡ (if same (name e) k then some e else search name k l)
unfolding search replace
search-replace name k e d [] tell apart found eq = cc
search-replace name k e d (c ∷ l) tell apart found eq =
    elim (Bool-cases (same c.operation_id e.operation_id)) [
      | inl g ↦
          let same_name : name e ≡ name c = eq ∙ sym (ap name (some-injective (rw g at found))) in
          rw g elim (Bool-cases (same (name e) k)) [
            | inl h ↦ rw h refl
            | inr h ↦ rw h rw (subst (λ x. same x k ≡ false) same_name h) refl
          ]
      | inr g ↦
          let later : search (λ x. x.operation_id) e.operation_id l ≡ some d = rw g at found in
          rw g elim (Bool-cases (same (name c) k)) [
            | inl h ↦ rw h elim (Bool-cases (same (name e) k)) [
              | inl i ↦
                  let clash =
                    search-All (Differs c) (λ x. x.operation_id) e.operation_id l apart.0 later in
                  absurd (tell c d clash (same-eq (name c) k h ∙ sym (same-eq (name e) k i) ∙ eq))
              | inr i ↦ rw i refl
            ]
            | inr h ↦ rw h (search-replace name k e d l tell apart.1 later eq)
          ]
    ]

and_false : (a b : Bool) → b ≡ false → (a && b) ≡ false
and_false a b h = ground arith

different : (a b : ℕ) → a ≢ b → (a == b) ≡ false
different a b ne = elim (Bool-cases (a == b)) [ inl h ↦ absurd (ne ((==_iff a b).0 h)) | inr h ↦ h ]

-- Two objects that differ are not one.
one_object-left :
    (e : Entry) (found : Option Entry)
    → ((d : Entry) → found ≡ some d → Differs e d)
    → one_object (some e) found ≡ throw unknown_submission
unfolding one_object require ◌>>◌ ◌>>=◌
one_object-left e none h = refl
one_object-left e (some d) h = rw (different e.identity d.identity (h d refl).3) refl

one_object-right :
    (e : Entry) (found : Option Entry)
    → ((d : Entry) → found ≡ some d → Differs e d)
    → one_object found (some e) ≡ throw unknown_submission
unfolding one_object require ◌>>◌ ◌>>=◌
one_object-right e none h = refl
one_object-right e (some d) h =
    rw (different d.identity e.identity (λ eq. (h d refl).3 (sym eq))) refl

-- No later submission has the operation of the first, or its key.
search_both-operation :
    (e : Entry) (k : Value) (l : List Entry)
    → All (λ d. Differs e d) l
    → search_both e.operation_id k l ≡ none
unfolding search_both
search_both-operation e k [] apart = refl
search_both-operation e k (d ∷ l) apart = elim (Bool-cases (same d.operation_id e.operation_id)) [
  | inl g ↦ absurd (apart.0.0 (sym (same-eq d.operation_id e.operation_id g)))
  | inr g ↦ rw g (search_both-operation e k l apart.1)
]

search_both-key :
    (e : Entry) (o : Value) (l : List Entry)
    → All (λ d. Differs e d) l
    → search_both o e.idempotency_key l ≡ none
unfolding search_both
search_both-key e o [] apart = refl
search_both-key e o (d ∷ l) apart = elim (Bool-cases (same d.idempotency_key e.idempotency_key)) [
  | inl g ↦ absurd (apart.0.1 (sym (same-eq d.idempotency_key e.idempotency_key g)))
  | inr g ↦
      rw (and_false (same d.operation_id o) (same d.idempotency_key e.idempotency_key) g)
        (search_both-key e o l apart.1)
]

-- Both names at once find what either finds, where the two find the same object.
pub one_object-search :
    (o k : Value) (l : List Entry)
    → Apart l
    → one_object (search (λ x. x.operation_id) o l) (search (λ x. x.idempotency_key) k l)
      ≡ known (search_both o k l)
unfolding search search_both one_object known require ◌>>◌ ◌>>=◌
one_object-search o k [] apart = refl
one_object-search o k (e ∷ l) apart = elim (Bool-cases (same e.operation_id o)) [
  | inl g ↦ rw g elim (Bool-cases (same e.idempotency_key k)) [
    | inl h ↦ rw h rw (==_refl e.identity) refl
    | inr h ↦ rw h (
        one_object-left e (search (λ x. x.idempotency_key) k l)
          (λ d. search-All (Differs e) (λ x. x.idempotency_key) k l apart.0)
        ∙ sym (
            ap known (
              subst (λ x. search_both x k l ≡ none) (same-eq e.operation_id o g)
                (search_both-operation e k l apart.0))))
  ]
  | inr g ↦ rw g elim (Bool-cases (same e.idempotency_key k)) [
    | inl h ↦ rw h (
        one_object-right e (search (λ x. x.operation_id) o l)
          (λ d. search-All (Differs e) (λ x. x.operation_id) o l apart.0)
        ∙ sym (
            ap known (
              subst (λ x. search_both o x l ≡ none) (same-eq e.idempotency_key k h)
                (search_both-key e o l apart.0))))
    | inr h ↦ rw h (one_object-search o k l apart.1)
  ]
]
