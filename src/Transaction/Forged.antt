-- ===== src/Transaction/Forged.antt =====
-- What the check of a commit authority's evaluation does not read.
use surgical_dev_ops.Base.{
  ◌≡◌, refl, ap, ap₂, String, true, false, str_eq, if◌then◌else◌, Bool-cases, inl, inr, eq_iff, ◌∙◌,
  sym, subst,
}
use surgical_dev_ops.Json.{Value, Fields, text, object, end, field, get, find_field, is_string}
use surgical_dev_ops.Recovery.{without, spread}
use surgical_dev_ops.Transaction.Authority.{
  with_field, fingerprint_matches, reclassify, authoritative_fingerprint_valid,
}

find_field-without :
    (j k : String) (fs : Fields)
    → str_eq j k ≡ false
    → find_field k (without j fs) ≡ find_field k fs
find_field-without j k end h = refl
find_field-without j k (field i v fs) h = elim (Bool-cases (str_eq i j)) [
  | inl e ↦
      let other : str_eq i k ≡ false = subst (λ n. str_eq n k ≡ false) (sym ((eq_iff i j).0 e)) h in
      rw (e, other) (find_field-without j k fs h)
  | inr e ↦ rw e (ap (λ w. if str_eq i k then v else w) (find_field-without j k fs h))
]

-- A field that is not replaced reads as before.
get-with_field :
    (j k : String) (d v : Value)
    → str_eq j k ≡ false
    → find_field k (spread v) ≡ get v k
    → get (with_field j d v) k ≡ get v k
get-with_field j k d v h same = rw h (find_field-without j k (spread v) h ∙ same)

find_field-spread : (k : String) (v : Value) → find_field k (spread v) ≡ get v k
find_field-spread k (object _ fs) = refl
find_field-spread k _ = refl

kept :
    (k : String) (d v : Value)
    → str_eq "decision" k ≡ false
    → get (with_field "decision" d v) k ≡ get v k
kept k d v h = get-with_field "decision" k d v h (find_field-spread k v)

module _ (sha256 : String → String) (v : Value) where
  reclassify-decision :
      (d : Value) → reclassify sha256 (with_field "decision" d v) ≡ reclassify sha256 v
  unfolding reclassify
  reclassify-decision d =
      rw (kept "reading" d v refl, kept "progression" d v refl, kept "bounds" d v refl) refl

  fingerprint_valid-decision :
      (d : Value)
      → authoritative_fingerprint_valid sha256 (with_field "decision" d v)
        ≡ authoritative_fingerprint_valid sha256 v
  unfolding authoritative_fingerprint_valid
  fingerprint_valid-decision d =
      ap₂ fingerprint_matches (reclassify-decision d) (kept "fingerprint" d v refl)

  -- An evaluation whose fingerprint is the one that the clock's classification gives it keeps passing
  -- that check when its decision, whatever it was, is replaced by ALLOWED: the check does not read
  -- the decision.
  pub forged_decision-passes :
      authoritative_fingerprint_valid sha256 v ≡ true
      → (is_string (get (with_field "decision" (text "ALLOWED") v) "decision") "ALLOWED" ≡ true)
        × (authoritative_fingerprint_valid sha256 (with_field "decision" (text "ALLOWED") v) ≡ true)
  forged_decision-passes h = (refl, fingerprint_valid-decision (text "ALLOWED") ∙ h)
