-- ===== src/Recovery/Laws.antt =====
-- accelerator/core/mutation-recovery.js: what recovery evidence says of its inputs.
use Prim.Native.String.{◌++◌}
use surgical_dev_ops.Base.Outcome.{ok, require-ok, ok-injective}
use surgical_dev_ops.Base.Text.{is_hash, includes}
use surgical_dev_ops.Base.{
  ◌≡◌, ◌⊎◌, inl, inr, refl, sym, ap, subst, String, Bool, true, false, str_eq, List, [], ◌∷◌,
}
use surgical_dev_ops.Json.{
  Value, end, deep_freeze, get, text, is_string, is_truthy, text_satisfies, same,
}
use surgical_dev_ops.Json.Canonical.Frozen.{canonical_json-frozen}
use surgical_dev_ops.Recovery.{recovery_fingerprint, recovery_schema, digest}
use surgical_dev_ops.Recovery.Classify.{
  is_commit_proven, decide, lock_disposition, verdict, Verdict, recovery_evidence, recovery_fields,
  classify_mutation_recovery,
}

-- The commit authority of a transaction is there, has a digest for its fingerprint and names the
-- transaction's id, target, former content and replacement.
pub record IsProven (t : Value) : Type 0 where
  pub present : is_truthy (get t "commitAuthority") ≡ true
  pub fingerprint : text_satisfies is_hash (get (get t "commitAuthority") "fingerprint") ≡ true
  pub transaction_id :
      same (get (get t "commitAuthority") "transactionId") (get t "transactionId") ≡ true
  pub target : same (get (get t "commitAuthority") "target") (get t "target") ≡ true
  pub before : same (get (get t "commitAuthority") "beforeSha256") (get t "beforeSha256") ≡ true
  pub replacement :
      same (get (get t "commitAuthority") "replacementSha256") (get t "replacementSha256") ≡ true

abbrev applied_stages : List String
applied_stages =
    "COMMIT_AUTHORITY_VERIFIED" ∷ "PHYSICAL_APPLIED" ∷ "AFTER_VERIFIED" ∷ "EVIDENCE_RECORDED"
    ∷ "FINALIZED_SUCCESS" ∷ "RECOVERY_REQUIRED" ∷ "RECOVERED" ∷ []

-- What a successful verdict rests on.
abbrev pub IsApplied : Value → Value → Value → Type 0
IsApplied lock physical t =
    (is_string lock "MATCHED" ≡ true)
    × (is_string physical "REPLACEMENT" ≡ true)
    × IsProven t
    × (text_satisfies (includes applied_stages) (get t "stage") ≡ true)

-- What a released lock rests on.
abbrev pub IsSettled : Value → Value → Value → Bool → Type 0
IsSettled lock physical stage proven =
    (is_string lock "MATCHED" ≡ true)
    × ((is_string physical "BEFORE" ≡ true)
        ⊎ ((is_string physical "REPLACEMENT" ≡ true) × (proven ≡ true)))

decide-released :
    (m b p r rep proven st : Bool)
    → str_eq (lock_disposition (decide m b p r rep proven st).terminal_stage) "RELEASED" ≡ true
    → (m ≡ true) × ((b ≡ true) ⊎ ((rep ≡ true) × (proven ≡ true)))
unfolding decide
decide-released true true p r rep proven st h = (refl, inl refl)
decide-released true false p r true true st h = (refl, inr (refl, refl))
decide-released true false p r true false st h = cc
decide-released true false p r false proven st h = cc
decide-released false b p r rep proven st h = cc

module _ (sha256 : String → String) (journal physical lock observation : Value) where
  abbrev found : Verdict
  found =
      verdict (get lock "classification") (get physical "classification")
        (get (get journal "transaction") "stage") (is_commit_proven (get journal "transaction"))

  classified :
      {e : Value}
      → classify_mutation_recovery sha256 journal physical lock observation ≡ ok e
      → recovery_evidence sha256 journal physical lock observation found
          (is_commit_proven (get journal "transaction"))
        ≡ e
  unfolding classify_mutation_recovery
  classified h = require-ok _ _ _ h λ _ made. ok-injective made

  evidence-fingerprint :
      (v : Verdict) (proven : Bool)
      → get (recovery_evidence sha256 journal physical lock observation v proven) "fingerprint"
        ≡ text (
            recovery_fingerprint sha256
              (recovery_evidence sha256 journal physical lock observation v proven))
  unfolding recovery_fingerprint digest deep_freeze
  evidence-fingerprint v proven =
      ap (λ s. text (sha256 (recovery_schema ++ "\0" ++ s)))
        (sym (
          canonical_json-frozen (recovery_fields journal physical lock observation v proven end) _
            refl))

  evidence-disposition :
      (v : Verdict) (proven : Bool)
      → get (recovery_evidence sha256 journal physical lock observation v proven) "lockDisposition"
        ≡ text (lock_disposition v.terminal_stage)
  unfolding deep_freeze
  evidence-disposition v proven = refl

  -- The fingerprint of the evidence that a classification returns is the one derived from it.
  pub classify_mutation_recovery-fingerprint :
      {e : Value}
      → classify_mutation_recovery sha256 journal physical lock observation ≡ ok e
      → get e "fingerprint" ≡ text (recovery_fingerprint sha256 e)
  classify_mutation_recovery-fingerprint h =
      subst (λ e. get e "fingerprint" ≡ text (recovery_fingerprint sha256 e)) (classified h)
        (evidence-fingerprint found (is_commit_proven (get journal "transaction")))

  -- A classification releases the lock only if the lock is matched and the target holds either its
  -- former content, or the replacement under a proven commit authority.
  pub classify_mutation_recovery-release :
      {e : Value}
      → classify_mutation_recovery sha256 journal physical lock observation ≡ ok e
      → is_string (get e "lockDisposition") "RELEASED" ≡ true
      → IsSettled
          (get lock "classification")
          (get physical "classification")
          (get (get journal "transaction") "stage")
          (is_commit_proven (get journal "transaction"))
  unfolding verdict
  classify_mutation_recovery-release {e} h released = decide-released _ _ _ _ _ _ _ (
      subst (λ v. is_string v "RELEASED" ≡ true)
        (evidence-disposition found (is_commit_proven (get journal "transaction")))
        (subst (λ v. is_string (get v "lockDisposition") "RELEASED" ≡ true) (sym (classified h))
          released))
