-- ===== src/Transaction/SecondRecovery.antt =====
-- accelerator/core/mutation-transaction.js: binding recovery evidence a second time.
use surgical_dev_ops.Base.Outcome.{Outcome, ok, throw, require-ok, every-AllTrue, is_ok}
use surgical_dev_ops.Base.{
  ◌≡◌, ◌≢◌, refl, sym, subst, ℕ, suc, String, true, false, List, [], ◌∷◌, ◌++◌, Option, none, some,
  eq_iff, and_three,
}
use mathlib.Core.List.{Memᴰ}
use surgical_dev_ops.Json.{Value, text, get}
use surgical_dev_ops.Transaction.Stage.{Stage}
use surgical_dev_ops.Transaction.Data.{recovery_evidence_fingerprint, Event, Transaction}
use surgical_dev_ops.Json.{is_truthy}
use surgical_dev_ops.Transaction.Validate.{
  check_history, event_ok, has_fitting_keys, require_transaction, is_recovery,
}
use surgical_dev_ops.Json.{same}
use surgical_dev_ops.Transaction.Operations.{bind_mutation_recovery_evidence}
use surgical_dev_ops.Transaction.Safety.{Checked, require_transaction-Checked}
use surgical_dev_ops.Transaction.Extend.{fits}
use surgical_dev_ops.Transaction.BindRecovery.{recover, bound}

-- Each event of a history that passes has keys that fit.
check_history-fits :
    (t : Transaction) (previous : Option Stage) (index : ℕ) (events : List Event) {d : Event}
    {last : Option Stage}
    → check_history t previous index events ≡ ok last
    → Memᴰ d events
    → fits t d ≡ true
unfolding check_history event_ok
check_history-fits t previous index [] h m = elim m [ ]
check_history-fits t previous index (e ∷ events) h (Memᴰ.head same) =
    require-ok _ _ _ h λ here _. subst (λ d. fits t d ≡ true) (sym same) (every-AllTrue _ here).0
check_history-fits t previous index (e ∷ events) h (Memᴰ.tail m) =
    require-ok _ _ _ h λ _ rest. check_history-fits t (some e.stage) (suc index) events rest m

Memᴰ-append : {d : Event} (xs ys : List Event) → Memᴰ d xs → Memᴰ d (xs ++ ys)
Memᴰ-append [] ys m = elim m [ ]
Memᴰ-append (x ∷ xs) ys (Memᴰ.head e) = Memᴰ.head e
Memᴰ-append (x ∷ xs) ys (Memᴰ.tail m) = Memᴰ.tail (Memᴰ-append xs ys m)

fitting-same :
    (lock authority recovery v : Value) (stage : Stage)
    → has_fitting_keys lock authority recovery stage (recovery_evidence_fingerprint v) ≡ true
    → same v (get recovery "fingerprint") ≡ true
unfolding has_fitting_keys
fitting-same lock authority recovery v stage h =
    (and_three (is_recovery stage) (is_truthy recovery) _ h).2

not-same : (f g : String) → f ≢ g → same (text f) (text g) ≡ true → ⊥
not-same f g ne h = ne (sym ((eq_iff g f).0 h))

is_ok-false {ℓ} : {A : Type ℓ} (o : Outcome A) → ((a : A) → o ≡ ok a → ⊥) → is_ok o ≡ false
is_ok-false (ok a) h = absurd (h a refl)
is_ok-false (throw e) h = refl

module _ (sha256 : String → String) where
  -- Recovery evidence that is bound to a transaction whose history already names other recovery
  -- evidence gives a transaction that no operation accepts: `requireTransaction` throws on it.
  pub second_recovery-invalid :
      (t : Transaction) (e : Value) (d : Event) (f g : String) {u : Transaction}
      → bind_mutation_recovery_evidence sha256 t e ≡ ok u
      → Memᴰ d t.history
      → d.extra ≡ recovery_evidence_fingerprint (text f)
      → get e "fingerprint" ≡ text g
      → f ≢ g
      → is_ok (require_transaction sha256 u) ≡ false
  second_recovery-invalid t e d f g {u} h m extra key ne =
      let (_, _, _, _, made) = bound sha256 t e h in
      is_ok-false (require_transaction sha256 u) λ v valid.
        let c = (require_transaction-Checked sha256 u valid).1 in
        let c' = subst (Checked sha256) (sym made) c in
        let fit =
          check_history-fits (recover sha256 t e) none 0 (recover sha256 t e).history c'.history
            (Memᴰ-append t.history _ m) in
        let fit' =
          subst (λ x. has_fitting_keys t.lock t.commit_authority e d.stage x ≡ true) extra fit in
        let eq = fitting-same t.lock t.commit_authority e (text f) d.stage fit' in
        not-same f g ne (subst (λ x. same (text f) x ≡ true) key eq)
