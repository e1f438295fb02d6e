-- ===== src/Clock/Expiry.antt =====
-- Validity intervals of accelerator/core/authoritative-clock.js.
use surgical_dev_ops.Base.Outcome.{ok, bind-ok, reject-ok, ok-injective}
use surgical_dev_ops.Base.{◌≡◌, ◌↔◌, ℕ, leb, false, ◌≤◌, ◌<◌, String, arith, eq_iff}
use surgical_dev_ops.Json.{Value, text, get}
use surgical_dev_ops.Timestamp.{date_parse}
use surgical_dev_ops.Clock.{moment, expiry_decision, expiry_evaluation, classify_expiry}
use surgical_dev_ops.Clock.Reading.{validate_reading_self, canonical_timestamp-text}

expiry_decision_iff :
    (now issued expires : ℕ)
    → (text (expiry_decision now issued expires).0 ≡ text "ALLOWED")
      ↔ ((issued ≤ now) × (now < expires))
unfolding expiry_decision
expiry_decision_iff now issued expires = ground (arith, eq_iff "DENIED" "ALLOWED")

abbrev pub Window : Value → Value → Value → Value → Type 0
Window reading issued_at expires_at e =
    (moment issued_at < moment expires_at)
    × ((get e "decision" ≡ text "ALLOWED") ↔ (
        (moment issued_at ≤ moment (get reading "wallTime"))
        × (moment (get reading "wallTime") < moment expires_at)))

module _ (sha256 : String → String) (reading issued_at expires_at : Value) where
  conclude :
      {e : Value} (now : Value) (issued expires : String)
      → issued_at ≡ text issued
      → expires_at ≡ text expires
      → reading ≡ now
      → leb (date_parse expires) (date_parse issued) ≡ false
      → (let d =
            expiry_decision
              (moment (get now "wallTime"))
              (date_parse issued)
              (date_parse expires) in
          expiry_evaluation d.0 d.1 now issued expires)
        ≡ e
      → Window reading issued_at expires_at e
  conclude now issued expires p q r d h =
      rw (p, q, r, ← h) (ground arith, expiry_decision_iff _ _ _)

  -- When the evaluation returns, its interval is not empty, and its decision is ALLOWED exactly when
  -- the reading's wall time is not before the issue and is before the expiry.
  pub classify_expiry_iff :
      {e : Value}
      → classify_expiry sha256 reading issued_at expires_at ≡ ok e
      → Window reading issued_at expires_at e
  unfolding classify_expiry
  classify_expiry_iff {e} h = bind-ok _ _ h λ now a h1. bind-ok _ _ h1 λ issued b h2.
      bind-ok _ _ h2 λ expires c h3. reject-ok _ _ _ h3 λ d h4.
        let (issued_is, _, _) = canonical_timestamp-text issued_at _ b in
        let (expires_is, _, _) = canonical_timestamp-text expires_at _ c in
        conclude now issued expires issued_is expires_is (validate_reading_self sha256 reading a) d
          (ok-injective h4)
