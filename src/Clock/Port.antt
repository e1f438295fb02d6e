-- ===== src/Clock/Port.antt =====
-- `createAuthoritativeClock`: each call of the clock reads the port once. `none` is a port that throws.
use surgical_dev_ops.Base.Outcome.{Outcome, ok, throw, require, ◌>>=◌, ◌>>◌, bind-ok}
use surgical_dev_ops.Base.{◌≡◌, String, true, Option, none, some, ℕ, ◌&&◌, ◌==◌, length}
use surgical_dev_ops.Base.Text.{includes}
use surgical_dev_ops.Json.{Value, get, keys, is_object, text, number}
use surgical_dev_ops.Clock.{
  normalize_reading, classify_clock_progression, classify_expiry, progression, validate_reading,
}
use surgical_dev_ops.Clock.Progress.{
  Progressed, classify_clock_progression-reading, classify_clock_progression_iff,
}
use surgical_dev_ops.Clock.Reading.{normalize_reading-valid}
use surgical_dev_ops.Clock.Authority.{classify_mutation_authority}

module _ (sha256 : String → String) where
  unfoldable pub read : Option Value → Outcome Value
  read none = throw "Authoritative clock is unavailable."
  read (some raw) = normalize_reading sha256 raw

  read-valid : (raw : Option Value) {r : Value} → read raw ≡ ok r → validate_reading sha256 r ≡ ok r
  unfolding read
  read-valid none h = cc
  read-valid (some raw) h = (normalize_reading-valid sha256 raw h).0

  unfoldable pub observe : Value → Value → Option Value → Option Value → Outcome Value
  observe forward backward previous raw = do
    reading ← read raw
    elim previous [
      | none ↦
          ok (progression "ALLOWED" "INITIAL" "Initial authoritative clock observation." reading)
      | some before ↦ classify_clock_progression sha256 before reading forward backward
    ]

  unfoldable pub evaluate_expiry : Value → Option Value → Outcome Value
  evaluate_expiry validity raw = do
    require
        (is_object validity
          && length (keys validity) == 2
          && includes (keys validity) "issuedAt"
          && includes (keys validity) "expiresAt")
        "Expiry evaluation accepts only issuedAt and expiresAt bounds."
    reading ← read raw
    classify_expiry sha256 reading (get validity "issuedAt") (get validity "expiresAt")

  -- The clock's progression is passed on whole, so its reading is the reading that is evaluated.
  unfoldable pub evaluate_mutation_authority :
      Value → Value → Value → Option Value → Option Value → Outcome Value
  evaluate_mutation_authority forward backward bounds previous raw = do
    p ← observe forward backward previous raw
    classify_mutation_authority sha256 (get p "reading") bounds (some (p, true))

  -- An observation that is allowed after an earlier reading carries a reading that is valid and that
  -- the clock reached by an allowed step: same source, a later monotonic count, and a wall clock that
  -- did not move back and kept pace within the two thresholds that the clock was made with.
  pub observe-Progressed :
      (forward backward before : Value) (raw : Option Value) {p : Value}
      → observe forward backward (some before) raw ≡ ok p
      → get p "decision" ≡ text "ALLOWED"
      → (validate_reading sha256 (get p "reading") ≡ ok (get p "reading"))
        × ((f : ℕ) × (b : ℕ) × (forward ≡ number f)
            × (backward ≡ number b)
            × Progressed before (get p "reading") f b)
  unfolding observe
  observe-Progressed forward backward before raw {p} h allowed = bind-ok _ _ h λ reading r h1.
      let is = classify_clock_progression-reading sha256 before reading forward backward h1 in
      let (f, b, is_forward, is_backward, iff) =
        classify_clock_progression_iff sha256 before reading forward backward h1 in
      rw is (read-valid raw r, (f, b, is_forward, is_backward, iff.0 allowed))
