-- ===== src/Clock/Progress.antt =====
-- How the clock may progress between two readings.
use surgical_dev_ops.Base.Outcome.{ok, bind-ok, ok-injective}
use surgical_dev_ops.Base.{◌≡◌, ◌↔◌, ℕ, ◌+◌, ◌-◌, ◌/◌, ◌≤◌, ◌<◌, String, true, arith, eq_iff}
use surgical_dev_ops.Json.{Value, text, number, get, is_string}
use surgical_dev_ops.Clock.{
  moment, big_int, text_or_empty, threshold, progress, classify_clock_progression,
}
use surgical_dev_ops.Clock.Reading.{validate_reading_self}

-- The monotonic clock moved on, and the wall clock kept pace with it within the two thresholds.
pub record Progressed (before after : Value) (forward backward : ℕ) : Type 0 where
  pub same_source : is_string (get before "source") (text_or_empty (get after "source")) ≡ true
  pub monotonic :
      big_int (get before "monotonicNanoseconds") < big_int (get after "monotonicNanoseconds")
  pub not_back : moment (get before "wallTime") ≤ moment (get after "wallTime")
  pub kept_up :
      moment (get before "wallTime")
        + (big_int (get after "monotonicNanoseconds") - big_int (get before "monotonicNanoseconds"))
          / 1000000
      ≤ moment (get after "wallTime") + backward
  pub no_jump :
      moment (get after "wallTime")
      ≤ moment (get before "wallTime")
        + (big_int (get after "monotonicNanoseconds") - big_int (get before "monotonicNanoseconds"))
          / 1000000
        + forward

progress_iff :
    (before after : Value) (forward backward : ℕ)
    → (get (progress before after forward backward) "decision" ≡ text "ALLOWED")
      ↔ Progressed before after forward backward
unfolding progress
progress_iff before after forward backward = ground (arith, eq_iff "DENIED" "ALLOWED")

progress-reading :
    (before after : Value) (forward backward : ℕ)
    → get (progress before after forward backward) "reading" ≡ after
unfolding progress
progress-reading before after forward backward = ground arith

threshold-number : (v : Value) {n : ℕ} → threshold v ≡ ok n → v ≡ number n
threshold-number (number n) h = cc
threshold-number _ h = cc

module _ (sha256 : String → String) (previous current forward backward : Value) where
  allowed :
      {p : Value} (before after : Value) (f b : ℕ)
      → previous ≡ before
      → current ≡ after
      → progress before after f b ≡ p
      → (get p "decision" ≡ text "ALLOWED") ↔ Progressed previous current f b
  allowed before after f b x y z = rw (x, y, ← z) (progress_iff before after f b)

  -- A progression is allowed exactly when both readings have one source, the monotonic clock moved
  -- on, the wall clock did not move back, and the wall time that passed is within the two
  -- thresholds of the monotonic time that passed, in whole milliseconds.
  pub classify_clock_progression_iff :
      {p : Value}
      → classify_clock_progression sha256 previous current forward backward ≡ ok p
      → (f b : ℕ) × (forward ≡ number f)
        × (backward ≡ number b)
        × ((get p "decision" ≡ text "ALLOWED") ↔ Progressed previous current f b)
  unfolding classify_clock_progression
  classify_clock_progression_iff {p} h = bind-ok _ _ h λ before a h1. bind-ok _ _ h1 λ after c h2.
      bind-ok _ _ h2 λ f e h3. bind-ok _ _ h3 λ b g h4. (
        f,
        b,
        threshold-number forward e,
        threshold-number backward g,
        allowed before after f b (validate_reading_self sha256 previous a)
            (validate_reading_self sha256 current c) (ok-injective h4),
      )

  -- What was classified is the progress to the current reading, which it carries.
  pub classify_clock_progression-reading :
      {p : Value}
      → classify_clock_progression sha256 previous current forward backward ≡ ok p
      → get p "reading" ≡ current
  unfolding classify_clock_progression
  classify_clock_progression-reading {p} h = bind-ok _ _ h λ before _ h1.
      bind-ok _ _ h1 λ after c h2. bind-ok _ _ h2 λ f _ h3. bind-ok _ _ h3 λ b _ h4.
        let made : progress before after f b ≡ p = ok-injective h4 in
        rw (← made, validate_reading_self sha256 current c) (progress-reading before after f b)
