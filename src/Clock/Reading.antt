-- ===== src/Clock/Reading.antt =====
-- Readings of the authoritative clock (accelerator/core/authoritative-clock.js): normalising and
-- validating one.
use surgical_dev_ops.Base.Outcome.{chains, ok, bind-ok, require-ok, ok-injective}
use surgical_dev_ops.Base.{◌≡◌, refl, sym, String, true, arith, eq_refl}
use surgical_dev_ops.Json.{Value, text, get}
use surgical_dev_ops.Timestamp.{is_canonical}
use surgical_dev_ops.Clock.{
  canonical_timestamp, source_identity, monotonic, normalize_reading, validate_reading,
  reading_value,
}

-- What a text reader returns is the text that it was given, and it accepts that text again.
pub source_identity-text :
    (v : Value) {s : String}
    → source_identity v ≡ ok s
    → (v ≡ text s) × (source_identity (text s) ≡ ok s)
unfolding source_identity chains
source_identity-text (text s) h = ground arith
source_identity-text _ h = cc

pub canonical_timestamp-text :
    (v : Value) (label : String) {s : String}
    → canonical_timestamp v label ≡ ok s
    → (v ≡ text s) × (is_canonical s ≡ true) × (canonical_timestamp (text s) label ≡ ok s)
unfolding canonical_timestamp chains
canonical_timestamp-text (text s) label h = ground arith
canonical_timestamp-text _ label h = cc

pub monotonic-text :
    (v : Value) {s : String} → monotonic v ≡ ok s → (v ≡ text s) × (monotonic (text s) ≡ ok s)
unfolding monotonic chains
monotonic-text (text s) h = ground arith
monotonic-text _ h = cc

module _ (sha256 : String → String) where
  -- Validation returns the reading that it was given.
  pub validate_reading_self : (r : Value) {r' : Value} → validate_reading sha256 r ≡ ok r' → r ≡ r'
  unfolding validate_reading
  validate_reading_self r h = require-ok _ _ _ h λ _ h1. bind-ok _ _ h1 λ _ _ h2.
      bind-ok _ _ h2 λ _ _ h3. bind-ok _ _ h3 λ _ _ h4. require-ok _ _ _ h4 λ _ h5. ok-injective h5

  -- A reading built from accepted texts is accepted.
  reading_value-valid :
      (source wall_time nanoseconds : String)
      → source_identity (text source) ≡ ok source
      → canonical_timestamp (text wall_time) "Authoritative wall time" ≡ ok wall_time
      → monotonic (text nanoseconds) ≡ ok nanoseconds
      → validate_reading sha256 (reading_value sha256 source wall_time nanoseconds)
        ≡ ok (reading_value sha256 source wall_time nanoseconds)
  unfolding validate_reading chains
  reading_value-valid source wall_time nanoseconds a b c = rw (a, b, c, eq_refl) refl

  -- Every reading that `normalizeReading` makes of a raw observation passes `validateReading`
  -- unchanged, and carries the wall time and the monotonic count of the observation.
  pub normalize_reading-valid :
      (raw : Value) {r : Value}
      → normalize_reading sha256 raw ≡ ok r
      → (validate_reading sha256 r ≡ ok r)
        × (get r "wallTime" ≡ get raw "wallTime")
        × (get r "monotonicNanoseconds" ≡ get raw "monotonicNanoseconds")
        × (get r "source" ≡ get raw "source")
  unfolding normalize_reading
  normalize_reading-valid raw {r} h = require-ok _ _ _ h λ _ h1. bind-ok _ _ h1 λ source a h2.
      bind-ok _ _ h2 λ wall_time b h3. bind-ok _ _ h3 λ nanoseconds c h4.
        let (a1, a2) = source_identity-text (get raw "source") a in
        let (b1, _, b2) = canonical_timestamp-text (get raw "wallTime") _ b in
        let (c1, c2) = monotonic-text (get raw "monotonicNanoseconds") c in
        let made : reading_value sha256 source wall_time nanoseconds ≡ r = ok-injective h4 in
        rw (← made)
          (reading_value-valid source wall_time nanoseconds a2 b2 c2, sym b1, sym c1, sym a1)
