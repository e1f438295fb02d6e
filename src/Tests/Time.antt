-- ===== src/Tests/Time.antt =====
-- The clock at concrete readings.
use surgical_dev_ops.Base.Outcome.{ok}
use surgical_dev_ops.Base.{◌≡◌, ◌↔◌, refl, ℕ, String, false, none, some}
use surgical_dev_ops.Json.{Value, null, text, number, object, end, field, get}
use surgical_dev_ops.Clock.{validate_reading, classify_clock_progression, classify_expiry}
use surgical_dev_ops.Clock.Reading.{normalize_reading-valid}
use surgical_dev_ops.Clock.Expiry.{Window, classify_expiry_iff}
use surgical_dev_ops.Clock.Progress.{Progressed, classify_clock_progression_iff}
use surgical_dev_ops.Clock.Authority.{classify_mutation_authority}
use surgical_dev_ops.Clock.Authority.Windows.{Advanced, Holds, classify_mutation_authority_iff}
use surgical_dev_ops.Clock.Port.{observe, read, observe-Progressed}
use surgical_dev_ops.Tests.Scenario.{running, sha, reading, bounds, or_default}

abbrev raw : String → String → Value
raw wall_time nanoseconds = object false (
    field "schema" (text "sdo.system_clock_observation.v1") (
      field "availability" (text "AVAILABLE") (
        field "source" (text "system") (
          field "wallTime" (text wall_time)
            (field "monotonicNanoseconds" (text nanoseconds) end)))))

abbrev first : Value
first = reading "2024-01-01T00:00:01.000Z" "5"

abbrev second : Value
second = reading "2024-01-01T00:00:02.000Z" "1000000005"

normalize_reading-valid_example :
    (validate_reading sha first ≡ ok first)
    × (get first "wallTime" ≡ get (raw "2024-01-01T00:00:01.000Z" "5") "wallTime")
    × (get first "monotonicNanoseconds"
        ≡ get (raw "2024-01-01T00:00:01.000Z" "5") "monotonicNanoseconds")
    × (get first "source" ≡ get (raw "2024-01-01T00:00:01.000Z" "5") "source")
unfolding running
normalize_reading-valid_example =
    normalize_reading-valid sha (raw "2024-01-01T00:00:01.000Z" "5") refl

abbrev expiry : Value
expiry =
    or_default null (
      classify_expiry sha first (text "2024-01-01T00:00:00.000Z") (text "2024-01-02T00:00:00.000Z"))

classify_expiry_iff_example :
    Window first (text "2024-01-01T00:00:00.000Z") (text "2024-01-02T00:00:00.000Z") expiry
unfolding running
classify_expiry_iff_example =
    classify_expiry_iff sha first (text "2024-01-01T00:00:00.000Z")
      (text "2024-01-02T00:00:00.000Z") refl

abbrev progressed : Value
progressed =
    or_default null (classify_clock_progression sha first second (number 1000) (number 1000))

classify_clock_progression_iff_example :
    (f b : ℕ) × (number 1000 ≡ number f)
    × (number 1000 ≡ number b)
    × ((get progressed "decision" ≡ text "ALLOWED") ↔ Progressed first second f b)
unfolding running
classify_clock_progression_iff_example =
    classify_clock_progression_iff sha first second (number 1000) (number 1000) refl

observe-Progressed_example :
    (validate_reading sha (get progressed "reading") ≡ ok (get progressed "reading"))
    × ((f : ℕ) × (b : ℕ) × (number 1000 ≡ number f)
        × (number 1000 ≡ number b)
        × Progressed first (get progressed "reading") f b)
unfolding running observe read
observe-Progressed_example =
    observe-Progressed sha (number 1000) (number 1000) first
      (some (raw "2024-01-01T00:00:02.000Z" "1000000005")) {p = progressed} refl refl

abbrev evidence : Value
evidence = or_default null (classify_mutation_authority sha first bounds none)

classify_mutation_authority_iff_example : (get evidence "decision" ≡ text "ALLOWED") ↔ (
    Advanced none
    × Holds first (get bounds "identity")
    × Holds first (get bounds "approval")
    × Holds first (get bounds "grant"))
unfolding running
classify_mutation_authority_iff_example = classify_mutation_authority_iff sha first bounds none refl
