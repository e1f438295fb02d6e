-- ===== src/Clock/Authority/Windows.antt =====
-- When the time evidence of a mutation is ALLOWED.
use surgical_dev_ops.Base.Outcome.{ok, bind-ok, require-ok, ok-injective}
use surgical_dev_ops.Base.{
  ◌≡◌, ◌↔◌, refl, ◌≤◌, ◌<◌, String, Bool, true, false, Option, none, some, arith, eq_iff,
  if◌then◌else◌, and_four_iff,
}
use surgical_dev_ops.Json.{Value, text, get, is_string}
use surgical_dev_ops.Clock.{moment}
use surgical_dev_ops.Clock.Reading.{validate_reading_self, canonical_timestamp-text}
use surgical_dev_ops.Clock.Expiry.{Window, classify_expiry_iff}
use surgical_dev_ops.Clock.Authority.{
  authority_bound, normalize_progression, time_evidence, three, all_allowed, bound_expiry,
  bound_value, classify_mutation_authority,
}

-- A bound keeps its interval.
authority_bound-interval :
    (v : Value) (label : String) {b : Value}
    → authority_bound v label ≡ ok b
    → (get b "issuedAt" ≡ get v "issuedAt") × (get b "expiresAt" ≡ get v "expiresAt")
unfolding authority_bound
authority_bound-interval v label {b} h = require-ok _ _ _ h λ _ h1. bind-ok _ _ h1 λ issued p h2.
    bind-ok _ _ h2 λ expires q h3.
      let (p1, _, _) = canonical_timestamp-text (get v "issuedAt") _ p in
      let (q1, _, _) = canonical_timestamp-text (get v "expiresAt") _ q in
      let made : bound_value issued expires (get v "fingerprint") ≡ b = ok-injective h3 in
      rw (p1, q1, ← made) (refl, refl)

-- The wall time of a reading lies in the validity interval of a bound.
abbrev pub Holds : Value → Value → Type 0
Holds reading bound =
    (moment (get bound "issuedAt") ≤ moment (get reading "wallTime"))
    × (moment (get reading "wallTime") < moment (get bound "expiresAt"))

-- What the caller says of the clock's progress: nothing at a first reading, else an allowed step.
abbrev pub Advanced : Option (Value × Bool) → Type 0
Advanced none = Unit {0}
Advanced (some (p, same_reading)) = get p "decision" ≡ text "ALLOWED"

is_string_iff : (v : Value) (s : String) → (is_string v s ≡ true) ↔ (v ≡ text s)
is_string_iff (text t) s = ground (arith, eq_iff t s)
is_string_iff _ s = ground arith

normalize_progression-Advanced :
    (now : Value) (p : Option (Value × Bool)) {q : Value}
    → normalize_progression now p ≡ ok q
    → (get q "decision" ≡ text "ALLOWED") ↔ Advanced p
unfolding normalize_progression
normalize_progression-Advanced now none h = rw (← ok-injective h) (λ _. tt, λ _. refl)
normalize_progression-Advanced now (some (p, same)) h =
    require-ok _ _ _ h λ _ h1. rw (ok-injective h1) (λ e. e, λ e. e)

all_allowed_iff :
    (p i a g : Value)
    → (all_allowed p i a g ≡ true) ↔ (
        (get p "decision" ≡ text "ALLOWED")
        × (get i "decision" ≡ text "ALLOWED")
        × (get a "decision" ≡ text "ALLOWED")
        × (get g "decision" ≡ text "ALLOWED"))
all_allowed_iff p i a g =
    let is = λ (v : Value). is_string_iff (get v "decision") "ALLOWED" in
    let four =
      and_four_iff (is_string (get p "decision") "ALLOWED") (is_string (get i "decision") "ALLOWED")
        (is_string (get a "decision") "ALLOWED") (is_string (get g "decision") "ALLOWED") in
    (
      λ h. let (x, y, z, w) = four.0 h in ((is p).0 x, (is i).0 y, (is a).0 z, (is g).0 w),
      λ t. four.1 ((is p).1 t.0, (is i).1 t.1, (is a).1 t.2, (is g).1 t.3),
    )

decided_iff : (b : Bool) → (text (if b then "ALLOWED" else "DENIED") ≡ text "ALLOWED") ↔ (b ≡ true)
decided_iff true = (λ _. refl, λ _. refl)
decided_iff false = ground (arith, eq_iff "DENIED" "ALLOWED")

-- An evidence's decision is the conjunction of its four tests.
time_evidence-decision :
    (sha256 : String → String) (p i a g now bounds evaluations : Value)
    → (get (time_evidence sha256 (all_allowed p i a g) now p bounds evaluations) "decision"
        ≡ text "ALLOWED")
      ↔ ((get p "decision" ≡ text "ALLOWED")
          × (get i "decision" ≡ text "ALLOWED")
          × (get a "decision" ≡ text "ALLOWED")
          × (get g "decision" ≡ text "ALLOWED"))
unfolding time_evidence
time_evidence-decision sha256 p i a g now bounds evaluations =
    let d = decided_iff (all_allowed p i a g) in
    let t = all_allowed_iff p i a g in (λ h. t.0 (d.0 h), λ h. d.1 (t.1 h))

module _ (sha256 : String → String) (reading bounds : Value)
    (progressed : Option (Value × Bool)) where
  bound-Holds :
      (name : String) (now bound : Value) {b e : Value}
      → reading ≡ now
      → authority_bound bound name ≡ ok b
      → bound_expiry sha256 now b ≡ ok e
      → (get e "decision" ≡ text "ALLOWED") ↔ Holds reading bound
  bound-Holds name now bound {b} {e} same h k =
      let (i, x) = authority_bound-interval bound name h in
      let w : Window now (get b "issuedAt") (get b "expiresAt") e =
        classify_expiry_iff sha256 now (get b "issuedAt") (get b "expiresAt") k in
      rw (same, ← i, ← x) w.1

  -- The evidence is ALLOWED exactly when the clock's progress was allowed and the wall time of the
  -- reading lies in each of the three validity intervals: of the identity, the approval and the
  -- grant.
  pub classify_mutation_authority_iff :
      {e : Value}
      → classify_mutation_authority sha256 reading bounds progressed ≡ ok e
      → (get e "decision" ≡ text "ALLOWED") ↔ (
          Advanced progressed
          × Holds reading (get bounds "identity")
          × Holds reading (get bounds "approval")
          × Holds reading (get bounds "grant"))
  unfolding classify_mutation_authority
  classify_mutation_authority_iff {e} h = bind-ok _ _ h λ now a h1. require-ok _ _ _ h1 λ _ h2.
      bind-ok _ _ h2 λ identity i h3. bind-ok _ _ h3 λ approval p h4. bind-ok _ _ h4 λ grant g h5.
        bind-ok _ _ h5 λ q r h6. bind-ok _ _ h6 λ identity_holds ie h7.
          bind-ok _ _ h7 λ approval_holds ae h8. bind-ok _ _ h8 λ grant_holds ge h9.
            let same = validate_reading_self sha256 reading a in
            let made : time_evidence sha256
                  (all_allowed q identity_holds approval_holds grant_holds) now q
                  (three identity approval grant) (three identity_holds approval_holds grant_holds)
                ≡ e =
              ok-injective h9 in
            let all =
              time_evidence-decision sha256 q identity_holds approval_holds grant_holds now
                (three identity approval grant) (three identity_holds approval_holds grant_holds) in
            let advanced = normalize_progression-Advanced now progressed r in
            let one = bound-Holds "identity" now (get bounds "identity") same i ie in
            let two = bound-Holds "approval" now (get bounds "approval") same p ae in
            let last = bound-Holds "grant" now (get bounds "grant") same g ge in
            rw (← made) (
              λ d. let (x, y, z, w) = all.0 d in (advanced.0 x, one.0 y, two.0 z, last.0 w),
              λ t. all.1 (advanced.1 t.0, one.1 t.1, two.1 t.2, last.1 t.3),
            )
