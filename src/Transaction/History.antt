-- ===== src/Transaction/History.antt =====
-- What a history that passes validation tells of the stages that came before.
use surgical_dev_ops.Base.Outcome.{ok, require-ok, every-AllTrue}
use surgical_dev_ops.Base.{
  ◌≡◌, ◌⊎◌, inl, inr, refl, ap, subst, ℕ, suc, Bool, true, false, List, [], ◌∷◌, ◌∙◌, any, Option,
  none, some, arith,
}
use surgical_dev_ops.Transaction.Stage.{
  Stage, prepared, locked, before_verified, mutation_started, commit_authority_verified,
  physical_applied, permits, same_stage, same_stage_iff,
}
use surgical_dev_ops.Transaction.Data.{Event, Transaction}
use surgical_dev_ops.Transaction.Validate.{event_ok, check_history, follows, has_stage}

-- The stages of a history from a place on, each permitted after the one before.
abbrev pub IsPath : Option Stage → List Event → Type 0
IsPath previous [] = Unit {0}
IsPath previous (e ∷ events) = (follows previous e.stage ≡ true) × IsPath (some e.stage) events

event_ok-follows :
    (t : Transaction) (previous : Option Stage) (index : ℕ) (e : Event)
    → event_ok t previous index e ≡ true
    → follows previous e.stage ≡ true
unfolding event_ok
event_ok-follows t previous index e h = (every-AllTrue _ h).1.1.1.0

pub check_history-IsPath :
    (t : Transaction) (previous : Option Stage) (index : ℕ) (events : List Event)
    {last : Option Stage}
    → check_history t previous index events ≡ ok last
    → IsPath previous events
unfolding check_history
check_history-IsPath t previous index [] h = tt
check_history-IsPath t previous index (e ∷ events) h = require-ok _ _ _ h λ fits rest. (
  event_ok-follows t previous index e fits,
  check_history-IsPath t (some e.stage) (suc index) events rest,
)

-- The stages of a history, in its order.
abbrev pub stages : List Event → List Stage
stages [] = []
stages (e ∷ events) = e.stage ∷ stages events

-- The stages from which the target's write can still follow.
leads : Stage → Bool
leads prepared = true
leads locked = true
leads before_verified = true
leads mutation_started = true
leads commit_authority_verified = true
leads _ = false

-- What a stage that leads nowhere is followed by leads nowhere either, and is not the write.
stays_out :
    (p s : Stage)
    → leads p ≡ false
    → permits p s ≡ true
    → (leads s ≡ false) × (same_stage s physical_applied ≡ false)
unfolding leads permits same_stage
stays_out p s out h = ground arith

never_written :
    (p : Stage) (events : List Event)
    → leads p ≡ false
    → IsPath (some p) events
    → has_stage physical_applied events ≡ true
    → ⊥
never_written p [] out path h = cc
never_written p (e ∷ events) out (here, path) h =
    let (out', other) = stays_out p e.stage out here in
    never_written e.stage events out' path (ground (arith, other))

-- The next stage of a history that comes to the write, where one stage only leads there.
module _ (p only : Stage) (other : same_stage only physical_applied ≡ false)
    (next : (s : Stage)
      → permits p s ≡ true
      → (s ≡ only) ⊎ ((leads s ≡ false) × (same_stage s physical_applied ≡ false))) where
  goes_on :
      (events : List Event)
      → IsPath (some p) events
      → has_stage physical_applied events ≡ true
      → (rest : List Event) × (stages events ≡ only ∷ stages rest)
        × IsPath (some only) rest
        × (has_stage physical_applied rest ≡ true)
  goes_on [] path h = cc
  goes_on (e ∷ events) (here, path) h = elim (next e.stage here) [
    | inl is ↦ (
      events,
      ap (λ s. s ∷ stages events) is,
      subst (λ s. IsPath (some s) events) is path,
      (let unlike : same_stage e.stage physical_applied ≡ false = rw is other in
          ground (arith, unlike)),
    )
    | inr (out, unlike) ↦ absurd (never_written e.stage events out path (ground (arith, unlike)))
  ]

after_prepared :
    (s : Stage)
    → permits prepared s ≡ true
    → (s ≡ locked) ⊎ ((leads s ≡ false) × (same_stage s physical_applied ≡ false))
unfolding permits leads same_stage
after_prepared s h = ground arith

after_locked :
    (s : Stage)
    → permits locked s ≡ true
    → (s ≡ before_verified) ⊎ ((leads s ≡ false) × (same_stage s physical_applied ≡ false))
unfolding permits leads same_stage
after_locked s h = ground arith

after_before_verified :
    (s : Stage)
    → permits before_verified s ≡ true
    → (s ≡ mutation_started) ⊎ ((leads s ≡ false) × (same_stage s physical_applied ≡ false))
unfolding permits leads same_stage
after_before_verified s h = ground arith

after_mutation_started :
    (s : Stage)
    → permits mutation_started s ≡ true
    → (s ≡ commit_authority_verified)
      ⊎ ((leads s ≡ false) × (same_stage s physical_applied ≡ false))
unfolding permits leads same_stage
after_mutation_started s h = ground arith

after_authority :
    (s : Stage)
    → permits commit_authority_verified s ≡ true
    → (s ≡ physical_applied) ⊎ ((leads s ≡ false) × (same_stage s physical_applied ≡ false))
unfolding permits leads same_stage
after_authority s h = ground arith

-- The last step is the write itself.
write_follows :
    (events : List Event)
    → IsPath (some commit_authority_verified) events
    → has_stage physical_applied events ≡ true
    → (rest : List Event) × (stages events ≡ physical_applied ∷ stages rest)
write_follows [] path h = cc
write_follows (e ∷ events) (here, path) h = elim (after_authority e.stage here) [
  | inl is ↦ (events, ap (λ s. s ∷ stages events) is)
  | inr (out, unlike) ↦ absurd (never_written e.stage events out path (ground (arith, unlike)))
]

first_prepared :
    (events : List Event)
    → IsPath none events
    → has_stage physical_applied events ≡ true
    → (rest : List Event) × (stages events ≡ prepared ∷ stages rest)
      × IsPath (some prepared) rest
      × (has_stage physical_applied rest ≡ true)
unfolding same_stage
first_prepared [] path h = cc
first_prepared (e ∷ events) (here, path) h =
    let is : e.stage ≡ prepared = (same_stage_iff e.stage prepared).0 here in
    let unlike : same_stage e.stage physical_applied ≡ false = rw is refl in
    (
      events,
      ap (λ s. s ∷ stages events) is,
      subst (λ s. IsPath (some s) events) is path,
      ground (arith, unlike),
    )

-- A history in which the target was written begins with these stages, in this order.
pub written-stages :
    (events : List Event)
    → IsPath none events
    → has_stage physical_applied events ≡ true
    → (rest : List Event) × (stages events
        ≡ prepared
          ∷ locked
          ∷ before_verified
          ∷ mutation_started
          ∷ commit_authority_verified
          ∷ physical_applied
          ∷ stages rest)
unfolding same_stage
written-stages events path h =
    let (e1, s1, p1, h1) = first_prepared events path h in
    let (e2, s2, p2, h2) = goes_on prepared locked refl after_prepared e1 p1 h1 in
    let (e3, s3, p3, h3) = goes_on locked before_verified refl after_locked e2 p2 h2 in
    let (e4, s4, p4, h4) =
      goes_on before_verified mutation_started refl after_before_verified e3 p3 h3 in
    let (e5, s5, p5, h5) =
      goes_on mutation_started commit_authority_verified refl after_mutation_started e4 p4 h4 in
    let (rest, s6) = write_follows e5 p5 h5 in (rest, rw (s1, s2, s3, s4, s5, s6) refl)

-- A stage is in a history if it is among its stages.
has_stage-stages :
    (s : Stage) (events : List Event)
    → has_stage s events ≡ any (λ x. same_stage x s) (stages events)
has_stage-stages s [] = refl
has_stage-stages s (e ∷ events) = rw (has_stage-stages s events) refl

module _ (events rest : List Event)
    (h : stages events
      ≡ prepared
        ∷ locked
        ∷ before_verified
        ∷ mutation_started
        ∷ commit_authority_verified
        ∷ physical_applied
        ∷ stages rest) where
  pub has-locked : has_stage locked events ≡ true
  unfolding same_stage
  has-locked = has_stage-stages locked events ∙ rw h refl

  pub has-authority : has_stage commit_authority_verified events ≡ true
  unfolding same_stage
  has-authority = has_stage-stages commit_authority_verified events ∙ rw h refl
