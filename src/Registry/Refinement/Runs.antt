-- ===== src/Registry/Refinement/Runs.antt =====
-- Sequences of calls of the registry.
use surgical_dev_ops.Base.Outcome.{Outcome, ok, throw}
use surgical_dev_ops.Base.{◌≡◌, refl, ap₂, List, [], ◌∷◌}
use surgical_dev_ops.Registry.{Entry, Registry, empty, lookup}
use surgical_dev_ops.Registry.Claim.{claim}
use surgical_dev_ops.Registry.Observe.{observe}
use surgical_dev_ops.Registry.Spec.{
  search, Submissions, claim_submission, observe_submission, get_submission, Command, claiming,
  observing, getting, claimed, recorded, read_only, step, spec_step, run, spec_run, after,
  spec_after,
}
use surgical_dev_ops.Registry.Refinement.{Refines, settle-Match, get-Refines}
use surgical_dev_ops.Registry.Refinement.Claims.{claim-Refines}
use surgical_dev_ops.Registry.Refinement.Observations.{observe-Refines}

abbrev pub no_submissions : Submissions
no_submissions = record { entries = []; made = 0 }

pub empty-Refines : Refines empty no_submissions
unfolding lookup search
empty-Refines = record {
  operations = λ k. refl;
  keys = λ k. refl;
  externals = λ k. refl;
  counted = refl;
  numbered = tt;
  apart = tt;
}

read_only-state :
    (r : Registry) (s : Submissions) (m : Outcome Entry)
    → Refines r s
    → Refines (read_only r m).0 (read_only s m).0 × ((read_only r m).1 ≡ (read_only s m).1)
read_only-state r s (ok e) h = (h, refl)
read_only-state r s (throw e) h = (h, refl)

-- One call answers the same, and leaves the maps and the list in step.
pub step-Refines :
    (r : Registry) (s : Submissions) (c : Command)
    → Refines r s
    → Refines (step r c).0 (spec_step s c).0 × ((step r c).1 ≡ (spec_step s c).1)
unfolding step spec_step
step-Refines r s (claiming input) h =
    settle-Match claimed r s (claim r input) (claim_submission s input) h
      (claim-Refines r s input h)
step-Refines r s (observing input) h =
    settle-Match recorded r s (observe r input) (observe_submission s input) h
      (observe-Refines r s input h)
step-Refines r s (getting request) h =
    rw (get-Refines r s request h) (read_only-state r s (get_submission s request) h)

pub after-Refines :
    (r : Registry) (s : Submissions) (cs : List Command)
    → Refines r s
    → Refines (after r cs) (spec_after s cs)
unfolding after spec_after
after-Refines r s [] h = h
after-Refines r s (c ∷ cs) h =
    after-Refines (step r c).0 (spec_step s c).0 cs (step-Refines r s c h).0

run-Refines :
    (r : Registry) (s : Submissions) (cs : List Command) → Refines r s → run r cs ≡ spec_run s cs
unfolding run spec_run
run-Refines r s [] h = refl
run-Refines r s (c ∷ cs) h =
    let one = step-Refines r s c h in
    ap₂ (λ a l. a ∷ l) one.1 (run-Refines (step r c).0 (spec_step s c).0 cs one.0)

-- On every sequence of claims, observations and reads, however
-- malformed, the three maps that share their objects answer as one list of submissions does, in which
-- a submission is found by any of its names and read by its operation and its key together. Errors
-- are among the answers.
pub run-spec_run : (commands : List Command) → run empty commands ≡ spec_run no_submissions commands
run-spec_run commands = run-Refines empty no_submissions commands empty-Refines
