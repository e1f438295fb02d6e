-- ===== src/Transaction/Extend.antt =====
-- A transaction with one more event in its history: when it is valid again.
use surgical_dev_ops.Base.Outcome.{
  ok, require-ok, require-true, require-eq-ok, every-AllTrue, AllTrue, AllTrue-every, chains,
  ok-injective,
}
use surgical_dev_ops.Base.{
  ◌∙◌, ◌≡◌, refl, ap, ℕ, suc, ◌+◌, String, Bool, true, List, [], ◌∷◌, ◌++◌, length, length-append,
  leb, ==_iff, ==_refl, Option, none, some, arith, le→leb,
}
use surgical_dev_ops.Json.{Value}
use surgical_dev_ops.Transaction.Stage.{Stage, permits, same_stage_iff}
use surgical_dev_ops.Transaction.Data.{Extra, Event, Transaction}
use surgical_dev_ops.Transaction.Validate.{
  event_ok, check_history, has_fitting_keys, at_stage, check_identity, identity_tests, check_lock,
  check_authority, check_recovery,
}
use surgical_dev_ops.Transaction.Safety.{Checked}

-- The event that an operation appends.
abbrev pub new_event : Transaction → Stage → Extra → Event
new_event t stage extra = record {
  sequence = t.version + 1;
  stage = stage;
  extra = extra;
  frozen = true;
}

abbrev pub extend : Transaction → Stage → Extra → Value → Value → Value → Transaction
extend t stage extra lock authority recovery = record t {
  version = t.version + 1;
  stage = stage;
  lock = lock;
  commit_authority = authority;
  recovery_evidence = recovery;
  history = t.history ++ new_event t stage extra ∷ [];
  frozen = true;
}

-- Whether an event's keys fit a transaction.
abbrev pub fits : Transaction → Event → Bool
fits t e = has_fitting_keys t.lock t.commit_authority t.recovery_evidence e.stage e.extra

abbrev pub Agree : Transaction → Transaction → List Event → Type 0
Agree t u [] = Unit {0}
Agree t u (e ∷ events) = (fits t e ≡ true → fits u e ≡ true) × Agree t u events

event_ok-transfer :
    (t u : Transaction) (previous : Option Stage) (index : ℕ) (e : Event)
    → (fits t e ≡ true → fits u e ≡ true)
    → event_ok t previous index e ≡ true
    → event_ok u previous index e ≡ true
unfolding event_ok
event_ok-transfer t u previous index e agree h =
    let parts = every-AllTrue _ h in AllTrue-every _ (agree parts.0, parts.1)

check_history-cons :
    (t : Transaction) (previous : Option Stage) (index : ℕ) (e : Event) (events : List Event)
    {last : Option Stage}
    → event_ok t previous index e ≡ true
    → check_history t (some e.stage) (suc index) events ≡ ok last
    → check_history t previous index (e ∷ events) ≡ ok last
unfolding check_history chains
check_history-cons t previous index e events here rest = rw here rest

-- A history is read against the lock and the evidence of its transaction, and against nothing else.
pub check_history-transfer :
    (t u : Transaction) (previous : Option Stage) (index : ℕ) (events : List Event)
    {last : Option Stage}
    → Agree t u events
    → check_history t previous index events ≡ ok last
    → check_history u previous index events ≡ ok last
unfolding check_history
check_history-transfer t u previous index [] agree h = h
check_history-transfer t u previous index (e ∷ events) agree h = require-ok _ _ _ h λ here rest.
    check_history-cons u previous index e events
      (event_ok-transfer t u previous index e agree.0 here)
      (check_history-transfer t u (some e.stage) (suc index) events agree.1 rest)

pub check_history-append :
    (t : Transaction) (previous : Option Stage) (index : ℕ) (events : List Event) (e : Event)
    (last : Option Stage) (place : ℕ)
    → check_history t previous index events ≡ ok last
    → place ≡ index + length events
    → event_ok t last place e ≡ true
    → check_history t previous index (events ++ e ∷ []) ≡ ok (some e.stage)
unfolding check_history
check_history-append t previous index [] e last place h at fits =
    let same : previous ≡ last = ok-injective h in
    let here : place ≡ index = omega arith in
    check_history-cons t previous index e [] (rw (same, ← here) fits) refl
check_history-append t previous index (d ∷ events) e last place h at fits =
    require-ok _ _ _ h λ here rest. check_history-cons t previous index d (events ++ e ∷ []) here (
      check_history-append t (some d.stage) (suc index) events e last place rest (omega arith) fits)

-- What a validation of the identity says.
pub check_identity-tests :
    (sha256 : String → String) (t : Transaction)
    → check_identity sha256 t ≡ ok tt
    → AllTrue (identity_tests sha256 t)
unfolding check_identity
check_identity-tests sha256 t h = every-AllTrue _ (require-eq-ok _ _ h)

tests-check_identity :
    (sha256 : String → String) (t : Transaction)
    → AllTrue (identity_tests sha256 t)
    → check_identity sha256 t ≡ ok tt
unfolding check_identity
tests-check_identity sha256 t h = require-true _ _ (AllTrue-every _ h)

pub check_identity-length :
    (sha256 : String → String) (t : Transaction)
    → check_identity sha256 t ≡ ok tt
    → length t.history ≡ t.version
check_identity-length sha256 t h = (==_iff _ _).0 (check_identity-tests sha256 t h).1.1.1.1.0

pub check_identity-positive :
    (sha256 : String → String) (t : Transaction)
    → check_identity sha256 t ≡ ok tt
    → leb 1 t.version ≡ true
check_identity-positive sha256 t h = (check_identity-tests sha256 t h).1.0

pub at_stage-some : (last : Option Stage) (s : Stage) → at_stage last s ≡ true → last ≡ some s
at_stage-some none s h = cc
at_stage-some (some r) s h = ap some ((same_stage_iff r s).0 h)

module _ (sha256 : String → String) (t : Transaction) (stage : Stage) (extra : Extra)
    (lock authority recovery : Value) where
  check_identity-extend :
      check_identity sha256 t ≡ ok tt
      → check_identity sha256 (extend t stage extra lock authority recovery) ≡ ok tt
  check_identity-extend h =
      let a = check_identity-tests sha256 t h in
      let longer : length (t.history ++ new_event t stage extra ∷ []) ≡ t.version + 1 = omega (
        arith,
        length-append t.history (new_event t stage extra ∷ []),
        check_identity-length sha256 t h,
      ) in
      tests-check_identity sha256 (extend t stage extra lock authority recovery) (
        a.0,
        (
          le→leb 1 (t.version + 1) (omega arith),
          (a.1.1.0, (a.1.1.1.0, ((==_iff _ _).1 longer, (refl, tt)))),
        ),
      )

  event_ok-new :
      permits t.stage stage ≡ true
      → has_fitting_keys lock authority recovery stage extra ≡ true
      → event_ok
          (extend t stage extra lock authority recovery)
          (some t.stage)
          t.version
          (new_event t stage extra)
        ≡ true
  unfolding event_ok
  event_ok-new next fit = AllTrue-every _ (fit, (==_refl (t.version + 1), (refl, (next, tt))))

  -- A valid transaction stays valid with one more event, if the stage may come next, the old events
  -- and the new one fit the new lock and evidence, and these pass their own checks.
  pub extend-Checked :
      Checked sha256 t
      → permits t.stage stage ≡ true
      → Agree t (extend t stage extra lock authority recovery) t.history
      → has_fitting_keys lock authority recovery stage extra ≡ true
      → check_lock sha256 (extend t stage extra lock authority recovery) ≡ ok tt
      → check_authority sha256 (extend t stage extra lock authority recovery) ≡ ok tt
      → check_recovery sha256 (extend t stage extra lock authority recovery) ≡ ok tt
      → Checked sha256 (extend t stage extra lock authority recovery)
  extend-Checked c next agree fit k a r = record {
    identity = check_identity-extend c.identity;
    last = some stage;
    history =
        check_history-append (extend t stage extra lock authority recovery) none 0 t.history
          (new_event t stage extra) (some t.stage) t.version
          (check_history-transfer t (extend t stage extra lock authority recovery) none 0 t.history
            agree (c.history ∙ ap ok (at_stage-some c.last t.stage c.at)))
          (omega (arith, check_identity-length sha256 t c.identity)) (event_ok-new next fit);
    at = (same_stage_iff stage stage).1 refl;
    lock = k;
    authority = a;
    recovery = r;
  }
