-- ===== src/Transaction/Early.antt =====
-- Histories of a transaction up to the proof of commit authority.
use surgical_dev_ops.Base.Outcome.{ok, require-ok, ok-injective}
use surgical_dev_ops.Base.{
  ◌≡◌, refl, sym, subst, ℕ, suc, ◌≤◌, ◌<◌, true, false, List, [], ◌∷◌, All, length, Option, none,
  some, arith,
}
use surgical_dev_ops.Transaction.Stage.{
  Stage, recovered, recovery_unresolved, permits, same_stage, ordinal,
}
use surgical_dev_ops.Transaction.Data.{Event, Transaction}
use surgical_dev_ops.Transaction.Validate.{check_history, follows, has_stage, has_recovery}
use surgical_dev_ops.Transaction.History.{IsPath, check_history-IsPath}

-- A stage up to the proof of commit authority comes behind a stage before it.
permits-lt : (p q : Stage) → permits p q ≡ true → ordinal q ≤ 4 → ordinal p < ordinal q
unfolding permits ordinal
permits-lt p q h k = ground arith

abbrev IsBelow : ℕ → Option Stage → Type 0
IsBelow k none = Unit {0}
IsBelow k (some s) = ordinal s ≤ k

follows-IsBelow :
    (k : ℕ) (previous : Option Stage) (s : Stage)
    → k ≤ 4
    → follows previous s ≡ true
    → ordinal s ≤ k
    → IsBelow k previous
follows-IsBelow k none s small h le = tt
follows-IsBelow k (some p) s small h le = omega (arith, permits-lt p s h (omega arith))

abbrev AllBelow : ℕ → List Event → Type 0
AllBelow k events = All (λ (e : Event). ordinal e.stage ≤ k) events

path-IsBelow :
    (t : Transaction) (k : ℕ) (previous : Option Stage) (index : ℕ) (events : List Event)
    (last : Option Stage)
    → k ≤ 4
    → check_history t previous index events ≡ ok last
    → IsPath previous events
    → IsBelow k last
    → IsBelow k previous × AllBelow k events
unfolding check_history
path-IsBelow t k previous index [] last small h path end =
    (subst (IsBelow k) (sym (ok-injective h)) end, tt)
path-IsBelow t k previous index (e ∷ events) last small h (here, path) end =
    require-ok _ _ _ h λ _ rest.
      let (this, later) =
        path-IsBelow t k (some e.stage) (suc index) events last small rest path end in
      (follows-IsBelow k previous e.stage small here this, (this, later))

pub history-AllBelow :
    (t : Transaction) (s : Stage)
    → check_history t none 0 t.history ≡ ok (some s)
    → ordinal s ≤ 4
    → AllBelow (ordinal s) t.history
history-AllBelow t s h small =
    (path-IsBelow t (ordinal s) none 0 t.history (some s) small h
      (check_history-IsPath t none 0 t.history h) (omega arith)).1

same_stage-above : (a b : Stage) → ordinal a < ordinal b → same_stage a b ≡ false
unfolding same_stage
same_stage-above a b h = ground arith

pub below-has_stage :
    (k : ℕ) (stage : Stage) (events : List Event)
    → k < ordinal stage
    → AllBelow k events
    → has_stage stage events ≡ false
below-has_stage k stage [] h a = refl
below-has_stage k stage (e ∷ events) h (this, later) =
    rw (same_stage-above e.stage stage (omega arith)) (below-has_stage k stage events h later)

pub below-has_recovery :
    (k : ℕ) (events : List Event) → k ≤ 4 → AllBelow k events → has_recovery events ≡ false
unfolding ordinal
below-has_recovery k [] h a = refl
below-has_recovery k (e ∷ events) h (this, later) =
    rw
      (
        same_stage-above e.stage recovered (omega arith),
        same_stage-above e.stage recovery_unresolved (omega arith),
      )
      (below-has_recovery k events h later)

-- A history of PREPARED events alone has one event.
pub prepared-length :
    (events : List Event) → IsPath none events → AllBelow 0 events → length events ≤ 1
unfolding ordinal permits
prepared-length [] path a = omega arith
prepared-length (e ∷ []) path a = omega arith
prepared-length (e ∷ d ∷ events) (one, (two, path)) (x, (y, z)) =
    absurd (impossible e.stage d.stage two x y)
  where
    impossible : (p q : Stage) → permits p q ≡ true → ordinal p ≤ 0 → ordinal q ≤ 0 → ⊥
    impossible p q h a b = ground arith
