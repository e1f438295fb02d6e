-- ===== src/Risk/Laws.antt =====
-- What an execution that the classification allows is known to have.
use surgical_dev_ops.Base.Outcome.{Outcome, ok, throw, is_ok}
use surgical_dev_ops.Base.{
  ◌≡◌, refl, sym, subst, List, ◌⊎◌, inl, inr, ℕ, ◌≤◌, String, Bool, true, false, ◌&&◌, not,
  Bool-cases, Option, some, none, arith,
}
use surgical_dev_ops.Json.{Value, get, is_object}
use surgical_dev_ops.Identity.{Temporal}
use surgical_dev_ops.Risk.{
  Level, r0, r1, r2, r3, level_order, highest_level, normalize_mode, CallerRisk, absent, malformed,
  given, normalize_caller_risk, fact, computed_level,
}
use surgical_dev_ops.Risk.Classify.{
  Classification, is_r3, is_r0, denied, defect, raised, evaluate_policy, classified, with_level,
  with_risk, with_defect, with_mode, classify_scope,
}

highest_left : (a b : Level) → level_order a ≤ level_order (highest_level a b)
unfolding highest_level level_order
highest_left r0 b = omega arith
highest_left r1 r0 = omega arith
highest_left r1 r1 = omega arith
highest_left r1 r2 = omega arith
highest_left r1 r3 = omega arith
highest_left r2 r0 = omega arith
highest_left r2 r1 = omega arith
highest_left r2 r2 = omega arith
highest_left r2 r3 = omega arith
highest_left r3 r0 = omega arith
highest_left r3 r1 = omega arith
highest_left r3 r2 = omega arith
highest_left r3 r3 = omega arith

pub highest_right : (a b : Level) → level_order b ≤ level_order (highest_level a b)
unfolding highest_level level_order
highest_right r0 r0 = omega arith
highest_right r0 r1 = omega arith
highest_right r0 r2 = omega arith
highest_right r0 r3 = omega arith
highest_right r1 r0 = omega arith
highest_right r1 r1 = omega arith
highest_right r1 r2 = omega arith
highest_right r1 r3 = omega arith
highest_right r2 r0 = omega arith
highest_right r2 r1 = omega arith
highest_right r2 r2 = omega arith
highest_right r2 r3 = omega arith
highest_right r3 r0 = omega arith
highest_right r3 r1 = omega arith
highest_right r3 r2 = omega arith
highest_right r3 r3 = omega arith

raised-computed : (a : Level) (c : CallerRisk) → level_order a ≤ level_order (raised a c)
raised-computed a (given b) = highest_left a b
raised-computed a absent = omega arith
raised-computed a malformed = omega arith

-- The order of the risk that the caller gives, or none.
abbrev pub caller_order : CallerRisk → ℕ
caller_order (given l) = level_order l
caller_order _ = 0

raised-caller : (a : Level) (c : CallerRisk) → caller_order c ≤ level_order (raised a c)
raised-caller a (given b) = highest_right a b
raised-caller a absent = omega arith
raised-caller a malformed = omega arith

module _ (sha256 : String → String) (authorized_root : String → Option String) where
  -- The level of an allowed execution and what the policy was evaluated to.
  pub record Permitted (t : Temporal) (input : Value) (c : Classification) : Type 0 where
    pub mode : String
    pub level : Level
    pub moded : normalize_mode (get input "mode") ≡ some mode
    pub sound : defect input mode ≡ none
    pub levelled : c.level ≡ some level
    pub above_computed : level_order (computed_level input mode) ≤ level_order level
    pub above_caller : caller_order (normalize_caller_risk (get input "risk")) ≤ level_order level
    pub clean : (fact input "worktreeClean" ≡ true) ⊎ (is_r0 level ≡ true)
    pub authority : Value
    pub permitted :
        evaluate_policy sha256 authorized_root t (get input "policy") level input ≡ ok authority
    pub approval_required : c.human_approval_required ≡ is_r3 level

  allowed : (m : Outcome Value) → is_ok m ≡ true → (a : Value) × (m ≡ ok a)
  allowed (ok a) h = (a, refl)
  allowed (throw e) h = cc

  clean-cases : (a b : Bool) → (not a && not b) ≡ false → (a ≡ true) ⊎ (b ≡ true)
  clean-cases true b h = inl refl
  clean-cases false true h = inr refl
  clean-cases false false h = cc

  with_level-Permitted :
      (t : Temporal) (input : Value) (mode : String) (caller : CallerRisk) (level : Level)
      (signals : List String)
      → normalize_mode (get input "mode") ≡ some mode
      → defect input mode ≡ none
      → level_order (computed_level input mode) ≤ level_order level
      → caller_order (normalize_caller_risk (get input "risk")) ≤ level_order level
      → (with_level sha256 authorized_root t input mode caller level signals).execution_allowed
        ≡ true
      → Permitted t input (with_level sha256 authorized_root t input mode caller level signals)
  unfolding with_level classified denied
  with_level-Permitted t input mode caller level signals moded sound computed asked h =
      elim (Bool-cases (not (fact input "worktreeClean") && not (is_r0 level))) [
        | inl dirty ↦ let clash : false ≡ true = rw dirty at h in cc
        | inr fine ↦
            rw fine
              let policy =
                  evaluate_policy sha256 authorized_root t (get input "policy") level input in
                let found = allowed policy (rw fine at h) in
                record {
                  mode = mode;
                  level = level;
                  moded = moded;
                  sound = sound;
                  levelled = refl;
                  above_computed = computed;
                  above_caller = asked;
                  clean = clean-cases (fact input "worktreeClean") (is_r0 level) fine;
                  authority = found.0;
                  permitted = found.1;
                  approval_required = refl;
                }
      ]

  with_risk-Permitted :
      (t : Temporal) (input : Value) (mode : String) (caller : CallerRisk)
      → normalize_mode (get input "mode") ≡ some mode
      → defect input mode ≡ none
      → normalize_caller_risk (get input "risk") ≡ caller
      → (with_risk sha256 authorized_root t input mode caller).execution_allowed ≡ true
      → Permitted t input (with_risk sha256 authorized_root t input mode caller)
  unfolding with_risk denied
  with_risk-Permitted t input mode malformed moded sound was h = cc
  with_risk-Permitted t input mode absent moded sound was h =
      with_level-Permitted t input mode absent _ _ moded sound
        (raised-computed (computed_level input mode) absent)
        (subst (λ x. caller_order x ≤ level_order (raised (computed_level input mode) absent))
          (sym was) (raised-caller (computed_level input mode) absent))
        h
  with_risk-Permitted t input mode (given b) moded sound was h =
      with_level-Permitted t input mode (given b) _ _ moded sound
        (raised-computed (computed_level input mode) (given b))
        (subst (λ x. caller_order x ≤ level_order (raised (computed_level input mode) (given b)))
          (sym was) (raised-caller (computed_level input mode) (given b)))
        h

  with_defect-Permitted :
      (t : Temporal) (input : Value) (mode : String) (d : Option String)
      → normalize_mode (get input "mode") ≡ some mode
      → defect input mode ≡ d
      → (with_defect sha256 authorized_root t input mode d).execution_allowed ≡ true
      → Permitted t input (with_defect sha256 authorized_root t input mode d)
  unfolding with_defect denied
  with_defect-Permitted t input mode (some reason) moded was h = cc
  with_defect-Permitted t input mode none moded was h =
      with_risk-Permitted t input mode (normalize_caller_risk (get input "risk")) moded was refl h

  with_mode-Permitted :
      (t : Temporal) (input : Value) (m : Option String)
      → normalize_mode (get input "mode") ≡ m
      → (with_mode sha256 authorized_root t input m).execution_allowed ≡ true
      → Permitted t input (with_mode sha256 authorized_root t input m)
  unfolding with_mode denied
  with_mode-Permitted t input none was h = cc
  with_mode-Permitted t input (some mode) was h =
      with_defect-Permitted t input mode (defect input mode) was refl h

  -- An execution is allowed only for an object with a known mode and no defect, at a level that is at
  -- least the computed one and at least the caller's, with a clean worktree unless the level is R0,
  -- and under a policy that permits that level.
  pub classify_scope-Permitted :
      (t : Temporal) (input : Value)
      → (classify_scope sha256 authorized_root t input).execution_allowed ≡ true
      → Permitted t input (classify_scope sha256 authorized_root t input)
  unfolding classify_scope denied
  classify_scope-Permitted t input h = elim (Bool-cases (is_object input)) [
    | inl object ↦
        rw object
          (with_mode-Permitted t input (normalize_mode (get input "mode")) refl (rw object at h))
    | inr other ↦ let clash : false ≡ true = rw other at h in cc
  ]
