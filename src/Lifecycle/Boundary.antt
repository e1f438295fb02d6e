-- ===== src/Lifecycle/Boundary.antt =====
-- The classification of a state boundary.
use surgical_dev_ops.Base.Outcome.{ok, bind-ok, require-ok, ok-injective}
use surgical_dev_ops.Base.{
  ◌≡◌, ◌⊎◌, inl, inr, refl, sym, ap, subst, String, Bool, true, false, Option, some, str_eq, eq_iff,
  ◌∙◌, arith,
}
use surgical_dev_ops.Json.{Value, undefined, null, boolean, get, text}
use surgical_dev_ops.Lifecycle.{
  spelled, is_filled_text, is_boolean, is_true, operation_outcome, has_failed, boundary,
  boundary_status, classify_state_boundary, transition_table,
}
use surgical_dev_ops.Lifecycle.Laws.{Spells, canonical_symbol-Spells}

-- The status that is due to the facts of a boundary, case by case, and whether it is terminal.
abbrev pub IsDue : Bool → Bool → Bool → Value → Type 0
IsDue authorized failed after r =
    ((authorized ≡ false)
      × (get r "status" ≡ text "NOT_EXECUTABLE")
      × (get r "terminal" ≡ boolean true))
    ⊎ ((authorized ≡ true)
        × (failed ≡ true)
        × (get r "status" ≡ text "FAILED")
        × (get r "terminal" ≡ boolean true))
    ⊎ ((authorized ≡ true)
        × (failed ≡ false)
        × (after ≡ true)
        × (get r "status" ≡ text "COMPLETED")
        × (get r "terminal" ≡ boolean true))
    ⊎ ((authorized ≡ true)
        × (failed ≡ false)
        × (after ≡ false)
        × (get r "status" ≡ text "PENDING_AFTER_STATE")
        × (get r "terminal" ≡ boolean false))

-- The facts that a boundary is classified by.
pub record Facts (input : Value) (failed after : Bool) (r : Value) : Type 0 where
  pub filled : is_filled_text (get input "authorizationStatus") ≡ true
  pub state : get input "afterPresent" ≡ boolean after
  pub outcome :
      ((failed ≡ true) × Spells (get input "outcome") "FAILED")
      ⊎ ((failed ≡ false) × ((get input "outcome" ≡ undefined) ⊎ (get input "outcome" ≡ null)))
  pub due : IsDue (spelled (get input "authorizationStatus") "AUTHORIZED") failed after r

boundary-IsDue :
    (authorized failed after : Bool)
    → IsDue authorized failed after (boundary (boundary_status authorized failed after))
unfolding boundary_status
boundary-IsDue false failed after = inl (refl, refl, refl)
boundary-IsDue true true after = inr (inl (refl, refl, refl, refl))
boundary-IsDue true false true = inr (inr (inl (refl, refl, refl, refl, refl)))
boundary-IsDue true false false = inr (inr (inr (refl, refl, refl, refl, refl)))

outcome-failed :
    (v : Value) (o : Option String)
    → operation_outcome v ≡ ok o
    → ((has_failed o ≡ true) × Spells v "FAILED")
      ⊎ ((has_failed o ≡ false) × ((v ≡ undefined) ⊎ (v ≡ null)))
unfolding operation_outcome
outcome-failed undefined o h = inr (ap has_failed (sym (ok-injective h)), inl refl)
outcome-failed null o h = inr (ap has_failed (sym (ok-injective h)), inr refl)
outcome-failed v o h = bind-ok _ _ h λ s is_symbol made.
    let (spells, known) = canonical_symbol-Spells _ _ _ _ is_symbol in
    let is : str_eq "FAILED" s ≡ true = ground (arith, known) in
    let same : s ≡ "FAILED" = sym ((eq_iff _ _).0 is) in
    inl (
      ap has_failed (sym (ok-injective made)) ∙ ap (λ t. str_eq t "FAILED") same,
      subst (Spells v) same spells,
    )

boolean-is : (v : Value) → is_boolean v ≡ true → v ≡ boolean (is_true v)
boolean-is (boolean b) h = refl
boolean-is _ h = cc

-- Every boundary that is classified has a filled authorization status, a boolean for the state after
-- it, and an outcome that is absent or spells FAILED. It is NOT_EXECUTABLE unless the authorization
-- spells AUTHORIZED; else FAILED if the outcome does; else COMPLETED if the state after it is there;
-- else PENDING_AFTER_STATE. All but the last are terminal.
pub classify_state_boundary-Facts :
    (input r : Value)
    → classify_state_boundary input ≡ ok r
    → (failed after : Bool) × Facts input failed after r
unfolding classify_state_boundary
classify_state_boundary-Facts input r h = require-ok _ _ _ h λ _ h1.
    require-ok _ _ _ h1 λ filled h2. require-ok _ _ _ h2 λ bool h3.
      bind-ok _ _ h3 λ outcome is_outcome h4. (
        has_failed outcome,
        is_true (get input "afterPresent"),
        record {
          filled = filled;
          state = boolean-is _ bool;
          outcome = outcome-failed _ _ is_outcome;
          due = subst (IsDue _ _ _) (ok-injective h4) (boundary-IsDue _ _ _);
        },
      )

-- Where a status leads from PENDING in the transition table.
abbrev pub Reached : String → Type 0
Reached status = (type : String) × (transition_table "PENDING" type ≡ some status)

-- The status of an authorised boundary is either the pending one or one that the lifecycle reaches
-- from PENDING by a single transition; that of any other boundary is NOT_EXECUTABLE.
pub boundary_status-lifecycle :
    (authorized failed after : Bool)
    → ((authorized ≡ false) × (boundary_status authorized failed after ≡ "NOT_EXECUTABLE"))
      ⊎ ((authorized ≡ true)
          × ((boundary_status authorized failed after ≡ "PENDING_AFTER_STATE")
              ⊎ Reached (boundary_status authorized failed after)))
unfolding boundary_status
boundary_status-lifecycle false failed after = inl (refl, refl)
boundary_status-lifecycle true true after = inr (refl, inr ("FAIL", refl))
boundary_status-lifecycle true false true = inr (refl, inr ("COMPLETE", refl))
boundary_status-lifecycle true false false = inr (refl, inl refl)
