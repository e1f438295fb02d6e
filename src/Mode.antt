-- ===== src/Mode.antt =====
-- accelerator/core/interaction-mode.js: the interaction mode, which changes the presentation and no
-- rule of governance.
use surgical_dev_ops.Base.Text.{codes, trim, upper}
use surgical_dev_ops.Base.Outcome.{Outcome, ok, throw, ◌>>=◌, bind-ok, ok-injective}
use surgical_dev_ops.Base.{
  ◌≡◌, refl, subst, String, Bool, true, false, List, [], ◌∷◌, str_eq, if◌then◌else◌,
}
use surgical_dev_ops.Json.{Value, undefined, text, boolean, object, end, field, get}
use surgical_dev_ops.Lifecycle.{find_symbol, symbol_of}

abbrev pub interaction_modes : List String
interaction_modes = "NATURAL" ∷ "ENGINEER" ∷ "EXPERT" ∷ []

-- `normalizeInteractionMode`, whose argument defaults to EXPERT. A blank text spells no mode.
unfoldable pub normalize_interaction_mode : Value → Outcome String
normalize_interaction_mode undefined = ok "EXPERT"
normalize_interaction_mode (text s) =
    symbol_of (find_symbol interaction_modes (upper (trim (codes s)))) "Invalid interaction mode."
normalize_interaction_mode _ = throw "Interaction mode must be a string."

abbrev presentation : Bool → String → Bool → Value
presentation natural evidence commands = object true (
    field "naturalLanguagePrimary" (boolean natural) (
      field "technicalEvidence" (text evidence)
        (field "deterministicCommands" (boolean commands) end)))

unfoldable pub presentation_for : String → Value
presentation_for mode =
    if str_eq mode "NATURAL"
    then presentation true "SUMMARY" false
    else if str_eq mode "ENGINEER"
    then presentation true "TECHNICAL" false
    else presentation false "EXACT" true

abbrev pub governance : Value
governance = object true (
    field "authorityProfile" (text "CANONICAL") (
      field "orchestratorRequired" (boolean true) (
        field "riskClassificationRequired" (boolean true) (
          field "capabilityEnforcementRequired" (boolean true)
            (field "securityInvariantsReduced" (boolean false) end)))))

unfoldable pub create_interaction_mode : Value → Outcome Value
create_interaction_mode value = do
  mode ← normalize_interaction_mode value
  ok (
      object true (
        field "schema" (text "sdo.interaction_mode.v1") (
          field "mode" (text mode)
            (field "presentation" (presentation_for mode) (field "governance" governance end)))))

-- Whatever mode is asked for, if it is created, two modes have the same governance: the orchestrator,
-- the risk classification and the enforcement of capabilities are required in each.
pub create_interaction_mode-governance :
    (v w a b : Value)
    → create_interaction_mode v ≡ ok a
    → create_interaction_mode w ≡ ok b
    → (get a "governance" ≡ get b "governance") × (get a "governance" ≡ governance)
unfolding create_interaction_mode
create_interaction_mode-governance v w a b h k = bind-ok _ _ h λ m _ made.
    bind-ok _ _ k λ n _ made'.
      subst (λ x. (get x "governance" ≡ get b "governance") × (get x "governance" ≡ governance))
        (ok-injective made)
        (subst (λ y. (governance ≡ get y "governance") × (governance ≡ governance))
          (ok-injective made') (refl, refl))
