-- ===== src/Registry/History.antt =====
-- What becomes of a submission of accelerator/adapters/control-plane-submission-registry.js from
-- one record to a later one.
pub mod Step
pub mod Lifetime
pub mod Replay
use surgical_dev_ops.Base.Outcome.{
  Outcome, ok, throw, ◌>>=◌, ◌>>◌, bind-ok, then-ok, require-ok, reject-ok, ok-injective,
}
use surgical_dev_ops.Base.Text.{includes}
use surgical_dev_ops.Base.{
  some-injective, ◌≡◌, ◌⊎◌, ◌≢◌, ◌∙◌, refl, sym, ap, subst, ℕ, suc, ◌≤◌, Bool, true, false, List,
  [], ◌∷◌, Option, none, some, if◌then◌else◌, ◌&&◌, not, All, arith, Bool-cases, inl, inr, ==_iff,
}
use surgical_dev_ops.Json.{Value, get, same, text, text_satisfies}
use surgical_dev_ops.Protocol.Copy.{deep_freeze_copy}
use surgical_dev_ops.Protocol.Names.{Spelled, Spelled-copy, text_satisfies-Spelled}
use surgical_dev_ops.Registry.{Entry, Registry, empty, lookup}
use surgical_dev_ops.Registry.Tables.{same-eq}
use surgical_dev_ops.Registry.Claim.{
  Claim, replayed, created, claim_key, is_some, new_entry, check_claim, entry_of,
}
use surgical_dev_ops.Registry.Observe.{
  check_observation, observed_entry, observe_fields, is_terminal_value, terminal,
}
use surgical_dev_ops.Registry.Spec.{
  search, replace, Differs, Apart, Submissions, record_claim, claim_submission, bound_submission,
  observe_submission, get_submission, Command, claiming, observing, getting, Answer, claimed,
  recorded, settle, read_only, step, spec_step,
}
use surgical_dev_ops.Registry.Search.{search-All, search-name, search-replace, Telling}
use surgical_dev_ops.Registry.Refinement.{Refines}
use surgical_dev_ops.Registry.Refinement.Claims.{
  Created, claim_key-created, Checked, check_claim-Checked,
}
use surgical_dev_ops.Registry.Refinement.Observations.{
  Succeeds, bound_submission-search, observed_entry-Succeeds,
}
use surgical_dev_ops.Registry.Refinement.Runs.{no_submissions, empty-Refines, step-Refines}

-- A later record of the same submission.
pub record Evolved (e d : Entry) : Type 0 where
  pub operation_kept : d.operation_id ≡ e.operation_id
  pub key_kept : d.idempotency_key ≡ e.idempotency_key
  pub external_kept : d.external_execution_id ≡ e.external_execution_id
  pub request_kept : d.request ≡ e.request
  pub fingerprint_kept : d.intent_fingerprint ≡ e.intent_fingerprint
  pub principal_kept : d.principal ≡ e.principal
  pub authority_kept : d.authority ≡ e.authority
  pub workspace_kept : d.workspace ≡ e.workspace
  pub repository_kept : d.repository ≡ e.repository
  pub sequence_kept : e.observation_sequence ≤ d.observation_sequence
  pub terminal_kept :
      (is_terminal_value e.current_observation_state ≡ false)
      ⊎ (d.current_observation_state ≡ e.current_observation_state)

pub Evolved-refl : (e : Entry) → Evolved e e
Evolved-refl e = record {
  operation_kept = refl;
  key_kept = refl;
  external_kept = refl;
  request_kept = refl;
  fingerprint_kept = refl;
  principal_kept = refl;
  authority_kept = refl;
  workspace_kept = refl;
  repository_kept = refl;
  sequence_kept = omega arith;
  terminal_kept = inr refl;
}

terminal_trans :
    (e d c : Value)
    → (is_terminal_value e ≡ false) ⊎ (d ≡ e)
    → (is_terminal_value d ≡ false) ⊎ (c ≡ d)
    → (is_terminal_value e ≡ false) ⊎ (c ≡ e)
terminal_trans e d c (inl h) k = inl h
terminal_trans e d c (inr h) (inl k) = inl (subst (λ v. is_terminal_value v ≡ false) h k)
terminal_trans e d c (inr h) (inr k) = inr (k ∙ h)

pub Evolved-trans : (e d c : Entry) → Evolved e d → Evolved d c → Evolved e c
Evolved-trans e d c h k = record {
  operation_kept = k.operation_kept ∙ h.operation_kept;
  key_kept = k.key_kept ∙ h.key_kept;
  external_kept = k.external_kept ∙ h.external_kept;
  request_kept = k.request_kept ∙ h.request_kept;
  fingerprint_kept = k.fingerprint_kept ∙ h.fingerprint_kept;
  principal_kept = k.principal_kept ∙ h.principal_kept;
  authority_kept = k.authority_kept ∙ h.authority_kept;
  workspace_kept = k.workspace_kept ∙ h.workspace_kept;
  repository_kept = k.repository_kept ∙ h.repository_kept;
  sequence_kept = omega (arith, h.sequence_kept, k.sequence_kept);
  terminal_kept =
      terminal_trans e.current_observation_state d.current_observation_state
        c.current_observation_state h.terminal_kept k.terminal_kept;
}

is_terminal-Spelled : (v : Value) → is_terminal_value v ≡ true → Spelled v
unfolding is_terminal_value
is_terminal-Spelled v h = text_satisfies-Spelled (includes terminal) v h

-- A terminal record is observed as it is.
terminal-observed :
    (d : Entry) (request c : Value)
    → check_observation d request c ≡ ok tt
    → is_terminal_value d.current_observation_state ≡ true
    → deep_freeze_copy c ≡ d.current_observation_state
unfolding check_observation
terminal-observed d request c h t = require-ok _ _ _ h λ known h. require-ok _ _ _ h λ fresh h.
    reject-ok _ _ _ h λ stays h.
      let agree : same c d.current_observation_state ≡ true = ground arith in
      let same_state : c ≡ d.current_observation_state =
        same-eq c d.current_observation_state agree in
      ap deep_freeze_copy same_state
      ∙ Spelled-copy d.current_observation_state (is_terminal-Spelled d.current_observation_state t)

pub observed-Evolved :
    (n : ℕ) (d : Entry) (request c m t : Value)
    → check_observation d request c ≡ ok tt
    → Evolved d (observed_entry n d c m t)
unfolding observed_entry
observed-Evolved n d request c m t h = record {
  operation_kept = refl;
  key_kept = refl;
  external_kept = refl;
  request_kept = refl;
  fingerprint_kept = refl;
  principal_kept = refl;
  authority_kept = refl;
  workspace_kept = refl;
  repository_kept = refl;
  sequence_kept = omega arith;
  terminal_kept = elim (Bool-cases (is_terminal_value d.current_observation_state)) [
    | inl t ↦ inr (terminal-observed d request c h t)
    | inr t ↦ inl t
  ];
}

-- In a list of submissions that are apart, two that share a name are one.
pub found_unique :
    (f g : Entry → Value) (k j : Value) (d e : Entry) (l : List Entry)
    → Telling g
    → Apart l
    → search f k l ≡ some d
    → search g j l ≡ some e
    → g d ≡ g e
    → d ≡ e
unfolding search
found_unique f g k j d e [] tell apart h i eq = cc
found_unique f g k j d e (c ∷ l) tell apart h i eq = elim (Bool-cases (same (f c) k)) [
  | inl x ↦
      let first : c ≡ d = some-injective (rw x at h) in
      elim (Bool-cases (same (g c) j)) [
        | inl y ↦ sym first ∙ some-injective (rw y at i)
        | inr y ↦
            absurd
              (tell c e (search-All (λ z. Differs c z) g j l apart.0 (rw y at i)) (ap g first ∙ eq))
      ]
  | inr x ↦ elim (Bool-cases (same (g c) j)) [
    | inl y ↦
        let first : c ≡ e = some-injective (rw y at i) in
        absurd
          (tell c d (search-All (λ z. Differs c z) f k l apart.0 (rw x at h)) (ap g first ∙ sym eq))
    | inr y ↦ found_unique f g k j d e l tell apart.1 (rw x at h) (rw y at i) eq
  ]
]
