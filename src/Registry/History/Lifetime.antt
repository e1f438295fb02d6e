-- ===== src/Registry/History/Lifetime.antt =====
-- Sequences of calls of the registry and what becomes of a submission.
use surgical_dev_ops.Base.{◌≡◌, ◌∙◌, refl, sym, ap, subst, List, [], ◌∷◌, none, some}
use surgical_dev_ops.Json.{Value, get}
use surgical_dev_ops.Protocol.Names.{Names, validate_request-Names}
use surgical_dev_ops.Registry.{Entry, Registry, empty, lookup}
use surgical_dev_ops.Registry.Observe.{observed_entry}
use surgical_dev_ops.Registry.Spec.{
  search, Submissions, Command, step, after, spec_after, spec_step,
}
use surgical_dev_ops.Registry.Refinement.{Refines}
use surgical_dev_ops.Registry.Refinement.Claims.{Checked, new_entry-operation, new_entry-key}
use surgical_dev_ops.Registry.Refinement.Runs.{
  no_submissions, empty-Refines, step-Refines, after-Refines,
}
use surgical_dev_ops.Registry.History.{Evolved, Evolved-refl, Evolved-trans}
use surgical_dev_ops.Registry.History.Step.{Later, IsName, spec_step-Later}

pub checked-Names : (input request : Value) → Checked input request → Names request
checked-Names input request h =
    validate_request-Names "submit" (get input "request") request refl h.validated

pub operation_id-IsName : IsName (λ e. e.operation_id)
unfolding observed_entry
operation_id-IsName = record {
  telling = λ a b apart. apart.0;
  kept = λ n d c m t. refl;
  free = λ s input request e checked made.
      subst (λ k. search (λ x. x.operation_id) k s.entries ≡ none)
        (sym (
            new_entry-operation s.made request (get input "externalExecutionId")
              (get input "observedAt") (checked-Names input request checked).operation_named)
          ∙ ap (λ x. x.operation_id) made.made_now)
        made.operation_free;
}

pub idempotency_key-IsName : IsName (λ e. e.idempotency_key)
unfolding observed_entry
idempotency_key-IsName = record {
  telling = λ a b apart. apart.1;
  kept = λ n d c m t. refl;
  free = λ s input request e checked made.
      subst (λ k. search (λ x. x.idempotency_key) k s.entries ≡ none)
        (sym (
            new_entry-key s.made request (get input "externalExecutionId") (get input "observedAt")
              (checked-Names input request checked).key_named)
          ∙ ap (λ x. x.idempotency_key) made.made_now)
        made.key_free;
}

pub spec_after-Later :
    (name : Entry → Value) (k : Value) (e : Entry) (r : Registry) (s : Submissions)
    (cs : List Command)
    → IsName name
    → Refines r s
    → search name k s.entries ≡ some e
    → Later name k e (spec_after s cs).entries
unfolding spec_after
spec_after-Later name k e r s [] is_name h found = (e, found, Evolved-refl e)
spec_after-Later name k e r s (c ∷ cs) is_name h found =
    let one = spec_step-Later name k e s c is_name h.apart found in
    let rest =
      spec_after-Later name k one.0 (step r c).0 (spec_step s c).0 cs is_name
        (step-Refines r s c h).0 one.1 in
    (rest.0, rest.1, Evolved-trans e one.0 rest.0 one.2 rest.2)

-- A submission that the registry holds under an operation is held under it ever after: whatever calls
-- come later, its names, its request, its fingerprint, its principal, its authority, its workspace
-- and its repository stay as they are, its sequence does not fall, and a terminal classification is
-- never left.
pub lookup-Evolved :
    (before calls : List Command) (k : Value) (e : Entry)
    → lookup k (after empty before).by_operation ≡ some e
    → (d : Entry) × (lookup k (after (after empty before) calls).by_operation ≡ some d)
      × Evolved e d
lookup-Evolved before calls k e found =
    let r = after empty before in
    let s = spec_after no_submissions before in
    let h : Refines r s = after-Refines empty no_submissions before empty-Refines in
    let later =
      spec_after-Later (λ x. x.operation_id) k e r s calls operation_id-IsName h
        (sym (h.operations k) ∙ found) in
    (later.0, (after-Refines r s calls h).operations k ∙ later.1, later.2)
