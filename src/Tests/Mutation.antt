-- ===== src/Tests/Mutation.antt =====
-- A mutation from its definition to the written target, and its recovery.
use surgical_dev_ops.Base.Outcome.{Outcome, ok, ◌>>=◌}
use surgical_dev_ops.Base.{◌≡◌, refl, true, false, List, ◌∷◌, ◌++◌, none}
use surgical_dev_ops.Json.{Value, null, text, object, end, field, get, is_string}
use surgical_dev_ops.Clock.Authority.{classify_mutation_authority}
use surgical_dev_ops.Transaction.Stage.{
  prepared, locked, before_verified, mutation_started, commit_authority_verified, physical_applied,
}
use surgical_dev_ops.Transaction.Data.{Transaction, Event}
use surgical_dev_ops.Transaction.Validate.{require_lock_metadata, require_transaction}
use surgical_dev_ops.Transaction.Operations.{
  create_mutation_transaction, create_commit_authority_evidence, bind_commit_authority_evidence,
  bind_mutation_lock, transition_mutation_transaction,
}
use surgical_dev_ops.Transaction.Safety.{IsAuthorized, physical-IsAuthorized}
use surgical_dev_ops.Transaction.History.{stages}
use surgical_dev_ops.Transaction.Preserve.{create-valid, transition-valid}
use surgical_dev_ops.Transaction.Bind.{bind_lock-valid}
use surgical_dev_ops.Transaction.BindEvidence.{bind_authority-valid}
use surgical_dev_ops.Transaction.Steps.{
  Reach, here, next, lock, advance, Reach-keeps, terminal-final,
}
use surgical_dev_ops.Transaction.Authority.{with_field, authoritative_fingerprint_valid}
use surgical_dev_ops.Transaction.Forged.{forged_decision-passes}
use surgical_dev_ops.Transaction.Replay.{assert_same-definition}
use surgical_dev_ops.Transaction.Operations.{assert_same_mutation_transaction}
use surgical_dev_ops.Tests.Scenario.{
  running, sha, hash, definition_value, lock_value, reading, bounds, or_default, no_transaction,
}

abbrev evaluation : Outcome Value
evaluation = classify_mutation_authority sha (reading "2024-01-01T00:00:01.000Z" "5") bounds none

abbrev authority_input : Value → Value
authority_input e = object false (
    field "policyDecision" (text "ALLOWED") (
      field "riskLevel" (text "R3") (
        field "capabilityType" (text "FILESYSTEM_PATCH") (
          field "action" (text "PATCH_FILE") (
            field "scope"
              (object true (
                field "target"
                  (object true (
                    field "canonicalPath" (text "/w/a.js") (
                      field "beforeSha256" (text hash)
                        (field "replacementSha256" (text hash) end))))
                  end))
              (field "authoritativeEvaluation" e end))))))

-- The transaction at the moments of its life.
abbrev created : Outcome Transaction
created = create_mutation_transaction sha definition_value

abbrev held : Outcome Transaction
held = created >>= λ t. bind_mutation_lock sha t lock_value

abbrev checked : Outcome Transaction
checked = held >>= λ t. transition_mutation_transaction sha t "BEFORE_VERIFIED"

abbrev started : Outcome Transaction
started = checked >>= λ t. transition_mutation_transaction sha t "MUTATION_STARTED"

abbrev authorised : Outcome Transaction
authorised = evaluation >>= λ e. started >>= λ t.
    create_commit_authority_evidence sha t (authority_input e) >>= λ evidence.
    bind_commit_authority_evidence sha t evidence

abbrev written : Outcome Transaction
written = authorised >>= λ t. transition_mutation_transaction sha t "PHYSICAL_APPLIED"

abbrev at : Outcome Transaction → Transaction
at o = or_default no_transaction o

abbrev evidence : Value
evidence =
    or_default null
      (evaluation >>= λ e. create_commit_authority_evidence sha (at started) (authority_input e))

physical-IsAuthorized_example :
    ((rest : List Event) × (stages (at written).history
        ≡ prepared
          ∷ locked
          ∷ before_verified
          ∷ mutation_started
          ∷ commit_authority_verified
          ∷ physical_applied
          ∷ stages rest))
    × (require_lock_metadata sha (at written) (at written).lock ≡ ok (at written).lock)
    × IsAuthorized sha (at written) (at written).commit_authority
unfolding running
physical-IsAuthorized_example = physical-IsAuthorized sha (at written) refl refl

create-valid_example : require_transaction sha (at created) ≡ ok (at created)
unfolding running
create-valid_example = create-valid sha definition_value refl

bind_lock-valid_example : require_transaction sha (at held) ≡ ok (at held)
unfolding running
bind_lock-valid_example = bind_lock-valid sha (at created) lock_value refl

transition-valid_example : require_transaction sha (at checked) ≡ ok (at checked)
unfolding running
transition-valid_example = transition-valid sha (at held) "BEFORE_VERIFIED" refl

authorised_is : bind_commit_authority_evidence sha (at started) evidence ≡ ok (at authorised)
unfolding running
authorised_is = refl

bind_authority-valid_example : require_transaction sha (at authorised) ≡ ok (at authorised)
bind_authority-valid_example = bind_authority-valid sha (at started) evidence authorised_is

-- A run of operations from a transaction that was just created.
held_is : bind_mutation_lock sha (at created) lock_value ≡ ok (at held)
unfolding running
held_is = refl

checked_is : transition_mutation_transaction sha (at held) "BEFORE_VERIFIED" ≡ ok (at checked)
unfolding running
checked_is = refl

abbrev life : Reach sha (at created) (at checked)
life = next (next here (lock lock_value held_is)) (advance "BEFORE_VERIFIED" checked_is)

Reach-keeps_example :
    ((at checked).definition ≡ (at created).definition)
    × ((at checked).transaction_id ≡ (at created).transaction_id)
    × ((at checked).replay_identity ≡ (at created).replay_identity)
    × ((later : List Event) × ((at checked).history ≡ (at created).history ++ later))
Reach-keeps_example = Reach-keeps sha life

abbrev failed : Outcome Transaction
failed = created >>= λ t. transition_mutation_transaction sha t "FINALIZED_FAILED"

terminal-final_example : at failed ≡ at failed
unfolding running
terminal-final_example = terminal-final sha {t = at failed} refl here

-- The clock's classification of a reading after every interval has ended, with its decision forged.
abbrev late_evaluation : Value
late_evaluation =
    or_default null
      (classify_mutation_authority sha (reading "2025-01-01T00:00:00.000Z" "5") bounds none)

forged_decision-passes_example :
    (is_string (get (with_field "decision" (text "ALLOWED") late_evaluation) "decision") "ALLOWED"
      ≡ true)
    × (authoritative_fingerprint_valid sha (with_field "decision" (text "ALLOWED") late_evaluation)
        ≡ true)
unfolding running
forged_decision-passes_example = forged_decision-passes sha late_evaluation refl

created_is : require_transaction sha (at created) ≡ ok (at created)
unfolding running
created_is = refl

written_is : require_transaction sha (at written) ≡ ok (at written)
unfolding running
written_is = refl

same_definition : (at created).definition ≡ (at written).definition
unfolding running
same_definition = refl

assert_same-definition_example :
    assert_same_mutation_transaction sha (at created) (at written) ≡ ok true
assert_same-definition_example =
    assert_same-definition sha (at created) (at written) created_is written_is same_definition
