-- ===== src/Tests/Again.antt =====
-- A transaction that is recovered, goes on, fails again and is recovered again. The digest is the
-- text itself, so that different evidence has different fingerprints.
use surgical_dev_ops.Base.Outcome.{Outcome, ok, ◌>>=◌, is_ok}
use surgical_dev_ops.Base.{◌≡◌, ◌≢◌, refl, String, true, false, eq_iff}
use mathlib.Core.List.{Memᴰ}
use surgical_dev_ops.Json.{Value, Fields, text, object, end, field}
use surgical_dev_ops.Recovery.{digest, recovery_schema}
use surgical_dev_ops.Transaction.Stage.{recovered}
use surgical_dev_ops.Transaction.Data.{Transaction, Event, recovery_evidence_fingerprint}
use surgical_dev_ops.Transaction.Validate.{require_transaction, has_recovery}
use surgical_dev_ops.Transaction.Operations.{
  create_mutation_transaction, bind_mutation_recovery_evidence, transition_mutation_transaction,
}
use surgical_dev_ops.Transaction.BindRecovery.{bind_recovery-valid}
use surgical_dev_ops.Transaction.SecondRecovery.{second_recovery-invalid}
use surgical_dev_ops.Tests.Scenario.{running, definition_value, or_default, no_transaction}

abbrev plain : String → String
plain s = s

abbrev at : Outcome Transaction → Transaction
at o = or_default no_transaction o

abbrev created : Outcome Transaction
created = create_mutation_transaction plain definition_value

-- Recovery evidence of the transaction, told apart by its journal.
abbrev evidence_fields : String → Fields → Fields
evidence_fields journal rest = field "transactionId" (text (at created).transaction_id) (
    field "operationId" (text "op-1") (
      field "workspace" (text "/w") (
        field "target" (text "/w/a.js") (
          field "journalId" (text journal)
            (field "recoveryClassification" (text "NOT_APPLIED") rest)))))

abbrev print : String → String
print journal = digest plain recovery_schema (evidence_fields journal end)

abbrev evidence : String → Value
evidence journal =
    object true (evidence_fields journal (field "fingerprint" (text (print journal)) end))

abbrev interrupted : Outcome Transaction
interrupted = created >>= λ t. transition_mutation_transaction plain t "RECOVERY_REQUIRED"

abbrev once : Outcome Transaction
once = interrupted >>= λ t. bind_mutation_recovery_evidence plain t (evidence "1")

abbrev recorded : Outcome Transaction
recorded = once >>= λ t. transition_mutation_transaction plain t "EVIDENCE_RECORDED"

abbrev again : Outcome Transaction
again = recorded >>= λ t. transition_mutation_transaction plain t "RECOVERY_REQUIRED"

abbrev twice : Outcome Transaction
twice = again >>= λ t. bind_mutation_recovery_evidence plain t (evidence "2")

once_is : bind_mutation_recovery_evidence plain (at interrupted) (evidence "1") ≡ ok (at once)
unfolding running
once_is = refl

none_before : has_recovery (at interrupted).history ≡ false
unfolding running
none_before = refl

bind_recovery-valid_example : require_transaction plain (at once) ≡ ok (at once)
bind_recovery-valid_example =
    bind_recovery-valid plain (at interrupted) (evidence "1") once_is none_before

twice_is : bind_mutation_recovery_evidence plain (at again) (evidence "2") ≡ ok (at twice)
unfolding running
twice_is = refl

abbrev first_recovery : Event
first_recovery = record {
  sequence = 3;
  stage = recovered;
  extra = recovery_evidence_fingerprint (text (print "1"));
  frozen = true;
}

first_there : Memᴰ first_recovery (at again).history
unfolding running
first_there = Memᴰ.tail (Memᴰ.tail (Memᴰ.head refl))

different : print "1" ≢ print "2"
unfolding running
different h = cc ((eq_iff (print "1") (print "2")).1 h)

second_recovery-invalid_example : is_ok (require_transaction plain (at twice)) ≡ false
second_recovery-invalid_example =
    second_recovery-invalid plain (at again) (evidence "2") first_recovery (print "1") (print "2")
      twice_is first_there refl refl different
