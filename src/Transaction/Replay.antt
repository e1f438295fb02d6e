-- ===== src/Transaction/Replay.antt =====
-- When two transactions count as the same replay.
use surgical_dev_ops.Base.Outcome.{ok, chains}
use surgical_dev_ops.Base.{◌≡◌, ◌∙◌, refl, sym, ap, String, true, eq_iff, eq_refl}
use surgical_dev_ops.Transaction.Data.{Transaction, replay_identity_for, transaction_id_for}
use surgical_dev_ops.Transaction.Validate.{require_transaction}
use surgical_dev_ops.Transaction.Operations.{assert_same_mutation_transaction}
use surgical_dev_ops.Transaction.Safety.{require_transaction-Checked}
use surgical_dev_ops.Transaction.Extend.{check_identity-tests}

module _ (sha256 : String → String) where
  -- The identities of a valid transaction are those of its definition.
  identities :
      (t : Transaction)
      → require_transaction sha256 t ≡ ok t
      → (t.transaction_id ≡ transaction_id_for sha256 t.definition)
        × (t.replay_identity ≡ replay_identity_for sha256 t.definition)
  identities t valid =
      let tests =
        check_identity-tests sha256 t (require_transaction-Checked sha256 t valid).1.identity in
      ((eq_iff _ _).0 tests.1.1.0, (eq_iff _ _).0 tests.1.1.1.0)

  same_identities :
      (t u : Transaction)
      → require_transaction sha256 t ≡ ok t
      → require_transaction sha256 u ≡ ok u
      → t.transaction_id ≡ u.transaction_id
      → t.replay_identity ≡ u.replay_identity
      → assert_same_mutation_transaction sha256 t u ≡ ok true
  unfolding assert_same_mutation_transaction chains
  same_identities t u valid_t valid_u id replay =
      rw (valid_t, valid_u, id, replay, eq_refl u.transaction_id, eq_refl u.replay_identity) refl

  -- Two valid transactions of one definition are accepted as the same replay, whatever has happened
  -- to each of them.
  pub assert_same-definition :
      (t u : Transaction)
      → require_transaction sha256 t ≡ ok t
      → require_transaction sha256 u ≡ ok u
      → t.definition ≡ u.definition
      → assert_same_mutation_transaction sha256 t u ≡ ok true
  assert_same-definition t u valid_t valid_u same =
      let (id_t, replay_t) = identities t valid_t in
      let (id_u, replay_u) = identities u valid_u in
      same_identities t u valid_t valid_u (id_t ∙ ap (transaction_id_for sha256) same ∙ sym id_u)
        (replay_t ∙ ap (replay_identity_for sha256) same ∙ sym replay_u)
