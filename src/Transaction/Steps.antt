-- ===== src/Transaction/Steps.antt =====
-- The life of a transaction as a sequence of operations: what each adds, and where it ends.
use surgical_dev_ops.Base.Outcome.{ok, bind-ok, require-ok, reject-ok, ok-injective}
use surgical_dev_ops.Base.{
  ◌∙◌, ◌≡◌, refl, sym, ap, subst, ℕ, String, true, false, List, [], ◌∷◌, ◌++◌, append_assoc,
  append-nil,
}
use surgical_dev_ops.Json.{Value}
use surgical_dev_ops.Transaction.Stage.{
  Stage, prepared, mutation_started, recovery_required, is_terminal, same_stage_iff,
}
use surgical_dev_ops.Transaction.Data.{Extra, Event, Transaction}
use surgical_dev_ops.Transaction.Operations.{
  bind_mutation_lock, bind_commit_authority_evidence, bind_mutation_recovery_evidence,
  transition_mutation_transaction,
}
use surgical_dev_ops.Transaction.Safety.{require_transaction-Checked}
use surgical_dev_ops.Transaction.BindRecovery.{bound}

-- One event more, permitted after the last, and the same identity and definition.
pub record Extends (t u : Transaction) : Type 0 where
  pub transaction_id : u.transaction_id ≡ t.transaction_id
  pub replay_identity : u.replay_identity ≡ t.replay_identity
  pub definition : u.definition ≡ t.definition
  pub event : Event
  pub history : u.history ≡ t.history ++ event ∷ []
  pub stage : event.stage ≡ u.stage

one_more :
    (t : Transaction) (version : ℕ) (stage : Stage) (extra : Extra) (l a r : Value)
    → Extends t (record t {
      version = version;
      stage = stage;
      lock = l;
      commit_authority = a;
      recovery_evidence = r;
      history =
          t.history
          ++ record { sequence = version; stage = stage; extra = extra; frozen = true } ∷ [];
      frozen = true;
    })
one_more t version stage extra l a r = record {
  transaction_id = refl;
  replay_identity = refl;
  definition = refl;
  event = record { sequence = version; stage = stage; extra = extra; frozen = true };
  history = refl;
  stage = refl;
}

module _ (sha256 : String → String) where
  -- An operation that changes a transaction.
  pub data Step (t u : Transaction) : Type 0 where
    lock : (v : Value) → bind_mutation_lock sha256 t v ≡ ok u → Step t u
    authorize : (v : Value) → bind_commit_authority_evidence sha256 t v ≡ ok u → Step t u
    recover : (v : Value) → bind_mutation_recovery_evidence sha256 t v ≡ ok u → Step t u
    advance : (name : String) → transition_mutation_transaction sha256 t name ≡ ok u → Step t u

  pub data Reach (t : Transaction) : Transaction → Type 0 where
    here : Reach t t
    next : {u v : Transaction} → Reach t u → Step u v → Reach t v

  lock-Extends :
      (t u : Transaction) (v : Value)
      → bind_mutation_lock sha256 t v ≡ ok u
      → Extends t u × (t.stage ≡ prepared)
  unfolding bind_mutation_lock
  lock-Extends t u v h = bind-ok _ _ h λ current valid h1. require-ok _ _ _ h1 λ at h2.
      bind-ok _ _ h2 λ lock held h3.
        let same = sym (require_transaction-Checked sha256 t valid).0 in
        (
          subst (λ w. Extends w u) same
              (subst (λ w. Extends current w) (ok-injective h3) (one_more _ _ _ _ _ _ _)),
          ap (λ (w : Transaction). w.stage) (sym same)
              ∙ (same_stage_iff current.stage prepared).0 at,
        )

  authorize-Extends :
      (t u : Transaction) (v : Value)
      → bind_commit_authority_evidence sha256 t v ≡ ok u
      → Extends t u × (t.stage ≡ mutation_started)
  unfolding bind_commit_authority_evidence
  authorize-Extends t u v h = bind-ok _ _ h λ current valid h1. require-ok _ _ _ h1 λ at h2.
      bind-ok _ _ h2 λ evidence held h3.
        let same = sym (require_transaction-Checked sha256 t valid).0 in
        (
          subst (λ w. Extends w u) same
              (subst (λ w. Extends current w) (ok-injective h3) (one_more _ _ _ _ _ _ _)),
          ap (λ (w : Transaction). w.stage) (sym same)
              ∙ (same_stage_iff current.stage mutation_started).0 at,
        )

  recover-Extends :
      (t u : Transaction) (v : Value)
      → bind_mutation_recovery_evidence sha256 t v ≡ ok u
      → Extends t u × (t.stage ≡ recovery_required)
  recover-Extends t u v h =
      let (_, at, _, _, made) = bound sha256 t v h in
      (subst (λ w. Extends t w) made (one_more _ _ _ _ _ _ _), at)

  advance-Extends :
      (t u : Transaction) (name : String)
      → transition_mutation_transaction sha256 t name ≡ ok u
      → Extends t u × (is_terminal t.stage ≡ false)
  unfolding transition_mutation_transaction
  advance-Extends t u name h = bind-ok _ _ h λ current valid h1. bind-ok _ _ h1 λ stage _ h2.
      reject-ok _ _ _ h2 λ not_terminal h3. reject-ok _ _ _ h3 λ _ h4. reject-ok _ _ _ h4 λ _ h5.
        reject-ok _ _ _ h5 λ _ h6. require-ok _ _ _ h6 λ _ h7.
          let same = sym (require_transaction-Checked sha256 t valid).0 in
          (
            subst (λ w. Extends w u) same
                (subst (λ w. Extends current w) (ok-injective h7) (one_more _ _ _ _ _ _ _)),
            subst (λ (w : Transaction). is_terminal w.stage ≡ false) same not_terminal,
          )

  live :
      (t : Transaction) (s : Stage)
      → t.stage ≡ s
      → is_terminal s ≡ false
      → is_terminal t.stage ≡ false
  live t s at h = rw at h

  -- Every operation that returns keeps the definition and the identity of its transaction, appends
  -- one event to the history, and starts from a stage that is not terminal.
  pub Step-Extends : {t u : Transaction} → Step t u → Extends t u × (is_terminal t.stage ≡ false)
  unfolding is_terminal
  Step-Extends {t} {u} (lock v h) =
      let (e, at) = lock-Extends t u v h in (e, live t prepared at refl)
  Step-Extends {t} {u} (authorize v h) =
      let (e, at) = authorize-Extends t u v h in (e, live t mutation_started at refl)
  Step-Extends {t} {u} (recover v h) =
      let (e, at) = recover-Extends t u v h in (e, live t recovery_required at refl)
  Step-Extends {t} {u} (advance name h) = advance-Extends t u name h

  -- Whatever operations follow, a transaction keeps its definition and both identities, and its
  -- history begins with the history that it had.
  pub Reach-keeps :
      {t u : Transaction}
      → Reach t u
      → (u.definition ≡ t.definition)
        × (u.transaction_id ≡ t.transaction_id)
        × (u.replay_identity ≡ t.replay_identity)
        × ((later : List Event) × (u.history ≡ t.history ++ later))
  Reach-keeps {t} here = (refl, refl, refl, ([], sym (append-nil t.history)))
  Reach-keeps {t} (next {u} {v} r s) =
      let (d, i, p, more) = Reach-keeps r in
      let e = (Step-Extends s).0 in
      (
        e.definition ∙ d,
        e.transaction_id ∙ i,
        e.replay_identity ∙ p,
        (
          more.0 ++ e.event ∷ [],
          e.history
              ∙ ap (λ l. l ++ e.event ∷ []) more.1
              ∙ append_assoc t.history more.0 (e.event ∷ []),
        ),
      )

  -- No operation leads out of a terminal stage: what is reached from it is the transaction itself.
  pub terminal-final : {t u : Transaction} → is_terminal t.stage ≡ true → Reach t u → u ≡ t
  terminal-final ended here = refl
  terminal-final {t} ended (next {u} {v} r s) =
      let same = terminal-final ended r in
      let ended' : is_terminal u.stage ≡ true =
        subst (λ (w : Transaction). is_terminal w.stage ≡ true) (sym same) ended in
      cc ((Step-Extends s).1)
