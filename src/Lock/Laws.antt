-- ===== src/Lock/Laws.antt =====
-- What an acquisition does to the store of locks.
use surgical_dev_ops.Base.Outcome.{Outcome, ok, throw, ◌>>=◌, bind-ok, require-ok, ok-injective}
use surgical_dev_ops.Base.{
  ◌≡◌, ◌≢◌, ◌∙◌, inl, inr, refl, sym, ap, subst, String, Bool, true, false, ◌&&◌, str_eq, eq_refl,
  eq_iff, Option, none, some, Bool-cases, Option-cases,
}
use surgical_dev_ops.Json.{Value, get, text}
use surgical_dev_ops.Transaction.Data.{Transaction, derive_mutation_lock_id}
use surgical_dev_ops.Transaction.Validate.{require_transaction}
use surgical_dev_ops.Transaction.Operations.{bind_mutation_lock}
use surgical_dev_ops.Transaction.Bind.{bind_lock-valid}
use surgical_dev_ops.Lock.{
  Content, parsed, Store, put, Acquisition, contended, acquired, Attempt, metadata_of, acquirable,
  contend, create, with_existing, lock_identity, with_file, with_identity, acquire_mutation_lock,
}

-- An acquisition that succeeded: the file of the lock of the attempt's workspace and target was not
-- there and now holds the metadata, which names that lock; every other file is as before, and the
-- transaction is the valid one that binds the lock.
pub record IsAcquired (sha256 : String → String) (before after : Store) (t u : Transaction)
    (a : Attempt) (m : Value) : Type 0 where
  pub id : String
  pub derived :
      derive_mutation_lock_id sha256 (text a.canonical_workspace) (text a.canonical_target) ≡ ok id
  pub named : get m "lockId" ≡ text id
  pub free : before id ≡ none
  pub held : after id ≡ some (parsed m)
  pub others : (k : String) → k ≢ id → after k ≡ before k
  pub binding : bind_mutation_lock sha256 t m ≡ ok u
  pub valid : require_transaction sha256 u ≡ ok u

pub other_key : (id k : String) → k ≢ id → str_eq id k ≡ false
other_key id k ne = elim (Bool-cases (str_eq id k)) [
  | inl e ↦ absurd (ne (sym ((eq_iff id k).0 e)))
  | inr e ↦ e
]

lock_of : Acquisition → Value
lock_of (acquired m u) = m
lock_of (contended v) = v

transaction_of : Transaction → Acquisition → Transaction
transaction_of d (acquired m u) = u
transaction_of d (contended v) = d

is_acquired : Acquisition → Bool
is_acquired (acquired m u) = true
is_acquired (contended v) = false

not_acquired : {v m : Value} {u : Transaction} → contended v ≡ acquired m u → ⊥
unfolding is_acquired
not_acquired h = cc

failed : {e : String} {r : Acquisition} → throw e ≡ ok r → ⊥
failed h = cc

module _ (sha256 : String → String) where
  contend-not_acquired :
      (id : String) (a : Attempt) (c : Content) {m : Value} {u : Transaction}
      → contend sha256 id a c ≡ ok (acquired m u)
      → ⊥
  unfolding contend
  contend-not_acquired id a c h =
      bind-ok _ _ h λ owner _ h1. require-ok _ _ _ h1 λ _ made. not_acquired (ok-injective made)

  written : Store → Transaction → String → Attempt → Store × Outcome Acquisition
  written store t id a =
      let m =
        metadata_of t id a.canonical_workspace a.canonical_target a.owner_token a.owner_process
          a.acquired_at in
      (put id (parsed m) store, (bind_mutation_lock sha256 t m >>= λ u. ok (acquired m u)))

  written-IsAcquired :
      (store : Store) (t : Transaction) (id : String) (a : Attempt) {m : Value} {u : Transaction}
      → derive_mutation_lock_id sha256 (text a.canonical_workspace) (text a.canonical_target)
        ≡ ok id
      → store id ≡ none
      → (written store t id a).1 ≡ ok (acquired m u)
      → IsAcquired sha256 store (written store t id a).0 t u a m
  unfolding written lock_of transaction_of
  written-IsAcquired store t id a {m} {u} derived free h = bind-ok _ _ h λ v bound made.
      let same_lock : metadata_of t id a.canonical_workspace a.canonical_target a.owner_token
            a.owner_process a.acquired_at
          ≡ m =
        ap lock_of (ok-injective made) in
      let same_transaction : v ≡ u = ap (transaction_of v) (ok-injective made) in
      record {
        id = id;
        derived = derived;
        named = ap (λ w. get w "lockId") (sym same_lock);
        free = free;
        held = rw eq_refl (ap (λ w. some (parsed w)) same_lock);
        others = λ k ne. rw (other_key id k ne) refl;
        binding =
            subst (λ w. bind_mutation_lock sha256 t w ≡ ok u) same_lock
              (bound ∙ ap ok same_transaction);
        valid =
            bind_lock-valid sha256 t
              (metadata_of t id a.canonical_workspace a.canonical_target a.owner_token
                a.owner_process a.acquired_at)
              (bound ∙ ap ok same_transaction);
      }

  create-IsAcquired :
      (store : Store) (t : Transaction) (id : String) (a : Attempt) {m : Value} {u : Transaction}
      → derive_mutation_lock_id sha256 (text a.canonical_workspace) (text a.canonical_target)
        ≡ ok id
      → store id ≡ none
      → (create sha256 store t id a).1 ≡ ok (acquired m u)
      → IsAcquired sha256 store (create sha256 store t id a).0 t u a m
  unfolding create written
  create-IsAcquired store t id a {m} {u} derived free h =
      elim (Bool-cases (a.flushed && a.confirmed)) [
        | inl e ↦
            let is : create sha256 store t id a ≡ written store t id a = rw e refl in
            subst (λ (r : Store × Outcome Acquisition). IsAcquired sha256 store r.0 t u a m)
              (sym is)
              (written-IsAcquired store t id a derived free
                (subst (λ (r : Store × Outcome Acquisition). r.1 ≡ ok (acquired m u)) is h))
        | inr e ↦ absurd (failed (rw e at h))
      ]

  with_existing-IsAcquired :
      (store : Store) (t : Transaction) (id : String) (a : Attempt) (o : Option Content) {m : Value}
      {u : Transaction}
      → derive_mutation_lock_id sha256 (text a.canonical_workspace) (text a.canonical_target)
        ≡ ok id
      → store id ≡ o
      → (with_existing sha256 store t id a o).1 ≡ ok (acquired m u)
      → IsAcquired sha256 store (with_existing sha256 store t id a o).0 t u a m
  unfolding with_existing
  with_existing-IsAcquired store t id a none derived is h =
      create-IsAcquired store t id a derived is h
  with_existing-IsAcquired store t id a (some c) derived is h =
      absurd (contend-not_acquired id a c h)

  with_file-IsAcquired :
      (store : Store) (t : Transaction) (id : String) (a : Attempt) (o : Option Content) {m : Value}
      {u : Transaction}
      → derive_mutation_lock_id sha256 (text a.canonical_workspace) (text a.canonical_target)
        ≡ ok id
      → store id ≡ o
      → (with_file sha256 store t id a o).1 ≡ ok (acquired m u)
      → IsAcquired sha256 store (with_file sha256 store t id a o).0 t u a m
  unfolding with_file
  with_file-IsAcquired store t id a o {m} {u} derived is h = elim (Option-cases a.open_error) [
    | inl opened ↦
        let same : with_file sha256 store t id a o ≡ with_existing sha256 store t id a o =
          rw opened refl in
        subst (λ (r : Store × Outcome Acquisition). IsAcquired sha256 store r.0 t u a m) (sym same)
          (with_existing-IsAcquired store t id a o derived is
            (subst (λ (r : Store × Outcome Acquisition). r.1 ≡ ok (acquired m u)) same h))
    | inr (e, failing) ↦ absurd (failed (rw failing at h))
  ]

  acquirable-derived :
      (t : Transaction) (a : Attempt) {id : String}
      → acquirable sha256 t a ≡ ok id
      → derive_mutation_lock_id sha256 (text a.canonical_workspace) (text a.canonical_target)
        ≡ ok id
  unfolding acquirable lock_identity
  acquirable-derived t a h = require-ok _ _ _ h λ _ h1.
      bind-ok _ _ h1
        λ id derived h2. require-ok _ _ _ derived λ _ is. require-ok _ _ _ h2 λ _ made. is ∙ made

  with_identity-IsAcquired :
      (store : Store) (t : Transaction) (a : Attempt) (o : Outcome String) {m : Value}
      {u : Transaction}
      → acquirable sha256 t a ≡ o
      → (with_identity sha256 store t a o).1 ≡ ok (acquired m u)
      → IsAcquired sha256 store (with_identity sha256 store t a o).0 t u a m
  unfolding with_identity
  with_identity-IsAcquired store t a (ok id) may h =
      with_file-IsAcquired store t id a (store id) (acquirable-derived t a may) refl h
  with_identity-IsAcquired store t a (throw e) may h = cc

  -- An acquisition that succeeds derived the lock's id from the attempt's workspace and target, found
  -- no file of that id, wrote the metadata, which names the id, into it and touched no other file, and
  -- returns the valid transaction that binds this lock.
  pub acquire_mutation_lock-IsAcquired :
      (store : Store) (t : Transaction) (a : Attempt) (m : Value) (u : Transaction)
      → (acquire_mutation_lock sha256 store t a).1 ≡ ok (acquired m u)
      → IsAcquired sha256 store (acquire_mutation_lock sha256 store t a).0 t u a m
  unfolding acquire_mutation_lock
  acquire_mutation_lock-IsAcquired store t a m u h =
      with_identity-IsAcquired store t a (acquirable sha256 t a) refl h
