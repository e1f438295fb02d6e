-- ===== src/Lock/Exclusive.antt =====
-- accelerator/adapters/mutation-lock-adapter.js: a lock that is held, while others try to acquire locks.
use surgical_dev_ops.Base.Outcome.{Outcome, ok, throw}
use surgical_dev_ops.Base.{
  ◌≡◌, ◌≢◌, ◌∙◌, inl, inr, refl, sym, ap, subst, String, ◌&&◌, List, [], ◌∷◌, Option, none, some,
  Bool-cases, All,
}
use surgical_dev_ops.Json.{Value, get, text}
use surgical_dev_ops.Transaction.Data.{Transaction}
use surgical_dev_ops.Lock.{
  Content, Store, Acquisition, acquired, Attempt, given_up, acquirable, create, with_existing,
  with_file, with_identity, acquire_mutation_lock,
}
use surgical_dev_ops.Lock.Laws.{other_key, acquire_mutation_lock-IsAcquired}

-- Attempts whose files are opened, or exist already.
abbrev pub Opens : List (Transaction × Attempt) → Type 0
Opens attempts = All (λ p. p.1.open_error ≡ none) attempts

text-injective : {s t : String} → text s ≡ text t → s ≡ t
text-injective h = cc

module _ (sha256 : String → String) where
  -- The store after attempts by any transactions, one after another.
  unfoldable pub acquire_all : Store → List (Transaction × Attempt) → Store
  acquire_all store [] = store
  acquire_all store ((t, a) ∷ attempts) =
      acquire_all (acquire_mutation_lock sha256 store t a).0 attempts

  module _ (id : String) (c : Content) where
    given_up-kept :
        (store : Store) (k : String) (a : Attempt)
        → id ≢ k
        → store id ≡ some c
        → given_up k a store id ≡ some c
    given_up-kept store k a ne held = elim (Bool-cases a.unlinks) [
      | inl e ↦ rw (e, other_key k id ne) held
      | inr e ↦ rw e held
    ]

    create-kept :
        (store : Store) (t : Transaction) (k : String) (a : Attempt)
        → id ≢ k
        → store id ≡ some c
        → (create sha256 store t k a).0 id ≡ some c
    unfolding create
    create-kept store t k a ne held = elim (Bool-cases (a.flushed && a.confirmed)) [
      | inl e ↦ rw (e, other_key k id ne) held
      | inr e ↦ rw e (given_up-kept _ k a ne (rw (other_key k id ne) held))
    ]

    with_existing-kept :
        (store : Store) (t : Transaction) (k : String) (a : Attempt) (o : Option Content)
        → store k ≡ o
        → store id ≡ some c
        → (with_existing sha256 store t k a o).0 id ≡ some c
    unfolding with_existing
    with_existing-kept store t k a (some d) is held = held
    with_existing-kept store t k a none is held =
        create-kept store t k a (λ same. (let free : store id ≡ none = ap store same ∙ is in cc))
          held

    with_file-kept :
        (store : Store) (t : Transaction) (k : String) (a : Attempt)
        → a.open_error ≡ none
        → store id ≡ some c
        → (with_file sha256 store t k a (store k)).0 id ≡ some c
    unfolding with_file
    with_file-kept store t k a opened held =
        let same : with_file sha256 store t k a (store k)
            ≡ with_existing sha256 store t k a (store k) =
          rw opened refl in
        subst (λ (r : Store × Outcome Acquisition). r.0 id ≡ some c) (sym same)
          (with_existing-kept store t k a (store k) refl held)

    with_identity-kept :
        (store : Store) (t : Transaction) (a : Attempt) (o : Outcome String)
        → a.open_error ≡ none
        → store id ≡ some c
        → (with_identity sha256 store t a o).0 id ≡ some c
    unfolding with_identity
    with_identity-kept store t a (ok k) opened held = with_file-kept store t k a opened held
    with_identity-kept store t a (throw e) opened held = held

    acquire_all_kept :
        (attempts : List (Transaction × Attempt)) (store : Store)
        → Opens attempts
        → store id ≡ some c
        → acquire_all store attempts id ≡ some c
    unfolding acquire_all acquire_mutation_lock
    acquire_all_kept [] store opens held = held
    acquire_all_kept ((t, a) ∷ attempts) store (opened, opens) held =
        acquire_all_kept attempts (with_identity sha256 store t a (acquirable sha256 t a)).0 opens
          (with_identity-kept store t a (acquirable sha256 t a) opened held)

    -- After attempts by any transactions, of which none failed to open its file for another reason than
    -- that it exists, the file of a lock that was held holds what it held, and no attempt that follows
    -- acquires that lock.
    pub acquire_all-exclusive :
        (store : Store) (attempts : List (Transaction × Attempt))
        → Opens attempts
        → store id ≡ some c
        → (acquire_all store attempts id ≡ some c)
          × ((t : Transaction) (a : Attempt) (m : Value) (u : Transaction)
              → (acquire_mutation_lock sha256 (acquire_all store attempts) t a).1
                ≡ ok (acquired m u)
              → get m "lockId" ≢ text id)
    acquire_all-exclusive store attempts opens held = (
      acquire_all_kept attempts store opens held,
      λ t a m u h named.
          let is = acquire_mutation_lock-IsAcquired sha256 _ t a m u h in
          let same : is.id ≡ id = text-injective (sym is.named ∙ named) in
          let free : acquire_all store attempts id ≡ none =
            subst (λ k. acquire_all store attempts k ≡ none) same is.free in
          let kept = acquire_all_kept attempts store opens held in cc,
    )
