-- ===== src/Registry/Refinement.antt =====
-- The three maps of accelerator/adapters/control-plane-submission-registry.js beside the list of
-- its specification.
pub mod Claims
pub mod Observations
pub mod Runs
use surgical_dev_ops.Base.Outcome.{
  Outcome, ok, throw, require, ◌>>=◌, ◌>>◌, bind-ok, then-ok, require-ok, reject-ok, ok-injective,
}
use surgical_dev_ops.Base.{
  some-injective, ◌≡◌, ◌≢◌, ◌∙◌, refl, sym, ap, ap₂, subst, ℕ, suc, ◌<◌, Bool, true, false, List,
  [], ◌∷◌, Option, none, some, if◌then◌else◌, ◌&&◌, All, Bool-cases, inl, inr, arith, Option-cases,
}
use surgical_dev_ops.Json.{Value, get, same}
use surgical_dev_ops.Protocol.Copy.{deep_freeze_copy}
use surgical_dev_ops.Registry.{Entry, Registry, lookup, store, set}
use surgical_dev_ops.Registry.Tables.{lookup-set}
use surgical_dev_ops.Registry.Claim.{
  Claim, replayed, created, claim, claim_key, claim_operation, claim_request, is_some, new_entry,
  check_claim, after_claim,
}
use surgical_dev_ops.Registry.Observe.{
  get_entry, observe, require_bound, no_properties, has_properties, one_object, check_bound,
  check_observation, observed_entry, observe_fields,
}
use surgical_dev_ops.Registry.Spec.{
  search, search_both, replace, known, Differs, Apart, Submissions, record_claim, claim_submission,
  bound_submission, get_submission, observe_submission, Command, claiming, observing, getting,
  Answer, settle, read_only, step, spec_step, run, spec_run,
}
use surgical_dev_ops.Registry.Search.{
  search-All, search-name, search-none, search-replace, one_object-search, All-replace,
}

-- The maps find what a search of the list finds; the submissions are apart and numbered in the order
-- in which they were written.
pub record Refines (r : Registry) (s : Submissions) : Type 0 where
  pub operations : (k : Value) → lookup k r.by_operation ≡ search (λ e. e.operation_id) k s.entries
  pub keys : (k : Value) → lookup k r.by_idempotency ≡ search (λ e. e.idempotency_key) k s.entries
  pub externals :
      (k : Value) → lookup k r.by_external ≡ search (λ e. e.external_execution_id) k s.entries
  pub counted : r.made ≡ s.made
  pub numbered : All (λ e. e.identity < s.made) s.entries
  pub apart : Apart s.entries

pub bound-Refines :
    (r : Registry) (s : Submissions) (request : Value)
    → Refines r s
    → require_bound r request ≡ bound_submission s request
unfolding require_bound bound_submission
bound-Refines r s request h =
    ap
      (λ m.
        require (has_properties request) no_properties
        >> (m >>= (λ entry. check_bound entry request >> ok entry)))
      (ap₂ one_object (h.operations (get request "operationId"))
          (h.keys (get request "idempotencyKey"))
        ∙ one_object-search (get request "operationId") (get request "idempotencyKey") s.entries
            h.apart)

pub get-Refines :
    (r : Registry) (s : Submissions) (request : Value)
    → Refines r s
    → get_entry r request ≡ get_submission s request
unfolding get_entry get_submission
get-Refines r s request h = rw (bound-Refines r s request h) refl

-- An object that is written is found under its names.
pub store-search :
    (name : Entry → Value) (k : Value) (e : Entry) (t : List (Value × Entry)) (l : List Entry)
    → lookup k t ≡ search name k l
    → lookup k (set (name e) e t) ≡ search name k (e ∷ l)
unfolding search
store-search name k e t l h =
    lookup-set k (name e) e t ∙ ap (λ o. if same (name e) k then some e else o) h

-- Two outcomes with the same answer and matching states, or with the same error.
abbrev pub Match : {A : Type 0} → Outcome (Registry × A) → Outcome (Submissions × A) → Type 0
Match (ok p) (ok q) = Refines p.0 q.0 × (p.1 ≡ q.1)
Match (throw e) (throw f) = e ≡ f
Match _ _ = ⊥

pub bind-Match {ℓ} :
    {C : Type ℓ} {A : Type 0} (m : Outcome C) (f : C → Outcome (Registry × A))
    (g : C → Outcome (Submissions × A))
    → ((c : C) → m ≡ ok c → Match (f c) (g c))
    → Match (m >>= f) (m >>= g)
unfolding ◌>>=◌
bind-Match (ok c) f g h = h c refl
bind-Match (throw e) f g h = refl

pub settle-Match :
    {A : Type 0} (wrap : A → Answer) (r : Registry) (s : Submissions) (m : Outcome (Registry × A))
    (n : Outcome (Submissions × A))
    → Refines r s
    → Match m n
    → Refines (settle r wrap m).0 (settle s wrap n).0 × ((settle r wrap m).1 ≡ (settle s wrap n).1)
settle-Match wrap r s (ok p) (ok q) h k = (k.0, ap (λ a. ok (wrap a)) k.1)
settle-Match wrap r s (throw e) (throw f) h k = (h, ap throw k)
settle-Match wrap r s (ok p) (throw f) h k = absurd k
settle-Match wrap r s (throw e) (ok q) h k = absurd k

pub then-Match :
    {A : Type 0} (m : Outcome (Unit {0})) (f : Outcome (Registry × A))
    (g : Outcome (Submissions × A))
    → (m ≡ ok tt → Match f g)
    → Match (m >> f) (m >> g)
unfolding ◌>>◌
then-Match (ok tt) f g h = h refl
then-Match (throw e) f g h = refl
