-- ===== src/Registry/History/Step.antt =====
-- One call of the registry and what a search finds after it.
use surgical_dev_ops.Base.Outcome.{Outcome, ok, throw, bind-ok, then-ok, ok-injective}
use surgical_dev_ops.Base.{
  ◌≡◌, ◌∙◌, refl, sym, ap, subst, ℕ, List, ◌∷◌, none, some, Bool-cases, inl, inr,
}
use surgical_dev_ops.Json.{Value, get, same}
use surgical_dev_ops.Registry.{Entry}
use surgical_dev_ops.Registry.Tables.{same-eq}
use surgical_dev_ops.Registry.Claim.{Claim, replayed, created, claim_key, is_some, new_entry}
use surgical_dev_ops.Registry.Observe.{observed_entry}
use surgical_dev_ops.Registry.Spec.{
  search, replace, Apart, Submissions, record_claim, claim_submission, observe_submission,
  get_submission, Command, claiming, observing, getting, Answer, claimed, recorded, settle,
  read_only, spec_step,
}
use surgical_dev_ops.Registry.Search.{search-name, search-replace, Telling}
use surgical_dev_ops.Registry.Refinement.Claims.{
  Created, claim_key-created, Checked, check_claim-Checked,
}
use surgical_dev_ops.Registry.Refinement.Observations.{
  bound_submission-search, observed_entry-Succeeds,
}
use surgical_dev_ops.Registry.History.{Evolved, Evolved-refl, observed-Evolved, found_unique}

-- What a search finds after a call, where it found something before.
abbrev pub Later : (Entry → Value) → Value → Entry → List Entry → Type 0
Later name k e l = (d : Entry) × (search name k l ≡ some d) × Evolved e d

replace-Later :
    (name : Entry → Value) (k : Value) (e d next : Entry) (l : List Entry)
    → Telling name
    → Apart l
    → search name k l ≡ some e
    → search (λ x. x.operation_id) next.operation_id l ≡ some d
    → name next ≡ name d
    → Evolved d next
    → Later name k e (replace next l)
replace-Later name k e d next l tell apart found old named evolved =
    let after = search-replace name k next d l tell apart old named in
    elim (Bool-cases (same (name next) k)) [
      | inl h ↦
          let one : d ≡ e =
            found_unique (λ x. x.operation_id) name next.operation_id k d e l tell apart old found
              (sym named ∙ same-eq (name next) k h ∙ sym (search-name name k l found)) in
          (next, after ∙ rw h refl, subst (λ x. Evolved x next) one evolved)
      | inr h ↦ (e, after ∙ rw h found, Evolved-refl e)
    ]

-- A new submission hides none.
cons-Later :
    (name : Entry → Value) (k : Value) (e next : Entry) (l : List Entry)
    → search name k l ≡ some e
    → search name (name next) l ≡ none
    → Later name k e (next ∷ l)
unfolding search
cons-Later name k e next l found free = elim (Bool-cases (same (name next) k)) [
  | inl h ↦
      let clash : none ≡ some e =
        sym (subst (λ x. search name x l ≡ none) (same-eq (name next) k h) free) ∙ found in
      cc
  | inr h ↦ (e, rw h found, Evolved-refl e)
]

-- One of the names under which submissions are found.
pub record IsName (name : Entry → Value) : Type 0 where
  pub telling : Telling name
  pub kept : (n : ℕ) (d : Entry) (c m t : Value) → name (observed_entry n d c m t) ≡ name d
  pub free :
      (s : Submissions) (input request : Value) (e : Entry)
      → Checked input request
      → Created
          (search (λ x. x.idempotency_key) (get request "idempotencyKey") s.entries)
          (search (λ x. x.operation_id) (get request "operationId") s.entries)
          (is_some
            (search (λ x. x.external_execution_id) (get input "externalExecutionId") s.entries))
          (new_entry s.made request (get input "externalExecutionId") (get input "observedAt"))
          e
      → search name (name e) s.entries ≡ none

settled :
    {A : Type 0} (P : Submissions → Type 0) (wrap : A → Answer) (s : Submissions)
    (m : Outcome (Submissions × A))
    → P s
    → ((p : Submissions × A) → m ≡ ok p → P p.0)
    → P (settle s wrap m).0
settled P wrap s (ok p) stay move = move p refl
settled P wrap s (throw e) stay move = stay

read_only-settled :
    (P : Submissions → Type 0) (s : Submissions) (m : Outcome Entry) → P s → P (read_only s m).0
read_only-settled P s (ok e) h = h
read_only-settled P s (throw e) h = h

claim-Later :
    (name : Entry → Value) (k : Value) (e : Entry) (s : Submissions) (input request : Value)
    (result : Claim)
    → IsName name
    → search name k s.entries ≡ some e
    → Checked input request
    → claim_key
        (search (λ x. x.idempotency_key) (get request "idempotencyKey") s.entries)
        (search (λ x. x.operation_id) (get request "operationId") s.entries)
        (is_some
          (search (λ x. x.external_execution_id) (get input "externalExecutionId") s.entries))
        (new_entry s.made request (get input "externalExecutionId") (get input "observedAt"))
        request
      ≡ ok result
    → Later name k e (record_claim s result).0.entries
claim-Later name k e s input request (replayed d) is_name found checked h =
    (e, found, Evolved-refl e)
claim-Later name k e s input request (created d) is_name found checked h =
    cons-Later name k e d s.entries found
      (is_name.free s input request d checked (claim_key-created _ _ _ _ d request h))

pub spec_step-Later :
    (name : Entry → Value) (k : Value) (e : Entry) (s : Submissions) (c : Command)
    → IsName name
    → Apart s.entries
    → search name k s.entries ≡ some e
    → Later name k e (spec_step s c).0.entries
unfolding spec_step claim_submission observe_submission
spec_step-Later name k e s (claiming input) is_name apart found =
    settled (λ t. Later name k e t.entries) claimed s (claim_submission s input)
      (e, found, Evolved-refl e)
      λ p h. bind-ok _ _ h λ request checked h. bind-ok _ _ h λ result keyed h.
        subst (λ q. Later name k e q.entries) (ap (λ q. q.0) (ok-injective h))
          (claim-Later name k e s input request result is_name found
            (check_claim-Checked input request checked) keyed)
spec_step-Later name k e s (observing input) is_name apart found =
    settled (λ t. Later name k e t.entries) recorded s (observe_submission s input)
      (e, found, Evolved-refl e)
      λ p h. then-ok _ _ h λ fields h. then-ok _ _ h λ free h. bind-ok _ _ h λ d bound h.
        then-ok _ _ h λ checked h.
          let c = get input "classification" in
          let m = get input "code" in
          let t = get input "observedAt" in
          let next = observed_entry s.made d c m t in
          subst (λ q. Later name k e q.entries) (ap (λ q. q.0) (ok-injective h))
            (replace-Later name k e d next s.entries is_name.telling apart found
              (subst (λ o. search (λ x. x.operation_id) o s.entries ≡ some d)
                (sym (observed_entry-Succeeds s.made d c m t).same_operation)
                (bound_submission-search s (get input "request") d apart bound))
              (is_name.kept s.made d c m t)
              (observed-Evolved s.made d (get input "request") c m t checked))
spec_step-Later name k e s (getting request) is_name apart found =
    read_only-settled (λ t. Later name k e t.entries) s (get_submission s request)
      (e, found, Evolved-refl e)
