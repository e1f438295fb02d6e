-- ===== src/Registry/Refinement/Observations.antt =====
-- `observe` on the three maps beside an observation on the list.
use surgical_dev_ops.Base.Outcome.{ok, bind-ok, then-ok, require-ok, ok-injective}
use surgical_dev_ops.Base.{
  some-injective, ◌≡◌, ◌∙◌, refl, sym, ap, subst, ℕ, suc, ◌<◌, List, [], ◌∷◌, Option, none, some,
  if◌then◌else◌, All, arith, Bool-cases, inl, inr,
}
use surgical_dev_ops.Json.{Value, get, same}
use surgical_dev_ops.Registry.{Entry, Registry, store}
use surgical_dev_ops.Registry.Tables.{lookup-set}
use surgical_dev_ops.Registry.Observe.{observe, one_object, observed_entry}
use surgical_dev_ops.Registry.Spec.{
  search, replace, Differs, Apart, Submissions, bound_submission, observe_submission,
}
use surgical_dev_ops.Registry.Search.{
  search-All, search-name, search-replace, one_object-search, All-replace,
}
use surgical_dev_ops.Registry.Refinement.{Refines, Match, bind-Match, then-Match, bound-Refines}
use surgical_dev_ops.Registry.Refinement.Claims.{later}

pub one_object-first : (o k : Option Entry) (d : Entry) → one_object o k ≡ ok d → o ≡ some d
unfolding one_object
one_object-first (some e) (some f) d h = require-ok _ _ _ h λ one h. ap some (ok-injective h)
one_object-first none (some f) d h = cc
one_object-first (some e) none d h = cc
one_object-first none none d h = cc

-- A submission that is bound to a request is what its operation finds.
pub bound_submission-search :
    (s : Submissions) (request : Value) (d : Entry)
    → Apart s.entries
    → bound_submission s request ≡ ok d
    → search (λ e. e.operation_id) d.operation_id s.entries ≡ some d
unfolding bound_submission
bound_submission-search s request d apart h = require-ok _ _ _ h λ some_value h.
    bind-ok _ _ h λ e found h. then-ok _ _ h λ bound h.
      let o = get request "operationId" in
      let here : search (λ x. x.operation_id) o s.entries ≡ some d =
        one_object-first _ _ d
          (one_object-search o (get request "idempotencyKey") s.entries apart ∙ found ∙ h) in
      subst (λ k. search (λ x. x.operation_id) k s.entries ≡ some d)
        (sym (search-name (λ x. x.operation_id) o s.entries here)) here

-- A record with the names of the one whose place it takes, which has been written before.
pub record Succeeds (e d : Entry) (n : ℕ) : Type 0 where
  pub same_operation : e.operation_id ≡ d.operation_id
  pub same_key : e.idempotency_key ≡ d.idempotency_key
  pub same_external : e.external_execution_id ≡ d.external_execution_id
  pub numbered_now : e.identity ≡ n

Differs-Succeeds :
    (c e d : Entry) (n : ℕ) → Differs c d → c.identity < n → Succeeds e d n → Differs c e
Differs-Succeeds c e d n apart old next = (
  λ k. apart.0 (k ∙ next.same_operation),
  λ k. apart.1 (k ∙ next.same_key),
  λ k. apart.2 (k ∙ next.same_external),
  λ k. omega (arith, k, old, next.numbered_now),
)

successor-Differs :
    (e d : Entry) (n : ℕ) (l : List Entry)
    → All (λ x. Differs d x) l
    → All (λ x. x.identity < n) l
    → Succeeds e d n
    → All (λ x. Differs e x) l
successor-Differs e d n [] apart old next = tt
successor-Differs e d n (x ∷ l) apart old next = (
  (
    λ k. apart.0.0 (sym next.same_operation ∙ k),
    λ k. apart.0.1 (sym next.same_key ∙ k),
    λ k. apart.0.2 (sym next.same_external ∙ k),
    λ k. omega (arith, k, old.0, next.numbered_now),
  ),
  successor-Differs e d n l apart.1 old.1 next,
)

Apart-replace :
    (e d : Entry) (n : ℕ) (l : List Entry)
    → Apart l
    → All (λ x. x.identity < n) l
    → Succeeds e d n
    → search (λ x. x.operation_id) e.operation_id l ≡ some d
    → Apart (replace e l)
unfolding replace search
Apart-replace e d n [] apart old next found = tt
Apart-replace e d n (c ∷ l) apart old next found =
    elim (Bool-cases (same c.operation_id e.operation_id)) [
      | inl g ↦
          let same_entry : c ≡ d = some-injective (rw g at found) in
          rw g (
            successor-Differs e d n l (subst (λ x. All (λ y. Differs x y) l) same_entry apart.0)
                old.1 next,
            apart.1,
          )
      | inr g ↦
          rw g
            let here : search (λ x. x.operation_id) e.operation_id l ≡ some d = rw g at found in
              (
                All-replace (Differs c) e l apart.0 (
                    Differs-Succeeds c e d n
                      (search-All (Differs c) (λ x. x.operation_id) e.operation_id l apart.0 here)
                      old.0 next),
                Apart-replace e d n l apart.1 old.1 next here,
              )
    ]

-- A record that takes the place of another is written to both.
pub replace-Refines :
    (r : Registry) (s : Submissions) (e d : Entry)
    → Refines r s
    → Succeeds e d s.made
    → search (λ x. x.operation_id) e.operation_id s.entries ≡ some d
    → Refines (store r e) (record { entries = replace e s.entries; made = suc s.made })
unfolding store
replace-Refines r s e d h next found = record {
  operations = λ k.
      lookup-set k e.operation_id e r.by_operation
      ∙ ap (λ o. if same e.operation_id k then some e else o) (h.operations k)
      ∙ sym (
          search-replace (λ x. x.operation_id) k e d s.entries (λ a b apart. apart.0) h.apart found
            next.same_operation);
  keys = λ k.
      lookup-set k e.idempotency_key e r.by_idempotency
      ∙ ap (λ o. if same e.idempotency_key k then some e else o) (h.keys k)
      ∙ sym (
          search-replace (λ x. x.idempotency_key) k e d s.entries (λ a b apart. apart.1) h.apart
            found next.same_key);
  externals = λ k.
      lookup-set k e.external_execution_id e r.by_external
      ∙ ap (λ o. if same e.external_execution_id k then some e else o) (h.externals k)
      ∙ sym (
          search-replace (λ x. x.external_execution_id) k e d s.entries (λ a b apart. apart.2)
            h.apart found next.same_external);
  counted = ap suc h.counted;
  numbered =
      All-replace (λ x. x.identity < suc s.made) e s.entries (later s.made s.entries h.numbered)
        (omega (arith, next.numbered_now));
  apart = Apart-replace e d s.made s.entries h.apart h.numbered next found;
}

pub observed_entry-Succeeds :
    (n : ℕ) (d : Entry) (c m t : Value) → Succeeds (observed_entry n d c m t) d n
unfolding observed_entry
observed_entry-Succeeds n d c m t = record {
  same_operation = refl;
  same_key = refl;
  same_external = refl;
  numbered_now = refl;
}

observed-Match :
    (r : Registry) (s : Submissions) (d : Entry) (request c m t : Value)
    → Refines r s
    → bound_submission s request ≡ ok d
    → Match (ok (store r (observed_entry s.made d c m t), observed_entry s.made d c m t)) (
        ok (
          record { entries = replace (observed_entry s.made d c m t) s.entries; made = suc s.made },
          observed_entry s.made d c m t,
        ))
observed-Match r s d request c m t h bound =
    let next = observed_entry-Succeeds s.made d c m t in
    (
      replace-Refines r s (observed_entry s.made d c m t) d h next (
          subst (λ k. search (λ x. x.operation_id) k s.entries ≡ some d) (sym next.same_operation)
            (bound_submission-search s request d h.apart bound)),
      refl,
    )

pub observe-Refines :
    (r : Registry) (s : Submissions) (input : Value)
    → Refines r s
    → Match (observe r input) (observe_submission s input)
unfolding observe observe_submission
observe-Refines r s input h = then-Match _ _ _ λ fields. then-Match _ _ _ λ free.
    let request = get input "request" in
    let c = get input "classification" in
    let m = get input "code" in
    let t = get input "observedAt" in
    rw (bound-Refines r s request h) (
      bind-Match (bound_submission s request) _ _ λ d bound. then-Match _ _ _ λ checked.
        subst
          (λ n. Match (ok (store r (observed_entry n d c m t), observed_entry n d c m t)) (
            ok (
              record {
                entries = replace (observed_entry s.made d c m t) s.entries;
                made = suc s.made;
              },
              observed_entry s.made d c m t,
            )))
          (sym h.counted) (observed-Match r s d request c m t h bound))
