-- ===== src/Registry/Refinement/Claims.antt =====
-- `claim` on the three maps beside a claim on the list.
use surgical_dev_ops.Base.Outcome.{ok, ◌>>=◌, bind-ok, then-ok, require-ok, reject-ok, ok-injective}
use surgical_dev_ops.Base.{
  ◌≡◌, ◌≢◌, ◌∙◌, refl, sym, ap, subst, ℕ, suc, ◌<◌, Bool, false, List, [], ◌∷◌, Option, none, some,
  All, arith,
}
use surgical_dev_ops.Json.{Value, get}
use surgical_dev_ops.Protocol.Names.{
  Spelled, Spelled-same, Spelled-copy, Names, validate_request-Names, text_satisfies-Spelled,
}
use surgical_dev_ops.Protocol.Request.{validate_request}
use surgical_dev_ops.Registry.{Entry, Registry, store}
use surgical_dev_ops.Registry.Claim.{
  Claim, replayed, created, claim, claim_key, claim_operation, claim_request, is_some, new_entry,
  check_claim, after_claim,
}
use surgical_dev_ops.Registry.Spec.{search, Differs, Submissions, record_claim, claim_submission}
use surgical_dev_ops.Registry.Search.{search-none}
use surgical_dev_ops.Registry.Refinement.{Refines, store-search, Match, bind-Match}

-- What was free for a claim that created a record.
pub record Created (keyed operated : Option Entry) (taken : Bool) (fresh e : Entry) : Type 0 where
  pub key_free : keyed ≡ none
  pub operation_free : operated ≡ none
  pub external_free : taken ≡ false
  pub made_now : fresh ≡ e

created-injective : {e d : Entry} → created e ≡ created d → e ≡ d
created-injective h = cc

pub claim_key-created :
    (keyed operated : Option Entry) (taken : Bool) (fresh e : Entry) (request : Value)
    → claim_key keyed operated taken fresh request ≡ ok (created e)
    → Created keyed operated taken fresh e
unfolding claim_key claim_operation
claim_key-created (some d) operated taken fresh e request h = bind-ok _ _ h λ agree compared h.
    require-ok _ _ _ h λ same h. let clash : replayed d ≡ created e = ok-injective h in cc
claim_key-created none (some d) taken fresh e request h = then-ok _ _ h λ refused h. cc
claim_key-created none none taken fresh e request h = reject-ok _ _ _ h λ free h. record {
  key_free = refl;
  operation_free = refl;
  external_free = free;
  made_now = created-injective (ok-injective h);
}

free-none : (o : Option Entry) → is_some o ≡ false → o ≡ none
free-none none h = refl
free-none (some e) h = cc

pub older :
    (e : Entry) (n : ℕ) (l : List Entry)
    → e.identity ≡ n
    → All (λ d. d.identity < n) l
    → All (λ d. e.identity ≢ d.identity) l
older e n [] eq h = tt
older e n (d ∷ l) eq h = (λ k. omega (arith, h.0), older e n l eq h.1)

pub later : (n : ℕ) (l : List Entry) → All (λ d. d.identity < n) l → All (λ d. d.identity < suc n) l
later n [] h = tt
later n (d ∷ l) h = (omega (arith, h.0), later n l h.1)

all-Differs :
    (e : Entry) (l : List Entry)
    → All (λ d. e.operation_id ≢ d.operation_id) l
    → All (λ d. e.idempotency_key ≢ d.idempotency_key) l
    → All (λ d. e.external_execution_id ≢ d.external_execution_id) l
    → All (λ d. e.identity ≢ d.identity) l
    → All (λ d. Differs e d) l
all-Differs e [] o k x i = tt
all-Differs e (d ∷ l) o k x i = ((o.0, k.0, x.0, i.0), all-Differs e l o.1 k.1 x.1 i.1)

-- A record whose names are texts and free is added to both.
pub store-Refines :
    (r : Registry) (s : Submissions) (e : Entry)
    → Refines r s
    → e.identity ≡ s.made
    → Spelled e.operation_id
    → Spelled e.idempotency_key
    → Spelled e.external_execution_id
    → search (λ d. d.operation_id) e.operation_id s.entries ≡ none
    → search (λ d. d.idempotency_key) e.idempotency_key s.entries ≡ none
    → search (λ d. d.external_execution_id) e.external_execution_id s.entries ≡ none
    → Refines (store r e) (record { entries = e ∷ s.entries; made = suc s.made })
unfolding store
store-Refines r s e h number o k x free_o free_k free_x = record {
  operations =
      λ j. store-search (λ d. d.operation_id) j e r.by_operation s.entries (h.operations j);
  keys = λ j. store-search (λ d. d.idempotency_key) j e r.by_idempotency s.entries (h.keys j);
  externals =
      λ j. store-search (λ d. d.external_execution_id) j e r.by_external s.entries (h.externals j);
  counted = ap suc h.counted;
  numbered = (omega (arith, number), later s.made s.entries h.numbered);
  apart = (
    all-Differs e s.entries
        (search-none (λ d. d.operation_id) e.operation_id s.entries free_o
          (Spelled-same e.operation_id o))
        (search-none (λ d. d.idempotency_key) e.idempotency_key s.entries free_k
          (Spelled-same e.idempotency_key k))
        (search-none (λ d. d.external_execution_id) e.external_execution_id s.entries free_x
          (Spelled-same e.external_execution_id x))
        (older e s.made s.entries number h.numbered),
    h.apart,
  );
}

-- What a checked claim's input is known to have.
pub record Checked (input request : Value) : Type 0 where
  pub validated : validate_request "submit" (get input "request") ≡ ok request
  pub external_named : Spelled (get input "externalExecutionId")

pub check_claim-Checked :
    (input request : Value) → check_claim input ≡ ok request → Checked input request
unfolding check_claim
check_claim-Checked input request h = then-ok _ _ h λ fields h. then-ok _ _ h λ free h.
    bind-ok _ _ h λ r valid h. require-ok _ _ _ h λ long h. record {
      validated = valid ∙ h;
      external_named = text_satisfies-Spelled _ (get input "externalExecutionId") long;
    }

-- The names of a new record are those of its request.
pub new_entry-operation :
    (n : ℕ) (request x o : Value)
    → Spelled (get request "operationId")
    → (new_entry n request x o).operation_id ≡ get request "operationId"
unfolding new_entry
new_entry-operation n request x o h = Spelled-copy (get request "operationId") h

pub new_entry-key :
    (n : ℕ) (request x o : Value)
    → Spelled (get request "idempotencyKey")
    → (new_entry n request x o).idempotency_key ≡ get request "idempotencyKey"
unfolding new_entry
new_entry-key n request x o h = Spelled-copy (get request "idempotencyKey") h

new_entry-external :
    (n : ℕ) (request x o : Value) → Spelled x → (new_entry n request x o).external_execution_id ≡ x
unfolding new_entry
new_entry-external n request x o h = Spelled-copy x h

new_entry-identity : (n : ℕ) (request x o : Value) → (new_entry n request x o).identity ≡ n
unfolding new_entry
new_entry-identity n request x o = refl

new_entry-Refines :
    (r : Registry) (s : Submissions) (request x o : Value)
    → Refines r s
    → Names request
    → Spelled x
    → search (λ d. d.operation_id) (get request "operationId") s.entries ≡ none
    → search (λ d. d.idempotency_key) (get request "idempotencyKey") s.entries ≡ none
    → search (λ d. d.external_execution_id) x s.entries ≡ none
    → Refines
        (store r (new_entry s.made request x o))
        (record { entries = new_entry s.made request x o ∷ s.entries; made = suc s.made })
new_entry-Refines r s request x o h names named free_o free_k free_x =
    let e = new_entry s.made request x o in
    let same_o = new_entry-operation s.made request x o names.operation_named in
    let same_k = new_entry-key s.made request x o names.key_named in
    let same_x = new_entry-external s.made request x o named in
    store-Refines r s e h (new_entry-identity s.made request x o)
      (subst Spelled (sym same_o) names.operation_named)
      (subst Spelled (sym same_k) names.key_named) (subst Spelled (sym same_x) named)
      (subst (λ k. search (λ d. d.operation_id) k s.entries ≡ none) (sym same_o) free_o)
      (subst (λ k. search (λ d. d.idempotency_key) k s.entries ≡ none) (sym same_k) free_k)
      (subst (λ k. search (λ d. d.external_execution_id) k s.entries ≡ none) (sym same_x) free_x)

after_claim-Match :
    (r : Registry) (s : Submissions) (request x o : Value) (result : Claim)
    → Refines r s
    → Names request
    → Spelled x
    → claim_key
        (search (λ e. e.idempotency_key) (get request "idempotencyKey") s.entries)
        (search (λ e. e.operation_id) (get request "operationId") s.entries)
        (is_some (search (λ e. e.external_execution_id) x s.entries))
        (new_entry s.made request x o)
        request
      ≡ ok result
    → Match (ok (after_claim r result)) (ok (record_claim s result))
after_claim-Match r s request x o (replayed e) h names named k = (h, refl)
after_claim-Match r s request x o (created e) h names named k =
    let c = claim_key-created _ _ _ _ e request k in
    (
      subst (λ d. Refines (store r d) (record { entries = d ∷ s.entries; made = suc s.made }))
          c.made_now
          (new_entry-Refines r s request x o h names named c.operation_free c.key_free
            (free-none _ c.external_free)),
      refl,
    )

pub claim-Refines :
    (r : Registry) (s : Submissions) (input : Value)
    → Refines r s
    → Match (claim r input) (claim_submission s input)
unfolding claim claim_request claim_submission
claim-Refines r s input h = bind-Match (check_claim input) _ _ λ request checked.
    let c = check_claim-Checked input request checked in
    let x = get input "externalExecutionId" in
    let o = get input "observedAt" in
    let found =
      claim_key (search (λ e. e.idempotency_key) (get request "idempotencyKey") s.entries)
        (search (λ e. e.operation_id) (get request "operationId") s.entries)
        (is_some (search (λ e. e.external_execution_id) x s.entries)) in
    rw (h.keys (get request "idempotencyKey")) rw (h.operations (get request "operationId")) rw
      (h.externals x)
      (subst
        (λ n.
          Match (found (new_entry n request x o) request >>= (λ result. ok (after_claim r result)))
            (found (new_entry s.made request x o) request
              >>= (λ result. ok (record_claim s result))))
        (sym h.counted)
        (bind-Match (found (new_entry s.made request x o) request) _ _ λ result k.
          after_claim-Match r s request x o result h
            (validate_request-Names "submit" (get input "request") request refl c.validated)
            c.external_named k))
