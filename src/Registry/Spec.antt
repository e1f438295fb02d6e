-- ===== src/Registry/Spec.antt =====
-- What the registry of accelerator/adapters/control-plane-submission-registry.js promises: one list
-- of submissions, each found by any of its names. The three maps and the identity of objects are
-- left out of it.
use surgical_dev_ops.Base.Outcome.{Outcome, ok, throw, require, ◌>>=◌, ◌>>◌}
use surgical_dev_ops.Base.{◌≢◌, ℕ, suc, List, [], ◌∷◌, Option, none, some, if◌then◌else◌, ◌&&◌, All}
use surgical_dev_ops.Json.{Value, get, same}
use surgical_dev_ops.Protocol.{exact_fields}
use surgical_dev_ops.Protocol.Credentials.{assert_credential_free}
use surgical_dev_ops.Registry.{Entry, Registry}
use surgical_dev_ops.Registry.Claim.{
  Claim, replayed, created, claim, claim_key, is_some, new_entry, check_claim, unknown_submission,
}
use surgical_dev_ops.Registry.Observe.{
  no_properties, has_properties, get_entry, observe, check_bound, check_observation, observed_entry,
  observe_fields,
}

-- The first submission with a name.
unfoldable pub search : (Entry → Value) → Value → List Entry → Option Entry
search name k [] = none
search name k (e ∷ l) = let rest = search name k l in if same (name e) k then some e else rest

-- The submission that has both an operation and an idempotency key.
unfoldable pub search_both : Value → Value → List Entry → Option Entry
search_both o k [] = none
search_both o k (e ∷ l) =
    let rest = search_both o k l in
    if same e.operation_id o && same e.idempotency_key k then some e else rest

-- The list with a submission in place of that of the same operation.
unfoldable pub replace : Entry → List Entry → List Entry
replace e [] = []
replace e (d ∷ l) =
    let rest = replace e l in if same d.operation_id e.operation_id then e ∷ l else d ∷ rest

-- The list, and how many records have been written.
pub record Submissions : Type 0 where
  pub entries : List Entry
  pub made : ℕ

abbrev pub record_claim : Submissions → Claim → Submissions × Claim
record_claim s (replayed e) = (s, replayed e)
record_claim s (created e) = (record { entries = e ∷ s.entries; made = suc s.made }, created e)

unfoldable pub claim_submission : Submissions → Value → Outcome (Submissions × Claim)
claim_submission s input = do
  request ← check_claim input
  result ←
      claim_key (search (λ e. e.idempotency_key) (get request "idempotencyKey") s.entries)
        (search (λ e. e.operation_id) (get request "operationId") s.entries)
        (is_some
          (search (λ e. e.external_execution_id) (get input "externalExecutionId") s.entries))
        (new_entry s.made request (get input "externalExecutionId") (get input "observedAt"))
        request
  ok (record_claim s result)

unfoldable pub known : Option Entry → Outcome Entry
known (some e) = ok e
known none = throw unknown_submission

unfoldable pub bound_submission : Submissions → Value → Outcome Entry
bound_submission s request = do
  require (has_properties request) no_properties
  entry ← known (search_both (get request "operationId") (get request "idempotencyKey") s.entries)
  check_bound entry request
  ok entry

unfoldable pub get_submission : Submissions → Value → Outcome Entry
get_submission s request = do assert_credential_free request; bound_submission s request

unfoldable pub observe_submission : Submissions → Value → Outcome (Submissions × Entry)
observe_submission s input = do
  exact_fields input observe_fields []
  assert_credential_free input
  entry ← bound_submission s (get input "request")
  check_observation entry (get input "request") (get input "classification")
  let next =
        observed_entry s.made entry (get input "classification") (get input "code")
          (get input "observedAt") in
      ok (record { entries = replace next s.entries; made = suc s.made }, next)

-- A call of the registry.
pub data Command : Type 0 where
  claiming : Value → Command
  observing : Value → Command
  getting : Value → Command

-- What a call answers.
pub data Answer : Type 0 where
  claimed : Claim → Answer
  recorded : Entry → Answer

-- The state and the answer of a call that returns the two together; one that throws keeps the state.
abbrev pub settle {ℓ κ} :
    {S : Type ℓ} {A : Type κ} → S → (A → Answer) → Outcome (S × A) → S × Outcome Answer
settle s wrap (ok p) = (p.0, ok (wrap p.1))
settle s wrap (throw e) = (s, throw e)

abbrev pub read_only {ℓ} : {S : Type ℓ} → S → Outcome Entry → S × Outcome Answer
read_only s (ok e) = (s, ok (recorded e))
read_only s (throw e) = (s, throw e)

-- A call of the registry as the source has it.
unfoldable pub step : Registry → Command → Registry × Outcome Answer
step r (claiming input) = settle r claimed (claim r input)
step r (observing input) = settle r recorded (observe r input)
step r (getting request) = read_only r (get_entry r request)

-- The same call of the list.
unfoldable pub spec_step : Submissions → Command → Submissions × Outcome Answer
spec_step s (claiming input) = settle s claimed (claim_submission s input)
spec_step s (observing input) = settle s recorded (observe_submission s input)
spec_step s (getting request) = read_only s (get_submission s request)

-- The maps and the list after a sequence of calls.
unfoldable pub after : Registry → List Command → Registry
after r [] = r
after r (c ∷ cs) = after (step r c).0 cs

unfoldable pub spec_after : Submissions → List Command → Submissions
spec_after s [] = s
spec_after s (c ∷ cs) = spec_after (spec_step s c).0 cs

-- The answers to a sequence of calls.
unfoldable pub run : Registry → List Command → List (Outcome Answer)
run r [] = []
run r (c ∷ cs) = let next = step r c in next.1 ∷ run next.0 cs

unfoldable pub spec_run : Submissions → List Command → List (Outcome Answer)
spec_run s [] = []
spec_run s (c ∷ cs) = let next = spec_step s c in next.1 ∷ spec_run next.0 cs

-- Two submissions share no name and are not one object.
abbrev pub Differs : Entry → Entry → Type 0
Differs e d =
    (e.operation_id ≢ d.operation_id)
    × (e.idempotency_key ≢ d.idempotency_key)
    × (e.external_execution_id ≢ d.external_execution_id)
    × (e.identity ≢ d.identity)

abbrev pub Apart : List Entry → Type 0
Apart [] = Unit {0}
Apart (e ∷ l) = All (λ d. Differs e d) l × Apart l
