-- ===== src/Registry.antt =====
-- accelerator/adapters/control-plane-submission-registry.js: the registry of submissions, which are
-- found by operation, by idempotency key and by external execution. Each submission is one object
-- that the three maps share; which object it is, is its `identity`, a number that the registry hands
-- out anew to every object it makes.
pub mod Tables
pub mod Claim
pub mod Observe
pub mod Spec
pub mod Search
pub mod Refinement
pub mod History
pub mod Progress
use surgical_dev_ops.Base.{
  ℕ, suc, String, Bool, true, false, List, [], ◌∷◌, Option, none, some, if◌then◌else◌, ◌==◌, ◌&&◌,
}
use surgical_dev_ops.Json.{Value, same}

-- A submission, as the registry keeps it.
pub record Entry : Type 0 where
  pub identity : ℕ
  pub protocol_version : Value
  pub operation_id : Value
  pub request_id : Value
  pub idempotency_key : Value
  pub intent_fingerprint : Value
  pub principal : Value
  pub authority : Value
  pub workspace : Value
  pub repository : Value
  pub request : Value
  pub external_execution_id : Value
  pub current_observation_state : Value
  pub observation_sequence : ℕ
  pub observed_at : Value
  pub last_code : Value

-- A `Map`: its keys in the order of their first insertion.
abbrev pub Table : Type 0
Table = List (Value × Entry)

-- `map.get(key)`.
unfoldable pub lookup : Value → Table → Option Entry
lookup k [] = none
lookup k ((j, e) ∷ t) = let rest = lookup k t in if same j k then some e else rest

-- `map.set(key, entry)`.
unfoldable pub set : Value → Entry → Table → Table
set k e [] = (k, e) ∷ []
set k e ((j, d) ∷ t) = let rest = set k e t in if same j k then (j, e) ∷ t else (j, d) ∷ rest

-- The three maps, and the number of objects that have been made.
pub record Registry : Type 0 where
  pub by_operation : Table
  pub by_idempotency : Table
  pub by_external : Table
  pub made : ℕ

abbrev pub empty : Registry
empty = record { by_operation = []; by_idempotency = []; by_external = []; made = 0 }

-- The object in all three maps.
unfoldable pub store : Registry → Entry → Registry
unfolding set
store r e = record {
  by_operation = set e.operation_id e r.by_operation;
  by_idempotency = set e.idempotency_key e r.by_idempotency;
  by_external = set e.external_execution_id e r.by_external;
  made = suc r.made;
}
