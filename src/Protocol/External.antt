-- ===== src/Protocol/External.antt =====
-- What the checks of accelerator/core/control-plane-protocol.js make of a request that names an
-- external execution and the sequence it has seen.
use surgical_dev_ops.Base.Outcome.{Outcome, ok, ◌>>◌, then-ok, require-eq-ok}
use surgical_dev_ops.Base.{
  ◌≡◌, String, Bool, true, false, ◌&&◌, ◌||◌, not, if◌then◌else◌, str_eq, and-split,
}
use surgical_dev_ops.Base.Text.{includes, codes, contains}
use surgical_dev_ops.Json.{Value, text, get, keys, text_satisfies}
use surgical_dev_ops.Protocol.{
  require_identifier, require_sequence, is_sequence, is_identifier, coerced,
}
use surgical_dev_ops.Protocol.Reply.{is_external}
use surgical_dev_ops.Protocol.Request.{
  validate_details, validate_external, validate_submission, validate_request,
}
use surgical_dev_ops.Protocol.Stable.{validate_request-twice}
use surgical_dev_ops.Protocol.Names.{
  Spelled, require_identifier-Spelled, is_bound, validate_request-checked, check_request-details,
}

-- The external execution is an identifier, and the sequence one that a number can hold.
pub record External (request : Value) : Type 0 where
  pub external_named : Spelled (get request "externalExecutionId")
  pub external_formed : is_external (get request "externalExecutionId") ≡ true
  pub sequence_formed : is_sequence true (get request "afterObservationSequence") ≡ true

text-external :
    (v : Value)
    → text_satisfies (λ s. is_identifier s && not (contains (codes "..") (codes s))) v ≡ true
    → is_external v ≡ true
unfolding is_external coerced
text-external (text s) h = (and-split _ _ h).0
text-external _ h = cc

pub require_identifier-external : (v : Value) → require_identifier v ≡ ok tt → is_external v ≡ true
unfolding require_identifier
require_identifier-external v h = text-external v (require-eq-ok _ _ h)

-- The operations whose requests name an external execution without fail.
abbrev pub is_external_bound : String → Bool
is_external_bound operation =
    if str_eq operation "submit"
    then false
    else if str_eq operation "reconcile"
    then false
    else is_bound operation

-- What such an operation checks behind the binding.
external-parts :
    (submit reconcile : Bool) (bound : Bool) (m n k : Outcome (Unit {0})) (has : Bool)
    → (if submit then false else if reconcile then false else bound) ≡ true
    → (if submit then m else ((if not reconcile || has then n else ok tt) >> k)) ≡ ok tt
    → (n ≡ ok tt) × (k ≡ ok tt)
external-parts true reconcile bound m n k has e h = cc
external-parts false true bound m n k has e h = cc
external-parts false false bound m n k has e h = then-ok _ _ h λ first second. (first, second)

validate_details-External :
    (operation : String) (v : Value)
    → is_external_bound operation ≡ true
    → validate_details operation v ≡ ok tt
    → External v
unfolding validate_details validate_external require_sequence
validate_details-External operation v bound h =
    let parts =
      external-parts (str_eq operation "submit") (str_eq operation "reconcile") (is_bound operation)
        (validate_submission v) (require_identifier (get v "externalExecutionId"))
        (require_sequence true (get v "afterObservationSequence"))
        (includes (keys v) "externalExecutionId") bound h in
    record {
      external_named = require_identifier-Spelled (get v "externalExecutionId") parts.0;
      external_formed = require_identifier-external (get v "externalExecutionId") parts.0;
      sequence_formed = require-eq-ok _ _ parts.1;
    }

external_bound-bound :
    (submit reconcile bound : Bool)
    → (if submit then false else if reconcile then false else bound) ≡ true
    → bound ≡ true
external_bound-bound false false bound h = h
external_bound-bound true reconcile bound h = cc
external_bound-bound false true bound h = cc

pub is_external_bound-is_bound :
    (operation : String) → is_external_bound operation ≡ true → is_bound operation ≡ true
is_external_bound-is_bound operation h =
    external_bound-bound (str_eq operation "submit") (str_eq operation "reconcile")
      (is_bound operation) h

pub validate_request-External :
    (operation : String) (input request : Value)
    → is_external_bound operation ≡ true
    → validate_request operation input ≡ ok request
    → External request
validate_request-External operation input request bound h =
    validate_details-External operation request bound (
      check_request-details operation request (is_external_bound-is_bound operation bound)
        (validate_request-checked operation request request
          (validate_request-twice operation input request h)).0)
