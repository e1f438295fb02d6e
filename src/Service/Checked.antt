-- ===== src/Service/Checked.antt =====
-- The answers to cancellations and inspections under the protocol's own check.
use surgical_dev_ops.Base.Outcome.{Outcome, ok, throw, bind-ok, ok-injective}
use surgical_dev_ops.Base.{◌≡◌, ◌≢◌, ◌∙◌, refl, sym, ap, subst, String, Bool-cases, inl, inr}
use surgical_dev_ops.Json.{Value, number, text, get}
use surgical_dev_ops.Protocol.Reply.{validate_operation_result}
use surgical_dev_ops.Protocol.Request.{validate_request}
use surgical_dev_ops.Registry.{Registry}
use surgical_dev_ops.Protocol.Stable.{validate_request-twice}
use surgical_dev_ops.Service.{Settings}
use surgical_dev_ops.Service.Operations.{
  cancel, cancel_request, inspect, inspect_found, inspected, unsupported_capability,
}
use surgical_dev_ops.Service.Valid.{last_sequence, observe_operation-valid}

throw-ok :
    (r s : Registry) (e : String) (v : Value) {P : Type 0}
    → ◌≡◌ {A = Registry × Outcome Value} (r, throw e) (s, ok v)
    → P
throw-ok r s e v h = let clash : throw e ≡ ok v = ap (λ q. q.1) h in cc

-- The answer to a cancellation is one that the protocol's check of answers takes as it is: it carries
-- no credential, agrees with the request in every name, is of the execution that the request names and
-- later than what the request has seen. The sequence that was seen must not be the last one that a
-- number holds exactly.
pub cancel-valid :
    (settings : Settings) (clock : Outcome Value) (r s : Registry) (input request result : Value)
    → validate_request "cancel" input ≡ ok request
    → get request "afterObservationSequence" ≢ number last_sequence
    → cancel settings clock r input ≡ (s, ok result)
    → validate_operation_result result request ≡ ok result
unfolding cancel cancel_request
cancel-valid settings clock r s input request result valid below h =
    elim (Bool-cases settings.supports_cancellation) [
      | inl supported ↦
          observe_operation-valid "cancel" clock r s request request (text "cancelled")
            "CANCELLATION_REGISTERED" result refl
            (validate_request-twice "cancel" input request valid) below
            (let called = (rw valid at h) in rw supported at called)
      | inr unsupported ↦
          let called = (rw valid at h) in
          throw-ok r s unsupported_capability result (rw unsupported at called)
    ]

inspected-request :
    (r : Registry) (input request : Value) (found : Value × Value)
    → validate_request "inspect" input ≡ ok request
    → inspected r input ≡ ok found
    → found.0 ≡ request
unfolding inspected
inspected-request r input request found valid h = bind-ok _ _ h λ q valid' h.
    bind-ok _ _ h
      λ d got h. ap (λ p. p.0) (sym (ok-injective h)) ∙ ok-injective (sym valid' ∙ valid)

inspect_found-valid :
    (clock : Outcome Value) (r s : Registry) (input request result : Value)
    (m : Outcome (Value × Value))
    → validate_request "inspect" input ≡ ok request
    → get request "afterObservationSequence" ≢ number last_sequence
    → inspected r input ≡ m
    → inspect_found clock r m ≡ (s, ok result)
    → validate_operation_result result request ≡ ok result
unfolding inspect_found
inspect_found-valid clock r s input request result (throw e) valid below was h =
    throw-ok r s e result h
inspect_found-valid clock r s input request result (ok found) valid below was h =
    observe_operation-valid "inspect" clock r s found.0 request found.1 "OBSERVATION_INSPECTED"
      result refl
      (subst (λ x. validate_request "inspect" x ≡ ok request)
        (sym (inspected-request r input request found valid was))
        (validate_request-twice "inspect" input request valid))
      below h

-- The answer to an inspection is one that the protocol's check of answers takes as it is, under the
-- same condition: an inspection reports, under the request's own names and the execution it asks for,
-- a known classification and a later sequence.
pub inspect-valid :
    (clock : Outcome Value) (r s : Registry) (input request result : Value)
    → validate_request "inspect" input ≡ ok request
    → get request "afterObservationSequence" ≢ number last_sequence
    → inspect clock r input ≡ (s, ok result)
    → validate_operation_result result request ≡ ok result
unfolding inspect
inspect-valid clock r s input request result valid below h =
    inspect_found-valid clock r s input request result (inspected r input) valid below refl h
