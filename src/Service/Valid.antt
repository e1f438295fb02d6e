-- ===== src/Service/Valid.antt =====
-- The answer to an observation of accelerator/core/control-plane-service.js under the check of
-- answers.
use surgical_dev_ops.Base.Text.{includes}
use surgical_dev_ops.Base.Outcome.{Outcome, ok, throw, bind-ok, ok-injective}
use surgical_dev_ops.Base.{
  ◌≡◌, ◌≢◌, ◌∙◌, refl, sym, ap, ap₂, subst, ℕ, suc, String, Bool, true, false, ◌||◌, not, arith,
}
use surgical_dev_ops.Json.{
  Value, undefined, null, boolean, number, other_number, text, array, object, get, text_satisfies,
  same, is_truthy,
}
use surgical_dev_ops.Timestamp.{is_canonical}
use surgical_dev_ops.Protocol.{result_classifications, is_sequence}
use surgical_dev_ops.Protocol.Credentials.{is_credential_free}
use surgical_dev_ops.Protocol.Copy.{deep_freeze_copy}
use surgical_dev_ops.Protocol.Reply.{validate_operation_result, is_external, is_later}
use surgical_dev_ops.Protocol.Request.{validate_request}
use surgical_dev_ops.Protocol.Names.{
  Spelled, Spelled-same, Spelled-copy, Names, validate_request-Names,
}
use surgical_dev_ops.Protocol.External.{
  External, is_external_bound, is_external_bound-is_bound, validate_request-External,
}
use surgical_dev_ops.Registry.{Entry, Registry}
use surgical_dev_ops.Service.{result_of}
use surgical_dev_ops.Service.Answers.{message-valid, get-free}
use surgical_dev_ops.Service.Observed.{Observed, observe_request-Observed}
use surgical_dev_ops.Service.Operations.{
  answer, observe_operation, observed_answer, observe_request,
}

-- The last sequence that a number holds exactly.
abbrev pub last_sequence : ℕ
last_sequence = 9007199254740991

-- The next sequence is one as well, unless the last has been reached.
next-sequence :
    (n : ℕ)
    → is_sequence true (number n) ≡ true
    → n ≢ last_sequence
    → is_sequence false (number (suc n)) ≡ true
unfolding is_sequence
next-sequence n h below = ground arith

Spelled-copied : (v : Value) → Spelled v → same (deep_freeze_copy v) v ≡ true
Spelled-copied v h = subst (λ x. same x v ≡ true) (sym (Spelled-copy v h)) (Spelled-same v h)

self-copied : (v : Value) → same v v ≡ true → same (deep_freeze_copy v) v ≡ true
unfolding deep_freeze_copy
self-copied (text s) h = h
self-copied (number n) h = h
self-copied undefined h = h
self-copied null h = h
self-copied (boolean b) h = h
self-copied (other_number b s) h = h
self-copied (array b xs) h = cc
self-copied (object b fs) h = cc

pub known-copied :
    (test : String → Bool) (v : Value)
    → text_satisfies test v ≡ true
    → text_satisfies test (deep_freeze_copy v) ≡ true
unfolding deep_freeze_copy
known-copied test (text s) h = h
known-copied test _ h = cc

-- What a request says of the external execution is what the record says.
external-agrees :
    (v w : Value) → Spelled v → w ≡ v → (not (is_truthy v) || same (deep_freeze_copy w) v) ≡ true
external-agrees v w named eq =
    let copied : same (deep_freeze_copy w) v ≡ true =
      subst (λ x. same (deep_freeze_copy x) v ≡ true) (sym eq) (Spelled-copied v named) in
    ground arith

external-formed :
    (v w : Value)
    → Spelled v
    → is_external v ≡ true
    → w ≡ v
    → is_external (deep_freeze_copy w) ≡ true
external-formed v w named formed eq =
    subst (λ x. is_external x ≡ true) (sym (ap deep_freeze_copy eq ∙ Spelled-copy v named)) formed

sequence-later : (m n : ℕ) (v : Value) → m ≡ suc n → v ≡ number n → is_later (number m) v ≡ true
sequence-later m n v now seen =
    subst (λ x. is_later (number m) x ≡ true) (sym seen) (ground (arith, now))

result_of-valid :
    (request c : Value) (code : String) (e : Entry)
    → Names request
    → External request
    → Observed request c code e
    → get request "afterObservationSequence" ≢ number last_sequence
    → validate_operation_result (result_of request e c code) request
      ≡ ok (result_of request e c code)
unfolding result_of
result_of-valid request c code e names ext o below =
    let n = o.sequence_before in
    let asked = get request "externalExecutionId" in
    let fitting : is_sequence false (number e.observation_sequence) ≡ true =
      subst (λ m. is_sequence false (number m) ≡ true) (sym o.sequence_now)
        (next-sequence n
          (subst (λ x. is_sequence true x ≡ true) o.sequence_seen ext.sequence_formed)
          (λ eq. below (o.sequence_seen ∙ ap number eq))) in
    message-valid (get request "requestId") (get request "operationId")
      (get request "idempotencyKey") (get request "intentFingerprint") e.external_execution_id c
      code e.observation_sequence e.observed_at request
      (
        get-free request "requestId" o.request_free,
        (
          get-free request "operationId" o.request_free,
          (
            get-free request "idempotencyKey" o.request_free,
            (
              get-free request "intentFingerprint" o.request_free,
              (
                subst (λ x. is_credential_free x ≡ true) (sym o.external_agrees)
                    (get-free request "externalExecutionId" o.request_free),
                (o.classification_free, (o.code_free, (o.time_free, tt))),
              ),
            ),
          ),
        ),
      )
      (
        refl,
        (
          Spelled-copied (get request "requestId") names.request_named,
          (
            Spelled-copied (get request "operationId") names.operation_named,
            (
              Spelled-copied (get request "idempotencyKey") names.key_named,
              (
                self-copied (get request "intentFingerprint") o.fingerprint_agrees,
                (
                  known-copied (includes result_classifications) c o.classified,
                  (
                    refl,
                    (
                      external-formed asked e.external_execution_id ext.external_named
                          ext.external_formed o.external_agrees,
                      (
                        external-agrees asked e.external_execution_id ext.external_named
                            o.external_agrees,
                        (
                          fitting,
                          (
                            sequence-later e.observation_sequence n
                                (get request "afterObservationSequence") o.sequence_now
                                o.sequence_seen,
                            tt,
                          ),
                        ),
                      ),
                    ),
                  ),
                ),
              ),
            ),
          ),
        ),
      )
      (known-copied is_canonical e.observed_at o.timed)

answer-ok :
    (r s : Registry) (m : Outcome (Registry × Value)) (result : Value)
    → answer r (λ p. p) m ≡ (s, ok result)
    → m ≡ ok (s, result)
answer-ok r s (ok p) result h =
    ap₂ (λ a b. ok (a, b)) (ap (λ q. q.0) h) (ok-injective (ap (λ q. q.1) h))
answer-ok r s (throw e) result h = let clash : throw e ≡ ok result = ap (λ q. q.1) h in cc

-- An observation that a service answers, of a request that names its execution, gives an answer that
-- the protocol's own check takes as it is.
pub observe_operation-valid :
    (operation : String) (clock : Outcome Value) (r s : Registry) (input request c : Value)
    (code : String) (result : Value)
    → is_external_bound operation ≡ true
    → validate_request operation input ≡ ok request
    → get request "afterObservationSequence" ≢ number last_sequence
    → observe_operation operation clock r input c code ≡ (s, ok result)
    → validate_operation_result result request ≡ ok result
unfolding observe_operation observed_answer
observe_operation-valid operation clock r s input request c code result bound valid below h =
    bind-ok _ _ (answer-ok r s _ result h) λ q valid' h. bind-ok _ _ h λ observed made h.
      let same_request : q ≡ request = ok-injective (sym valid' ∙ valid) in
      let e = observed.1 in
      let ext = validate_request-External operation input request bound valid in
      let names =
        validate_request-Names operation input request (is_external_bound-is_bound operation bound)
          valid in
      let same_result : result_of request e c code ≡ result =
        subst (λ x. result_of x e c code ≡ result) same_request (ap (λ p. p.1) (ok-injective h)) in
      subst (λ x. validate_operation_result x request ≡ ok x) same_result
        (result_of-valid request c code e names ext
          (observe_request-Observed clock r observed.0 request c code e ext
            (subst (λ x. observe_request clock r x c code ≡ ok observed) same_request made))
          below)
