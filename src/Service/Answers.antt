-- ===== src/Service/Answers.antt =====
-- The answers of accelerator/core/control-plane-service.js under the checks that the protocol
-- makes of answers.
use surgical_dev_ops.Base.Text.{includes}
use surgical_dev_ops.Base.Outcome.{ok, then-eq, require-true, every, AllTrue, AllTrue-every, chains}
use surgical_dev_ops.Base.{
  ◌≡◌, ◌∙◌, refl, ap, ℕ, String, Bool, true, false, [], ◌∷◌, ◌&&◌, ◌||◌, not, arith, Bool-cases,
  inl, inr, str_eq,
}
use surgical_dev_ops.Json.{
  Value, Fields, undefined, null, boolean, number, other_number, text, array, object, end, field,
  get, find_field, text_satisfies, same, is_truthy,
}
use surgical_dev_ops.Timestamp.{is_canonical}
use surgical_dev_ops.Protocol.{
  exact_fields, protocol_version, result_classifications, require_timestamp, is_sequence,
}
use surgical_dev_ops.Protocol.Credentials.{
  assert_credential_free, is_credential_free, free_fields, is_credential_field, carries_credential,
}
use surgical_dev_ops.Protocol.Copy.{deep_freeze_copy, deep_freeze_copy-twice}
use surgical_dev_ops.Protocol.Stable.Values.{is_credential_free-copy}
use surgical_dev_ops.Protocol.Reply.{
  validate_operation_result, result_fields, is_external, is_later,
}

and-three : (a b c : Bool) → (a && b && c) ≡ true → (b ≡ true) × (c ≡ true)
and-three a b c h = ground arith

free-field :
    (j : String) (v : Value) (fs : Fields)
    → free_fields (field j v fs) ≡ true
    → (is_credential_free v ≡ true) × (free_fields fs ≡ true)
unfolding free_fields is_credential_free
free-field j v fs h =
    and-three (not (is_credential_field j)) (is_credential_free v) (free_fields fs) h

undefined-free : is_credential_free undefined ≡ true
unfolding is_credential_free
undefined-free = refl

-- A part of a message that carries no credential carries none.
find_field-free :
    (k : String) (fs : Fields) → free_fields fs ≡ true → is_credential_free (find_field k fs) ≡ true
find_field-free k end h = undefined-free
find_field-free k (field j v fs) h = elim (Bool-cases (str_eq j k)) [
  | inl e ↦ rw e (free-field j v fs h).0
  | inr e ↦ rw e (find_field-free k fs (free-field j v fs h).1)
]

pub get-free :
    (v : Value) (k : String) → is_credential_free v ≡ true → is_credential_free (get v k) ≡ true
unfolding is_credential_free
get-free (object b fs) k h = find_field-free k fs h
get-free undefined k h = refl
get-free null k h = refl
get-free (boolean b) k h = refl
get-free (number n) k h = refl
get-free (other_number b s) k h = refl
get-free (text s) k h = refl
get-free (array b xs) k h = refl

-- The message of an answer, from its parts.
abbrev message : Value → Value → Value → Value → Value → Value → String → ℕ → Value → Value
message rq op key fp ext cl code n at = object false (
    field "protocolVersion" (text protocol_version) (
      field "requestId" rq (
        field "operationId" op (
          field "idempotencyKey" key (
            field "intentFingerprint" fp (
              field "externalExecutionId" ext (
                field "classification" cl (
                  field "code" (text code)
                    (field "observationSequence" (number n) (field "observedAt" at end))))))))))

message-free :
    (rq op key fp ext cl : Value) (code : String) (n : ℕ) (at : Value)
    → AllTrue (
        is_credential_free rq
        ∷ is_credential_free op
        ∷ is_credential_free key
        ∷ is_credential_free fp
        ∷ is_credential_free ext
        ∷ is_credential_free cl
        ∷ is_credential_free (text code)
        ∷ is_credential_free at
        ∷ [])
    → is_credential_free (message rq op key fp ext cl code n at) ≡ true
unfolding is_credential_free every free_fields is_credential_field carries_credential
message-free rq op key fp ext cl code n at h =
    AllTrue-every
      (is_credential_free rq
        ∷ is_credential_free op
        ∷ is_credential_free key
        ∷ is_credential_free fp
        ∷ is_credential_free ext
        ∷ is_credential_free cl
        ∷ is_credential_free (text code)
        ∷ is_credential_free at
        ∷ [])
      h

pub free-assert : (v : Value) → is_credential_free v ≡ true → assert_credential_free v ≡ ok tt
unfolding assert_credential_free
free-assert v h = require-true _ _ h

message-fields :
    (rq op key fp ext cl : Value) (code : String) (n : ℕ) (at : Value)
    → exact_fields (deep_freeze_copy (message rq op key fp ext cl code n at)) result_fields []
      ≡ ok tt
unfolding exact_fields deep_freeze_copy chains
message-fields rq op key fp ext cl code n at = refl

message-time :
    (rq op key fp ext cl : Value) (code : String) (n : ℕ) (at : Value)
    → text_satisfies is_canonical (deep_freeze_copy at) ≡ true
    → require_timestamp
        (get (deep_freeze_copy (message rq op key fp ext cl code n at)) "observedAt")
      ≡ ok tt
unfolding require_timestamp deep_freeze_copy
message-time rq op key fp ext cl code n at h = require-true _ _ h

-- An answer whose parts carry no credential, agree with the request and have their forms is valid.
pub message-valid :
    (rq op key fp ext cl : Value) (code : String) (n : ℕ) (at request : Value)
    → AllTrue (
        is_credential_free rq
        ∷ is_credential_free op
        ∷ is_credential_free key
        ∷ is_credential_free fp
        ∷ is_credential_free ext
        ∷ is_credential_free cl
        ∷ is_credential_free (text code)
        ∷ is_credential_free at
        ∷ [])
    → AllTrue (
        true
        ∷ same (deep_freeze_copy rq) (get request "requestId")
        ∷ same (deep_freeze_copy op) (get request "operationId")
        ∷ same (deep_freeze_copy key) (get request "idempotencyKey")
        ∷ same (deep_freeze_copy fp) (get request "intentFingerprint")
        ∷ text_satisfies (includes result_classifications) (deep_freeze_copy cl)
        ∷ true
        ∷ is_external (deep_freeze_copy ext)
        ∷ (not (is_truthy (get request "externalExecutionId"))
            || same (deep_freeze_copy ext) (get request "externalExecutionId"))
        ∷ is_sequence false (number n)
        ∷ is_later (number n) (get request "afterObservationSequence")
        ∷ [])
    → text_satisfies is_canonical (deep_freeze_copy at) ≡ true
    → validate_operation_result (deep_freeze_copy (message rq op key fp ext cl code n at)) request
      ≡ ok (deep_freeze_copy (message rq op key fp ext cl code n at))
unfolding validate_operation_result deep_freeze_copy
message-valid rq op key fp ext cl code n at request free agree time =
    then-eq _ (
      free-assert (deep_freeze_copy (message rq op key fp ext cl code n at)) (
        is_credential_free-copy (message rq op key fp ext cl code n at)
        ∙ message-free rq op key fp ext cl code n at free))
    ∙ then-eq _ (message-fields rq op key fp ext cl code n at)
    ∙ then-eq _ (
        require-true _ _ (
          AllTrue-every
            (true
              ∷ same (deep_freeze_copy rq) (get request "requestId")
              ∷ same (deep_freeze_copy op) (get request "operationId")
              ∷ same (deep_freeze_copy key) (get request "idempotencyKey")
              ∷ same (deep_freeze_copy fp) (get request "intentFingerprint")
              ∷ text_satisfies (includes result_classifications) (deep_freeze_copy cl)
              ∷ true
              ∷ is_external (deep_freeze_copy ext)
              ∷ (not (is_truthy (get request "externalExecutionId"))
                  || same (deep_freeze_copy ext) (get request "externalExecutionId"))
              ∷ is_sequence false (number n)
              ∷ is_later (number n) (get request "afterObservationSequence")
              ∷ [])
            agree))
    ∙ then-eq _ (message-time rq op key fp ext cl code n at time)
    ∙ ap ok (deep_freeze_copy-twice (message rq op key fp ext cl code n at))
