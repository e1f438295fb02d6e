-- ===== src/Service/Observed.antt =====
-- The record that an observation of accelerator/core/control-plane-service.js writes, beside its
-- request.
use surgical_dev_ops.Base.Text.{includes}
use surgical_dev_ops.Base.Outcome.{
  Outcome, ok, throw, bind-ok, then-ok, require-ok, ok-injective, require-eq-ok,
}
use surgical_dev_ops.Base.{
  ◌≡◌, ◌∙◌, refl, sym, ap, subst, ℕ, suc, String, Bool, true, ◌&&◌, ◌||◌, arith, ==_iff,
}
use surgical_dev_ops.Json.{Value, number, text, get, is_number, text_satisfies, same}
use surgical_dev_ops.Timestamp.{is_canonical}
use surgical_dev_ops.Protocol.{result_classifications}
use surgical_dev_ops.Protocol.Credentials.{
  assert_credential_free, is_credential_free, free_fields, is_credential_field, carries_credential,
}
use surgical_dev_ops.Protocol.Copy.{deep_freeze_copy}
use surgical_dev_ops.Protocol.Names.{Spelled}
use surgical_dev_ops.Protocol.External.{External}
use surgical_dev_ops.Registry.{Entry, Registry}
use surgical_dev_ops.Registry.Tables.{same-eq}
use surgical_dev_ops.Registry.Observe.{
  get_entry, observe, require_bound, check_bound, check_observation, observed_entry, is_undefined,
}
use surgical_dev_ops.Service.{observation_request, observe_input, read_clock}
use surgical_dev_ops.Service.Operations.{observe_request}

-- The record of an observation, with the request and the classification it was made for.
pub record Observed (request c : Value) (code : String) (e : Entry) : Type 0 where
  pub request_free : is_credential_free request ≡ true
  pub classification_free : is_credential_free c ≡ true
  pub code_free : is_credential_free (text code) ≡ true
  pub time_free : is_credential_free e.observed_at ≡ true
  pub classified : text_satisfies (includes result_classifications) c ≡ true
  pub timed : text_satisfies is_canonical e.observed_at ≡ true
  pub external_agrees : e.external_execution_id ≡ get request "externalExecutionId"
  pub fingerprint_agrees :
      same (get request "intentFingerprint") (get request "intentFingerprint") ≡ true
  pub sequence_before : ℕ
  pub sequence_seen : get request "afterObservationSequence" ≡ number sequence_before
  pub sequence_now : e.observation_sequence ≡ suc sequence_before

pub assert-free : (v : Value) → assert_credential_free v ≡ ok tt → is_credential_free v ≡ true
unfolding assert_credential_free
assert-free v h = require-eq-ok _ _ h

-- The parts of an observation's input carry no credential.
and-parts :
    (a b c d : Bool)
    → (a && (b && (c && (d && true)))) ≡ true
    → (b ≡ true) × (c ≡ true) × (d ≡ true)
and-parts a b c d h = ground arith

input-free :
    (q c : Value) (code : String) (t : Value)
    → is_credential_free (observe_input q c code t) ≡ true
    → (is_credential_free c ≡ true)
      × (is_credential_free (text code) ≡ true)
      × (is_credential_free t ≡ true)
unfolding is_credential_free free_fields is_credential_field carries_credential
input-free q c code t h =
    and-parts (is_credential_free q) (is_credential_free c) (is_credential_free (text code))
      (is_credential_free t) h

-- Of a record that is bound to a request: the fingerprint, and the external execution if it is named.
pub check_bound-agrees :
    (d : Entry) (request : Value)
    → check_bound d request ≡ ok tt
    → (same d.intent_fingerprint (get request "intentFingerprint") ≡ true)
      × ((is_undefined (get request "externalExecutionId")
            || same (get request "externalExecutionId") d.external_execution_id)
          ≡ true)
unfolding check_bound
check_bound-agrees d request h =
    then-ok _ _ h λ place h. require-ok _ _ _ h λ fingerprint h. (fingerprint, require-eq-ok _ _ h)

external-eq : (v w : Value) → Spelled v → (is_undefined v || same v w) ≡ true → w ≡ v
external-eq v w named h = sym (
    same-eq v w
      (subst (λ x. (is_undefined x || same x w) ≡ true → same x w ≡ true) (sym named.1) (λ k. k) h))

same_self : (v w : Value) → same v w ≡ true → same w w ≡ true
same_self v w h = subst (λ x. same x w ≡ true) (same-eq v w h) h

is_number-copied : (v : Value) (n : ℕ) → is_number (deep_freeze_copy v) n ≡ true → v ≡ number n
unfolding deep_freeze_copy
is_number-copied (number m) n h = ap number ((==_iff m n).0 h)
is_number-copied _ n h = cc

time-copied :
    (t : Value)
    → text_satisfies is_canonical t ≡ true
    → is_credential_free t ≡ true
    → (text_satisfies is_canonical (deep_freeze_copy t) ≡ true)
      × (is_credential_free (deep_freeze_copy t) ≡ true)
unfolding deep_freeze_copy
time-copied (text s) h k = (h, k)
time-copied _ h k = cc

read_clock-canonical :
    (clock : Outcome Value) (t : Value)
    → read_clock clock ≡ ok t
    → text_satisfies is_canonical t ≡ true
unfolding read_clock
read_clock-canonical (ok v) t h =
    require-ok _ _ _ h
      λ formed h. subst (λ x. text_satisfies is_canonical x ≡ true) (ok-injective h) formed
read_clock-canonical (throw e) t h = cc

require_bound-bound :
    (r : Registry) (q : Value) (d : Entry) → require_bound r q ≡ ok d → check_bound d q ≡ ok tt
unfolding require_bound
require_bound-bound r q d h = require-ok _ _ _ h λ some_value h. bind-ok _ _ h λ e found h.
    then-ok _ _ h λ bound h. subst (λ x. check_bound x q ≡ ok tt) (ok-injective h) bound

get_entry-bound :
    (r : Registry) (q : Value) (d : Entry)
    → get_entry r q ≡ ok d
    → (is_credential_free q ≡ true) × (check_bound d q ≡ ok tt)
unfolding get_entry
get_entry-bound r q d h = then-ok _ _ h λ free h. (assert-free q free, require_bound-bound r q d h)

-- The request of an observation repeats the external execution of the record that was read.
observation_request-external :
    (request sequence : Value) (d : Entry)
    → Spelled d.external_execution_id
    → get (observation_request request sequence d) "externalExecutionId" ≡ d.external_execution_id
unfolding observation_request deep_freeze_copy
observation_request-external request sequence d named =
    subst (λ x. deep_freeze_copy x ≡ x) (sym named.1) refl

observation_request-sequence :
    (request sequence : Value) (d : Entry)
    → get (observation_request request sequence d) "afterObservationSequence"
      ≡ deep_freeze_copy sequence
unfolding observation_request deep_freeze_copy
observation_request-sequence request sequence d = refl

-- What an observation of the registry went through.
record Observation (r : Registry) (input : Value) (e : Entry) : Type 0 where
  old : Entry
  input_free : is_credential_free input ≡ true
  bound : check_bound old (get input "request") ≡ ok tt
  checked : check_observation old (get input "request") (get input "classification") ≡ ok tt
  next :
      observed_entry r.made old
        (get input "classification")
        (get input "code")
        (get input "observedAt")
      ≡ e

observe-Observation :
    (r s : Registry) (input : Value) (e : Entry)
    → observe r input ≡ ok (s, e)
    → Observation r input e
unfolding observe
observe-Observation r s input e h = then-ok _ _ h λ fields h. then-ok _ _ h λ free h.
    bind-ok _ _ h λ d bound h. then-ok _ _ h λ checked h. record {
      old = d;
      input_free = assert-free input free;
      bound = require_bound-bound r (get input "request") d bound;
      checked = checked;
      next = ap (λ p. p.1) (ok-injective h);
    }

-- The classification is known, and the request has seen what the record says.
check_observation-parts :
    (d : Entry) (q c : Value)
    → check_observation d q c ≡ ok tt
    → (text_satisfies (includes result_classifications) c ≡ true)
      × (is_number (get q "afterObservationSequence") d.observation_sequence ≡ true)
unfolding check_observation
check_observation-parts d q c h =
    require-ok _ _ _ h λ known h. require-ok _ _ _ h λ fresh h. (known, fresh)

observation-External :
    (d e : Entry) (request sequence : Value)
    → External request
    → check_bound d request ≡ ok tt
    → check_bound e (observation_request request sequence d) ≡ ok tt
    → e.external_execution_id ≡ get request "externalExecutionId"
observation-External d e request sequence ext first second =
    let v = get request "externalExecutionId" in
    let known : d.external_execution_id ≡ v =
      external-eq v d.external_execution_id ext.external_named
        (check_bound-agrees d request first).1 in
    let named : Spelled d.external_execution_id = subst Spelled (sym known) ext.external_named in
    let asked = observation_request-external request sequence d named in
    external-eq (get (observation_request request sequence d) "externalExecutionId")
      e.external_execution_id (subst Spelled (sym asked) named)
      (check_bound-agrees e (observation_request request sequence d) second).1
    ∙ asked
    ∙ known

pub observe_request-Observed :
    (clock : Outcome Value) (r s : Registry) (request c : Value) (code : String) (e : Entry)
    → External request
    → observe_request clock r request c code ≡ ok (s, e)
    → Observed request c code e
unfolding observe_request observed_entry
observe_request-Observed clock r s request c code e ext h = bind-ok _ _ h λ d got h.
    bind-ok _ _ h λ t read h.
      let sequence = get request "afterObservationSequence" in
      let q = observation_request request sequence d in
      let o = observe-Observation r s (observe_input q c code t) e h in
      let parts = check_observation-parts o.old q c o.checked in
      let input = input-free q c code t o.input_free in
      let first = get_entry-bound r request d got in
      let time = time-copied t (read_clock-canonical clock t read) input.2 in
      let seen : is_number (deep_freeze_copy sequence) o.old.observation_sequence ≡ true =
        subst (λ x. is_number x o.old.observation_sequence ≡ true)
          (observation_request-sequence request sequence d) parts.1 in
      record {
        request_free = first.0;
        classification_free = input.0;
        code_free = input.1;
        time_free = subst (λ x. is_credential_free x.observed_at ≡ true) o.next time.1;
        classified = parts.0;
        timed = subst (λ x. text_satisfies is_canonical x.observed_at ≡ true) o.next time.0;
        external_agrees =
            ap (λ x. x.external_execution_id) (sym o.next)
            ∙ observation-External d o.old request sequence ext first.1 o.bound;
        fingerprint_agrees =
            same_self d.intent_fingerprint (get request "intentFingerprint")
              (check_bound-agrees d request first.1).0;
        sequence_before = o.old.observation_sequence;
        sequence_seen = is_number-copied sequence o.old.observation_sequence seen;
        sequence_now = ap (λ x. x.observation_sequence) (sym o.next);
      }
