-- ===== src/Registry/History/Replay.antt =====
-- A claim that is made again.
use surgical_dev_ops.Base.Outcome.{ok, ◌>>=◌, ◌>>◌, require, bind-ok, ok-injective}
use surgical_dev_ops.Base.{◌≡◌, ◌∙◌, refl, sym, ap, subst, true, List, some, eq_refl}
use surgical_dev_ops.Json.{Value, get}
use surgical_dev_ops.Protocol.Copy.{deep_freeze_copy, deep_freeze_copy-twice}
use surgical_dev_ops.Protocol.Serialize.{is_serializable, canonical_serialize}
use surgical_dev_ops.Protocol.Names.{Spelled, Spelled-same, Spelled-copy, validate_request-checked}
use surgical_dev_ops.Registry.{Entry, Registry, empty, lookup, store}
use surgical_dev_ops.Json.Canonical.{canonical_json}
use surgical_dev_ops.Registry.Tables.{lookup-set_here}
use surgical_dev_ops.Registry.Claim.{
  Claim, replayed, created, claim, claim_request, claim_key, same_value, check_claim, after_claim,
  new_entry,
}
use surgical_dev_ops.Registry.Spec.{
  Submissions, Command, claiming, claimed, step, after, spec_after, spec_step, settle,
}
use surgical_dev_ops.Registry.Refinement.{Refines}
use surgical_dev_ops.Registry.Refinement.Claims.{claim_key-created, Checked, check_claim-Checked}
use surgical_dev_ops.Registry.Refinement.Runs.{
  no_submissions, empty-Refines, step-Refines, after-Refines,
}
use surgical_dev_ops.Registry.History.{Evolved}
use surgical_dev_ops.Registry.History.Lifetime.{
  checked-Names, spec_after-Later, idempotency_key-IsName,
}

same_value_self : (v : Value) → is_serializable v ≡ true → same_value v v ≡ ok true
unfolding same_value canonical_serialize ◌>>=◌ ◌>>◌ require
same_value_self v h = rw h rw (eq_refl (canonical_json v)) refl

-- What a claim that created a record has written.
record Written (r0 r : Registry) (input request : Value) (e : Entry) : Type 0 where
  stored : store r0 e ≡ r
  made_from :
      new_entry r0.made request (get input "externalExecutionId") (get input "observedAt") ≡ e

after_claim-created :
    (r0 r : Registry) (result : Claim) (e : Entry)
    → after_claim r0 result ≡ (r, created e)
    → (store r0 e ≡ r) × (result ≡ created e)
after_claim-created r0 r (created d) e h =
    let one : created d ≡ created e = ap (λ p. p.1) h in
    let same_entry : d ≡ e = cc in (subst (λ x. store r0 x ≡ r) same_entry (ap (λ p. p.0) h), one)
after_claim-created r0 r (replayed d) e h =
    let clash : replayed d ≡ created e = ap (λ p. p.1) h in cc

claim-Written :
    (r0 r : Registry) (input request : Value) (e : Entry)
    → claim r0 input ≡ ok (r, created e)
    → check_claim input ≡ ok request
    → Written r0 r input request e
unfolding claim claim_request
claim-Written r0 r input request e h checked = bind-ok _ _ h λ q checked' h.
    bind-ok _ _ h λ result keyed h.
      let found = after_claim-created r0 r result e (ok-injective h) in
      let same_request : q ≡ request = ok-injective (sym checked' ∙ checked) in
      record {
        stored = found.0;
        made_from =
            subst
              (λ x.
                new_entry r0.made x (get input "externalExecutionId") (get input "observedAt") ≡ e)
              same_request (claim_key-created _ _ _ _ e q (keyed ∙ ap ok found.1)).made_now;
      }

-- The record is found under the request's key, and its request is the request.
Written-key :
    (r0 r : Registry) (input request : Value) (e : Entry)
    → Written r0 r input request e
    → Checked input request
    → (lookup (get request "idempotencyKey") r.by_idempotency ≡ some e) × (e.request ≡ request)
unfolding store new_entry
Written-key r0 r input request e w checked =
    let named = (checked-Names input request checked).key_named in
    let key : e.idempotency_key ≡ get request "idempotencyKey" =
      ap (λ x. x.idempotency_key) (sym w.made_from)
      ∙ Spelled-copy (get request "idempotencyKey") named in
    (
      subst (λ x. lookup (get request "idempotencyKey") x.by_idempotency ≡ some e) w.stored
          (subst (λ k. lookup k (store r0 e).by_idempotency ≡ some e) key
            (lookup-set_here e.idempotency_key e r0.by_idempotency
              (Spelled-same e.idempotency_key (subst Spelled (sym key) named)))),
      ap (λ x. x.request) (sym w.made_from)
          ∙ subst (λ x. deep_freeze_copy x ≡ x)
              (validate_request-checked "submit" (get input "request") request checked.validated).1
              (deep_freeze_copy-twice (get input "request")),
    )

-- A claim that returned leaves the maps in step with a list.
step-claimed :
    (r0 : Registry) (s0 : Submissions) (input : Value) (r : Registry) (e : Entry)
    → Refines r0 s0
    → claim r0 input ≡ ok (r, created e)
    → (s : Submissions) × Refines r s
unfolding step
step-claimed r0 s0 input r e h called =
    let next = (step-Refines r0 s0 (claiming input) h).0 in
    (
      (spec_step s0 (claiming input)).0,
      subst (λ m. Refines (settle r0 claimed m).0 (spec_step s0 (claiming input)).0) called next,
    )

claim-found :
    (r : Registry) (again request : Value) (d : Entry)
    → check_claim again ≡ ok request
    → lookup (get request "idempotencyKey") r.by_idempotency ≡ some d
    → d.request ≡ request
    → is_serializable request ≡ true
    → claim r again ≡ ok (r, replayed d)
unfolding claim claim_request claim_key ◌>>=◌ ◌>>◌ require
claim-found r again request d checked found same_request written =
    rw checked rw found rw same_request rw (same_value_self request written) refl

-- A claim is idempotent. Once a claim has created a record, a claim of the same checked request, with
-- whatever external execution and time, is answered by that record's present state and changes
-- nothing, whatever calls have come between. The request must be one that can be written as JSON.
pub claim-replayed :
    (before between : List Command) (first again request : Value) (r : Registry) (e : Entry)
    → claim (after empty before) first ≡ ok (r, created e)
    → check_claim first ≡ ok request
    → check_claim again ≡ ok request
    → is_serializable request ≡ true
    → (d : Entry) × (claim (after r between) again ≡ ok (after r between, replayed d)) × Evolved e d
claim-replayed before between first again request r e h checked repeated written =
    let r0 = after empty before in
    let s0 = spec_after no_submissions before in
    let key = get request "idempotencyKey" in
    let one =
      step-claimed r0 s0 first r e (after-Refines empty no_submissions before empty-Refines) h in
    let here =
      Written-key r0 r first request e (claim-Written r0 r first request e h checked)
        (check_claim-Checked first request checked) in
    let later =
      spec_after-Later (λ x. x.idempotency_key) key e r one.0 between idempotency_key-IsName one.1
        (sym (one.1.keys key) ∙ here.0) in
    let found : lookup key (after r between).by_idempotency ≡ some later.0 =
      (after-Refines r one.0 between one.1).keys key ∙ later.1 in
    (
      later.0,
      claim-found (after r between) again request later.0 repeated found
          (later.2.request_kept ∙ here.1) written,
      later.2,
    )
