-- ===== src/Risk/Approved.antt =====
-- What an allowed execution of a critical operation is known to rest on.
use surgical_dev_ops.Base.Outcome.{
  Outcome, ok, throw, require-ok, reject-ok, then-ok, bind-ok, every-AllTrue, is_ok, ok-injective,
}
use surgical_dev_ops.Base.{
  some-injective, ◌≡◌, ◌∙◌, refl, sym, subst, ◌⊎◌, inl, inr, ◌≤◌, String, true, false,
  if◌then◌else◌, Option, some, arith, and-split, eq_iff,
}
use surgical_dev_ops.Json.{Value, Fields, undefined, object, field, get, is_string}
use surgical_dev_ops.Identity.{Temporal, stringify, canonical_workspace}
use surgical_dev_ops.Identity.Evaluate.{evaluate_identity}
use surgical_dev_ops.Identity.Laws.{Timely, check_time-Timely}
use surgical_dev_ops.Risk.{
  Level, r0, r1, r2, r3, level_order, highest_level, normalize_mode, fact, is_critical,
  is_sensitive, computed_level,
}
use surgical_dev_ops.Risk.Approval.{
  identity_expected, assertion_of, approval_fields, is_approval, check_entries, resolve_expected,
  evaluate_approval, evaluate_r3,
}
use surgical_dev_ops.Risk.Classify.{
  is_r3, approval_expected, evaluate_approved_policy, evaluate_policy, classify_scope,
}
use surgical_dev_ops.Risk.Laws.{classify_scope-Permitted, highest_right}

-- A value is expected to be another, unless nothing is expected.
abbrev pub Meets : Value → Value → Type 0
Meets actual expected = (expected ≡ undefined) ⊎ (stringify actual ≡ stringify expected)

check_entries-first :
    (k : String) (v : Value) (es : Fields) (f : Value)
    → check_entries (field k v es) f ≡ ok tt
    → Meets (get f k) v × (check_entries es f ≡ ok tt)
unfolding check_entries
check_entries-first k undefined es f h = (inl refl, h)
check_entries-first k v es f h =
    require-ok _ _ _ h λ same h. (inr ((eq_iff _ _).0 (and-split _ _ same).1), h)

-- A level that is at least R3 is R3.
top-is_r3 : (l : Level) → 3 ≤ level_order l → is_r3 l ≡ true
unfolding level_order
top-is_r3 r3 h = refl
top-is_r3 r0 h = ground (arith, h)
top-is_r3 r1 h = ground (arith, h)
top-is_r3 r2 h = ground (arith, h)

critical-level :
    (input : Value) (mode : String)
    → is_critical input mode ≡ true
    → 3 ≤ level_order (computed_level input mode)
unfolding computed_level level_order
critical-level input mode h = rw h (
    highest_right
      (if is_sensitive input
        then highest_level (if fact (get input "facts") "readOnly" then r0 else r1) r2
        else (if fact (get input "facts") "readOnly" then r0 else r1))
      r3)

module _ (sha256 : String → String) (authorized_root : String → Option String) where
  abbrev pub workspace_of : Value → Value
  workspace_of c = canonical_workspace authorized_root (get c "workspace")

  -- A human's approval, held against the operation that it is to permit.
  pub record Approved (t : Temporal) (c input : Value) : Type 0 where
    pub human : is_string (get (get c "approver") "type") "HUMAN" ≡ true
    pub approved : is_string (get c "decision") "APPROVED" ≡ true
    pub identity : Value
    pub identified :
        evaluate_identity sha256 authorized_root t
          (get c "verifiedIdentityAssertion")
          (identity_expected c (workspace_of c))
        ≡ ok identity
    pub operation_bound : Meets (get c "operationId") (get input "operationId")
    pub action_bound : Meets (get c "action") (get input "action")
    pub scope_bound : Meets (get c "scope") (get input "scope")
    pub workspace_bound : Meets (workspace_of c) (workspace_of input)
    pub timely : Timely sha256 authorized_root t (get c "timestamp") (get c "expiresAt")

  identified : (m : Outcome Value) → is_ok m ≡ true → (a : Value) × (m ≡ ok a)
  identified (ok a) h = (a, refl)
  identified (throw e) h = cc

  -- The expected entries that an approval is bound by.
  bound-entries :
      (input f : Value) (entries : Fields)
      → resolve_expected sha256 authorized_root (approval_expected input) ≡ ok entries
      → check_entries entries f ≡ ok tt
      → Meets (get f "operationId") (get input "operationId")
        × Meets (get f "workspace") (workspace_of input)
        × Meets (get f "action") (get input "action")
        × Meets (get f "scope") (get input "scope")
  unfolding resolve_expected
  bound-entries input f entries h checked = reject-ok _ _ _ h λ resolved h.
      let c1 =
        check_entries-first "operationId" (get input "operationId") _ f
          (subst (λ x. check_entries x f ≡ ok tt) (sym (ok-injective h)) checked) in
      let c2 = check_entries-first "workspace" (workspace_of input) _ f c1.1 in
      let c3 = check_entries-first "capabilityType" (get input "capabilityType") _ f c2.1 in
      let c4 = check_entries-first "action" (get input "action") _ f c3.1 in
      let c5 = check_entries-first "scope" (get input "scope") _ f c4.1 in (c1.0, c2.0, c4.0, c5.0)

  evaluate_approval-Approved :
      (t : Temporal) (c input a : Value)
      → evaluate_approval sha256 authorized_root t c
          (workspace_of c)
          (evaluate_identity sha256 authorized_root t
            (get c "verifiedIdentityAssertion")
            (identity_expected c (workspace_of c)))
          (approval_expected input)
        ≡ ok a
      → Approved t c input
  unfolding evaluate_approval is_approval approval_fields
  evaluate_approval-Approved t c input a h = require-ok _ _ _ h λ formed h.
      reject-ok _ _ _ h λ no_time h. bind-ok _ _ h λ entries resolved h. then-ok _ _ h λ bound h.
        then-ok _ _ h λ timed h.
          let all = every-AllTrue _ formed in
          let evaluation =
            evaluate_identity sha256 authorized_root t (get c "verifiedIdentityAssertion")
              (identity_expected c (workspace_of c)) in
          let found = identified evaluation all.1.1.1.1.1.1.1.1.1.1.1.1.0 in
          let f = object false (approval_fields c (workspace_of c) (assertion_of evaluation)) in
          let agrees = bound-entries input f entries resolved bound in
          record {
            human = all.1.1.1.0;
            approved = all.1.1.1.1.0;
            identity = found.0;
            identified = found.1;
            operation_bound = agrees.0;
            action_bound = agrees.2;
            scope_bound = agrees.3;
            workspace_bound = agrees.1;
            timely =
                check_time-Timely sha256 authorized_root t (get c "timestamp") (get c "expiresAt") _
                  _ _ timed;
          }

  pub evaluate_r3-Approved :
      (t : Temporal) (c input a : Value)
      → evaluate_r3 sha256 authorized_root t c (approval_expected input) ≡ ok a
      → Approved t c input
  unfolding evaluate_r3
  evaluate_r3-Approved t c input a h =
      require-ok _ _ _ h λ object h. evaluate_approval-Approved t c input a h

  policy-Approved :
      (t : Temporal) (policy : Value) (l : Level) (input a : Value)
      → is_r3 l ≡ true
      → evaluate_policy sha256 authorized_root t policy l input ≡ ok a
      → Approved t (get policy "approvalAuthority") input
  unfolding evaluate_policy evaluate_approved_policy
  policy-Approved t policy r3 input a top h = require-ok _ _ _ h λ object h.
      require-ok _ _ _ h λ known h. reject-ok _ _ _ h λ granted h.
        require-ok _ _ _ h
          λ asked h. evaluate_r3-Approved t (get policy "approvalAuthority") input a h
  policy-Approved t policy r0 input a top h = cc
  policy-Approved t policy r1 input a top h = cc
  policy-Approved t policy r2 input a top h = cc

  -- An execution of a critical operation (one whose facts call it critical or irreversible, a
  -- refractor, an architectural change, or one of more than a hundred lines) is allowed only on a
  -- human's approval: its approver is a human whose identity was verified for this approval, it is
  -- bound to the operation, its action, its scope and its workspace as far as they are given, and
  -- where a current time is required or given, the authoritative reading lies in its interval.
  pub classify_scope-Approved :
      (t : Temporal) (input : Value) (mode : String)
      → (classify_scope sha256 authorized_root t input).execution_allowed ≡ true
      → normalize_mode (get input "mode") ≡ some mode
      → is_critical input mode ≡ true
      → Approved t (get (get input "policy") "approvalAuthority") input
  classify_scope-Approved t input mode h moded critical =
      let p = classify_scope-Permitted sha256 authorized_root t input h in
      let same_mode : mode ≡ p.mode = some-injective (sym moded ∙ p.moded) in
      let above =
        critical-level input p.mode (subst (λ m. is_critical input m ≡ true) same_mode critical) in
      policy-Approved t (get input "policy") p.level input p.authority
        (top-is_r3 p.level (omega (arith, above, p.above_computed))) p.permitted
