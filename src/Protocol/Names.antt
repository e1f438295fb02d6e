-- ===== src/Protocol/Names.antt =====
-- The names of a request in the checks of accelerator/core/control-plane-protocol.js, in the
-- request and in its copy.
use surgical_dev_ops.Base.Outcome.{
  Outcome, ok, bind-ok, then-ok, require-ok, require-eq-ok, ok-injective,
}
use surgical_dev_ops.Base.{
  ◌≡◌, refl, sym, subst, String, Bool, true, false, if◌then◌else◌, str_eq, eq_refl,
}
use surgical_dev_ops.Json.{Value, text, get, text_satisfies, same}
use surgical_dev_ops.Protocol.{require_identifier}
use surgical_dev_ops.Protocol.Credentials.{assert_credential_free}
use surgical_dev_ops.Protocol.Copy.{deep_freeze_copy}
use surgical_dev_ops.Protocol.Request.{
  validate_binding, validate_contents, validate_details, check_request, validate_request,
}
use surgical_dev_ops.Protocol.Stable.{validate_request-twice}

-- A value that is a text.
abbrev pub Spelled : Value → Type 0
Spelled v = (s : String) × (v ≡ text s)

pub text_satisfies-Spelled :
    (test : String → Bool) (v : Value) → text_satisfies test v ≡ true → Spelled v
text_satisfies-Spelled test (text s) h = (s, refl)
text_satisfies-Spelled test _ h = cc

pub require_identifier-Spelled : (v : Value) → require_identifier v ≡ ok tt → Spelled v
unfolding require_identifier
require_identifier-Spelled v h = text_satisfies-Spelled _ v (require-eq-ok _ _ h)

pub Spelled-same : (v : Value) → Spelled v → same v v ≡ true
Spelled-same v h = subst (λ x. same x x ≡ true) (sym h.1) (eq_refl h.0)

pub Spelled-copy : (v : Value) → Spelled v → deep_freeze_copy v ≡ v
unfolding deep_freeze_copy
Spelled-copy v h = subst (λ x. deep_freeze_copy x ≡ x) (sym h.1) refl

-- The names under which a registry keeps a submission.
pub record Names (request : Value) : Type 0 where
  pub request_named : Spelled (get request "requestId")
  pub operation_named : Spelled (get request "operationId")
  pub key_named : Spelled (get request "idempotencyKey")

validate_binding-Names : (v : Value) → validate_binding v ≡ ok tt → Names v
unfolding validate_binding
validate_binding-Names v h = then-ok _ _ h λ r h. then-ok _ _ h λ o h. then-ok _ _ h λ k h. record {
  request_named = require_identifier-Spelled (get v "requestId") r;
  operation_named = require_identifier-Spelled (get v "operationId") o;
  key_named = require_identifier-Spelled (get v "idempotencyKey") k;
}

-- The operations whose requests are bound to a submission.
abbrev pub is_bound : String → Bool
is_bound operation =
    if str_eq operation "negotiate"
    then false
    else if str_eq operation "capabilities"
    then false
    else true

-- What follows two names that an operation does not have.
neither :
    (a b : Bool) (m n k : Outcome (Unit {0}))
    → (if a then false else if b then false else true) ≡ true
    → (if a then m else if b then n else k) ≡ ok tt
    → k ≡ ok tt
neither false false m n k bound h = h
neither true b m n k bound h = cc
neither false true m n k bound h = cc

contents-parts :
    (operation : String) (v : Value)
    → is_bound operation ≡ true
    → validate_contents operation v ≡ ok tt
    → (validate_binding v ≡ ok tt) × (validate_details operation v ≡ ok tt)
unfolding validate_contents
contents-parts operation v bound h =
    then-ok _ _
      (neither (str_eq operation "negotiate") (str_eq operation "capabilities") _ _ _ bound h)
      λ binding details. (binding, details)

-- The checks that a checked request has passed.
pub validate_request-checked :
    (operation : String) (input request : Value)
    → validate_request operation input ≡ ok request
    → (check_request operation input ≡ ok tt) × (deep_freeze_copy input ≡ request)
unfolding validate_request
validate_request-checked operation input request h =
    then-ok _ _ h λ checked copied. (checked, ok-injective copied)

check_request-contents :
    (operation : String) (v : Value)
    → check_request operation v ≡ ok tt
    → validate_contents operation v ≡ ok tt
unfolding check_request
check_request-contents operation v h = require-ok _ _ _ h λ version h.
    then-ok _ _ h λ free h.
      bind-ok _ _ h λ required known h. then-ok _ _ h λ fields h. then-ok _ _ h λ named h. h

pub check_request-free :
    (operation : String) (v : Value)
    → check_request operation v ≡ ok tt
    → assert_credential_free v ≡ ok tt
unfolding check_request
check_request-free operation v h = require-ok _ _ _ h λ version h. then-ok _ _ h λ free h. free

pub check_request-Names :
    (operation : String) (v : Value)
    → is_bound operation ≡ true
    → check_request operation v ≡ ok tt
    → Names v
check_request-Names operation v bound h =
    validate_binding-Names v
      (contents-parts operation v bound (check_request-contents operation v h)).0

pub check_request-details :
    (operation : String) (v : Value)
    → is_bound operation ≡ true
    → check_request operation v ≡ ok tt
    → validate_details operation v ≡ ok tt
check_request-details operation v bound h =
    (contents-parts operation v bound (check_request-contents operation v h)).1

-- A checked request of a bound operation names its submission by texts.
pub validate_request-Names :
    (operation : String) (input request : Value)
    → is_bound operation ≡ true
    → validate_request operation input ≡ ok request
    → Names request
validate_request-Names operation input request bound h =
    check_request-Names operation request bound
      (validate_request-checked operation request request
        (validate_request-twice operation input request h)).0

-- Every checked request carries no credential and is named by a text.
pub validate_request-named :
    (operation : String) (input request : Value)
    → validate_request operation input ≡ ok request
    → (assert_credential_free request ≡ ok tt) × Spelled (get request "requestId")
unfolding check_request
validate_request-named operation input request valid =
    require-ok _ _ _
      (validate_request-checked operation request request
        (validate_request-twice operation input request valid)).0
      λ version h. then-ok _ _ h λ free h. bind-ok _ _ h λ required known h.
        then-ok _ _ h λ fields h.
          then-ok _ _ h
            λ named h. (free, require_identifier-Spelled (get request "requestId") named)
