-- ===== src/Base/Outcome.antt =====
-- A computation that returns a value or throws an error, with the error's message.
use Prim.Native.String.{String}
use mathlib.Core.Path.{◌≡◌, refl}
use mathlib.Core.Bool.{Bool, true, false, ◌&&◌}
use mathlib.Core.List.{List, [], ◌∷◌}

pub data Outcome {ℓ} (A : Type ℓ) : Type ℓ where
  ok : A → Outcome A
  throw : String → Outcome A

infixl 5 ◌>>=◌ ◌>>◌
unfoldable pub ◌>>=◌ {ℓ κ} : {A : Type ℓ} {B : Type κ} → Outcome A → (A → Outcome B) → Outcome B
ok a >>= f = f a
throw e >>= f = throw e

unfoldable pub ◌>>◌ {ℓ} : {B : Type ℓ} → Outcome (Unit {0}) → Outcome B → Outcome B
unfolding ◌>>=◌
m >> k = m >>= λ _. k

-- `if (!test) throw new Error(message)`.
unfoldable pub require : Bool → String → Outcome (Unit {0})
require true message = ok tt
require false message = throw message

-- `if (test) throw new Error(message)`.
unfoldable pub reject : Bool → String → Outcome (Unit {0})
reject true message = throw message
reject false message = ok tt

-- A conjunction of tests, as long as the source writes it.
unfoldable pub every : List Bool → Bool
every [] = true
every (b ∷ bs) = b && every bs

abbrev pub AllTrue : List Bool → Type 0
AllTrue [] = Unit {0}
AllTrue (b ∷ bs) = (b ≡ true) × AllTrue bs

pub every-AllTrue : (bs : List Bool) → every bs ≡ true → AllTrue bs
unfolding every
every-AllTrue [] h = tt
every-AllTrue (true ∷ bs) h = (refl, every-AllTrue bs h)
every-AllTrue (false ∷ bs) h = cc

pub AllTrue-every : (bs : List Bool) → AllTrue bs → every bs ≡ true
unfolding every
AllTrue-every [] h = refl
AllTrue-every (b ∷ bs) h = rw h.0 (AllTrue-every bs h.1)

-- Named on an `unfolding` line, it lets a chain of steps compute.
unfoldable pub chains : Unit {0}
unfolding ◌>>=◌ ◌>>◌ require reject every
chains = tt

-- Whether an outcome is a value.
abbrev pub is_ok {ℓ} : {A : Type ℓ} → Outcome A → Bool
is_ok (ok a) = true
is_ok (throw e) = false

-- A step of a chain that returned: the step returned, and so did the rest. The rest of a proof is
-- given as a function of what the step returned.
pub bind-ok {ℓ κ ρ} :
    {A : Type ℓ} {B : Type κ} {P : Type ρ} (m : Outcome A) (f : A → Outcome B) {b : B}
    → (m >>= f) ≡ ok b
    → ((a : A) → m ≡ ok a → f a ≡ ok b → P)
    → P
unfolding ◌>>=◌
bind-ok (ok a) f h k = k a refl h
bind-ok (throw e) f h k = cc

pub require-ok {ℓ ρ} :
    {B : Type ℓ} {P : Type ρ} (test : Bool) (message : String) (k : Outcome B) {b : B}
    → (require test message >> k) ≡ ok b
    → (test ≡ true → k ≡ ok b → P)
    → P
unfolding require ◌>>◌
require-ok true message k h then = then refl h
require-ok false message k h then = cc

pub reject-ok {ℓ ρ} :
    {B : Type ℓ} {P : Type ρ} (test : Bool) (message : String) (k : Outcome B) {b : B}
    → (reject test message >> k) ≡ ok b
    → (test ≡ false → k ≡ ok b → P)
    → P
unfolding reject ◌>>◌
reject-ok false message k h then = then refl h
reject-ok true message k h then = cc

pub then-ok {ℓ ρ} :
    {B : Type ℓ} {P : Type ρ} (m : Outcome (Unit {0})) (k : Outcome B) {b : B}
    → (m >> k) ≡ ok b
    → (m ≡ ok tt → k ≡ ok b → P)
    → P
unfolding ◌>>◌
then-ok (ok tt) k h then = then refl h
then-ok (throw e) k h then = cc

pub require-eq-ok : (test : Bool) (message : String) → require test message ≡ ok tt → test ≡ true
unfolding require
require-eq-ok true message h = refl
require-eq-ok false message h = cc

pub require-true : (test : Bool) (message : String) → test ≡ true → require test message ≡ ok tt
unfolding require
require-true true message h = refl
require-true false message h = cc

pub reject-false : (test : Bool) (message : String) → test ≡ false → reject test message ≡ ok tt
unfolding reject
reject-false false message h = refl
reject-false true message h = cc

pub ok-injective {ℓ} : {A : Type ℓ} {a b : A} → ok a ≡ ok b → a ≡ b
ok-injective h = cc

-- A step that is known to have returned makes way for the rest of its chain.
pub then-eq {ℓ} : {B : Type ℓ} {m : Outcome (Unit {0})} (k : Outcome B) → m ≡ ok tt → (m >> k) ≡ k
unfolding ◌>>◌
then-eq k h = rw h refl

pub bind-eq {ℓ κ} :
    {A : Type ℓ} {B : Type κ} {m : Outcome A} (f : A → Outcome B) {a : A}
    → m ≡ ok a
    → (m >>= f) ≡ f a
unfolding ◌>>=◌
bind-eq f h = rw h refl
