-- ===== src/Prelude/Results.antt =====
-- What a run of C++ code can end in. Assertions are enabled, as in the builds that check them.
use mathlib.Core.Path.{◌≡◌, refl}
use mathlib.Core.Bool.{Bool, true, false}
use mathlib.Core.Option.{Option, none, some}

-- `out_of_range` is a read or write outside of an array or through no object, which C++ leaves
-- undefined; `aborted` is a failed `assert` or a call of `std::abort`; `thrown` is an exception that leaves the call,
-- and `divided_by_zero` an integer division that has no result.
pub data Fault : Type 0 where
  out_of_range aborted thrown divided_by_zero : Fault

pub data Outcome {ℓ} (A : Type ℓ) : Type ℓ where
  ok : A → Outcome A
  fail : Fault → Outcome A

infixl 5 ◌>>=◌ ◌>>◌
abbrev pub ◌>>=◌ {ℓ κ} : {A : Type ℓ} {B : Type κ} → Outcome A → (A → Outcome B) → Outcome B
ok a >>= f = f a
fail e >>= f = fail e

abbrev pub ◌>>◌ {ℓ} : {B : Type ℓ} → Outcome (Unit {0}) → Outcome B → Outcome B
m >> k = m >>= λ _. k

abbrev pub assert : Bool → Outcome (Unit {0})
assert true = ok tt
assert false = fail Fault.aborted

-- An indexed access.
abbrev pub access {ℓ} : {A : Type ℓ} → Option A → Outcome A
access none = fail Fault.out_of_range
access (some a) = ok a

-- A run that ends well ran each of its parts to a good end.
pub bind_ok {ℓ κ} :
    {A : Type ℓ} {B : Type κ} (m : Outcome A) (f : A → Outcome B) {b : B}
    → (m >>= f) ≡ ok b
    → (a : A) × (m ≡ ok a) × (f a ≡ ok b)
bind_ok (ok a) f h = (a, refl, h)
bind_ok (fail e) f h = cc

pub ok-inj {ℓ} : {A : Type ℓ} {a b : A} → ok a ≡ ok b → a ≡ b
ok-inj h = cc

pub fail-ok {ℓ} : {A : Type ℓ} {f : Fault} {a : A} → fail f ≡ ok a → ⊥
fail-ok h = cc

pub some-inj {ℓ} : {A : Type ℓ} {a b : A} → some a ≡ some b → a ≡ b
some-inj h = cc

-- An absent value is not a present one.
pub clash {ℓ} : {A : Type ℓ} {a : A} → none ≡ some a → ⊥
clash h = cc
