-- ===== src/Base/Result.antt =====
-- What a call of the library comes to: a result, the `false` or NULL of its error path, or the
-- abort of a failed `assert`.
use mathlib.Core.Bool.{Bool, true, false}
use mathlib.Core.Path.{◌≡◌, refl, subst}
use mathlib.Core.Logic.{◌⊎◌, inl, inr}

pub data Outcome {ℓ} (A : Type ℓ) : Type ℓ where
  done : A → Outcome A
  failed : Outcome A
  aborted : Outcome A

infixl 5 ◌>>=◌ ◌>>◌
abbrev pub ◌>>=◌ {ℓ κ} : {A : Type ℓ} {B : Type κ} → Outcome A → (A → Outcome B) → Outcome B
done a >>= f = f a
failed >>= f = failed
aborted >>= f = aborted

abbrev pub ◌>>◌ {ℓ} : {B : Type ℓ} → Outcome (Unit {0}) → Outcome B → Outcome B
m >> k = m >>= λ _. k

-- `assert(b)`.
abbrev pub assert : Bool → Outcome (Unit {0})
assert true = done tt
assert false = aborted

-- `if (!b) return false;`
abbrev pub require : Bool → Outcome (Unit {0})
require true = done tt
require false = failed

-- What holds of the result, if there is one.
abbrev pub Lands {ℓ κ} : {A : Type ℓ} → (A → Type κ) → Outcome A → Type κ
Lands P (done a) = P a
Lands P failed = Unit
Lands P aborted = Unit

pub Lands-bind {ℓ κ μ} :
    {A B : Type ℓ} (P : A → Type κ) (Q : B → Type μ) (m : Outcome A) (k : A → Outcome B)
    → Lands P m
    → ((a : A) → P a → Lands Q (k a))
    → Lands Q (m >>= k)
Lands-bind P Q (done a) k h f = f a h
Lands-bind P Q failed k h f = tt
Lands-bind P Q aborted k h f = tt

pub Lands-done {ℓ κ} :
    {A : Type ℓ} (P : A → Type κ) (m : Outcome A) (a : A) → m ≡ done a → Lands P m → P a
Lands-done P m a e h = subst (Lands P) e h

pub Outcome-cases {ℓ} :
    {A : Type ℓ} (m : Outcome A) → ((a : A) × (m ≡ done a)) ⊎ ((m ≡ failed) ⊎ (m ≡ aborted))
Outcome-cases (done a) = inl (a, refl)
Outcome-cases failed = inr (inl refl)
Outcome-cases aborted = inr (inr refl)

pub Lands-weaken {ℓ κ μ} :
    {A : Type ℓ} (P : A → Type κ) (Q : A → Type μ) (m : Outcome A)
    → Lands P m
    → ((a : A) → P a → Q a)
    → Lands Q m
Lands-weaken P Q (done a) h f = f a h
Lands-weaken P Q failed h f = tt
Lands-weaken P Q aborted h f = tt

-- What does not depend on the first call.
pub Lands-then {ℓ κ} :
    {A B : Type ℓ} (P : B → Type κ) (m : Outcome A) (k : A → Outcome B)
    → ((a : A) → Lands P (k a))
    → Lands P (m >>= k)
Lands-then P (done a) k f = f a
Lands-then P failed k f = tt
Lands-then P aborted k f = tt
