-- ===== src/Attempt.antt =====
-- Calls that change an object and may fail half-way: the object is there after a failure too, which
-- an `Outcome` does not show. An abort is a failed assertion.
use mathlib.Core.Path.{subst}
use columnix.Base.{refl, ◌≡◌, ap, Bool, true, false, Outcome, done, failed, aborted}

pub data Attempt (S A : Type 0) : Type 0 where
  success : A → S → Attempt S A
  failure : S → Attempt S A
  abort : Attempt S A

abbrev pub Call : Type 0 → Type 0 → Type 0
Call S A = S → Attempt S A

module _ {S : Type 0} where
  abbrev pub pure : {A : Type 0} → A → Call S A
  pure a s = success a s

  infixl 5 ◌>>=◌ ◌>>◌
  abbrev pub ◌>>=◌ : {A B : Type 0} → Call S A → (A → Call S B) → Call S B
  ◌>>=◌ m f s = elim (m s) [ success a t ↦ f a t | failure t ↦ failure t | abort ↦ abort ]

  abbrev pub ◌>>◌ : {B : Type 0} → Call S (Unit {0}) → Call S B → Call S B
  m >> k = m >>= λ _. k

  -- The object as it is, and a change of it.
  abbrev pub current : Call S S
  current s = success s s

  abbrev pub modify : (S → S) → Call S (Unit {0})
  modify f s = success tt (f s)

  -- `if (!b) return false;` and `assert(b)`.
  abbrev pub check : Bool → Call S (Unit {0})
  check true s = success tt s
  check false s = failure s

  abbrev pub ensure : Bool → Call S (Unit {0})
  ensure true s = success tt s
  ensure false s = abort

  -- A call on another object, which fails as a whole.
  abbrev pub lift : {A : Type 0} → Outcome A → Call S A
  lift (done a) s = success a s
  lift failed s = failure s
  lift aborted s = abort

  -- `goto error`, with what stands behind the label.
  abbrev pub on_failure : {A : Type 0} → (S → S) → Call S A → Call S A
  on_failure f m s = elim (m s) [
    | success a t ↦ success a t
    | failure t ↦ failure (f t)
    | abort ↦ abort
  ]

-- A chain whose first call succeeds.
module _ {S A B : Type 0} where
  pub then-success :
      (m : Call S A) (k : A → Call S B) (s t : S) (a : A) → m s ≡ success a t → (m >>= k) s ≡ k a t
  then-success m k s t a e =
      ap
        (λ r. elim r as (λ _. Attempt S B) [
          | success b u ↦ k b u
          | failure u ↦ failure u
          | abort ↦ abort
        ])
        e

module _ {S A : Type 0} where
  pub on_failure-success :
      (f : S → S) (m : Call S A) (s t : S) (a : A)
      → m s ≡ success a t
      → on_failure f m s ≡ success a t
  on_failure-success f m s t a e =
      ap
        (λ r. elim r as (λ _. Attempt S A) [
          | success b u ↦ success b u
          | failure u ↦ failure (f u)
          | abort ↦ abort
        ])
        e

-- What holds of the result and the object after a success, and of the object after a failure.
abbrev pub Ends : {S A : Type 0} → (A → S → Type 0) → (S → Type 0) → Attempt S A → Type 0
Ends Q E (success a s) = Q a s
Ends Q E (failure s) = E s
Ends Q E abort = Unit

module _ {S A B : Type 0} (Q : A → S → Type 0) (E : S → Type 0) (R : B → S → Type 0)
    (k : A → Call S B) where
  pub Ends-bind :
      (r : Attempt S A)
      → Ends Q E r
      → ((a : A) (s : S) → Q a s → Ends R E (k a s))
      → Ends R E (elim r as (λ _. Attempt S B) [
        | success a t ↦ k a t
        | failure t ↦ failure t
        | abort ↦ abort
      ])
  Ends-bind (success a s) h f = f a s h
  Ends-bind (failure s) h f = h
  Ends-bind abort h f = tt

module _ {S A : Type 0} (Q : A → S → Type 0) (E F : S → Type 0) (f : S → S) where
  pub Ends-on_failure :
      (m : Call S A) (s : S)
      → Ends Q E (m s)
      → ((t : S) → E t → F (f t))
      → Ends Q F (on_failure f m s)
  Ends-on_failure m s h g = go (m s) h
    where
      go :
          (r : Attempt S A)
          → Ends Q E r
          → Ends Q F (elim r as (λ _. Attempt S A) [
            | success a t ↦ success a t
            | failure t ↦ failure (f t)
            | abort ↦ abort
          ])
      go (success a t) e = e
      go (failure t) e = g t e
      go abort e = tt

module _ {S A : Type 0} (Q R : A → S → Type 0) (E F : S → Type 0) where
  pub Ends-weaken :
      (r : Attempt S A)
      → Ends Q E r
      → ((a : A) (s : S) → Q a s → R a s)
      → ((s : S) → E s → F s)
      → Ends R F r
  Ends-weaken (success a s) h f g = f a s h
  Ends-weaken (failure s) h f g = g s h
  Ends-weaken abort h f g = tt

module _ {S A : Type 0} (Q : A → S → Type 0) (E : S → Type 0) where
  pub Ends-lift :
      (o : Outcome A) (s : S) → ((a : A) → o ≡ done a → Q a s) → E s → Ends Q E (lift o s)
  Ends-lift (done a) s f e = f a refl
  Ends-lift failed s f e = e
  Ends-lift aborted s f e = tt

  pub Ends-success : (r : Attempt S A) (a : A) (s : S) → r ≡ success a s → Ends Q E r → Q a s
  Ends-success r a s e h = subst (Ends Q E) e h

  pub Ends-failure : (r : Attempt S A) (s : S) → r ≡ failure s → Ends Q E r → E s
  Ends-failure r s e h = subst (Ends Q E) e h
