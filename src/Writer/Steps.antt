-- ===== src/Writer/Steps.antt =====
-- lib/writer.c: chains of calls on `cx_writer` of which a success is described.
use columnix.Base.{◌≡◌, refl, Bool, true, false, Outcome, done, failed, aborted}
use columnix.Attempt.{
  Attempt, success, failure, abort, Call, ◌>>=◌, ◌>>◌, check, ensure, lift, Ends,
}
use columnix.GroupWriter.{GroupWriter}
use columnix.Writer.{Writer, inner}

-- Nothing is said of a failure.
abbrev pub Anything : Writer → Type 0
Anything v = Unit

abbrev pub On : (Writer → Type 0) → Attempt Writer (Unit {0}) → Type 0
On P = Ends (λ _ v. P v) Anything

-- A call on the way, of which nothing is asked.
pub behind_check :
    (P : Writer → Type 0) (b : Bool) (k : Call Writer (Unit {0})) (w : Writer)
    → (b ≡ true → On P (k w))
    → On P ((check b >> k) w)
behind_check P true k w f = f refl
behind_check P false k w f = tt

pub behind_ensure :
    (P : Writer → Type 0) (b : Bool) (k : Call Writer (Unit {0})) (w : Writer)
    → On P (k w)
    → On P ((ensure b >> k) w)
behind_ensure P true k w f = f
behind_ensure P false k w f = tt

pub behind_lift :
    {A : Type 0} (P : Writer → Type 0) (o : Outcome A) (k : A → Call Writer (Unit {0})) (w : Writer)
    → ((a : A) → o ≡ done a → On P (k a w))
    → On P ((lift o >>= k) w)
behind_lift P (done a) k w f = f a refl
behind_lift P failed k w f = tt
behind_lift P aborted k w f = tt

pub behind_inner :
    (P : Writer → Type 0) (m : Call GroupWriter (Unit {0})) (k : Call Writer (Unit {0}))
    (w : Writer)
    → ((v : GroupWriter) → m w.writer ≡ success tt v → On P (k (record w { writer = v })))
    → On P ((inner m >> k) w)
behind_inner P m k w f = go (m w.writer) refl
  where
    go :
        (r : Attempt GroupWriter (Unit {0}))
        → m w.writer ≡ r
        → On P
            (elim (elim r as (λ _. Attempt Writer (Unit {0})) [
              | success a v ↦ success a (record w { writer = v })
              | failure v ↦ failure (record w { writer = v })
              | abort ↦ abort
            ])
              as (λ _. Attempt Writer (Unit {0})) [
                | success a t ↦ k t
                | failure t ↦ failure t
                | abort ↦ abort
              ])
    go (success tt v) e = f v e
    go (failure v) e = tt
    go abort e = tt
