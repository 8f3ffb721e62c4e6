-- ===== src/Writer/Taken.antt =====
-- lib/writer.c: the value and the null bit that `cx_writer` puts to a column.
use columnix.Base.{
  ℕ, zero, suc, ◌≡◌, ◌≢◌, refl, sym, ap, Bool, List, [], ◌∷◌, Option, none, some, ◌==◌, add64,
  if◌then◌else◌, set, get_elem?, Outcome, done, failed, aborted,
}
use mathlib.Core.Path.{subst}
use columnix.System.{System}
use columnix.Column.{Column, put_bit}
use columnix.Writer.{Gathered, Writer, gathered_at, put_gathered}
use columnix.Writer.Steps.{On, behind_lift}

-- The value and its null bit are in column `i`, and the first column counts the row.
pub record Taken (sys : System) (put : Column → Outcome Column) (null : Bool) (i : ℕ) (u v : Writer)
    : Type 0 where
  pub columns : List Gathered
  pub before : Gathered
  pub values : Column
  pub nulls : Column
  pub there : u.columns ≡ some columns
  pub found : get_elem? columns i ≡ some before
  pub puts : put before.values ≡ done values
  pub marks : put_bit sys before.nulls null ≡ done nulls
  pub after : v ≡ record u {
    columns = some (set columns i (record { values = values; nulls = nulls }));
    position = add64 u.position (if i == 0 then 1 else 0);
  }

set-twice : {A : Type 0} (xs : List A) (i : ℕ) (x y : A) → set (set xs i x) i y ≡ set xs i y
set-twice [] i x y = refl
set-twice (z ∷ xs) zero x y = refl
set-twice (z ∷ xs) (suc i) x y = ap (λ l. z ∷ l) (set-twice xs i x y)

module _ (sys : System) (put : Column → Outcome Column) (null : Bool) (i : ℕ) where
  abbrev with_columns : Writer → List Gathered → Writer
  with_columns w cs = record w { columns = some cs }

  put_gathered-there :
      (w : Writer) (cs : List Gathered)
      → On
          (Taken sys put null i (with_columns w cs))
          (put_gathered sys i put null (with_columns w cs))
  put_gathered-there w cs = behind_lift P (gathered_at u i) _ u (λ c e.
      behind_lift P (put c.values) _ u (λ values p.
        behind_lift P (put_bit sys c.nulls null) _
          (with_columns w (set cs i (record c { values = values })))
          (λ nulls m.
            let new : Gathered = record { values = values; nulls = nulls } in
            record {
              columns = cs;
              before = c;
              values = values;
              nulls = nulls;
              there = refl;
              found = at (get_elem? cs i) c e;
              puts = p;
              marks = m;
              after =
                  ap
                    (λ l. record (with_columns w l) {
                      position = add64 w.position (if i == 0 then 1 else 0);
                    })
                    (set-twice cs i (record c { values = values }) new);
            })))
    where
      u : Writer
      u = with_columns w cs

      P : Writer → Type 0
      P = Taken sys put null i u

      at :
          (o : Option Gathered) (c : Gathered)
          → elim o as (λ _. Outcome Gathered) [ none ↦ aborted | some c ↦ done c ] ≡ done c
          → o ≡ some c
      at none c e = cc
      at (some d) c e =
          ap
            (λ o. elim o as (λ _. Option Gathered) [
              | done x ↦ some x
              | failed ↦ none
              | aborted ↦ none
            ])
            e

  pub put_gathered-Taken :
      (w : Writer) → w.columns ≢ none → On (Taken sys put null i w) (put_gathered sys i put null w)
  put_gathered-Taken w some_columns = by_columns w.columns refl
    where
      by_columns :
          (o : Option (List Gathered))
          → w.columns ≡ o
          → On (Taken sys put null i w) (put_gathered sys i put null w)
      by_columns none e = absurd (some_columns e)
      by_columns (some cs) e =
          subst (λ u. On (Taken sys put null i u) (put_gathered sys i put null u))
            (ap (λ o. record w { columns = o }) (sym e)) (put_gathered-there w cs)
