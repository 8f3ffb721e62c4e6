-- ===== src/Writer/Rows.antt =====
-- lib/writer.c: a value that `cx_writer` takes is stored, and the rows stay those of the columns.
use columnix.Base.{
  ℕ, zero, suc, ◌+◌, ◌≤◌, ◌<◌, ◌≡◌, ◌≢◌, refl, sym, ap, ◌∙◌, inl, inr, Bool, ◌&&◌, List, [], ◌∷◌,
  Option, none, some, ◌==◌, add64, word_mod, if◌then◌else◌, set, get_elem?, Bool-cases, Outcome,
  require, Lands, Lands-bind, Lands-then, Lands-done, arith,
}
use mathlib.Core.Path.{subst}
use columnix.Attempt.{success, Ends-success}
use columnix.System.{System}
use columnix.Common.{ColumnType, plain}
use columnix.Column.{Column, new as column_new, new_size}
use columnix.Column.Counts.{AddsOne}
use columnix.File.{ColumnDescriptor}
use columnix.File.Stream.{Disk}
use columnix.GroupWriter.Written.{Limits, Within}
use columnix.Writer.{Gathered, Writer, column_type_of, new_columns, put_value}
use columnix.Writer.Steps.{Anything}
use columnix.Writer.Taken.{Taken}
use columnix.Writer.Stores.{Opened, kept, begun, flushed, Stored, put_value-On}

-- The number of values in the first column.
abbrev pub first_count : List Gathered → ℕ
first_count [] = 0
first_count (c ∷ cs) = c.values.count

-- The rows that are there fit a row group and are those of the first column.
pub record WellFormed (w : Writer) : Type 0 where
  pub some_rows : 1 ≤ w.row_group_size
  pub word : w.row_group_size < word_mod
  pub bounded : w.position ≤ w.row_group_size
  pub idle : w.columns ≡ none → w.position ≡ 0
  pub counted : (cs : List Gathered) → w.columns ≡ some cs → first_count cs ≡ w.position
  pub occupied : w.columns ≢ some []
  pub within : Within w.writer.file

new_column-count :
    (sys : System) (type : ColumnType)
    → Lands (λ (c : Column). c.count ≡ 0) (column_new sys type plain)
unfolding column_new new_size
new_column-count sys type =
    Lands-then _ (require (sys.grants 48)) _
      (λ _. Lands-then _ (require (sys.grants 64)) _ (λ _. refl))

new_columns-count :
    (sys : System) (n : ℕ) (ds : List ColumnDescriptor)
    → Lands (λ cs. first_count cs ≡ 0) (new_columns sys n ds)
unfolding new_columns
new_columns-count sys zero ds = refl
new_columns-count sys (suc n) [] = tt
new_columns-count sys (suc n) (d ∷ ds) = Lands-then _ (column_type_of d.type) _ (λ type.
    Lands-bind (λ (c : Column). c.count ≡ 0) _ (column_new sys type plain) _
      (new_column-count sys type)
      (λ values z.
        Lands-then _ (column_new sys ColumnType.bit plain) _
          (λ nulls. Lands-then _ (new_columns sys n ds) _ (λ rest. z))))

-- The values of a column that is there.
values_count : Option Gathered → ℕ
values_count none = 0
values_count (some c) = c.values.count

set-first_count :
    (cs : List Gathered) (i : ℕ) (before new : Gathered)
    → get_elem? cs i ≡ some before
    → new.values.count ≡ add64 before.values.count 1
    → (i ≡ 0 → first_count cs + 1 < word_mod)
    → first_count (set cs i new) ≡ first_count cs + (if i == 0 then 1 else 0)
unfolding values_count
set-first_count [] i before new e n room = cc
set-first_count (c ∷ cs) zero before new e n room =
    let r = room refl in omega (arith, n, ap values_count e, r)
set-first_count (c ∷ cs) (suc i) before new e n room = ground arith

set-some :
    (cs : List Gathered) (i : ℕ) (before new : Gathered)
    → get_elem? cs i ≡ some before
    → set cs i new ≢ []
set-some [] i before new e = λ h. cc
set-some (c ∷ cs) zero before new e = λ h. cc
set-some (c ∷ cs) (suc i) before new e = λ h. cc

-- What the writer is when the value is put.
record Open (w u : Writer) (i : ℕ) : Type 0 where
  size : u.row_group_size ≡ w.row_group_size
  bounded : u.position ≤ w.row_group_size
  room : i ≡ 0 → u.position < w.row_group_size
  counted : (cs : List Gathered) → u.columns ≡ some cs → first_count cs ≡ u.position
  within : Within u.writer.file

module _ (sys : System) (disk : Disk) (limits : Limits disk) (i : ℕ) (w : Writer)
    (f : WellFormed w) where
  from_some : {A : Type 0} (d : A) (x y : A) → some x ≡ some y → x ≡ y
  from_some {A} d x y e = ap (λ o. elim o as (λ _. A) [ none ↦ d | some z ↦ z ]) e

  Opened-Open :
      (u : Writer) (full : Bool)
      → (i == 0 && w.position == w.row_group_size) ≡ full
      → Opened sys disk limits w full u
      → Open w u i
  Opened-Open u full e (kept cs there room) = record {
    size = refl;
    bounded = f.bounded;
    room = λ z. let g = e ∙ room in ground (arith, z, g, f.bounded);
    counted = f.counted;
    within = f.within;
  }
  Opened-Open u full e (begun cs nothing new) =
      let none_yet = f.idle nothing in
      let start =
        Lands-done (λ cs. first_count cs ≡ 0) (new_columns sys w.column_count w.writer.descriptors)
          cs new (new_columns-count sys w.column_count w.writer.descriptors) in
      record {
        size = refl;
        bounded = f.bounded;
        room = λ z. omega (arith, none_yet, f.some_rows);
        counted = λ ds h. ap first_count (sym (from_some [] cs ds h)) ∙ start ∙ sym none_yet;
        within = f.within;
      }
  Opened-Open u full e (flushed old cs row_group v there held gathers (started, s, a) new) =
      let start =
        Lands-done (λ cs. first_count cs ≡ 0) (new_columns sys w.column_count v.descriptors) cs new
          (new_columns-count sys w.column_count v.descriptors) in
      record {
        size = refl;
        bounded = omega arith;
        room = λ z. omega (arith, f.some_rows);
        counted = λ ds h. ap first_count (sym (from_some [] cs ds h)) ∙ start;
        within = a.extends.within;
      }

  stepped :
      (u : Writer)
      → Open w u i
      → add64 u.position (if i == 0 then 1 else 0) ≡ u.position + (if i == 0 then 1 else 0)
  stepped u o = elim (Bool-cases (i == 0)) [
    | inl e ↦ rw e (let r = o.room (ground (arith, e)) in omega (arith, r, f.word))
    | inr e ↦ rw e (omega (arith, o.bounded, f.word))
  ]

  still_bounded :
      (u : Writer) → Open w u i → u.position + (if i == 0 then 1 else 0) ≤ w.row_group_size
  still_bounded u o = elim (Bool-cases (i == 0)) [
    | inl e ↦ rw e (let r = o.room (ground (arith, e)) in omega (arith, r))
    | inr e ↦ rw e (omega (arith, o.bounded))
  ]

  Taken-WellFormed :
      (put : Column → Outcome Column) (null : Bool) (u v : Writer)
      → AddsOne put
      → Open w u i
      → Taken sys put null i u v
      → WellFormed v
  Taken-WellFormed put null u v adds o t =
      let new : Gathered = record { values = t.values; nulls = t.nulls } in
      let step : ℕ = (if i == 0 then 1 else 0) in
      let last : Writer = record u {
        columns = some (set t.columns i new);
        position = add64 u.position step;
      } in
      let flat : add64 u.position step ≡ u.position + step = stepped u o in
      let before = o.counted t.columns t.there in
      let more : first_count (set t.columns i new) ≡ first_count t.columns + step =
        set-first_count t.columns i t.before new t.found (adds t.before.values t.values t.puts)
          (λ z. let r = o.room z in omega (arith, before, r, f.word)) in
      let good : WellFormed last = record {
        some_rows = omega (arith, o.size, f.some_rows);
        word = omega (arith, o.size, f.word);
        bounded = omega (arith, flat, o.size, still_bounded u o);
        idle = λ e. cc;
        counted = λ cs e.
            ap first_count (sym (from_some [] (set t.columns i new) cs e))
            ∙ omega (arith, more, before, flat);
        occupied = λ e.
            set-some t.columns i t.before new t.found (from_some [] (set t.columns i new) [] e);
        within = o.within;
      } in
      subst WellFormed (sym t.after) good

-- Let a writer have a row group size from 1 to 2^64 - 1 and at most so many rows, as many as the
-- first of its columns has values, and none if it has no columns, with a position inside its file,
-- on a disk that stays below the largest file offset. If a put of a value or a null to column i
-- succeeds, then: if the row group was full and i is 0, a row group of exactly the gathered
-- columns and null bits has first been put into the file, as cx_row_group_writer_put does it, and
-- the columns are new; if there were no columns, they are new; else they are as they were. In them
-- column i has the value and the null bit put behind its own, the position is one more if i is 0,
-- and nothing else changes. The writer is again such a writer, if a put adds one value, as those
-- of each type do.
pub put_value-Stored :
    (sys : System) (disk : Disk) (limits : Limits disk) (i : ℕ) (w v : Writer)
    (put : Column → Outcome Column) (null : Bool)
    → WellFormed w
    → AddsOne put
    → put_value sys disk i put null w ≡ success tt v
    → Stored sys disk limits put null i w v × WellFormed v
put_value-Stored sys disk limits i w v put null f adds e =
    let s : Stored sys disk limits put null i w v =
      Ends-success (λ _ v. Stored sys disk limits put null i w v) Anything
        (put_value sys disk i put null w) tt v e
        (put_value-On sys disk limits put null i w f.within f.occupied) in
    let o =
      Opened-Open sys disk limits i w f s.opened (i == 0 && w.position == w.row_group_size) refl
        s.before in
    let good = Taken-WellFormed sys disk limits i w f put null s.opened v adds o s.taken in
    (s, good)
