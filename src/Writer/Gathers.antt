-- ===== src/Writer/Gathers.antt =====
-- lib/writer.c: the row group that `cx_writer` makes of its columns.
use columnix.Base.{
  ℕ, ◌%◌, ◌≡◌, refl, sym, ap, ◌∙◌, Bool, true, false, not, ◌&&◌, List, [], ◌∷◌, ◌++◌, map, Option,
  none, some, ◌==◌, ltb, word_mod, if◌then◌else◌, length, Outcome, done, require, assert,
  length-append, ◌>>◌ as ◌>>ₒ◌, Lands-weaken, ◌*◌, Lands, Lands-bind, Lands-then, Lands-done, arith,
}
use mathlib.Core.List.{append_assoc, append-nil}
use columnix.System.{System}
use columnix.Common.{ColumnType, same_type}
use columnix.Column.{Column}
use columnix.RowGroup.{
  RowGroup, RowGroupColumn, count, add_column, ensure_column_size, fits_rows, both_indexes,
  column_struct_size, new as row_group_new,
}
use columnix.Index.{index_new}
use columnix.Writer.{Gathered, add_columns}

-- The values and the null bits of the columns of a row group.
abbrev pub contents : List RowGroupColumn → List (Option Column × Option Column)
contents = map (λ c. (c.values.column, c.nulls.column))

abbrev pub gathered : List Gathered → List (Option Column × Option Column)
gathered = map (λ c. (some c.values, some c.nulls))

-- A row group that has just these columns, and the rows of the first.
pub record Gathers (columns : List Gathered) (row_group : RowGroup) : Type 0 where
  pub holds : contents row_group.columns ≡ gathered columns
  pub rows :
      (c : Gathered) (cs : List Gathered) → columns ≡ c ∷ cs → row_group.row_count ≡ c.values.count

-- A column behind those of a row group.
record Appended (c : Gathered) (before after : RowGroup) : Type 0 where
  holds : contents after.columns ≡ contents before.columns ++ (some c.values, some c.nulls) ∷ []
  rows : after.row_count ≡ c.values.count
  some : (count after == 0) ≡ false
  same_rows : (count before == 0) ≡ false → c.values.count ≡ before.row_count

contents-append :
    (xs : List RowGroupColumn) (y : RowGroupColumn)
    → contents (xs ++ y ∷ []) ≡ contents xs ++ (y.values.column, y.nulls.column) ∷ []
contents-append [] y = refl
contents-append (x ∷ xs) y = ap (λ l. (x.values.column, x.nulls.column) ∷ l) (contents-append xs y)

-- A chain behind a requirement.
required :
    {A : Type 0} (P : A → Type 0) (b : Bool) (k : Outcome A)
    → (b ≡ true → Lands P k)
    → Lands P (require b >>ₒ k)
required P true k f = f refl
required P false k f = tt

-- What a row group has after the columns.
record Behind (columns : List Gathered) (before after : RowGroup) : Type 0 where
  holds : contents after.columns ≡ contents before.columns ++ gathered columns
  keeps : (count before == 0) ≡ false → after.row_count ≡ before.row_count
  first :
      (count before == 0) ≡ true
      → (c : Gathered) (cs : List Gathered) → columns ≡ c ∷ cs
      → after.row_count ≡ c.values.count

module _ (sys : System) where
  ensure_column_size-same :
      (before : RowGroup)
      → Lands (λ (room : RowGroup). room.columns ≡ before.columns) (ensure_column_size sys before)
  unfolding ensure_column_size
  ensure_column_size-same before = sized (count before == before.size)
    where
      new_size : ℕ
      new_size = before.size * 2 % word_mod

      sized :
          (b : Bool)
          → Lands
              (λ (room : RowGroup). room.columns ≡ before.columns)
              (if b
                then (assert (not (new_size == 0) && ltb before.size new_size)
                    >>ₒ (require (sys.grants (new_size * column_struct_size))
                        >>ₒ done (record before { size = new_size })))
                else done before)
      sized true =
          Lands-then _ (assert (not (new_size == 0) && ltb before.size new_size)) _
            (λ _. Lands-then _ (require (sys.grants (new_size * column_struct_size))) _ (λ _. refl))
      sized false = refl

  add_column-Appended :
      (c : Gathered) (before : RowGroup)
      → Lands (Appended c before) (add_column sys before (some c.values) c.nulls)
  unfolding add_column
  add_column-Appended c before =
      Lands-then (Appended c before)
        (require (c.values.count == c.nulls.count && same_type c.nulls.type ColumnType.bit)) _
        (λ _. required (Appended c before) (fits_rows before c.values.count) _ (λ fits.
          Lands-then (Appended c before)
            (both_indexes (index_new sys c.values) (index_new sys c.nulls)) _
            (λ (index, nulls_index).
              Lands-bind (λ (room : RowGroup). room.columns ≡ before.columns) (Appended c before)
                (ensure_column_size sys before) _ (ensure_column_size-same before)
                (λ room e.
                  let column : RowGroupColumn = record {
                    type = c.values.type;
                    encoding = c.values.encoding;
                    values = record { index = index; column = some c.values; lazy_column = none };
                    nulls = record {
                      index = nulls_index;
                      column = some c.nulls;
                      lazy_column = none;
                    };
                    lazy = false;
                  } in
                  record {
                    holds =
                        contents-append room.columns column
                        ∙ ap (λ l. contents l ++ (some c.values, some c.nulls) ∷ []) e;
                    rows = refl;
                    some = ground (arith, length-append room.columns (column ∷ []));
                    same_rows = λ z. ground (arith, z, fits);
                  }))))

  add_columns-Behind :
      (cs : List Gathered) (before : RowGroup)
      → Lands (Behind cs before) (add_columns sys before cs)
  unfolding add_columns
  add_columns-Behind [] before = record {
    holds = sym (append-nil (contents before.columns));
    keeps = λ _. refl;
    first = λ _ c cs e. cc;
  }
  add_columns-Behind (c ∷ cs) before =
      Lands-bind (Appended c before) (Behind (c ∷ cs) before)
        (add_column sys before (some c.values) c.nulls) _ (add_column-Appended c before)
        (λ next a.
          Lands-weaken (Behind cs next) (Behind (c ∷ cs) before) (add_columns sys next cs)
            (add_columns-Behind cs next)
            (λ after b. record {
              holds =
                  b.holds
                  ∙ ap (λ l. l ++ gathered cs) a.holds
                  ∙ append_assoc (contents before.columns) ((some c.values, some c.nulls) ∷ [])
                      (gathered cs);
              keeps = λ z. b.keeps a.some ∙ a.rows ∙ a.same_rows z;
              first = λ z d ds e. b.keeps a.some ∙ a.rows ∙ first_count e;
            }))
    where
      first_count :
          {d : Gathered} {ds : List Gathered} → c ∷ cs ≡ d ∷ ds → c.values.count ≡ d.values.count
      first_count e = ap (λ l. elim l as (λ _. ℕ) [ [] ↦ 0 | x ∷ _ ↦ x.values.count ]) e

  pub add_columns-Gathers :
      (cs : List Gathered) (empty row_group : RowGroup)
      → row_group_new sys ≡ done empty
      → add_columns sys empty cs ≡ done row_group
      → Gathers cs row_group
  unfolding row_group_new
  add_columns-Gathers cs empty row_group e f =
      let z : empty.columns ≡ [] =
        Lands-done (λ (g : RowGroup). g.columns ≡ []) (row_group_new sys) empty e
          (Lands-then _ (require (sys.grants 32)) _
            (λ _. Lands-then _ (require (sys.grants (8 * 144))) _ (λ _. refl))) in
      let b =
        Lands-done (Behind cs empty) (add_columns sys empty cs) row_group f
          (add_columns-Behind cs empty) in
      record {
        holds = b.holds ∙ ap (λ l. contents l ++ gathered cs) z;
        rows = b.first (ap (λ l. length l == 0) z);
      }
