-- ===== src/Writer.antt =====
-- lib/writer.c: `cx_writer`, which takes single values, gathers them in columns and writes a row
-- group whenever `row_group_size` rows are there.
pub mod Gathers
pub mod Steps
pub mod Taken
pub mod Stores
pub mod Rows
use columnix.Base.{
  ℕ, zero, suc, ◌*◌, Bool, true, false, not, ◌&&◌, List, [], ◌∷◌, Option, none, some, ◌==◌, ltb,
  if◌then◌else◌, add64, get_elem?, set, ℤ, Outcome, done, failed, aborted,
}
use columnix.Base.{◌>>=◌ as ◌>>=ₒ◌}
use columnix.Attempt.{
  success, failure, abort, Call, pure, ◌>>=◌, ◌>>◌, current, modify, check, ensure, lift,
}
use columnix.Common.{ColumnType, EncodingType, plain, CompressionType}
use columnix.System.{System}
use columnix.Column.{
  Column, new as column_new, put_bit, put_i32, put_i64, put_flt, put_dbl, put_str, put_unit,
}
use columnix.RowGroup.{RowGroup, add_column, new as row_group_new}
use columnix.File.{ColumnDescriptor}
use columnix.File.Stream.{Disk}
use columnix.GroupWriter.{
  GroupWriter, group_writer_new, group_writer_metadata, group_writer_add_column,
}
use columnix.GroupWriter.Put.{group_writer_put}
use columnix.GroupWriter.Finish.{group_writer_finish}

-- `struct cx_writer_physical_column`
pub record Gathered : Type 0 where
  pub values : Column
  pub nulls : Column

pub record Writer : Type 0 where
  pub writer : GroupWriter
  pub columns : Option (List Gathered)
  pub row_group_size : ℕ
  pub column_count : ℕ
  pub position : ℕ

-- sizeof(struct cx_writer)
abbrev pub writer_size : ℕ
writer_size = 40

unfoldable pub writer_new : System → Disk → ℕ → Outcome Writer
unfolding group_writer_new
writer_new sys disk row_group_size = elim (sys.grants writer_size) [
  | false ↦ failed
  | true ↦ group_writer_new sys disk >>=ₒ λ writer. done (record {
    writer = writer;
    columns = none;
    row_group_size = row_group_size;
    column_count = 0;
    position = 0;
  })
]

-- A call on the row group writer inside.
abbrev pub inner : {A : Type 0} → Call GroupWriter A → Call Writer A
inner m w = elim (m w.writer) [
  | success a v ↦ success a (record w { writer = v })
  | failure v ↦ failure (record w { writer = v })
  | abort ↦ abort
]

unfoldable pub writer_metadata : System → List ℕ → Call Writer (Unit {0})
unfolding group_writer_metadata
writer_metadata sys metadata = inner (group_writer_metadata sys metadata)

unfoldable pub writer_add_column :
    System → List ℕ → ColumnType → EncodingType → CompressionType → ℤ → Call Writer (Unit {0})
unfolding group_writer_add_column
writer_add_column sys name type encoding compression level = do
  inner (group_writer_add_column sys name type encoding compression level)
  modify (λ w. record w { column_count = add64 w.column_count 1 })

-- The row group of the gathered columns.
unfoldable pub add_columns : System → RowGroup → List Gathered → Outcome RowGroup
add_columns sys row_group [] = done row_group
add_columns sys row_group (c ∷ cs) =
    add_column sys row_group (some c.values) c.nulls >>=ₒ λ next. add_columns sys next cs

-- The columns, if there are any, are written and dropped.
abbrev pub flush_columns : System → Disk → Option (List Gathered) → Call Writer (Unit {0})
flush_columns sys disk none = pure tt
flush_columns sys disk (some columns) = do
  empty ← lift (row_group_new sys)
  row_group ← lift (add_columns sys empty columns)
  inner (group_writer_put sys disk row_group)
  modify (λ v. record v { columns = none; position = 0 })

unfoldable pub flush_row_group : System → Disk → Call Writer (Unit {0})
unfolding add_columns
flush_row_group sys disk = do w ← current; flush_columns sys disk w.columns

-- The column type of a number. Another number has no meaning in C.
abbrev pub column_type_of : ℕ → Outcome ColumnType
column_type_of code =
    if code == 0
    then done ColumnType.bit
    else (if code == 1
        then done ColumnType.i32
        else (if code == 2
            then done ColumnType.i64
            else (if code == 3
                then done ColumnType.flt
                else (if code == 4
                    then done ColumnType.dbl
                    else (if code == 5 then done ColumnType.str else aborted)))))

-- New columns for the first `n` descriptors.
unfoldable pub new_columns : System → ℕ → List ColumnDescriptor → Outcome (List Gathered)
new_columns sys zero ds = done []
new_columns sys (suc n) [] = aborted
new_columns sys (suc n) (d ∷ ds) = column_type_of d.type >>=ₒ λ type.
    column_new sys type plain >>=ₒ λ values. column_new sys ColumnType.bit plain >>=ₒ λ nulls.
    new_columns sys n ds >>=ₒ λ rest. done (record { values = values; nulls = nulls } ∷ rest)

unfoldable pub ensure_columns : System → Call Writer (Unit {0})
unfolding new_columns
ensure_columns sys = do
  w ← current
  ensure (elim w.columns [ none ↦ not (w.column_count == 0) | some _ ↦ false ])
  check (sys.grants (w.column_count * 16))
  columns ← lift (new_columns sys w.column_count w.writer.descriptors)
  modify (λ v. record v { columns = some columns })

-- The columns that are there, or new ones.
abbrev pub have_columns : System → Option (List Gathered) → Call Writer (Unit {0})
have_columns sys none = ensure_columns sys
have_columns sys (some columns) = pure tt

unfoldable pub put_check : System → Disk → ℕ → Call Writer (Unit {0})
unfolding flush_row_group ensure_columns
put_check sys disk i = do
  w ← current
  check (ltb i w.column_count)
  let full = i == 0 && w.position == w.row_group_size
  (if full then flush_row_group sys disk else pure tt)
  v ← current
  have_columns sys v.columns

-- `writer->columns[i]`; an access beyond the array has no meaning in C.
abbrev pub gathered_at : Writer → ℕ → Outcome Gathered
gathered_at w i = elim w.columns [
  | none ↦ aborted
  | some columns ↦ elim (get_elem? columns i) [ none ↦ aborted | some c ↦ done c ]
]

abbrev pub set_gathered : ℕ → Gathered → Writer → Writer
set_gathered i c w = elim w.columns [
  | none ↦ w
  | some columns ↦ record w { columns = some (set columns i c) }
]

-- The value, then whether it is null, and the count of the rows with the first column.
abbrev pub put_gathered : System → ℕ → (Column → Outcome Column) → Bool → Call Writer (Unit {0})
put_gathered sys i put null = do
  w ← current
  c ← lift (gathered_at w i)
  values ← lift (put c.values)
  modify (set_gathered i (record c { values = values }))
  nulls ← lift (put_bit sys c.nulls null)
  modify (set_gathered i (record { values = values; nulls = nulls }))
  modify (λ v. record v { position = add64 v.position (if i == 0 then 1 else 0) })

-- The functions `cx_writer_put_*`.
unfoldable pub put_value :
    System → Disk → ℕ → (Column → Outcome Column) → Bool → Call Writer (Unit {0})
unfolding put_check
put_value sys disk i put null = do put_check sys disk i; put_gathered sys i put null

unfoldable pub writer_put_bit : System → Disk → ℕ → Bool → Call Writer (Unit {0})
unfolding put_value
writer_put_bit sys disk i value = put_value sys disk i (λ c. put_bit sys c value) false

unfoldable pub writer_put_i32 : System → Disk → ℕ → ℤ → Call Writer (Unit {0})
unfolding put_value
writer_put_i32 sys disk i value = put_value sys disk i (λ c. put_i32 sys c value) false

unfoldable pub writer_put_i64 : System → Disk → ℕ → ℤ → Call Writer (Unit {0})
unfolding put_value
writer_put_i64 sys disk i value = put_value sys disk i (λ c. put_i64 sys c value) false

unfoldable pub writer_put_flt : System → Disk → ℕ → ℕ → Call Writer (Unit {0})
unfolding put_value
writer_put_flt sys disk i value = put_value sys disk i (λ c. put_flt sys c value) false

unfoldable pub writer_put_dbl : System → Disk → ℕ → ℕ → Call Writer (Unit {0})
unfolding put_value
writer_put_dbl sys disk i value = put_value sys disk i (λ c. put_dbl sys c value) false

unfoldable pub writer_put_str : System → Disk → ℕ → List ℕ → Call Writer (Unit {0})
unfolding put_value
writer_put_str sys disk i value = put_value sys disk i (λ c. put_str sys c value) false

unfoldable pub writer_put_null : System → Disk → ℕ → Call Writer (Unit {0})
unfolding put_value
writer_put_null sys disk i = put_value sys disk i (λ c. put_unit sys c) true

unfoldable pub writer_finish : System → Disk → Bool → Call Writer (Unit {0})
unfolding flush_row_group
writer_finish sys disk sync = do flush_row_group sys disk; inner (group_writer_finish sys disk sync)
