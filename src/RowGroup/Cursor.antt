-- ===== src/RowGroup/Cursor.antt =====
-- lib/row_group.c: a cursor over the rows of a row group, 64 at a time. It holds its row group, and
-- for each column a column cursor that is opened at first use and is moved on only when a batch of
-- the column is asked for. A call that fails leaves no state that the model follows.
use columnix.Base.{
  ℕ, zero, suc, ◌+◌, ◌*◌, ◌-◌, Bool, true, false, List, [], ◌∷◌, map, Option, none, some, ltb, leb,
  if◌then◌else◌, add64, length, get_elem?, set, ℤ, Outcome, done, aborted, ◌>>=◌, ◌>>◌, require,
}
use columnix.System.{System}
use columnix.Column.Cursor.{
  Cursor, batch_size, cursor_new, skip_bit, skip_i32, skip_i64, skip_flt, skip_dbl, skip_str,
  next_batch_bit, next_batch_i32, next_batch_i64, next_batch_flt, next_batch_dbl, next_batch_str,
}
use columnix.RowGroup.{RowGroup, count, row_count, group_column, group_nulls}

-- What the `void *` of a batch points to.
pub data Batch : Type 0 where
  absent : Batch
  bits : ℕ → Batch
  i32s : List ℤ → Batch
  i64s : List ℤ → Batch
  flts : List ℕ → Batch
  dbls : List ℕ → Batch
  strs : List (List ℕ) → Batch

-- `struct cx_row_group_cursor_physical_column`
pub record Reading : Type 0 where
  pub cursor : Option Cursor
  pub position : ℕ
  pub batch : Batch
  pub count : ℕ

-- `struct cx_row_group_cursor_column`
pub record Readings : Type 0 where
  pub values : Reading
  pub nulls : Reading

pub record RowGroupCursor : Type 0 where
  pub row_group : RowGroup
  pub column_count : ℕ
  pub row_count : ℕ
  pub position : ℕ
  pub initialized : Bool
  pub columns : List Readings

abbrev pub idle : Reading
idle = record { cursor = none; position = 0; batch = absent; count = 0 }

abbrev pub idle_columns : ℕ → List Readings
idle_columns zero = []
idle_columns (suc n) = record { values = idle; nulls = idle } ∷ idle_columns n

-- sizeof(struct cx_row_group_cursor) is 40, of a column's part 64.
unfoldable pub group_cursor_new : System → RowGroup → Outcome RowGroupCursor
group_cursor_new sys row_group = do
  require (sys.grants (40 + count row_group * 64))
  done (record {
    row_group = row_group;
    column_count = count row_group;
    row_count = row_count row_group;
    position = 0;
    initialized = false;
    columns = idle_columns (count row_group);
  })

abbrev pub rewind_reading : Reading → Reading
rewind_reading r = record r { cursor = none; position = 0 }

unfoldable pub group_cursor_rewind : RowGroupCursor → RowGroupCursor
group_cursor_rewind cursor = record cursor {
  initialized = false;
  position = 0;
  columns =
      map (λ c. record { values = rewind_reading c.values; nulls = rewind_reading c.nulls })
        cursor.columns;
}

unfoldable pub group_cursor_next : RowGroupCursor → Bool × RowGroupCursor
group_cursor_next cursor =
    let moved =
      if cursor.initialized
      then record cursor { position = add64 cursor.position batch_size }
      else record cursor { initialized = true } in
    (ltb moved.position moved.row_count, moved)

unfoldable pub batch_count : RowGroupCursor → ℕ
batch_count cursor =
    let remaining = cursor.row_count - cursor.position in
    if leb cursor.row_count cursor.position
    then 0
    else (if ltb remaining batch_size then remaining else batch_size)

-- `columns[i]`, which the callers have bounds-checked.
abbrev pub readings_at : RowGroupCursor → ℕ → Outcome Readings
readings_at cursor i = elim (get_elem? cursor.columns i) [ none ↦ aborted | some r ↦ done r ]

abbrev pub set_values : RowGroupCursor → ℕ → Readings → Reading → RowGroupCursor
set_values cursor i r reading = record cursor {
  columns = set cursor.columns i (record r { values = reading });
}

abbrev pub set_nulls : RowGroupCursor → ℕ → Readings → Reading → RowGroupCursor
set_nulls cursor i r reading = record cursor {
  columns = set cursor.columns i (record r { nulls = reading });
}

unfoldable pub cursor_column_init : System → RowGroupCursor → ℕ → Outcome RowGroupCursor
cursor_column_init sys cursor i = do
  require (ltb i cursor.column_count)
  r ← readings_at cursor i
  let open_values = do
    (column, row_group) ← group_column sys cursor.row_group i
    opened ← cursor_new sys column
    done (
        set_values (record cursor { row_group = row_group }) i r
          (record r.values { cursor = some opened }))
  elim r.values.cursor [ some _ ↦ done cursor | none ↦ open_values ]

unfoldable pub cursor_nulls_init : System → RowGroupCursor → ℕ → Outcome RowGroupCursor
cursor_nulls_init sys cursor i = do
  require (ltb i cursor.column_count)
  r ← readings_at cursor i
  let open_nulls = do
    (column, row_group) ← group_nulls sys cursor.row_group i
    opened ← cursor_new sys column
    done (
        set_nulls (record cursor { row_group = row_group }) i r
          (record r.nulls { cursor = some opened }))
  elim r.nulls.cursor [ some _ ↦ done cursor | none ↦ open_nulls ]

-- How a column of one type is read.
pub record Reader : Type 0 where
  pub skip : Cursor → ℕ → Outcome (ℕ × Cursor)
  pub next : Cursor → Outcome (Batch × ℕ × Cursor)

-- Skip from the reading's position to the row position, and read a batch there.
unfoldable pub reload : Reader → ℕ → Reading → Cursor → Outcome Reading
reload reader position r opened = do
  (skipped, skipped_to) ← reader.skip opened (position - r.position)
  (batch, available, rest) ← reader.next skipped_to
  done (record {
    cursor = some rest;
    position = add64 (add64 r.position skipped) available;
    batch = batch;
    count = available;
  })

-- A batch that does not lie behind the row position is kept.
unfoldable pub load : Reader → ℕ → Reading → Outcome Reading
unfolding reload
load reader position r = elim r.cursor [
  | none ↦ aborted
  | some opened ↦ if leb r.position position then reload reader position r opened else done r
]

-- The part that the `cx_row_group_cursor_batch_*` of the values share.
unfoldable pub batch_values :
    System → Reader → RowGroupCursor → ℕ → Outcome (Batch × ℕ × RowGroupCursor)
unfolding cursor_column_init load
batch_values sys reader cursor i = do
  ready ← cursor_column_init sys cursor i
  r ← readings_at ready i
  loaded ← load reader ready.position r.values
  done (loaded.batch, loaded.count, set_values ready i r loaded)

abbrev pub bit_reader : Reader
bit_reader = record {
  skip = skip_bit;
  next = λ c. next_batch_bit c >>= λ (word, available, rest). done (bits word, available, rest);
}

abbrev pub i32_reader : Reader
i32_reader = record {
  skip = skip_i32;
  next = λ c. next_batch_i32 c >>= λ (vs, rest). done (i32s vs, length vs, rest);
}

abbrev pub i64_reader : Reader
i64_reader = record {
  skip = skip_i64;
  next = λ c. next_batch_i64 c >>= λ (vs, rest). done (i64s vs, length vs, rest);
}

abbrev pub flt_reader : Reader
flt_reader = record {
  skip = skip_flt;
  next = λ c. next_batch_flt c >>= λ (vs, rest). done (flts vs, length vs, rest);
}

abbrev pub dbl_reader : Reader
dbl_reader = record {
  skip = skip_dbl;
  next = λ c. next_batch_dbl c >>= λ (vs, rest). done (dbls vs, length vs, rest);
}

abbrev pub str_reader : Reader
str_reader = record {
  skip = skip_str;
  next = λ c. next_batch_str c >>= λ (vs, rest). done (strs vs, length vs, rest);
}
