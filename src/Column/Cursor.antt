-- ===== src/Column/Cursor.antt =====
-- lib/column.c: a cursor over a column. `position` counts bytes from the start of the buffer, and
-- the end is the column's `offset`. A batch is what the C functions hand out by pointer: the
-- values decoded from the bytes at the old position.
use columnix.Base.{
  ℕ, zero, suc, ◌+◌, ◌-◌, ◌*◌, ◌/◌, ◌%◌, Bool, true, List, [], ◌∷◌, map, ltb, leb, ◌==◌,
  if◌then◌else◌, add64, word_mod, take, drop, ℤ, to_signed, cells, le_value, Outcome, done, ◌>>=◌,
  ◌>>◌, assert, require,
}
use columnix.Common.{ColumnType, same_type}
use columnix.System.{System}
use columnix.Column.{Column, half32, half64}

pub record Cursor : Type 0 where
  pub column : Column
  pub position : ℕ

abbrev pub batch_size : ℕ
batch_size = 64

-- sizeof(struct cx_column_cursor): four pointers and 64 values of 16 bytes.
abbrev pub cursor_struct_size : ℕ
cursor_struct_size = 1056

-- `cx_column_madvise` leaves a column alone that is not mapped, or empty.
abbrev pub madvise : System → Column → Bool
madvise sys column =
    if column.mmapped then (if column.size == 0 then true else sys.advises) else true

unfoldable pub cursor_new : System → Column → Outcome Cursor
cursor_new sys column = do
  require (sys.grants cursor_struct_size)
  require (madvise sys column)
  done (record { column = column; position = 0 })

unfoldable pub rewind : Cursor → Cursor
rewind cursor = record cursor { position = 0 }

abbrev pub valid : Cursor → Bool
valid cursor = ltb cursor.position cursor.column.offset

unfoldable pub advance : Cursor → ℕ → Outcome Cursor
advance cursor size = do
  assert (leb (add64 cursor.position size) cursor.column.offset)
  done (record cursor { position = add64 cursor.position size })

-- The cells that are left, or `count` if there are more.
abbrev pub skip_count : Cursor → ℕ → ℕ → ℕ
skip_count cursor size count =
    let remaining = (cursor.column.offset - cursor.position) / size in
    if ltb remaining count then remaining else count

unfoldable pub skip : Cursor → ColumnType → ℕ → ℕ → Outcome (ℕ × Cursor)
unfolding advance
skip cursor type size count = do
  assert (same_type cursor.column.type type)
  next ← advance cursor (size * skip_count cursor size count)
  done (skip_count cursor size count, next)

-- The unsigned difference, which wraps.
abbrev pub trim : ℕ → ℕ → ℕ
trim skipped extra = (skipped + word_mod - extra) % word_mod

-- The last word may hold fewer than 64 bits of the column.
abbrev pub trim_trailing : Cursor → ℕ → ℕ
trim_trailing cursor skipped =
    let trailing_bits = cursor.column.count % 64 in
    if valid cursor
    then skipped
    else (if trailing_bits == 0 then skipped else trim skipped (64 - trailing_bits))

unfoldable pub skip_bit : Cursor → ℕ → Outcome (ℕ × Cursor)
unfolding skip
skip_bit cursor count = do
  assert (count % 64 == 0)
  (skipped, next) ← skip cursor ColumnType.bit 8 (count / 64)
  done (trim_trailing next (skipped * 64), next)

unfoldable pub skip_i32 : Cursor → ℕ → Outcome (ℕ × Cursor)
unfolding skip
skip_i32 cursor count = skip cursor ColumnType.i32 4 count

unfoldable pub skip_i64 : Cursor → ℕ → Outcome (ℕ × Cursor)
unfolding skip
skip_i64 cursor count = skip cursor ColumnType.i64 8 count

unfoldable pub skip_flt : Cursor → ℕ → Outcome (ℕ × Cursor)
unfolding skip
skip_flt cursor count = skip cursor ColumnType.flt 4 count

unfoldable pub skip_dbl : Cursor → ℕ → Outcome (ℕ × Cursor)
unfolding skip
skip_dbl cursor count = skip cursor ColumnType.dbl 8 count

-- `strlen`: the bytes before the first NUL.
abbrev pub strlen : List ℕ → ℕ
strlen [] = 0
strlen (b ∷ bs) = if b == 0 then 0 else suc (strlen bs)

abbrev pub bytes_at : Cursor → List ℕ
bytes_at cursor = drop cursor.position cursor.column.buffer

-- The loop of `cx_column_cursor_skip_str`, with the rounds that are left.
unfoldable pub skip_strs : ℕ → ℕ → Cursor → Outcome (ℕ × Cursor)
unfolding advance
skip_strs zero skipped cursor = done (skipped, cursor)
skip_strs (suc rounds) skipped cursor =
    let more = advance cursor (strlen (bytes_at cursor) + 1) >>= skip_strs rounds (skipped + 1) in
    if valid cursor then more else done (skipped, cursor)

unfoldable pub skip_str : Cursor → ℕ → Outcome (ℕ × Cursor)
unfolding skip_strs
skip_str cursor count = do
  assert (same_type cursor.column.type ColumnType.str)
  skip_strs count 0 cursor

-- The word at the position, how many of its bits belong to the column, and the cursor behind it.
unfoldable pub next_batch_bit : Cursor → Outcome (ℕ × ℕ × Cursor)
unfolding skip_bit
next_batch_bit cursor = do
  (available, next) ← skip_bit cursor batch_size
  done (le_value (take 8 (bytes_at cursor)), available, next)

-- The `available` values from the position on.
unfoldable pub next_batch_i32 : Cursor → Outcome (List ℤ × Cursor)
unfolding skip_i32
next_batch_i32 cursor = do
  (available, next) ← skip_i32 cursor batch_size
  done (map (to_signed half32) (cells available 4 (bytes_at cursor)), next)

unfoldable pub next_batch_i64 : Cursor → Outcome (List ℤ × Cursor)
unfolding skip_i64
next_batch_i64 cursor = do
  (available, next) ← skip_i64 cursor batch_size
  done (map (to_signed half64) (cells available 8 (bytes_at cursor)), next)

unfoldable pub next_batch_flt : Cursor → Outcome (List ℕ × Cursor)
unfolding skip_flt
next_batch_flt cursor = do
  (available, next) ← skip_flt cursor batch_size
  done (cells available 4 (bytes_at cursor), next)

unfoldable pub next_batch_dbl : Cursor → Outcome (List ℕ × Cursor)
unfolding skip_dbl
next_batch_dbl cursor = do
  (available, next) ← skip_dbl cursor batch_size
  done (cells available 8 (bytes_at cursor), next)

-- The loop of `cx_column_cursor_next_batch_str`, which fills the cursor's buffer.
unfoldable pub collect : ℕ → Cursor → Outcome (List (List ℕ) × Cursor)
unfolding advance
collect zero cursor = done ([], cursor)
collect (suc rounds) cursor =
    let len = strlen (bytes_at cursor) in
    let more = advance cursor (len + 1) >>= λ next.
    collect rounds next >>= λ (strings, last). done (take len (bytes_at cursor) ∷ strings, last) in
    if valid cursor then more else done ([], cursor)

unfoldable pub next_batch_str : Cursor → Outcome (List (List ℕ) × Cursor)
unfolding collect
next_batch_str cursor = do
  assert (same_type cursor.column.type ColumnType.str)
  collect batch_size cursor
