-- ===== src/RowGroup/Batch.antt =====
-- lib/row_group.c: `cx_row_group_cursor_batch_*`, the batch of a column at the row position, with
-- the number of its values. A batch of another type cannot come back: the column cursor asserts
-- its column's type.
use columnix.Base.{ℕ, List, ℤ, Outcome, done, aborted, ◌>>=◌}
use columnix.System.{System}
use columnix.RowGroup.Cursor.{
  Batch, bits, i32s, i64s, flts, dbls, strs, RowGroupCursor, load, readings_at, set_nulls,
  cursor_nulls_init, batch_values, bit_reader, i32_reader, i64_reader, flt_reader, dbl_reader,
  str_reader,
}

abbrev pub as_bits : Batch → Outcome ℕ
as_bits (bits word) = done word
as_bits _ = aborted

abbrev pub as_i32s : Batch → Outcome (List ℤ)
as_i32s (i32s vs) = done vs
as_i32s _ = aborted

abbrev pub as_i64s : Batch → Outcome (List ℤ)
as_i64s (i64s vs) = done vs
as_i64s _ = aborted

abbrev pub as_flts : Batch → Outcome (List ℕ)
as_flts (flts vs) = done vs
as_flts _ = aborted

abbrev pub as_dbls : Batch → Outcome (List ℕ)
as_dbls (dbls vs) = done vs
as_dbls _ = aborted

abbrev pub as_strs : Batch → Outcome (List (List ℕ))
as_strs (strs vs) = done vs
as_strs _ = aborted

unfoldable pub batch_nulls : System → RowGroupCursor → ℕ → Outcome (ℕ × ℕ × RowGroupCursor)
unfolding cursor_nulls_init load
batch_nulls sys cursor i = do
  ready ← cursor_nulls_init sys cursor i
  r ← readings_at ready i
  loaded ← load bit_reader ready.position r.nulls
  word ← as_bits loaded.batch
  done (word, loaded.count, set_nulls ready i r loaded)

unfoldable pub batch_bit : System → RowGroupCursor → ℕ → Outcome (ℕ × ℕ × RowGroupCursor)
unfolding batch_values
batch_bit sys cursor i = do
  (batch, count, next) ← batch_values sys bit_reader cursor i
  word ← as_bits batch
  done (word, count, next)

unfoldable pub batch_i32 : System → RowGroupCursor → ℕ → Outcome (List ℤ × ℕ × RowGroupCursor)
unfolding batch_values
batch_i32 sys cursor i = do
  (batch, count, next) ← batch_values sys i32_reader cursor i
  vs ← as_i32s batch
  done (vs, count, next)

unfoldable pub batch_i64 : System → RowGroupCursor → ℕ → Outcome (List ℤ × ℕ × RowGroupCursor)
unfolding batch_values
batch_i64 sys cursor i = do
  (batch, count, next) ← batch_values sys i64_reader cursor i
  vs ← as_i64s batch
  done (vs, count, next)

unfoldable pub batch_flt : System → RowGroupCursor → ℕ → Outcome (List ℕ × ℕ × RowGroupCursor)
unfolding batch_values
batch_flt sys cursor i = do
  (batch, count, next) ← batch_values sys flt_reader cursor i
  vs ← as_flts batch
  done (vs, count, next)

unfoldable pub batch_dbl : System → RowGroupCursor → ℕ → Outcome (List ℕ × ℕ × RowGroupCursor)
unfolding batch_values
batch_dbl sys cursor i = do
  (batch, count, next) ← batch_values sys dbl_reader cursor i
  vs ← as_dbls batch
  done (vs, count, next)

unfoldable pub batch_str :
    System → RowGroupCursor → ℕ → Outcome (List (List ℕ) × ℕ × RowGroupCursor)
unfolding batch_values
batch_str sys cursor i = do
  (batch, count, next) ← batch_values sys str_reader cursor i
  vs ← as_strs batch
  done (vs, count, next)
