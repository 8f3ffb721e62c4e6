-- ===== src/Row/Get.antt =====
-- lib/row.c: `cx_row_cursor_get_*`, the values of the current row.
use columnix.Base.{
  ℕ, Bool, not, ◌==◌, List, ℤ, bit, get_elem?, none, some, Outcome, done, aborted, ◌>>=◌, ◌>>◌,
  assert, require,
}
use columnix.System.{System}
use columnix.RowGroup.Cursor.{RowGroupCursor}
use columnix.RowGroup.Batch.{
  batch_nulls, batch_bit, batch_i32, batch_i64, batch_flt, batch_dbl, batch_str,
}
use columnix.Row.{RowCursor}

-- The value of a row, and the state after the call.
abbrev pub Got : Type 0 → Type 0
Got A = Outcome (A × RowCursor)

abbrev pub keep : RowCursor → RowGroupCursor → RowCursor
keep c cursor = record c { cursor = cursor }

-- `*bitset & row_bit`
unfoldable pub get_word : Outcome (ℕ × ℕ × RowGroupCursor) → RowCursor → Got Bool
get_word batch c = do
  assert (not (c.row_mask == 0))
  (word, count, next) ← batch
  require (not (count == 0))
  done (bit c.position word, keep c next)

-- `batch[cursor->position]`; a read beyond the batch has no meaning in C.
unfoldable pub get_value : {A : Type 0} → Outcome (List A × ℕ × RowGroupCursor) → RowCursor → Got A
get_value batch c = do
  assert (not (c.row_mask == 0))
  (values, count, next) ← batch
  require (not (count == 0))
  elim (get_elem? values c.position) [ none ↦ aborted | some v ↦ done (v, keep c next) ]

unfoldable pub get_null : System → RowCursor → ℕ → Got Bool
unfolding get_word
get_null sys c i = get_word (batch_nulls sys c.cursor i) c

unfoldable pub get_bit : System → RowCursor → ℕ → Got Bool
unfolding get_word
get_bit sys c i = get_word (batch_bit sys c.cursor i) c

unfoldable pub get_i32 : System → RowCursor → ℕ → Got ℤ
unfolding get_value
get_i32 sys c i = get_value (batch_i32 sys c.cursor i) c

unfoldable pub get_i64 : System → RowCursor → ℕ → Got ℤ
unfolding get_value
get_i64 sys c i = get_value (batch_i64 sys c.cursor i) c

unfoldable pub get_flt : System → RowCursor → ℕ → Got ℕ
unfolding get_value
get_flt sys c i = get_value (batch_flt sys c.cursor i) c

unfoldable pub get_dbl : System → RowCursor → ℕ → Got ℕ
unfolding get_value
get_dbl sys c i = get_value (batch_dbl sys c.cursor i) c

unfoldable pub get_str : System → RowCursor → ℕ → Got (List ℕ)
unfolding get_value
get_str sys c i = get_value (batch_str sys c.cursor i) c
