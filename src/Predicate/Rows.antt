-- ===== src/Predicate/Rows.antt =====
-- lib/predicate.c: `cx_index_match_rows`, the mask of the rows of the current batch that match a
-- predicate. The number of rows is what the last batch that was read has.
use columnix.Base.{
  ℕ, ◌-◌, ◌^◌, Bool, true, false, none, some, ltb, leb, ◌==◌, if◌then◌else◌, bit_and, bit_or,
  Outcome, done, failed, aborted, ◌>>=◌, ◌>>◌, assert,
}
use columnix.Common.{
  ColumnType, same_type, value_bit, value_i32, value_i64, value_flt, value_dbl, value_str,
}
use columnix.System.{System}
use columnix.Match.{
  match_i32_eq, match_i32_lt, match_i32_gt, match_i64_eq, match_i64_lt, match_i64_gt, match_flt_eq,
  match_flt_lt, match_flt_gt, match_dbl_eq, match_dbl_lt, match_dbl_gt, match_str_eq, match_str_lt,
  match_str_gt, match_str_contains,
}
use columnix.RowGroup.{RowGroup, column_type}
use columnix.RowGroup.Cursor.{
  Batch, RowGroupCursor, batch_count, batch_values, bit_reader, i32_reader, i64_reader, flt_reader,
  dbl_reader, str_reader,
}
use columnix.RowGroup.Batch.{
  batch_nulls, batch_bit, batch_i32, batch_i64, batch_flt, batch_dbl, batch_str,
}
use columnix.Predicate.{PredicateType, Custom, Node, Predicate, Operands, node, nil, cons}

-- A mask, `*count`, and the cursor.
abbrev pub Matched : Type 0
Matched = ℕ × ℕ × RowGroupCursor

abbrev pub full_mask : ℕ
full_mask = 18446744073709551615

-- `~mask`
abbrev pub complement : ℕ → ℕ
complement mask = full_mask - mask

unfoldable pub mask_cap : ℕ → ℕ → Outcome ℕ
mask_cap mask count = do
  assert (leb count 64)
  done (if ltb count 64 then bit_and mask (2 ^ count - 1) else mask)

unfoldable pub rows_eq_bit : Bool → ℕ → ℕ → Outcome ℕ
unfolding mask_cap
rows_eq_bit value word count =
    if count == 0 then done 0 else (if value then done word else mask_cap (complement word) count)

-- The comparison of a batch with the value of the predicate.
abbrev pub compare_with :
    {A B : Type 0}
    → Outcome (A × ℕ × RowGroupCursor)
    → Outcome B
    → (A → B → Outcome ℕ)
    → Outcome Matched
compare_with batch value test = do
  (values, count, next) ← batch
  v ← value
  mask ← test values v
  done (mask, count, next)

unfoldable pub rows_eq : System → Node → RowGroupCursor → ColumnType → Outcome Matched
unfolding rows_eq_bit
rows_eq sys n cursor ColumnType.bit = do
  assert (same_type n.column_type ColumnType.bit)
  (word, count, next) ← batch_bit sys cursor n.column
  v ← value_bit n.value
  mask ← rows_eq_bit v word count
  done (mask, count, next)
rows_eq sys n cursor ColumnType.i32 = do
  assert (same_type n.column_type ColumnType.i32)
  compare_with (batch_i32 sys cursor n.column) (value_i32 n.value) match_i32_eq
rows_eq sys n cursor ColumnType.i64 = do
  assert (same_type n.column_type ColumnType.i64)
  compare_with (batch_i64 sys cursor n.column) (value_i64 n.value) match_i64_eq
rows_eq sys n cursor ColumnType.flt = do
  assert (same_type n.column_type ColumnType.flt)
  compare_with (batch_flt sys cursor n.column) (value_flt n.value) match_flt_eq
rows_eq sys n cursor ColumnType.dbl = do
  assert (same_type n.column_type ColumnType.dbl)
  compare_with (batch_dbl sys cursor n.column) (value_dbl n.value) match_dbl_eq
rows_eq sys n cursor ColumnType.str = do
  assert (same_type n.column_type ColumnType.str)
  compare_with (batch_str sys cursor n.column) (value_str n.value)
      (λ vs v. match_str_eq vs v n.case_sensitive)

unfoldable pub rows_lt : System → Node → RowGroupCursor → ColumnType → Outcome Matched
rows_lt sys n cursor ColumnType.bit = failed
rows_lt sys n cursor ColumnType.i32 = do
  assert (same_type n.column_type ColumnType.i32)
  compare_with (batch_i32 sys cursor n.column) (value_i32 n.value) match_i32_lt
rows_lt sys n cursor ColumnType.i64 = do
  assert (same_type n.column_type ColumnType.i64)
  compare_with (batch_i64 sys cursor n.column) (value_i64 n.value) match_i64_lt
rows_lt sys n cursor ColumnType.flt = do
  assert (same_type n.column_type ColumnType.flt)
  compare_with (batch_flt sys cursor n.column) (value_flt n.value) match_flt_lt
rows_lt sys n cursor ColumnType.dbl = do
  assert (same_type n.column_type ColumnType.dbl)
  compare_with (batch_dbl sys cursor n.column) (value_dbl n.value) match_dbl_lt
rows_lt sys n cursor ColumnType.str = do
  assert (same_type n.column_type ColumnType.str)
  compare_with (batch_str sys cursor n.column) (value_str n.value)
      (λ vs v. match_str_lt vs v n.case_sensitive)

unfoldable pub rows_gt : System → Node → RowGroupCursor → ColumnType → Outcome Matched
rows_gt sys n cursor ColumnType.bit = failed
rows_gt sys n cursor ColumnType.i32 = do
  assert (same_type n.column_type ColumnType.i32)
  compare_with (batch_i32 sys cursor n.column) (value_i32 n.value) match_i32_gt
rows_gt sys n cursor ColumnType.i64 = do
  assert (same_type n.column_type ColumnType.i64)
  compare_with (batch_i64 sys cursor n.column) (value_i64 n.value) match_i64_gt
rows_gt sys n cursor ColumnType.flt = do
  assert (same_type n.column_type ColumnType.flt)
  compare_with (batch_flt sys cursor n.column) (value_flt n.value) match_flt_gt
rows_gt sys n cursor ColumnType.dbl = do
  assert (same_type n.column_type ColumnType.dbl)
  compare_with (batch_dbl sys cursor n.column) (value_dbl n.value) match_dbl_gt
rows_gt sys n cursor ColumnType.str = do
  assert (same_type n.column_type ColumnType.str)
  compare_with (batch_str sys cursor n.column) (value_str n.value)
      (λ vs v. match_str_gt vs v n.case_sensitive)

-- The untyped batch that a callback is handed.
abbrev pub batch_any :
    System → RowGroupCursor → ℕ → ColumnType → Outcome (Batch × ℕ × RowGroupCursor)
batch_any sys cursor i ColumnType.bit = batch_values sys bit_reader cursor i
batch_any sys cursor i ColumnType.i32 = batch_values sys i32_reader cursor i
batch_any sys cursor i ColumnType.i64 = batch_values sys i64_reader cursor i
batch_any sys cursor i ColumnType.flt = batch_values sys flt_reader cursor i
batch_any sys cursor i ColumnType.dbl = batch_values sys dbl_reader cursor i
batch_any sys cursor i ColumnType.str = batch_values sys str_reader cursor i

-- A callback that is not there leaves the mask 0.
abbrev pub call_rows : Custom → ColumnType → ℕ → Batch → Outcome ℕ
call_rows c type count batch = elim c.match_rows [
  | none ↦ done 0
  | some f ↦ elim (f type count batch) [ none ↦ failed | some mask ↦ done mask ]
]

unfoldable pub rows_custom : System → Node → RowGroupCursor → ColumnType → Outcome Matched
rows_custom sys n cursor type = do
  assert (same_type n.column_type type)
  (batch, count, next) ← batch_any sys cursor n.column type
  mask ← call_rows n.custom type count batch
  done (mask, count, next)

unfoldable pub rows_true : RowGroupCursor → Outcome Matched
unfolding mask_cap
rows_true cursor = do
  mask ← mask_cap full_mask (batch_count cursor)
  done (mask, batch_count cursor, cursor)

unfoldable pub rows_null : System → Node → RowGroupCursor → Outcome Matched
rows_null sys n cursor = do
  (nulls, count, next) ← batch_nulls sys cursor n.column
  done (if count == 0 then 0 else nulls, count, next)

unfoldable pub rows_contains : System → Node → RowGroupCursor → ColumnType → Outcome Matched
rows_contains sys n cursor type = do
  assert (same_type type ColumnType.str)
  compare_with (batch_str sys cursor n.column) (value_str n.value)
      (λ vs v. match_str_contains vs v n.case_sensitive n.location)

-- The `switch` at a leaf.
unfoldable pub rows_leaf : System → Node → RowGroupCursor → ColumnType → Outcome Matched
unfolding rows_true rows_null rows_eq rows_lt rows_gt rows_contains rows_custom
rows_leaf sys n cursor type = elim n.type [
  | PredicateType.always ↦ rows_true cursor
  | PredicateType.null ↦ rows_null sys n cursor
  | PredicateType.eq ↦ rows_eq sys n cursor type
  | PredicateType.lt ↦ rows_lt sys n cursor type
  | PredicateType.gt ↦ rows_gt sys n cursor type
  | PredicateType.contains ↦ rows_contains sys n cursor type
  | PredicateType.custom ↦ rows_custom sys n cursor type
  | PredicateType.and ↦ aborted
  | PredicateType.or ↦ aborted
]

-- `predicate->negate ? cx_mask_cap(~mask, *count) : mask`
abbrev pub negated : Bool → Outcome Matched → Outcome Matched
negated false m = m
negated true m = do
  (mask, count, cursor) ← m
  capped ← mask_cap (complement mask) count
  done (capped, count, cursor)

-- `row_group` is the cursor's own row group, of which only the types are read here.
unfoldable mutual
  unfolding rows_leaf

  pub match_rows : System → RowGroup → Predicate → RowGroupCursor → Outcome Matched
  match_rows sys row_group (node n ps) cursor =
      let conjunction = rows_and sys row_group ps (full_mask, 0, cursor) in
      let disjunction = rows_or sys row_group ps (0, 0, cursor) in
      column_type row_group n.column >>= λ type. negated n.negate (elim n.type [
        | PredicateType.and ↦ conjunction
        | PredicateType.or ↦ disjunction
        | _ ↦ rows_leaf sys n cursor type
      ])

  -- The loop over the operands of AND, which ends once the mask is empty.
  pub rows_and : System → RowGroup → Operands → Matched → Outcome Matched
  rows_and sys row_group nil m = done m
  rows_and sys row_group (cons p ps) m =
      let (mask, count, cursor) = m in
      let more = match_rows sys row_group p cursor >>= λ (operand_mask, operand_count, next).
      rows_and sys row_group ps (bit_and mask operand_mask, operand_count, next) in
      if mask == 0 then done m else more

  -- The loop over the operands of OR, which ends once the mask is full.
  pub rows_or : System → RowGroup → Operands → Matched → Outcome Matched
  rows_or sys row_group nil m = done m
  rows_or sys row_group (cons p ps) m =
      let (mask, count, cursor) = m in
      let more = match_rows sys row_group p cursor >>= λ (operand_mask, operand_count, next).
      rows_or sys row_group ps (bit_or mask operand_mask, operand_count, next) in
      if mask == full_mask then done m else more
