-- ===== src/Predicate/Frame.antt =====
-- lib/row_group.c, lib/predicate.c: reading a batch leaves the row position alone.
pub mod Mask
use columnix.Base.{
  ℕ, ◌≡◌, refl, Bool, true, false, ◌==◌, if◌then◌else◌, bit_and, bit_or, none, some, ltb, Outcome,
  done, aborted, ◌>>=◌, ◌>>◌, assert, require, Lands, Lands-bind, Lands-then, Lands-weaken, Option,
  ◌∙◌,
}
use columnix.Common.{
  ColumnType, same_type, value_bit, value_i32, value_i64, value_flt, value_dbl, value_str,
}
use columnix.System.{System}
use columnix.Match.{
  match_i32_eq, match_i32_lt, match_i32_gt, match_i64_eq, match_i64_lt, match_i64_gt, match_flt_eq,
  match_flt_lt, match_flt_gt, match_dbl_eq, match_dbl_lt, match_dbl_gt, match_str_eq, match_str_lt,
  match_str_gt, match_str_contains,
}
use columnix.RowGroup.{RowGroup, column_type, group_column, group_nulls}
use columnix.Column.Cursor.{cursor_new}
use columnix.RowGroup.Cursor.{
  Batch, batch_count, Reader, RowGroupCursor, readings_at, load, cursor_column_init,
  cursor_nulls_init, batch_values, bit_reader, i32_reader, i64_reader, flt_reader, dbl_reader,
  str_reader,
}
use columnix.RowGroup.Batch.{
  batch_nulls, batch_bit, batch_i32, batch_i64, batch_flt, batch_dbl, batch_str, as_bits, as_i32s,
  as_i64s, as_flts, as_dbls, as_strs,
}
use columnix.Predicate.{PredicateType, Node, Predicate, Operands, node, nil, cons}
use columnix.Predicate.Rows.{
  Matched, full_mask, complement, mask_cap, compare_with, rows_eq, rows_lt, rows_gt, rows_custom,
  rows_true, rows_null, rows_contains, rows_leaf, rows_eq_bit, batch_any, call_rows, negated,
  match_rows, rows_and, rows_or,
}

-- The rows and the place of a cursor.
pub record Same (cursor next : RowGroupCursor) : Type 0 where
  pub position : next.position ≡ cursor.position
  pub row_count : next.row_count ≡ cursor.row_count
  pub initialized : next.initialized ≡ cursor.initialized

same : (cursor : RowGroupCursor) → Same cursor cursor
same cursor = record { position = refl; row_count = refl; initialized = refl }

option :
    {A B : Type 0} (P : B → Type 0) (o : Option A) (a b : Outcome B)
    → Lands P a
    → Lands P b
    → Lands P (elim o [ some _ ↦ a | none ↦ b ])
option P (some x) a b h k = h
option P none a b h k = k

module _ (sys : System) (cursor : RowGroupCursor) where
  abbrev Kept : {A : Type 0} → A × ℕ × RowGroupCursor → Type 0
  Kept (a, count, next) = Same cursor next

  cursor_column_init-Same : (i : ℕ) → Lands (Same cursor) (cursor_column_init sys cursor i)
  unfolding cursor_column_init
  cursor_column_init-Same i = Lands-then (Same cursor) (require (ltb i cursor.column_count)) _ (λ _.
      Lands-then (Same cursor) (readings_at cursor i) _ (λ r.
        option (Same cursor) r.values.cursor _ _ (same cursor) (
          Lands-then (Same cursor) (group_column sys cursor.row_group i) _ (λ (column, row_group).
            Lands-then (Same cursor) (cursor_new sys column) _
              (λ opened. record { position = refl; row_count = refl; initialized = refl })))))

  cursor_nulls_init-Same : (i : ℕ) → Lands (Same cursor) (cursor_nulls_init sys cursor i)
  unfolding cursor_nulls_init
  cursor_nulls_init-Same i = Lands-then (Same cursor) (require (ltb i cursor.column_count)) _ (λ _.
      Lands-then (Same cursor) (readings_at cursor i) _ (λ r.
        option (Same cursor) r.nulls.cursor _ _ (same cursor) (
          Lands-then (Same cursor) (group_nulls sys cursor.row_group i) _ (λ (column, row_group).
            Lands-then (Same cursor) (cursor_new sys column) _
              (λ opened. record { position = refl; row_count = refl; initialized = refl })))))

  batch_values-Kept : (reader : Reader) (i : ℕ) → Lands Kept (batch_values sys reader cursor i)
  unfolding batch_values
  batch_values-Kept reader i =
      Lands-bind (Same cursor) Kept (cursor_column_init sys cursor i) _ (cursor_column_init-Same i)
        (λ ready s. Lands-then Kept (readings_at ready i) _ (λ r.
          Lands-then Kept (load reader ready.position r.values) _ (λ loaded. record {
            position = s.position;
            row_count = s.row_count;
            initialized = s.initialized;
          })))

  batch_nulls-Kept : (i : ℕ) → Lands Kept (batch_nulls sys cursor i)
  unfolding batch_nulls
  batch_nulls-Kept i =
      Lands-bind (Same cursor) Kept (cursor_nulls_init sys cursor i) _ (cursor_nulls_init-Same i)
        (λ ready s. Lands-then Kept (readings_at ready i) _ (λ r.
          Lands-then Kept (load bit_reader ready.position r.nulls) _ (λ loaded.
            Lands-then Kept (as_bits loaded.batch) _ (λ word. record {
              position = s.position;
              row_count = s.row_count;
              initialized = s.initialized;
            }))))

  -- A typed batch.
  typed-Kept :
      {A : Type 0} (reader : Reader) (i : ℕ) (as_type : Batch → Outcome A)
      → Lands Kept (
          batch_values sys reader cursor i >>= λ (batch, count, next).
          as_type batch >>= λ vs. done (vs, count, next))
  typed-Kept reader i as_type =
      Lands-bind Kept Kept (batch_values sys reader cursor i) _ (batch_values-Kept reader i)
        (λ (batch, count, next) s. Lands-then Kept (as_type batch) _ (λ vs. s))

  compare_with-Kept :
      {A B : Type 0} (batch : Outcome (A × ℕ × RowGroupCursor)) (value : Outcome B)
      (test : A → B → Outcome ℕ)
      → Lands Kept batch
      → Lands Kept (compare_with batch value test)
  compare_with-Kept batch value test h = Lands-bind Kept Kept batch _ h (λ (values, count, next) s.
      Lands-then Kept value _ (λ v. Lands-then Kept (test values v) _ (λ mask. s)))

  batch_any-Kept : (i : ℕ) (type : ColumnType) → Lands Kept (batch_any sys cursor i type)
  batch_any-Kept i ColumnType.bit = batch_values-Kept bit_reader i
  batch_any-Kept i ColumnType.i32 = batch_values-Kept i32_reader i
  batch_any-Kept i ColumnType.i64 = batch_values-Kept i64_reader i
  batch_any-Kept i ColumnType.flt = batch_values-Kept flt_reader i
  batch_any-Kept i ColumnType.dbl = batch_values-Kept dbl_reader i
  batch_any-Kept i ColumnType.str = batch_values-Kept str_reader i

  -- A comparison of a typed batch behind an assertion.
  compared :
      {A B : Type 0} (b : Bool) (reader : Reader) (i : ℕ) (as_type : Batch → Outcome A)
      (value : Outcome B) (test : A → B → Outcome ℕ)
      → Lands Kept (
          assert b
          >> compare_with
              (batch_values sys reader cursor i >>= λ (batch, count, next).
                as_type batch >>= λ vs. done (vs, count, next))
              value
              test)
  compared b reader i as_type value test =
      Lands-then Kept (assert b) _
        (λ _. compare_with-Kept _ value test (typed-Kept reader i as_type))
