-- ===== src/Predicate/Frame/Mask.antt =====
-- lib/predicate.c: matching the rows of a batch leaves the row position alone.
use columnix.Base.{
  ℕ, Bool, true, false, ◌==◌, if◌then◌else◌, bit_and, bit_or, Outcome, aborted, assert, Lands,
  Lands-bind, Lands-then, Lands-weaken, ◌∙◌,
}
use columnix.Common.{
  ColumnType, same_type, value_bit, value_i32, value_i64, value_flt, value_dbl, value_str,
}
use columnix.System.{System}
use columnix.Match.{
  match_i32_eq, match_i32_lt, match_i32_gt, match_i64_eq, match_i64_lt, match_i64_gt, match_flt_eq,
  match_flt_lt, match_flt_gt, match_dbl_eq, match_dbl_lt, match_dbl_gt, match_str_eq, match_str_lt,
  match_str_gt, match_str_contains,
}
use columnix.RowGroup.{RowGroup, column_type}
use columnix.RowGroup.Cursor.{
  batch_count, RowGroupCursor, bit_reader, i32_reader, i64_reader, flt_reader, dbl_reader,
  str_reader,
}
use columnix.RowGroup.Batch.{
  batch_nulls, batch_bit, batch_i32, batch_i64, batch_flt, batch_dbl, batch_str, as_bits, as_i32s,
  as_i64s, as_flts, as_dbls, as_strs,
}
use columnix.Predicate.{PredicateType, Node, Predicate, Operands, node, nil, cons}
use columnix.Predicate.Rows.{
  Matched, full_mask, complement, mask_cap, rows_eq, rows_lt, rows_gt, rows_custom, rows_true,
  rows_null, rows_contains, rows_leaf, rows_eq_bit, batch_any, call_rows, negated, match_rows,
  rows_and, rows_or,
}
use columnix.Predicate.Frame.{
  Same, same, Kept, compared, typed-Kept, batch_any-Kept, batch_nulls-Kept,
}

module _ (sys : System) (cursor : RowGroupCursor) where
  rows_eq-Kept :
      (n : Node) (type : ColumnType) → Lands (Kept sys cursor) (rows_eq sys n cursor type)
  unfolding rows_eq batch_bit batch_i32 batch_i64 batch_flt batch_dbl batch_str
  rows_eq-Kept n ColumnType.bit =
      Lands-then (Kept sys cursor) (assert (same_type n.column_type ColumnType.bit)) _ (λ _.
        Lands-bind (Kept sys cursor) (Kept sys cursor) (batch_bit sys cursor n.column) _
          (typed-Kept sys cursor bit_reader n.column as_bits)
          (λ (word, count, next) s.
            Lands-then (Kept sys cursor) (value_bit n.value) _
              (λ v. Lands-then (Kept sys cursor) (rows_eq_bit v word count) _ (λ mask. s))))
  rows_eq-Kept n ColumnType.i32 =
      compared sys cursor (same_type n.column_type ColumnType.i32) i32_reader n.column as_i32s
        (value_i32 n.value) match_i32_eq
  rows_eq-Kept n ColumnType.i64 =
      compared sys cursor (same_type n.column_type ColumnType.i64) i64_reader n.column as_i64s
        (value_i64 n.value) match_i64_eq
  rows_eq-Kept n ColumnType.flt =
      compared sys cursor (same_type n.column_type ColumnType.flt) flt_reader n.column as_flts
        (value_flt n.value) match_flt_eq
  rows_eq-Kept n ColumnType.dbl =
      compared sys cursor (same_type n.column_type ColumnType.dbl) dbl_reader n.column as_dbls
        (value_dbl n.value) match_dbl_eq
  rows_eq-Kept n ColumnType.str =
      compared sys cursor (same_type n.column_type ColumnType.str) str_reader n.column as_strs
        (value_str n.value) (λ vs v. match_str_eq vs v n.case_sensitive)

  rows_lt-Kept :
      (n : Node) (type : ColumnType) → Lands (Kept sys cursor) (rows_lt sys n cursor type)
  unfolding rows_lt batch_bit batch_i32 batch_i64 batch_flt batch_dbl batch_str
  rows_lt-Kept n ColumnType.bit = tt
  rows_lt-Kept n ColumnType.i32 =
      compared sys cursor (same_type n.column_type ColumnType.i32) i32_reader n.column as_i32s
        (value_i32 n.value) match_i32_lt
  rows_lt-Kept n ColumnType.i64 =
      compared sys cursor (same_type n.column_type ColumnType.i64) i64_reader n.column as_i64s
        (value_i64 n.value) match_i64_lt
  rows_lt-Kept n ColumnType.flt =
      compared sys cursor (same_type n.column_type ColumnType.flt) flt_reader n.column as_flts
        (value_flt n.value) match_flt_lt
  rows_lt-Kept n ColumnType.dbl =
      compared sys cursor (same_type n.column_type ColumnType.dbl) dbl_reader n.column as_dbls
        (value_dbl n.value) match_dbl_lt
  rows_lt-Kept n ColumnType.str =
      compared sys cursor (same_type n.column_type ColumnType.str) str_reader n.column as_strs
        (value_str n.value) (λ vs v. match_str_lt vs v n.case_sensitive)

  rows_gt-Kept :
      (n : Node) (type : ColumnType) → Lands (Kept sys cursor) (rows_gt sys n cursor type)
  unfolding rows_gt batch_bit batch_i32 batch_i64 batch_flt batch_dbl batch_str
  rows_gt-Kept n ColumnType.bit = tt
  rows_gt-Kept n ColumnType.i32 =
      compared sys cursor (same_type n.column_type ColumnType.i32) i32_reader n.column as_i32s
        (value_i32 n.value) match_i32_gt
  rows_gt-Kept n ColumnType.i64 =
      compared sys cursor (same_type n.column_type ColumnType.i64) i64_reader n.column as_i64s
        (value_i64 n.value) match_i64_gt
  rows_gt-Kept n ColumnType.flt =
      compared sys cursor (same_type n.column_type ColumnType.flt) flt_reader n.column as_flts
        (value_flt n.value) match_flt_gt
  rows_gt-Kept n ColumnType.dbl =
      compared sys cursor (same_type n.column_type ColumnType.dbl) dbl_reader n.column as_dbls
        (value_dbl n.value) match_dbl_gt
  rows_gt-Kept n ColumnType.str =
      compared sys cursor (same_type n.column_type ColumnType.str) str_reader n.column as_strs
        (value_str n.value) (λ vs v. match_str_gt vs v n.case_sensitive)

  rows_custom-Kept :
      (n : Node) (type : ColumnType) → Lands (Kept sys cursor) (rows_custom sys n cursor type)
  unfolding rows_custom
  rows_custom-Kept n type =
      Lands-then (Kept sys cursor) (assert (same_type n.column_type type)) _ (λ _.
        Lands-bind (Kept sys cursor) (Kept sys cursor) (batch_any sys cursor n.column type) _
          (batch_any-Kept sys cursor n.column type)
          (λ (batch, count, next) s.
            Lands-then (Kept sys cursor) (call_rows n.custom type count batch) _ (λ mask. s)))

  rows_true-Kept : Lands (Kept sys cursor) (rows_true cursor)
  unfolding rows_true
  rows_true-Kept =
      Lands-then (Kept sys cursor) (mask_cap full_mask (batch_count cursor)) _ (λ mask. same cursor)

  rows_null-Kept : (n : Node) → Lands (Kept sys cursor) (rows_null sys n cursor)
  unfolding rows_null
  rows_null-Kept n =
      Lands-bind (Kept sys cursor) (Kept sys cursor) (batch_nulls sys cursor n.column) _
        (batch_nulls-Kept sys cursor n.column) (λ (nulls, count, next) s. s)

  rows_contains-Kept :
      (n : Node) (type : ColumnType) → Lands (Kept sys cursor) (rows_contains sys n cursor type)
  unfolding rows_contains batch_str
  rows_contains-Kept n type =
      compared sys cursor (same_type type ColumnType.str) str_reader n.column as_strs
        (value_str n.value) (λ vs v. match_str_contains vs v n.case_sensitive n.location)

  rows_leaf-Kept :
      (n : Node) (type : ColumnType) → Lands (Kept sys cursor) (rows_leaf sys n cursor type)
  unfolding rows_leaf
  rows_leaf-Kept n type =
      elim n.type
        as (λ t. Lands (Kept sys cursor) (elim t as (λ _. Outcome Matched) [
          | PredicateType.always ↦ rows_true cursor
          | PredicateType.null ↦ rows_null sys n cursor
          | PredicateType.eq ↦ rows_eq sys n cursor type
          | PredicateType.lt ↦ rows_lt sys n cursor type
          | PredicateType.gt ↦ rows_gt sys n cursor type
          | PredicateType.contains ↦ rows_contains sys n cursor type
          | PredicateType.custom ↦ rows_custom sys n cursor type
          | PredicateType.and ↦ aborted
          | PredicateType.or ↦ aborted
        ])) [
          | PredicateType.always ↦ rows_true-Kept
          | PredicateType.null ↦ rows_null-Kept n
          | PredicateType.eq ↦ rows_eq-Kept n type
          | PredicateType.lt ↦ rows_lt-Kept n type
          | PredicateType.gt ↦ rows_gt-Kept n type
          | PredicateType.contains ↦ rows_contains-Kept n type
          | PredicateType.custom ↦ rows_custom-Kept n type
          | PredicateType.and ↦ tt
          | PredicateType.or ↦ tt
        ]

  negated-Kept :
      (b : Bool) (m : Outcome Matched)
      → Lands (Kept sys cursor) m
      → Lands (Kept sys cursor) (negated b m)
  negated-Kept false m h = h
  negated-Kept true m h =
      Lands-bind (Kept sys cursor) (Kept sys cursor) m _ h (λ (mask, count, next) s.
        Lands-then (Kept sys cursor) (mask_cap (complement mask) count) _ (λ capped. s))

Same-trans : {a b c : RowGroupCursor} → Same a b → Same b c → Same a c
Same-trans s t = record {
  position = t.position ∙ s.position;
  row_count = t.row_count ∙ s.row_count;
  initialized = t.initialized ∙ s.initialized;
}

Kept-from :
    (sys : System) {a b : RowGroupCursor} (m : Outcome Matched)
    → Same a b
    → Lands (Kept sys b) m
    → Lands (Kept sys a) m
Kept-from sys {a} {b} m s h =
    Lands-weaken (Kept sys b) (Kept sys a) m h (λ (mask, count, next) t. Same-trans s t)

-- A chain is entered or not.
either :
    {A : Type 0} (P : A → Type 0) (b : Bool) (m n : Outcome A)
    → Lands P m
    → Lands P n
    → Lands P (if b then m else n)
either P true m n h k = h
either P false m n h k = k

module _ (sys : System) (row_group : RowGroup) where
  mutual
    unfolding match_rows rows_and rows_or

    pub match_rows-Kept :
        (p : Predicate) (cursor : RowGroupCursor)
        → Lands (Kept sys cursor) (match_rows sys row_group p cursor)
    match_rows-Kept (node n ps) cursor =
        let conjunction = rows_and-Kept ps cursor full_mask 0 cursor (same cursor) in
        let disjunction = rows_or-Kept ps cursor 0 0 cursor (same cursor) in
        Lands-then (Kept sys cursor) (column_type row_group n.column) _ (λ type.
          negated-Kept sys cursor n.negate _ (
            switch n.type type (rows_and sys row_group ps (full_mask, 0, cursor))
              (rows_or sys row_group ps (0, 0, cursor)) (rows_leaf sys n cursor type) conjunction
              disjunction (rows_leaf-Kept sys cursor n type)))
      where
        switch :
            (t : PredicateType) (type : ColumnType) (c d l : Outcome Matched)
            → Lands (Kept sys cursor) c
            → Lands (Kept sys cursor) d
            → Lands (Kept sys cursor) l
            → Lands (Kept sys cursor) (elim t as (λ _. Outcome Matched) [
              | PredicateType.and ↦ c
              | PredicateType.or ↦ d
              | _ ↦ l
            ])
        switch t type c d l h k m =
            elim t
              as (λ t. Lands (Kept sys cursor) (elim t as (λ _. Outcome Matched) [
                | PredicateType.and ↦ c
                | PredicateType.or ↦ d
                | _ ↦ l
              ])) [ PredicateType.and ↦ h | PredicateType.or ↦ k | _ ↦ m ]

    rows_and-Kept :
        (ps : Operands) (start : RowGroupCursor) (mask count : ℕ) (cursor : RowGroupCursor)
        → Same start cursor
        → Lands (Kept sys start) (rows_and sys row_group ps (mask, count, cursor))
    rows_and-Kept nil start mask count cursor s = s
    rows_and-Kept (cons p ps) start mask count cursor s =
        either (Kept sys start) (mask == 0) _ _ s (
          Lands-bind (Kept sys start) (Kept sys start) (match_rows sys row_group p cursor) _
            (Kept-from sys (match_rows sys row_group p cursor) s (match_rows-Kept p cursor))
            (λ (operand_mask, operand_count, next) t.
              rows_and-Kept ps start (bit_and mask operand_mask) operand_count next t))

    rows_or-Kept :
        (ps : Operands) (start : RowGroupCursor) (mask count : ℕ) (cursor : RowGroupCursor)
        → Same start cursor
        → Lands (Kept sys start) (rows_or sys row_group ps (mask, count, cursor))
    rows_or-Kept nil start mask count cursor s = s
    rows_or-Kept (cons p ps) start mask count cursor s =
        either (Kept sys start) (mask == full_mask) _ _ s (
          Lands-bind (Kept sys start) (Kept sys start) (match_rows sys row_group p cursor) _
            (Kept-from sys (match_rows sys row_group p cursor) s (match_rows-Kept p cursor))
            (λ (operand_mask, operand_count, next) t.
              rows_or-Kept ps start (bit_or mask operand_mask) operand_count next t))
