-- ===== src/Predicate/Indexes.antt =====
-- lib/predicate.c: `cx_index_match_indexes`, what the indexes of a row group alone say of a predicate.
use columnix.Base.{
  Bool, true, false, none, some, ◌==◌, if◌then◌else◌, length, Outcome, done, ◌>>=◌, ◌>>◌, assert,
}
use columnix.Common.{
  ColumnType, same_type, value_bit, value_i32, value_i64, value_flt, value_dbl, value_str,
}
use columnix.Index.{Index}
use columnix.Index.Match.{
  IndexMatch, nothing, unknown, everything, match_bit_eq, match_i32_eq, match_i32_lt, match_i32_gt,
  match_i64_eq, match_i64_lt, match_i64_gt, match_flt_eq, match_flt_lt, match_flt_gt, match_dbl_eq,
  match_dbl_lt, match_dbl_gt, match_str_eq, match_str_contains,
}
use columnix.RowGroup.{RowGroup, row_count, column_type, column_index, null_index}
use columnix.Predicate.{PredicateType, Node, Predicate, Operands, node, nil, cons}

unfoldable pub index_eq : Node → ColumnType → Index → Outcome IndexMatch
index_eq n ColumnType.bit index = do
  assert (same_type n.column_type ColumnType.bit)
  v ← value_bit n.value
  done (match_bit_eq index v)
index_eq n ColumnType.i32 index = do
  assert (same_type n.column_type ColumnType.i32)
  v ← value_i32 n.value
  done (match_i32_eq index v)
index_eq n ColumnType.i64 index = do
  assert (same_type n.column_type ColumnType.i64)
  v ← value_i64 n.value
  done (match_i64_eq index v)
index_eq n ColumnType.flt index = do
  assert (same_type n.column_type ColumnType.flt)
  v ← value_flt n.value
  done (match_flt_eq index v)
index_eq n ColumnType.dbl index = do
  assert (same_type n.column_type ColumnType.dbl)
  v ← value_dbl n.value
  done (match_dbl_eq index v)
index_eq n ColumnType.str index = do
  assert (same_type n.column_type ColumnType.str)
  v ← value_str n.value
  done (match_str_eq index (length v))

unfoldable pub index_lt : Node → ColumnType → Index → Outcome IndexMatch
index_lt n ColumnType.bit index = done unknown
index_lt n ColumnType.i32 index = do
  assert (same_type n.column_type ColumnType.i32)
  v ← value_i32 n.value
  done (match_i32_lt index v)
index_lt n ColumnType.i64 index = do
  assert (same_type n.column_type ColumnType.i64)
  v ← value_i64 n.value
  done (match_i64_lt index v)
index_lt n ColumnType.flt index = do
  assert (same_type n.column_type ColumnType.flt)
  v ← value_flt n.value
  done (match_flt_lt index v)
index_lt n ColumnType.dbl index = do
  assert (same_type n.column_type ColumnType.dbl)
  v ← value_dbl n.value
  done (match_dbl_lt index v)
index_lt n ColumnType.str index = done unknown

unfoldable pub index_gt : Node → ColumnType → Index → Outcome IndexMatch
index_gt n ColumnType.bit index = done unknown
index_gt n ColumnType.i32 index = do
  assert (same_type n.column_type ColumnType.i32)
  v ← value_i32 n.value
  done (match_i32_gt index v)
index_gt n ColumnType.i64 index = do
  assert (same_type n.column_type ColumnType.i64)
  v ← value_i64 n.value
  done (match_i64_gt index v)
index_gt n ColumnType.flt index = do
  assert (same_type n.column_type ColumnType.flt)
  v ← value_flt n.value
  done (match_flt_gt index v)
index_gt n ColumnType.dbl index = do
  assert (same_type n.column_type ColumnType.dbl)
  v ← value_dbl n.value
  done (match_dbl_gt index v)
index_gt n ColumnType.str index = done unknown

-- `-result`
abbrev pub opposite : IndexMatch → IndexMatch
opposite nothing = everything
opposite unknown = unknown
opposite everything = nothing

-- `if (operand_match < result) result = operand_match`, and the other way round.
abbrev pub lower : IndexMatch → IndexMatch → IndexMatch
lower nothing m = nothing
lower unknown nothing = nothing
lower unknown m = unknown
lower everything m = m

abbrev pub higher : IndexMatch → IndexMatch → IndexMatch
higher everything m = everything
higher unknown everything = everything
higher unknown m = unknown
higher nothing m = m

abbrev pub is_nothing : IndexMatch → Bool
is_nothing nothing = true
is_nothing _ = false

abbrev pub is_everything : IndexMatch → Bool
is_everything everything = true
is_everything _ = false

-- The `switch` at a leaf. `index` is that of the values.
unfoldable pub index_leaf : RowGroup → Node → ColumnType → Index → Outcome IndexMatch
unfolding index_eq index_lt index_gt
index_leaf row_group n type index = elim n.type [
  | PredicateType.always ↦ done everything
  | PredicateType.null ↦ null_index row_group n.column >>= λ nulls. done (match_bit_eq nulls true)
  | PredicateType.eq ↦ index_eq n type index
  | PredicateType.lt ↦ index_lt n type index
  | PredicateType.gt ↦ index_gt n type index
  | PredicateType.contains ↦ value_str n.value >>= λ v. done (match_str_contains index (length v))
  | PredicateType.custom ↦ elim n.custom.match_index [
    | none ↦ done unknown
    | some f ↦ done (f type index)
  ]
  | PredicateType.and ↦ done unknown
  | PredicateType.or ↦ done unknown
]

abbrev pub signed : Bool → Outcome IndexMatch → Outcome IndexMatch
signed negate m = m >>= λ r. done (if negate then opposite r else r)

unfoldable mutual
  unfolding index_leaf

  pub match_indexes : RowGroup → Predicate → Outcome IndexMatch
  match_indexes row_group (node n ps) =
      let conjunction = index_and row_group ps everything in
      let disjunction = index_or row_group ps nothing in
      if row_count row_group == 0
      then done nothing
      else (column_index row_group n.column >>= λ index. column_type row_group n.column >>= λ type.
          signed n.negate (elim n.type [
            | PredicateType.and ↦ conjunction
            | PredicateType.or ↦ disjunction
            | _ ↦ index_leaf row_group n type index
          ]))

  -- The loop over the operands of AND, which ends once the result is `nothing`.
  pub index_and : RowGroup → Operands → IndexMatch → Outcome IndexMatch
  index_and row_group nil result = done result
  index_and row_group (cons p ps) result =
      let more = match_indexes row_group p >>= λ m. index_and row_group ps (lower result m) in
      if is_nothing result then done result else more

  pub index_or : RowGroup → Operands → IndexMatch → Outcome IndexMatch
  index_or row_group nil result = done result
  index_or row_group (cons p ps) result =
      let more = match_indexes row_group p >>= λ m. index_or row_group ps (higher result m) in
      if is_everything result then done result else more
