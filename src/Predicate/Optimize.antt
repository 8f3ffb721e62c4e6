-- ===== src/Predicate/Optimize.antt =====
-- lib/predicate.c: the cost of a predicate, and the sorting of operands by cost. `qsort_r` is a
-- parameter, a function of the comparison and the array. A cost, an `int`, is its 32 bits, whose
-- sums and differences wrap.
use columnix.Base.{
  ℕ, zero, suc, ◌+◌, ◌-◌, ◌%◌, List, map, none, some, ltb, if◌then◌else◌, get_elem?, ℤ, pos, negsuc,
  to_signed,
}
use columnix.Common.{ColumnType}
use columnix.Column.{half32}
use columnix.RowGroup.{RowGroup}
use columnix.Predicate.{
  PredicateType, Node, Predicate, Operands, node, nil, cons, to_list, of_list, is_operator,
}

-- 2^32, the number of values of an `int`.
abbrev pub int_mod : ℕ
int_mod = 4294967296

unfoldable pub column_cost : ColumnType → ℕ
column_cost ColumnType.bit = 1
column_cost ColumnType.i32 = 8
column_cost ColumnType.flt = 8
column_cost ColumnType.i64 = 16
column_cost ColumnType.dbl = 16
column_cost ColumnType.str = 128

-- The cost of the type of the node's column, which a valid predicate has.
abbrev pub type_cost : RowGroup → Node → ℕ
type_cost row_group n = elim (get_elem? row_group.columns n.column) [
  | none ↦ 0
  | some column ↦ column_cost column.type
]

abbrev pub custom_cost : ℤ → ℕ → ℕ
custom_cost (pos cost) other = cost
custom_cost (negsuc _) other = other

unfoldable mutual
  unfolding column_cost

  pub cost : RowGroup → Predicate → ℕ
  cost row_group (node n ps) =
      let inner = operands_cost row_group ps in
      elim n.type [
        | PredicateType.always ↦ 0
        | PredicateType.null ↦ column_cost ColumnType.bit
        | PredicateType.and ↦ inner
        | PredicateType.or ↦ inner
        | PredicateType.custom ↦ custom_cost n.custom.cost (type_cost row_group n)
        | _ ↦ type_cost row_group n
      ]

  pub operands_cost : RowGroup → Operands → ℕ
  operands_cost row_group nil = 0
  operands_cost row_group (cons p ps) = (cost row_group p + operands_cost row_group ps) % int_mod

-- `cx_predicate_cmp`: a difference, whose sign `qsort_r` looks at.
unfoldable pub predicate_cmp : RowGroup → Predicate → Predicate → ℤ
unfolding cost
predicate_cmp row_group a b =
    let x = cost row_group a in
    let y = cost row_group b in to_signed half32 ((x + int_mod - y) % int_mod)

abbrev pub Sort : Type 0
Sort = (Predicate → Predicate → ℤ) → List Predicate → List Predicate

-- How deep a predicate is.
unfoldable mutual
  pub depth : Predicate → ℕ
  depth (node n ps) = suc (operands_depth ps)

  pub operands_depth : Operands → ℕ
  operands_depth nil = 0
  operands_depth (cons p ps) =
      let d = depth p in let e = operands_depth ps in if ltb d e then e else d

-- `cx_predicate_optimize`, with fuel for the levels of the tree.
unfoldable pub optimize_fuel : ℕ → Sort → RowGroup → Predicate → Predicate
unfolding predicate_cmp
optimize_fuel zero sort row_group p = p
optimize_fuel (suc fuel) sort row_group (node n ps) =
    let sorted = sort (predicate_cmp row_group) (to_list ps) in
    let inner = map (optimize_fuel fuel sort row_group) sorted in
    node n (of_list (if is_operator n.type then inner else sorted))

unfoldable pub optimize : Sort → RowGroup → Predicate → Predicate
unfolding optimize_fuel depth
optimize sort row_group p = optimize_fuel (depth p) sort row_group p
