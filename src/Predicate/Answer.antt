-- ===== src/Predicate/Answer.antt =====
-- The answer of the indexes as an evaluation of the tree: on a predicate that `cx_predicate_valid`
-- accepts no assertion fails, and where the loops over the operands end does not matter.
use columnix.Base.{
  ◌≡◌, ◌≢◌, refl, Bool, true, false, ◌&&◌, none, some, get_elem?, if◌then◌else◌, Outcome, done,
  failed, aborted, arith, Option-cases, inl, inr,
}
use columnix.Common.{value_type}
use columnix.Index.{Index}
use columnix.Index.Match.{IndexMatch, nothing, unknown, everything}
use columnix.RowGroup.{RowGroup, RowGroupColumn, row_count, column_type, column_index, null_index}
use columnix.Predicate.{
  PredicateType, Node, Predicate, Operands, node, nil, cons, valid, valid_operands, valid_leaf,
  is_operator,
}
use columnix.Predicate.Indexes.{
  index_leaf, opposite, lower, higher, match_indexes, index_and, index_or,
}
use columnix.Predicate.Tree.{Algebra, IsSymmetric, tree_value, conj_all, disj_all}

abbrev pub compares : PredicateType → Bool
compares PredicateType.eq = true
compares PredicateType.lt = true
compares PredicateType.gt = true
compares PredicateType.contains = true
compares _ = false

-- A comparison holds a value of its own column type, as the functions that build one see to.
unfoldable mutual
  pub IsTyped : Predicate → Type 0
  IsTyped (node n ps) = (compares n.type ≡ true → value_type n.value ≡ n.column_type) × AreTyped ps

  pub AreTyped : Operands → Type 0
  AreTyped nil = Unit
  AreTyped (cons p ps) = IsTyped p × AreTyped ps

abbrev pub result_or : {A : Type 0} → A → Outcome A → A
result_or d (done r) = r
result_or d _ = d

abbrev pub is_done : {A : Type 0} → Outcome A → Bool
is_done (done r) = true
is_done _ = false

pub done_result : {A : Type 0} (d : A) (m : Outcome A) → is_done m ≡ true → m ≡ done (result_or d m)
done_result d (done r) h = refl
done_result d failed h = ground arith
done_result d aborted h = ground arith

-- What the indexes of a column say of a leaf.
unfoldable pub leaf_answer : RowGroup → Node → IndexMatch
leaf_answer row_group n = elim (get_elem? row_group.columns n.column) [
  | none ↦ unknown
  | some column ↦ result_or unknown (index_leaf row_group n column.type column.values.index)
]

abbrev pub answers : RowGroup → Algebra IndexMatch
answers row_group = record {
  leaf = leaf_answer row_group;
  conj = lower;
  disj = higher;
  top = everything;
  bottom = nothing;
  sign = λ negate m. if negate then opposite m else m;
}

lower_swap : (a b c : IndexMatch) → lower a (lower b c) ≡ lower b (lower a c)
lower_swap a b c = ground arith

higher_swap : (a b c : IndexMatch) → higher a (higher b c) ≡ higher b (higher a c)
higher_swap a b c = ground arith

pub answers-IsSymmetric : (row_group : RowGroup) → IsSymmetric (answers row_group)
answers-IsSymmetric row_group = record { conj_swap = lower_swap; disj_swap = higher_swap }

index_leaf-done :
    (row_group : RowGroup) (n : Node) (column : RowGroupColumn) (index : Index)
    → get_elem? row_group.columns n.column ≡ some column
    → valid_leaf n column.type ≡ true
    → (compares n.type ≡ true → value_type n.value ≡ n.column_type)
    → is_done (index_leaf row_group n column.type index) ≡ true
unfolding index_leaf valid_leaf null_index
index_leaf-done row_group n column index found ok typed = ground arith

-- The column of a node, once it is found.
module _ (row_group : RowGroup) (n : Node) (ps : Operands) (column : RowGroupColumn)
    (found : get_elem? row_group.columns n.column ≡ some column) where
  column_index-found : column_index row_group n.column ≡ done column.values.index
  unfolding column_index
  column_index-found = ground arith

  column_type-found : column_type row_group n.column ≡ done column.type
  unfolding column_type
  column_type-found = ground arith

  leaf_answer-found :
      leaf_answer row_group n
      ≡ result_or unknown (index_leaf row_group n column.type column.values.index)
  unfolding leaf_answer
  leaf_answer-found = ground arith

  valid-found : valid row_group (node n ps) ≡ (
      valid_leaf n column.type
      && (if is_operator n.type then valid_operands row_group ps else true))
  unfolding valid
  valid-found = ground arith

valid-missing :
    (row_group : RowGroup) (n : Node) (ps : Operands)
    → get_elem? row_group.columns n.column ≡ none
    → valid row_group (node n ps) ≡ false
unfolding valid
valid-missing row_group n ps missing = ground arith

-- One node, with the operands already answered.
match_indexes-node :
    (row_group : RowGroup) (n : Node) (ps : Operands) (column : RowGroupColumn)
    → get_elem? row_group.columns n.column ≡ some column
    → row_count row_group ≢ 0
    → valid_leaf n column.type ≡ true
    → (compares n.type ≡ true → value_type n.value ≡ n.column_type)
    → (is_operator n.type ≡ true
        → (index_and row_group ps everything ≡ done (conj_all (answers row_group) ps))
          × (index_or row_group ps nothing ≡ done (disj_all (answers row_group) ps)))
    → match_indexes row_group (node n ps) ≡ done (tree_value (answers row_group) (node n ps))
unfolding match_indexes tree_value
match_indexes-node row_group n ps column found ne ok typed inner = ground (
  arith,
  column_index-found row_group n ps column found,
  column_type-found row_group n ps column found,
  leaf_answer-found row_group n ps column found,
  done_result unknown (index_leaf row_group n column.type column.values.index),
  index_leaf-done row_group n column column.values.index found ok typed,
)

node_parts :
    (row_group : RowGroup) (n : Node) (ps : Operands) (column : RowGroupColumn)
    → get_elem? row_group.columns n.column ≡ some column
    → valid row_group (node n ps) ≡ true
    → (valid_leaf n column.type ≡ true)
      × (is_operator n.type ≡ true → valid_operands row_group ps ≡ true)
node_parts row_group n ps column found ok = (
  ground (arith, valid-found row_group n ps column found),
  λ h. ground (arith, valid-found row_group n ps column found),
)

mutual
  unfolding match_indexes valid tree_value IsTyped

  match_indexes-tree :
      (p : Predicate) (row_group : RowGroup)
      → row_count row_group ≢ 0
      → valid row_group p ≡ true
      → IsTyped p
      → match_indexes row_group p ≡ done (tree_value (answers row_group) p)
  match_indexes-tree (node n ps) row_group ne ok typed =
      elim (Option-cases (get_elem? row_group.columns n.column)) [
        | inl missing ↦ absurd (cc (valid-missing row_group n ps missing, ok))
        | inr (column, found) ↦
            let parts = node_parts row_group n ps column found ok in
            match_indexes-node row_group n ps column found ne parts.0 typed.0 (λ h. (
              index_and-tree ps row_group everything ne (parts.1 h) typed.1,
              index_or-tree ps row_group nothing ne (parts.1 h) typed.1,
            ))
      ]

  index_and-tree :
      (ps : Operands) (row_group : RowGroup) (r : IndexMatch)
      → row_count row_group ≢ 0
      → valid_operands row_group ps ≡ true
      → AreTyped ps
      → index_and row_group ps r ≡ done (lower r (conj_all (answers row_group) ps))
  index_and-tree nil row_group r ne ok typed = ground arith
  index_and-tree (cons p ps) row_group r ne ok typed = ground (
    arith,
    match_indexes-tree p row_group ne,
    index_and-tree ps row_group (lower r (tree_value (answers row_group) p)) ne,
  )

  index_or-tree :
      (ps : Operands) (row_group : RowGroup) (r : IndexMatch)
      → row_count row_group ≢ 0
      → valid_operands row_group ps ≡ true
      → AreTyped ps
      → index_or row_group ps r ≡ done (higher r (disj_all (answers row_group) ps))
  index_or-tree nil row_group r ne ok typed = ground arith
  index_or-tree (cons p ps) row_group r ne ok typed = ground (
    arith,
    match_indexes-tree p row_group ne,
    index_or-tree ps row_group (higher r (tree_value (answers row_group) p)) ne,
  )

-- On a predicate that `cx_predicate_valid` accepts and whose comparisons hold values of their own
-- column types, `cx_index_match_indexes` meets no failed assertion in a row group that has rows, and
-- its answer is the evaluation of the whole tree: stopping early changes nothing.
pub match_indexes-eq-tree_value :
    (row_group : RowGroup) (p : Predicate)
    → row_count row_group ≢ 0
    → valid row_group p ≡ true
    → IsTyped p
    → match_indexes row_group p ≡ done (tree_value (answers row_group) p)
match_indexes-eq-tree_value row_group p ne ok typed = match_indexes-tree p row_group ne ok typed
