-- ===== src/Predicate/Cheapest.antt =====
-- After `cx_predicate_optimize` the operands of every operator stand in the order of their costs, the
-- cheapest first.
use mathlib.Core.List.{Permᴰ}
use mathlib.Core.Path.{subst}
use columnix.Base.{
  ℕ, ◌+◌, ◌≤◌, ◌≡◌, ◌⊎◌, refl, sym, ap₂, true, List, [], ◌∷◌, if◌then◌else◌, ℤ, pos, ◌≤ℤ◌, ◌%◌, ◌<◌,
  All, arith,
}
use columnix.RowGroup.{RowGroup}
use columnix.Predicate.{
  PredicateType, Predicate, Operands, Node, node, nil, cons, to_list, is_operator,
}
use columnix.Predicate.Optimize.{
  Sort, predicate_cmp, cost, operands_cost, type_cost, custom_cost, int_mod,
}
use columnix.Column.{half32}
use columnix.Predicate.Tree.{Algebra, tree_value, conj_all, disj_all}
use columnix.Predicate.Keeps.{Rearranges}

-- Each element is at most the next.
abbrev pub Ascending : (Predicate → Predicate → ℤ) → List Predicate → Type 0
Ascending cmp [] = Unit
Ascending cmp (x ∷ []) = Unit
Ascending cmp (x ∷ y ∷ l) = (cmp x y ≤ℤ pos 0) × Ascending cmp (y ∷ l)

-- A comparison that orders the elements that are `P`, as `qsort_r` wants.
pub record Orders (P : Predicate → Type 0) (cmp : Predicate → Predicate → ℤ) : Type 0 where
  pub total : (a b : Predicate) → P a → P b → (cmp a b ≤ℤ pos 0) ⊎ (cmp b a ≤ℤ pos 0)
  pub transitive :
      (a b c : Predicate) → P a → P b → P c → cmp a b ≤ℤ pos 0 → cmp b c ≤ℤ pos 0 → cmp a c ≤ℤ pos 0

-- What is asked of `qsort_r`: it rearranges the array into ascending order, if the comparison
-- orders the elements of the array.
pub record Sorts (sort : Sort) : Type 1 where
  pub permutes : Rearranges sort
  pub ascends :
      (P : Predicate → Type 0) (cmp : Predicate → Predicate → ℤ) (l : List Predicate)
      → Orders P cmp
      → All P l
      → Ascending cmp (sort cmp l)

-- The cost as an evaluation of the tree.
unfoldable pub leaf_cost : RowGroup → Node → ℕ
unfolding cost
leaf_cost row_group n = elim n.type [
  | PredicateType.always ↦ 0
  | PredicateType.null ↦ 1
  | PredicateType.and ↦ 0
  | PredicateType.or ↦ 0
  | PredicateType.custom ↦ custom_cost n.custom.cost (type_cost row_group n)
  | _ ↦ type_cost row_group n
]

abbrev pub costs : RowGroup → Algebra ℕ
costs row_group = record {
  leaf = leaf_cost row_group;
  conj = λ a b. (a + b) % int_mod;
  disj = λ a b. (a + b) % int_mod;
  top = 0;
  bottom = 0;
  sign = λ _ v. v;
}

mutual
  unfolding cost tree_value leaf_cost

  cost-eq-tree_value :
      (p : Predicate) (row_group : RowGroup) → cost row_group p ≡ tree_value (costs row_group) p
  cost-eq-tree_value (node n ps) row_group =
      ground (arith, operands_cost-eq_conj ps row_group, operands_cost-eq_disj ps row_group)

  operands_cost-eq_conj :
      (ps : Operands) (row_group : RowGroup)
      → operands_cost row_group ps ≡ conj_all (costs row_group) ps
  operands_cost-eq_conj nil row_group = refl
  operands_cost-eq_conj (cons p ps) row_group =
      ap₂ (λ a b. (a + b) % int_mod) (cost-eq-tree_value p row_group)
        (operands_cost-eq_conj ps row_group)

  operands_cost-eq_disj :
      (ps : Operands) (row_group : RowGroup)
      → operands_cost row_group ps ≡ disj_all (costs row_group) ps
  operands_cost-eq_disj nil row_group = refl
  operands_cost-eq_disj (cons p ps) row_group =
      ap₂ (λ a b. (a + b) % int_mod) (cost-eq-tree_value p row_group)
        (operands_cost-eq_disj ps row_group)

-- A cost that is no negative number.
abbrev Positive : RowGroup → Predicate → Type 0
Positive row_group p = cost row_group p < half32

-- The sum of the costs that does not wrap.
unfoldable mutual
  pub total_cost : RowGroup → Predicate → ℕ
  total_cost row_group (node n ps) =
      let inner = operands_total row_group ps in
      if is_operator n.type then inner else leaf_cost row_group n

  pub operands_total : RowGroup → Operands → ℕ
  operands_total row_group nil = 0
  operands_total row_group (cons p ps) = total_cost row_group p + operands_total row_group ps

-- At no node do the costs of the operands sum to more than the largest `int`.
unfoldable mutual
  pub FitsInt : RowGroup → Predicate → Type 0
  FitsInt row_group (node n ps) = (operands_total row_group ps < half32) × AllFitInt row_group ps

  pub AllFitInt : RowGroup → Operands → Type 0
  AllFitInt row_group nil = Unit
  AllFitInt row_group (cons p ps) = FitsInt row_group p × AllFitInt row_group ps

mutual
  unfolding cost leaf_cost total_cost

  cost-le_total : (p : Predicate) (row_group : RowGroup) → cost row_group p ≤ total_cost row_group p
  cost-le_total (node n ps) row_group = ground (arith, operands_cost-le_total ps row_group)

  operands_cost-le_total :
      (ps : Operands) (row_group : RowGroup)
      → operands_cost row_group ps ≤ operands_total row_group ps
  operands_cost-le_total nil row_group = omega arith
  operands_cost-le_total (cons p ps) row_group =
      omega (arith, cost-le_total p row_group, operands_cost-le_total ps row_group)

-- The operands of each operator ascend, at every level.
mutual
  pub CheapestFirst : RowGroup → Predicate → Type 0
  CheapestFirst row_group (node n ps) =
      Ascending (predicate_cmp row_group) (to_list ps)
      × (is_operator n.type ≡ true → AllCheapestFirst row_group ps)

  pub AllCheapestFirst : RowGroup → Operands → Type 0
  AllCheapestFirst row_group nil = Unit
  AllCheapestFirst row_group (cons p ps) = CheapestFirst row_group p × AllCheapestFirst row_group ps

pub All-perm : (P : Predicate → Type 0) {xs ys : List Predicate} → Permᴰ xs ys → All P ys → All P xs
All-perm P Permᴰ.nil t = t
All-perm P (Permᴰ.cons e p) t = (subst P (sym e) t.0, All-perm P p t.1)
All-perm P (Permᴰ.swap e f) t = (subst P (sym e) t.1.0, (subst P (sym f) t.0, t.1.1))
All-perm P (Permᴰ.trans p q) t = All-perm P p (All-perm P q t)
