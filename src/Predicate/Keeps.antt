-- ===== src/Predicate/Keeps.antt =====
-- `cx_predicate_optimize` changes the order of operands and nothing that a predicate means.
use mathlib.Core.List.{Permᴰ}
use columnix.Base.{ℕ, zero, suc, ◌≡◌, refl, List, ap, ◌∙◌, ℤ}
use columnix.RowGroup.{RowGroup}
use columnix.Predicate.{Predicate, node, to_list}
use columnix.Predicate.Optimize.{Sort, predicate_cmp, optimize_fuel, optimize, depth}
use columnix.Predicate.Tree.{
  Algebra, IsSymmetric, tree_value, conj_all, disj_all, pick-eq, conj_all-perm, disj_all-perm,
  conj_all-map, disj_all-map, of_list-to_list,
}

-- What is asked of `qsort_r`: it rearranges the array.
abbrev pub Rearranges : Sort → Type 0
Rearranges sort = (cmp : Predicate → Predicate → ℤ) (l : List Predicate) → Permᴰ (sort cmp l) l

module _ {V : Type 0} {alg : Algebra V} (laws : IsSymmetric alg) (sort : Sort)
    (qsort : Rearranges sort) (row_group : RowGroup) where
  pub optimize_fuel-tree_value :
      (fuel : ℕ) (p : Predicate)
      → tree_value alg (optimize_fuel fuel sort row_group p) ≡ tree_value alg p
  unfolding optimize_fuel tree_value
  optimize_fuel-tree_value zero p = refl
  optimize_fuel-tree_value (suc fuel) (node n ps) =
      let g = optimize_fuel fuel sort row_group in
      let sorted = sort (predicate_cmp row_group) (to_list ps) in
      let perm = qsort (predicate_cmp row_group) (to_list ps) in
      ap (alg.sign n.negate) (
        pick-eq n.type (alg.leaf n) _ _ _ _ (λ h. rw h (
          conj_all-map alg g (optimize_fuel-tree_value fuel) sorted
              ∙ conj_all-perm laws perm
              ∙ ap (conj_all alg) (of_list-to_list ps),
          disj_all-map alg g (optimize_fuel-tree_value fuel) sorted
              ∙ disj_all-perm laws perm
              ∙ ap (disj_all alg) (of_list-to_list ps),
        )))

  -- Whatever a predicate is evaluated to, by an evaluation in which the order of the operands of AND
  -- and OR does not count, `cx_predicate_optimize`, with a `qsort_r` that rearranges, gives a
  -- predicate that is evaluated to the same.
  pub optimize-tree_value :
      (p : Predicate) → tree_value alg (optimize sort row_group p) ≡ tree_value alg p
  unfolding optimize
  optimize-tree_value p = optimize_fuel-tree_value (depth p) p
