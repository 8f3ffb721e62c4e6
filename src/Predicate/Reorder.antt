-- ===== src/Predicate/Reorder.antt =====
-- A predicate that fits a row group still fits after `cx_predicate_optimize`, and the indexes answer
-- the same.
use mathlib.Core.List.{Permᴰ}
use mathlib.Core.Path.{subst}
use columnix.Base.{
  ℕ, zero, suc, ◌≡◌, ◌≢◌, refl, sym, ap, ap₂, ◌∙◌, Bool, true, false, ◌&&◌, List, [], ◌∷◌, map,
  if◌then◌else◌, arith, done,
}
use columnix.RowGroup.{RowGroup, row_count}
use columnix.Predicate.{
  Predicate, Operands, Node, node, to_list, of_list, is_operator, valid, valid_operands,
}
use columnix.Predicate.Indexes.{match_indexes}
use columnix.Predicate.Optimize.{Sort, predicate_cmp, optimize_fuel, optimize, depth}
use columnix.Predicate.Tree.{of_list-to_list}
use columnix.Predicate.Keeps.{Rearranges, optimize-tree_value}
use columnix.Predicate.Answer.{IsTyped, AreTyped, answers-IsSymmetric, match_indexes-eq-tree_value}

and_swap : (a b c : Bool) → (a && (b && c)) ≡ (b && (a && c))
and_swap a b c = ground arith

module _ (row_group : RowGroup) where
  valid_operands-perm :
      {xs ys : List Predicate}
      → Permᴰ xs ys
      → valid_operands row_group (of_list xs) ≡ valid_operands row_group (of_list ys)
  unfolding valid
  valid_operands-perm Permᴰ.nil = refl
  valid_operands-perm (Permᴰ.cons e p) =
      ap₂ (λ a r. valid row_group a && r) e (valid_operands-perm p)
  valid_operands-perm (Permᴰ.swap {a = a} {b = b} {l = l} e f) =
      and_swap (valid row_group a) (valid row_group b) (valid_operands row_group (of_list l))
      ∙ ap₂
          (λ x y. valid row_group x && (valid row_group y && valid_operands row_group (of_list l)))
          f e
  valid_operands-perm (Permᴰ.trans p q) = valid_operands-perm p ∙ valid_operands-perm q

  valid_operands-map :
      (g : Predicate → Predicate)
      → ((p : Predicate) → valid row_group (g p) ≡ valid row_group p)
      → (xs : List Predicate)
      → valid_operands row_group (of_list (map g xs)) ≡ valid_operands row_group (of_list xs)
  unfolding valid
  valid_operands-map g same [] = refl
  valid_operands-map g same (x ∷ xs) = ap₂ ◌&&◌ (same x) (valid_operands-map g same xs)

  -- Only what an operator's operands come to counts.
  valid-node :
      (n : Node) (ps qs : Operands)
      → (is_operator n.type ≡ true → valid_operands row_group ps ≡ valid_operands row_group qs)
      → valid row_group (node n ps) ≡ valid row_group (node n qs)
  unfolding valid
  valid-node n ps qs h = ground arith

AreTyped-perm :
    {xs ys : List Predicate} → Permᴰ xs ys → AreTyped (of_list ys) → AreTyped (of_list xs)
unfolding IsTyped
AreTyped-perm Permᴰ.nil t = t
AreTyped-perm (Permᴰ.cons e p) t = (subst IsTyped (sym e) t.0, AreTyped-perm p t.1)
AreTyped-perm (Permᴰ.swap e f) t = (subst IsTyped (sym e) t.1.0, (subst IsTyped (sym f) t.0, t.1.1))
AreTyped-perm (Permᴰ.trans p q) t = AreTyped-perm p (AreTyped-perm q t)

AreTyped-map :
    (g : Predicate → Predicate)
    → ((p : Predicate) → IsTyped p → IsTyped (g p))
    → (xs : List Predicate) → AreTyped (of_list xs)
    → AreTyped (of_list (map g xs))
unfolding IsTyped
AreTyped-map g keep [] t = t
AreTyped-map g keep (x ∷ xs) t = (keep x t.0, AreTyped-map g keep xs t.1)

module _ (sort : Sort) (qsort : Rearranges sort) (row_group : RowGroup) where
  valid-optimize_fuel :
      (fuel : ℕ) (p : Predicate)
      → valid row_group (optimize_fuel fuel sort row_group p) ≡ valid row_group p
  unfolding optimize_fuel
  valid-optimize_fuel zero p = refl
  valid-optimize_fuel (suc fuel) (node n ps) =
      let g = optimize_fuel fuel sort row_group in
      let sorted = sort (predicate_cmp row_group) (to_list ps) in
      valid-node row_group n _ ps (λ h. rw h (
        valid_operands-map row_group g (valid-optimize_fuel fuel) sorted
        ∙ valid_operands-perm row_group (qsort (predicate_cmp row_group) (to_list ps))
        ∙ ap (valid_operands row_group) (of_list-to_list ps)))

  IsTyped-optimize_fuel :
      (fuel : ℕ) (p : Predicate) → IsTyped p → IsTyped (optimize_fuel fuel sort row_group p)
  unfolding optimize_fuel IsTyped
  IsTyped-optimize_fuel zero p t = t
  IsTyped-optimize_fuel (suc fuel) (node n ps) t =
      let sorted = sort (predicate_cmp row_group) (to_list ps) in
      let kept : AreTyped (of_list sorted) =
        AreTyped-perm (qsort (predicate_cmp row_group) (to_list ps))
          (subst AreTyped (sym (of_list-to_list ps)) t.1) in
      (t.0, chosen (IsTyped-optimize_fuel fuel) (is_operator n.type) sorted kept)
    where
      chosen :
          ((p : Predicate) → IsTyped p → IsTyped (optimize_fuel fuel sort row_group p))
          → (b : Bool) (xs : List Predicate) → AreTyped (of_list xs)
          → AreTyped (of_list (if b then map (optimize_fuel fuel sort row_group) xs else xs))
      chosen keep true xs k = AreTyped-map (optimize_fuel fuel sort row_group) keep xs k
      chosen keep false xs k = k

  -- cx_predicate_optimize, with a qsort_r that rearranges, keeps a predicate valid and well typed,
  -- and the indexes of a row group with rows give the optimised predicate the answer that they
  -- give the original.
  pub match_indexes-optimize :
      (p : Predicate)
      → row_count row_group ≢ 0
      → valid row_group p ≡ true
      → IsTyped p
      → (valid row_group (optimize sort row_group p) ≡ true)
        × IsTyped (optimize sort row_group p)
        × (match_indexes row_group (optimize sort row_group p) ≡ match_indexes row_group p)
  unfolding optimize
  match_indexes-optimize p ne ok typed =
      let still = valid-optimize_fuel (depth p) p ∙ ok in
      let typed' = IsTyped-optimize_fuel (depth p) p typed in
      (
        still,
        typed',
        match_indexes-eq-tree_value row_group (optimize_fuel (depth p) sort row_group p) ne still
              typed'
            ∙ ap done (optimize-tree_value (answers-IsSymmetric row_group) sort qsort row_group p)
            ∙ sym (match_indexes-eq-tree_value row_group p ne ok typed),
      )
