-- ===== src/Predicate/Tree.antt =====
-- A predicate as a tree that is evaluated: what a node means is given for the leaves, and the
-- operators join what their operands mean. The answer of the indexes and the cost are two such
-- evaluations.
use mathlib.Core.List.{Permᴰ}
use columnix.Base.{◌≡◌, refl, Bool, true, List, [], ◌∷◌, map, ap, ap₂, ◌∙◌}
use columnix.Predicate.{
  PredicateType, Node, Predicate, Operands, node, nil, cons, to_list, of_list, is_operator,
}

pub record Algebra (V : Type 0) : Type 0 where
  pub leaf : Node → V
  pub conj : V → V → V
  pub disj : V → V → V
  pub top : V
  pub bottom : V
  pub sign : Bool → V → V

-- The value of a leaf, or that of the operands.
abbrev pub pick : {V : Type 0} → PredicateType → V → V → V → V
pick PredicateType.and l c d = c
pick PredicateType.or l c d = d
pick _ l c d = l

module _ {V : Type 0} (alg : Algebra V) where
  unfoldable mutual
    pub tree_value : Predicate → V
    tree_value (node n ps) =
        let all = conj_all ps in
        let any = disj_all ps in alg.sign n.negate (pick n.type (alg.leaf n) all any)

    pub conj_all : Operands → V
    conj_all nil = alg.top
    conj_all (cons p ps) = alg.conj (tree_value p) (conj_all ps)

    pub disj_all : Operands → V
    disj_all nil = alg.bottom
    disj_all (cons p ps) = alg.disj (tree_value p) (disj_all ps)

-- The order of the operands does not count.
pub record IsSymmetric {V : Type 0} (alg : Algebra V) : Type 0 where
  pub conj_swap : (a b c : V) → alg.conj a (alg.conj b c) ≡ alg.conj b (alg.conj a c)
  pub disj_swap : (a b c : V) → alg.disj a (alg.disj b c) ≡ alg.disj b (alg.disj a c)

pub of_list-to_list : (ps : Operands) → of_list (to_list ps) ≡ ps
of_list-to_list nil = refl
of_list-to_list (cons p ps) = ap (cons p) (of_list-to_list ps)

-- Only an operator looks at its operands.
pub pick-eq :
    {V : Type 0} (t : PredicateType) (l c d c' d' : V)
    → (is_operator t ≡ true → (c ≡ c') × (d ≡ d'))
    → pick t l c d ≡ pick t l c' d'
pick-eq PredicateType.and l c d c' d' h = (h refl).0
pick-eq PredicateType.or l c d c' d' h = (h refl).1
pick-eq _ l c d c' d' h = refl

module _ {V : Type 0} {alg : Algebra V} (laws : IsSymmetric alg) where
  pub conj_all-perm :
      {xs ys : List Predicate} → Permᴰ xs ys → conj_all alg (of_list xs) ≡ conj_all alg (of_list ys)
  unfolding tree_value
  conj_all-perm Permᴰ.nil = refl
  conj_all-perm (Permᴰ.cons e p) = ap₂ (λ a r. alg.conj (tree_value alg a) r) e (conj_all-perm p)
  conj_all-perm (Permᴰ.swap {a = a} {b = b} {l = l} e f) =
      laws.conj_swap (tree_value alg a) (tree_value alg b) (conj_all alg (of_list l))
      ∙ ap₂
          (λ x y.
            alg.conj (tree_value alg x) (alg.conj (tree_value alg y) (conj_all alg (of_list l))))
          f e
  conj_all-perm (Permᴰ.trans p q) = conj_all-perm p ∙ conj_all-perm q

  pub disj_all-perm :
      {xs ys : List Predicate} → Permᴰ xs ys → disj_all alg (of_list xs) ≡ disj_all alg (of_list ys)
  unfolding tree_value
  disj_all-perm Permᴰ.nil = refl
  disj_all-perm (Permᴰ.cons e p) = ap₂ (λ a r. alg.disj (tree_value alg a) r) e (disj_all-perm p)
  disj_all-perm (Permᴰ.swap {a = a} {b = b} {l = l} e f) =
      laws.disj_swap (tree_value alg a) (tree_value alg b) (disj_all alg (of_list l))
      ∙ ap₂
          (λ x y.
            alg.disj (tree_value alg x) (alg.disj (tree_value alg y) (disj_all alg (of_list l))))
          f e
  disj_all-perm (Permᴰ.trans p q) = disj_all-perm p ∙ disj_all-perm q

-- Operands may be replaced by others that mean the same.
module _ {V : Type 0} (alg : Algebra V) (g : Predicate → Predicate)
    (same : (p : Predicate) → tree_value alg (g p) ≡ tree_value alg p) where
  pub conj_all-map :
      (xs : List Predicate) → conj_all alg (of_list (map g xs)) ≡ conj_all alg (of_list xs)
  unfolding tree_value
  conj_all-map [] = refl
  conj_all-map (x ∷ xs) = ap₂ alg.conj (same x) (conj_all-map xs)

  pub disj_all-map :
      (xs : List Predicate) → disj_all alg (of_list (map g xs)) ≡ disj_all alg (of_list xs)
  unfolding tree_value
  disj_all-map [] = refl
  disj_all-map (x ∷ xs) = ap₂ alg.disj (same x) (disj_all-map xs)
