-- ===== src/Tests/Sort.antt =====
-- A sort that does what is asked of `qsort_r`: insertion.
use mathlib.Core.List.{Permᴰ}
use mathlib.Core.List.Permᴰ
use columnix.Base.{refl, Bool, true, false, List, [], ◌∷◌, if◌then◌else◌, ℤ, pos, ltb_ℤ, All, arith}
use columnix.Predicate.{Predicate}
use columnix.Predicate.Keeps.{Rearranges}
use columnix.Predicate.Cheapest.{All-perm, Ascending, Orders, Sorts}

abbrev pub insert : (Predicate → Predicate → ℤ) → Predicate → List Predicate → List Predicate
insert cmp x [] = x ∷ []
insert cmp x (y ∷ l) =
    let later = y ∷ insert cmp x l in if ltb_ℤ (pos 0) (cmp x y) then later else x ∷ y ∷ l

abbrev pub insertion_sort : (Predicate → Predicate → ℤ) → List Predicate → List Predicate
insertion_sort cmp [] = []
insertion_sort cmp (x ∷ l) = insert cmp x (insertion_sort cmp l)

insert-perm :
    (cmp : Predicate → Predicate → ℤ) (x : Predicate) (l : List Predicate)
    → Permᴰ (insert cmp x l) (x ∷ l)
insert-perm cmp x [] = Permᴰ.refl (x ∷ [])
insert-perm cmp x (y ∷ l) = chosen (insert-perm cmp x l) (ltb_ℤ (pos 0) (cmp x y))
  where
    chosen :
        Permᴰ (insert cmp x l) (x ∷ l)
        → (b : Bool) → Permᴰ (if b then y ∷ insert cmp x l else x ∷ y ∷ l) (x ∷ y ∷ l)
    chosen rest true = Permᴰ.trans (Permᴰ.cons refl rest) (Permᴰ.swap refl refl)
    chosen rest false = Permᴰ.refl (x ∷ y ∷ l)

pub insertion_sort-perm : Rearranges insertion_sort
insertion_sort-perm cmp [] = Permᴰ.nil
insertion_sort-perm cmp (x ∷ l) =
    Permᴰ.trans (insert-perm cmp x (insertion_sort cmp l))
      (Permᴰ.cons refl (insertion_sort-perm cmp l))

module _ (P : Predicate → Type 0) (cmp : Predicate → Predicate → ℤ) (order : Orders P cmp) where
  insert-Ascending :
      (x : Predicate) (l : List Predicate)
      → P x
      → All P l
      → Ascending cmp l
      → Ascending cmp (insert cmp x l)
  insert-Ascending x [] p h a = tt
  insert-Ascending x (y ∷ []) p h a = ground (arith, order.total x y p h.0)
  insert-Ascending x (y ∷ z ∷ l) p h a =
      ground
        (arith, order.total x y p h.0, order.total x z p h.1.0, insert-Ascending x (z ∷ l) p h.1)

  insertion_sort-Ascending : (l : List Predicate) → All P l → Ascending cmp (insertion_sort cmp l)
  insertion_sort-Ascending [] h = tt
  insertion_sort-Ascending (x ∷ l) h =
      insert-Ascending x (insertion_sort cmp l) h.0 (All-perm P (insertion_sort-perm cmp l) h.1)
        (insertion_sort-Ascending l h.1)

pub insertion_sort-Sorts : Sorts insertion_sort
insertion_sort-Sorts = record {
  permutes = insertion_sort-perm;
  ascends = λ P cmp l order h. insertion_sort-Ascending P cmp order l h;
}
