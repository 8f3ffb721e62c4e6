-- ===== src/Match/Str.antt =====
-- lib/match.c: the comparisons of strings, without SSE 4.2. A `struct cx_string` is the list of
-- its bytes, none of which is NUL; its `len` is the list's length.
use Prim.Native.Nat.{compare, Ordering}
use columnix.Base.{
  ℕ, zero, suc, ◌+◌, ◌-◌, Bool, true, false, ◌&&◌, ◌||◌, not, List, [], ◌∷◌, map, ltb, leb, ◌==◌,
  if◌then◌else◌, length, drop,
}

-- `memcmp(a, b, n) == 0`, and `strncmp(a, b, n) == 0` where a string ends within `n` bytes.
abbrev pub same_bytes : ℕ → List ℕ → List ℕ → Bool
same_bytes zero a b = true
same_bytes (suc n) [] [] = true
same_bytes (suc n) [] (y ∷ ys) = false
same_bytes (suc n) (x ∷ xs) [] = false
same_bytes (suc n) (x ∷ xs) (y ∷ ys) = x == y && same_bytes n xs ys

-- The sign of `strcmp`: the first byte that differs decides, and the NUL comes before all.
abbrev pub strcmp : List ℕ → List ℕ → Ordering
strcmp [] [] = Ordering.eq
strcmp [] (y ∷ ys) = Ordering.lt
strcmp (x ∷ xs) [] = Ordering.gt
strcmp (x ∷ xs) (y ∷ ys) = elim (compare x y) [
  | Ordering.lt ↦ Ordering.lt
  | Ordering.gt ↦ Ordering.gt
  | Ordering.eq ↦ strcmp xs ys
]

abbrev pub is_lt : Ordering → Bool
is_lt Ordering.lt = true
is_lt _ = false

abbrev pub is_gt : Ordering → Bool
is_gt Ordering.gt = true
is_gt _ = false

abbrev pub is_eq : Ordering → Bool
is_eq Ordering.eq = true
is_eq _ = false

-- `tolower` in the C locale.
abbrev pub to_lower : ℕ → ℕ
to_lower c = if leb b'A' c && leb c b'Z' then c + 32 else c

abbrev pub lowered : List ℕ → List ℕ
lowered = map to_lower

-- `strcasecmp`
abbrev pub strcasecmp : List ℕ → List ℕ → Ordering
strcasecmp a b = strcmp (lowered a) (lowered b)

-- `strstr(hay, needle) != NULL`
abbrev pub strstr : List ℕ → List ℕ → Bool
strstr [] needle = same_bytes (length needle) [] needle
strstr (x ∷ xs) needle = same_bytes (length needle) (x ∷ xs) needle || strstr xs needle

unfoldable pub str_eq : List ℕ → List ℕ → Bool
str_eq str cmp = if not (length str == length cmp) then false else same_bytes (length str) str cmp

unfoldable pub str_eq_ci : List ℕ → List ℕ → Bool
str_eq_ci str cmp = length str == length cmp && is_eq (strcasecmp str cmp)

unfoldable pub str_contains_any : List ℕ → List ℕ → Bool
str_contains_any str cmp = if ltb (length str) (length cmp) then false else strstr str cmp

unfoldable pub str_contains_any_ci : List ℕ → List ℕ → Bool
str_contains_any_ci str cmp = leb (length cmp) (length str) && strstr (lowered str) (lowered cmp)

unfoldable pub str_contains_start : List ℕ → List ℕ → Bool
str_contains_start str cmp =
    if ltb (length str) (length cmp) then false else same_bytes (length cmp) str cmp

unfoldable pub str_contains_start_ci : List ℕ → List ℕ → Bool
str_contains_start_ci str cmp =
    leb (length cmp) (length str) && same_bytes (length cmp) (lowered str) (lowered cmp)

unfoldable pub str_contains_end : List ℕ → List ℕ → Bool
str_contains_end str cmp =
    if ltb (length str) (length cmp)
    then false
    else same_bytes (length cmp) (drop (length str - length cmp) str) cmp

unfoldable pub str_contains_end_ci : List ℕ → List ℕ → Bool
str_contains_end_ci str cmp =
    leb (length cmp) (length str)
    && same_bytes (length cmp) (lowered (drop (length str - length cmp) str)) (lowered cmp)

unfoldable pub str_lt : List ℕ → List ℕ → Bool
str_lt str cmp = is_lt (strcmp str cmp)

unfoldable pub str_gt : List ℕ → List ℕ → Bool
str_gt str cmp = is_gt (strcmp str cmp)

unfoldable pub str_lt_ci : List ℕ → List ℕ → Bool
str_lt_ci str cmp = is_lt (strcasecmp str cmp)

unfoldable pub str_gt_ci : List ℕ → List ℕ → Bool
str_gt_ci str cmp = is_gt (strcasecmp str cmp)
