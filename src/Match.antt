-- ===== src/Match.antt =====
-- lib/match.c, the scalar build (no CX_AVX*, no CX_SSE42): a batch of at most 64 values is compared
-- with one value, and the mask has bit `i` set where the value at `i` matches.
pub mod Str
pub mod Mask
pub mod Substring
use columnix.Base.{
  ℕ, suc, ◌^◌, Bool, List, [], ◌∷◌, leb, if◌then◌else◌, length, ℤ, bit_or, Outcome, done, ◌>>=◌,
  ◌>>◌, assert,
}
use columnix.Scalar
use columnix.Scalar.{lt, gt, eq}
use columnix.Common.{StrLocation, start, finish, any}
use columnix.Match.Str.{
  str_eq, str_eq_ci, str_lt, str_lt_ci, str_gt, str_gt_ci, str_contains_any, str_contains_any_ci,
  str_contains_start, str_contains_start_ci, str_contains_end, str_contains_end_ci,
}

-- The loop `for (i …) if (test(batch[i])) mask |= (uint64_t)1 << i`, from index `i` on.
unfoldable pub scan : {A : Type 0} → (A → Bool) → ℕ → ℕ → List A → ℕ
scan test i mask [] = mask
scan test i mask (v ∷ vs) = scan test (suc i) (if test v then bit_or mask (2 ^ i) else mask) vs

unfoldable pub match_naive : {A : Type 0} → (A → Bool) → List A → Outcome ℕ
unfolding scan
match_naive test batch = do assert (leb (length batch) 64); done (scan test 0 0 batch)

unfoldable pub match_i32_eq : List ℤ → ℤ → Outcome ℕ
unfolding match_naive
match_i32_eq batch cmp = match_naive (λ v. eq Scalar.i32 v cmp) batch

unfoldable pub match_i32_lt : List ℤ → ℤ → Outcome ℕ
unfolding match_naive
match_i32_lt batch cmp = match_naive (λ v. lt Scalar.i32 v cmp) batch

unfoldable pub match_i32_gt : List ℤ → ℤ → Outcome ℕ
unfolding match_naive
match_i32_gt batch cmp = match_naive (λ v. gt Scalar.i32 v cmp) batch

unfoldable pub match_i64_eq : List ℤ → ℤ → Outcome ℕ
unfolding match_naive
match_i64_eq batch cmp = match_naive (λ v. eq Scalar.i64 v cmp) batch

unfoldable pub match_i64_lt : List ℤ → ℤ → Outcome ℕ
unfolding match_naive
match_i64_lt batch cmp = match_naive (λ v. lt Scalar.i64 v cmp) batch

unfoldable pub match_i64_gt : List ℤ → ℤ → Outcome ℕ
unfolding match_naive
match_i64_gt batch cmp = match_naive (λ v. gt Scalar.i64 v cmp) batch

unfoldable pub match_flt_eq : List ℕ → ℕ → Outcome ℕ
unfolding match_naive
match_flt_eq batch cmp = match_naive (λ v. eq Scalar.flt v cmp) batch

unfoldable pub match_flt_lt : List ℕ → ℕ → Outcome ℕ
unfolding match_naive
match_flt_lt batch cmp = match_naive (λ v. lt Scalar.flt v cmp) batch

unfoldable pub match_flt_gt : List ℕ → ℕ → Outcome ℕ
unfolding match_naive
match_flt_gt batch cmp = match_naive (λ v. gt Scalar.flt v cmp) batch

unfoldable pub match_dbl_eq : List ℕ → ℕ → Outcome ℕ
unfolding match_naive
match_dbl_eq batch cmp = match_naive (λ v. eq Scalar.dbl v cmp) batch

unfoldable pub match_dbl_lt : List ℕ → ℕ → Outcome ℕ
unfolding match_naive
match_dbl_lt batch cmp = match_naive (λ v. lt Scalar.dbl v cmp) batch

unfoldable pub match_dbl_gt : List ℕ → ℕ → Outcome ℕ
unfolding match_naive
match_dbl_gt batch cmp = match_naive (λ v. gt Scalar.dbl v cmp) batch

-- CX_STR_MATCH: the test of the case-sensitive comparison, or of the other.
unfoldable pub match_str : (List ℕ → Bool) → (List ℕ → Bool) → Bool → List (List ℕ) → Outcome ℕ
unfolding match_naive
match_str sensitive insensitive case_sensitive strings =
    match_naive (if case_sensitive then sensitive else insensitive) strings

unfoldable pub match_str_eq : List (List ℕ) → List ℕ → Bool → Outcome ℕ
unfolding match_str
match_str_eq strings cmp case_sensitive =
    match_str (λ s. str_eq s cmp) (λ s. str_eq_ci s cmp) case_sensitive strings

unfoldable pub match_str_lt : List (List ℕ) → List ℕ → Bool → Outcome ℕ
unfolding match_str
match_str_lt strings cmp case_sensitive =
    match_str (λ s. str_lt s cmp) (λ s. str_lt_ci s cmp) case_sensitive strings

unfoldable pub match_str_gt : List (List ℕ) → List ℕ → Bool → Outcome ℕ
unfolding match_str
match_str_gt strings cmp case_sensitive =
    match_str (λ s. str_gt s cmp) (λ s. str_gt_ci s cmp) case_sensitive strings

unfoldable pub match_str_contains : List (List ℕ) → List ℕ → Bool → StrLocation → Outcome ℕ
unfolding match_str
match_str_contains strings cmp case_sensitive start =
    match_str (λ s. str_contains_start s cmp) (λ s. str_contains_start_ci s cmp) case_sensitive
      strings
match_str_contains strings cmp case_sensitive finish =
    match_str (λ s. str_contains_end s cmp) (λ s. str_contains_end_ci s cmp) case_sensitive strings
match_str_contains strings cmp case_sensitive any =
    match_str (λ s. str_contains_any s cmp) (λ s. str_contains_any_ci s cmp) case_sensitive strings
