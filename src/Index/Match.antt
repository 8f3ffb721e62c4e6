-- ===== src/Index/Match.antt =====
-- lib/index.c: `cx_index_match_*`, what an index says of a comparison with every value of a column.
use columnix.Base.{ℕ, Bool, ◌&&◌, ◌||◌, not, ltb, if◌then◌else◌, ℤ}
use columnix.Scalar
use columnix.Scalar.{Scalar, lt, gt, le, ge, eq}
use columnix.Index.{Index, get_bit}

-- CX_INDEX_MATCH_NONE = -1, CX_INDEX_MATCH_UNKNOWN = 0, CX_INDEX_MATCH_ALL = 1.
pub data IndexMatch : Type 0 where
  nothing unknown everything : IndexMatch

unfoldable pub match_bit_eq : Index → Bool → IndexMatch
match_bit_eq index value =
    if get_bit index.min && get_bit index.max
    then (if value then everything else nothing)
    else (if not (get_bit index.min) && not (get_bit index.max)
        then (if value then nothing else everything)
        else unknown)

module _ {A : Type 0} (s : Scalar A) where
  unfoldable pub match_eq : Index → A → IndexMatch
  match_eq index value =
      let low = s.get index.min in
      let high = s.get index.max in
      if gt s low value || lt s high value
      then nothing
      else (if eq s low value && eq s high value then everything else unknown)

  unfoldable pub match_lt : Index → A → IndexMatch
  match_lt index value =
      if ge s (s.get index.min) value
      then nothing
      else (if lt s (s.get index.max) value then everything else unknown)

  unfoldable pub match_gt : Index → A → IndexMatch
  match_gt index value =
      if gt s (s.get index.min) value
      then everything
      else (if le s (s.get index.max) value then nothing else unknown)

-- The argument is the length of the string that is compared with.
unfoldable pub match_str_eq : Index → ℕ → IndexMatch
match_str_eq index length =
    let low = Scalar.len.get index.min in
    let high = Scalar.len.get index.max in
    if ltb length low || ltb high length then nothing else unknown

unfoldable pub match_str_contains : Index → ℕ → IndexMatch
match_str_contains index length = if ltb (Scalar.len.get index.max) length then nothing else unknown

unfoldable pub match_i32_eq : Index → ℤ → IndexMatch
unfolding match_eq
match_i32_eq = match_eq Scalar.i32

unfoldable pub match_i32_lt : Index → ℤ → IndexMatch
unfolding match_lt
match_i32_lt = match_lt Scalar.i32

unfoldable pub match_i32_gt : Index → ℤ → IndexMatch
unfolding match_gt
match_i32_gt = match_gt Scalar.i32

unfoldable pub match_i64_eq : Index → ℤ → IndexMatch
unfolding match_eq
match_i64_eq = match_eq Scalar.i64

unfoldable pub match_i64_lt : Index → ℤ → IndexMatch
unfolding match_lt
match_i64_lt = match_lt Scalar.i64

unfoldable pub match_i64_gt : Index → ℤ → IndexMatch
unfolding match_gt
match_i64_gt = match_gt Scalar.i64

unfoldable pub match_flt_eq : Index → ℕ → IndexMatch
unfolding match_eq
match_flt_eq = match_eq Scalar.flt

unfoldable pub match_flt_lt : Index → ℕ → IndexMatch
unfolding match_lt
match_flt_lt = match_lt Scalar.flt

unfoldable pub match_flt_gt : Index → ℕ → IndexMatch
unfolding match_gt
match_flt_gt = match_gt Scalar.flt

unfoldable pub match_dbl_eq : Index → ℕ → IndexMatch
unfolding match_eq
match_dbl_eq = match_eq Scalar.dbl

unfoldable pub match_dbl_lt : Index → ℕ → IndexMatch
unfolding match_lt
match_dbl_lt = match_lt Scalar.dbl

unfoldable pub match_dbl_gt : Index → ℕ → IndexMatch
unfolding match_gt
match_dbl_gt = match_gt Scalar.dbl
