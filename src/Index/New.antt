-- ===== src/Index/New.antt =====
-- lib/index.c: `cx_index_new` of a column whose contents are known, and what the index it gives says.
use columnix.Base.{
  ◌-◌, ◌+◌, ◌<◌, ◌≡◌, refl, ap, ◌∙◌, true, List, length, All, word_mod, done, arith,
}
use columnix.System.{System}
use columnix.Scalar
use columnix.Scalar.{Scalar, lt, gt, eq}
use columnix.Column.{Column}
use columnix.Column.Cursor.{Cursor, madvise, cursor_new, cursor_struct_size}
use columnix.Column.Grow.{Grants}
use columnix.Common.{ColumnType}
use columnix.Column.Types.{Values, access_of}
use columnix.Column.Access.{Access}
use columnix.Index.{
  Index, blank, update_values, update_batches, update_fuel, index_column, index_new,
  index_struct_size,
}
use columnix.Index.Match.{match_eq, match_lt, match_gt}
use columnix.Index.Cover.{IsLawful, i32-IsLawful, i64-IsLawful, flt-IsLawful, dbl-IsLawful}
use columnix.Index.Sound.{Answers, match_eq-Answers, match_lt-Answers, match_gt-Answers}
use columnix.Index.Build.{counted, update_values-Folds, update_batches-drop}

-- An index that counts the values `vs` and answers comparisons with any value `x` correctly.
pub record Describes {A : Type 0} (s : Scalar A) (vs : List A) (index : Index) : Type 0 where
  pub counts : index.count ≡ length vs
  pub eq-Answers : (x : A) → Answers s (λ v. eq s v x) vs (match_eq s index x)
  pub lt-Answers : (x : A) → Answers s (λ v. lt s v x) vs (match_lt s index x)
  pub gt-Answers : (x : A) → Answers s (λ v. gt s v x) vs (match_gt s index x)

-- How the columns of a type are indexed: in batches that `next` reads, by the order of `s`.
pub record Indexed {A : Type 0} (access : Access A) (s : Scalar A) : Type 0 where
  pub column-update :
      (c : Cursor)
      → index_column access.type c
        ≡ update_batches access.next (update_values s) (update_fuel c) (blank s) c
  pub laws : IsLawful s access.InRange
  pub typed :
      (column : Column) (vs : List A) → access.Contains vs column → column.type ≡ access.type
  pub all-InRange :
      (column : Column) (vs : List A) → access.Contains vs column → All access.InRange vs

module _ {A : Type 0} {access : Access A} {s : Scalar A} (indexed : Indexed access s) where
  counted-Describes :
      (vs : List A)
      → All access.InRange vs
      → Describes s vs (counted (update_values s (blank s) vs) (length vs))
  unfolding match_eq match_lt match_gt
  counted-Describes vs r = record {
    counts = refl;
    eq-Answers = λ x. match_eq-Answers indexed.laws x vs r;
    lt-Answers = λ x. match_lt-Answers indexed.laws x vs r;
    gt-Answers = λ x. match_gt-Answers indexed.laws x vs r;
  }

  module _ (sys : System) (grants : Grants sys) (column : Column) (vs : List A)
      (advised : madvise sys column ≡ true) (h : access.Contains vs column)
      (small : access.bytes vs < word_mod) (few : length vs < word_mod) where
    abbrev pub opened : Cursor
    opened = record { column = column; position = 0 }

    cursor_new-opened : cursor_new sys column ≡ done opened
    unfolding cursor_new
    cursor_new-opened = rw (grants cursor_struct_size, advised) refl

    index_column-counted :
        index_column column.type opened ≡ done (counted (update_values s (blank s) vs) (length vs))
    index_column-counted =
        let a = access.first column vs h small in
        ap (λ t. index_column t opened) (indexed.typed column vs h)
        ∙ indexed.column-update opened
        ∙ update_batches-drop (access.reads vs) (update_values-Folds s) column.offset (blank s)
            opened 0 a (omega (arith, (access.reads vs).few opened 0 a)) (omega arith)
        ∙ ap (λ n. done (counted (update_values s (blank s) vs) n)) {x = 0 + (length vs - 0)}
            {y = length vs} (omega arith)

    index_new-indexed : (index : Index) × (index_new sys column ≡ done index) × Describes s vs index
    unfolding index_new
    index_new-indexed = (
      counted (update_values s (blank s) vs) (length vs),
      rw (index_new, grants index_struct_size, cursor_new-opened, index_column-counted) refl,
      counted-Describes vs (indexed.all-InRange column vs h),
    )

-- The types whose values an index orders.
pub data Ordered : Type 0 where
  i32 i64 flt dbl : Ordered

abbrev pub type_of : Ordered → ColumnType
type_of Ordered.i32 = ColumnType.i32
type_of Ordered.i64 = ColumnType.i64
type_of Ordered.flt = ColumnType.flt
type_of Ordered.dbl = ColumnType.dbl

abbrev pub scalar_of : (t : Ordered) → Scalar (Values (type_of t))
scalar_of Ordered.i32 = Scalar.i32
scalar_of Ordered.i64 = Scalar.i64
scalar_of Ordered.flt = Scalar.flt
scalar_of Ordered.dbl = Scalar.dbl

scalar_of-Indexed : (t : Ordered) → Indexed (access_of (type_of t)) (scalar_of t)
unfolding index_column
scalar_of-Indexed Ordered.i32 = record {
  column-update = λ c. refl;
  laws = i32-IsLawful;
  typed = λ c vs h. h.typed;
  all-InRange = λ c vs h. h.in_range;
}
scalar_of-Indexed Ordered.i64 = record {
  column-update = λ c. refl;
  laws = i64-IsLawful;
  typed = λ c vs h. h.typed;
  all-InRange = λ c vs h. h.in_range;
}
scalar_of-Indexed Ordered.flt = record {
  column-update = λ c. refl;
  laws = flt-IsLawful;
  typed = λ c vs h. h.typed;
  all-InRange = λ c vs h. h.in_range;
}
scalar_of-Indexed Ordered.dbl = record {
  column-update = λ c. refl;
  laws = dbl-IsLawful;
  typed = λ c vs h. h.typed;
  all-InRange = λ c vs h. h.in_range;
}

-- On an i32, i64, flt or dbl column that holds the values `vs`, fewer than 2^64 and in less than
-- 2^64 bytes, where no memory is refused and the column may be advised, `cx_index_new` gives an
-- index that counts the values and answers `==`, `<` and `>` with any value correctly for all of
-- them: none only if no value matches, all only if each value that is no NaN does.
pub index_new-Describes :
    (t : Ordered) (sys : System)
    → Grants sys
    → (column : Column) (vs : List (Values (type_of t))) → madvise sys column ≡ true
    → (access_of (type_of t)).Contains vs column
    → (access_of (type_of t)).bytes vs < word_mod
    → length vs < word_mod
    → (index : Index) × (index_new sys column ≡ done index) × Describes (scalar_of t) vs index
index_new-Describes t sys grants column vs advised h small few =
    index_new-indexed (scalar_of-Indexed t) sys grants column vs advised h small few
