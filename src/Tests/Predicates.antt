-- ===== src/Tests/Predicates.antt =====
-- The theorems on indexes, masks, predicates and compression at concrete inputs.
use columnix.Base.{
  ℕ, ◌<◌, ◌^◌, ◌≡◌, refl, true, false, List, [], ◌∷◌, ℤ, pos, negsuc, none, bit, done, arith,
}
use columnix.Common.{ColumnType, plain, Value, lz4}
use columnix.System.{generous}
use columnix.Scalar
use columnix.Scalar.{lt, gt, eq}
use columnix.Index.{update_values, blank}
use columnix.Index.Match.{
  nothing, unknown, everything, match_eq, match_lt, match_gt, match_i32_lt, match_str_eq,
}
use columnix.Index.Cover.{i32-IsLawful}
use columnix.Index.Sound.{Answers, match_eq-Answers, match_lt-Answers, match_gt-Answers}
use columnix.Match.{match_naive, match_i32_gt}
use columnix.Match.Mask.{passes, match_naive_lem}
use columnix.Compress.{compress, decompress}
use columnix.Compress.Roundtrip.{Inverts, decompress-compress}
use columnix.RowGroup.{RowGroup, PhysicalColumn, column_index, column_type}
use columnix.Predicate.{PredicateType, Predicate, node, nil, cons, zeroed, valid}
use columnix.Predicate.Indexes.{match_indexes}
use columnix.Predicate.Optimize.{optimize}
use columnix.Predicate.Tree.{tree_value}
use columnix.Predicate.Keeps.{optimize-tree_value}
use columnix.Predicate.Answer.{IsTyped, answers, answers-IsSymmetric, match_indexes-eq-tree_value}
use columnix.Predicate.Reorder.{match_indexes-optimize}
use columnix.Tests.Sort.{insertion_sort, insertion_sort-perm}

abbrev temperatures : List ℤ
temperatures = pos 3 ∷ negsuc 1 ∷ pos 7 ∷ []

match_eq-Answers_example :
    Answers Scalar.i32
      (λ v. eq Scalar.i32 v (pos 9))
      temperatures
      (match_eq Scalar.i32 (update_values Scalar.i32 (blank Scalar.i32) temperatures) (pos 9))
match_eq-Answers_example = match_eq-Answers i32-IsLawful (pos 9) temperatures (omega arith)

match_lt-Answers_example :
    Answers Scalar.i32
      (λ v. lt Scalar.i32 v (pos 9))
      temperatures
      (match_lt Scalar.i32 (update_values Scalar.i32 (blank Scalar.i32) temperatures) (pos 9))
match_lt-Answers_example = match_lt-Answers i32-IsLawful (pos 9) temperatures (omega arith)

match_gt-Answers_example :
    Answers Scalar.i32
      (λ v. gt Scalar.i32 v (pos 9))
      temperatures
      (match_gt Scalar.i32 (update_values Scalar.i32 (blank Scalar.i32) temperatures) (pos 9))
match_gt-Answers_example = match_gt-Answers i32-IsLawful (pos 9) temperatures (omega arith)

-- All are below 9, none is 9, and the bounds cannot tell whether all exceed 3.
index_answers :
    let index = update_values Scalar.i32 (blank Scalar.i32) temperatures in
    (match_lt Scalar.i32 index (pos 9) ≡ everything)
    × (match_eq Scalar.i32 index (pos 9) ≡ nothing)
    × (match_gt Scalar.i32 index (pos 3) ≡ unknown)
unfolding match_lt match_eq match_gt update_values
index_answers = (refl, refl, refl)

match_naive_lem_example :
    (mask : ℕ) × (match_naive (λ v. gt Scalar.i32 v (pos 2)) temperatures ≡ done mask)
    × (mask < 2 ^ 64)
    × ((k : ℕ) → bit k mask ≡ passes (λ v. gt Scalar.i32 v (pos 2)) temperatures k)
match_naive_lem_example = match_naive_lem (λ v. gt Scalar.i32 v (pos 2)) temperatures (omega arith)

match_runs : match_i32_gt temperatures (pos 2) ≡ done 5
unfolding match_i32_gt
match_runs = refl

generous-Inverts : Inverts generous
generous-Inverts = record {
  fast = λ level src room h. refl;
  hc = λ level src room h. refl;
  zstd = λ level src out room h. cc;
}

decompress-compress_example : decompress generous lz4 (1 ∷ 2 ∷ 3 ∷ []) 3 ≡ done (1 ∷ 2 ∷ 3 ∷ [])
unfolding compress
decompress-compress_example =
    decompress-compress generous generous-Inverts lz4 (pos 0) (1 ∷ 2 ∷ 3 ∷ []) (1 ∷ 2 ∷ 3 ∷ [])
      (omega arith) refl

abbrev no_nulls : PhysicalColumn
no_nulls = record {
  index = record { count = 3; min = 0; max = 0 };
  column = none;
  lazy_column = none;
}

-- Three rows: numbers from 1 to 7, and strings of 2 to 4 bytes.
abbrev group : RowGroup
group = record {
  columns =
      record {
        type = ColumnType.str;
        encoding = plain;
        values = record {
          index = record { count = 3; min = 2; max = 4 };
          column = none;
          lazy_column = none;
        };
        nulls = no_nulls;
        lazy = false;
      }
      ∷ record {
        type = ColumnType.i32;
        encoding = plain;
        values = record {
          index = record { count = 3; min = 1; max = 7 };
          column = none;
          lazy_column = none;
        };
        nulls = no_nulls;
        lazy = false;
      }
      ∷ [];
  size = 8;
  row_count = 3;
}

abbrev named : Predicate
named =
    node
      (record zeroed {
        type = PredicateType.eq;
        column_type = ColumnType.str;
        value = Value.str (b'a' ∷ b'b' ∷ []);
      })
      nil

abbrev small : Predicate
small =
    node
      (record zeroed {
        type = PredicateType.lt;
        column = 1;
        column_type = ColumnType.i32;
        value = Value.i32 (pos 9);
      })
      nil

abbrev both : Predicate
both = node (record zeroed { type = PredicateType.and }) (cons named (cons small nil))

both-IsTyped : IsTyped both
unfolding IsTyped
both-IsTyped = ((λ e. cc), (((λ e. refl), tt), (((λ e. refl), tt), tt)))

match_indexes-eq-tree_value_example :
    match_indexes group both ≡ done (tree_value (answers group) both)
unfolding valid IsTyped
match_indexes-eq-tree_value_example =
    match_indexes-eq-tree_value group both (omega arith) refl both-IsTyped

optimize-tree_value_example :
    tree_value (answers group) (optimize insertion_sort group both)
    ≡ tree_value (answers group) both
optimize-tree_value_example =
    optimize-tree_value (answers-IsSymmetric group) insertion_sort insertion_sort-perm group both

match_indexes-optimize_example :
    (valid group (optimize insertion_sort group both) ≡ true)
    × IsTyped (optimize insertion_sort group both)
    × (match_indexes group (optimize insertion_sort group both) ≡ match_indexes group both)
unfolding valid IsTyped
match_indexes-optimize_example =
    match_indexes-optimize insertion_sort insertion_sort-perm group both (omega arith) refl
      both-IsTyped

-- The comparison of the numbers is cheaper, so it goes first.
optimize_runs :
    optimize insertion_sort group both
    ≡ node (record zeroed { type = PredicateType.and }) (cons small (cons named nil))
unfolding optimize
optimize_runs = refl

match_indexes_runs : match_indexes group both ≡ done unknown
unfolding match_indexes column_index column_type match_i32_lt match_str_eq
match_indexes_runs = refl
