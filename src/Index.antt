-- ===== src/Index.antt =====
-- lib/index.c: the index of a column, its count, minimum and maximum, and what an index alone says
-- of a comparison. `min` and `max` are the 64 bits of the union `cx_index_value_t`.
pub mod Match
pub mod Cover
pub mod Sound
pub mod Build
pub mod New
use columnix.Base.{
  ℕ, zero, suc, ◌+◌, ◌-◌, ◌%◌, Bool, true, false, ◌&&◌, ◌||◌, not, List, [], ◌∷◌, map, ltb, ◌==◌,
  if◌then◌else◌, add64, length, ℤ, word_bits, Outcome, done, failed, aborted, ◌>>=◌, ◌>>◌, assert,
}
use columnix.Common.{ColumnType}
use columnix.System.{System}
use columnix.Scalar
use columnix.Scalar.{Scalar, lt, gt}
use columnix.Column.{Column}
use columnix.Column.Bits.{batch_bits}
use columnix.Column.Cursor.{
  Cursor, valid, cursor_new, next_batch_bit, next_batch_i32, next_batch_i64, next_batch_flt,
  next_batch_dbl, next_batch_str,
}

pub record Index : Type 0 where
  pub count : ℕ
  pub min : ℕ
  pub max : ℕ

-- sizeof(struct cx_index)
abbrev pub index_struct_size : ℕ
index_struct_size = 24

-- The `bool` member: its byte, as a truth value.
abbrev pub get_bit : ℕ → Bool
get_bit raw = not (raw % 256 == 0)

abbrev pub store_bit : ℕ → Bool → ℕ
store_bit raw b = raw - raw % 256 + (if b then 1 else 0)

-- The body of the inner loop of `cx_index_update_bit`.
unfoldable pub update_bit : Index → Bool → Index
update_bit index value = record index {
  min = store_bit index.min (get_bit index.min && value);
  max = store_bit index.max (get_bit index.max || value);
}

unfoldable pub update_bits : Index → List Bool → Index
unfolding update_bit
update_bits index [] = index
update_bits index (b ∷ bs) = update_bits (update_bit index b) bs

module _ {A : Type 0} (s : Scalar A) where
  -- The body of the inner loops of the other `cx_index_update_*`.
  unfoldable pub update_value : Index → A → Index
  update_value index value =
      let raised =
        if gt s value (s.get index.max)
        then record index { max = s.store index.max value }
        else index in
      if lt s value (s.get raised.min)
      then record raised { min = s.store raised.min value }
      else raised

  unfoldable pub update_values : Index → List A → Index
  unfolding update_value
  update_values index [] = index
  update_values index (v ∷ vs) = update_values (update_value index v) vs

-- The outer loop of `cx_index_update_*`, over the batches that `next` reads.
module _ {A : Type 0} (next : Cursor → Outcome (List A × Cursor))
    (step : Index → List A → Index) where
  unfoldable pub update_batches : ℕ → Index → Cursor → Outcome Index
  update_batches zero index cursor = aborted
  update_batches (suc fuel) index cursor =
      let more = next cursor >>= λ (values, rest). assert (not (length values == 0)) >>= λ _.
      let counted = record index { count = add64 index.count (length values) } in
      update_batches fuel (step counted values) rest in
      if valid cursor then more else done index

-- The index of a string column is over the lengths.
abbrev pub batch_lens : Cursor → Outcome (List ℕ × Cursor)
batch_lens cursor = next_batch_str cursor >>= λ (strings, rest). done (map length strings, rest)

-- Every round reads at least a byte, so this many rounds are enough.
abbrev pub update_fuel : Cursor → ℕ
update_fuel cursor = suc cursor.column.offset

-- `calloc`, and the first minimum.
abbrev pub blank : {A : Type 0} → Scalar A → Index
blank s = record { count = 0; min = s.store 0 s.top; max = 0 }

abbrev pub blank_bit : Index
blank_bit = record { count = 0; min = store_bit 0 true; max = 0 }

unfoldable pub index_column : ColumnType → Cursor → Outcome Index
unfolding update_batches update_bits update_values
index_column ColumnType.bit c = update_batches batch_bits update_bits (update_fuel c) blank_bit c
index_column ColumnType.i32 c =
    update_batches next_batch_i32 (update_values Scalar.i32) (update_fuel c) (blank Scalar.i32) c
index_column ColumnType.i64 c =
    update_batches next_batch_i64 (update_values Scalar.i64) (update_fuel c) (blank Scalar.i64) c
index_column ColumnType.flt c =
    update_batches next_batch_flt (update_values Scalar.flt) (update_fuel c) (blank Scalar.flt) c
index_column ColumnType.dbl c =
    update_batches next_batch_dbl (update_values Scalar.dbl) (update_fuel c) (blank Scalar.dbl) c
index_column ColumnType.str c =
    update_batches batch_lens (update_values Scalar.len) (update_fuel c) (blank Scalar.len) c

unfoldable pub index_new : System → Column → Outcome Index
unfolding index_column
index_new sys column = elim (sys.grants index_struct_size) [
  | true ↦ cursor_new sys column >>= index_column column.type
  | false ↦ failed
]
