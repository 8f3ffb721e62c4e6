-- ===== src/Column.antt =====
-- lib/column.c: a column as a growing byte buffer, and the functions that put values into it.
-- The buffer is the list of the bytes below `offset`; what lies between `offset` and `size` is
-- allocated and has no contents yet. Integers and floats lie in it little-endian.
pub mod Cursor
pub mod Read
pub mod Grow
pub mod Counts
pub mod Cells
pub mod Put
pub mod Reads
pub mod Access
pub mod Fixed
pub mod Strings
pub mod Texts
pub mod Packs
pub mod LastWord
pub mod Bitset
pub mod Bits
pub mod Types
pub mod Skips
use columnix.Base.{
  ℕ, zero, suc, ◌+◌, ◌-◌, ◌*◌, ◌/◌, ◌%◌, ◌^◌, Bool, true, false, ◌&&◌, ◌||◌, not, List, [], ◌∷◌,
  ◌++◌, ltb, leb, ◌==◌, if◌then◌else◌, add64, word_mod, length, take, drop, ℤ, pos, of_signed,
  le_bytes, le_value, bit_or, Outcome, done, failed, aborted, ◌>>=◌, ◌>>◌, assert, require,
}
use columnix.Common.{ColumnType, EncodingType, same_type}
use columnix.System.{System}

pub record Column : Type 0 where
  pub buffer : List ℕ
  pub count : ℕ
  pub offset : ℕ
  pub size : ℕ
  pub type : ColumnType
  pub encoding : EncodingType
  pub mmapped : Bool

-- sizeof(struct cx_column)
abbrev pub column_struct_size : ℕ
column_struct_size = 48

abbrev pub column_initial_size : ℕ
column_initial_size = 64

-- 2^31 and 2^63.
abbrev pub half32 : ℕ
half32 = 2147483648

abbrev pub half64 : ℕ
half64 = 9223372036854775808

unfoldable pub new_size : System → ColumnType → EncodingType → ℕ → ℕ → Outcome Column
new_size sys type encoding size count = do
  require (sys.grants column_struct_size)
  require (size == 0 || sys.grants size)
  done (record {
    buffer = [];
    count = count;
    offset = 0;
    size = size;
    type = type;
    encoding = encoding;
    mmapped = false;
  })

unfoldable pub new : System → ColumnType → EncodingType → Outcome Column
unfolding new_size
new sys type encoding = new_size sys type encoding column_initial_size 0

-- The argument `bytes` is the memory of `size` bytes at `ptr`.
unfoldable pub new_mmapped : System → ColumnType → EncodingType → List ℕ → ℕ → ℕ → Outcome Column
unfolding new_size
new_mmapped sys type encoding bytes size count = do
  column ← new_size sys type encoding 0 count
  done (record column { offset = size; size = size; mmapped = true; buffer = bytes })

-- The caller fills the buffer through the pointer that it is handed, as `fill` does.
unfoldable pub new_compressed : System → ColumnType → EncodingType → ℕ → ℕ → Outcome Column
unfolding new_size
new_compressed sys type encoding size count = do
  require (not (size == 0))
  column ← new_size sys type encoding size count
  done (record column { offset = size })

-- A write of the whole buffer through the pointer of `cx_column_new_compressed`.
abbrev pub fill : List ℕ → Column → Column
fill bytes column = record column { buffer = bytes }

-- The loop of `cx_column_resize`, which doubles until the buffer is large enough.
unfoldable pub grow : ℕ → ℕ → ℕ → Outcome ℕ
grow zero size required = aborted
grow (suc fuel) size required =
    let more = do assert (ltb size (size * 2 % word_mod)); grow fuel (size * 2 % word_mod) required
    in if ltb size required then more else done size

-- A size that is not 0 doubles 64 times at most before it wraps to 0 and the assertion fails.
abbrev pub grow_fuel : ℕ
grow_fuel = 65

unfoldable pub resize : System → Column → ℕ → Outcome Column
resize sys column alloc_size = do
  size ← grow grow_fuel column.size (add64 column.offset alloc_size)
  require (sys.grants size)
  done (record column { size = size })

-- `value` is the `size` bytes that are copied. None of the callers passes NULL.
unfoldable pub put : System → Column → ColumnType → List ℕ → Outcome Column
put sys column type value = do
  require (not (column.mmapped || not (same_type column.type type)))
  room ←
      if ltb column.size (add64 column.offset (length value))
      then resize sys column (length value)
      else done column
  done (record room {
    buffer = take room.offset room.buffer ++ value;
    count = add64 room.count 1;
    offset = add64 room.offset (length value);
  })

-- `1 << k` on 64 bits, as x86-64 shifts: by k mod 64. C leaves it undefined from 64 on.
abbrev pub shift_one : ℕ → ℕ
shift_one k = 2 ^ (k % 64)

-- `*bitset |= word` on the last eight bytes below `offset`.
abbrev pub or_last_word : Column → ℕ → List ℕ
or_last_word column word =
    let start = column.offset - 8 in
    take start column.buffer
    ++ le_bytes 8 (bit_or (le_value (take 8 (drop start column.buffer))) word)

unfoldable pub put_bit : System → Column → Bool → Outcome Column
unfolding put
put_bit sys column value =
    if column.count % 64 == 0
    then put sys column ColumnType.bit (le_bytes 8 (if value then 1 else 0))
    else do
      require (not (not (same_type column.type ColumnType.bit) || column.mmapped))
      done (record column {
        buffer = if value then or_last_word column (shift_one column.count) else column.buffer;
        count = add64 column.count 1;
      })

unfoldable pub put_i32 : System → Column → ℤ → Outcome Column
unfolding put
put_i32 sys column value = put sys column ColumnType.i32 (le_bytes 4 (of_signed half32 value))

unfoldable pub put_i64 : System → Column → ℤ → Outcome Column
unfolding put
put_i64 sys column value = put sys column ColumnType.i64 (le_bytes 8 (of_signed half64 value))

unfoldable pub put_flt : System → Column → ℕ → Outcome Column
unfolding put
put_flt sys column value = put sys column ColumnType.flt (le_bytes 4 value)

unfoldable pub put_dbl : System → Column → ℕ → Outcome Column
unfolding put
put_dbl sys column value = put sys column ColumnType.dbl (le_bytes 8 value)

-- `strlen(value) + 1` bytes: the string and its NUL.
unfoldable pub put_str : System → Column → List ℕ → Outcome Column
unfolding put
put_str sys column value = put sys column ColumnType.str (value ++ 0 ∷ [])

-- The value of a null row: zero, or the empty string.
unfoldable pub put_unit : System → Column → Outcome Column
unfolding put_bit put_i32 put_i64 put_flt put_dbl put_str
put_unit sys column = elim column.type [
  | ColumnType.bit ↦ put_bit sys column false
  | ColumnType.i32 ↦ put_i32 sys column (pos 0)
  | ColumnType.i64 ↦ put_i64 sys column (pos 0)
  | ColumnType.flt ↦ put_flt sys column 0
  | ColumnType.dbl ↦ put_dbl sys column 0
  | ColumnType.str ↦ put_str sys column []
]
