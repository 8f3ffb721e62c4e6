-- ===== src/Common.antt =====
-- lib/common.h: the column, encoding and compression types, a column's value, and where a string
-- is looked for. The numbers of the enumerations are those of the C declarations.
use columnix.Base.{ℕ, ◌≡◌, Bool, List, ℤ, ◌==◌, arith, Outcome, done, aborted}

pub data ColumnType : Type 0 where
  bit i32 i64 flt dbl str : ColumnType

pub data EncodingType : Type 0 where
  plain : EncodingType

pub data CompressionType : Type 0 where
  uncompressed lz4 lz4hc zstd : CompressionType

pub data StrLocation : Type 0 where
  start finish any : StrLocation

abbrev pub column_type_code : ColumnType → ℕ
column_type_code ColumnType.bit = 0
column_type_code ColumnType.i32 = 1
column_type_code ColumnType.i64 = 2
column_type_code ColumnType.flt = 3
column_type_code ColumnType.dbl = 4
column_type_code ColumnType.str = 5

abbrev pub compression_code : CompressionType → ℕ
compression_code uncompressed = 0
compression_code lz4 = 1
compression_code lz4hc = 2
compression_code zstd = 3

-- `a == b` on two column types.
abbrev pub same_type : ColumnType → ColumnType → Bool
same_type a b = column_type_code a == column_type_code b

pub same_type_iff : (a b : ColumnType) → same_type a b ≡ Bool.true → a ≡ b
same_type_iff a b h = ground arith

pub same_type_refl : (a : ColumnType) → same_type a a ≡ Bool.true
same_type_refl a = ground arith

-- `cx_value_t`, a union, with the member that was written last. A number is an integer, a float
-- its bit pattern, a string its bytes before the NUL.
pub data Value : Type 0 where
  bit : Bool → Value
  i32 : ℤ → Value
  i64 : ℤ → Value
  flt : ℕ → Value
  dbl : ℕ → Value
  str : List ℕ → Value

-- Reads of a member. Reading another member than the one written has no meaning in C.
abbrev pub value_bit : Value → Outcome Bool
value_bit (Value.bit b) = done b
value_bit _ = aborted

abbrev pub value_i32 : Value → Outcome ℤ
value_i32 (Value.i32 z) = done z
value_i32 _ = aborted

abbrev pub value_i64 : Value → Outcome ℤ
value_i64 (Value.i64 z) = done z
value_i64 _ = aborted

abbrev pub value_flt : Value → Outcome ℕ
value_flt (Value.flt n) = done n
value_flt _ = aborted

abbrev pub value_dbl : Value → Outcome ℕ
value_dbl (Value.dbl n) = done n
value_dbl _ = aborted

abbrev pub value_str : Value → Outcome (List ℕ)
value_str (Value.str s) = done s
value_str _ = aborted

-- The member that a predicate on a column of type `t` writes.
abbrev pub value_type : Value → ColumnType
value_type (Value.bit b) = ColumnType.bit
value_type (Value.i32 z) = ColumnType.i32
value_type (Value.i64 z) = ColumnType.i64
value_type (Value.flt n) = ColumnType.flt
value_type (Value.dbl n) = ColumnType.dbl
value_type (Value.str s) = ColumnType.str
