-- ===== src/Column/Types.antt =====
-- lib/column.c: the column types, each with the values that it holds and its operations.
use columnix.Base.{ℕ, ◌≤◌, ◌≡◌, Bool, List, length, All, ℤ, done, arith}
use columnix.Common.{ColumnType}
use columnix.System.{System}
use columnix.Column.{half64}
use columnix.Column.Grow.{Grants}
use columnix.Column.Access.{Access, write_and_read, write_and_read-access}
use columnix.Column.Fixed.{i32_access, i64_access, flt_access, dbl_access}
use columnix.Column.Texts.{str_access}
use columnix.Column.Bits.{bit_access}

abbrev pub Values : ColumnType → Type 0
Values ColumnType.bit = Bool
Values ColumnType.i32 = ℤ
Values ColumnType.i64 = ℤ
Values ColumnType.flt = ℕ
Values ColumnType.dbl = ℕ
Values ColumnType.str = List ℕ

abbrev pub access_of : (t : ColumnType) → Access (Values t)
access_of ColumnType.bit = bit_access
access_of ColumnType.i32 = i32_access
access_of ColumnType.i64 = i64_access
access_of ColumnType.flt = flt_access
access_of ColumnType.dbl = dbl_access
access_of ColumnType.str = str_access

-- For each of the six column types, where no memory is refused: values of the type (strings without
-- a NUL, integers and bit patterns of the type's width) that take at most 2^63 bytes and are at most
-- 2^63, put one by one into a new column and read with a cursor, batch after batch until it is no
-- longer valid, come back as they were, in order.
pub write_and_read_lem :
    (t : ColumnType) (sys : System)
    → Grants sys
    → (vs : List (Values t)) → All (access_of t).InRange vs
    → (access_of t).bytes vs ≤ half64
    → length vs ≤ half64
    → write_and_read (access_of t) sys (length vs) vs ≡ done vs
write_and_read_lem t sys grants vs r small few =
    write_and_read-access (access_of t) sys grants vs r small (length vs) (omega arith) few
