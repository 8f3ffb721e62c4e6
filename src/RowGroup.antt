-- ===== src/RowGroup.antt =====
-- lib/row_group.c: a row group holds for each column its values and its null bits, with an index of
-- each. A column that was read from a file is lazy: it is decompressed or mapped at its first use.
pub mod Cursor
pub mod Batch
pub mod Reading
pub mod Table
use columnix.Base.{
  ℕ, zero, suc, ◌+◌, ◌*◌, ◌%◌, Bool, true, false, ◌&&◌, ◌||◌, not, List, [], ◌∷◌, ◌++◌, Option,
  none, some, ltb, ◌==◌, if◌then◌else◌, word_mod, length, get_elem?, set, Outcome, done, failed,
  aborted, ◌>>=◌, ◌>>◌, assert, require,
}
use columnix.Common.{
  ColumnType, EncodingType, CompressionType, uncompressed, same_type, compression_code,
}
use columnix.System.{System}
use columnix.Compress.{decompress}
use columnix.Column.{Column, new_mmapped, new_compressed, fill}
use columnix.Index.{Index, index_new}

-- `struct cx_lazy_column`; `bytes` is the memory of `size` bytes at its `ptr`.
pub record LazyColumn : Type 0 where
  pub type : ColumnType
  pub encoding : EncodingType
  pub compression : CompressionType
  pub index : Index
  pub bytes : List ℕ
  pub size : ℕ
  pub decompressed_size : ℕ

-- `struct cx_row_group_physical_column`; a column that is not lazy has no `lazy_column`.
pub record PhysicalColumn : Type 0 where
  pub index : Index
  pub column : Option Column
  pub lazy_column : Option LazyColumn

pub record RowGroupColumn : Type 0 where
  pub type : ColumnType
  pub encoding : EncodingType
  pub values : PhysicalColumn
  pub nulls : PhysicalColumn
  pub lazy : Bool

-- `count` is the number of `columns`, `size` the number that there is room for.
pub record RowGroup : Type 0 where
  pub columns : List RowGroupColumn
  pub size : ℕ
  pub row_count : ℕ

abbrev pub count : RowGroup → ℕ
count row_group = length row_group.columns

-- sizeof(struct cx_row_group_column)
abbrev pub column_struct_size : ℕ
column_struct_size = 144

abbrev pub initial_size : ℕ
initial_size = 8

unfoldable pub new : System → Outcome RowGroup
new sys = do
  require (sys.grants 32)
  require (sys.grants (initial_size * column_struct_size))
  done (record { columns = []; size = initial_size; row_count = 0 })

unfoldable pub ensure_column_size : System → RowGroup → Outcome RowGroup
ensure_column_size sys row_group =
    let new_size = row_group.size * 2 % word_mod in
    let grown = do
      assert (not (new_size == 0) && ltb row_group.size new_size)
      require (sys.grants (new_size * column_struct_size))
      done (record row_group { size = new_size })
    in if count row_group == row_group.size then grown else done row_group

-- A column of another length than the ones that are there is refused.
abbrev pub fits_rows : RowGroup → ℕ → Bool
fits_rows row_group rows = count row_group == 0 || row_group.row_count == rows

-- Both indexes are built before either is looked at.
abbrev pub both_indexes : Outcome Index → Outcome Index → Outcome (Index × Index)
both_indexes (done index) nulls = nulls >>= λ nulls_index. done (index, nulls_index)
both_indexes failed nulls = nulls >>= λ _. failed
both_indexes aborted nulls = aborted

unfoldable pub add_column : System → RowGroup → Option Column → Column → Outcome RowGroup
unfolding ensure_column_size
add_column sys row_group none nulls = failed
add_column sys row_group (some column) nulls = do
  require (column.count == nulls.count && same_type nulls.type ColumnType.bit)
  require (fits_rows row_group column.count)
  (index, nulls_index) ← both_indexes (index_new sys column) (index_new sys nulls)
  room ← ensure_column_size sys row_group
  done (record room {
    columns =
        room.columns
        ++ record {
          type = column.type;
          encoding = column.encoding;
          values = record { index = index; column = some column; lazy_column = none };
          nulls = record { index = nulls_index; column = some nulls; lazy_column = none };
          lazy = false;
        }
          ∷ [];
    row_count = column.count;
  })

unfoldable pub add_lazy_column : System → RowGroup → LazyColumn → LazyColumn → Outcome RowGroup
unfolding ensure_column_size
add_lazy_column sys row_group column nulls = do
  require (column.index.count == nulls.index.count && same_type nulls.type ColumnType.bit)
  require (fits_rows row_group column.index.count)
  room ← ensure_column_size sys row_group
  done (record room {
    columns =
        room.columns
        ++ record {
          type = column.type;
          encoding = column.encoding;
          values = record { index = column.index; column = none; lazy_column = some column };
          nulls = record { index = nulls.index; column = none; lazy_column = some nulls };
          lazy = true;
        }
          ∷ [];
    row_count = column.index.count;
  })

-- `assert(index < row_group->count)`, and the column.
abbrev pub column_at : List RowGroupColumn → ℕ → Outcome RowGroupColumn
column_at columns i = elim (get_elem? columns i) [ none ↦ aborted | some column ↦ done column ]

abbrev pub row_count : RowGroup → ℕ
row_count row_group = elim (get_elem? row_group.columns 0) [
  | none ↦ 0
  | some column ↦ column.values.index.count
]

unfoldable pub column_type : RowGroup → ℕ → Outcome ColumnType
column_type row_group i = column_at row_group.columns i >>= λ column. done column.type

unfoldable pub column_encoding : RowGroup → ℕ → Outcome EncodingType
column_encoding row_group i = column_at row_group.columns i >>= λ column. done column.encoding

unfoldable pub column_index : RowGroup → ℕ → Outcome Index
column_index row_group i = column_at row_group.columns i >>= λ column. done column.values.index

unfoldable pub null_index : RowGroup → ℕ → Outcome Index
null_index row_group i = column_at row_group.columns i >>= λ column. done column.nulls.index

unfoldable pub load_lazy : System → LazyColumn → ℕ → Outcome Column
unfolding new_mmapped new_compressed decompress
load_lazy sys lazy rows =
    let decompressed = do
      column ← new_compressed sys lazy.type lazy.encoding lazy.decompressed_size rows
      bytes ← decompress sys lazy.compression lazy.bytes lazy.decompressed_size
      done (fill bytes column)
    in if not (compression_code lazy.compression == 0) && not (lazy.size == 0)
      then decompressed
      else new_mmapped sys lazy.type lazy.encoding lazy.bytes lazy.size rows

unfoldable pub lazy_column_init : System → PhysicalColumn → Outcome (Column × PhysicalColumn)
unfolding load_lazy
lazy_column_init sys physical = elim physical.lazy_column [
  | none ↦ aborted
  | some lazy ↦ load_lazy sys lazy physical.index.count >>= λ column.
      done (column, record physical { column = some column })
]

-- The column of a physical column, which is loaded if it is lazy and was not loaded before. A
-- column that is not lazy always has one.
unfoldable pub physical_column : System → Bool → PhysicalColumn → Outcome (Column × PhysicalColumn)
unfolding lazy_column_init
physical_column sys lazy physical = elim physical.column [
  | some column ↦ done (column, physical)
  | none ↦ if lazy then lazy_column_init sys physical else failed
]

-- `cx_row_group_column`: the column, and the row group with the column loaded.
unfoldable pub group_column : System → RowGroup → ℕ → Outcome (Column × RowGroup)
unfolding physical_column
group_column sys row_group i = do
  at ← column_at row_group.columns i
  (column, values) ← physical_column sys at.lazy at.values
  done (
    column,
    record row_group { columns = set row_group.columns i (record at { values = values }) },
  )

-- `cx_row_group_nulls`
unfoldable pub group_nulls : System → RowGroup → ℕ → Outcome (Column × RowGroup)
unfolding physical_column
group_nulls sys row_group i = do
  at ← column_at row_group.columns i
  (column, nulls) ← physical_column sys at.lazy at.nulls
  done
      (column, record row_group { columns = set row_group.columns i (record at { nulls = nulls }) })
