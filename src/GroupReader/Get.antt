-- ===== src/GroupReader/Get.antt =====
-- lib/reader.c: `cx_row_group_reader_get`, a row group of lazy columns that point into the file.
use columnix.Base.{
  ℕ, ◌+◌, ◌*◌, not, List, [], ◌∷◌, none, some, ltb, if◌then◌else◌, add64, length, drop, get_elem?,
  Outcome, done, aborted, ◌>>=◌, ◌>>◌, require,
}
use columnix.Common.{ColumnType, plain, CompressionType}
use columnix.System.{System}
use columnix.RowGroup.{RowGroup, LazyColumn, new as row_group_new, add_lazy_column}
use columnix.File.{
  ColumnDescriptor, ColumnHeader, column_header_of, column_header_widths, column_header_size,
}
use columnix.File.Struct.{unpack}
use columnix.GroupWriter.Put.{compression_of}
use columnix.Writer.{column_type_of}
use columnix.GroupReader.{GroupReader, file_size, bytes_at}

-- The column header at an offset of the file. A header that does not lie inside the file is read
-- from memory that is not mapped.
unfoldable pub column_header_at : GroupReader → ℕ → Outcome ColumnHeader
column_header_at reader offset =
    if ltb (file_size reader) (offset + column_header_size)
    then aborted
    else done (column_header_of (unpack column_header_widths (drop offset reader.bytes)))

-- `struct cx_lazy_column`, whose type is given by the caller.
abbrev pub lazy_of : GroupReader → ColumnType → CompressionType → ColumnHeader → LazyColumn
lazy_of reader type compression h = record {
  type = type;
  encoding = plain;
  compression = compression;
  index = h.index;
  bytes = bytes_at reader.bytes h.offset h.size;
  size = h.size;
  decompressed_size = h.decompressed_size;
}

-- The body of the loop: the column whose headers stand at `offset`. An unknown compression fails
-- here, where C fails once the column is loaded.
unfoldable pub get_column :
    System → GroupReader → ℕ → ColumnDescriptor → RowGroup → Outcome RowGroup
unfolding column_header_at
get_column sys reader offset d row_group = do
  header ← column_header_at reader offset
  require (not (ltb (file_size reader) (add64 header.offset header.size)))
  null_header ← column_header_at reader (offset + column_header_size)
  require (not (ltb (file_size reader) (add64 null_header.offset null_header.size)))
  type ← column_type_of d.type
  compression ← compression_of header.compression
  null_compression ← compression_of null_header.compression
  add_lazy_column sys row_group (lazy_of reader type compression header)
      (lazy_of reader ColumnType.bit null_compression null_header)

unfoldable pub get_columns :
    System → GroupReader → ℕ → List ColumnDescriptor → RowGroup → Outcome RowGroup
unfolding get_column
get_columns sys reader offset [] row_group = done row_group
get_columns sys reader offset (d ∷ ds) row_group =
    get_column sys reader offset d row_group >>= λ next.
    get_columns sys reader (offset + 2 * column_header_size) ds next

-- The check asks for one header a column, the loop reads two. `index` is that of a row group.
unfoldable pub group_reader_get : System → GroupReader → ℕ → Outcome RowGroup
unfolding get_columns
group_reader_get sys reader index = elim (get_elem? reader.headers index) [
  | none ↦ aborted
  | some h ↦
      require (
        not (
          ltb (file_size reader)
            (add64 (add64 h.offset h.size) (length reader.descriptors * column_header_size))))
      >>= λ _. row_group_new sys >>= λ row_group.
          get_columns sys reader (add64 h.offset h.size) reader.descriptors row_group
]
