-- ===== src/GroupWriter/Put.antt =====
-- lib/writer.c: `cx_row_group_writer_put`, a row group's columns one after the other, each followed
-- by its null bits, and behind them their headers.
use columnix.Base.{
  ℕ, suc, ◌-◌, ◌*◌, ◌%◌, Bool, true, false, not, ◌&&◌, List, [], ◌∷◌, ◌++◌, ◌==◌, ltb, leb,
  if◌then◌else◌, word_mod, add64, length, take, ℤ, Outcome, done,
}
use columnix.Base.{◌>>=◌ as ◌>>=ₒ◌}
use columnix.Attempt.{Call, pure, ◌>>=◌, ◌>>◌, current, modify, check, ensure, lift, on_failure}
use columnix.Common.{CompressionType, uncompressed, lz4, lz4hc, zstd, column_type_code}
use columnix.System.{System}
use columnix.Column.{Column}
use columnix.Compress.{compress}
use columnix.Index.{Index}
use columnix.RowGroup.{
  RowGroup, count, row_count, column_type, column_index, group_column, group_nulls,
}
use columnix.File.{
  ColumnDescriptor, ColumnHeader, column_header_members, column_header_widths, column_header_size,
}
use columnix.File.Struct.{pack, array_bytes}
use columnix.File.Stream.{Disk}
use columnix.GroupWriter.{GroupWriter, encoding_code, align, write, seek_back, ensure_header}

-- The enumeration of a number. Another number is no compressor, as `cx_compress` has it.
abbrev pub compression_of : ℕ → Outcome CompressionType
compression_of code =
    if code == 0
    then done uncompressed
    else (if code == 1
        then done lz4
        else (if code == 2 then done lz4hc else (if code == 3 then done zstd else Outcome.failed)))

-- What is written for a buffer: it is compressed if that is asked for and makes it smaller.
pub record Stored : Type 0 where
  pub code : ℕ
  pub block : List ℕ

unfoldable pub compress_column : System → ℕ → ℤ → List ℕ → Outcome Stored
compress_column sys code level buffer =
    let compressed = compression_of code >>=ₒ λ type. compress sys type level buffer >>=ₒ λ smaller.
    done (
      if leb (length buffer) (length smaller)
      then record { code = 0; block = buffer }
      else record { code = code; block = smaller }) in
    if not (code == 0) && not (length buffer == 0)
    then compressed
    else done (record { code = 0; block = buffer })

-- `cx_row_group_writer_put_column`, with the header that it fills.
unfoldable pub put_column : System → Disk → Column → Index → ℕ → ℤ → Call GroupWriter ColumnHeader
unfolding compress_column
put_column sys disk column index code level = do
  w ← current
  let buffer = take column.offset column.buffer
  stored ← lift (compress_column sys code level buffer)
  write disk stored.block
  pure (record {
    offset = align w.file.position;
    size = length stored.block;
    decompressed_size = column.offset;
    compression = stored.code;
    encoding = encoding_code column.encoding;
    index = index;
  })

-- Whether the columns of the row group have the types of the descriptors.
unfoldable pub types_match : RowGroup → ℕ → List ColumnDescriptor → Outcome Bool
types_match row_group i [] = done true
types_match row_group i (d ∷ ds) =
    let rest = types_match row_group (suc i) ds in
    column_type row_group i >>=ₒ λ type.
    if d.type == column_type_code type then rest else done false

-- Room for one row group header more: 16 at first, then twice as many.
unfoldable pub ensure_headers : System → Call GroupWriter (Unit {0})
ensure_headers sys = do
  w ← current
  let first = do check (sys.grants (16 * 16)); modify (λ v. record v { headers_size = 16 })
  let new_size = w.headers_size * 2 % word_mod
  let grown = do
    ensure (not (new_size == 0) && ltb w.headers_size new_size)
    check (sys.grants (new_size * 16))
    modify (λ v. record v { headers_size = new_size })
  (if length w.headers == 0
      then first
      else (if length w.headers == w.headers_size then grown else pure tt))

-- CX_NULL_COMPRESSION_TYPE and CX_NULL_COMPRESSION_LEVEL
abbrev pub null_compression : ℕ
null_compression = 1

abbrev pub null_level : ℤ
null_level = ℤ.pos 0

-- The loop over the columns from `i` on, with their headers, two for each. The index of the null
-- bits is taken from the values, as the code has it.
unfoldable pub put_columns :
    System → Disk → RowGroup → ℕ → List ColumnDescriptor → Call GroupWriter (List ColumnHeader)
unfolding put_column
put_columns sys disk row_group i [] = pure []
put_columns sys disk row_group i (d ∷ ds) = do
  (column, with_column) ← lift (group_column sys row_group i)
  (nulls, with_nulls) ← lift (group_nulls sys with_column i)
  index ← lift (column_index row_group i)
  nulls_index ← lift (column_index row_group i)
  header ← put_column sys disk column index d.compression d.compression_level
  null_header ← put_column sys disk nulls nulls_index null_compression null_level
  headers ← put_columns sys disk with_nulls (suc i) ds
  pure (header ∷ null_header ∷ headers)

-- The bytes of the column headers.
abbrev pub column_headers_bytes : List ColumnHeader → List ℕ
column_headers_bytes = array_bytes (λ h. pack column_header_widths (column_header_members h))

-- The header of the row group that starts at `offset`, and what stands behind its columns.
abbrev pub note_row_group : ℕ → GroupWriter → GroupWriter
note_row_group offset v = record v {
  headers = v.headers ++ record { size = align v.file.position - offset; offset = offset } ∷ [];
}

-- The column headers, and the count of the rows.
abbrev pub put_headers : Disk → RowGroup → List ColumnHeader → Call GroupWriter (Unit {0})
put_headers disk row_group headers = do
  write disk (column_headers_bytes headers)
  modify (λ v. record v { row_count = add64 v.row_count (row_count row_group) })

-- From `row_group_offset` on, where an error seeks back to. The header of the row group is in the
-- list before the column headers are written, and stays if that write fails.
unfoldable pub put_row_group : System → Disk → RowGroup → Call GroupWriter (Unit {0})
unfolding put_columns
put_row_group sys disk row_group = do
  w ← current
  let offset = w.file.position
  check (sys.grants (count row_group * (2 * count row_group * column_header_size)))
  headers ← put_columns sys disk row_group 0 w.descriptors
  modify (note_row_group offset)
  put_headers disk row_group headers

-- What is done with the types checked.
abbrev pub put_checked : System → Disk → RowGroup → Call GroupWriter (Unit {0})
put_checked sys disk row_group = do
  ensure_headers sys
  ensure_header disk
  v ← current
  on_failure (seek_back disk v.file.position) (put_row_group sys disk row_group)

unfoldable pub group_writer_put : System → Disk → RowGroup → Call GroupWriter (Unit {0})
unfolding types_match ensure_headers put_row_group
group_writer_put sys disk row_group = do
  w ← current
  check (not w.footer_written)
  check (count row_group == length w.descriptors)
  let all = do
    same ← lift (types_match row_group 0 w.descriptors)
    check same
    put_checked sys disk row_group
  (if count row_group == 0 then pure tt else all)
