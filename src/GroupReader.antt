-- ===== src/GroupReader.antt =====
-- lib/reader.c: `cx_row_group_reader`, which maps a file, checks its footer, and gives the row
-- groups with lazy columns. The mapped file is the list of its bytes.
pub mod Get
pub mod Strings
pub mod Opens
pub mod Reopen
pub mod Restore
pub mod Regain
use columnix.Base.{
  ℕ, zero, suc, ◌+◌, ◌-◌, ◌*◌, Bool, true, false, not, ◌||◌, List, [], ◌∷◌, Option, none, some,
  ◌==◌, ltb, leb, if◌then◌else◌, add64, length, take, drop, get_elem?, ℤ, pos, negsuc, Outcome,
  done, failed, aborted, ◌>>=◌, ◌>>◌, assert, require,
}
use columnix.Common.{ColumnType, plain, same_type}
use columnix.System.{System}
use columnix.Column.{Column, new_mmapped}
use columnix.Column.Cursor.{strlen}
use columnix.File.{
  Footer, footer_of, footer_widths, footer_size, ColumnDescriptor, descriptor_of, descriptor_widths,
  descriptor_size, RowGroupHeader, row_group_header_of, row_group_header_widths,
  row_group_header_size, file_magic, file_version,
}
use columnix.File.Struct.{unpack, array_of}

-- What opening a file for reading needs of the system: fopen, fstat and mmap.
pub record Opening : Type 0 where
  pub opens : Bool
  pub stats : Bool
  pub maps : Bool

pub record GroupReader : Type 0 where
  pub bytes : List ℕ
  pub row_count : ℕ
  pub strings : Column
  pub descriptors : List ColumnDescriptor
  pub headers : List RowGroupHeader
  pub metadata : ℤ

abbrev pub file_size : GroupReader → ℕ
file_size reader = length reader.bytes

-- The memory of `size` bytes at an offset of the mapped file.
abbrev pub bytes_at : List ℕ → ℕ → ℕ → List ℕ
bytes_at bytes offset size = take size (drop offset bytes)

unfoldable pub read_footer : List ℕ → Footer
read_footer bytes = footer_of (unpack footer_widths (drop (length bytes - footer_size) bytes))

-- What the checks of the footer accept.
unfoldable pub footer_valid : Footer → Bool
footer_valid footer =
    if not (footer.magic == file_magic) || ltb footer.size footer_size
    then false
    else footer.version == file_version

abbrev pub descriptors_bytes : Footer → ℕ
descriptors_bytes footer = footer.column_count * descriptor_size

-- The descriptors and what stands behind them, and that with the row group headers.
abbrev pub descriptors_tail : Footer → ℕ
descriptors_tail footer = descriptors_bytes footer + footer.size

abbrev pub headers_tail : Footer → ℕ
headers_tail footer = footer.row_group_count * row_group_header_size + descriptors_tail footer

unfoldable pub group_reader_new : System → Opening → List ℕ → Outcome GroupReader
unfolding footer_valid
group_reader_new sys opening bytes = do
  require (sys.grants 104)
  require opening.opens
  require opening.stats
  require (not (length bytes == 0))
  require opening.maps
  require (not (ltb (length bytes) footer_size))
  let footer = read_footer bytes
  require (footer_valid footer)
  require (not (ltb (length bytes) (headers_tail footer)))
  require (not (ltb (length bytes) (add64 footer.strings_offset footer.strings_size)))
  strings ←
      new_mmapped sys ColumnType.str plain
        (bytes_at bytes footer.strings_offset footer.strings_size) footer.strings_size 0
  done (record {
    bytes = bytes;
    row_count = footer.row_count;
    strings = strings;
    descriptors =
        array_of (λ bs. descriptor_of (unpack descriptor_widths bs)) descriptor_size
          footer.column_count (drop (length bytes - descriptors_tail footer) bytes);
    headers =
        array_of (λ bs. row_group_header_of (unpack row_group_header_widths bs))
          row_group_header_size footer.row_group_count
          (drop (length bytes - headers_tail footer) bytes);
    metadata = footer.metadata;
  })

abbrev pub reader_column_count : GroupReader → ℕ
reader_column_count reader = length reader.descriptors

abbrev pub reader_row_group_count : GroupReader → ℕ
reader_row_group_count reader = length reader.headers

-- The loop of `cx_row_group_reader_string`, from the bytes that are left: `index` strings are passed
-- as long as there is one. A string that runs past the end fails the assertion.
unfoldable pub skip_to_string : ℕ → List ℕ → Outcome (Option (List ℕ))
skip_to_string zero bytes = done (if length bytes == 0 then none else some bytes)
skip_to_string (suc index) bytes =
    let rest = skip_to_string index (drop (strlen bytes + 1) bytes) in
    if length bytes == 0
    then done none
    else (if ltb (length bytes) (strlen bytes + 1) then aborted else rest)

-- `cx_row_group_reader_string`: the string at `string` up to its NUL, or NULL.
unfoldable pub reader_string : GroupReader → ℕ → Outcome (List ℕ)
unfolding skip_to_string
reader_string reader index = do
  assert (same_type reader.strings.type ColumnType.str)
  at ← skip_to_string index (take reader.strings.offset reader.strings.buffer)
  elim at [ none ↦ failed | some bytes ↦ done (take (strlen bytes) bytes) ]

-- `none` is the NULL of a file without metadata.
unfoldable pub group_reader_metadata : GroupReader → Outcome (Option (List ℕ))
unfolding reader_string
group_reader_metadata reader = elim reader.metadata [
  | negsuc _ ↦ done none
  | pos index ↦ reader_string reader index >>= λ string. done (some string)
]

unfoldable pub group_reader_column_name : GroupReader → ℕ → Outcome (List ℕ)
unfolding reader_string
group_reader_column_name reader i = elim (get_elem? reader.descriptors i) [
  | none ↦ failed
  | some d ↦ reader_string reader d.name
]

-- `assert(column < count)`, and a member of the descriptor.
abbrev pub of_descriptor : {A : Type 0} → (ColumnDescriptor → A) → GroupReader → ℕ → Outcome A
of_descriptor member reader i = elim (get_elem? reader.descriptors i) [
  | none ↦ aborted
  | some d ↦ done (member d)
]

unfoldable pub group_reader_column_type : GroupReader → ℕ → Outcome ℕ
group_reader_column_type = of_descriptor (λ d. d.type)

unfoldable pub group_reader_column_encoding : GroupReader → ℕ → Outcome ℕ
group_reader_column_encoding = of_descriptor (λ d. d.encoding)

-- The compression and its level.
unfoldable pub group_reader_column_compression : GroupReader → ℕ → Outcome (ℕ × ℤ)
group_reader_column_compression = of_descriptor (λ d. (d.compression, d.compression_level))
