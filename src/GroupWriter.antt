-- ===== src/GroupWriter.antt =====
-- lib/writer.c: `cx_row_group_writer`, which writes whole row groups to a file, and the footer.
pub mod Put
pub mod Finish
pub mod Append
pub mod Tail
pub mod Closing
pub mod Written
pub mod Saved
pub mod Puts
pub mod Groups
pub mod Whole
pub mod Building
pub mod Created
use columnix.Base.{
  ℕ, suc, ◌+◌, ◌-◌, ◌*◌, ◌%◌, Bool, true, false, not, ◌&&◌, List, [], ◌∷◌, ◌++◌, Option, none, some,
  ◌==◌, ltb, if◌then◌else◌, word_mod, add64, length, ℤ, Outcome, done, failed,
}
use columnix.Attempt.{
  Attempt, success, failure, abort, Call, pure, ◌>>=◌, ◌>>◌, current, modify, check, ensure, lift,
  on_failure,
}
use columnix.Common.{
  ColumnType, EncodingType, plain, CompressionType, column_type_code, compression_code,
}
use columnix.System.{System}
use columnix.Column.{Column, new, put_str}
use columnix.File.{
  ColumnDescriptor, RowGroupHeader, file_magic, file_version, write_align, header_widths,
}
use columnix.File.Struct.{pack}
use columnix.File.Stream.{Disk, Stream, fwrite, fseeko}

-- `strings` is the column of the strings, `strings_count` their number.
pub record GroupWriter : Type 0 where
  pub file : Stream
  pub descriptors : List ColumnDescriptor
  pub descriptors_size : ℕ
  pub headers : List RowGroupHeader
  pub headers_size : ℕ
  pub strings : Column
  pub strings_count : ℕ
  pub metadata : Option (List ℕ)
  pub row_count : ℕ
  pub header_written : Bool
  pub footer_written : Bool

abbrev pub encoding_code : EncodingType → ℕ
encoding_code plain = 0

-- sizeof(struct cx_row_group_writer)
abbrev pub group_writer_size : ℕ
group_writer_size = 104

unfoldable pub group_writer_new : System → Disk → Outcome GroupWriter
group_writer_new sys disk = elim (sys.grants group_writer_size) [
  | false ↦ failed
  | true ↦ elim (new sys ColumnType.str plain) [
    | done strings ↦
        if disk.opens
        then done (record {
          file = record { bytes = []; position = 0 };
          descriptors = [];
          descriptors_size = 0;
          headers = [];
          headers_size = 0;
          strings = strings;
          strings_count = 0;
          metadata = none;
          row_count = 0;
          header_written = false;
          footer_written = false;
        })
        else failed
    | failed ↦ failed
    | Outcome.aborted ↦ Outcome.aborted
  ]
]

-- The string is copied, with its NUL.
unfoldable pub group_writer_metadata : System → List ℕ → Call GroupWriter (Unit {0})
group_writer_metadata sys metadata = do
  check (sys.grants (length metadata + 1))
  modify (λ w. record w { metadata = some metadata })

-- The number of the string, as a `uint32_t`.
unfoldable pub add_string : System → List ℕ → Call GroupWriter ℕ
add_string sys string = do
  w ← current
  strings ← lift (put_str sys w.strings string)
  modify (λ v. record v { strings = strings; strings_count = w.strings_count + 1 })
  pure (w.strings_count % 4294967296)

-- Room for one descriptor more: 8 at first, then twice as many.
unfoldable pub ensure_descriptors : System → Call GroupWriter (Unit {0})
ensure_descriptors sys = do
  w ← current
  let first = do check (sys.grants (24 * 8)); modify (λ v. record v { descriptors_size = 8 })
  let new_size = w.descriptors_size * 2 % word_mod
  let grown = do
    ensure (not (new_size == 0) && ltb w.descriptors_size new_size)
    check (sys.grants (new_size * 24))
    modify (λ v. record v { descriptors_size = new_size })
  (if length w.descriptors == 0
      then first
      else (if length w.descriptors == w.descriptors_size then grown else pure tt))

-- The descriptor is there before its name is: it stays, with name 0, if the name cannot be added.
abbrev pub set_name : ℕ → List ColumnDescriptor → List ColumnDescriptor
set_name name [] = []
set_name name (d ∷ []) = record d { name = name } ∷ []
set_name name (d ∷ e ∷ ds) = d ∷ set_name name (e ∷ ds)

unfoldable pub group_writer_add_column :
    System → List ℕ → ColumnType → EncodingType → CompressionType → ℤ → Call GroupWriter (Unit {0})
unfolding add_string ensure_descriptors
group_writer_add_column sys name type encoding compression level = do
  w ← current
  check (not w.header_written)
  ensure_descriptors sys
  modify (λ v. record v {
    descriptors =
        v.descriptors
        ++ record {
          name = 0;
          type = column_type_code type;
          encoding = encoding_code encoding;
          compression = compression_code compression;
          compression_level = level;
        }
          ∷ [];
  })
  id ← add_string sys name
  modify (λ v. record v { descriptors = set_name id v.descriptors })

-- `cx_write_align`
unfoldable pub align : ℕ → ℕ
align offset =
    if offset % write_align == 0
    then offset
    else (offset - offset % write_align + write_align) % word_mod

-- A stream operation on the writer's file.
abbrev pub on_file : (Stream → Bool × Stream) → Call GroupWriter (Unit {0})
on_file op w =
    let (ok, file) = op w.file in
    if ok then success tt (record w { file = file }) else failure (record w { file = file })

-- `cx_row_group_writer_seek`, whose result is not looked at on an error path.
unfoldable pub seek : Disk → ℕ → Call GroupWriter (Unit {0})
seek disk offset = on_file (λ file. fseeko disk file offset)

abbrev pub seek_back : Disk → ℕ → GroupWriter → GroupWriter
seek_back disk offset w = let (ok, file) = fseeko disk w.file offset in record w { file = file }

-- `cx_row_group_writer_write`
unfoldable pub write : Disk → List ℕ → Call GroupWriter (Unit {0})
unfolding align seek
write disk block = do
  w ← current
  let offset = w.file.position
  let aligned = if offset == align offset then pure tt else seek disk (align offset)
  let written = do aligned; on_file (λ file. fwrite disk file block)
  if length block == 0 then pure tt else written

-- The header, and the stream at the start again if it cannot be written.
abbrev pub write_header : Disk → Call GroupWriter (Unit {0})
write_header disk = do
  on_failure (λ v. record v { file = record v.file { position = 0 } })
      (write disk (pack header_widths (file_magic ∷ file_version ∷ 0 ∷ [])))
  modify (λ v. record v { header_written = true })

unfoldable pub ensure_header : Disk → Call GroupWriter (Unit {0})
unfolding write
ensure_header disk = do w ← current; (if w.header_written then pure tt else write_header disk)
