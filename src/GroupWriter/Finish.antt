-- ===== src/GroupWriter/Finish.antt =====
-- lib/writer.c: `cx_row_group_writer_finish`, the strings, the headers of the row groups, the
-- descriptors and the footer.
use columnix.Base.{
  ℕ, ◌%◌, Bool, true, List, Option, none, some, if◌then◌else◌, length, take, ℤ, to_signed,
}
use columnix.Attempt.{Call, pure, ◌>>=◌, ◌>>◌, current, modify, check, on_failure}
use columnix.System.{System}
use columnix.Column.{half32}
use columnix.File.{
  Footer, footer_members, footer_widths, footer_size, descriptor_members, descriptor_widths,
  row_group_header_members, row_group_header_widths, file_magic, file_version,
}
use columnix.File.Struct.{pack, array_bytes}
use columnix.File.Stream.{Disk, ftruncate}
use columnix.GroupWriter.{GroupWriter, add_string, write, seek_back, ensure_header, on_file}

abbrev pub word32 : ℕ
word32 = 4294967296

-- The metadata goes to the strings; its number, or -1, as an `int32_t`.
abbrev pub metadata_string : System → Option (List ℕ) → Call GroupWriter ℤ
metadata_string sys none = pure (ℤ.negsuc 0)
metadata_string sys (some metadata) = do id ← add_string sys metadata; pure (to_signed half32 id)

unfoldable pub add_metadata : System → Call GroupWriter ℤ
unfolding add_string
add_metadata sys = do w ← current; metadata_string sys w.metadata

-- The footer of a file whose strings stand at `offset`. Counts are cut to 32 bits.
abbrev pub footer_for : GroupWriter → ℕ → ℤ → Footer
footer_for w offset metadata = record {
  strings_offset = offset;
  strings_size = w.strings.offset;
  metadata = metadata;
  row_group_count = length w.headers % word32;
  column_count = length w.descriptors % word32;
  row_count = w.row_count;
  size = footer_size;
  version = file_version;
  magic = file_magic;
}

-- The size of the file is set, and it is synced.
abbrev pub close_file : Disk → Bool → Call GroupWriter (Unit {0})
close_file disk sync = do
  v ← current
  on_file (λ file. ftruncate disk file v.file.position)
  check (if sync then disk.syncs else true)
  modify (λ u. record u { footer_written = true })

-- What is written behind the row groups; an error seeks back to `offset`.
unfoldable pub write_tail : Disk → Bool → ℕ → ℤ → Call GroupWriter (Unit {0})
write_tail disk sync offset metadata = do
  w ← current
  write disk (take w.strings.offset w.strings.buffer)
  write disk
      (array_bytes (λ h. pack row_group_header_widths (row_group_header_members h)) w.headers)
  write disk (array_bytes (λ d. pack descriptor_widths (descriptor_members d)) w.descriptors)
  write disk (pack footer_widths (footer_members (footer_for w offset metadata)))
  close_file disk sync

-- The metadata and what follows it, from where the stream stands.
abbrev pub finish_file : System → Disk → Bool → Call GroupWriter (Unit {0})
finish_file sys disk sync = do
  v ← current
  metadata ← add_metadata sys
  on_failure (seek_back disk v.file.position) (write_tail disk sync v.file.position metadata)

unfoldable pub group_writer_finish : System → Disk → Bool → Call GroupWriter (Unit {0})
unfolding add_metadata write_tail
group_writer_finish sys disk sync = do
  w ← current
  (if w.footer_written then pure tt else ensure_header disk >> finish_file sys disk sync)
