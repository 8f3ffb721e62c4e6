-- ===== src/Tests/Groups.antt =====
-- The theorems on row groups in a file, at a row group of two rows and at small disks.
use columnix.Base.{
  true, false, none, some, inr, ℕ, ◌-◌, ◌≤◌, ◌<◌, ◌≡◌, refl, sym, ap, Option, List, [], ◌∷◌, min,
  leb, take, drop, length, pos, done, ◌>>=◌, arith,
}
use columnix.Attempt.{success, failure}
use columnix.Common.{ColumnType, plain, uncompressed}
use columnix.System.{System, generous}
use columnix.Compress.Roundtrip.{Inverts}
use columnix.Column.{Column}
use columnix.Column.Grow.{Grants}
use columnix.Index.{Index}
use columnix.RowGroup.{
  RowGroup, load_lazy, column_index, group_column, group_nulls, new as row_group_new,
}
use columnix.File.{ColumnHeader}
use columnix.File.Fits.{ColumnHeaderFits}
use columnix.File.Stream.{Disk}
use columnix.GroupWriter.{GroupWriter, align, ensure_header}
use columnix.GroupWriter.Put.{Stored, compress_column, group_writer_put}
use columnix.GroupWriter.Written.{Limits, Within}
use columnix.GroupWriter.Saved.{Saved, SavedColumns}
use columnix.GroupWriter.Groups.{Added}
use columnix.GroupWriter.Whole.{Refused, Put, group_writer_put-Refused, group_writer_put-Put}
use columnix.GroupReader.Get.{lazy_of, group_reader_get}
use columnix.GroupReader.Restore.{Frames, Restored, load_lazy-Restored}
use columnix.GroupReader.Regain.{add_all, group_reader_get-Added}
use columnix.Tests.Files.{sample, file_bytes}

abbrev pub fives : Column
fives = record {
  buffer = 5 ∷ 0 ∷ 0 ∷ 0 ∷ 0 ∷ 0 ∷ 0 ∷ 0 ∷ [];
  count = 2;
  offset = 8;
  size = 64;
  type = ColumnType.i32;
  encoding = plain;
  mmapped = false;
}

abbrev pub second_null : Column
second_null = record {
  buffer = 2 ∷ 0 ∷ 0 ∷ 0 ∷ 0 ∷ 0 ∷ 0 ∷ 0 ∷ [];
  count = 2;
  offset = 8;
  size = 64;
  type = ColumnType.bit;
  encoding = plain;
  mmapped = false;
}

abbrev bounds : Index
bounds = record { count = 2; min = 0; max = 5 }

abbrev null_bounds : Index
null_bounds = record { count = 2; min = 0; max = 1 }

abbrev two_rows : RowGroup
two_rows = record {
  columns =
      record {
        type = ColumnType.i32;
        encoding = plain;
        values = record { index = bounds; column = some fives; lazy_column = none };
        nulls = record { index = null_bounds; column = some second_null; lazy_column = none };
        lazy = false;
      }
      ∷ [];
  size = 8;
  row_count = 2;
}

-- A writer that has written the header of the file.
abbrev pub begun : GroupWriter
begun = record {
  file = record { bytes = take 16 file_bytes; position = 16 };
  descriptors = sample.reader.descriptors;
  descriptors_size = 8;
  headers = [];
  headers_size = 0;
  strings = record {
    buffer = 65 ∷ 0 ∷ [];
    count = 1;
    offset = 2;
    size = 64;
    type = ColumnType.str;
    encoding = plain;
    mmapped = false;
  };
  strings_count = 1;
  metadata = none;
  row_count = 0;
  header_written = true;
  footer_written = false;
}

pub begun-Within : Within begun.file
begun-Within = record { inside = omega arith; small = omega arith }

-- A disk that takes what fits below the largest offset, and one that is full.
abbrev pub large_disk : Disk
large_disk = record {
  opens = true;
  accepts = λ p n. min n (9223372036854775807 - p);
  seeks = λ p. leb p 9223372036854775807;
  truncates = λ _. true;
  syncs = true;
}

pub large_disk-Limits : Limits large_disk
large_disk-Limits = record {
  accepts-le = λ p n. omega arith;
  accepts-max = λ p n h. omega arith;
  seeks-max = λ p h. ground (arith, h);
}

abbrev full_disk : Disk
full_disk = record large_disk { accepts = λ p n. 0 }

full_disk-Limits : Limits full_disk
full_disk-Limits = record {
  accepts-le = λ p n. omega arith;
  accepts-max = λ p n h. omega arith;
  seeks-max = λ p h. ground (arith, h);
}

abbrev put : GroupWriter
put = record begun {
  file = record { bytes = take 144 file_bytes; position = 144 };
  headers = record { size = 16; offset = 16 } ∷ [];
  headers_size = 16;
  row_count = 2;
}

put-sample : group_writer_put generous large_disk two_rows begun ≡ success tt put
unfolding group_writer_put columnix.RowGroup.column_type ensure_header group_column group_nulls
    column_index columnix.File.Stream.fwrite columnix.Compress.compress
put-sample = refl

full-sample :
    group_writer_put generous full_disk two_rows begun
    ≡ failure (record begun { headers_size = 16 })
unfolding group_writer_put columnix.RowGroup.column_type ensure_header group_column group_nulls
    column_index columnix.File.Stream.fwrite columnix.File.Stream.fseeko
full-sample = refl

group_writer_put-Put_example : Put generous large_disk large_disk-Limits two_rows begun put
group_writer_put-Put_example =
    group_writer_put-Put generous large_disk large_disk-Limits two_rows begun put begun-Within refl
      put-sample

group_writer_put-Refused_example : Refused full_disk begun (record begun { headers_size = 16 })
group_writer_put-Refused_example =
    group_writer_put-Refused generous full_disk full_disk-Limits two_rows begun
      (record begun { headers_size = 16 }) begun-Within refl refl full-sample

abbrev value_header : ColumnHeader
value_header = record {
  offset = 16;
  size = 8;
  decompressed_size = 8;
  compression = 0;
  encoding = 0;
  index = bounds;
}

abbrev null_header : ColumnHeader
null_header = record {
  offset = 24;
  size = 8;
  decompressed_size = 8;
  compression = 0;
  encoding = 0;
  index = bounds;
}

abbrev as_it_is : Column → Stored
as_it_is column = record { code = 0; block = column.buffer }

fives-Saved : Saved generous fives bounds 0 (pos 0) (take 144 file_bytes) value_header
unfolding compress_column align
fives-Saved = record {
  stored = as_it_is fives;
  compressed = refl;
  block = refl;
  reach = omega arith;
  there = inr (omega arith);
  size = refl;
  whole = refl;
  code_of = refl;
  index_of = refl;
}

null-Saved : Saved generous second_null bounds 1 (pos 0) (take 144 file_bytes) null_header
unfolding compress_column align columnix.Compress.compress
null-Saved = record {
  stored = as_it_is second_null;
  compressed = refl;
  block = refl;
  reach = omega arith;
  there = inr (omega arith);
  size = refl;
  whole = refl;
  code_of = refl;
  index_of = refl;
}

column_of-sample : group_column generous two_rows 0 ≡ done (fives, two_rows)
unfolding group_column
column_of-sample = refl

nulls_of-sample : group_nulls generous two_rows 0 ≡ done (second_null, two_rows)
unfolding group_nulls
nulls_of-sample = refl

index_of-sample : column_index two_rows 0 ≡ done bounds
unfolding column_index
index_of-sample = refl

-- The writer with room for the header of the row group.
abbrev roomy : GroupWriter
roomy = record begun { headers_size = 16 }

abbrev put-Added : Added generous two_rows roomy put
put-Added = record {
  headers = value_header ∷ null_header ∷ [];
  front = take 32 file_bytes;
  entry = record { size = 16; offset = 16 };
  stored = refl;
  extends = record {
    more = drop 16 (take 144 file_bytes);
    stored = refl;
    within = record { inside = omega arith; small = omega arith };
  };
  begins = refl;
  ends = refl;
  aligned = refl;
  columns = (
    two_rows,
    record {
      column = fives;
      nulls = second_null;
      with_column = two_rows;
      index = bounds;
      column_of = column_of-sample;
      nulls_of = nulls_of-sample;
      index_of = index_of-sample;
      values_saved = fives-Saved;
      nulls_saved = null-Saved;
    },
    tt,
  );
  rest = refl;
}

header-Fits :
    (h : ColumnHeader)
    → h.offset ≤ 100
    → h.size ≤ 100
    → h.decompressed_size ≤ 100
    → h.compression ≤ 3
    → h.encoding ≡ 0
    → h.index ≡ bounds
    → ColumnHeaderFits h
header-Fits h o s d c e i = record {
  offset = omega (arith, o);
  size = omega (arith, s);
  decompressed_size = omega (arith, d);
  compression = omega (arith, c);
  encoding = omega (arith, e);
  count = rw i (omega arith);
  min = rw i (omega arith);
  max = rw i (omega arith);
}

group_reader_get-Added_example :
    (group_reader_get generous sample.reader 0 ≡ (
      row_group_new generous >>= λ empty.
      add_all generous sample.reader sample.reader.descriptors
        (value_header ∷ null_header ∷ [])
        empty))
    × SavedColumns generous file_bytes two_rows 0 sample.reader.descriptors
        (value_header ∷ null_header ∷ [])
group_reader_get-Added_example =
    group_reader_get-Added generous two_rows roomy put put-Added sample.reader 0
      (drop 144 file_bytes)
      (
        header-Fits value_header (omega arith) (omega arith) (omega arith) (omega arith) refl refl,
        (
          header-Fits null_header (omega arith) (omega arith) (omega arith) (omega arith) refl refl,
          tt,
        ),
      )
      refl (omega arith) refl refl

generous-Grants : Grants generous
generous-Grants n = refl

-- A Zstandard that refuses an empty source.
abbrev some_only : List ℕ → Option (List ℕ)
some_only [] = none
some_only (b ∷ bs) = some (b ∷ bs)

abbrev careful : System
careful = record generous { zstd_compress = λ src room level. some_only src }

careful-zstd :
    (src out : List ℕ) → some_only src ≡ some out → (some out ≡ some src) × (0 < length out)
careful-zstd [] out h = cc
careful-zstd (b ∷ bs) out h =
    let e : (b ∷ bs) ≡ out = cc in (ap some (sym e), rw (sym e) (omega arith))

careful-Inverts : Inverts careful
careful-Inverts = record {
  fast = λ level src room h. refl;
  hc = λ level src room h. refl;
  zstd = λ level src out room h. (careful-zstd src out h).0;
}

careful-Frames : Frames careful
careful-Frames = record { frame = λ src out room level h. (careful-zstd src out h).1 }

careful-Saved : Saved careful second_null bounds 1 (pos 0) file_bytes null_header
unfolding compress_column align columnix.Compress.compress
careful-Saved = record {
  stored = as_it_is second_null;
  compressed = refl;
  block = refl;
  reach = omega arith;
  there = inr (omega arith);
  size = refl;
  whole = refl;
  code_of = refl;
  index_of = refl;
}

load_lazy-Restored_example :
    (result : Column) × (load_lazy careful
        (lazy_of sample.reader ColumnType.bit uncompressed null_header)
        2
      ≡ done result)
    × Restored second_null result ColumnType.bit 2
load_lazy-Restored_example =
    load_lazy-Restored careful generous-Grants careful-Inverts careful-Frames sample.reader
      second_null refl bounds 1 (pos 0) null_header careful-Saved ColumnType.bit 2 uncompressed refl
