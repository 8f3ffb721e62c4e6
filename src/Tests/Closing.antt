-- ===== src/Tests/Closing.antt =====
-- The theorems on closing and opening a file, at a writer with a column and a row group.
use columnix.Base.{
  none, get_elem?, true, false, some, ℕ, ◌%◌, ◌≤◌, ◌<◌, ◌≡◌, refl, List, [], ◌∷◌, ◌++◌, length, pos,
  done, arith,
}
use columnix.Attempt.{success}
use columnix.Common.{ColumnType, plain, uncompressed, zstd}
use columnix.System.{generous}
use columnix.Column.{Column}
use columnix.Column.Grow.{Grants}
use columnix.File.Stream.{sound_disk}
use columnix.GroupWriter.{GroupWriter, group_writer_new, group_writer_add_column, align}
use columnix.GroupWriter.Created.{
  ColumnSpec, Fit, add_each_column, described, created_file-Reopened,
}
use columnix.GroupWriter.Building.{Spare, descriptor, group_writer_add_column-Ready}
use columnix.GroupWriter.Append.{Sound, align-IsNext}
use columnix.GroupWriter.Closing.{Ready}
use columnix.GroupWriter.Finish.{group_writer_finish}
use columnix.GroupReader.{group_reader_metadata, GroupReader, group_reader_new, reader_string}
use columnix.GroupReader.Opens.{willing}
use columnix.GroupReader.Strings.{string_or_null, Keeps, reader_string-eq}
use columnix.GroupReader.Reopen.{Reopened, finish-Reopened}
use columnix.Tests.Files.{sample}

generous-Grants : Grants generous
generous-Grants n = refl

sound_disk-Sound : Sound sound_disk
sound_disk-Sound = record {
  accepts_all = λ p n. refl;
  seeks_all = λ p. refl;
  truncates_all = λ p. refl;
  syncs_all = refl;
}

align-IsNext_example : (align 13 % 8 ≡ 0) × (13 ≤ align 13) × (align 13 < 21)
align-IsNext_example = align-IsNext 13 (omega arith)

sample-Keeps : Keeps ((65 ∷ []) ∷ (77 ∷ []) ∷ []) sample.reader
sample-Keeps = record {
  typed = refl;
  stored = refl;
  clean = ((λ e. absurd (omega arith), tt), ((λ e. absurd (omega arith), tt), tt));
}

reader_string-eq_example : reader_string sample.reader 1 ≡ done (77 ∷ [])
reader_string-eq_example =
    reader_string-eq ((65 ∷ []) ∷ (77 ∷ []) ∷ []) sample.reader 1 sample-Keeps

abbrev names : List (List ℕ)
names = (65 ∷ []) ∷ []

abbrev strings : Column
strings = record {
  buffer = 65 ∷ 0 ∷ [];
  count = 1;
  offset = 2;
  size = 64;
  type = ColumnType.str;
  encoding = plain;
  mmapped = false;
}

abbrev writer : GroupWriter
writer = record {
  file = record {
    bytes =
        1 ∷ 2 ∷ 99 ∷ 120 ∷ 3 ∷ 4 ∷ 99 ∷ 120 ∷ 1 ∷ 0 ∷ 0 ∷ 0 ∷ 0 ∷ 0 ∷ 0 ∷ 0 ∷ 5 ∷ 6 ∷ 7 ∷ 8 ∷ 0 ∷ 0
        ∷ 0 ∷ 0 ∷ [];
    position = 24;
  };
  descriptors =
      record { name = 0; type = 1; encoding = 0; compression = 0; compression_level = pos 0 } ∷ [];
  descriptors_size = 8;
  headers = record { size = 8; offset = 16 } ∷ [];
  headers_size = 16;
  strings = strings;
  strings_count = 1;
  metadata = some (77 ∷ []);
  row_count = 3;
  header_written = true;
  footer_written = false;
}

writer-Ready : Ready names writer
writer-Ready = record {
  at_end = refl;
  aligned = refl;
  unfinished = refl;
  stocked = record {
    writable = record { own = refl; some_size = omega arith; within = omega arith; full = refl };
    holds = record {
      typed = refl;
      stored = refl;
      tail = refl;
      counted = refl;
      clean = ((λ e. absurd (omega arith), tt), tt);
    };
    counted = refl;
    few = omega arith;
    room = omega arith;
    clean = ((λ e. absurd (omega arith), tt), tt);
  };
  headers_fit = (record { size = omega arith; offset = omega arith }, tt);
  descriptors_fit = (
    record {
      name = omega arith;
      type = omega arith;
      encoding = omega arith;
      compression = omega arith;
      level = omega arith;
    },
    tt,
  );
  few_headers = omega arith;
  few_descriptors = omega arith;
  rows = omega arith;
  small = omega arith;
}

finish-Reopened_example :
    (last : GroupWriter) × (reader : GroupReader) × (group_writer_finish generous sound_disk true
        writer
      ≡ success tt last)
    × (last.footer_written ≡ true)
    × (group_reader_new generous willing last.file.bytes ≡ done reader)
    × Reopened names writer reader
finish-Reopened_example =
    finish-Reopened generous sound_disk true names writer generous-Grants sound_disk-Sound
      writer-Ready

-- Two columns, `A` of i32 and `BC` of str.
abbrev specs : List ColumnSpec
specs =
    record {
      name = 65 ∷ [];
      type = ColumnType.i32;
      encoding = plain;
      compression = uncompressed;
      level = pos 0;
    }
    ∷ record {
      name = 66 ∷ 67 ∷ [];
      type = ColumnType.str;
      encoding = plain;
      compression = zstd;
      level = pos 3;
    }
    ∷ []

specs-Fit : Fit specs
specs-Fit = record {
  clean = (
    (λ e. absurd (omega arith), tt),
    ((λ e. absurd (omega arith), (λ e. absurd (omega arith), tt)), tt),
  );
  signed = (omega arith, (omega arith, tt));
}

created_file-Reopened_example :
    (w : GroupWriter) × (v : GroupWriter) × (last : GroupWriter) × (reader : GroupReader)
    × (group_writer_new generous sound_disk ≡ done w)
    × (add_each_column generous specs w ≡ success tt v)
    × (group_writer_finish generous sound_disk true v ≡ success tt last)
    × (group_reader_new generous willing last.file.bytes ≡ done reader)
    × (reader.row_count ≡ 0)
    × (reader.headers ≡ [])
    × (reader.descriptors ≡ described 0 specs)
    × ((i : ℕ)
        → reader_string reader i ≡ string_or_null (get_elem? ((65 ∷ []) ∷ (66 ∷ 67 ∷ []) ∷ []) i))
    × (group_reader_metadata reader ≡ done none)
created_file-Reopened_example =
    created_file-Reopened generous sound_disk true specs generous-Grants sound_disk-Sound refl
      specs-Fit (omega arith) (omega arith)

-- The writer before its file header is there, and one more column.
abbrev early : GroupWriter
early = record writer { header_written = false }

early-Ready : Ready names early
early-Ready = record {
  at_end = writer-Ready.at_end;
  aligned = writer-Ready.aligned;
  unfinished = writer-Ready.unfinished;
  stocked = record {
    writable = writer-Ready.stocked.writable;
    holds = writer-Ready.stocked.holds;
    counted = refl;
    few = omega arith;
    room = omega arith;
    clean = writer-Ready.stocked.clean;
  };
  headers_fit = writer-Ready.headers_fit;
  descriptors_fit = writer-Ready.descriptors_fit;
  few_headers = omega arith;
  few_descriptors = omega arith;
  rows = omega arith;
  small = omega arith;
}

early-Spare : Spare names (66 ∷ []) (pos 3) early
early-Spare = record {
  clean = (λ e. absurd (omega arith), tt);
  few = omega arith;
  room = omega arith;
  signed = omega arith;
  array = omega arith;
  size = omega arith;
  few_descriptors = omega arith;
  small = omega arith;
}

group_writer_add_column-Ready_example :
    (v : GroupWriter) × (group_writer_add_column generous
        (66 ∷ [])
        ColumnType.i64
        plain
        zstd
        (pos 3)
        early
      ≡ success tt v)
    × Ready (names ++ (66 ∷ []) ∷ []) v
    × (v.descriptors ≡ early.descriptors ++ descriptor 1 ColumnType.i64 plain zstd (pos 3) ∷ [])
    × (length v.descriptors ≤ v.descriptors_size)
group_writer_add_column-Ready_example =
    group_writer_add_column-Ready generous generous-Grants names (66 ∷ []) ColumnType.i64 plain zstd
      (pos 3) early early-Ready early-Spare refl
