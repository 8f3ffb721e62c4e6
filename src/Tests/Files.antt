-- ===== src/Tests/Files.antt =====
-- A small file, written and read, and the theorems at it.
use columnix.Base.{
  true, false, none, ℕ, ◌≡◌, refl, List, [], ◌∷◌, pos, negsuc, Outcome, done, failed, aborted,
  ◌>>=◌,
}
use columnix.Attempt.{success, failure, abort, Call, ◌>>◌}
use columnix.Common.{ColumnType, plain, CompressionType}
use columnix.System.{generous}
use columnix.File.Stream.{sound_disk}
use columnix.Writer.{
  Writer, writer_new, writer_add_column, writer_put_i32, writer_put_null, writer_finish,
  writer_metadata,
}
use columnix.GroupReader.{GroupReader, group_reader_new}
use columnix.GroupReader.Opens.{willing}
use columnix.Reader.{Reader, reader_new}
use columnix.Reader.Query.{Threading}
use columnix.Row.{RowCursor, row_cursor_next}
use columnix.Column.{Column}
use columnix.Predicate.{Predicate, node, nil, zeroed}

abbrev result : Outcome Writer → Call Writer (Unit {0}) → List ℕ
result (done w) m = elim (m w) [ success a v ↦ v.writer.file.bytes | failure v ↦ [] | abort ↦ [] ]
result failed m = []
result aborted m = []

-- Three rows of one column, two in the first row group.
unfoldable written : Call Writer (Unit {0})
unfolding writer_add_column writer_metadata writer_put_i32 writer_put_null writer_finish
written =
    writer_metadata generous (77 ∷ [])
    >> writer_add_column generous (65 ∷ []) ColumnType.i32 plain CompressionType.uncompressed
        (pos 0)
    >> writer_put_i32 generous sound_disk 0 (pos 5)
    >> writer_put_null generous sound_disk 0
    >> writer_put_i32 generous sound_disk 0 (negsuc 6)
    >> writer_finish generous sound_disk false

unfoldable file : List ℕ
unfolding written writer_new
file = result (writer_new generous sound_disk 2) written

-- Its bytes.
abbrev pub file_bytes : List ℕ
file_bytes =
    1 ∷ 2 ∷ 99 ∷ 120 ∷ 3 ∷ 4 ∷ 99 ∷ 120 ∷ 1 ∷ 0 ∷ 0 ∷ 0 ∷ 0 ∷ 0 ∷ 0 ∷ 0 ∷ 5 ∷ 0 ∷ 0 ∷ 0 ∷ 0 ∷ 0 ∷ 0
    ∷ 0 ∷ 2 ∷ 0 ∷ 0 ∷ 0 ∷ 0 ∷ 0 ∷ 0 ∷ 0 ∷ 16 ∷ 0 ∷ 0 ∷ 0 ∷ 0 ∷ 0 ∷ 0 ∷ 0 ∷ 8 ∷ 0 ∷ 0 ∷ 0 ∷ 0 ∷ 0 ∷ 0
    ∷ 0 ∷ 8 ∷ 0 ∷ 0 ∷ 0 ∷ 0 ∷ 0 ∷ 0 ∷ 0 ∷ 0 ∷ 0 ∷ 0 ∷ 0 ∷ 0 ∷ 0 ∷ 0 ∷ 0 ∷ 2 ∷ 0 ∷ 0 ∷ 0 ∷ 0 ∷ 0 ∷ 0
    ∷ 0 ∷ 0 ∷ 0 ∷ 0 ∷ 0 ∷ 0 ∷ 0 ∷ 0 ∷ 0 ∷ 5 ∷ 0 ∷ 0 ∷ 0 ∷ 0 ∷ 0 ∷ 0 ∷ 0 ∷ 24 ∷ 0 ∷ 0 ∷ 0 ∷ 0 ∷ 0 ∷ 0
    ∷ 0 ∷ 8 ∷ 0 ∷ 0 ∷ 0 ∷ 0 ∷ 0 ∷ 0 ∷ 0 ∷ 8 ∷ 0 ∷ 0 ∷ 0 ∷ 0 ∷ 0 ∷ 0 ∷ 0 ∷ 0 ∷ 0 ∷ 0 ∷ 0 ∷ 0 ∷ 0 ∷ 0
    ∷ 0 ∷ 2 ∷ 0 ∷ 0 ∷ 0 ∷ 0 ∷ 0 ∷ 0 ∷ 0 ∷ 0 ∷ 0 ∷ 0 ∷ 0 ∷ 0 ∷ 0 ∷ 0 ∷ 0 ∷ 5 ∷ 0 ∷ 0 ∷ 0 ∷ 0 ∷ 0 ∷ 0
    ∷ 0 ∷ 249 ∷ 255 ∷ 255 ∷ 255 ∷ 0 ∷ 0 ∷ 0 ∷ 0 ∷ 0 ∷ 0 ∷ 0 ∷ 0 ∷ 0 ∷ 0 ∷ 0 ∷ 0 ∷ 144 ∷ 0 ∷ 0 ∷ 0
    ∷ 0 ∷ 0 ∷ 0 ∷ 0 ∷ 4 ∷ 0 ∷ 0 ∷ 0 ∷ 0 ∷ 0 ∷ 0 ∷ 0 ∷ 4 ∷ 0 ∷ 0 ∷ 0 ∷ 0 ∷ 0 ∷ 0 ∷ 0 ∷ 0 ∷ 0 ∷ 0 ∷ 0
    ∷ 0 ∷ 0 ∷ 0 ∷ 0 ∷ 1 ∷ 0 ∷ 0 ∷ 0 ∷ 0 ∷ 0 ∷ 0 ∷ 0 ∷ 249 ∷ 255 ∷ 255 ∷ 255 ∷ 0 ∷ 0 ∷ 0 ∷ 0 ∷ 0 ∷ 0
    ∷ 0 ∷ 0 ∷ 0 ∷ 0 ∷ 0 ∷ 0 ∷ 152 ∷ 0 ∷ 0 ∷ 0 ∷ 0 ∷ 0 ∷ 0 ∷ 0 ∷ 8 ∷ 0 ∷ 0 ∷ 0 ∷ 0 ∷ 0 ∷ 0 ∷ 0 ∷ 8
    ∷ 0 ∷ 0 ∷ 0 ∷ 0 ∷ 0 ∷ 0 ∷ 0 ∷ 0 ∷ 0 ∷ 0 ∷ 0 ∷ 0 ∷ 0 ∷ 0 ∷ 0 ∷ 1 ∷ 0 ∷ 0 ∷ 0 ∷ 0 ∷ 0 ∷ 0 ∷ 0
    ∷ 249 ∷ 255 ∷ 255 ∷ 255 ∷ 0 ∷ 0 ∷ 0 ∷ 0 ∷ 0 ∷ 0 ∷ 0 ∷ 0 ∷ 0 ∷ 0 ∷ 0 ∷ 0 ∷ 65 ∷ 0 ∷ 77 ∷ 0 ∷ 0
    ∷ 0 ∷ 0 ∷ 0 ∷ 16 ∷ 0 ∷ 0 ∷ 0 ∷ 0 ∷ 0 ∷ 0 ∷ 0 ∷ 16 ∷ 0 ∷ 0 ∷ 0 ∷ 0 ∷ 0 ∷ 0 ∷ 0 ∷ 16 ∷ 0 ∷ 0 ∷ 0
    ∷ 0 ∷ 0 ∷ 0 ∷ 0 ∷ 144 ∷ 0 ∷ 0 ∷ 0 ∷ 0 ∷ 0 ∷ 0 ∷ 0 ∷ 0 ∷ 0 ∷ 0 ∷ 0 ∷ 1 ∷ 0 ∷ 0 ∷ 0 ∷ 0 ∷ 0 ∷ 0
    ∷ 0 ∷ 0 ∷ 0 ∷ 0 ∷ 0 ∷ 0 ∷ 0 ∷ 0 ∷ 0 ∷ 0 ∷ 0 ∷ 0 ∷ 0 ∷ 16 ∷ 1 ∷ 0 ∷ 0 ∷ 0 ∷ 0 ∷ 0 ∷ 0 ∷ 4 ∷ 0 ∷ 0
    ∷ 0 ∷ 0 ∷ 0 ∷ 0 ∷ 0 ∷ 1 ∷ 0 ∷ 0 ∷ 0 ∷ 0 ∷ 0 ∷ 0 ∷ 0 ∷ 2 ∷ 0 ∷ 0 ∷ 0 ∷ 1 ∷ 0 ∷ 0 ∷ 0 ∷ 3 ∷ 0 ∷ 0
    ∷ 0 ∷ 0 ∷ 0 ∷ 0 ∷ 0 ∷ 56 ∷ 0 ∷ 0 ∷ 0 ∷ 1 ∷ 0 ∷ 0 ∷ 0 ∷ 1 ∷ 2 ∷ 99 ∷ 120 ∷ 3 ∷ 4 ∷ 99 ∷ 120 ∷ []

-- The same file opened.
abbrev pub sample : Reader
sample = record {
  reader = record {
    bytes = file_bytes;
    row_count = 3;
    strings = record {
      buffer = 65 ∷ 0 ∷ 77 ∷ 0 ∷ [];
      count = 0;
      offset = 4;
      size = 4;
      type = ColumnType.str;
      encoding = plain;
      mmapped = true;
    };
    descriptors =
        record { name = 0; type = 1; encoding = 0; compression = 0; compression_level = pos 0 }
        ∷ [];
    headers = record { size = 16; offset = 16 } ∷ record { size = 16; offset = 144 } ∷ [];
    metadata = pos 1;
  };
  predicate = node zeroed nil;
  row_cursor = none;
  row_group_count = 2;
  position = 0;
  match_all_rows = true;
  error = false;
}

-- A client that looks at the first row of each row group.
abbrev pub first_row : RowCursor → Outcome RowCursor
first_row c = row_cursor_next generous c >>= λ (there_is, next). done next

abbrev pub threads_work : Threading
threads_work = record { inits = true; creates = true }

abbrev pub in_turns : List ℕ
in_turns = 0 ∷ 1 ∷ 1 ∷ 0 ∷ 0 ∷ 1 ∷ []

reader_new-sample : reader_new generous (λ _ ps. ps) willing file_bytes ≡ done sample
unfolding reader_new group_reader_new columnix.Predicate.new_true columnix.GroupReader.read_footer
    columnix.Column.new_mmapped
reader_new-sample = refl
