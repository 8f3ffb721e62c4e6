-- ===== src/Tests/Columns.antt =====
-- The theorems on columns and on the indexes of columns at concrete inputs.
use columnix.Base.{
  true, none, some, inl, ℕ, false, ◌≡◌, refl, List, [], ◌∷◌, map, ℤ, pos, negsuc, of_signed,
  bytes_of, done, arith,
}
use columnix.Common.{ColumnType, plain}
use columnix.System.{generous}
use columnix.Scalar
use columnix.Column.{Column, half32, resize}
use columnix.Column.Grow.{Grants, Writable, Grown, resize-Grown}
use columnix.Column.Cells.{Holds, At, i32_codec}
use columnix.RowGroup.{RowGroupColumn, physical_column}
use columnix.RowGroup.Table.{Tracks, Usable, Served, batch_values-Served}
use columnix.RowGroup.Cursor.{RowGroupCursor, idle, Reading, absent, load}
use columnix.RowGroup.Reading.{Has, reader_of, load-Has}
use columnix.Column.Access.{write_and_read}
use columnix.Column.Types.{access_of, write_and_read_lem}
use columnix.Index.{Index, index_new}
use columnix.Index.New.{Ordered, Describes, index_new-Describes}

generous-Grants : Grants generous
generous-Grants n = refl

abbrev readings : List ℤ
readings = pos 3 ∷ negsuc 1 ∷ pos 7 ∷ []

-- A column of three numbers.
abbrev three : Column
three = record {
  buffer = bytes_of 4 (map (of_signed half32) readings);
  count = 3;
  offset = 12;
  size = 64;
  type = ColumnType.i32;
  encoding = plain;
  mmapped = false;
}

three-Writable : Writable three
three-Writable = record { own = refl; some_size = omega arith; within = omega arith; full = refl }

three-Holds : Holds i32_codec readings three
three-Holds = record {
  typed = refl;
  stored = refl;
  tail = refl;
  counted = refl;
  in_range = omega arith;
}

resize-Grown_example :
    (r : ℕ) × (resize generous three 100 ≡ done (record three { size = r })) × Grown 64 112 r
resize-Grown_example = resize-Grown generous generous-Grants three-Writable 100 (omega arith)

write_and_read_lem_example :
    write_and_read (access_of ColumnType.i32) generous 3 readings ≡ done readings
write_and_read_lem_example =
    write_and_read_lem ColumnType.i32 generous generous-Grants readings (omega arith) (omega arith)
      (omega arith)

index_new-Describes_example :
    (index : Index) × (index_new generous three ≡ done index) × Describes Scalar.i32 readings index
index_new-Describes_example =
    index_new-Describes Ordered.i32 generous generous-Grants three readings refl three-Holds
      (omega arith) (omega arith)

three-At : At i32_codec readings (record { column = three; position = 0 }) 0
three-At = record { holds = three-Holds; small = omega arith; at = refl; inside = omega arith }

-- A reading that was opened and has read nothing.
abbrev fresh : Reading
fresh = record {
  cursor = some (record { column = three; position = 0 });
  position = 0;
  batch = absent;
  count = 0;
}

load-Has_example :
    (next : Reading) × (load (reader_of ColumnType.i32) 0 fresh ≡ done next)
    × Has ColumnType.i32 readings 0 next
load-Has_example = load-Has ColumnType.i32 readings 0 fresh (omega arith) refl (omega arith) (
    inl (record {
      column_cursor = record { column = three; position = 0 };
      opened = refl;
      stands = three-At;
      behind = omega arith;
      aligned = refl;
    }))

abbrev no_index : Index
no_index = record { count = 3; min = 0; max = 0 }

abbrev entry : RowGroupColumn
entry = record {
  type = ColumnType.i32;
  encoding = plain;
  values = record { index = no_index; column = some three; lazy_column = none };
  nulls = record { index = no_index; column = none; lazy_column = none };
  lazy = false;
}

-- A cursor over a row group with that column, which was not read yet.
abbrev scan : RowGroupCursor
scan = record {
  row_group = record { columns = entry ∷ []; size = 8; row_count = 3 };
  column_count = 1;
  row_count = 3;
  position = 0;
  initialized = true;
  columns = record { values = idle; nulls = idle } ∷ [];
}

scan-Tracks : Tracks generous ColumnType.i32 readings (Usable ColumnType.i32 readings 0) scan 0
unfolding physical_column
scan-Tracks = record {
  known = omega arith;
  entry = entry;
  found = refl;
  stored = record {
    column = three;
    loaded = entry.values;
    loads = refl;
    kept = refl;
    contains = three-Holds;
    small = omega arith;
    advised = refl;
  };
  readings = record { values = idle; nulls = idle };
  read = refl;
  state = inl (record { closed = refl; at_start = refl });
}

batch_values-Served_example : Served generous ColumnType.i32 readings scan 0
batch_values-Served_example =
    batch_values-Served generous generous-Grants ColumnType.i32 readings scan 0 (omega arith) refl
      (omega arith) scan-Tracks
