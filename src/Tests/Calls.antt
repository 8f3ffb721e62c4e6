-- ===== src/Tests/Calls.antt =====
-- The theorems on single calls of the writer and the reader.
use columnix.Base.{Option, List, sym, ap, ℕ, false, none, some, ◌≡◌, refl, [], ◌∷◌, pos, arith}
use columnix.Attempt.{Attempt, success, failure, abort}
use columnix.System.{generous}
use columnix.Column.{put_i32}
use columnix.Writer.{Gathered, Writer, put_value}
use columnix.Column.Counts.{put_i32-AddsOne}
use columnix.Writer.Stores.{Stored}
use columnix.Writer.Rows.{first_count, WellFormed, put_value-Stored}
use columnix.Reader.{Reader}
use columnix.Tests.Files.{sample}
use columnix.Tests.Groups.{begun, fives, second_null, begun-Within, large_disk, large_disk-Limits}

-- A writer whose columns are full.
abbrev full : Writer
full = record {
  writer = begun;
  columns = some (record { values = fives; nulls = second_null } ∷ []);
  row_group_size = 2;
  column_count = 1;
  position = 2;
}

full-WellFormed : WellFormed full
full-WellFormed = record {
  some_rows = omega arith;
  word = omega arith;
  bounded = omega arith;
  idle = λ e. cc;
  counted = λ cs e. sym (ap values_of e);
  occupied = λ e. cc;
  within = begun-Within;
}
  where
    values_of : Option (List Gathered) → ℕ
    values_of none = 0
    values_of (some cs) = first_count cs

-- The writer that a call leaves.
abbrev writer_of : Attempt Writer (Unit {0}) → Writer
writer_of (success a v) = v
writer_of (failure v) = v
writer_of abort = full

abbrev one_more : Writer
one_more = writer_of (put_value generous large_disk 0 (λ c. put_i32 generous c (pos 7)) false full)

put-one_more :
    put_value generous large_disk 0 (λ c. put_i32 generous c (pos 7)) false full
    ≡ success tt one_more
unfolding put_value put_i32 columnix.RowGroup.new columnix.RowGroup.add_column
    columnix.Index.index_new columnix.Column.Cursor.cursor_new columnix.Column.Cursor.next_batch_i32
    columnix.Column.Cursor.next_batch_bit columnix.GroupWriter.Put.group_writer_put
    columnix.RowGroup.column_type columnix.GroupWriter.ensure_header columnix.RowGroup.group_column
    columnix.RowGroup.group_nulls columnix.RowGroup.column_index columnix.File.Stream.fwrite
    columnix.Compress.compress columnix.Column.new columnix.Column.put_bit
put-one_more = refl

put_value-Stored_example :
    Stored generous large_disk large_disk-Limits
      (λ c. put_i32 generous c (pos 7))
      false
      0
      full
      one_more
    × WellFormed one_more
put_value-Stored_example =
    put_value-Stored generous large_disk large_disk-Limits 0 full one_more
      (λ c. put_i32 generous c (pos 7)) false full-WellFormed (put_i32-AddsOne generous (pos 7))
      put-one_more

-- A reader that has to look at the rows to count them.
abbrev picky : Reader
picky = record sample { match_all_rows = false }
