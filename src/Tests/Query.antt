-- ===== src/Tests/Query.antt =====
-- The theorems on queries by threads, at a file of two row groups and two threads.
use columnix.Base.{
  true, false, some, ℕ, zero, suc, ◌<◌, ◌≡◌, ◌≢◌, refl, List, [], ◌∷◌, ltb, All, Bool, pos, done,
  aborted, arith,
}
use columnix.System.{generous}
use columnix.Row.{RowCursor, row_cursor_new, row_cursor_next}
use columnix.Reader.Query.{ended, Query, reader_query, query_row_group, query_start, turns}
use columnix.Reader.Query.Once.{occurs, one_if, Shared, schedule-Shared, reader_query-Once}
use columnix.Reader.Query.Ends.{concat, Covers, reader_query-Returns}
use columnix.Tests.Files.{sample, first_row, threads_work, in_turns}

abbrev over : Query
over = record {
  position = 4;
  row_group_count = 2;
  error = false;
  threads = ended ∷ ended ∷ [];
  completed = 0 ∷ 1 ∷ [];
  lost = [];
}

reader_query-sample :
    reader_query generous threads_work sample first_row (pos 2) in_turns ≡ done (some true)
unfolding reader_query query_row_group turns row_cursor_new row_cursor_next
    columnix.GroupReader.Get.group_reader_get columnix.RowGroup.new
    columnix.RowGroup.add_lazy_column columnix.RowGroup.column_index columnix.RowGroup.column_type
    columnix.RowGroup.Cursor.batch_count
reader_query-sample = refl

turns-sample :
    turns (query_row_group generous sample first_row) (query_start 2 2) in_turns ≡ done over
unfolding turns query_row_group row_cursor_new row_cursor_next
    columnix.GroupReader.Get.group_reader_get columnix.RowGroup.new
    columnix.RowGroup.add_lazy_column columnix.RowGroup.column_index columnix.RowGroup.column_type
    columnix.RowGroup.Cursor.batch_count
turns-sample = refl

reader_query-Once_example :
    (q : Query) × (turns (query_row_group generous sample first_row) (query_start 2 2) in_turns
      ≡ done q)
    × ((n : ℕ) → occurs n q.completed ≡ one_if (ltb n 2))
    × All
        (λ n. (c : RowCursor) × (query_row_group generous sample first_row n ≡ done c))
        q.completed
reader_query-Once_example =
    reader_query-Once generous threads_work sample first_row 1 in_turns refl (omega arith)
      reader_query-sample

schedule-Shared_example : Shared (query_row_group generous sample first_row) 2 2 over
schedule-Shared_example =
    schedule-Shared (query_row_group generous sample first_row) 2 2 in_turns over (omega arith)
      turns-sample

goes : (n : ℕ) → n < 2 → query_row_group generous sample first_row n ≢ aborted
unfolding query_row_group row_cursor_new row_cursor_next columnix.GroupReader.Get.group_reader_get
    columnix.RowGroup.new columnix.RowGroup.add_lazy_column columnix.RowGroup.column_index
    columnix.RowGroup.column_type columnix.RowGroup.Cursor.batch_count
goes zero h e = cc
goes (suc zero) h e = cc
goes (suc (suc n)) h e = absurd (omega arith)

abbrev round : List ℕ
round = 1 ∷ 0 ∷ []

round-Covers : Covers 2 round
round-Covers zero h = omega arith
round-Covers (suc zero) h = omega arith
round-Covers (suc (suc n)) h = absurd (omega arith)

abbrev rounds : List (List ℕ)
rounds = round ∷ round ∷ round ∷ round ∷ round ∷ round ∷ []

reader_query-Returns_example :
    (b : Bool) × (reader_query generous threads_work sample first_row (pos 2) (concat rounds)
      ≡ done (some b))
reader_query-Returns_example =
    reader_query-Returns generous threads_work sample first_row 1 rounds (omega arith) refl refl
      refl goes
      (
        round-Covers,
        (round-Covers, (round-Covers, (round-Covers, (round-Covers, (round-Covers, tt))))),
      )
      (omega arith)
