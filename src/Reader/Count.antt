-- ===== src/Reader/Count.antt =====
-- lib/reader.c: what `cx_reader_row_count` comes to.
use columnix.Base.{ℕ, ◌+◌, ◌%◌, ◌<◌, ◌≡◌, true, word_mod, Outcome, done, aborted}
use columnix.System.{System}
use columnix.Row.{RowCursor, row_cursor_count}
use columnix.Reader.Loads.{Stops}
use columnix.Reader.{Reader, load_cursor, reader_advance}

-- The rows that match in the row groups from the position on.
pub data Tally (sys : System) : Reader → ℕ → Type 0 where
  behind : (r : Reader) → r.position ≡ r.row_group_count → Tally sys r 0
  group :
      (r : Reader) (c : RowCursor) (m n : ℕ)
      → r.position < r.row_group_count
      → load_cursor sys r ≡ done c
      → row_cursor_count sys c ≡ done m
      → Tally sys (reader_advance r) n
      → Tally sys r (m + n)

-- A count comes to the sum, to 0 with the error flag up, or is stopped.
pub data Total (sys : System) (r : Reader) (total : ℕ) : Outcome (ℕ × Reader) → Type 0 where
  counted :
      (n k : ℕ) (next : Reader)
      → Tally sys r n
      → k ≡ (total + n) % word_mod
      → next.error ≡ r.error
      → Total sys r total (done (k, next))
  spoilt :
      (next : Reader)
      → next.error ≡ true
      → next.position < r.row_group_count
      → Total sys r total (done (0, next))
  stops : (at : Reader) → at.position < r.row_group_count → Stops sys at → Total sys r total aborted
