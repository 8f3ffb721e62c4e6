-- ===== src/Tests/Rows.antt =====
-- The theorems on row cursors at concrete inputs.
use columnix.Base.{◌≡◌, refl, true, false, [], done, arith, ℕ, zero, suc, ◌<◌, bit}
use columnix.System.{generous}
use columnix.Index.Match.{everything}
use columnix.RowGroup.Cursor.{batch_count}
use columnix.Predicate.{node, nil, zeroed}
use columnix.Row.{RowCursor, row_cursor_next}
use columnix.Row.Every.{Every, Moves, row_cursor_next-Moves}
use columnix.Row.Step.{row_cursor_next-bit}

-- A cursor over 100 rows, at row 65, whose batch from row 64 on matches at the bits of `mask`.
abbrev at_row_65 : ℕ → RowCursor
at_row_65 mask = record {
  row_group = record { columns = []; size = 8; row_count = 100 };
  cursor = record {
    row_group = record { columns = []; size = 8; row_count = 100 };
    column_count = 0;
    row_count = 100;
    position = 64;
    initialized = true;
    columns = [];
  };
  predicate = node zeroed nil;
  row_mask = mask;
  position = 1;
  index_match = everything;
  error = false;
}

-- The mask has the bits 1 and 4.
gap : (i : ℕ) → 1 < i → i < 4 → bit i 18 ≡ false
gap zero h l = absurd (omega arith)
gap (suc zero) h l = absurd (omega arith)
gap (suc (suc zero)) h l = refl
gap (suc (suc (suc zero))) h l = refl
gap (suc (suc (suc (suc i)))) h l = absurd (omega arith)

row_cursor_next-bit_example :
    row_cursor_next generous (at_row_65 18) ≡ done (true, record (at_row_65 18) { position = 4 })
row_cursor_next-bit_example =
    row_cursor_next-bit generous (at_row_65 18) 4 (omega arith) (omega arith) refl gap

-- Rows 64 to 99 all match.
at_row_65-Every : Every (at_row_65 68719476735)
unfolding batch_count
at_row_65-Every = record {
  all = refl;
  mask = refl;
  begun = refl;
  here = omega arith;
  small = omega arith;
}

row_cursor_next-Moves_example :
    Moves (at_row_65 68719476735) (row_cursor_next generous (at_row_65 68719476735))
row_cursor_next-Moves_example =
    row_cursor_next-Moves generous (at_row_65 68719476735) at_row_65-Every
