-- ===== src/Row.antt =====
-- lib/row.c: a cursor over the rows of a row group that match a predicate. `row_mask` has a bit for
-- each matching row of the current batch, `position` is the bit of the current row. What C reports
-- through the `error` flag is the outcome `failed`.
pub mod Get
pub mod Step
pub mod Every
pub mod Ends
use columnix.Base.{
  ℕ, zero, suc, ◌+◌, ◌-◌, ◌*◌, ◌/◌, ◌%◌, ◌^◌, Bool, true, false, not, ltb, ◌==◌, if◌then◌else◌,
  add64, bit_and, Outcome, done, failed, aborted, ◌>>=◌, ◌>>◌, require,
}
use columnix.System.{System}
use columnix.Index.Match.{IndexMatch, nothing, unknown, everything}
use columnix.RowGroup.{RowGroup, row_count}
use columnix.RowGroup.Cursor.{
  RowGroupCursor, group_cursor_new, group_cursor_rewind, group_cursor_next, batch_count,
}
use columnix.Predicate.{Predicate}
use columnix.Predicate.Indexes.{match_indexes, is_everything, is_nothing}
use columnix.Predicate.Rows.{Matched, match_rows, full_mask}

pub record RowCursor : Type 0 where
  pub row_group : RowGroup
  pub cursor : RowGroupCursor
  pub predicate : Predicate
  pub row_mask : ℕ
  pub position : ℕ
  pub index_match : IndexMatch
  pub error : Bool

-- __builtin_ctzll of a mask that is not 0, looking at `n` bits at most.
abbrev pub trailing_zeros : ℕ → ℕ → ℕ
trailing_zeros zero mask = 0
trailing_zeros (suc n) mask =
    let more = suc (trailing_zeros n (mask / 2)) in if mask % 2 == 0 then more else 0

abbrev pub ctz : ℕ → ℕ
ctz = trailing_zeros 64

-- __builtin_popcountll
abbrev pub ones : ℕ → ℕ → ℕ
ones zero mask = 0
ones (suc n) mask = mask % 2 + ones n (mask / 2)

abbrev pub popcount : ℕ → ℕ
popcount = ones 64

unfoldable pub row_cursor_rewind : RowCursor → RowCursor
unfolding group_cursor_rewind
row_cursor_rewind c = record c {
  row_mask = 0;
  position = 64;
  cursor = group_cursor_rewind c.cursor;
  error = false;
}

-- sizeof(struct cx_row_cursor) is 64.
unfoldable pub row_cursor_new : System → RowGroup → Predicate → Outcome RowCursor
unfolding row_cursor_rewind match_indexes group_cursor_new
row_cursor_new sys row_group predicate = do
  require (sys.grants 64)
  cursor ← group_cursor_new sys row_group
  index_match ← match_indexes row_group predicate
  done (
      row_cursor_rewind (record {
        row_group = row_group;
        cursor = cursor;
        predicate = predicate;
        row_mask = 0;
        position = 0;
        index_match = index_match;
        error = false;
      }))

-- The mask of the rows of a batch when the index has said that all match.
abbrev pub all_rows : ℕ → ℕ
all_rows count = if ltb count 64 then bit_and full_mask (2 ^ count - 1) else full_mask

-- The mask of the current batch, and the cursor after it.
unfoldable pub batch_mask : System → RowCursor → RowGroupCursor → Outcome (ℕ × RowGroupCursor)
unfolding match_rows
batch_mask sys c cursor =
    if is_everything c.index_match
    then done (all_rows (batch_count cursor), cursor)
    else (match_rows sys c.row_group c.predicate cursor >>= λ (mask, count, next).
        done (mask, next))

-- `cx_row_cursor_load_row_mask`: the next mask that is not 0, or 0 at the end. `failed` is its
-- error path.
unfoldable pub load_row_mask :
    System → ℕ → RowCursor → RowGroupCursor → Outcome (ℕ × RowGroupCursor)
unfolding batch_mask group_cursor_next
load_row_mask sys zero c cursor = aborted
load_row_mask sys (suc fuel) c cursor =
    let (there_is, moved) = group_cursor_next cursor in
    let more = batch_mask sys c moved >>= λ (mask, next).
    (let rest = load_row_mask sys fuel c next in if mask == 0 then rest else done (mask, next)) in
    if there_is then more else done (0, moved)

-- A batch for every 64 rows, and one more call that finds the end.
abbrev pub mask_fuel : RowGroupCursor → ℕ
mask_fuel cursor = cursor.row_count / 64 + 2

-- The mask with the rows up to the current one shifted out, 0 if none is left.
abbrev pub rest_of_mask : RowCursor → ℕ
rest_of_mask c = if ltb c.position 63 then c.row_mask / 2 ^ (c.position + 1) else 0

-- The state with a fresh mask, at its first row. With no row the position stays.
abbrev pub at_mask : RowCursor → ℕ → RowGroupCursor → Bool × RowCursor
at_mask c mask next =
    let moved = record c { row_mask = mask; cursor = next } in
    if mask == 0 then (false, moved) else (true, record moved { position = ctz mask })

-- `cx_row_cursor_next`. The outcome `failed` stands for false with the error flag set.
unfoldable pub row_cursor_next : System → RowCursor → Outcome (Bool × RowCursor)
unfolding load_row_mask
row_cursor_next sys c =
    let reload = load_row_mask sys (mask_fuel c.cursor) c c.cursor >>= λ (mask, next).
    done (at_mask c mask next) in
    if rest_of_mask c == 0
    then reload
    else done (true, record c { position = c.position + ctz (rest_of_mask c) + 1 })

-- The loop of `cx_row_cursor_count`.
unfoldable pub count_masks : System → ℕ → RowCursor → RowGroupCursor → ℕ → Outcome ℕ
unfolding load_row_mask
count_masks sys zero c cursor total = aborted
count_masks sys (suc fuel) c cursor total =
    load_row_mask sys (mask_fuel cursor) c cursor >>= λ (mask, next).
    (let rest = count_masks sys fuel c next (add64 total (popcount mask)) in
      if mask == 0 then done total else rest)

-- `cx_row_cursor_count`. An error ends C's loop with the rows counted so far and the error flag
-- set; here it is `failed`.
unfoldable pub row_cursor_count : System → RowCursor → Outcome ℕ
unfolding row_cursor_rewind count_masks
row_cursor_count sys c =
    let rewound = row_cursor_rewind c in
    if is_nothing c.index_match
    then done 0
    else (if is_everything c.index_match
        then done (row_count c.row_group)
        else count_masks sys (mask_fuel rewound.cursor) rewound rewound.cursor 0)
