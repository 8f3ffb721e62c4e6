-- ===== src/Reader/Next.antt =====
-- lib/reader.c: what `cx_reader_next` comes to.
use columnix.Base.{◌≤◌, ◌<◌, ◌≡◌, Bool, true, false, some, word_mod, Outcome, done, aborted}
use columnix.System.{System}
use columnix.Row.{RowCursor}
use columnix.Reader.{Reader}
use columnix.Row.Ends.{Walking}
use columnix.Reader.Loads.{SmallGroups, Stops}

-- What a call comes to: a row, an error, or the end.
pub data Next (r : Reader) : Bool → Reader → Type 0 where
  row :
      (next : Reader)
      → next.error ≡ false
      → r.position ≤ next.position
      → next.position < r.row_group_count
      → (c : RowCursor) → next.row_cursor ≡ some c
      → Walking c.cursor
      → Next r true next
  error :
      (next : Reader)
      → next.error ≡ true
      → r.position ≤ next.position
      → next.position < r.row_group_count
      → Next r false next
  end : (next : Reader) → next.error ≡ false → next.position ≡ r.row_group_count → Next r false next

-- A call returns, or a row group that is left stops it.
pub data Comes (sys : System) (r : Reader) : Outcome (Bool × Reader) → Type 0 where
  returns : (b : Bool) (next : Reader) → Next r b next → Comes sys r (done (b, next))
  stops :
      (at : Reader)
      → r.position ≤ at.position
      → at.position < r.row_group_count
      → Stops sys at
      → Comes sys r aborted

module _ (sys : System) where
  -- A reader without an error, at most at its end, whose row groups and row cursor are not too large.
  pub record Ready (r : Reader) : Type 0 where
    pub sound : r.error ≡ false
    pub within : r.position ≤ r.row_group_count
    pub few : r.row_group_count < word_mod
    pub small : SmallGroups sys r
    pub held : (c : RowCursor) → r.row_cursor ≡ some c → Walking c.cursor
