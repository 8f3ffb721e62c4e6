-- ===== src/Row/Ends/Count.antt =====
-- lib/row.c: the loop of `cx_row_cursor_count` ends.
use columnix.Base.{
  ℕ, zero, suc, ◌+◌, ◌*◌, ◌/◌, ◌≤◌, ◌<◌, ◌≡◌, refl, inl, inr, true, false, ◌==◌, if◌then◌else◌,
  add64, word_mod, Bool-cases, Outcome, done, failed, aborted, ◌>>=◌, arith,
}
use mathlib.Core.Path.{subst}
use columnix.System.{System}
use columnix.RowGroup.{row_count}
use columnix.RowGroup.Cursor.{RowGroupCursor, group_cursor_rewind}
use columnix.Predicate.Indexes.{is_everything, is_nothing}
use columnix.Row.{
  RowCursor, load_row_mask, mask_fuel, popcount, row_cursor_rewind, count_masks, row_cursor_count,
}
use columnix.Row.Ends.{
  Later, Stopped, Masked, found, none_left, fails, stops, Enough, load_row_mask-Masked,
}

module _ (sys : System) (c : RowCursor) where
  -- What a count comes to.
  pub data Summed (rows : ℕ) : Outcome ℕ → Type 0 where
    sum : (n : ℕ) → Summed rows (done n)
    spoilt : Summed rows failed
    blocked : Stopped sys c rows → Summed rows aborted

  -- The loop goes on behind a mask.
  tallied :
      (fuel : ℕ) (cursor : RowGroupCursor) (total : ℕ)
      → ((next : RowGroupCursor) (t : ℕ)
          → Later cursor next
          → Summed next.row_count (count_masks sys fuel c next t))
      → (o : Outcome (ℕ × RowGroupCursor)) → Masked sys c cursor o
      → Summed cursor.row_count (
          o >>= λ (mask, next).
          (let rest = count_masks sys fuel c next (add64 total (popcount mask)) in
            if mask == 0 then done total else rest))
  tallied fuel cursor total rest o (found mask next e l) = rw e (
      subst (λ n. Summed n (count_masks sys fuel c next (add64 total (popcount mask)))) l.rows
        (rest next (add64 total (popcount mask)) l))
  tallied fuel cursor total rest o (none_left next) = sum total
  tallied fuel cursor total rest o fails = spoilt
  tallied fuel cursor total rest o (stops s) = blocked s

  count_masks-Summed :
      (fuel : ℕ) (cursor : RowGroupCursor) (total : ℕ)
      → cursor.initialized ≡ true
      → cursor.position < cursor.row_count
      → cursor.row_count + 64 < word_mod
      → Enough fuel cursor
      → Summed cursor.row_count (count_masks sys fuel c cursor total)
  unfolding count_masks
  count_masks-Summed zero cursor total b inside small enough =
      absurd (omega (arith, inside, enough))
  count_masks-Summed (suc fuel) cursor total b inside small enough =
      tallied fuel cursor total
        (λ next t l.
          count_masks-Summed fuel next t l.begun l.inside (omega (arith, small, l.rows))
            (omega (arith, enough, l.rows, l.moves b)))
        (load_row_mask sys (mask_fuel cursor) c cursor)
        (load_row_mask-Masked sys c cursor (record { small = small; place = inr inside }))

  fresh-Summed :
      (fuel : ℕ) (cursor : RowGroupCursor) (total : ℕ)
      → cursor.initialized ≡ false
      → cursor.position ≡ 0
      → cursor.row_count + 64 < word_mod
      → cursor.row_count ≤ 64 * fuel
      → Summed cursor.row_count (count_masks sys (suc fuel) c cursor total)
  unfolding count_masks
  fresh-Summed fuel cursor total b z small enough =
      tallied fuel cursor total
        (λ next t l.
          count_masks-Summed fuel next t l.begun l.inside (omega (arith, small, l.rows))
            (omega (arith, enough, l.rows)))
        (load_row_mask sys (mask_fuel cursor) c cursor)
        (load_row_mask-Masked sys c cursor (record { small = small; place = inl (b, z) }))

module _ (sys : System) (c : RowCursor) where
  row_cursor_count-Summed :
      c.cursor.row_count + 64 < word_mod
      → Summed sys (row_cursor_rewind c) c.cursor.row_count (row_cursor_count sys c)
  unfolding row_cursor_count row_cursor_rewind group_cursor_rewind
  row_cursor_count-Summed small =
      let cursor = group_cursor_rewind c.cursor in
      let rounds : mask_fuel cursor ≡ suc (cursor.row_count / 64 + 1) = omega arith in
      elim (Bool-cases (is_nothing c.index_match)) [
        | inl e ↦ rw e (sum 0)
        | inr e ↦ elim (Bool-cases (is_everything c.index_match)) [
          | inl f ↦ rw (e, f) (sum (row_count c.row_group))
          | inr f ↦
              rw (e, f, rounds)
                (fresh-Summed sys (row_cursor_rewind c) (cursor.row_count / 64 + 1) cursor 0 refl
                  refl small (omega arith))
        ]
      ]

  Summed-Stopped :
      (rows : ℕ) (o : Outcome ℕ)
      → Summed sys (row_cursor_rewind c) rows o
      → o ≡ aborted
      → Stopped sys (row_cursor_rewind c) rows
  Summed-Stopped rows o (sum n) e = cc
  Summed-Stopped rows o spoilt e = cc
  Summed-Stopped rows o (blocked s) e = s

  pub row_cursor_count-Stopped :
      c.cursor.row_count + 64 < word_mod
      → row_cursor_count sys c ≡ aborted
      → Stopped sys (row_cursor_rewind c) c.cursor.row_count
  row_cursor_count-Stopped small e =
      Summed-Stopped c.cursor.row_count (row_cursor_count sys c) (row_cursor_count-Summed small) e
