-- ===== src/Row/Ends.antt =====
-- lib/row.c: the loops of the row cursor end; what stops a call is the mask of a batch.
pub mod Count
use columnix.Base.{
  ℕ, zero, suc, ◌+◌, ◌*◌, ◌/◌, ◌≤◌, ◌<◌, ◌≡◌, refl, sym, ◌∙◌, ◌⊎◌, inl, inr, Bool, true, false, ltb,
  ◌==◌, if◌then◌else◌, add64, word_mod, Bool-cases, Outcome-cases, Outcome, done, failed, aborted,
  ◌>>=◌, Lands, Lands-bind, Lands-done, Lands-then, require, arith,
}
use mathlib.Core.Path.{subst}
use columnix.System.{System}
use columnix.RowGroup.{RowGroup, row_count, count}
use columnix.RowGroup.Cursor.{
  RowGroupCursor, group_cursor_next, group_cursor_new, group_cursor_rewind, batch_count,
}
use columnix.Predicate.{Predicate}
use columnix.Predicate.Indexes.{match_indexes, is_everything, is_nothing}
use columnix.Predicate.Rows.{match_rows}
use columnix.Predicate.Frame.{Same}
use columnix.Predicate.Frame.Mask.{match_rows-Kept}
use columnix.Row.{
  RowCursor, all_rows, batch_mask, load_row_mask, mask_fuel, rest_of_mask, at_mask, ctz, popcount,
  row_cursor_next, row_cursor_new, row_cursor_rewind, count_masks, row_cursor_count,
}

-- The cursor of a row group has not begun, or stands on a row.
pub record Walking (cursor : RowGroupCursor) : Type 0 where
  pub small : cursor.row_count + 64 < word_mod
  pub place :
      ((cursor.initialized ≡ false) × (cursor.position ≡ 0)) ⊎ (cursor.position < cursor.row_count)

-- A later batch of the same row group.
pub record Later (cursor next : RowGroupCursor) : Type 0 where
  pub begun : next.initialized ≡ true
  pub inside : next.position < next.row_count
  pub rows : next.row_count ≡ cursor.row_count
  pub moves : (cursor.initialized ≡ true) → cursor.position + 64 ≤ next.position

-- The mask of a batch inside the row group cannot be computed.
pub record Stopped (sys : System) (c : RowCursor) (rows : ℕ) : Type 0 where
  pub at : RowGroupCursor
  pub rows_of : at.row_count ≡ rows
  pub inside : at.position < at.row_count
  pub stops : batch_mask sys c at ≡ aborted

-- What a search for a mask comes to.
pub data Masked (sys : System) (c : RowCursor) (cursor : RowGroupCursor)
    : Outcome (ℕ × RowGroupCursor) → Type 0 where
  found :
      (mask : ℕ) (next : RowGroupCursor)
      → (mask == 0) ≡ false
      → Later cursor next
      → Masked sys c cursor (done (mask, next))
  none_left : (next : RowGroupCursor) → Masked sys c cursor (done (0, next))
  fails : Masked sys c cursor failed
  stops : Stopped sys c cursor.row_count → Masked sys c cursor aborted

-- The number of rounds that reach the last row.
abbrev Enough : ℕ → RowGroupCursor → Type 0
Enough fuel cursor = cursor.row_count ≤ cursor.position + 64 * fuel

module _ (sys : System) (c : RowCursor) where
  batch_mask-Same :
      (cursor : RowGroupCursor) → Lands (λ (mask, next). Same cursor next) (batch_mask sys c cursor)
  unfolding batch_mask
  batch_mask-Same cursor = by_index (is_everything c.index_match)
    where
      by_index :
          (b : Bool)
          → Lands
              (λ (mask, next). Same cursor next)
              (if b
                then done (all_rows (batch_count cursor), cursor)
                else (match_rows sys c.row_group c.predicate cursor >>= λ (mask, count, next).
                    done (mask, next)))
      by_index true = record { position = refl; row_count = refl; initialized = refl }
      by_index false =
          Lands-bind (λ (mask, count, next). Same cursor next) (λ (mask, next). Same cursor next)
            (match_rows sys c.row_group c.predicate cursor)
            (λ (mask, count, next). done (mask, next))
            (match_rows-Kept sys c.row_group c.predicate cursor) (λ (mask, count, next) s. s)

  -- The step to the next batch, which is there.
  abbrev stepped : RowGroupCursor → RowGroupCursor
  stepped cursor = (group_cursor_next cursor).1

  Masked-later :
      {cursor next : RowGroupCursor} {o : Outcome (ℕ × RowGroupCursor)}
      → next.row_count ≡ cursor.row_count
      → next.initialized ≡ true
      → (cursor.initialized ≡ true → cursor.position + 64 ≤ next.position)
      → Masked sys c next o
      → Masked sys c cursor o
  Masked-later {cursor} {next} rows b ahead (found mask last e l) = found mask last e (record {
    begun = l.begun;
    inside = l.inside;
    rows = l.rows ∙ rows;
    moves = λ i. omega (arith, ahead i, l.moves b);
  })
  Masked-later rows b ahead (none_left last) = none_left last
  Masked-later rows b ahead fails = fails
  Masked-later rows b ahead (stops s) =
      stops (record { at = s.at; rows_of = s.rows_of ∙ rows; inside = s.inside; stops = s.stops })

  abbrev round : ℕ → Bool × RowGroupCursor → Outcome (ℕ × RowGroupCursor)
  round fuel (there_is, moved) =
      let more = batch_mask sys c moved >>= λ (mask, next).
      (let rest = load_row_mask sys fuel c next in if mask == 0 then rest else done (mask, next)) in
      if there_is then more else done (0, moved)

  -- A round, when the next rounds do.
  round-Masked :
      (fuel : ℕ) (cursor moved : RowGroupCursor)
      → moved.row_count ≡ cursor.row_count
      → moved.initialized ≡ true
      → (cursor.initialized ≡ true → cursor.position + 64 ≤ moved.position)
      → ((next : RowGroupCursor)
          → Same moved next
          → moved.position < moved.row_count
          → Masked sys c next (load_row_mask sys fuel c next))
      → Masked sys c cursor (round fuel (ltb moved.position moved.row_count, moved))
  round-Masked fuel cursor moved rows begun ahead rest =
      elim (Bool-cases (ltb moved.position moved.row_count)) [
        | inr e ↦ rw e (none_left moved)
        | inl e ↦
            let inside : moved.position < moved.row_count = ground (arith, e) in
            elim (Outcome-cases (batch_mask sys c moved)) [
              | inr (inl f) ↦ rw (e, f) fails
              | inr (inr f) ↦
                  rw (e, f)
                    (stops (record { at = moved; rows_of = rows; inside = inside; stops = f }))
              | inl ((mask, next), f) ↦
                  let s : Same moved next =
                    Lands-done (λ (mask, next). Same moved next) (batch_mask sys c moved)
                      (mask, next) f (batch_mask-Same moved) in
                  elim (Bool-cases (mask == 0)) [
                    | inr g ↦
                        rw (e, f, g)
                          (found mask next g (record {
                            begun = s.initialized ∙ begun;
                            inside = omega (arith, inside, s.position, s.row_count);
                            rows = s.row_count ∙ rows;
                            moves = λ i. omega (arith, ahead i, s.position);
                          }))
                    | inl g ↦
                        rw (e, f, g)
                          (Masked-later (s.row_count ∙ rows) (s.initialized ∙ begun)
                            (λ i. omega (arith, ahead i, s.position)) (rest next s inside))
                  ]
            ]
      ]

  begun-Masked :
      (fuel : ℕ) (cursor : RowGroupCursor)
      → cursor.initialized ≡ true
      → cursor.position < cursor.row_count
      → cursor.row_count + 64 < word_mod
      → Enough fuel cursor
      → Masked sys c cursor (load_row_mask sys fuel c cursor)
  unfolding load_row_mask group_cursor_next
  begun-Masked zero cursor b inside small enough = absurd (omega (arith, inside, enough))
  begun-Masked (suc fuel) cursor b inside small enough =
      let flat : add64 cursor.position 64 ≡ cursor.position + 64 = omega (arith, inside, small) in
      let moved : RowGroupCursor = record cursor { position = add64 cursor.position 64 } in
      subst
        (λ i. Masked sys c cursor (
          round fuel (
            let m = if i then moved else record cursor { initialized = true } in
            (ltb m.position m.row_count, m))))
        (sym b)
        (round-Masked fuel cursor moved refl b (λ i. omega (arith, flat))
          (λ next s l.
            begun-Masked fuel next (s.initialized ∙ b) (omega (arith, s.position, s.row_count, l))
              (omega (arith, small, s.row_count))
              (omega (arith, enough, s.position, s.row_count, flat))))

  fresh-Masked :
      (fuel : ℕ) (cursor : RowGroupCursor)
      → cursor.initialized ≡ false
      → cursor.row_count + 64 < word_mod
      → Enough fuel cursor
      → Masked sys c cursor (load_row_mask sys (suc fuel) c cursor)
  unfolding load_row_mask group_cursor_next
  fresh-Masked fuel cursor b small enough =
      let moved : RowGroupCursor = record cursor { initialized = true } in
      subst
        (λ i. Masked sys c cursor (
          round fuel (
            let m = if i then record cursor { position = add64 cursor.position 64 } else moved in
            (ltb m.position m.row_count, m))))
        (sym b)
        (round-Masked fuel cursor moved refl refl (λ i. cc)
          (λ next s l.
            begun-Masked fuel next s.initialized (omega (arith, s.position, s.row_count, l))
              (omega (arith, small, s.row_count)) (omega (arith, enough, s.position, s.row_count))))

  load_row_mask-Masked :
      (cursor : RowGroupCursor)
      → Walking cursor
      → Masked sys c cursor (load_row_mask sys (mask_fuel cursor) c cursor)
  load_row_mask-Masked cursor w =
      let rounds : mask_fuel cursor ≡ suc (cursor.row_count / 64 + 1) = omega arith in
      elim (Bool-cases cursor.initialized) [
        | inr b ↦
            rw rounds (fresh-Masked (cursor.row_count / 64 + 1) cursor b w.small (omega arith))
        | inl b ↦ elim w.place [
          | inl (n, z) ↦ cc
          | inr inside ↦ begun-Masked (mask_fuel cursor) cursor b inside w.small (omega arith)
        ]
      ]

  -- What a step comes to.
  pub data Moved : Outcome (Bool × RowCursor) → Type 0 where
    row :
        (next : RowCursor)
        → Walking next.cursor
        → next.cursor.row_count ≡ c.cursor.row_count
        → Moved (done (true, next))
    end : (next : RowCursor) → Moved (done (false, next))
    spoilt : Moved failed
    blocked : Stopped sys c c.cursor.row_count → Moved aborted

  pub row_cursor_next-Moved : Walking c.cursor → Moved (row_cursor_next sys c)
  unfolding row_cursor_next
  row_cursor_next-Moved w = elim (Bool-cases (rest_of_mask c == 0)) [
    | inr e ↦ rw e (row (record c { position = c.position + ctz (rest_of_mask c) + 1 }) w refl)
    | inl e ↦ rw e (
        reloaded (load_row_mask sys (mask_fuel c.cursor) c c.cursor)
          (load_row_mask-Masked c.cursor w))
  ]
    where
      reloaded :
          (o : Outcome (ℕ × RowGroupCursor))
          → Masked sys c c.cursor o
          → Moved (o >>= λ (mask, next). done (at_mask c mask next))
      reloaded o (found mask next e l) = rw e (
          row (record c { row_mask = mask; cursor = next; position = ctz mask })
            (record { small = omega (arith, w.small, l.rows); place = inr l.inside }) l.rows)
      reloaded o (none_left next) = end (record c { row_mask = 0; cursor = next })
      reloaded o fails = spoilt
      reloaded o (stops s) = blocked s

-- A new cursor has not begun.
pub row_cursor_new-Walking :
    (sys : System) (row_group : RowGroup) (predicate : Predicate)
    → row_count row_group + 64 < word_mod
    → Lands (λ c. Walking c.cursor) (row_cursor_new sys row_group predicate)
unfolding row_cursor_new row_cursor_rewind group_cursor_rewind group_cursor_new
row_cursor_new-Walking sys row_group predicate small =
    Lands-then (λ c. Walking c.cursor) (require (sys.grants 64)) _
      (λ _.
        Lands-bind (λ (g : RowGroupCursor). g.row_count ≡ row_count row_group)
          (λ c. Walking c.cursor) (group_cursor_new sys row_group) _
          (Lands-then (λ (g : RowGroupCursor). g.row_count ≡ row_count row_group)
            (require (sys.grants (40 + count row_group * 64))) _ (λ _. refl))
          (λ cursor rows.
            Lands-then (λ c. Walking c.cursor) (match_indexes row_group predicate) _
              (λ index_match. record {
                small = omega (arith, rows, small);
                place = inl (refl, refl);
              })))
