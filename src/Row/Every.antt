-- ===== src/Row/Every.antt =====
-- lib/row.c: the row cursor when the index has said that all rows match.
use native.Mathlib.Nat.{div-eq_of_lt, one-le-pow}
use columnix.Base.{
  ltb→lt, bit_ext, bit_and-lt, two_pow-lt, lt→ltb, Bool-cases, inl, inr, min, bit-low_mask, ◌&&◌, ℕ,
  suc, ◌+◌, ◌-◌, ◌/◌, ◌^◌, ◌≤◌, ◌<◌, ◌≡◌, refl, ap, ap₂, ◌∙◌, sym, true, false, Bool, ltb, ◌==◌,
  bit, bit_and, bit-and, add64, word_mod, Outcome, done, arith,
}
use columnix.System.{System}
use columnix.Index.Match.{everything}
use columnix.RowGroup.Cursor.{RowGroupCursor, batch_count}
use columnix.Row.{
  RowCursor, all_rows, batch_mask, load_row_mask, mask_fuel, row_cursor_next, rest_of_mask, at_mask,
  ctz,
}
use columnix.Row.Step.{row_cursor_next-bit, not_zero, trailing_zeros-first}
use columnix.Predicate.Rows.{full_mask}

bit-all_rows : (n i : ℕ) → n ≤ 64 → i < 64 → bit i (all_rows n) ≡ ltb i n
bit-all_rows n i h l =
    let in_word : bit i full_mask ≡ true = bit-low_mask i 64 ∙ lt→ltb i 64 l in
    elim (Bool-cases (ltb n 64)) [
      | inl small ↦ rw small (bit-and i full_mask (2 ^ n - 1) ∙ ap₂ ◌&&◌ in_word (bit-low_mask i n))
      | inr full ↦ rw full (in_word ∙ ground (arith, full))
    ]

-- The rows of a batch.
batch_count-min :
    (cursor : RowGroupCursor) → batch_count cursor ≡ min 64 (cursor.row_count - cursor.position)
unfolding batch_count
batch_count-min cursor = ground arith

ltb-both : (i n : ℕ) → n < 64 → ltb i 64 && ltb i n ≡ ltb i n
ltb-both i n h = ground arith

all_rows-ends : (n : ℕ) → n < 64 → all_rows n / 2 ^ n ≡ 0
all_rows-ends n h =
    let small : 2 ^ n - 1 < 2 ^ 64 = omega (arith, two_pow-lt n 64 h) in
    let kept : bit_and full_mask (2 ^ n - 1) ≡ 2 ^ n - 1 =
      bit_ext 64 (bit_and full_mask (2 ^ n - 1)) (2 ^ n - 1)
        (bit_and-lt 64 full_mask (2 ^ n - 1) (omega arith)) small
        (λ i.
          bit-and i full_mask (2 ^ n - 1)
          ∙ ap₂ ◌&&◌ (bit-low_mask i 64) (bit-low_mask i n)
          ∙ ltb-both i n h
          ∙ sym (bit-low_mask i n)) in
    rw (lt→ltb n 64 h, kept) (div-eq_of_lt (omega (arith, one-le-pow n 2)))

all_rows-some : (n : ℕ) → 0 < n → n ≤ 64 → (all_rows n == 0) ≡ false
all_rows-some n h l = not_zero 0 (all_rows n) (bit-all_rows n 0 l (omega arith) ∙ lt→ltb 0 n h)

-- The state on the way: a row of the current batch, whose mask is full.
pub record Every (c : RowCursor) : Type 0 where
  pub all : c.index_match ≡ everything
  pub mask : c.row_mask ≡ all_rows (batch_count c.cursor)
  pub begun : c.cursor.initialized ≡ true
  pub here : c.position < batch_count c.cursor
  pub small : c.cursor.row_count + 64 < word_mod

-- The number of the current row.
abbrev pub row : RowCursor → ℕ
row c = c.cursor.position + c.position

module _ (sys : System) (c : RowCursor) (e : Every c) where
  batch_mask-all :
      (cursor : RowGroupCursor)
      → batch_mask sys c cursor ≡ done (all_rows (batch_count cursor), cursor)
  unfolding batch_mask
  batch_mask-all cursor = rw e.all refl

  within-batch :
      c.position + 1 < batch_count c.cursor
      → row_cursor_next sys c ≡ done (true, record c { position = c.position + 1 })
  within-batch h =
      row_cursor_next-bit sys c (c.position + 1) (omega arith)
        (omega (arith, batch_count-min c.cursor))
        (ap (bit (c.position + 1)) e.mask
          ∙ bit-all_rows (batch_count c.cursor) (c.position + 1)
              (omega (arith, batch_count-min c.cursor)) (omega (arith, batch_count-min c.cursor))
          ∙ lt→ltb (c.position + 1) (batch_count c.cursor) h)
        (λ i a b. absurd (omega arith))

  none_left : c.position + 1 ≡ batch_count c.cursor → rest_of_mask c ≡ 0
  none_left h = elim (Bool-cases (ltb c.position 63)) [
    | inl l ↦ rw (l, e.mask, h) (all_rows-ends (batch_count c.cursor) (ground (arith, l)))
    | inr l ↦ rw l refl
  ]

  abbrev moved : RowGroupCursor
  moved = record c.cursor { position = c.cursor.position + 64 }

  sum : add64 c.cursor.position 64 ≡ c.cursor.position + 64
  sum = omega (arith, e.small, e.here, batch_count-min c.cursor)

  load-more :
      (fuel : ℕ)
      → c.cursor.position + 64 < c.cursor.row_count
      → load_row_mask sys (suc fuel) c c.cursor ≡ done (all_rows (batch_count moved), moved)
  unfolding load_row_mask batch_count
  load-more fuel h =
      rw
        (
          e.begun,
          sum,
          lt→ltb (c.cursor.position + 64) c.cursor.row_count h,
          e.all,
          all_rows-some (batch_count moved) (omega (arith, batch_count-min moved))
              (omega (arith, batch_count-min moved)),
        )
        refl

  load-end :
      (fuel : ℕ)
      → c.cursor.row_count ≤ c.cursor.position + 64
      → load_row_mask sys (suc fuel) c c.cursor ≡ done (0, moved)
  unfolding load_row_mask
  load-end fuel h =
      let over : ltb (c.cursor.position + 64) c.cursor.row_count ≡ false = ground arith in
      rw (e.begun, sum, over) refl

  abbrev fresh : RowCursor
  fresh = record c { row_mask = all_rows (batch_count moved); cursor = moved; position = 0 }

  reloaded :
      (mask : ℕ) (next : RowGroupCursor)
      → rest_of_mask c ≡ 0
      → load_row_mask sys (mask_fuel c.cursor) c c.cursor ≡ done (mask, next)
      → row_cursor_next sys c ≡ done (at_mask c mask next)
  unfolding row_cursor_next
  reloaded mask next h l = rw (h, l) refl

  with_fuel :
      load_row_mask sys (mask_fuel c.cursor) c c.cursor
      ≡ load_row_mask sys (suc (c.cursor.row_count / 64 + 1)) c c.cursor
  with_fuel =
      ap (λ f. load_row_mask sys f c c.cursor) {x = c.cursor.row_count / 64 + 2}
        {y = suc (c.cursor.row_count / 64 + 1)} (omega arith)

  first_bit : 0 < batch_count moved → ctz (all_rows (batch_count moved)) ≡ 0
  first_bit h =
      trailing_zeros-first 64 (all_rows (batch_count moved)) 0 (omega arith)
        (bit-all_rows (batch_count moved) 0 (omega (arith, batch_count-min moved)) (omega arith)
          ∙ lt→ltb 0 (batch_count moved) h)
        (λ i l. absurd (omega arith))

  next-batch :
      c.position + 1 ≡ batch_count c.cursor
      → c.cursor.position + 64 < c.cursor.row_count
      → row_cursor_next sys c ≡ done (true, fresh)
  next-batch h more =
      let some_rows : 0 < batch_count moved = omega (arith, batch_count-min moved) in
      reloaded (all_rows (batch_count moved)) moved (none_left h)
        (with_fuel ∙ load-more (c.cursor.row_count / 64 + 1) more)
      ∙ rw
          (
            all_rows-some (batch_count moved) some_rows (omega (arith, batch_count-min moved)),
            first_bit some_rows,
          )
          refl

  next-end :
      c.position + 1 ≡ batch_count c.cursor
      → c.cursor.row_count ≤ c.cursor.position + 64
      → row_cursor_next sys c ≡ done (false, record c { row_mask = 0; cursor = moved })
  next-end h over =
      reloaded 0 moved (none_left h) (with_fuel ∙ load-end (c.cursor.row_count / 64 + 1) over)

-- What a call of `next` comes to: the next row, or the end behind the last one.
pub data Moves (c : RowCursor) (result : Outcome (Bool × RowCursor)) : Type 0 where
  to_row :
      (next : RowCursor)
      → result ≡ done (true, next)
      → Every next
      → next.cursor.row_count ≡ c.cursor.row_count
      → row next ≡ row c + 1
      → Moves c result
  to_end :
      (last : RowCursor)
      → result ≡ done (false, last)
      → row c + 1 ≡ c.cursor.row_count
      → Moves c result

-- When the index has said that all rows match, in a row group of fewer than 2^64 - 64 rows,
-- cx_row_cursor_next on a row of a batch whose mask is full goes to the next one, without an error
-- and across the batches, and reports the end exactly behind the last row.
pub row_cursor_next-Moves :
    (sys : System) (c : RowCursor) → Every c → Moves c (row_cursor_next sys c)
row_cursor_next-Moves sys c e = elim (Bool-cases (ltb (c.position + 1) (batch_count c.cursor))) [
  | inl l ↦
      let h = ltb→lt (c.position + 1) (batch_count c.cursor) l in
      to_row (record c { position = c.position + 1 }) (within-batch sys c e h)
        (record { all = e.all; mask = e.mask; begun = e.begun; here = h; small = e.small }) refl
        (omega arith)
  | inr l ↦
      let last : c.position + 1 ≡ batch_count c.cursor = ground (arith, l, e.here) in
      elim (Bool-cases (ltb (c.cursor.position + 64) c.cursor.row_count)) [
        | inl m ↦
            let more = ltb→lt (c.cursor.position + 64) c.cursor.row_count m in
            to_row (fresh sys c e) (next-batch sys c e last more)
              (record {
                all = e.all;
                mask = refl;
                begun = e.begun;
                here = omega (arith, batch_count-min (moved sys c e));
                small = e.small;
              })
              refl (omega (arith, batch_count-min c.cursor))
        | inr m ↦
            to_end (record c { row_mask = 0; cursor = moved sys c e })
              (next-end sys c e last (ground (arith, m)))
              (omega (arith, batch_count-min c.cursor, e.here, not_more m))
      ]
]
  where
    not_more :
        ltb (c.cursor.position + 64) c.cursor.row_count ≡ false
        → c.cursor.row_count ≤ c.cursor.position + 64
    not_more m = ground (arith, m)
