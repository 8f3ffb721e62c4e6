-- ===== src/Row/Step.antt =====
-- lib/row.c: how `cx_row_cursor_next` moves within the mask of a batch.
use native.Mathlib.Nat.{pow-succ', div-div-eq-div-mul}
use columnix.Base.{
  ℕ, zero, suc, ◌+◌, ◌-◌, ◌/◌, ◌%◌, ◌^◌, ◌<◌, ◌≡◌, refl, ap, ap₂, ◌∙◌, sym, true, false, ltb, ◌==◌,
  bit, bit-zero, done, arith,
}
use mathlib.Core.Bool.{false≢true}
use columnix.System.{System}
use columnix.Row.{RowCursor, trailing_zeros, ctz, rest_of_mask, row_cursor_next}

pub bit-shift : (k i n : ℕ) → bit i (n / 2 ^ k) ≡ bit (k + i) n
bit-shift zero i n = ap₂ bit {x = i} {y = 0 + i} (omega arith) (omega arith)
bit-shift (suc k) i n =
    ap (bit i) (ap (λ d. n / d) (pow-succ' 2 k) ∙ sym (div-div-eq-div-mul n 2 (2 ^ k)))
    ∙ bit-shift k i (n / 2)
    ∙ ap (λ q. bit q n) {x = suc (k + i)} {y = suc k + i} (omega arith)

-- `j` is the first bit that is set.
pub trailing_zeros-first :
    (n m j : ℕ)
    → j < n
    → bit j m ≡ true
    → ((i : ℕ) → i < j → bit i m ≡ false)
    → trailing_zeros n m ≡ j
trailing_zeros-first zero m j h t f = absurd (omega arith)
trailing_zeros-first (suc n) m zero h t f = ground arith
trailing_zeros-first (suc n) m (suc j) h t f =
    let even : (m % 2 == 0) ≡ true = ground (arith, f 0 (omega arith)) in
    rw (even, trailing_zeros-first n (m / 2) j (omega arith) t (λ i l. f (suc i) (omega arith)))
      refl

pub not_zero : (j m : ℕ) → bit j m ≡ true → (m == 0) ≡ false
not_zero j zero h = absurd (false≢true (sym (bit-zero j) ∙ h))
not_zero j (suc m) h = ground arith

module _ (sys : System) (c : RowCursor) (j : ℕ) (later : c.position < j) (small : j < 64)
    (set : bit j c.row_mask ≡ true)
    (gap : (i : ℕ) → c.position < i → i < j → bit i c.row_mask ≡ false) where
  abbrev shifted : ℕ
  shifted = c.row_mask / 2 ^ (c.position + 1)

  rest-shifted : rest_of_mask c ≡ shifted
  rest-shifted = let room : ltb c.position 63 ≡ true = ground arith in rw room refl

  shifted-set : bit (j - (c.position + 1)) shifted ≡ true
  shifted-set =
      bit-shift (c.position + 1) (j - (c.position + 1)) c.row_mask
      ∙ ap (λ k. bit k c.row_mask) {x = c.position + 1 + (j - (c.position + 1))} {y = j}
          (omega arith)
      ∙ set

  ctz-shifted : ctz shifted ≡ j - (c.position + 1)
  ctz-shifted =
      trailing_zeros-first 64 shifted (j - (c.position + 1)) (omega arith) shifted-set (λ i l.
        bit-shift (c.position + 1) i c.row_mask
        ∙ gap (c.position + 1 + i) (omega arith) (omega arith))

  -- While a bit behind the position is set in the mask, `cx_row_cursor_next` moves to the first such
  -- bit, without an error, and changes nothing else.
  pub row_cursor_next-bit : row_cursor_next sys c ≡ done (true, record c { position = j })
  unfolding row_cursor_next
  row_cursor_next-bit =
      rw (rest-shifted, not_zero (j - (c.position + 1)) shifted shifted-set, ctz-shifted)
        (ap (λ k. done (true, record c { position = k }))
          {x = c.position + (j - (c.position + 1)) + 1} {y = j} (omega arith))
