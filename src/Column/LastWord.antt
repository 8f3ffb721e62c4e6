-- ===== src/Column/LastWord.antt =====
-- lib/column.c: the write of a bit into the last word of a bit column, in place.
use columnix.Base.{
  ℕ, ◌+◌, ◌-◌, ◌*◌, ◌^◌, ◌<◌, ◌≡◌, ap, ap₂, ◌∙◌, sym, Bool, List, [], ◌∷◌, ◌++◌, length, take, drop,
  take-length_append, drop-length_append, bit_or, le_bytes, le_value, take-le_bytes,
  le_value-le_bytes, bytes_of, bytes_of-append, length-bytes_of, drop-bytes_of, Fits, arith,
}
use mathlib.Core.List.{append-nil}
use columnix.Column.{Column, or_last_word}
use columnix.Column.Packs.{word_of}

pub appended : (ws : List ℕ) (w : ℕ) → bytes_of 8 ws ++ le_bytes 8 w ≡ bytes_of 8 (ws ++ w ∷ [])
appended ws w =
    ap (λ t. bytes_of 8 ws ++ t) (sym (append-nil (le_bytes 8 w)))
    ∙ sym (bytes_of-append 8 ws (w ∷ []))

pub word_of-lt : (v : Bool) → word_of v < 256 ^ 8
word_of-lt v = ground arith

pub last-Fits : (u : List ℕ) (n : ℕ) → Fits 8 (u ++ n ∷ []) → n < 256 ^ 8
last-Fits [] n h = h.0
last-Fits (m ∷ u) n h = last-Fits u n h.1

pub replace-Fits :
    (u : List ℕ) (n k : ℕ) → Fits 8 (u ++ n ∷ []) → k < 256 ^ 8 → Fits 8 (u ++ k ∷ [])
replace-Fits [] n k h l = (l, tt)
replace-Fits (m ∷ u) n k h l = (h.0, replace-Fits u n k h.1 l)

-- The last word of a column, changed in place.
module _ (column : Column) (u : List ℕ) (last : ℕ)
    (stored : column.buffer ≡ bytes_of 8 (u ++ last ∷ [])) (tail : column.offset ≡ 8 * length u + 8)
    (fits : last < 256 ^ 8) where
  start-at : column.offset - 8 ≡ 8 * length u
  start-at = omega arith

  take-start : take (8 * length u) column.buffer ≡ bytes_of 8 u
  take-start =
      ap (take (8 * length u)) (stored ∙ bytes_of-append 8 u (last ∷ []))
      ∙ ap (λ k. take k (bytes_of 8 u ++ bytes_of 8 (last ∷ []))) (sym (length-bytes_of 8 u))
      ∙ take-length_append (bytes_of 8 u) (bytes_of 8 (last ∷ []))

  drop-start : drop (8 * length u) column.buffer ≡ le_bytes 8 last ++ []
  drop-start =
      ap (drop (8 * length u)) stored
      ∙ drop-bytes_of 8 (length u) (u ++ last ∷ [])
      ∙ ap (bytes_of 8) (drop-length_append u (last ∷ []))

  last-read : le_value (take 8 (drop (8 * length u) column.buffer)) ≡ last
  last-read =
      ap (λ bs. le_value (take 8 bs)) drop-start
      ∙ ap le_value (take-le_bytes 8 last [])
      ∙ le_value-le_bytes 8 last fits

  pub or_last_word-bytes : (m : ℕ) → or_last_word column m ≡ bytes_of 8 (u ++ bit_or last m ∷ [])
  or_last_word-bytes m =
      ap
        (λ k.
          take k column.buffer ++ le_bytes 8 (bit_or (le_value (take 8 (drop k column.buffer))) m))
        start-at
      ∙ ap₂ (λ bs n. bs ++ le_bytes 8 (bit_or n m)) take-start last-read
      ∙ appended u (bit_or last m)
