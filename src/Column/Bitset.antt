-- ===== src/Column/Bitset.antt =====
-- lib/column.c: a bit column, 64 bits to a word, and how a batch of bits is read.
use columnix.Base.{
  ℕ, zero, suc, ◌+◌, ◌-◌, ◌*◌, ◌/◌, ◌%◌, ◌≤◌, ◌<◌, ◌≡◌, ◌⊎◌, inl, inr, refl, ap, ap₂, ◌∙◌, sym,
  false, Bool, List, ◌∷◌, min, ltb, word_mod, length, take, drop, drop-get_or, length-drop,
  take-min, get_or, bit, word_bits, bytes_of, Fits, cells, le_value, done, arith, Bool-cases,
  ltb→lt,
}
use columnix.Common.{ColumnType}
use columnix.Column.{Column}
use columnix.Column.Cursor.{Cursor, valid, skip, skip_bit, trim_trailing, next_batch_bit, bytes_at}
use columnix.Column.Read.{CellsAt, eight-Divides, skip_cells, left, cells_at}
use columnix.Column.Packs.{Packs}

-- The words of the column have its bits, and zeros behind them.
pub record HoldsBits (bs : List Bool) (column : Column) : Type 0 where
  pub words : List ℕ
  pub typed : column.type ≡ ColumnType.bit
  pub stored : column.buffer ≡ bytes_of 8 words
  pub tail : column.offset ≡ 8 * length words
  pub counted : column.count ≡ length bs
  pub fits : Fits 8 words
  pub packs : Packs words bs

-- The cursor stands before bit `p`, the first of a word, or behind all.
pub record BitAt (bs : List Bool) (c : Cursor) (p : ℕ) : Type 0 where
  pub holds : HoldsBits bs c.column
  pub small : c.column.offset < word_mod
  pub at : c.position ≡ 8 * ((p + 63) / 64)
  pub aligned : (p % 64 ≡ 0) ⊎ (p ≡ length bs)
  pub inside : p ≤ length bs

word_bits-take :
    (bs : List Bool) (p word : ℕ)
    → ((i : ℕ) → i < 64 → bit i word ≡ get_or bs (p + i) false)
    → (n i : ℕ) → i + n ≤ 64
    → p + i + n ≤ length bs
    → word_bits n i word ≡ take n (drop (p + i) bs)
word_bits-take bs p word h zero i few inside = refl
word_bits-take bs p word h (suc n) i few inside = rw (drop-get_or bs (p + i) false (omega arith)) (
    ap₂ ◌∷◌ (h i (omega arith)) (
      word_bits-take bs p word h n (suc i) (omega arith) (omega arith)
      ∙ ap (λ q. take n (drop q bs)) {x = p + suc i} {y = suc (p + i)} (omega arith)))

module _ {bs : List Bool} {c : Cursor} {p : ℕ} (a : BitAt bs c p) (more : p < length bs) where
  starts : p % 64 ≡ 0
  starts = elim a.aligned [ inl e ↦ e | inr e ↦ absurd (omega arith) ]

  pub at_word : CellsAt 8 ColumnType.bit a.holds.words c (p / 64)
  at_word = record {
    typed = a.holds.typed;
    stored = a.holds.stored;
    tail = a.holds.tail;
    fits = a.holds.fits;
    small = omega (arith, a.small, a.holds.tail);
    at = omega (arith, a.at, starts);
    inside = omega (arith, a.holds.packs.covers);
  }

  abbrev pub next_word : Cursor
  next_word = record c { position = 8 * (p / 64 + 1) }

  skip_word : skip c ColumnType.bit 8 1 ≡ done (1, next_word)
  skip_word =
      skip_cells eight-Divides at_word 1
      ∙ ap (λ n. done (n, record c { position = 8 * (p / 64 + n) }))
          {x = min 1 (length a.holds.words - p / 64)} {y = 1} (omega (arith, a.holds.packs.covers))

  abbrev pub available : ℕ
  available = min 64 (length bs - p)

  trim_word : trim_trailing next_word 64 ≡ available
  trim_word = ground (arith, starts, a.holds.tail, a.holds.packs.covers, a.holds.counted)

  skip_bit-word : skip_bit c 64 ≡ done (available, next_word)
  unfolding skip_bit
  skip_bit-word = rw (skip_word, trim_word) refl

  abbrev pub word : ℕ
  word = le_value (take 8 (bytes_at c))

  one_left : left a.holds.words (p / 64) 1 ≡ 1
  one_left = omega (arith, a.holds.packs.covers)

  word-get : word ≡ get_or a.holds.words (p / 64) 0
  word-get =
      ap (λ ws. get_or ws 0 0)
        (ap (λ n. cells n 8 (bytes_at c)) (sym one_left)
          ∙ cells_at eight-Divides at_word 1
          ∙ ap (λ n. take n (drop (p / 64) a.holds.words)) one_left
          ∙ ap (take 1)
              (drop-get_or a.holds.words (p / 64) 0 (omega (arith, a.holds.packs.covers))))

  pub word-bits : (i : ℕ) → i < 64 → bit i word ≡ get_or bs (p + i) false
  word-bits i h =
      ap (bit i) word-get
      ∙ a.holds.packs.bits (p / 64) i h
      ∙ ap (λ q. get_or bs q false) {x = 64 * (p / 64) + i} {y = p + i} (omega (arith, starts))

  pub next_batch_bit-word : next_batch_bit c ≡ done (word, available, next_word)
  unfolding next_batch_bit
  next_batch_bit-word = rw skip_bit-word refl

  pub word_bits-batch : word_bits available 0 word ≡ take 64 (drop p bs)
  word_bits-batch =
      word_bits-take bs p word word-bits available 0 (omega arith) (omega arith)
      ∙ ap (λ q. take available (drop q bs)) {x = p + 0} {y = p} (omega arith)
      ∙ take-min 64 available (drop p bs) (omega (arith, length-drop p bs))

  pub next_word-BitAt : BitAt bs next_word (p + available)
  next_word-BitAt = record {
    holds = a.holds;
    small = a.small;
    at = omega (arith, starts);
    aligned = elim (Bool-cases (ltb (length bs) (p + 64))) [
      | inl l ↦ inr (omega (arith, ltb→lt (length bs) (p + 64) l))
      | inr l ↦ inl (ground (arith, l, starts))
    ];
    inside = omega arith;
  }

pub valid-BitAt : (bs : List Bool) (c : Cursor) (p : ℕ) → BitAt bs c p → valid c ≡ ltb p (length bs)
valid-BitAt bs c p a = ground (arith, a.at, a.aligned, a.holds.tail, a.holds.packs.covers, a.inside)
