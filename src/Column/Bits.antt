-- ===== src/Column/Bits.antt =====
-- lib/column.c: `cx_column_put_bit` and the batches of a bit column.
use columnix.Base.{
  ℕ, suc, ◌+◌, ◌-◌, ◌*◌, ◌/◌, ◌%◌, ◌^◌, ◌≤◌, ◌<◌, ◌≡◌, refl, ap, ◌∙◌, sym, true, false, not, ◌||◌,
  Bool, List, [], ◌∷◌, ◌++◌, ◌==◌, add64, length, length-append, take, drop-get_or, drop-le,
  take-append-drop, get_or, All-append, bit_or, bit_or-lt, two_pow-lt, word_bits, le_bytes,
  length-le_bytes, bytes_of, length-bytes_of, Fits, Outcome, done, ◌>>=◌, arith, Bool-cases, inl,
  inr,
}
use mathlib.Core.Path.{subst}
use columnix.Common.{ColumnType, same_type}
use columnix.System.{System}
use columnix.Column.{Column, half64, put, put_bit, or_last_word, shift_one}
use columnix.Column.Cursor.{Cursor, next_batch_bit}
use columnix.Column.Grow.{Grants, Writable, written, put-written}
use columnix.Column.Packs.{Packs, Packs-nil, Packs-start, Packs-false, Packs-or, word_of}
use columnix.Column.LastWord.{appended, word_of-lt, last-Fits, replace-Fits, or_last_word-bytes}
use columnix.Column.Bitset.{
  HoldsBits, BitAt, next_word, available, word, next_batch_bit-word, word_bits-batch,
  next_word-BitAt, valid-BitAt,
}
use columnix.Column.Reads.{Reads}
use columnix.Column.Access.{Access, Appends}

-- The bits that are read with one word.
abbrev pub batch_bits : Cursor → Outcome (List Bool × Cursor)
batch_bits cursor =
    next_batch_bit cursor >>= λ (word, available, rest). done (word_bits available 0 word, rest)

pub bits-Reads : (bs : List Bool) → Reads batch_bits bs (BitAt bs)
bits-Reads bs = record {
  batch = λ c p a h.
      (next_word a h, rw (next_batch_bit-word a h, word_bits-batch a h) refl, next_word-BitAt a h);
  more = valid-BitAt bs;
  few = λ c p a. omega (arith, a.holds.tail, a.holds.packs.covers);
}

-- The bytes of so many bits.
abbrev pub bytes_of_bits : List Bool → ℕ
bytes_of_bits bs = 8 * ((length bs + 63) / 64)

module _ (sys : System) (grants : Grants sys) (column : Column) (bs : List Bool) (v : Bool)
    (w : Writable column) (h : HoldsBits bs column) (small : bytes_of_bits (bs ++ v ∷ []) ≤ half64)
    (few : length bs < half64) where
  put_bit-start : column.count % 64 ≡ 0 → Appends HoldsBits (put_bit sys column v) bs v
  unfolding put_bit
  put_bit-start e =
      let (r, f, w') =
        put-written sys grants w (le_bytes 8 (word_of v))
          (omega (
            arith,
            h.tail,
            h.packs.covers,
            h.counted,
            length-append bs (v ∷ []),
            length-le_bytes 8 (word_of v),
          ))
          (omega (arith, h.counted)) in
      let first : (column.count % 64 == 0) ≡ true = ground arith in
      (
        written column r (le_bytes 8 (word_of v)),
        rw first (ap (λ t. put sys column t (le_bytes 8 (word_of v))) (sym h.typed) ∙ f),
        w',
        record {
          words = h.words ++ word_of v ∷ [];
          typed = h.typed;
          stored = ap (λ t. t ++ le_bytes 8 (word_of v)) h.stored ∙ appended h.words (word_of v);
          tail = omega (
            arith,
            h.tail,
            length-le_bytes 8 (word_of v),
            length-append h.words (word_of v ∷ []),
          );
          counted = omega (arith, h.counted, length-append bs (v ∷ []));
          fits = All-append (λ n. n < 256 ^ 8) h.words (word_of v ∷ []) h.fits (word_of-lt v, tt);
          packs = Packs-start h.packs v (omega (arith, e, h.counted));
        },
      )

  accepted : not (not (same_type column.type ColumnType.bit) || column.mmapped) ≡ true
  accepted = rw (h.typed, w.own) refl

  put_bit-false : 0 < column.count % 64 → v ≡ false → Appends HoldsBits (put_bit sys column v) bs v
  unfolding put_bit
  put_bit-false e f =
      let later : (column.count % 64 == 0) ≡ false = ground arith in
      let more : add64 column.count 1 ≡ column.count + 1 = omega (arith, h.counted) in
      (
        record column { count = column.count + 1 },
        rw (later, accepted, more, f) refl,
        record { own = w.own; some_size = w.some_size; within = w.within; full = w.full },
        record {
          words = h.words;
          typed = h.typed;
          stored = h.stored;
          tail = h.tail;
          counted = omega (arith, h.counted, length-append bs (v ∷ []));
          fits = h.fits;
          packs = Packs-false h.packs v (omega (arith, e, h.counted)) f;
        },
      )

  put_bit-or :
      (u : List ℕ) (last : ℕ)
      → 0 < column.count % 64
      → v ≡ true
      → h.words ≡ u ++ last ∷ []
      → Appends HoldsBits (put_bit sys column v) bs v
  unfolding put_bit
  put_bit-or u last e f split =
      let later : (column.count % 64 == 0) ≡ false = ground arith in
      let more : add64 column.count 1 ≡ column.count + 1 = omega (arith, h.counted) in
      let packs : Packs (u ++ last ∷ []) bs = subst (λ ws. Packs ws bs) split h.packs in
      let fits : Fits 8 (u ++ last ∷ []) = subst (Fits 8) split h.fits in
      let long : length h.words ≡ length u + 1 = ap length split ∙ length-append u (last ∷ []) in
      let last-fits : last < 256 ^ 8 = last-Fits u last fits in
      let j : ℕ = length bs % 64 in
      let used : 0 < length bs % 64 = omega (arith, e, h.counted) in
      let shifted : shift_one column.count ≡ 2 ^ j = ap shift_one h.counted in
      let changed : or_last_word column (shift_one column.count)
          ≡ bytes_of 8 (u ++ bit_or last (2 ^ j) ∷ []) =
        ap (or_last_word column) shifted
        ∙ or_last_word-bytes column u last (h.stored ∙ ap (bytes_of 8) split)
            (omega (arith, h.tail, long)) last-fits (2 ^ j) in
      (
        record column {
          buffer = bytes_of 8 (u ++ bit_or last (2 ^ j) ∷ []);
          count = column.count + 1;
        },
        rw (later, accepted, more, f, changed) refl,
        record {
          own = w.own;
          some_size = w.some_size;
          within = w.within;
          full = omega (
            arith,
            length-bytes_of 8 (u ++ bit_or last (2 ^ j) ∷ []),
            length-append u (bit_or last (2 ^ j) ∷ []),
            h.tail,
            long,
          );
        },
        subst
            (λ b. HoldsBits (bs ++ b ∷ []) (record column {
              buffer = bytes_of 8 (u ++ bit_or last (2 ^ j) ∷ []);
              count = column.count + 1;
            }))
            (sym f)
            (record {
              words = u ++ bit_or last (2 ^ j) ∷ [];
              typed = h.typed;
              stored = refl;
              tail = omega (arith, h.tail, long, length-append u (bit_or last (2 ^ j) ∷ []));
              counted = omega (arith, h.counted, length-append bs (true ∷ []));
              fits =
                  replace-Fits u last (bit_or last (2 ^ j)) fits
                    (bit_or-lt 64 last (2 ^ j) last-fits (two_pow-lt j 64 (omega arith)));
              packs = Packs-or u last packs used;
            }),
      )

  put_bit-true : 0 < column.count % 64 → v ≡ true → Appends HoldsBits (put_bit sys column v) bs v
  put_bit-true e f =
      let k = length h.words - 1 in
      put_bit-or (take k h.words) (get_or h.words k 0) e f (
        sym (take-append-drop k h.words)
        ∙ ap (λ ws. take k h.words ++ ws)
            (drop-get_or h.words k 0 (omega (arith, h.packs.covers, h.counted, e))
              ∙ ap (λ ws. get_or h.words k 0 ∷ ws) (drop-le (suc k) h.words (omega arith))))

  pub put_bit-Appends : Appends HoldsBits (put_bit sys column v) bs v
  put_bit-Appends = elim (Bool-cases (column.count % 64 == 0)) [
    | inl e ↦ put_bit-start (ground (arith, e))
    | inr e ↦ elim (Bool-cases v) [
      | inl f ↦ put_bit-true (ground (arith, e)) f
      | inr f ↦ put_bit-false (ground (arith, e)) f
    ]
  ]

abbrev pub bit_access : Access Bool
bit_access = record {
  type = ColumnType.bit;
  put = put_bit;
  next = batch_bits;
  InRange = λ v. Unit;
  bytes = bytes_of_bits;
  Contains = HoldsBits;
  At = BitAt;
  put-Appends = λ sys grants column bs v w h r small few.
      put_bit-Appends sys grants column bs v w h small few;
  reads = bits-Reads;
  empty = λ column t b o n. record {
    words = [];
    typed = t;
    stored = b;
    tail = o;
    counted = n;
    fits = tt;
    packs = Packs-nil;
  };
  first = λ column bs h small. record {
    holds = h;
    small = omega (arith, h.tail, h.packs.covers);
    at = refl;
    aligned = inl refl;
    inside = omega arith;
  };
  grows = λ bs cs. omega (arith, length-append bs cs);
}
