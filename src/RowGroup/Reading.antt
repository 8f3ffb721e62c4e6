-- ===== src/RowGroup/Reading.antt =====
-- lib/row_group.c: the part of a row group cursor that reads one column. It lags behind the row
-- position until a batch is asked for, then it skips what was not asked for.
use columnix.Base.{
  ℕ, ◌+◌, ◌-◌, ◌%◌, ◌≤◌, ◌<◌, ◌≡◌, refl, true, false, Bool, List, min, leb, add64, word_mod, length,
  length-take, length-drop, take, drop, get_or, bit, some, Outcome, done, ◌>>=◌, arith, ◌⊎◌, inl,
  inr,
}
use mathlib.Core.Path.{subst}
use columnix.Common.{ColumnType}
use columnix.Column.Cursor.{Cursor}
use columnix.Column.Skips.{Skips, bit-Skips, i32-Skips, i64-Skips, flt-Skips, dbl-Skips, str-Skips}
use columnix.Column.Reads.{Reads}
use columnix.Column.Types.{Values, access_of}
use columnix.Column.Bitset.{BitAt, next_word, word, word-bits, next_batch_bit-word, next_word-BitAt}
use columnix.RowGroup.Cursor.{
  Batch, bits, i32s, i64s, flts, dbls, strs, Reading, Reader, load, reload, bit_reader, i32_reader,
  i64_reader, flt_reader, dbl_reader, str_reader,
}

abbrev pub reader_of : ColumnType → Reader
reader_of ColumnType.bit = bit_reader
reader_of ColumnType.i32 = i32_reader
reader_of ColumnType.i64 = i64_reader
reader_of ColumnType.flt = flt_reader
reader_of ColumnType.dbl = dbl_reader
reader_of ColumnType.str = str_reader

-- The batch has the values from `q` on, 64 or what is left. A word has zeros behind the last bit.
abbrev pub Shows : (t : ColumnType) → List (Values t) → ℕ → Batch → Type 0
Shows ColumnType.bit bs q batch =
    (word : ℕ) × (batch ≡ bits word) × ((i : ℕ) → i < 64 → bit i word ≡ get_or bs (q + i) false)
Shows ColumnType.i32 vs q batch = batch ≡ i32s (take 64 (drop q vs))
Shows ColumnType.i64 vs q batch = batch ≡ i64s (take 64 (drop q vs))
Shows ColumnType.flt vs q batch = batch ≡ flts (take 64 (drop q vs))
Shows ColumnType.dbl vs q batch = batch ≡ dbls (take 64 (drop q vs))
Shows ColumnType.str vs q batch = batch ≡ strs (take 64 (drop q vs))

abbrev pub width : {A : Type 0} → List A → ℕ → ℕ
width vs q = min 64 (length vs - q)

-- What the reader of a type does at a batch.
pub record Serves (t : ColumnType) (vs : List (Values t)) : Type 0 where
  pub skips : Skips (reader_of t).skip vs ((access_of t).At vs)
  pub serves :
      (c : Cursor) (q : ℕ)
      → (access_of t).At vs c q
      → q < length vs
      → (batch : Batch) × (rest : Cursor) × ((reader_of t).next c ≡ done (batch, width vs q, rest))
        × Shows t vs q batch
        × (access_of t).At vs rest (q + width vs q)

-- A reader that wraps the lists that `next` gives.
module _ {A : Type 0} {next : Cursor → Outcome (List A × Cursor)} {vs : List A}
    {At : Cursor → ℕ → Type 0} (reads : Reads next vs At) (wrap : List A → Batch) where
  wrapped :
      (c : Cursor) (q : ℕ)
      → At c q
      → q < length vs
      → (batch : Batch) × (rest : Cursor) × (◌>>=◌ {B = Batch × ℕ × Cursor}
            (next c)
            (λ (values, behind). done (wrap values, length values, behind))
          ≡ done (batch, width vs q, rest))
        × (batch ≡ wrap (take 64 (drop q vs)))
        × At rest (q + width vs q)
  wrapped c q a h =
      let (rest, e, b) = reads.batch c q a h in
      let count : length (take 64 (drop q vs)) ≡ width vs q =
        omega (arith, length-take 64 (drop q vs), length-drop q vs) in
      (wrap (take 64 (drop q vs)), rest, rw (e, count) refl, refl, b)

bits-served :
    (bs : List Bool) (c : Cursor) (q : ℕ)
    → BitAt bs c q
    → q < length bs
    → (batch : Batch) × (rest : Cursor) × (bit_reader.next c ≡ done (batch, width bs q, rest))
      × Shows ColumnType.bit bs q batch
      × BitAt bs rest (q + width bs q)
bits-served bs c q a h = (
  bits (word a h),
  next_word a h,
  rw (next_batch_bit-word a h) refl,
  (word a h, refl, word-bits a h),
  next_word-BitAt a h,
)

pub reader_of-Serves : (t : ColumnType) (vs : List (Values t)) → Serves t vs
reader_of-Serves ColumnType.bit vs = record { skips = bit-Skips vs; serves = bits-served vs }
reader_of-Serves ColumnType.i32 vs = record {
  skips = i32-Skips vs;
  serves = wrapped ((access_of ColumnType.i32).reads vs) i32s;
}
reader_of-Serves ColumnType.i64 vs = record {
  skips = i64-Skips vs;
  serves = wrapped ((access_of ColumnType.i64).reads vs) i64s;
}
reader_of-Serves ColumnType.flt vs = record {
  skips = flt-Skips vs;
  serves = wrapped ((access_of ColumnType.flt).reads vs) flts;
}
reader_of-Serves ColumnType.dbl vs = record {
  skips = dbl-Skips vs;
  serves = wrapped ((access_of ColumnType.dbl).reads vs) dbls;
}
reader_of-Serves ColumnType.str vs = record {
  skips = str-Skips vs;
  serves = wrapped ((access_of ColumnType.str).reads vs) strs;
}

-- The reading's cursor stands at its position, at or before row `q`, at the start of a batch.
pub record Lags (t : ColumnType) (vs : List (Values t)) (q : ℕ) (r : Reading) : Type 0 where
  pub column_cursor : Cursor
  pub opened : r.cursor ≡ some column_cursor
  pub stands : (access_of t).At vs column_cursor r.position
  pub behind : r.position ≤ q
  pub aligned : r.position % 64 ≡ 0

-- The reading has the batch of row `q`, and its cursor stands behind it.
pub record Has (t : ColumnType) (vs : List (Values t)) (q : ℕ) (r : Reading) : Type 0 where
  pub column_cursor : Cursor
  pub opened : r.cursor ≡ some column_cursor
  pub stands : (access_of t).At vs column_cursor r.position
  pub ahead : r.position ≡ q + width vs q
  pub shows : Shows t vs q r.batch
  pub counts : r.count ≡ width vs q

module _ (t : ColumnType) (vs : List (Values t)) (few : length vs < word_mod) (q : ℕ) (r : Reading)
    (start : q % 64 ≡ 0) (inside : q < length vs) where
  -- On a reading that lags, a load skips to row `q` and reads.
  reload-Has :
      (l : Lags t vs q r)
      → (next : Reading) × (reload (reader_of t) q r l.column_cursor ≡ done next) × Has t vs q next
  unfolding reload
  reload-Has l =
      let s = reader_of-Serves t vs in
      let there : r.position + (q - r.position) ≡ q = omega (arith, l.behind) in
      let (skipped_to, e, a) =
        s.skips.to_batch l.column_cursor r.position (q - r.position) l.stands l.aligned
          (omega (arith, l.behind, l.aligned)) (omega (arith, l.behind)) in
      let (batch, rest, f, shows, b) =
        s.serves skipped_to q (subst (λ n. (access_of t).At vs skipped_to n) there a) inside in
      let sum : add64 (add64 r.position (q - r.position)) (width vs q) ≡ q + width vs q =
        omega (arith, l.behind) in
      (
        record { cursor = some rest; position = q + width vs q; batch = batch; count = width vs q },
        rw (e, f, sum) refl,
        record {
          column_cursor = rest;
          opened = refl;
          stands = b;
          ahead = refl;
          shows = shows;
          counts = refl;
        },
      )

  load-Lags :
      Lags t vs q r → (next : Reading) × (load (reader_of t) q r ≡ done next) × Has t vs q next
  unfolding load
  load-Lags l =
      let (next, e, h) = reload-Has l in
      let behind : leb r.position q ≡ true = ground (arith, l.behind) in
      (next, rw (l.opened, behind) e, h)

  load-loaded : Has t vs q r → load (reader_of t) q r ≡ done r
  unfolding load
  load-loaded h =
      let not_behind : leb r.position q ≡ false = ground (arith, h.ahead) in
      rw (h.opened, not_behind) refl

-- A reading between two batches: it lags, or has the batch of row `q` already.
abbrev pub Ready : (t : ColumnType) → List (Values t) → ℕ → Reading → Type 0
Ready t vs q r = Lags t vs q r ⊎ Has t vs q r

-- For each of the six column types, with a column of fewer than 2^64 values: at row `q`, the first
-- of a batch, a reading that lags behind by whole batches, or has the batch of the row already, is
-- loaded without an error, and then has the values of the rows from `q` on, 64 or what is left,
-- with their number, while its cursor stands behind them.
pub load-Has :
    (t : ColumnType) (vs : List (Values t)) (q : ℕ) (r : Reading)
    → length vs < word_mod
    → q % 64 ≡ 0
    → q < length vs
    → Ready t vs q r
    → (next : Reading) × (load (reader_of t) q r ≡ done next) × Has t vs q next
load-Has t vs q r few start inside (inl l) = load-Lags t vs few q r start inside l
load-Has t vs q r few start inside (inr h) = (r, load-loaded t vs few q r start inside h, h)

-- When the row group cursor moves on by 64 rows, and rows are left, a reading that was ready lags.
pub Ready-advance :
    (t : ColumnType) (vs : List (Values t)) (q : ℕ) (r : Reading)
    → q % 64 ≡ 0
    → q + 64 < length vs
    → Ready t vs q r
    → Lags t vs (q + 64) r
Ready-advance t vs q r start more (inl l) = record {
  column_cursor = l.column_cursor;
  opened = l.opened;
  stands = l.stands;
  behind = omega (arith, l.behind);
  aligned = l.aligned;
}
Ready-advance t vs q r start more (inr h) = record {
  column_cursor = h.column_cursor;
  opened = h.opened;
  stands = h.stands;
  behind = omega (arith, h.ahead);
  aligned = omega (arith, h.ahead, start);
}
