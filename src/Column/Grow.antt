-- ===== src/Column/Grow.antt =====
-- lib/column.c: the growth of a column's buffer, and what `cx_column_put` does when memory is there.
use native.Mathlib.Nat.{pow-suc}
use columnix.Base.{
  ℕ, zero, suc, ◌+◌, ◌*◌, ◌%◌, ◌^◌, ◌≤◌, ◌<◌, ◌≡◌, refl, ◌∙◌, true, false, not, ◌||◌, List, ◌++◌,
  ltb, if◌then◌else◌, add64, word_mod, length, take, take-le, done, arith, ◌⊎◌, inl, inr,
  Bool-cases, length-append, ltb→lt, lt→ltb,
}
use columnix.Common.{same_type, same_type_refl}
use columnix.System.{System}
use columnix.Column.{Column, half64, grow, resize, put}

-- `cx_column_resize` finds a size that is large enough: the old one, or one that is less than
-- twice what is needed.
pub record Grown (size required r : ℕ) : Type 0 where
  pub enough : required ≤ r
  pub keeps : size ≤ r
  pub frugal : (r ≡ size) ⊎ (r < required + required)

double-lt :
    (size required : ℕ)
    → 1 ≤ size
    → required ≤ half64
    → ltb size required ≡ true
    → (size * 2 % word_mod ≡ size * 2) × (ltb size (size * 2 % word_mod) ≡ true)
double-lt size required h k l = (
  omega (arith, ltb→lt size required l),
  lt→ltb size (size * 2 % word_mod) (omega (arith, ltb→lt size required l)),
)

grow-stays :
    (fuel size required : ℕ) → ltb size required ≡ false → grow (suc fuel) size required ≡ done size
unfolding grow
grow-stays fuel size required l = rw l refl

grow-doubles :
    (fuel size required : ℕ)
    → 1 ≤ size
    → required ≤ half64
    → ltb size required ≡ true
    → grow (suc fuel) size required ≡ grow fuel (size * 2) required
unfolding grow
grow-doubles fuel size required h k l =
    let d = double-lt size required h k l in rw (l, d.1, d.0) refl

Grown-double :
    (size required r : ℕ)
    → ltb size required ≡ true
    → Grown (size * 2) required r
    → Grown size required r
Grown-double size required r l g = record {
  enough = g.enough;
  keeps = omega (arith, g.keeps);
  frugal = elim g.frugal [ inl e ↦ inr (omega (arith, ltb→lt size required l)) | inr e ↦ inr e ];
}

doubled : (fuel size : ℕ) → size * 2 ^ suc fuel ≡ size * 2 * 2 ^ fuel
doubled fuel size = grind (arith, pow-suc 2 fuel)

pub grow-done :
    (fuel size required : ℕ)
    → 1 ≤ size
    → required ≤ half64
    → half64 ≤ size * 2 ^ fuel
    → (r : ℕ) × (grow (suc fuel) size required ≡ done r) × Grown size required r
grow-done zero size required h k e = elim (Bool-cases (ltb size required)) [
  | inr l ↦ (
    size,
    grow-stays zero size required l,
    record { enough = ground (arith, l); keeps = omega arith; frugal = inl refl },
  )
  | inl l ↦ absurd (omega (arith, ltb→lt size required l))
]
grow-done (suc fuel) size required h k e =
    let (r, g, b) =
      grow-done fuel (size * 2) required (omega arith) k (omega (arith, doubled fuel size)) in
    elim (Bool-cases (ltb size required)) [
      | inr l ↦ (
        size,
        grow-stays (suc fuel) size required l,
        record { enough = ground (arith, l); keeps = omega arith; frugal = inl refl },
      )
      | inl l ↦
          (r, grow-doubles (suc fuel) size required h k l ∙ g, Grown-double size required r l b)
    ]

-- The system refuses no memory.
abbrev pub Grants : System → Type 0
Grants sys = (n : ℕ) → sys.grants n ≡ true

-- A column that is not mapped, whose buffer is allocated.
pub record Writable (column : Column) : Type 0 where
  pub own : column.mmapped ≡ false
  pub some_size : 1 ≤ column.size
  pub within : column.offset ≤ column.size
  pub full : length column.buffer ≡ column.offset

abbrev pub written : Column → ℕ → List ℕ → Column
written column r value = record column {
  buffer = column.buffer ++ value;
  count = column.count + 1;
  offset = column.offset + length value;
  size = r;
}

module _ (sys : System) (grants : Grants sys) {column : Column} (w : Writable column) where
  -- Where no memory is refused and the buffer stays within 2^63 bytes, `cx_column_resize` on an
  -- allocated column of its own makes room for `alloc_size` more bytes and changes nothing but the
  -- size: its loop ends, the size does not shrink, and it is less than twice the room that is needed
  -- unless the old size is kept.
  pub resize-Grown :
      (alloc_size : ℕ)
      → column.offset + alloc_size ≤ half64
      → (r : ℕ) × (resize sys column alloc_size ≡ done (record column { size = r }))
        × Grown column.size (column.offset + alloc_size) r
  unfolding resize
  resize-Grown alloc_size small =
      let (r, g, b) =
        grow-done 64 column.size (column.offset + alloc_size) w.some_size small
          (omega (arith, w.some_size)) in
      let no_wrap : add64 column.offset alloc_size ≡ column.offset + alloc_size = omega arith in
      (r, rw (no_wrap, g, grants r) refl, b)

  module _ (value : List ℕ) (small : column.offset + length value ≤ half64) where
    room_for :
        (r : ℕ) × ((if ltb column.size (add64 column.offset (length value))
            then resize sys column (length value)
            else done column)
          ≡ done (record column { size = r }))
        × (column.offset + length value ≤ r)
        × (1 ≤ r)
    room_for =
        let no_wrap : add64 column.offset (length value) ≡ column.offset + length value =
          omega arith in
        elim (Bool-cases (ltb column.size (column.offset + length value))) [
          | inl l ↦
              let (r, g, b) = resize-Grown (length value) small in
              (r, rw (no_wrap, l) g, b.enough, omega (arith, b.keeps, w.some_size))
          | inr l ↦ (column.size, rw (no_wrap, l) refl, ground (arith, l), w.some_size)
        ]

    -- A value whose type is the column's is appended to the buffer, and counted.
    pub put-written :
        column.count + 1 < word_mod
        → (r : ℕ) × (put sys column column.type value ≡ done (written column r value))
          × Writable (written column r value)
    unfolding put
    put-written few =
        let (r, g, b, h) = room_for in
        let no_wrap : add64 column.offset (length value) ≡ column.offset + length value =
          omega arith in
        let counted : add64 column.count 1 ≡ column.count + 1 = omega arith in
        let all : take column.offset column.buffer ≡ column.buffer =
          take-le column.offset column.buffer (omega (arith, w.full)) in
        let accepted : not (column.mmapped || not (same_type column.type column.type)) ≡ true =
          rw (w.own, same_type_refl column.type) refl in
        (
          r,
          rw (accepted, g, all, counted, no_wrap) refl,
          record {
            own = w.own;
            some_size = h;
            within = b;
            full = omega (arith, length-append column.buffer value, w.full);
          },
        )
