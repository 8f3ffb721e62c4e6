-- ===== src/Column/Read.antt =====
-- lib/column.c: what a cursor does on a column of fixed-size cells, in cells: a skip moves on by
-- as many cells, and a batch is the next 64 of them or what is left.
use native.Mathlib.Nat.{mul-add, mul-le-mul_left}
use columnix.Base.{
  ℕ, ◌+◌, ◌-◌, ◌*◌, ◌/◌, ◌^◌, ◌≤◌, ◌<◌, ◌≡◌, refl, true, List, min, leb, add64, word_mod, length,
  take, drop, cells, bytes_of, Fits, All-drop, length-drop, drop-bytes_of, cells-bytes_of, done,
  arith,
}
use columnix.Common.{ColumnType, same_type, same_type_refl}
use columnix.Column.Cursor.{Cursor, skip, skip_count, bytes_at}

-- The cursor stands before cell `p` of a column that holds the cells `vs`, of `s` bytes each.
pub record CellsAt (s : ℕ) (t : ColumnType) (vs : List ℕ) (c : Cursor) (p : ℕ) : Type 0 where
  pub typed : c.column.type ≡ t
  pub stored : c.column.buffer ≡ bytes_of s vs
  pub tail : c.column.offset ≡ s * length vs
  pub fits : Fits s vs
  pub small : s * length vs < word_mod
  pub at : c.position ≡ s * p
  pub inside : p ≤ length vs

-- Cells in a range of bytes.
abbrev pub Divides : ℕ → Type 0
Divides s = (n p : ℕ) → (s * n - s * p) / s ≡ n - p

pub four-Divides : Divides 4
four-Divides n p = omega arith

pub eight-Divides : Divides 8
eight-Divides n p = omega arith

-- How many cells a skip over `k` passes.
abbrev pub left : List ℕ → ℕ → ℕ → ℕ
left vs p k = min k (length vs - p)

module _ {s : ℕ} (divides : Divides s) {t : ColumnType} {vs : List ℕ} {c : Cursor} {p : ℕ}
    (a : CellsAt s t vs c p) (k : ℕ) where
  skip_count-min : skip_count c s k ≡ left vs p k
  skip_count-min = rw (a.tail, a.at, divides (length vs) p) (ground arith)

  abbrev pub skipped_to : Cursor
  skipped_to = record c { position = s * (p + left vs p k) }

  ends_inside : s * (p + left vs p k) ≤ s * length vs
  ends_inside = mul-le-mul_left s (omega (arith, a.inside))

  no_wrap : add64 c.position (s * left vs p k) ≡ s * (p + left vs p k)
  no_wrap = rw a.at (omega (arith, mul-add s p (left vs p k), ends_inside, a.small))

  same : same_type c.column.type t ≡ true
  same = rw a.typed (same_type_refl t)

  no_overrun : leb (add64 c.position (s * left vs p k)) c.column.offset ≡ true
  no_overrun = rw (no_wrap, a.tail) (ground (arith, ends_inside))

  pub skip_cells : skip c t s k ≡ done (left vs p k, skipped_to)
  unfolding skip
  skip_cells = rw (skip_count-min, same, no_overrun, no_wrap) refl

  pub skipped-CellsAt : CellsAt s t vs skipped_to (p + left vs p k)
  skipped-CellsAt = record {
    typed = a.typed;
    stored = a.stored;
    tail = a.tail;
    fits = a.fits;
    small = a.small;
    at = refl;
    inside = omega (arith, a.inside);
  }

  -- The cells that are decoded at the position.
  pub cells_at : cells (left vs p k) s (bytes_at c) ≡ take (left vs p k) (drop p vs)
  cells_at =
      rw (a.stored, a.at, drop-bytes_of s p vs)
        (cells-bytes_of s (left vs p k) (drop p vs) (omega (arith, length-drop p vs))
          (All-drop (λ v. v < 256 ^ s) p vs a.fits))
