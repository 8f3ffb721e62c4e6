-- ===== src/Column/Reads.antt =====
-- What a client of a column cursor relies on, whatever the type of the column: a batch is the next
-- 64 values, and the cursor is valid as long as values are left.
use columnix.Base.{
  ℕ, zero, suc, ◌+◌, ◌-◌, ◌*◌, ◌≤◌, ◌<◌, ◌≡◌, refl, ap₂, ◌∙◌, sym, false, List, [], ◌++◌, min, ltb,
  if◌then◌else◌, length, take, drop, drop-add, take-append-drop, length-drop, drop-le, take-min,
  ltb→lt, Outcome, done, aborted, ◌>>=◌, arith, Bool-cases, inl, inr,
}
use columnix.Column.Cursor.{Cursor, valid}

pub record Reads {A : Type 0} (next : Cursor → Outcome (List A × Cursor)) (vs : List A)
    (At : Cursor → ℕ → Type 0) : Type 0 where
  pub batch :
      (c : Cursor) (p : ℕ)
      → At c p
      → p < length vs
      → (rest : Cursor) × (next c ≡ done (take 64 (drop p vs), rest))
        × At rest (p + min 64 (length vs - p))
  pub more : (c : Cursor) (p : ℕ) → At c p → valid c ≡ ltb p (length vs)
  pub few : (c : Cursor) (p : ℕ) → At c p → length vs ≤ 64 * c.column.offset

-- All the values that are left, by the loop `while (cx_column_cursor_valid(c)) next_batch(c)`.
module _ {A : Type 0} (next : Cursor → Outcome (List A × Cursor)) where
  unfoldable pub read_all : ℕ → Cursor → Outcome (List A)
  read_all zero cursor = aborted
  read_all (suc fuel) cursor =
      let rest = next cursor >>= λ (values, behind).
      read_all fuel behind >>= λ others. done (values ++ others) in
      if valid cursor then rest else done []

module _ {A : Type 0} {next : Cursor → Outcome (List A × Cursor)} {vs : List A}
    {At : Cursor → ℕ → Type 0} (reads : Reads next vs At) where
  pub drop-batch : (p : ℕ) → take 64 (drop p vs) ++ drop (p + min 64 (length vs - p)) vs ≡ drop p vs
  drop-batch p =
      let m = min 64 (length vs - p) in
      ap₂ ◌++◌ (sym (take-min 64 m (drop p vs) (omega (arith, length-drop p vs))))
        (drop-add p m (p + m) vs refl)
      ∙ take-append-drop m (drop p vs)

  pub read_all-drop :
      (fuel : ℕ) (c : Cursor) (p : ℕ)
      → At c p
      → length vs - p ≤ 64 * fuel
      → read_all next (suc fuel) c ≡ done (drop p vs)
  unfolding read_all
  read_all-drop zero c p a enough =
      let at_end : ltb p (length vs) ≡ false = ground arith in
      rw (reads.more c p a, at_end, drop-le p vs (omega arith)) refl
  read_all-drop (suc fuel) c p a enough = elim (Bool-cases (ltb p (length vs))) [
    | inr at_end ↦ rw (reads.more c p a, at_end, drop-le p vs (ground (arith, at_end))) refl
    | inl inside ↦
        let (rest, e, b) = reads.batch c p a (ltb→lt p (length vs) inside) in
        rw
          (
            reads.more c p a,
            inside,
            e,
            read_all-drop fuel rest (p + min 64 (length vs - p)) b (omega arith),
            drop-batch p,
          )
          refl
  ]
