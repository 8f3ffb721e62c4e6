-- ===== src/Column/Access.antt =====
-- lib/column.c: the operations on a column of one type and their laws as one interface, whatever
-- the type, and what a client may rely on: values that are put are read back.
use mathlib.Core.Path.{subst}
use mathlib.Core.List.{append_assoc, append-nil}
use columnix.Base.{
  ℕ, suc, ◌+◌, ◌*◌, false, length-append, ◌≤◌, ◌<◌, ◌≡◌, refl, sym, true, List, [], ◌∷◌, ◌++◌,
  word_mod, length, All, Outcome, done, ◌>>=◌, arith,
}
use columnix.Common.{ColumnType, plain}
use columnix.System.{System}
use columnix.Column.{Column, half64, new, column_struct_size, column_initial_size}
use columnix.Column.Cursor.{Cursor, cursor_new, cursor_struct_size, madvise}
use columnix.Column.Grow.{Grants, Writable}
use columnix.Column.Reads.{Reads, read_all, read_all-drop}

-- What putting a value gives: a column that can be written again, and holds one value more.
abbrev pub Appends :
    {A : Type 0} → (List A → Column → Type 0) → Outcome Column → List A → A → Type 0
Appends Contains result vs v =
    (next : Column) × (result ≡ done next) × Writable next × Contains (vs ++ v ∷ []) next

pub record Access (A : Type 0) : Type 1 where
  pub type : ColumnType
  pub put : System → Column → A → Outcome Column
  pub next : Cursor → Outcome (List A × Cursor)
  -- The values that can be put, and the bytes that a list of them takes.
  pub InRange : A → Type 0
  pub bytes : List A → ℕ
  -- The contents of a column, and a cursor before the value with an index.
  pub Contains : List A → Column → Type 0
  pub At : List A → Cursor → ℕ → Type 0
  pub put-Appends :
      (sys : System)
      → Grants sys
      → (column : Column) (vs : List A) (v : A) → Writable column
      → Contains vs column
      → InRange v
      → bytes (vs ++ v ∷ []) ≤ half64
      → length vs < half64
      → Appends Contains (put sys column v) vs v
  pub reads : (vs : List A) → Reads next vs (At vs)
  pub empty :
      (column : Column)
      → column.type ≡ type
      → column.buffer ≡ []
      → column.offset ≡ 0
      → column.count ≡ 0
      → Contains [] column
  pub first :
      (column : Column) (vs : List A)
      → Contains vs column
      → bytes vs < word_mod
      → At vs (record { column = column; position = 0 }) 0
  pub grows : (vs ws : List A) → bytes vs ≤ bytes (vs ++ ws)

module _ {A : Type 0} (access : Access A) where
  -- A client's loop that puts the values of a list.
  unfoldable pub put_all : System → Column → List A → Outcome Column
  put_all sys column [] = done column
  put_all sys column (v ∷ vs) = access.put sys column v >>= λ next. put_all sys next vs

  -- A client that writes a new column and then reads it all, in `fuel` batches at most.
  unfoldable pub write_and_read : System → ℕ → List A → Outcome (List A)
  unfolding put_all read_all
  write_and_read sys fuel vs = do
    column ← new sys access.type plain
    written ← put_all sys column vs
    cursor ← cursor_new sys written
    read_all access.next (suc fuel) cursor

  module _ (sys : System) (grants : Grants sys) where
    put_all-Contains :
        (column : Column) (ws vs : List A)
        → Writable column
        → access.Contains ws column
        → All access.InRange vs
        → access.bytes (ws ++ vs) ≤ half64
        → length ws + length vs ≤ half64
        → (last : Column) × (put_all sys column vs ≡ done last)
          × Writable last
          × access.Contains (ws ++ vs) last
    unfolding put_all
    put_all-Contains column ws [] w h r small few =
        (column, refl, w, subst (λ xs. access.Contains xs column) (sym (append-nil ws)) h)
    put_all-Contains column ws (v ∷ vs) w h r small few =
        let joined : ws ++ v ∷ [] ++ vs ≡ ws ++ (v ∷ vs) = append_assoc ws (v ∷ []) vs in
        let fits : access.bytes (ws ++ v ∷ [] ++ vs) ≤ half64 = rw joined small in
        let (next, e, w', h') =
          access.put-Appends sys grants column ws v w h r.0
            (omega (arith, access.grows (ws ++ v ∷ []) vs, fits)) (omega arith) in
        let (last, e', w'', h'') =
          put_all-Contains next (ws ++ v ∷ []) vs w' h' r.1 fits
            (omega (arith, length-append ws (v ∷ []))) in
        (last, rw e e', w'', subst (λ xs. access.Contains xs last) joined h'')

    new-Contains :
        (column : Column) × (new sys access.type plain ≡ done column)
        × Writable column
        × access.Contains [] column
    unfolding new
    new-Contains =
        let column : Column = record {
          buffer = [];
          count = 0;
          offset = 0;
          size = column_initial_size;
          type = access.type;
          encoding = plain;
          mmapped = false;
        } in
        (
          column,
          rw (grants column_struct_size, grants column_initial_size) refl,
          record { own = refl; some_size = omega arith; within = omega arith; full = refl },
          access.empty column refl refl refl refl,
        )

    cursor_new-start :
        (column : Column)
        → Writable column
        → cursor_new sys column ≡ done (record { column = column; position = 0 })
    unfolding cursor_new
    cursor_new-start column w =
        let advised : madvise sys column ≡ true = rw w.own refl in
        rw (grants cursor_struct_size, advised) refl

    pub write_and_read-access :
        (vs : List A)
        → All access.InRange vs
        → access.bytes vs ≤ half64
        → (fuel : ℕ) → length vs ≤ 64 * fuel
        → length vs ≤ half64
        → write_and_read sys fuel vs ≡ done vs
    unfolding write_and_read
    write_and_read-access vs r small fuel enough few =
        let (column, e, w, h) = new-Contains in
        let (last, e', w', h') = put_all-Contains column [] vs w h r small (omega arith) in
        let a = access.first last vs h' (omega (arith, small)) in
        rw
          (
            e,
            e',
            cursor_new-start last w',
            read_all-drop (access.reads vs) fuel (record { column = last; position = 0 }) 0 a
                (omega arith),
          )
          refl
