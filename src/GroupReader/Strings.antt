-- ===== src/GroupReader/Strings.antt =====
-- lib/reader.c: `cx_row_group_reader_string` gives the string with the number that it is asked for.
use columnix.Base.{
  ℕ, zero, suc, ◌+◌, ◌≡◌, refl, ap, false, List, [], ◌∷◌, ◌++◌, Option, none, some, ◌==◌, ltb,
  length, length-append, take, get_elem?, All, Outcome, done, failed, arith,
}
use columnix.Common.{ColumnType}
use columnix.Column.Cursor.{strlen}
use columnix.Column.Strings.{NulFree, text, strlen-text, drop-text, take-text}
use columnix.GroupReader.{GroupReader, skip_to_string, reader_string}

-- The bytes from string `i` on, or nothing behind the last one.
abbrev from : List (List ℕ) → ℕ → Option (List ℕ)
from [] i = none
from (s ∷ ss) zero = some (text (s ∷ ss))
from (s ∷ ss) (suc i) = from ss i

skip_to_string-text :
    (ss : List (List ℕ)) (i : ℕ) → All NulFree ss → skip_to_string i (text ss) ≡ done (from ss i)
unfolding skip_to_string
skip_to_string-text [] zero c = refl
skip_to_string-text [] (suc i) c = refl
skip_to_string-text (s ∷ ss) zero c =
    let some_bytes : (length (s ++ 0 ∷ text ss) == 0) ≡ false =
      ground (arith, length-append s (0 ∷ text ss)) in
    rw some_bytes refl
skip_to_string-text (s ∷ ss) (suc i) c =
    let size = length-append s (0 ∷ text ss) in
    let some_bytes : (length (s ++ 0 ∷ text ss) == 0) ≡ false = ground (arith, size) in
    let inside : ltb (length (s ++ 0 ∷ text ss)) (length s + 1) ≡ false = ground (arith, size) in
    rw (strlen-text s (text ss) c.0, some_bytes, inside, drop-text s (text ss))
      (skip_to_string-text ss i c.1)

-- The string of a number in a list, as the reader gives it.
abbrev pub string_or_null : Option (List ℕ) → Outcome (List ℕ)
string_or_null none = failed
string_or_null (some s) = done s

first_string :
    (ss : List (List ℕ)) (i : ℕ)
    → All NulFree ss
    → (elim (from ss i) as (λ _. Outcome (List ℕ)) [
      | none ↦ failed
      | some bytes ↦ done (take (strlen bytes) bytes)
    ])
      ≡ string_or_null (get_elem? ss i)
first_string [] i c = refl
first_string (s ∷ ss) zero c = rw (strlen-text s (text ss) c.0) (ap done (take-text s (text ss)))
first_string (s ∷ ss) (suc i) c = first_string ss i c.1

-- The strings of the reader are `ss`.
pub record Keeps (ss : List (List ℕ)) (reader : GroupReader) : Type 0 where
  pub typed : reader.strings.type ≡ ColumnType.str
  pub stored : take reader.strings.offset reader.strings.buffer ≡ text ss
  pub clean : All NulFree ss

-- When the strings of a reader are a list of strings without a NUL, cx_row_group_reader_string
-- gives the one with the number that it is asked for, and NULL for a number that none has.
pub reader_string-eq :
    (ss : List (List ℕ)) (reader : GroupReader) (i : ℕ)
    → Keeps ss reader
    → reader_string reader i ≡ string_or_null (get_elem? ss i)
unfolding reader_string
reader_string-eq ss reader i k =
    rw (k.typed, k.stored, skip_to_string-text ss i k.clean) (first_string ss i k.clean)
