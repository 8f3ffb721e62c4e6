-- ===== src/Reader.antt =====
-- lib/reader.c: `cx_reader`, which goes through the rows of a file that match a predicate, one row
-- group after the other.
pub mod Query
pub mod Loads
pub mod Next
pub mod Count
use columnix.Base.{
  ℕ, zero, suc, ◌+◌, ◌-◌, Bool, true, false, not, ◌&&◌, ◌||◌, Option, none, some, List, ◌==◌, ltb,
  if◌then◌else◌, add64, ℤ, Outcome, done, failed, aborted, ◌>>=◌, ◌>>◌, require,
}
use columnix.System.{System}
use columnix.Predicate.{Predicate, new_true, valid}
use columnix.Predicate.Optimize.{Sort, optimize}
use columnix.Row.{RowCursor, row_cursor_new, row_cursor_next, row_cursor_count}
use columnix.Row.Get.{get_null, get_bit, get_i32, get_i64, get_flt, get_dbl, get_str}
use columnix.GroupReader.{
  Opening, GroupReader, group_reader_new, reader_row_group_count, reader_column_count,
  group_reader_metadata, group_reader_column_name, group_reader_column_type,
  group_reader_column_encoding, group_reader_column_compression,
}
use columnix.GroupReader.Get.{group_reader_get}

-- The row group is there exactly when the row cursor is, which holds it.
pub record Reader : Type 0 where
  pub reader : GroupReader
  pub predicate : Predicate
  pub row_cursor : Option RowCursor
  pub row_group_count : ℕ
  pub position : ℕ
  pub match_all_rows : Bool
  pub error : Bool

-- The predicate as the first row group lets it be: checked and optimised.
unfoldable pub prepare : System → Sort → GroupReader → Predicate → Outcome Predicate
prepare sys sort reader predicate = do
  row_group ← group_reader_get sys reader 0
  require (valid row_group predicate)
  done (optimize sort row_group predicate)

-- A predicate that is NULL is `none`. sizeof(struct cx_reader) is 56.
unfoldable pub reader_new_impl :
    System → Sort → Opening → List ℕ → Option Predicate → Bool → Outcome Reader
unfolding prepare
reader_new_impl sys sort opening bytes none match_all = failed
reader_new_impl sys sort opening bytes (some predicate) match_all = do
  require (sys.grants 56)
  reader ← group_reader_new sys opening bytes
  let looked_at = not (reader_row_group_count reader == 0) && not match_all
  prepared ← if looked_at then prepare sys sort reader predicate else done predicate
  done (record {
    reader = reader;
    predicate = prepared;
    row_cursor = none;
    row_group_count = reader_row_group_count reader;
    position = 0;
    match_all_rows = match_all;
    error = false;
  })

unfoldable pub reader_new : System → Sort → Opening → List ℕ → Outcome Reader
unfolding reader_new_impl
reader_new sys sort opening bytes =
    new_true sys >>= λ predicate. reader_new_impl sys sort opening bytes (some predicate) true

unfoldable pub reader_new_matching :
    System → Sort → Opening → List ℕ → Option Predicate → Outcome Reader
unfolding reader_new_impl
reader_new_matching sys sort opening bytes predicate =
    reader_new_impl sys sort opening bytes predicate false

unfoldable pub reader_rewind : Reader → Reader
reader_rewind r = record r { row_cursor = none; position = 0; error = false }

-- `cx_reader_load_cursor`, the cursor of the row group at the position.
unfoldable pub load_cursor : System → Reader → Outcome RowCursor
load_cursor sys r = group_reader_get sys r.reader r.position >>= λ row_group.
    row_cursor_new sys row_group r.predicate

abbrev pub reader_valid : Reader → Bool
reader_valid r = ltb r.position r.row_group_count

unfoldable pub reader_advance : Reader → Reader
reader_advance r = record r { row_cursor = none; position = add64 r.position 1 }

abbrev pub with_cursor : Reader → RowCursor → Reader
with_cursor r c = record r { row_cursor = some c }

abbrev pub raised : Reader → Reader
raised r = record r { error = true }

-- `goto error`: the flag is set, and false is returned.
abbrev pub or_error :
    {A B : Type 0} → B → Reader → Outcome A → (A → Outcome (B × Reader)) → Outcome (B × Reader)
or_error b r m k = elim m [ done a ↦ k a | failed ↦ done (b, raised r) | aborted ↦ aborted ]

-- The cursor that is there, or a new one.
abbrev pub cursor_of : System → Reader → Outcome RowCursor
cursor_of sys r = elim r.row_cursor [ none ↦ load_cursor sys r | some c ↦ done c ]

-- The loop of `cx_reader_next`. What a failed call leaves of the row group's cursor is not followed.
unfoldable pub next_row : System → ℕ → Reader → Outcome (Bool × Reader)
unfolding reader_advance load_cursor
next_row sys zero r = aborted
next_row sys (suc fuel) r =
    let found = or_error false r (cursor_of sys r) (λ c.
      or_error false (with_cursor r c) (row_cursor_next sys c) (λ (there_is, moved).
        (let later = next_row sys fuel (reader_advance r) in
          if there_is then done (true, with_cursor r moved) else later))) in
    if reader_valid r then found else done (false, r)

-- A round for each row group that is left, and one that finds the end.
abbrev pub next_fuel : Reader → ℕ
next_fuel r = r.row_group_count - r.position + 1

unfoldable pub reader_next : System → Reader → Outcome (Bool × Reader)
unfolding next_row
reader_next sys r = if r.error then done (false, r) else next_row sys (next_fuel r) r

abbrev pub reader_error : Reader → Bool
reader_error r = r.error

-- The loop of `cx_reader_row_count`, from the rows counted so far.
unfoldable pub count_rows : System → ℕ → Reader → ℕ → Outcome (ℕ × Reader)
unfolding reader_advance load_cursor
count_rows sys zero r total = aborted
count_rows sys (suc fuel) r total =
    let counted = or_error 0 r (load_cursor sys r) (λ c.
      or_error 0 (with_cursor r c) (row_cursor_count sys c)
        (λ n. count_rows sys fuel (reader_advance r) (add64 total n))) in
    if reader_valid r then counted else done (total, r)

unfoldable pub reader_row_count : System → Reader → Outcome (ℕ × Reader)
unfolding count_rows reader_rewind
reader_row_count sys r =
    if r.match_all_rows || r.reader.row_count == 0
    then done (r.reader.row_count, r)
    else count_rows sys (next_fuel (reader_rewind r)) (reader_rewind r) 0

abbrev pub reader_metadata : Reader → Outcome (Option (List ℕ))
reader_metadata r = group_reader_metadata r.reader

abbrev pub reader_columns : Reader → ℕ
reader_columns r = reader_column_count r.reader

abbrev pub reader_column_name : Reader → ℕ → Outcome (List ℕ)
reader_column_name r = group_reader_column_name r.reader

abbrev pub reader_column_type : Reader → ℕ → Outcome ℕ
reader_column_type r = group_reader_column_type r.reader

abbrev pub reader_column_encoding : Reader → ℕ → Outcome ℕ
reader_column_encoding r = group_reader_column_encoding r.reader

abbrev pub reader_column_compression : Reader → ℕ → Outcome (ℕ × ℤ)
reader_column_compression r = group_reader_column_compression r.reader

-- The functions `cx_reader_get_*`: a value of the current row, false without a row.
abbrev pub of_row :
    {A : Type 0} → (RowCursor → Outcome (A × RowCursor)) → Reader → Outcome (A × Reader)
of_row get r = elim r.row_cursor [
  | none ↦ failed
  | some c ↦ get c >>= λ (value, next). done (value, with_cursor r next)
]

unfoldable pub reader_get_null : System → Reader → ℕ → Outcome (Bool × Reader)
reader_get_null sys r i = of_row (λ c. get_null sys c i) r

unfoldable pub reader_get_bit : System → Reader → ℕ → Outcome (Bool × Reader)
reader_get_bit sys r i = of_row (λ c. get_bit sys c i) r

unfoldable pub reader_get_i32 : System → Reader → ℕ → Outcome (ℤ × Reader)
reader_get_i32 sys r i = of_row (λ c. get_i32 sys c i) r

unfoldable pub reader_get_i64 : System → Reader → ℕ → Outcome (ℤ × Reader)
reader_get_i64 sys r i = of_row (λ c. get_i64 sys c i) r

unfoldable pub reader_get_flt : System → Reader → ℕ → Outcome (ℕ × Reader)
reader_get_flt sys r i = of_row (λ c. get_flt sys c i) r

unfoldable pub reader_get_dbl : System → Reader → ℕ → Outcome (ℕ × Reader)
reader_get_dbl sys r i = of_row (λ c. get_dbl sys c i) r

unfoldable pub reader_get_str : System → Reader → ℕ → Outcome (List ℕ × Reader)
reader_get_str sys r i = of_row (λ c. get_str sys c i) r
