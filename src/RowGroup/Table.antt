-- ===== src/RowGroup/Table.antt =====
-- lib/row_group.c: a row group cursor over a column whose contents are known. The column is loaded
-- and its cursor opened at the first batch.
use columnix.Base.{
  ℕ, ◌%◌, ◌<◌, ◌≡◌, refl, sym, true, Bool, List, none, some, ltb, lt→ltb, word_mod, length,
  get_elem?, set, get_elem?-set_at, done, arith, ◌⊎◌, inl, inr,
}
use mathlib.Core.Path.{subst}
use columnix.Common.{ColumnType}
use columnix.System.{System}
use columnix.Column.{Column}
use columnix.Column.Cursor.{Cursor, cursor_new, cursor_struct_size, madvise}
use columnix.Column.Grow.{Grants}
use columnix.Column.Types.{Values, access_of}
use columnix.RowGroup.{RowGroupColumn, PhysicalColumn, column_at, physical_column, group_column}
use columnix.RowGroup.Cursor.{
  Batch, Reading, Readings, RowGroupCursor, readings_at, set_values, cursor_column_init,
  batch_values,
}
use columnix.RowGroup.Reading.{reader_of, Shows, width, Has, Ready, load-Has}

-- The column can be had, loaded now if it is lazy, and then holds the values.
pub record Stored (sys : System) (t : ColumnType) (vs : List (Values t)) (lazy : Bool)
    (physical : PhysicalColumn) : Type 0 where
  pub column : Column
  pub loaded : PhysicalColumn
  pub loads : physical_column sys lazy physical ≡ done (column, loaded)
  pub kept : loaded.column ≡ some column
  pub contains : (access_of t).Contains vs column
  pub small : (access_of t).bytes vs < word_mod
  pub advised : madvise sys column ≡ true

-- Column `i` of the cursor's row group holds the values, and the reading of it is as `State` says.
pub record Tracks (sys : System) (t : ColumnType) (vs : List (Values t)) (State : Reading → Type 0)
    (cursor : RowGroupCursor) (i : ℕ) : Type 0 where
  pub known : i < cursor.column_count
  pub entry : RowGroupColumn
  pub found : get_elem? cursor.row_group.columns i ≡ some entry
  pub stored : Stored sys t vs entry.lazy entry.values
  pub readings : Readings
  pub read : get_elem? cursor.columns i ≡ some readings
  pub state : State readings.values

-- A reading that was not opened yet.
pub record Unopened (r : Reading) : Type 0 where
  pub closed : r.cursor ≡ none
  pub at_start : r.position ≡ 0

column_at-found :
    (columns : List RowGroupColumn) (i : ℕ) (entry : RowGroupColumn)
    → get_elem? columns i ≡ some entry
    → column_at columns i ≡ done entry
column_at-found columns i entry h = rw (column_at, h) refl

readings_at-found :
    (cursor : RowGroupCursor) (i : ℕ) (r : Readings)
    → get_elem? cursor.columns i ≡ some r
    → readings_at cursor i ≡ done r
readings_at-found cursor i r h = rw (readings_at, h) refl

physical_column-kept :
    (sys : System) (lazy : Bool) (physical : PhysicalColumn) (column : Column)
    → physical.column ≡ some column
    → physical_column sys lazy physical ≡ done (column, physical)
unfolding physical_column
physical_column-kept sys lazy physical column h = rw h refl

-- A column that was loaded stays so.
Stored-loaded :
    {sys : System} {t : ColumnType} {vs : List (Values t)} {lazy : Bool} {physical : PhysicalColumn}
    (s : Stored sys t vs lazy physical)
    → Stored sys t vs lazy s.loaded
Stored-loaded {sys} {lazy = lazy} s = record {
  column = s.column;
  loaded = s.loaded;
  loads = physical_column-kept sys lazy s.loaded s.column s.kept;
  kept = s.kept;
  contains = s.contains;
  small = s.small;
  advised = s.advised;
}

module _ (sys : System) (grants : Grants sys) (t : ColumnType) (vs : List (Values t))
    (cursor : RowGroupCursor) (i : ℕ) where
  group_column-loaded :
      (entry : RowGroupColumn) (s : Stored sys t vs entry.lazy entry.values)
      → get_elem? cursor.row_group.columns i ≡ some entry
      → group_column sys cursor.row_group i
        ≡ done (
          s.column,
          record cursor.row_group {
            columns = set cursor.row_group.columns i (record entry { values = s.loaded });
          },
        )
  unfolding group_column
  group_column-loaded entry s h =
      rw (column_at-found cursor.row_group.columns i entry h, s.loads) refl

  known-ltb : i < cursor.column_count → ltb i cursor.column_count ≡ true
  known-ltb h = lt→ltb i cursor.column_count h

  init-opened :
      (State : Reading → Type 0) (c : Cursor) (k : Tracks sys t vs State cursor i)
      → k.readings.values.cursor ≡ some c
      → cursor_column_init sys cursor i ≡ done cursor
  unfolding cursor_column_init
  init-opened State c k h =
      rw (known-ltb k.known, readings_at-found cursor i k.readings k.read, h) refl

  module _ (k : Tracks sys t vs Unopened cursor i) where
    abbrev opened_reading : Reading
    opened_reading = record k.readings.values {
      cursor = some (record { column = k.stored.column; position = 0 });
    }

    abbrev opened : RowGroupCursor
    opened = record cursor {
      row_group = record cursor.row_group {
        columns = set cursor.row_group.columns i (record k.entry { values = k.stored.loaded });
      };
      columns = set cursor.columns i (record k.readings { values = opened_reading });
    }

    cursor_new-start :
        cursor_new sys k.stored.column ≡ done (record { column = k.stored.column; position = 0 })
    unfolding cursor_new
    cursor_new-start = rw (grants cursor_struct_size, k.stored.advised) refl

    init-Unopened : cursor_column_init sys cursor i ≡ done opened
    unfolding cursor_column_init
    init-Unopened =
        rw
          (
            known-ltb k.known,
            readings_at-found cursor i k.readings k.read,
            k.state.closed,
            group_column-loaded k.entry k.stored k.found,
            cursor_new-start,
          )
          refl

    opened-Tracks : Tracks sys t vs (Ready t vs cursor.position) opened i
    opened-Tracks = record {
      known = k.known;
      entry = record k.entry { values = k.stored.loaded };
      found =
          get_elem?-set_at cursor.row_group.columns i k.entry
            (record k.entry { values = k.stored.loaded }) k.found;
      stored = Stored-loaded k.stored;
      readings = record k.readings { values = opened_reading };
      read =
          get_elem?-set_at cursor.columns i k.readings
            (record k.readings { values = opened_reading }) k.read;
      state = inl (record {
        column_cursor = record { column = k.stored.column; position = 0 };
        opened = refl;
        stands =
            subst ((access_of t).At vs (record { column = k.stored.column; position = 0 }))
              (sym k.state.at_start)
              ((access_of t).first k.stored.column vs k.stored.contains k.stored.small);
        behind = omega (arith, k.state.at_start);
        aligned = omega (arith, k.state.at_start);
      });
    }

-- A batch of column `i` at row `q`: what it shows, and the cursor after it.
pub record Served (sys : System) (t : ColumnType) (vs : List (Values t)) (cursor : RowGroupCursor)
    (i : ℕ) : Type 0 where
  pub batch : Batch
  pub next : RowGroupCursor
  pub gives : batch_values sys (reader_of t) cursor i ≡ done (batch, width vs cursor.position, next)
  pub shows : Shows t vs cursor.position batch
  pub stays : next.position ≡ cursor.position
  pub tracks : Tracks sys t vs (Has t vs cursor.position) next i

module _ (sys : System) (t : ColumnType) (vs : List (Values t)) (few : length vs < word_mod)
    (cursor : RowGroupCursor) (i : ℕ) (start : cursor.position % 64 ≡ 0)
    (inside : cursor.position < length vs) where
  load-Served :
      (ready : RowGroupCursor)
      → cursor_column_init sys cursor i ≡ done ready
      → ready.position ≡ cursor.position
      → Tracks sys t vs (Ready t vs cursor.position) ready i
      → Served sys t vs cursor i
  unfolding batch_values
  load-Served ready e same k =
      let (loaded, f, h) =
        load-Has t vs cursor.position k.readings.values few start inside k.state in
      record {
        batch = loaded.batch;
        next = set_values ready i k.readings loaded;
        gives = rw (e, readings_at-found ready i k.readings k.read, same, f, h.counts) refl;
        shows = h.shows;
        stays = same;
        tracks = record {
          known = k.known;
          entry = k.entry;
          found = k.found;
          stored = k.stored;
          readings = record k.readings { values = loaded };
          read =
              get_elem?-set_at ready.columns i k.readings (record k.readings { values = loaded })
                k.read;
          state = h;
        };
      }

-- A reading before a batch at row `q`: not opened yet, behind, or there already.
abbrev pub Usable : (t : ColumnType) → List (Values t) → ℕ → Reading → Type 0
Usable t vs q r = Unopened r ⊎ Ready t vs q r

with_state :
    {sys : System} {t : ColumnType} {vs : List (Values t)} {P : Reading → Type 0}
    (Q : Reading → Type 0) {cursor : RowGroupCursor} {i : ℕ} (k : Tracks sys t vs P cursor i)
    → Q k.readings.values
    → Tracks sys t vs Q cursor i
with_state Q k h = record {
  known = k.known;
  entry = k.entry;
  found = k.found;
  stored = k.stored;
  readings = k.readings;
  read = k.read;
  state = h;
}

-- Where no memory is refused: at a row that starts a batch and lies inside a column of fewer than
-- 2^64 values that can be loaded, the cursor of a row group gives the values of the column, of any
-- type, from that row on, 64 or what is left, with their number, whether the column is lazy or
-- not, and whether it was read before or not. The row position stays, and the column can be asked
-- again.
pub batch_values-Served :
    (sys : System)
    → Grants sys
    → (t : ColumnType) (vs : List (Values t)) (cursor : RowGroupCursor) (i : ℕ)
    → length vs < word_mod
    → cursor.position % 64 ≡ 0
    → cursor.position < length vs
    → Tracks sys t vs (Usable t vs cursor.position) cursor i
    → Served sys t vs cursor i
batch_values-Served sys grants t vs cursor i few start inside k = elim k.state [
  | inl u ↦
      let closed = with_state Unopened k u in
      load-Served sys t vs few cursor i start inside (opened sys grants t vs cursor i closed)
        (init-Unopened sys grants t vs cursor i closed) refl
        (opened-Tracks sys grants t vs cursor i closed)
  | inr (inl l) ↦
      load-Served sys t vs few cursor i start inside cursor
        (init-opened sys grants t vs cursor i (Usable t vs cursor.position) l.column_cursor k
          l.opened)
        refl (with_state (Ready t vs cursor.position) k (inl l))
  | inr (inr h) ↦
      load-Served sys t vs few cursor i start inside cursor
        (init-opened sys grants t vs cursor i (Usable t vs cursor.position) h.column_cursor k
          h.opened)
        refl (with_state (Ready t vs cursor.position) k (inr h))
]
