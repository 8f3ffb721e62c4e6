-- ===== src/Reader/Loads.antt =====
-- lib/reader.c: what `cx_reader_load_cursor` comes to, and where a call on a reader can stop.
use columnix.Base.{
  ℕ, ◌+◌, ◌<◌, ◌≡◌, ◌⊎◌, refl, inl, inr, Option, none, some, word_mod, Outcome-cases, Outcome, done,
  aborted, Lands, Lands-bind,
}
use columnix.System.{System}
use columnix.RowGroup.{RowGroup, row_count}
use columnix.GroupReader.Get.{group_reader_get}
use columnix.Row.{RowCursor, row_cursor_new}
use columnix.Row.Ends.{Walking, Stopped, row_cursor_new-Walking}
use columnix.Reader.{Reader, cursor_of, load_cursor}

-- The row groups of the file, as far as they can be read, have fewer than 2^64 - 64 rows.
abbrev pub SmallGroups : System → Reader → Type 0
SmallGroups sys r =
    (n : ℕ)
    → Lands (λ row_group. row_count row_group + 64 < word_mod) (group_reader_get sys r.reader n)

-- Where a row group stops a call: a read outside of the file, an assertion on its indexes, or one
-- on the mask of a batch.
pub data Stops (sys : System) (r : Reader) : Type 0 where
  reading : group_reader_get sys r.reader r.position ≡ aborted → Stops sys r
  opening :
      (row_group : RowGroup)
      → group_reader_get sys r.reader r.position ≡ done row_group
      → row_cursor_new sys row_group r.predicate ≡ aborted
      → Stops sys r
  masking :
      (c d : RowCursor)
      → (cursor_of sys r ≡ done c) ⊎ (load_cursor sys r ≡ done c)
      → d.row_group ≡ c.row_group
      → d.predicate ≡ c.predicate
      → Stopped sys d c.cursor.row_count
      → Stops sys r

module _ (sys : System) (r : Reader) where
  pub load_cursor-Walking : SmallGroups sys r → Lands (λ c. Walking c.cursor) (load_cursor sys r)
  unfolding load_cursor
  load_cursor-Walking small =
      Lands-bind (λ row_group. row_count row_group + 64 < word_mod) (λ c. Walking c.cursor)
        (group_reader_get sys r.reader r.position) _ (small r.position)
        (λ row_group h. row_cursor_new-Walking sys row_group r.predicate h)

  pub load_cursor-Stops : load_cursor sys r ≡ aborted → Stops sys r
  unfolding load_cursor
  load_cursor-Stops e = elim (Outcome-cases (group_reader_get sys r.reader r.position)) [
    | inl (row_group, f) ↦ opening row_group f (rw f at e)
    | inr (inl f) ↦ let g = rw f at e in cc
    | inr (inr f) ↦ reading f
  ]

  pub cursor_of-Walking :
      SmallGroups sys r
      → ((c : RowCursor) → r.row_cursor ≡ some c → Walking c.cursor)
      → Lands (λ c. Walking c.cursor) (cursor_of sys r)
  cursor_of-Walking small held = by_cursor r.row_cursor held
    where
      by_cursor :
          (o : Option RowCursor)
          → ((c : RowCursor) → o ≡ some c → Walking c.cursor)
          → Lands
              (λ c. Walking c.cursor)
              (elim o as (λ _. Outcome RowCursor) [ none ↦ load_cursor sys r | some c ↦ done c ])
      by_cursor none h = load_cursor-Walking small
      by_cursor (some c) h = h c refl

  pub cursor_of-Stops : cursor_of sys r ≡ aborted → Stops sys r
  cursor_of-Stops e = by_cursor r.row_cursor e
    where
      by_cursor :
          (o : Option RowCursor)
          → elim o as (λ _. Outcome RowCursor) [ none ↦ load_cursor sys r | some c ↦ done c ]
            ≡ aborted
          → Stops sys r
      by_cursor none f = load_cursor-Stops f
      by_cursor (some c) f = cc
