-- ===== src/GroupWriter/Groups.antt =====
-- lib/writer.c: a row group in the file, and the writer when it could not be put there.
use columnix.Base.{
  ℕ, suc, ◌+◌, ◌-◌, ◌*◌, ◌%◌, ◌≤◌, ◌≡◌, refl, sym, ap, ◌∙◌, inl, inr, List, [], ◌∷◌, ◌++◌, length,
  length-append, add64, Bool-cases, arith,
}
use mathlib.Core.Path.{subst}
use mathlib.Core.List.{append_assoc}
use columnix.Attempt.{Call, ◌>>=◌, ◌>>◌, modify, Ends, Ends-bind, Ends-weaken}
use columnix.System.{System}
use columnix.RowGroup.{RowGroup, count, row_count}
use columnix.File.{
  ColumnDescriptor, ColumnHeader, RowGroupHeader, column_header_size, column_header_members,
  column_header_widths, column_header_of,
}
use columnix.File.Struct.{pack, unpack, length-pack, length-array_bytes}
use columnix.File.Fits.{ColumnHeaderFits, column_header_of-members}
use columnix.File.Stream.{Disk, Stream}
use columnix.GroupWriter.{GroupWriter, align, write}
use columnix.GroupWriter.Append.{align-IsNext}
use columnix.GroupWriter.Put.{
  put_columns, column_headers_bytes, note_row_group, put_headers, put_row_group,
}
use columnix.GroupWriter.Written.{
  Limits, offset_max, kept, length-kept, Within, Extends, Extends-refl, Extends-trans, Wrote,
  Wrote-Extends, Spoilt, WroteBlock, write-Ends,
}
use columnix.GroupWriter.Saved.{SavedColumns, SavedColumns-append}
use columnix.GroupWriter.Puts.{Puts, put_columns-Ends}

-- Everything but the file and the row group headers is as it was.
abbrev pub OnlyHeaders : GroupWriter → GroupWriter → Type 0
OnlyHeaders w v = v ≡ record w { file = v.file; headers = v.headers }

-- What an error leaves, before it is sought back.
abbrev pub Undone : GroupWriter → GroupWriter → Type 0
Undone w v = OnlyHeaders w v × Extends w.file v.file

-- The row group has been added, with the column headers `hs`.
pub record Added (sys : System) (row_group : RowGroup) (w v : GroupWriter) : Type 0 where
  pub headers : List ColumnHeader
  pub front : List ℕ
  pub entry : RowGroupHeader
  pub stored : kept v.file ≡ front ++ column_headers_bytes headers
  pub extends : Extends w.file v.file
  pub begins : entry.offset ≡ w.file.position
  pub ends : entry.offset + entry.size ≡ length front
  pub aligned : length front % 8 ≡ 0
  pub columns : SavedColumns sys (kept v.file) row_group 0 w.descriptors headers
  pub rest : v ≡ record w {
    file = v.file;
    headers = w.headers ++ entry ∷ [];
    row_count = add64 w.row_count (row_count row_group);
  }

pub length-column_headers_bytes :
    (hs : List ColumnHeader) → length (column_headers_bytes hs) ≡ 56 * length hs
length-column_headers_bytes =
    length-array_bytes (λ h. pack column_header_widths (column_header_members h))
      (λ bs. column_header_of (unpack column_header_widths bs)) 56 ColumnHeaderFits
      (λ h. length-pack column_header_widths (column_header_members h) refl)
      (λ h bs f. column_header_of-members h bs f)

-- Two headers for each column.
pub SavedColumns-length :
    (sys : System) (bs : List ℕ) (row_group : RowGroup) (i : ℕ) (ds : List ColumnDescriptor)
    (hs : List ColumnHeader)
    → SavedColumns sys bs row_group i ds hs
    → length hs ≡ 2 * length ds
SavedColumns-length sys bs row_group i [] [] s = refl
SavedColumns-length sys bs row_group i [] (h ∷ hs) s = absurd s
SavedColumns-length sys bs row_group i (d ∷ ds) [] s = absurd s
SavedColumns-length sys bs row_group i (d ∷ ds) (h ∷ []) s = absurd s
SavedColumns-length sys bs row_group i (d ∷ ds) (h ∷ n ∷ hs) s =
    omega (arith, SavedColumns-length sys bs s.0 (suc i) ds hs s.2)

module _ (sys : System) (disk : Disk) (limits : Limits disk) (row_group : RowGroup)
    (w : GroupWriter) (q : Within w.file) (some : 1 ≤ length w.descriptors) where
  -- The columns are in the file; now their headers.
  module _ (v : GroupWriter) (hs : List ColumnHeader)
      (p : Puts sys disk limits w row_group 0 w.descriptors hs v) where
    abbrev noted : GroupWriter
    noted = note_row_group w.file.position v

    longer : w.file.position ≤ v.file.position
    longer = omega (
      arith,
      ap length p.0.1.stored,
      length-append (kept w.file) p.0.1.more,
      length-kept w.file q,
      length-kept v.file p.0.1.within,
    )

    Spoilt-noted : (u : GroupWriter) → Spoilt noted u → Undone w u
    Spoilt-noted u s = (
      s.0
          ∙ ap (λ (x : GroupWriter). record x { file = u.file; headers = noted.headers }) p.0.0
          ∙ ap (λ hs. record w { file = u.file; headers = hs })
              (sym (ap (λ (x : GroupWriter). x.headers) s.0)),
      Extends-trans w.file v.file u.file p.0.1 s.1,
    )

    -- The headers are not nothing, so they start at a multiple of 8.
    placed :
        (last : Stream)
        → Wrote v.file last (column_headers_bytes hs)
        → (o : Wrote v.file last (column_headers_bytes hs))
        → v.file.position + length o.space ≡ align v.file.position
    placed last _ o = elim o.place [
      | inl z ↦ absurd (
          omega (
            arith,
            z.0,
            length-column_headers_bytes hs,
            SavedColumns-length sys (kept v.file) row_group 0 w.descriptors hs p.1,
            some,
          ))
      | inr e ↦ e
    ]

    added :
        (u : GroupWriter)
        → WroteBlock noted (column_headers_bytes hs) u
        → Added sys row_group w (record u { row_count = add64 u.row_count (row_count row_group) })
    added u o =
        let block = column_headers_bytes hs in
        let at = placed u.file o.1 o.1 in
        let next = align-IsNext v.file.position (omega (arith, p.0.1.within.small)) in
        let long : length (kept v.file ++ (o.1.space ++ block)) ≤ offset_max =
          omega (arith, ap length o.1.stored, length-kept u.file o.1.within, o.1.within.small) in
        record {
          headers = hs;
          front = kept v.file ++ o.1.space;
          entry = record {
            size = align v.file.position - w.file.position;
            offset = w.file.position;
          };
          stored = o.1.stored ∙ sym (append_assoc (kept v.file) o.1.space block);
          extends =
              Extends-trans w.file v.file u.file p.0.1 (Wrote-Extends v.file u.file block o.1);
          begins = refl;
          ends = omega (
            arith,
            next.1,
            longer,
            at,
            length-append (kept v.file) o.1.space,
            length-kept v.file p.0.1.within,
          );
          aligned = omega (
            arith,
            next.0,
            at,
            length-append (kept v.file) o.1.space,
            length-kept v.file p.0.1.within,
          );
          columns =
              subst (λ bs. SavedColumns sys bs row_group 0 w.descriptors hs) (sym o.1.stored)
                (SavedColumns-append sys (kept v.file) (o.1.space ++ block) row_group 0
                  w.descriptors hs long p.1);
          rest =
              ap
                (λ (x : GroupWriter). record x {
                  row_count = add64 x.row_count (row_count row_group);
                })
                o.0
              ∙ ap
                  (λ (x : GroupWriter). record x {
                    file = u.file;
                    headers =
                        x.headers
                        ++ record {
                          size = align v.file.position - w.file.position;
                          offset = w.file.position;
                        }
                          ∷ [];
                    row_count = add64 x.row_count (row_count row_group);
                  })
                  p.0.0;
        }

    headers-Ends :
        Ends (λ _ u. Added sys row_group w u) (Undone w) (put_headers disk row_group hs noted)
    headers-Ends =
        Ends-bind (λ _ u. WroteBlock noted (column_headers_bytes hs) u) (Undone w)
          (λ _ u. Added sys row_group w u)
          (λ _.
            modify (λ (u : GroupWriter). record u {
              row_count = add64 u.row_count (row_count row_group);
            }))
          (write disk (column_headers_bytes hs) noted)
          (Ends-weaken (λ _ u. WroteBlock noted (column_headers_bytes hs) u)
            (λ _ u. WroteBlock noted (column_headers_bytes hs) u) (Spoilt noted) (Undone w)
            (write disk (column_headers_bytes hs) noted)
            (write-Ends disk limits noted p.0.1.within (column_headers_bytes hs)) (λ _ u o. o)
            Spoilt-noted)
          (λ _ u o. added u o)

  unnoted : (v : GroupWriter) → Spoilt w v → Undone w v
  unnoted v s = (
    s.0
        ∙ ap (λ hs. record w { file = v.file; headers = hs })
            (sym (ap (λ (x : GroupWriter). x.headers) s.0)),
    s.1,
  )

  abbrev tail_of : List ColumnHeader → Call GroupWriter (Unit {0})
  tail_of headers = modify (note_row_group w.file.position) >> put_headers disk row_group headers

  columns-Ends :
      Ends
        (λ _ u. Added sys row_group w u)
        (Undone w)
        ((put_columns sys disk row_group 0 w.descriptors >>= tail_of) w)
  columns-Ends =
      Ends-bind (Puts sys disk limits w row_group 0 w.descriptors) (Undone w)
        (λ _ u. Added sys row_group w u) tail_of (put_columns sys disk row_group 0 w.descriptors w)
        (Ends-weaken (Puts sys disk limits w row_group 0 w.descriptors)
          (Puts sys disk limits w row_group 0 w.descriptors) (Spoilt w) (Undone w)
          (put_columns sys disk row_group 0 w.descriptors w)
          (put_columns-Ends sys disk limits w.descriptors row_group 0 w q) (λ hs v p. p) unnoted)
        (λ hs v p. headers-Ends v hs p)

  pub put_row_group-Ends :
      Ends (λ _ u. Added sys row_group w u) (Undone w) (put_row_group sys disk row_group w)
  unfolding put_row_group
  put_row_group-Ends =
      elim (Bool-cases
        (sys.grants (count row_group * (2 * count row_group * column_header_size)))) [
          | inl g ↦ rw (put_row_group, g) columns-Ends
          | inr g ↦ rw (put_row_group, g) (refl, Extends-refl w.file q)
        ]
