-- ===== src/GroupReader/Opens.antt =====
-- lib/reader.c: `cx_row_group_reader_new` opens a file with a footer, descriptors, row group headers
-- and strings where they should be.
use columnix.Base.{
  ℕ, ◌+◌, ◌-◌, ◌*◌, ◌<◌, ◌≡◌, refl, sym, ap, ap₂, ◌∙◌, true, false, List, [], ◌++◌, ◌==◌, ltb,
  add64, word_mod, length, length-append, drop, drop-length_append, take-length_append, All, done,
  arith,
}
use mathlib.Core.List.{append-nil, append_assoc}
use columnix.Common.{ColumnType, plain}
use columnix.System.{System}
use columnix.Column.{new_mmapped, new_size, column_struct_size}
use columnix.Column.Grow.{Grants}
use columnix.File.{
  Footer, footer_of, footer_members, footer_widths, footer_size, ColumnDescriptor,
  descriptor_members, descriptor_widths, RowGroupHeader, row_group_header_members,
  row_group_header_widths, row_group_header_of, descriptor_of, file_magic, file_version,
}
use columnix.File.Struct.{
  pack, unpack, array_of, length-pack, array_bytes, length-array_bytes, array_of-array_bytes,
}
use columnix.File.Fits.{
  FooterFits, footer_of-members, DescriptorFits, descriptor_of-members, RowGroupHeaderFits,
  row_group_header_of-members,
}
use columnix.GroupReader.{
  Opening, GroupReader, bytes_at, read_footer, footer_valid, descriptors_tail, headers_tail,
  group_reader_new,
}

abbrev pub footer_bytes : Footer → List ℕ
footer_bytes f = pack footer_widths (footer_members f)

abbrev pub descriptor_bytes : List ColumnDescriptor → List ℕ
descriptor_bytes = array_bytes (λ d. pack descriptor_widths (descriptor_members d))

abbrev pub header_bytes : List RowGroupHeader → List ℕ
header_bytes = array_bytes (λ h. pack row_group_header_widths (row_group_header_members h))

-- A file: what stands before the strings, the strings, a gap, the row group headers, the
-- descriptors, and the footer, which tells where they are.
pub record Laid (bytes front strings space : List ℕ) (headers : List RowGroupHeader)
    (descriptors : List ColumnDescriptor) (footer : Footer) : Type 0 where
  pub stored :
      bytes
      ≡ front
        ++ (strings
            ++ (space
                ++ (header_bytes headers ++ (descriptor_bytes descriptors ++ footer_bytes footer))))
  pub strings_offset : footer.strings_offset ≡ length front
  pub strings_size : footer.strings_size ≡ length strings
  pub header_count : footer.row_group_count ≡ length headers
  pub descriptor_count : footer.column_count ≡ length descriptors
  pub size : footer.size ≡ footer_size
  pub version : footer.version ≡ file_version
  pub magic : footer.magic ≡ file_magic
  pub fits : FooterFits footer
  pub headers_fit : All RowGroupHeaderFits headers
  pub descriptors_fit : All DescriptorFits descriptors
  pub small : length bytes < word_mod

pub length-header_bytes : (hs : List RowGroupHeader) → length (header_bytes hs) ≡ 16 * length hs
length-header_bytes =
    length-array_bytes (λ h. pack row_group_header_widths (row_group_header_members h))
      (λ bs. row_group_header_of (unpack row_group_header_widths bs)) 16 RowGroupHeaderFits
      (λ h. length-pack row_group_header_widths (row_group_header_members h) refl)
      row_group_header_of-members

pub length-descriptor_bytes :
    (ds : List ColumnDescriptor) → length (descriptor_bytes ds) ≡ 24 * length ds
length-descriptor_bytes =
    length-array_bytes (λ d. pack descriptor_widths (descriptor_members d))
      (λ bs. descriptor_of (unpack descriptor_widths bs)) 24 DescriptorFits
      (λ d. length-pack descriptor_widths (descriptor_members d) refl) descriptor_of-members

pub length-footer_bytes : (f : Footer) → length (footer_bytes f) ≡ 56
length-footer_bytes f = length-pack footer_widths (footer_members f) refl

-- What is found a number of bytes before the end.
drop-back :
    {A : Type 0} (all before behind : List A) (n : ℕ)
    → all ≡ before ++ behind
    → n ≡ length behind
    → drop (length all - n) all ≡ behind
drop-back all before behind n e f =
    let here : length all - n ≡ length before =
      omega (arith, ap length e, length-append before behind) in
    rw (here, e) (drop-length_append before behind)

-- What the reader has of such a file.
abbrev pub opened :
    List ℕ → List ℕ → List RowGroupHeader → List ColumnDescriptor → Footer → GroupReader
opened bytes strings headers descriptors footer = record {
  bytes = bytes;
  row_count = footer.row_count;
  strings = record {
    buffer = strings;
    count = 0;
    offset = footer.strings_size;
    size = footer.strings_size;
    type = ColumnType.str;
    encoding = plain;
    mmapped = true;
  };
  descriptors = descriptors;
  headers = headers;
  metadata = footer.metadata;
}

-- A system that opens and maps the file.
abbrev pub willing : Opening
willing = record { opens = true; stats = true; maps = true }

module _ {bytes front strings space : List ℕ} {headers : List RowGroupHeader}
    {descriptors : List ColumnDescriptor} {footer : Footer}
    (l : Laid bytes front strings space headers descriptors footer) where
  abbrev tables : List ℕ
  tables = header_bytes headers ++ (descriptor_bytes descriptors ++ footer_bytes footer)

  abbrev before : List ℕ
  before = front ++ (strings ++ space)

  -- The file seen from its end.
  from_headers : bytes ≡ before ++ tables
  from_headers =
      l.stored
      ∙ ap (λ bs. front ++ bs) (sym (append_assoc strings space tables))
      ∙ sym (append_assoc front (strings ++ space) tables)

  from_descriptors :
      bytes
      ≡ (before ++ header_bytes headers) ++ (descriptor_bytes descriptors ++ footer_bytes footer)
  from_descriptors =
      from_headers
      ∙ sym (
          append_assoc before (header_bytes headers)
            (descriptor_bytes descriptors ++ footer_bytes footer))

  from_footer :
      bytes
      ≡ (before ++ header_bytes headers ++ descriptor_bytes descriptors) ++ footer_bytes footer
  from_footer =
      from_descriptors
      ∙ sym (
          append_assoc (before ++ header_bytes headers) (descriptor_bytes descriptors)
            (footer_bytes footer))

  behind_headers :
      length (descriptor_bytes descriptors ++ footer_bytes footer) ≡ 24 * length descriptors + 56
  behind_headers = omega (
    arith,
    length-append (descriptor_bytes descriptors) (footer_bytes footer),
    length-descriptor_bytes descriptors,
    length-footer_bytes footer,
  )

  length-tables : length tables ≡ 16 * length headers + (24 * length descriptors + 56)
  length-tables = omega (
    arith,
    length-append (header_bytes headers) (descriptor_bytes descriptors ++ footer_bytes footer),
    length-header_bytes headers,
    behind_headers,
  )

  length-bytes : length bytes ≡ length front + length strings + length space + length tables
  length-bytes = omega (
    arith,
    ap length from_headers,
    length-append before tables,
    length-append front (strings ++ space),
    length-append strings space,
  )

  footer-found : read_footer bytes ≡ footer
  unfolding read_footer
  footer-found =
      rw
        (drop-back bytes (before ++ header_bytes headers ++ descriptor_bytes descriptors)
          (footer_bytes footer) 56 from_footer (sym (length-footer_bytes footer)))
        (ap (λ bs. footer_of (unpack footer_widths bs)) (sym (append-nil (footer_bytes footer)))
          ∙ footer_of-members footer l.fits [])

  descriptors-found :
      array_of
        (λ bs. descriptor_of (unpack descriptor_widths bs))
        24
        footer.column_count
        (drop (length bytes - descriptors_tail footer) bytes)
      ≡ descriptors
  descriptors-found =
      ap₂ (array_of (λ bs. descriptor_of (unpack descriptor_widths bs)) 24) l.descriptor_count (
        drop-back bytes (before ++ header_bytes headers)
          (descriptor_bytes descriptors ++ footer_bytes footer) (descriptors_tail footer)
          from_descriptors (omega (arith, behind_headers, l.descriptor_count, l.size)))
      ∙ array_of-array_bytes (λ d. pack descriptor_widths (descriptor_members d))
          (λ bs. descriptor_of (unpack descriptor_widths bs)) 24 DescriptorFits
          (λ d. length-pack descriptor_widths (descriptor_members d) refl) descriptor_of-members
          descriptors (footer_bytes footer) l.descriptors_fit

  headers-found :
      array_of
        (λ bs. row_group_header_of (unpack row_group_header_widths bs))
        16
        footer.row_group_count
        (drop (length bytes - headers_tail footer) bytes)
      ≡ headers
  headers-found =
      ap₂ (array_of (λ bs. row_group_header_of (unpack row_group_header_widths bs)) 16)
        l.header_count
        (drop-back bytes before tables (headers_tail footer) from_headers
          (omega (arith, length-tables, l.header_count, l.descriptor_count, l.size)))
      ∙ array_of-array_bytes (λ h. pack row_group_header_widths (row_group_header_members h))
          (λ bs. row_group_header_of (unpack row_group_header_widths bs)) 16 RowGroupHeaderFits
          (λ h. length-pack row_group_header_widths (row_group_header_members h) refl)
          row_group_header_of-members headers (descriptor_bytes descriptors ++ footer_bytes footer)
          l.headers_fit

  strings-found : bytes_at bytes footer.strings_offset footer.strings_size ≡ strings
  strings-found =
      rw
        (
          l.strings_offset,
          l.strings_size,
          l.stored,
          drop-length_append front (strings ++ (space ++ tables)),
        )
        (take-length_append strings (space ++ tables))

  valid-footer : footer_valid footer ≡ true
  unfolding footer_valid
  valid-footer = rw (l.magic, l.size, l.version) refl

  pub group_reader_new-opened :
      (sys : System)
      → Grants sys
      → group_reader_new sys willing bytes ≡ done (opened bytes strings headers descriptors footer)
  unfolding group_reader_new new_mmapped new_size
  group_reader_new-opened sys grants =
      let some_bytes : (length bytes == 0) ≡ false = ground (arith, length-bytes, length-tables) in
      let for_footer : ltb (length bytes) 56 ≡ false =
        ground (arith, length-bytes, length-tables) in
      let for_tables : ltb (length bytes) (headers_tail footer) ≡ false =
        ground (arith, length-bytes, length-tables, l.header_count, l.descriptor_count, l.size) in
      let for_strings : ltb (length bytes) (add64 footer.strings_offset footer.strings_size)
          ≡ false =
        let no_wrap : add64 footer.strings_offset footer.strings_size
            ≡ footer.strings_offset + footer.strings_size =
          omega (arith, length-bytes, l.strings_offset, l.strings_size, l.small) in
        rw no_wrap (ground (arith, length-bytes, l.strings_offset, l.strings_size)) in
      rw
        (
          grants 104,
          some_bytes,
          for_footer,
          footer-found,
          valid-footer,
          for_tables,
          for_strings,
          strings-found,
          grants column_struct_size,
          descriptors-found,
          headers-found,
        )
        refl
