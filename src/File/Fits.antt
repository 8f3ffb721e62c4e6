-- ===== src/File/Fits.antt =====
-- lib/file.h: a struct whose members fit their widths is read back from its bytes.
use columnix.Base.{
  ℕ, ◌<◌, ◌≡◌, refl, ap, ◌∙◌, List, ◌++◌, InSigned, to_signed-of_signed, of_signed-lt, word_mod,
  arith,
}
use columnix.Column.{half32}
use columnix.File.{
  Footer, footer_members, footer_of, footer_widths, ColumnDescriptor, descriptor_members,
  descriptor_of, descriptor_widths, RowGroupHeader, row_group_header_members, row_group_header_of,
  row_group_header_widths, ColumnHeader, column_header_members, column_header_of,
  column_header_widths,
}
use columnix.File.Struct.{pack, unpack, unpack-pack}

abbrev pub Word32 : ℕ → Type 0
Word32 n = n < 4294967296

abbrev pub Word64 : ℕ → Type 0
Word64 n = n < word_mod

pub record FooterFits (f : Footer) : Type 0 where
  pub strings_offset : Word64 f.strings_offset
  pub strings_size : Word64 f.strings_size
  pub metadata : InSigned half32 f.metadata
  pub row_group_count : Word32 f.row_group_count
  pub column_count : Word32 f.column_count
  pub row_count : Word64 f.row_count
  pub size : Word32 f.size
  pub version : Word32 f.version
  pub magic : Word64 f.magic

pub record DescriptorFits (d : ColumnDescriptor) : Type 0 where
  pub name : Word32 d.name
  pub type : Word32 d.type
  pub encoding : Word32 d.encoding
  pub compression : Word32 d.compression
  pub level : InSigned half32 d.compression_level

pub record RowGroupHeaderFits (h : RowGroupHeader) : Type 0 where
  pub size : Word64 h.size
  pub offset : Word64 h.offset

pub record ColumnHeaderFits (h : ColumnHeader) : Type 0 where
  pub offset : Word64 h.offset
  pub size : Word64 h.size
  pub decompressed_size : Word64 h.decompressed_size
  pub compression : Word32 h.compression
  pub encoding : Word32 h.encoding
  pub count : Word64 h.index.count
  pub min : Word64 h.index.min
  pub max : Word64 h.index.max

pub footer_of-members :
    (f : Footer)
    → FooterFits f
    → (rest : List ℕ)
    → footer_of (unpack footer_widths (pack footer_widths (footer_members f) ++ rest)) ≡ f
footer_of-members f h rest =
    let signed = of_signed-lt half32 f.metadata h.metadata in
    ap footer_of (
      unpack-pack footer_widths (footer_members f) rest (
        h.strings_offset,
        (
          h.strings_size,
          (
            omega (arith, signed),
            (
              omega arith,
              (
                h.row_group_count,
                (h.column_count, (h.row_count, (h.size, (h.version, (h.magic, tt))))),
              ),
            ),
          ),
        ),
      ))
    ∙ rw (to_signed-of_signed half32 f.metadata h.metadata) refl

pub descriptor_of-members :
    (d : ColumnDescriptor) (rest : List ℕ)
    → DescriptorFits d
    → descriptor_of
        (unpack descriptor_widths (pack descriptor_widths (descriptor_members d) ++ rest))
      ≡ d
descriptor_of-members d rest h =
    let signed = of_signed-lt half32 d.compression_level h.level in
    ap descriptor_of (
      unpack-pack descriptor_widths (descriptor_members d) rest (
        h.name,
        (h.type, (h.encoding, (h.compression, (omega (arith, signed), (omega arith, tt))))),
      ))
    ∙ rw (to_signed-of_signed half32 d.compression_level h.level) refl

pub row_group_header_of-members :
    (h : RowGroupHeader) (rest : List ℕ)
    → RowGroupHeaderFits h
    → row_group_header_of (
        unpack row_group_header_widths
          (pack row_group_header_widths (row_group_header_members h) ++ rest))
      ≡ h
row_group_header_of-members h rest f =
    ap row_group_header_of (
      unpack-pack row_group_header_widths (row_group_header_members h) rest
        (f.size, (f.offset, tt)))

pub column_header_of-members :
    (h : ColumnHeader) (rest : List ℕ)
    → ColumnHeaderFits h
    → column_header_of
        (unpack column_header_widths (pack column_header_widths (column_header_members h) ++ rest))
      ≡ h
column_header_of-members h rest f = ap column_header_of (
    unpack-pack column_header_widths (column_header_members h) rest (
      f.offset,
      (
        f.size,
        (f.decompressed_size, (f.compression, (f.encoding, (f.count, (f.min, (f.max, tt)))))),
      ),
    ))
