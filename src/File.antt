-- ===== src/File.antt =====
-- lib/file.h: the structs that a columnix file is made of, and their bytes. A struct lies in the
-- file as in memory: its members one after the other, little-endian, with the padding as members.
pub mod Struct
pub mod Stream
pub mod Fits
use columnix.Base.{ℕ, ◌+◌, ◌-◌, ◌*◌, ◌%◌, List, [], ◌∷◌, get_or, ℤ, of_signed, to_signed}
use columnix.Column.{half32}
use columnix.Index.{Index}

-- CX_FILE_MAGIC, CX_FILE_VERSION, CX_WRITE_ALIGN.
abbrev pub file_magic : ℕ
file_magic = 0x7863040378630201

abbrev pub file_version : ℕ
file_version = 1

abbrev pub write_align : ℕ
write_align = 8

pub record Header : Type 0 where
  pub magic : ℕ
  pub version : ℕ

pub record Footer : Type 0 where
  pub strings_offset : ℕ
  pub strings_size : ℕ
  pub metadata : ℤ
  pub row_group_count : ℕ
  pub column_count : ℕ
  pub row_count : ℕ
  pub size : ℕ
  pub version : ℕ
  pub magic : ℕ

-- `type`, `encoding` and `compression` are the numbers of the enumerations.
pub record ColumnDescriptor : Type 0 where
  pub name : ℕ
  pub type : ℕ
  pub encoding : ℕ
  pub compression : ℕ
  pub compression_level : ℤ

pub record RowGroupHeader : Type 0 where
  pub size : ℕ
  pub offset : ℕ

pub record ColumnHeader : Type 0 where
  pub offset : ℕ
  pub size : ℕ
  pub decompressed_size : ℕ
  pub compression : ℕ
  pub encoding : ℕ
  pub index : Index

-- The sizes of the members, in bytes. That of the struct is their sum.
abbrev pub header_widths : List ℕ
header_widths = 8 ∷ 4 ∷ 4 ∷ []

abbrev pub footer_widths : List ℕ
footer_widths = 8 ∷ 8 ∷ 4 ∷ 4 ∷ 4 ∷ 4 ∷ 8 ∷ 4 ∷ 4 ∷ 8 ∷ []

abbrev pub descriptor_widths : List ℕ
descriptor_widths = 4 ∷ 4 ∷ 4 ∷ 4 ∷ 4 ∷ 4 ∷ []

abbrev pub row_group_header_widths : List ℕ
row_group_header_widths = 8 ∷ 8 ∷ []

abbrev pub column_header_widths : List ℕ
column_header_widths = 8 ∷ 8 ∷ 8 ∷ 4 ∷ 4 ∷ 8 ∷ 8 ∷ 8 ∷ []

-- The members as bit patterns, and the struct of such a list.
abbrev pub header_members : Header → List ℕ
header_members h = h.magic ∷ h.version ∷ 0 ∷ []

abbrev pub footer_members : Footer → List ℕ
footer_members f =
    f.strings_offset
    ∷ f.strings_size
    ∷ of_signed half32 f.metadata
    ∷ 0
    ∷ f.row_group_count
    ∷ f.column_count
    ∷ f.row_count
    ∷ f.size
    ∷ f.version
    ∷ f.magic
    ∷ []

abbrev pub footer_of : List ℕ → Footer
footer_of ms = record {
  strings_offset = get_or ms 0 0;
  strings_size = get_or ms 1 0;
  metadata = to_signed half32 (get_or ms 2 0);
  row_group_count = get_or ms 4 0;
  column_count = get_or ms 5 0;
  row_count = get_or ms 6 0;
  size = get_or ms 7 0;
  version = get_or ms 8 0;
  magic = get_or ms 9 0;
}

abbrev pub descriptor_members : ColumnDescriptor → List ℕ
descriptor_members d =
    d.name ∷ d.type ∷ d.encoding ∷ d.compression ∷ of_signed half32 d.compression_level ∷ 0 ∷ []

abbrev pub descriptor_of : List ℕ → ColumnDescriptor
descriptor_of ms = record {
  name = get_or ms 0 0;
  type = get_or ms 1 0;
  encoding = get_or ms 2 0;
  compression = get_or ms 3 0;
  compression_level = to_signed half32 (get_or ms 4 0);
}

abbrev pub row_group_header_members : RowGroupHeader → List ℕ
row_group_header_members h = h.size ∷ h.offset ∷ []

abbrev pub row_group_header_of : List ℕ → RowGroupHeader
row_group_header_of ms = record { size = get_or ms 0 0; offset = get_or ms 1 0 }

-- The index is a member that is a struct itself.
abbrev pub column_header_members : ColumnHeader → List ℕ
column_header_members h =
    h.offset ∷ h.size ∷ h.decompressed_size ∷ h.compression ∷ h.encoding ∷ h.index.count
    ∷ h.index.min ∷ h.index.max ∷ []

abbrev pub column_header_of : List ℕ → ColumnHeader
column_header_of ms = record {
  offset = get_or ms 0 0;
  size = get_or ms 1 0;
  decompressed_size = get_or ms 2 0;
  compression = get_or ms 3 0;
  encoding = get_or ms 4 0;
  index = record { count = get_or ms 5 0; min = get_or ms 6 0; max = get_or ms 7 0 };
}

-- sizeof
abbrev pub footer_size : ℕ
footer_size = 56

abbrev pub descriptor_size : ℕ
descriptor_size = 24

abbrev pub row_group_header_size : ℕ
row_group_header_size = 16

abbrev pub column_header_size : ℕ
column_header_size = 56
