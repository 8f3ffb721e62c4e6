-- ===== src/GroupReader/Regain.antt =====
-- lib/reader.c: `cx_row_group_reader_get` finds the columns of a row group that a writer has put.
use columnix.Base.{
  ℕ, suc, ◌+◌, ◌*◌, ◌%◌, ◌≤◌, ◌≡◌, refl, sym, ap, ap₂, ◌∙◌, inl, inr, false, List, [], ◌∷◌, ◌++◌,
  ltb, add64, length, length-append, drop, drop-add, drop-length_append, get_elem?, some, All,
  Outcome, done, failed, ◌>>=◌, Outcome-cases, arith,
}
use mathlib.Core.Path.{subst}
use mathlib.Core.List.{append_assoc}
use columnix.Common.{ColumnType}
use columnix.System.{System}
use columnix.RowGroup.{RowGroup, new as row_group_new, add_lazy_column}
use columnix.File.{ColumnDescriptor, ColumnHeader, column_header_members, column_header_widths}
use columnix.File.Struct.{pack, length-pack}
use columnix.File.Fits.{ColumnHeaderFits, column_header_of-members}
use columnix.GroupReader.{GroupReader}
use columnix.GroupReader.Get.{column_header_at, lazy_of, get_column, get_columns, group_reader_get}
use columnix.GroupWriter.{GroupWriter}
use columnix.GroupWriter.Append.{align-multiple}
use columnix.GroupWriter.Put.{compression_of, column_headers_bytes}
use columnix.GroupWriter.Written.{offset_max, kept}
use columnix.GroupWriter.Saved.{SavedColumns, SavedColumns-append}
use columnix.GroupWriter.Groups.{Added, length-column_headers_bytes, SavedColumns-length}
use columnix.Writer.{column_type_of}

-- The lazy columns of two headers.
unfoldable pub add_pair :
    System
    → GroupReader
    → ColumnDescriptor
    → ColumnHeader
    → ColumnHeader
    → RowGroup
    → Outcome RowGroup
add_pair sys reader d h n row_group = do
  type ← column_type_of d.type
  compression ← compression_of h.compression
  null_compression ← compression_of n.compression
  add_lazy_column sys row_group (lazy_of reader type compression h)
      (lazy_of reader ColumnType.bit null_compression n)

-- The lazy columns of all headers, one after the other.
unfoldable pub add_all :
    System → GroupReader → List ColumnDescriptor → List ColumnHeader → RowGroup → Outcome RowGroup
unfolding add_pair
add_all sys reader [] hs row_group = done row_group
add_all sys reader (d ∷ ds) [] row_group = failed
add_all sys reader (d ∷ ds) (h ∷ []) row_group = failed
add_all sys reader (d ∷ ds) (h ∷ n ∷ hs) row_group =
    add_pair sys reader d h n row_group >>= λ next. add_all sys reader ds hs next

-- The column of a header ends inside the file.
abbrev Inside : ℕ → ColumnHeader → Type 0
Inside size h = h.offset + h.size ≤ size

module _ (sys : System) (reader : GroupReader) (small : length reader.bytes ≤ offset_max) where
  header-found :
      (offset : ℕ) (h : ColumnHeader) (rest : List ℕ)
      → drop offset reader.bytes ≡ pack column_header_widths (column_header_members h) ++ rest
      → ColumnHeaderFits h
      → offset + 56 ≤ length reader.bytes
      → column_header_at reader offset ≡ done h
  unfolding column_header_at
  header-found offset h rest e f i =
      let there : ltb (length reader.bytes) (offset + 56) ≡ false = ground (arith, i) in
      rw (there, e) (ap done (column_header_of-members h rest f))

  no_wrap :
      (h : ColumnHeader)
      → Inside (length reader.bytes) h
      → ltb (length reader.bytes) (add64 h.offset h.size) ≡ false
  no_wrap h i =
      let sum : add64 h.offset h.size ≡ h.offset + h.size = omega (arith, i, small) in
      rw sum (ground (arith, i))

  get_column-pair :
      (offset : ℕ) (d : ColumnDescriptor) (h n : ColumnHeader) (row_group : RowGroup)
      → column_header_at reader offset ≡ done h
      → column_header_at reader (offset + 56) ≡ done n
      → Inside (length reader.bytes) h
      → Inside (length reader.bytes) n
      → get_column sys reader offset d row_group ≡ add_pair sys reader d h n row_group
  unfolding get_column add_pair
  get_column-pair offset d h n row_group e f i j =
      rw (get_column, e, no_wrap h i, f, no_wrap n j) refl

  -- The bytes behind a header.
  past_header :
      (offset : ℕ) (h : ColumnHeader) (rest : List ℕ)
      → drop offset reader.bytes ≡ pack column_header_widths (column_header_members h) ++ rest
      → drop (offset + 56) reader.bytes ≡ rest
  past_header offset h rest e =
      let size : 56 ≡ length (pack column_header_widths (column_header_members h)) =
        sym (length-pack column_header_widths (column_header_members h) refl) in
      drop-add offset 56 (offset + 56) reader.bytes refl
      ∙ ap (drop 56) e
      ∙ ap (λ k. drop k (pack column_header_widths (column_header_members h) ++ rest)) size
      ∙ drop-length_append (pack column_header_widths (column_header_members h)) rest

  get_columns_lem :
      (ds : List ColumnDescriptor) (hs : List ColumnHeader) (offset : ℕ) (rest : List ℕ)
      (row_group : RowGroup)
      → length hs ≡ 2 * length ds
      → drop offset reader.bytes ≡ column_headers_bytes hs ++ rest
      → offset + 56 * length hs ≤ length reader.bytes
      → All ColumnHeaderFits hs
      → All (Inside (length reader.bytes)) hs
      → get_columns sys reader offset ds row_group ≡ add_all sys reader ds hs row_group
  unfolding get_columns add_all
  get_columns_lem [] hs offset rest row_group l e i f s = refl
  get_columns_lem (d ∷ ds) [] offset rest row_group l e i f s = absurd (omega arith)
  get_columns_lem (d ∷ ds) (h ∷ []) offset rest row_group l e i f s = absurd (omega arith)
  get_columns_lem (d ∷ ds) (h ∷ n ∷ hs) offset rest row_group l e i f s =
      let one =
        e
        ∙ append_assoc (pack column_header_widths (column_header_members h))
            (column_headers_bytes (n ∷ hs)) rest in
      let two =
        past_header offset h (column_headers_bytes (n ∷ hs) ++ rest) one
        ∙ append_assoc (pack column_header_widths (column_header_members n))
            (column_headers_bytes hs) rest in
      let three =
        ap (λ k. drop k reader.bytes) {x = offset + 112} {y = offset + 56 + 56} (omega arith)
        ∙ past_header (offset + 56) n (column_headers_bytes hs ++ rest) two in
      let pair =
        get_column-pair offset d h n row_group
          (header-found offset h (column_headers_bytes (n ∷ hs) ++ rest) one f.0 (omega (arith, i)))
          (header-found (offset + 56) n (column_headers_bytes hs ++ rest) two f.1.0
            (omega (arith, i)))
          s.0 s.1.0 in
      ap (λ r. r >>= λ next. get_columns sys reader (offset + 112) ds next) pair
      ∙ elim (Outcome-cases (add_pair sys reader d h n row_group)) [
        | inl r ↦ rw r.1 (
            get_columns_lem ds hs (offset + 112) rest r.0 (omega arith) three (omega (arith, i))
              f.1.1 s.1.1)
        | inr (inl r) ↦ rw r refl
        | inr (inr r) ↦ rw r refl
      ]

SavedColumns-Inside :
    (sys : System) (bs : List ℕ) (row_group : RowGroup) (i : ℕ) (ds : List ColumnDescriptor)
    (hs : List ColumnHeader)
    → length bs % 8 ≡ 0
    → SavedColumns sys bs row_group i ds hs
    → All (Inside (length bs)) hs
SavedColumns-Inside sys bs row_group i [] [] a s = tt
SavedColumns-Inside sys bs row_group i [] (h ∷ hs) a s = absurd s
SavedColumns-Inside sys bs row_group i (d ∷ ds) [] a s = absurd s
SavedColumns-Inside sys bs row_group i (d ∷ ds) (h ∷ []) a s = absurd s
SavedColumns-Inside sys bs row_group i (d ∷ ds) (h ∷ n ∷ hs) a s =
    let flat = align-multiple (length bs) a in
    (
      omega (arith, s.1.values_saved.reach, flat),
      (
        omega (arith, s.1.nulls_saved.reach, flat),
        SavedColumns-Inside sys bs s.0 (suc i) ds hs a s.2,
      ),
    )

All-weaken : (a b : ℕ) (hs : List ColumnHeader) → a ≤ b → All (Inside a) hs → All (Inside b) hs
All-weaken a b [] l s = tt
All-weaken a b (h ∷ hs) l s = (omega (arith, s.0, l), All-weaken a b hs l s.1)

-- Let a row group have been added to a file by cx_row_group_writer_put, with column headers whose
-- members fit their widths. A reader that has the bytes which the file held then, with anything
-- behind them, at most 2^63 - 1 in all, the descriptors of the writer, and the row group header
-- under some index, gets from cx_row_group_reader_get with that index the row group of the lazy
-- columns of exactly these headers, and every header still leads to the stored bytes of its column
-- or null bits.
pub group_reader_get-Added :
    (sys : System) (row_group : RowGroup) (w v : GroupWriter) (a : Added sys row_group w v)
    (reader : GroupReader) (index : ℕ) (more : List ℕ)
    → All ColumnHeaderFits a.headers
    → reader.bytes ≡ kept v.file ++ more
    → length reader.bytes ≤ offset_max
    → reader.descriptors ≡ w.descriptors
    → get_elem? reader.headers index ≡ some a.entry
    → (group_reader_get sys reader index
        ≡ (row_group_new sys >>= λ empty. add_all sys reader w.descriptors a.headers empty))
      × SavedColumns sys reader.bytes row_group 0 w.descriptors a.headers
unfolding group_reader_get
group_reader_get-Added sys row_group w v a reader index more fit bytes small ds at =
    let base = a.entry.offset + a.entry.size in
    let hs = a.headers in
    let two_each = SavedColumns-length sys (kept v.file) row_group 0 w.descriptors hs a.columns in
    let size_kept : length (kept v.file) ≡ base + 56 * length hs = omega (
      arith,
      ap length a.stored,
      length-append a.front (column_headers_bytes hs),
      length-column_headers_bytes hs,
      a.ends,
    ) in
    let size : length reader.bytes ≡ base + 56 * length hs + length more =
      omega (arith, ap length bytes, length-append (kept v.file) more, size_kept) in
    let found : drop base reader.bytes ≡ column_headers_bytes hs ++ more =
      ap₂ drop a.ends (
        bytes
        ∙ ap (λ bs. bs ++ more) a.stored
        ∙ append_assoc a.front (column_headers_bytes hs) more)
      ∙ drop-length_append a.front (column_headers_bytes hs ++ more) in
    let sum : add64 a.entry.offset a.entry.size ≡ base = omega (arith, size, small) in
    let count : length reader.descriptors ≡ length w.descriptors = ap length ds in
    let room : ltb (length reader.bytes) (add64 base (length reader.descriptors * 56)) ≡ false =
      let whole : add64 base (length reader.descriptors * 56)
          ≡ base + length reader.descriptors * 56 =
        omega (arith, size, small, two_each, count) in
      rw whole (ground (arith, size, two_each, count)) in
    let inside =
      All-weaken (length (kept v.file)) (length reader.bytes) hs (omega (arith, size, size_kept)) (
        SavedColumns-Inside sys (kept v.file) row_group 0 w.descriptors hs
          (omega (arith, size_kept, a.ends, a.aligned)) a.columns) in
    (
      elim (Outcome-cases (row_group_new sys)) [
        | inl r ↦
            rw (group_reader_get, at, sum, room, r.1)
              (ap (λ k. get_columns sys reader base k r.0) ds
                ∙ get_columns_lem sys reader small w.descriptors hs base more r.0 two_each found
                    (omega (arith, size)) fit inside)
        | inr (inl r) ↦ rw (group_reader_get, at, sum, room, r) refl
        | inr (inr r) ↦ rw (group_reader_get, at, sum, room, r) refl
      ],
      subst (λ bs. SavedColumns sys bs row_group 0 w.descriptors hs) (sym bytes)
          (SavedColumns-append sys (kept v.file) more row_group 0 w.descriptors hs
            (omega (arith, ap length bytes, small)) a.columns),
    )
