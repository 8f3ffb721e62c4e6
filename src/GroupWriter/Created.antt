-- ===== src/GroupWriter/Created.antt =====
-- lib/writer.c, lib/reader.c: a file of columns without rows, from its creation to its opening.
use columnix.Base.{
  ℕ, ◌+◌, ◌*◌, ◌≤◌, ◌<◌, ◌≡◌, refl, sym, ap, ◌∙◌, Bool, true, false, List, [], ◌∷◌, ◌++◌, map, none,
  word_mod, length, length-append, All, ℤ, InSigned, done, get_elem?, arith,
}
use mathlib.Core.Path.{subst}
use mathlib.Core.List.{append_assoc, append-nil}
use columnix.Attempt.{success, Call, pure, ◌>>◌, then-success}
use columnix.Common.{ColumnType, EncodingType, CompressionType}
use columnix.System.{System}
use columnix.Column.{half64, half32}
use columnix.Column.Grow.{Grants}
use columnix.Column.Strings.{NulFree, text}
use columnix.File.{ColumnDescriptor}
use columnix.File.Stream.{Disk}
use columnix.GroupWriter.{GroupWriter, group_writer_new, group_writer_add_column}
use columnix.GroupWriter.Append.{Sound}
use columnix.GroupWriter.Finish.{word32, group_writer_finish}
use columnix.GroupWriter.Closing.{Ready, extra}
use columnix.GroupWriter.Building.{
  Spare, descriptor, enlarged, blank, group_writer_new-Ready, group_writer_add_column-Enlarged,
}
use columnix.GroupReader.{GroupReader, group_reader_new, reader_string, group_reader_metadata}
use columnix.GroupReader.Opens.{willing}
use columnix.GroupReader.Reopen.{finish-Reopened}
use columnix.GroupReader.Strings.{string_or_null}

-- The arguments of a call that adds a column.
pub record ColumnSpec : Type 0 where
  pub name : List ℕ
  pub type : ColumnType
  pub encoding : EncodingType
  pub compression : CompressionType
  pub level : ℤ

abbrev pub names : List ColumnSpec → List (List ℕ)
names = map (λ c. c.name)

-- The descriptors of the columns, whose names are the strings from number `k` on.
abbrev pub described : ℕ → List ColumnSpec → List ColumnDescriptor
described k [] = []
described k (c ∷ cs) = descriptor k c.type c.encoding c.compression c.level ∷ described (k + 1) cs

-- A client that adds the columns one after the other.
unfoldable pub add_each_column : System → List ColumnSpec → Call GroupWriter (Unit {0})
add_each_column sys [] = pure tt
add_each_column sys (c ∷ cs) = do
  group_writer_add_column sys c.name c.type c.encoding c.compression c.level
  add_each_column sys cs

length-text_append :
    (ss ts : List (List ℕ)) → length (text (ss ++ ts)) ≡ length (text ss) + length (text ts)
length-text_append [] ts = omega arith
length-text_append (s ∷ ss) ts = omega (
  arith,
  length-text_append ss ts,
  length-append s (0 ∷ text ss),
  length-append s (0 ∷ text (ss ++ ts)),
)

-- Columns that fit the file format.
pub record Fit (cs : List ColumnSpec) : Type 0 where
  pub clean : All NulFree (names cs)
  pub signed : All (λ c. InSigned half32 c.level) cs

-- Room for the columns.
record Room (ss : List (List ℕ)) (cs : List ColumnSpec) (w : GroupWriter) : Type 0 where
  few : length ss + length cs < half32
  room : length (text ss) + length (text (names cs)) + length (text (extra w.metadata)) ≤ half64
  array : length w.descriptors ≤ w.descriptors_size
  bound : w.descriptors_size ≤ 2 * length w.descriptors + 8
  few_descriptors : length w.descriptors + length cs < word32
  small :
      w.file.position
        + length (text ss)
        + length (text (names cs))
        + length (text (extra w.metadata))
        + 16 * length w.headers
        + 24 * (length w.descriptors + length cs)
        + 200
      < word_mod
  early : w.header_written ≡ false

-- What the calls change.
record Grown (ss : List (List ℕ)) (cs : List ColumnSpec) (w v : GroupWriter) : Type 0 where
  ready : Ready (ss ++ names cs) v
  descriptors : v.descriptors ≡ w.descriptors ++ described (length ss) cs
  headers : v.headers ≡ w.headers
  rows : v.row_count ≡ w.row_count
  metadata : v.metadata ≡ w.metadata

module _ (sys : System) (grants : Grants sys) where
  add_each_column-Grown :
      (ss : List (List ℕ)) (cs : List ColumnSpec) (w : GroupWriter)
      → Ready ss w
      → Fit cs
      → Room ss cs w
      → (v : GroupWriter) × (add_each_column sys cs w ≡ success tt v) × Grown ss cs w v
  unfolding add_each_column
  add_each_column-Grown ss [] w r f m = (
    w,
    refl,
    record {
      ready = subst (λ l. Ready l w) (sym (append-nil ss)) r;
      descriptors = sym (append-nil w.descriptors);
      headers = refl;
      rows = refl;
      metadata = refl;
    },
  )
  add_each_column-Grown ss (c ∷ cs) w r f m =
      let all : length (text ((ss ++ c.name ∷ []) ++ extra w.metadata))
          ≡ length (text ss) + (length (text (c.name ∷ [])) + length (text (extra w.metadata))) =
        omega (
          arith,
          length-text_append (ss ++ c.name ∷ []) (extra w.metadata),
          length-text_append ss (c.name ∷ []),
        ) in
      let both = length-text_append (c.name ∷ []) (names cs) in
      let joined = length-text_append ss (c.name ∷ []) in
      let spare : Spare ss c.name c.level w = record {
        clean = f.clean.0;
        few = omega (arith, m.few);
        room = omega (arith, all, both, m.room);
        signed = f.signed.0;
        array = m.array;
        size = omega (arith, m.bound, m.few_descriptors);
        few_descriptors = omega (arith, m.few_descriptors);
        small = omega (arith, all, both, m.small);
      } in
      let (n, strings, e, next, room, bound) =
        group_writer_add_column-Enlarged sys grants ss c.name c.type c.encoding c.compression
          c.level w r spare m.early in
      let d = descriptor (length ss) c.type c.encoding c.compression c.level in
      let u = enlarged sys grants w c.name d n strings in
      let longer = length-append ss (c.name ∷ []) in
      let more = length-append w.descriptors (d ∷ []) in
      let (v, g, h) =
        add_each_column-Grown (ss ++ c.name ∷ []) cs u next
          (record { clean = f.clean.1; signed = f.signed.1 })
          (record {
            few = omega (arith, m.few, longer);
            room = omega (arith, joined, both, m.room);
            array = omega (arith, room, more);
            bound = omega (arith, bound m.bound, more);
            few_descriptors = omega (arith, m.few_descriptors, more);
            small = omega (arith, joined, both, m.small, more);
            early = m.early;
          }) in
      (
        v,
        then-success (group_writer_add_column sys c.name c.type c.encoding c.compression c.level)
              (λ _. add_each_column sys cs) w u tt e
            ∙ g,
        record {
          ready = subst (λ l. Ready l v) (append_assoc ss (c.name ∷ []) (names cs)) h.ready;
          descriptors =
              h.descriptors
              ∙ ap (λ k. (w.descriptors ++ d ∷ []) ++ described k cs) longer
              ∙ append_assoc w.descriptors (d ∷ []) (described (length ss + 1) cs);
          headers = h.headers;
          rows = h.rows;
          metadata = h.metadata;
        },
      )

-- Where no memory is refused and the disk opens the file and refuses nothing: any fewer than 2^31
-- columns, with names without a NUL of at most 2^63 bytes together and levels that are an int32_t,
-- added by cx_row_group_writer_add_column to a writer that cx_row_group_writer_new has made, which
-- cx_row_group_writer_finish then closes, all succeed, and cx_row_group_reader_new opens the file
-- with no rows, no row groups, no metadata, the descriptors of the columns in order, numbered from
-- 0, and their names as the strings.
pub created_file-Reopened :
    (sys : System) (disk : Disk) (sync : Bool) (cs : List ColumnSpec)
    → Grants sys
    → Sound disk
    → disk.opens ≡ true
    → Fit cs
    → length cs < half32
    → length (text (names cs)) ≤ half64
    → (w : GroupWriter) × (v : GroupWriter) × (last : GroupWriter) × (reader : GroupReader)
      × (group_writer_new sys disk ≡ done w)
      × (add_each_column sys cs w ≡ success tt v)
      × (group_writer_finish sys disk sync v ≡ success tt last)
      × (group_reader_new sys willing last.file.bytes ≡ done reader)
      × (reader.row_count ≡ 0)
      × (reader.headers ≡ [])
      × (reader.descriptors ≡ described 0 cs)
      × ((i : ℕ) → reader_string reader i ≡ string_or_null (get_elem? (names cs) i))
      × (group_reader_metadata reader ≡ done none)
created_file-Reopened sys disk sync cs grants sound opens fit few room =
    let (e, r) = group_writer_new-Ready sys disk grants opens in
    let (v, f, g) = add_each_column-Grown sys grants [] cs blank r fit (record {
      few = omega (arith, few);
      room = omega (arith, room);
      array = omega arith;
      bound = omega arith;
      few_descriptors = omega (arith, few);
      small = omega (arith, few, room);
      early = refl;
    }) in
    let (last, reader, h, written, k, o) =
      finish-Reopened sys disk sync (names cs) v grants sound g.ready in
    let plain : (names cs ++ extra v.metadata) ≡ names cs =
      ap (λ m. names cs ++ extra m) g.metadata ∙ append-nil (names cs) in
    (
      blank,
      v,
      last,
      reader,
      e,
      f,
      h,
      k,
      o.rows ∙ g.rows,
      o.headers ∙ g.headers,
      o.descriptors ∙ g.descriptors,
      λ i. o.strings i ∙ ap (λ ss. string_or_null (get_elem? ss i)) plain,
      o.metadata ∙ ap done g.metadata,
    )
