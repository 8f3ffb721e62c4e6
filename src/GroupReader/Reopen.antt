-- ===== src/GroupReader/Reopen.antt =====
-- lib/writer.c and lib/reader.c: a file that `cx_row_group_writer_finish` has closed is opened by
-- `cx_row_group_reader_new`, with all that the writer had.
use columnix.Base.{
  ℕ, zero, suc, ◌+◌, ◌*◌, ◌≤◌, ◌<◌, ◌≡◌, refl, sym, ap, ap₂, ◌∙◌, true, Bool, List, [], ◌∷◌, ◌++◌,
  Option, none, some, word_mod, length, length-append, get_elem?, take, take-le, ℤ, InSigned, done,
  arith,
}
use mathlib.Core.Path.{subst}
use mathlib.Core.List.{append_assoc}
use columnix.Attempt.{success}
use columnix.System.{System}
use columnix.Column.{half32}
use columnix.Column.Grow.{Grants}
use columnix.File.Stream.{Disk, zeros}
use columnix.GroupWriter.{GroupWriter}
use columnix.GroupWriter.Append.{Sound, extend}
use columnix.GroupWriter.Tail.{Follows, Follows-length, extend-bytes}
use columnix.GroupWriter.Finish.{footer_for, group_writer_finish}
use columnix.GroupWriter.Closing.{
  Ready, Closes, closed, extra, metadata_id, four-Follows, one-AtEnd, one-position, length-strings,
  group_writer_finish-Closes,
}
use columnix.GroupReader.{GroupReader, group_reader_new, reader_string, group_reader_metadata}
use columnix.GroupReader.Opens.{
  header_bytes, descriptor_bytes, footer_bytes, length-header_bytes, length-descriptor_bytes,
  length-footer_bytes, Laid, opened, willing, group_reader_new-opened,
}
use columnix.GroupReader.Strings.{Keeps, string_or_null, reader_string-eq}

metadata_id-InSigned :
    (m : Option (List ℕ)) (n : ℕ) → n < half32 → InSigned half32 (metadata_id m n)
metadata_id-InSigned none n h = omega arith
metadata_id-InSigned (some m) n h = h

-- The parts of the closed file, in the order in which they lie.
regroup :
    (front strings space hs ds foot all one : List ℕ)
    → all ≡ one ++ (space ++ (hs ++ ds ++ foot))
    → one ≡ front ++ strings
    → all ≡ front ++ (strings ++ (space ++ (hs ++ (ds ++ foot))))
regroup front strings space hs ds foot all one e f =
    e
    ∙ ap₂ (λ o t. o ++ (space ++ t)) f (append_assoc hs ds foot)
    ∙ append_assoc front strings (space ++ (hs ++ (ds ++ foot)))

module _ (sys : System) (disk : Disk) (sound : Sound disk) (sync : Bool) (ss : List (List ℕ))
    (w v : GroupWriter) (r : Ready ss w) (c : Closes sys disk sync ss w v) where
  abbrev id : ℤ
  id = metadata_id w.metadata w.strings_count

  abbrev strings : List ℕ
  strings = take v.strings.offset v.strings.buffer

  whole : length v.strings.buffer ≡ v.strings.offset
  whole = c.own.full

  fits :
      v.file.position
        + (v.strings.offset + 16 * length v.headers + 24 * length v.descriptors + 56)
        + 64
      ≤ word_mod
  fits =
      omega (
        arith,
        r.small,
        c.near,
        c.texts.tail,
        ap length c.same_headers,
        ap length c.same_descriptors,
      )

  follows : Follows (extend v.file strings) (closed v v.file.position id) (
      header_bytes v.headers
      ++ descriptor_bytes v.descriptors
      ++ footer_bytes (footer_for v v.file.position id))
  follows = four-Follows disk sound v c.stands c.even whole fits v.file.position id

  -- How long the closed file is.
  position-closed : (closed v v.file.position id).position < word_mod
  position-closed = omega (
    arith,
    Follows-length follows (one-AtEnd disk sound v c.stands c.even whole fits v.file.position id),
    follows.narrow,
    one-position disk sound v c.stands c.even whole fits v.file.position id,
    length-append (header_bytes v.headers ++ descriptor_bytes v.descriptors)
        (footer_bytes (footer_for v v.file.position id)),
    length-append (header_bytes v.headers) (descriptor_bytes v.descriptors),
    length-header_bytes v.headers,
    length-descriptor_bytes v.descriptors,
    length-footer_bytes (footer_for v v.file.position id),
    fits,
  )

  Laid-closed :
      Laid
        (closed v v.file.position id).bytes
        v.file.bytes
        strings
        (zeros follows.space)
        v.headers
        v.descriptors
        (footer_for v v.file.position id)
  Laid-closed = record {
    stored =
        regroup v.file.bytes strings (zeros follows.space) (header_bytes v.headers)
          (descriptor_bytes v.descriptors) (footer_bytes (footer_for v v.file.position id))
          (closed v v.file.position id).bytes (extend v.file strings).bytes follows.stored
          (extend-bytes v.file strings c.even);
    strings_offset = c.stands;
    strings_size = sym (length-strings disk sound v c.stands c.even whole fits v.file.position id);
    header_count = omega (arith, r.few_headers, ap length c.same_headers);
    descriptor_count = omega (arith, r.few_descriptors, ap length c.same_descriptors);
    size = refl;
    version = refl;
    magic = refl;
    fits = record {
      strings_offset = omega (arith, fits);
      strings_size = omega (arith, fits);
      metadata =
          metadata_id-InSigned w.metadata w.strings_count
            (omega (arith, r.stocked.counted, r.stocked.few));
      row_group_count = omega arith;
      column_count = omega arith;
      row_count = omega (arith, r.rows, c.same_rows);
      size = omega arith;
      version = omega arith;
      magic = omega arith;
    };
    headers_fit = rw c.same_headers r.headers_fit;
    descriptors_fit = rw c.same_descriptors r.descriptors_fit;
    small = subst (λ n. n < word_mod) follows.at_end position-closed;
  }

-- What a reader of the file has.
pub record Reopened (ss : List (List ℕ)) (w : GroupWriter) (reader : GroupReader) : Type 0 where
  pub rows : reader.row_count ≡ w.row_count
  pub headers : reader.headers ≡ w.headers
  pub descriptors : reader.descriptors ≡ w.descriptors
  pub strings :
      (i : ℕ) → reader_string reader i ≡ string_or_null (get_elem? (ss ++ extra w.metadata) i)
  pub metadata : group_reader_metadata reader ≡ done w.metadata

metadata-read :
    (ss : List (List ℕ)) (m : Option (List ℕ)) (n : ℕ) (reader : GroupReader)
    → reader.metadata ≡ metadata_id m n
    → n ≡ length ss
    → ((i : ℕ) → reader_string reader i ≡ string_or_null (get_elem? (ss ++ extra m) i))
    → group_reader_metadata reader ≡ done m
unfolding group_reader_metadata
metadata-read ss none n reader e c s = rw e refl
metadata-read ss (some m) n reader e c s =
    let last : get_elem? (ss ++ m ∷ []) n ≡ some m = get_elem?-end ss m n c in
    rw (e, s n, last) refl
  where
    get_elem?-end :
        (xs : List (List ℕ)) (x : List ℕ) (n : ℕ)
        → n ≡ length xs
        → get_elem? (xs ++ x ∷ []) n ≡ some x
    get_elem?-end [] x zero h = refl
    get_elem?-end [] x (suc n) h = absurd (omega arith)
    get_elem?-end (y ∷ xs) x zero h = absurd (omega arith)
    get_elem?-end (y ∷ xs) x (suc n) h = get_elem?-end xs x n (omega arith)

-- Where no memory is refused and the disk refuses nothing: a row group writer that stands at a
-- multiple of 8 at the end of its file, has not written its footer, and whose strings, counts and
-- sizes fit the file format, is finished by cx_row_group_writer_finish without an error, and
-- cx_row_group_reader_new opens the file, with the row count, the row group headers, the column
-- descriptors, the strings and the metadata of the writer.
pub finish-Reopened :
    (sys : System) (disk : Disk) (sync : Bool) (ss : List (List ℕ)) (w : GroupWriter)
    → Grants sys
    → Sound disk
    → Ready ss w
    → (last : GroupWriter) × (reader : GroupReader) × (group_writer_finish sys disk sync w
        ≡ success tt last)
      × (last.footer_written ≡ true)
      × (group_reader_new sys willing last.file.bytes ≡ done reader)
      × Reopened ss w reader
finish-Reopened sys disk sync ss w grants sound r =
    let (v, c) = group_writer_finish-Closes sys grants disk sound sync ss w r in
    let id = metadata_id w.metadata w.strings_count in
    let file = closed v v.file.position id in
    let l = Laid-closed sys disk sound sync ss w v r c in
    let strings = take v.strings.offset v.strings.buffer in
    let reader =
      opened file.bytes strings v.headers v.descriptors (footer_for v v.file.position id) in
    let all : strings ≡ v.strings.buffer =
      take-le v.strings.offset v.strings.buffer (omega (arith, c.own.full)) in
    let keeps : Keeps (ss ++ extra w.metadata) reader = record {
      typed = refl;
      stored = ap (λ bs. take v.strings.offset bs) all ∙ all ∙ c.texts.stored;
      clean = c.texts.clean;
    } in
    let texts = λ (i : ℕ). reader_string-eq (ss ++ extra w.metadata) reader i keeps in
    (
      record v { file = file; footer_written = true },
      reader,
      c.finishes,
      refl,
      group_reader_new-opened l sys grants,
      record {
        rows = c.same_rows;
        headers = c.same_headers;
        descriptors = c.same_descriptors;
        strings = texts;
        metadata = metadata-read ss w.metadata w.strings_count reader refl r.stocked.counted texts;
      },
    )
