-- ===== src/GroupWriter/Closing.antt =====
-- lib/writer.c: what `cx_row_group_writer_finish` makes of a file, where nothing is refused.
use columnix.Base.{
  ℕ, ◌+◌, ◌-◌, ◌*◌, ◌%◌, ◌≤◌, ◌<◌, ◌≡◌, refl, sym, ap, ◌∙◌, true, false, Bool, List, [], ◌∷◌, ◌++◌,
  Option, none, some, if◌then◌else◌, Bool-cases, inl, inr, to_signed, word_mod, length,
  length-append, take, take-le, All, ℤ, pos, negsuc, done, arith,
}
use mathlib.Core.List.{append-nil}
use columnix.Attempt.{
  ◌>>◌, success, failure, check, pure, modify, on_failure, then-success, on_failure-success,
}
use columnix.System.{System}
use columnix.Column.{Column, put_str, half64, half32}
use columnix.Column.Grow.{Grants, Writable}
use columnix.Column.Strings.{NulFree, text}
use columnix.Column.Texts.{HoldsText, put_str-Appends}
use columnix.File.{header_widths, file_magic, file_version}
use columnix.File.Fits.{DescriptorFits, RowGroupHeaderFits}
use columnix.File.Struct.{pack, length-pack}
use columnix.File.Stream.{Disk, Stream, zeros, padded, ftruncate}
use columnix.GroupReader.Opens.{
  header_bytes, descriptor_bytes, footer_bytes, length-header_bytes, length-descriptor_bytes,
  length-footer_bytes,
}
use columnix.GroupWriter.{
  GroupWriter, write, seek_back, write_header, ensure_header, add_string, on_file,
}
use columnix.GroupWriter.Finish.{
  metadata_string, add_metadata, footer_for, write_tail, close_file, finish_file, word32,
  group_writer_finish,
}
use columnix.GroupWriter.Append.{Sound, AtEnd, extend, write-extend, padded-end, align-multiple}
use columnix.GroupWriter.Tail.{
  Follows, Follows-nil, Follows-extend, Follows-length, extend-AtEnd, extend-bytes,
}

module _ (disk : Disk) (sound : Sound disk) where
  abbrev header_block : List ℕ
  header_block = pack header_widths (file_magic ∷ file_version ∷ 0 ∷ [])

  write_header-extend :
      (w : GroupWriter)
      → AtEnd w.file
      → w.file.position + 8 ≤ word_mod
      → write_header disk w
        ≡ success tt (record w { file = extend w.file header_block; header_written = true })
  write_header-extend w e h =
      let back = λ (v : GroupWriter). record v { file = record v.file { position = 0 } } in
      then-success (on_failure back (write disk header_block))
        (λ _. modify (λ v. record v { header_written = true })) w
        (record w { file = extend w.file header_block }) tt
        (on_failure-success back (write disk header_block) w
          (record w { file = extend w.file header_block }) tt
          (write-extend disk sound w header_block e h))

-- The file header is there after the call, and the stream at a multiple of 8.
ensure_header-AtEnd :
    (disk : Disk) (sound : Sound disk) (w : GroupWriter)
    → AtEnd w.file
    → w.file.position % 8 ≡ 0
    → w.file.position + 32 ≤ word_mod
    → (f : Stream) × (ensure_header disk w
        ≡ success tt (record w { file = f; header_written = true }))
      × AtEnd f
      × (f.position % 8 ≡ 0)
      × (f.position ≤ w.file.position + 16)
unfolding ensure_header
ensure_header-AtEnd disk sound w e even small = elim (Bool-cases w.header_written) [
  | inl h ↦ (w.file, rw h refl, e, even, omega arith)
  | inr h ↦
      let block = pack header_widths (file_magic ∷ file_version ∷ 0 ∷ []) in
      let size : length block ≡ 16 =
        length-pack header_widths (file_magic ∷ file_version ∷ 0 ∷ []) refl in
      let flat = align-multiple w.file.position even in
      (
        extend w.file block,
        ap (λ b. (if b then pure tt else write_header disk) w) h
            ∙ write_header-extend disk sound w e (omega arith),
        extend-AtEnd w.file block e (omega arith),
        omega (arith, flat, even),
        omega (arith, flat),
      )
]

-- The metadata is one string more.
abbrev pub extra : Option (List ℕ) → List (List ℕ)
extra none = []
extra (some metadata) = metadata ∷ []

abbrev pub metadata_id : Option (List ℕ) → ℕ → ℤ
metadata_id none n = negsuc 0
metadata_id (some metadata) n = pos n

-- The strings of the writer are `ss`.
pub record Stocked (ss : List (List ℕ)) (w : GroupWriter) : Type 0 where
  pub writable : Writable w.strings
  pub holds : HoldsText ss w.strings
  pub counted : w.strings_count ≡ length ss
  pub few : length ss < half32
  pub room : length (text (ss ++ extra w.metadata)) ≤ half64
  pub clean : All NulFree (extra w.metadata)

-- The metadata has been added.
abbrev WithMetadata : System → GroupWriter → List (List ℕ) → Type 0
WithMetadata sys w ss =
    (column : Column) × (n : ℕ) × (add_metadata sys w
      ≡ success (metadata_id w.metadata w.strings_count)
          (record w { strings = column; strings_count = n }))
    × HoldsText (ss ++ extra w.metadata) column
    × Writable column

module _ (sys : System) (grants : Grants sys) where
  pub add_string-put :
      (w : GroupWriter) (string : List ℕ) (column : Column)
      → put_str sys w.strings string ≡ done column
      → w.strings_count < half32
      → add_string sys string w
        ≡ success w.strings_count
            (record w { strings = column; strings_count = w.strings_count + 1 })
  unfolding add_string
  add_string-put w string column e few =
      let id : w.strings_count % 4294967296 ≡ w.strings_count = omega arith in rw (e, id) refl

  metadata-added :
      (w : GroupWriter) (ss : List (List ℕ)) (m : Option (List ℕ))
      → w.metadata ≡ m
      → Stocked ss w
      → WithMetadata sys w ss
  unfolding add_metadata
  metadata-added w ss none e s =
      (w.strings, w.strings_count, rw e refl, rw (e, append-nil ss) s.holds, s.writable)
  metadata-added w ss (some m) e s =
      let (column, put, own, holds) =
        put_str-Appends sys grants w.strings ss m s.writable s.holds (rw e at s.clean).0
          (rw e at s.room) (omega (arith, s.few)) in
      let added = add_string-put w m column put (omega (arith, s.counted, s.few)) in
      let signed : to_signed half32 w.strings_count ≡ pos w.strings_count =
        ground (arith, s.counted, s.few) in
      (
        column,
        w.strings_count + 1,
        ap (λ o. metadata_string sys o w) e
            ∙ then-success (add_string sys m) (λ id. pure (to_signed half32 id)) w
                (record w { strings = column; strings_count = w.strings_count + 1 }) w.strings_count
                added
            ∙ rw signed (
                ap
                  (λ o.
                    success (metadata_id o w.strings_count)
                      (record w { strings = column; strings_count = w.strings_count + 1 }))
                  (sym e)),
        rw e holds,
        own,
      )

-- The file with the strings, the row group headers, the descriptors and the footer behind it.
abbrev pub closed : GroupWriter → ℕ → ℤ → Stream
closed w offset metadata =
    extend
      (extend
        (extend (extend w.file (take w.strings.offset w.strings.buffer)) (header_bytes w.headers))
        (descriptor_bytes w.descriptors))
      (footer_bytes (footer_for w offset metadata))

-- The bytes that are written.
abbrev pub closing_size : GroupWriter → ℕ
closing_size w = w.strings.offset + 16 * length w.headers + 24 * length w.descriptors + 56

record ClosedAt (w : GroupWriter) (offset : ℕ) (metadata : ℤ) : Type 0 where
  strings_end : AtEnd (extend w.file (take w.strings.offset w.strings.buffer))
  strings_stored :
      (extend w.file (take w.strings.offset w.strings.buffer)).bytes
      ≡ w.file.bytes ++ take w.strings.offset w.strings.buffer
  headers_end :
      AtEnd
        (extend (extend w.file (take w.strings.offset w.strings.buffer)) (header_bytes w.headers))
  follows :
      Follows (extend w.file (take w.strings.offset w.strings.buffer)) (closed w offset metadata) (
        header_bytes w.headers
        ++ descriptor_bytes w.descriptors
        ++ footer_bytes (footer_for w offset metadata))

module _ (disk : Disk) (sound : Sound disk) (w : GroupWriter) (e : AtEnd w.file)
    (even : w.file.position % 8 ≡ 0) (whole : length w.strings.buffer ≡ w.strings.offset)
    (small : w.file.position + closing_size w + 64 ≤ word_mod) (offset : ℕ) (metadata : ℤ) where
  abbrev strings : List ℕ
  strings = take w.strings.offset w.strings.buffer

  pub length-strings : length strings ≡ w.strings.offset
  length-strings =
      omega
        (arith, ap length (take-le w.strings.offset w.strings.buffer (omega (arith, whole))), whole)

  abbrev one : Stream
  one = extend w.file strings

  pub one-AtEnd : AtEnd one
  one-AtEnd = extend-AtEnd w.file strings e (omega (arith, small))

  pub one-position : one.position ≡ w.file.position + w.strings.offset
  one-position = omega (
    arith,
    one-AtEnd,
    e,
    ap length (extend-bytes w.file strings even),
    length-append w.file.bytes strings,
    length-strings,
  )

  abbrev two : Stream
  two = extend one (header_bytes w.headers)

  two-Follows : Follows one two (header_bytes w.headers)
  two-Follows =
      Follows-extend one [] (header_bytes w.headers) one-AtEnd
        (omega (arith, length-header_bytes w.headers)) one (Follows-nil one one-AtEnd)
        (omega (arith, one-position, small))

  two-position : two.position + 8 ≤ word_mod
  two-position = omega (
    arith,
    Follows-length two-Follows one-AtEnd,
    two-Follows.narrow,
    one-position,
    length-header_bytes w.headers,
    small,
  )

  abbrev three : Stream
  three = extend two (descriptor_bytes w.descriptors)

  three-Follows : Follows one three (header_bytes w.headers ++ descriptor_bytes w.descriptors)
  three-Follows =
      Follows-extend one (header_bytes w.headers) (descriptor_bytes w.descriptors) one-AtEnd
        (omega (arith, length-descriptor_bytes w.descriptors)) two two-Follows two-position

  three-position : three.position + 8 ≤ word_mod
  three-position = omega (
    arith,
    Follows-length three-Follows one-AtEnd,
    three-Follows.narrow,
    one-position,
    length-header_bytes w.headers,
    length-descriptor_bytes w.descriptors,
    length-append (header_bytes w.headers) (descriptor_bytes w.descriptors),
    small,
  )

  abbrev footer : List ℕ
  footer = footer_bytes (footer_for w offset metadata)

  abbrev four : Stream
  four = extend three footer

  pub four-Follows :
      Follows one four (header_bytes w.headers ++ descriptor_bytes w.descriptors ++ footer)
  four-Follows =
      Follows-extend one (header_bytes w.headers ++ descriptor_bytes w.descriptors) footer one-AtEnd
        (omega (arith, length-footer_bytes (footer_for w offset metadata))) three three-Follows
        three-position

  truncated : ftruncate disk four four.position ≡ (true, four)
  unfolding ftruncate
  truncated =
      let cut : padded four.position four.bytes ≡ four.bytes =
        padded-end four four.position four-Follows.at_end (omega arith)
        ∙ ap (λ n. four.bytes ++ zeros n) {x = four.position - four.position} {y = 0} (omega arith)
        ∙ append-nil four.bytes in
      rw (sound.truncates_all four.position, cut) refl

  cut_file :
      on_file (λ file. ftruncate disk file four.position) (record w { file = four })
      ≡ success tt (record w { file = four })
  cut_file =
      ap
        (λ r.
          let (ok, file) = r in
          if ok then success tt (record w { file = file }) else failure (record w { file = file }))
        truncated

  close_file-closed :
      (sync : Bool)
      → close_file disk sync (record w { file = four })
        ≡ success tt (record w { file = four; footer_written = true })
  close_file-closed sync =
      let mark = modify (λ (u : GroupWriter). record u { footer_written = true }) in
      let synced : (if sync then disk.syncs else true) ≡ true = elim (Bool-cases sync) [
        | inl e ↦ rw e sound.syncs_all
        | inr e ↦ rw e refl
      ] in
      then-success (on_file (λ file. ftruncate disk file four.position))
        (λ _. check (if sync then disk.syncs else true) >> mark) (record w { file = four })
        (record w { file = four }) tt cut_file
      ∙ ap (λ b. (check b >> mark) (record w { file = four })) synced

  pub write_tail-closed :
      (sync : Bool)
      → write_tail disk sync offset metadata w
        ≡ success tt (record w { file = four; footer_written = true })
  unfolding write_tail
  write_tail-closed sync =
      let last = write disk footer >> close_file disk sync in
      let later = write disk (descriptor_bytes w.descriptors) >> last in
      let next = write disk (header_bytes w.headers) >> later in
      then-success (write disk strings) (λ _. next) w (record w { file = one }) tt
        (write-extend disk sound w strings e (omega (arith, small)))
      ∙ then-success (write disk (header_bytes w.headers)) (λ _. later) (record w { file = one })
          (record w { file = two }) tt
          (write-extend disk sound (record w { file = one }) (header_bytes w.headers) one-AtEnd
            (omega (arith, one-position, small)))
      ∙ then-success (write disk (descriptor_bytes w.descriptors)) (λ _. last)
          (record w { file = two }) (record w { file = three }) tt
          (write-extend disk sound (record w { file = two }) (descriptor_bytes w.descriptors)
            two-Follows.at_end two-position)
      ∙ then-success (write disk footer) (λ _. close_file disk sync) (record w { file = three })
          (record w { file = four }) tt
          (write-extend disk sound (record w { file = three }) footer three-Follows.at_end
            three-position)
      ∙ close_file-closed sync

-- A writer that can be finished: it stands at the end of its file, and what it has fits the file.
pub record Ready (ss : List (List ℕ)) (w : GroupWriter) : Type 0 where
  pub at_end : AtEnd w.file
  pub aligned : w.file.position % 8 ≡ 0
  pub unfinished : w.footer_written ≡ false
  pub stocked : Stocked ss w
  pub headers_fit : All RowGroupHeaderFits w.headers
  pub descriptors_fit : All DescriptorFits w.descriptors
  pub few_headers : length w.headers < word32
  pub few_descriptors : length w.descriptors < word32
  pub rows : w.row_count < word_mod
  pub small :
      w.file.position
        + length (text (ss ++ extra w.metadata))
        + 16 * length w.headers
        + 24 * length w.descriptors
        + 200
      < word_mod

-- What the writer is when the header and the metadata are there.
pub record Closes (sys : System) (disk : Disk) (sync : Bool) (ss : List (List ℕ))
    (w v : GroupWriter) : Type 0 where
  pub stands : AtEnd v.file
  pub even : v.file.position % 8 ≡ 0
  pub near : v.file.position ≤ w.file.position + 16
  pub texts : HoldsText (ss ++ extra w.metadata) v.strings
  pub own : Writable v.strings
  pub same_headers : v.headers ≡ w.headers
  pub same_descriptors : v.descriptors ≡ w.descriptors
  pub same_rows : v.row_count ≡ w.row_count
  pub finishes :
      group_writer_finish sys disk sync w
      ≡ success tt (record v {
        file = closed v v.file.position (metadata_id w.metadata w.strings_count);
        footer_written = true;
      })

pub group_writer_finish-Closes :
    (sys : System) (grants : Grants sys) (disk : Disk) (sound : Sound disk) (sync : Bool)
    (ss : List (List ℕ)) (w : GroupWriter)
    → Ready ss w
    → (v : GroupWriter) × Closes sys disk sync ss w v
unfolding group_writer_finish
group_writer_finish-Closes sys grants disk sound sync ss w r =
    let (f, header, e, even, near) =
      ensure_header-AtEnd disk sound w r.at_end r.aligned (omega (arith, r.small)) in
    let headed = record w { file = f; header_written = true } in
    let stocked : Stocked ss headed = record {
      writable = r.stocked.writable;
      holds = r.stocked.holds;
      counted = r.stocked.counted;
      few = r.stocked.few;
      room = r.stocked.room;
      clean = r.stocked.clean;
    } in
    let (column, n, added, holds, own) =
      metadata-added sys grants headed ss w.metadata refl stocked in
    let v = record headed { strings = column; strings_count = n } in
    let id = metadata_id w.metadata w.strings_count in
    let tail =
      write_tail-closed disk sound v e even (omega (arith, own.full))
        (omega (arith, r.small, near, holds.tail)) f.position id sync in
    (
      v,
      record {
        stands = e;
        even = even;
        near = near;
        texts = holds;
        own = own;
        same_headers = refl;
        same_descriptors = refl;
        same_rows = refl;
        finishes =
            ap (λ b. (if b then pure tt else ensure_header disk >> finish_file sys disk sync) w)
              r.unfinished
            ∙ then-success (ensure_header disk) (λ _. finish_file sys disk sync) w headed tt header
            ∙ then-success (add_metadata sys)
                (λ m. on_failure (seek_back disk f.position) (write_tail disk sync f.position m))
                headed v id added
            ∙ on_failure-success (seek_back disk f.position) (write_tail disk sync f.position id) v
                (record v { file = closed v f.position id; footer_written = true }) tt tail;
      },
    )
