-- ===== src/GroupWriter/Whole.antt =====
-- lib/writer.c: the whole of `cx_row_group_writer_put`: what a success has added, and what an error
-- leaves.
use columnix.Base.{
  ℕ, ◌*◌, ◌%◌, ◌≤◌, ◌≡◌, refl, sym, ap, ◌∙◌, inl, inr, Bool, true, false, not, ◌&&◌, [], ◌∷◌,
  length, length-append, ◌==◌, ltb, word_mod, take, take-le, Bool-cases, Outcome, done, failed,
  aborted, if◌then◌else◌, arith,
}
use mathlib.Core.Bool.{false≢true}
use mathlib.Core.Path.{subst}
use columnix.Attempt.{
  Attempt, success, failure, Call, pure, ◌>>=◌, ◌>>◌, modify, check, lift, on_failure, Ends,
  Ends-bind, Ends-weaken, Ends-on_failure, Ends-success, Ends-failure,
}
use columnix.System.{System}
use columnix.RowGroup.{RowGroup, count}
use columnix.File.Stream.{Disk, Stream, fseeko}
use columnix.File.{header_widths, file_magic, file_version}
use columnix.File.Struct.{pack}
use columnix.GroupWriter.{GroupWriter, write, write_header, seek_back, ensure_header}
use columnix.GroupWriter.Put.{
  types_match, ensure_headers, put_row_group, put_checked, group_writer_put,
}
use columnix.GroupWriter.Written.{
  Limits, kept, length-kept, Within, Extends, Extends-refl, Spoilt, take-take, take-append_left,
  WroteBlock, Wrote-Extends, write-Ends,
}
use columnix.GroupWriter.Groups.{Undone, Added, put_row_group-Ends}

-- What an error of the whole call leaves: the members that are listed are as they were, the stream
-- is back where it was if the disk can seek, and the bytes before it are there. The row group
-- headers are not listed: one may have been added.
pub record Refused (disk : Disk) (w v : GroupWriter) : Type 0 where
  pub same_descriptors : v.descriptors ≡ w.descriptors
  pub same_strings : v.strings ≡ w.strings
  pub same_metadata : v.metadata ≡ w.metadata
  pub same_rows : v.row_count ≡ w.row_count
  pub still_open : v.footer_written ≡ w.footer_written
  pub intact : take w.file.position v.file.bytes ≡ kept w.file
  pub back : disk.seeks w.file.position ≡ true → v.file.position ≡ w.file.position

-- The bytes before the position are those that were there.
intact-Extends : (f g : Stream) → Within f → Extends f g → take f.position g.bytes ≡ kept f
intact-Extends f g q e =
    let longer : f.position ≤ g.position = omega (
      arith,
      ap length e.stored,
      length-append (kept f) e.more,
      length-kept f q,
      length-kept g e.within,
    ) in
    let mine = length-kept f q in
    sym (take-take f.position g.position g.bytes longer)
    ∙ ap (take f.position) e.stored
    ∙ take-append_left f.position (kept f) e.more (omega (arith, mine))
    ∙ take-le f.position (kept f) (omega (arith, mine))

-- The header of the file is there, and room for one more row group header.
pub record Started (w begun : GroupWriter) : Type 0 where
  pub extends : Extends w.file begun.file
  pub rest :
      begun
      ≡ record w { file = begun.file; headers_size = begun.headers_size; header_written = true }

module _ (disk : Disk) (w : GroupWriter) (q : Within w.file) where
  unchanged : (n : ℕ) → Refused disk w (record w { headers_size = n })
  unchanged n = record {
    same_descriptors = refl;
    same_strings = refl;
    same_metadata = refl;
    same_rows = refl;
    still_open = refl;
    intact = refl;
    back = λ s. refl;
  }

  sought_bytes : (f : Stream) (p : ℕ) → (fseeko disk f p).1.bytes ≡ f.bytes
  unfolding fseeko
  sought_bytes f p = elim (Bool-cases (disk.seeks p)) [
    | inl e ↦ rw (fseeko, e) refl
    | inr e ↦ rw (fseeko, e) refl
  ]

  sought_position : (f : Stream) (p : ℕ) → disk.seeks p ≡ true → (fseeko disk f p).1.position ≡ p
  unfolding fseeko
  sought_position f p e = rw (fseeko, e) refl

  Refused-back :
      (n : ℕ) (v : GroupWriter)
      → Undone (record w { headers_size = n }) v
      → Refused disk w (seek_back disk w.file.position v)
  Refused-back n v u = record {
    same_descriptors = ap (λ (x : GroupWriter). x.descriptors) u.0;
    same_strings = ap (λ (x : GroupWriter). x.strings) u.0;
    same_metadata = ap (λ (x : GroupWriter). x.metadata) u.0;
    same_rows = ap (λ (x : GroupWriter). x.row_count) u.0;
    still_open = ap (λ (x : GroupWriter). x.footer_written) u.0;
    intact =
        ap (take w.file.position) (sought_bytes v.file w.file.position)
        ∙ intact-Extends w.file v.file q u.1;
    back = sought_position v.file w.file.position;
  }

  abbrev WithRoom : ℕ → GroupWriter → Type 0
  WithRoom n v = v ≡ record w { headers_size = n }

  ensure_headers-Ends :
      (sys : System) → Ends (λ _ v. (n : ℕ) × WithRoom n v) (λ v. v ≡ w) (ensure_headers sys w)
  unfolding ensure_headers
  ensure_headers-Ends sys =
      let new_size = w.headers_size * 2 % word_mod in
      elim (Bool-cases (length w.headers == 0)) [
        | inl z ↦ elim (Bool-cases (sys.grants (16 * 16))) [
          | inl g ↦ rw (ensure_headers, z, g) (16, refl)
          | inr g ↦ rw (ensure_headers, z, g) refl
        ]
        | inr z ↦ elim (Bool-cases (length w.headers == w.headers_size)) [
          | inr f ↦ rw (ensure_headers, z, f) (w.headers_size, refl)
          | inl f ↦ elim (Bool-cases (not (new_size == 0) && ltb w.headers_size new_size)) [
            | inr a ↦ rw (ensure_headers, z, f, a) tt
            | inl a ↦ elim (Bool-cases (sys.grants (new_size * 16))) [
              | inl g ↦ rw (ensure_headers, z, f, a, g) (new_size, refl)
              | inr g ↦ rw (ensure_headers, z, f, a, g) refl
            ]
          ]
        ]
      ]

module _ (sys : System) (disk : Disk) (limits : Limits disk) (row_group : RowGroup) where
  -- What a success comes to, and an error when the header of the file was there before.
  abbrev pub Put : GroupWriter → GroupWriter → Type 0
  Put w v = (begun : GroupWriter) × Started w begun × Added sys row_group begun v

  abbrev pub Fails : GroupWriter → GroupWriter → Type 0
  Fails w v = w.header_written ≡ true → Refused disk w v

  -- The row group itself, from a writer that has begun.
  abbrev group : Call GroupWriter (Unit {0})
  group v = on_failure (seek_back disk v.file.position) (put_row_group sys disk row_group) v

  module _ (w : GroupWriter) (q : Within w.file) (some : 1 ≤ length w.descriptors) (n : ℕ) where
    abbrev roomy : GroupWriter
    roomy = record w { headers_size = n }

    -- The header was there.
    there-Ends : w.header_written ≡ true → Ends (λ _ v. Put w v) (Fails w) (group roomy)
    there-Ends h =
        let started : Started w roomy = record {
          extends = Extends-refl w.file q;
          rest = ap (λ b. record w { headers_size = n; header_written = b }) h;
        } in
        Ends-weaken (λ _ v. Added sys row_group roomy v) (λ _ v. Put w v) (Refused disk w) (Fails w)
          (group roomy)
          (Ends-on_failure (λ _ v. Added sys row_group roomy v) (Undone roomy) (Refused disk w)
            (seek_back disk w.file.position) (put_row_group sys disk row_group) roomy
            (put_row_group-Ends sys disk limits row_group roomy q some) (Refused-back disk w q n))
          (λ _ v a. (roomy, started, a)) (λ v r _. r)

    -- The header has just been written.
    fresh-Ends :
        w.header_written ≡ false
        → (v : GroupWriter) → Started w v
        → v.descriptors ≡ w.descriptors
        → Ends (λ _ v. Put w v) (Fails w) (group v)
    fresh-Ends h v s d =
        Ends-weaken (λ _ u. Added sys row_group v u) (λ _ v. Put w v) (λ _. Unit) (Fails w)
          (group v)
          (Ends-on_failure (λ _ u. Added sys row_group v u) (Undone v) (λ _. Unit)
            (seek_back disk v.file.position) (put_row_group sys disk row_group) v
            (put_row_group-Ends sys disk limits row_group v s.extends.within
              (omega (arith, ap length d, some)))
            (λ _ _. tt))
          (λ _ u a. (v, s, a)) (λ u _ e. absurd (false≢true (sym h ∙ e)))

    abbrev Ready : GroupWriter → Type 0
    Ready v = Ends (λ _ u. Put w u) (Fails w) (group v)

    write_header-Ends :
        w.header_written ≡ false → Ends (λ _ v. Ready v) (Fails w) (write_header disk roomy)
    write_header-Ends h =
        let block = pack header_widths (file_magic ∷ file_version ∷ 0 ∷ []) in
        let back = λ (v : GroupWriter). record v { file = record v.file { position = 0 } } in
        Ends-bind (λ _ v. WroteBlock roomy block v) (Fails w) (λ _ v. Ready v)
          (λ _. modify (λ (v : GroupWriter). record v { header_written = true }))
          (on_failure back (write disk block) roomy)
          (Ends-on_failure (λ _ v. WroteBlock roomy block v) (Spoilt roomy) (Fails w) back
            (write disk block) roomy (write-Ends disk limits roomy q block)
            (λ t _ e. absurd (false≢true (sym h ∙ e))))
          (λ _ v o.
            fresh-Ends h (record v { header_written = true })
              (record {
                extends = Wrote-Extends w.file v.file block o.1;
                rest =
                    ap (λ (x : GroupWriter). record x { header_written = true }) o.0
                    ∙ ap (λ k. record w { file = v.file; headers_size = k; header_written = true })
                        (sym (ap (λ (x : GroupWriter). x.headers_size) o.0));
              })
              (ap (λ (x : GroupWriter). x.descriptors) o.0))

    ensure_header-Ends : Ends (λ _ v. Ready v) (Fails w) (ensure_header disk roomy)
    unfolding ensure_header
    ensure_header-Ends = elim (Bool-cases w.header_written) [
      | inl h ↦
          subst (Ends (λ _ v. Ready v) (Fails w))
            (sym (ap (λ b. (if b then pure tt else write_header disk) roomy) h)) (there-Ends h)
      | inr h ↦
          subst (Ends (λ _ v. Ready v) (Fails w))
            (sym (ap (λ b. (if b then pure tt else write_header disk) roomy) h))
            (write_header-Ends h)
    ]

    header-Ends : Ends (λ _ v. Put w v) (Fails w) ((ensure_header disk >> group) roomy)
    header-Ends =
        Ends-bind (λ _ v. Ready v) (Fails w) (λ _ v. Put w v) (λ _. group)
          (ensure_header disk roomy) ensure_header-Ends (λ _ v r. r)

  put_checked-Ends :
      (w : GroupWriter)
      → Within w.file
      → 1 ≤ length w.descriptors
      → Ends (λ _ v. Put w v) (Fails w) (put_checked sys disk row_group w)
  put_checked-Ends w q some =
      let begin = ensure_header disk >> group in
      Ends-bind (λ _ v. (n : ℕ) × WithRoom disk w q n v) (Fails w) (λ _ v. Put w v) (λ _. begin)
        (ensure_headers sys w)
        (Ends-weaken (λ _ v. (n : ℕ) × WithRoom disk w q n v)
          (λ _ v. (n : ℕ) × WithRoom disk w q n v) (λ v. v ≡ w) (Fails w) (ensure_headers sys w)
          (ensure_headers-Ends disk w q sys) (λ _ v g. g)
          (λ v e _. subst (Refused disk w) (sym e) (unchanged disk w q w.headers_size)))
        (λ _ v g.
          subst (λ u. Ends (λ _ v. Put w v) (Fails w) (begin u)) (sym g.1)
            (header-Ends w q some g.0))

  module _ (w : GroupWriter) (q : Within w.file) (some : (count row_group == 0) ≡ false) where
    abbrev Result : Attempt GroupWriter (Unit {0}) → Type 0
    Result = Ends (λ _ v. Put w v) (Fails w)

    no_change : Fails w w
    no_change _ = subst (Refused disk w) refl (unchanged disk w q w.headers_size)

    abbrev typed : Outcome Bool → Call GroupWriter (Unit {0})
    typed o = lift o >>= λ same. check same >> put_checked sys disk row_group

    typed-Ends : 1 ≤ length w.descriptors → (o : Outcome Bool) → Result (typed o w)
    typed-Ends h (done true) = put_checked-Ends w q h
    typed-Ends h (done false) = no_change
    typed-Ends h failed = no_change
    typed-Ends h aborted = tt

    abbrev counted : Bool → Bool → Call GroupWriter (Unit {0})
    counted b z = check b >> (if z then pure tt else typed (types_match row_group 0 w.descriptors))

    counted-Ends :
        (b : Bool) → (count row_group == length w.descriptors) ≡ b → Result (counted b false w)
    counted-Ends true e =
        typed-Ends (ground (arith, e, some)) (types_match row_group 0 w.descriptors)
    counted-Ends false e = no_change

    whole-Ends :
        (b : Bool)
        → Result (
            (check (not b)
                >> counted (count row_group == length w.descriptors) (count row_group == 0))
              w)
    whole-Ends true = no_change
    whole-Ends false =
        subst (λ z. Result (counted (count row_group == length w.descriptors) z w)) (sym some)
          (counted-Ends (count row_group == length w.descriptors) refl)

    group_writer_put-Ends : Result (group_writer_put sys disk row_group w)
    unfolding group_writer_put
    group_writer_put-Ends = whole-Ends w.footer_written

  -- On any disk that stays below the largest file offset: when cx_row_group_writer_put returns
  -- false for a row group with columns and the file header was there, at whatever step it failed,
  -- the descriptors, the strings, the metadata, the row count and the flag of the footer are as
  -- they were, the bytes before the position are intact, and the position is back, if the disk can
  -- seek there.
  pub group_writer_put-Refused :
      (w v : GroupWriter)
      → Within w.file
      → w.header_written ≡ true
      → (count row_group == 0) ≡ false
      → group_writer_put sys disk row_group w ≡ failure v
      → Refused disk w v
  group_writer_put-Refused w v q h some e =
      Ends-failure (λ _ u. Put w u) (Fails w) (group_writer_put sys disk row_group w) v e
        (group_writer_put-Ends w q some) h

  -- On any disk that stays below the largest file offset: when cx_row_group_writer_put returns
  -- true for a row group with columns, the bytes before the position of the stream are still
  -- there, each column and its null bits are in the file, stored as its column header says, and
  -- the column headers stand where the offset and the size of the one new row group header lead
  -- to, at a multiple of 8. The count of the rows has grown by those of the row group, the flag of
  -- the file header is set, and nothing else of the writer changes but the room for headers.
  pub group_writer_put-Put :
      (w v : GroupWriter)
      → Within w.file
      → (count row_group == 0) ≡ false
      → group_writer_put sys disk row_group w ≡ success tt v
      → Put w v
  group_writer_put-Put w v q some e =
      Ends-success (λ _ u. Put w u) (Fails w) (group_writer_put sys disk row_group w) tt v e
        (group_writer_put-Ends w q some)
