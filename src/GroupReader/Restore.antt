-- ===== src/GroupReader/Restore.antt =====
-- lib/reader.c and lib/row_group.c: a lazy column whose header a writer has made is loaded with the
-- buffer that the writer was given.
use columnix.Base.{
  ℕ, ◌<◌, ◌≡◌, refl, sym, ap, ◌∙◌, ◌⊎◌, inl, inr, Bool, true, false, not, ◌&&◌, List, length, ◌==◌,
  leb, if◌then◌else◌, take, take-le, Bool-cases, Outcome-cases, ℤ, Outcome, done, failed, aborted,
  ◌>>=◌, arith,
}
use mathlib.Core.Path.{subst}
use mathlib.Core.Option.{some}
use columnix.Common.{
  ColumnType, plain, CompressionType, uncompressed, lz4, lz4hc, zstd, compression_code,
}
use columnix.System.{System}
use columnix.Compress.{
  through_int, compress, compress_lz4, compress_lz4hc, compress_zstd, decompress,
}
use columnix.Compress.Roundtrip.{Inverts, decompress-compress}
use columnix.Column.{Column, new_size, new_mmapped, new_compressed, column_struct_size}
use columnix.Column.Grow.{Grants}
use columnix.Index.{Index}
use columnix.RowGroup.{load_lazy}
use columnix.File.{ColumnHeader}
use columnix.GroupReader.{GroupReader, bytes_at}
use columnix.GroupReader.Get.{lazy_of}
use columnix.GroupWriter.Put.{Stored, compress_column, compression_of}
use columnix.GroupWriter.Saved.{Saved}

-- The two ways in which a buffer is stored: as it is, or smaller.
pub record Smaller (sys : System) (code : ℕ) (level : ℤ) (buffer : List ℕ) (stored : Stored)
    : Type 0 where
  pub type : CompressionType
  pub named : compression_of code ≡ done type
  pub kept_code : stored.code ≡ code
  pub made : compress sys type level buffer ≡ done stored.block
  pub some_bytes : 0 < length buffer
  pub not_plain : (code == 0) ≡ false

abbrev pub AsItIs : List ℕ → Stored → Type 0
AsItIs buffer stored = (stored.code ≡ 0) × (stored.block ≡ buffer)

done-injective : {A : Type 0} (a b : A) → done a ≡ done b → a ≡ b
done-injective a b e = cc

module _ (sys : System) (code : ℕ) (level : ℤ) (buffer : List ℕ) (stored : Stored)
    (e : compress_column sys code level buffer ≡ done stored) where
  plainly :
      done (record { code = 0; block = buffer }) ≡ done stored
      → AsItIs buffer stored ⊎ Smaller sys code level buffer stored
  plainly f =
      let same : record { code = 0; block = buffer } ≡ stored =
        done-injective (record { code = 0; block = buffer }) stored f in
      inl (sym (ap (λ (s : Stored). s.code) same), sym (ap (λ (s : Stored). s.block) same))

  abbrev attempted : Outcome Stored
  attempted = compression_of code >>= λ type. compress sys type level buffer >>= λ smaller. done (
      if leb (length buffer) (length smaller)
      then record { code = 0; block = buffer }
      else record { code = code; block = smaller })

  abbrev choice : Bool → Bool → Outcome Stored
  choice a b = if not a && not b then attempted else done (record { code = 0; block = buffer })

  tried :
      (code == 0) ≡ false
      → (length buffer == 0) ≡ false
      → attempted ≡ done stored
      → AsItIs buffer stored ⊎ Smaller sys code level buffer stored
  tried z y f = elim (Outcome-cases (compression_of code)) [
    | inr (inl g) ↦ absurd (failed≢done (rw g at f))
    | inr (inr g) ↦ absurd (aborted≢done (rw g at f))
    | inl (type, g) ↦ elim (Outcome-cases (compress sys type level buffer)) [
      | inr (inl h) ↦ absurd (failed≢done (rw (g, h) at f))
      | inr (inr h) ↦ absurd (aborted≢done (rw (g, h) at f))
      | inl (smaller, h) ↦ elim (Bool-cases (leb (length buffer) (length smaller))) [
        | inl l ↦ plainly (rw (g, h, l) at f)
        | inr l ↦
            let same : record { code = code; block = smaller } ≡ stored =
              done-injective (record { code = code; block = smaller }) stored (rw (g, h, l) at f) in
            inr (record {
              type = type;
              named = g;
              kept_code = sym (ap (λ (s : Stored). s.code) same);
              made = h ∙ ap done (ap (λ (s : Stored). s.block) same);
              some_bytes = ground (arith, y);
              not_plain = z;
            })
      ]
    ]
  ]
    where
      failed≢done : {A : Type 0} {a : A} → failed ≡ done a → ⊥
      failed≢done e = cc

      aborted≢done : {A : Type 0} {a : A} → aborted ≡ done a → ⊥
      aborted≢done e = cc

  by_choice :
      (a b : Bool)
      → (code == 0) ≡ a
      → (length buffer == 0) ≡ b
      → choice a b ≡ done stored
      → AsItIs buffer stored ⊎ Smaller sys code level buffer stored
  by_choice true b z y f = plainly f
  by_choice false true z y f = plainly f
  by_choice false false z y f = tried z y f

  compress_column-cases : AsItIs buffer stored ⊎ Smaller sys code level buffer stored
  unfolding compress_column
  compress_column-cases = by_choice (code == 0) (length buffer == 0) refl refl e

-- A frame of Zstandard has bytes.
pub record Frames (sys : System) : Type 0 where
  pub frame :
      (src out : List ℕ) (room : ℕ) (level : ℤ)
      → sys.zstd_compress src room level ≡ some out
      → 0 < length out

compress-some :
    (sys : System) (type : CompressionType) (level : ℤ) (src out : List ℕ)
    → Frames sys
    → compress sys type level src ≡ done out
    → 0 < length out
unfolding compress compress_lz4 compress_lz4hc compress_zstd
compress-some sys uncompressed level src out f h = ground arith
compress-some sys lz4 level src out f h = ground arith
compress-some sys lz4hc level src out f h = ground arith
compress-some sys zstd level src out f h =
    ground (arith, f.frame src out (through_int (sys.zstd_bound (length src))) level)

not_uncompressed :
    (sys : System) (type : CompressionType) (level : ℤ) (src out : List ℕ)
    → compress sys type level src ≡ done out
    → (compression_code type == 0) ≡ false
unfolding compress
not_uncompressed sys uncompressed level src out h = cc
not_uncompressed sys lz4 level src out h = refl
not_uncompressed sys lz4hc level src out h = refl
not_uncompressed sys zstd level src out h = refl

-- The column that is loaded has the buffer of the one that was put.
pub record Restored (column result : Column) (type : ColumnType) (rows : ℕ) : Type 0 where
  pub same_buffer : result.buffer ≡ column.buffer
  pub same_offset : result.offset ≡ column.offset
  pub typed : result.type ≡ type
  pub counted : result.count ≡ rows

module _ (sys : System) (grants : Grants sys) (inverts : Inverts sys) (frames : Frames sys)
    (reader : GroupReader) (column : Column) (whole : length column.buffer ≡ column.offset)
    (index : Index) (code : ℕ) (level : ℤ) (h : ColumnHeader)
    (s : Saved sys column index code level reader.bytes h) (type : ColumnType) (rows : ℕ) where
  abbrev all : take column.offset column.buffer ≡ column.buffer
  all = take-le column.offset column.buffer (omega (arith, whole))

  abbrev Loads : CompressionType → Type 0
  Loads c =
      (result : Column) × (load_lazy sys (lazy_of reader type c h) rows ≡ done result)
      × Restored column result type rows

  plain-Loads : AsItIs (take column.offset column.buffer) s.stored → Loads uncompressed
  unfolding load_lazy new_mmapped new_size
  plain-Loads p =
      let same : bytes_at reader.bytes h.offset h.size ≡ column.buffer = s.block ∙ p.1 ∙ all in
      let size : h.size ≡ column.offset = omega (arith, s.size, ap length (p.1 ∙ all), whole) in
      (
        record {
          buffer = bytes_at reader.bytes h.offset h.size;
          count = rows;
          offset = h.size;
          size = h.size;
          type = type;
          encoding = plain;
          mmapped = true;
        },
        rw (grants column_struct_size) refl,
        record { same_buffer = same; same_offset = size; typed = refl; counted = refl },
      )

  smaller-Loads :
      (m : Smaller sys code level (take column.offset column.buffer) s.stored) → Loads m.type
  unfolding load_lazy new_compressed new_size
  smaller-Loads m =
      let src = take column.offset column.buffer in
      let coded : (compression_code m.type == 0) ≡ false =
        not_uncompressed sys m.type level src s.stored.block m.made in
      let some_bytes : (h.size == 0) ≡ false =
        ground (arith, s.size, compress-some sys m.type level src s.stored.block frames m.made) in
      let size : h.decompressed_size ≡ length src = omega (arith, s.whole, ap length all, whole) in
      let some_room : (h.decompressed_size == 0) ≡ false = ground (arith, size, m.some_bytes) in
      let back : decompress sys m.type (bytes_at reader.bytes h.offset h.size) h.decompressed_size
          ≡ done column.buffer =
        rw (s.block, size)
          (decompress-compress sys inverts m.type level src s.stored.block m.some_bytes m.made
            ∙ ap done all) in
      (
        record {
          buffer = column.buffer;
          count = rows;
          offset = h.decompressed_size;
          size = h.decompressed_size;
          type = type;
          encoding = plain;
          mmapped = false;
        },
        rw
            (
              coded,
              some_bytes,
              some_room,
              grants column_struct_size,
              grants h.decompressed_size,
              back,
            )
            refl,
        record { same_buffer = refl; same_offset = s.whole; typed = refl; counted = refl },
      )

  -- Where no memory is refused, LZ4 and Zstandard invert themselves and a Zstandard frame has
  -- bytes: a lazy column whose header a writer has saved in the file of the reader, compressed or
  -- not, is loaded without an error, with the buffer, of the length, that the writer was given,
  -- the type that is asked for and the count of its rows.
  pub load_lazy-Restored : (c : CompressionType) → compression_of h.compression ≡ done c → Loads c
  load_lazy-Restored c e =
      elim (compress_column-cases sys code level (take column.offset column.buffer) s.stored
        s.compressed) [
          | inl p ↦
              let zero_code : compression_of h.compression ≡ done uncompressed =
                ap compression_of (s.code_of ∙ p.0) in
              subst Loads (done-injective uncompressed c (sym zero_code ∙ e)) (plain-Loads p)
          | inr m ↦
              let named : compression_of h.compression ≡ done m.type =
                ap compression_of (s.code_of ∙ m.kept_code) ∙ m.named in
              subst Loads (done-injective m.type c (sym named ∙ e)) (smaller-Loads m)
        ]
