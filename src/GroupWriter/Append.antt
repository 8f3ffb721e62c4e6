-- ===== src/GroupWriter/Append.antt =====
-- lib/writer.c: what `cx_row_group_writer_write` does to a file that it stands at the end of, on a
-- disk that refuses nothing: the block goes behind the bytes, at the next multiple of 8.
use columnix.Base.{
  ℕ, zero, suc, ◌+◌, ◌-◌, ◌%◌, ◌≤◌, ◌<◌, ◌≡◌, refl, ap, ◌∙◌, inl, inr, true, false, List, [], ◌++◌,
  ◌==◌, if◌then◌else◌, word_mod, length, take, drop, take-le, drop-le, Bool-cases, arith,
}
use mathlib.Core.List.{append-nil}
use columnix.Attempt.{success}
use columnix.File.Stream.{Disk, Stream, zeros, padded, fwrite, fseeko}
use columnix.GroupWriter.{GroupWriter, align, seek, write, on_file}

-- For an offset of at most 2^64 - 8, cx_write_align gives the first multiple of 8 that is not less
-- than the offset.
pub align-IsNext :
    (offset : ℕ)
    → offset + 8 ≤ word_mod
    → (align offset % 8 ≡ 0) × (offset ≤ align offset) × (align offset < offset + 8)
unfolding align
align-IsNext offset h = elim (Bool-cases (offset % 8 == 0)) [
  | inl e ↦ rw e (ground (arith, e), omega arith, omega arith)
  | inr e ↦ let r = not_aligned e in rw e (omega arith, omega arith, omega arith)
]
  where
    not_aligned : (offset % 8 == 0) ≡ false → 0 < offset % 8
    not_aligned e = ground (arith, e)

pub align-multiple : (offset : ℕ) → offset % 8 ≡ 0 → align offset ≡ offset
unfolding align
align-multiple offset h = let e : (offset % 8 == 0) ≡ true = ground arith in rw e refl

-- A disk that refuses nothing.
pub record Sound (disk : Disk) : Type 0 where
  pub accepts_all : (p n : ℕ) → disk.accepts p n ≡ n
  pub seeks_all : (p : ℕ) → disk.seeks p ≡ true
  pub truncates_all : (p : ℕ) → disk.truncates p ≡ true
  pub syncs_all : disk.syncs ≡ true

-- The stream stands at the end of its file.
abbrev pub AtEnd : Stream → Type 0
AtEnd f = f.position ≡ length f.bytes

abbrev pub gap : ℕ → ℕ
gap p = align p - p

abbrev pub with_block : Stream → List ℕ → Stream
with_block f block = record {
  bytes = f.bytes ++ zeros (gap f.position) ++ block;
  position = align f.position + length block;
}

abbrev pub extend : Stream → List ℕ → Stream
extend f block = if length block == 0 then f else with_block f block

pub length-zeros : (n : ℕ) → length (zeros n) ≡ n
length-zeros zero = refl
length-zeros (suc n) = ap suc (length-zeros n)

pub padded-end :
    (f : Stream) (p : ℕ)
    → AtEnd f
    → f.position ≤ p
    → padded p f.bytes ≡ f.bytes ++ zeros (p - f.position)
padded-end f p e h = rw (take-le p f.bytes (omega (arith, e)), e) refl

module _ (disk : Disk) (sound : Sound disk) where
  -- A write behind the end.
  fwrite-end :
      (f : Stream) (p : ℕ) (block : List ℕ)
      → AtEnd f
      → f.position ≤ p
      → fwrite disk (record f { position = p }) block ≡ (
        true,
        record { bytes = f.bytes ++ zeros (p - f.position) ++ block; position = p + length block },
      )
  unfolding fwrite
  fwrite-end f p block e h =
      let whole : take (length block) block ≡ block = take-le (length block) block (omega arith) in
      let all : (length block == length block) ≡ true = ground arith in
      let none_behind : drop (p + length block) f.bytes ≡ [] =
        drop-le (p + length block) f.bytes (omega (arith, e)) in
      rw (sound.accepts_all p (length block), whole, all, none_behind, padded-end f p e h)
        (ap (λ bs. (true, record { bytes = bs; position = p + length block }))
          (append-nil (f.bytes ++ zeros (p - f.position) ++ block)))

  -- The write, once the stream stands where the block goes.
  on_file-block :
      (w : GroupWriter) (p : ℕ) (block : List ℕ)
      → AtEnd w.file
      → w.file.position ≤ p
      → on_file
          (λ file. fwrite disk file block)
          (record w { file = record w.file { position = p } })
        ≡ success tt (record w {
          file = record {
            bytes = w.file.bytes ++ zeros (p - w.file.position) ++ block;
            position = p + length block;
          };
        })
  on_file-block w p block e h = rw (fwrite-end w.file p block e h) refl

  pub write-extend :
      (w : GroupWriter) (block : List ℕ)
      → AtEnd w.file
      → w.file.position + 8 ≤ word_mod
      → write disk block w ≡ success tt (record w { file = extend w.file block })
  unfolding write seek fseeko
  write-extend w block e h =
      let next = align-IsNext w.file.position h in
      let put = on_file-block w (align w.file.position) block e next.1 in
      elim (Bool-cases (length block == 0)) [
        | inl z ↦ rw z refl
        | inr z ↦ elim (Bool-cases (w.file.position == align w.file.position)) [
          | inl a ↦
              let same : w.file.position ≡ align w.file.position = ground (arith, a) in
              rw (z, a)
                (ap
                    (λ p.
                      on_file (λ file. fwrite disk file block)
                        (record w { file = record w.file { position = p } }))
                    same
                  ∙ put)
          | inr a ↦ rw (z, a, sound.seeks_all (align w.file.position)) put
        ]
      ]
