-- ===== src/File/Stream.antt =====
-- stdio and the file system as the writer uses them: a file is its bytes, a stream a position in it.
-- What the system may refuse is a parameter.
use columnix.Base.{
  ℕ, zero, suc, ◌+◌, ◌-◌, Bool, true, false, List, [], ◌∷◌, ◌++◌, ◌==◌, if◌then◌else◌, length, take,
  drop,
}

pub record Disk : Type 0 where
  -- fopen.
  pub opens : Bool
  -- How many bytes of an `fwrite` at an offset arrive, of so many.
  pub accepts : ℕ → ℕ → ℕ
  -- fseeko to an offset, ftruncate to a size, fsync.
  pub seeks : ℕ → Bool
  pub truncates : ℕ → Bool
  pub syncs : Bool

-- A disk that refuses nothing.
abbrev pub sound_disk : Disk
sound_disk = record {
  opens = true;
  accepts = λ _ size. size;
  seeks = λ _. true;
  truncates = λ _. true;
  syncs = true;
}

pub record Stream : Type 0 where
  pub bytes : List ℕ
  pub position : ℕ

abbrev pub zeros : ℕ → List ℕ
zeros zero = []
zeros (suc n) = 0 ∷ zeros n

-- A gap that a seek beyond the end has left is filled with zeros.
abbrev pub padded : ℕ → List ℕ → List ℕ
padded position bytes = take position bytes ++ zeros (position - length bytes)

-- `fwrite(block, size, 1, file) == 1`, and the stream after it.
unfoldable pub fwrite : Disk → Stream → List ℕ → Bool × Stream
fwrite disk stream block =
    let arrived = take (disk.accepts stream.position (length block)) block in
    (
      length arrived == length block,
      record {
        bytes =
            padded stream.position stream.bytes
            ++ arrived
            ++ drop (stream.position + length arrived) stream.bytes;
        position = stream.position + length arrived;
      },
    )

-- `fseeko(file, offset, SEEK_SET) == 0`
unfoldable pub fseeko : Disk → Stream → ℕ → Bool × Stream
fseeko disk stream offset =
    if disk.seeks offset then (true, record stream { position = offset }) else (false, stream)

-- `ftruncate(fd, size) == 0`
unfoldable pub ftruncate : Disk → Stream → ℕ → Bool × Stream
ftruncate disk stream size =
    if disk.truncates size
    then (true, record stream { bytes = padded size stream.bytes })
    else (false, stream)
