-- ===== src/System.antt =====
-- What the library asks of code outside the repository: malloc, calloc and realloc, madvise, and
-- the compression libraries LZ4 and Zstandard. A program runs against one such system.
use columnix.Base.{ℕ, Bool, true, List, ℤ, Option, some}

pub record System : Type 0 where
  -- Whether a block of so many bytes is granted.
  pub grants : ℕ → Bool
  -- Whether `madvise` accepts its arguments.
  pub advises : Bool
  -- LZ4_compressBound and ZSTD_compressBound; 0 is a refusal.
  pub lz4_bound : ℕ → ℕ
  pub zstd_bound : ℕ → ℕ
  -- LZ4_compress_fast and LZ4_compress_HC, of a level, the source and the room: no bytes on failure.
  pub lz4_fast : ℤ → List ℕ → ℕ → List ℕ
  pub lz4_hc : ℤ → List ℕ → ℕ → List ℕ
  -- ZSTD_compress, of the source, the room and a level: `none` where ZSTD_isError.
  pub zstd_compress : List ℕ → ℕ → ℤ → Option (List ℕ)
  -- LZ4_decompress_safe and ZSTD_decompress, of the source and the room: `none` on an error.
  pub lz4_decompress : List ℕ → ℕ → Option (List ℕ)
  pub zstd_decompress : List ℕ → ℕ → Option (List ℕ)

-- A system that never refuses, whose compressors store the bytes as they are.
abbrev pub generous : System
generous = record {
  grants = λ _. true;
  advises = true;
  lz4_bound = λ n. n;
  zstd_bound = λ n. n;
  lz4_fast = λ _ src _. src;
  lz4_hc = λ _ src _. src;
  zstd_compress = λ src _ _. some src;
  lz4_decompress = λ src _. some src;
  zstd_decompress = λ src _. some src;
}
