-- ===== src/Compress/Roundtrip.antt =====
-- What was compressed is read back, given that the two libraries invert themselves.
use columnix.Base.{ℕ, ◌<◌, ◌≡◌, List, ℤ, some, length, done, arith}
use columnix.Common.{CompressionType, uncompressed, lz4, lz4hc, zstd}
use columnix.System.{System}
use columnix.Compress.{through_int, compress, decompress}

-- What the manuals of LZ4 and Zstandard promise: decompressing the output of a compression, with
-- room for just the source, gives the source.
pub record Inverts (sys : System) : Type 0 where
  pub fast :
      (level : ℤ) (src : List ℕ) (room : ℕ)
      → 0 < length (sys.lz4_fast level src room)
      → sys.lz4_decompress (sys.lz4_fast level src room) (length src) ≡ some src
  pub hc :
      (level : ℤ) (src : List ℕ) (room : ℕ)
      → 0 < length (sys.lz4_hc level src room)
      → sys.lz4_decompress (sys.lz4_hc level src room) (length src) ≡ some src
  pub zstd :
      (level : ℤ) (src out : List ℕ) (room : ℕ)
      → sys.zstd_compress src room level ≡ some out
      → sys.zstd_decompress out (length src) ≡ some src

-- If a non-empty source compresses, under any of the three compressors, then cx_decompress with
-- the same type and the size of the source succeeds and gives the source, where LZ4 and Zstandard
-- invert themselves.
pub decompress-compress :
    (sys : System)
    → Inverts sys
    → (type : CompressionType) (level : ℤ) (src out : List ℕ) → 0 < length src
    → compress sys type level src ≡ done out
    → decompress sys type out (length src) ≡ done src
unfolding compress decompress
decompress-compress sys inv uncompressed level src out pos h = ground arith
decompress-compress sys inv lz4 level src out pos h =
    ground (arith, inv.fast level src (sys.lz4_bound (length src)))
decompress-compress sys inv lz4hc level src out pos h =
    ground (arith, inv.hc level src (sys.lz4_bound (length src)))
decompress-compress sys inv zstd level src out pos h =
    ground (arith, inv.zstd level src out (through_int (sys.zstd_bound (length src))))
