-- ===== src/Compress.antt =====
-- lib/compress.c: the calls of LZ4 and Zstandard. A block of memory is the list of its bytes; the
-- size that C hands about beside it is the list's length.
pub mod Roundtrip
use columnix.Base.{
  ◌%◌, ◌+◌, if◌then◌else◌, ℕ, Bool, true, false, not, ◌&&◌, List, ℤ, Option, none, some, ltb, ◌==◌,
  length, if◌then◌else◌, Outcome, done, failed, ◌>>=◌, ◌>>◌, require,
}
use columnix.Common.{CompressionType, uncompressed, lz4, lz4hc, zstd}
use columnix.System.{System}

-- INT_MAX
abbrev pub int_max : ℕ
int_max = 2147483647

unfoldable pub compress_lz4 : System → ℤ → List ℕ → Outcome (List ℕ)
compress_lz4 sys level src = do
  require (not (ltb int_max (length src)))
  require (not (sys.lz4_bound (length src) == 0))
  require (sys.grants (sys.lz4_bound (length src)))
  let result = sys.lz4_fast level src (sys.lz4_bound (length src))
  require (not (length result == 0))
  done result

unfoldable pub compress_lz4hc : System → ℤ → List ℕ → Outcome (List ℕ)
compress_lz4hc sys level src = do
  require (not (ltb int_max (length src)))
  require (not (sys.lz4_bound (length src) == 0))
  require (sys.grants (sys.lz4_bound (length src)))
  let result = sys.lz4_hc level src (sys.lz4_bound (length src))
  require (not (length result == 0))
  done result

abbrev pub from_option : Option (List ℕ) → Outcome (List ℕ)
from_option none = failed
from_option (some bytes) = done bytes

-- A `size_t` that was cut to an `int` on the way: a negative one comes back as a large number.
abbrev pub through_int : ℕ → ℕ
through_int n =
    let low = n % 4294967296 in if ltb int_max low then low + 18446744069414584320 else low

unfoldable pub compress_zstd : System → ℤ → List ℕ → Outcome (List ℕ)
compress_zstd sys level src = do
  let max_size = through_int (sys.zstd_bound (length src))
  require (not (max_size == 0))
  require (sys.grants max_size)
  from_option (sys.zstd_compress src max_size level)

unfoldable pub decompress_lz4 : System → List ℕ → ℕ → Outcome (List ℕ)
decompress_lz4 sys src dest_size = do
  dest ← from_option (sys.lz4_decompress src dest_size)
  require (not (length dest == 0) && length dest == dest_size)
  done dest

unfoldable pub decompress_zstd : System → List ℕ → ℕ → Outcome (List ℕ)
decompress_zstd sys src dest_size = do
  dest ← from_option (sys.zstd_decompress src dest_size)
  require (length dest == dest_size)
  done dest

unfoldable pub compress : System → CompressionType → ℤ → List ℕ → Outcome (List ℕ)
unfolding compress_lz4 compress_lz4hc compress_zstd
compress sys uncompressed level src = failed
compress sys lz4 level src = compress_lz4 sys level src
compress sys lz4hc level src = compress_lz4hc sys level src
compress sys zstd level src = compress_zstd sys level src

unfoldable pub decompress : System → CompressionType → List ℕ → ℕ → Outcome (List ℕ)
unfolding decompress_lz4 decompress_zstd
decompress sys uncompressed src dest_size = failed
decompress sys lz4 src dest_size = decompress_lz4 sys src dest_size
decompress sys lz4hc src dest_size = decompress_lz4 sys src dest_size
decompress sys zstd src dest_size = decompress_zstd sys src dest_size
