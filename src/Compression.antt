-- ===== src/Compression.antt =====
-- `Compression` of rawobjstr/src/lib.rs. The codecs of the crates zstd, snap and flate2 are the
-- parameter `Codecs`; a codec that fails answers `none`.
pub mod RoundTrip
use Prim.Native.String.{String}
use objstr.Base.{
  ℕ, ◌≡◌, ◌<◌, refl, ap, Bool, true, false, Option, some, if◌then◌else◌, List, [], ◌∷◌, length,
  arith, ◌==◌, leb, ltb, ◌&&◌, not,
}
use objstr.RawError.{Bytes, Result, ok, err, io}

pub data Compression : Type 0 where
  none zstd snappy gzip0 gzip1 gzip2 gzip3 gzip4 gzip5 gzip6 gzip7 gzip8 gzip9 : Compression

-- `self as u8`
unfoldable pub to_u8 : Compression → ℕ
to_u8 Compression.none = 0
to_u8 zstd = 1
to_u8 snappy = 2
to_u8 gzip0 = 3
to_u8 gzip1 = 4
to_u8 gzip2 = 5
to_u8 gzip3 = 6
to_u8 gzip4 = 7
to_u8 gzip5 = 8
to_u8 gzip6 = 9
to_u8 gzip7 = 10
to_u8 gzip8 = 11
to_u8 gzip9 = 12

unfoldable pub from_u8 : ℕ → Result Compression
from_u8 v =
    if v == 0
    then ok Compression.none
    else if v == 1
    then ok zstd
    else if v == 2
    then ok snappy
    else if v == 3
    then ok gzip0
    else if v == 4
    then ok gzip1
    else if v == 5
    then ok gzip2
    else if v == 6
    then ok gzip3
    else if v == 7
    then ok gzip4
    else if v == 8
    then ok gzip5
    else if v == 9
    then ok gzip6
    else if v == 10
    then ok gzip7
    else if v == 11
    then ok gzip8
    else if v == 12
    then ok gzip9
    else err (io "unknown compression algorithm")

pub record Codecs : Type 0 where
  pub zstd_bulk : Bytes → Option Bytes
  pub snappy_vec : Bytes → Option Bytes
  pub gzip_level : ℕ → Bytes → Option Bytes
  pub zstd_read : Bytes → Option Bytes
  pub snappy_read : Bytes → Option Bytes
  pub gzip_read : Bytes → Option Bytes

-- What a codec gives, or the data where it fails.
unfoldable pub or_data : Option Bytes → Bytes → Bytes
or_data (some c) bytes = c
or_data Option.none bytes = bytes

unfoldable pub or_error : Option Bytes → String → Result Bytes
or_error (some c) e = ok c
or_error Option.none e = err (io e)

module _ (x : Codecs) where
  unfoldable pub compress : Compression → Bytes → Option Bytes
  unfolding or_data
  compress Compression.none bytes = Option.none
  compress zstd bytes = some (or_data (x.zstd_bulk bytes) bytes)
  compress snappy bytes = some (or_data (x.snappy_vec bytes) bytes)
  compress gzip0 bytes = some (or_data (x.gzip_level 0 bytes) bytes)
  compress gzip1 bytes = some (or_data (x.gzip_level 1 bytes) bytes)
  compress gzip2 bytes = some (or_data (x.gzip_level 2 bytes) bytes)
  compress gzip3 bytes = some (or_data (x.gzip_level 3 bytes) bytes)
  compress gzip4 bytes = some (or_data (x.gzip_level 4 bytes) bytes)
  compress gzip5 bytes = some (or_data (x.gzip_level 5 bytes) bytes)
  compress gzip6 bytes = some (or_data (x.gzip_level 6 bytes) bytes)
  compress gzip7 bytes = some (or_data (x.gzip_level 7 bytes) bytes)
  compress gzip8 bytes = some (or_data (x.gzip_level 8 bytes) bytes)
  compress gzip9 bytes = some (or_data (x.gzip_level 9 bytes) bytes)

  unfoldable pub decompress : Compression → Bytes → Result Bytes
  unfolding or_error
  decompress Compression.none bytes = ok bytes
  decompress zstd bytes = or_error (x.zstd_read bytes) "zstd decompress failed"
  decompress snappy bytes = or_error (x.snappy_read bytes) "snappy decompress failed"
  decompress _ bytes = or_error (x.gzip_read bytes) "gzip decompress failed"
