-- ===== src/Compression/RoundTrip.antt =====
-- Compression and decompression of rawobjstr/src/lib.rs undo each other, for codecs that do.
use Prim.Native.String.{String}
use objstr.Base.{ℕ, ◌∙◌, ◌<◌, ◌≡◌, refl, ap, Option, some, none, length, arith}
use objstr.RawError.{Bytes, ok}
use objstr.Compression.{
  Compression, zstd, snappy, gzip0, gzip1, gzip2, gzip3, gzip4, gzip5, gzip6, gzip7, gzip8, gzip9,
  Codecs, or_data, or_error, compress, decompress, to_u8, from_u8,
}

-- What the crates document: each reader restores what its writer gave, and no writer gives nothing.
pub record IsCodec (x : Codecs) : Type 0 where
  pub zstd_law : (b z : Bytes) → x.zstd_bulk b ≡ some z → (0 < length z) × (x.zstd_read z ≡ some b)
  pub snappy_law :
      (b z : Bytes) → x.snappy_vec b ≡ some z → (0 < length z) × (x.snappy_read z ≡ some b)
  pub gzip_law :
      (l : ℕ) (b z : Bytes) → x.gzip_level l b ≡ some z → (0 < length z) × (x.gzip_read z ≡ some b)

or_data-shorter :
    (o r : Option Bytes) (b z : Bytes) (e : String)
    → ((w : Bytes) → o ≡ some w → w ≡ z → (0 < length z) × (r ≡ some b))
    → some (or_data o b) ≡ some z
    → length z < length b
    → (0 < length z) × (or_error r e ≡ ok b)
unfolding or_data or_error
or_data-shorter none r b z e law h short =
    let same : b ≡ z = cc in absurd (omega (arith, ap length same))
or_data-shorter (some w) r b z e law h short =
    let same : w ≡ z = cc in let (u, v) = law w refl same in (u, rw v refl)

-- With codecs that restore what they compressed, data that `compress` made shorter is restored by
-- `decompress`, for every algorithm, and is not empty.
pub decompress-compress :
    {x : Codecs}
    → IsCodec x
    → (c : Compression) (b z : Bytes) → compress x c b ≡ some z
    → length z < length b
    → (0 < length z) × (decompress x c z ≡ ok b)
unfolding compress decompress
decompress-compress w Compression.none b z h short = cc
decompress-compress {x} w zstd b z h short =
    or_data-shorter (x.zstd_bulk b) (x.zstd_read z) b z "zstd decompress failed"
      (λ v e s. w.zstd_law b z (e ∙ ap some s)) h short
decompress-compress {x} w snappy b z h short =
    or_data-shorter (x.snappy_vec b) (x.snappy_read z) b z "snappy decompress failed"
      (λ v e s. w.snappy_law b z (e ∙ ap some s)) h short
decompress-compress {x} w gzip0 b z h short =
    or_data-shorter (x.gzip_level 0 b) (x.gzip_read z) b z "gzip decompress failed"
      (λ v e s. w.gzip_law 0 b z (e ∙ ap some s)) h short
decompress-compress {x} w gzip1 b z h short =
    or_data-shorter (x.gzip_level 1 b) (x.gzip_read z) b z "gzip decompress failed"
      (λ v e s. w.gzip_law 1 b z (e ∙ ap some s)) h short
decompress-compress {x} w gzip2 b z h short =
    or_data-shorter (x.gzip_level 2 b) (x.gzip_read z) b z "gzip decompress failed"
      (λ v e s. w.gzip_law 2 b z (e ∙ ap some s)) h short
decompress-compress {x} w gzip3 b z h short =
    or_data-shorter (x.gzip_level 3 b) (x.gzip_read z) b z "gzip decompress failed"
      (λ v e s. w.gzip_law 3 b z (e ∙ ap some s)) h short
decompress-compress {x} w gzip4 b z h short =
    or_data-shorter (x.gzip_level 4 b) (x.gzip_read z) b z "gzip decompress failed"
      (λ v e s. w.gzip_law 4 b z (e ∙ ap some s)) h short
decompress-compress {x} w gzip5 b z h short =
    or_data-shorter (x.gzip_level 5 b) (x.gzip_read z) b z "gzip decompress failed"
      (λ v e s. w.gzip_law 5 b z (e ∙ ap some s)) h short
decompress-compress {x} w gzip6 b z h short =
    or_data-shorter (x.gzip_level 6 b) (x.gzip_read z) b z "gzip decompress failed"
      (λ v e s. w.gzip_law 6 b z (e ∙ ap some s)) h short
decompress-compress {x} w gzip7 b z h short =
    or_data-shorter (x.gzip_level 7 b) (x.gzip_read z) b z "gzip decompress failed"
      (λ v e s. w.gzip_law 7 b z (e ∙ ap some s)) h short
decompress-compress {x} w gzip8 b z h short =
    or_data-shorter (x.gzip_level 8 b) (x.gzip_read z) b z "gzip decompress failed"
      (λ v e s. w.gzip_law 8 b z (e ∙ ap some s)) h short
decompress-compress {x} w gzip9 b z h short =
    or_data-shorter (x.gzip_level 9 b) (x.gzip_read z) b z "gzip decompress failed"
      (λ v e s. w.gzip_law 9 b z (e ∙ ap some s)) h short

-- The byte that the superblock keeps is read back as its algorithm.
pub from_u8-to_u8 : (c : Compression) → from_u8 (to_u8 c) ≡ ok c
unfolding from_u8 to_u8
from_u8-to_u8 Compression.none = refl
from_u8-to_u8 zstd = refl
from_u8-to_u8 snappy = refl
from_u8-to_u8 gzip0 = refl
from_u8-to_u8 gzip1 = refl
from_u8-to_u8 gzip2 = refl
from_u8-to_u8 gzip3 = refl
from_u8-to_u8 gzip4 = refl
from_u8-to_u8 gzip5 = refl
from_u8-to_u8 gzip6 = refl
from_u8-to_u8 gzip7 = refl
from_u8-to_u8 gzip8 = refl
from_u8-to_u8 gzip9 = refl
