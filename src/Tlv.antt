-- ===== src/Tlv.antt =====
-- The metadata encoding of shardedobjstr/src/tlv.rs: a sequence of tagged entries.
pub mod Loop
pub mod Fields
pub mod RoundTrip
pub mod Examples
use Prim.Native.String.{String}
use Prim.Native.Char.{Char, code}
use objstr.Base.{
  ℕ, zero, suc, ◌+◌, ◌-◌, ◌*◌, ◌/◌, ◌%◌, ◌^◌, Bool, true, false, Option, none, some, List, [], ◌∷◌,
  ◌++◌, length, take, drop, get_elem?, ltb, leb, ◌==◌, if◌then◌else◌,
}
use objstr.RawError.{Bytes}
use objstr.Dict.{Dict, same, lookup, insert}

-- The bytes of an ASCII literal.
unfoldable pub ascii : String → Bytes
ascii String.[] = []
ascii (String.◌∷◌ c s) = code c ∷ ascii s

abbrev pub tag_custom : ℕ
tag_custom = 128

abbrev pub lookup_bit : ℕ
lookup_bit = 128

unfoldable pub field_name_to_tag : Bytes → Option ℕ
unfolding ascii
field_name_to_tag name =
    if same name (ascii "content-type")
    then some 1
    else if same name (ascii "cache-control")
    then some 2
    else if same name (ascii "content-disposition")
    then some 3
    else if same name (ascii "content-encoding")
    then some 4
    else if same name (ascii "content-language")
    then some 5
    else if same name (ascii "expires")
    then some 6
    else if same name (ascii "etag")
    then some 7
    else none

unfoldable pub tag_to_field_name : ℕ → Option Bytes
unfolding ascii
tag_to_field_name tag =
    if tag == 1
    then some (ascii "content-type")
    else if tag == 2
    then some (ascii "cache-control")
    else if tag == 3
    then some (ascii "content-disposition")
    else if tag == 4
    then some (ascii "content-encoding")
    else if tag == 5
    then some (ascii "content-language")
    else if tag == 6
    then some (ascii "expires")
    else if tag == 7
    then some (ascii "etag")
    else none

abbrev pub ct_values : List String
ct_values =
    "application/octet-stream" ∷ "text/plain" ∷ "text/html" ∷ "text/css" ∷ "text/csv"
    ∷ "application/json" ∷ "application/xml" ∷ "image/png" ∷ "image/jpeg" ∷ "image/gif"
    ∷ "image/webp" ∷ "image/svg+xml" ∷ "application/pdf" ∷ "application/zip" ∷ "video/mp4"
    ∷ "audio/mpeg" ∷ "application/javascript" ∷ "text/xml" ∷ "application/x-www-form-urlencoded"
    ∷ "multipart/form-data" ∷ "application/gzip" ∷ "application/x-tar" ∷ "image/tiff" ∷ "audio/wav"
    ∷ "video/webm" ∷ "application/wasm" ∷ "font/woff2" ∷ "font/woff" ∷ "text/plain; charset=utf-8"
    ∷ "application/json; charset=utf-8" ∷ "text/html; charset=utf-8" ∷ "binary/octet-stream" ∷ []

abbrev pub cc_values : List String
cc_values =
    "no-cache" ∷ "no-store" ∷ "no-cache, no-store" ∷ "private" ∷ "public" ∷ "must-revalidate"
    ∷ "max-age=0" ∷ "max-age=60" ∷ "max-age=300" ∷ "max-age=3600" ∷ "max-age=86400"
    ∷ "max-age=604800" ∷ "max-age=2592000" ∷ "max-age=31536000" ∷ "public, max-age=3600"
    ∷ "public, max-age=86400" ∷ "public, max-age=31536000" ∷ "public, max-age=31536000, immutable"
    ∷ "private, no-cache" ∷ "no-store, must-revalidate" ∷ []

abbrev pub ce_values : List String
ce_values = "gzip" ∷ "br" ∷ "deflate" ∷ "identity" ∷ "zstd" ∷ "compress" ∷ []

-- `iter().position(|&v| v == value)`
unfoldable pub position : Bytes → List String → Option ℕ
unfolding ascii
position value [] = none
position value (v ∷ r) =
    let rest : Option ℕ = elim (position value r) [ none ↦ none | some i ↦ some (suc i) ] in
    if same value (ascii v) then some zero else rest

unfoldable pub table_of : ℕ → Option (List String)
table_of tag =
    if tag == 1
    then some ct_values
    else if tag == 2
    then some cc_values
    else if tag == 4
    then some ce_values
    else none

unfoldable pub value_lookup : ℕ → Bytes → Option ℕ
unfolding table_of position
value_lookup tag value = elim (table_of tag) [
  | none ↦ none
  | some table ↦ elim (position value table) [ none ↦ none | some i ↦ some (i % 256) ]
]

unfoldable pub value_from_lookup : ℕ → ℕ → Option Bytes
unfolding table_of ascii
value_from_lookup tag idx = elim (table_of tag) [
  | none ↦ none
  | some table ↦ elim (get_elem? table idx) [ none ↦ none | some v ↦ some (ascii v) ]
]

-- `u16::MAX`
abbrev pub max_field_len : ℕ
max_field_len = 65535

pub record MetadataTooLarge : Type 0 where
  pub field : Bytes
  pub len : ℕ
  pub max : ℕ

pub data Encoded : Type 0 where
  encoded : Bytes → Encoded
  too_large : MetadataTooLarge → Encoded

abbrev pub over : Bytes → Bytes → Encoded
over key part = too_large (record { field = key; len = length part; max = max_field_len })

-- A length as a u16, low byte first, and the bytes.
unfoldable pub field : Bytes → Bytes
field part = length part % 256 ∷ length part / 256 % 256 ∷ part

-- `strip_prefix`
unfoldable pub strip_prefix : Bytes → Bytes → Option Bytes
strip_prefix [] key = some key
strip_prefix (p ∷ q) [] = none
strip_prefix (p ∷ q) (k ∷ r) = let rest = strip_prefix q r in if p == k then rest else none

abbrev pub custom_prefix : Bytes
custom_prefix = ascii "x-amz-meta-"

unfoldable pub encode_known : ℕ → Bytes → Bytes → Encoded
unfolding value_lookup field
encode_known tag key value = elim (value_lookup tag value) [
  | some idx ↦ encoded ((tag + lookup_bit) ∷ idx ∷ [])
  | none ↦ if ltb max_field_len (length value) then over key value else encoded (tag ∷ field value)
]

unfoldable pub encode_custom : Bytes → Bytes → Bytes → Encoded
unfolding field
encode_custom suffix key value =
    if ltb max_field_len (length suffix)
    then over key suffix
    else if ltb max_field_len (length value)
    then over key value
    else encoded (tag_custom ∷ field suffix ++ field value)

-- One round of the loop of `encode_metadata`; other keys are left out.
unfoldable pub encode_entry : Bytes → Bytes → Encoded
unfolding field_name_to_tag encode_known strip_prefix encode_custom
encode_entry key value = elim (field_name_to_tag key) [
  | some tag ↦ encode_known tag key value
  | none ↦ elim (strip_prefix custom_prefix key) [
    | none ↦ encoded []
    | some suffix ↦ encode_custom suffix key value
  ]
]
