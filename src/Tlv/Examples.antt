-- ===== src/Tlv/Examples.antt =====
-- The encoding of shardedobjstr/src/tlv.rs on a map with two fields.
use objstr.Base.{◌≡◌, refl, Bool, true, [], ◌∷◌}
use objstr.RawError.{Bytes}
use objstr.Dict.{Dict, same}
use objstr.Tlv.{ascii, encoded}
use objstr.Tlv.Loop.{sorted, encode_metadata, decode_metadata}
use objstr.Tlv.RoundTrip.{IsText, insert_all, decode-encode_metadata}

abbrev any_text : Bytes → Bool
any_text b = true

abbrev two_fields : Dict Bytes
two_fields = (ascii "x-amz-meta-a", 98 ∷ []) ∷ (ascii "etag", 120 ∷ 121 ∷ []) ∷ []

abbrev two_encoded : Bytes
two_encoded = 7 ∷ 2 ∷ 0 ∷ 120 ∷ 121 ∷ 128 ∷ 1 ∷ 0 ∷ 97 ∷ 1 ∷ 0 ∷ 98 ∷ []

encodes : encode_metadata two_fields ≡ encoded two_encoded
unfolding encode_metadata ascii same
encodes = refl

two_IsText : IsText any_text (sorted two_fields)
unfolding sorted ascii
two_IsText = (refl, (λ _ _. refl), (refl, (λ _ _. refl), tt))

decode-encode_metadata_example :
    decode_metadata any_text two_encoded ≡ insert_all (sorted two_fields) []
decode-encode_metadata_example =
    decode-encode_metadata any_text two_fields two_encoded two_IsText encodes
