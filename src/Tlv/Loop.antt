-- ===== src/Tlv/Loop.antt =====
-- The loops of `encode_metadata` and `decode_metadata` of shardedobjstr/src/tlv.rs.
use objstr.Base.{
  ℕ, zero, suc, ◌+◌, ◌-◌, ◌*◌, Bool, true, false, Option, none, some, [], ◌∷◌, ◌++◌, length, take,
  drop, ltb, leb, ◌==◌, if◌then◌else◌,
}
use objstr.RawError.{Bytes}
use objstr.Dict.{Dict, insert}
use objstr.Tlv.{
  Encoded, encoded, too_large, encode_entry, value_from_lookup, tag_to_field_name, custom_prefix,
  tag_custom, lookup_bit,
}

-- The keys of a map in order, `sorted_keys.sort()`.
unfoldable pub before : Bytes → Bytes → Bool
before [] y = true
before (a ∷ x) [] = false
before (a ∷ x) (b ∷ y) = if a == b then before x y else ltb a b

unfoldable pub insert_key : Bytes → Bytes → Dict Bytes → Dict Bytes
unfolding before
insert_key k v [] = (k, v) ∷ []
insert_key k v ((j, w) ∷ m) =
    let rest = insert_key k v m in if before k j then (k, v) ∷ (j, w) ∷ m else (j, w) ∷ rest

unfoldable pub sorted : Dict Bytes → Dict Bytes
unfolding insert_key
sorted [] = []
sorted ((k, v) ∷ m) = insert_key k v (sorted m)

abbrev pub then_encode : Encoded → (Bytes → Encoded) → Encoded
then_encode (encoded bytes) next = next bytes
then_encode (too_large e) next = too_large e

unfoldable pub encode_entries : Dict Bytes → Encoded
unfolding encode_entry
encode_entries [] = encoded []
encode_entries ((k, v) ∷ m) =
    then_encode (encode_entry k v) (λ b. then_encode (encode_entries m) (λ r. encoded (b ++ r)))

unfoldable pub encode_metadata : Dict Bytes → Encoded
unfolding sorted encode_entries
encode_metadata m = encode_entries (sorted m)

-- A length and that many bytes, and what is behind; `none` where the data ends before.
unfoldable pub take_field : Bytes → Option (Bytes × Bytes)
take_field (lo ∷ hi ∷ r) =
    let n = lo + 256 * hi in if leb n (length r) then some (take n r, drop n r) else none
take_field _ = none

-- `if let` on the name: an unknown tag adds nothing.
unfoldable pub add_known : Option Bytes → Option Bytes → Dict Bytes → Dict Bytes
unfolding insert
add_known (some name) (some value) map = insert name value map
add_known name value map = map

-- `from_utf8(..).unwrap_or_default()`, where the parameter tells whether bytes are UTF-8.
module _ (is_utf8 : Bytes → Bool) where
  unfoldable pub text : Bytes → Bytes
  text b = if is_utf8 b then b else []

  -- A round takes a byte at least, so the length of the data is enough fuel.
  unfoldable pub decode_loop : ℕ → Bytes → Dict Bytes → Dict Bytes
  unfolding text take_field add_known value_from_lookup tag_to_field_name
  decode_loop zero bytes map = map
  decode_loop (suc fuel) [] map = map
  decode_loop (suc fuel) (tag ∷ r) map =
      if tag == tag_custom
      then elim (take_field r) [
        | none ↦ map
        | some (suffix, r') ↦ elim (take_field r') [
          | none ↦ map
          | some (value, r'') ↦
              decode_loop fuel r'' (insert (custom_prefix ++ text suffix) (text value) map)
        ]
      ]
      else if leb lookup_bit tag
      then elim r [
        | [] ↦ map
        | idx ∷ r' ↦ decode_loop fuel r' (
            add_known (tag_to_field_name (tag - lookup_bit))
              (value_from_lookup (tag - lookup_bit) idx) map)
      ]
      else elim (take_field r) [
        | none ↦ map
        | some (value, r') ↦
            decode_loop fuel r' (add_known (tag_to_field_name tag) (some (text value)) map)
      ]

  unfoldable pub decode_metadata : Bytes → Dict Bytes
  unfolding decode_loop
  decode_metadata bytes = decode_loop (length bytes) bytes []
