-- ===== src/Tlv/RoundTrip.antt =====
-- `decode_metadata` of shardedobjstr/src/tlv.rs reads back what `encode_metadata` wrote.
use mathlib.Core.Path.{subst}
use objstr.Base.{
  ℕ, zero, suc, ◌+◌, ◌-◌, ◌≤◌, ◌<◌, ◌≡◌, refl, ap, sym, ◌∙◌, Bool, true, false, Option, none, some,
  [], ◌∷◌, ◌++◌, length, ltb, leb, ◌==◌, if◌then◌else◌, arith, Bool-cases, length-append, inl, inr,
}
use mathlib.Core.List.{append_assoc}
use objstr.RawError.{Bytes}
use objstr.Dict.{Dict, insert}
use objstr.Tlv.{
  Encoded, encoded, too_large, field_name_to_tag, value_lookup, value_from_lookup, field,
  max_field_len, strip_prefix, custom_prefix, tag_custom, lookup_bit, encode_known, encode_custom,
  encode_entry, over,
}
use objstr.Tlv.Loop.{
  sorted, then_encode, encode_entries, encode_metadata, add_known, text, decode_loop,
  decode_metadata,
}
use objstr.Tlv.Fields.{
  IsTag, take_field-field, strip_prefix-append, field_name_to_tag-IsTag, value_from_lookup-index,
}

-- Is the key one that the encoding keeps?
unfoldable pub kept : Bytes → Bool
kept key = elim (field_name_to_tag key) [
  | some tag ↦ true
  | none ↦ elim (strip_prefix custom_prefix key) [ none ↦ false | some suffix ↦ true ]
]

-- The entries that are kept, inserted one after another.
unfoldable pub insert_all : Dict Bytes → Dict Bytes → Dict Bytes
unfolding kept
insert_all [] map = map
insert_all ((k, v) ∷ m) map = insert_all m (if kept k then insert k v map else map)

module _ (is_utf8 : Bytes → Bool) where
  -- The texts of the entries are UTF-8, as every `String` is: each value, and each key behind the prefix.
  abbrev pub IsText : Dict Bytes → Type 0
  IsText [] = Unit {0}
  IsText ((k, v) ∷ m) =
      (is_utf8 v ≡ true)
      × ((suffix : Bytes) → strip_prefix custom_prefix k ≡ some suffix → is_utf8 suffix ≡ true)
      × IsText m

  hit-round :
      (fuel tag idx : ℕ) (k v rest : Bytes) (map : Dict Bytes)
      → IsTag k tag
      → value_from_lookup tag idx ≡ some v
      → decode_loop is_utf8 (suc fuel) ((tag + lookup_bit) ∷ idx ∷ rest) map
        ≡ decode_loop is_utf8 fuel rest (insert k v map)
  unfolding decode_loop add_known
  hit-round fuel tag idx k v rest map (pos, small, name) value =
      let custom : (tag + lookup_bit == tag_custom) ≡ false = ground arith in
      let bit : leb lookup_bit (tag + lookup_bit) ≡ true = ground arith in
      let low : tag + lookup_bit - lookup_bit ≡ tag = omega arith in
      rw (custom, bit, low, name, value) refl

  raw-round :
      (fuel tag : ℕ) (k v rest : Bytes) (map : Dict Bytes)
      → IsTag k tag
      → is_utf8 v ≡ true
      → length v ≤ max_field_len
      → decode_loop is_utf8 (suc fuel) (tag ∷ (field v ++ rest)) map
        ≡ decode_loop is_utf8 fuel rest (insert k v map)
  unfolding decode_loop add_known text
  raw-round fuel tag k v rest map (pos, small, name) valid fits =
      let custom : (tag == tag_custom) ≡ false = ground arith in
      let bit : leb lookup_bit tag ≡ false = ground arith in
      rw (custom, bit, take_field-field v rest fits, name, valid) refl

  custom-round :
      (fuel : ℕ) (suffix v rest : Bytes) (map : Dict Bytes)
      → is_utf8 suffix ≡ true
      → is_utf8 v ≡ true
      → length suffix ≤ max_field_len
      → length v ≤ max_field_len
      → decode_loop is_utf8 (suc fuel) (tag_custom ∷ (field suffix ++ (field v ++ rest))) map
        ≡ decode_loop is_utf8 fuel rest (insert (custom_prefix ++ suffix) v map)
  unfolding decode_loop text
  custom-round fuel suffix v rest map p q h g =
      rw (take_field-field suffix (field v ++ rest) h, take_field-field v rest g, p, q) refl

  same_bytes : (a b : Bytes) → encoded a ≡ encoded b → a ≡ b
  same_bytes a b h = cc

  known-round :
      (fuel tag : ℕ) (k v b rest : Bytes) (map : Dict Bytes)
      → is_utf8 v ≡ true
      → field_name_to_tag k ≡ some tag
      → encode_known tag k v ≡ encoded b
      → (0 < length b)
        × (decode_loop is_utf8 (suc fuel) (b ++ rest) map
            ≡ decode_loop is_utf8 fuel rest (insert k v map))
  unfolding encode_known
  known-round fuel tag k v b rest map valid name h = go (value_lookup tag v) refl h
    where
      tagged : IsTag k tag
      tagged = field_name_to_tag-IsTag k tag name

      read : Bytes → Type 0
      read b =
          (0 < length b)
          × (decode_loop is_utf8 (suc fuel) (b ++ rest) map
              ≡ decode_loop is_utf8 fuel rest (insert k v map))

      go :
          (o : Option ℕ)
          → value_lookup tag v ≡ o
          → elim o [
            | some idx ↦ encoded ((tag + lookup_bit) ∷ idx ∷ [])
            | none ↦ if ltb max_field_len (length v) then over k v else encoded (tag ∷ field v)
          ]
            ≡ encoded b
          → read b
      go (some idx) q e = subst read (same_bytes ((tag + lookup_bit) ∷ idx ∷ []) b e) (
        omega arith,
        hit-round fuel tag idx k v rest map tagged (value_from_lookup-index tag idx v q),
      )
      go none q e = elim (Bool-cases (ltb max_field_len (length v))) [
        | inl long ↦ let z : over k v ≡ encoded b = rw long at e in cc
        | inr short ↦
            subst read (same_bytes (tag ∷ field v) b (rw short at e))
              (omega arith, raw-round fuel tag k v rest map tagged valid (ground arith))
      ]

  custom_entry-round :
      (fuel : ℕ) (k suffix v b rest : Bytes) (map : Dict Bytes)
      → is_utf8 v ≡ true
      → is_utf8 suffix ≡ true
      → strip_prefix custom_prefix k ≡ some suffix
      → encode_custom suffix k v ≡ encoded b
      → (0 < length b)
        × (decode_loop is_utf8 (suc fuel) (b ++ rest) map
            ≡ decode_loop is_utf8 fuel rest (insert k v map))
  unfolding encode_custom
  custom_entry-round fuel k suffix v b rest map valid valid' name h =
      elim (Bool-cases (ltb max_field_len (length suffix))) [
        | inl long ↦ let z : over k suffix ≡ encoded b = rw long at h in cc
        | inr short ↦ elim (Bool-cases (ltb max_field_len (length v))) [
          | inl long ↦ let z : over k v ≡ encoded b = rw (short, long) at h in cc
          | inr short' ↦
              subst
                (λ c.
                  (0 < length c)
                  × (decode_loop is_utf8 (suc fuel) (c ++ rest) map
                      ≡ decode_loop is_utf8 fuel rest (insert k v map)))
                (same_bytes (tag_custom ∷ (field suffix ++ field v)) b (rw (short, short') at h))
                (
                  omega arith,
                  ap (λ c. decode_loop is_utf8 (suc fuel) (tag_custom ∷ c) map)
                        (append_assoc (field suffix) (field v) rest)
                      ∙ custom-round fuel suffix v rest map valid' valid (ground arith)
                          (ground arith)
                      ∙ ap (λ j. decode_loop is_utf8 fuel rest (insert j v map))
                          (sym (strip_prefix-append custom_prefix k suffix name)),
                )
        ]
      ]

  -- What one entry becomes: nothing if its key is not kept, and otherwise bytes that decode to it.
  abbrev Round : Bytes → Bytes → Bytes → Bool → Type 0
  Round k v b false = b ≡ []
  Round k v b true =
      (fuel : ℕ) (rest : Bytes) (map : Dict Bytes)
      → (0 < length b)
        × (decode_loop is_utf8 (suc fuel) (b ++ rest) map
            ≡ decode_loop is_utf8 fuel rest (insert k v map))

  entry-Round :
      (k v b : Bytes)
      → is_utf8 v ≡ true
      → ((suffix : Bytes) → strip_prefix custom_prefix k ≡ some suffix → is_utf8 suffix ≡ true)
      → encode_entry k v ≡ encoded b
      → Round k v b (kept k)
  unfolding encode_entry kept
  entry-Round k v b valid valid' h =
      go (field_name_to_tag k) refl (strip_prefix custom_prefix k) refl h
    where
      is_kept : Option ℕ → Option Bytes → Bool
      is_kept o p = elim o [ some tag ↦ true | none ↦ elim p [ none ↦ false | some suffix ↦ true ] ]

      written : Option ℕ → Option Bytes → Encoded
      written o p = elim o [
        | some tag ↦ encode_known tag k v
        | none ↦ elim p [ none ↦ encoded [] | some suffix ↦ encode_custom suffix k v ]
      ]

      go :
          (o : Option ℕ)
          → field_name_to_tag k ≡ o
          → (p : Option Bytes) → strip_prefix custom_prefix k ≡ p
          → written o p ≡ encoded b
          → Round k v b (is_kept o p)
      go (some tag) q p r e = λ fuel rest map. known-round fuel tag k v b rest map valid q e
      go none q (some suffix) r e =
          λ fuel rest map. custom_entry-round fuel k suffix v b rest map valid (valid' suffix r) r e
      go none q none r e = sym (same_bytes [] b e)

  decode_nothing : (fuel : ℕ) (map : Dict Bytes) → decode_loop is_utf8 fuel [] map ≡ map
  unfolding decode_loop
  decode_nothing zero map = refl
  decode_nothing (suc fuel) map = refl

  entry_then :
      (k v b rest : Bytes) (m map : Dict Bytes) (keep : Bool) (fuel : ℕ)
      → Round k v b keep
      → length (b ++ rest) ≤ fuel
      → ((fuel : ℕ) (map : Dict Bytes)
          → length rest ≤ fuel
          → decode_loop is_utf8 fuel rest map ≡ insert_all m map)
      → decode_loop is_utf8 fuel (b ++ rest) map
        ≡ insert_all m (if keep then insert k v map else map)
  entry_then k v b rest m map false fuel r enough ih =
      subst
        (λ b.
          length (b ++ rest) ≤ fuel → decode_loop is_utf8 fuel (b ++ rest) map ≡ insert_all m map)
        (sym r) (λ e. ih fuel map e) enough
  entry_then k v b rest m map true zero r enough ih =
      absurd (omega (arith, (r 0 rest map).0, length-append b rest, enough))
  entry_then k v b rest m map true (suc fuel) r enough ih =
      (r fuel rest map).1
      ∙ ih fuel (insert k v map) (omega (arith, (r fuel rest map).0, length-append b rest, enough))

  -- The entries that `encode_entries` wrote are inserted one after another.
  entries-round :
      (m : Dict Bytes) (bytes : Bytes) (fuel : ℕ) (map : Dict Bytes)
      → IsText m
      → encode_entries m ≡ encoded bytes
      → length bytes ≤ fuel
      → decode_loop is_utf8 fuel bytes map ≡ insert_all m map
  unfolding encode_entries insert_all
  entries-round [] bytes fuel map texts h enough =
      subst (λ b. decode_loop is_utf8 fuel b map ≡ map) (same_bytes [] bytes h)
        (decode_nothing fuel map)
  entries-round ((k, v) ∷ m) bytes fuel map (valid, valid', texts) h enough =
      go (encode_entry k v) refl (encode_entries m) refl
        (λ rest e fuel map g. entries-round m rest fuel map texts e g) h
    where
      go :
          (e : Encoded)
          → encode_entry k v ≡ e
          → (es : Encoded) → encode_entries m ≡ es
          → ((rest : Bytes)
              → es ≡ encoded rest
              → (fuel : ℕ) (map : Dict Bytes) → length rest ≤ fuel
              → decode_loop is_utf8 fuel rest map ≡ insert_all m map)
          → then_encode e (λ b. then_encode es (λ r. encoded (b ++ r))) ≡ encoded bytes
          → decode_loop is_utf8 fuel bytes map
            ≡ insert_all m (if kept k then insert k v map else map)
      go (too_large x) p es q ih e = cc
      go (encoded b) p (too_large x) q ih e = cc
      go (encoded b) p (encoded r) q ih e =
          let whole : b ++ r ≡ bytes = same_bytes (b ++ r) bytes e in
          subst
            (λ t.
              length t ≤ fuel
              → decode_loop is_utf8 fuel t map
                ≡ insert_all m (if kept k then insert k v map else map))
            whole
            (λ g.
              entry_then k v b r m map (kept k) fuel (entry-Round k v b valid valid' p) g
                (ih r refl))
            enough

  -- If no field of the metadata is too long and all texts are UTF-8, decoding its encoding inserts
  -- exactly its entries with a well-known or an x-amz-meta- name, in the order of the keys, with
  -- their values.
  pub decode-encode_metadata :
      (m : Dict Bytes) (bytes : Bytes)
      → IsText (sorted m)
      → encode_metadata m ≡ encoded bytes
      → decode_metadata is_utf8 bytes ≡ insert_all (sorted m) []
  unfolding encode_metadata decode_metadata
  decode-encode_metadata m bytes texts h =
      entries-round (sorted m) bytes (length bytes) [] texts h (omega arith)
