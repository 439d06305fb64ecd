-- ===== src/Tlv/Fields.antt =====
-- The parts of an entry of shardedobjstr/src/tlv.rs, each against its reader.
use Prim.Native.String.{String}
use mathlib.Core.Path.{subst}
use objstr.Base.{
  ℕ, zero, suc, ◌+◌, ◌*◌, ◌/◌, ◌%◌, ◌≤◌, ◌<◌, ◌≡◌, ◌⊎◌, inl, inr, refl, ap, sym, ◌∙◌, true, Option,
  none, some, List, [], ◌∷◌, ◌++◌, length, get_elem?, leb, ◌==◌, if◌then◌else◌, arith, Bool-cases,
  length-append, take-append_first, drop-append_first,
}
use objstr.RawError.{Bytes}
use objstr.Dict.{same, same→≡}
use objstr.Tlv.{
  ascii, field_name_to_tag, tag_to_field_name, position, table_of, value_lookup, value_from_lookup,
  field, max_field_len, strip_prefix, ct_values, cc_values, ce_values,
}
use objstr.Tlv.Loop.{take_field}

-- A field that was written is read back, and what follows is left.
pub take_field-field :
    (part rest : Bytes)
    → length part ≤ max_field_len
    → take_field (field part ++ rest) ≡ some (part, rest)
unfolding take_field field
take_field-field part rest h =
    let n : length part % 256 + 256 * (length part / 256 % 256) ≡ length part = omega arith in
    let fits : leb (length part) (length (part ++ rest)) ≡ true =
      ground (arith, length-append part rest) in
    rw
      (
        n,
        fits,
        take-append_first part rest (length part) refl,
        drop-append_first part rest (length part) refl,
      )
      refl

pub strip_prefix-append :
    (p key suffix : Bytes) → strip_prefix p key ≡ some suffix → key ≡ p ++ suffix
unfolding strip_prefix
strip_prefix-append [] key suffix h = cc
strip_prefix-append (a ∷ p) [] suffix h = cc
strip_prefix-append (a ∷ p) (b ∷ r) suffix h = elim (Bool-cases (a == b)) [
  | inr e ↦ cc (rw e at h)
  | inl e ↦
      let q : a ≡ b = ground arith in
      let t : r ≡ p ++ suffix = strip_prefix-append p r suffix (rw e at h) in cc
]

named_case :
    (name lit : Bytes) (n tag : ℕ) (other : Option ℕ)
    → (if same name lit then some n else other) ≡ some tag
    → ((lit ≡ name) × (n ≡ tag)) ⊎ (other ≡ some tag)
named_case name lit n tag other h = elim (Bool-cases (same name lit)) [
  | inr e ↦ inr (rw e at h)
  | inl e ↦ let q : some n ≡ some tag = rw e at h in inl (sym (same→≡ name lit e), cc)
]

abbrev pub IsTag : Bytes → ℕ → Type 0
IsTag name tag = (0 < tag) × (tag < 8) × (tag_to_field_name tag ≡ some name)

from_case :
    (name lit : Bytes) (n tag : ℕ)
    → 0 < n
    → n < 8
    → tag_to_field_name n ≡ some lit
    → (lit ≡ name) × (n ≡ tag)
    → IsTag name tag
from_case name lit n tag pos small h (p, q) = subst (IsTag name) q (pos, small, h ∙ ap some p)

-- The tag of a name is below 8 and stands for that name.
pub field_name_to_tag-IsTag :
    (name : Bytes) (tag : ℕ) → field_name_to_tag name ≡ some tag → IsTag name tag
unfolding field_name_to_tag tag_to_field_name
field_name_to_tag-IsTag name tag h =
    elim (named_case name (ascii "content-type") 1 tag
      (if same name (ascii "cache-control")
        then some 2
        else (if same name (ascii "content-disposition")
            then some 3
            else (if same name (ascii "content-encoding")
                then some 4
                else (if same name (ascii "content-language")
                    then some 5
                    else (if same name (ascii "expires")
                        then some 6
                        else (if same name (ascii "etag") then some 7 else none))))))
      h) [
        | inl d ↦ from_case name (ascii "content-type") 1 tag (omega arith) (omega arith) refl d
        | inr h1 ↦
            elim (named_case name (ascii "cache-control") 2 tag
              (if same name (ascii "content-disposition")
                then some 3
                else (if same name (ascii "content-encoding")
                    then some 4
                    else (if same name (ascii "content-language")
                        then some 5
                        else (if same name (ascii "expires")
                            then some 6
                            else (if same name (ascii "etag") then some 7 else none)))))
              h1) [
                | inl d ↦
                    from_case name (ascii "cache-control") 2 tag (omega arith) (omega arith) refl d
                | inr h2 ↦
                    elim (named_case name (ascii "content-disposition") 3 tag
                      (if same name (ascii "content-encoding")
                        then some 4
                        else (if same name (ascii "content-language")
                            then some 5
                            else (if same name (ascii "expires")
                                then some 6
                                else (if same name (ascii "etag") then some 7 else none))))
                      h2) [
                        | inl d ↦
                            from_case name (ascii "content-disposition") 3 tag (omega arith)
                              (omega arith) refl d
                        | inr h3 ↦
                            elim (named_case name (ascii "content-encoding") 4 tag
                              (if same name (ascii "content-language")
                                then some 5
                                else (if same name (ascii "expires")
                                    then some 6
                                    else (if same name (ascii "etag") then some 7 else none)))
                              h3) [
                                | inl d ↦
                                    from_case name (ascii "content-encoding") 4 tag (omega arith)
                                      (omega arith) refl d
                                | inr h4 ↦
                                    elim (named_case name (ascii "content-language") 5 tag
                                      (if same name (ascii "expires")
                                        then some 6
                                        else (if same name (ascii "etag") then some 7 else none))
                                      h4) [
                                        | inl d ↦
                                            from_case name (ascii "content-language") 5 tag
                                              (omega arith) (omega arith) refl d
                                        | inr h5 ↦
                                            elim (named_case name (ascii "expires") 6 tag
                                              (if same name (ascii "etag") then some 7 else none)
                                              h5) [
                                                | inl d ↦
                                                    from_case name (ascii "expires") 6 tag
                                                      (omega arith) (omega arith) refl d
                                                | inr h6 ↦
                                                    elim (named_case name (ascii "etag") 7 tag none
                                                      h6) [
                                                        | inl d ↦
                                                            from_case name (ascii "etag") 7 tag
                                                            (omega arith) (omega arith) refl d
                                                        | inr h7 ↦ cc
                                                      ]
                                              ]
                                      ]
                              ]
                      ]
              ]
      ]

position_get :
    (value : Bytes) (t : List String) (i : ℕ)
    → position value t ≡ some i
    → (i < length t) × ((w : String) × (get_elem? t i ≡ some w) × (ascii w ≡ value))
unfolding position
position_get value [] i h = cc
position_get value (v ∷ r) i h = elim (Bool-cases (same value (ascii v))) [
  | inl e ↦
      let q : some zero ≡ some i = rw e at h in
      let z : zero ≡ i = cc in
      subst
        (λ j.
          (j < suc (length r))
          × ((w : String) × (get_elem? (v ∷ r) j ≡ some w) × (ascii w ≡ value)))
        z (omega arith, (v, refl, sym (same→≡ value (ascii v) e)))
  | inr e ↦ later (position_get value r) (position value r) refl (rw e at h)
]
  where
    later :
        ((j : ℕ)
          → position value r ≡ some j
          → (j < length r) × ((w : String) × (get_elem? r j ≡ some w) × (ascii w ≡ value)))
        → (o : Option ℕ) → position value r ≡ o
        → elim o [ none ↦ none | some j ↦ some (suc j) ] ≡ some i
        → (i < suc (length r)) × ((w : String) × (get_elem? (v ∷ r) i ≡ some w) × (ascii w ≡ value))
    later ih none p q = cc
    later ih (some j) p q =
        let u = ih j p in
        let z : suc j ≡ i = cc in
        subst
          (λ k.
            (k < suc (length r))
            × ((w : String) × (get_elem? (v ∷ r) k ≡ some w) × (ascii w ≡ value)))
          z (omega (arith, u.0), u.1)

table-length : (tag : ℕ) (t : List String) → table_of tag ≡ some t → length t ≤ 256
unfolding table_of
table-length tag t h = elim (Bool-cases (tag == 1)) [
  | inl e ↦
      let q : some ct_values ≡ some t = rw e at h in
      subst (λ t. length t ≤ 256) (let p : ct_values ≡ t = cc in p) (omega arith)
  | inr a ↦ elim (Bool-cases (tag == 2)) [
    | inl e ↦
        let q : some cc_values ≡ some t = rw (a, e) at h in
        subst (λ t. length t ≤ 256) (let p : cc_values ≡ t = cc in p) (omega arith)
    | inr b ↦ elim (Bool-cases (tag == 4)) [
      | inl e ↦
          let q : some ce_values ≡ some t = rw (a, b, e) at h in
          subst (λ t. length t ≤ 256) (let p : ce_values ≡ t = cc in p) (omega arith)
      | inr e ↦ let q : none ≡ some t = rw (a, b, e) at h in cc
    ]
  ]
]

-- A value found in the table of a field is read back by its index.
pub value_from_lookup-index :
    (tag idx : ℕ) (value : Bytes)
    → value_lookup tag value ≡ some idx
    → value_from_lookup tag idx ≡ some value
unfolding value_lookup value_from_lookup
value_from_lookup-index tag idx value h = go (table_of tag) refl h
  where
    found : Option (List String) → Option ℕ
    found o = elim o [
      | none ↦ none
      | some table ↦ elim (position value table) [ none ↦ none | some i ↦ some (i % 256) ]
    ]

    at_index : Option (List String) → Option Bytes
    at_index o = elim o [
      | none ↦ none
      | some table ↦ elim (get_elem? table idx) [ none ↦ none | some v ↦ some (ascii v) ]
    ]

    in_table :
        (t : List String)
        → length t ≤ 256
        → (p : Option ℕ) → position value t ≡ p
        → elim p [ none ↦ none | some i ↦ some (i % 256) ] ≡ some idx
        → at_index (some t) ≡ some value
    in_table t small none q h = cc
    in_table t small (some i) q h =
        let u = position_get value t i q in
        let r : i % 256 ≡ idx = cc in
        let z : i ≡ idx = omega (arith, u.0, small, r) in
        let here : get_elem? t idx ≡ some u.1.0 = subst (λ k. get_elem? t k ≡ some u.1.0) z u.1.1 in
        ap (λ o. elim o as (λ _. Option Bytes) [ none ↦ none | some v ↦ some (ascii v) ]) here
        ∙ ap some u.1.2

    go :
        (o : Option (List String)) → table_of tag ≡ o → found o ≡ some idx → at_index o ≡ some value
    go none q h = cc
    go (some t) q h = in_table t (table-length tag t q) (position value t) refl h
