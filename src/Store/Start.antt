-- ===== src/Store/Start.antt =====
-- The guards of `do_put_with_meta` of rawobjstr/src/store.rs, and what a put keeps.
use mathlib.Core.Path.{subst}
use objstr.Base.{
  ℕ, ◌<◌, ◌≡◌, ◌⊎◌, inl, inr, refl, Bool, true, false, not, ◌&&◌, ◌==◌, leb, ltb, Option, none,
  some, arith, Bool-cases, if◌then◌else◌, length,
}
use objstr.RawError.{Bytes, Result, ok, err, RawStoreError, read_only, key_too_long, empty_payload}
use objstr.Alloc.{ExtentAllocator, alloc}
use objstr.Extent.{padded_extent_size}
use objstr.Compression.{Compression, compress, decompress, to_u8}
use objstr.Compression.RoundTrip.{IsCodec, decompress-compress}
use objstr.Store.{Env, Inner, put_at, allocate, stored_form, do_put_with_meta}
use objstr.Store.Put.{Tidy, IsTidyStore, padded-IsSize, put_at-Tidy}

-- What `stored_form` gives: the payload as it is, or compressed data that restores it. It is not empty.
abbrev pub Restores : Env → Compression → Bytes → Bytes × ℕ → Type 0
Restores env c payload form =
    (0 < length form.0)
    × (((form.0 ≡ payload) × (form.1 ≡ 0))
        ⊎ ((0 < form.1) × (decompress env.codecs c form.0 ≡ ok payload)))

module _ (env : Env) (laws : IsCodec env.codecs) where
  pub stored_form-Restores :
      (c : Compression) (payload : Bytes)
      → 0 < length payload
      → Restores env c payload (stored_form env c payload)
  unfolding stored_form
  stored_form-Restores c payload pos =
      elim (Bool-cases (not (to_u8 c == 0) && leb 4096 (length payload))) [
        | inr off ↦ rw off (pos, inl (refl, refl))
        | inl on ↦ rw on (go (compress env.codecs c payload) refl)
      ]
    where
      form : Option Bytes → Bytes × ℕ
      form o = elim o [
        | some compressed ↦
            if ltb (length compressed) (length payload)
            then (compressed, length payload)
            else (payload, 0)
        | none ↦ (payload, 0)
      ]

      go : (o : Option Bytes) → compress env.codecs c payload ≡ o → Restores env c payload (form o)
      go none e = (pos, inl (refl, refl))
      go (some z) e = elim (Bool-cases (ltb (length z) (length payload))) [
        | inr longer ↦ rw longer (pos, inl (refl, refl))
        | inl shorter ↦
            let (u, v) = decompress-compress laws c payload z e (ground arith) in
            rw shorter (u, inr (pos, v))
      ]

-- The guards of `do_put_with_meta`, and the allocation: either nothing changes and there is an
-- error, or an extent of the padded size is allocated and the put goes on.
pub data Start (env : Env) (key payload : Bytes) (meta_len now : ℕ) (s : Inner)
    : Result (Unit {0}) × Inner → Type 0 where
  refused : (e : RawStoreError) → Start env key payload meta_len now s (err e, s)
  begun :
      (padded off : ℕ) (a a' : ExtentAllocator)
      → 0 < length payload
      → s.allocator ≡ some a
      → padded_extent_size (length (stored_form env s.compression payload).0) ≡ ok padded
      → alloc a padded ≡ ok (off, a')
      → Start env key payload meta_len now s (
          put_at env s key
            (stored_form env s.compression payload).0
            (stored_form env s.compression payload).1
            padded
            meta_len
            now
            off
            a')

module _ (env : Env) (key payload : Bytes) (meta_len now : ℕ) (s : Inner) where
  pub do_put-Start :
      Start env key payload meta_len now s (do_put_with_meta env key payload meta_len now s)
  unfolding do_put_with_meta allocate
  do_put-Start = guard_ro s.ro
    where
      form : Bytes × ℕ
      form = stored_form env s.compression payload

      with_room : ℕ → Result (ℕ × ExtentAllocator) → Result (Unit {0}) × Inner
      with_room padded r = elim r [
        | err e ↦ (err e, s)
        | ok (offset, a) ↦ put_at env s key form.0 form.1 padded meta_len now offset a
      ]

      sized : Result ℕ → Result (Unit {0}) × Inner
      sized r = elim r [
        | err e ↦ (err e, s)
        | ok padded ↦ with_room padded (allocate env s.allocator padded)
      ]

      room :
          (padded : ℕ)
          → 0 < length payload
          → padded_extent_size (length form.0) ≡ ok padded
          → (o : Option ExtentAllocator) → s.allocator ≡ o
          → (r : Result (ℕ × ExtentAllocator)) → allocate env o padded ≡ r
          → Start env key payload meta_len now s (with_room padded r)
      room padded pos fits o q (err e) h = refused e
      room padded pos fits none q (ok (off, a')) h = cc
      room padded pos fits (some a) q (ok (off, a')) h = begun padded off a a' pos q fits h

      size :
          0 < length payload
          → (r : Result ℕ) → padded_extent_size (length form.0) ≡ r
          → Start env key payload meta_len now s (sized r)
      size pos (err e) h = refused e
      size pos (ok padded) h =
          room padded pos h s.allocator refl (allocate env s.allocator padded) refl

      guard_key :
          0 < length payload
          → (b : Bool)
          → Start env key payload meta_len now s (
              if b
              then (err (key_too_long (length key) s.max_key_length), s)
              else sized (padded_extent_size (length form.0)))
      guard_key pos true = refused (key_too_long (length key) s.max_key_length)
      guard_key pos false = size pos (padded_extent_size (length form.0)) refl

      guard_empty :
          (b : Bool)
          → (length payload == 0) ≡ b
          → Start env key payload meta_len now s (
              if b
              then (err empty_payload, s)
              else (if ltb s.max_key_length (length key)
                  then (err (key_too_long (length key) s.max_key_length), s)
                  else sized (padded_extent_size (length form.0))))
      guard_empty true h = refused empty_payload
      guard_empty false h = guard_key (ground arith) (ltb s.max_key_length (length key))

      guard_ro :
          (b : Bool)
          → Start env key payload meta_len now s (
              if b
              then (err read_only, s)
              else (if length payload == 0
                  then (err empty_payload, s)
                  else (if ltb s.max_key_length (length key)
                      then (err (key_too_long (length key) s.max_key_length), s)
                      else sized (padded_extent_size (length form.0)))))
      guard_ro true = refused read_only
      guard_ro false = guard_empty (length payload == 0) refl

  -- With codecs that turn no data into nothing, a put keeps the store tidy: on success, on every
  -- refusal, and where the device fails half way.
  pub do_put_with_meta-IsTidy :
      (hi : ℕ)
      → IsCodec env.codecs
      → IsTidyStore hi s
      → IsTidyStore hi (do_put_with_meta env key payload meta_len now s).1
  do_put_with_meta-IsTidy hi laws t =
      go (do_put_with_meta env key payload meta_len now s) do_put-Start
    where
      go :
          (r : Result (Unit {0}) × Inner)
          → Start env key payload meta_len now s r
          → IsTidyStore hi r.1
      go r (refused e) = t
      go r (begun padded off a a' pos q fits done) =
          let form = stored_form env s.compression payload in
          let (blocks, size) =
            padded-IsSize (length form.0) padded
              (stored_form-Restores env laws s.compression payload pos).0 fits in
          put_at-Tidy env s key form.0 form.1 padded meta_len now off
            (subst (λ o. Tidy hi o s.index.files) q t) size blocks done
