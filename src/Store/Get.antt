-- ===== src/Store/Get.antt =====
-- What `do_get` of rawobjstr/src/store.rs reads after a put or a delete.
use objstr.Base.{
  ℕ, ◌+◌, ◌*◌, ◌^◌, ◌≤◌, ◌<◌, ◌≡◌, ◌≢◌, ◌⊎◌, inl, inr, refl, ap, sym, ◌∙◌, true, false, ltb, Option,
  none, some, arith, Bool-cases, length,
}
use objstr.RawError.{Bytes, Result, ok, err, block_alignment, RawStoreError, not_found, ◌>>=◌}
use objstr.Alloc.{ExtentAllocator}
use objstr.Device.{DeviceIo}
use objstr.Device.ReadWrite.{bytes_at-overlay}
use objstr.Extent.{num_blocks, encode_blocks, read_and_decode_batched}
use objstr.Extent.Encode.{length-encode_range}
use objstr.Extent.Batched.{Written, Stores, read_and_decode_batched_stored}
use objstr.Dict.{lookup, insert, remove, lookup-insert, lookup-remove, same, same_refl, same→≡}
use objstr.Index.{ExtentInfo}
use objstr.Compression.{Compression, decompress}
use objstr.Store.{
  Env, Inner, release, record_file, put_at, write_extent, mark_shard_dirty, do_get, name_key,
  expand,
}
use objstr.Store.Write.{forget, write_extent-Written, read_and_decode_batched-cong}

-- The entry that a put records.
abbrev pub new_info : Inner → Bytes → ℕ → ℕ → ℕ → ℕ → ℕ → ℕ → ExtentInfo
new_info s p unc padded meta_len now off crc = record {
  offset = off;
  size = length p;
  padded_size = padded;
  crc32c = crc;
  created_txn = s.superblock.txn_id;
  last_modified = now;
  meta_len = meta_len;
  uncompressed_size = unc;
}

-- How `put_at` ends.
pub data Put (env : Env) (s : Inner) (key p : Bytes) (unc padded meta_len now off : ℕ)
    (a : ExtentAllocator) : Result (Unit {0}) × Inner → Type 0 where
  failed :
      (e : RawStoreError) (d : DeviceIo)
      → Written off (encode_blocks env.crc p) s.dev (err e, d)
      → Put env s key p unc padded meta_len now off a
          (err e, record s { dev = d; allocator = release (some a) off padded })
  stored :
      (crc : ℕ) (d : DeviceIo)
      → Written off (encode_blocks env.crc p) s.dev (ok tt, d)
      → Put env s key p unc padded meta_len now off a (
        ok tt,
        record_file env key (new_info s p unc padded meta_len now off crc) (record s {
          dev = d;
          allocator = some a;
          index = record s.index { tombstones = remove key s.index.tombstones };
        }),
      )

pub put_at-Put :
    (env : Env) (s : Inner) (key p : Bytes) (unc padded meta_len now off : ℕ) (a : ExtentAllocator)
    → Put env s key p unc padded meta_len now off a
        (put_at env s key p unc padded meta_len now off a)
unfolding put_at
put_at-Put env s key p unc padded meta_len now off a =
    go (write_extent env s.dev off p) (write_extent-Written env s.dev off p)
  where
    after : Result ℕ × DeviceIo → Result (Unit {0}) × Inner
    after w = elim w.0 [
      | err e ↦ (err e, record s { dev = w.1; allocator = release (some a) off padded })
      | ok crc ↦
          let s' : Inner = record s {
            dev = w.1;
            allocator = some a;
            index = record s.index { tombstones = remove key s.index.tombstones };
          } in
          (ok tt, record_file env key (new_info s p unc padded meta_len now off crc) s')
    ]

    go :
        (w : Result ℕ × DeviceIo)
        → Written off (encode_blocks env.crc p) s.dev (forget w.0, w.1)
        → Put env s key p unc padded meta_len now off a (after w)
    go (err e, d) h = failed e d h
    go (ok crc, d) h = stored crc d h

Written-Stores :
    (crc : Bytes → ℕ) (off : ℕ) (p : Bytes) (d d' : DeviceIo)
    → Written off (encode_blocks crc p) d (ok tt, d')
    → Stores crc d'.content off p
unfolding encode_blocks
Written-Stores crc off p d d' w =
    rw (w.written refl, ← length-encode_range crc p 0 (num_blocks (length p)))
      (bytes_at-overlay (encode_blocks crc p) off d.content)

module _ (env : Env) where
  -- `do_get` after the lookup.
  abbrev pub reading :
      Bytes → Compression → DeviceIo → Option ExtentInfo → Result (Bytes × ExtentInfo)
  reading key c d o = elim o [
    | none ↦ err (not_found key)
    | some info ↦ do
      content ← name_key key (read_and_decode_batched env.crc d info.offset info.size)
      expand env c info content
  ]

  pub do_get_of :
      (key : Bytes) (s : Inner) (o : Option ExtentInfo)
      → lookup key s.index.files ≡ o
      → do_get env key s ≡ reading key s.compression s.dev o
  unfolding do_get
  do_get_of key s o e = ap (reading key s.compression s.dev) e

  -- Reading an entry whose content stands on the device.
  read_stored :
      (key : Bytes) (s : Inner) (info : ExtentInfo) (p payload : Bytes)
      → lookup key s.index.files ≡ some info
      → read_and_decode_batched env.crc s.dev info.offset info.size ≡ ok p
      → ((p ≡ payload) × (info.uncompressed_size ≡ 0))
        ⊎ ((0 < info.uncompressed_size) × (decompress env.codecs s.compression p ≡ ok payload))
      → do_get env key s ≡ ok (payload, info)
  unfolding name_key expand
  read_stored key s info p payload found read (inl (same_bytes, plain)) =
      let e : ltb 0 info.uncompressed_size ≡ false = ground arith in
      do_get_of key s (some info) found ∙ rw (read, e, same_bytes) refl
  read_stored key s info p payload found read (inr (pos, plain)) =
      let e : ltb 0 info.uncompressed_size ≡ true = ground arith in
      do_get_of key s (some info) found ∙ rw (read, e, plain) refl

  -- A read depends on the entry, the compression and the bytes of the entry's extent.
  pub do_get-cong :
      (key : Bytes) (s s' : Inner)
      → lookup key s'.index.files ≡ lookup key s.index.files
      → s'.compression ≡ s.compression
      → s'.dev.unreadable ≡ s.dev.unreadable
      → ((i : ExtentInfo)
          → lookup key s.index.files ≡ some i
          → (x : ℕ) → i.offset ≤ x
          → x < i.offset + num_blocks i.size * block_alignment
          → s'.dev.content x ≡ s.dev.content x)
      → do_get env key s' ≡ do_get env key s
  do_get-cong key s s' files compression readable same_bytes =
      do_get_of key s' (lookup key s.index.files) files
      ∙ rw compression (go (lookup key s.index.files) refl)
      ∙ sym (do_get_of key s (lookup key s.index.files) refl)
    where
      go :
          (o : Option ExtentInfo)
          → lookup key s.index.files ≡ o
          → reading key s.compression s'.dev o ≡ reading key s.compression s.dev o
      go none e = refl
      go (some i) e =
          ap (λ r. name_key key r >>= expand env s.compression i)
            (read_and_decode_batched-cong env s.dev s'.dev readable i.offset i.size
              (same_bytes i e))

  frame_far :
      (off padded o psize size : ℕ) (p : Bytes) {d : DeviceIo} {r : Result (Unit {0}) × DeviceIo}
      → Written off (encode_blocks env.crc p) d r
      → padded ≡ num_blocks (length p) * block_alignment
      → (psize ≡ num_blocks size * block_alignment) × ((off + padded ≤ o) ⊎ (o + psize ≤ off))
      → (x : ℕ) → o ≤ x
      → x < o + num_blocks size * block_alignment
      → r.1.content x ≡ d.content x
  unfolding encode_blocks
  frame_far off padded o psize size p w blocks (same_size, inl ahead) x u v =
      w.frame x
        (inr (omega (arith, blocks, length-encode_range env.crc p 0 (num_blocks (length p)))))
  frame_far off padded o psize size p w blocks (same_size, inr behind) x u v =
      w.frame x (inl (omega (arith, same_size)))

  module _ (s : Inner) (key p : Bytes) (unc padded meta_len now off : ℕ) (a : ExtentAllocator) where
    pub Put-read :
        (payload : Bytes) (r : Result (Unit {0}) × Inner)
        → ((b : Bytes) → env.crc b < 2 ^ 32)
        → ((o n : ℕ) → s.dev.unreadable o n ≡ false)
        → ((p ≡ payload) × (unc ≡ 0))
          ⊎ ((0 < unc) × (decompress env.codecs s.compression p ≡ ok payload))
        → Put env s key p unc padded meta_len now off a r
        → r.0 ≡ ok tt
        → (info : ExtentInfo) × (do_get env key r.1 ≡ ok (payload, info))
          × (info.meta_len ≡ meta_len)
          × (info.last_modified ≡ now)
    unfolding record_file mark_shard_dirty
    Put-read payload r u good restores (failed e d w) h = cc
    Put-read payload r u good restores (stored crc d w) h =
        let info = new_info s p unc padded meta_len now off crc in
        let after : Inner = record_file env key info (record s {
          dev = d;
          allocator = some a;
          index = record s.index { tombstones = remove key s.index.tombstones };
        }) in
        let found : lookup key (insert key info (remove key s.index.files)) ≡ some info =
          lookup-insert key key info (remove key s.index.files) ∙ rw (same_refl key) refl in
        let read : read_and_decode_batched env.crc d off (length p) ≡ ok p =
          read_and_decode_batched_stored env.crc d off p u (λ o n. rw w.unreadable (good o n))
            (Written-Stores env.crc off p s.dev d w) in
        (info, read_stored key after info p payload found read restores, refl, refl)

    pub Put-others :
        (k : Bytes) (r : Result (Unit {0}) × Inner)
        → (key ≢ k) ⊎ (r.0 ≢ ok tt)
        → padded ≡ num_blocks (length p) * block_alignment
        → ((i : ExtentInfo)
            → lookup k s.index.files ≡ some i
            → (i.padded_size ≡ num_blocks i.size * block_alignment)
              × ((off + padded ≤ i.offset) ⊎ (i.offset + i.padded_size ≤ off)))
        → Put env s key p unc padded meta_len now off a r
        → do_get env k r.1 ≡ do_get env k s
    unfolding record_file mark_shard_dirty
    Put-others k r other blocks far (failed e d w) =
        do_get-cong k s (record s { dev = d; allocator = release (some a) off padded }) refl refl
          w.unreadable
          (λ i h x u v.
            frame_far off padded i.offset i.padded_size i.size p w blocks (far i h) x u v)
    Put-others k r other blocks far (stored crc d w) =
        let info = new_info s p unc padded meta_len now off crc in
        let after : Inner = record_file env key info (record s {
          dev = d;
          allocator = some a;
          index = record s.index { tombstones = remove key s.index.tombstones };
        }) in
        let ne : same key k ≡ false = elim (Bool-cases (same key k)) [
          | inl e ↦ absurd (elim other [ inl n ↦ n (same→≡ key k e) | inr n ↦ n refl ])
          | inr e ↦ e
        ] in
        let files : lookup k (insert key info (remove key s.index.files)) ≡ lookup k s.index.files =
          lookup-insert key k info (remove key s.index.files)
          ∙ rw ne (lookup-remove key k s.index.files ∙ rw ne refl) in
        do_get-cong k s after files refl w.unreadable (λ i h x u v.
          frame_far off padded i.offset i.padded_size i.size p w blocks (far i h) x u v)
