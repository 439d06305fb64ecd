-- ===== src/Store/PutGet.antt =====
-- Puts, deletes and reads of rawobjstr/src/store.rs together.
use mathlib.Core.Path.{subst}
use objstr.Base.{
  ℕ, ◌^◌, ◌≤◌, ◌<◌, ◌≡◌, ◌≢◌, ◌⊎◌, inl, inr, refl, ◌∙◌, true, false, ◌==◌, ltb, Option, none, some,
  [], arith, Bool-cases, length,
}
use objstr.RawError.{Bytes, Result, ok, err, block_alignment, not_found}
use objstr.Alloc.{ExtentAllocator}
use objstr.Extent.{padded_extent_size}
use objstr.Dict.{lookup, remove, lookup-remove, same, same_refl, same→≡}
use objstr.Index.{ExtentInfo}
use objstr.Compression.RoundTrip.{IsCodec}
use objstr.Store.{
  Env, Inner, put_at, stored_form, do_put_with_meta, delete, mark_shard_dirty, do_get,
}
use objstr.Store.Tidy.{IsTidy, alloc-fresh}
use objstr.Store.Put.{Tidy, IsTidyStore, padded-IsSize}
use objstr.Store.Start.{Start, refused, begun, do_put-Start, stored_form-Restores}
use objstr.RawError.{align_up}
use objstr.Alloc.{largest}
use objstr.Alloc.Laws.{align_up_bounds, alloc_outcome}
use objstr.Store.{allocate, release_old}
use objstr.Store.Get.{Put, failed, stored, put_at-Put, Put-read, Put-others, do_get_of, do_get-cong}

module _ (env : Env) (key payload : Bytes) (meta_len now : ℕ) (s : Inner) where
  -- Where each codec restores what it compressed, the checksum is a 32-bit word and the device can
  -- be read: after a put that succeeds a read of the key returns the payload, compressed or not,
  -- with the metadata length and the time of the put.
  pub do_get-do_put :
      IsCodec env.codecs
      → ((b : Bytes) → env.crc b < 2 ^ 32)
      → ((o n : ℕ) → s.dev.unreadable o n ≡ false)
      → (do_put_with_meta env key payload meta_len now s).0 ≡ ok tt
      → (info : ExtentInfo) × (do_get env key (do_put_with_meta env key payload meta_len now s).1
          ≡ ok (payload, info))
        × (info.meta_len ≡ meta_len)
        × (info.last_modified ≡ now)
  do_get-do_put laws u good h =
      go (do_put_with_meta env key payload meta_len now s)
        (do_put-Start env key payload meta_len now s) h
    where
      go :
          (r : Result (Unit {0}) × Inner)
          → Start env key payload meta_len now s r
          → r.0 ≡ ok tt
          → (info : ExtentInfo) × (do_get env key r.1 ≡ ok (payload, info))
            × (info.meta_len ≡ meta_len)
            × (info.last_modified ≡ now)
      go r (refused e) g = cc
      go r (begun padded off a a' pos q fits done) g =
          let form = stored_form env s.compression payload in
          Put-read env s key form.0 form.1 padded meta_len now off a' payload
            (put_at env s key form.0 form.1 padded meta_len now off a') u good
            (stored_form-Restores env laws s.compression payload pos).1
            (put_at-Put env s key form.0 form.1 padded meta_len now off a') g

  -- In a tidy store, with codecs that turn no data into nothing, a put leaves every other object
  -- readable as before; one that fails, also in the middle of a write, leaves the object under its
  -- own key as well.
  pub do_get-do_put_other :
      (hi : ℕ) (k : Bytes)
      → IsCodec env.codecs
      → IsTidyStore hi s
      → (key ≢ k) ⊎ ((do_put_with_meta env key payload meta_len now s).0 ≢ ok tt)
      → do_get env k (do_put_with_meta env key payload meta_len now s).1 ≡ do_get env k s
  do_get-do_put_other hi k laws t other =
      go (do_put_with_meta env key payload meta_len now s)
        (do_put-Start env key payload meta_len now s) other
    where
      go :
          (r : Result (Unit {0}) × Inner)
          → Start env key payload meta_len now s r
          → (key ≢ k) ⊎ (r.0 ≢ ok tt)
          → do_get env k r.1 ≡ do_get env k s
      go r (refused e) o = refl
      go r (begun padded off a a' pos q fits done) o =
          let form = stored_form env s.compression payload in
          let (blocks, size) =
            padded-IsSize (length form.0) padded
              (stored_form-Restores env laws s.compression payload pos).0 fits in
          let tidy : IsTidy hi a s.index.files = subst (λ z. Tidy hi z s.index.files) q t in
          let fresh = alloc-fresh tidy size (omega (arith, blocks)) done in
          Put-others env s key form.0 form.1 padded meta_len now off a' k
            (put_at env s key form.0 form.1 padded meta_len now off a') o blocks
            (λ i h. ((tidy.placed k i h).blocks, fresh.4 k i h))
            (put_at-Put env s key form.0 form.1 padded meta_len now off a')

  -- In a tidy store that is open for writing, with codecs that turn no data into nothing, a put of
  -- a payload that is not empty, under a key that is not too long, succeeds where the largest free
  -- region holds its padded size and the device refuses no write.
  pub do_put_with_meta_succeeds :
      (hi : ℕ) {padded : ℕ} {a : ExtentAllocator}
      → s.ro ≡ false
      → 0 < length payload
      → length key ≤ s.max_key_length
      → IsCodec env.codecs
      → s.allocator ≡ some a
      → IsTidyStore hi s
      → padded_extent_size (length (stored_form env s.compression payload).0) ≡ ok padded
      → padded ≤ largest a.free_list
      → s.dev.ro ≡ false
      → s.dev.answers ≡ []
      → (do_put_with_meta env key payload meta_len now s).0 ≡ ok tt
  unfolding do_put_with_meta allocate
  do_put_with_meta_succeeds hi {padded} {a} ro pos short laws found t fits room writable accepts =
      let form = stored_form env s.compression payload in
      let tidy : IsTidy hi a s.index.files = subst (λ z. Tidy hi z s.index.files) found t in
      let (blocks, size) =
        padded-IsSize (length form.0) padded
          (stored_form-Restores env laws s.compression payload pos).0 fits in
      let exact : align_up padded block_alignment ≡ padded =
        omega (arith, align_up_bounds padded size, blocks, size) in
      let (off, a', done) = (alloc_outcome tidy.valid size).0 (omega (arith, exact, room)) in
      let empty : (length payload == 0) ≡ false = ground arith in
      let long : ltb s.max_key_length (length key) ≡ false = ground arith in
      rw (ro, empty, long, fits, found, done)
        (written (put_at env s key form.0 form.1 padded meta_len now off a')
          (put_at-Put env s key form.0 form.1 padded meta_len now off a') writable accepts)
    where
      written :
          {p : Bytes} {unc padded off : ℕ} {a' : ExtentAllocator} (r : Result (Unit {0}) × Inner)
          → Put env s key p unc padded meta_len now off a' r
          → s.dev.ro ≡ false
          → s.dev.answers ≡ []
          → r.0 ≡ ok tt
      written r (failed e d w) x y = (w.total x y).0
      written r (stored crc d w) x y = refl

module _ (env : Env) (key : Bytes) (s : Inner) where
  -- A delete in a store that is open for writing succeeds, also on a missing key; the key is then
  -- not found, and every other object reads as before.
  pub do_get-delete :
      s.ro ≡ false
      → ((delete env key s).0 ≡ ok tt)
        × (do_get env key (delete env key s).1 ≡ err (not_found key))
        × ((k : Bytes) → key ≢ k → do_get env k (delete env key s).1 ≡ do_get env k s)
  unfolding delete mark_shard_dirty do_get
  do_get-delete writable = rw writable (go (lookup key s.index.files) refl)
    where
      after : Option ExtentInfo → Result (Unit {0}) × Inner
      after o = elim o [
        | none ↦ (ok tt, s)
        | some info ↦
            let s' : Inner = record s {
              allocator = release_old (some info) s.allocator;
              index = record s.index { files = remove key s.index.files };
              dirty = true;
            } in
            (ok tt, mark_shard_dirty env key s')
      ]

      gone : lookup key (remove key s.index.files) ≡ none
      gone = lookup-remove key key s.index.files ∙ rw (same_refl key) refl

      kept : (k : Bytes) → key ≢ k → lookup k (remove key s.index.files) ≡ lookup k s.index.files
      kept k n = elim (Bool-cases (same key k)) [
        | inl e ↦ absurd (n (same→≡ key k e))
        | inr e ↦ lookup-remove key k s.index.files ∙ rw e refl
      ]

      go :
          (o : Option ExtentInfo)
          → lookup key s.index.files ≡ o
          → ((after o).0 ≡ ok tt)
            × (do_get env key (after o).1 ≡ err (not_found key))
            × ((k : Bytes) → key ≢ k → do_get env k (after o).1 ≡ do_get env k s)
      go none e = (refl, do_get_of env key s none e, λ k n. refl)
      go (some info) e = (
        refl,
        do_get_of env key (after (some info)).1 none gone,
        λ k n. do_get-cong env k s (after (some info)).1 (kept k n) refl refl (λ i h x u v. refl),
      )
