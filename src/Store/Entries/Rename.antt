-- ===== src/Store/Entries/Rename.antt =====
-- `rename` of rawobjstr/src/store.rs: the store stays tidy, and the object moves.
use objstr.Base.{
  ℕ, ◌≡◌, ◌≢◌, refl, sym, ◌∙◌, inl, inr, Bool, true, false, Option, none, some, ltb, length,
  if◌then◌else◌, Bool-cases,
}
use objstr.RawError.{Bytes, Result, ok, err, read_only, key_too_long, not_found, ◌>>=◌}
use objstr.Alloc.{ExtentAllocator}
use objstr.Dict.{
  Dict, lookup, insert, remove, lookup-insert, lookup-remove, same, same_refl, same→≡,
}
use objstr.Index.{ExtentInfo}
use objstr.Device.{DeviceIo}
use objstr.Extent.{read_and_decode_batched}
use objstr.Store.{Env, Inner, release_old, release, mark_shard_dirty, do_get, name_key, expand}
use objstr.Store.Tidy.{lookup-remove-some, remove-IsTidy}
use objstr.Store.Put.{Tidy, IsTidyStore, replace-Tidy}
use objstr.Store.Get.{do_get_of, do_get-cong, reading}
use objstr.Store.Entries.{rename, move_entry}

module _ (env : Env) (from_key to_key : Bytes) (s : Inner) where
  moved-Tidy :
      (hi : ℕ) (info : ExtentInfo)
      → lookup from_key s.index.files ≡ some info
      → (o : Option ExtentAllocator) → Tidy hi o s.index.files
      → Tidy hi
          (release_old (lookup to_key (remove from_key s.index.files)) o)
          (insert to_key info (remove to_key (remove from_key s.index.files)))
  unfolding release_old release
  moved-Tidy hi info found none t = nothing (lookup to_key (remove from_key s.index.files))
    where
      nothing :
          (p : Option ExtentInfo)
          → Tidy hi
              (release_old p none)
              (insert to_key info (remove to_key (remove from_key s.index.files)))
      nothing none = tt
      nothing (some i) = tt
  moved-Tidy hi info found (some a) t =
      replace-Tidy to_key info (remove from_key s.index.files)
        (remove-IsTidy from_key s.index.files t) (t.placed from_key info found)
        (λ k i h.
          let (h', ne) = lookup-remove-some from_key k i s.index.files h in
          t.apart from_key k info i found h' ne)

  abbrev guarded : Bool → Bool → Option ExtentInfo → Result (Unit {0}) × Inner
  guarded ro long o =
      if ro
      then (err read_only, s)
      else if long
      then (err (key_too_long (length to_key) s.max_key_length), s)
      else elim o [
        | none ↦ (err (not_found from_key), s)
        | some info ↦ (ok tt, move_entry env from_key to_key info s)
      ]

  -- A rename keeps a tidy store tidy, also over an object that is there, which loses its extent.
  pub rename-IsTidy : (hi : ℕ) → IsTidyStore hi s → IsTidyStore hi (rename env from_key to_key s).1
  unfolding rename move_entry mark_shard_dirty
  rename-IsTidy hi t =
      go s.ro (ltb s.max_key_length (length to_key)) (lookup from_key s.index.files) refl
    where
      go :
          (ro long : Bool) (o : Option ExtentInfo)
          → lookup from_key s.index.files ≡ o
          → IsTidyStore hi (guarded ro long o).1
      go true long o e = t
      go false true o e = t
      go false false none e = t
      go false false (some info) e = moved-Tidy hi info e s.allocator t

  read_renamed :
      (c : objstr.Compression.Compression) (d : DeviceIo) (info : ExtentInfo)
      (r : Bytes × ExtentInfo)
      → reading env from_key c d (some info) ≡ ok r
      → reading env to_key c d (some info) ≡ ok r
  unfolding name_key
  read_renamed c d info r h = go (read_and_decode_batched env.crc d info.offset info.size) h
    where
      go :
          (b : Result Bytes)
          → (name_key from_key b >>= expand env c info) ≡ ok r
          → (name_key to_key b >>= expand env c info) ≡ ok r
      go (ok b) q = q
      go (err e) q = cc

  -- After a rename that succeeds the new key reads as the old one did, the old key is not found
  -- unless it is the new one, and every other object reads as before.
  pub do_get-rename :
      (rename env from_key to_key s).0 ≡ ok tt
      → ((r : Bytes × ExtentInfo)
          → do_get env from_key s ≡ ok r
          → do_get env to_key (rename env from_key to_key s).1 ≡ ok r)
        × (from_key ≢ to_key
            → do_get env from_key (rename env from_key to_key s).1 ≡ err (not_found from_key))
        × ((k : Bytes)
            → from_key ≢ k
            → to_key ≢ k
            → do_get env k (rename env from_key to_key s).1 ≡ do_get env k s)
  unfolding rename move_entry mark_shard_dirty
  do_get-rename =
      go s.ro (ltb s.max_key_length (length to_key)) (lookup from_key s.index.files) refl
    where
      rest : Dict ExtentInfo
      rest = remove from_key s.index.files

      apart_keys : (a b : Bytes) → a ≢ b → same a b ≡ false
      apart_keys a b n = elim (Bool-cases (same a b)) [
        | inl e ↦ absurd (n (same→≡ a b e))
        | inr e ↦ e
      ]

      there :
          (info : ExtentInfo) → lookup to_key (insert to_key info (remove to_key rest)) ≡ some info
      there info =
          lookup-insert to_key to_key info (remove to_key rest) ∙ rw (same_refl to_key) refl

      elsewhere :
          (info : ExtentInfo) (k : Bytes)
          → to_key ≢ k
          → lookup k (insert to_key info (remove to_key rest)) ≡ lookup k rest
      elsewhere info k n =
          lookup-insert to_key k info (remove to_key rest)
          ∙ rw (apart_keys to_key k n)
              (lookup-remove to_key k rest ∙ rw (apart_keys to_key k n) refl)

      go :
          (ro long : Bool) (o : Option ExtentInfo)
          → lookup from_key s.index.files ≡ o
          → (guarded ro long o).0 ≡ ok tt
          → ((r : Bytes × ExtentInfo)
              → do_get env from_key s ≡ ok r
              → do_get env to_key (guarded ro long o).1 ≡ ok r)
            × (from_key ≢ to_key
                → do_get env from_key (guarded ro long o).1 ≡ err (not_found from_key))
            × ((k : Bytes)
                → from_key ≢ k
                → to_key ≢ k
                → do_get env k (guarded ro long o).1 ≡ do_get env k s)
      go true long o e h = cc
      go false true o e h = cc
      go false false none e h = cc
      go false false (some info) e h =
          let after = move_entry env from_key to_key info s in
          (
            λ r q.
                do_get_of env to_key after (some info) (there info)
                ∙ read_renamed s.compression s.dev info r
                    (sym (do_get_of env from_key s (some info) e) ∙ q),
            λ n. do_get_of env from_key after none (
                elsewhere info from_key (λ p. n (sym p))
                ∙ lookup-remove from_key from_key s.index.files
                ∙ rw (same_refl from_key) refl),
            λ k n m.
                do_get-cong env k s after
                  (elsewhere info k m
                    ∙ lookup-remove from_key k s.index.files
                    ∙ rw (apart_keys from_key k n) refl)
                  refl refl (λ i g x u v. refl),
          )
