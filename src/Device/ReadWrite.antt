-- ===== src/Device/ReadWrite.antt =====
-- Reading and writing bytes of the file of rawobjstr/src/io.rs.
use mathlib.Core.Path.{fun_ext, ap₂}
use native.Mathlib.Nat.{add-zero, zero-add}
use objstr.Base.{
  ℕ, zero, suc, ◌+◌, ◌≤◌, ◌<◌, ◌≡◌, ◌⊎◌, inl, inr, refl, ap, [], ◌∷◌, ◌++◌, ◌==◌, arith, ◌∙◌,
  length, Bool-cases, sym,
}
use objstr.RawError.{Bytes}
use objstr.Device.{overlay, bytes_at}

-- A write changes nothing outside its range.
pub overlay-outside :
    (bytes : Bytes) (offset x : ℕ) (f : ℕ → ℕ)
    → (x < offset) ⊎ (offset + length bytes ≤ x)
    → overlay bytes offset f x ≡ f x
unfolding overlay
overlay-outside [] offset x f h = refl
overlay-outside (b ∷ rest) offset x f h = ground (arith, overlay-outside rest (offset + 1) x f)

overlay-cong :
    (b : Bytes) (offset x : ℕ) (f g : ℕ → ℕ)
    → f x ≡ g x
    → overlay b offset f x ≡ overlay b offset g x
unfolding overlay
overlay-cong [] offset x f g h = h
overlay-cong (c ∷ b) offset x f g h = ground (arith, overlay-cong b (offset + 1) x f g)

overlay-append_at :
    (a b : Bytes) (offset x : ℕ) (f : ℕ → ℕ)
    → overlay (a ++ b) offset f x ≡ overlay b (offset + length a) (overlay a offset f) x
unfolding overlay
overlay-append_at [] b offset x f = rw (add-zero offset)
overlay-append_at (c ∷ a) b offset x f =
    let g : ℕ → ℕ = overlay (c ∷ a) offset f in
    let k : offset + suc (length a) ≡ offset + 1 + length a = omega arith in
    rw k (elim (Bool-cases (x == offset)) [
      | inl e ↦
          rw e (sym (overlay-outside b (offset + 1 + length a) x g (inl (ground arith)) ∙ rw e))
      | inr e ↦ rw e (
          overlay-append_at a b (offset + 1) x f
          ∙ overlay-cong b (offset + 1 + length a) x (overlay a (offset + 1) f) g (rw e))
    ])

-- Two adjacent writes are one write of the concatenation.
pub overlay-append :
    (a b : Bytes) (offset : ℕ) (f : ℕ → ℕ)
    → overlay (a ++ b) offset f ≡ overlay b (offset + length a) (overlay a offset f)
overlay-append a b offset f = fun_ext (λ x. overlay-append_at a b offset x f)

pub length-bytes_at : (f : ℕ → ℕ) (offset n : ℕ) → length (bytes_at f offset n) ≡ n
unfolding bytes_at
length-bytes_at f offset zero = refl
length-bytes_at f offset (suc n) = ap suc (length-bytes_at f (offset + 1) n)

-- Reading depends on the bytes of the range only.
pub bytes_at-cong :
    (f g : ℕ → ℕ) (offset n : ℕ)
    → ((x : ℕ) → offset ≤ x → x < offset + n → f x ≡ g x)
    → bytes_at f offset n ≡ bytes_at g offset n
unfolding bytes_at
bytes_at-cong f g offset zero h = refl
bytes_at-cong f g offset (suc n) h =
    ap₂ (λ a r. a ∷ r) (h offset (omega arith) (omega arith))
      (bytes_at-cong f g (offset + 1) n (λ x p q. h x (omega arith) (omega arith)))

-- What was written is read back.
pub bytes_at-overlay :
    (bytes : Bytes) (offset : ℕ) (f : ℕ → ℕ)
    → bytes_at (overlay bytes offset f) offset (length bytes) ≡ bytes
unfolding bytes_at overlay
bytes_at-overlay [] offset f = refl
bytes_at-overlay (b ∷ rest) offset f =
    ap₂ (λ a r. a ∷ r) (ground arith)
      (bytes_at-cong (overlay (b ∷ rest) offset f) (overlay rest (offset + 1) f) (offset + 1)
          (length rest) (λ x p q. ground arith)
        ∙ bytes_at-overlay rest (offset + 1) f)

pub bytes_at-append :
    (f : ℕ → ℕ) (offset n m : ℕ)
    → bytes_at f offset (n + m) ≡ bytes_at f offset n ++ bytes_at f (offset + n) m
unfolding bytes_at
bytes_at-append f offset zero m = rw (add-zero offset, zero-add)
bytes_at-append f offset (suc n) m =
    let k : suc n + m ≡ suc (n + m) = omega arith in
    let j : offset + suc n ≡ offset + 1 + n = omega arith in
    rw (k, j) (ap (λ t. f offset ∷ t) (bytes_at-append f (offset + 1) n m))
