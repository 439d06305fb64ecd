-- ===== src/Base/Lists.antt =====
-- Lists measured and indexed by native numbers, under the library's names.
use Prim.Native.Nat.{ℕ, zero, suc, ◌+◌, ◌-◌, ◌≤◌, min}
use mathlib.Core.Path.{◌≡◌, refl, ap, sym, ◌∙◌, ap₂}
use mathlib.Core.Logic.{◌≢◌}
use native.Mathlib.Decide.{dec_lt}
use mathlib.Core.List.{List, [], ◌∷◌, ◌++◌}
use mathlib.Core.Option.{Option, none, some}
use native.Mathlib.Omega.{arith}

module _ {ℓ} {A : Type ℓ} where
  abbrev pub length : List A → ℕ
  length [] = 0
  length (x ∷ xs) = suc (length xs)

  abbrev pub get_elem? : List A → ℕ → Option A
  get_elem? [] i = none
  get_elem? (x ∷ xs) zero = some x
  get_elem? (x ∷ xs) (suc i) = get_elem? xs i

  -- A write out of bounds changes nothing.
  abbrev pub set : List A → ℕ → A → List A
  set [] i v = []
  set (x ∷ xs) zero v = v ∷ xs
  set (x ∷ xs) (suc i) v = x ∷ set xs i v

  -- `Vec::insert`; past the end it appends.
  abbrev pub insert_at : ℕ → A → List A → List A
  insert_at zero v xs = v ∷ xs
  insert_at (suc i) v [] = v ∷ []
  insert_at (suc i) v (x ∷ xs) = x ∷ insert_at i v xs

  -- `Vec::remove`; past the end it changes nothing.
  abbrev pub remove_at : ℕ → List A → List A
  remove_at i [] = []
  remove_at zero (x ∷ xs) = xs
  remove_at (suc i) (x ∷ xs) = x ∷ remove_at i xs

  abbrev pub take : ℕ → List A → List A
  take zero xs = []
  take (suc n) [] = []
  take (suc n) (x ∷ xs) = x ∷ take n xs

  abbrev pub drop : ℕ → List A → List A
  drop zero xs = xs
  drop (suc n) [] = []
  drop (suc n) (x ∷ xs) = drop n xs

  abbrev pub replicate : ℕ → A → List A
  replicate zero a = []
  replicate (suc n) a = a ∷ replicate n a

  -- `&xs[start..end]`
  abbrev pub slice : ℕ → ℕ → List A → List A
  slice start end xs = take (end - start) (drop start xs)

  pub length-append : (xs ys : List A) → length (xs ++ ys) ≡ length xs + length ys
  length-append [] ys = omega arith
  length-append (x ∷ xs) ys = omega (arith, length-append xs ys)

  pub length-take : (n : ℕ) (xs : List A) → length (take n xs) ≡ min n (length xs)
  length-take zero xs = omega arith
  length-take (suc n) [] = omega arith
  length-take (suc n) (x ∷ xs) = omega (arith, length-take n xs)

  pub length-drop : (n : ℕ) (xs : List A) → length (drop n xs) ≡ length xs - n
  length-drop zero xs = omega arith
  length-drop (suc n) [] = omega arith
  length-drop (suc n) (x ∷ xs) = omega (arith, length-drop n xs)

  pub length-replicate : (n : ℕ) (a : A) → length (replicate n a) ≡ n
  length-replicate zero a = refl
  length-replicate (suc n) a = ap suc (length-replicate n a)

  pub take-append-drop : (n : ℕ) (xs : List A) → take n xs ++ drop n xs ≡ xs
  take-append-drop zero xs = refl
  take-append-drop (suc n) [] = refl
  take-append-drop (suc n) (x ∷ xs) = ap (λ t. x ∷ t) (take-append-drop n xs)

  pub take-of_length-le : (n : ℕ) (xs : List A) → length xs ≤ n → take n xs ≡ xs
  take-of_length-le zero [] h = refl
  take-of_length-le zero (x ∷ xs) h = absurd (omega arith)
  take-of_length-le (suc n) [] h = refl
  take-of_length-le (suc n) (x ∷ xs) h = ap (λ t. x ∷ t) (take-of_length-le n xs (omega arith))

  pub take-append_left : (xs ys : List A) → take (length xs) (xs ++ ys) ≡ xs
  take-append_left [] ys = refl
  take-append_left (x ∷ xs) ys = ap (λ t. x ∷ t) (take-append_left xs ys)

  pub drop-append_left : (xs ys : List A) → drop (length xs) (xs ++ ys) ≡ ys
  drop-append_left [] ys = refl
  drop-append_left (x ∷ xs) ys = drop-append_left xs ys

  pub drop-append_add :
      (xs ys : List A) (n k : ℕ) → k ≡ length xs + n → drop k (xs ++ ys) ≡ drop n ys
  drop-append_add [] ys n k h = let e : k ≡ n = omega arith in ap (λ t. drop t ys) e
  drop-append_add (x ∷ xs) ys n zero h = absurd (omega arith)
  drop-append_add (x ∷ xs) ys n (suc k) h = drop-append_add xs ys n k (omega arith)

  pub take-append_add :
      (xs ys : List A) (n k : ℕ) → k ≡ length xs + n → take k (xs ++ ys) ≡ xs ++ take n ys
  take-append_add [] ys n k h = let e : k ≡ n = omega arith in ap (λ t. take t ys) e
  take-append_add (x ∷ xs) ys n zero h = absurd (omega arith)
  take-append_add (x ∷ xs) ys n (suc k) h =
      ap (λ t. x ∷ t) (take-append_add xs ys n k (omega arith))

  pub take-append_le : (xs ys : List A) (n : ℕ) → n ≤ length xs → take n (xs ++ ys) ≡ take n xs
  take-append_le xs ys zero h = refl
  take-append_le [] ys (suc n) h = absurd (omega arith)
  take-append_le (x ∷ xs) ys (suc n) h = ap (λ t. x ∷ t) (take-append_le xs ys n (omega arith))

  pub take-nil : (n : ℕ) → ◌≡◌ {A = List A} (take n []) []
  take-nil zero = refl
  take-nil (suc n) = refl

  pub drop-nil : (n : ℕ) → ◌≡◌ {A = List A} (drop n []) []
  drop-nil zero = refl
  drop-nil (suc n) = refl

  pub take-add : (n m : ℕ) (xs : List A) → take (n + m) xs ≡ take n xs ++ take m (drop n xs)
  take-add zero m xs = ap (λ t. take t xs) (omega arith)
  take-add (suc n) m [] = take-nil (suc n + m) ∙ sym (take-nil m)
  take-add (suc n) m (x ∷ xs) =
      let e : suc n + m ≡ suc (n + m) = omega arith in rw e (ap (λ t. x ∷ t) (take-add n m xs))

  pub drop-drop : (n m : ℕ) (xs : List A) → drop m (drop n xs) ≡ drop (n + m) xs
  drop-drop zero m xs = ap (λ t. drop t xs) (omega arith)
  drop-drop (suc n) m [] = drop-nil m ∙ sym (drop-nil (suc n + m))
  drop-drop (suc n) m (x ∷ xs) =
      let e : suc n + m ≡ suc (n + m) = omega arith in rw e (drop-drop n m xs)

  pub take-min : (n : ℕ) (xs : List A) → take (min n (length xs)) xs ≡ take n xs
  take-min n xs = elim (dec_lt n (length xs)) [
    | yes h ↦ let e : min n (length xs) ≡ n = omega arith in ap (λ t. take t xs) e
    | no h ↦
        take-of_length-le (min n (length xs)) xs (omega arith)
        ∙ sym (take-of_length-le n xs (omega arith))
  ]

  pub take-append_first : (xs ys : List A) (n : ℕ) → length xs ≡ n → take n (xs ++ ys) ≡ xs
  take-append_first xs ys n h = ap (λ t. take t (xs ++ ys)) (sym h) ∙ take-append_left xs ys

  pub drop-append_first : (xs ys : List A) (n : ℕ) → length xs ≡ n → drop n (xs ++ ys) ≡ ys
  drop-append_first xs ys n h = ap (λ t. drop t (xs ++ ys)) (sym h) ∙ drop-append_left xs ys

  -- A slice that begins behind `xs`.
  pub slice-append_later :
      (xs ys : List A) (n a b c d : ℕ)
      → length xs ≡ n
      → c ≡ n + a
      → d ≡ n + b
      → slice c d (xs ++ ys) ≡ slice a b ys
  slice-append_later xs ys n a b c d h p q =
      let e : d - c ≡ b - a = omega arith in ap₂ take e (drop-append_add xs ys a c (omega arith))

  pub take-append_slice :
      (s w : ℕ) (xs : List A) → take s xs ++ slice s (min (s + w) (length xs)) xs ≡ take (s + w) xs
  take-append_slice s w xs =
      sym (take-add s (min (s + w) (length xs) - s) xs) ∙ elim (dec_lt (length xs) s) [
        | yes h ↦
            take-of_length-le (s + (min (s + w) (length xs) - s)) xs (omega arith)
            ∙ sym (take-of_length-le (s + w) xs (omega arith))
        | no h ↦
            let e : s + (min (s + w) (length xs) - s) ≡ min (s + w) (length xs) = omega arith in
            ap (λ t. take t xs) e ∙ take-min (s + w) xs
      ]

  pub get_elem?-set-same :
      (xs : List A) (i : ℕ) (v w : A) → get_elem? xs i ≡ some w → get_elem? (set xs i v) i ≡ some v
  get_elem?-set-same [] i v w h = cc
  get_elem?-set-same (x ∷ xs) zero v w h = refl
  get_elem?-set-same (x ∷ xs) (suc i) v w h = get_elem?-set-same xs i v w h

  pub get_elem?-set-other :
      (xs : List A) (i j : ℕ) (v : A) → i ≢ j → get_elem? (set xs i v) j ≡ get_elem? xs j
  get_elem?-set-other [] i j v h = refl
  get_elem?-set-other (x ∷ xs) zero zero v h = absurd (h refl)
  get_elem?-set-other (x ∷ xs) zero (suc j) v h = refl
  get_elem?-set-other (x ∷ xs) (suc i) zero v h = refl
  get_elem?-set-other (x ∷ xs) (suc i) (suc j) v h =
      get_elem?-set-other xs i j v (λ e. h (ap suc e))

  pub length-set_elem : (xs : List A) (i : ℕ) (v : A) → length (set xs i v) ≡ length xs
  length-set_elem [] i v = refl
  length-set_elem (x ∷ xs) zero v = refl
  length-set_elem (x ∷ xs) (suc i) v = ap suc (length-set_elem xs i v)
