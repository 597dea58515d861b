-- ===== src/Base/Lists.antt =====
-- Lists measured by native numbers, and a predicate on all the members of a list.
use Prim.Native.Nat.{ℕ, zero, suc, ◌+◌, ◌-◌, ◌≤◌, min}
use mathlib.Core.Path.{◌≡◌, refl, sym, ap, ◌∙◌}
use mathlib.Core.List.{List, [], ◌∷◌, ◌++◌}
use native.Mathlib.Omega.{arith}

module _ {ℓ} {A : Type ℓ} where
  abbrev pub length : List A → ℕ
  length [] = 0
  length (x ∷ xs) = suc (length xs)

  abbrev pub take : ℕ → List A → List A
  take zero xs = []
  take (suc n) [] = []
  take (suc n) (x ∷ xs) = x ∷ take n xs

  abbrev pub drop : ℕ → List A → List A
  drop zero xs = xs
  drop (suc n) [] = []
  drop (suc n) (x ∷ xs) = drop n xs

module _ {ℓ} {A : Type ℓ} where
  pub length-append : (xs ys : List A) → length (xs ++ ys) ≡ length xs + length ys
  length-append [] ys = omega arith
  length-append (x ∷ xs) ys = omega (arith, length-append xs ys)

  pub length-take : (n : ℕ) (xs : List A) → length (take n xs) ≡ min n (length xs)
  length-take zero xs = omega arith
  length-take (suc n) [] = omega arith
  length-take (suc n) (x ∷ xs) = omega (arith, length-take n xs)

  pub length-drop : (n : ℕ) (xs : List A) → length (drop n xs) ≡ length xs - n
  length-drop zero xs = omega arith
  length-drop (suc n) [] = omega arith
  length-drop (suc n) (x ∷ xs) = omega (arith, length-drop n xs)

  pub take-append-drop : (n : ℕ) (xs : List A) → take n xs ++ drop n xs ≡ xs
  take-append-drop zero xs = refl
  take-append-drop (suc n) [] = refl
  take-append-drop (suc n) (x ∷ xs) = ap (λ t. x ∷ t) (take-append-drop n xs)

module _ {ℓ} {A : Type ℓ} where
  drop_nil : (m : ℕ) → [] ≡ drop {A = A} m []
  drop_nil zero = refl
  drop_nil (suc m) = refl

  take_nil : (m : ℕ) → [] ≡ take {A = A} m []
  take_nil zero = refl
  take_nil (suc m) = refl

  drop_at : {m n : ℕ} (xs : List A) → m ≡ n → drop m xs ≡ drop n xs
  drop_at xs e = ap (λ k. drop k xs) e

  take_at : {m n : ℕ} (xs : List A) → m ≡ n → take m xs ≡ take n xs
  take_at xs e = ap (λ k. take k xs) e

module _ {ℓ} {A : Type ℓ} where
  pub drop-drop : (k n : ℕ) (xs : List A) → drop k (drop n xs) ≡ drop (n + k) xs
  drop-drop k zero xs = let e : k ≡ 0 + k = omega arith in drop_at xs e
  drop-drop k (suc n) [] = sym (drop_nil k) ∙ drop_nil (suc n + k)
  drop-drop k (suc n) (x ∷ xs) =
      let e : suc (n + k) ≡ suc n + k = omega arith in drop-drop k n xs ∙ drop_at (x ∷ xs) e

  pub drop-take : (k n : ℕ) (xs : List A) → drop k (take n xs) ≡ take (n - k) (drop k xs)
  drop-take zero n xs = let e : n ≡ n - 0 = omega arith in take_at xs e
  drop-take (suc k) zero xs = let e : 0 ≡ 0 - suc k = omega arith in take_at (drop (suc k) xs) e
  drop-take (suc k) (suc n) [] = take_nil (suc n - suc k)
  drop-take (suc k) (suc n) (x ∷ xs) =
      let e : n - k ≡ suc n - suc k = omega arith in drop-take k n xs ∙ take_at (drop k xs) e

  pub drop-append : (xs ys : List A) → drop (length xs) (xs ++ ys) ≡ ys
  drop-append [] ys = refl
  drop-append (x ∷ xs) ys = drop-append xs ys

  pub take-append : (xs ys : List A) → take (length xs) (xs ++ ys) ≡ xs
  take-append [] ys = refl
  take-append (x ∷ xs) ys = ap (λ t. x ∷ t) (take-append xs ys)

-- the members from index `i` up to, and without, index `j`
abbrev pub slice {ℓ} : {A : Type ℓ} → List A → ℕ → ℕ → List A
slice xs i j = take (j - i) (drop i xs)

module _ {ℓ} {A : Type ℓ} where
  pub length-slice : (xs : List A) (i j : ℕ) → j ≤ length xs → length (slice xs i j) ≡ j - i
  length-slice xs i j h = omega (arith, length-take (j - i) (drop i xs), length-drop i xs)

  -- what stands between two lists
  pub slice-append :
      (xs ys zs : List A) → slice (xs ++ (ys ++ zs)) (length xs) (length xs + length ys) ≡ ys
  slice-append xs ys zs =
      let e : length xs + length ys - length xs ≡ length ys = omega arith in
      ap (take (length xs + length ys - length xs)) (drop-append xs (ys ++ zs))
      ∙ take_at (ys ++ zs) e
      ∙ take-append ys zs

  -- the rest of a slice is a slice
  pub drop-slice : (xs : List A) (i k j : ℕ) → i ≤ k → drop (k - i) (slice xs i j) ≡ slice xs k j
  drop-slice xs i k j h =
      let e : i + (k - i) ≡ k = omega arith in
      let f : j - i - (k - i) ≡ j - k = omega arith in
      drop-take (k - i) (j - i) (drop i xs)
      ∙ ap (take (j - i - (k - i))) (drop-drop (k - i) i xs ∙ drop_at xs e)
      ∙ take_at (drop k xs) f

abbrev pub All {ℓ κ} : {A : Type ℓ} → (A → Type κ) → List A → Type κ
All P [] = Unit
All P (x ∷ xs) = P x × All P xs
