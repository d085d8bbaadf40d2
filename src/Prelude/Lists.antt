-- ===== src/Prelude/Lists.antt =====
-- Lists measured by native numbers, and the iterator methods that the code uses.
use Prim.Native.Nat.{ℕ, zero, suc, ◌+◌, ◌≤◌}
use mathlib.Core.Path.{◌≡◌}
use mathlib.Core.Bool.{Bool, true, false, ◌&&◌, ◌||◌}
use mathlib.Core.List.{List, [], ◌∷◌, ◌++◌}
use mathlib.Core.Option.{Option, none, some}
use native.Mathlib.Omega.{arith}
use denia.Prelude.Tests.{if◌then◌else◌}

module _ {ℓ} {A : Type ℓ} where
  abbrev pub length : List A → ℕ
  length [] = 0
  length (x ∷ xs) = suc (length xs)

  abbrev pub get_elem? : List A → ℕ → Option A
  get_elem? [] i = none
  get_elem? (x ∷ xs) zero = some x
  get_elem? (x ∷ xs) (suc i) = get_elem? xs i

  -- `Vec::retain` and `Iterator::filter`.
  abbrev pub retain : (A → Bool) → List A → List A
  retain p [] = []
  retain p (x ∷ xs) = if p x then x ∷ retain p xs else retain p xs

  -- `Iterator::find`.
  abbrev pub find? : (A → Bool) → List A → Option A
  find? p [] = none
  find? p (x ∷ xs) = if p x then some x else find? p xs

  abbrev pub any : (A → Bool) → List A → Bool
  any p [] = false
  any p (x ∷ xs) = p x || any p xs

  abbrev pub all : (A → Bool) → List A → Bool
  all p [] = true
  all p (x ∷ xs) = p x && all p xs

  -- Every element satisfies `P`.
  abbrev pub All {κ} : (A → Type κ) → List A → Type κ
  All P [] = Unit
  All P (x ∷ xs) = P x × All P xs

module _ {ℓ} {A : Type ℓ} where
  pub length-append : (xs ys : List A) → length (xs ++ ys) ≡ length xs + length ys
  length-append [] ys = omega arith
  length-append (x ∷ xs) ys = omega (arith, length-append xs ys)

  pub length-retain-le : (p : A → Bool) (xs : List A) → length (retain p xs) ≤ length xs
  length-retain-le p [] = omega arith
  length-retain-le p (x ∷ xs) = ground (arith, length-retain-le p xs)

  pub All-append {κ} : (P : A → Type κ) (xs ys : List A) → All P xs → All P ys → All P (xs ++ ys)
  All-append P [] ys hx hy = hy
  All-append P (x ∷ xs) ys hx hy = (hx.0, All-append P xs ys hx.1 hy)

  pub All-retain {κ} :
      (P : A → Type κ) (p : A → Bool) (xs : List A) → All P xs → All P (retain p xs)
  All-retain P p [] h = h
  All-retain P p (x ∷ xs) h = ground (arith, All-retain P p xs h.1)

  pub length-append_one : (xs : List A) (x : A) → length (xs ++ x ∷ []) ≡ length xs + 1
  length-append_one [] x = omega arith
  length-append_one (y ∷ xs) x = omega (arith, length-append_one xs x)

  pub All-find {κ} :
      (P : A → Type κ) (p : A → Bool) (xs : List A) (y : A) → All P xs → find? p xs ≡ some y → P y
  All-find P p [] y h e = cc
  All-find P p (x ∷ xs) y h e = go (p x) e (All-find P p xs y h.1)
    where
      go :
          (b : Bool)
          → (if b then some x else find? p xs) ≡ some y
          → (find? p xs ≡ some y → P y)
          → P y
      go true e later = let q : y ≡ x = cc in rw q (h.0)
      go false e later = later e
