-- ===== src/Base/Lists.antt =====
-- Lists over the native numbers: lengths, slices, and predicates that hold throughout a list.
use Prim.Native.Nat.{ℕ, zero, suc, ◌+◌}
use mathlib.Core.Path.{◌≡◌, refl}
use mathlib.Core.Bool.{Bool, true, ◌&&◌}
use mathlib.Core.List.{List, [], ◌∷◌, ◌++◌}
use native.Mathlib.Omega.{arith}
use flashaccess.Base.Tests.{if◌then◌else◌}

module _ {ℓ} {A : Type ℓ} where
  abbrev pub length : List A → ℕ
  length [] = 0
  length (x ∷ xs) = suc (length xs)

  -- `s[:n]`, for `n` within the bounds
  abbrev pub take : ℕ → List A → List A
  take zero xs = []
  take (suc n) [] = []
  take (suc n) (x ∷ xs) = x ∷ take n xs

  -- `s[n:]`, for `n` within the bounds
  abbrev pub drop : ℕ → List A → List A
  drop zero xs = xs
  drop (suc n) [] = []
  drop (suc n) (x ∷ xs) = drop n xs

  -- Go's loops over a slice that keep or test elements
  unfoldable pub keep : (A → Bool) → List A → List A
  keep p [] = []
  keep p (x ∷ xs) = let rest = keep p xs in if p x then x ∷ rest else rest

  abbrev pub all_of : (A → Bool) → List A → Bool
  all_of p [] = true
  all_of p (x ∷ xs) = p x && all_of p xs

  pub length-append : (xs ys : List A) → length (xs ++ ys) ≡ length xs + length ys
  length-append [] ys = omega arith
  length-append (x ∷ xs) ys = omega (arith, length-append xs ys)

  pub all_of-append :
      (p : A → Bool) (xs ys : List A) → all_of p (xs ++ ys) ≡ all_of p xs && all_of p ys
  all_of-append p [] ys = refl
  all_of-append p (x ∷ xs) ys = ground (arith, all_of-append p xs ys)

  pub all_of-keep :
      (p q : A → Bool) (xs : List A) → all_of q xs ≡ true → all_of q (keep p xs) ≡ true
  unfolding keep
  all_of-keep p q [] h = refl
  all_of-keep p q (x ∷ xs) h = ground (arith, all_of-keep p q xs)

  pub all_of_mono :
      (p q : A → Bool)
      → ((x : A) → p x ≡ true → q x ≡ true)
      → (xs : List A) → all_of p xs ≡ true
      → all_of q xs ≡ true
  all_of_mono p q h [] e = refl
  all_of_mono p q h (x ∷ xs) e = ground (arith, h x, all_of_mono p q h xs)

  -- A property of each element, as a product.
  abbrev pub All {κ} : (A → Type κ) → List A → Type κ
  All P [] = Unit
  All P (x ∷ xs) = P x × All P xs

  pub All-append {κ} : (P : A → Type κ) (xs ys : List A) → All P xs → All P ys → All P (xs ++ ys)
  All-append P [] ys h k = k
  All-append P (x ∷ xs) ys h k = (h.0, All-append P xs ys h.1 k)
