-- ===== src/Base/Decimals.antt =====
-- The bytes of printed numbers are decimal digits.
use Prim.Native.Nat.{ℕ, zero, suc, ◌+◌, ◌/◌, ◌%◌, ◌<◌}
use mathlib.Core.Path.{◌≡◌, refl}
use mathlib.Core.Bool.{Bool, true}
use mathlib.Core.List.{[], ◌∷◌}
use native.Mathlib.Omega.{arith}
use flashaccess.Base.Tests.{if◌then◌else◌, ltb}
use flashaccess.Base.Lists.{all_of, all_of-append}
use flashaccess.Base.Texts.{decimal_within, itoa}

module _ (p : ℕ → Bool) (digit : (d : ℕ) → d < 10 → p (48 + d) ≡ true) where
  all_of-decimal_within : (f n : ℕ) → all_of p (decimal_within f n) ≡ true
  unfolding decimal_within
  all_of-decimal_within zero n = refl
  all_of-decimal_within (suc f) n = ground (
    arith,
    all_of-decimal_within f (n / 10),
    digit (n % 10),
    all_of-append p (if ltb n 10 then [] else decimal_within f (n / 10)) ((48 + n % 10) ∷ []),
  )

  -- A predicate that holds of the ten digits holds of each byte of a printed number.
  pub all_of-itoa : (n : ℕ) → all_of p (itoa n) ≡ true
  unfolding itoa
  all_of-itoa n = all_of-decimal_within (n + 1) n
