-- ===== src/Base/Integers.antt =====
-- Signed integers, over the native numbers, and Go's `strconv.Atoi` and %d for them.
use Prim.Native.Nat.{ℕ, zero, suc, ◌+◌, ◌-◌, ◌*◌, ◌^◌}
use mathlib.Core.Bool.{Bool, ◌&&◌}
use mathlib.Core.Option.{Option, none, some}
use mathlib.Core.List.{[], ◌∷◌, ◌++◌}
use flashaccess.Base.Tests.{if◌then◌else◌, leb, ◌==◌}
use flashaccess.Base.Lists.{all_of}
use flashaccess.Base.Texts.{Text, codes, itoa}

pub data ℤ : Type 0 where
  pos : ℕ → ℤ
  negsuc : ℕ → ℤ

-- the integer of which `n` is the magnitude, below zero
abbrev pub negated : ℕ → ℤ
negated zero = pos 0
negated (suc n) = negsuc n

abbrev pub int_text : ℤ → Text
int_text (pos n) = itoa n
int_text (negsuc n) = codes "-" ++ itoa (n + 1)

abbrev pub is_digit : ℕ → Bool
is_digit c = leb b'0' c && leb c b'9'

-- the number that digits write, behind `acc`
unfoldable pub digits_value : ℕ → Text → ℕ
digits_value acc [] = acc
digits_value acc (c ∷ s) = digits_value (acc * 10 + (c - 48)) s

-- a magnitude of at most `most`
abbrev pub magnitude : ℕ → Text → Option ℕ
magnitude most [] = none
magnitude most (c ∷ s) =
    if all_of is_digit (c ∷ s) && leb (digits_value 0 (c ∷ s)) most
    then some (digits_value 0 (c ∷ s))
    else none

abbrev pub positive : Option ℕ → Option ℤ
positive none = none
positive (some n) = some (pos n)

abbrev pub negative : Option ℕ → Option ℤ
negative none = none
negative (some n) = some (negated n)

-- `strconv.Atoi`, `none` for its errors
unfoldable pub atoi : Text → Option ℤ
atoi [] = none
atoi (c ∷ s) =
    if c == b'-'
    then negative (magnitude (2 ^ 63) s)
    else if c == b'+'
    then positive (magnitude (2 ^ 63 - 1) s)
    else positive (magnitude (2 ^ 63 - 1) (c ∷ s))
