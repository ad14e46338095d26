-- ===== src/Base/Words.antt =====
-- Machine words and how they are read: arithmetic of uint64, `strconv.ParseUint` of 64 bits, and
-- the lines of a `bufio.Scanner`.
use Prim.Native.Nat.{ℕ, zero, suc, ◌+◌, ◌-◌, ◌*◌, ◌/◌, ◌%◌, ◌^◌, ◌≤◌, ◌<◌}
use mathlib.Core.Path.{◌≡◌, refl, ◌∙◌}
use mathlib.Core.Logic.{inl, inr}
use mathlib.Core.Bool.{true, not}
use mathlib.Core.List.{List, [], ◌∷◌, ◌++◌}
use native.Mathlib.Omega.{arith}
use flashaccess.Base.Tests.{if◌then◌else◌, ltb, ◌==◌, Bool-cases}
use flashaccess.Base.Lists.{all_of, length}
use flashaccess.Base.Texts.{Text, decimal_within, itoa}
use flashaccess.Base.Integers.{is_digit, digits_value}
use flashaccess.Base.Decimals.{all_of-itoa}

abbrev pub u64_mod : ℕ
u64_mod = 2 ^ 64

abbrev pub max_uint : ℕ
max_uint = 2 ^ 64 - 1

-- `a + b`, `a * b` and `a - b` of uint64
unfoldable pub add64 : ℕ → ℕ → ℕ
add64 a b = (a + b) % u64_mod

unfoldable pub mul64 : ℕ → ℕ → ℕ
mul64 a b = a * b % u64_mod

unfoldable pub sub64 : ℕ → ℕ → ℕ
sub64 a b = (a + u64_mod - b) % u64_mod

-- the loop of `ParseUint` behind a number: a byte that is no digit is a syntax error with the value
-- 0, a number that is too large a range error with the largest
unfoldable pub uint_digits : ℕ → Text → ℕ
uint_digits n [] = n
uint_digits n (c ∷ s) =
    let rest = uint_digits (n * 10 + (c - 48)) s in
    if not (is_digit c) then 0 else if ltb max_uint (n * 10 + (c - 48)) then max_uint else rest

-- the value of `strconv.ParseUint(s, 10, 64)`, whose error is ignored
unfoldable pub parse_uint : Text → ℕ
unfolding uint_digits
parse_uint s = uint_digits 0 s

-- Go's longest line of a scanner, with the end of the line
abbrev pub max_line : ℕ
max_line = 64 * 1024

-- a byte before the lines of what follows it
abbrev pub onto_first : ℕ → List Text → List Text
onto_first c [] = (c ∷ []) ∷ []
onto_first c (l ∷ ls) = (c ∷ l) ∷ ls

-- the lines of a text; no line follows the last end of a line
unfoldable pub raw_lines : Text → List Text
raw_lines [] = []
raw_lines (c ∷ s) = let rest = raw_lines s in if c == b'\n' then [] ∷ rest else onto_first c rest

unfoldable pub drop_return : Text → Text
drop_return [] = []
drop_return (c ∷ []) = if c == b'\r' then [] else c ∷ []
drop_return (c ∷ d ∷ s) = c ∷ drop_return (d ∷ s)

-- the scanner gives up at a line that is too long
unfoldable pub scanned_lines : List Text → List Text
unfolding drop_return
scanned_lines [] = []
scanned_lines (l ∷ ls) =
    let rest = drop_return l ∷ scanned_lines ls in if ltb (length l) max_line then rest else []

unfoldable pub scan_lines : Text → List Text
unfolding raw_lines scanned_lines
scan_lines s = scanned_lines (raw_lines s)

digits_value-le : (acc : ℕ) (s : Text) → acc ≤ digits_value acc s
unfolding digits_value
digits_value-le acc [] = omega arith
digits_value-le acc (c ∷ s) = omega (arith, digits_value-le (acc * 10 + (c - 48)) s)

uint_digits-digits_value :
    (acc : ℕ) (s : Text)
    → all_of is_digit s ≡ true
    → digits_value acc s ≤ max_uint
    → uint_digits acc s ≡ digits_value acc s
unfolding digits_value uint_digits
uint_digits-digits_value acc [] d h = refl
uint_digits-digits_value acc (c ∷ s) d h = ground (
  arith,
  digits_value-le (acc * 10 + (c - 48)) s,
  uint_digits-digits_value (acc * 10 + (c - 48)) s,
)

digits_value-append :
    (acc : ℕ) (s : Text) (c : ℕ)
    → digits_value acc (s ++ c ∷ []) ≡ digits_value acc s * 10 + (c - 48)
unfolding digits_value
digits_value-append acc [] c = refl
digits_value-append acc (x ∷ s) c = digits_value-append (acc * 10 + (x - 48)) s c

digits_value-decimal_within : (f n : ℕ) → n < f → digits_value 0 (decimal_within f n) ≡ n
unfolding decimal_within
digits_value-decimal_within zero n h = absurd (omega arith)
digits_value-decimal_within (suc f) n h = elim (Bool-cases (ltb n 10)) [
  | inl small ↦ rw small (unfold digits_value in ground arith)
  | inr large ↦ rw large (
      digits_value-append 0 (decimal_within f (n / 10)) (48 + n % 10)
      ∙ ground (arith, digits_value-decimal_within f (n / 10)))
]

-- The digits that `Itoa` writes of a number are read as that number.
pub digits_value-itoa : (n : ℕ) → digits_value 0 (itoa n) ≡ n
unfolding itoa
digits_value-itoa n = digits_value-decimal_within (n + 1) n (omega arith)

itoa_digits : (n : ℕ) → all_of is_digit (itoa n) ≡ true
itoa_digits n = all_of-itoa is_digit (λ d h. ground arith) n

pub parse_uint-itoa : (n : ℕ) → n ≤ max_uint → parse_uint (itoa n) ≡ n
unfolding parse_uint
parse_uint-itoa n h =
    uint_digits-digits_value 0 (itoa n) (itoa_digits n) (omega (arith, digits_value-itoa n))
    ∙ digits_value-itoa n
