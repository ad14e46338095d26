-- ===== src/Stats/Shown.antt =====
-- `FmtBytes` and `FmtUptime` of internal/stats/stats.go. A uint64 is rounded to a float64 of 53
-- bits; to divide it by a power of two is exact, and `%.1f` rounds the quotient to the nearest
-- tenth, both halves to even. The whole hours and minutes of a duration are those that `Hours` and
-- `Minutes` of package time yield for durations of whole milliseconds.
use native.Mathlib.Decide.{dec_le}
use flashaccess.Base.{
  true, false, ℕ, zero, suc, ◌+◌, ◌*◌, ◌/◌, ◌%◌, ◌^◌, ◌≤◌, ◌<◌, ltb, leb, Text, codes, ◌∷◌, ◌++◌,
  itoa, int_text, if◌then◌else◌, ℤ, pos, negsuc, negated, ◌≡◌, refl, arith,
}

-- `n / d`, rounded to the nearest, halves to even
unfoldable pub nearest : ℕ → ℕ → ℕ
nearest n d =
    let q = n / d in
    let r = n % d in if ltb (2 * r) d then q else if ltb d (2 * r) then q + 1 else q + q % 2

-- `float64(b)` of a uint64: the steps between floats double from 2^53 on, at most eleven times
unfoldable pub float_within : ℕ → ℕ → ℕ → ℕ
unfolding nearest
float_within zero step b = b
float_within (suc more) step b =
    let rest = float_within more (2 * step) b in
    if ltb b (2 ^ 53 * step) then nearest b step * step else rest

unfoldable pub float_of : ℕ → ℕ
unfolding float_within
float_of b = float_within 12 1 b

-- `%.1f` of a number of tenths
abbrev pub fixed_1 : ℕ → Text
fixed_1 t = itoa (t / 10) ++ (b'.' ∷ itoa (t % 10))

abbrev pub kb : ℕ
kb = 1024

abbrev pub mb : ℕ
mb = 1048576

abbrev pub gb : ℕ
gb = 1073741824

-- the tenths of a unit that are shown for `b` bytes
abbrev pub tenths : ℕ → ℕ → ℕ
tenths b unit = nearest (10 * float_of b) unit

-- `FmtBytes`
unfoldable pub fmt_bytes : ℕ → Text
unfolding float_of nearest
fmt_bytes b =
    if leb gb b
    then fixed_1 (tenths b gb) ++ codes " GB"
    else if leb mb b
    then fixed_1 (tenths b mb) ++ codes " MB"
    else if leb kb b
    then fixed_1 (tenths b kb) ++ codes " KB"
    else itoa b ++ codes " B"

abbrev pub minute : ℕ
minute = 60 * 1000000000

abbrev pub hour : ℕ
hour = 60 * 60 * 1000000000

abbrev pub days_text : ℕ → ℕ → ℕ → Text
days_text days hours mins =
    if ltb 0 days
    then itoa days ++ (codes "d " ++ (itoa hours ++ (codes "h " ++ (itoa mins ++ codes "m"))))
    else if ltb 0 hours
    then itoa hours ++ (codes "h " ++ (itoa mins ++ codes "m"))
    else itoa mins ++ codes "m"

-- `FmtUptime`; below zero no days and no hours are shown, and the minutes keep the sign
unfoldable pub fmt_uptime : ℤ → Text
fmt_uptime (pos d) = days_text (d / hour / 24) (d / hour % 24) (d / minute % 60)
fmt_uptime (negsuc n) = int_text (negated ((n + 1) / minute % 60)) ++ codes "m"

float_of_id : (b : ℕ) → b < 2 ^ 53 → float_of b ≡ b
unfolding float_of
float_of_id b h = ground arith

nearest_bounds :
    (n d : ℕ) → 0 < d → (2 * (nearest n d * d) ≤ 2 * n + d) × (2 * n ≤ 2 * (nearest n d * d) + d)
unfolding nearest
nearest_bounds n d h = (grind arith, grind arith)

le→leb : (a b : ℕ) → a ≤ b → leb a b ≡ true
le→leb a b h = ground arith

lt→not_leb : (a b : ℕ) → a < b → leb b a ≡ false
lt→not_leb a b h = ground arith

-- Tenths `t` of a unit that show `b` bytes: `b` has a unit, and is `t` tenths of it to within half a
-- tenth.
abbrev pub IsNear : ℕ → ℕ → ℕ → Type 0
IsNear t unit b =
    (unit ≤ b) × (2 * (t * unit) ≤ 2 * (10 * b) + unit) × (2 * (10 * b) ≤ 2 * (t * unit) + unit)

-- A text for `b` bytes in one of the units, or in bytes.
pub data Shows (b : ℕ) (text : Text) : Type 0 where
  in_gb : (t : ℕ) → IsNear t gb b → text ≡ fixed_1 t ++ codes " GB" → Shows b text
  in_mb : (t : ℕ) → IsNear t mb b → b < gb → text ≡ fixed_1 t ++ codes " MB" → Shows b text
  in_kb : (t : ℕ) → IsNear t kb b → b < mb → text ≡ fixed_1 t ++ codes " KB" → Shows b text
  in_bytes : b < kb → text ≡ itoa b ++ codes " B" → Shows b text

tenths-IsNear : (b unit : ℕ) → b < 2 ^ 53 → 0 < unit → unit ≤ b → IsNear (tenths b unit) unit b
tenths-IsNear b unit small some_unit h =
    rw (float_of_id b small)
      (h, (nearest_bounds (10 * b) unit some_unit).0, (nearest_bounds (10 * b) unit some_unit).1)

-- What `FmtBytes` shows of a number of bytes below 2^53 is in the largest unit that the number
-- reaches, and true to within half a tenth of it; below a kilobyte it is the number itself.
pub fmt_bytes-Shows : (b : ℕ) → b < 2 ^ 53 → Shows b (fmt_bytes b)
unfolding fmt_bytes
fmt_bytes-Shows b small = elim (dec_le gb b) [
  | yes g ↦ rw (le→leb gb b g) (in_gb (tenths b gb) (tenths-IsNear b gb small (omega arith) g) refl)
  | no g ↦ rw (lt→not_leb b gb (omega arith)) (elim (dec_le mb b) [
    | yes m ↦
        rw (le→leb mb b m)
          (in_mb (tenths b mb) (tenths-IsNear b mb small (omega arith) m) (omega arith) refl)
    | no m ↦ rw (lt→not_leb b mb (omega arith)) (elim (dec_le kb b) [
      | yes k ↦
          rw (le→leb kb b k)
            (in_kb (tenths b kb) (tenths-IsNear b kb small (omega arith) k) (omega arith) refl)
      | no k ↦ rw (lt→not_leb b kb (omega arith)) (in_bytes (omega arith) refl)
    ])
  ])
]
