-- ===== src/Stats/Memory/Table.antt =====
-- The lines of /proc/meminfo, and `memInfo` on each of them.
use native.Mathlib.Nat.{mod-eq_of_lt}
use flashaccess.Base.{
  text_eq, decimal_within, map, append-nil, all_of_mono, ◌/◌, ◌%◌, ℕ, zero, suc, ◌+◌, ◌*◌, ◌<◌,
  Text, codes, Bool, true, false, not, ◌&&◌, ◌==◌, some, List, [], ◌∷◌, ◌++◌, ltb, if◌then◌else◌,
  itoa, put, split_at_colon, trim_space, trim_left, trim_right, trim_suffix, is_space, is_digit,
  all_of, all_of-append, all_of-itoa, length, length-append, All, raw_lines, scan_lines,
  drop_return, max_line, parse_uint, parse_uint-itoa, mul64, u64_mod, ◌≡◌, ◌≢◌, refl, ◌∙◌, ap,
  arith,
}
use flashaccess.Stats.{mem_table, with_parts}

-- An entry as the kernel prints it: the key, a colon, blanks, the number, and for most the unit.
pub record Entry : Type 0 where
  pub key : Text
  pub pad : ℕ
  pub number : ℕ
  pub has_unit : Bool

abbrev blanks : ℕ → Text
blanks zero = []
blanks (suc n) = b' ' ∷ blanks n

abbrev unit_text : Bool → Text
unit_text true = codes " kB"
unit_text false = []

abbrev value_text : Entry → Text
value_text e = itoa e.number ++ unit_text e.has_unit

abbrev line_of : Entry → Text
line_of e = e.key ++ (b':' ∷ (blanks e.pad ++ value_text e))

abbrev pub meminfo_text : List Entry → Text
meminfo_text [] = []
meminfo_text (e ∷ es) = line_of e ++ (b'\n' ∷ meminfo_text es)

-- what keys are made of: no byte that is a colon or ends a line
abbrev is_plain : ℕ → Bool
is_plain c = not (c == b':') && not (c == b'\n') && not (c == b'\r')

abbrev pub IsEntry : Entry → Type 0
IsEntry e =
    (all_of is_plain e.key ≡ true)
    × (trim_space e.key ≡ e.key)
    × (e.number * 1024 < u64_mod)
    × (length (line_of e) < max_line)

-- the map of the entries' numbers of bytes, of which a later one replaces an earlier
abbrev pub table_of : List Entry → List (Text × ℕ) → List (Text × ℕ)
table_of [] kv = kv
table_of (e ∷ es) kv = table_of es (put e.key (e.number * 1024) kv)

abbrev in_line : ℕ → Bool
in_line c = not (c == b'\n') && not (c == b'\r')

raw_lines-line :
    (l s : Text) → all_of in_line l ≡ true → raw_lines (l ++ (b'\n' ∷ s)) ≡ l ∷ raw_lines s
unfolding raw_lines
raw_lines-line [] s h = refl
raw_lines-line (c ∷ l) s h = ground (arith, raw_lines-line l s)

drop_return-line : (l : Text) → all_of in_line l ≡ true → drop_return l ≡ l
unfolding drop_return
drop_return-line [] h = refl
drop_return-line (c ∷ []) h = ground arith
drop_return-line (c ∷ d ∷ l) h = ground (arith, drop_return-line (d ∷ l))

split_at_colon-plain :
    (k s : Text) → all_of is_plain k ≡ true → split_at_colon (k ++ (b':' ∷ s)) ≡ some (k, s)
unfolding split_at_colon
split_at_colon-plain [] s h = refl
split_at_colon-plain (c ∷ k) s h = ground (arith, split_at_colon-plain k s)

-- a text of visible bytes with one at its end: nothing is trimmed
abbrev ends_solid : Text → Bool
ends_solid [] = true
ends_solid (c ∷ []) = not (is_space c)
ends_solid (c ∷ d ∷ s) = ends_solid (d ∷ s)

ends_solid-append :
    (xs : Text) (y : ℕ) (ys : Text) → ends_solid (xs ++ y ∷ ys) ≡ ends_solid (y ∷ ys)
ends_solid-append [] y ys = refl
ends_solid-append (x ∷ []) y ys = refl
ends_solid-append (x ∷ z ∷ xs) y ys = ends_solid-append (z ∷ xs) y ys

trim_right-ends_solid : (s : Text) → ends_solid s ≡ true → trim_right s ≡ s
unfolding trim_right
trim_right-ends_solid [] h = refl
trim_right-ends_solid (c ∷ []) h = ground arith
trim_right-ends_solid (c ∷ d ∷ s) h = rw (trim_right-ends_solid (d ∷ s) h) refl

digits-ends_solid : (s : Text) → all_of is_digit s ≡ true → ends_solid s ≡ true
digits-ends_solid [] h = refl
digits-ends_solid (c ∷ []) h = ground arith
digits-ends_solid (c ∷ d ∷ s) h = ground (arith, digits-ends_solid (d ∷ s))

trim_left-blanks : (n : ℕ) (s : Text) → trim_left (blanks n ++ s) ≡ trim_left s
unfolding trim_left
trim_left-blanks zero s = refl
trim_left-blanks (suc n) s = trim_left-blanks n s

trim_left-digits : (s u : Text) → all_of is_digit s ≡ true → s ≢ [] → trim_left (s ++ u) ≡ s ++ u
unfolding trim_left
trim_left-digits [] u h k = absurd (k refl)
trim_left-digits (c ∷ s) u h k = ground arith

trim_suffix-digits :
    (s : Text) (has_unit : Bool)
    → all_of is_digit s ≡ true
    → trim_suffix (s ++ unit_text has_unit) (codes " kB") ≡ s
unfolding trim_suffix text_eq
trim_suffix-digits [] true h = refl
trim_suffix-digits [] false h = refl
trim_suffix-digits (c ∷ s) b h = ground (arith, trim_suffix-digits s b)

itoa_digits : (n : ℕ) → all_of is_digit (itoa n) ≡ true
itoa_digits n = all_of-itoa is_digit (λ d h. ground arith) n

decimal_within-ne-nil : (f n : ℕ) → decimal_within (suc f) n ≢ []
unfolding decimal_within
decimal_within-ne-nil f n e = omega (
  arith,
  ap length e,
  length-append (if ltb n 10 then [] else decimal_within f (n / 10)) ((48 + n % 10) ∷ []),
)

itoa-ne-nil : (n : ℕ) → itoa n ≢ []
unfolding itoa
itoa-ne-nil n e =
    let more : suc n ≡ n + 1 = omega arith in
    decimal_within-ne-nil n n (ap (λ k. decimal_within k n) more ∙ e)

ends_solid-value :
    (s : Text) (b : Bool) → all_of is_digit s ≡ true → ends_solid (s ++ unit_text b) ≡ true
ends_solid-value s true h = ends_solid-append s b' ' (codes "kB")
ends_solid-value s false h = rw append-nil (digits-ends_solid s h)

trim_space-value : (e : Entry) → trim_space (blanks e.pad ++ value_text e) ≡ value_text e
unfolding trim_space
trim_space-value e =
    ap trim_right (
      trim_left-blanks e.pad (value_text e)
      ∙ trim_left-digits (itoa e.number) (unit_text e.has_unit) (itoa_digits e.number)
          (itoa-ne-nil e.number))
    ∙ trim_right-ends_solid (value_text e)
        (ends_solid-value (itoa e.number) e.has_unit (itoa_digits e.number))

with_parts-entry :
    (e : Entry) (kv : List (Text × ℕ))
    → IsEntry e
    → with_parts (split_at_colon (line_of e)) kv ≡ put e.key (e.number * 1024) kv
unfolding mul64
with_parts-entry e kv (plain, trimmed, bounded, _) =
    rw (split_at_colon-plain e.key (blanks e.pad ++ value_text e) plain) (
      rw trimmed (
        rw (trim_space-value e) (
          ap (λ n. put e.key (n * 1024 % u64_mod) kv)
            (ap parse_uint (trim_suffix-digits (itoa e.number) e.has_unit (itoa_digits e.number))
              ∙ parse_uint-itoa e.number (omega arith))
          ∙ ap (λ n. put e.key n kv) (mod-eq_of_lt bounded))))

blanks-in_line : (n : ℕ) → all_of in_line (blanks n) ≡ true
blanks-in_line zero = refl
blanks-in_line (suc n) = blanks-in_line n

unit-in_line : (b : Bool) → all_of in_line (unit_text b) ≡ true
unit-in_line true = refl
unit-in_line false = refl

line-in_line : (e : Entry) → all_of is_plain e.key ≡ true → all_of in_line (line_of e) ≡ true
line-in_line e h = ground (
  arith,
  all_of-append in_line e.key (b':' ∷ (blanks e.pad ++ value_text e)),
  all_of-append in_line (blanks e.pad) (value_text e),
  all_of-append in_line (itoa e.number) (unit_text e.has_unit),
  all_of_mono is_plain in_line (λ c k. ground arith) e.key h,
  all_of_mono is_digit in_line (λ c k. ground arith) (itoa e.number) (itoa_digits e.number),
  blanks-in_line e.pad,
  unit-in_line e.has_unit,
)

pub scan_lines-meminfo_text :
    (es : List Entry) → All IsEntry es → scan_lines (meminfo_text es) ≡ map line_of es
unfolding scan_lines
scan_lines-meminfo_text [] h = refl
scan_lines-meminfo_text (e ∷ es) (h, hs) =
    rw (raw_lines-line (line_of e) (meminfo_text es) (line-in_line e h.0)) (
      rw (drop_return-line (line_of e) (line-in_line e h.0))
        (ground (arith, scan_lines-meminfo_text es hs)))

pub mem_table-table_of :
    (es : List Entry) (kv : List (Text × ℕ))
    → All IsEntry es
    → mem_table (map line_of es) kv ≡ table_of es kv
unfolding mem_table
mem_table-table_of [] kv h = refl
mem_table-table_of (e ∷ es) kv (h, hs) =
    ap (mem_table (map line_of es)) (with_parts-entry e kv h)
    ∙ mem_table-table_of es (put e.key (e.number * 1024) kv) hs
