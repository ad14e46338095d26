-- ===== src/Base/Texts.antt =====
-- Go strings as the list of their bytes, and the functions of package `strings` that the program
-- calls. Case mapping and white space are those of ASCII.
use Prim.Native.Char.{code}
use Prim.Native.String.{String}
use Prim.Native.Nat.{ℕ, zero, suc, ◌+◌, ◌-◌, ◌/◌, ◌%◌}
use mathlib.Core.Path.{◌≡◌, refl}
use mathlib.Core.Logic.{◌↔◌}
use mathlib.Core.Bool.{Bool, true, false, ◌&&◌, ◌||◌}
use mathlib.Core.Option.{Option, none, some}
use mathlib.Core.List.{List, [], ◌∷◌, ◌++◌, map}
use native.Mathlib.Omega.{arith}
use flashaccess.Base.Tests.{leb, ltb, ◌==◌, if◌then◌else◌}
use flashaccess.Base.Lists.{length}

abbrev pub Text : Type 0
Text = List ℕ

-- A literal of the source.
abbrev pub codes : String → Text
codes String.[] = []
codes (String.◌∷◌ c s) = code c ∷ codes s

unfoldable pub text_eq : Text → Text → Bool
text_eq [] [] = true
text_eq (x ∷ xs) (y ∷ ys) = x == y && text_eq xs ys
text_eq _ _ = false

pub text_eq_iff : (a b : Text) → (text_eq a b ≡ true) ↔ (a ≡ b)
unfolding text_eq
text_eq_iff (x ∷ a) (y ∷ b) = ground (arith, text_eq_iff a b)
text_eq_iff _ _ = ground arith

pub text_eq_refl : (a : Text) → text_eq a a ≡ true
text_eq_refl a = (text_eq_iff a a).1 refl

-- `strings.HasPrefix(s, p)`
unfoldable pub has_prefix : Text → Text → Bool
has_prefix s [] = true
has_prefix [] (y ∷ p) = false
has_prefix (x ∷ s) (y ∷ p) = x == y && has_prefix s p

abbrev pub is_space : ℕ → Bool
is_space c = c == 32 || leb 9 c && leb c 13

abbrev pub to_upper_byte : ℕ → ℕ
to_upper_byte c = if leb b'a' c && leb c b'z' then c - 32 else c

abbrev pub to_lower_byte : ℕ → ℕ
to_lower_byte c = if leb b'A' c && leb c b'Z' then c + 32 else c

abbrev pub to_upper : Text → Text
to_upper = map to_upper_byte

abbrev pub to_lower : Text → Text
to_lower = map to_lower_byte

-- `strings.EqualFold`
abbrev pub equal_fold : Text → Text → Bool
unfolding text_eq
equal_fold s t = text_eq (to_lower s) (to_lower t)

unfoldable pub trim_left : Text → Text
trim_left [] = []
trim_left (c ∷ s) = let rest = trim_left s in if is_space c then rest else c ∷ s

-- a byte before what is left of the text behind it
abbrev pub cons_trimmed : ℕ → Text → Text
cons_trimmed c [] = if is_space c then [] else c ∷ []
cons_trimmed c (d ∷ s) = c ∷ d ∷ s

unfoldable pub trim_right : Text → Text
trim_right [] = []
trim_right (c ∷ s) = cons_trimmed c (trim_right s)

-- `strings.TrimSpace`
unfoldable pub trim_space : Text → Text
trim_space s = trim_right (trim_left s)

-- `strings.ReplaceAll(s, old, new)` for an `old` of one byte
unfoldable pub replace_all : Text → ℕ → Text → Text
replace_all [] old new = []
replace_all (c ∷ s) old new = (if c == old then new else c ∷ []) ++ replace_all s old new

-- `strings.Index`; `none` is -1
unfoldable pub index_of : Text → Text → Option ℕ
unfolding has_prefix
index_of [] p = if has_prefix [] p then some 0 else none
index_of (c ∷ s) p =
    let later = index_of s p in
    if has_prefix (c ∷ s) p then some 0 else elim later [ none ↦ none | some i ↦ some (suc i) ]

-- `strings.Contains`
unfoldable pub contains : Text → Text → Bool
unfolding index_of
contains s p = elim (index_of s p) [ none ↦ false | some i ↦ true ]

unfoldable pub join : List Text → Text → Text
join [] sep = []
join (x ∷ []) sep = x
join (x ∷ y ∷ r) sep = x ++ (sep ++ join (y ∷ r) sep)

-- the first word of `strings.Fields`, its bytes, and what follows
unfoldable pub word : Text → Text
word [] = []
word (c ∷ s) = let rest = word s in if is_space c then [] else c ∷ rest

unfoldable pub after_word : Text → Text
after_word [] = []
after_word (c ∷ s) = let rest = after_word s in if is_space c then c ∷ s else rest

abbrev fields_step : Text → (Text → List Text) → List Text
fields_step [] more = []
fields_step (c ∷ s) more = more (c ∷ s)

-- `strings.Fields`: one round for each word; a text of `n` bytes has at most `n` words.
unfoldable pub fields_within : ℕ → Text → List Text
unfolding trim_left word after_word
fields_within zero s = []
fields_within (suc n) s =
    let t = trim_left s in fields_step t (λ u. word u ∷ fields_within n (after_word u))

unfoldable pub fields : Text → List Text
unfolding fields_within
fields s = fields_within (length s) s

unfoldable pub decimal_within : ℕ → ℕ → Text
decimal_within zero n = []
decimal_within (suc f) n =
    let more = decimal_within f (n / 10) in (if ltb n 10 then [] else more) ++ (48 + n % 10) ∷ []

-- `strconv.Itoa` and `%d` of a number from zero on; `n + 1` rounds are more than its digits.
unfoldable pub itoa : ℕ → Text
itoa n = decimal_within (n + 1) n

-- `strings.HasSuffix` and `strings.TrimSuffix`
unfoldable pub trim_suffix : Text → Text → Text
unfolding text_eq
trim_suffix [] p = []
trim_suffix (c ∷ s) p = let rest = c ∷ trim_suffix s p in if text_eq (c ∷ s) p then [] else rest

-- what stands before the first colon, and behind it: `strings.SplitN(s, ":", 2)`, where it has two parts
unfoldable pub split_at_colon : Text → Option (Text × Text)
split_at_colon [] = none
split_at_colon (c ∷ s) =
    let rest = split_at_colon s in
    if c == b':' then some ([], s) else elim rest [ none ↦ none | some (a, b) ↦ some (c ∷ a, b) ]
