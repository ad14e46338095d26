-- ===== src/Mysql/Split/Runes.antt =====
-- Go's conversions between a string and its runes, `WriteRune`, and `TrimSpace` on runes. A byte that
-- begins no character of UTF-8 becomes the rune U+FFFD.
use flashaccess.Base.{
  ℕ, zero, suc, ◌+◌, ◌-◌, ◌*◌, ◌/◌, ◌%◌, ◌≤◌, ◌<◌, ltb, leb, ◌==◌, ◌&&◌, ◌||◌, Bool, true, not,
  Text, List, [], ◌∷◌, ◌++◌, if◌then◌else◌, All, ◌≡◌, refl, ap, ◌∙◌, arith, Bool-cases, inl, inr,
}

abbrev is_continuation : ℕ → Bool
is_continuation b = leb 128 b && leb b 191

-- a first and a second byte of three, and of four
abbrev begins_three : ℕ → ℕ → Bool
begins_three a b =
    leb 224 a
    && leb a 239
    && is_continuation b
    && not (a == 224 && ltb b 160)
    && not (a == 237 && ltb 159 b)

abbrev begins_four : ℕ → ℕ → Bool
begins_four a b =
    leb 240 a
    && leb a 244
    && is_continuation b
    && not (a == 240 && ltb b 144)
    && not (a == 244 && ltb 143 b)

-- the rune that four bytes begin with, and the number of bytes behind the first that it has
unfoldable pub first_rune : ℕ → ℕ → ℕ → ℕ → ℕ × ℕ
first_rune a b c d =
    if ltb a 128
    then (a, 0)
    else if leb 194 a && leb a 223 && is_continuation b
    then ((a - 192) * 64 + (b - 128), 1)
    else if begins_three a b && is_continuation c
    then ((a - 224) * 4096 + (b - 128) * 64 + (c - 128), 2)
    else if begins_four a b && is_continuation c && is_continuation d
    then ((a - 240) * 262144 + (b - 128) * 4096 + (c - 128) * 64 + (d - 128), 3)
    else (65533, 0)

-- the byte at an index, or zero, which continues nothing
abbrev byte_at : ℕ → Text → ℕ
byte_at n [] = 0
byte_at zero (b ∷ s) = b
byte_at (suc n) (b ∷ s) = byte_at n s

-- `[]rune(s)`, behind as many bytes as are still to be left out
unfoldable pub runes_behind : ℕ → Text → List ℕ
unfolding first_rune
runes_behind n [] = []
runes_behind (suc n) (b ∷ s) = runes_behind n s
runes_behind zero (b ∷ s) =
    let (r, more) = first_rune b (byte_at 0 s) (byte_at 1 s) (byte_at 2 s) in
    r ∷ runes_behind more s

-- `[]rune(s)`
unfoldable pub runes : Text → List ℕ
unfolding runes_behind
runes s = runes_behind 0 s

-- the numbers that are characters
abbrev pub is_scalar : ℕ → Bool
is_scalar r = ltb r 55296 || leb 57344 r && ltb r 1114112

-- the bytes of a rune, those of U+FFFD for one that is no character
unfoldable pub rune_bytes : ℕ → Text
rune_bytes r =
    if ltb r 128
    then r ∷ []
    else if ltb r 2048
    then (192 + r / 64) ∷ (128 + r % 64) ∷ []
    else if not (is_scalar r)
    then 239 ∷ 191 ∷ 189 ∷ []
    else if ltb r 65536
    then (224 + r / 4096) ∷ (128 + r / 64 % 64) ∷ (128 + r % 64) ∷ []
    else (240 + r / 262144) ∷ (128 + r / 4096 % 64) ∷ (128 + r / 64 % 64) ∷ (128 + r % 64) ∷ []

-- what `WriteRune` writes of one rune after the other
unfoldable pub written : List ℕ → Text
unfolding rune_bytes
written [] = []
written (r ∷ rs) = rune_bytes r ++ written rs

-- `unicode.IsSpace`
abbrev pub is_white : ℕ → Bool
is_white r =
    r == 32
    || leb 9 r && leb r 13
    || r == 133
    || r == 160
    || r == 5760
    || leb 8192 r && leb r 8202
    || r == 8232
    || r == 8233
    || r == 8239
    || r == 8287
    || r == 12288

unfoldable pub without_white : List ℕ → List ℕ
without_white [] = []
without_white (r ∷ rs) = let rest = without_white rs in if is_white r then rest else r ∷ rs

abbrev unless_white : ℕ → List ℕ → List ℕ
unless_white r [] = if is_white r then [] else r ∷ []
unless_white r (q ∷ rs) = r ∷ q ∷ rs

unfoldable pub without_white_end : List ℕ → List ℕ
without_white_end [] = []
without_white_end (r ∷ rs) = unless_white r (without_white_end rs)

-- `TrimSpace`
unfoldable pub trim_runes : List ℕ → List ℕ
unfolding without_white without_white_end
trim_runes rs = without_white_end (without_white rs)

one_byte : (r b c d : ℕ) → ltb r 128 ≡ true → first_rune r b c d ≡ (r, 0)
unfolding first_rune
one_byte r b c d h = rw h refl

two_bytes : (r c d : ℕ) → 128 ≤ r → r < 2048 → first_rune (192 + r / 64) (128 + r % 64) c d ≡ (r, 1)
unfolding first_rune
two_bytes r c d h k = ground arith

three_bytes :
    (r d : ℕ)
    → 2048 ≤ r
    → r < 65536
    → is_scalar r ≡ true
    → first_rune (224 + r / 4096) (128 + r / 64 % 64) (128 + r % 64) d ≡ (r, 2)
unfolding first_rune
three_bytes r d h k s = ground arith

four_bytes :
    (r : ℕ)
    → 65536 ≤ r
    → r < 1114112
    → first_rune (240 + r / 262144) (128 + r / 4096 % 64) (128 + r / 64 % 64) (128 + r % 64)
      ≡ (r, 3)
unfolding first_rune
four_bytes r h k = ground arith

-- the bytes of a character are read as this character, whatever follows
runes_behind-rune_bytes :
    (r : ℕ) (s : Text)
    → is_scalar r ≡ true
    → runes_behind 0 (rune_bytes r ++ s) ≡ r ∷ runes_behind 0 s
unfolding runes_behind rune_bytes
runes_behind-rune_bytes r s h = elim (Bool-cases (ltb r 128)) [
  | inl a ↦ rw a (rw (one_byte r (byte_at 0 s) (byte_at 1 s) (byte_at 2 s) a) refl)
  | inr a ↦ elim (Bool-cases (ltb r 2048)) [
    | inl b ↦
        rw (a, b)
          (rw (two_bytes r (byte_at 0 s) (byte_at 1 s) (ground (arith, a)) (ground (arith, b)))
            refl)
    | inr b ↦ elim (Bool-cases (ltb r 65536)) [
      | inl c ↦
          rw (a, b, h, c)
            (rw (three_bytes r (byte_at 0 s) (ground (arith, b)) (ground (arith, c)) h) refl)
      | inr c ↦ rw (a, b, h, c) (rw (four_bytes r (ground (arith, c)) (ground (arith, c, h))) refl)
    ]
  ]
]

-- Runes that are characters are read back from what is written of them.
pub runes-written : (rs : List ℕ) → All (λ r. is_scalar r ≡ true) rs → runes (written rs) ≡ rs
unfolding runes written
runes-written [] h = unfold runes_behind in refl
runes-written (r ∷ rs) (h, hs) =
    runes_behind-rune_bytes r (written rs) h ∙ ap (◌∷◌ r) (runes-written rs hs)
