-- ===== src/Session/Keys/Encoding.antt =====
-- What base64 encodes, it decodes again, and its characters.
use flashaccess.Base.{
  ℕ, ◌+◌, ◌*◌, ◌/◌, ◌%◌, ◌<◌, Text, Bool, true, not, ◌||◌, ◌==◌, some, List, [], ◌∷◌, keep, all_of,
  All, ◌≡◌, refl, ap, arith, ◌∙◌,
}
use flashaccess.Session.Keys.{encode, std_char, url_char, sextet, decode_chars, decode}

abbrev pub IsByte : ℕ → Type 0
IsByte b = b < 256

pub sextet-std_char : (v : ℕ) → v < 64 → sextet (std_char v) ≡ some v
sextet-std_char v h = ground (arith, h)

-- the bytes that six, twelve and eighteen bits give back
first_byte : (a n : ℕ) → a < 256 → n < 16 → a / 4 % 64 * 4 + (a % 4 * 16 + n) / 16 ≡ a
first_byte a n ha hn = omega (arith, ha, hn)

second_byte :
    (a b n : ℕ) → b < 256 → n < 4 → (a % 4 * 16 + b / 16 % 16) % 16 * 16 + (b % 16 * 4 + n) / 4 ≡ b
second_byte a b n hb hn = omega (arith, hb, hn)

third_byte : (b c : ℕ) → c < 256 → (b % 16 * 4 + c / 64 % 4) % 4 * 64 + c % 64 ≡ c
third_byte b c hc = omega (arith, hc)

decode_chars-encode : (bs : Text) → All IsByte bs → decode_chars (encode std_char bs) ≡ some bs
unfolding decode_chars encode
decode_chars-encode [] h = refl
decode_chars-encode (a ∷ []) (ha, h) =
    rw (sextet-std_char (a / 4 % 64) (omega arith)) (
      rw (sextet-std_char (a % 4 * 16) (omega arith)) (ap (λ x. some (x ∷ [])) (omega (arith, ha))))
decode_chars-encode (a ∷ b ∷ []) (ha, (hb, h)) = rw (sextet-std_char (a / 4 % 64) (omega arith)) (
    rw (sextet-std_char (a % 4 * 16 + b / 16 % 16) (omega arith)) (
      rw (sextet-std_char (b % 16 * 4) (omega arith)) (
        rw (first_byte a (b / 16 % 16) ha (omega arith))
          (ap (λ x. some (a ∷ x ∷ [])) (omega (arith, hb))))))
decode_chars-encode (a ∷ b ∷ c ∷ s) (ha, (hb, (hc, h))) =
    rw (sextet-std_char (a / 4 % 64) (omega arith)) (
      rw (sextet-std_char (a % 4 * 16 + b / 16 % 16) (omega arith)) (
        rw (sextet-std_char (b % 16 * 4 + c / 64 % 4) (omega arith)) (
          rw (sextet-std_char (c % 64) (omega arith)) (
            rw (decode_chars-encode s h) (
              rw (first_byte a (b / 16 % 16) ha (omega arith)) (
                rw (second_byte a b (c / 64 % 4) hb (omega arith))
                  (rw (third_byte b c hc) refl)))))))

pub all_of-encode :
    (p : ℕ → Bool) (char : ℕ → ℕ)
    → ((v : ℕ) → v < 64 → p (char v) ≡ true)
    → (bs : Text) → all_of p (encode char bs) ≡ true
unfolding encode
all_of-encode p char h [] = refl
all_of-encode p char h (a ∷ []) = ground (arith, h (a / 4 % 64), h (a % 4 * 16))
all_of-encode p char h (a ∷ b ∷ []) =
    ground (arith, h (a / 4 % 64), h (a % 4 * 16 + b / 16 % 16), h (b % 16 * 4))
all_of-encode p char h (a ∷ b ∷ c ∷ s) = ground (
  arith,
  h (a / 4 % 64),
  h (a % 4 * 16 + b / 16 % 16),
  h (b % 16 * 4 + c / 64 % 4),
  h (c % 64),
  all_of-encode p char h s,
)

keep_all : {A : Type 0} (p : A → Bool) (xs : List A) → all_of p xs ≡ true → keep p xs ≡ xs
unfolding keep
keep_all p [] h = refl
keep_all p (x ∷ xs) h = ground (arith, keep_all p xs)

-- no line end, and no dollar
std_char_is_plain : (v : ℕ) → v < 64 → not (std_char v == b'\n' || std_char v == b'\r') ≡ true
std_char_is_plain v h = ground (arith, h)

pub std_char_is_no_dollar : (v : ℕ) → v < 64 → not (std_char v == b'$') ≡ true
std_char_is_no_dollar v h = ground (arith, h)

pub url_char_is_no_colon : (v : ℕ) → v < 64 → not (url_char v == b':') ≡ true
url_char_is_no_colon v h = ground (arith, h)

-- Bytes that are encoded are decoded again.
pub decode-encode : (bs : Text) → All IsByte bs → decode (encode std_char bs) ≡ some bs
unfolding decode
decode-encode bs h =
    ap decode_chars
      (keep_all _ (encode std_char bs) (all_of-encode _ std_char std_char_is_plain bs))
    ∙ decode_chars-encode bs h
