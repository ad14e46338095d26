-- ===== src/Session/Keys.antt =====
-- internal/session/key.go: the keys of sessions and their stored hashes. The key derivation Argon2id
-- is a parameter, with `none` where it panics; a comparison in constant time is a comparison. Of
-- base64 it is what package encoding/base64 does without padding, and of `Sscanf` what these formats
-- need.
pub mod Encoding
pub mod Verifying
use flashaccess.Base.{
  ℕ, zero, suc, ◌+◌, ◌-◌, ◌*◌, ◌/◌, ◌%◌, ◌^◌, Text, text_eq, codes, Bool, true, false, not, ◌&&◌,
  ◌||◌, ◌==◌, Option, none, some, List, [], ◌∷◌, ◌++◌, Result, ok, err, if◌then◌else◌, leb, ltb,
  length, is_digit, keep,
}
use flashaccess.Mysql.Quote.Statements.{◌>>=◌}

abbrev pub argon_version : ℕ
argon_version = 19

-- the costs of a derivation
pub record Costs : Type 0 where
  pub memory : ℕ
  pub time : ℕ
  pub threads : ℕ

abbrev pub argon_costs : Costs
argon_costs = record { memory = 64 * 1024; time = 3; threads = 4 }

abbrev pub salt_len : ℕ
salt_len = 16

abbrev pub key_len : ℕ
key_len = 32

-- `argon2.IDKey` of a key, a salt, the costs and a length
abbrev pub Derivation : Type 0
Derivation = Text → Text → Costs → ℕ → Option Text

pub data KeyError : Type 0 where
  no_entropy invalid_format bad_version incompatible bad_params bad_salt bad_hash panicked :
      KeyError

-- the characters of six bits, with the last two of the alphabet
abbrev pub sextet_char : ℕ → ℕ → ℕ → ℕ
sextet_char plus slash v =
    if ltb v 26
    then 65 + v
    else if ltb v 52
    then 71 + v
    else if ltb v 62
    then v - 4
    else if v == 62
    then plus
    else slash

-- `EncodeToString` without padding
unfoldable pub encode : (ℕ → ℕ) → Text → Text
encode char [] = []
encode char (a ∷ []) = char (a / 4 % 64) ∷ char (a % 4 * 16) ∷ []
encode char (a ∷ b ∷ []) =
    char (a / 4 % 64) ∷ char (a % 4 * 16 + b / 16 % 16) ∷ char (b % 16 * 4) ∷ []
encode char (a ∷ b ∷ c ∷ s) =
    char (a / 4 % 64)
    ∷ char (a % 4 * 16 + b / 16 % 16)
    ∷ char (b % 16 * 4 + c / 64 % 4)
    ∷ char (c % 64)
    ∷ encode char s

abbrev pub std_char : ℕ → ℕ
std_char = sextet_char b'+' b'/'

abbrev pub url_char : ℕ → ℕ
url_char = sextet_char b'-' b'_'

abbrev within : ℕ → ℕ → ℕ → Bool
within a b c = leb a c && leb c b

abbrev pub sextet : ℕ → Option ℕ
sextet c =
    if within b'A' b'Z' c
    then some (c - 65)
    else if within b'a' b'z' c
    then some (c - 71)
    else if within b'0' b'9' c
    then some (c + 4)
    else if c == b'+'
    then some 62
    else if c == b'/'
    then some 63
    else none

-- two, three and four characters
abbrev pub two_chars : ℕ → ℕ → Option Text
two_chars a b = do x ← sextet a; y ← sextet b; some ((x * 4 + y / 16) ∷ [])

abbrev pub three_chars : ℕ → ℕ → ℕ → Option Text
three_chars a b c = do
  x ← sextet a
  y ← sextet b
  z ← sextet c
  some ((x * 4 + y / 16) ∷ (y % 16 * 16 + z / 4) ∷ [])

abbrev pub four_chars : ℕ → ℕ → ℕ → ℕ → Option Text → Option Text
four_chars a b c d rest = do
  x ← sextet a
  y ← sextet b
  z ← sextet c
  w ← sextet d
  s ← rest
  some ((x * 4 + y / 16) ∷ (y % 16 * 16 + z / 4) ∷ (z % 4 * 64 + w) ∷ s)

-- the decoder, behind the line ends that it skips
unfoldable pub decode_chars : Text → Option Text
decode_chars [] = some []
decode_chars (a ∷ []) = none
decode_chars (a ∷ b ∷ []) = two_chars a b
decode_chars (a ∷ b ∷ c ∷ []) = three_chars a b c
decode_chars (a ∷ b ∷ c ∷ d ∷ s) = four_chars a b c d (decode_chars s)

-- `RawStdEncoding.DecodeString`
unfoldable pub decode : Text → Option Text
decode s = decode_chars (keep (λ c. not (c == b'\n' || c == b'\r')) s)

-- `GenerateKey`, for the bytes that were drawn
unfoldable pub generate_key : Option Text → Result KeyError Text
generate_key none = err no_entropy
generate_key (some bytes) = ok (encode url_char bytes)

-- the stored text of a salt and a hash, with the version and the costs written out
abbrev pub hash_text : Text → Text → Text
hash_text salt hash =
    codes "$argon2id$v=19$m=65536,t=3,p=4$" ++ (encode std_char salt ++ b'$' ∷ encode std_char hash)

abbrev pub hashed : Text → Option Text → Result KeyError Text
hashed salt none = err panicked
hashed salt (some hash) = ok (hash_text salt hash)

-- `strings.Split(s, "$")`
abbrev pub cons_first : ℕ → List Text → List Text
cons_first c [] = (c ∷ []) ∷ []
cons_first c (p ∷ ps) = (c ∷ p) ∷ ps

unfoldable pub split_dollar : Text → List Text
split_dollar [] = [] ∷ []
split_dollar (c ∷ s) =
    let rest = split_dollar s in if c == b'$' then [] ∷ rest else cons_first c rest

-- what `Sscanf` skips in front of a number
abbrev is_blank : ℕ → Bool
is_blank c = c == b' ' || c == b'\t' || c == 11 || c == 12 || c == b'\r'

unfoldable pub skip_blanks : Text → Text
skip_blanks [] = []
skip_blanks (c ∷ s) = let rest = skip_blanks s in if is_blank c then rest else c ∷ s

-- the digits of a number behind `acc`, and what follows them
unfoldable pub scan_digits : ℕ → Text → ℕ × Text
scan_digits acc [] = (acc, [])
scan_digits acc (c ∷ s) =
    let more = scan_digits (acc * 10 + (c - 48)) s in if is_digit c then more else (acc, c ∷ s)

abbrev at_most : ℕ → ℕ × Text → Option (ℕ × Text)
at_most most (n, s) = if leb n most then some (n, s) else none

-- a number that must begin here, of at most `most`
abbrev pub number_here : ℕ → Text → Option (ℕ × Text)
number_here most [] = none
number_here most (c ∷ s) = if is_digit c then at_most most (scan_digits 0 (c ∷ s)) else none

-- an unsigned number
abbrev pub scan_uint : ℕ → Text → Option (ℕ × Text)
scan_uint most s = number_here most (skip_blanks s)

-- a version below zero is as incompatible as 0
abbrev below_zero : Option (ℕ × Text) → Option (ℕ × Text)
below_zero none = none
below_zero (some (n, s)) = some (0, s)

abbrev signed_here : Text → Option (ℕ × Text)
signed_here [] = none
signed_here (c ∷ s) =
    if c == b'-'
    then below_zero (number_here (2 ^ 63) s)
    else if c == b'+'
    then number_here (2 ^ 63 - 1) s
    else number_here (2 ^ 63 - 1) (c ∷ s)

-- the text behind a prefix that must stand here
unfoldable pub behind_literal : Text → Text → Option Text
behind_literal [] s = some s
behind_literal (c ∷ w) [] = none
behind_literal (c ∷ w) (d ∷ s) = let rest = behind_literal w s in if c == d then rest else none

-- "v=%d"
abbrev pub scan_version : Text → Option ℕ
scan_version s = do
  r ← behind_literal (codes "v=") s
  (n, rest) ← signed_here (skip_blanks r)
  some n

-- "m=%d,t=%d,p=%d"
abbrev pub scan_params : Text → Option Costs
scan_params s = do
  s1 ← behind_literal (codes "m=") s
  (m, s2) ← scan_uint (2 ^ 32 - 1) s1
  s3 ← behind_literal (codes ",t=") s2
  (t, s4) ← scan_uint (2 ^ 32 - 1) s3
  s5 ← behind_literal (codes ",p=") s4
  (p, s6) ← scan_uint 255 s5
  some (record { memory = m; time = t; threads = p })

module _ (derive : Derivation) where
  -- `HashKey`, for the salt that was drawn
  unfoldable pub hash_key : Text → Option Text → Result KeyError Text
  hash_key key none = err no_entropy
  hash_key key (some salt) = hashed salt (derive key salt argon_costs key_len)

  abbrev pub compared : Text → Option Text → Result KeyError Bool
  compared want none = err panicked
  compared want (some got) = ok (text_eq got want)

  abbrev pub with_hash_part : Text → Costs → Text → Option Text → Result KeyError Bool
  with_hash_part key costs salt none = err bad_hash
  with_hash_part key costs salt (some want) = compared want (derive key salt costs (length want))

  abbrev pub with_salt : Text → Costs → Text → Option Text → Result KeyError Bool
  with_salt key costs hash none = err bad_salt
  with_salt key costs hash (some salt) = with_hash_part key costs salt (decode hash)

  abbrev pub with_params : Text → Text → Text → Option Costs → Result KeyError Bool
  with_params key salt hash none = err bad_params
  with_params key salt hash (some costs) = with_salt key costs hash (decode salt)

  abbrev pub with_version : Text → Text → Text → Text → Option ℕ → Result KeyError Bool
  with_version key params salt hash none = err bad_version
  with_version key params salt hash (some v) =
      if v == argon_version
      then with_params key salt hash (scan_params params)
      else err incompatible

  abbrev pub with_parts : Text → List Text → Result KeyError Bool
  with_parts key (a ∷ name ∷ version ∷ params ∷ salt ∷ hash ∷ []) =
      if text_eq name (codes "argon2id")
      then with_version key params salt hash (scan_version version)
      else err invalid_format
  with_parts key _ = err invalid_format

  -- `VerifyKey`
  unfoldable pub verify_key : Text → Text → Result KeyError Bool
  verify_key candidate encoded = with_parts candidate (split_dollar encoded)
