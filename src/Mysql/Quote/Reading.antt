-- ===== src/Mysql/Quote/Reading.antt =====
-- How a MySQL server reads quoted text, by the quoting rules of its manual in the default SQL
-- mode, and that it reads back what the escaping functions of Quote.antt have written.
use flashaccess.Base.{
  ℕ, Text, codes, Bool, true, false, Option, none, some, [], ◌∷◌, ◌++◌, ◌==◌, ◌≡◌, refl, arith,
  if◌then◌else◌, has_prefix, not, all_of, ◌&&◌,
}
use flashaccess.Mysql.Quote.{esc_ident, esc_password}

abbrev pub push : ℕ → Option (Text × Text) → Option (Text × Text)
push c none = none
push c (some (t, rest)) = some (c ∷ t, rest)

-- Quoted text behind its opening quote `q`, in which `qq` stands for one `q`: the text and what
-- follows its closing quote. The flag says that a `q` has just been read.
unfoldable pub read_quoted : ℕ → Bool → Text → Option (Text × Text)
read_quoted q false [] = none
read_quoted q true [] = some ([], [])
read_quoted q false (c ∷ s) =
    let closed = read_quoted q true s in
    let more = read_quoted q false s in if c == q then closed else push c more
read_quoted q true (c ∷ s) =
    let more = read_quoted q false s in if c == q then push q more else some ([], c ∷ s)

pub data Mode : Type 0 where
  plain quoted slashed : Mode

-- the byte that a backslash and `c` stand for (`\%` and `\_` keep the backslash outside patterns)
abbrev unescaped : ℕ → Text
unescaped c =
    if c == b'n'
    then 10 ∷ []
    else if c == b't'
    then 9 ∷ []
    else if c == b'r'
    then 13 ∷ []
    else if c == b'0'
    then 0 ∷ []
    else if c == b'b'
    then 8 ∷ []
    else if c == b'Z'
    then 26 ∷ []
    else if c == b'%'
    then b'\\' ∷ c ∷ []
    else if c == b'_'
    then b'\\' ∷ c ∷ []
    else c ∷ []

abbrev pub push_all : Text → Option (Text × Text) → Option (Text × Text)
push_all cs none = none
push_all cs (some (t, rest)) = some (cs ++ t, rest)

-- A string literal behind its opening single quote.
unfoldable pub read_literal : Mode → Text → Option (Text × Text)
read_literal quoted [] = some ([], [])
read_literal _ [] = none
read_literal plain (c ∷ s) =
    let closed = read_literal quoted s in
    let escape = read_literal slashed s in
    let more = read_literal plain s in
    if c == b'\'' then closed else if c == b'\\' then escape else push c more
read_literal quoted (c ∷ s) =
    let more = read_literal plain s in if c == b'\'' then push c more else some ([], c ∷ s)
read_literal slashed (c ∷ s) = let more = read_literal plain s in push_all (unescaped c) more

read_quoted-close :
    (q : ℕ) (rest : Text)
    → has_prefix rest (q ∷ []) ≡ false
    → read_quoted q false (q ∷ rest) ≡ some ([], rest)
unfolding read_quoted has_prefix
read_quoted-close q [] h = ground arith
read_quoted-close q (c ∷ rest) h = ground arith

-- A backtick-quoted identifier reads back as the identifier that was escaped, whatever bytes it
-- holds, and the text behind the closing backtick is what was written there.
pub read_quoted-esc_ident :
    (s rest : Text)
    → has_prefix rest (codes "`") ≡ false
    → read_quoted b'`' false (esc_ident s ++ b'`' ∷ rest) ≡ some (s, rest)
unfolding esc_ident read_quoted
read_quoted-esc_ident [] rest h = read_quoted-close b'`' rest h
read_quoted-esc_ident (c ∷ s) rest h = ground (arith, read_quoted-esc_ident s rest h)

-- what the two replacements write for one byte
esc_password-cons :
    (c : ℕ) (p : Text)
    → esc_password (c ∷ p)
      ≡ (if c == b'\\' then codes "\\\\" else if c == b'\'' then codes "\\'" else c ∷ [])
        ++ esc_password p
unfolding esc_password
esc_password-cons c p = ground arith

read_literal-close :
    (rest : Text)
    → has_prefix rest (codes "'") ≡ false
    → read_literal plain (b'\'' ∷ rest) ≡ some ([], rest)
unfolding read_literal has_prefix
read_literal-close [] h = refl
read_literal-close (c ∷ rest) h = ground arith

-- A string literal reads back as the password that was escaped into it, whatever bytes it holds.
pub read_literal-esc_password :
    (p rest : Text)
    → has_prefix rest (codes "'") ≡ false
    → read_literal plain (esc_password p ++ b'\'' ∷ rest) ≡ some (p, rest)
unfolding read_literal
read_literal-esc_password [] rest h = unfold esc_password in read_literal-close rest h
read_literal-esc_password (c ∷ p) rest h =
    rw esc_password-cons (ground (arith, read_literal-esc_password p rest h))

-- A text that needs no escape reads back as it is.
abbrev pub is_plain : ℕ → Bool
is_plain c = not (c == b'\'') && not (c == b'\\')

pub read_literal-plain :
    (p rest : Text)
    → all_of is_plain p ≡ true
    → has_prefix rest (codes "'") ≡ false
    → read_literal plain (p ++ b'\'' ∷ rest) ≡ some (p, rest)
unfolding read_literal
read_literal-plain [] rest e h = read_literal-close rest h
read_literal-plain (c ∷ p) rest e h = ground (arith, read_literal-plain p rest)

-- what follows the given words, if the text begins with them
abbrev pub strip : Text → Text → Option Text
strip [] s = some s
strip (w ∷ ws) [] = none
strip (w ∷ ws) (c ∷ s) = if w == c then strip ws s else none

abbrev pub behind_tick : Option Text → Option (Text × Text)
behind_tick none = none
behind_tick (some s) = read_quoted b'`' false s

-- The backtick-quoted identifier behind the given words, and what follows it.
unfoldable pub read_named : Text → Text → Option (Text × Text)
read_named words s = behind_tick (strip (words ++ codes "`") s)

abbrev pub name_of : Option (Text × Text) → Option Text
name_of none = none
name_of (some (name, _)) = some name
