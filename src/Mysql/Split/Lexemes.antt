-- ===== src/Mysql/Split/Lexemes.antt =====
-- `SplitStatements` on statements that are well formed: what stands in quotes is never split.
pub mod Steps
use flashaccess.Base.{
  ℕ, Text, codes, Bool, true, false, not, ◌&&◌, ◌||◌, Option, none, some, List, [], ◌∷◌, ◌++◌, ◌==◌,
  ◌≡◌, ◌≢◌, refl, ◌∙◌, ap, sym, arith, if◌then◌else◌, has_prefix, join, All, append_assoc,
  append-nil, ◌⊎◌, inl, inr, Bool-cases,
}
use flashaccess.Mysql.Split.{
  Mode, code, single, double, Move, go, skip, emit, peeks, is_some, move, move_code, write_two,
  flush, append_unless_empty, split_from, split_statements,
}
use flashaccess.Mysql.Split.Lexemes.Steps.{peek, after, split_from-after}

-- The inside of quotes `q`: bytes other than the quote and the backslash, a backslash with any
-- byte, and between single quotes a doubled quote.
pub data Body (q : ℕ) : Text → Type 0 where
  closed : Body q []
  char : {t : Text} (c : ℕ) → (c == q || c == b'\\') ≡ false → Body q t → Body q (c ∷ t)
  slashed : {t : Text} (c : ℕ) → Body q t → Body q (b'\\' ∷ c ∷ t)
  doubled : {t : Text} → q ≡ b'\'' → Body q t → Body q (b'\'' ∷ b'\'' ∷ t)

-- a byte that means nothing to the splitter outside quotes
abbrev is_free : ℕ → Bool
is_free c = not (c == b'-' || c == b'/' || c == b'\'' || c == b'"' || c == b';')

-- The text of a statement: bytes outside quotes, with no semicolon and no start of a comment, and
-- quoted texts, which hold any of these.
pub data Lexed : Text → Type 0 where
  done : Lexed []
  byte : {t : Text} (c : ℕ) → is_free c ≡ true → Lexed t → Lexed (c ∷ t)
  dash : {t : Text} → has_prefix t (codes "-") ≡ false → Lexed t → Lexed (b'-' ∷ t)
  slash : {t : Text} → has_prefix t (codes "*") ≡ false → Lexed t → Lexed (b'/' ∷ t)
  single_quoted :
      {b t : Text}
      → Body b'\'' b
      → has_prefix t (codes "'") ≡ false
      → Lexed t
      → Lexed (b'\'' ∷ (b ++ b'\'' ∷ t))
  double_quoted : {b t : Text} → Body b'"' b → Lexed t → Lexed (b'"' ∷ (b ++ b'"' ∷ t))

-- what may stand behind a statement: nothing, or its semicolon
abbrev ends : Text → Bool
ends [] = true
ends (c ∷ s) = c == b';'

has_prefix-append :
    (t rest : Text) (c : ℕ)
    → has_prefix t (c ∷ []) ≡ false
    → ends rest ≡ true
    → (c == b';') ≡ false
    → has_prefix (t ++ rest) (c ∷ []) ≡ false
unfolding has_prefix
has_prefix-append [] [] c h e n = refl
has_prefix-append [] (d ∷ rest) c h e n = ground arith
has_prefix-append (d ∷ t) rest c h e n = ground arith

split-single :
    {b : Text} (cur rest : Text)
    → Body b'\'' b
    → has_prefix rest (codes "'") ≡ false
    → split_from single cur (b ++ b'\'' ∷ rest) ≡ split_from code (cur ++ (b ++ b'\'' ∷ [])) rest
unfolding move has_prefix
split-single cur [] closed h = split_from-after single cur b'\'' []
split-single cur (d ∷ rest) closed h = ground (arith, split_from-after single cur b'\'' (d ∷ rest))
split-single cur rest (char {t} c n b) h = ground (
  arith,
  split_from-after single cur c (t ++ b'\'' ∷ rest),
  split-single (cur ++ c ∷ []) rest b h,
  append_assoc cur (c ∷ []) (t ++ b'\'' ∷ []),
)
split-single cur rest (slashed {t} c b) h = ground (
  arith,
  split_from-after single cur b'\\' (c ∷ (t ++ b'\'' ∷ rest)),
  split-single (cur ++ b'\\' ∷ c ∷ []) rest b h,
  append_assoc cur (b'\\' ∷ c ∷ []) (t ++ b'\'' ∷ []),
)
split-single cur rest (doubled {t} e b) h = ground (
  arith,
  split_from-after single cur b'\'' (b'\'' ∷ (t ++ b'\'' ∷ rest)),
  split-single (cur ++ b'\'' ∷ b'\'' ∷ []) rest b h,
  append_assoc cur (b'\'' ∷ b'\'' ∷ []) (t ++ b'\'' ∷ []),
)

split-double :
    {b : Text} (cur rest : Text)
    → Body b'"' b
    → split_from double cur (b ++ b'"' ∷ rest) ≡ split_from code (cur ++ (b ++ b'"' ∷ [])) rest
unfolding move
split-double cur rest closed = split_from-after double cur b'"' rest
split-double cur rest (char {t} c n b) = ground (
  arith,
  split_from-after double cur c (t ++ b'"' ∷ rest),
  split-double (cur ++ c ∷ []) rest b,
  append_assoc cur (c ∷ []) (t ++ b'"' ∷ []),
)
split-double cur rest (slashed {t} c b) = ground (
  arith,
  split_from-after double cur b'\\' (c ∷ (t ++ b'"' ∷ rest)),
  split-double (cur ++ b'\\' ∷ c ∷ []) rest b,
  append_assoc cur (b'\\' ∷ c ∷ []) (t ++ b'"' ∷ []),
)
split-double cur rest (doubled e b) = absurd (omega arith)

-- outside quotes, a byte that is kept
split_byte :
    (cur : Text) (c : ℕ) (s : Text)
    → move code cur c (peek s) ≡ go code (cur ++ c ∷ [])
    → split_from code cur (c ∷ s) ≡ split_from code (cur ++ c ∷ []) s
split_byte cur c s e = split_from-after code cur c s ∙ ap (λ v. after v cur s) e

move-is_free :
    (cur : Text) (c : ℕ) (next : Option ℕ)
    → is_free c ≡ true
    → move code cur c next ≡ go code (cur ++ c ∷ [])
unfolding move
move-is_free cur c next h = ground arith

move_mark :
    (cur : Text) (s : Text) (c d : ℕ)
    → ((c ≡ b'-') × (d ≡ b'-')) ⊎ ((c ≡ b'/') × (d ≡ b'*'))
    → has_prefix s (d ∷ []) ≡ false
    → move code cur c (peek s) ≡ go code (cur ++ c ∷ [])
unfolding move has_prefix
move_mark cur [] c d e h = ground arith
move_mark cur (x ∷ s) c d e h = ground arith

open_single :
    (cur s : Text) → split_from code cur (b'\'' ∷ s) ≡ split_from single (cur ++ b'\'' ∷ []) s
unfolding move
open_single cur s = split_from-after code cur b'\'' s

open_double :
    (cur s : Text) → split_from code cur (b'"' ∷ s) ≡ split_from double (cur ++ b'"' ∷ []) s
unfolding move
open_double cur s = split_from-after code cur b'"' s

-- The loop reads a well-formed statement whole, up to its semicolon or the end of the script.
pub split_from-Lexed :
    {t : Text} (cur rest : Text)
    → Lexed t
    → ends rest ≡ true
    → split_from code cur (t ++ rest) ≡ split_from code (cur ++ t) rest
split_from-Lexed cur rest done h = rw append-nil
split_from-Lexed cur rest (byte {t} c f l) h =
    split_byte cur c (t ++ rest) (move-is_free cur c _ f)
    ∙ split_from-Lexed (cur ++ c ∷ []) rest l h
    ∙ rw append_assoc
split_from-Lexed cur rest (dash {t} p l) h =
    split_byte cur b'-' (t ++ rest) (
      move_mark cur (t ++ rest) b'-' b'-' (inl (refl, refl))
        (has_prefix-append t rest b'-' p h refl))
    ∙ split_from-Lexed (cur ++ b'-' ∷ []) rest l h
    ∙ rw append_assoc
split_from-Lexed cur rest (slash {t} p l) h =
    split_byte cur b'/' (t ++ rest) (
      move_mark cur (t ++ rest) b'/' b'*' (inr (refl, refl))
        (has_prefix-append t rest b'*' p h refl))
    ∙ split_from-Lexed (cur ++ b'/' ∷ []) rest l h
    ∙ rw append_assoc
split_from-Lexed cur rest (single_quoted {b} {t} q p l) h =
    ap (λ u. split_from code cur (b'\'' ∷ u)) (append_assoc b (b'\'' ∷ t) rest)
    ∙ open_single cur _
    ∙ split-single (cur ++ b'\'' ∷ []) (t ++ rest) q (has_prefix-append t rest b'\'' p h refl)
    ∙ split_from-Lexed _ rest l h
    ∙ simp append_assoc
split_from-Lexed cur rest (double_quoted {b} {t} q l) h =
    ap (λ u. split_from code cur (b'"' ∷ u)) (append_assoc b (b'"' ∷ t) rest)
    ∙ open_double cur _
    ∙ split-double (cur ++ b'"' ∷ []) (t ++ rest) q
    ∙ split_from-Lexed _ rest l h
    ∙ simp append_assoc
