-- ===== src/Mysql/Split.antt =====
-- `SplitStatements` of internal/mysql/query.go. At most one of the source's flags `inSingle`,
-- `inDouble`, `inLine`, `inBlock` is set at a time: they are a mode here. The loop reads and
-- writes runes, as lists of numbers; they are bytes again where the statements are returned.
pub mod Runes
pub mod Lexemes
pub mod Comments
pub mod Scripts
use flashaccess.Base.{
  ℕ, Text, codes, Bool, true, false, not, ◌&&◌, ◌||◌, Option, none, some, List, [], ◌∷◌, ◌++◌, ◌==◌,
  if◌then◌else◌, map,
}
use flashaccess.Mysql.Split.Runes.{runes, written, trim_runes}

pub data Mode : Type 0 where
  code single double line block : Mode

-- What one round of the loop does: it goes on behind the byte, or behind the one after it too,
-- in a mode with the statement read so far; or it ends the statement.
pub data Move : Type 0 where
  go skip : Mode → Text → Move
  emit : Move

-- `peek(i) == r`
abbrev pub peeks : Option ℕ → ℕ → Bool
peeks none r = false
peeks (some d) r = d == r

-- `WriteRune(c)` and, behind it, the byte that was peeked at
abbrev pub write_two : Text → ℕ → Option ℕ → Text
write_two cur c none = cur ++ c ∷ []
write_two cur c (some d) = cur ++ c ∷ d ∷ []

abbrev pub is_some : Option ℕ → Bool
is_some none = false
is_some (some _) = true

-- One round, at byte `c` with `next` behind it, outside quotes and comments.
unfoldable pub move_code : Text → ℕ → Option ℕ → Move
move_code cur c next =
    if c == b'-' && peeks next b'-'
    then skip line cur
    else if c == b'/' && peeks next b'*'
    then skip block cur
    else if c == b'\''
    then go single (cur ++ c ∷ [])
    else if c == b'"'
    then go double (cur ++ c ∷ [])
    else if c == b';'
    then emit
    else go code (cur ++ c ∷ [])

unfoldable pub move : Mode → Text → ℕ → Option ℕ → Move
unfolding move_code
move line cur c next = if c == b'\n' then go code (cur ++ c ∷ []) else go line cur
move block cur c next = if c == b'*' && peeks next b'/' then skip code cur else go block cur
move code cur c next = move_code cur c next
move single cur c next =
    if c == b'\''
    then (if peeks next b'\'' then skip single (write_two cur c next) else go code (cur ++ c ∷ []))
    else if c == b'\\' && is_some next
    then skip single (write_two cur c next)
    else go single (cur ++ c ∷ [])
move double cur c next =
    if c == b'"'
    then go code (cur ++ c ∷ [])
    else if c == b'\\' && is_some next
    then skip double (write_two cur c next)
    else go double (cur ++ c ∷ [])

abbrev pub append_unless_empty : Text → List Text → List Text
append_unless_empty [] rest = rest
append_unless_empty (c ∷ s) rest = (c ∷ s) ∷ rest

-- `if stmt := strings.TrimSpace(cur.String()); stmt != "" { stmts = append(stmts, stmt) }`, with
-- the statements that follow
abbrev pub flush : Text → List Text → List Text
flush cur rest = append_unless_empty (trim_runes cur) rest

-- The loop from a mode with `cur` read: the statements found from here on.
unfoldable pub split_from : Mode → Text → Text → List Text
split_from m cur [] = flush cur []
split_from m cur (c ∷ []) = elim (move m cur c none) [
  | go m' cur' ↦ flush cur' []
  | skip m' cur' ↦ flush cur' []
  | emit ↦ flush cur (flush [] [])
]
split_from m cur (c ∷ d ∷ s) = elim (move m cur c (some d)) [
  | go m' cur' ↦ split_from m' cur' (d ∷ s)
  | skip m' cur' ↦ split_from m' cur' s
  | emit ↦ flush cur (split_from code [] (d ∷ s))
]

-- `SplitStatements`
unfoldable pub split_statements : Text → List Text
unfolding split_from runes written
split_statements script = map written (split_from code [] (runes script))
