-- ===== src/Mysql/Names.antt =====
-- The patterns of internal/mysql/mysql.go and admin.go that guard what goes inline into SQL, and
-- the playground names of playground.go. A pattern is anchored at both ends.
use flashaccess.Base.{
  ℕ, Text, codes, Bool, true, not, ◌&&◌, ◌||◌, ◌∷◌, ◌++◌, ◌==◌, leb, ltb, length, take, drop,
  all_of, has_prefix, if◌then◌else◌, ◌≡◌, arith, all_of_mono,
}
use flashaccess.Mysql.Quote.Reading.{is_plain}

abbrev within : ℕ → ℕ → ℕ → Bool
within lo hi c = leb lo c && leb c hi

-- `[a-f0-9]`
abbrev pub is_hex : ℕ → Bool
is_hex c = within b'a' b'f' c || within b'0' b'9' c

-- `[a-zA-Z0-9]`
abbrev pub is_alnum : ℕ → Bool
is_alnum c = within b'a' b'z' c || within b'A' b'Z' c || within b'0' b'9' c

-- `[a-zA-Z0-9_]`
abbrev pub is_word : ℕ → Bool
is_word c = is_alnum c || c == b'_'

-- `[a-zA-Z0-9_.%:/\-]`
abbrev pub is_host : ℕ → Bool
is_host c = is_word c || c == b'.' || c == b'%' || c == b':' || c == b'/' || c == b'-'

-- `{lo,hi}` of a class of bytes
abbrev pub repeats : (ℕ → Bool) → ℕ → ℕ → Text → Bool
repeats p lo hi s = leb lo (length s) && leb (length s) hi && all_of p s

-- `userPattern`: ^tmp_[a-f0-9]{6,32}$
unfoldable pub user_pattern : Text → Bool
unfolding has_prefix
user_pattern s = has_prefix s (codes "tmp_") && repeats is_hex 6 32 (drop 4 s)

-- `userNamePattern`: ^[a-zA-Z0-9_]{1,32}$
unfoldable pub user_name_pattern : Text → Bool
user_name_pattern s = repeats is_word 1 32 s

-- `hostPattern`: ^[a-zA-Z0-9_.%:/\-]{1,60}$
unfoldable pub host_pattern : Text → Bool
host_pattern s = repeats is_host 1 60 s

-- `dbNamePattern`: ^[a-zA-Z0-9_\-]{1,64}$
unfoldable pub db_name_pattern : Text → Bool
db_name_pattern s = repeats (λ c. is_word c || c == b'-') 1 64 s

-- `safePassword`
unfoldable pub safe_password : Text → Bool
safe_password p = not (length p == 0) && all_of is_alnum p

-- `playgroundPrefix`
abbrev pub playground_prefix : Text
playground_prefix = codes "_fa_playground_"

-- `IsPlaygroundDB`
unfoldable pub is_playground_db : Text → Bool
unfolding has_prefix
is_playground_db name = has_prefix name playground_prefix

-- `PlaygroundDBName`
unfoldable pub playground_db_name : Text → Text
playground_db_name id = playground_prefix ++ (if ltb 8 (length id) then take 8 id else id)

pub user_pattern-is_plain : (s : Text) → user_pattern s ≡ true → all_of is_plain s ≡ true
unfolding user_pattern
user_pattern-is_plain (a ∷ b ∷ c ∷ d ∷ s) h =
    ground (arith, all_of_mono is_hex is_plain (λ x e. ground arith) s)
user_pattern-is_plain _ h = ground arith

pub user_name_pattern-is_plain : (s : Text) → user_name_pattern s ≡ true → all_of is_plain s ≡ true
unfolding user_name_pattern
user_name_pattern-is_plain s h = all_of_mono is_word is_plain (λ x e. ground arith) s (ground arith)

pub host_pattern-is_plain : (s : Text) → host_pattern s ≡ true → all_of is_plain s ≡ true
unfolding host_pattern
host_pattern-is_plain s h = all_of_mono is_host is_plain (λ x e. ground arith) s (ground arith)

pub safe_password-is_plain : (s : Text) → safe_password s ≡ true → all_of is_plain s ≡ true
unfolding safe_password
safe_password-is_plain s h = all_of_mono is_alnum is_plain (λ x e. ground arith) s (ground arith)
