-- ===== src/Cli/Terminal.antt =====
-- `prompt`, `promptYN` and the reads of passwords: what a command asks at the terminal. The texts
-- that are printed are left out. The terminal holds what is still to be read, and how the reads of
-- passwords will end: none where there is no terminal.
use flashaccess.Base.{
  ℕ, ◌==◌, ◌||◌, Bool, Text, text_eq, codes, Option, none, some, List, [], ◌∷◌, Result, ok, err,
  if◌then◌else◌, trim_space, to_lower,
}
use flashaccess.Web.Site.{World}
use flashaccess.Cli.{CliError}

-- standard input, and the passwords to come
pub record Terminal : Type 0 where
  pub input : Text
  pub passwords : List (Option Text)

pub record Setting : Type 0 where
  pub terminal : Terminal
  pub world : World

abbrev pub Step : Type 0 → Type 0
Step A = Setting → Result CliError A × Setting

infixl 5 ◌>>=◌ ◌>>◌
abbrev pub proceed :
    {A B : Type 0} → Result CliError A × Setting → (A → Step B) → Result CliError B × Setting
proceed (ok a, s) f = f a s
proceed (err e, s) f = (err e, s)

abbrev pub ◌>>=◌ : {A B : Type 0} → Step A → (A → Step B) → Step B
◌>>=◌ m f s = proceed (m s) f

abbrev pub ◌>>◌ : {B : Type 0} → Step (Unit {0}) → Step B → Step B
m >> k = m >>= λ _. k

abbrev pub done_with : {A : Type 0} → A → Step A
done_with a s = (ok a, s)

abbrev pub stops : {A : Type 0} → CliError → Step A
stops e s = (err e, s)

-- `ReadString('\n')`: a line with its end, or what is left, and what follows
unfoldable pub read_line : Text → Text × Text
read_line [] = ([], [])
read_line (c ∷ s) =
    let (line, rest) = read_line s in if c == b'\n' then (c ∷ [], s) else (c ∷ line, rest)

abbrev cons_trimmed : ℕ → Text → Text
cons_trimmed c [] = if c == b'\n' || c == b'\r' then [] else c ∷ []
cons_trimmed c (d ∷ s) = c ∷ d ∷ s

-- `strings.TrimRight(line, "\r\n")`
unfoldable pub trim_end : Text → Text
trim_end [] = []
trim_end (c ∷ s) = cons_trimmed c (trim_end s)

abbrev with_input : Setting → Text → Setting
with_input s rest = record s { terminal = record s.terminal { input = rest } }

abbrev line_read : Setting → Text × Text → Text × Setting
line_read s (line, rest) = (line, with_input s rest)

abbrev next_line : Setting → Text × Setting
next_line s = line_read s (read_line s.terminal.input)

abbrev or_default : Text → Text → Text
or_default def [] = def
or_default def (c ∷ s) = c ∷ s

-- `prompt`, with its default
unfoldable pub prompt : Text → Step Text
unfolding read_line trim_end
prompt def s = let (line, s') = next_line s in (ok (or_default def (trim_end line)), s')

abbrev is_yes : Bool → Text → Bool
is_yes def [] = def
is_yes def (c ∷ s) = text_eq (c ∷ s) (codes "y") || text_eq (c ∷ s) (codes "yes")

-- `promptYN`, with its default
unfoldable pub prompt_yn : Bool → Step Bool
unfolding read_line
prompt_yn def s = let (line, s') = next_line s in (ok (is_yes def (to_lower (trim_space line))), s')

abbrev first_password : List (Option Text) → Option Text
first_password [] = none
first_password (o ∷ _) = o

abbrev later_passwords : List (Option Text) → List (Option Text)
later_passwords [] = []
later_passwords (_ ∷ r) = r

abbrev or_line : Option Text → Step Text
or_line (some pw) s = (ok pw, s)
or_line none s = let (line, s') = next_line s in (ok (trim_end line), s')

-- `term.ReadPassword`, and a line where it fails
unfoldable pub read_password : Step Text
unfolding read_line trim_end
read_password s =
    or_line (first_password s.terminal.passwords) (record s {
      terminal = record s.terminal { passwords = later_passwords s.terminal.passwords };
    })
