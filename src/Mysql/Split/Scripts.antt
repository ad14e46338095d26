-- ===== src/Mysql/Split/Scripts.antt =====
-- `SplitStatements` on whole scripts.
use flashaccess.Base.{
  true, Text, codes, List, [], ◌∷◌, ◌++◌, ◌≡◌, ◌≢◌, refl, ◌∙◌, ap, sym, ℕ, map, join, All,
  append-nil,
}
use flashaccess.Mysql.Split.Runes.{is_scalar, written, trim_runes, runes-written}
use flashaccess.Mysql.Split.{code, move, flush, split_from, split_statements}
use flashaccess.Mysql.Split.Lexemes.{Lexed, split_from-Lexed}
use flashaccess.Mysql.Split.Lexemes.Steps.{split_from-after}

-- a statement that is well formed for the splitter, trimmed and not empty
abbrev pub IsStatement : Text → Type 0
IsStatement t = All (λ r. is_scalar r ≡ true) t × Lexed t × (trim_runes t ≡ t) × (t ≢ [])

flush_trimmed : (t : Text) (rest : List Text) → trim_runes t ≡ t → t ≢ [] → flush t rest ≡ t ∷ rest
flush_trimmed [] rest e n = absurd (n refl)
flush_trimmed (c ∷ s) rest e n = rw e

-- a complete statement, its semicolon, and what follows
split_statement :
    (t rest : Text)
    → IsStatement t
    → split_from code [] (t ++ b';' ∷ rest) ≡ t ∷ split_from code [] rest
unfolding move
split_statement t rest (u, l, e, n) =
    split_from-Lexed [] (b';' ∷ rest) l refl
    ∙ split_from-after code t b';' rest
    ∙ flush_trimmed t (split_from code [] rest) e n

last_statement : (t : Text) → IsStatement t → split_from code [] t ≡ t ∷ []
last_statement t (u, l, e, n) =
    sym (ap (split_from code []) (append-nil t))
    ∙ split_from-Lexed [] [] l refl
    ∙ unfold split_from in flush_trimmed t [] e n

split_from-join :
    (stmts : List Text)
    → All IsStatement stmts
    → split_from code [] (join stmts (codes ";")) ≡ stmts
unfolding join
split_from-join [] h = unfold split_from trim_runes in refl
split_from-join (t ∷ []) h = last_statement t h.0
split_from-join (t ∷ u ∷ r) h =
    split_statement t (join (u ∷ r) (codes ";")) h.0 ∙ ap (◌∷◌ t) (split_from-join (u ∷ r) h.1)

All-append :
    (xs ys : List ℕ)
    → All (λ r. is_scalar r ≡ true) xs
    → All (λ r. is_scalar r ≡ true) ys
    → All (λ r. is_scalar r ≡ true) (xs ++ ys)
All-append [] ys h k = k
All-append (x ∷ xs) ys (h, hs) k = (h, All-append xs ys hs k)

join_scalars :
    (stmts : List (List ℕ))
    → All IsStatement stmts
    → All (λ r. is_scalar r ≡ true) (join stmts (codes ";"))
unfolding join
join_scalars [] h = tt
join_scalars (t ∷ []) h = h.0.0
join_scalars (t ∷ v ∷ r) h = All-append t _ h.0.0 (refl, join_scalars (v ∷ r) h.1)

-- A script of well-formed statements joined by semicolons is split into just these statements, in
-- order, whatever semicolons and comment marks stand in their quoted texts. A statement is given by
-- its characters, and they are any of Unicode; the script and the results are their UTF-8.
pub split_statements-join :
    (stmts : List (List ℕ))
    → All IsStatement stmts
    → split_statements (written (join stmts (codes ";"))) ≡ map written stmts
unfolding split_statements
split_statements-join stmts h =
    ap (λ rs. map written (split_from code [] rs))
      (runes-written (join stmts (codes ";")) (join_scalars stmts h))
    ∙ ap (map written) (split_from-join stmts h)
