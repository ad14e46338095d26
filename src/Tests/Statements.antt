-- ===== src/Tests/Statements.antt =====
-- The theorems on SQL text and scripts, on short ones.
use flashaccess.Base.{
  ℕ, List, map, ◌++◌, codes, true, false, [], ◌∷◌, join, has_prefix, ◌≡◌, refl, ◌⊎◌,
}
use flashaccess.Mysql.Databases.{clone_database}
use flashaccess.Mysql.Databases.Targets.{Sends, CopiesInto, clone_database-CopiesInto}
use flashaccess.Mysql.Names.{is_playground_db}
use flashaccess.Mysql.Split.{split_statements}
use flashaccess.Mysql.Split.Runes.{written, trim_runes}
use flashaccess.Mysql.Split.Lexemes.{Lexed, done, byte, single_quoted, closed, char}
use flashaccess.Mysql.Split.Scripts.{IsStatement, split_statements-join}
use flashaccess.Mysql.Preview.{preview_query}
use flashaccess.Mysql.Preview.ReadOnly.{IsReadOnly, preview_query-Sends}
use flashaccess.Tests.{willing, refusing}

-- SELECT ';é'
abbrev quoted_semicolon : List ℕ
quoted_semicolon = codes "SELECT ';" ++ (233 ∷ codes "'")

quoted_semicolon-Lexed : Lexed quoted_semicolon
unfolding has_prefix
quoted_semicolon-Lexed = byte b'S' refl (
    byte b'E' refl (
      byte b'L' refl (
        byte b'E' refl (
          byte b'C' refl (
            byte b'T' refl (
              byte 32 refl (
                single_quoted {b = b';' ∷ 233 ∷ []} {t = []} (char b';' refl (char 233 refl closed))
                  refl done)))))))

quoted_semicolon-IsStatement : IsStatement quoted_semicolon
unfolding trim_runes
quoted_semicolon-IsStatement = (
  (refl, (refl, (refl, (refl, (refl, (refl, (refl, (refl, (refl, (refl, (refl, tt))))))))))),
  quoted_semicolon-Lexed,
  refl,
  λ h. cc,
)

split_statements-join_example :
    split_statements (written (join (quoted_semicolon ∷ quoted_semicolon ∷ []) (codes ";")))
    ≡ map written (quoted_semicolon ∷ quoted_semicolon ∷ [])
split_statements-join_example =
    split_statements-join (quoted_semicolon ∷ quoted_semicolon ∷ [])
      (quoted_semicolon-IsStatement, (quoted_semicolon-IsStatement, tt))

clone_database-CopiesInto_example :
    ((is_playground_db (codes "_fa_playground_1") ≡ false)
      × ((clone_database (codes "shop") (codes "_fa_playground_1") refusing).1 ≡ refusing))
    ⊎ ((is_playground_db (codes "_fa_playground_1") ≡ true)
        × Sends
            (CopiesInto (codes "shop") (codes "_fa_playground_1"))
            refusing
            (clone_database (codes "shop") (codes "_fa_playground_1") refusing).1)
clone_database-CopiesInto_example =
    clone_database-CopiesInto (codes "shop") (codes "_fa_playground_1") refusing

preview_query-Sends_example :
    Sends IsReadOnly willing
      (preview_query (codes "shop") (codes " DELETE FROM orders WHERE id = 1") willing).1
preview_query-Sends_example =
    preview_query-Sends (codes "shop") (codes " DELETE FROM orders WHERE id = 1") willing
