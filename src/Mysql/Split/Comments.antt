-- ===== src/Mysql/Split/Comments.antt =====
-- `SplitStatements` on comments.
use flashaccess.Base.{Text, codes, true, not, [], ◌∷◌, ◌++◌, ◌==◌, ◌≡◌, ◌∙◌, arith, all_of}
use flashaccess.Mysql.Split.{code, line, block, move, split_from}
use flashaccess.Mysql.Split.Lexemes.Steps.{split_from-after}

split-line :
    (cur body rest : Text)
    → all_of (λ c. not (c == b'\n')) body ≡ true
    → split_from line cur (body ++ b'\n' ∷ rest) ≡ split_from code (cur ++ b'\n' ∷ []) rest
unfolding move
split-line cur [] rest h = split_from-after line cur b'\n' rest
split-line cur (c ∷ body) rest h =
    ground (arith, split_from-after line cur c (body ++ b'\n' ∷ rest), split-line cur body rest)

-- A line comment, from two dashes to the end of its line, leaves only its newline, whatever it
-- holds: quotes and semicolons in it are neither opened nor split.
pub split_from_line_comment :
    (cur body rest : Text)
    → all_of (λ c. not (c == b'\n')) body ≡ true
    → split_from code cur (codes "--" ++ (body ++ b'\n' ∷ rest))
      ≡ split_from code (cur ++ b'\n' ∷ []) rest
unfolding move
split_from_line_comment cur body rest h =
    split_from-after code cur b'-' (b'-' ∷ (body ++ b'\n' ∷ rest)) ∙ split-line cur body rest h

split-block :
    (cur body rest : Text)
    → all_of (λ c. not (c == b'*')) body ≡ true
    → split_from block cur (body ++ (codes "*/" ++ rest)) ≡ split_from code cur rest
unfolding move
split-block cur [] rest h = split_from-after block cur b'*' (b'/' ∷ rest)
split-block cur (c ∷ body) rest h =
    ground (
      arith,
      split_from-after block cur c (body ++ (codes "*/" ++ rest)),
      split-block cur body rest,
    )

-- A block comment whose inside holds no star vanishes: what stands before it and what stands
-- behind it become neighbours in one statement, with nothing between them.
split_from_block_comment :
    (cur body rest : Text)
    → all_of (λ c. not (c == b'*')) body ≡ true
    → split_from code cur (codes "/*" ++ (body ++ (codes "*/" ++ rest))) ≡ split_from code cur rest
unfolding move
split_from_block_comment cur body rest h =
    split_from-after code cur b'/' (b'*' ∷ (body ++ (codes "*/" ++ rest)))
    ∙ split-block cur body rest h
