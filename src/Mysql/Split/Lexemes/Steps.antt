-- ===== src/Mysql/Split/Lexemes/Steps.antt =====
-- One round of the loop of `SplitStatements`, whatever stands behind the byte.
use flashaccess.Base.{ℕ, Text, Option, none, some, List, [], ◌∷◌, ◌≡◌, refl}
use flashaccess.Mysql.Split.{Mode, code, Move, go, skip, emit, move, flush, split_from}

abbrev pub peek : Text → Option ℕ
peek [] = none
peek (d ∷ _) = some d

abbrev pub rest_of : Text → Text
rest_of [] = []
rest_of (_ ∷ s) = s

-- the statements found behind a round that made the given move
abbrev pub after : Move → Text → Text → List Text
after (go m cur') cur s = split_from m cur' s
after (skip m cur') cur s = split_from m cur' (rest_of s)
after emit cur s = flush cur (split_from code [] s)

single_byte :
    (v : Move) (cur : Text)
    → (elim v as (λ _. List Text) [
      | go m' cur' ↦ flush cur' []
      | skip m' cur' ↦ flush cur' []
      | emit ↦ flush cur (flush [] [])
    ])
      ≡ after v cur []
unfolding split_from
single_byte (go m c) cur = refl
single_byte (skip m c) cur = refl
single_byte emit cur = refl

other_byte :
    (v : Move) (cur : Text) (d : ℕ) (s : Text)
    → (elim v as (λ _. List Text) [
      | go m' cur' ↦ split_from m' cur' (d ∷ s)
      | skip m' cur' ↦ split_from m' cur' s
      | emit ↦ flush cur (split_from code [] (d ∷ s))
    ])
      ≡ after v cur (d ∷ s)
other_byte (go m c) cur d s = refl
other_byte (skip m c) cur d s = refl
other_byte emit cur d s = refl

pub split_from-after :
    (m : Mode) (cur : Text) (c : ℕ) (s : Text)
    → split_from m cur (c ∷ s) ≡ after (move m cur c (peek s)) cur s
unfolding split_from
split_from-after m cur c [] = single_byte (move m cur c none) cur
split_from-after m cur c (d ∷ s) = other_byte (move m cur c (some d)) cur d s
