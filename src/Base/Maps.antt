-- ===== src/Base/Maps.antt =====
-- Go maps with string keys as association lists. Go visits a map in any order; nothing is assumed
-- of the order of the list.
use mathlib.Core.Path.{◌≡◌, refl}
use mathlib.Core.Option.{Option, none, some}
use mathlib.Core.List.{List, [], ◌∷◌}
use native.Mathlib.Omega.{arith}
use flashaccess.Base.Tests.{if◌then◌else◌}
use flashaccess.Base.Texts.{Text, text_eq, text_eq_iff}

module _ {V : Type 0} where
  unfoldable pub find : Text → List (Text × V) → Option V
  find id [] = none
  find id ((k, s) ∷ m) = if text_eq k id then some s else find id m

  -- `m[id] = s`
  unfoldable pub put : Text → V → List (Text × V) → List (Text × V)
  put id s [] = (id, s) ∷ []
  put id s ((k, t) ∷ m) = if text_eq k id then (id, s) ∷ m else (k, t) ∷ put id s m

  -- `delete(m, id)`
  unfoldable pub remove : Text → List (Text × V) → List (Text × V)
  remove id [] = []
  remove id ((k, s) ∷ m) = let rest = remove id m in if text_eq k id then rest else (k, s) ∷ rest

  pub find-put :
      (id j : Text) (s : V) (m : List (Text × V))
      → find j (put id s m) ≡ (if text_eq id j then some s else find j m)
  unfolding find put
  find-put id j s [] = refl
  find-put id j s ((k, t) ∷ m) =
      ground (arith, text_eq_iff id j, text_eq_iff k id, text_eq_iff k j, find-put id j s m)

  pub find-remove :
      (id j : Text) (m : List (Text × V))
      → find j (remove id m) ≡ (if text_eq id j then none else find j m)
  unfolding find remove
  find-remove id j [] = ground arith
  find-remove id j ((k, t) ∷ m) =
      ground (arith, text_eq_iff id j, text_eq_iff k id, text_eq_iff k j, find-remove id j m)
