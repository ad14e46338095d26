-- ===== src/Web/Forms.antt =====
-- What the handlers of internal/web read of a form and of a query: `url.Values` as an association
-- list, in the order in which Go happens to visit it.
use flashaccess.Base.{Text, ℤ, atoi, Option, none, some, List, [], ◌∷◌, find}

abbrev pub Values : Type 0
Values = List (Text × List Text)

abbrev first_of : Option (List Text) → Text
first_of none = []
first_of (some []) = []
first_of (some (v ∷ _)) = v

-- `FormValue`, and `Get` of a query
unfoldable pub form_value : Text → Values → Text
form_value k f = first_of (find k f)

abbrev or_default : ℤ → Option ℤ → ℤ
or_default def none = def
or_default def (some n) = n

-- `queryInt`
unfoldable pub query_int : Text → ℤ → ℤ
query_int s def = or_default def (atoi s)
