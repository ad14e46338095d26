-- ===== src/Tests/Grants.antt =====
-- The theorems on the file of the permanent grants, with a plain text for its JSON: one id in a line.
use flashaccess.Base.{pos, Text, codes, List, [], ◌∷◌, ◌++◌, refl, ◌==◌, if◌then◌else◌}
use flashaccess.Disk.{Disk, done, fails}
use flashaccess.Web.Grants.{PermanentGrant, GrantsJson, PermanentStore, add}
use flashaccess.Web.Grants.Durable.{Durable, add-Durable}

abbrev grant : Text → PermanentGrant
grant id = record {
  id = id;
  db_user = codes "app";
  db_host = codes "10.0.0.7";
  allowed_cidr = codes "10.0.0.7/32";
  port = pos 3306;
  priv_level = codes "read";
  description = [];
  created_at = 0;
}

abbrev lines_of : List PermanentGrant → Text
lines_of [] = []
lines_of (g ∷ gs) = g.id ++ b'\n' ∷ lines_of gs

abbrev grants_from : Text → Text → List PermanentGrant
grants_from cur [] = []
grants_from cur (c ∷ s) =
    let ended = grants_from [] s in
    let more = grants_from (cur ++ c ∷ []) s in if c == b'\n' then grant cur ∷ ended else more

abbrev by_lines : GrantsJson
by_lines = record { marshal = lines_of; unmarshal = grants_from [] }

abbrev two_grants : PermanentStore
two_grants = record { path = codes "grants"; grants = grant (codes "a") ∷ grant (codes "b") ∷ [] }

-- the write succeeds, and the rename fails
abbrev failing_disk : Disk
failing_disk = record {
  files = (codes "grants", codes "a\nb\n") ∷ [];
  outcomes = done ∷ fails [] ∷ [];
}

add-Durable_example :
    Durable by_lines two_grants failing_disk
      (two_grants.grants ++ grant (codes "c") ∷ [])
      (add by_lines (grant (codes "c")) two_grants failing_disk)
add-Durable_example = add-Durable by_lines (grant (codes "c")) two_grants failing_disk refl
