-- ===== src/Tests/Tables.antt =====
-- The theorem on the indexes of a table, on one with two.
use flashaccess.Base.{Text, codes, none, List, [], ◌∷◌, ◌++◌, ok, ◌≡◌, ◌≢◌}
use flashaccess.Mysql.Driver.{Driver, Value, bytes, null, bare, query, returns}
use flashaccess.Mysql.Databases.{qualified, scan_result}
use flashaccess.Mysql.Tables.{scan_index, list_indexes}
use flashaccess.Mysql.Tables.Listing.{described, list_indexes-described}

abbrev index_row : Text → Text → List Value
index_row k c =
    bytes (codes "item")
    ∷ bytes (codes "0")
    ∷ bytes k
    ∷ bytes (codes "1")
    ∷ bytes c
    ∷ null
    ∷ null
    ∷ null
    ∷ null
    ∷ null
    ∷ bytes (codes "BTREE")
    ∷ null
    ∷ null
    ∷ null
    ∷ null
    ∷ []

abbrev indexed_item : Driver
indexed_item = record {
  log = [];
  answers =
      returns []
        (index_row (codes "PRIMARY") (codes "id")
          ∷ index_row (codes "name") (codes "last")
          ∷ index_row (codes "name") (codes "first")
          ∷ [])
        none
      ∷ [];
}

list_indexes-described_example :
    let rows =
      (query
        (bare (codes "SHOW INDEX FROM " ++ qualified (codes "shop") (codes "item")))
        indexed_item).0 in
    ((list_indexes (codes "shop") (codes "item") indexed_item).0
      ≡ described (scan_result scan_index rows))
    × ((list_indexes (codes "shop") (codes "item") indexed_item).0 ≢ ok none)
list_indexes-described_example = list_indexes-described (codes "shop") (codes "item") indexed_item
