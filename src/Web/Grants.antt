-- ===== src/Web/Grants.antt =====
-- internal/web/permanent_store.go: the permanent grants and their file. Each operation holds the
-- store's lock throughout, and is one step. JSON is a parameter; so is the disk's behaviour, as the
-- outcomes of the calls to come.
pub mod Durable
use flashaccess.Base.{
  ℤ, ℕ, Text, text_eq, codes, Option, none, some, List, [], ◌∷◌, ◌++◌, Result, ok, err, find, put,
  remove, if◌then◌else◌,
}
use flashaccess.Disk.{Disk, IoError, read_file, write_atomically}

-- `PermanentGrant`
pub record PermanentGrant : Type 0 where
  pub id : Text
  pub db_user : Text
  pub db_host : Text
  pub allowed_cidr : Text
  pub port : ℤ
  pub priv_level : Text
  pub description : Text
  pub created_at : ℕ

-- `json.MarshalIndent`, and what `json.Unmarshal` leaves in an empty list, its error ignored
pub record GrantsJson : Type 0 where
  pub marshal : List PermanentGrant → Text
  pub unmarshal : Text → List PermanentGrant

-- `permanentStore`
pub record PermanentStore : Type 0 where
  pub path : Text
  pub grants : List PermanentGrant

abbrev pub with_id : Text → List PermanentGrant → Option PermanentGrant
with_id id [] = none
with_id id (g ∷ gs) = let rest = with_id id gs in if text_eq g.id id then some g else rest

abbrev pub without_first : Text → List PermanentGrant → List PermanentGrant
without_first id [] = []
without_first id (g ∷ gs) =
    let rest = without_first id gs in if text_eq g.id id then gs else g ∷ rest

module _ (json : GrantsJson) where
  abbrev loaded : Result IoError Text → List PermanentGrant
  loaded (err e) = []
  loaded (ok content) = json.unmarshal content

  -- `newPermanentStore`
  unfoldable pub new_permanent_store : Text → Disk → PermanentStore × Disk
  new_permanent_store path d =
      let (r, after) = read_file path d in (record { path = path; grants = loaded r }, after)

  -- `save`
  unfoldable pub save : PermanentStore → Disk → Result IoError (Unit {0}) × Disk
  unfolding write_atomically
  save ps d = write_atomically ps.path (json.marshal ps.grants) d

  -- `Add`
  unfoldable pub add :
      PermanentGrant → PermanentStore → Disk → Result IoError (Unit {0}) × PermanentStore × Disk
  add g ps d =
      let ps' = record ps { grants = ps.grants ++ g ∷ [] } in
      let (r, after) = save ps' d in (r, ps', after)

  abbrev removed_found :
      Option PermanentGrant
      → Text
      → PermanentStore
      → Disk
      → Result IoError (Unit {0}) × PermanentStore × Disk
  removed_found none id ps d = (ok tt, ps, d)
  removed_found (some _) id ps d =
      let ps' = record ps { grants = without_first id ps.grants } in
      let (r, after) = save ps' d in (r, ps', after)

  -- `Remove`
  unfoldable pub remove_grant :
      Text → PermanentStore → Disk → Result IoError (Unit {0}) × PermanentStore × Disk
  remove_grant id ps d = removed_found (with_id id ps.grants) id ps d

-- `Get`
unfoldable pub get_grant : Text → PermanentStore → Option PermanentGrant
get_grant id ps = with_id id ps.grants

-- `List`
unfoldable pub list_grants : PermanentStore → List PermanentGrant
list_grants ps = ps.grants
