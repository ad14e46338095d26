-- ===== src/Session/Persisters.antt =====
-- internal/session/encrypted_persister.go and file_persister.go: the stores of the sessions. The
-- crypter of the first is the store of internal/config, in the directory `dir`.
pub mod Cell
pub mod Sealed
pub mod Plain
use flashaccess.Base.{Text, Option, none, some, List, [], Result, ok, err}
use flashaccess.Disk.{Json, not_exist, read_file, write_atomically}
use flashaccess.Config.{
  Aead, Vault, CfgError, io, bad_json, Act, on_disk, proceed, returns, ◌>>=◌, encrypt, decrypt,
}
use flashaccess.Session.{Session}
use flashaccess.Session.State.{Persister}

module _ (json : Json (List Session)) (path : Text) where
  abbrev pub list_read : Option (List Session) → Result CfgError (List Session)
  list_read none = err bad_json
  list_read (some l) = ok l

  -- a missing file holds no sessions
  abbrev pub file_read :
      (Text → Act (List Session))
      → Result CfgError Text × Vault
      → Result CfgError (List Session) × Vault
  file_read f (ok content, v) = f content v
  file_read f (err (io not_exist), v) = (ok [], v)
  file_read f (err e, v) = (err e, v)

  -- `FilePersister.SaveAll`
  unfoldable pub save_plain : List Session → Act (Unit {0})
  save_plain l = on_disk (write_atomically path (json.marshal l))

  -- `FilePersister.LoadAll`
  unfoldable pub load_plain : Act (List Session)
  load_plain v =
      file_read (λ content. returns (list_read (json.unmarshal content)))
        (on_disk (read_file path) v)

  abbrev pub file_persister : Persister Vault CfgError
  file_persister = record { save_all = save_plain; load_all = load_plain }

  module _ (gcm : Aead) (dir : Text) where
    -- `EncryptedPersister.SaveAll`
    unfoldable pub save_sealed : List Session → Act (Unit {0})
    save_sealed l = do
      sealed ← encrypt gcm dir (json.marshal l)
      on_disk (write_atomically path sealed)

    abbrev pub opened_list : Text → Act (List Session)
    opened_list sealed = do
      plain ← decrypt gcm dir sealed
      returns (list_read (json.unmarshal plain))

    -- `EncryptedPersister.LoadAll`
    unfoldable pub load_sealed : Act (List Session)
    load_sealed v = file_read opened_list (on_disk (read_file path) v)

    abbrev pub encrypted_persister : Persister Vault CfgError
    encrypted_persister = record { save_all = save_sealed; load_all = load_sealed }
