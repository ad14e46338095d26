-- ===== src/Config.antt =====
-- internal/config/config.go: the configuration, and the store that seals it, and the sessions, with
-- the machine's master key. AES-GCM is a parameter. A path is the directory, with no slash at its
-- end, a slash and the name, as `filepath.Join` writes it for a clean directory.
pub mod Sealing
pub mod Saving
pub mod Loading
use flashaccess.Base.{
  ℤ, ℕ, zero, suc, ◌+◌, Text, text_eq, codes, Bool, Option, none, some, List, [], ◌∷◌, ◌++◌, Result,
  ok, err, ◌==◌, ltb, if◌then◌else◌, length, take, drop,
}
use flashaccess.Disk.{
  Json, Disk, IoError, not_exist, io_error, read_file, write_file, make_dirs, write_atomically,
}

-- `DBConfig`, `SessionDefaults` and `Config`
pub record DbConfig : Type 0 where
  pub socket : Text
  pub host : Text
  pub port : ℤ
  pub admin_user : Text
  pub admin_password : Text

pub record SessionDefaults : Type 0 where
  pub duration : Text
  pub allowed_cidr : Text

pub record Config : Type 0 where
  pub db : DbConfig
  pub listen_addr : Text
  pub admin_password_hash : Text
  pub defaults : SessionDefaults
  pub mode : Text

abbrev pub mode_unrestricted : Text
mode_unrestricted = codes "unrestricted"

abbrev pub mode_strict : Text
mode_strict = codes "strict"

-- `EffectiveMode`
unfoldable pub effective_mode : Config → Text
effective_mode c = if text_eq c.mode mode_strict then mode_strict else mode_unrestricted

-- `cipher.AEAD` of AES-GCM, with no additional data: a key, a nonce and a text
pub record Aead : Type 0 where
  pub seal : Text → Text → Text → Text
  pub unseal : Text → Text → Text → Option Text

-- `NonceSize` of GCM
abbrev pub nonce_size : ℕ
nonce_size = 12

-- what a store acts on: the disk, and the random bytes to come, one text for each call of
-- `rand.Read`, or its failure
pub record Vault : Type 0 where
  pub disk : Disk
  pub entropy : List (Option Text)

pub data CfgError : Type 0 where
  io : IoError → CfgError
  no_entropy corrupt_key too_short wrong_key bad_json : CfgError

abbrev pub Act : Type 0 → Type 0
Act A = Vault → Result CfgError A × Vault

-- `n` bytes of what was drawn, as a buffer of `n` bytes takes them
unfoldable pub fill : ℕ → Text → Text
fill zero bs = []
fill (suc n) [] = 0 ∷ fill n []
fill (suc n) (b ∷ bs) = b ∷ fill n bs

abbrev pub next_draw : List (Option Text) → Option Text
next_draw [] = none
next_draw (e ∷ _) = e

abbrev pub later_draws : List (Option Text) → List (Option Text)
later_draws [] = []
later_draws (_ ∷ r) = r

abbrev pub drawn : ℕ → Option Text → Result CfgError Text
drawn n none = err no_entropy
drawn n (some bs) = ok (fill n bs)

-- `rand.Read` into a buffer of `n` bytes
abbrev pub draw : ℕ → Act Text
draw n v = (drawn n (next_draw v.entropy), record v { entropy = later_draws v.entropy })

-- a call of the disk
abbrev pub lifted : {A : Type 0} → Vault → Result IoError A × Disk → Result CfgError A × Vault
lifted v (ok a, d) = (ok a, record v { disk = d })
lifted v (err e, d) = (err (io e), record v { disk = d })

abbrev pub on_disk : {A : Type 0} → (Disk → Result IoError A × Disk) → Act A
on_disk f v = lifted v (f v.disk)

infixl 5 ◌>>=◌ ◌>>◌
abbrev pub proceed :
    {A B : Type 0} → Result CfgError A × Vault → (A → Act B) → Result CfgError B × Vault
proceed (ok a, v) f = f a v
proceed (err e, v) f = (err e, v)

abbrev pub ◌>>=◌ : {A B : Type 0} → Act A → (A → Act B) → Act B
◌>>=◌ m f v = proceed (m v) f

abbrev pub ◌>>◌ : {B : Type 0} → Act (Unit {0}) → Act B → Act B
m >> k = m >>= λ _. k

abbrev pub returns : {A : Type 0} → Result CfgError A → Act A
returns r v = (r, v)

-- what `masterKey` does with the file of the key
abbrev pub new_key : Text → Act Text
new_key path = do key ← draw 32; on_disk make_dirs; on_disk (write_file path key); returns (ok key)

abbrev pub key_read : Text → Result CfgError Text × Vault → Result CfgError Text × Vault
key_read path (ok content, v) = (if length content == 32 then ok content else err corrupt_key, v)
key_read path (err (io not_exist), v) = new_key path v
key_read path (err e, v) = (err e, v)

abbrev pub in_dir : Text → Text → Text
in_dir dir name = dir ++ (codes "/" ++ name)

abbrev pub key_path : Text → Text
key_path dir = in_dir dir (codes "master.key")

abbrev pub config_path : Text → Text
config_path dir = in_dir dir (codes "config.enc")

-- `masterKey` of a store in `dir`
unfoldable pub master_key : Text → Act Text
master_key dir v = key_read (key_path dir) (on_disk (read_file (key_path dir)) v)

abbrev pub opened : Option Text → Result CfgError Text
opened none = err wrong_key
opened (some plain) = ok plain

module _ (gcm : Aead) where
  -- `Encrypt`
  unfoldable pub encrypt : Text → Text → Act Text
  encrypt dir plain = do
    key ← master_key dir
    nonce ← draw nonce_size
    returns (ok (nonce ++ gcm.seal key nonce plain))

  abbrev pub open_sealed : Text → Text → Result CfgError Text
  open_sealed key sealed =
      if ltb (length sealed) nonce_size
      then err too_short
      else opened (gcm.unseal key (take nonce_size sealed) (drop nonce_size sealed))

  -- `Decrypt`
  unfoldable pub decrypt : Text → Text → Act Text
  decrypt dir sealed = do key ← master_key dir; returns (open_sealed key sealed)

  module _ (json : Json Config) where
    -- `Save`; `json.Marshal` of texts and numbers does not fail
    unfoldable pub save_config : Text → Config → Act (Unit {0})
    save_config dir c = do
      on_disk make_dirs
      sealed ← encrypt dir (json.marshal c)
      on_disk (write_atomically (config_path dir) sealed)

    abbrev pub parsed : Option Config → Result CfgError Config
    parsed none = err bad_json
    parsed (some c) = ok c

    -- `Load`
    unfoldable pub load_config : Text → Act Config
    load_config dir = do
      key ← master_key dir
      sealed ← on_disk (read_file (config_path dir))
      plain ← returns (open_sealed key sealed)
      returns (parsed (json.unmarshal plain))
