-- ===== src/Config/Loading.antt =====
-- `Save`, and `Load` on what it leaves.
use flashaccess.Base.{
  Text, text_eq, text_eq_iff, codes, Option, none, some, ◌++◌, Result, ok, err, length, drop, find,
  length-append, ◌≡◌, ◌≢◌, refl, sym, ◌∙◌, ap, arith, inl, inr, ◌⊎◌,
}
use flashaccess.Disk.{
  Json, IoOutcome, done, fails, not_exist, io_error, seen, spent, next_outcome, made, tmp_path,
  write_atomically, IoError, read_file,
}
use flashaccess.Disk.Atomic.{IsElsewhere}
use flashaccess.Config.{
  Aead, Config, Vault, CfgError, io, key_path, config_path, on_disk, lifted, encrypt, open_sealed,
  master_key, proceed, returns, ◌>>=◌, parsed, save_config, load_config,
}
use flashaccess.Config.Sealing.{HasKey, mended, HasKey-mended, drop-append}
use flashaccess.Config.Saving.{
  Kept, Kept-trans, Kept_of_eq, master_key-Kept, Holds, Replaces, Replaces-from,
  sealed_save-Replaces,
}

append_cancel : (xs ys zs : Text) → xs ++ ys ≡ xs ++ zs → ys ≡ zs
append_cancel xs ys zs e =
    sym (drop-append (length xs) xs ys refl)
    ∙ ap (drop (length xs)) e
    ∙ drop-append (length xs) xs zs refl

config_is_other : (dir : Text) → config_path dir ≢ key_path dir
unfolding text_eq
config_is_other dir e =
    let names = append_cancel dir (codes "/config.enc") (codes "/master.key") e in
    absurd (cc ((text_eq_iff (codes "/config.enc") (codes "/master.key")).1 names))

tmp_is_other : (dir : Text) → tmp_path (config_path dir) ≢ key_path dir
tmp_is_other dir e = omega (
  arith,
  ap length e,
  length-append (config_path dir) (codes ".tmp"),
  length-append dir (codes "/config.enc"),
  length-append dir (codes "/master.key"),
)

key_path-IsElsewhere : (dir : Text) → IsElsewhere (config_path dir) (key_path dir)
key_path-IsElsewhere dir = (config_is_other dir, tmp_is_other dir)

module _ (gcm : Aead) (json : Json Config) (dir : Text) where
  -- what is loaded on a disk that works
  abbrev pub loads : Vault → Result CfgError Config
  loads v = (load_config gcm json dir (mended v)).0

  -- How a save ends: the configuration is the one that is loaded, or an error is reported and, if
  -- the machine had its key, what is loaded is what was.
  abbrev pub SavesConfig : Config → Vault → Result CfgError (Unit {0}) × Vault → Type 0
  SavesConfig c v (r, v') =
      ((r ≡ ok tt) × (loads v' ≡ ok c))
      ⊎ ((e : CfgError) × (r ≡ err e) × ((key : Text) → HasKey dir key v → loads v' ≡ loads v))

  abbrev from_plain : Result CfgError Text → Result CfgError Config
  from_plain (err e) = err e
  from_plain (ok plain) = parsed gcm json (json.unmarshal plain)

  abbrev from_file : Text → Option Text → Result CfgError Config
  from_file key none = err (io not_exist)
  from_file key (some sealed) = from_plain (open_sealed gcm key sealed)

  with_plain :
      (r : Result CfgError Text) (v : Vault)
      → (proceed (r, v) (λ plain. returns (parsed gcm json (json.unmarshal plain)))).0
        ≡ from_plain r
  with_plain (err e) v = refl
  with_plain (ok plain) v = refl

  with_file :
      (key : Text) (f : Option Text) (v : Vault)
      → (proceed (lifted v (seen done f, v.disk)) (λ sealed.
          returns (open_sealed gcm key sealed) >>= λ plain.
          returns (parsed gcm json (json.unmarshal plain)))).0
        ≡ from_file key f
  with_file key none v = refl
  with_file key (some sealed) v = with_plain (open_sealed gcm key sealed) v

  loads_with :
      (key : Text) (v : Vault)
      → HasKey dir key v
      → loads v ≡ from_file key (find (config_path dir) v.disk.files)
  unfolding load_config
  loads_with key v h =
      rw (loads, HasKey-mended dir key v h)
        (with_file key (find (config_path dir) v.disk.files) (mended v))

  -- Where the file and the key are kept, what is loaded stays the same.
  pub Kept-loads :
      (key : Text) (v v' : Vault)
      → HasKey dir key v
      → Kept (config_path dir) dir v v'
      → loads v' ≡ loads v
  Kept-loads key v v' h k =
      loads_with key v' (k.same_key key h) ∙ rw k.same_file (sym (loads_with key v h))

  with_plain-state :
      (r : Result CfgError Text) (v : Vault)
      → (proceed (r, v) (λ plain. returns (parsed gcm json (json.unmarshal plain)))).1 ≡ v
  with_plain-state (err e) v = refl
  with_plain-state (ok plain) v = refl

  file_read-Kept :
      (key : Text) (r : Result IoError Text) (v v' : Vault)
      → Kept (config_path dir) dir v v'
      → Kept (config_path dir) dir v (
          (proceed (lifted v' (r, spent v'.disk)) (λ sealed.
            returns (open_sealed gcm key sealed) >>= λ plain.
            returns (parsed gcm json (json.unmarshal plain)))).1)
  file_read-Kept key (err e) v v' k = Kept-trans k (Kept_of_eq refl)
  file_read-Kept key (ok sealed) v v' k =
      rw (with_plain-state (open_sealed gcm key sealed) (record v' { disk = spent v'.disk }))
        (Kept-trans k (Kept_of_eq refl))

  key_read-Kept :
      (out : Result CfgError Text × Vault) (v : Vault)
      → Kept (config_path dir) dir v out.1
      → Kept (config_path dir) dir v (
          (proceed out (λ key. on_disk (read_file (config_path dir)) >>= λ sealed.
          returns (open_sealed gcm key sealed) >>= λ plain.
          returns (parsed gcm json (json.unmarshal plain)))).1)
  key_read-Kept (err e, v') v k = k
  key_read-Kept (ok key, v') v k = file_read-Kept key (read_file (config_path dir) v'.disk).0 v v' k

  -- `Load` keeps the file and the key.
  pub load_config-Kept : (v : Vault) → Kept (config_path dir) dir v (load_config gcm json dir v).1
  unfolding load_config
  load_config-Kept v =
      key_read-Kept (master_key dir v) v
        (master_key-Kept (config_path dir) dir (λ e. config_is_other dir (sym e)) v)

module _ (gcm : Aead) (json : Json Config) (dir : Text)
    (unseals : (k n p : Text) → gcm.unseal k n (gcm.seal k n p) ≡ some p) (c : Config)
    (reads : json.unmarshal (json.marshal c) ≡ some c) where
  Holds-loads :
      (v : Vault) → Holds gcm (config_path dir) dir (json.marshal c) v → loads gcm json dir v ≡ ok c
  Holds-loads v h =
      loads_with gcm json dir h.sealed.key v h.sealed.has_key
      ∙ rw h.in_file (rw h.sealed.opens (rw reads refl))

  saved-SavesConfig :
      (v : Vault) (out : Result CfgError (Unit {0}) × Vault)
      → Replaces gcm (config_path dir) dir (json.marshal c) v out
      → SavesConfig gcm json dir c v out
  saved-SavesConfig v out (inl (r, h)) = inl (r, Holds-loads out.1 h)
  saved-SavesConfig v out (inr (e, r, k)) = inr (
    e,
    r,
    λ key h.
        loads_with gcm json dir key out.1 (k.same_key key h)
        ∙ rw k.same_file (sym (loads_with gcm json dir key v h)),
  )

  make_dirs-Replaces :
      (o : IoOutcome) (v : Vault)
      → Replaces gcm (config_path dir) dir (json.marshal c) v (
          proceed (lifted v (made o, spent v.disk)) (λ _.
            encrypt gcm dir (json.marshal c) >>= λ sealed.
            on_disk (write_atomically (config_path dir) sealed)))
  make_dirs-Replaces done v =
      Replaces-from gcm (config_path dir) dir (json.marshal c) v (record v { disk = spent v.disk })
        _ refl
        (sealed_save-Replaces gcm unseals (config_path dir) dir (key_path-IsElsewhere dir)
          (json.marshal c) (record v { disk = spent v.disk }))
  make_dirs-Replaces (fails left) v = inr (io io_error, refl, Kept_of_eq refl)

  -- How `Save` of a configuration ends that JSON reads back, as it does one whose texts are valid
  -- UTF-8, whatever the disk and the random source do: it reports success, and what `Load`
  -- yields on a disk that works is the configuration that was saved; or it reports an error, and,
  -- if the machine had its key before, what `Load` yields is what it was.
  pub save_config-SavesConfig :
      (v : Vault) → SavesConfig gcm json dir c v (save_config gcm json dir c v)
  unfolding save_config
  save_config-SavesConfig v =
      saved-SavesConfig v (save_config gcm json dir c v)
        (make_dirs-Replaces (next_outcome v.disk.outcomes) v)
