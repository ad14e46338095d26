-- ===== src/Cli/Modes.antt =====
-- `cmdMode`: the mode of the installation.
use flashaccess.Base.{
  text_eq_iff, some, ◌≡◌, refl, sym, subst, ◌∙◌, inl, inr, ◌⊎◌, Bool-cases, Text, text_eq, List, [],
  ◌∷◌, Result, ok, err, if◌then◌else◌,
}
use flashaccess.Config.{
  Aead, Config, Vault, CfgError, effective_mode, mode_strict, mode_unrestricted, save_config,
  load_config,
}
use flashaccess.Disk.{Json}
use flashaccess.Config.{config_path}
use flashaccess.Config.Sealing.{HasKey}
use flashaccess.Config.Saving.{Kept}
use flashaccess.Config.Loading.{
  loads, SavesConfig, save_config-SavesConfig, Kept-loads, load_config-Kept,
}
use flashaccess.Cli.{
  CliError, no_config, save_failed, unknown_mode, Exit, fatal, shows_mode, sets_mode,
}

module _ (gcm : Aead) (json : Json Config) (dir : Text) where
  abbrev mode_saved : Text → Result CfgError (Unit {0}) × Vault → Exit × Vault
  mode_saved mode (err e, v) = (fatal (save_failed e), v)
  mode_saved mode (ok _, v) = (sets_mode mode, v)

  abbrev save_mode : Config → Text → Vault → Exit × Vault
  save_mode c mode v = mode_saved mode (save_config gcm json dir (record c { mode = mode }) v)

  abbrev mode_asked : Config → List Text → Vault → Exit × Vault
  mode_asked c [] v = (shows_mode (effective_mode c), v)
  mode_asked c (mode ∷ _) v =
      if text_eq mode mode_strict
      then save_mode c mode_strict v
      else if text_eq mode mode_unrestricted
      then save_mode c mode_unrestricted v
      else (fatal (unknown_mode mode), v)

  abbrev with_config : List Text → Result CfgError Config × Vault → Exit × Vault
  with_config args (err e, v) = (fatal (no_config e), v)
  with_config args (ok c, v) = mode_asked c args v

  -- `cmdMode`, of a store in `dir`
  unfoldable pub cmd_mode : List Text → Vault → Exit × Vault
  unfolding text_eq
  cmd_mode args v = with_config args (load_config gcm json dir v)

  -- How `mode` with an argument ends: the mode is one of the two, it is reported as set, and the
  -- configuration that is loaded from then on is the one before with this mode; or an error is
  -- reported and, if the machine had its key, what is loaded is what was.
  abbrev pub SetsMode : Text → Vault → Exit × Vault → Type 0
  SetsMode mode v (x, v') =
      ((c : Config) × ((load_config gcm json dir v).0 ≡ ok c)
        × ((mode ≡ mode_strict) ⊎ (mode ≡ mode_unrestricted))
        × (x ≡ sets_mode mode)
        × (loads gcm json dir v' ≡ ok (record c { mode = mode })))
      ⊎ ((e : CliError) × (x ≡ fatal e)
          × ((key : Text) → HasKey dir key v → loads gcm json dir v' ≡ loads gcm json dir v))

  module _ (unseals : (k n p : Text) → gcm.unseal k n (gcm.seal k n p) ≡ some p)
      (reads : (c : Config) → json.unmarshal (json.marshal c) ≡ some c) where
    mode_saved-SetsMode :
        (c : Config) (mode : Text) (v v' : Vault) (out : Result CfgError (Unit {0}) × Vault)
        → (load_config gcm json dir v).0 ≡ ok c
        → (mode ≡ mode_strict) ⊎ (mode ≡ mode_unrestricted)
        → Kept (config_path dir) dir v v'
        → SavesConfig gcm json dir (record c { mode = mode }) v' out
        → SetsMode mode v (mode_saved mode out)
    mode_saved-SetsMode c mode v v' (ok _, w) l m k (inl (r, h)) = inl (c, l, m, refl, h)
    mode_saved-SetsMode c mode v v' (err e, w) l m k (inl (r, h)) = absurd (cc)
    mode_saved-SetsMode c mode v v' (ok _, w) l m k (inr (e, r, h)) = absurd (cc)
    mode_saved-SetsMode c mode v v' (err e, w) l m k (inr (_, r, h)) = inr (
      save_failed e,
      refl,
      λ key has_key. h key (k.same_key key has_key) ∙ Kept-loads gcm json dir key v v' has_key k,
    )

    save_mode-SetsMode :
        (c : Config) (mode : Text) (v v' : Vault)
        → (load_config gcm json dir v).0 ≡ ok c
        → (mode ≡ mode_strict) ⊎ (mode ≡ mode_unrestricted)
        → Kept (config_path dir) dir v v'
        → SetsMode mode v (save_mode c mode v')
    save_mode-SetsMode c mode v v' l m k = mode_saved-SetsMode c mode v v' _ l m k (
        save_config-SavesConfig gcm json dir unseals (record c { mode = mode })
          (reads (record c { mode = mode })) v')

    mode_asked-SetsMode :
        (c : Config) (mode : Text) (rest : List Text) (v v' : Vault)
        → (load_config gcm json dir v).0 ≡ ok c
        → Kept (config_path dir) dir v v'
        → SetsMode mode v (mode_asked c (mode ∷ rest) v')
    mode_asked-SetsMode c mode rest v v' l k = elim (Bool-cases (text_eq mode mode_strict)) [
      | inl e ↦
          let same : mode ≡ mode_strict = (text_eq_iff mode mode_strict).0 e in
          rw e (
            subst (λ m. SetsMode m v (save_mode c mode_strict v')) (sym same)
              (save_mode-SetsMode c mode_strict v v' l (inl refl) k))
      | inr e ↦ rw e (elim (Bool-cases (text_eq mode mode_unrestricted)) [
        | inl f ↦
            let same : mode ≡ mode_unrestricted = (text_eq_iff mode mode_unrestricted).0 f in
            rw f (
              subst (λ m. SetsMode m v (save_mode c mode_unrestricted v')) (sym same)
                (save_mode-SetsMode c mode_unrestricted v v' l (inr refl) k))
        | inr f ↦ rw f (
            inr
              (unknown_mode mode, refl, λ key has_key. Kept-loads gcm json dir key v v' has_key k))
      ])
    ]

    with_config-SetsMode :
        (mode : Text) (rest : List Text) (v : Vault) (out : Result CfgError Config × Vault)
        → (load_config gcm json dir v).0 ≡ out.0
        → Kept (config_path dir) dir v out.1
        → SetsMode mode v (with_config (mode ∷ rest) out)
    with_config-SetsMode mode rest v (err e, v') l k =
        inr (no_config e, refl, λ key has_key. Kept-loads gcm json dir key v v' has_key k)
    with_config-SetsMode mode rest v (ok c, v') l k = mode_asked-SetsMode c mode rest v v' l k

    -- `flashaccess mode` with an argument, whatever the disk and the random source do: the argument
    -- is one of the two modes, it is reported as set, and the configuration that is loaded from then
    -- on is the one that was loaded, with this mode; or an error is reported and, if the machine had
    -- its key, what is loaded is what was. JSON reads back every configuration that it writes.
    pub cmd_mode-SetsMode :
        (mode : Text) (rest : List Text) (v : Vault) → SetsMode mode v (cmd_mode (mode ∷ rest) v)
    unfolding cmd_mode
    cmd_mode-SetsMode mode rest v =
        with_config-SetsMode mode rest v (load_config gcm json dir v) refl
          (load_config-Kept gcm json dir v)
