-- ===== src/Cli/Connect/Saved.antt =====
-- `cmdConnect`: the configuration that it makes and stores.
use flashaccess.Base.{
  ◌<◌, ltb, Text, codes, Bool, true, false, Option, none, some, Result, ok, err, ℤ, pos, negsuc,
  zero, suc, [], length, ◌≡◌, ◌≢◌, refl, sym, ◌∙◌, ap, subst, arith, inl, inr, ◌⊎◌, Bool-cases,
}
use flashaccess.Config.{Config, Vault, CfgError, mode_strict, mode_unrestricted, save_config}
use flashaccess.Config.Loading.{loads, SavesConfig, save_config-SavesConfig}
use flashaccess.Mysql.Users.{open_manager}
use flashaccess.Mysql.Driver.{DbError, Driver}
use flashaccess.Cli.{Program, CliError, Exit, configured, default_dir, port_or_default}
use flashaccess.Cli.Connect.{
  offer_wipe, hash_admin, hashed, store_config, mode_of, config_from, scan_port, ask_config,
  keep_config, reached, stored, exit_of, cmd_connect,
}
use flashaccess.Cli.Terminal.{
  Setting, Step, proceed, ◌>>=◌, ◌>>◌, done_with, prompt, prompt_yn, read_password,
}

-- what holds of the value of a step that succeeds
Ensures : {A : Type 0} → (A → Type 0) → Step A → Type 0
Ensures {A} Q m = (s s' : Setting) (a : A) → m s ≡ (ok a, s') → Q a

proceed-Ensures :
    {A B : Type 0} (R : A → Type 0) (Q : B → Type 0) (f : A → Step B)
    (out : Result CliError A × Setting) (s' : Setting) (b : B)
    → ((a : A) (s1 : Setting) → out ≡ (ok a, s1) → R a)
    → ((a : A) → R a → Ensures Q (f a))
    → proceed out f ≡ (ok b, s')
    → Q b
unfolding Ensures
proceed-Ensures R Q f (ok a, s1) s' b known h e = h a (known a s1 refl) s1 s' b e
proceed-Ensures R Q f (err x, s1) s' b known h e = absurd (cc (ap (λ o. o.0) e))

bind-Ensures :
    {A B : Type 0} (R : A → Type 0) (Q : B → Type 0) (m : Step A) (f : A → Step B)
    → Ensures R m
    → ((a : A) → R a → Ensures Q (f a))
    → Ensures Q (m >>= f)
unfolding Ensures
bind-Ensures R Q m f known h s s' b e =
    proceed-Ensures R Q f (m s) s' b (λ a s1 q. known s s1 a q) h e

-- a step of which nothing is used
any_step : {A : Type 0} (m : Step A) → Ensures (λ a. Unit {0}) m
unfolding Ensures
any_step m s s' a e = tt

then-Ensures :
    {A B : Type 0} (Q : B → Type 0) (m : Step A) (f : A → Step B)
    → ((a : A) → Ensures Q (f a))
    → Ensures Q (m >>= f)
then-Ensures Q m f h = bind-Ensures (λ a. Unit {0}) Q m f (any_step m) (λ a _. h a)

ok_inj : {A : Type 0} (a b : A) → ◌≡◌ {A = Result CliError A} (ok a) (ok b) → a ≡ b
ok_inj a b e = cc

done-Ensures : {A : Type 0} (Q : A → Type 0) (a : A) → Q a → Ensures Q (done_with a)
unfolding Ensures
done-Ensures Q a q s s' b e = subst Q (ok_inj a b (ap (λ o. o.0) e)) q

mode_inj : (m n : Text) → ◌≡◌ {A = Exit} (configured m) (configured n) → m ≡ n
mode_inj m n e = cc

port_or_default-ne : (p : ℤ) → port_or_default p ≢ pos 0
port_or_default-ne (pos zero) e = absurd (cc)
port_or_default-ne (pos (suc n)) e = absurd (ground (arith, e))
port_or_default-ne (negsuc n) e = absurd (cc)

module _ (p : Program) where
  -- What a configuration holds that `cmdConnect` has made: one of the two modes, the hash of a
  -- password of eight bytes at least, and a port.
  pub record IsMade (c : Config) : Type 0 where
    pub one_mode : (c.mode ≡ mode_strict) ⊎ (c.mode ≡ mode_unrestricted)
    pub password : Text
    pub long_enough : 7 < length password
    pub is_hash : p.hash_password password ≡ some c.admin_password_hash
    pub some_port : c.db.port ≢ pos 0

  mode_of-one :
      (strict : Bool) → (mode_of p strict ≡ mode_strict) ⊎ (mode_of p strict ≡ mode_unrestricted)
  mode_of-one true = inl refl
  mode_of-one false = inr refl

  hashed-ok :
      (o : Option Text) (hash : Text) (s s' : Setting)
      → hashed p o s ≡ (ok hash, s')
      → o ≡ some hash
  hashed-ok none hash s s' e = absurd (cc (ap (λ o. o.0) e))
  hashed-ok (some h) hash s s' e = ground (arith, ap (λ o. o.0) e)

  IsAdmin : Text → Text → Type 0
  IsAdmin pw hash = (7 < length pw) × (p.hash_password pw ≡ some hash)

  hash_admin-IsAdmin : (pw : Text) → Ensures (IsAdmin pw) (hash_admin p pw)
  unfolding Ensures IsAdmin
  hash_admin-IsAdmin pw s s' hash = elim (Bool-cases (ltb (length pw) 8)) [
    | inl short ↦ rw short (λ e. absurd (cc (ap (λ o. o.0) e)))
    | inr long ↦ rw long (λ e. (ground (arith, long), hashed-ok (p.hash_password pw) hash s s' e))
  ]

  config_from-IsMade :
      (host port socket user pw listen admin_pw hash : Text) (strict : Bool)
      → IsAdmin admin_pw hash
      → IsMade (config_from p host port socket user pw listen hash strict)
  unfolding IsAdmin
  config_from-IsMade host port socket user pw listen admin_pw hash strict (long, is) = record {
    one_mode = mode_of-one strict;
    password = admin_pw;
    long_enough = long;
    is_hash = is;
    some_port = port_or_default-ne (scan_port port);
  }

  ask_config-IsMade : Ensures IsMade (ask_config p)
  unfolding ask_config
  ask_config-IsMade = then-Ensures IsMade (offer_wipe p) _ (λ _.
      then-Ensures IsMade (prompt (codes "127.0.0.1")) _ (λ host.
        then-Ensures IsMade (prompt (codes "3306")) _ (λ port.
          then-Ensures IsMade (prompt []) _ (λ socket.
            then-Ensures IsMade (prompt (codes "root")) _ (λ user.
              then-Ensures IsMade read_password _ (λ pw.
                then-Ensures IsMade (prompt (codes "127.0.0.1:7432")) _ (λ listen.
                  then-Ensures IsMade read_password _ (λ admin_pw.
                    bind-Ensures (IsAdmin admin_pw) IsMade (hash_admin p admin_pw) _
                      (hash_admin-IsAdmin admin_pw)
                      (λ hash h. then-Ensures IsMade (prompt_yn false) _ (λ strict.
                        done-Ensures IsMade
                          (config_from p host port socket user pw listen hash strict)
                          (config_from-IsMade host port socket user pw listen admin_pw hash strict
                            h)))))))))))

  module _ (unseals : (k n t : Text) → p.gcm.unseal k n (p.gcm.seal k n t) ≡ some t) (c : Config)
      (reads : p.config_json.unmarshal (p.config_json.marshal c) ≡ some c) where
    abbrev loaded_from : Setting → Result CfgError Config
    loaded_from s = loads p.gcm p.config_json default_dir s.world.vault

    -- what a success of the last steps means
    abbrev Kept : Result CliError Exit × Setting → Type 0
    Kept (err e, s) = Unit {0}
    Kept (ok x, s) = (x ≡ configured c.mode) × (loaded_from s ≡ ok c)

    stored-Kept :
        (s : Setting) (v : Vault) (out : Result CfgError (Unit {0}) × Vault)
        → SavesConfig p.gcm p.config_json default_dir c v out
        → Kept (proceed (stored p s out) (λ _. done_with (configured c.mode)))
    stored-Kept s v (ok _, v') (inl (r, h)) = (refl, h)
    stored-Kept s v (ok _, v') (inr (e, r, _)) = absurd (cc)
    stored-Kept s v (err e, v') h = tt

    reached-Kept :
        (s : Setting) (out : Result DbError (Unit {0}) × Driver)
        → Kept (proceed (reached p s out) (λ _. store_config p c >> done_with (configured c.mode)))
    reached-Kept s (ok _, d) =
        stored-Kept (record s { world = record s.world { host = record s.world.host { db = d } } })
          s.world.vault (save_config p.gcm p.config_json default_dir c s.world.vault)
          (save_config-SavesConfig p.gcm p.config_json default_dir unseals c reads s.world.vault)
    reached-Kept s (err e, d) = tt

    exit-Kept :
        (o : Result CliError Exit × Setting) (m : Text) (s' : Setting)
        → Kept o
        → exit_of p o ≡ (configured m, s')
        → (m ≡ c.mode) × (loaded_from s' ≡ ok c)
    exit-Kept (err e, s) m s' k h = absurd (cc (ap (λ o. o.0) h))
    exit-Kept (ok x, s) m s' (is, holds) h = (
      mode_inj m c.mode (sym (ap (λ o. o.0) h) ∙ is),
      ap loaded_from (sym (ap (λ o. o.1) h)) ∙ holds,
    )

    -- When the answers have made the configuration `c`, which JSON reads back, and `cmdConnect` reports
    -- a configuration in mode `m`, whatever the disk, the database and the random source did, then
    -- `c` is the one that is loaded from then on; `m` is its mode, one of the two, and it has the
    -- hash of a password of eight bytes at least, and a port that is not zero.
    pub cmd_connect-IsMade :
        (s s1 s' : Setting) (m : Text)
        → ask_config p s ≡ (ok c, s1)
        → cmd_connect p s ≡ (configured m, s')
        → IsMade c × (m ≡ c.mode) × (loads p.gcm p.config_json default_dir s'.world.vault ≡ ok c)
    unfolding cmd_connect Ensures
    cmd_connect-IsMade s s1 s' m asked h =
        let (same, holds) =
          exit-Kept (keep_config p c s1) m s'
            (reached-Kept s1 (open_manager p.dsn_fault c.db s1.world.host.db))
            (sym (ap (λ out. exit_of p (proceed out (keep_config p))) asked) ∙ h) in
        (ask_config-IsMade s s1 c asked, same, holds)
