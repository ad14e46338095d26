-- ===== src/Tests/Vaults.antt =====
-- The theorems on the sealed files and the stores of the sessions, with a mark for a cipher.
use flashaccess.Base.{
  pos, Text, text_eq, text_eq_iff, codes, none, some, List, [], ◌∷◌, ◌++◌, ok, find, put, ◌≡◌, refl,
  inr,
}
use flashaccess.Disk.{done, fails, tmp_path, write_atomically}
use flashaccess.Disk.Atomic.{IsElsewhere}
use flashaccess.Config.{Config, Vault, CfgError, key_path, encrypt, save_config, master_key, fill}
use flashaccess.Config.Sealing.{mended}
use flashaccess.Config.Loading.{SavesConfig, save_config-SavesConfig}
use flashaccess.Session.{Session}
use flashaccess.Session.Lock.{unlocked}
use flashaccess.Session.State.{State, Setup, snapshot}
use flashaccess.Session.Restart.{new_manager}
use flashaccess.Session.Persisters.{save_sealed, encrypted_persister}
use flashaccess.Session.Persisters.Cell.{Command, save, load, Trace, run}
use flashaccess.Session.Persisters.Sealed.{
  HoldsSealed, encrypted_persister-Trace, save_sealed-new_manager,
}
use flashaccess.Tests.{sample, one_session}
use flashaccess.Tests.Packing.{
  config_json, config_reads, sessions_json, sessions_read, marked, marked_unseals,
}

abbrev dir : Text
dir = codes "d"

abbrev path : Text
path = codes "d/sessions.enc"

abbrev pub sample_config : Config
sample_config = record {
  db = record {
    socket = [];
    host = codes "127.0.0.1";
    port = pos 3306;
    admin_user = codes "root";
    admin_password = codes "pw";
  };
  listen_addr = codes ":8080";
  admin_password_hash = [];
  defaults = record { duration = codes "1h"; allowed_cidr = [] };
  mode = codes "strict";
}

-- no files, and random bytes for a key and a nonce
abbrev pub new_machine : Vault
new_machine = record {
  disk = record { files = []; outcomes = [] };
  entropy = some (codes "key") ∷ some (codes "nonce") ∷ [];
}

-- the same machine, whose disk fails at the fourth call
abbrev pub failing : Vault
failing = record new_machine {
  disk = record { files = []; outcomes = done ∷ done ∷ done ∷ fails (codes "half") ∷ [] };
}

abbrev sealed_text : Text
sealed_text = fill 12 (codes "nonce") ++ 0 ∷ codes "secret"

encrypted : (encrypt marked dir (codes "secret") new_machine).0 ≡ ok sealed_text
unfolding encrypt master_key find text_eq
encrypted = refl

save_config-SavesConfig_example :
    SavesConfig marked config_json dir sample_config failing
      (save_config marked config_json dir sample_config failing)
save_config-SavesConfig_example =
    save_config-SavesConfig marked config_json dir marked_unseals sample_config
      (config_reads sample_config) failing

key_beside : IsElsewhere path (key_path dir)
unfolding text_eq
key_beside = (
  λ e. absurd (cc ((text_eq_iff path (key_path dir)).1 e)),
  λ e. absurd (cc ((text_eq_iff (tmp_path path) (key_path dir)).1 e)),
)

abbrev calls : List Command
calls = load ∷ save (sample ∷ []) ∷ load ∷ save [] ∷ load ∷ []

encrypted_persister-Trace_example :
    let out = run (encrypted_persister sessions_json path marked dir) calls failing in
    (l' : List Session) × Trace CfgError calls [] out.0 l'
    × HoldsSealed marked sessions_json path dir l' out.1
unfolding find
encrypted_persister-Trace_example =
    encrypted_persister-Trace marked sessions_json path dir marked_unseals sessions_read key_beside
      calls [] failing (inr (refl, refl))

abbrev sealing_setup : Setup Vault CfgError
sealing_setup = record {
  hooks = record { on_provision = none; on_revoke = none };
  store = some (encrypted_persister sessions_json path marked dir);
  verify_key = λ key hash. ok (text_eq key hash);
}

save_sealed-new_manager_example :
    let v' = (save_sealed sessions_json path marked dir (snapshot one_session) new_machine).1 in
    (st : State Vault) × (new_manager sealing_setup (mended v') ≡ ok st)
    × (st.mutex ≡ unlocked)
    × ((j : Text) → find j st.sessions ≡ find j one_session)
unfolding save_sealed encrypt master_key write_atomically put find text_eq
save_sealed-new_manager_example =
    save_sealed-new_manager marked sessions_json path dir marked_unseals sessions_read key_beside
      sealing_setup one_session new_machine
      (save_sealed sessions_json path marked dir (snapshot one_session) new_machine).1 refl
      (refl, refl, tt) refl
