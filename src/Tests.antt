-- ===== src/Tests.antt =====
-- Concrete runs of the theorems that the header names, on small inputs.
mod Manager
mod Passages
mod Statements
mod Accounts
mod Grants
mod Packing
mod Vaults
mod Site
pub mod Keys
pub mod Figures
mod Tables
pub mod Commands
mod Starting
use flashaccess.Base.{ℕ, Text, text_eq, codes, Option, none, some, List, [], ◌∷◌, Result, ok, err}
use flashaccess.Session.{Session, active}
use flashaccess.Session.State.{Setup, Hooks, Persister, Sessions}
use flashaccess.Mysql.Driver.{Driver, Answer, fails, affects}

-- a session of one hour for one address, whose key "k" is its own hash
abbrev sample : Session
sample = record {
  id = codes "ab12cd34";
  key_hash = codes "k";
  allowed_cidr = codes "10.0.0.7/32";
  database = codes "shop";
  created_at = 0;
  expires_at = 3600000000000;
  status = active;
  db_user = codes "tmp_ab12cd34";
  db_password = codes "pw";
  db_host = codes "10.0.0.7";
  playground_db = [];
  failed_attempts = 0;
  last_attempt = 0;
}

abbrev one_session : Sessions
one_session = (codes "ab12cd34", sample) ∷ []

abbrev saver : Persister ℕ Text
saver = record { save_all = λ l w. (ok tt, w); load_all = λ w. (ok [], w) }

-- without hooks and a store, and with a store
abbrev plain_setup : Setup ℕ Text
plain_setup = record {
  hooks = record { on_provision = none; on_revoke = none };
  store = none;
  verify_key = λ key hash. ok (text_eq key hash);
}

abbrev saving_setup : Setup ℕ Text
saving_setup = record plain_setup { store = some saver }

-- a server that accepts everything, and one that refuses the second statement
abbrev willing : Driver
willing = record { log = []; answers = [] }

abbrev refusing : Driver
refusing = record { log = []; answers = affects 0 ∷ fails (codes "denied") ∷ [] }
