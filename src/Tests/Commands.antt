-- ===== src/Tests/Commands.antt =====
-- The theorems on `session` and on the reaper, on a machine that has nothing yet.
use flashaccess.Base.{
  ltb, Text, text_eq, codes, true, none, some, [], ◌∷◌, Result, ok, pos, find, ◌≡◌, refl, contains,
  decimal_within, has_prefix, index_of, itoa, join, put, remove, trim_left, trim_right, trim_space,
}
use flashaccess.Net.{
  Ip, agree_under, and_bytes, cidr_mask, contains_ip, equal_ip, ip_string, mask_ones, parse_cidr,
  parse_ip, prefix_of, to_4,
}
use flashaccess.Config.{fill, encrypt, master_key}
use flashaccess.Config.Sealing.{mended}
use flashaccess.Firewall.{noop, allow, run, ufw_bin, ufw_host}
use flashaccess.Access.{Activator, bad_host, gen_password, letter_at, provision}
use flashaccess.Mysql.Driver.{invalid_cidr, exec}
use flashaccess.Session.{Session, ip_allowed, normalize_cidr}
use flashaccess.Session.Lock.{Outcome, returns, unlocked, lock, r_lock, r_unlock, unlock}
use flashaccess.Session.State.{MgrError, provision_failed, State}
use flashaccess.Session.Manager.{NewParams, Drawn, new, persist, start_session}
use flashaccess.Session.Manager.Leak.{at}
use flashaccess.Session.Manager.Running.{new_id}
use flashaccess.Web.Site.{World}
use flashaccess.Cli.{act, fatal, manager_failed, Program, ProgramError, Draws, drawn_by, setup_of}
use flashaccess.Cli.Refusals.{KeepsWorld, cmd_session-KeepsWorld, cmd_session-no_address}
use flashaccess.Cli.Sessions.{cmd_session}
use flashaccess.Cli.Handover.{Opens, new-Opens}
use flashaccess.Tests.{sample, one_session}
use flashaccess.Tests.Keys.{padded, padded_yields, salt, fill-IsByte}
use flashaccess.Tests.Packing.{config_json, sessions_json, sessions_read, marked, marked_unseals}
use flashaccess.Tests.Site.{world, one_hour}
use flashaccess.Tests.Vaults.{new_machine, sample_config}
use flashaccess.Disk.{write_atomically}
use flashaccess.Mysql.Accounts.{create_user, drop_and_flush, drop_user}
use flashaccess.Mysql.Driver.Runs.{run_guarded}
use flashaccess.Mysql.Hosts.{cidr_to_host}
use flashaccess.Mysql.Names.{safe_password, user_pattern}
use flashaccess.Mysql.Quote.{account, create_user_sql, drop_user_sql, grant_all_sql}
use flashaccess.Net.Parse.{
  digits_from, parse_addr, parse_by_mark, parse_digits, parse_v6, read_hex, split_slash, v4_from,
  v6_loop,
}
use flashaccess.Net.Print.{best_run, hex_digit, hex_group, v6_text}
use flashaccess.Session.Keys.{encode, generate_key, hash_key}
use flashaccess.Session.Persisters.{save_sealed}

abbrev pub program : Program
program = record {
  gcm = marked;
  config_json = config_json;
  sessions_json = sessions_json;
  derive = padded;
  dsn_fault = λ t. none;
  hash_password = λ pw. some pw;
  parse_duration = one_hour;
}

abbrev pub activator : Activator
activator = record { fw = noop; port = pos 3306 }

-- a machine that has the random bytes it needs, and its database
abbrev pub machine : World
machine = record {
  host = record world.host { entropy = some (1 ∷ 2 ∷ 3 ∷ []) ∷ [] };
  vault = new_machine;
}

abbrev pub draws : Draws
draws = record {
  key = some (255 ∷ []);
  salt = some salt;
  id = some (161 ∷ 178 ∷ 3 ∷ 4 ∷ 5 ∷ 6 ∷ []);
}

abbrev params : NewParams
params = record { allowed_cidr = codes "10.0.0.7"; database = []; duration = pos 60 }

abbrev new_run : Outcome (Result (MgrError ProgramError) (Session × Text)) × State World
new_run =
    new (setup_of program activator) params (drawn_by program draws) 0 (at unlocked [] machine)

abbrev made : Outcome (Result (MgrError ProgramError) (Session × Text)) → Session × Text
made (returns (ok r)) = r
made _ = (sample, [])

abbrev later_world : World
later_world = record machine { vault = mended new_run.1.world.vault }

abbrev client : Ip
client = 10 ∷ 0 ∷ 0 ∷ 7 ∷ []

new_run-returns :
    (new_run ≡ (returns (ok (made new_run.0)), new_run.1))
    × (ltb 5 (made new_run.0).0.expires_at ≡ true)
    × (ip_allowed (made new_run.0).0 client ≡ true)
unfolding new ip_allowed agree_under contains_ip equal_ip generate_key hash_key new_id provision
    cidr_to_host parse_cidr split_slash normalize_cidr contains trim_space trim_right trim_left
    parse_ip parse_addr to_4 text_eq parse_digits gen_password letter_at put remove decimal_within
    has_prefix index_of itoa join allow run ufw_bin ufw_host create_user drop_and_flush drop_user
    run_guarded exec safe_password user_pattern account create_user_sql drop_user_sql grant_all_sql
    digits_from parse_by_mark parse_v6 read_hex v4_from v6_loop best_run hex_digit hex_group v6_text
    and_bytes cidr_mask ip_string mask_ones prefix_of encode lock r_lock r_unlock unlock persist
    start_session save_sealed encrypt master_key fill find write_atomically
new_run-returns = (refl, refl, refl)

new-Opens_example :
    Opens program marked_unseals sessions_read padded_yields activator later_world
      (made new_run.0).0
      (made new_run.0).1
      client
      5
unfolding new_id find
new-Opens_example =
    new-Opens program marked_unseals sessions_read padded_yields activator params draws _ salt 0 []
      machine _ _ _ activator later_world client 5 refl (fill-IsByte 16 (codes "salt")) refl tt refl
      new_run-returns.0 refl new_run-returns.1 new_run-returns.2

abbrev drawn : Drawn ProgramError
drawn = record { raw_key = ok (codes "key"); hash = ok (codes "hash"); id = ok (codes "a1b2c3") }

cmd_session-no_address_example :
    cmd_session
      (setup_of program activator)
      sample_config
      one_hour
      drawn
      7
      (codes "new" ∷ [])
      (at unlocked one_session machine)
    ≡ (
      returns (fatal (manager_failed (provision_failed (act (bad_host (invalid_cidr [])))))),
      at unlocked one_session machine,
    )
cmd_session-no_address_example =
    cmd_session-no_address program activator sample_config one_hour drawn 7
      (at unlocked one_session machine)

cmd_session-KeepsWorld_example : KeepsWorld (setup_of program activator) sample_config machine (
    cmd_session
      (setup_of program activator)
      sample_config
      one_hour
      drawn
      7
      (codes "activate" ∷ codes "1" ∷ codes "wrong" ∷ codes "10.0.0.7" ∷ [])
      (at unlocked one_session machine))
cmd_session-KeepsWorld_example =
    cmd_session-KeepsWorld (setup_of program activator) sample_config one_hour drawn 7
      (codes "1" ∷ codes "wrong" ∷ codes "10.0.0.7" ∷ []) one_session machine
