-- ===== src/Firewall.antt =====
-- Package internal/firewall: the commands for ufw, and the manager that does nothing. The shell
-- records the commands that were run, oldest first, and holds where programs are found and how
-- the commands to come will end.
use flashaccess.Base.{
  ℤ, int_text, ◌*◌, Text, codes, Option, none, some, List, [], ◌∷◌, ◌++◌, Result, ok, err, ◌==◌,
  if◌then◌else◌, length,
}
use flashaccess.Net.{Ip, IpNet, parse_cidr, mask_ones, ip_string}

pub data FwError : Type 0 where
  not_in_path : Text → FwError
  command : List Text → Text → FwError

pub record Shell : Type 0 where
  pub log : List (List Text)
  pub path : Text → Option Text
  pub failures : List (Option Text)

abbrev next_failure : List (Option Text) → Option Text
next_failure [] = none
next_failure (f ∷ _) = f

abbrev later_failures : List (Option Text) → List (Option Text)
later_failures [] = []
later_failures (_ ∷ r) = r

abbrev run_result : List Text → Option Text → Result FwError (Unit {0})
run_result args none = ok tt
run_result args (some e) = err (command args e)

-- `exec.Command(sudo, full, args…).Run()`
abbrev pub run_command : List Text → List Text → Shell → Result FwError (Unit {0}) × Shell
run_command words args sh = (
  run_result args (next_failure sh.failures),
  record sh { log = sh.log ++ words ∷ []; failures = later_failures sh.failures },
)

abbrev run_as :
    Option Text → Option Text → Text → List Text → Shell → Result FwError (Unit {0}) × Shell
run_as none sudo bin args sh = (err (not_in_path bin), sh)
run_as (some full) none bin args sh = (err (not_in_path (codes "sudo")), sh)
run_as (some full) (some sudo) bin args sh = run_command (sudo ∷ full ∷ args) args sh

-- `run`
unfoldable pub run : Text → List Text → Shell → Result FwError (Unit {0}) × Shell
run bin args sh = run_as (sh.path bin) (sh.path (codes "sudo")) bin args sh

abbrev host_of : Text → Option (Ip × IpNet) → Text
host_of cidr none = cidr
host_of cidr (some (ip, n)) = if mask_ones n.mask == 8 * length n.mask then ip_string ip else cidr

-- `ufwHost`
unfoldable pub ufw_host : Text → Text
ufw_host cidr = host_of cidr (parse_cidr cidr)

-- the arguments that name a rule
abbrev pub rule : Text → ℤ → List Text
rule cidr port =
    codes "allow"
    ∷ codes "from"
    ∷ ufw_host cidr
    ∷ codes "to"
    ∷ codes "any"
    ∷ codes "port"
    ∷ int_text port
    ∷ codes "proto"
    ∷ codes "tcp"
    ∷ []

-- `firewall.Manager`: `UFW` with its `Bin`, or `Noop`
pub data Firewall : Type 0 where
  ufw : Text → Firewall
  noop : Firewall

-- `UFW.bin`
unfoldable pub ufw_bin : Text → Text
ufw_bin [] = codes "ufw"
ufw_bin (c ∷ s) = c ∷ s

-- `Allow`; the comment is not passed on
unfoldable pub allow : Firewall → Text → ℤ → Text → Shell → Result FwError (Unit {0}) × Shell
allow (ufw bin) cidr port comment sh = run (ufw_bin bin) (rule cidr port) sh
allow noop cidr port comment sh = (ok tt, sh)

-- `Deny`
unfoldable pub deny : Firewall → Text → ℤ → Shell → Result FwError (Unit {0}) × Shell
deny (ufw bin) cidr port sh = run (ufw_bin bin) (codes "delete" ∷ rule cidr port) sh
deny noop cidr port sh = (ok tt, sh)
