-- ===== src/Session.antt =====
-- internal/session/session.go: the session record, its lifetime and its bound address. Times and
-- durations are nanoseconds, times from the zero time of Go on.
pub mod Lock
pub mod State
pub mod Manager
pub mod Restart
pub mod Persisters
pub mod Keys
use flashaccess.Base.{
  ℕ, ◌-◌, Text, codes, Bool, true, false, ◌&&◌, Option, none, some, List, [], ◌∷◌, ◌++◌, ltb,
  if◌then◌else◌, trim_space, contains,
}
use flashaccess.Net.{Ip, IpNet, parse_ip, parse_cidr, to_4, contains_ip, equal_ip}

pub data Status : Type 0 where
  active expired revoked : Status

pub record Session : Type 0 where
  pub id : Text
  pub key_hash : Text
  pub allowed_cidr : Text
  pub database : Text
  pub created_at : ℕ
  pub expires_at : ℕ
  pub status : Status
  pub db_user : Text
  pub db_password : Text
  pub db_host : Text
  pub playground_db : Text
  pub failed_attempts : ℕ
  pub last_attempt : ℕ

abbrev pub is_active : Status → Bool
is_active active = true
is_active expired = false
is_active revoked = false

-- `IsLive`
unfoldable pub is_live : Session → ℕ → Bool
is_live s now = is_active s.status && ltb now s.expires_at

-- `Remaining`
unfoldable pub remaining : Session → ℕ → ℕ
remaining s now = s.expires_at - now

abbrev bare_allows : Option Ip → Ip → Bool
bare_allows none ip = false
bare_allows (some bare) ip = equal_ip bare ip

abbrev pub cidr_allows : Text → Option (Ip × IpNet) → Ip → Bool
cidr_allows cidr (some (_, net)) ip = contains_ip net ip
cidr_allows cidr none ip = bare_allows (parse_ip cidr) ip

-- `IPAllowed`; nil, the address that could not be parsed, is the empty list of bytes
unfoldable pub ip_allowed : Session → Ip → Bool
ip_allowed s ip = cidr_allows s.allowed_cidr (parse_cidr s.allowed_cidr) ip

abbrev with_mask : Text → Option Ip → Text
with_mask s none = s
with_mask s (some ip) = elim (to_4 ip) [ none ↦ s ++ codes "/128" | some _ ↦ s ++ codes "/32" ]

-- `normalizeCIDR`
unfoldable pub normalize_cidr : Text → Text
normalize_cidr text =
    let s = trim_space text in if contains s (codes "/") then s else with_mask s (parse_ip s)
