-- ===== src/Web/Client.antt =====
-- `RealIP` of internal/web/auth.go: the address that a request is taken to come from.
use flashaccess.Base.{
  ℕ, suc, ◌-◌, Text, codes, ◌||◌, Option, none, some, [], ◌∷◌, ◌==◌, if◌then◌else◌, contains,
  index_of, trim_space, has_prefix, length, take, drop,
}
use flashaccess.Net.{Ip, parse_ip}

-- What the handlers read of a request: two headers (empty where absent), the peer's address, the
-- cookie fa_token, and the form's key, `none` for a form that does not parse.
pub record Request : Type 0 where
  pub cf_connecting_ip : Text
  pub x_real_ip : Text
  pub remote_addr : Text
  pub cookie : Option Text
  pub key : Option Text

abbrev split_step : ℕ → Text → Option (Text × Text) → Option (Text × Text)
split_step c s (some (before, after)) = some (c ∷ before, after)
split_step c s none = if c == b':' then some ([], s) else none

-- what stands before and behind the last colon
unfoldable pub split_last_colon : Text → Option (Text × Text)
split_last_colon [] = none
split_last_colon (c ∷ s) = split_step c s (split_last_colon s)

-- in brackets: the first `]`, if any, must end what is before the last colon
abbrev in_brackets : Text → Text → Text → Option ℕ → Text
in_brackets addr before port none = []
in_brackets addr before port (some end) =
    if suc end == length before
    then (if contains (drop 1 addr) (codes "[") || contains port (codes "]")
        then []
        else take (length before - 2) (drop 1 before))
    else []

abbrev split_parts : Text → Option (Text × Text) → Text
split_parts addr none = []
split_parts addr (some (before, port)) =
    if has_prefix addr (codes "[")
    then in_brackets addr before port (index_of addr (codes "]"))
    else if contains before (codes ":") || contains addr (codes "[") || contains addr (codes "]")
    then []
    else before

-- the host of `net.SplitHostPort`, empty where that reports an error
unfoldable pub host_part : Text → Text
host_part addr = split_parts addr (split_last_colon addr)

abbrev or_else : Option Ip → Option Ip → Option Ip
or_else none b = b
or_else (some a) b = some a

-- the address in a header; an empty header has none
abbrev header_ip : Text → Option Ip
header_ip h = parse_ip (trim_space h)

-- `RealIP`; `none` is nil
unfoldable pub real_ip : Request → Option Ip
real_ip r =
    or_else (header_ip r.cf_connecting_ip)
      (or_else (header_ip r.x_real_ip) (parse_ip (host_part r.remote_addr)))

-- nil is the address of no bytes
abbrev pub or_nil : Option Ip → Ip
or_nil none = []
or_nil (some ip) = ip
