-- ===== src/Mysql/Hosts.antt =====
-- `CIDRToHost` of internal/mysql/mysql.go: the MySQL host pattern for an address or a prefix.
use flashaccess.Base.{
  ◌*◌, Text, codes, true, Option, none, some, ◌++◌, Result, ok, err, ◌==◌, if◌then◌else◌, length,
  all_of, all_of-append, all_of_mono, ◌≡◌, refl, arith, Option-cases, inl, inr, Bool-cases,
}
use flashaccess.Net.{Ip, IpNet, parse_ip, parse_cidr, to_4, mask_ones, ip_string}
use flashaccess.Net.Print.{
  is_address_byte, dotted, v6_string, dotted-is_address_byte, v6_string-is_address_byte,
}
use flashaccess.Mysql.Driver.{DbError, invalid_cidr}
use flashaccess.Mysql.Quote.Reading.{is_plain}

-- for an address without a prefix, or what is neither
abbrev bare_host : Text → Option Ip → Result DbError Text
bare_host cidr none = err (invalid_cidr cidr)
bare_host cidr (some ip) = ok (ip_string ip)

-- a range: address and netmask for IPv4, any host for IPv6
abbrev range_host : IpNet → Option Ip → Text
range_host n none = codes "%"
range_host n (some _) = ip_string n.ip ++ (codes "/" ++ ip_string n.mask)

abbrev host_of : Text → Option (Ip × IpNet) → Result DbError Text
host_of cidr none = bare_host cidr (parse_ip cidr)
host_of cidr (some (ip, n)) =
    if mask_ones n.mask == 8 * length n.mask then ok (ip_string ip) else ok (range_host n (to_4 ip))

-- `CIDRToHost`
unfoldable pub cidr_to_host : Text → Result DbError Text
cidr_to_host cidr = host_of cidr (parse_cidr cidr)

ip_string-is_plain : (ip : Ip) → all_of is_plain (ip_string ip) ≡ true
unfolding ip_string
ip_string-is_plain ip = elim (Option-cases (to_4 ip)) [
  | inl e ↦ rw e (elim (Bool-cases (length ip == 16)) [
    | inl l ↦ rw l (
        all_of_mono is_address_byte is_plain (λ c h. ground arith) (v6_string ip)
          (v6_string-is_address_byte ip))
    | inr l ↦ rw l refl
  ])
  | inr (bs, e) ↦ rw e (
      all_of_mono is_address_byte is_plain (λ c h. ground arith) (dotted bs)
        (dotted-is_address_byte bs))
]

-- a host that can stand between single quotes as it is
abbrev pub IsPlainHost : Result DbError Text → Type 0
IsPlainHost (ok host) = all_of is_plain host ≡ true
IsPlainHost (err _) = Unit

range_host-is_plain : (n : IpNet) (ip4 : Option Ip) → all_of is_plain (range_host n ip4) ≡ true
range_host-is_plain n none = refl
range_host-is_plain n (some _) = ground (
  arith,
  all_of-append is_plain (ip_string n.ip) (codes "/" ++ ip_string n.mask),
  ip_string-is_plain n.ip,
  ip_string-is_plain n.mask,
)

bare_host-IsPlainHost : (cidr : Text) (o : Option Ip) → IsPlainHost (bare_host cidr o)
bare_host-IsPlainHost cidr none = tt
bare_host-IsPlainHost cidr (some ip) = ip_string-is_plain ip

host_of-IsPlainHost : (cidr : Text) (o : Option (Ip × IpNet)) → IsPlainHost (host_of cidr o)
host_of-IsPlainHost cidr none = bare_host-IsPlainHost cidr (parse_ip cidr)
host_of-IsPlainHost cidr (some (ip, n)) =
    elim (Bool-cases (mask_ones n.mask == 8 * length n.mask)) [
      | inl e ↦ rw e (ip_string-is_plain ip)
      | inr e ↦ rw e (range_host-is_plain n (to_4 ip))
    ]

-- Every host pattern that `CIDRToHost` makes, from any text, is free of quotes and backslashes, so
-- it can go inline into SQL text.
pub cidr_to_host-IsPlainHost : (cidr : Text) → IsPlainHost (cidr_to_host cidr)
unfolding cidr_to_host
cidr_to_host-IsPlainHost cidr = host_of-IsPlainHost cidr (parse_cidr cidr)
