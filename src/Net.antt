-- ===== src/Net.antt =====
-- What the program uses of Go's package net: parsing of addresses and prefixes, containment and
-- printing. An address is the list of its bytes, 4 or 16 of them, as `net.IP` is; zones, which
-- `net.ParseIP` and `net.ParseCIDR` refuse, are refused.
pub mod Parse
pub mod Print
use Prim.Native.Nat.{bit_and}
use flashaccess.Base.{
  ℕ, zero, suc, codes, ◌+◌, ◌-◌, ◌*◌, ◌^◌, Text, Bool, true, false, ◌&&◌, Option, none, some, List,
  [], ◌∷◌, ◌++◌, ◌==◌, leb, if◌then◌else◌, length, take, drop,
}
use flashaccess.Net.Print.{dotted, v6_string}
use flashaccess.Net.Parse.{Addr, v4, v6, parse_addr, parse_digits, split_slash, text_eq_bytes}

abbrev pub Ip : Type 0
Ip = List ℕ

-- the prefix of an IPv4 address among those of 16 bytes
abbrev pub v4_in_v6 : Ip
v4_in_v6 = 0 ∷ 0 ∷ 0 ∷ 0 ∷ 0 ∷ 0 ∷ 0 ∷ 0 ∷ 0 ∷ 0 ∷ 255 ∷ 255 ∷ []

-- `As16`
abbrev pub as_16 : Addr → Ip
as_16 (v4 bs) = v4_in_v6 ++ bs
as_16 (v6 bs) = bs

-- `IP.To4`; `none` is nil
unfoldable pub to_4 : Ip → Option Ip
to_4 ip =
    if length ip == 4
    then some ip
    else if length ip == 16 && text_eq_bytes (take 12 ip) v4_in_v6
    then some (drop 12 ip)
    else none

abbrev map_as_16 : Option Addr → Option Ip
map_as_16 none = none
map_as_16 (some a) = some (as_16 a)

-- `net.ParseIP`; `none` is nil
unfoldable pub parse_ip : Text → Option Ip
parse_ip s = map_as_16 (parse_addr s)

-- `CIDRMask(ones, 8 * bytes)`
unfoldable pub cidr_mask : ℕ → ℕ → List ℕ
cidr_mask zero ones = []
cidr_mask (suc bytes) ones =
    (if leb 8 ones then 255 else 256 - 2 ^ (8 - ones)) ∷ cidr_mask bytes (ones - 8)

unfoldable pub and_bytes : List ℕ → List ℕ → List ℕ
and_bytes (a ∷ xs) (b ∷ ys) = bit_and a b ∷ and_bytes xs ys
and_bytes _ _ = []

-- `IPNet`: the address, masked, and its mask; both of 4 bytes or both of 16
pub record IpNet : Type 0 where
  pub ip : Ip
  pub mask : List ℕ

abbrev addr_bytes : Addr → ℕ
addr_bytes (v4 _) = 4
addr_bytes (v6 _) = 16

abbrev addr_ip : Addr → Ip
addr_ip (v4 bs) = bs
addr_ip (v6 bs) = bs

-- the prefix of `ones` bits of an address, if it has that many
unfoldable pub prefix_of : Addr → ℕ → Option (Ip × IpNet)
prefix_of a ones =
    let mask = cidr_mask (addr_bytes a) ones in
    if leb ones (8 * addr_bytes a)
    then some (as_16 a, record { ip = and_bytes (addr_ip a) mask; mask = mask })
    else none

abbrev with_prefix : Option Addr → Option ℕ → Option (Ip × IpNet)
with_prefix none ones = none
with_prefix (some a) none = none
with_prefix (some a) (some n) = prefix_of a n

abbrev parse_parts : Option (Text × Text) → Option (Ip × IpNet)
parse_parts none = none
parse_parts (some (addr, mask)) = with_prefix (parse_addr addr) (parse_digits mask)

-- `net.ParseCIDR`: the address and its network; `none` is an error
unfoldable pub parse_cidr : Text → Option (Ip × IpNet)
parse_cidr s = parse_parts (split_slash s)

-- bytes that agree under a mask, as far as the mask goes
unfoldable pub agree_under : List ℕ → List ℕ → List ℕ → Bool
agree_under (m ∷ ms) (a ∷ xs) (b ∷ ys) = bit_and a m == bit_and b m && agree_under ms xs ys
agree_under _ _ _ = true

abbrev or_self : Ip → Option Ip → Ip
or_self ip none = ip
or_self ip (some x) = x

-- `IPNet.Contains`
unfoldable pub contains_ip : IpNet → Ip → Bool
contains_ip n ip =
    let x = or_self ip (to_4 ip) in
    let nn = or_self n.ip (to_4 n.ip) in
    let mask = if length nn == 4 && length n.mask == 16 then drop 12 n.mask else n.mask in
    length x == length nn && agree_under mask nn x

-- `IP.Equal`: an IPv4 address equals its form of 16 bytes
unfoldable pub equal_ip : Ip → Ip → Bool
equal_ip a b = text_eq_bytes (or_self a (to_4 a)) (or_self b (to_4 b))

-- the leading ones of a byte whose other bits are zero
abbrev byte_ones : ℕ → ℕ
byte_ones b =
    if b == 255
    then 8
    else if b == 254
    then 7
    else if b == 252
    then 6
    else if b == 248
    then 5
    else if b == 240
    then 4
    else if b == 224
    then 3
    else if b == 192
    then 2
    else if b == 128
    then 1
    else 0

-- `Mask.Size` of a mask that `CIDRMask` made: its ones
unfoldable pub mask_ones : List ℕ → ℕ
mask_ones [] = 0
mask_ones (b ∷ bs) = byte_ones b + mask_ones bs

abbrev print_as : Ip → Option Ip → Text
print_as ip (some bs) = dotted bs
print_as ip none = if length ip == 16 then v6_string ip else codes "<nil>"

-- `IP.String`, for an address of 4 or 16 bytes and for nil
unfoldable pub ip_string : Ip → Text
ip_string ip = print_as ip (to_4 ip)
