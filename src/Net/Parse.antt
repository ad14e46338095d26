-- ===== src/Net/Parse.antt =====
-- `netip.ParseAddr` for addresses without a zone, and the digits of a prefix length.
use flashaccess.Base.{
  ℕ, zero, suc, ◌+◌, ◌-◌, ◌*◌, ◌/◌, ◌%◌, Text, text_eq, Bool, true, false, not, ◌&&◌, ◌||◌, Option,
  none, some, List, [], ◌∷◌, ◌++◌, ◌==◌, leb, ltb, if◌then◌else◌, length, take, drop,
}

pub data Addr : Type 0 where
  v4 v6 : List ℕ → Addr

abbrev pub text_eq_bytes : List ℕ → List ℕ → Bool
text_eq_bytes = text_eq

abbrev is_digit : ℕ → Bool
is_digit c = leb b'0' c && leb c b'9'

abbrev is_nil : Text → Bool
is_nil [] = true
is_nil (_ ∷ _) = false

-- `parseIPv4Fields`: the fields before this one, its value so far and its count of digits
unfoldable pub v4_from : List ℕ → ℕ → ℕ → Text → Option (List ℕ)
v4_from fields val digits [] = if length fields == 3 then some (fields ++ val ∷ []) else none
v4_from fields val digits (c ∷ s) =
    let value = val * 10 + (c - b'0') in
    let digit = v4_from fields value (digits + 1) s in
    let dot = v4_from (fields ++ val ∷ []) 0 0 s in
    if is_digit c
    then (if digits == 1 && val == 0 || ltb 255 value then none else digit)
    else if c == b'.' && not (digits == 0 || is_nil s || length fields == 3)
    then dot
    else none

abbrev hex_value : ℕ → Option ℕ
hex_value c =
    if is_digit c
    then some (c - b'0')
    else if leb b'a' c && leb c b'f'
    then some (c - b'a' + 10)
    else if leb b'A' c && leb c b'F'
    then some (c - b'A' + 10)
    else none

-- the hexadecimal number in front: its value, its count of digits, and what follows; a fifth
-- digit is an error
unfoldable pub read_hex : ℕ → ℕ → Text → Option (ℕ × ℕ × Text)
read_hex acc off [] = some (acc, off, [])
read_hex acc off (c ∷ s) = elim (hex_value c) [
  | none ↦ some (acc, off, c ∷ s)
  | some v ↦ if ltb 3 off then none else read_hex (acc * 16 + v) (off + 1) s
]

abbrev Groups : Type 0
Groups = Option (List ℕ × Option ℕ × Text)

abbrev MoreGroups : Type 0
MoreGroups = List ℕ → Option ℕ → Text → Groups

abbrev v4_tail : List ℕ → Option ℕ → Option (List ℕ) → Groups
v4_tail bytes ellipsis none = none
v4_tail bytes ellipsis (some fs) = some (bytes ++ fs, ellipsis, [])

-- an IPv4 address in the last four bytes
abbrev embedded : List ℕ → Option ℕ → Text → Groups
embedded bytes none s = if length bytes == 12 then v4_tail bytes none (v4_from [] 0 0 s) else none
embedded bytes (some e) s =
    if ltb 16 (length bytes + 4) then none else v4_tail bytes (some e) (v4_from [] 0 0 s)

-- behind `::`
abbrev after_ellipsis : List ℕ → Option ℕ → Text → MoreGroups → Groups
after_ellipsis bytes (some e) u more = none
after_ellipsis bytes none [] more = some (bytes, some (length bytes), [])
after_ellipsis bytes none (c ∷ u) more = more bytes (some (length bytes)) (c ∷ u)

-- behind a group: the end, or a colon and more
abbrev after_group : List ℕ → Option ℕ → Text → MoreGroups → Groups
after_group bytes ellipsis [] more = some (bytes, ellipsis, [])
after_group bytes ellipsis (c ∷ []) more = none
after_group bytes ellipsis (c ∷ d ∷ u) more =
    if not (c == b':')
    then none
    else if d == b':'
    then after_ellipsis bytes ellipsis u more
    else more bytes ellipsis (d ∷ u)

abbrev starts_dot : Text → Bool
starts_dot [] = false
starts_dot (c ∷ _) = c == b'.'

-- one round at text `s`, on the number that stands in front of it
abbrev group : List ℕ → Option ℕ → Text → Option (ℕ × ℕ × Text) → MoreGroups → Groups
group bytes ellipsis s none more = none
group bytes ellipsis s (some (acc, off, t)) more =
    if off == 0
    then none
    else if starts_dot t
    then embedded bytes ellipsis s
    else after_group (bytes ++ (acc / 256) ∷ (acc % 256) ∷ []) ellipsis t more

-- The loop of `parseIPv6`; each round writes two bytes, so there are at most eight.
unfoldable pub v6_loop : ℕ → List ℕ → Option ℕ → Text → Groups
unfolding read_hex v4_from
v6_loop zero bytes ellipsis s = some (bytes, ellipsis, s)
v6_loop (suc f) bytes ellipsis s =
    group bytes ellipsis s (read_hex 0 0 s) (λ bs e t. v6_loop f bs e t)

abbrev pub zeros : ℕ → List ℕ
zeros zero = []
zeros (suc n) = 0 ∷ zeros n

-- the whole text must be used, and the ellipsis stand for at least one group
abbrev v6_finish : Groups → Option (List ℕ)
v6_finish none = none
v6_finish (some (bytes, e, c ∷ s)) = none
v6_finish (some (bytes, none, [])) = if length bytes == 16 then some bytes else none
v6_finish (some (bytes, some k, [])) =
    if ltb (length bytes) 16
    then some (take k bytes ++ (zeros (16 - length bytes) ++ drop k bytes))
    else none

abbrev as_v4 : Option (List ℕ) → Option Addr
as_v4 none = none
as_v4 (some bs) = some (v4 bs)

abbrev as_v6 : Option (List ℕ) → Option Addr
as_v6 none = none
as_v6 (some bs) = some (v6 bs)

unfoldable pub parse_v6 : Text → Option (List ℕ)
unfolding v6_loop
parse_v6 (c ∷ d ∷ []) =
    if c == b':' && d == b':' then some (zeros 16) else v6_finish (v6_loop 8 [] none (c ∷ d ∷ []))
parse_v6 (c ∷ d ∷ e ∷ s) =
    if c == b':' && d == b':'
    then v6_finish (v6_loop 8 [] (some 0) (e ∷ s))
    else v6_finish (v6_loop 8 [] none (c ∷ d ∷ e ∷ s))
parse_v6 s = v6_finish (v6_loop 8 [] none s)

abbrev has_byte : ℕ → Text → Bool
has_byte b [] = false
has_byte b (c ∷ s) = c == b || has_byte b s

-- by the first `.`, `:` or `%`
unfoldable pub parse_by_mark : Text → Text → Option Addr
unfolding v4_from parse_v6
parse_by_mark whole [] = none
parse_by_mark whole (c ∷ s) =
    let later = parse_by_mark whole s in
    if c == b'.'
    then as_v4 (v4_from [] 0 0 whole)
    else if c == b':'
    then (if has_byte b'%' whole then none else as_v6 (parse_v6 whole))
    else if c == b'%'
    then none
    else later

-- `netip.ParseAddr`, with every zone refused
unfoldable pub parse_addr : Text → Option Addr
unfolding parse_by_mark
parse_addr s = parse_by_mark s s

-- `dtoi` up to the end of the text: decimal digits, below 0xFFFFFF
unfoldable pub digits_from : ℕ → Text → Option ℕ
digits_from n [] = some n
digits_from n (c ∷ s) =
    let rest = digits_from (n * 10 + (c - b'0')) s in
    if is_digit c && ltb (n * 10 + (c - b'0')) 0xFFFFFF then rest else none

unfoldable pub parse_digits : Text → Option ℕ
unfolding digits_from
parse_digits [] = none
parse_digits (c ∷ s) = digits_from 0 (c ∷ s)

abbrev cons_part : ℕ → Option (Text × Text) → Option (Text × Text)
cons_part c none = none
cons_part c (some (a, b)) = some (c ∷ a, b)

-- what stands before and behind the first slash
unfoldable pub split_slash : Text → Option (Text × Text)
split_slash [] = none
split_slash (c ∷ s) =
    let later = split_slash s in if c == b'/' then some ([], s) else cons_part c later
