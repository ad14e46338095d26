-- ===== src/Net/Print.antt =====
-- `IP.String`: dotted decimal for what `To4` takes, and the text of RFC 5952 for other addresses.
use flashaccess.Base.{
  ℕ, suc, ◌+◌, ◌*◌, ◌/◌, ◌%◌, Text, codes, Bool, true, ◌&&◌, ◌||◌, List, [], ◌∷◌, ◌++◌, ◌==◌, leb,
  ltb, if◌then◌else◌, take, drop, map, join, itoa, all_of-itoa, all_of, all_of-append, ◌≡◌, refl,
  arith,
}

-- the last hexadecimal digit of a number
unfoldable pub hex_digit : ℕ → ℕ
hex_digit n = let d = n % 16 in if ltb d 10 then 48 + d else 87 + d

-- a group of at most four hexadecimal digits, with no leading zero
unfoldable pub hex_group : ℕ → Text
hex_group n =
    if ltb n 16
    then hex_digit n ∷ []
    else if ltb n 256
    then hex_digit (n / 16) ∷ hex_digit n ∷ []
    else if ltb n 4096
    then hex_digit (n / 256) ∷ hex_digit (n / 16) ∷ hex_digit n ∷ []
    else hex_digit (n / 4096) ∷ hex_digit (n / 256) ∷ hex_digit (n / 16) ∷ hex_digit n ∷ []

abbrev groups_of : List ℕ → List ℕ
groups_of (a ∷ b ∷ r) = (a * 256 + b) ∷ groups_of r
groups_of _ = []

-- the length of the run of zeros in front
abbrev zero_run : List ℕ → ℕ
zero_run [] = 0
zero_run (g ∷ gs) = let more = zero_run gs in if g == 0 then suc more else 0

-- the first longest run of two or more zero groups: where it starts, and its length (0 for none)
unfoldable pub best_run : ℕ → List ℕ → ℕ → ℕ → ℕ × ℕ
best_run i [] start len = (start, len)
best_run i (g ∷ gs) start len =
    let run = zero_run (g ∷ gs) in
    let better = leb 2 run && ltb len run in
    best_run (i + 1) gs (if better then i else start) (if better then run else len)

unfoldable pub v6_text : List ℕ → ℕ × ℕ → Text
v6_text gs (start, len) =
    if len == 0
    then join (map hex_group gs) (codes ":")
    else join (map hex_group (take start gs)) (codes ":")
      ++ (codes "::" ++ join (map hex_group (drop (start + len) gs)) (codes ":"))

abbrev pub dotted : List ℕ → Text
dotted bs = join (map itoa bs) (codes ".")

abbrev pub v6_string : List ℕ → Text
v6_string bs = v6_text (groups_of bs) (best_run 0 (groups_of bs) 0 0)

-- Predicates that hold of the bytes of every printed address.
module _ (p : ℕ → Bool) where
  all_of-join :
      (xs : List Text) (sep : Text)
      → all_of p sep ≡ true
      → all_of (all_of p) xs ≡ true
      → all_of p (join xs sep) ≡ true
  unfolding join
  all_of-join [] sep s h = refl
  all_of-join (x ∷ []) sep s h = ground arith
  all_of-join (x ∷ y ∷ r) sep s h = ground (
    arith,
    all_of-append p x (sep ++ join (y ∷ r) sep),
    all_of-append p sep (join (y ∷ r) sep),
    all_of-join (y ∷ r) sep s,
  )

all_of-map_text :
    (p : ℕ → Bool) (f : ℕ → Text) (xs : List ℕ)
    → ((x : ℕ) → all_of p (f x) ≡ true)
    → all_of (all_of p) (map f xs) ≡ true
all_of-map_text p f [] h = refl
all_of-map_text p f (x ∷ xs) h = ground (arith, h x, all_of-map_text p f xs h)

-- the bytes of printed addresses
abbrev pub is_address_byte : ℕ → Bool
is_address_byte c = leb b'0' c && leb c b'9' || leb b'a' c && leb c b'f' || c == b'.' || c == b':'

decimal-is_address_byte : (n : ℕ) → all_of is_address_byte (itoa n) ≡ true
decimal-is_address_byte n = all_of-itoa is_address_byte (λ d h. ground arith) n

hex_digit-is_address_byte : (n : ℕ) → is_address_byte (hex_digit n) ≡ true
unfolding hex_digit
hex_digit-is_address_byte n = ground arith

hex_group-is_address_byte : (n : ℕ) → all_of is_address_byte (hex_group n) ≡ true
unfolding hex_group
hex_group-is_address_byte n = ground (
  arith,
  hex_digit-is_address_byte n,
  hex_digit-is_address_byte (n / 16),
  hex_digit-is_address_byte (n / 256),
  hex_digit-is_address_byte (n / 4096),
)

joined-is_address_byte :
    (gs : List ℕ) → all_of is_address_byte (join (map hex_group gs) (codes ":")) ≡ true
joined-is_address_byte gs =
    all_of-join is_address_byte (map hex_group gs) (codes ":") refl
      (all_of-map_text is_address_byte hex_group gs hex_group-is_address_byte)

v6_text-is_address_byte : (gs : List ℕ) (r : ℕ × ℕ) → all_of is_address_byte (v6_text gs r) ≡ true
unfolding v6_text
v6_text-is_address_byte gs (start, len) = ground (
  arith,
  joined-is_address_byte gs,
  joined-is_address_byte (take start gs),
  joined-is_address_byte (drop (start + len) gs),
  all_of-append is_address_byte (join (map hex_group (take start gs)) (codes ":"))
      (codes "::" ++ join (map hex_group (drop (start + len) gs)) (codes ":")),
)

pub dotted-is_address_byte : (bs : List ℕ) → all_of is_address_byte (dotted bs) ≡ true
dotted-is_address_byte bs =
    all_of-join is_address_byte (map itoa bs) (codes ".") refl
      (all_of-map_text is_address_byte itoa bs decimal-is_address_byte)

pub v6_string-is_address_byte : (bs : List ℕ) → all_of is_address_byte (v6_string bs) ≡ true
v6_string-is_address_byte bs = v6_text-is_address_byte (groups_of bs) _
