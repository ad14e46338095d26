-- ===== src/Tests/Packing.antt =====
-- Texts for the JSON of a configuration and of a list of sessions: each part behind its length.
use flashaccess.Base.{
  ℤ, pos, negsuc, ℕ, zero, suc, Text, Option, none, some, List, [], ◌∷◌, ◌++◌, length, take, drop,
  map, ◌≡◌, refl, ap, ◌∙◌, if◌then◌else◌, ◌==◌,
}
use flashaccess.Disk.{Json}
use flashaccess.Config.{Aead, Config}
use flashaccess.Config.Sealing.{take-append, drop-append}
use flashaccess.Session.{Session, Status, active, expired, revoked}

abbrev packs : List Text → Text
packs [] = []
packs (t ∷ ts) = length t ∷ t ++ packs ts

unfoldable pub unpack : ℕ → Text → List Text
unpack zero s = []
unpack (suc n) [] = []
unpack (suc n) (k ∷ s) = take k s ∷ unpack n (drop k s)

unpack-packs : (ts : List Text) → unpack (length ts) (packs ts) ≡ ts
unfolding unpack
unpack-packs [] = refl
unpack-packs (t ∷ ts) =
    rw (take-append (length t) t (packs ts) refl)
      (rw (drop-append (length t) t (packs ts) refl) (ap (λ r. t ∷ r) (unpack-packs ts)))

-- a number with its sign in front
abbrev port_parts : ℤ → Text
port_parts (pos n) = 0 ∷ n ∷ []
port_parts (negsuc n) = 1 ∷ n ∷ []

abbrev port_of : Text → Option ℤ
port_of (zero ∷ n ∷ []) = some (pos n)
port_of (suc _ ∷ n ∷ []) = some (negsuc n)
port_of _ = none

port_of-port_parts : (p : ℤ) → port_of (port_parts p) ≡ some p
port_of-port_parts (pos n) = refl
port_of-port_parts (negsuc n) = refl

abbrev config_parts : Config → List Text
config_parts c =
    c.db.socket
    ∷ c.db.host
    ∷ port_parts c.db.port
    ∷ c.db.admin_user
    ∷ c.db.admin_password
    ∷ c.listen_addr
    ∷ c.admin_password_hash
    ∷ c.defaults.duration
    ∷ c.defaults.allowed_cidr
    ∷ c.mode
    ∷ []

abbrev with_port : List Text → Option ℤ → Option Config
with_port (s ∷ h ∷ p ∷ u ∷ w ∷ l ∷ a ∷ d ∷ c ∷ m ∷ []) (some n) = some (record {
  db = record { socket = s; host = h; port = n; admin_user = u; admin_password = w };
  listen_addr = l;
  admin_password_hash = a;
  defaults = record { duration = d; allowed_cidr = c };
  mode = m;
})
with_port _ _ = none

abbrev third : List Text → Text
third (s ∷ h ∷ p ∷ _) = p
third _ = []

abbrev config_of : List Text → Option Config
config_of ts = with_port ts (port_of (third ts))

abbrev pub config_json : Json Config
config_json = record {
  marshal = λ c. packs (config_parts c);
  unmarshal = λ s. config_of (unpack 10 s);
}

pub config_reads : (c : Config) → config_json.unmarshal (config_json.marshal c) ≡ some c
config_reads c =
    ap config_of (unpack-packs (config_parts c))
    ∙ ap (with_port (config_parts c)) (port_of-port_parts c.db.port)

abbrev status_code : Status → ℕ
status_code active = 0
status_code expired = 1
status_code revoked = 2

abbrev status_of : ℕ → Status
status_of n = if n == 0 then active else if n == 1 then expired else revoked

status_of-status_code : (s : Status) → status_of (status_code s) ≡ s
status_of-status_code active = refl
status_of-status_code expired = refl
status_of-status_code revoked = refl

abbrev session_parts : Session → List Text
session_parts s =
    s.id
    ∷ s.key_hash
    ∷ s.allowed_cidr
    ∷ s.database
    ∷ s.db_user
    ∷ s.db_password
    ∷ s.db_host
    ∷ s.playground_db
    ∷ (s.created_at ∷ s.expires_at ∷ status_code s.status ∷ s.failed_attempts ∷ s.last_attempt ∷ [])
    ∷ []

abbrev session_of : List Text → Option Session
session_of (i ∷ k ∷ a ∷ d ∷ u ∷ w ∷ h ∷ p ∷ (c ∷ e ∷ st ∷ f ∷ l ∷ []) ∷ []) = some (record {
  id = i;
  key_hash = k;
  allowed_cidr = a;
  database = d;
  created_at = c;
  expires_at = e;
  status = status_of st;
  db_user = u;
  db_password = w;
  db_host = h;
  playground_db = p;
  failed_attempts = f;
  last_attempt = l;
})
session_of _ = none

session_of-session_parts : (s : Session) → session_of (session_parts s) ≡ some s
session_of-session_parts s =
    ap (λ st. some (record s { status = st })) (status_of-status_code s.status)

abbrev joined : Option Session → Option (List Session) → Option (List Session)
joined (some s) (some l) = some (s ∷ l)
joined _ _ = none

abbrev sessions_of : List Text → Option (List Session)
sessions_of [] = some []
sessions_of (t ∷ ts) = joined (session_of (unpack 9 t)) (sessions_of ts)

abbrev packed_sessions : List Session → List Text
packed_sessions = map (λ s. packs (session_parts s))

sessions_of-packed_sessions : (l : List Session) → sessions_of (packed_sessions l) ≡ some l
sessions_of-packed_sessions [] = refl
sessions_of-packed_sessions (s ∷ l) =
    ap (λ parts. joined (session_of parts) (sessions_of (packed_sessions l)))
      (unpack-packs (session_parts s))
    ∙ ap (λ o. joined o (sessions_of (packed_sessions l))) (session_of-session_parts s)
    ∙ ap (λ o. joined (some s) o) (sessions_of-packed_sessions l)

abbrev unpack_sessions : Text → Option (List Session)
unpack_sessions [] = none
unpack_sessions (n ∷ s) = sessions_of (unpack n s)

abbrev pub sessions_json : Json (List Session)
sessions_json = record {
  marshal = λ l. length (packed_sessions l) ∷ packs (packed_sessions l);
  unmarshal = unpack_sessions;
}

pub sessions_read : (l : List Session) → sessions_json.unmarshal (sessions_json.marshal l) ≡ some l
sessions_read l = rw (unpack-packs (packed_sessions l)) (sessions_of-packed_sessions l)

-- a cipher for the tests: the text behind a mark
abbrev untagged : Text → Option Text
untagged [] = none
untagged (_ ∷ p) = some p

abbrev pub marked : Aead
marked = record { seal = λ k n p. 0 ∷ p; unseal = λ k n s. untagged s }

pub marked_unseals : (k n p : Text) → marked.unseal k n (marked.seal k n p) ≡ some p
marked_unseals k n p = refl
