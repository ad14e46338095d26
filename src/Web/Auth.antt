-- ===== src/Web/Auth.antt =====
-- The `authStore` of internal/web/auth.go. Its lock is held within single operations only, each of
-- which is one step here. Times and the random bytes of a token are arguments.
pub mod Tokens
use flashaccess.Base.{
  ℕ, ◌+◌, ◌-◌, ◌*◌, ◌/◌, ◌%◌, Text, text_eq, codes, Bool, true, false, Option, none, some, List, [],
  ◌∷◌, ◌++◌, find, put, remove, ltb, if◌then◌else◌,
}

-- twelve hours
abbrev pub token_max_age : ℕ
token_max_age = 12 * 3600 * 1000000000

pub record TokenEntry : Type 0 where
  pub session_id : Text
  pub issued_at : ℕ

-- `authStore`
abbrev pub Tokens : Type 0
Tokens = List (Text × TokenEntry)

abbrev hex_byte : ℕ → ℕ
hex_byte d = if ltb d 10 then 48 + d else 87 + d

-- `hex.EncodeToString`
unfoldable pub hex_text : List ℕ → Text
hex_text [] = []
hex_text (b ∷ bs) = hex_byte (b / 16 % 16) ∷ hex_byte (b % 16) ∷ hex_text bs

-- `http.Cookie`, with `delete_now` for a `MaxAge` below zero
pub data MaxAge : Type 0 where
  seconds : ℕ → MaxAge
  delete_now : MaxAge

pub record Cookie : Type 0 where
  pub name : Text
  pub path : Text
  pub value : Text
  pub max_age : MaxAge
  pub http_only : Bool
  pub secure : Bool
  pub same_site_strict : Bool

-- `IssueToken`: the store and the cookie fa_token of the response
unfoldable pub issue_token : List ℕ → Text → ℕ → Tokens → Tokens × Cookie
issue_token drawn id now m =
    let token = hex_text drawn in
    (
      put token (record { session_id = id; issued_at = now }) m,
      record {
        name = codes "fa_token";
        path = codes "/";
        value = token;
        max_age = seconds (12 * 3600);
        http_only = true;
        secure = true;
        same_site_strict = true;
      },
    )

-- `Revoke`
unfoldable pub revoke_token : Text → Tokens → Tokens
revoke_token = remove

-- `RevokeSession`
unfoldable pub revoke_session : Text → Tokens → Tokens
revoke_session id [] = []
revoke_session id ((k, e) ∷ m) =
    let rest = revoke_session id m in if text_eq e.session_id id then rest else (k, e) ∷ rest

abbrev validate_found : Text → ℕ → Option TokenEntry → Tokens → Option Text × Tokens
validate_found token now none m = (none, m)
validate_found token now (some e) m =
    if ltb token_max_age (now - e.issued_at) then (none, remove token m) else (some e.session_id, m)

-- `Validate` of a request's cookie, if it has one: the session id, `none` for `false`
unfoldable pub validate : Option Text → ℕ → Tokens → Option Text × Tokens
validate none now m = (none, m)
validate (some token) now m = validate_found token now (find token m) m

-- the cookie of `ClearCookie`
abbrev pub cleared_cookie : Cookie
cleared_cookie = record {
  name = codes "fa_token";
  path = codes "/";
  value = [];
  max_age = delete_now;
  http_only = true;
  secure = true;
  same_site_strict = false;
}
