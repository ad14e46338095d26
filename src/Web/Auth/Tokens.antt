-- ===== src/Web/Auth/Tokens.antt =====
-- What a token is good for, over every sequence of operations of the token store.
use flashaccess.Base.{
  ℕ, ◌-◌, ◌≤◌, Text, text_eq, text_eq_iff, text_eq_refl, Option, none, some, List, [], ◌∷◌, find,
  put, remove, find-put, ◌≡◌, ◌≢◌, refl, sym, arith, Option-cases, Bool-cases, inl, inr, ◌⊎◌,
}
use flashaccess.Web.Auth.{
  Tokens, TokenEntry, token_max_age, hex_text, issue_token, revoke_token, revoke_session, validate,
  validate_found,
}

-- one operation of the store, with its time where it reads the clock
pub data Event : Type 0 where
  issues : List ℕ → Text → ℕ → Event
  validates : Option Text → ℕ → Event
  revokes ends : Text → Event

unfoldable pub happen : Event → Tokens → Tokens
unfolding issue_token validate
happen (issues drawn id now) m = (issue_token drawn id now m).0
happen (validates c now) m = (validate c now m).1
happen (revokes token) m = revoke_token token m
happen (ends id) m = revoke_session id m

-- the last event stands first
unfoldable pub history : List Event → Tokens
history [] = []
history (e ∷ es) = happen e (history es)

abbrev pub IsIssue : Text → TokenEntry → Event → Type 0
IsIssue token e (issues drawn id now) =
    (hex_text drawn ≡ token) × (e ≡ record { session_id = id; issued_at = now })
IsIssue token e _ = ⊥

-- an event at which `token` stops to stand for a session `id`
abbrev pub IsLoss : Text → Text → Event → Type 0
IsLoss token id (issues _ _ _) = ⊥
IsLoss token id (validates _ _) = ⊥
IsLoss token id (revokes t) = t ≡ token
IsLoss token id (ends i) = i ≡ id

-- the entry was issued for the token, and neither the token nor its session has been revoked since
pub data Standing (token : Text) (e : TokenEntry) : List Event → Type 0 where
  issued_now : (v : Event) (es : List Event) → IsIssue token e v → Standing token e (v ∷ es)
  still :
      (v : Event) (es : List Event)
      → (IsLoss token e.session_id v → ⊥)
      → Standing token e es
      → Standing token e (v ∷ es)

-- Before anything was issued no token stands.
pub Standing-ne-nil :
    (token : Text) (e : TokenEntry) (es : List Event) → Standing token e es → es ≢ []
Standing-ne-nil token e es (issued_now v rest h) empty = absurd (cc)
Standing-ne-nil token e es (still v rest kept h) empty = absurd (cc)

-- the store has this entry for the token
abbrev pub Holds : Text → TokenEntry → Tokens → Type 0
Holds token e [] = ⊥
Holds token e ((k, f) ∷ m) = ((token ≡ k) × (e ≡ f)) ⊎ Holds token e m

pub find-Holds :
    (token : Text) (e : TokenEntry) (m : Tokens) → find token m ≡ some e → Holds token e m
unfolding find
find-Holds token e [] h = absurd (cc)
find-Holds token e ((k, f) ∷ m) h = elim (Bool-cases (text_eq k token)) [
  | inl same ↦ inl (sym ((text_eq_iff k token).0 same), ground arith)
  | inr other ↦ inr (find-Holds token e m (ground arith))
]

Holds-put :
    (token key : Text) (e f : TokenEntry) (m : Tokens)
    → Holds token e (put key f m)
    → ((token ≡ key) × (e ≡ f)) ⊎ Holds token e m
unfolding put
Holds-put token key e f [] h = h
Holds-put token key e f ((k, g) ∷ m) h =
    ground (arith, text_eq_iff k key, Holds-put token key e f m)

Holds-remove :
    (token key : Text) (e : TokenEntry) (m : Tokens)
    → Holds token e (remove key m)
    → (key ≢ token) × Holds token e m
unfolding remove
Holds-remove token key e [] h = absurd h
Holds-remove token key e ((k, g) ∷ m) h =
    ground (arith, text_eq_iff k key, Holds-remove token key e m)

pub Holds-revoke_session :
    (token id : Text) (e : TokenEntry) (m : Tokens)
    → Holds token e (revoke_session id m)
    → (id ≢ e.session_id) × Holds token e m
unfolding revoke_session
Holds-revoke_session token id e [] h = absurd h
Holds-revoke_session token id e ((k, g) ∷ m) h =
    ground (arith, text_eq_iff g.session_id id, Holds-revoke_session token id e m)

Holds-validate :
    (token : Text) (e : TokenEntry) (c : Option Text) (now : ℕ) (m : Tokens)
    → Holds token e (validate c now m).1
    → Holds token e m
unfolding validate
Holds-validate token e none now m h = h
Holds-validate token e (some c) now m h = elim (Option-cases (find c m)) [
  | inl q ↦ ground (arith, q)
  | inr (f, q) ↦ ground (arith, q, Holds-remove token c e m)
]

happen-Holds :
    (token : Text) (e : TokenEntry) (v : Event) (m : Tokens)
    → Holds token e (happen v m)
    → IsIssue token e v ⊎ ((IsLoss token e.session_id v → ⊥) × Holds token e m)
unfolding happen issue_token revoke_token
happen-Holds token e (issues drawn id now) m h = elim (Holds-put token (hex_text drawn) e _ m h) [
  | inl (a, b) ↦ inl (sym a, b)
  | inr r ↦ inr (λ x. x, r)
]
happen-Holds token e (validates c now) m h = inr (λ x. x, Holds-validate token e c now m h)
happen-Holds token e (revokes t) m h = inr (Holds-remove token t e m h)
happen-Holds token e (ends i) m h = inr (Holds-revoke_session token i e m h)

history-Standing :
    (token : Text) (e : TokenEntry) (es : List Event)
    → Holds token e (history es)
    → Standing token e es
unfolding history
history-Standing token e [] h = absurd h
history-Standing token e (v ∷ es) h = elim (happen-Holds token e v (history es) h) [
  | inl i ↦ issued_now v es i
  | inr (n, r) ↦ still v es n (history-Standing token e es r)
]

-- what a valid cookie shows of the operations before it
pub record Vouched (c : Option Text) (id : Text) (now : ℕ) (es : List Event) : Type 0 where
  pub token : Text
  pub entry : TokenEntry
  pub from_cookie : c ≡ some token
  pub for_session : entry.session_id ≡ id
  pub fresh : now - entry.issued_at ≤ token_max_age
  pub standing : Standing token entry es

validate_found-fresh :
    (token : Text) (now : ℕ) (e : TokenEntry) (m : Tokens) (id : Text)
    → (validate_found token now (some e) m).0 ≡ some id
    → (e.session_id ≡ id) × (now - e.issued_at ≤ token_max_age)
validate_found-fresh token now e m id h = ground arith

-- After any sequence of operations of the store: if `Validate` accepts a cookie for a session,
-- the cookie's token was issued for that session at most twelve hours ago, and since then neither
-- the token nor the session has been revoked.
pub validate-Vouched :
    (es : List Event) (c : Option Text) (now : ℕ) (id : Text)
    → (validate c now (history es)).0 ≡ some id
    → Vouched c id now es
unfolding validate
validate-Vouched es none now id h = absurd (cc)
validate-Vouched es (some token) now id h = elim (Option-cases (find token (history es))) [
  | inl q ↦ absurd (ground (arith, q))
  | inr (e, q) ↦
      let (a, b) = validate_found-fresh token now e (history es) id (ground (arith, q)) in
      record {
        token = token;
        entry = e;
        from_cookie = refl;
        for_session = a;
        fresh = b;
        standing = history-Standing token e es (find-Holds token e (history es) q);
      }
]

-- A token that `IssueToken` has just put into any store is valid for its session for twelve hours.
pub issue_token-valid :
    (drawn : List ℕ) (id : Text) (now later : ℕ) (m : Tokens)
    → later - now ≤ token_max_age
    → validate (some (issue_token drawn id now m).1.value) later (issue_token drawn id now m).0
      ≡ (some id, (issue_token drawn id now m).0)
unfolding validate issue_token
issue_token-valid drawn id now later m h =
    rw find-put (rw (text_eq_refl (hex_text drawn)) (ground arith))
