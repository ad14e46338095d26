-- ===== src/Web/Gate/Passage.antt =====
-- Who gets through the gate, and what the end of a session closes.
use flashaccess.Base.{
  ℕ, Text, text_eq_iff, Bool, true, false, not, Option, none, some, List, [], ◌∷◌, Result, ok, err,
  if◌then◌else◌, trim_space, find, ◌≡◌, ◌≢◌, refl, sym, ap, subst, arith, Option-cases, Bool-cases,
  inl, inr, ◌⊎◌,
}
use flashaccess.Session.{Session, is_live, ip_allowed}
use flashaccess.Session.Lock.{unlocked, Outcome, returns, blocks, r_lock, r_unlock}
use flashaccess.Session.State.{Sessions, snapshot, Setup, State, MgrError}
use flashaccess.Session.Manager.{active_session, first_live, verify_access, end}
use flashaccess.Session.Manager.Leak.{at}
use flashaccess.Session.Manager.Gate.{Admits, verify_access-Admits}
use flashaccess.Web.Auth.{Tokens, validate, revoke_session}
use flashaccess.Web.Auth.Tokens.{
  Event, history, Vouched, validate-Vouched, find-Holds, Holds-revoke_session,
}
use flashaccess.Web.Client.{Request, real_ip, or_nil}
use flashaccess.Web.Gate.{
  forwarded, error_page, respond, Response, Server, Times, require_auth, guarded, passed,
  handle_gate_post, gate_found, submitted, verified, handle_session_end, end_active, ended,
  continued,
}

abbrev pub Listed : Session → List Session → Type 0
Listed s [] = ⊥
Listed s (t ∷ r) = (s ≡ t) ⊎ Listed s r

first_live-Listed :
    (now : ℕ) (l : List Session) (a : Session)
    → first_live now l ≡ some a
    → (is_live a now ≡ true) × Listed a l
first_live-Listed now [] a h = absurd (cc)
first_live-Listed now (s ∷ l) a h = elim (Bool-cases (is_live s now)) [
  | inl live ↦
      let same : s ≡ a = ground arith in
      (subst (λ x. is_live x now ≡ true) same live, inl (sym same))
  | inr gone ↦ let (p, q) = first_live-Listed now l a (ground arith) in (p, inr q)
]

-- a server whose manager's lock is free
abbrev pub serving : {W : Type 0} → Sessions → W → Tokens → Server W
serving ss w m = record { mgr = at unlocked ss w; tokens = m }

module _ {W E : Type 0} (u : Setup W E) where
  active_session-runs :
      (now : ℕ) (ss : Sessions) (w : W)
      → active_session u now (at unlocked ss w)
        ≡ (returns (first_live now (snapshot ss)), at unlocked ss w)
  unfolding active_session r_lock r_unlock
  active_session-runs now ss w = refl

  -- what it takes to get past the middleware
  pub record Passes (r : Request) (t : Times) (ss : Sessions) (es : List Event) : Type 0 where
    pub session : Session
    pub registered : Listed session (snapshot ss)
    pub live : is_live session t.lookup ≡ true
    pub bound : ip_allowed session (or_nil (real_ip r)) ≡ true
    pub vouched : Vouched r.cookie session.id t.check es

  abbrev pub IsForwarded : Outcome Response → Type 0
  IsForwarded (returns p) = p.page ≡ forwarded
  IsForwarded blocks = ⊥

  passed-Vouched :
      (a : Session) (v : Option Text × Tokens) (srv : Server W)
      → IsForwarded (passed a v srv).0
      → v.0 ≡ some a.id
  passed-Vouched a (none, m) srv h = absurd (cc)
  passed-Vouched a (some id, m) srv h = ground (arith, text_eq_iff id a.id)

  -- the middleware's test of the address, as its outcome is `b`
  abbrev tested : Bool → Session → Option Text × Tokens → Server W → Outcome Response × Server W
  tested b a v srv = if not b then respond (error_page 403) [] srv else passed a v srv

  tested-Vouched :
      (b : Bool) (a : Session) (v : Option Text × Tokens) (srv : Server W)
      → IsForwarded (tested b a v srv).0
      → (b ≡ true) × (v.0 ≡ some a.id)
  tested-Vouched true a v srv h = (refl, passed-Vouched a v srv h)
  tested-Vouched false a v srv h = absurd (cc)

  guarded-Passes :
      (r : Request) (t : Times) (o : Option Session) (ss : Sessions) (w : W) (es : List Event)
      → first_live t.lookup (snapshot ss) ≡ o
      → IsForwarded (guarded r t o (serving ss w (history es))).0
      → Passes r t ss es
  guarded-Passes r t none ss w es e h = absurd (cc)
  guarded-Passes r t (some a) ss w es e h =
      let (live, registered) = first_live-Listed t.lookup (snapshot ss) a e in
      let (bound, v) =
        tested-Vouched _ a (validate r.cookie t.check (history es)) (serving ss w (history es)) h in
      record {
        session = a;
        registered = registered;
        live = live;
        bound = bound;
        vouched = validate-Vouched es r.cookie t.check a.id v;
      }

  -- A request that `requireAuth` lets through, with the manager's lock free and the tokens as any
  -- sequence of operations left them: there is a live session, the request comes from the address
  -- that the session is bound to, and its cookie's token was issued for that session at most
  -- twelve hours ago and not revoked since.
  pub require_auth-Passes :
      (r : Request) (t : Times) (ss : Sessions) (w : W) (es : List Event)
      → IsForwarded (require_auth u r t (serving ss w (history es))).0
      → Passes r t ss es
  unfolding require_auth active_session r_lock r_unlock
  require_auth-Passes r t ss w es h = guarded-Passes r t _ ss w es refl h

  -- what stands behind a cookie that the gate has set
  pub record Entitled (r : Request) (t : Times) (ss : Sessions) : Type 0 where
    pub session : Session
    pub candidate : Text
    pub registered : Listed session (snapshot ss)
    pub from_form : r.key ≡ some candidate
    pub checked : Session
    pub found : find session.id ss ≡ some checked
    pub admits : Admits u checked (trim_space candidate) (or_nil (real_ip r)) t.check

  abbrev pub SetsCookie : Outcome Response → Type 0
  SetsCookie (returns p) = p.cookies ≢ []
  SetsCookie blocks = ⊥

  verified-SetsCookie :
      (a : Session) (r : Request) (t : Times) (drawn : List ℕ) (out : Result (MgrError E) Session)
      (srv : Server W)
      → SetsCookie (verified u a r t drawn out srv).0
      → (s : Session) × (out ≡ ok s)
  verified-SetsCookie a r t drawn (err e) srv h = absurd (h refl)
  verified-SetsCookie a r t drawn (ok s) srv h = (s, refl)

  submitted-SetsCookie :
      (a : Session) (r : Request) (t : Times) (drawn : List ℕ)
      (out : Outcome (Result (MgrError E) Session) × State W) (srv : Server W)
      → SetsCookie (continued out (verified u a r t drawn) srv).0
      → (s : Session) × (out.0 ≡ returns (ok s))
  submitted-SetsCookie a r t drawn (returns x, st) srv h =
      let (s, e) = verified-SetsCookie a r t drawn x (record srv { mgr = st }) h in
      (s, ap returns e)
  submitted-SetsCookie a r t drawn (blocks, st) srv h = absurd h

  submitted-Entitled :
      (a : Session) (r : Request) (t : Times) (drawn : List ℕ) (key : Option Text) (ss : Sessions)
      (w : W) (m : Tokens)
      → Listed a (snapshot ss)
      → r.key ≡ key
      → SetsCookie (submitted u a r t drawn key (serving ss w m)).0
      → Entitled r t ss
  submitted-Entitled a r t drawn none ss w m l k h = absurd (h refl)
  submitted-Entitled a r t drawn (some key) ss w m l k h =
      let out =
        verify_access u a.id (trim_space key) (or_nil (real_ip r)) t.check (at unlocked ss w) in
      let (s, q) = submitted-SetsCookie a r t drawn out (serving ss w m) h in
      let (checked, found, admits, _, _) =
        verify_access-Admits u a.id (trim_space key) (or_nil (real_ip r)) t.check ss w s out.1
          (ap (λ x. (x, out.1)) q) in
      record {
        session = a;
        candidate = key;
        registered = l;
        from_form = k;
        checked = checked;
        found = found;
        admits = admits;
      }

  gate_found-Entitled :
      (r : Request) (t : Times) (drawn : List ℕ) (o : Option Session) (ss : Sessions) (w : W)
      (m : Tokens)
      → first_live t.lookup (snapshot ss) ≡ o
      → SetsCookie (gate_found u r t drawn o (serving ss w m)).0
      → Entitled r t ss
  gate_found-Entitled r t drawn none ss w m e h = absurd (h refl)
  gate_found-Entitled r t drawn (some a) ss w m e h =
      submitted-Entitled a r t drawn r.key ss w m (first_live-Listed t.lookup (snapshot ss) a e).1
        refl h

  -- If the gate answers a key with a cookie, then the form has a key, which without the white
  -- space around it `VerifyAccess` admits to a registered session: one that is live, not locked
  -- out, bound to the client's address, and has this key.
  pub handle_gate_post-Entitled :
      (r : Request) (t : Times) (drawn : List ℕ) (ss : Sessions) (w : W) (m : Tokens)
      → SetsCookie (handle_gate_post u r t drawn (serving ss w m)).0
      → Entitled r t ss
  unfolding handle_gate_post active_session r_lock r_unlock
  handle_gate_post-Entitled r t drawn ss w m h = gate_found-Entitled r t drawn _ ss w m refl h

  ended-tokens :
      (out : Outcome (Result (MgrError E) (Unit {0})) × State W) (srv : Server W)
      → (continued out (ended u) srv).1.tokens ≡ srv.tokens
  ended-tokens (returns (ok _), st) srv = refl
  ended-tokens (returns (err e), st) srv = refl
  ended-tokens (blocks, st) srv = refl

  end_active-tokens :
      (a : Session) (srv : Server W)
      → (end_active u (some a) srv).1.tokens ≡ revoke_session a.id srv.tokens
  end_active-tokens a srv =
      ended-tokens (end u a.id srv.mgr) (record srv { tokens = revoke_session a.id srv.tokens })

  handle_session_end-tokens :
      (t : Times) (ss : Sessions) (w : W) (m : Tokens) (a : Session)
      → first_live t.lookup (snapshot ss) ≡ some a
      → (handle_session_end u t (serving ss w m)).1.tokens ≡ revoke_session a.id m
  unfolding handle_session_end active_session r_lock r_unlock
  handle_session_end-tokens t ss w m a e = rw e (end_active-tokens a (serving ss w m))

  no_token_left :
      (id : Text) (c : Option Text) (now : ℕ) (m : Tokens)
      → (validate c now (revoke_session id m)).0 ≢ some id
  unfolding validate
  no_token_left id none now m h = absurd (cc)
  no_token_left id (some token) now m h = elim (Option-cases (find token (revoke_session id m))) [
    | inl q ↦ absurd (ground (arith, q))
    | inr (e, q) ↦
        let (other, held) = Holds-revoke_session token id e m (find-Holds token e _ q) in
        other (ground (arith, q))
  ]

  -- `handleSessionEnd` on the live session closes it to every browser, whether the manager then
  -- ends it, fails, or blocks: no cookie is valid for that session any more.
  handle_session_end-closes :
      (t : Times) (ss : Sessions) (w : W) (m : Tokens) (a : Session) (c : Option Text) (later : ℕ)
      → first_live t.lookup (snapshot ss) ≡ some a
      → (validate c later (handle_session_end u t (serving ss w m)).1.tokens).0 ≢ some a.id
  handle_session_end-closes t ss w m a c later e =
      rw (handle_session_end-tokens t ss w m a e) (no_token_left a.id c later m)
