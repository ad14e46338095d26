-- ===== src/Web/Entry/Starting.antt =====
-- `handleSetupPost`, and `handleKeyShow` on the cookie that it sets.
use flashaccess.Base.{
  split_at_colon, ℕ, ◌+◌, ◌-◌, ap, ◌≤◌, ◌==◌, ==_iff, Text, codes, Bool, true, false, not, Option,
  none, some, ok, [], ◌∷◌, ◌++◌, ℤ, pos, negsuc, trim_space, find, all_of, ◌≡◌, ◌≢◌, refl, subst,
  arith, Bool-cases, inl, inr, ◌⊎◌,
}
use flashaccess.Config.{Config}
use flashaccess.Session.{Session}
use flashaccess.Session.Lock.{RwMutex, can_read, Outcome, returns, r_lock, r_unlock}
use flashaccess.Session.State.{Sessions, snapshot, Setup}
use flashaccess.Session.Manager.Leak.{at}
use flashaccess.Session.Manager.{Drawn, new, first_live, active_session, get}
use flashaccess.Session.Keys.{generate_key, encode, url_char}
use flashaccess.Session.Keys.Encoding.{all_of-encode, url_char_is_no_colon}
use flashaccess.Web.Auth.{Tokens}
use flashaccess.Web.Forms.{Values, form_value}
use flashaccess.Web.Gate.{Response, key_page, Server, Handler, Times, on_mgr}
use flashaccess.Web.Gate.Passage.{serving}
use flashaccess.Web.Entry.{
  key_cookie, no_key_cookie, is_out_of_range, or_four_hours, one_minute, two_days, new_params,
  started, with_duration, with_address, with_hash, with_form, handle_setup_post, handle_key_show,
}

in_range : (n : ℕ) → is_out_of_range (pos n) ≡ false → (one_minute ≤ n) × (n ≤ two_days)
in_range n h = (ground (arith, h), ground (arith, h))

module _ {W E : Type 0} (u : Setup W E) (check_password : Text → Text → Bool)
    (parse_duration : Text → Option ℤ) where
  -- A form may start a session: it has the administrator's password, where one is configured, an
  -- address, and a duration of one minute to two days.
  pub record IsEntitled (cfg : Config) (f : Values) : Type 0 where
    pub configured : cfg.admin_password_hash ≢ []
    pub password :
        check_password cfg.admin_password_hash (form_value (codes "admin_password") f) ≡ true
    pub address : trim_space (form_value (codes "allowed_ip") f) ≢ []
    pub duration : ℕ
    pub parsed :
        parse_duration (or_four_hours (form_value (codes "duration") f)) ≡ some (pos duration)
    pub long_enough : one_minute ≤ duration
    pub short_enough : duration ≤ two_days

  -- the call of `New` for a form, and the response behind it
  abbrev pub starts : Config → Values → ℕ → Drawn E → Times → Handler W
  starts cfg f n drawn t =
      on_mgr
        (new u (new_params u cfg (trim_space (form_value (codes "allowed_ip") f)) (pos n)) drawn
          t.issue)
        (started u)

  -- How the handler ends: nothing has changed, or the form may start a session and `New` was called
  -- for it.
  abbrev pub Starts :
      Config → Values → Drawn E → Times → Server W → Outcome Response × Server W → Type 0
  Starts cfg f drawn t srv out =
      (out.1 ≡ srv) ⊎ ((h : IsEntitled cfg f) × (out ≡ starts cfg f h.duration drawn t srv))

  duration-Starts :
      (cfg : Config) (f : Values) (drawn : Drawn E) (t : Times) (srv : Server W) (o : Option ℤ)
      → parse_duration (or_four_hours (form_value (codes "duration") f)) ≡ o
      → cfg.admin_password_hash ≢ []
      → check_password cfg.admin_password_hash (form_value (codes "admin_password") f) ≡ true
      → trim_space (form_value (codes "allowed_ip") f) ≢ []
      → Starts cfg f drawn t srv (
          with_duration u cfg
            (trim_space (form_value (codes "allowed_ip") f))
            (or_four_hours (form_value (codes "duration") f))
            drawn
            t
            o
            srv)
  duration-Starts cfg f drawn t srv none e c p a = inl refl
  duration-Starts cfg f drawn t srv (some (negsuc n)) e c p a = inl refl
  duration-Starts cfg f drawn t srv (some (pos n)) e c p a =
      elim (Bool-cases (is_out_of_range (pos n))) [
        | inl out ↦ rw out (inl refl)
        | inr within ↦ rw within (
            inr (
              record {
                configured = c;
                password = p;
                address = a;
                duration = n;
                parsed = e;
                long_enough = (in_range n within).0;
                short_enough = (in_range n within).1;
              },
              refl,
            ))
      ]

  address-Starts :
      (cfg : Config) (f : Values) (drawn : Drawn E) (t : Times) (srv : Server W) (a : Text)
      → trim_space (form_value (codes "allowed_ip") f) ≡ a
      → cfg.admin_password_hash ≢ []
      → check_password cfg.admin_password_hash (form_value (codes "admin_password") f) ≡ true
      → Starts cfg f drawn t srv (with_address u check_password parse_duration cfg f drawn t a srv)
  address-Starts cfg f drawn t srv [] e c p = inl refl
  address-Starts cfg f drawn t srv (b ∷ a) e c p =
      rw⁻¹ e (duration-Starts cfg f drawn t srv _ refl c p (λ n. absurd (cc (n, e))))

  hash-Starts :
      (cfg : Config) (f : Values) (drawn : Drawn E) (t : Times) (srv : Server W) (hash : Text)
      → cfg.admin_password_hash ≡ hash
      → Starts cfg f drawn t srv (with_hash u check_password parse_duration cfg f drawn t hash srv)
  hash-Starts cfg f drawn t srv [] e = inl refl
  hash-Starts cfg f drawn t srv (c ∷ hash) e =
      elim (Bool-cases (check_password (c ∷ hash) (form_value (codes "admin_password") f))) [
        | inl right ↦
            rw right
              (address-Starts cfg f drawn t srv _ refl (λ n. absurd (cc (n, e))) (rw e right))
        | inr wrong ↦ rw wrong (inl refl)
      ]

  form-Starts :
      (cfg : Config) (form : Option Values) (drawn : Drawn E) (t : Times) (srv : Server W)
      (o : Option Session)
      → let out = with_form u check_password parse_duration cfg drawn t form o srv in
        (out.1 ≡ srv)
        ⊎ ((f : Values) × (form ≡ some f)
            × (o ≡ none)
            × (h : IsEntitled cfg f) × (out ≡ starts cfg f h.duration drawn t srv))
  form-Starts cfg form drawn t srv (some a) = inl refl
  form-Starts cfg none drawn t srv none = inl refl
  form-Starts cfg (some f) drawn t srv none =
      elim (hash-Starts cfg f drawn t srv cfg.admin_password_hash refl) [
        | inl same ↦ inl same
        | inr (h, e) ↦ inr (f, refl, refl, h, e)
      ]

  -- `handleSetupPost`, from a free lock: it leaves everything as it is, or there is no live session,
  -- the form parses, and it may start one, for which `New` is then called.
  pub handle_setup_post-Starts :
      (cfg : Config) (form : Option Values) (drawn : Drawn E) (t : Times) (ss : Sessions) (w : W)
      (m : Tokens)
      → let out =
          handle_setup_post u check_password parse_duration cfg form drawn t (serving ss w m) in
        (out.1 ≡ serving ss w m)
        ⊎ ((f : Values) × (form ≡ some f)
            × (first_live t.lookup (snapshot ss) ≡ none)
            × (h : IsEntitled cfg f) × (out ≡ starts cfg f h.duration drawn t (serving ss w m)))
  unfolding handle_setup_post active_session r_lock r_unlock
  handle_setup_post-Starts cfg form drawn t ss w m =
      form-Starts cfg form drawn t (serving ss w m) (first_live t.lookup (snapshot ss))

-- a key without a colon
abbrev IsRawKey : Text → Type 0
IsRawKey key = all_of (λ c. not (c == b':')) key ≡ true

split_at_colon-append :
    (key id : Text) → IsRawKey key → split_at_colon (key ++ b':' ∷ id) ≡ some (key, id)
unfolding split_at_colon
split_at_colon-append [] id h = refl
split_at_colon-append (c ∷ key) id h = ground (arith, split_at_colon-append key id, ==_iff c b':')

generate_key-IsRawKey :
    (drawn : Option Text) (key : Text) → generate_key drawn ≡ ok key → IsRawKey key
unfolding generate_key
generate_key-IsRawKey none key e = absurd (cc)
generate_key-IsRawKey (some bytes) key e =
    let same : encode url_char bytes ≡ key = ground (arith, e) in
    subst IsRawKey same (all_of-encode (λ c. not (c == b':')) url_char url_char_is_no_colon bytes)

module _ {W E : Type 0} (u : Setup W E) where
  -- The cookie that the setup sets for a key that `GenerateKey` made and a registered session shows
  -- this key and this session, and changes nothing, as long as the manager's lock can be taken for
  -- reading: nobody holds it for writing or waits to.
  pub handle_key_show-key_cookie :
      (drawn : Option Text) (key id : Text) (now : ℕ) (s : Session) (mx : RwMutex) (ss : Sessions)
      (w : W) (m : Tokens)
      → generate_key drawn ≡ ok key
      → find id ss ≡ some s
      → can_read mx ≡ true
      → let srv : Server W = record { mgr = at mx ss w; tokens = m } in
        handle_key_show u (some (key_cookie key id).value) now srv ≡ (
          returns (record {
            page = key_page key id s.allowed_cidr s.expires_at now;
            cookies = no_key_cookie ∷ [];
          }),
          srv,
        )
  unfolding handle_key_show get r_lock r_unlock
  handle_key_show-key_cookie drawn key id now s mx ss w m h e free =
      rw (split_at_colon-append key id (generate_key-IsRawKey drawn key h))
        (rw free (rw e (ap (shown key id now s ss w m mx) (back mx.readers))))
    where
      back : (n : ℕ) → n + 1 - 1 ≡ n
      back n = omega arith

      shown :
          Text
          → Text
          → ℕ
          → Session
          → Sessions
          → W
          → Tokens
          → RwMutex
          → ℕ
          → Outcome Response × Server W
      shown key id now s ss w m mx n = (
        returns (record {
          page = key_page key id s.allowed_cidr s.expires_at now;
          cookies = no_key_cookie ∷ [];
        }),
        record { mgr = at (record mx { readers = n }) ss w; tokens = m },
      )
