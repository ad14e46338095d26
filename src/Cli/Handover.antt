-- ===== src/Cli/Handover.antt =====
-- `New` of the manager that `main` starts, and `NewManager` and `VerifyAccess` of a later process.
mod Recording
use flashaccess.Base.{
  ℕ, ltb, Text, true, none, some, List, Result, ok, err, find, length, text_eq, text_eq_iff, put,
  find-put, text_eq_refl, All, ◌≡◌, refl, sym, ◌∙◌, ap, subst, arith,
}
use flashaccess.Net.{Ip}
use flashaccess.Disk.{tmp_path}
use flashaccess.Disk.Atomic.{IsElsewhere}
use flashaccess.Config.{Vault, CfgError, key_path}
use flashaccess.Config.Sealing.{mended}
use flashaccess.Mysql.Driver.{DbError}
use flashaccess.Mysql.Hosts.{cidr_to_host}
use flashaccess.Access
use flashaccess.Access.{Activator, ActError, provision, stamped, session_user_name, bad_host}
use flashaccess.Access.Provisioning.{EndsAt, provision-EndsAt}
use flashaccess.Session.{Session, active, is_live, ip_allowed}
use flashaccess.Session.Lock.{Outcome, returns, unlocked, lock, unlock, r_lock, r_unlock}
use flashaccess.Session.State.{Sessions, snapshot, MgrError, State}
use flashaccess.Session.Manager.{
  NewParams, fresh_session, new, start_session, provisioned, recorded, saved, persist,
  verify_access, drawn_all,
}
use flashaccess.Session.Manager.Leak.{at, one_reader}
use flashaccess.Session.Manager.Gate.{Admits, judge-admitted, verify_access-found}
use flashaccess.Session.Restart.{new_manager, IsKeyed, put-IsKeyed, new_manager-find}
use flashaccess.Session.Keys.{KeyError, argon_costs, key_len, generate_key, hash_key, verify_key}
use flashaccess.Session.Keys.Encoding.{IsByte}
use flashaccess.Session.Keys.Verifying.{verify_key-hash_key}
use flashaccess.Session.Persisters.{save_sealed, load_sealed}
use flashaccess.Session.Persisters.Sealed.{save_sealed-load_sealed}
use flashaccess.Web.Site.{World}
use flashaccess.Cli.{
  Program, ProgramError, setup_of, session_store, default_dir, sessions_path, from_host, from_vault,
  on_host, on_vault, as_keyed, hash_of, Draws, drawn_by,
}
use flashaccess.Cli.Handover.Recording.{
  Recorded, drawn_all-Recorded, from_host-ok, from_vault-ok, sessions_beside, stamped_by,
}

as_keyed-ok : {A : Type 0} (r : Result KeyError A) (x : A) → as_keyed r ≡ ok x → r ≡ ok x
as_keyed-ok (ok y) x e = ground (arith, e)
as_keyed-ok (err y) x e = absurd (cc)

module _ (p : Program) (unseals : (k n t : Text) → p.gcm.unseal k n (p.gcm.seal k n t) ≡ some t)
    (reads : (l : List Session) → p.sessions_json.unmarshal (p.sessions_json.marshal l) ≡ some l)
    (yields : (key salt hash : Text)
      → p.derive key salt argon_costs key_len ≡ some hash
      → (length hash ≡ key_len) × All IsByte hash) where
  -- the manager of a later process, on a disk that works
  restarted :
      (a : Activator) (ms : Sessions) (w1 w2 w' : World)
      → on_vault (save_sealed p.sessions_json sessions_path p.gcm default_dir (snapshot ms)) w1
        ≡ (ok tt, w2)
      → w'.vault ≡ mended w2.vault
      → IsKeyed ms
      → (st : State World) × (new_manager (setup_of p a) w' ≡ ok st)
        × (st.mutex ≡ unlocked)
        × (st.world ≡ w')
        × ((j : Text) → find j st.sessions ≡ find j ms)
  restarted a ms w1 w2 w' saved_all same_vault keyed =
      let kept =
        save_sealed-load_sealed p.gcm p.sessions_json sessions_path default_dir unseals reads
          sessions_beside (snapshot ms) w1.vault w2.vault (from_vault-ok w1 w2 _ tt saved_all) in
      let loads = load_sealed p.sessions_json sessions_path p.gcm default_dir in
      new_manager-find (setup_of p a) (session_store p) ms w' w' refl
        (ap (λ v. from_vault w' (loads v)) same_vault
          ∙ (ap (from_vault w') kept
              ∙ ap (λ v. (ok (snapshot ms), record w' { vault = v })) (sym same_vault)))
        keyed

  -- the key is held against the hash that `New` stored
  key_fits :
      (key salt stored : Text)
      → All IsByte salt
      → as_keyed (hash_key p.derive key (some salt)) ≡ ok stored
      → as_keyed (verify_key p.derive key stored) ≡ ok true
  key_fits key salt stored bytes e =
      let (_, _, _, fits) =
        verify_key-hash_key p.derive yields key key salt stored bytes (as_keyed-ok _ stored e) in
      ap as_keyed fits

  found-verify_access :
      (a : Activator) (s : Session) (key : Text) (ip : Ip) (now : ℕ) (ms : Sessions) (w : World)
      → s.status ≡ active
      → s.failed_attempts ≡ 0
      → as_keyed (verify_key p.derive key s.key_hash) ≡ ok true
      → ltb now s.expires_at ≡ true
      → ip_allowed s ip ≡ true
      → find s.id ms ≡ some s
      → (verify_access (setup_of p a) s.id key ip now (at unlocked ms w)).0 ≡ returns (ok s)
  found-verify_access a s key ip now ms w live none_failed fits early allowed found =
      let admits : Admits (setup_of p a) s key ip now = record {
        live = unfold is_live in rw live (rw early refl);
        open_to_tries = rw none_failed refl;
        from_bound_address = allowed;
        right_key = fits;
      } in
      ap (λ o. o.0) (verify_access-found (setup_of p a) s.id key ip now ms w s found)
      ∙ (ap (λ j. returns j.0) (judge-admitted (setup_of p a) s key ip now admits)
          ∙ ap (λ n. returns (ok (record s { failed_attempts = n }))) (sym none_failed))

  -- A manager that starts in a world, and opens a session to a key from an address.
  abbrev pub Opens : Activator → World → Session → Text → Ip → ℕ → Type 0
  Opens a w s key ip now =
      (st : State World) × (new_manager (setup_of p a) w ≡ ok st)
      × ((verify_access (setup_of p a) s.id key ip now st).0 ≡ returns (ok s))

  -- any later process, on a disk that works
  abbrev OpensLater : Session → Text → State World → Type 0
  OpensLater s key st =
      (a : Activator) (w : World) (ip : Ip) (now : ℕ)
      → w.vault ≡ mended st.world.vault
      → ltb now s.expires_at ≡ true
      → ip_allowed s ip ≡ true
      → Opens a w s key ip now

  Recorded-OpensLater :
      (a : Activator) (q : NewParams) (now : ℕ) (k stored id salt : Text) (ss : Sessions)
      (w : World) (s : Session) (key : Text) (st : State World)
      → All IsByte salt
      → as_keyed (hash_key p.derive k (some salt)) ≡ ok stored
      → Recorded p a (fresh_session q stored id now) k id ss w (returns (ok (s, key)), st)
      → IsKeyed ss
      → find id ss ≡ none
      → OpensLater s key st
  Recorded-OpensLater a q now k stored id salt ss w s key st bytes hashed
        (w1, made, saved_all, same) keyed new_one a' w' ip now' same_vault early allowed =
      let fresh = fresh_session q stored id now in
      let (pw, host, is) =
        stamped_by fresh s w.host w1.host (cidr_to_host fresh.allowed_cidr) a
          (provision a fresh w.host) (provision-EndsAt a fresh w.host)
          (from_host-ok w w1 _ s made) in
      let same_id : s.id ≡ id = ap (λ x. x.id) is in
      let (st', started, free, there, finds) =
        restarted a' (put id s ss) w1 st.world w' saved_all same_vault
          (put-IsKeyed id s ss (sym same_id) new_one keyed) in
      let found : find s.id st'.sessions ≡ some s =
        finds s.id
        ∙ (ap (λ j. find j (put id s ss)) same_id ∙ rw find-put (rw text_eq_refl refl)) in
      let fits : as_keyed (verify_key p.derive key s.key_hash) ≡ ok true =
        rw same (rw (ap (λ x. x.key_hash) is) (key_fits k salt stored bytes hashed)) in
      (
        st',
        started,
        ap (λ m. (verify_access (setup_of p a') s.id key ip now' (at m st'.sessions st'.world)).0)
              free
            ∙ found-verify_access a' s key ip now' st'.sessions st'.world (ap (λ x. x.status) is)
                (ap (λ x. x.failed_attempts) is) fits early allowed found,
      )

  drawn-OpensLater :
      (a : Activator) (q : NewParams) (now : ℕ) (g : Result KeyError Text) (id salt : Text)
      (ss : Sessions) (w : World) (s : Session) (key : Text) (st : State World)
      → All IsByte salt
      → drawn_all
          (setup_of p a)
          q
          now
          (as_keyed g)
          (hash_of p (some salt) g)
          (ok id)
          (at unlocked ss w)
        ≡ (returns (ok (s, key)), st)
      → IsKeyed ss
      → find id ss ≡ none
      → OpensLater s key st
  drawn-OpensLater a q now (err e) id salt ss w s key st bytes ends keyed new_one =
      absurd (cc (ap (λ o. o.0) ends))
  drawn-OpensLater a q now (ok k) id salt ss w s key st bytes ends keyed new_one =
      let (stored, hashed, h) = drawn_all-Recorded p a q now k _ id ss w s key st ends in
      Recorded-OpensLater a q now k stored id salt ss w s key st bytes hashed h keyed new_one

  new-OpensLater :
      (a : Activator) (q : NewParams) (draws : Draws) (id salt : Text) (now : ℕ) (ss : Sessions)
      (w : World) (s : Session) (key : Text) (st : State World)
      → draws.salt ≡ some salt
      → All IsByte salt
      → (drawn_by p draws).id ≡ ok id
      → IsKeyed ss
      → find id ss ≡ none
      → new (setup_of p a) q (drawn_by p draws) now (at unlocked ss w) ≡ (returns (ok (s, key)), st)
      → OpensLater s key st
  unfolding new
  new-OpensLater a q draws id salt now ss w s key st salted bytes same_id keyed new_one ends =
      drawn-OpensLater a q now (generate_key draws.key) id salt ss w s key st bytes
        (ap
            (λ o.
              drawn_all (setup_of p a) q now (as_keyed (generate_key draws.key))
                (hash_of p o (generate_key draws.key)) (ok id) (at unlocked ss w))
            (sym salted)
          ∙ (ap
                (λ i.
                  drawn_all (setup_of p a) q now (as_keyed (generate_key draws.key))
                    (hash_of p draws.salt (generate_key draws.key)) i (at unlocked ss w))
                (sym same_id)
              ∙ ends))
        keyed new_one

  -- What `New` of the program hands out works: if it returns a session and a key, under an id that
  -- no session had, then a later process that starts on what is on the disk, with the disk working,
  -- admits the key to this very session by `VerifyAccess`, from the address that it is bound to and
  -- before its end, whatever the random source, the database, the firewall and the disk did while it
  -- was started. Sessions and sealed texts are read back, and what is derived from a key has the
  -- length asked for, in bytes.
  pub new-Opens :
      (a : Activator) (q : NewParams) (draws : Draws) (id salt : Text) (now : ℕ) (ss : Sessions)
      (w : World) (s : Session) (key : Text) (st : State World) (a' : Activator) (w' : World)
      (ip : Ip) (now' : ℕ)
      → draws.salt ≡ some salt
      → All IsByte salt
      → (drawn_by p draws).id ≡ ok id
      → IsKeyed ss
      → find id ss ≡ none
      → new (setup_of p a) q (drawn_by p draws) now (at unlocked ss w) ≡ (returns (ok (s, key)), st)
      → w'.vault ≡ mended st.world.vault
      → ltb now' s.expires_at ≡ true
      → ip_allowed s ip ≡ true
      → Opens a' w' s key ip now'
  new-Opens a q draws id salt now ss w s key st a' w' ip now' salted bytes same_id keyed new_one
        ends =
      new-OpensLater a q draws id salt now ss w s key st salted bytes same_id keyed new_one ends a'
        w' ip now'
