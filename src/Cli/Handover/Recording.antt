-- ===== src/Cli/Handover/Recording.antt =====
-- `New` on the hooks and the store of the program, step by step.
use flashaccess.Base.{
  ℕ, Text, Result, ok, err, text_eq, text_eq_iff, put, ◌≡◌, refl, ap, subst, arith,
}
use flashaccess.Disk.{tmp_path}
use flashaccess.Disk.Atomic.{IsElsewhere}
use flashaccess.Config.{Vault, CfgError, key_path}
use flashaccess.Mysql.Driver.{DbError}
use flashaccess.Access
use flashaccess.Access.{Activator, ActError, provision, stamped, session_user_name, bad_host}
use flashaccess.Access.Provisioning.{EndsAt}
use flashaccess.Session.{Session}
use flashaccess.Session.Lock.{Outcome, returns, unlocked, lock, unlock, r_lock, r_unlock}
use flashaccess.Session.State.{Sessions, snapshot, MgrError, State}
use flashaccess.Session.Manager.{
  NewParams, fresh_session, start_session, provisioned, recorded, saved, persist, drawn_all,
}
use flashaccess.Session.Manager.Leak.{at, one_reader}
use flashaccess.Session.Persisters.{save_sealed}
use flashaccess.Web.Site.{World}
use flashaccess.Cli.{
  Program, ProgramError, setup_of, default_dir, sessions_path, from_host, from_vault, on_host,
  on_vault,
}

-- the session that comes back from the hook is the one that went in, with the account
pub stamped_by :
    (s s' : Session) (h h' : Access.Host) (r : Result DbError Text) (a : Activator)
    (out : Result ActError Session × Access.Host)
    → EndsAt a s h r out
    → out ≡ (ok s', h')
    → (pw : Text) × (host : Text) × (s' ≡ stamped s (session_user_name s) pw host)
stamped_by s s' h h' (ok host) a (ok x, h2) (pw, same, _, _, _) e =
    (pw, host, ground (arith, same, e))
stamped_by s s' h h' (ok host) a (err x, h2) ends e = absurd (cc)
stamped_by s s' h h' (err x) a out ends e = absurd (cc)

pub from_host-ok :
    {A : Type 0} (w w' : World) (r : Result ActError A × Access.Host) (a : A)
    → from_host w r ≡ (ok a, w')
    → r ≡ (ok a, w'.host)
from_host-ok w w' (ok x, h) a e = ground (arith, e)
from_host-ok w w' (err x, h) a e = absurd (cc)

pub from_vault-ok :
    {A : Type 0} (w w' : World) (r : Result CfgError A × Vault) (a : A)
    → from_vault w r ≡ (ok a, w')
    → r ≡ (ok a, w'.vault)
from_vault-ok w w' (ok x, v) a e = ground (arith, e)
from_vault-ok w w' (err x, v) a e = absurd (cc)

pub sessions_beside : IsElsewhere sessions_path (key_path default_dir)
unfolding text_eq
sessions_beside = (
  λ e. absurd (cc ((text_eq_iff sessions_path (key_path default_dir)).1 e)),
  λ e. absurd (cc ((text_eq_iff (tmp_path sessions_path) (key_path default_dir)).1 e)),
)

module _ (p : Program) (a : Activator) where
  -- What `New` has done where it returns a session: the hook has made it of the fresh one, and the
  -- store has saved it with the others.
  abbrev pub Recorded :
      Session
      → Text
      → Text
      → Sessions
      → World
      → Outcome (Result (MgrError ProgramError) (Session × Text)) × State World
      → Type 0
  Recorded fresh key id ss w (returns (ok (s, k)), st) =
      (w1 : World) × (on_host (provision a fresh) w ≡ (ok s, w1))
      × (on_vault
            (save_sealed p.sessions_json sessions_path p.gcm default_dir (snapshot (put id s ss)))
            w1
          ≡ (ok tt, st.world))
      × (k ≡ key)
  Recorded fresh key id ss w _ = Unit {0}

  recorded-Recorded :
      (fresh s : Session) (key id : Text) (ss : Sessions) (w w1 w2 : World)
      (r : Result ProgramError (Unit {0}))
      → on_host (provision a fresh) w ≡ (ok s, w1)
      → on_vault
          (save_sealed p.sessions_json sessions_path p.gcm default_dir (snapshot (put id s ss)))
          w1
        ≡ (r, w2)
      → Recorded fresh key id ss w (
          recorded
            (setup_of p a)
            key
            id
            s
            (saved (setup_of p a) r)
            (at one_reader (put id s ss) w2))
  unfolding lock
  recorded-Recorded fresh s key id ss w w1 w2 (ok _) made stored = (w1, made, stored, refl)
  recorded-Recorded fresh s key id ss w w1 w2 (err e) made stored = tt

  provisioned-Recorded :
      (fresh : Session) (key id : Text) (ss : Sessions) (w w1 : World)
      (r : Result ProgramError Session)
      → on_host (provision a fresh) w ≡ (r, w1)
      → Recorded fresh key id ss w (provisioned (setup_of p a) key id r (at unlocked ss w1))
  unfolding persist lock r_lock unlock r_unlock
  provisioned-Recorded fresh key id ss w w1 (err e) made = tt
  provisioned-Recorded fresh key id ss w w1 (ok s) made =
      recorded-Recorded fresh s key id ss w w1 _ _ made refl

  start_session-Recorded :
      (q : NewParams) (now : ℕ) (key hash id : Text) (ss : Sessions) (w : World)
      → Recorded
          (fresh_session q hash id now)
          key
          id
          ss
          w
          (start_session (setup_of p a) q now key hash id (at unlocked ss w))
  unfolding start_session
  start_session-Recorded q now key hash id ss w =
      provisioned-Recorded (fresh_session q hash id now) key id ss w _ _ refl

  pub drawn_all-Recorded :
      (q : NewParams) (now : ℕ) (key : Text) (hash : Result ProgramError Text) (id : Text)
      (ss : Sessions) (w : World) (s : Session) (k : Text) (st : State World)
      → drawn_all (setup_of p a) q now (ok key) hash (ok id) (at unlocked ss w)
        ≡ (returns (ok (s, k)), st)
      → (stored : Text) × (hash ≡ ok stored)
        × Recorded (fresh_session q stored id now) key id ss w (returns (ok (s, k)), st)
  drawn_all-Recorded q now key (err e) id ss w s k st e' = absurd (cc (ap (λ o. o.0) e'))
  drawn_all-Recorded q now key (ok stored) id ss w s k st e' = (
    stored,
    refl,
    subst (Recorded (fresh_session q stored id now) key id ss w) e'
        (start_session-Recorded q now key stored id ss w),
  )
