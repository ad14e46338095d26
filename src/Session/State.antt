-- ===== src/Session/State.antt =====
-- The state of internal/session/manager.go: the map of sessions behind its lock. The map is an
-- association list; Go visits a map in any order, and nothing is assumed of the order of the list.
-- The hooks, the store and the check of a key are parameters: other packages provide them.
use flashaccess.Base.{ℕ, ◌*◌, Text, Bool, Option, List, Result, map}
use flashaccess.Session.{Session}
use flashaccess.Session.Lock.{RwMutex, Outcome, returns, blocks, lock, unlock, r_lock, r_unlock}

abbrev pub max_failed_attempts : ℕ
max_failed_attempts = 5

-- five minutes
abbrev pub lockout_window : ℕ
lockout_window = 5 * 60 * 1000000000

abbrev pub Sessions : Type 0
Sessions = List (Text × Session)

abbrev pub second : Text × Session → Session
second (_, s) = s

abbrev pub snapshot : Sessions → List Session
snapshot = map second

-- The errors of the package's operations, around the errors `E` of the hooks, the store and the
-- libraries.
pub data MgrError (E : Type 0) : Type 0 where
  not_found not_live locked_out ip_rejected bad_key : MgrError E
  failed provision_failed : E → MgrError E

-- a call into another package, which may change its world `W`
abbrev pub Effect : Type 0 → Type 0 → Type 0 → Type 0
Effect W E A = W → Result E A × W

-- `Hooks`, each of which may be nil. Provisioning writes the credentials into the session.
pub record Hooks (W E : Type 0) : Type 0 where
  pub on_provision : Option (Session → Effect W E Session)
  pub on_revoke : Option (Session → Effect W E (Unit {0}))

-- `Persister`
pub record Persister (W E : Type 0) : Type 0 where
  pub save_all : List Session → Effect W E (Unit {0})
  pub load_all : Effect W E (List Session)

-- What a manager is made of, with `VerifyKey` as a candidate is held against a stored hash.
pub record Setup (W E : Type 0) : Type 0 where
  pub hooks : Hooks W E
  pub store : Option (Persister W E)
  pub verify_key : Text → Text → Result E Bool

pub record State (W : Type 0) : Type 0 where
  pub mutex : RwMutex
  pub sessions : Sessions
  pub world : W

-- an operation of the manager, which may block
abbrev pub Op : Type 0 → Type 0 → Type 0
Op W A = State W → Outcome A × State W

-- an operation that returns `(A, error)`
abbrev pub Attempt : Type 0 → Type 0 → Type 0 → Type 0
Attempt W E A = Op W (Result (MgrError E) A)

module _ {W A : Type 0} where
  abbrev pub pure : A → Op W A
  pure a st = (returns a, st)

  abbrev pub gets : (Sessions → A) → Op W A
  gets f st = (returns (f st.sessions), st)

-- what follows a call that has come back
abbrev pub proceed : {W A B : Type 0} → Outcome A × State W → (A → Op W B) → Outcome B × State W
proceed (returns a, st) f = f a st
proceed (blocks, st) f = (blocks, st)

infixl 5 ◌>>=◌ ◌>>◌
abbrev pub ◌>>=◌ : {W A B : Type 0} → Op W A → (A → Op W B) → Op W B
◌>>=◌ m f st = proceed (m st) f

abbrev pub ◌>>◌ : {W B : Type 0} → Op W (Unit {0}) → Op W B → Op W B
m >> k = m >>= λ _. k

module _ {W : Type 0} where
  abbrev pub modify : (Sessions → Sessions) → Op W (Unit {0})
  modify f st = (returns tt, record st { sessions = f st.sessions })

  abbrev on_mutex : State W → Outcome (Unit {0}) × RwMutex → Outcome (Unit {0}) × State W
  on_mutex st (r, m) = (r, record st { mutex = m })

  -- the calls of `m.mu`
  abbrev pub lock_mu : Op W (Unit {0})
  lock_mu st = on_mutex st (lock st.mutex)

  abbrev pub r_lock_mu : Op W (Unit {0})
  r_lock_mu st = on_mutex st (r_lock st.mutex)

  abbrev pub unlock_mu : Op W (Unit {0})
  unlock_mu st = (returns tt, record st { mutex = unlock st.mutex })

  abbrev pub r_unlock_mu : Op W (Unit {0})
  r_unlock_mu st = (returns tt, record st { mutex = r_unlock st.mutex })

abbrev pub with_world : {W A : Type 0} → State W → A × W → Outcome A × State W
with_world st (a, w) = (returns a, record st { world = w })

-- a call of a hook or of the store
abbrev pub call : {W E A : Type 0} → Effect W E A → Op W (Result E A)
call f st = with_world st (f st.world)
