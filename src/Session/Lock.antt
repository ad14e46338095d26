-- ===== src/Session/Lock.antt =====
-- `sync.RWMutex` as one goroutine after the other sees it. A call of `Lock` or `RLock` that cannot
-- go on blocks; a blocked `Lock` waits, and holds up every later `RLock`, as Go's documentation
-- says.
use flashaccess.Base.{ℕ, ◌+◌, ◌-◌, Bool, true, false, not, ◌&&◌, ◌==◌, if◌then◌else◌}

pub record RwMutex : Type 0 where
  pub writer : Bool
  pub readers : ℕ
  pub waiting : ℕ

abbrev pub unlocked : RwMutex
unlocked = record { writer = false; readers = 0; waiting = 0 }

-- a call comes back with a value, or waits for a lock that nobody gives back
pub data Outcome {ℓ} (A : Type ℓ) : Type ℓ where
  returns : A → Outcome A
  blocks : Outcome A

abbrev pub can_lock : RwMutex → Bool
can_lock m = not m.writer && m.readers == 0

abbrev pub can_read : RwMutex → Bool
can_read m = not m.writer && m.waiting == 0

-- `Lock`, `Unlock`, `RLock`, `RUnlock`
unfoldable pub lock : RwMutex → Outcome (Unit {0}) × RwMutex
lock m =
    if can_lock m
    then (returns tt, record m { writer = true })
    else (blocks, record m { waiting = m.waiting + 1 })

unfoldable pub unlock : RwMutex → RwMutex
unlock m = record m { writer = false }

unfoldable pub r_lock : RwMutex → Outcome (Unit {0}) × RwMutex
r_lock m = if can_read m then (returns tt, record m { readers = m.readers + 1 }) else (blocks, m)

unfoldable pub r_unlock : RwMutex → RwMutex
r_unlock m = record m { readers = m.readers - 1 }
