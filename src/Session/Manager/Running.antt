-- ===== src/Session/Manager/Running.antt =====
-- `Start`, `Stop` and `newID` of internal/session/manager.go: the goroutine of the reaper, over what
-- its `select` wakes up for, one event after the other.
use flashaccess.Base.{
  ℕ, ◌+◌, ◌/◌, ◌%◌, ltb, Text, Option, none, some, List, [], ◌∷◌, ◌++◌, Result, ok, err,
  if◌then◌else◌, map, ◌≡◌, refl, ◌∙◌, ap, sym, subst,
}
use flashaccess.Session.{Session}
use flashaccess.Session.Lock.{Outcome, returns, blocks, unlocked, lock}
use flashaccess.Session.State.{Sessions, Setup, Persister, State}
use flashaccess.Session.Manager.{reap}
use flashaccess.Session.Manager.Leak.{at, one_reader}
use flashaccess.Session.Manager.Reaper.{due, lock_left, reap-Round}

abbrev hex_digit : ℕ → ℕ
hex_digit d = if ltb d 10 then 48 + d else 87 + d

-- `hex.EncodeToString`
abbrev hex_text : Text → Text
hex_text [] = []
hex_text (b ∷ bs) = hex_digit (b / 16) ∷ hex_digit (b % 16) ∷ hex_text bs

-- `newID`, for the bytes that were drawn
unfoldable pub new_id : {E : Type 0} → E → Option Text → Result E Text
new_id e none = err e
new_id e (some bytes) = ok (hex_text bytes)

-- what `select` wakes up for: the ticker, or the channel that `Stop` closes
pub data Wake : Type 0 where
  tick : ℕ → Wake
  stop : Wake

-- where the goroutine stands: it waits for the next event, it has returned, or it waits for a lock
-- that nobody gives back
pub data Goroutine : Type 0 where
  waits returned stuck : Goroutine

module _ {W E : Type 0} (u : Setup W E) where
  abbrev reaped_then :
      Outcome (Unit {0}) × State W → (State W → Goroutine × State W) → Goroutine × State W
  reaped_then (returns _, st) k = k st
  reaped_then (blocks, st) k = (stuck, st)

  -- the goroutine of `Start`
  unfoldable pub start : List Wake → State W → Goroutine × State W
  start [] st = (waits, st)
  start (stop ∷ es) st = (returned, st)
  start (tick now ∷ es) st = reaped_then (reap u now st) (start es)

  reap_without_store :
      (now : ℕ) (ss : Sessions) (w : W)
      → u.store ≡ none
      → (ss' : Sessions) × (w' : W) × (reap u now (at unlocked ss w)
          ≡ (returns tt, at unlocked ss' w'))
  reap_without_store now ss w none_set =
      let out = reap u now (at unlocked ss w) in
      let h = reap-Round u now ss w in
      (
        out.1.sessions,
        out.1.world,
        left_unlocked out h.comes_back
            (h.lock_after ∙ ap (λ o. lock_left u o (due now ss)) none_set ∙ refl),
      )
    where
      left_unlocked :
          (out : Outcome (Unit {0}) × State W)
          → out.0 ≡ returns tt
          → out.1.mutex ≡ unlocked
          → out ≡ (returns tt, at unlocked out.1.sessions out.1.world)
      left_unlocked (r, st) e f = rw e (ap (λ m. (returns tt, at m st.sessions st.world)) f)

  -- Without a store the goroutine of the reaper returns once `Stop` is called, after however many
  -- rounds and whatever sessions they end, and the lock is free.
  start-stop :
      (ts : List ℕ) (es : List Wake) (ss : Sessions) (w : W)
      → u.store ≡ none
      → (ss' : Sessions) × (w' : W) × (start (map tick ts ++ stop ∷ es) (at unlocked ss w)
          ≡ (returned, at unlocked ss' w'))
  unfolding start
  start-stop [] es ss w h = (ss, w, refl)
  start-stop (t ∷ ts) es ss w h =
      let (ss1, w1, e) = reap_without_store t ss w h in
      let (ss2, w2, f) = start-stop ts es ss1 w1 h in
      (ss2, w2, ap (λ out. reaped_then out (start (map tick ts ++ stop ∷ es))) e ∙ f)

  one_reader-stuck :
      (es : List Wake) (now : ℕ) (ss : Sessions) (w : W)
      → (start (tick now ∷ es) (at one_reader ss w)).0 ≡ stuck
  unfolding start reap lock
  one_reader-stuck es now ss w = refl

  -- With a store, once a round has ended a session, the goroutine waits in its next round for a lock
  -- that nobody gives back, whether `Stop` is called or not.
  start-stuck :
      (p : Persister W E) (t t' : ℕ) (s : Session) (l : List Session) (es : List Wake)
      (ss : Sessions) (w : W)
      → u.store ≡ some p
      → due t ss ≡ s ∷ l
      → (start (tick t ∷ tick t' ∷ es) (at unlocked ss w)).0 ≡ stuck
  unfolding start
  start-stuck p t t' s l es ss w has_store ended =
      let h = reap-Round u t ss w in
      leads (reap u t (at unlocked ss w)) h.comes_back (
        h.lock_after
        ∙ (ap (λ o. lock_left u o (due t ss)) has_store ∙ ap (lock_left u (some p)) ended))
    where
      leads :
          (out : Outcome (Unit {0}) × State W)
          → out.0 ≡ returns tt
          → out.1.mutex ≡ one_reader
          → (reaped_then out (start (tick t' ∷ es))).0 ≡ stuck
      leads (r, st) e f = rw e (
          subst (λ m. (start (tick t' ∷ es) (at m st.sessions st.world)).0 ≡ stuck) (sym f)
            (one_reader-stuck es t' st.sessions st.world))
