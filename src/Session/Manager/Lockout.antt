-- ===== src/Session/Manager/Lockout.antt =====
-- The lockout of `VerifyAccess` against guessing.
use flashaccess.Base.{
  ℕ, ◌+◌, ◌-◌, ◌≤◌, ◌<◌, Text, false, List, [], ◌∷◌, Result, ok, err, ◌≡◌, refl, ◌∙◌, arith,
  if◌then◌else◌, leb, All,
}
use flashaccess.Net.{Ip}
use flashaccess.Session.{Session}
use flashaccess.Session.State.{MgrError, bad_key, Setup, lockout_window}
use flashaccess.Session.Manager.{judge}

-- one call of `VerifyAccess` for a session: the candidate key, the client and the time
pub record Try : Type 0 where
  pub key : Text
  pub ip : Ip
  pub time : ℕ

module _ {W E : Type 0} (u : Setup W E) where
  -- the key was held against the session's hash, and is another
  abbrev guessed : Result (MgrError E) Session → ℕ
  guessed (err bad_key) = 1
  guessed _ = 0

  -- the guesses among a session's attempts that reach the check of the key, one after the other
  unfoldable pub guesses : Session → List Try → ℕ
  guesses s [] = 0
  guesses s (t ∷ ts) = let (r, s') = judge u s t.key t.ip t.time in guessed r + guesses s' ts

  -- a guess in the five minutes from `t0` on, with a key that is not the session's
  abbrev pub IsGuess : Text → ℕ → Try → Type 0
  IsGuess hash t0 t =
      (u.verify_key t.key hash ≡ ok false) × (t0 ≤ t.time) × (t.time < t0 + lockout_window)

  -- how many guesses a session still allows in the five minutes from `t0` on
  abbrev budget : Session → ℕ → ℕ
  budget s t0 =
      if leb 5 s.failed_attempts
      then (if leb t0 s.last_attempt then 0 else 1)
      else 5 - s.failed_attempts

  judge-budget :
      (s : Session) (t : Try) (t0 : ℕ)
      → IsGuess s.key_hash t0 t
      → guessed (judge u s t.key t.ip t.time).0 + budget (judge u s t.key t.ip t.time).1 t0
        ≤ budget s t0
  unfolding judge
  judge-budget s t t0 h = ground arith

  judge-key_hash :
      (s : Session) (key : Text) (ip : Ip) (now : ℕ)
      → (judge u s key ip now).1.key_hash ≡ s.key_hash
  unfolding judge
  judge-key_hash s key ip now = ground arith

  guesses-le-budget :
      (ts : List Try) (s : Session) (t0 : ℕ) (hash : Text)
      → s.key_hash ≡ hash
      → All (IsGuess hash t0) ts
      → guesses s ts ≤ budget s t0
  unfolding guesses
  guesses-le-budget [] s t0 hash e h = omega arith
  guesses-le-budget (t ∷ ts) s t0 hash e h =
      let now = judge u s t.key t.ip t.time in
      omega (
        arith,
        judge-budget s t t0 (rw e h.0),
        guesses-le-budget ts now.1 t0 hash (judge-key_hash s t.key t.ip t.time ∙ e) h.1,
      )

  -- Of the calls of `VerifyAccess` for one session within five minutes, each with a wrong key,
  -- however many there are and from whatever addresses, at most five reach the check of the key,
  -- and at most one if five failures have been counted before.
  pub guesses_bound :
      (s : Session) (ts : List Try) (t0 : ℕ)
      → All (IsGuess s.key_hash t0) ts
      → (guesses s ts ≤ 5) × (5 ≤ s.failed_attempts → guesses s ts ≤ 1)
  guesses_bound s ts t0 h =
      let b = guesses-le-budget ts s t0 s.key_hash refl h in (ground arith, λ f. ground arith)
