-- ===== src/Tests/Manager.antt =====
-- The theorems on sessions and the manager's lock, on one session.
use flashaccess.Base.{
  pos, ℕ, ◌≤◌, Text, true, text_eq, codes, some, List, [], ◌∷◌, ok, All, find, put, trim_space,
  contains, ◌≡◌, refl, arith,
}
use flashaccess.Net.Parse.{split_slash, parse_addr, v4_from, parse_digits}
use flashaccess.Net.{
  Ip, parse_cidr, contains_ip, to_4, prefix_of, cidr_mask, and_bytes, agree_under,
}
use flashaccess.Session.{Session, is_live, ip_allowed, normalize_cidr}
use flashaccess.Session.Lock.{returns, blocks, unlocked, lock, unlock, r_lock, r_unlock}
use flashaccess.Session.State.{State}
use flashaccess.Session.Manager.{
  NewParams, Drawn, judge, verify_access, new, start_session, persist, reap, active_session,
  set_playground_db, fresh_session,
}
use flashaccess.Session.Manager.Leak.{
  at, one_reader, Left, new-Left, BlocksWriters, new-BlocksWriters, set_playground_db-blocks,
}
use flashaccess.Session.Manager.Gate.{Admits, verify_access-Admits}
use flashaccess.Session.Manager.Lockout.{Try, IsGuess, guesses, guesses_bound}
use flashaccess.Session.Manager.Reaper.{Reaped, reap-Reaped}
use flashaccess.Tests.{sample, one_session, saver, plain_setup, saving_setup}

abbrev pub client : Ip
client = 10 ∷ 0 ∷ 0 ∷ 7 ∷ []

abbrev params : NewParams
params = record { allowed_cidr = codes "10.0.0.7/32"; database = codes "shop"; duration = pos 60 }

abbrev draws : Drawn Text
draws = record { raw_key = ok (codes "k"); hash = ok (codes "k"); id = ok (codes "ab12cd34") }

-- what `VerifyAccess` returns for the right key
abbrev admitted_state : State ℕ
admitted_state = at unlocked (put (codes "ab12cd34") sample one_session) 0

sample_allows : ip_allowed sample client ≡ true
unfolding ip_allowed parse_cidr split_slash parse_addr v4_from parse_digits prefix_of cidr_mask
    and_bytes contains_ip to_4 agree_under
sample_allows = refl

right_key_admitted :
    verify_access plain_setup (codes "ab12cd34") (codes "k") client 60 (at unlocked one_session 0)
    ≡ (returns (ok sample), admitted_state)
unfolding verify_access judge is_live lock unlock find put text_eq
right_key_admitted = rw sample_allows refl

verify_access-Admits_example :
    (s : Session) × (find (codes "ab12cd34") one_session ≡ some s)
    × Admits plain_setup s (codes "k") client 60
    × (sample ≡ record s { failed_attempts = 0 })
    × (admitted_state
        ≡ at unlocked (put (codes "ab12cd34") (record s { failed_attempts = 0 }) one_session) 0)
verify_access-Admits_example =
    verify_access-Admits plain_setup (codes "ab12cd34") (codes "k") client 60 one_session 0 sample
      admitted_state right_key_admitted

abbrev wrong_tries : List Try
wrong_tries =
    record { key = codes "x"; ip = client; time = 60 }
    ∷ record { key = codes "y"; ip = client; time = 61 }
    ∷ record { key = codes "z"; ip = 10 ∷ 0 ∷ 0 ∷ 8 ∷ []; time = 62 }
    ∷ []

are_guesses : All (IsGuess plain_setup (codes "k") 60) wrong_tries
unfolding text_eq
are_guesses = (
  (refl, omega arith, omega arith),
  ((refl, omega arith, omega arith), ((refl, omega arith, omega arith), tt)),
)

guesses_bound_example :
    (guesses plain_setup sample wrong_tries ≤ 5)
    × (5 ≤ sample.failed_attempts → guesses plain_setup sample wrong_tries ≤ 1)
guesses_bound_example = guesses_bound plain_setup sample wrong_tries 60 are_guesses

reap-Reaped_example :
    Reaped saving_setup 3600000000000 one_session 0
      (reap saving_setup 3600000000000 (at unlocked one_session 0))
reap-Reaped_example = reap-Reaped saving_setup 3600000000000 one_session 0

new-Left_example :
    Left saving_setup saver refl params 5 draws.raw_key draws.hash draws.id [] 0
      (new saving_setup params draws 5 (at unlocked [] 0))
new-Left_example = new-Left saving_setup saver refl params draws 5 [] 0

-- the session that `New` makes of the draws, and the state it leaves
abbrev made : Session
unfolding normalize_cidr trim_space contains
made = fresh_session params (codes "k") (codes "ab12cd34") 5

abbrev left_behind : State ℕ
left_behind = at one_reader ((codes "ab12cd34", made) ∷ []) 0

new_session_made :
    new saving_setup params draws 5 (at unlocked [] 0)
    ≡ (returns (ok (made, codes "k")), left_behind)
unfolding new start_session persist lock unlock r_lock r_unlock put made
new_session_made = refl

new-BlocksWriters_example : BlocksWriters saving_setup left_behind
new-BlocksWriters_example =
    new-BlocksWriters saving_setup saver params draws 5 [] 0 made (codes "k") left_behind refl
      new_session_made

sample_is_found : find (codes "ab12cd34") one_session ≡ some sample
unfolding find text_eq
sample_is_found = refl

set_playground_db-blocks_example :
    ((set_playground_db saving_setup
        (codes "ab12cd34")
        (codes "_fa_playground_1")
        (at unlocked one_session 0)).0
      ≡ blocks)
    × ((active_session saving_setup 60
          (set_playground_db saving_setup
            (codes "ab12cd34")
            (codes "_fa_playground_1")
            (at unlocked one_session 0)).1).0
        ≡ blocks)
set_playground_db-blocks_example =
    set_playground_db-blocks saving_setup saver (codes "ab12cd34") (codes "_fa_playground_1") sample
      one_session 0 60 refl sample_is_found

-- a store that has one session
