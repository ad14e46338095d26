-- ===== src/Session/Restart.antt =====
-- `NewManager` of internal/session/manager.go: the sessions of a store, back in the map.
use flashaccess.Base.{
  text_eq_refl, arith, Text, text_eq, text_eq_iff, Option, none, some, List, [], ◌∷◌, Result, ok,
  err, find, put, find-put, ◌≡◌, refl, subst, ◌∙◌, Bool-cases, inl, inr,
}
use flashaccess.Session.{Session}
use flashaccess.Session.Lock.{unlocked}
use flashaccess.Session.State.{Sessions, snapshot, Setup, Persister, State}

-- the loop over the loaded list
unfoldable pub registered : List Session → Sessions → Sessions
registered [] m = m
registered (s ∷ l) m = registered l (put s.id s m)

module _ {W E : Type 0} where
  abbrev from_loaded : Result E (List Session) × W → Result E (State W)
  from_loaded (err e, w) = err e
  from_loaded (ok l, w) = ok (record { mutex = unlocked; sessions = registered l []; world = w })

  abbrev from_store : Option (Persister W E) → W → Result E (State W)
  from_store none w = ok (record { mutex = unlocked; sessions = []; world = w })
  from_store (some p) w = from_loaded (p.load_all w)

  -- `NewManager`
  unfoldable pub new_manager : Setup W E → W → Result E (State W)
  new_manager u w = from_store u.store w

from_loaded-unlocked :
    {W E : Type 0} (out : Result E (List Session) × W) (st : State W)
    → from_loaded out ≡ ok st
    → st.mutex ≡ unlocked
from_loaded-unlocked (err e, w) st h = absurd (cc)
from_loaded-unlocked (ok l, w) st h = ground (arith, h)

from_store-unlocked :
    {W E : Type 0} (o : Option (Persister W E)) (w : W) (st : State W)
    → from_store o w ≡ ok st
    → st.mutex ≡ unlocked
from_store-unlocked none w st h = ground (arith, h)
from_store-unlocked (some p) w st h = from_loaded-unlocked (p.load_all w) st h

-- The lock of a manager that has started is free.
pub new_manager-unlocked :
    {W E : Type 0} (u : Setup W E) (w : W) (st : State W)
    → new_manager u w ≡ ok st
    → st.mutex ≡ unlocked
unfolding new_manager
new_manager-unlocked u w st h = from_store-unlocked u.store w st h

-- Each session stands under its own id, and no id stands twice.
abbrev pub IsKeyed : Sessions → Type 0
IsKeyed [] = Unit {0}
IsKeyed ((k, s) ∷ ss) = (k ≡ s.id) × (find k ss ≡ none) × IsKeyed ss

-- a session under an id that is not taken
pub put-IsKeyed :
    (id : Text) (s : Session) (ss : Sessions)
    → id ≡ s.id
    → find id ss ≡ none
    → IsKeyed ss
    → IsKeyed (put id s ss)
unfolding find put
put-IsKeyed id s [] e n h = (e, refl, tt)
put-IsKeyed id s ((k, t) ∷ ss) e n (same, k_free, h) = elim (Bool-cases (text_eq k id)) [
  | inl taken ↦ absurd (ground (arith, n, taken))
  | inr other ↦
      let later_free : find id ss ≡ none = ground (arith, n, other) in
      let still_free : find k (put id s ss) ≡ none =
        ground (arith, find-put id k s ss, text_eq_iff id k, text_eq_iff k id, text_eq_refl k) in
      rw other (same, still_free, put-IsKeyed id s ss e later_free h)
]

abbrev or_found : Option Session → Option Session → Option Session
or_found none o = o
or_found (some s) o = some s

found_later :
    (j k : Text) (s : Session) (ss m : Sessions)
    → k ≡ s.id
    → find k ss ≡ none
    → or_found (find j ss) (find j (put s.id s m)) ≡ or_found (find j ((k, s) ∷ ss)) (find j m)
unfolding find
found_later j k s ss m e n = elim (Bool-cases (text_eq k j)) [
  | inl same ↦
      let none_later : find j ss ≡ none =
        subst (λ x. find x ss ≡ none) ((text_eq_iff k j).0 same) n in
      rw same (rw find-put (rw (← e) (rw same (rw none_later refl))))
  | inr other ↦ rw other (rw find-put (rw (← e) (rw other refl)))
]

or_found-nothing : (j : Text) (o : Option Session) → or_found o (find j []) ≡ o
unfolding find
or_found-nothing j none = refl
or_found-nothing j (some s) = refl

find-registered :
    (j : Text) (ss m : Sessions)
    → IsKeyed ss
    → find j (registered (snapshot ss) m) ≡ or_found (find j ss) (find j m)
unfolding registered
find-registered j [] m h = unfold find in refl
find-registered j ((k, s) ∷ ss) m (e, n, h) =
    find-registered j ss (put s.id s m) h ∙ found_later j k s ss m e n

-- A manager that is started on a store, which loads the sessions that a map `ss` keyed by their
-- ids held, finds under every id what `ss` had there, and its lock is free.
pub new_manager-find :
    {W E : Type 0} (u : Setup W E) (p : Persister W E) (ss : Sessions) (w w' : W)
    → u.store ≡ some p
    → p.load_all w ≡ (ok (snapshot ss), w')
    → IsKeyed ss
    → (st : State W) × (new_manager u w ≡ ok st)
      × (st.mutex ≡ unlocked)
      × (st.world ≡ w')
      × ((j : Text) → find j st.sessions ≡ find j ss)
unfolding new_manager
new_manager-find u p ss w w' e l h = (
  record { mutex = unlocked; sessions = registered (snapshot ss) []; world = w' },
  rw e (rw l refl),
  refl,
  refl,
  λ j. find-registered j ss [] h ∙ or_found-nothing j (find j ss),
)
