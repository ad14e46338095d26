-- ===== src/Session/Persisters/Cell.antt =====
-- What a store of sessions promises: it behaves as a cell that holds a list, from which a call
-- that fails takes nothing.
use flashaccess.Base.{List, [], ◌∷◌, Result, ok, err, ◌≡◌, inl, inr, ◌⊎◌}
use flashaccess.Session.{Session}
use flashaccess.Session.State.{Persister}

-- a call, as the manager makes them, and what came of it
pub data Command : Type 0 where
  save : List Session → Command
  load : Command

pub data Event (E : Type 0) : Type 0 where
  saved : List Session → Event E
  loaded : List Session → Event E
  failed : E → Event E

-- The cell: a save puts its list in, a load yields what is in, and a failure changes nothing.
pub data Step (E : Type 0) : Command → List Session → Event E → List Session → Type 0 where
  puts : {l l' : List Session} → Step E (save l') l (saved l') l'
  yields : {l : List Session} → Step E load l (loaded l) l
  fails : {c : Command} {l : List Session} {e : E} → Step E c l (failed e) l

pub data Trace (E : Type 0)
    : List Command → List Session → List (Event E) → List Session → Type 0 where
  ends : {l : List Session} → Trace E [] l [] l
  steps :
      {c : Command} {cs : List Command} {e : Event E} {es : List (Event E)} {a b l : List Session}
      → Step E c a e b
      → Trace E cs b es l
      → Trace E (c ∷ cs) a (e ∷ es) l

module _ {W E : Type 0} where
  abbrev pub save_event : List Session → Result E (Unit {0}) × W → Event E × W
  save_event l (ok _, w) = (saved l, w)
  save_event l (err e, w) = (failed e, w)

  abbrev pub load_event : Result E (List Session) × W → Event E × W
  load_event (ok l, w) = (loaded l, w)
  load_event (err e, w) = (failed e, w)

  -- a call of a store
  abbrev pub call : Persister W E → Command → W → Event E × W
  call p (save l) w = save_event l (p.save_all l w)
  call p load w = load_event (p.load_all w)

  -- the calls of a list, one behind the other
  unfoldable pub run : Persister W E → List Command → W → List (Event E) × W
  run p [] w = ([], w)
  run p (c ∷ cs) w = let (e, w') = call p c w in let (es, w2) = run p cs w' in (e ∷ es, w2)

  -- How a save and a load may end, for a store whose state stands for a list.
  abbrev pub SaveEnds :
      (List Session → W → Type 0) → List Session → List Session → Result E (Unit {0}) × W → Type 0
  SaveEnds Stands l l' (r, w) = ((r ≡ ok tt) × Stands l' w) ⊎ ((e : E) × (r ≡ err e) × Stands l w)

  abbrev pub LoadEnds :
      (List Session → W → Type 0) → List Session → Result E (List Session) × W → Type 0
  LoadEnds Stands l (r, w) = ((r ≡ ok l) ⊎ ((e : E) × (r ≡ err e))) × Stands l w

  -- What an implementation proves of its operations, call by call.
  pub record Implements (p : Persister W E) (Stands : List Session → W → Type 0) : Type 0 where
    pub on_save :
        (l l' : List Session) (w : W) → Stands l w → SaveEnds Stands l l' (p.save_all l' w)
    pub on_load : (l : List Session) (w : W) → Stands l w → LoadEnds Stands l (p.load_all w)

  -- between two states that stand for lists, a call is a step of the cell
  abbrev Refines : (List Session → W → Type 0) → Command → List Session → Event E × W → Type 0
  Refines Stands c a (e, w) = (b : List Session) × Step E c a e b × Stands b w

  module _ (p : Persister W E) (Stands : List Session → W → Type 0)
      (imp : Implements p Stands) where
    save-Refines :
        (l l' : List Session) (out : Result E (Unit {0}) × W)
        → SaveEnds Stands l l' out
        → Refines Stands (save l') l (save_event l' out)
    save-Refines l l' (r, w) (inl (e, s)) = rw e (l', puts, s)
    save-Refines l l' (r, w) (inr (_, e, s)) = rw e (l, fails, s)

    load-Refines :
        (l : List Session) (out : Result E (List Session) × W)
        → LoadEnds Stands l out
        → Refines Stands load l (load_event out)
    load-Refines l (r, w) (inl e, s) = rw e (l, yields, s)
    load-Refines l (r, w) (inr (_, e), s) = rw e (l, fails, s)

    call-Refines :
        (c : Command) (l : List Session) (w : W) → Stands l w → Refines Stands c l (call p c w)
    call-Refines (save l') l w s = save-Refines l l' (p.save_all l' w) (imp.on_save l l' w s)
    call-Refines load l w s = load-Refines l (p.load_all w) (imp.on_load l w s)

    -- Whatever is called, in whatever order, what comes of it is a trace of the cell.
    pub run-Trace :
        (cs : List Command) (l : List Session) (w : W)
        → Stands l w
        → (l' : List Session) × Trace E cs l (run p cs w).0 l' × Stands l' (run p cs w).1
    unfolding run
    run-Trace [] l w s = (l, ends, s)
    run-Trace (c ∷ cs) l w s =
        let (b, t, s1) = call-Refines c l w s in
        let (l', ts, s2) = run-Trace cs b (call p c w).1 s1 in (l', steps t ts, s2)
