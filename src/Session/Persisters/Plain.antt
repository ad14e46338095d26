-- ===== src/Session/Persisters/Plain.antt =====
-- `FilePersister` is a cell that holds a list of sessions.
use flashaccess.Base.{Text, some, none, List, [], Result, find, ◌≡◌, refl, ◌∙◌, inl, inr, ◌⊎◌}
use flashaccess.Disk.{
  Json, Disk, IoOutcome, done, fails, IoError, io_error, next_outcome, seen, spent,
  write_atomically,
}
use flashaccess.Disk.Atomic.{Saved, write_atomically-Saved}
use flashaccess.Config.{Vault, CfgError, io, lifted, returns}
use flashaccess.Session.{Session}
use flashaccess.Session.Persisters.{file_read, list_read, save_plain, load_plain, file_persister}
use flashaccess.Session.Persisters.Cell.{
  Command, Trace, run, run-Trace, SaveEnds, LoadEnds, Implements,
}

module _ (json : Json (List Session)) (path : Text) where
  -- the file holds the list, or there is none and the list is empty
  abbrev pub HoldsPlain : List Session → Vault → Type 0
  HoldsPlain l v =
      (find path v.disk.files ≡ some (json.marshal l))
      ⊎ ((l ≡ []) × (find path v.disk.files ≡ none))

  same_file-HoldsPlain :
      (l : List Session) (v v' : Vault)
      → find path v'.disk.files ≡ find path v.disk.files
      → HoldsPlain l v
      → HoldsPlain l v'
  same_file-HoldsPlain l v v' e (inl h) = inl (e ∙ h)
  same_file-HoldsPlain l v v' e (inr (n, h)) = inr (n, e ∙ h)

  written-SaveEnds :
      (l l' : List Session) (v : Vault) (out : Result IoError (Unit {0}) × Disk)
      → HoldsPlain l v
      → Saved path (json.marshal l') v.disk out
      → SaveEnds HoldsPlain l l' (lifted v out)
  written-SaveEnds l l' v (r, d) h (inl (e, f)) = rw e (inl (refl, inl f))
  written-SaveEnds l l' v (r, d) h (inr (e, f)) =
      rw e (inr (io io_error, refl, same_file-HoldsPlain l v (record v { disk = d }) f h))

  module _ (reads : (l : List Session) → json.unmarshal (json.marshal l) ≡ some l) where
    loaded-LoadEnds :
        (l : List Session) (o : IoOutcome) (v : Vault)
        → HoldsPlain l v
        → LoadEnds HoldsPlain l (
            file_read json path
              (λ content. returns (list_read json path (json.unmarshal content)))
              (lifted v (seen o (find path v.disk.files), spent v.disk)))
    loaded-LoadEnds l done v (inl h) = rw h (rw reads (inl refl, inl h))
    loaded-LoadEnds l done v (inr (n, h)) = rw h (rw n (inl refl, inr (refl, h)))
    loaded-LoadEnds l (fails left) v h = (inr (io io_error, refl), h)

    file_persister-Implements : Implements (file_persister json path) HoldsPlain
    unfolding save_plain load_plain
    file_persister-Implements = record {
      on_save = λ l l' v h.
          written-SaveEnds l l' v (write_atomically path (json.marshal l') v.disk) h
            (write_atomically-Saved path (json.marshal l') v.disk);
      on_load = λ l v h. loaded-LoadEnds l (next_outcome v.disk.outcomes) v h;
    }

    -- Whatever saves and loads are called on the plain file, in whatever order and whatever the disk
    -- does, what comes of them is a trace of the same cell.
    pub file_persister-Trace :
        (cs : List Command) (l : List Session) (v : Vault)
        → HoldsPlain l v
        → let out = run (file_persister json path) cs v in
          (l' : List Session) × Trace CfgError cs l out.0 l' × HoldsPlain l' out.1
    file_persister-Trace cs l v h =
        run-Trace (file_persister json path) HoldsPlain file_persister-Implements cs l v h
