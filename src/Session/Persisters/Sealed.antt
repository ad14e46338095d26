-- ===== src/Session/Persisters/Sealed.antt =====
-- `EncryptedPersister` is a cell that holds a list of sessions, and what a manager that is started
-- again finds in it.
use flashaccess.Base.{
  Text, some, none, List, [], Result, ok, find, ◌≡◌, refl, subst, ◌∙◌, ap, inl, inr, ◌⊎◌,
}
use flashaccess.Disk.{Json, IoOutcome, done, fails, io_error, next_outcome, seen, spent}
use flashaccess.Disk.Atomic.{IsElsewhere}
use flashaccess.Config.{
  Aead, Vault, CfgError, io, key_path, key_read, lifted, master_key, open_sealed, proceed, returns,
  decrypt,
}
use flashaccess.Config.Sealing.{mended, HasKey-mended}
use flashaccess.Config.Saving.{Kept, Holds, Replaces, sealed_save-Replaces}
use flashaccess.Session.{Session}
use flashaccess.Session.Lock.{unlocked}
use flashaccess.Session.State.{Sessions, snapshot, Setup, State}
use flashaccess.Session.Restart.{new_manager, IsKeyed, new_manager-find}
use flashaccess.Session.Persisters.{
  file_read, list_read, opened_list, save_sealed, load_sealed, encrypted_persister,
}
use flashaccess.Session.Persisters.Cell.{
  Command, Trace, run, run-Trace, SaveEnds, LoadEnds, Implements,
}

module _ (gcm : Aead) (json : Json (List Session)) (path dir : Text) where
  -- the file holds the list, sealed with the key of the machine, or there is none and the list is
  -- empty
  abbrev pub HoldsSealed : List Session → Vault → Type 0
  HoldsSealed l v =
      Holds gcm path dir (json.marshal l) v ⊎ ((l ≡ []) × (find path v.disk.files ≡ none))

  HoldsSealed-Kept :
      (l : List Session) (v v' : Vault) → Kept path dir v v' → HoldsSealed l v → HoldsSealed l v'
  HoldsSealed-Kept l v v' k (inr (n, h)) = inr (n, k.same_file ∙ h)
  HoldsSealed-Kept l v v' k (inl h) = inl (record {
    content = h.content;
    in_file = k.same_file ∙ h.in_file;
    sealed = record {
      key = h.sealed.key;
      has_key = k.same_key h.sealed.key h.sealed.has_key;
      opens = h.sealed.opens;
    };
  })

  saved-SaveEnds :
      (l l' : List Session) (v : Vault) (out : Result CfgError (Unit {0}) × Vault)
      → HoldsSealed l v
      → Replaces gcm path dir (json.marshal l') v out
      → SaveEnds HoldsSealed l l' out
  saved-SaveEnds l l' v out h (inl (r, s)) = inl (r, inl s)
  saved-SaveEnds l l' v out h (inr (e, r, k)) = inr (e, r, HoldsSealed-Kept l v out.1 k h)

  abbrev same_key : (v v' : Vault) → v'.disk.files ≡ v.disk.files → Kept path dir v v'
  same_key v v' e = record {
    same_file = ap (find path) e;
    same_key = λ key h. record { stored = rw e h.stored; full = h.full };
  }

  module _ (reads : (l : List Session) → json.unmarshal (json.marshal l) ≡ some l) where
    abbrev with_key : Text → Result CfgError Text × Vault → Result CfgError (List Session) × Vault
    with_key sealed out =
        proceed (proceed out (λ key. returns (open_sealed gcm key sealed)))
          (λ plain. returns (list_read json path (json.unmarshal plain)))

    keyed-LoadEnds :
        (l : List Session) (o : IoOutcome) (v : Vault) (h : Holds gcm path dir (json.marshal l) v)
        → LoadEnds HoldsSealed l (
            with_key h.content (
              key_read
                (key_path dir)
                (lifted v (seen o (find (key_path dir) v.disk.files), spent v.disk))))
    keyed-LoadEnds l done v h = rw h.sealed.has_key.stored (
        rw h.sealed.has_key.full (
          rw h.sealed.opens (
            rw reads (
              inl refl,
              HoldsSealed-Kept l v (record v { disk = spent v.disk }) (same_key v _ refl) (inl h),
            ))))
    keyed-LoadEnds l (fails left) v h = (
      inr (io io_error, refl),
      HoldsSealed-Kept l v (record v { disk = spent v.disk }) (same_key v _ refl) (inl h),
    )

    opened-LoadEnds :
        (l : List Session) (v : Vault) (h : Holds gcm path dir (json.marshal l) v)
        → LoadEnds HoldsSealed l (opened_list json path gcm dir h.content v)
    unfolding decrypt master_key
    opened-LoadEnds l v h = keyed-LoadEnds l (next_outcome v.disk.outcomes) v h

    abbrev respent :
        (v : Vault) {plain : Text} (h : Holds gcm path dir plain v)
        → Holds gcm path dir plain (record v { disk = spent v.disk })
    respent v h = record {
      content = h.content;
      in_file = h.in_file;
      sealed = record {
        key = h.sealed.key;
        has_key = record { stored = h.sealed.has_key.stored; full = h.sealed.has_key.full };
        opens = h.sealed.opens;
      };
    }

    loaded-LoadEnds :
        (l : List Session) (o : IoOutcome) (v : Vault)
        → HoldsSealed l v
        → LoadEnds HoldsSealed l (
            file_read json path
              (opened_list json path gcm dir)
              (lifted v (seen o (find path v.disk.files), spent v.disk)))
    loaded-LoadEnds l done v (inl h) =
        rw h.in_file (opened-LoadEnds l (record v { disk = spent v.disk }) (respent v h))
    loaded-LoadEnds l done v (inr (n, h)) = rw h (rw n (inl refl, inr (refl, h)))
    loaded-LoadEnds l (fails left) v h = (
      inr (io io_error, refl),
      HoldsSealed-Kept l v (record v { disk = spent v.disk }) (same_key v _ refl) h,
    )

module _ (gcm : Aead) (json : Json (List Session)) (path dir : Text)
    (unseals : (k n p : Text) → gcm.unseal k n (gcm.seal k n p) ≡ some p)
    (reads : (l : List Session) → json.unmarshal (json.marshal l) ≡ some l)
    (beside : IsElsewhere path (key_path dir)) where
  encrypted_persister-Implements :
      Implements (encrypted_persister json path gcm dir) (HoldsSealed gcm json path dir)
  unfolding save_sealed load_sealed
  encrypted_persister-Implements = record {
    on_save = λ l l' v h.
        saved-SaveEnds gcm json path dir l l' v (save_sealed json path gcm dir l' v) h
          (sealed_save-Replaces gcm unseals path dir beside (json.marshal l') v);
    on_load = λ l v h. loaded-LoadEnds gcm json path dir reads l (next_outcome v.disk.outcomes) v h;
  }

  -- Whatever saves and loads are called, in whatever order and whatever the disk and the random
  -- source do, what comes of them is a trace of a cell that holds a list of sessions: a save that
  -- succeeds puts its list in, a load that succeeds yields the list that is in, and what fails
  -- changes nothing. JSON reads back every list that it writes.
  pub encrypted_persister-Trace :
      (cs : List Command) (l : List Session) (v : Vault)
      → HoldsSealed gcm json path dir l v
      → let out = run (encrypted_persister json path gcm dir) cs v in
        (l' : List Session) × Trace CfgError cs l out.0 l' × HoldsSealed gcm json path dir l' out.1
  encrypted_persister-Trace cs l v h =
      run-Trace (encrypted_persister json path gcm dir) (HoldsSealed gcm json path dir)
        encrypted_persister-Implements cs l v h

  healthy_load :
      (l : List Session) (v : Vault)
      → Holds gcm path dir (json.marshal l) v
      → load_sealed json path gcm dir (mended v) ≡ (ok l, mended v)
  unfolding load_sealed decrypt
  healthy_load l v h =
      rw h.in_file
        (rw (HasKey-mended dir h.sealed.key v h.sealed.has_key) (rw h.sealed.opens (rw reads refl)))

  saved_holds :
      (plain : Text) (v v' : Vault) (out : Result CfgError (Unit {0}) × Vault)
      → Replaces gcm path dir plain v out
      → out ≡ (ok tt, v')
      → Holds gcm path dir plain v'
  saved_holds plain v v' out (inl (_, h)) e = subst (λ o. Holds gcm path dir plain o.1) e h
  saved_holds plain v v' out (inr (_, r, _)) e = absurd (cc (r, ap (λ o. o.0) e))

  -- What a save that succeeded has put in is loaded on a disk that works.
  pub save_sealed-load_sealed :
      (l : List Session) (v v' : Vault)
      → save_sealed json path gcm dir l v ≡ (ok tt, v')
      → load_sealed json path gcm dir (mended v') ≡ (ok l, mended v')
  unfolding save_sealed
  save_sealed-load_sealed l v v' e = healthy_load l v' (
      saved_holds (json.marshal l) v v' (save_sealed json path gcm dir l v)
        (sealed_save-Replaces gcm unseals path dir beside (json.marshal l) v) e)

  -- A manager that is started again, on a disk that works, behind a save that succeeded finds under
  -- every id the session that was saved, whatever the disk did before. JSON reads back every list that
  -- it writes.
  pub save_sealed-new_manager :
      (u : Setup Vault CfgError) (ss : Sessions) (v v' : Vault)
      → u.store ≡ some (encrypted_persister json path gcm dir)
      → IsKeyed ss
      → save_sealed json path gcm dir (snapshot ss) v ≡ (ok tt, v')
      → (st : State Vault) × (new_manager u (mended v') ≡ ok st)
        × (st.mutex ≡ unlocked)
        × ((j : Text) → find j st.sessions ≡ find j ss)
  save_sealed-new_manager u ss v v' store keyed e =
      let (st, started, free, _, same) =
        new_manager-find u (encrypted_persister json path gcm dir) ss (mended v') (mended v') store
          (save_sealed-load_sealed (snapshot ss) v v' e) keyed in
      (st, started, free, same)
