-- ===== src/Web/Grants/Durable.antt =====
-- What the file of the permanent grants holds, whatever fails.
use flashaccess.Base.{
  Text, text_eq_iff, none, List, [], ◌∷◌, ◌++◌, Result, ok, err, find, ◌≡◌, ◌≢◌, refl, arith,
  Option-cases, inl, inr, ◌⊎◌,
}
use flashaccess.Disk.{Disk, IoError, io_error, healthy}
use flashaccess.Disk.Atomic.{Saved, write_atomically-Saved}
use flashaccess.Web.Grants.{
  PermanentGrant, GrantsJson, PermanentStore, new_permanent_store, save, add, remove_grant,
  without_first, with_id, get_grant,
}

with_id-without_first :
    (id j : Text) (gs : List PermanentGrant)
    → id ≢ j
    → with_id j (without_first id gs) ≡ with_id j gs
with_id-without_first id j [] n = refl
with_id-without_first id j (g ∷ gs) n =
    ground (arith, n, text_eq_iff g.id id, text_eq_iff g.id j, with_id-without_first id j gs n)

module _ (json : GrantsJson) where
  save-Saved :
      (ps : PermanentStore) (d : Disk) → Saved ps.path (json.marshal ps.grants) d (save json ps d)
  unfolding save
  save-Saved ps d = write_atomically-Saved ps.path (json.marshal ps.grants) d

  -- What an operation of the store does: it leaves the new grants `gs` in the store, and the file
  -- either holds them too, which a new store reads back, or, where an error is reported, is as it
  -- was before.
  pub record Durable (ps : PermanentStore) (d : Disk) (gs : List PermanentGrant)
      (out : Result IoError (Unit {0}) × PermanentStore × Disk) : Type 0 where
    pub in_memory : out.1 ≡ record ps { grants = gs }
    pub on_disk :
        ((out.0 ≡ ok tt) × ((new_permanent_store json ps.path (healthy out.2)).0 ≡ out.1))
        ⊎ ((out.0 ≡ err io_error) × (find ps.path out.2.files ≡ find ps.path d.files))

  saved-Durable :
      (ps : PermanentStore) (d : Disk) (gs : List PermanentGrant)
      → json.unmarshal (json.marshal gs) ≡ gs
      → Durable ps d gs (
        (save json (record ps { grants = gs }) d).0,
        record ps { grants = gs },
        (save json (record ps { grants = gs }) d).1,
      )
  unfolding new_permanent_store
  saved-Durable ps d gs reads_back = record {
    in_memory = refl;
    on_disk = elim (save-Saved (record ps { grants = gs }) d) [
      | inl (r, f) ↦ inl (r, rw f (rw reads_back refl))
      | inr (r, f) ↦ inr (r, f)
    ];
  }

  -- `Add`, where JSON reads back the new grants from what it writes: the grant stands last in the
  -- store. If success is reported, a store that is opened anew from the file is the same; if an
  -- error is, the file is as it was, whichever call of the disk has failed.
  pub add-Durable :
      (g : PermanentGrant) (ps : PermanentStore) (d : Disk)
      → json.unmarshal (json.marshal (ps.grants ++ g ∷ [])) ≡ ps.grants ++ g ∷ []
      → Durable ps d (ps.grants ++ g ∷ []) (add json g ps d)
  unfolding add
  add-Durable g ps d h = saved-Durable ps d (ps.grants ++ g ∷ []) h

  -- `Remove`, where JSON reads back the new grants from what it writes: every other id looks up as
  -- before. Without a grant of that id nothing happens. Else the first one is taken out of the
  -- store; if success is reported, a store that is opened anew from the file is the same, and if an
  -- error is, the file is as it was.
  remove_grant-Durable :
      (id : Text) (ps : PermanentStore) (d : Disk)
      → json.unmarshal (json.marshal (without_first id ps.grants)) ≡ without_first id ps.grants
      → (((get_grant id ps ≡ none) × (remove_grant json id ps d ≡ (ok tt, ps, d)))
          ⊎ Durable ps d (without_first id ps.grants) (remove_grant json id ps d))
        × ((j : Text) → id ≢ j → get_grant j (remove_grant json id ps d).1 ≡ get_grant j ps)
  unfolding remove_grant get_grant
  remove_grant-Durable id ps d h = elim (Option-cases (with_id id ps.grants)) [
    | inl e ↦ rw e (inl (refl, refl), λ j n. refl)
    | inr (g, e) ↦ rw e (
      inr (saved-Durable ps d (without_first id ps.grants) h),
      λ j n. with_id-without_first id j ps.grants n,
    )
  ]
