-- ===== src/Web/Site/Access/Granting.antt =====
-- `handlePermanentGrant` and `handlePermanentRevoke`, and what they leave.
use flashaccess.Base.{
  List, All, ◌≢◌, Text, codes, some, [], ◌∷◌, ◌++◌, Result, ok, err, ℕ, trim_space, ◌≡◌, refl,
  Bool-cases, inl, inr, ◌⊎◌,
}
use flashaccess.Mysql.Driver.{Driver, DbError}
use flashaccess.Mysql.Accounts.{create_admin_user}
use flashaccess.Session.Lock.{returns}
use flashaccess.Web.Forms.{Values, form_value}
use flashaccess.Web.Grants.{PermanentGrant, add}
use flashaccess.Web.Site.{App, Call, Site, redirect_db, driver_of, with_driver}
use flashaccess.Web.Site.Access.{grant_of, granted, opens, handle_permanent_grant}

-- The second list is the first without `g`, which has the id, and which no grant with the id stands
-- before.
abbrev pub TakenOut : Text → PermanentGrant → List PermanentGrant → List PermanentGrant → Type 0
TakenOut id g gs gs' =
    (before : List PermanentGrant) × (after : List PermanentGrant) × (gs ≡ before ++ g ∷ after)
    × (gs' ≡ before ++ after)
    × (g.id ≡ id)
    × All (λ h. h.id ≢ id) before

module _ {E : Type 0} (app : App E) where
  -- What stands behind a grant: the account's statements were the last that were sent, and the
  -- grant was added.
  abbrev pub Added : PermanentGrant → Site → Driver → Site → Type 0
  Added g s d s' = (driver_of s' ≡ d) × (s'.grants.grants ≡ s.grants.grants ++ g ∷ [])

  granted-Added :
      (f : Values) (g : PermanentGrant) (s : Site)
      → Added g s (driver_of s) (granted app f g (ok tt) s).1
  unfolding add
  granted-Added f g s = elim (Bool-cases (opens app f g.allowed_cidr)) [
    | inl e ↦ rw e (refl, refl)
    | inr e ↦ rw e (refl, refl)
  ]

  -- `handlePermanentGrant` on a form that parses: the account's creation fails, its error is shown,
  -- and nothing but its statements has come of the request; or it succeeds and the grant stands
  -- in the list, whatever the firewall and the file of the grants do.
  pub handle_permanent_grant-Added :
      (c : Call) (id : Text) (now : ℕ) (f : Values) (s : Site)
      → c.form ≡ some f
      → let g = grant_of app f id now in
        let made =
          create_admin_user g.db_user g.db_host
            (trim_space (form_value (codes "password") f))
            g.priv_level
            (driver_of s) in
        ((e : DbError) × (made.0 ≡ err e)
          × (handle_permanent_grant app c id now s
              ≡ (returns (redirect_db (codes "/permanent?error=") e), with_driver s made.1)))
        ⊎ ((made.0 ≡ ok tt) × Added g s made.1 (handle_permanent_grant app c id now s).1)
  unfolding handle_permanent_grant
  handle_permanent_grant-Added c id now f s h = rw h (ends _ _ s)
    where
      ends :
          (r : Result DbError (Unit {0})) (d : Driver) (s : Site)
          → ((e : DbError) × (r ≡ err e)
              × (granted app f (grant_of app f id now) r (with_driver s d)
                  ≡ (returns (redirect_db (codes "/permanent?error=") e), with_driver s d)))
            ⊎ ((r ≡ ok tt)
                × Added
                    (grant_of app f id now)
                    s
                    d
                    (granted app f (grant_of app f id now) r (with_driver s d)).1)
      ends (ok _) d s = inr (refl, granted-Added f (grant_of app f id now) (with_driver s d))
      ends (err e) d s = inl (e, refl, refl)
