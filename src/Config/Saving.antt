-- ===== src/Config/Saving.antt =====
-- A sealed text that is saved in a file replaces what the file held, or the file and the key are
-- kept, whatever fails.
use flashaccess.Base.{
  Text, Option, none, some, ◌++◌, Result, ok, err, find, ◌≡◌, ◌≢◌, refl, sym, ◌∙◌, ap, inl, inr,
  ◌⊎◌,
}
use flashaccess.Disk.{
  Disk, IoOutcome, done, fails, IoError, next_outcome, seen, spent, write_file, make_dirs, made,
  written, write_atomically,
}
use flashaccess.Disk.Atomic.{
  Saved, IsElsewhere, write_atomically-Saved, write_atomically_elsewhere, find-put_elsewhere,
}
use flashaccess.Config.{
  Aead, Vault, CfgError, io, fill, next_draw, later_draws, nonce_size, key_path, key_read, on_disk,
  lifted, master_key, encrypt, draw, drawn, proceed, returns, ◌>>=◌, ◌>>◌,
}
use flashaccess.Config.Sealing.{HasKey, IsSealed, Seals, encrypt-Seals}

-- Between two states the file is as it was, and the machine keeps its key.
pub record Kept (path dir : Text) (v v' : Vault) : Type 0 where
  pub same_file : find path v'.disk.files ≡ find path v.disk.files
  pub same_key : (key : Text) → HasKey dir key v → HasKey dir key v'

pub Kept-trans :
    {path dir : Text} {a b c : Vault} → Kept path dir a b → Kept path dir b c → Kept path dir a c
Kept-trans f g = record {
  same_file = g.same_file ∙ f.same_file;
  same_key = λ key h. g.same_key key (f.same_key key h);
}

-- the same files
pub Kept_of_eq :
    {path dir : Text} {v v' : Vault} → v'.disk.files ≡ v.disk.files → Kept path dir v v'
Kept_of_eq {path} e = record {
  same_file = ap (find path) e;
  same_key = λ key h. record { stored = rw e h.stored; full = h.full };
}

module _ (path dir : Text) (apart : key_path dir ≢ path) where
  written-Kept :
      (o : IoOutcome) (key : Text) (v : Vault)
      → find (key_path dir) v.disk.files ≡ none
      → Kept path dir v
          (proceed (lifted v (written o (key_path dir) key v.disk)) (λ _. returns (ok key))).1
  written-Kept done key v n = record {
    same_file = find-put_elsewhere (key_path dir) path key v.disk.files apart;
    same_key = λ k h. absurd (cc (n, h.stored));
  }
  written-Kept (fails left) key v n = record {
    same_file = find-put_elsewhere (key_path dir) path left v.disk.files apart;
    same_key = λ k h. absurd (cc (n, h.stored));
  }

  made-Kept :
      (o : IoOutcome) (key : Text) (v : Vault)
      → find (key_path dir) v.disk.files ≡ none
      → Kept path dir v
          (proceed
            (lifted v (made o, spent v.disk))
            (λ _. on_disk (write_file (key_path dir) key) >> returns (ok key))).1
  made-Kept done key v n =
      Kept-trans (Kept_of_eq {v = v} refl) (written-Kept _ key (record v { disk = spent v.disk }) n)
  made-Kept (fails left) key v n = Kept_of_eq refl

  drawn-Kept :
      (e : Option Text) (v : Vault)
      → find (key_path dir) v.disk.files ≡ none
      → Kept path dir v
          (proceed
            (drawn 32 e, v)
            (λ key.
              on_disk make_dirs >> (on_disk (write_file (key_path dir) key) >> returns (ok key)))).1
  drawn-Kept none v n = Kept_of_eq refl
  drawn-Kept (some bs) v n = made-Kept (next_outcome v.disk.outcomes) (fill 32 bs) v n

  key_read-Kept :
      (o : IoOutcome) (f : Option Text) (v : Vault)
      → find (key_path dir) v.disk.files ≡ f
      → Kept path dir v (key_read (key_path dir) (lifted v (seen o f, spent v.disk))).1
  key_read-Kept done (some content) v e = Kept_of_eq refl
  key_read-Kept done none v e = Kept-trans (Kept_of_eq {v = v} refl) (
      drawn-Kept (next_draw v.entropy)
        (record v { disk = spent v.disk; entropy = later_draws v.entropy }) e)
  key_read-Kept (fails _) f v e = Kept_of_eq refl

  pub master_key-Kept : (v : Vault) → Kept path dir v (master_key dir v).1
  unfolding master_key
  master_key-Kept v =
      key_read-Kept (next_outcome v.disk.outcomes) (find (key_path dir) v.disk.files) v refl

  module _ (gcm : Aead) where
    drawn_nonce-Kept :
        (key plain : Text) (e : Option Text) (v : Vault)
        → Kept path dir v
            (proceed
              (drawn nonce_size e, record v { entropy = later_draws v.entropy })
              (λ nonce. returns (ok (nonce ++ gcm.seal key nonce plain)))).1
    drawn_nonce-Kept key plain none v = Kept_of_eq refl
    drawn_nonce-Kept key plain (some bs) v = Kept_of_eq refl

    nonce-Kept :
        (plain : Text) (out : Result CfgError Text × Vault) (v : Vault)
        → Kept path dir v out.1
        → Kept path dir v
            (proceed out (λ key.
              draw nonce_size >>= λ nonce. returns (ok (nonce ++ gcm.seal key nonce plain)))).1
    nonce-Kept plain (err e, v') v k = k
    nonce-Kept plain (ok key, v') v k =
        Kept-trans k (drawn_nonce-Kept key plain (next_draw v'.entropy) v')

    encrypt-Kept : (plain : Text) (v : Vault) → Kept path dir v (encrypt gcm dir plain v).1
    unfolding encrypt
    encrypt-Kept plain v = nonce-Kept plain (master_key dir v) v (master_key-Kept v)

module _ (gcm : Aead) (path dir : Text) where
  -- the file holds a sealed text, and the machine the key that opens it
  pub record Holds (plain : Text) (v : Vault) : Type 0 where
    pub content : Text
    pub in_file : find path v.disk.files ≡ some content
    pub sealed : IsSealed gcm dir plain content v

  -- How a save ends: the file holds the text, or an error is reported and all is kept.
  abbrev pub Replaces : Text → Vault → Result CfgError (Unit {0}) × Vault → Type 0
  Replaces plain v (r, v') =
      ((r ≡ ok tt) × Holds plain v') ⊎ ((e : CfgError) × (r ≡ err e) × Kept path dir v v')

  pub Replaces-from :
      (plain : Text) (v v1 : Vault) (out : Result CfgError (Unit {0}) × Vault)
      → v1.disk.files ≡ v.disk.files
      → Replaces plain v1 out
      → Replaces plain v out
  Replaces-from plain v v1 out e (inl h) = inl h
  Replaces-from plain v v1 out e (inr (r, f, k)) = inr (r, f, Kept-trans (Kept_of_eq e) k)

module _ (gcm : Aead) (unseals : (k n p : Text) → gcm.unseal k n (gcm.seal k n p) ≡ some p)
    (path dir : Text) (beside : IsElsewhere path (key_path dir)) where
  key_is_apart : key_path dir ≢ path
  key_is_apart e = beside.0 (sym e)

  lifted-Replaces :
      (plain sealed : Text) (v v1 : Vault) (out : Result IoError (Unit {0}) × Disk)
      → Kept path dir v v1
      → IsSealed gcm dir plain sealed v1
      → Saved path sealed v1.disk out
      → find (key_path dir) out.1.files ≡ find (key_path dir) v1.disk.files
      → Replaces gcm path dir plain v (lifted v1 out)
  lifted-Replaces plain sealed v v1 (ok _, d) k s (inl (r, f)) key = inl (
    refl,
    record {
      content = sealed;
      in_file = f;
      sealed = record {
        key = s.key;
        has_key = record { stored = key ∙ s.has_key.stored; full = s.has_key.full };
        opens = s.opens;
      };
    },
  )
  lifted-Replaces plain sealed v v1 (err e, d) k s (inl (r, f)) key = absurd (cc)
  lifted-Replaces plain sealed v v1 (ok _, d) k s (inr (r, f)) key = absurd (cc)
  lifted-Replaces plain sealed v v1 (err e, d) k s (inr (r, f)) key = inr (
    io e,
    refl,
    Kept-trans k (record {
      same_file = f;
      same_key = λ w h. record { stored = key ∙ h.stored; full = h.full };
    }),
  )

  sealed-Replaces :
      (plain : Text) (v : Vault) (out : Result CfgError Text × Vault)
      → Kept path dir v out.1
      → Seals gcm dir plain out
      → Replaces gcm path dir plain v
          (proceed out (λ sealed. on_disk (write_atomically path sealed)))
  sealed-Replaces plain v (err e, v1) k s = inr (e, refl, k)
  sealed-Replaces plain v (ok sealed, v1) k s =
      lifted-Replaces plain sealed v v1 (write_atomically path sealed v1.disk) k s
        (write_atomically-Saved path sealed v1.disk)
        (write_atomically_elsewhere path sealed (key_path dir) v1.disk beside)

  -- Sealing a text and saving it replaces what the file holds, or keeps it.
  pub sealed_save-Replaces :
      (plain : Text) (v : Vault)
      → Replaces gcm path dir plain v
          ((encrypt gcm dir plain >>= λ sealed. on_disk (write_atomically path sealed)) v)
  sealed_save-Replaces plain v =
      sealed-Replaces plain v (encrypt gcm dir plain v)
        (encrypt-Kept path dir key_is_apart gcm plain v) (encrypt-Seals gcm unseals dir plain v)
