-- ===== src/Config/Sealing.antt =====
-- What the store seals, it opens again, with a key that it has had, or has just made.
use flashaccess.Base.{
  ℕ, zero, suc, Text, text_eq_refl, false, Option, none, some, List, [], ◌∷◌, ◌++◌, Result, ok, err,
  ◌==◌, ==_iff, ltb, length, length-append, take, drop, find, find-put, ◌≡◌, refl, ap, subst, arith,
  Bool-cases, inl, inr,
}
use flashaccess.Disk.{
  IoOutcome, done, fails, healthy, next_outcome, seen, spent, written, write_file, make_dirs, made,
}
use flashaccess.Config.{
  Aead, Vault, CfgError, Act, fill, next_draw, later_draws, nonce_size, key_path, key_read, new_key,
  on_disk, lifted, master_key, encrypt, decrypt, open_sealed, draw, drawn, proceed, returns, ◌>>=◌,
  ◌>>◌,
}

-- the machine has its key
pub record HasKey (dir key : Text) (v : Vault) : Type 0 where
  pub stored : find (key_path dir) v.disk.files ≡ some key
  pub full : length key ≡ 32

-- the same files, on a disk that fails no more
abbrev pub mended : Vault → Vault
mended v = record v { disk = healthy v.disk }

pub length-fill : (n : ℕ) (bs : Text) → length (fill n bs) ≡ n
unfolding fill
length-fill zero bs = refl
length-fill (suc n) [] = ap suc (length-fill n [])
length-fill (suc n) (b ∷ bs) = ap suc (length-fill n bs)

-- What a call leaves: if it has returned a key, the machine has it.
abbrev pub Keyed : Text → Result CfgError Text × Vault → Type 0
Keyed dir (ok key, v) = HasKey dir key v
Keyed dir (err e, v) = Unit {0}

written-Keyed :
    (dir key : Text) (o : IoOutcome) (v : Vault)
    → length key ≡ 32
    → Keyed dir (proceed (lifted v (written o (key_path dir) key v.disk)) (λ _. returns (ok key)))
written-Keyed dir key done v h = record { stored = rw find-put (rw text_eq_refl refl); full = h }
written-Keyed dir key (fails left) v h = tt

abbrev keep_key : Text → Text → Act Text
keep_key dir key = on_disk (write_file (key_path dir) key) >> returns (ok key)

made-Keyed :
    (dir key : Text) (o : IoOutcome) (v : Vault)
    → length key ≡ 32
    → Keyed dir (proceed (lifted v (made o, spent v.disk)) (λ _. keep_key dir key))
made-Keyed dir key done v h = written-Keyed dir key _ (record v { disk = spent v.disk }) h
made-Keyed dir key (fails left) v h = tt

drawn-Keyed :
    (dir : Text) (e : Option Text) (v : Vault)
    → Keyed dir (proceed (drawn 32 e, v) (λ key. on_disk make_dirs >> keep_key dir key))
drawn-Keyed dir none v = tt
drawn-Keyed dir (some bs) v =
    made-Keyed dir (fill 32 bs) (next_outcome v.disk.outcomes) v (length-fill 32 bs)

new_key-Keyed : (dir : Text) (v : Vault) → Keyed dir (new_key (key_path dir) v)
new_key-Keyed dir v =
    drawn-Keyed dir (next_draw v.entropy) (record v { entropy = later_draws v.entropy })

key_read-Keyed :
    (dir : Text) (o : IoOutcome) (f : Option Text) (v : Vault)
    → find (key_path dir) v.disk.files ≡ f
    → Keyed dir (key_read (key_path dir) (lifted v (seen o f, spent v.disk)))
key_read-Keyed dir done (some content) v e = elim (Bool-cases (length content == 32)) [
  | inl b ↦ rw b (record { stored = e; full = (==_iff _ _).0 b })
  | inr b ↦ rw b tt
]
key_read-Keyed dir done none v e = new_key-Keyed dir (record v { disk = spent v.disk })
key_read-Keyed dir (fails _) f v e = tt

pub master_key-Keyed : (dir : Text) (v : Vault) → Keyed dir (master_key dir v)
unfolding master_key
master_key-Keyed dir v =
    key_read-Keyed dir (next_outcome v.disk.outcomes) (find (key_path dir) v.disk.files) v refl

pub HasKey-mended :
    (dir key : Text) (v : Vault)
    → HasKey dir key v
    → (master_key dir (mended v)) ≡ (ok key, mended v)
unfolding master_key
HasKey-mended dir key v h = rw h.stored (rw h.full refl)

pub take-append {ℓ} : {A : Type ℓ} (n : ℕ) (xs ys : List A) → length xs ≡ n → take n (xs ++ ys) ≡ xs
take-append zero [] ys h = refl
take-append zero (x ∷ xs) ys h = absurd (omega arith)
take-append (suc n) [] ys h = absurd (omega arith)
take-append (suc n) (x ∷ xs) ys h = ap (λ r. x ∷ r) (take-append n xs ys (omega arith))

pub drop-append {ℓ} : {A : Type ℓ} (n : ℕ) (xs ys : List A) → length xs ≡ n → drop n (xs ++ ys) ≡ ys
drop-append zero [] ys h = refl
drop-append zero (x ∷ xs) ys h = absurd (omega arith)
drop-append (suc n) [] ys h = absurd (omega arith)
drop-append (suc n) (x ∷ xs) ys h = drop-append n xs ys (omega arith)

module _ (gcm : Aead) where
  -- what a sealed text is worth: the machine has a key that opens it
  pub record IsSealed (dir plain sealed : Text) (v : Vault) : Type 0 where
    pub key : Text
    pub has_key : HasKey dir key v
    pub opens : open_sealed gcm key sealed ≡ ok plain

  abbrev pub Seals : Text → Text → Result CfgError Text × Vault → Type 0
  Seals dir plain (ok sealed, v) = IsSealed dir plain sealed v
  Seals dir plain (err e, v) = Unit {0}

module _ (gcm : Aead) (unseals : (k n p : Text) → gcm.unseal k n (gcm.seal k n p) ≡ some p) where
  pub open_sealed-seal :
      (key nonce plain : Text)
      → length nonce ≡ nonce_size
      → open_sealed gcm key (nonce ++ gcm.seal key nonce plain) ≡ ok plain
  open_sealed-seal key nonce plain h =
      let box = gcm.seal key nonce plain in
      let long : ltb (length (nonce ++ box)) nonce_size ≡ false =
        ground (arith, length-append nonce box) in
      rw long (
        rw (take-append nonce_size nonce box h)
          (rw (drop-append nonce_size nonce box h) (rw unseals refl)))

  nonce-Seals :
      (dir plain key : Text) (e : Option Text) (v : Vault)
      → HasKey dir key v
      → Seals gcm dir plain (
          proceed
            (drawn nonce_size e, v)
            (λ nonce. returns (ok (nonce ++ gcm.seal key nonce plain))))
  nonce-Seals dir plain key none v h = tt
  nonce-Seals dir plain key (some bs) v h = record {
    key = key;
    has_key = h;
    opens = open_sealed-seal key (fill nonce_size bs) plain (length-fill nonce_size bs);
  }

  held-Seals :
      (dir plain : Text) (out : Result CfgError Text × Vault)
      → Keyed dir out
      → Seals gcm dir plain (
          proceed out
            (λ key. draw nonce_size >>= λ nonce. returns (ok (nonce ++ gcm.seal key nonce plain))))
  held-Seals dir plain (err e, v) h = tt
  held-Seals dir plain (ok key, v) h =
      nonce-Seals dir plain key (next_draw v.entropy) (record v { entropy = later_draws v.entropy })
        (record { stored = h.stored; full = h.full })

  pub encrypt-Seals : (dir plain : Text) (v : Vault) → Seals gcm dir plain (encrypt gcm dir plain v)
  unfolding encrypt
  encrypt-Seals dir plain v = held-Seals dir plain (master_key dir v) (master_key-Keyed dir v)

  -- What `Encrypt` has sealed, with a key of the machine that it read or made, `Decrypt` opens
  -- again once the disk works, where the cipher opens what it seals.
  pub decrypt-encrypt :
      (dir plain sealed : Text) (v v' : Vault)
      → encrypt gcm dir plain v ≡ (ok sealed, v')
      → (decrypt gcm dir sealed (mended v')).0 ≡ ok plain
  unfolding decrypt
  decrypt-encrypt dir plain sealed v v' e =
      let s : IsSealed gcm dir plain sealed v' =
        subst (Seals gcm dir plain) e (encrypt-Seals dir plain v) in
      rw (HasKey-mended dir s.key v' s.has_key) s.opens
