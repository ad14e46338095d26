-- ===== src/Tests/Keys.antt =====
-- The theorem on the stored hash of a key, with the bytes of the key for what is derived from it.
use flashaccess.Base.{
  ℕ, zero, suc, ◌%◌, Text, codes, true, some, [], ◌∷◌, ok, length, map, All, ◌≡◌, refl, arith,
}
use flashaccess.Config.{fill}
use flashaccess.Config.Sealing.{length-fill}
use flashaccess.Session.Keys.{
  Derivation, argon_costs, key_len, hash_text, hash_key, compared, verify_key,
}
use flashaccess.Session.Keys.Encoding.{IsByte}
use flashaccess.Session.Keys.Verifying.{verify_key-hash_key}

abbrev reduced : Text → Text
reduced = map (λ c. c % 256)

abbrev pub padded : Derivation
padded key salt costs n = some (fill n (reduced key))

pub fill-IsByte : (n : ℕ) (s : Text) → All IsByte (fill n (reduced s))
unfolding fill
fill-IsByte zero s = tt
fill-IsByte (suc n) [] = (omega arith, fill-IsByte n [])
fill-IsByte (suc n) (c ∷ s) = (omega arith, fill-IsByte n s)

pub padded_yields :
    (key salt hash : Text)
    → padded key salt argon_costs key_len ≡ some hash
    → (length hash ≡ key_len) × All IsByte hash
padded_yields key salt hash e =
    let same : fill key_len (reduced key) ≡ hash = ground (arith, e) in
    rw⁻¹ same (length-fill key_len (reduced key), fill-IsByte key_len key)

abbrev pub salt : Text
salt = fill 16 (reduced (codes "salt"))

verify_key-hash_key_example :
    (hash : Text) × (padded (codes "right") salt argon_costs key_len ≡ some hash)
    × (verify_key padded (codes "wrong") (hash_text salt (fill 32 (codes "right")))
        ≡ compared padded hash (padded (codes "wrong") salt argon_costs key_len))
    × (verify_key padded (codes "right") (hash_text salt (fill 32 (codes "right"))) ≡ ok true)
unfolding hash_key
verify_key-hash_key_example =
    verify_key-hash_key padded padded_yields (codes "right") (codes "wrong") salt
      (hash_text salt (fill 32 (codes "right"))) (fill-IsByte 16 (codes "salt")) refl
