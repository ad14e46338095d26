-- ===== src/Session/Keys/Verifying.antt =====
-- A stored hash admits what derives to the same bytes, and nothing else.
use flashaccess.Base.{
  ◌==◌, Text, text_eq, text_eq_refl, codes, true, not, Option, none, some, [], ◌∷◌, ◌++◌, ok,
  length, all_of, All, ◌≡◌, refl, ap, ◌∙◌, arith,
}
use flashaccess.Session.Keys.{
  Derivation, argon_costs, argon_version, key_len, encode, std_char, hash_text, hashed, hash_key,
  split_dollar, scan_version, scan_params, scan_digits, skip_blanks, behind_literal, with_parts,
  compared, verify_key,
}
use flashaccess.Session.Keys.Encoding.{IsByte, all_of-encode, std_char_is_no_dollar, decode-encode}

-- a part of a stored hash, which has no dollar
abbrev IsPart : Text → Type 0
IsPart s = all_of (λ c. not (c == b'$')) s ≡ true

split_dollar-append :
    (xs ys : Text) → IsPart xs → split_dollar (xs ++ b'$' ∷ ys) ≡ xs ∷ split_dollar ys
unfolding split_dollar
split_dollar-append [] ys h = refl
split_dollar-append (c ∷ xs) ys h = ground (arith, split_dollar-append xs ys)

split_dollar-last : (xs : Text) → IsPart xs → split_dollar xs ≡ xs ∷ []
unfolding split_dollar
split_dollar-last [] h = refl
split_dollar-last (c ∷ xs) h = ground (arith, split_dollar-last xs)

encode-IsPart : (bs : Text) → IsPart (encode std_char bs)
encode-IsPart bs = all_of-encode (λ c. not (c == b'$')) std_char std_char_is_no_dollar bs

split_dollar-hash_text :
    (salt hash : Text)
    → split_dollar (hash_text salt hash)
      ≡ []
        ∷ codes "argon2id"
        ∷ codes "v=19"
        ∷ codes "m=65536,t=3,p=4"
        ∷ encode std_char salt
        ∷ encode std_char hash
        ∷ []
split_dollar-hash_text salt hash =
    let rest = encode std_char salt ++ b'$' ∷ encode std_char hash in
    split_dollar-append [] (codes "argon2id$v=19$m=65536,t=3,p=4$" ++ rest) refl
    ∙ ap (λ l. [] ∷ l)
        (split_dollar-append (codes "argon2id") (codes "v=19$m=65536,t=3,p=4$" ++ rest) refl
          ∙ ap (λ l. codes "argon2id" ∷ l)
              (split_dollar-append (codes "v=19") (codes "m=65536,t=3,p=4$" ++ rest) refl
                ∙ ap (λ l. codes "v=19" ∷ l)
                    (split_dollar-append (codes "m=65536,t=3,p=4") rest refl
                      ∙ ap (λ l. codes "m=65536,t=3,p=4" ∷ l)
                          (split_dollar-append (encode std_char salt) (encode std_char hash)
                              (encode-IsPart salt)
                            ∙ ap (λ l. encode std_char salt ∷ l)
                                (split_dollar-last (encode std_char hash) (encode-IsPart hash))))))

scan_version-text : scan_version (codes "v=19") ≡ some argon_version
unfolding behind_literal skip_blanks scan_digits
scan_version-text = refl

scan_params-text : scan_params (codes "m=65536,t=3,p=4") ≡ some argon_costs
unfolding behind_literal skip_blanks scan_digits
scan_params-text = refl

module _ (derive : Derivation)
    (yields : (key salt hash : Text)
      → derive key salt argon_costs key_len ≡ some hash
      → (length hash ≡ key_len) × All IsByte hash) where
  verify_key-hash_text :
      (candidate salt hash : Text)
      → All IsByte salt
      → All IsByte hash
      → length hash ≡ key_len
      → verify_key derive candidate (hash_text salt hash)
        ≡ compared derive hash (derive candidate salt argon_costs key_len)
  unfolding verify_key text_eq
  verify_key-hash_text candidate salt hash hs hh n =
      ap (with_parts derive candidate) (split_dollar-hash_text salt hash)
      ∙ rw scan_version-text (
          rw scan_params-text (rw (decode-encode salt hs) (rw (decode-encode hash hh) (rw n refl))))

  made-hash :
      (key salt stored : Text) (o : Option Text)
      → hashed salt o ≡ ok stored
      → (hash : Text) × (o ≡ some hash) × (stored ≡ hash_text salt hash)
  made-hash key salt stored none e = absurd (cc)
  made-hash key salt stored (some hash) e = (hash, refl, ground arith)

  -- What `HashKey` stores for a key, with the salt that was drawn, `VerifyKey` holds against any
  -- candidate as the comparison of what the two derive to under that salt; so the key itself is
  -- admitted. What is derived is of the length asked for, in bytes.
  pub verify_key-hash_key :
      (key candidate salt stored : Text)
      → All IsByte salt
      → hash_key derive key (some salt) ≡ ok stored
      → (hash : Text) × (derive key salt argon_costs key_len ≡ some hash)
        × (verify_key derive candidate stored
            ≡ compared derive hash (derive candidate salt argon_costs key_len))
        × (verify_key derive key stored ≡ ok true)
  unfolding hash_key
  verify_key-hash_key key candidate salt stored hs e =
      let (hash, made, same) = made-hash key salt stored (derive key salt argon_costs key_len) e in
      let (n, hh) = yields key salt hash made in
      (
        hash,
        made,
        rw same (verify_key-hash_text candidate salt hash hs hh n),
        rw same (verify_key-hash_text key salt hash hs hh n ∙ rw made (rw text_eq_refl refl)),
      )
