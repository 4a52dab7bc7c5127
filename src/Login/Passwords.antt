-- ===== src/Login/Passwords.antt =====
-- Stored passwords of auth.py: what is hashed is verified again, and what the policy lets through.
use domain_lens.Prelude.{
  ℕ, zero, suc, ◌≡◌, refl, true, false, some, List, [], ◌∷◌, ◌++◌, ◌==◌, Text, codes, text_eq_self,
  All,
}
use domain_lens.Login.{Crypto, split, hash_password, verify_password, hash_prefix, hash_iterations}

-- A text without the separator.
abbrev pub IsPlain : Text → Type 0
IsPlain s = All (λ c. (c == b'$') ≡ false) s

split-plain : (n : ℕ) (s : Text) → IsPlain s → split n s ≡ s ∷ []
unfolding split
split-plain zero [] h = refl
split-plain zero (c ∷ s) h = refl
split-plain (suc n) [] h = refl
split-plain (suc n) (c ∷ s) h = rw (h.0, split-plain (suc n) s (h.1)) refl

split-part :
    (n : ℕ) (s rest : Text) → IsPlain s → split (suc n) (s ++ b'$' ∷ rest) ≡ s ∷ split n rest
unfolding split
split-part n [] rest h = refl
split-part n (c ∷ s) rest h = rw (h.0, split-part n s rest (h.1)) refl

prefix-IsPlain : IsPlain hash_prefix
prefix-IsPlain = (
  refl,
  (
    refl,
    (refl, (refl, (refl, (refl, (refl, (refl, (refl, (refl, (refl, (refl, (refl, tt))))))))))),
  ),
)

iterations-IsPlain : IsPlain (codes "390000")
iterations-IsPlain = (refl, (refl, (refl, (refl, (refl, (refl, tt))))))

split-hash :
    (crypto : Crypto) (salt : List ℕ) (password : Text)
    → ((bytes : List ℕ) → IsPlain (crypto.b64encode bytes))
    → split 3 (hash_password crypto salt password)
      ≡ hash_prefix
        ∷ codes "390000"
        ∷ crypto.b64encode salt
        ∷ crypto.b64encode (crypto.pbkdf2 password salt hash_iterations)
        ∷ []
unfolding hash_password
split-hash crypto salt password plain =
    let hash = crypto.b64encode (crypto.pbkdf2 password salt hash_iterations) in
    rw
      (
        split-part 2 hash_prefix (codes "390000" ++ (b'$' ∷ (crypto.b64encode salt ++ b'$' ∷ hash)))
            prefix-IsPlain,
        split-part 1 (codes "390000") (crypto.b64encode salt ++ b'$' ∷ hash) iterations-IsPlain,
        split-part 0 (crypto.b64encode salt) hash (plain salt),
        split-plain 0 hash (plain (crypto.pbkdf2 password salt hash_iterations)),
      )
      refl

-- A password is verified against its own hash, with any salt, if Base64 and `int` read back what
-- was written, and Base64 writes no dollar sign.
pub verify_password-hash :
    (crypto : Crypto) (salt : List ℕ) (password : Text)
    → ((bytes : List ℕ) → crypto.b64decode (crypto.b64encode bytes) ≡ some bytes)
    → ((bytes : List ℕ) → IsPlain (crypto.b64encode bytes))
    → crypto.int_of (codes "390000") ≡ some hash_iterations
    → verify_password crypto password (hash_password crypto salt password) ≡ true
unfolding verify_password
verify_password-hash crypto salt password decoded plain count =
    rw
      (
        split-hash crypto salt password plain,
        text_eq_self hash_prefix,
        decoded salt,
        decoded (crypto.pbkdf2 password salt hash_iterations),
        count,
        text_eq_self (crypto.pbkdf2 password salt hash_iterations),
      )
      refl
