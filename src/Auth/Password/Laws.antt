-- ===== src/Auth/Password/Laws.antt =====
-- The owner password and the verifier of a controller: app/backend/auth.py.
use studiohub_mac.Prelude.{
  ℕ, ◌<◌, ◌≡◌, ◌≢◌, refl, true, false, Option, none, some, List, [], ◌∷◌, ap, ap₂, ◌∙◌, inl, inr,
  Option-cases, arith, Bool-cases, list_eq_refl, list_eq_sound, ◌↔◌,
}
use studiohub_mac.Auth.Password.{
  Files, default_owner_password, filled, password_configured, mode_of, password_mode, is_ascii,
  compare_texts, default_password_accepted, valid_field, Verifier, install_password_verifier,
  Crypto, IsLawful, set_owner_password, digest_matches, decode, check_password,
  verify_owner_password, unmarked, default, custom, inherited,
}

default_refused :
    (offered : Option (List ℕ)) (f : Files)
    → password_configured f ≡ true
    → default_password_accepted offered f ≡ some false
unfolding default_password_accepted
default_refused none f h = refl
default_refused (some password) f h = rw h

filled_of_ne : (xs : List ℕ) → xs ≢ [] → filled (some xs) ≡ true
filled_of_ne [] h = absurd (h refl)
filled_of_ne (x ∷ xs) h = refl

custom_kept :
    (v : Option Verifier) (f : Files)
    → password_mode f ≡ custom
    → install_password_verifier v f ≡ (false, f)
unfolding install_password_verifier
custom_kept none f h = refl
custom_kept (some v) f h = rw h (ground arith)

stored_by :
    (c : Crypto) (salt password : List ℕ) (f g : Files)
    → set_owner_password c salt password f ≡ some g
    → (digest : List ℕ) × (c.scrypt password salt ≡ some digest)
      × (g.password.salt ≡ some (c.hex salt))
      × (g.password.digest ≡ some (c.hex digest))
      × (g.password.source ≡ unmarked)
      × (g.sessions ≡ [])
unfolding set_owner_password
stored_by c salt password f g h = elim (Option-cases (c.scrypt password salt)) [
  | inl p ↦ absurd (ground arith)
  | inr (digest, p) ↦ (digest, p, ground arith, ground arith, ground arith, ground arith)
]

configured_by :
    (c : Crypto) (salt digest : List ℕ) (g : Files)
    → IsLawful c
    → salt ≢ []
    → digest ≢ []
    → g.password.salt ≡ some (c.hex salt)
    → g.password.digest ≡ some (c.hex digest)
    → password_configured g ≡ true
unfolding password_configured
configured_by c salt digest g law s d p q =
    rw (ap filled p, ap filled q, law.hex_filled salt s, law.hex_filled digest d) refl

-- A password that was set is the owner's, if the salt is not empty, scrypt gives no empty digest
-- and the hexadecimal text of bytes reads back: it signs in, the mode is custom, every remembered
-- browser is forgotten, the shipped default is refused, and no verifier from a controller replaces
-- it.
pub set_owner_password_lem :
    (c : Crypto) (salt password : List ℕ) (f g : Files) (v : Option Verifier)
    (offered : Option (List ℕ))
    → IsLawful c
    → salt ≢ []
    → set_owner_password c salt password f ≡ some g
    → (verify_owner_password c password g ≡ true)
      × (password_mode g ≡ custom)
      × (g.sessions ≡ [])
      × (default_password_accepted offered g ≡ some false)
      × (install_password_verifier v g ≡ (false, g))
unfolding verify_owner_password password_mode
set_owner_password_lem c salt password f g v offered law ne h =
    let (digest, made, p, q, r, cleared) = stored_by c salt password f g h in
    let configured : password_configured g ≡ true =
      configured_by c salt digest g law ne (λ e. law.scrypt_filled password salt (made ∙ ap some e))
        p q in
    let mode : password_mode g ≡ custom = rw configured (ap mode_of r) in
    (
      ap₂ (check_password c password) (ap (decode c) p ∙ law.from_hex-hex salt)
            (ap (decode c) q ∙ law.from_hex-hex digest)
          ∙ ap (λ o. digest_matches o digest) made
          ∙ list_eq_refl digest,
      mode,
      cleared,
      default_refused offered g configured,
      custom_kept v g mode,
    )

valid_field-filled :
    (low high : ℕ) (o : Option (List ℕ)) → 0 < low → valid_field low high o ≡ true → filled o ≡ true
unfolding valid_field
valid_field-filled low high none le h = cc
valid_field-filled low high (some []) le h = ground arith
valid_field-filled low high (some (x ∷ xs)) le h = refl

-- A verifier is installed only where the owner chose no password; it ends the default password and
-- every remembered browser, and the mode is then inherited.
pub install_password_verifier_lem :
    (v : Option Verifier) (f g : Files) (offered : Option (List ℕ))
    → install_password_verifier v f ≡ (true, g)
    → (password_mode f ≢ custom)
      × (password_mode g ≡ inherited)
      × (g.sessions ≡ [])
      × (default_password_accepted offered g ≡ some false)
unfolding install_password_verifier
install_password_verifier_lem none f g offered h = cc
install_password_verifier_lem (some v) f g offered h =
    let salt = valid_field-filled 16 256 v.salt (omega arith) in
    let digest = valid_field-filled 32 1024 v.digest (omega arith) in
    let configured : password_configured g ≡ true = ground (arith, salt, digest) in
    (
      λ e. ground arith,
      ground (arith, configured),
      ground arith,
      default_refused offered g configured,
    )

compare_texts_self : (cs : List ℕ) → is_ascii cs ≡ true → compare_texts cs cs ≡ some true
unfolding compare_texts
compare_texts_self cs h = rw (h, list_eq_refl cs) refl

compare_texts-equal : (cs ds : List ℕ) → compare_texts cs ds ≡ some true → cs ≡ ds
unfolding compare_texts
compare_texts-equal cs ds h = list_eq_sound cs ds (ground arith)

compare_texts_raises :
    (cs : List ℕ) → (compare_texts cs default_owner_password ≡ none) ↔ (is_ascii cs ≡ false)
unfolding compare_texts
compare_texts_raises cs = (λ h. ground arith, λ h. rw h refl)

-- The default password signs in exactly when it is offered and no password is configured; the test
-- raises instead of refusing exactly when none is configured and the offered text is not ASCII.
pub default_password_iff :
    (password : List ℕ) (f : Files)
    → ((default_password_accepted (some password) f ≡ some true)
        ↔ ((password_mode f ≡ default) × (password ≡ default_owner_password)))
      × ((default_password_accepted (some password) f ≡ none)
          ↔ ((password_mode f ≡ default) × (is_ascii password ≡ false)))
unfolding default_password_accepted password_mode mode_of
default_password_iff password f = elim (Bool-cases (password_configured f)) [
  | inl p ↦
      ((λ h. ground arith, λ (m, e). ground arith), (λ h. ground arith, λ (m, e). ground arith))
  | inr p ↦ (
    (
      λ h. (rw p refl, compare_texts-equal password default_owner_password (rw p at h)),
      λ (m, e). rw (p, e) (compare_texts_self default_owner_password refl),
    ),
    (
      λ h. (rw p refl, (compare_texts_raises password).0 (rw p at h)),
      λ (m, e). rw p ((compare_texts_raises password).1 e),
    ),
  )
]
