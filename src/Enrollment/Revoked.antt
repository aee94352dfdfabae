-- ===== src/Enrollment/Revoked.antt =====
-- app/backend/enrollment.py: a code is good until it is rotated or revoked, and never again.
use studiohub_mac.Prelude.{
  ℕ, ◌≡◌, ◌≢◌, ◌⊎◌, inl, inr, refl, sym, subst, Bool, true, ◌&&◌, ◌||◌, Option, none, some, List,
  [], ◌∷◌, ◌++◌, map, arith, ◌==◌, any, is_some, Bool-cases, Option-cases,
}
use studiohub_mac.Enrollment.{
  Settings, Code, Store, accepted, is_active, revoke_row, new_code, create_enrollment_code,
  find_code, update_code, used_row, refusal, claim_row, claim_found, claim_enrollment_code,
  revoke_enrollment_credential, Call, creates, claims, revokes, step, run,
}

-- The row of a hash is a permanent code that was revoked.
abbrev IsRevokedRow : Option Code → Type 0
IsRevokedRow none = ⊥
IsRevokedRow (some r) = (r.is_permanent && is_some r.revoked_at) ≡ true

abbrev pub IsRevoked : ℕ → List Code → Type 0
IsRevoked h rows = IsRevokedRow (find_code h rows)

IsRevoked-map :
    (now h : ℕ) (rows : List Code) → IsRevoked h rows → IsRevoked h (map (revoke_row now) rows)
unfolding find_code revoke_row is_active
IsRevoked-map now h [] r = r
IsRevoked-map now h (x ∷ rows) r = ground (arith, IsRevoked-map now h rows)

IsRevoked-append : (h : ℕ) (rows more : List Code) → IsRevoked h rows → IsRevoked h (rows ++ more)
unfolding find_code
IsRevoked-append h [] more r = absurd r
IsRevoked-append h (x ∷ rows) more r = elim (Bool-cases (x.code_hash == h)) [
  | inl e ↦ rw e (rw e at r)
  | inr e ↦ rw e (IsRevoked-append h rows more (rw e at r))
]

IsRevoked-update :
    (now k h : ℕ) (rows : List Code)
    → IsRevoked h rows
    → IsRevoked h (update_code k (used_row now) rows)
unfolding find_code update_code used_row
IsRevoked-update now k h [] r = r
IsRevoked-update now k h (x ∷ rows) r = ground (arith, IsRevoked-update now k h rows)

-- Whatever its answer, a claim only counts a use of some row.
claim_codes :
    (hash : ℕ → ℕ) (valid : ℕ → Bool) (settings : Settings) (has_token : Bool) (code now h : ℕ)
    (s : Store)
    → IsRevoked h s.codes
    → IsRevoked h (claim_enrollment_code hash valid settings has_token code now s).0.codes
unfolding claim_enrollment_code claim_found claim_row
claim_codes hash valid settings has_token code now h s r =
    elim (Bool-cases settings.is_controller) [
      | inr a ↦ rw a r
      | inl a ↦ elim (Bool-cases (valid code)) [
        | inr b ↦ rw (a, b) r
        | inl b ↦ elim (Option-cases (find_code (hash code) s.codes)) [
          | inl c ↦ rw (a, b, c) r
          | inr (x, c) ↦ elim (Option-cases (refusal settings has_token now x)) [
            | inl d ↦ rw (a, b, c, d) (IsRevoked-update now (hash code) h s.codes r)
            | inr (e, d) ↦ rw (a, b, c, d) r
          ]
        ]
      ]
    ]

-- A code is not created, or the table is rotated and gets its row.
pub create-cases :
    (hash : ℕ → ℕ) (settings : Settings) (id code now : ℕ) (s : Store)
    → (((create_enrollment_code hash settings id code now s).0 ≡ s)
        × ((create_enrollment_code hash settings id code now s).1 ≢ accepted))
      ⊎ ((create_enrollment_code hash settings id code now s).0.codes
          ≡ map (revoke_row now) s.codes ++ new_code settings id (hash code) now ∷ [])
unfolding create_enrollment_code
create-cases hash settings id code now s = elim (Bool-cases settings.is_controller) [
  | inr a ↦ rw a (inl (refl, λ e. ground arith))
  | inl a ↦ elim (Bool-cases (any (λ x. x.id == id || x.code_hash == hash code) s.codes)) [
    | inl b ↦ simp (a, b) (inl (refl, λ e. ground arith))
    | inr b ↦ simp (a, b) (inr refl)
  ]
]

dropped_codes :
    (settings : Settings) (now h : ℕ) (s : Store)
    → IsRevoked h s.codes
    → IsRevoked h (revoke_enrollment_credential settings now s).0.codes
unfolding revoke_enrollment_credential
dropped_codes settings now h s r = elim (Bool-cases settings.is_controller) [
  | inr a ↦ rw a r
  | inl a ↦ rw a (IsRevoked-map now h s.codes r)
]

step-IsRevoked :
    (hash : ℕ → ℕ) (valid : ℕ → Bool) (h : ℕ) (s : Store) (c : ℕ × Settings × Call)
    → IsRevoked h s.codes
    → IsRevoked h (step hash valid s c).codes
unfolding step
step-IsRevoked hash valid h s (now, settings, creates id code) r =
    elim (create-cases hash settings id code now s) [
      | inl (e, n) ↦ subst (λ t. IsRevoked h t.codes) (sym e) r
      | inr e ↦ subst (IsRevoked h) (sym e) (
          IsRevoked-append h (map (revoke_row now) s.codes)
            (new_code settings id (hash code) now ∷ []) (IsRevoked-map now h s.codes r))
    ]
step-IsRevoked hash valid h s (now, settings, claims has_token code) r =
    claim_codes hash valid settings has_token code now h s r
step-IsRevoked hash valid h s (now, settings, revokes) r = dropped_codes settings now h s r

run-IsRevoked :
    (hash : ℕ → ℕ) (valid : ℕ → Bool) (h : ℕ) (s : Store) (cs : List (ℕ × Settings × Call))
    → IsRevoked h s.codes
    → IsRevoked h (run hash valid s cs).codes
unfolding run
run-IsRevoked hash valid h s [] r = r
run-IsRevoked hash valid h s (c ∷ cs) r =
    run-IsRevoked hash valid h (step hash valid s c) cs (step-IsRevoked hash valid h s c r)

-- A permanent code that stands in the table is revoked by the pass of a rotation.
map-IsRevoked :
    (now h : ℕ) (rows : List Code) (r : Code)
    → find_code h rows ≡ some r
    → r.is_permanent ≡ true
    → IsRevoked h (map (revoke_row now) rows)
unfolding find_code revoke_row is_active
map-IsRevoked now h [] r f p = cc
map-IsRevoked now h (x ∷ rows) r f p = elim (Bool-cases (x.code_hash == h)) [
  | inl e ↦
      let first : some x ≡ some r = rw e at f in
      let same : x.is_permanent ≡ r.is_permanent = cc in ground arith
  | inr e ↦
      let later : find_code h rows ≡ some r = rw e at f in
      ground (arith, map-IsRevoked now h rows r later p)
]

revoked_refused :
    (hash : ℕ → ℕ) (valid : ℕ → Bool) (settings : Settings) (has_token : Bool) (code now : ℕ)
    (s : Store)
    → IsRevoked (hash code) s.codes
    → ((claim_enrollment_code hash valid settings has_token code now s).0 ≡ s)
      × ((claim_enrollment_code hash valid settings has_token code now s).1 ≢ accepted)
unfolding claim_enrollment_code claim_found claim_row refusal
revoked_refused hash valid settings has_token code now s r =
    elim (Bool-cases settings.is_controller) [
      | inr a ↦ rw a (refl, λ e. ground arith)
      | inl a ↦ elim (Bool-cases (valid code)) [
        | inr b ↦ rw (a, b) (refl, λ e. ground arith)
        | inl b ↦ elim (Option-cases (find_code (hash code) s.codes)) [
          | inl c ↦ rw (a, b, c) (refl, λ e. ground arith)
          | inr (x, c) ↦
              let row : (x.is_permanent && is_some x.revoked_at) ≡ true = rw c at r in
              rw (a, b, c, row) (refl, λ e. ground arith)
        ]
      ]
    ]

-- Once a rotation or a revocation of the Hub went through, a permanent code that it found is never
-- accepted again, whatever is called then, by whatever settings and at whatever time: a claim of it
-- changes nothing.
pub revoked_stays :
    (hash : ℕ → ℕ) (valid : ℕ → Bool) (settings other : Settings) (has_token : Bool)
    (code now later id fresh : ℕ) (s : Store) (r : Code) (cs : List (ℕ × Settings × Call))
    → find_code (hash code) s.codes ≡ some r
    → r.is_permanent ≡ true
    → settings.is_controller ≡ true
    → (create_enrollment_code hash settings id fresh now s).1 ≡ accepted
    → let rotated = run hash valid (create_enrollment_code hash settings id fresh now s).0 cs in
      let dropped = run hash valid (revoke_enrollment_credential settings now s).0 cs in
      ((claim_enrollment_code hash valid other has_token code later rotated).0 ≡ rotated)
      × ((claim_enrollment_code hash valid other has_token code later rotated).1 ≢ accepted)
      × ((claim_enrollment_code hash valid other has_token code later dropped).0 ≡ dropped)
      × ((claim_enrollment_code hash valid other has_token code later dropped).1 ≢ accepted)
revoked_stays hash valid settings other has_token code now later id fresh s r cs f p role done =
    let gone = map-IsRevoked now (hash code) s.codes r f p in
    let rotated : IsRevoked (hash code)
        (create_enrollment_code hash settings id fresh now s).0.codes =
      elim (create-cases hash settings id fresh now s) [
        | inl (e, n) ↦ absurd (n done)
        | inr e ↦ subst (IsRevoked (hash code)) (sym e) (
            IsRevoked-append (hash code) (map (revoke_row now) s.codes)
              (new_code settings id (hash fresh) now ∷ []) gone)
      ] in
    let dropped : IsRevoked (hash code) (revoke_enrollment_credential settings now s).0.codes =
      unfold revoke_enrollment_credential in rw role gone in
    let a =
      revoked_refused hash valid other has_token code later
        (run hash valid (create_enrollment_code hash settings id fresh now s).0 cs)
        (run-IsRevoked hash valid (hash code) _ cs rotated) in
    let b =
      revoked_refused hash valid other has_token code later
        (run hash valid (revoke_enrollment_credential settings now s).0 cs)
        (run-IsRevoked hash valid (hash code) _ cs dropped) in
    (a.0, a.1, b.0, b.1)
