-- ===== src/Enrollment/Rotated.antt =====
-- app/backend/enrollment.py: one code is good at a time, the one that the Hub shows.
use studiohub_mac.Prelude.{
  ℕ, ◌≡◌, inl, inr, refl, Bool, true, false, ◌||◌, Option, none, some, List, [], ◌∷◌, ◌++◌, map,
  arith, ◌==◌, any, Bool-cases, ==_self,
}
use studiohub_mac.Enrollment.{
  Settings, Code, Store, accepted, not_controller, integrity_error, is_active, revoke_row, new_code,
  create_enrollment_code, find_code, refusal, claim_row, claim_found, claim_enrollment_code, later,
  active_code, revealed, revealed_code,
}

none_active : (now : ℕ) (rows : List Code) → active_code (map (revoke_row now) rows) ≡ none
unfolding active_code revoke_row is_active
none_active now [] = refl
none_active now (r ∷ rows) = ground (arith, none_active now rows)

active-append :
    (rows : List Code) (r : Code)
    → active_code rows ≡ none
    → is_active r ≡ true
    → active_code (rows ++ r ∷ []) ≡ some r
unfolding active_code later
active-append [] r h a = rw a refl
active-append (x ∷ rows) r h a = elim (Bool-cases (is_active x)) [
  | inl p ↦ absurd (busy (active_code rows) (rw p at h))
  | inr p ↦ rw p (active-append rows r (rw p at h) a)
]
  where
    busy : (o : Option Code) → later x o ≡ none → ⊥
    busy none e = ground arith
    busy (some q) e = ground arith

find-append :
    (now id h : ℕ) (rows : List Code) (r : Code)
    → any (λ x. x.id == id || x.code_hash == h) rows ≡ false
    → (r.code_hash == h) ≡ true
    → find_code h (map (revoke_row now) rows ++ r ∷ []) ≡ some r
unfolding find_code revoke_row is_active
find-append now id h [] r n p = rw p refl
find-append now id h (x ∷ rows) r n p = ground (arith, find-append now id h rows r)

created_codes :
    (hash : ℕ → ℕ) (settings : Settings) (id code now : ℕ) (s : Store)
    → (create_enrollment_code hash settings id code now s).1 ≡ accepted
    → (any (λ x. x.id == id || x.code_hash == hash code) s.codes ≡ false)
      × ((create_enrollment_code hash settings id code now s).0 ≡ record {
        codes = map (revoke_row now) s.codes ++ new_code settings id (hash code) now ∷ [];
        saved = some (record { id = id; code = code });
      })
unfolding create_enrollment_code
created_codes hash settings id code now s h = elim (Bool-cases settings.is_controller) [
  | inr a ↦ (let e : not_controller ≡ accepted = simp (a) at h in cc)
  | inl a ↦ elim (Bool-cases (any (λ x. x.id == id || x.code_hash == hash code) s.codes)) [
    | inl b ↦ (let e : integrity_error ≡ accepted = simp (a, b) at h in cc)
    | inr b ↦ (b, simp (a, b))
  ]
]

module _ (hash : ℕ → ℕ) (valid : ℕ → Bool) (settings : Settings) (id code now : ℕ) (t : Store)
    (role : settings.is_controller ≡ true) (form : valid code ≡ true) where
  shown :
      active_code t.codes ≡ some (new_code settings id (hash code) now)
      → t.saved ≡ some (record { id = id; code = code })
      → revealed_code hash valid settings t ≡ some code
  unfolding revealed_code revealed new_code
  shown a f = simp (role, a, f, form, ==_self)

  claimed :
      (at : ℕ)
      → find_code (hash code) t.codes ≡ some (new_code settings id (hash code) now)
      → (claim_enrollment_code hash valid settings true code at t).1 ≡ accepted
  unfolding claim_enrollment_code claim_found refusal claim_row new_code
  claimed at f = simp (role, form, f, ==_self)

-- A code that was just created is the one that the status reveals, and a claim of it with the same
-- settings is accepted while the Hub has a fleet token, if the code has the form of codes.
pub create_enrollment_code_lem :
    (hash : ℕ → ℕ) (valid : ℕ → Bool) (settings : Settings) (id code now at : ℕ) (s : Store)
    → settings.is_controller ≡ true
    → valid code ≡ true
    → (create_enrollment_code hash settings id code now s).1 ≡ accepted
    → let t = (create_enrollment_code hash settings id code now s).0 in
      (revealed_code hash valid settings t ≡ some code)
      × ((claim_enrollment_code hash valid settings true code at t).1 ≡ accepted)
create_enrollment_code_lem hash valid settings id code now at s role form done =
    let (fresh, stored) = created_codes hash settings id code now s done in
    let row = new_code settings id (hash code) now in
    let t : Store = record {
      codes = map (revoke_row now) s.codes ++ row ∷ [];
      saved = some (record { id = id; code = code });
    } in
    let active : active_code t.codes ≡ some row =
      active-append (map (revoke_row now) s.codes) row (none_active now s.codes)
        (unfold is_active new_code in refl) in
    let found : find_code (hash code) t.codes ≡ some row =
      find-append now id (hash code) s.codes row fresh (unfold new_code in ==_self (hash code)) in
    rw stored (
      shown hash valid settings id code now t role form active refl,
      claimed hash valid settings id code now t role form at found,
    )
