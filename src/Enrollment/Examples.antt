-- ===== src/Enrollment/Examples.antt =====
-- A site makes a code, rotates it and revokes it: app/backend/enrollment.py and its theorems at a run.
use studiohub_mac.Prelude.{ℕ, ◌+◌, ◌≡◌, ◌≢◌, refl, Bool, true, some, List, [], ◌∷◌, ltb}
use studiohub_mac.Enrollment.{
  Settings, Store, empty, accepted, Call, creates, claims, run, new_code, find_code,
  create_enrollment_code, claim_enrollment_code, revoke_enrollment_credential, revealed_code,
}
use studiohub_mac.Enrollment.Revoked.{revoked_stays}
use studiohub_mac.Enrollment.Rotated.{create_enrollment_code_lem}

abbrev digest : ℕ → ℕ
digest x = x + 100

abbrev well_formed : ℕ → Bool
well_formed x = ltb x 50

abbrev site : Settings
site = record { is_controller = true; site_id = 3; controller_id = 4 }

abbrev first_code : Store
first_code = (create_enrollment_code digest site 1 11 5 empty).0

abbrev later_calls : List (ℕ × Settings × Call)
later_calls = (7, site, claims true 12) ∷ (8, site, creates 3 13) ∷ []

made : (create_enrollment_code digest site 1 11 5 empty).1 ≡ accepted
unfolding create_enrollment_code
made = refl

rotated : (create_enrollment_code digest site 2 12 6 first_code).1 ≡ accepted
unfolding create_enrollment_code
rotated = refl

first_row : find_code 111 first_code.codes ≡ some (new_code site 1 111 5)
unfolding create_enrollment_code find_code
first_row = refl

create_enrollment_code_lem_example :
    (revealed_code digest well_formed site first_code ≡ some 11)
    × ((claim_enrollment_code digest well_formed site true 11 9 first_code).1 ≡ accepted)
create_enrollment_code_lem_example =
    create_enrollment_code_lem digest well_formed site 1 11 5 9 empty refl refl made

revoked_stays_example :
    let after =
      run digest well_formed (create_enrollment_code digest site 2 12 6 first_code).0 later_calls in
    let dropped =
      run digest well_formed (revoke_enrollment_credential site 6 first_code).0 later_calls in
    ((claim_enrollment_code digest well_formed site true 11 9 after).0 ≡ after)
    × ((claim_enrollment_code digest well_formed site true 11 9 after).1 ≢ accepted)
    × ((claim_enrollment_code digest well_formed site true 11 9 dropped).0 ≡ dropped)
    × ((claim_enrollment_code digest well_formed site true 11 9 dropped).1 ≢ accepted)
revoked_stays_example =
    revoked_stays digest well_formed site site true 11 6 9 2 12 first_code (new_code site 1 111 5)
      later_calls first_row (unfold new_code in refl) refl rotated
