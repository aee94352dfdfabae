-- ===== src/Broker/Models/Laws.antt =====
-- When a model is paused and when it is taken up again: app/backend/broker.py.
use studiohub_mac.Prelude.{
  ℕ, ◌+◌, ◌≤◌, ◌<◌, ◌≡◌, refl, ap, ◌∙◌, Bool, true, false, not, ◌&&◌, Option, none, some, [], ◌∷◌,
  arith, ◌==◌, if◌then◌else◌, Bool-cases, option_eq, option_eq_refl, inl, inr,
}
use studiohub_mac.Broker.Models.{
  Code, model_files_unavailable, other_code, Row, Rows, model_failure_window, find, put, drop_key,
  failure, was_blocked, mark_model_failure, is_held, Readiness, verified, reported,
  recheck_model_protection, reopened, not_verified, newer_failure, same_row,
}

find-put :
    (q : Row) (studio model : ℕ) (rows : Rows)
    → find studio model (put q rows)
      ≡ (if q.studio == studio && q.model == model then some q else find studio model rows)
unfolding find put
find-put q studio model [] = refl
find-put q studio model (r ∷ rows) = ground (arith, find-put q studio model rows)

find-drop_key :
    (studio model : ℕ) (rows : Rows) → find studio model (drop_key studio model rows) ≡ none
unfolding find drop_key
find-drop_key studio model [] = refl
find-drop_key studio model (r ∷ rows) = ground (arith, find-drop_key studio model rows)

key-failure :
    (studio model : ℕ) (o : Option Row) (revision : Option ℕ) (code : Code) (reason now : ℕ)
    → let row = failure studio model o revision code reason now in
      (row.studio ≡ studio) × (row.model ≡ model)
unfolding failure
key-failure studio model none revision code reason now = (refl, refl)
key-failure studio model (some p) revision code reason now = (refl, refl)

-- The row of the key after a failure.
find-mark :
    (studio model : ℕ) (revision : Option ℕ) (code : Code) (reason now : ℕ) (rows : Rows)
    → find studio model (mark_model_failure studio model revision code reason now rows).0
      ≡ some (failure studio model (find studio model rows) revision code reason now)
unfolding mark_model_failure
find-mark studio model revision code reason now rows =
    let row = failure studio model (find studio model rows) revision code reason now in
    let (s, m) = key-failure studio model (find studio model rows) revision code reason now in
    ground (arith, find-put row studio model rows)

blocked-failure :
    (studio model : ℕ) (o : Option Row) (revision : Option ℕ) (code : Code) (reason now : ℕ)
    → was_blocked o ≡ true
    → (failure studio model o revision code reason now).blocked ≡ true
unfolding failure was_blocked
blocked-failure studio model none revision code reason now h = cc
blocked-failure studio model (some p) revision code reason now h = rw h refl

-- A paused model stays paused: no later failure of any kind, on any Studio or model, reopens it.
pub pause_sticks :
    (studio model other_studio other : ℕ) (revision : Option ℕ) (code : Code) (reason now : ℕ)
    (rows : Rows)
    → was_blocked (find studio model rows) ≡ true
    → was_blocked
        (find studio model (mark_model_failure other_studio other revision code reason now rows).0)
      ≡ true
unfolding mark_model_failure was_blocked
pause_sticks studio model other_studio other revision code reason now rows h =
    let row = failure other_studio other (find other_studio other rows) revision code reason now in
    let (s, m) =
      key-failure other_studio other (find other_studio other rows) revision code reason now in
    sticks row s m
      (blocked-failure other_studio other (find other_studio other rows) revision code reason now)
  where
    sticks :
        (row : Row)
        → row.studio ≡ other_studio
        → row.model ≡ other
        → (was_blocked (find other_studio other rows) ≡ true → row.blocked ≡ true)
        → was_blocked (find studio model (put row rows)) ≡ true
    sticks row s m keeps = elim (Bool-cases (row.studio == studio && row.model == model)) [
      | inl e ↦
          let same_studio : other_studio ≡ studio = ground arith in
          let same_model : other ≡ model = ground arith in
          rw (find-put row studio model rows, e) (keeps (rw (same_studio, same_model) h))
      | inr e ↦ rw (find-put row studio model rows, e) h
    ]

unavailable-failure :
    (studio model : ℕ) (o : Option Row) (revision : Option ℕ) (reason now : ℕ)
    → (failure studio model o revision model_files_unavailable reason now).blocked ≡ true
unfolding failure
unavailable-failure studio model none revision reason now = refl
unavailable-failure studio model (some p) revision reason now = ground arith

held :
    (studio model : ℕ) (rows : Rows) (ready execution : Option Bool)
    → was_blocked (find studio model rows) ≡ true
    → is_held ready execution studio model rows ≡ true
unfolding is_held
held studio model rows (some false) execution h = refl
held studio model rows none (some false) h = refl
held studio model rows (some true) (some false) h = refl
held studio model rows none none h = h
held studio model rows none (some true) h = h
held studio model rows (some true) none h = h
held studio model rows (some true) (some true) h = h

-- Missing files pause the model at once; the work is held whatever the catalog says.
pub missing_files_pause :
    (studio model : ℕ) (revision : Option ℕ) (reason now : ℕ) (rows : Rows)
    (ready execution : Option Bool)
    → is_held ready execution studio model
        (mark_model_failure studio model revision model_files_unavailable reason now rows).0
      ≡ true
unfolding was_blocked
missing_files_pause studio model revision reason now rows ready execution =
    held studio model _ ready execution (
      rw (find-mark studio model revision model_files_unavailable reason now rows)
        (unavailable-failure studio model (find studio model rows) revision reason now))

-- Three failures of one revision within five minutes of the first pause the model, and two do not,
-- if nothing was on record before.
pub third_failure_pauses :
    (studio model c d e : ℕ) (revision : Option ℕ) (reason first second third : ℕ) (rows : Rows)
    → find studio model rows ≡ none
    → first ≤ second
    → second ≤ third
    → third < first + model_failure_window
    → let one = (mark_model_failure studio model revision (other_code c) reason first rows).0 in
      let two = (mark_model_failure studio model revision (other_code d) reason second one).0 in
      let three = (mark_model_failure studio model revision (other_code e) reason third two).0 in
      (was_blocked (find studio model two) ≡ false) × (was_blocked (find studio model three) ≡ true)
unfolding was_blocked failure
third_failure_pauses studio model c d e revision reason first second third rows h le le' within =
    let one = (mark_model_failure studio model revision (other_code c) reason first rows).0 in
    let two = (mark_model_failure studio model revision (other_code d) reason second one).0 in
    let seen =
      find-mark studio model revision (other_code c) reason first rows
      ∙ ap (λ o. some (failure studio model o revision (other_code c) reason first)) h in
    let again = find-mark studio model revision (other_code d) reason second one in
    let last = find-mark studio model revision (other_code e) reason third two in
    (
      rw (again, seen) (ground (arith, option_eq_refl revision)),
      rw (last, again, seen) (ground (arith, option_eq_refl revision)),
    )

-- A failure of another revision starts a new count.
pub other_revision_restarts :
    (studio model c reason now : ℕ) (revision : Option ℕ) (p : Row) (rows : Rows)
    → find studio model rows ≡ some p
    → p.blocked ≡ false
    → option_eq p.revision revision ≡ false
    → was_blocked (
        find studio model
          (mark_model_failure studio model revision (other_code c) reason now rows).0)
      ≡ false
unfolding was_blocked failure
other_revision_restarts studio model c reason now revision p rows h unblocked differs =
    rw (find-mark studio model revision (other_code c) reason now rows, h) (ground arith)

verified_missing :
    (p : Row) (entry : Option Readiness)
    → p.error_code ≡ model_files_unavailable
    → verified (some p) entry ≡ true
    → (r : Readiness) × (entry ≡ some r) × (r.ready ≡ some true)
unfolding verified
verified_missing p none missing h = cc
verified_missing p (some r) missing h = (r, refl, go r.ready refl (ground arith))
  where
    go : (o : Option Bool) → r.ready ≡ o → reported (some p) o r ≡ true → r.ready ≡ some true
    go none e q = absurd (ground arith)
    go (some true) e q = e
    go (some false) e q = absurd (ground arith)

recheck-parts :
    (v same : Bool) (rows after : Rows)
    → (if not v then not_verified else if not same then newer_failure else reopened rows)
      ≡ reopened after
    → (v ≡ true) × (same ≡ true) × (after ≡ rows)
recheck-parts v same rows after h = ground arith

-- A pause for missing files ends only when the Studio itself reports the model ready, and no row
-- changed since the report was asked for; then the model has no row left.
pub recheck_needs_report :
    (studio model : ℕ) (entry : Option Readiness) (p : Row) (before rows after : Rows)
    → find studio model before ≡ some p
    → p.error_code ≡ model_files_unavailable
    → recheck_model_protection studio model entry before rows ≡ reopened after
    → ((r : Readiness) × (entry ≡ some r) × (r.ready ≡ some true))
      × (same_row (find studio model rows) (some p) ≡ true)
      × (find studio model after ≡ none)
unfolding recheck_model_protection
recheck_needs_report studio model entry p before rows after found missing h =
    let (checked, same, dropped) =
      recheck-parts (verified (find studio model before) entry)
        (same_row (find studio model rows) (find studio model before)) (drop_key studio model rows)
        after h in
    (
      verified_missing p entry missing (rw found at checked),
      rw found at same,
      rw dropped (find-drop_key studio model rows),
    )
