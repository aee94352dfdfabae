-- ===== src/Recovery/Restart.antt =====
-- Phases of recovery, and restarts of the Hub: app/backend/automatic_recovery.py, `mark` and `_load`.
use studiohub_mac.Prelude.{
  ℕ, ◌≡◌, ◌≢◌, refl, ap, true, false, Option, none, some, List, [], ◌∷◌, arith, ◌==◌, any, All,
  Dict, lookup, lookup-insert_self, option_eq, option_eq_refl, Bool-cases, inl, inr,
}
use studiohub_mac.Recovery.{
  Modality, Job, Phase, Reason, Row, State, in_progress, is_protected, protected_phase, is_eligible,
  row_of, observe, Observed, observe_all, mark, marked_row, File, absent, unreadable, document,
  restarted, restarted_rows, load, recovering, snapshot,
}
use studiohub_mac.Recovery.Policy.{option_eq-some, eligible_lem}

-- The row of the Studio is of this job, in a phase that only recovery leaves.
abbrev IsHeldRow : ℕ → Phase → Option Row → Type 0
IsHeldRow job p none = ⊥
IsHeldRow job p (some r) = (r.job ≡ some job) × (r.phase ≡ some p)

held_phase :
    (job : ℕ) (p : Phase) (o : Option Row)
    → is_protected (some p) ≡ true
    → IsHeldRow job p o
    → protected_phase job o ≡ some p
unfolding protected_phase
held_phase job p none h k = absurd k
held_phase job p (some r) h k = rw (k.0, k.1, option_eq_refl (some job), h) refl

observe-held :
    (session studio now job : ℕ) (m : Modality) (j : Job) (p : Phase) (s : State)
    → is_protected (some p) ≡ true
    → j.id ≡ job
    → IsHeldRow job p (lookup studio s.jobs)
    → ((observe session studio m j now s).1 ≡ false)
      × IsHeldRow job p (lookup studio (observe session studio m j now s).0.jobs)
unfolding observe is_eligible row_of
observe-held session studio now job m j p s h e k =
    let kept = held_phase job p (lookup studio s.jobs) h k in
    let kept_own : protected_phase j.id (lookup studio s.jobs) ≡ some p = rw e kept in
    (ground (arith, kept_own), rw (lookup-insert_self studio) (ap some e, rw kept_own refl))

held_readings :
    (session studio job : ℕ) (p : Phase) (readings : List Observed) (s : State)
    → is_protected (some p) ≡ true
    → All (λ o. o.1.id ≡ job) readings
    → IsHeldRow job p (lookup studio s.jobs)
    → ((observe_all session studio readings s).1 ≡ false)
      × IsHeldRow job p (lookup studio (observe_all session studio readings s).0.jobs)
unfolding observe_all
held_readings session studio job p [] s h own k = (refl, k)
held_readings session studio job p ((m, j, now) ∷ readings) s h own k =
    let (quiet, still) = observe-held session studio now job m j p s h own.0 k in
    let (quiet', still') =
      held_readings session studio job p readings (observe session studio m j now s).0 h own.1
        still in
    (ground (arith, quiet, quiet'), still')

marked_held :
    (job now : ℕ) (p : Phase) (reason : Reason) (o : Option Row)
    → IsHeldRow job p (some (marked_row job p reason now o))
unfolding marked_row
marked_held job now p reason none = (refl, refl)
marked_held job now p reason (some r) = elim (Bool-cases (option_eq r.job (some job))) [
  | inl e ↦ (rw e (option_eq-some r.job job e), refl)
  | inr e ↦ (rw e refl, refl)
]

-- Once a job was marked with a phase of recovery, it is not offered for cancellation again, however
-- often it is observed until the Hub restarts, as long as no other job is observed on its Studio;
-- and its row keeps the phase.
pub marked_not_offered :
    (session studio job now : ℕ) (p : Phase) (reason : Reason) (readings : List Observed)
    (s : State)
    → is_protected (some p) ≡ true
    → All (λ o. o.1.id ≡ job) readings
    → let (after, offered) = observe_all session studio readings (mark studio job p reason now s) in
      (offered ≡ false)
      × ((row : Row) × (lookup studio after.jobs ≡ some row)
          × (row.job ≡ some job)
          × (row.phase ≡ some p))
unfolding mark
marked_not_offered session studio job now p reason readings s h own =
    let (quiet, held) =
      held_readings session studio job p readings (mark studio job p reason now s) h own
        (rw (lookup-insert_self studio) (marked_held job now p reason (lookup studio s.jobs))) in
    (
      quiet,
      held_row
          (lookup studio
            (observe_all session studio readings (mark studio job p reason now s)).0.jobs)
          held,
    )
  where
    held_row :
        (o : Option Row)
        → IsHeldRow job p o
        → (row : Row) × (o ≡ some row) × (row.job ≡ some job) × (row.phase ≡ some p)
    held_row none k = absurd k
    held_row (some row) k = (row, refl, k.0, k.1)

-- No row of the state carries this session.
abbrev pub IsFresh : ℕ → Dict Row → Type 0
IsFresh session rows = All (λ (k, r). option_eq r.observer_session (some session) ≡ false) rows

restarted-quiet :
    (rows : Dict Row) → any (λ (k, r). in_progress r.phase) (restarted_rows rows) ≡ false
unfolding restarted_rows restarted
restarted-quiet [] = refl
restarted-quiet ((k, r) ∷ rows) = elim (Bool-cases (in_progress r.phase)) [
  | inl e ↦ rw e (restarted-quiet rows)
  | inr e ↦ rw (e, e) (restarted-quiet rows)
]

lookup-fresh :
    (session studio : ℕ) (rows : Dict Row) (r : Row)
    → IsFresh session rows
    → lookup studio (restarted_rows rows) ≡ some r
    → option_eq r.observer_session (some session) ≡ false
unfolding restarted_rows restarted lookup
lookup-fresh session studio [] r fresh h = cc
lookup-fresh session studio ((k, q) ∷ rows) r fresh h = elim (Bool-cases (k == studio)) [
  | inl e ↦ elim (Bool-cases (in_progress q.phase)) [ inl p ↦ ground arith | inr p ↦ ground arith ]
  | inr e ↦ lookup-fresh session studio rows r fresh.1 (rw e at h)
]

abbrev pub rows_of : File → Dict Row
rows_of (document rows updated healthy) = rows
rows_of _ = []

-- `load` keeps at most the rows of the file.
loaded_fresh :
    (f : File) (session studio : ℕ) (r : Row)
    → IsFresh session (rows_of f)
    → lookup studio (load f).jobs ≡ some r
    → option_eq r.observer_session (some session) ≡ false
unfolding load lookup
loaded_fresh absent session studio r fresh h = cc
loaded_fresh unreadable session studio r fresh h = cc
loaded_fresh (document rows updated true) session studio r fresh h =
    lookup-fresh session studio rows r fresh h
loaded_fresh (document rows updated false) session studio r fresh h = cc

loaded_quiet : (f : File) → any (λ (k, r). in_progress r.phase) (load f).jobs ≡ false
unfolding load
loaded_quiet absent = refl
loaded_quiet unreadable = refl
loaded_quiet (document rows updated true) = restarted-quiet rows
loaded_quiet (document rows updated false) = refl

-- A restart of the Hub resumes no recovery, whatever the file holds: none is reported as under way,
-- and the first observation of a job in a new session does not offer it for cancellation.
pub restart_lem :
    (f : File) (session studio now : ℕ) (m : Modality) (j : Job)
    → IsFresh session (rows_of f)
    → (snapshot (load f) ≢ recovering) × ((observe session studio m j now (load f)).1 ≡ false)
unfolding snapshot
restart_lem f session studio now m j fresh = (
  λ h. ground (arith, loaded_quiet f),
  elim (Bool-cases (observe session studio m j now (load f)).1) [
    | inl e ↦
        let found = eligible_lem session studio now m j (load f) e in
        let fresh_row = loaded_fresh f session studio found.0 fresh found.4 in
        absurd (ground (arith, found.6, fresh_row, option_eq_refl (some session)))
    | inr e ↦ e
  ],
)
