-- ===== src/Recovery/Policy.antt =====
-- Which jobs may be cancelled: app/backend/automatic_recovery.py, `observe`.
use studiohub_mac.Prelude.{
  ℕ, ◌+◌, ◌≤◌, ◌<◌, ◌≡◌, refl, Bool, true, false, Option, none, some, arith, lookup, option_eq,
  option_eq_refl, Option-cases, Bool-cases, inl, inr, is_some,
}
use studiohub_mac.Recovery.{
  Modality, image, voice, other_modality, JobState, running, other_state, Job, Phase, Signature,
  Row, State, threshold, max_observation_gap, is_watched, is_running, is_protected, signature,
  same_signature, within_gap, or_now, continuously_observed, meaningful_at, ran_for,
  protected_phase, is_eligible, observe,
}

pub threshold_pos : (m : Modality) → 0 < threshold m
threshold_pos image = omega arith
threshold_pos voice = omega arith
threshold_pos (other_modality m) = omega arith

is_running-running : (s : JobState) → is_running s ≡ true → s ≡ running
is_running-running running h = refl
is_running-running (other_state s) h = cc

-- The row of a job that was watched long enough without a change.
meaningful_row :
    (session job : ℕ) (s : Signature) (now limit : ℕ) (o : Option Row)
    → 0 < limit
    → meaningful_at session job s now o + limit ≤ now
    → (row : Row) × (since : ℕ) × (o ≡ some row)
      × (continuously_observed session job now (some row) ≡ true)
      × (same_signature row.signature s ≡ true)
      × (row.last_meaningful_at ≡ some since)
      × (since + limit ≤ now)
unfolding meaningful_at or_now
meaningful_row session job s now limit none pos h = absurd (omega arith)
meaningful_row session job s now limit (some row) pos h =
    elim (Option-cases row.last_meaningful_at) [
      | inl p ↦ absurd (ground arith)
      | inr (since, p) ↦ (row, since, refl, ground arith, ground arith, p, ground arith)
    ]

within_gap-checked :
    (o : Option ℕ) (now : ℕ)
    → within_gap o now ≡ true
    → (checked : ℕ) × (o ≡ some checked) × (checked ≤ now) × (now ≤ checked + max_observation_gap)
unfolding within_gap
within_gap-checked none now h = cc
within_gap-checked (some checked) now h = (checked, refl, ground arith, ground arith)

ran_for-started :
    (limit : ℕ) (o : Option ℕ) (now : ℕ)
    → 0 < limit
    → ran_for limit o now ≡ true
    → (started : ℕ) × (o ≡ some started) × (started + limit ≤ now)
unfolding ran_for
ran_for-started limit none now pos h = absurd (ground arith)
ran_for-started limit (some started) now pos h = (started, refl, ground arith)

pub option_eq-some : (o : Option ℕ) (n : ℕ) → option_eq o (some n) ≡ true → o ≡ some n
option_eq-some none n h = cc
option_eq-some (some m) n h = ground arith

pub is_eligible-parts :
    (session studio : ℕ) (m : Modality) (j : Job) (now : ℕ) (healthy : Bool) (o : Option Row)
    → is_eligible session studio m j now healthy o ≡ true
    → (is_watched m ≡ true)
      × (is_running j.state ≡ true)
      × (healthy ≡ true)
      × (ran_for (threshold m) j.started_at now ≡ true)
      × (meaningful_at session j.id (signature m j) now o + threshold m ≤ now)
      × (is_some (protected_phase j.id o) ≡ false)
unfolding is_eligible
is_eligible-parts session studio m j now healthy o h =
    (ground arith, ground arith, ground arith, ground arith, ground arith, ground arith)

continuously_observed-parts :
    (session job now : ℕ) (r : Row)
    → continuously_observed session job now (some r) ≡ true
    → (r.job ≡ some job)
      × (r.observer_session ≡ some session)
      × (within_gap r.last_checked_at now ≡ true)
unfolding continuously_observed
continuously_observed-parts session job now r h = (
  option_eq-some r.job job (ground arith),
  option_eq-some r.observer_session session (ground arith),
  ground arith,
)

is_some-false {ℓ} : {A : Type ℓ} (o : Option A) → is_some o ≡ false → o ≡ none
is_some-false none h = refl
is_some-false (some a) h = cc

unprotected :
    (job : ℕ) (r : Row)
    → r.job ≡ some job
    → protected_phase job (some r) ≡ none
    → is_protected r.phase ≡ false
unfolding protected_phase
unprotected job r own h = elim (Bool-cases (is_protected r.phase)) [
  | inl p ↦ absurd (impossible r.phase p ((rw (own, option_eq_refl (some job), p) at h)))
  | inr p ↦ p
]
  where
    impossible : (o : Option Phase) → is_protected o ≡ true → o ≡ none → ⊥
    impossible none p q = cc
    impossible (some x) p q = cc

-- What an offer for cancellation says of the row of the Studio and of the job.
pub eligible_lem :
    (session studio now : ℕ) (m : Modality) (j : Job) (s : State)
    → (observe session studio m j now s).1 ≡ true
    → (row : Row) × (since : ℕ) × (checked : ℕ) × (started : ℕ) × (lookup studio s.jobs ≡ some row)
      × (row.job ≡ some j.id)
      × (row.observer_session ≡ some session)
      × (row.last_checked_at ≡ some checked)
      × (checked ≤ now)
      × (now ≤ checked + max_observation_gap)
      × (same_signature row.signature (signature m j) ≡ true)
      × (row.last_meaningful_at ≡ some since)
      × (since + threshold m ≤ now)
      × (j.started_at ≡ some started)
      × (started + threshold m ≤ now)
      × (j.state ≡ running)
      × (is_watched m ≡ true)
      × (s.state_healthy ≡ true)
      × (is_protected row.phase ≡ false)
unfolding observe
eligible_lem session studio now m j s h =
    let (watch, run, healthy, long_enough, unchanged, free) =
      is_eligible-parts session studio m j now s.state_healthy (lookup studio s.jobs) h in
    let (row, since, found, watched, same, known, long) =
      meaningful_row session j.id (signature m j) now (threshold m) (lookup studio s.jobs)
        (threshold_pos m) unchanged in
    let (own, mine, gap) = continuously_observed-parts session j.id now row watched in
    let (checked, seen, past, near) = within_gap-checked row.last_checked_at now gap in
    let (started, begun, ran) =
      ran_for-started (threshold m) j.started_at now (threshold_pos m) long_enough in
    (
      row,
      since,
      checked,
      started,
      found,
      own,
      mine,
      seen,
      past,
      near,
      same,
      known,
      long,
      begun,
      ran,
      is_running-running j.state run,
      watch,
      healthy,
      unprotected j.id row own (is_some-false _ (rw found at free)),
    )
