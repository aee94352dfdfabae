-- ===== src/Recovery/Watched.antt =====
-- How long a job is watched: app/backend/automatic_recovery.py, `observe`, over a history of readings.
use studiohub_mac.Prelude.{
  ℕ, zero, suc, ◌+◌, ◌≤◌, ◌<◌, ◌≡◌, ◌⊎◌, inl, inr, refl, false, Option, none, some, List, [], ◌∷◌,
  arith, All, lookup, lookup-insert_self, option_eq, Bool-cases,
}
use studiohub_mac.Recovery.{
  Modality, Job, Row, State, Signature, threshold, max_observation_gap, signature, same_signature,
  within_gap, or_now, continuously_observed, meaningful_at, is_eligible, row_of, observe, Observed,
  observe_all,
}
use studiohub_mac.Recovery.Policy.{threshold_pos, is_eligible-parts}

-- The reading does not go on with what the row of the Studio says: there is none, it is of another job
-- or another run of the Hub, it was last checked more than the allowed gap ago, or the job reports
-- something else than then.
abbrev pub IsNews : ℕ → ℕ → Signature → ℕ → Option Row → Type 0
IsNews session job s now o =
    (o ≡ none)
    ⊎ ((r : Row) × (o ≡ some r)
        × ((option_eq r.job (some job) ≡ false)
            ⊎ ((option_eq r.observer_session (some session) ≡ false)
                ⊎ (((checked : ℕ) × (r.last_checked_at ≡ some checked)
                      × (checked + max_observation_gap < now))
                    ⊎ (same_signature r.signature s ≡ false)))))

news_now :
    (session job : ℕ) (s : Signature) (now : ℕ) (o : Option Row)
    → IsNews session job s now o
    → meaningful_at session job s now o ≡ now
unfolding meaningful_at continuously_observed within_gap
news_now session job s now o (inl e) = rw e refl
news_now session job s now o (inr (r, e, inl other)) = rw (e, other) refl
news_now session job s now o (inr (r, e, inr (inl restarted))) = rw e (ground (arith, restarted))
news_now session job s now o (inr (r, e, inr (inr (inl (checked, seen, late))))) =
    rw (e, seen) (ground (arith, late))
news_now session job s now o (inr (r, e, inr (inr (inr changed)))) = rw e (ground (arith, changed))

-- The row has seen no change since a time that is not before this one.
abbrev IsSince : ℕ → Option Row → Type 0
IsSince start o =
    (r : Row) × (since : ℕ) × (o ≡ some r) × (r.last_meaningful_at ≡ some since) × (start ≤ since)

or_now-le : (start since now : ℕ) → start ≤ since → start ≤ now → start ≤ or_now (some since) now
unfolding or_now
or_now-le start zero now h k = k
or_now-le start (suc since) now h k = h

since-le :
    (session job : ℕ) (s : Signature) (start now : ℕ) (o : Option Row)
    → start ≤ now
    → IsSince start o
    → start ≤ meaningful_at session job s now o
unfolding meaningful_at
since-le session job s start now o k (r, since, e, last, le) =
    let kept = or_now-le start since now le k in rw (e, last) (ground (arith, kept))

observe-IsSince :
    (session studio start now : ℕ) (m : Modality) (j : Job) (s : State)
    → now < start + threshold m
    → start ≤ meaningful_at session j.id (signature m j) now (lookup studio s.jobs)
    → ((observe session studio m j now s).1 ≡ false)
      × IsSince start (lookup studio (observe session studio m j now s).0.jobs)
unfolding observe row_of
observe-IsSince session studio start now m j s early le = (
  elim (Bool-cases (is_eligible session studio m j now s.state_healthy (lookup studio s.jobs))) [
    | inl e ↦
        let (watch, run, healthy, ran, unchanged, free) =
          is_eligible-parts session studio m j now s.state_healthy (lookup studio s.jobs) e in
        absurd (omega arith)
    | inr e ↦ e
  ],
  (
    row_of session m j now
        (is_eligible session studio m j now s.state_healthy (lookup studio s.jobs))
        (lookup studio s.jobs),
    meaningful_at session j.id (signature m j) now (lookup studio s.jobs),
    lookup-insert_self studio _ s.jobs,
    refl,
    le,
  ),
)

-- The readings of the Studio's jobs that are made in this time.
abbrev pub IsWithin : Modality → ℕ → Observed → Type 0
IsWithin m start o = (o.0 ≡ m) × (start ≤ o.2) × (o.2 < start + threshold m)

watched :
    (session studio start : ℕ) (m : Modality) (readings : List Observed) (s : State)
    → All (IsWithin m start) readings
    → IsSince start (lookup studio s.jobs)
    → (observe_all session studio readings s).1 ≡ false
unfolding observe_all
watched session studio start m [] s h since = refl
watched session studio start m ((n, j, now) ∷ readings) s h since =
    let ((same, past, early), others) = h in
    let (quiet, still) =
      observe-IsSince session studio start now n j s (rw same early)
        (since-le session j.id (signature n j) start now (lookup studio s.jobs) past since) in
    let rest =
      watched session studio start m readings (observe session studio n j now s).0 others still in
    ground (arith, quiet, rest)

-- A job is left alone for the whole threshold of its modality after it did something: when a reading
-- shows a new job, a new run of the Hub, a watch that had a gap, or anything else in what the job
-- reports, then neither this reading nor any later one of the Studio that is made within the threshold
-- of it, in the same run and of jobs of the same modality, offers a job for cancellation.
pub progress_defers :
    (session studio start : ℕ) (m : Modality) (j : Job) (readings : List Observed) (s : State)
    → IsNews session j.id (signature m j) start (lookup studio s.jobs)
    → All (IsWithin m start) readings
    → (observe_all session studio ((m, j, start) ∷ readings) s).1 ≡ false
unfolding observe_all
progress_defers session studio start m j readings s news h =
    let reset = news_now session j.id (signature m j) start (lookup studio s.jobs) news in
    let long = threshold_pos m in
    let (quiet, since) =
      observe-IsSince session studio start start m j s (omega arith) (omega arith) in
    let rest =
      watched session studio start m readings (observe session studio m j start s).0 h since in
    ground (arith, quiet, rest)
