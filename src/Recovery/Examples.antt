-- ===== src/Recovery/Examples.antt =====
-- Concrete runs of the recovery policy: app/backend/automatic_recovery.py.
use studiohub_mac.Prelude.{inr, arith, ◌≡◌, ◌≢◌, refl, true, false, none, some, [], ◌∷◌, lookup}
use studiohub_mac.Recovery.{
  observe_all, voice, running, Job, cancel_requested, given, Row, State, signature, same_signature,
  is_eligible, observe, mark, document, load, recovering, snapshot,
}
use studiohub_mac.Recovery.Watched.{IsNews, progress_defers}
use studiohub_mac.Recovery.Restart.{marked_not_offered, restart_lem}

-- A Voice job that has been at its second chunk since it was first seen.
abbrev job : Job
job = record {
  id = 8;
  model = 3;
  state = running;
  progress = some 10;
  current_step = none;
  total_steps = none;
  chunk_index = some 2;
  chunk_total = some 9;
  started_at = some 1000;
}

abbrev seen : Row
seen = record {
  job = some 8;
  phase = none;
  reason = none;
  first_seen_at = some 1100;
  last_meaningful_at = some 1100;
  last_checked_at = some 8250;
  signature = some (record { state = running; progress = some 10; stage = some 2; total = some 9 });
  observer_session = some 6;
  reading = none;
}

abbrev stalled : State
stalled = record { jobs = (1, seen) ∷ []; updated_at = some 8250; state_healthy = true }

offered : (observe 6 1 voice job 8300 stalled).1 ≡ true
unfolding observe is_eligible lookup signature same_signature
offered = refl

-- The third chunk is done.
abbrev advanced : Job
advanced = record job { chunk_index = some 3 }

news : IsNews 6 8 (signature voice advanced) 8300 (lookup 1 stalled.jobs)
unfolding lookup signature same_signature
news = inr (seen, refl, inr (inr (inr refl)))

progress_defers_example :
    (observe_all 6 1
      ((voice, advanced, 8300) ∷ (voice, advanced, 8500) ∷ (voice, advanced, 15499) ∷ [])
      stalled).1
    ≡ false
progress_defers_example =
    progress_defers 6 1 8300 voice advanced
      ((voice, advanced, 8500) ∷ (voice, advanced, 15499) ∷ []) stalled news
      ((refl, omega arith, omega arith), ((refl, omega arith, omega arith), tt))

marked_not_offered_example :
    let (after, again) =
      observe_all 6 1
        ((voice, job, 8400) ∷ (voice, job, 99999) ∷ [])
        (mark 1 8 cancel_requested (given 4) 8310 stalled) in
    (again ≡ false)
    × ((row : Row) × (lookup 1 after.jobs ≡ some row)
        × (row.job ≡ some 8)
        × (row.phase ≡ some cancel_requested))
marked_not_offered_example =
    marked_not_offered 6 1 8 8310 cancel_requested (given 4)
      ((voice, job, 8400) ∷ (voice, job, 99999) ∷ []) stalled refl (refl, (refl, tt))

restart_lem_example :
    (snapshot (load (document stalled.jobs none true)) ≢ recovering)
    × ((observe 7 1 voice job 8300 (load (document stalled.jobs none true))).1 ≡ false)
restart_lem_example = restart_lem (document stalled.jobs none true) 7 1 8300 voice job (refl, tt)
