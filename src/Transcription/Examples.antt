-- ===== src/Transcription/Examples.antt =====
-- A batch of two recordings: runs of app/backend/transcription_jobs.py, and its theorems at them.
use studiohub_mac.Prelude.{
  ℕ, ◌+◌, ◌≤◌, ◌<◌, ◌≡◌, ◌↔◌, refl, true, false, none, some, List, [], ◌∷◌, arith, ◌==◌, length,
  insert, count_if, map, if◌then◌else◌, or_else,
}
use studiohub_mac.Identity.{lease_expired}
use studiohub_mac.Broker.Leases.{
  Owner, Scheduler, idle, chat, acquire_external_machine, external_dispatch_allowed,
  note_external_dispatch,
}
use studiohub_mac.Transcription.{
  count, Item, ItemState, Batch, queued, running, done, error, is_queued, is_running, is_done,
  is_error, is_cancelled_state, status_done, status_error, status, restore_batch, retry_batch,
  expire_genstudio_batch, save, cancel_batch, has_queued_work,
}
use studiohub_mac.Transcription.Dispatch.{
  World, Turn, Worker, Fleet, answered, start_batch, dispatch_batch, run_item,
}
use studiohub_mac.Transcription.Retried.{
  find_item, retry_batch-repeats, Failure, attempts, attempts_end,
}
use studiohub_mac.Transcription.Restored.{resumable, restore_batch_lem, AreRestored}
use studiohub_mac.Transcription.Finished.{is_over, status_lem}

abbrev recording : ℕ → ItemState → Item
recording index state = record {
  index = index;
  state = state;
  tries = 0;
  studio = none;
  task = none;
  note = none;
  interrupted = false;
  started_at = none;
  finished_at = none;
  artifact = none;
  attempt_history = [];
  avoid_machines = [];
}

abbrev batch_of : List Item → Batch
batch_of items = record {
  id = 1;
  created_at = 5;
  items = items;
  is_cancelled = false;
  lease = none;
  lease_expired_flag = false;
  last_dispatched_at = 0;
  finished_at = none;
  storage_cleaned_at = none;
}

abbrev two : Batch
two = batch_of (recording 0 running ∷ recording 1 queued ∷ [])

abbrev worker : Worker
worker = record {
  studio = 3;
  machine = 7;
  other_lane_has_work = false;
  memory_runs = true;
  is_ready = true;
}

abbrev fleet : Fleet
fleet = record { registry = (3, 7) ∷ []; render_queued = false; studios = [] }

abbrev owner : ℕ → Owner
owner index = record { name = index + 100; is_render = false }

no_lease : (now : ℕ) → lease_expired none now ≡ false
unfolding lease_expired
no_lease now = refl

-- Only the second recording has work; after a restart both have, if their audio is there.
restart_states : map (λ i. i.state) (restore_batch (λ k. k == 0) 9 two).items ≡ queued ∷ error ∷ []
unfolding restore_batch expire_genstudio_batch save lease_expired
restart_states = refl

cancelled_work : has_queued_work 9 (two ∷ cancel_batch 8 two ∷ []) ≡ true
unfolding has_queued_work cancel_batch lease_expired
cancelled_work = refl

retry_batch-repeats_example :
    let dispatched = start_batch 3 0 70 10 (restore_batch (λ k. true) 9 two) in
    let ended = (run_item (owner 0) worker 0 10 (answered 55 71) 20 dispatched idle).0 in
    (j : Item) × (k : Item) × (find_item 0 ended.items ≡ some j)
    × (j.state ≡ done)
    × (j.artifact ≡ some 55)
    × (find_item 0 (retry_batch 30 ended).0.items ≡ some k)
    × (k.state ≡ queued)
    × (k.artifact ≡ some 55)
retry_batch-repeats_example =
    retry_batch-repeats (λ k. true) 9 10 20 30 0 3 70 55 71 (owner 0) worker idle two
      (recording 0 running) refl refl refl (no_lease 9) (no_lease 10) (no_lease 20) refl

abbrev lost : ℕ → Failure
lost at = record { worker = worker; message = 60; began = at; task = 70; ended = at + 1 }

attempts_end_example :
    ((attempts (lost 1 ∷ lost 5 ∷ lost 9 ∷ []) (recording 0 queued)).state ≡ error)
    × ((attempts (lost 1 ∷ lost 5 ∷ lost 9 ∷ []) (recording 0 queued)).tries ≡ 3)
    × (length (attempts (lost 1 ∷ lost 5 ∷ lost 9 ∷ []) (recording 0 queued)).attempt_history ≤ 8)
attempts_end_example =
    attempts_end (lost 5 ∷ lost 9 ∷ []) (lost 1) (recording 0 queued) (omega arith)

restore_batch_lem_example :
    let after = restore_batch (λ k. k == 0) 9 two in
    (count is_running after.items ≡ 0)
    × (count is_queued after.items ≡ count_if (resumable (λ k. k == 0)) two.items)
    × AreRestored (λ k. k == 0) two.items after.items
    × (after.is_cancelled ≡ two.is_cancelled)
restore_batch_lem_example = restore_batch_lem (λ k. k == 0) 9 two (no_lease 9)

abbrev ended_batch : Batch
ended_batch = batch_of (recording 0 done ∷ recording 1 error ∷ [])

status_lem_example :
    ((save 70 ended_batch).finished_at ≡ (
      if is_over (status ended_batch)
      then some (or_else ended_batch.finished_at 70)
      else ended_batch.finished_at))
    × ((save 70 ended_batch).items ≡ ended_batch.items)
    × (status (save 70 ended_batch) ≡ status ended_batch)
    × ((status ended_batch ≡ status_done) ↔ (
        (count is_done ended_batch.items ≡ length ended_batch.items)
        × (0 < length ended_batch.items)))
    × ((status ended_batch ≡ status_error) ↔ (
        (count is_error ended_batch.items + count is_cancelled_state ended_batch.items
          ≡ length ended_batch.items)
        × (0 < count is_error ended_batch.items)))
status_lem_example = status_lem 70 ended_batch

abbrev waiting_batch : Batch
waiting_batch = batch_of (recording 1 queued ∷ [])

abbrev leased : Scheduler
leased = record { busy = []; maintenance = []; leases = (7, owner 1) ∷ []; turns = (7, chat) ∷ [] }

abbrev turn : Turn
turn = record {
  worker = worker;
  before_test = λ w. w;
  before_answer = λ w. record w { batch = cancel_batch 9 w.batch };
  fleet = fleet;
  at = 10;
}

abbrev waiting_world : World
waiting_world = record { scheduler = idle; batch = waiting_batch }

-- The batch was cancelled during the awaits, and its item is started all the same.
cancelled_runs :
    map (λ i. i.state) (dispatch_batch owner (λ k. turn ∷ []) 70 10 waiting_world).0.batch.items
    ≡ running ∷ []
unfolding dispatch_batch lease_expired acquire_external_machine external_dispatch_allowed
    note_external_dispatch insert cancel_batch save
cancelled_runs = refl
