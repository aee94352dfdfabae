-- ===== src/Transcription/Dispatch.antt =====
-- `dispatch_once` and `_run_item` of app/backend/transcription_jobs.py, with the machine leases of the broker.
use studiohub_mac.Prelude.{
  ℕ, ◌+◌, ◌-◌, Bool, true, false, not, ◌&&◌, Option, none, some, List, [], ◌∷◌, ◌++◌, map, ltb,
  ◌==◌, if◌then◌else◌, drop, length, Dict, insert,
}
use studiohub_mac.Broker.Leases.{
  Owner, Scheduler, Candidate, transcription, acquire_external_machine, release_external_machine,
  external_dispatch_allowed, note_external_dispatch, note_external_memory_block,
}
use studiohub_mac.Broker.Retry.{failed_worker_avoid}
use studiohub_mac.Transcription.{
  Item, Batch, Attempt, queued, running, done, error, cancelled, shutdown, by_user, auth_changed,
  try_failed, attempted, max_tries, is_queued, save, expire_genstudio_batch,
}

-- An eligible Studio, and what the chat queue, the memory governor and its peer answer.
pub record Worker : Type 0 where
  pub studio : ℕ
  pub machine : ℕ
  pub other_lane_has_work : Bool
  pub memory_runs : Bool
  pub is_ready : Bool

unfoldable pub first_queued : List Item → Option Item
first_queued [] = none
first_queued (i ∷ items) = if is_queued i.state then some i else first_queued items

unfoldable pub update_item : ℕ → (Item → Item) → List Item → List Item
update_item index f = map (λ i. if i.index == index then f i else i)

unfoldable pub start_item : ℕ → ℕ → ℕ → Item → Item
start_item studio task now i = record i {
  state = running;
  studio = some studio;
  note = none;
  task = some task;
  started_at = some now;
  tries = i.tries + 1;
}

-- What the broker needs to know of the whole fleet.
pub record Fleet : Type 0 where
  pub registry : Dict ℕ
  pub render_queued : Bool
  pub studios : List Candidate

-- What the awaits of a pass leave other tasks to change: the machines, and the batch itself.
pub record World : Type 0 where
  pub scheduler : Scheduler
  pub batch : Batch

-- The turn of a worker: what other tasks do before it may be tested for the lane and then before the
-- memory governor has answered, the fleet as it is by then, and the time of the start.
pub record Turn : Type 0 where
  pub worker : Worker
  pub before_test : World → World
  pub before_answer : World → World
  pub fleet : Fleet
  pub at : ℕ

unfoldable pub start_batch : ℕ → ℕ → ℕ → ℕ → Batch → Batch
unfolding start_item update_item
start_batch studio index task now b = save now (record b {
  items = update_item index (start_item studio task now) b.items;
  last_dispatched_at = now;
})

-- The machine is acquired and the item started, without an await between them; the item was picked
-- before the awaits and is not looked at again.
unfoldable pub acquire : Owner → ℕ → ℕ → Turn → World → World × Bool
unfolding start_batch
acquire owner index task t w =
    let m = t.worker.machine in
    let (leased, acquired) =
      acquire_external_machine t.fleet.registry t.fleet.render_queued t.fleet.studios m owner
        w.scheduler in
    if acquired
    then (
      record {
        scheduler = note_external_dispatch m transcription leased;
        batch = start_batch t.worker.studio index task t.at w.batch;
      },
      true,
    )
    else (w, false)

-- One worker: whether it took the item.
unfoldable pub take_turn : Owner → ℕ → ℕ → Turn → World → World × Bool
unfolding acquire
take_turn owner index task t w =
    let m = t.worker.machine in
    let tested = t.before_test w in
    let answered_world = t.before_answer tested in
    if not (external_dispatch_allowed m transcription t.worker.other_lane_has_work tested.scheduler)
    then (tested, false)
    else if not t.worker.memory_runs
    then (
      record answered_world {
        scheduler = note_external_memory_block m transcription answered_world.scheduler;
      },
      false,
    )
    else if not t.worker.is_ready
    then (answered_world, false)
    else acquire owner index task t answered_world

-- The first worker that takes the item, in the order of the workers.
unfoldable pub assign : Owner → ℕ → ℕ → List Turn → World → World × Option Worker
unfolding take_turn
assign owner index task [] w = (w, none)
assign owner index task (t ∷ turns) w =
    let (after, taken) = take_turn owner index task t w in
    let later = assign owner index task turns after in
    if taken then (after, some t.worker) else later

-- How the request of `_run_item` ends.
pub data Outcome : Type 0 where
  auth_lost : Outcome
  answered : (artifact task : ℕ) → Outcome
  failed : (message : ℕ) → (transient capacity : Bool) → Outcome
  stopped : (shutting_down : Bool) → Outcome

last_attempts : List Attempt → List Attempt
last_attempts h = drop (length h - 8) h

-- The exception handler; the siblings that a capacity failure releases are the broker's.
unfoldable pub fail_item : Worker → ℕ → Bool → Bool → Bool → ℕ → Item → Item
unfolding last_attempts
fail_item w message transient capacity batch_cancelled now i =
    let tries = if capacity then i.tries - 1 else i.tries in
    let history = last_attempts (
      i.attempt_history
      ++ record { studio = w.studio; machine = w.machine; message = message; at = now } ∷ []) in
    let avoid =
      if transient && not capacity
      then insert w.machine (now + failed_worker_avoid) i.avoid_machines
      else i.avoid_machines in
    let failed_item = record i {
      tries = tries;
      attempt_history = history;
      avoid_machines = avoid;
    } in
    if transient && (ltb tries max_tries && not batch_cancelled)
    then record failed_item {
      state = queued;
      studio = none;
      task = none;
      note = some (try_failed tries w.machine message);
    }
    else record failed_item {
      state = error;
      note = some (attempted message (map (λ a. (a.machine, a.message)) history));
    }

unfoldable pub auth_item : Item → Item
auth_item i = record i {
  state = queued;
  studio = none;
  task = none;
  tries = i.tries - 1;
  note = some auth_changed;
}

unfoldable pub done_item : ℕ → ℕ → Item → Item
done_item artifact task i = record i {
  state = done;
  artifact = some artifact;
  note = none;
  task = some task;
}

-- Python's CancelledError.
unfoldable pub stop_item : Bool → Bool → Item → Item
stop_item shutting_down batch_cancelled i =
    if shutting_down && not batch_cancelled
    then record i {
      state = queued;
      studio = none;
      task = none;
      note = some shutdown;
      interrupted = true;
    }
    else record i { state = cancelled; note = some by_user }

unfoldable pub answer : ℕ → (artifact task now : ℕ) → Batch → Batch
answer index artifact task now b =
    let (expired, lost) = expire_genstudio_batch now b in
    if lost
    then expired
    else record b { items = update_item index (done_item artifact task) b.items }

unfoldable pub settle : Worker → ℕ → Outcome → ℕ → Batch → Batch
unfolding answer fail_item auth_item stop_item update_item
settle w index auth_lost now b = record b { items = update_item index auth_item b.items }
settle w index (answered artifact task) now b = answer index artifact task now b
settle w index (failed message transient capacity) now b = record b {
  items = update_item index (fail_item w message transient capacity b.is_cancelled now) b.items;
}
settle w index (stopped shutting_down) now b = record b {
  items = update_item index (stop_item shutting_down b.is_cancelled) b.items;
}

-- `_run_item`: from the task's start to its end, and the `finally` that gives the machine back.
unfoldable pub run_item :
    Owner → Worker → ℕ → ℕ → Outcome → ℕ → Batch → Scheduler → Batch × Scheduler
unfolding settle expire_genstudio_batch
run_item owner w index started outcome now b s =
    let (expired, lost) = expire_genstudio_batch started b in
    (
      save now (if lost then expired else settle w index outcome now b),
      release_external_machine w.machine owner s,
    )

unfoldable pub offered :
    (ℕ → Owner) → (ℕ → List Turn) → ℕ → Option Item → World → World × Option Worker
unfolding assign
offered owner turns task none w = (w, none)
offered owner turns task (some i) w = assign (owner i.index) i.index task (turns i.index) w

-- One batch in the pass of `dispatch_once`: the lease is tested and the item picked at once. The
-- owner's name, the turns of the eligible workers and the name of the task are arguments.
unfoldable pub dispatch_batch :
    (ℕ → Owner) → (ℕ → List Turn) → ℕ → ℕ → World → World × Option Worker
unfolding offered first_queued expire_genstudio_batch
dispatch_batch owner turns task now w =
    let (expired, lost) = expire_genstudio_batch now w.batch in
    if lost
    then (record w { batch = save now expired }, none)
    else offered owner turns task (first_queued w.batch.items) w
