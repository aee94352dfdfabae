-- ===== src/Transcription.antt =====
-- app/backend/transcription_jobs.py: the batches of the transcription queue and the operations on one
-- batch. Texts are numbers or what they say; the files and the database are not kept.
pub mod Dispatch
pub mod Retried
pub mod Restored
pub mod Finished
pub mod Leased
pub mod Examples
use studiohub_mac.Prelude.{
  ℕ, ◌+◌, ◌-◌, Bool, true, false, not, ◌&&◌, ◌||◌, Option, none, some, List, [], ◌∷◌, ◌++◌, map,
  leb, ltb, ◌==◌, if◌then◌else◌, any, all, drop, length, count_if, Dict, insert, is_some,
}
use studiohub_mac.Identity.{Deadline, lease_expired}

pub data ItemState : Type 0 where
  queued running done error cancelled : ItemState

pub data Note : Type 0 where
  shutdown restart lease_lost by_user auth_changed audio_missing : Note
  try_failed : (tries machine message : ℕ) → Note
  attempted : (message : ℕ) → List (ℕ × ℕ) → Note

-- An entry of attempt_history.
pub record Attempt : Type 0 where
  pub studio : ℕ
  pub machine : ℕ
  pub message : ℕ
  pub at : ℕ

pub record Item : Type 0 where
  pub index : ℕ
  pub state : ItemState
  pub tries : ℕ
  pub studio : Option ℕ
  pub task : Option ℕ
  pub note : Option Note
  pub interrupted : Bool
  pub started_at : Option ℕ
  pub finished_at : Option ℕ
  pub artifact : Option ℕ
  pub attempt_history : List Attempt
  pub avoid_machines : Dict ℕ

pub record Batch : Type 0 where
  pub id : ℕ
  pub created_at : ℕ
  pub items : List Item
  pub is_cancelled : Bool
  pub lease : Option Deadline
  pub lease_expired_flag : Bool
  pub last_dispatched_at : ℕ
  pub finished_at : Option ℕ
  pub storage_cleaned_at : Option ℕ

abbrev pub max_tries : ℕ
max_tries = 3

abbrev pub is_queued : ItemState → Bool
is_queued queued = true
is_queued _ = false

abbrev pub is_running : ItemState → Bool
is_running running = true
is_running _ = false

abbrev pub is_done : ItemState → Bool
is_done done = true
is_done _ = false

abbrev pub is_error : ItemState → Bool
is_error error = true
is_error _ = false

abbrev pub is_cancelled_state : ItemState → Bool
is_cancelled_state cancelled = true
is_cancelled_state _ = false

-- TERMINAL_STATES
abbrev pub is_terminal : ItemState → Bool
is_terminal s = is_done s || (is_error s || is_cancelled_state s)

-- `states.count`, over the items.
abbrev pub count : (ItemState → Bool) → List Item → ℕ
count p = count_if (λ i. p i.state)

unfoldable stamp : ℕ → Bool → Option ℕ → Option ℕ
stamp now true none = some now
stamp now _ finished = finished

-- `_save`: the time at which a batch is first saved with all its items ended.
unfoldable pub save : ℕ → Batch → Batch
unfolding stamp
save now b = record b {
  finished_at = stamp now (all (λ i. is_terminal i.state) b.items) b.finished_at;
}

unfoldable pub expire_item : ℕ → Item → Item
expire_item now i =
    if is_queued i.state || is_running i.state
    then record i { state = cancelled; note = some lease_lost; finished_at = some now }
    else i

-- `_expire_genstudio_batch`, and whether the lease has passed.
unfoldable pub expire_genstudio_batch : ℕ → Batch → Batch × Bool
unfolding expire_item
expire_genstudio_batch now b =
    if lease_expired b.lease now
    then (
      record b {
        is_cancelled = true;
        lease_expired_flag = true;
        items = map (expire_item now) b.items;
      },
      true,
    )
    else (b, false)

unfoldable pub restore_item : (ℕ → Bool) → Item → Item
restore_item has_file i =
    let j =
      if is_running i.state
      then record i {
        state = queued;
        studio = none;
        task = none;
        note = some restart;
        interrupted = true;
      }
      else i in
    if is_queued j.state && not (has_file i.index)
    then record j { state = error; note = some audio_missing }
    else j

-- One batch of `restore_batches`: whether the audio of an item is there is an argument.
unfoldable pub restore_batch : (ℕ → Bool) → ℕ → Batch → Batch
unfolding restore_item expire_genstudio_batch
restore_batch has_file now b =
    let (expired, lost) = expire_genstudio_batch now b in
    save now (if lost then expired else record b { items = map (restore_item has_file) b.items })

unfoldable pub cancel_item : Item → Item
cancel_item i = if is_queued i.state then record i { state = cancelled; note = some by_user } else i

-- `cancel_batch`: the tasks of running items are cancelled, which they answer later.
unfoldable pub cancel_batch : ℕ → Batch → Batch
unfolding cancel_item
cancel_batch now b = save now (record b { is_cancelled = true; items = map cancel_item b.items })

-- The test of `retry_batch`.
unfoldable pub is_retried : Item → Bool
is_retried i = is_error i.state || i.interrupted

unfoldable pub retry_item : Item → Item
unfolding is_retried
retry_item i =
    if is_retried i
    then record i {
      state = queued;
      note = none;
      studio = none;
      task = none;
      interrupted = false;
      tries = 0;
    }
    else i

-- `retry_batch`, and how many items it queued again.
unfoldable pub retry_batch : ℕ → Batch → Batch × ℕ
unfolding retry_item
retry_batch now b =
    if is_some b.storage_cleaned_at
    then (b, 0)
    else if count_if is_retried b.items == 0
    then (record b { items = map retry_item b.items }, 0)
    else (
      save now
          (record b { items = map retry_item b.items; is_cancelled = false; finished_at = none }),
      count_if is_retried b.items,
    )

-- `has_queued_work`: no item of this queue has a retry_at.
unfoldable pub has_queued_work : ℕ → List Batch → Bool
has_queued_work now = any λ b.
    not b.is_cancelled && (not (lease_expired b.lease now) && any (λ i. is_queued i.state) b.items)

pub data Status : Type 0 where
  status_queued status_running status_done status_error status_cancelled status_partial : Status

-- The status of `summary`.
unfoldable pub status : Batch → Status
status b =
    let of = λ (p : ItemState → Bool). count p b.items in
    if not (of is_queued == 0) || not (of is_running == 0)
    then (if not (of is_running == 0) then status_running else status_queued)
    else if of is_cancelled_state == length b.items
    then status_cancelled
    else if not (of is_error == 0) && not (of is_done == 0)
    then status_partial
    else if not (of is_error == 0)
    then status_error
    else if not (of is_cancelled_state == 0)
    then (if not (of is_done == 0) then status_partial else status_cancelled)
    else status_done
