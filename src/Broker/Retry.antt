-- ===== src/Broker/Retry.antt =====
-- app/backend/broker.py: what `_run_item` does with an item whose worker request failed, and the
-- assignment that starts an attempt.
pub mod Bounds
use studiohub_mac.Prelude.{
  ℕ, zero, suc, ◌+◌, ◌-◌, ◌*◌, Bool, true, false, not, ◌&&◌, ◌||◌, Option, none, some, List, [],
  ◌∷◌, ltb, leb, ◌==◌, if◌then◌else◌, min, is_some, or_else, Dict, insert, lookup,
}
use studiohub_mac.Broker.Items.{
  State, queued, running, error, cancelled, Text, cancelled_by_user, capacity, connection,
  exhausted, try_failed, message, Item, Modality, is_voice, mark_voice_uncertain, not_reconciled,
  voice_recovery_owns,
}

abbrev pub max_tries : ℕ
max_tries = 3

abbrev pub max_infra_tries : ℕ
max_infra_tries = 8

abbrev pub infra_retry_window : ℕ
infra_retry_window = 30 * 60

abbrev pub capacity_retry : ℕ
capacity_retry = 30

abbrev pub failed_worker_avoid : ℕ
failed_worker_avoid = 90

abbrev pub retry_delays : List ℕ
retry_delays = 3 ∷ 10 ∷ []

abbrev pub infra_retry_delays : List ℕ
infra_retry_delays = 5 ∷ 15 ∷ 30 ∷ 60 ∷ 120 ∷ 300 ∷ 300 ∷ []

-- The entry at the index, or at the last one if it is further.
unfoldable pub delay_at : List ℕ → ℕ → ℕ
delay_at [] i = 0
delay_at (d ∷ []) i = d
delay_at (d ∷ e ∷ ds) zero = d
delay_at (d ∷ e ∷ ds) (suc i) = delay_at (e ∷ ds) i

-- RETRY_DELAYS_S[min(tries - 1, 1)]; at no tries that is the last entry.
unfoldable pub tries_delay : ℕ → ℕ
unfolding delay_at
tries_delay zero = 10
tries_delay (suc n) = delay_at retry_delays n

-- What the classifiers say of an exception.
pub record Failure : Type 0 where
  pub retryable : Bool
  pub is_capacity : Bool
  pub is_transport : Bool
  pub worker_terminal : Bool
  pub message : ℕ

-- What `_recover_worker_job` leaves: the item as it was, an item that it has settled or that recovery
-- owns from now on, or a failure that the worker reports.
pub data Recovered : Type 0 where
  nothing : Recovered
  adopted : Item → Recovered
  reported : Failure → Recovered

abbrev avoiding : ℕ → ℕ → Item → Dict ℕ
avoiding machine now i = insert machine (now + failed_worker_avoid) i.avoid

-- Memory pressure is a wait: the attempt is given back.
unfoldable pub wait_for_capacity : ℕ → Bool → ℕ → ℕ → Item → Item
wait_for_capacity machine released text now i = record i {
  tries = i.tries - 1;
  state = queued;
  error = some (capacity text);
  retry_at = some (now + (if released then 3 else capacity_retry));
  capacity_wait_started = some (or_else i.capacity_wait_started now);
  avoid = avoiding machine now i;
}

-- `now - started < window`
within : ℕ → ℕ → Bool
within started now = ltb now (started + infra_retry_window)

unfoldable pub heal_transport : ℕ → ℕ → ℕ → Item → Item
unfolding within delay_at
heal_transport machine text now i =
    let failures = i.infra_failures + 1 in
    let started = or_else i.infra_started now in
    let marked = record i {
      infra_failures = failures;
      infra_started = some started;
      avoid = avoiding machine now i;
    } in
    if ltb failures max_infra_tries && within started now
    then record marked {
      state = queued;
      error = some (connection failures text);
      retry_at = some (now + delay_at infra_retry_delays (failures - 1));
    }
    else record marked { state = error; error = some (exhausted text); retry_at = none }

unfoldable pub retry_elsewhere : ℕ → ℕ → Item → Item
unfolding tries_delay
retry_elsewhere text now i = record i {
  state = queued;
  error = some (try_failed i.tries text);
  retry_at = some (now + tries_delay i.tries);
}

-- The last four branches, of a batch that is not cancelled.
unfoldable pub settle : Failure → ℕ → Bool → ℕ → Item → Item
unfolding wait_for_capacity heal_transport retry_elsewhere
settle f machine released now i =
    if f.retryable && f.is_capacity
    then wait_for_capacity machine released f.message now i
    else if f.retryable && f.is_transport
    then heal_transport machine f.message now i
    else if f.retryable && ltb i.tries max_tries
    then retry_elsewhere f.message now i
    else record i { state = error; error = some (message f.message); retry_at = none }

-- A failed request of an accepted Voice job is not settled: it may still be running.
unfoldable pub fence_or_settle : Modality → Failure → ℕ → Bool → ℕ → Item → Item
unfolding settle mark_voice_uncertain
fence_or_settle modality f machine released now i =
    if is_voice modality && (is_some i.studio_job && f.is_transport)
    then mark_voice_uncertain not_reconciled now i
    else settle f machine released now i

after_recovery : Modality → Failure → ℕ → Bool → ℕ → Item → Recovered → Item
unfolding fence_or_settle
after_recovery modality f machine released now i nothing =
    fence_or_settle modality f machine released now i
after_recovery modality f machine released now i (adopted j) = j
after_recovery modality f machine released now i (reported g) =
    fence_or_settle modality g machine released now i

unless_terminal : Bool → Recovered → Recovered
unless_terminal true r = nothing
unless_terminal false r = r

-- The failure of an attempt: the batch's modality and cancellation, the machine, whether a sibling
-- gave memory back, and what the recovery of the worker's job found.
pub fail_item : Modality → Bool → Failure → ℕ → Bool → Recovered → ℕ → Item → Item
unfolding after_recovery unless_terminal
fail_item modality batch_cancelled f machine released r now i =
    if voice_recovery_owns i
    then i
    else if batch_cancelled
    then record i { state = cancelled; error = some cancelled_by_user }
    else after_recovery modality f machine released now i (unless_terminal f.worker_terminal r)

-- The assignment of a queued item to a Studio.
pub assign : ℕ → Item → Item
assign studio i = record i {
  state = running;
  retry_at = none;
  studio = some studio;
  studio_job = none;
  tries = i.tries + 1;
  error = none;
}

-- `_item_allows_studio`
pub item_allows_machine : ℕ → ℕ → Item → Bool
item_allows_machine machine now i = leb (or_else (lookup machine i.avoid) 0) now
