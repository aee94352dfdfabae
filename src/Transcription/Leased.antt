-- ===== src/Transcription/Leased.antt =====
-- The machine of an item: app/backend/transcription_jobs.py with the leases of app/backend/broker.py.
use studiohub_mac.Prelude.{ℕ, ◌≡◌, some, lookup}
use studiohub_mac.Broker.Leases.{Owner, busy_machines}
use studiohub_mac.Broker.Leases.Exclusion.{holders}
use studiohub_mac.Transcription.Dispatch.{World, Turn, Worker, start_batch}

-- When the machine was acquired: the turn of the worker and the world at that moment, in which nobody
-- held the machine; since then its lease is the owner's, and the item is started in the batch as it
-- was at that moment.
abbrev pub IsStarted : Owner → ℕ → ℕ → World → Worker → Type 0
IsStarted owner index task w worker =
    (t : Turn) × (then_world : World) × (t.worker ≡ worker)
    × (holders worker.machine (busy_machines t.fleet.registry then_world.scheduler) ≡ 0)
    × (lookup worker.machine w.scheduler.leases ≡ some owner)
    × (w.batch ≡ start_batch worker.studio index task t.at then_world.batch)
