-- ===== src/Broker/Examples/Routes.antt =====
-- Concrete runs of the queue: app/backend/broker.py.
use studiohub_mac.Prelude.{ℕ, ◌≡◌, Bool, true, false, ◌&&◌, some, List, [], ◌∷◌, All, count_if, ltb}
use studiohub_mac.Broker.Items.{image, voice, render}
use studiohub_mac.Broker.Queue.{Entry, has_queued, queued_batches, Worker}
use studiohub_mac.Broker.Queue.Order.{IsInOrder, queued_batches_lem}

abbrev entry : ℕ → Entry
entry n = record {
  id = n;
  modality = image;
  constraint = n;
  last_dispatched = 0;
  created = n;
  items = [];
}

abbrev entries : List Entry
entries =
    entry 1 ∷ record (entry 2) { modality = render } ∷ record (entry 3) { modality = voice } ∷ []

abbrev small : Entry → Bool
small e = ltb e.id 3

queued_batches_lem_example :
    IsInOrder (queued_batches entries)
    × All (λ e. has_queued e ≡ true) (queued_batches entries)
    × (count_if small (queued_batches entries) ≡ count_if (λ e. has_queued e && small e) entries)
queued_batches_lem_example = queued_batches_lem small entries

abbrev worker : ℕ → Worker
worker n = record {
  id = n;
  machine = n;
  is_local = false;
  modality = image;
  is_busy = false;
  in_maintenance = false;
  machine_leased = false;
  dispatch_ready = true;
  machine_enabled = true;
  studio_enabled = true;
  machine_blocked = false;
  is_up = true;
  render_score = 0;
  chip_generation = n;
  memory = some 320;
}

abbrev workers : List Worker
workers = worker 1 ∷ worker 4 ∷ record (worker 2) { is_busy = true } ∷ []

abbrev first : Worker → Bool
first w = ltb w.id 2
