-- ===== src/Broker/Queue.antt =====
-- app/backend/broker.py: the order in which queued batches are offered a worker, and the workers that
-- a batch may be offered to. Speed and memory are ranks that are computed from telemetry.
pub mod Order
use studiohub_mac.Prelude.{
  ℕ, ◌+◌, ◌*◌, ◌≡◌, refl, Bool, true, false, not, ◌&&◌, ◌||◌, Option, none, some, List, [], ◌∷◌,
  ltb, leb, ◌==◌, if◌then◌else◌, any, keep, contains, or_else, sort,
}
use studiohub_mac.Broker.Items.{Modality, image, music, voice, video, render, Item, is_queued}

-- MODALITY_PRIORITY: 0 for render, 5 for what makes sound, 10 for the rest.
abbrev pub priority : Modality → ℕ
priority render = 0
priority music = 5
priority voice = 5
priority image = 10
priority video = 10

-- What the order reads of a batch; the constraint is `_batch_memory_constraint_gb`.
pub record Entry : Type 0 where
  pub id : ℕ
  pub modality : Modality
  pub constraint : ℕ
  pub last_dispatched : ℕ
  pub created : ℕ
  pub items : List Item

-- The largest of the positive floors that the catalogs give for the model of a batch; None is a
-- floor that is missing, and an empty model has no catalog entry.
unfoldable pub batch_memory_constraint : List (Option ℕ) → ℕ
batch_memory_constraint [] = 0
batch_memory_constraint (none ∷ floors) = batch_memory_constraint floors
batch_memory_constraint (some floor ∷ floors) =
    let rest = batch_memory_constraint floors in if ltb rest floor then floor else rest

-- The tuple (priority, -constraint, last_dispatched, created), compared field by field.
unfoldable pub before : Entry → Entry → Bool
before a b =
    if ltb (priority a.modality) (priority b.modality)
    then true
    else if ltb (priority b.modality) (priority a.modality)
    then false
    else if ltb b.constraint a.constraint
    then true
    else if ltb a.constraint b.constraint
    then false
    else if ltb a.last_dispatched b.last_dispatched
    then true
    else if ltb b.last_dispatched a.last_dispatched
    then false
    else leb a.created b.created

unfoldable pub has_queued : Entry → Bool
has_queued e = any (λ i. is_queued i.state) e.items

pub queued_batches : List Entry → List Entry
unfolding has_queued before
queued_batches batches = sort before (keep has_queued batches)

pub data Routing : Type 0 where
  pool remote : Routing
  to_studio : ℕ → Routing

-- What the search for workers reads of a Studio, its machine and the state of both.
pub record Worker : Type 0 where
  pub id : ℕ
  pub machine : ℕ
  pub is_local : Bool
  pub modality : Modality
  pub is_busy : Bool
  pub in_maintenance : Bool
  pub machine_leased : Bool
  pub dispatch_ready : Bool
  pub machine_enabled : Bool
  pub studio_enabled : Bool
  pub machine_blocked : Bool
  pub is_up : Bool
  pub render_score : ℕ
  pub chip_generation : ℕ
  pub memory : Option ℕ

same_modality : Modality → Modality → Bool
same_modality image image = true
same_modality music music = true
same_modality voice voice = true
same_modality video video = true
same_modality render render = true
same_modality _ _ = false

allows : Routing → Worker → Bool
allows pool w = true
allows remote w = not w.is_local
allows (to_studio id) w = w.id == id

unfoldable pub is_eligible : Modality → Routing → Worker → Bool
unfolding same_modality allows
is_eligible modality routing w =
    allows routing w
    && (same_modality w.modality modality
        && (not (w.is_busy || (w.in_maintenance || w.machine_leased))
            && (w.dispatch_ready
                && (w.machine_enabled
                    && (w.studio_enabled && (not w.machine_blocked && w.is_up))))))

-- `_studio_speed_score`, over the chip generation and the memory in gigabytes.
unfoldable pub speed_score : Worker → ℕ
speed_score w = w.chip_generation * 100 + or_else w.memory 0

-- Less memory first, unknown last.
memory_before : Option ℕ → Option ℕ → ℕ → ℕ → Bool
memory_before (some a) none i j = true
memory_before none (some b) i j = false
memory_before none none i j = leb i j
memory_before (some a) (some b) i j = if ltb a b then true else if ltb b a then false else leb i j

unfoldable pub higher_before : ℕ → ℕ → ℕ → ℕ → Bool
higher_before a b i j = if ltb b a then true else if ltb a b then false else leb i j

-- The key of the sort for the modality.
unfoldable pub worker_before : Modality → Worker → Worker → Bool
unfolding higher_before speed_score memory_before
worker_before render a b = higher_before a.render_score b.render_score a.id b.id
worker_before image a b = higher_before (speed_score a) (speed_score b) a.id b.id
worker_before other a b = memory_before a.memory b.memory a.id b.id

pub eligible_studios : Modality → Routing → List Worker → List Worker
unfolding is_eligible worker_before
eligible_studios modality routing workers =
    sort (worker_before modality) (keep (is_eligible modality routing) workers)
