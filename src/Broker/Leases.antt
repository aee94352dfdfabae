-- ===== src/Broker/Leases.antt =====
-- app/backend/broker.py: who holds a physical machine, and whose turn it is. The registry is a
-- dictionary from a Studio to its machine.
pub mod Exclusion
pub mod Turns
use studiohub_mac.Prelude.{
  ℕ, ◌≡◌, Bool, true, false, not, ◌&&◌, ◌||◌, Option, none, some, List, [], ◌∷◌, ◌++◌, ◌==◌,
  if◌then◌else◌, any, contains, keep, Dict, lookup, insert, remove,
}

-- The owner of an external lease; a name that begins with "render:" is a render.
pub record Owner : Type 0 where
  pub name : ℕ
  pub is_render : Bool

pub data Lane : Type 0 where
  chat transcription : Lane

pub record Scheduler : Type 0 where
  pub busy : List ℕ
  pub maintenance : List ℕ
  pub leases : Dict Owner
  pub turns : Dict Lane

abbrev pub idle : Scheduler
idle = record { busy = []; maintenance = []; leases = []; turns = [] }

abbrev pub keys {ℓ} : {V : Type ℓ} → Dict V → List ℕ
keys [] = []
keys ((k, v) ∷ d) = k ∷ keys d

-- The machines of the Studios that are still registered.
unfoldable pub add_machine : Option ℕ → List ℕ → List ℕ
add_machine none machines = machines
add_machine (some machine) machines = machine ∷ machines

unfoldable pub machines_of : Dict ℕ → List ℕ → List ℕ
unfolding add_machine
machines_of registry [] = []
machines_of registry (studio ∷ studios) =
    add_machine (lookup studio registry) (machines_of registry studios)

unfoldable pub busy_machines : Dict ℕ → Scheduler → List ℕ
unfolding machines_of
busy_machines registry s = keys s.leases ++ machines_of registry s.busy

-- A Studio of the registry as the search for a waiting render reads it.
pub record Candidate : Type 0 where
  pub machine : ℕ
  pub is_render : Bool
  pub machine_enabled : Bool
  pub studio_enabled : Bool
  pub is_up : Bool

-- Whether a render batch is queued is the first argument.
unfoldable pub pending_render_for_machine : Bool → List Candidate → ℕ → Bool
pending_render_for_machine queued studios machine =
    queued
    && any
        (λ c.
          c.is_render
          && (c.machine == machine && (c.machine_enabled && (c.studio_enabled && c.is_up))))
        studios

-- A name of the owner that begins with "render:" may take the machine that a render waits for.
unfoldable pub acquire_external_machine :
    Dict ℕ → Bool → List Candidate → ℕ → Owner → Scheduler → Scheduler × Bool
unfolding busy_machines pending_render_for_machine
acquire_external_machine registry queued studios machine owner s =
    if contains machine (busy_machines registry s)
    then (s, false)
    else if not owner.is_render && pending_render_for_machine queued studios machine
    then (s, false)
    else (record s { leases = insert machine owner s.leases }, true)

is_owner : ℕ → Option Owner → Bool
is_owner name none = false
is_owner name (some o) = o.name == name

unfoldable pub release_external_machine : ℕ → Owner → Scheduler → Scheduler
unfolding is_owner
release_external_machine machine owner s =
    if is_owner owner.name (lookup machine s.leases)
    then record s { leases = remove machine s.leases }
    else s

pub set_maintenance : ℕ → Bool → Scheduler → Scheduler
set_maintenance studio true s =
    if contains studio s.maintenance then s else record s { maintenance = studio ∷ s.maintenance }
set_maintenance studio false s = record s {
  maintenance = keep (λ x. not (x == studio)) s.maintenance;
}

start_on : Dict ℕ → ℕ → Option ℕ → Scheduler → Scheduler × Bool
unfolding busy_machines
start_on registry studio none s = (s, false)
start_on registry studio (some machine) s =
    if contains machine (busy_machines registry s)
    then (s, false)
    else (record s { busy = studio ∷ s.busy }, true)

-- The last check of the dispatch loop before it reserves a Studio, after which it awaits nothing:
-- nobody holds the machine. The checks before its awaits are those of `Broker.Queue`.
pub start_studio : Dict ℕ → ℕ → Scheduler → Scheduler × Bool
unfolding start_on
start_studio registry studio s = start_on registry studio (lookup studio registry) s

-- `_busy.discard`, at the end of `_run_item`.
pub finish_studio : ℕ → Scheduler → Scheduler
finish_studio studio s = record s { busy = keep (λ x. not (x == studio)) s.busy }

abbrev pub opposite : Lane → Lane
opposite chat = transcription
opposite transcription = chat

abbrev pub same_lane : Lane → Lane → Bool
same_lane chat chat = true
same_lane transcription transcription = true
same_lane _ _ = false

is_turn : Lane → Option Lane → Bool
is_turn lane none = true
is_turn lane (some turn) = same_lane turn lane

unfoldable pub external_dispatch_allowed : ℕ → Lane → Bool → Scheduler → Bool
unfolding is_turn
external_dispatch_allowed machine lane other_has_work s =
    if other_has_work then is_turn lane (lookup machine s.turns) else true

unfoldable pub note_external_dispatch : ℕ → Lane → Scheduler → Scheduler
note_external_dispatch machine lane s = record s { turns = insert machine (opposite lane) s.turns }

-- It writes the same token, and wakes the scheduler.
unfoldable pub note_external_memory_block : ℕ → Lane → Scheduler → Scheduler
note_external_memory_block machine lane s = record s {
  turns = insert machine (opposite lane) s.turns;
}

-- What the scheduler, the other queues and the operator do to it, one at a time.
pub data Call : Type 0 where
  acquires : (queued : Bool) → List Candidate → (machine : ℕ) → Owner → Call
  releases : (machine : ℕ) → Owner → Call
  maintains : (studio : ℕ) → Bool → Call
  starts : (studio : ℕ) → Call
  finishes : (studio : ℕ) → Call
  dispatches : (machine : ℕ) → Lane → Call
  blocks : (machine : ℕ) → Lane → Call

pub step : Dict ℕ → Scheduler → Call → Scheduler
step registry s (acquires queued studios machine owner) =
    (acquire_external_machine registry queued studios machine owner s).0
step registry s (releases machine owner) = release_external_machine machine owner s
step registry s (maintains studio on) = set_maintenance studio on s
step registry s (starts studio) = (start_studio registry studio s).0
step registry s (finishes studio) = finish_studio studio s
step registry s (dispatches machine lane) = note_external_dispatch machine lane s
step registry s (blocks machine lane) = note_external_memory_block machine lane s

pub run : Dict ℕ → Scheduler → List Call → Scheduler
run registry s [] = s
run registry s (c ∷ cs) = run registry (step registry s c) cs
