-- ===== src/Repair/Create.antt =====
-- `create_or_adopt_batch` of app/backend/enrollment_repair_store.py. Names of machines are numbers in the
-- order of the texts, 0 the blank one; the ids that uuid4 makes are arguments.
use studiohub_mac.Prelude.{
  ℕ, ◌+◌, Bool, true, false, not, ◌&&◌, Option, none, some, List, [], ◌∷◌, ◌++◌, map, leb, ltb,
  ◌==◌, if◌then◌else◌, any, all, keep, length, contains, list_eq, is_some,
}
use studiohub_mac.Repair.Rows.{
  Request, queued, RepairError, no_targets, targets_already_active, integrity_error, no_evidence,
}
use studiohub_mac.Repair.Store.{Store, Batch, batch_queued, Adoption, find, is_active}

-- `sorted` of the set of names that are not blank.
unfoldable pub include : ℕ → List ℕ → List ℕ
include m [] = m ∷ []
include m (x ∷ xs) = if m == x then x ∷ xs else if ltb m x then m ∷ x ∷ xs else x ∷ include m xs

unfoldable pub ordered_targets : List ℕ → List ℕ
unfolding include
ordered_targets [] = []
ordered_targets (m ∷ ms) = if m == 0 then ordered_targets ms else include m (ordered_targets ms)

unfoldable pub first_created : Request → Option Request → Option Request
first_created r none = some r
first_created r (some q) = if leb r.created_at q.created_at then some r else some q

-- The unresolved request of a machine that was created first.
unfoldable pub active_request : ℕ → List Request → Option Request
unfolding first_created is_active
active_request machine [] = none
active_request machine (r ∷ rows) =
    if is_active machine r
    then first_created r (active_request machine rows)
    else active_request machine rows

unfoldable pub found : Option Request → List Request → List Request
found none rest = rest
found (some r) rest = r ∷ rest

unfoldable pub existing_of : List ℕ → List Request → List Request
unfolding found
existing_of [] rows = []
existing_of (m ∷ ms) rows = found (active_request m rows) (existing_of ms rows)

unfoldable pub find_batch : ℕ → List Batch → Option Batch
find_batch id [] = none
find_batch id (b ∷ batches) = if b.id == id then some b else find_batch id batches

-- The ids of the batches of these rows, each once.
unfoldable pub batch_ids : List Request → List ℕ
batch_ids [] = []
batch_ids (r ∷ rows) =
    let rest = batch_ids rows in if contains r.batch rest then rest else r.batch ∷ rest

adopted_by : ℕ → List Adoption → List ℕ
adopted_by batch [] = []
adopted_by batch (a ∷ rest) =
    if a.batch == batch then a.request ∷ adopted_by batch rest else adopted_by batch rest

machine_of : Option Request → List ℕ
machine_of none = []
machine_of (some r) = r.target_machine ∷ []

machines_of : List ℕ → List Request → List ℕ
unfolding machine_of
machines_of [] rows = []
machines_of (id ∷ ids) rows = machine_of (find id rows) ++ machines_of ids rows

same_set : List ℕ → List ℕ → Bool
same_set xs ys = all (λ x. contains x ys) xs && all (λ y. contains y xs) ys

-- The batch whose targets are exactly these.
unfoldable pub same_batch : List ℕ → Option Batch → Bool
same_batch ordered none = false
same_batch ordered (some b) = list_eq b.targets ordered

-- The batch whose targets, with those that it adopted, are these.
unfoldable pub replays : List ℕ → List Request → List ℕ → Option Batch → Bool
unfolding machines_of same_set
replays ordered existing ids none = false
replays ordered existing ids (some b) =
    not (length ids == 0)
    && (all (λ i. any (λ r. r.id == i) existing) ids
        && same_set (b.targets ++ machines_of ids existing) ordered)

-- A batch that is answered again, with the requests it adopted.
unfoldable pub replay_of : List ℕ → List Request → Store → List ℕ → Option (ℕ × List ℕ)
unfolding adopted_by find_batch replays
replay_of ordered existing s [] = none
replay_of ordered existing s (b ∷ ids) =
    let adopted = adopted_by b s.adoptions in
    if replays ordered existing adopted (find_batch b s.batches)
    then some (b, adopted)
    else replay_of ordered existing s ids

unfoldable pub only_batch : List ℕ → Store → List ℕ → Option (ℕ × List ℕ)
unfolding same_batch find_batch
only_batch ordered s (b ∷ []) =
    if same_batch ordered (find_batch b s.batches) then some (b, []) else none
only_batch ordered s _ = none

pub data Created : Type 0 where
  batch_of : (batch : ℕ) → (adopted : List ℕ) → Created
  create_raised : RepairError → Created

unfoldable pub or_replay : Option (ℕ × List ℕ) → Option (ℕ × List ℕ) → Created
or_replay (some (b, adopted)) _ = batch_of b adopted
or_replay none (some (b, adopted)) = batch_of b adopted
or_replay none none = create_raised targets_already_active

unfoldable pub new_request : ℕ → ℕ → ℕ → ℕ → ℕ → Request
new_request id batch ordinal machine now = record {
  id = id;
  batch = batch;
  ordinal = ordinal;
  attempt = 0;
  target_machine = machine;
  bound_target = none;
  bound_controller = none;
  fleet_token_digest = none;
  ticket_digest = none;
  ticket_status = none;
  issued_at = none;
  redemption_expires_at = none;
  dispatched_at = none;
  direct_source = none;
  redeemed_at = none;
  observed_identity = none;
  registry_snapshot = none;
  state = queued;
  error_code = none;
  evidence = no_evidence;
  has_slot = false;
  created_at = now;
  updated_at = now;
}

-- The inserted rows, the id of each by its ordinal.
unfoldable pub new_requests : (ℕ → ℕ) → ℕ → ℕ → ℕ → List ℕ → List Request
unfolding new_request
new_requests fresh batch now ordinal [] = []
new_requests fresh batch now ordinal (m ∷ ms) =
    new_request (fresh ordinal) batch ordinal m now ∷ new_requests fresh batch now (ordinal + 1) ms

-- The primary keys.
unfoldable pub keys_free : List Request → List Request → Bool
keys_free [] rows = true
keys_free (r ∷ new) rows =
    not (is_some (find r.id rows)) && (not (is_some (find r.id new)) && keys_free new rows)

unfoldable pub new_batch : ℕ → ℕ → List ℕ → Batch
new_batch id now targets = record {
  id = id;
  created_at = now;
  updated_at = now;
  state = batch_queued;
  targets = targets;
  total = length targets;
  queued_count = length targets;
  complete_count = 0;
  retryable_count = 0;
  review_count = 0;
  pending_count = 0;
}

unfoldable pub new_targets : List ℕ → List Request → List ℕ
new_targets ordered existing = keep (λ m. not (any (λ r. r.target_machine == m) existing)) ordered

unfoldable pub key_free : ℕ → List Batch → Bool
unfolding find_batch
key_free id batches = not (is_some (find_batch id batches))

unfoldable pub insert_batch : (ℕ → ℕ) → ℕ → ℕ → List ℕ → List Request → Store → Store
unfolding new_requests new_batch
insert_batch fresh batch now targets existing s = record {
  requests = s.requests ++ new_requests fresh batch now 0 targets;
  batches = s.batches ++ new_batch batch now targets ∷ [];
  adoptions = s.adoptions ++ map (λ r. record { batch = batch; request = r.id }) existing;
}

unfoldable pub create_or_adopt : (ℕ → ℕ) → ℕ → ℕ → List ℕ → List Request → Store → Store × Created
unfolding insert_batch new_targets new_requests key_free keys_free only_batch replay_of or_replay
    batch_ids
create_or_adopt fresh batch now ordered existing s =
    if length ordered == 0
    then (s, create_raised no_targets)
    else if length existing == length ordered
    then (
      s,
      or_replay (only_batch ordered s (batch_ids existing))
          (replay_of ordered existing s (batch_ids existing)),
    )
    else if length (new_targets ordered existing) == 0
    then (s, create_raised targets_already_active)
    else if not (
        key_free batch s.batches
        && keys_free (new_requests fresh batch now 0 (new_targets ordered existing)) s.requests)
    then (s, create_raised integrity_error)
    else (
      insert_batch fresh batch now (new_targets ordered existing) existing s,
      batch_of batch (map (λ r. r.id) existing),
    )

-- `create_or_adopt_batch`
unfoldable pub create_or_adopt_batch : (ℕ → ℕ) → ℕ → ℕ → List ℕ → Store → Store × Created
unfolding create_or_adopt ordered_targets existing_of
create_or_adopt_batch fresh batch now machines s =
    create_or_adopt fresh batch now (ordered_targets machines)
      (existing_of (ordered_targets machines) s.requests) s
