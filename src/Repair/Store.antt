-- ===== src/Repair/Store.antt =====
-- app/backend/enrollment_repair_store.py: the transactions. Rows stand in the order of their rowid; the
-- primary key makes the first row with an id the only one.
use studiohub_mac.Prelude.{
  ℕ, ◌+◌, Bool, true, false, not, ◌&&◌, Option, none, some, List, [], ◌∷◌, leb, ◌==◌, if◌then◌else◌,
  any, all, keep, length, count_if,
}
use studiohub_mac.Repair.Rows.{
  RequestState, Request, RepairError, integrity_error, is_unresolved, Decision, refuses, keeps,
  writes, writes_and_raises, notes, is_queued, is_early, is_complete, is_retryable, is_review,
  needs_update,
}
use studiohub_mac.Repair.Outcomes.{recover_row, claim_row}

pub data BatchState : Type 0 where
  batch_queued running batch_complete complete_with_attention : BatchState

-- A row of enrollment_repair_batches.
pub record Batch : Type 0 where
  pub id : ℕ
  pub created_at : ℕ
  pub updated_at : ℕ
  pub state : BatchState
  pub targets : List ℕ
  pub total : ℕ
  pub queued_count : ℕ
  pub complete_count : ℕ
  pub retryable_count : ℕ
  pub review_count : ℕ
  pub pending_count : ℕ

-- A row of enrollment_repair_batch_adoptions.
pub record Adoption : Type 0 where
  pub batch : ℕ
  pub request : ℕ

pub record Store : Type 0 where
  pub requests : List Request
  pub batches : List Batch
  pub adoptions : List Adoption

abbrev pub empty : Store
empty = record { requests = []; batches = []; adoptions = [] }

pub data Reply : Type 0 where
  done : Reply
  raised : RepairError → Reply

unfoldable pub find : ℕ → List Request → Option Request
find id [] = none
find id (r ∷ rows) = if r.id == id then some r else find id rows

-- UPDATE … WHERE request_id = ?
unfoldable pub replace : ℕ → Request → List Request → List Request
replace id new [] = []
replace id new (r ∷ rows) = if r.id == id then new ∷ rows else r ∷ replace id new rows

is_pending_count : RequestState → Bool
is_pending_count RequestState.ticket_issued = true
is_pending_count RequestState.dispatched = true
is_pending_count RequestState.redeemed = true
is_pending_count RequestState.verifying = true
is_pending_count RequestState.confirmation_pending = true
is_pending_count RequestState.updating_hub = true
is_pending_count _ = false

batch_state : (total repaired terminal : ℕ) → Bool → BatchState
batch_state total repaired terminal all_queued =
    if not (total == 0) && repaired == total
    then batch_complete
    else if not (total == 0) && terminal == total
    then complete_with_attention
    else if all_queued
    then batch_queued
    else running

-- The counts of `_refresh_batch_locked` over the rows of the batch.
unfoldable pub recount : ℕ → List Request → Batch → Batch
unfolding is_pending_count batch_state
recount now rows b =
    let total = length rows in
    let repaired = count_if (λ r. is_complete r.state) rows in
    let retry = count_if (λ r. is_retryable r.state) rows in
    let review =
      count_if (λ r. is_review r.state) rows + count_if (λ r. needs_update r.state) rows in
    record b {
      updated_at = now;
      state =
          batch_state total repaired (repaired + retry + review)
            (all (λ r. is_queued r.state) rows);
      total = total;
      queued_count = count_if (λ r. is_early r.state) rows;
      complete_count = repaired;
      retryable_count = retry;
      review_count = review;
      pending_count = count_if (λ r. is_pending_count r.state) rows;
    }

unfoldable pub refresh_batches : ℕ → ℕ → List Request → List Batch → List Batch
refresh_batches batch now requests [] = []
refresh_batches batch now requests (b ∷ batches) =
    (if b.id == batch then recount now (keep (λ r. r.batch == batch) requests) b else b)
    ∷ refresh_batches batch now requests batches

-- Store the row, and count its batch again.
unfoldable pub commit : ℕ → Request → ℕ → Store → Store
commit id new now s =
    let requests = replace id new s.requests in
    record s { requests = requests; batches = refresh_batches new.batch now requests s.batches }

-- The unique index one_unresolved_repair_per_target; an UPDATE that breaks it raises. The other unique
-- index, one_repair_dispatch_slot, is kept by `claim_next_dispatch`, the only UPDATE that sets a slot.
unfoldable pub is_active : ℕ → Request → Bool
is_active machine r = r.target_machine == machine && is_unresolved r.state

unfoldable pub conflicts : ℕ → Request → List Request → Bool
conflicts id new rows = leb 2 (count_if (is_active new.target_machine) (replace id new rows))

-- Store the row if it keeps the index.
unfoldable pub update : ℕ → Request → ℕ → Reply → Store → Store × Reply
unfolding commit conflicts
update id new now reply s =
    if conflicts id new s.requests
    then (s, raised integrity_error)
    else (commit id new now s, reply)

unfoldable pub settle : ℕ → ℕ → Store → Request → Decision → Store × Reply
unfolding update
settle id now s r (refuses e) = (s, raised e)
settle id now s r keeps = (s, done)
settle id now s r (writes new) = update id new now done s
settle id now s r (writes_and_raises new e) = update id new now (raised e) s
settle id now s r (notes evidence) =
    (record s { requests = replace id (record r { evidence = evidence }) s.requests }, done)

unfoldable pub decide_row :
    RepairError → ℕ → ℕ → (Request → Decision) → Store → Option Request → Store × Reply
unfolding settle
decide_row missing id now decide s none = (s, raised missing)
decide_row missing id now decide s (some r) = settle id now s r (decide r)

-- BEGIN IMMEDIATE, SELECT the row, decide, and COMMIT or roll back.
unfoldable pub transact : RepairError → ℕ → ℕ → (Request → Decision) → Store → Store × Reply
unfolding decide_row
transact missing id now decide s = decide_row missing id now decide s (find id s.requests)

-- The first row of the order of claims: batches by creation, then the requests of a batch by ordinal.
unfoldable pub earlier : Request → Option Request → Option Request
earlier r none = some r
earlier r (some q) = if leb r.ordinal q.ordinal then some r else some q

unfoldable pub is_free : ℕ → Request → Bool
is_free batch r = r.batch == batch && (is_queued r.state && not r.has_slot)

unfoldable pub first_free : ℕ → List Request → Option Request
unfolding earlier is_free
first_free batch [] = none
first_free batch (r ∷ rows) =
    if is_free batch r then earlier r (first_free batch rows) else first_free batch rows

-- A batch that was created earlier comes first; the rows stand in order, so it stays first at a tie.
unfoldable pub oldest : Batch × Request → Option (Batch × Request) → Option (Batch × Request)
oldest c none = some c
oldest (b, r) (some (b', r')) =
    if leb b.created_at b'.created_at then some (b, r) else some (b', r')

unfoldable pub pair : Batch → Option Request → Option (Batch × Request) → Option (Batch × Request)
unfolding oldest
pair b none rest = rest
pair b (some r) rest = oldest (b, r) rest

unfoldable pub next_claim : List Request → List Batch → Option (Batch × Request)
unfolding first_free pair
next_claim requests [] = none
next_claim requests (b ∷ batches) =
    let rest = next_claim requests batches in pair b (first_free b.id requests) rest

unfoldable pub claim : ℕ → Store → Option (Batch × Request) → Store × Option Request
unfolding commit claim_row
claim now s none = (s, none)
claim now s (some (b, r)) = (commit r.id (claim_row now r) now s, some (claim_row now r))

unfoldable pub slot_taken : List Request → Bool
slot_taken = any (λ r. r.has_slot)

-- `claim_next_dispatch`
unfoldable pub claim_next_dispatch : ℕ → Store → Store × Option Request
unfolding claim slot_taken
claim_next_dispatch now s =
    if slot_taken s.requests then (s, none) else claim now s (next_claim s.requests s.batches)

-- `has_dispatchable_request`
unfoldable pub has_dispatchable_request : Store → Bool
unfolding slot_taken
has_dispatchable_request s =
    not (slot_taken s.requests) && any (λ r. is_queued r.state && not r.has_slot) s.requests

-- The rows that hold the slot, one after the other; None is the exception, which rolls all of it back.
unfoldable pub recover_next : ℕ → Option Request → Option (Store × ℕ) → Option (Store × ℕ)
unfolding commit
recover_next now none rest = none
recover_next now (some r) none = none
recover_next now (some r) (some (s, n)) = some (commit r.id r now s, n + 1)

unfoldable pub recover_rows : ℕ → List Request → Store → Option (Store × ℕ)
unfolding recover_next recover_row
recover_rows now [] s = some (s, 0)
recover_rows now (r ∷ rows) s =
    let rest = recover_rows now rows s in
    if r.has_slot then recover_next now (recover_row now r) rest else rest

-- `recover_scheduling_slot`
unfoldable pub recover_scheduling_slot : ℕ → Store → Option (Store × ℕ)
unfolding recover_rows
recover_scheduling_slot now s = recover_rows now s.requests s
