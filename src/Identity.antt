-- ===== src/Identity.antt =====
-- app/backend/execution_identity.py: the SQLite guard of externally assigned executions. The three
-- tables are one record of state, time is an argument of each call, and an exception rolls the
-- transaction back, so an error carries no state. Identifiers and hashes are compared for equality
-- only and are numbers; SHA-256 and the JSON text of the payload are arguments.
mod Inversion
pub mod Fences
pub mod Lease
pub mod Replay
mod Examples
use studiohub_mac.Prelude.{
  ℕ, ◌≡◌, Bool, true, false, not, ◌&&◌, ◌||◌, Option, none, some, List, [], ◌∷◌, ltb, leb, ◌==◌,
  if◌then◌else◌, length, Dict, lookup, insert,
}

-- A row of genstudio_fences, keyed by the job.
pub record Fence : Type 0 where
  pub highest : ℕ
  pub attempt : ℕ
  pub idem_hash : ℕ
  pub payload_hash : ℕ
  pub operation : ℕ
  pub updated_at : ℕ

-- A row of genstudio_attempt_fences, keyed by the attempt.
pub record AttemptFence : Type 0 where
  pub job : ℕ
  pub highest : ℕ
  pub idem_hash : ℕ
  pub payload_hash : ℕ
  pub lease_expires_at : Option ℕ
  pub updated_at : ℕ

-- A row of genstudio_idempotency, keyed by the job and the hash of the idempotency key.
pub record Acceptance : Type 0 where
  pub job : ℕ
  pub idem_hash : ℕ
  pub attempt : ℕ
  pub payload_hash : ℕ
  pub local_batch : Option ℕ
  pub accepted_at : ℕ
  pub updated_at : ℕ

pub record Store : Type 0 where
  pub fences : Dict Fence
  pub attempts : Dict AttemptFence
  pub accepted : List Acceptance

abbrev pub empty : Store
empty = record { fences = []; attempts = []; accepted = [] }

-- What `_extract` returns, with the text of `_canonical_payload`. The fields that no guard reads
-- (site, model and voice revision, contract hash) are left out: they only pass through.
pub record Assignment : Type 0 where
  pub job : ℕ
  pub attempt : ℕ
  pub idempotency_key : List ℕ
  pub token : ℕ
  pub operation : ℕ
  pub payload : List ℕ
  pub lease_expires_at : Option ℕ

-- The evidence: the idempotency key and the payload are replaced by their hashes.
pub record Evidence : Type 0 where
  pub job : ℕ
  pub attempt : ℕ
  pub idem_hash : ℕ
  pub token : ℕ
  pub operation : ℕ
  pub payload_hash : ℕ
  pub lease_expires_at : Option ℕ

pub data IdentityError : Type 0 where
  bad_key already_expired stale_fence fence_reused stale_attempt attempt_reused lease_dead :
      IdentityError
  idempotency_conflict unknown_attempt stale_renewal no_lease : IdentityError

pub data Result {ℓ} (A : Type ℓ) : Type ℓ where
  err : (error : IdentityError) → Result A
  ok : (value : A) → Result A

-- The rest of a transaction, unless an exception was raised before.
infixl 5 ◌>>=◌
infixl 5 ◌>>◌
abbrev pub ◌>>=◌ {ℓ μ} :
    {Value : Type ℓ} {Next : Type μ} → Result Value → (Value → Result Next) → Result Next
err raised >>= rest = err raised
ok value >>= rest = rest value

abbrev pub ◌>>◌ {μ} : {Next : Type μ} → Result (Unit {0}) → Result Next → Result Next
checked >> rest = checked >>= λ u. rest

abbrev pub max_key_length : ℕ
max_key_length = 512

-- `if test: raise`
abbrev pub refuse_if : Bool → IdentityError → Result (Unit {0})
refuse_if true raised = err raised
refuse_if false raised = ok tt

abbrev pub evidence_of : (List ℕ → ℕ) → Assignment → Evidence
evidence_of hash a = record {
  job = a.job;
  attempt = a.attempt;
  idem_hash = hash a.idempotency_key;
  token = a.token;
  operation = a.operation;
  payload_hash = hash a.payload;
  lease_expires_at = a.lease_expires_at;
}

-- `deadline is not None and deadline <= now`
unfoldable pub passed : Option ℕ → ℕ → Bool
passed none now = false
passed (some deadline) now = leb deadline now

unfoldable pub check_fence : Evidence → Option Fence → Result (Unit {0})
check_fence e none = ok tt
check_fence e (some f) = do
  refuse_if (ltb e.token f.highest) stale_fence
  refuse_if
      (e.token == f.highest
        && not (
            f.attempt == e.attempt
            && (f.idem_hash == e.idem_hash && f.payload_hash == e.payload_hash)))
      fence_reused

unfoldable pub check_attempt : Evidence → ℕ → Option AttemptFence → Result (Unit {0})
unfolding passed
check_attempt e now none = ok tt
check_attempt e now (some f) = do
  refuse_if (ltb e.token f.highest) stale_attempt
  refuse_if
      (not (f.job == e.job && (f.idem_hash == e.idem_hash && f.payload_hash == e.payload_hash)))
      attempt_reused
  refuse_if (passed f.lease_expires_at now) lease_dead

-- SELECT … WHERE genstudio_job_id = ? AND idempotency_hash = ?
unfoldable pub find : ℕ → ℕ → List Acceptance → Option Acceptance
find job hash [] = none
find job hash (r ∷ rows) =
    if r.job == job && r.idem_hash == hash then some r else find job hash rows

-- The batch to replay, or a conflict.
unfoldable pub check_acceptance : Evidence → Option Acceptance → Result (Option ℕ)
check_acceptance e none = ok none
check_acceptance e (some r) =
    if r.attempt == e.attempt && r.payload_hash == e.payload_hash
    then ok r.local_batch
    else err idempotency_conflict

-- `fence is None or token > highest`
unfoldable pub newer : ℕ → Option Fence → Bool
newer token none = true
newer token (some f) = ltb f.highest token

unfoldable pub put_fence : Evidence → ℕ → Option Fence → Dict Fence → Dict Fence
unfolding newer
put_fence e now found fences =
    if newer e.token found
    then insert e.job
        (record {
          highest = e.token;
          attempt = e.attempt;
          idem_hash = e.idem_hash;
          payload_hash = e.payload_hash;
          operation = e.operation;
          updated_at = now;
        })
        fences
    else fences

-- `elif lease_epoch is not None`: only the lease and the time are written.
unfoldable pub extend : Option ℕ → ℕ → ℕ → AttemptFence → Dict AttemptFence → Dict AttemptFence
extend none attempt now f attempts = attempts
extend (some deadline) attempt now f attempts =
    insert attempt (record f { lease_expires_at = some deadline; updated_at = now }) attempts

-- On a conflict of the key only the token, the lease and the time are written.
unfoldable pub put_attempt :
    Evidence → ℕ → Option AttemptFence → Dict AttemptFence → Dict AttemptFence
unfolding extend
put_attempt e now none attempts =
    insert e.attempt
      (record {
        job = e.job;
        highest = e.token;
        idem_hash = e.idem_hash;
        payload_hash = e.payload_hash;
        lease_expires_at = e.lease_expires_at;
        updated_at = now;
      })
      attempts
put_attempt e now (some f) attempts =
    if ltb f.highest e.token
    then insert e.attempt
        (record f { highest = e.token; lease_expires_at = e.lease_expires_at; updated_at = now })
        attempts
    else extend e.lease_expires_at e.attempt now f attempts

-- INSERT … ON CONFLICT DO UPDATE SET updated_at
unfoldable pub put_acceptance : Evidence → ℕ → List Acceptance → List Acceptance
put_acceptance e now [] =
    record {
      job = e.job;
      idem_hash = e.idem_hash;
      attempt = e.attempt;
      payload_hash = e.payload_hash;
      local_batch = none;
      accepted_at = now;
      updated_at = now;
    }
    ∷ []
put_acceptance e now (r ∷ rows) =
    if r.job == e.job && r.idem_hash == e.idem_hash
    then record r { updated_at = now } ∷ rows
    else r ∷ put_acceptance e now rows

-- The transaction of `prepare`: its guards, and then its three writes.
unfoldable pub accept : Evidence → ℕ → Store → Result (Store × Option ℕ)
unfolding check_fence check_attempt check_acceptance put_fence put_attempt
accept e now s = do
  check_fence e (lookup e.job s.fences)
  check_attempt e now (lookup e.attempt s.attempts)
  replay ← check_acceptance e (find e.job e.idem_hash s.accepted)
  ok (
    record {
      fences = put_fence e now (lookup e.job s.fences) s.fences;
      attempts = put_attempt e now (lookup e.attempt s.attempts) s.attempts;
      accepted = put_acceptance e now s.accepted;
    },
    replay,
  )

-- `prepare` of an envelope that carries an identity.
pub prepare : (List ℕ → ℕ) → Assignment → ℕ → Store → Result (Store × Option ℕ)
unfolding passed
prepare hash a now s = do
  refuse_if (length a.idempotency_key == 0 || ltb max_key_length (length a.idempotency_key)) bad_key
  refuse_if (passed a.lease_expires_at now) already_expired
  accept (evidence_of hash a) now s

-- UPDATE … SET local_batch_id WHERE genstudio_job_id = ? AND idempotency_hash = ?
bind_rows : ℕ → ℕ → ℕ → ℕ → List Acceptance → List Acceptance
bind_rows job hash batch now [] = []
bind_rows job hash batch now (r ∷ rows) =
    (if r.job == job && r.idem_hash == hash
      then record r { local_batch = some batch; updated_at = now }
      else r)
    ∷ bind_rows job hash batch now rows

pub bind_local_batch : Option Evidence → ℕ → ℕ → Store → Store
unfolding bind_rows
bind_local_batch none batch now s = s
bind_local_batch (some e) batch now s = record s {
  accepted = bind_rows e.job e.idem_hash batch now s.accepted;
}

-- The `lease_expires_at` of evidence: missing, not a timestamp, or a deadline.
pub data Deadline : Type 0 where
  missing malformed : Deadline
  at : ℕ → Deadline

unfoldable pub lease_expired : Option Deadline → ℕ → Bool
lease_expired none now = false
lease_expired (some missing) now = false
lease_expired (some malformed) now = true
lease_expired (some (at deadline)) now = leb deadline now

later : Acceptance → Option Acceptance → Option Acceptance
later r none = some r
later r (some q) = if ltb r.accepted_at q.accepted_at then some q else some r

-- ORDER BY accepted_at DESC LIMIT 1, over the rows of one attempt
latest_binding : ℕ → List Acceptance → Option Acceptance
unfolding later
latest_binding attempt [] = none
latest_binding attempt (r ∷ rows) =
    if r.attempt == attempt
    then later r (latest_binding attempt rows)
    else latest_binding attempt rows

unfoldable pub require {ℓ} : {A : Type ℓ} → Option A → IdentityError → Result A
require none e = err e
require (some a) e = ok a

unfoldable pub check_renewal : ℕ → ℕ → ℕ → AttemptFence → Fence → Result (Unit {0})
check_renewal job attempt token a f =
    refuse_if
      (not (a.job == job && (a.highest == token && (f.attempt == attempt && f.highest == token))))
      stale_renewal

-- What `renew_lease` answers: the deadline, and the batch that the attempt is bound to.
pub record Renewal : Type 0 where
  pub job : ℕ
  pub attempt : ℕ
  pub token : ℕ
  pub lease_expires_at : ℕ
  pub local_batch : Option ℕ

batch_of : Option Acceptance → Option ℕ
batch_of none = none
batch_of (some r) = r.local_batch

pub renew_lease : ℕ → ℕ → ℕ → ℕ → ℕ → Store → Result (Store × Renewal)
unfolding require check_renewal latest_binding batch_of
renew_lease job attempt token deadline now s = do
  refuse_if (leb deadline now) already_expired
  a ← require (lookup attempt s.attempts) unknown_attempt
  f ← require (lookup job s.fences) unknown_attempt
  check_renewal job attempt token a f
  current ← require a.lease_expires_at no_lease
  refuse_if (leb current now) lease_dead
  ok (
    record s {
      attempts =
          insert attempt (record a { lease_expires_at = some deadline; updated_at = now })
            s.attempts;
    },
    record {
      job = job;
      attempt = attempt;
      token = token;
      lease_expires_at = deadline;
      local_batch = batch_of (latest_binding attempt s.accepted);
    },
  )

-- The calls that write the tables, and what is left of the store after each: an error leaves it.
pub data Call : Type 0 where
  prepares : Assignment → Call
  renews : (job attempt token deadline : ℕ) → Call
  binds : Evidence → ℕ → Call

abbrev pub after {ℓ} : {A : Type ℓ} → Store → Result (Store × A) → Store
after s (ok (t, a)) = t
after s (err e) = s

pub step : (List ℕ → ℕ) → Store → ℕ × Call → Store
unfolding prepare renew_lease bind_local_batch
step hash s (now, prepares a) = after s (prepare hash a now s)
step hash s (now, renews job attempt token deadline) =
    after s (renew_lease job attempt token deadline now s)
step hash s (now, binds e batch) = bind_local_batch (some e) batch now s

pub run : (List ℕ → ℕ) → Store → List (ℕ × Call) → Store
run hash s [] = s
run hash s (c ∷ cs) = run hash (step hash s c) cs
