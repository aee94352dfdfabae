-- ===== src/Identity/Examples.antt =====
-- Concrete runs of the execution identity: app/backend/execution_identity.py.
use studiohub_mac.Prelude.{
  ℕ, ◌≤◌, ◌<◌, ◌≡◌, ◌≢◌, refl, none, some, [], ◌∷◌, length, lookup, insert, arith,
}
use studiohub_mac.Identity.{
  passed, accept, find, put_acceptance, step, Fence, AttemptFence, Acceptance, Store, empty,
  Assignment, ok, err, prepare, renew_lease, bind_local_batch, evidence_of, prepares, renews, run,
  stale_fence, lease_dead,
}
use studiohub_mac.Identity.Fences.{highest, run-highest-le, token_spent_once}
use studiohub_mac.Identity.Lease.{IsDead, no_revival, renew_lease_lem}
use studiohub_mac.Identity.Replay.{prepare_replay, key_names_payload}

-- Job 1, attempt 7, token 5, with a lease until 100; the hash of a text is its length.
abbrev first : Assignment
first = record {
  job = 1;
  attempt = 7;
  idempotency_key = 1 ∷ 2 ∷ 3 ∷ [];
  token = 5;
  operation = 0;
  payload = 4 ∷ 4 ∷ [];
  lease_expires_at = some 100;
}

abbrev first_fence : Fence
first_fence = record {
  highest = 5;
  attempt = 7;
  idem_hash = 3;
  payload_hash = 2;
  operation = 0;
  updated_at = 10;
}

abbrev first_attempt : AttemptFence
first_attempt = record {
  job = 1;
  highest = 5;
  idem_hash = 3;
  payload_hash = 2;
  lease_expires_at = some 100;
  updated_at = 10;
}

abbrev first_row : ℕ → Acceptance
first_row now = record {
  job = 1;
  idem_hash = 3;
  attempt = 7;
  payload_hash = 2;
  local_batch = none;
  accepted_at = 10;
  updated_at = now;
}

abbrev one_accepted : ℕ → Store
one_accepted now = record {
  fences = (1, first_fence) ∷ [];
  attempts = (7, record first_attempt { updated_at = now }) ∷ [];
  accepted = first_row now ∷ [];
}

first_accepted : prepare length first 10 empty ≡ ok (one_accepted 10, none)
unfolding prepare accept find put_acceptance lookup insert
first_accepted = refl

-- The same assignment again at 20.
again_accepted : prepare length first 20 (one_accepted 10) ≡ ok (one_accepted 20, none)
unfolding prepare accept find put_acceptance lookup insert
again_accepted = refl

-- A lower token is refused, and so is the same attempt after its lease.
lower_refused :
    prepare length (record first { token = 4; attempt = 8 }) 20 (one_accepted 10) ≡ err stale_fence
unfolding prepare accept lookup
lower_refused = refl

late_refused :
    prepare length (record first { lease_expires_at = some 200 }) 100 (one_accepted 10)
    ≡ err lease_dead
unfolding prepare accept lookup
late_refused = refl

one-IsDead : IsDead 7 100 (one_accepted 10)
unfolding lookup passed
one-IsDead = refl

abbrev lower : Assignment
lower = record first { token = 4; attempt = 8 }

-- The store after a refused call in between.
replayed :
    prepare length first 20 (run length (one_accepted 10) ((15, prepares lower) ∷ []))
    ≡ ok (one_accepted 20, none)
unfolding prepare accept find put_acceptance lookup insert run step
replayed = refl

no_revival_example :
    (prepare length
        (record first { token = 6; lease_expires_at = some 900 })
        120
        (run length (one_accepted 10) ((110, renews 1 7 5 500) ∷ []))
      ≢ ok (empty, none))
    × (renew_lease 1 7 5 600 120 (run length (one_accepted 10) ((110, renews 1 7 5 500) ∷ []))
        ≢ ok (
          empty,
          record { job = 1; attempt = 7; token = 5; lease_expires_at = 600; local_batch = none },
        ))
no_revival_example =
    no_revival length (record first { token = 6; lease_expires_at = some 900 }) 100 120 1 5 600
      (one_accepted 10) empty none
      (record { job = 1; attempt = 7; token = 5; lease_expires_at = 600; local_batch = none })
      ((110, renews 1 7 5 500) ∷ []) one-IsDead (omega arith, tt) (omega arith)

token_spent_once_example :
    (first.attempt ≡ first.attempt)
    × (length first.idempotency_key ≡ length first.idempotency_key)
    × (length first.payload ≡ length first.payload)
token_spent_once_example =
    token_spent_once length first first 10 20 empty (one_accepted 10) (one_accepted 20) none none
      ((15, prepares lower) ∷ []) first_accepted replayed refl refl

key_names_payload_example :
    (first.attempt ≡ first.attempt) × (length first.payload ≡ length first.payload)
key_names_payload_example =
    key_names_payload length first first 10 20 empty (one_accepted 10) (one_accepted 20) none none
      ((15, prepares lower) ∷ []) first_accepted replayed refl refl

prepare_replay_example :
    (u : Store) × (prepare length first 20
        (bind_local_batch (some (evidence_of length first)) 42 11 (one_accepted 10))
      ≡ ok (u, some 42))
prepare_replay_example =
    prepare_replay length first 10 11 20 100 42 empty (one_accepted 10) none first_accepted refl
      (omega arith)

run-highest-le_example :
    highest 1 (one_accepted 10)
    ≤ highest 1 (run length (one_accepted 10) ((15, prepares lower) ∷ []))
run-highest-le_example = run-highest-le length (one_accepted 10) ((15, prepares lower) ∷ []) 1

abbrev renewed : Store
renewed = record (one_accepted 10) {
  attempts = (7, record first_attempt { lease_expires_at = some 300; updated_at = 50 }) ∷ [];
}

renewed_ok :
    renew_lease 1 7 5 300 50 (one_accepted 10)
    ≡ ok (
      renewed,
      record { job = 1; attempt = 7; token = 5; lease_expires_at = 300; local_batch = none },
    )
unfolding renew_lease lookup insert
renewed_ok = refl

renew_lease_lem_example :
    (row : AttemptFence) × (fence : Fence) × (old : ℕ) × (lookup 7 (one_accepted 10).attempts
      ≡ some row)
    × (lookup 1 (one_accepted 10).fences ≡ some fence)
    × (row.job ≡ 1)
    × (row.highest ≡ 5)
    × (fence.attempt ≡ 7)
    × (fence.highest ≡ 5)
    × (row.lease_expires_at ≡ some old)
    × (50 < old)
    × (50 < 300)
    × (lookup 7 renewed.attempts
        ≡ some (record row { lease_expires_at = some 300; updated_at = 50 }))
    × (lookup 8 renewed.attempts ≡ lookup 8 (one_accepted 10).attempts)
    × (renewed.fences ≡ (one_accepted 10).fences)
    × (renewed.accepted ≡ (one_accepted 10).accepted)
renew_lease_lem_example =
    renew_lease_lem 1 7 8 5 300 50 (one_accepted 10) renewed
      (record { job = 1; attempt = 7; token = 5; lease_expires_at = 300; local_batch = none })
      renewed_ok (λ e. omega arith)
