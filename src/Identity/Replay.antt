-- ===== src/Identity/Replay.antt =====
-- Idempotency: execution_identity.py, `prepare` and `bind_local_batch`.
use studiohub_mac.Prelude.{
  ℕ, ◌<◌, ◌≡◌, refl, ◌∙◌, Option, none, some, List, [], ◌∷◌, arith, lookup, lookup-insert_self,
  Dict,
}
use studiohub_mac.Identity.{
  Store, Fence, AttemptFence, Acceptance, Evidence, Assignment, Call, prepares, renews, binds,
  Result, ok, err, Renewal, after, passed, prepare, renew_lease, bind_local_batch, bind_rows, step,
  run, find, check_fence, check_attempt, check_acceptance, put_acceptance, put_fence, put_attempt,
  evidence_of,
}
use studiohub_mac.Identity.Inversion.{
  Accepts, prepare-Accepts, renew_lease-Renews, accepted_store, Accepts-accept, prepare-of_accept,
}

-- The accepted row of this evidence's job and key has its attempt and its payload.
abbrev pub IsRecordedRow : Evidence → Option Acceptance → Type 0
IsRecordedRow e none = ⊥
IsRecordedRow e (some r) = (r.attempt ≡ e.attempt) × (r.payload_hash ≡ e.payload_hash)

abbrev pub IsRecorded : Evidence → Store → Type 0
IsRecorded e s = IsRecordedRow e (find e.job e.idem_hash s.accepted)

put_acceptance-own :
    (e : Evidence) (now : ℕ) (rows : List Acceptance) (replay : Option ℕ)
    → check_acceptance e (find e.job e.idem_hash rows) ≡ ok replay
    → IsRecordedRow e (find e.job e.idem_hash (put_acceptance e now rows))
unfolding find check_acceptance put_acceptance
put_acceptance-own e now [] replay h = ground arith
put_acceptance-own e now (r ∷ rows) replay h = ground (arith, put_acceptance-own e now rows replay)

put_acceptance-kept :
    (e d : Evidence) (now : ℕ) (rows : List Acceptance)
    → IsRecordedRow d (find d.job d.idem_hash rows)
    → IsRecordedRow d (find d.job d.idem_hash (put_acceptance e now rows))
unfolding find put_acceptance
put_acceptance-kept e d now [] h = absurd h
put_acceptance-kept e d now (r ∷ rows) h = ground (arith, put_acceptance-kept e d now rows)

bind_rows-kept :
    (d : Evidence) (job hash batch now : ℕ) (rows : List Acceptance)
    → IsRecordedRow d (find d.job d.idem_hash rows)
    → IsRecordedRow d (find d.job d.idem_hash (bind_rows job hash batch now rows))
unfolding find bind_rows
bind_rows-kept d job hash batch now [] h = absurd h
bind_rows-kept d job hash batch now (r ∷ rows) h =
    ground (arith, bind_rows-kept d job hash batch now rows)

-- What a bound row answers to a replay.
bound_replay :
    (e : Evidence) (batch now : ℕ) (rows : List Acceptance)
    → IsRecordedRow e (find e.job e.idem_hash rows)
    → check_acceptance e (find e.job e.idem_hash (bind_rows e.job e.idem_hash batch now rows))
      ≡ ok (some batch)
unfolding find bind_rows check_acceptance
bound_replay e batch now [] h = absurd h
bound_replay e batch now (r ∷ rows) h = ground (arith, bound_replay e batch now rows)

own_fence :
    (e : Evidence) (now : ℕ) (fences : Dict Fence) (o : Option Fence)
    → lookup e.job fences ≡ o
    → check_fence e o ≡ ok tt
    → check_fence e (lookup e.job (put_fence e now o fences)) ≡ ok tt
unfolding check_fence put_fence
own_fence e now fences none p h = rw (lookup-insert_self e.job) (ground arith)
own_fence e now fences (some f) p h = ground (
  arith,
  lookup-insert_self e.job
      (record {
        highest = e.token;
        attempt = e.attempt;
        idem_hash = e.idem_hash;
        payload_hash = e.payload_hash;
        operation = e.operation;
        updated_at = now;
      })
      fences,
)

own_attempt :
    (e : Evidence) (now later deadline : ℕ) (attempts : Dict AttemptFence) (o : Option AttemptFence)
    → check_attempt e now o ≡ ok tt
    → e.lease_expires_at ≡ some deadline
    → later < deadline
    → check_attempt e later (lookup e.attempt (put_attempt e now o attempts)) ≡ ok tt
unfolding check_attempt put_attempt
own_attempt e now later deadline attempts none h l lt =
    rw (lookup-insert_self e.attempt) (ground arith)
own_attempt e now later deadline attempts (some f) h l lt = ground (
  arith,
  lookup-insert_self e.attempt
      (record f { highest = e.token; lease_expires_at = e.lease_expires_at; updated_at = now })
      attempts,
  lookup-insert_self e.attempt (record f { lease_expires_at = some deadline; updated_at = now })
      attempts,
)

accept-IsRecorded :
    (e : Evidence) (now : ℕ) (s t : Store) (r : Option ℕ) → Accepts e now s t r → IsRecorded e t
accept-IsRecorded e now s t r h = rw h.store_eq (put_acceptance-own e now s.accepted r h.replay_ok)

-- Binding the batch and presenting the evidence again.
accept_again :
    (e : Evidence) (now bound later deadline batch : ℕ) (s t : Store) (r : Option ℕ)
    → Accepts e now s t r
    → e.lease_expires_at ≡ some deadline
    → later < deadline
    → Accepts e later
        (bind_local_batch (some e) batch bound t)
        (accepted_store e later (bind_local_batch (some e) batch bound t))
        (some batch)
unfolding bind_local_batch
accept_again e now bound later deadline batch s t r h l lt = record {
  fence_ok = rw h.store_eq (own_fence e now s.fences (lookup e.job s.fences) refl h.fence_ok);
  attempt_ok =
      rw h.store_eq (
        own_attempt e now later deadline s.attempts (lookup e.attempt s.attempts) h.attempt_ok l
          lt);
  replay_ok = bound_replay e batch bound t.accepted (accept-IsRecorded e now s t r h);
  store_eq = refl;
}

-- A replay is safe: an assignment that was accepted and bound to a batch, presented again before
-- its deadline, is accepted again and answers with that batch.
pub prepare_replay :
    (hash : List ℕ → ℕ) (a : Assignment) (now bound later deadline batch : ℕ) (s t : Store)
    (r : Option ℕ)
    → prepare hash a now s ≡ ok (t, r)
    → a.lease_expires_at ≡ some deadline
    → later < deadline
    → (u : Store) × (prepare hash a later
          (bind_local_batch (some (evidence_of hash a)) batch bound t)
        ≡ ok (u, some batch))
prepare_replay hash a now bound later deadline batch s t r p l lt =
    let e = evidence_of hash a in
    let bound_store = bind_local_batch (some e) batch bound t in
    let again =
      accept_again e now bound later deadline batch s t r (prepare-Accepts hash a now s t r p) l
        lt in
    (
      accepted_store e later bound_store,
      prepare-of_accept hash a now later s bound_store (t, r) p (unfold passed in ground arith)
          ∙ Accepts-accept e later bound_store _ (some batch) again,
    )

step-IsRecorded :
    (hash : List ℕ → ℕ) (d : Evidence) (s : Store) (c : ℕ × Call)
    → IsRecorded d s
    → IsRecorded d (step hash s c)
unfolding step bind_local_batch
step-IsRecorded hash d s (now, prepares a) o = go (prepare hash a now s) refl
  where
    go : (m : Result (Store × Option ℕ)) → prepare hash a now s ≡ m → IsRecorded d (after s m)
    go (ok (t, r)) p =
        rw (prepare-Accepts hash a now s t r p).store_eq
          (put_acceptance-kept (evidence_of hash a) d now s.accepted o)
    go (err x) p = o
step-IsRecorded hash d s (now, renews job attempt token deadline) o =
    go (renew_lease job attempt token deadline now s) refl
  where
    go :
        (m : Result (Store × Renewal))
        → renew_lease job attempt token deadline now s ≡ m
        → IsRecorded d (after s m)
    go (ok (t, r)) p = rw (renew_lease-Renews job attempt token deadline now s t r p).store_eq o
    go (err x) p = o
step-IsRecorded hash d s (now, binds e batch) o =
    bind_rows-kept d e.job e.idem_hash batch now s.accepted o

run-IsRecorded :
    (hash : List ℕ → ℕ) (d : Evidence) (s : Store) (cs : List (ℕ × Call))
    → IsRecorded d s
    → IsRecorded d (run hash s cs)
unfolding run
run-IsRecorded hash d s [] o = o
run-IsRecorded hash d s (c ∷ cs) o =
    run-IsRecorded hash d (step hash s c) cs (step-IsRecorded hash d s c o)

recorded_row :
    (d e : Evidence) (o : Option Acceptance) (replay : Option ℕ)
    → IsRecordedRow d o
    → check_acceptance e o ≡ ok replay
    → (e.attempt ≡ d.attempt) × (e.payload_hash ≡ d.payload_hash)
unfolding check_acceptance
recorded_row d e none replay h c = absurd h
recorded_row d e (some r) replay h c = ground arith

-- An idempotency key names one payload: after an assignment was accepted, and any calls at all in
-- between, another assignment of the same job whose key has the same hash is accepted only for the
-- same attempt and the same hash of the payload, whatever its token.
pub key_names_payload :
    (hash : List ℕ → ℕ) (a b : Assignment) (now later : ℕ) (s t u : Store) (r q : Option ℕ)
    (cs : List (ℕ × Call))
    → prepare hash a now s ≡ ok (t, r)
    → prepare hash b later (run hash t cs) ≡ ok (u, q)
    → b.job ≡ a.job
    → hash b.idempotency_key ≡ hash a.idempotency_key
    → (b.attempt ≡ a.attempt) × (hash b.payload ≡ hash a.payload)
unfolding check_acceptance
key_names_payload hash a b now later s t u r q cs p p' j k =
    let first = prepare-Accepts hash a now s t r p in
    let second = prepare-Accepts hash b later (run hash t cs) u q p' in
    let known =
      run-IsRecorded hash (evidence_of hash a) t cs (accept-IsRecorded _ now s t r first) in
    recorded_row (evidence_of hash a) (evidence_of hash b)
      (find a.job (hash a.idempotency_key) (run hash t cs).accepted) q known
      (rw (j, k) at second.replay_ok)
