-- ===== src/Identity/Lease.antt =====
-- Leases of attempts: execution_identity.py, `prepare`, `renew_lease` and `bind_local_batch`.
use studiohub_mac.Prelude.{
  ℕ, ◌≤◌, ◌<◌, ◌≡◌, ◌≢◌, refl, ap, true, Option, none, some, List, [], ◌∷◌, arith, lookup,
  lookup-insert_ne, lookup-insert_self, subst, All,
}
use studiohub_mac.Identity.{
  Store, Fence, AttemptFence, Evidence, Assignment, Call, prepares, renews, binds, Result, ok, err,
  Renewal, after, passed, prepare, renew_lease, bind_local_batch, step, run, check_attempt,
  check_renewal, put_attempt, evidence_of,
}
use studiohub_mac.Identity.Inversion.{Accepts, Renews, prepare-Accepts, renew_lease-Renews}

abbrev pub IsDeadRow : ℕ → Option AttemptFence → Type 0
IsDeadRow now none = ⊥
IsDeadRow now (some f) = passed f.lease_expires_at now ≡ true

-- The attempt is known, and its lease had passed at this time.
abbrev pub IsDead : ℕ → ℕ → Store → Type 0
IsDead attempt now s = IsDeadRow now (lookup attempt s.attempts)

passed_mono :
    (o : Option ℕ) (now later : ℕ) → now ≤ later → passed o now ≡ true → passed o later ≡ true
unfolding passed
passed_mono none now later h p = p
passed_mono (some d) now later h p = ground arith

lookup-put_attempt_ne :
    (e : Evidence) (attempt now : ℕ) (attempts : List (ℕ × AttemptFence)) (o : Option AttemptFence)
    → attempt ≢ e.attempt
    → lookup attempt (put_attempt e now o attempts) ≡ lookup attempt attempts
unfolding put_attempt
lookup-put_attempt_ne e attempt now attempts none ne =
    lookup-insert_ne e.attempt attempt _ attempts ne
lookup-put_attempt_ne e attempt now attempts (some f) ne = grind (arith, lookup-insert_ne)

dead_refused :
    (e : Evidence) (now later : ℕ) (o : Option AttemptFence)
    → now ≤ later
    → IsDeadRow now o
    → check_attempt e later o ≢ ok tt
unfolding check_attempt
dead_refused e now later none le h p = absurd h
dead_refused e now later (some f) le h p =
    ground (arith, passed_mono f.lease_expires_at now later le h)

accept-IsDead :
    (e : Evidence) (attempt now later : ℕ) (s t : Store) (r : Option ℕ)
    → now ≤ later
    → Accepts e later s t r
    → IsDead attempt now s
    → (attempt ≢ e.attempt) × IsDead attempt now t
accept-IsDead e attempt now later s t r le h dead = (apart, kept)
  where
    apart : attempt ≢ e.attempt
    apart q = dead_refused e now later (lookup e.attempt s.attempts) le (rw (← q) dead) h.attempt_ok

    kept : IsDead attempt now t
    kept = rw h.store_eq (
        rw (lookup-put_attempt_ne e attempt later s.attempts (lookup e.attempt s.attempts) apart)
          dead)

renew-IsDead :
    (job a attempt token deadline now later : ℕ) (s t : Store)
    → now ≤ later
    → Renews job a token deadline later s t
    → IsDead attempt now s
    → (attempt ≢ a) × IsDead attempt now t
unfolding passed
renew-IsDead job a attempt token deadline now later s t le h dead = (apart, kept)
  where
    apart : attempt ≢ a
    apart q =
        let row : IsDeadRow now (some h.row) =
          subst (IsDeadRow now) h.row_found
            (subst (λ x. IsDeadRow now (lookup x s.attempts)) q dead) in
        ground (arith, row, h.leased, h.alive)

    kept : IsDead attempt now t
    kept = rw h.store_eq (rw (lookup-insert_ne a attempt _ s.attempts apart) dead)

step-IsDead :
    (hash : List ℕ → ℕ) (attempt now : ℕ) (s : Store) (c : ℕ × Call)
    → now ≤ c.0
    → IsDead attempt now s
    → IsDead attempt now (step hash s c)
unfolding step bind_local_batch
step-IsDead hash attempt now s (later, prepares a) le dead = go (prepare hash a later s) refl
  where
    go :
        (m : Result (Store × Option ℕ))
        → prepare hash a later s ≡ m
        → IsDead attempt now (after s m)
    go (ok (t, r)) p =
        (accept-IsDead _ attempt now later s t r le (prepare-Accepts hash a later s t r p) dead).1
    go (err x) p = dead
step-IsDead hash attempt now s (later, renews job a token deadline) le dead =
    go (renew_lease job a token deadline later s) refl
  where
    go :
        (m : Result (Store × Renewal))
        → renew_lease job a token deadline later s ≡ m
        → IsDead attempt now (after s m)
    go (ok (t, r)) p =
        (renew-IsDead job a attempt token deadline now later s t le
          (renew_lease-Renews job a token deadline later s t r p) dead).1
    go (err x) p = dead
step-IsDead hash attempt now s (later, binds e batch) le dead = dead

run-IsDead :
    (hash : List ℕ → ℕ) (attempt now : ℕ) (s : Store) (cs : List (ℕ × Call))
    → All (λ c. now ≤ c.0) cs
    → IsDead attempt now s
    → IsDead attempt now (run hash s cs)
unfolding run
run-IsDead hash attempt now s [] le dead = dead
run-IsDead hash attempt now s (c ∷ cs) le dead =
    run-IsDead hash attempt now (step hash s c) cs le.1 (step-IsDead hash attempt now s c le.0 dead)

-- An attempt whose lease has passed stays dead: whatever is called from then on, no assignment and
-- no renewal of that attempt succeeds, with any token and any new deadline.
pub no_revival :
    (hash : List ℕ → ℕ) (a : Assignment) (now later job token deadline : ℕ) (s t : Store)
    (r : Option ℕ) (renewal : Renewal) (cs : List (ℕ × Call))
    → IsDead a.attempt now s
    → All (λ c. now ≤ c.0) cs
    → now ≤ later
    → (prepare hash a later (run hash s cs) ≢ ok (t, r))
      × (renew_lease job a.attempt token deadline later (run hash s cs) ≢ ok (t, renewal))
no_revival hash a now later job token deadline s t r renewal cs dead times le =
    let still = run-IsDead hash a.attempt now s cs times dead in
    (
      λ p.
          (accept-IsDead (evidence_of hash a) a.attempt now later _ t r le
              (prepare-Accepts hash a later _ t r p) still).0
            refl,
      λ p.
          (renew-IsDead job a.attempt a.attempt token deadline now later _ t le
              (renew_lease-Renews job a.attempt token deadline later _ t renewal p) still).0
            refl,
    )

-- A renewal that succeeds is of the newest token of the job and of the attempt, before the old
-- deadline, to a deadline in the future; it moves that attempt's deadline and nothing else.
pub renew_lease_lem :
    (job attempt other token deadline now : ℕ) (s t : Store) (r : Renewal)
    → renew_lease job attempt token deadline now s ≡ ok (t, r)
    → other ≢ attempt
    → (row : AttemptFence) × (fence : Fence) × (old : ℕ) × (lookup attempt s.attempts ≡ some row)
      × (lookup job s.fences ≡ some fence)
      × (row.job ≡ job)
      × (row.highest ≡ token)
      × (fence.attempt ≡ attempt)
      × (fence.highest ≡ token)
      × (row.lease_expires_at ≡ some old)
      × (now < old)
      × (now < deadline)
      × (lookup attempt t.attempts
          ≡ some (record row { lease_expires_at = some deadline; updated_at = now }))
      × (lookup other t.attempts ≡ lookup other s.attempts)
      × (t.fences ≡ s.fences)
      × (t.accepted ≡ s.accepted)
unfolding check_renewal
renew_lease_lem job attempt other token deadline now s t r p ne =
    let h = renew_lease-Renews job attempt token deadline now s t r p in
    (
      h.row,
      h.fence,
      h.current,
      h.row_found,
      h.fence_found,
      ground (arith, h.matches),
      ground (arith, h.matches),
      ground (arith, h.matches),
      ground (arith, h.matches),
      h.leased,
      ground (arith, h.alive),
      ground (arith, h.future),
      rw h.store_eq (lookup-insert_self attempt _ s.attempts),
      rw h.store_eq (lookup-insert_ne attempt other _ s.attempts ne),
      ap (λ u. u.fences) h.store_eq,
      ap (λ u. u.accepted) h.store_eq,
    )
