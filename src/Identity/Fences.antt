-- ===== src/Identity/Fences.antt =====
-- Fencing tokens: execution_identity.py, `prepare` and `renew_lease`.
use studiohub_mac.Prelude.{
  ℕ, ◌≤◌, ◌<◌, ◌≡◌, ◌≢◌, ◌⊎◌, inl, inr, refl, ap, le_refl, Option, none, some, List, [], ◌∷◌, arith,
  lookup, lookup-insert, Bool-cases, ◌==◌,
}
use studiohub_mac.Identity.{
  Store, Fence, Evidence, Assignment, Call, prepares, renews, binds, Result, ok, err, Renewal,
  after, prepare, renew_lease, bind_local_batch, step, run, check_fence, put_fence, evidence_of,
}
use studiohub_mac.Identity.Inversion.{Accepts, prepare-Accepts, renew_lease-Renews}

-- The highest token that a job was seen with; 0 for a job that was never seen.
abbrev pub highest_of : Option Fence → ℕ
highest_of none = 0
highest_of (some f) = f.highest

abbrev pub highest : ℕ → Store → ℕ
highest job s = highest_of (lookup job s.fences)

abbrev fence_of : Evidence → ℕ → Fence
fence_of e now = record {
  highest = e.token;
  attempt = e.attempt;
  idem_hash = e.idem_hash;
  payload_hash = e.payload_hash;
  operation = e.operation;
  updated_at = now;
}

-- Either the job has moved past the token, or the token is still this evidence's.
abbrev pub OwnsRow : Evidence → Option Fence → Type 0
OwnsRow e none = ⊥
OwnsRow e (some f) =
    (e.token < f.highest)
    ⊎ ((f.highest ≡ e.token)
        × (f.attempt ≡ e.attempt)
        × (f.idem_hash ≡ e.idem_hash)
        × (f.payload_hash ≡ e.payload_hash))

abbrev pub Owns : Evidence → Store → Type 0
Owns e s = OwnsRow e (lookup e.job s.fences)

OwnsRow-put_fence :
    (e : Evidence) (now : ℕ) (fences : List (ℕ × Fence)) (o : Option Fence)
    → lookup e.job fences ≡ o
    → check_fence e o ≡ ok tt
    → OwnsRow e (lookup e.job (put_fence e now o fences))
unfolding check_fence put_fence
OwnsRow-put_fence e now fences none p c =
    rw (lookup-insert e.job e.job (fence_of e now) fences) (ground arith)
OwnsRow-put_fence e now fences (some f) p c =
    ground (arith, lookup-insert e.job e.job (fence_of e now) fences)

-- A later acceptance for the same job keeps what the row says of an earlier token.
OwnsRow-kept :
    (e d : Evidence) (now : ℕ) (fences : List (ℕ × Fence)) (o : Option Fence)
    → lookup d.job fences ≡ o
    → check_fence d o ≡ ok tt
    → d.job ≡ e.job
    → OwnsRow e o
    → OwnsRow e (lookup e.job (put_fence d now o fences))
unfolding check_fence put_fence
OwnsRow-kept e d now fences none p c q h = absurd h
OwnsRow-kept e d now fences (some f) p c q h =
    ground (arith, lookup-insert d.job e.job (fence_of d now) fences)

module _ (e : Evidence) (now : ℕ) (s t : Store) (replay : Option ℕ)
    (h : Accepts e now s t replay) where
  accept-highest : (highest e.job s ≤ e.token) × (highest e.job t ≡ e.token)
  unfolding check_fence put_fence
  accept-highest =
      ground (arith, h, h.fence_ok, h.store_eq, lookup-insert e.job e.job (fence_of e now) s.fences)

  accept-other : (job : ℕ) → job ≢ e.job → lookup job t.fences ≡ lookup job s.fences
  unfolding put_fence
  accept-other job ne =
      ground (arith, h.store_eq, lookup-insert e.job job (fence_of e now) s.fences)

  accept-Owns : Owns e t
  accept-Owns =
      rw (h.store_eq) (OwnsRow-put_fence e now s.fences (lookup e.job s.fences) refl h.fence_ok)

  accept-Owns_kept : (d : Evidence) → Owns d s → Owns d t
  accept-Owns_kept d o = elim (Bool-cases (d.job == e.job)) [
    | inl p ↦
        let q : e.job ≡ d.job = ground arith in
        rw h.store_eq
          (OwnsRow-kept d e now s.fences (lookup e.job s.fences) refl h.fence_ok q (rw q o))
    | inr p ↦ rw (accept-other d.job (ground arith)) o
  ]

step_fences :
    (hash : List ℕ → ℕ) (s : Store) (c : ℕ × Call)
    → ((step hash s c).fences ≡ s.fences)
      ⊎ ((e : Evidence) × (r : Option ℕ) × Accepts e c.0 s (step hash s c) r)
unfolding step bind_local_batch
step_fences hash s (now, prepares a) = go (prepare hash a now s) refl
  where
    go :
        (m : Result (Store × Option ℕ))
        → prepare hash a now s ≡ m
        → ((after s m).fences ≡ s.fences)
          ⊎ ((e : Evidence) × (r : Option ℕ) × Accepts e now s (after s m) r)
    go (ok (t, r)) p = inr (evidence_of hash a, r, prepare-Accepts hash a now s t r p)
    go (err x) p = inl refl
step_fences hash s (now, renews job attempt token deadline) =
    go (renew_lease job attempt token deadline now s) refl
  where
    go :
        (m : Result (Store × Renewal))
        → renew_lease job attempt token deadline now s ≡ m
        → ((after s m).fences ≡ s.fences)
          ⊎ ((e : Evidence) × (r : Option ℕ) × Accepts e now s (after s m) r)
    go (ok (t, r)) p =
        inl
          (ap (λ u. u.fences) (renew_lease-Renews job attempt token deadline now s t r p).store_eq)
    go (err x) p = inl refl
step_fences hash s (now, binds e batch) = inl refl

step-highest-le :
    (hash : List ℕ → ℕ) (s : Store) (c : ℕ × Call) (job : ℕ)
    → highest job s ≤ highest job (step hash s c)
step-highest-le hash s c job = elim (step_fences hash s c) [
  | inl p ↦ rw p (le_refl _)
  | inr (e, r, h) ↦ elim (Bool-cases (job == e.job)) [
    | inl q ↦
        let same : job ≡ e.job = ground arith in
        let bounds = accept-highest e c.0 s (step hash s c) r h in
        rw same (omega (arith, bounds.0, bounds.1))
    | inr q ↦ rw (accept-other e c.0 s (step hash s c) r h job (ground arith)) (le_refl _)
  ]
]

-- Whatever is called afterwards, in any order, the highest token seen of a job never falls.
pub run-highest-le :
    (hash : List ℕ → ℕ) (s : Store) (cs : List (ℕ × Call)) (job : ℕ)
    → highest job s ≤ highest job (run hash s cs)
unfolding run
run-highest-le hash s [] job = le_refl _
run-highest-le hash s (c ∷ cs) job =
    omega (arith, step-highest-le hash s c job, run-highest-le hash (step hash s c) cs job)

step-Owns :
    (hash : List ℕ → ℕ) (d : Evidence) (s : Store) (c : ℕ × Call)
    → Owns d s
    → Owns d (step hash s c)
step-Owns hash d s c o = elim (step_fences hash s c) [
  | inl p ↦ rw p o
  | inr (e, r, h) ↦ accept-Owns_kept e c.0 s (step hash s c) r h d o
]

run-Owns :
    (hash : List ℕ → ℕ) (d : Evidence) (s : Store) (cs : List (ℕ × Call))
    → Owns d s
    → Owns d (run hash s cs)
unfolding run
run-Owns hash d s [] o = o
run-Owns hash d s (c ∷ cs) o = run-Owns hash d (step hash s c) cs (step-Owns hash d s c o)

spent_row :
    (d e : Evidence) (o : Option Fence)
    → OwnsRow d o
    → check_fence e o ≡ ok tt
    → e.token ≡ d.token
    → (e.attempt ≡ d.attempt) × (e.idem_hash ≡ d.idem_hash) × (e.payload_hash ≡ d.payload_hash)
unfolding check_fence
spent_row d e none h c k = absurd h
spent_row d e (some f) h c k = ground arith

-- A token is spent once: after `prepare` accepted an assignment, and any calls at all in between,
-- another assignment with the same job and the same token is accepted only if its attempt, the
-- hash of its idempotency key and the hash of its payload are the same.
pub token_spent_once :
    (hash : List ℕ → ℕ) (a b : Assignment) (now later : ℕ) (s t u : Store) (r q : Option ℕ)
    (cs : List (ℕ × Call))
    → prepare hash a now s ≡ ok (t, r)
    → prepare hash b later (run hash t cs) ≡ ok (u, q)
    → b.job ≡ a.job
    → b.token ≡ a.token
    → (b.attempt ≡ a.attempt)
      × (hash b.idempotency_key ≡ hash a.idempotency_key)
      × (hash b.payload ≡ hash a.payload)
unfolding check_fence
token_spent_once hash a b now later s t u r q cs p p' j k =
    let first = prepare-Accepts hash a now s t r p in
    let second = prepare-Accepts hash b later (run hash t cs) u q p' in
    let owned = run-Owns hash (evidence_of hash a) t cs (accept-Owns _ now s t r first) in
    spent_row (evidence_of hash a) (evidence_of hash b) (lookup a.job (run hash t cs).fences) owned
      (rw j at second.fence_ok) k

-- `prepare` accepts no token below the highest seen, and then has seen exactly that token; the row
-- of any other job stays.
pub prepare-highest :
    (hash : List ℕ → ℕ) (a : Assignment) (now other : ℕ) (s t : Store) (r : Option ℕ)
    → prepare hash a now s ≡ ok (t, r)
    → other ≢ a.job
    → (highest a.job s ≤ a.token)
      × (highest a.job t ≡ a.token)
      × (lookup other t.fences ≡ lookup other s.fences)
prepare-highest hash a now other s t r p ne =
    let h = prepare-Accepts hash a now s t r p in
    (
      (accept-highest _ now s t r h).0,
      (accept-highest _ now s t r h).1,
      accept-other _ now s t r h other ne,
    )
