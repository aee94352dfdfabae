-- ===== src/Broker/Leases/Exclusion.antt =====
-- One heavy job for each machine: app/backend/broker.py.
use studiohub_mac.Prelude.{
  ℕ, ◌+◌, ◌≤◌, ◌≡◌, ◌≢◌, inl, inr, Option-cases, Bool-cases, refl, sym, ap, Bool, true, false, not,
  ◌&&◌, Option, none, some, List, [], ◌∷◌, ◌++◌, arith, ◌==◌, if◌then◌else◌, contains, keep, Dict,
  lookup, insert, remove, count_if, lookup-insert_self, lookup-remove_self,
}
use studiohub_mac.Broker.Leases.{
  Owner, Scheduler, Candidate, idle, keys, machines_of, busy_machines, acquire_external_machine,
  release_external_machine, set_maintenance, start_studio, finish_studio, note_external_dispatch,
  Call, acquires, releases, maintains, starts, finishes, dispatches, blocks,
  note_external_memory_block, step, run, start_on, pending_render_for_machine,
}

abbrev pub holders : ℕ → List ℕ → ℕ
holders machine = count_if (λ x. x == machine)

pub count-absent : (k : ℕ) (xs : List ℕ) → contains k xs ≡ false → holders k xs ≡ 0
count-absent k [] h = refl
count-absent k (x ∷ xs) h = ground (arith, count-absent k xs)

count-append : (k : ℕ) (xs ys : List ℕ) → holders k (xs ++ ys) ≡ holders k xs + holders k ys
count-append k [] ys = omega arith
count-append k (x ∷ xs) ys = ground (arith, count-append k xs ys)

count-keys-insert {ℓ} :
    {V : Type ℓ} (k m : ℕ) (v : V) (d : Dict V)
    → holders k (keys (insert m v d)) ≤ holders k (keys d) + (if m == k then 1 else 0)
unfolding insert
count-keys-insert k m v [] = ground arith
count-keys-insert k m v ((j, w) ∷ d) = ground (arith, count-keys-insert k m v d)

count-keys-remove {ℓ} :
    {V : Type ℓ} (k m : ℕ) (d : Dict V) → holders k (keys (remove m d)) ≤ holders k (keys d)
unfolding remove
count-keys-remove k m [] = omega arith
count-keys-remove k m ((j, w) ∷ d) = ground (arith, count-keys-remove k m d)

count-machines_of-keep :
    (k : ℕ) (registry : Dict ℕ) (p : ℕ → Bool) (studios : List ℕ)
    → holders k (machines_of registry (keep p studios)) ≤ holders k (machines_of registry studios)
unfolding machines_of
count-machines_of-keep k registry p [] = omega arith
count-machines_of-keep k registry p (x ∷ xs) =
    ground (arith, count-machines_of-keep k registry p xs)

-- At most one external lease or batch item is on the machine.
abbrev pub IsExclusive : Dict ℕ → Scheduler → ℕ → Type 0
IsExclusive registry s k = holders k (busy_machines registry s) ≤ 1

module _ (registry : Dict ℕ) (k : ℕ) (s : Scheduler) (h : IsExclusive registry s k) where
  acquire-IsExclusive :
      (queued : Bool) (studios : List Candidate) (machine : ℕ) (owner : Owner)
      → IsExclusive registry (acquire_external_machine registry queued studios machine owner s).0 k
  unfolding acquire_external_machine busy_machines
  acquire-IsExclusive queued studios machine owner = ground (
    arith,
    count-keys-insert k machine owner s.leases,
    count-append k (keys s.leases) (machines_of registry s.busy),
    count-append k (keys (insert machine owner s.leases)) (machines_of registry s.busy),
    count-absent machine (keys s.leases ++ machines_of registry s.busy),
  )

  release-IsExclusive :
      (machine : ℕ) (owner : Owner)
      → IsExclusive registry (release_external_machine machine owner s) k
  unfolding release_external_machine busy_machines
  release-IsExclusive machine owner = ground (
    arith,
    count-keys-remove k machine s.leases,
    count-append k (keys s.leases) (machines_of registry s.busy),
    count-append k (keys (remove machine s.leases)) (machines_of registry s.busy),
  )

  finish-IsExclusive : (studio : ℕ) → IsExclusive registry (finish_studio studio s) k
  unfolding finish_studio busy_machines
  finish-IsExclusive studio = omega (
    arith,
    count-machines_of-keep k registry (λ x. not (x == studio)) s.busy,
    count-append k (keys s.leases) (machines_of registry s.busy),
    count-append k (keys s.leases) (machines_of registry (keep (λ x. not (x == studio)) s.busy)),
  )

  start_on-IsExclusive :
      (studio : ℕ) (o : Option ℕ)
      → lookup studio registry ≡ o
      → IsExclusive registry (start_on registry studio o s).0 k
  unfolding start_on busy_machines machines_of
  start_on-IsExclusive studio none e = h
  start_on-IsExclusive studio (some machine) e =
      let started : machines_of registry (studio ∷ s.busy) ≡ machine ∷ machines_of registry s.busy =
        rw e refl in
      ground (
        arith,
        started,
        count-append k (keys s.leases) (machines_of registry s.busy),
        count-append k (keys s.leases) (machine ∷ machines_of registry s.busy),
        count-absent machine (keys s.leases ++ machines_of registry s.busy),
      )

  maintain-IsExclusive :
      (studio : ℕ) (on : Bool) → IsExclusive registry (set_maintenance studio on s) k
  unfolding set_maintenance busy_machines
  maintain-IsExclusive studio true = ground arith
  maintain-IsExclusive studio false = h

step-IsExclusive :
    (registry : Dict ℕ) (k : ℕ) (s : Scheduler) (c : Call)
    → IsExclusive registry s k
    → IsExclusive registry (step registry s c) k
unfolding step start_studio note_external_dispatch note_external_memory_block
step-IsExclusive registry k s (acquires queued studios machine owner) h =
    acquire-IsExclusive registry k s h queued studios machine owner
step-IsExclusive registry k s (releases machine owner) h =
    release-IsExclusive registry k s h machine owner
step-IsExclusive registry k s (maintains studio on) h =
    maintain-IsExclusive registry k s h studio on
step-IsExclusive registry k s (starts studio) h =
    start_on-IsExclusive registry k s h studio (lookup studio registry) refl
step-IsExclusive registry k s (finishes studio) h = finish-IsExclusive registry k s h studio
step-IsExclusive registry k s (dispatches machine lane) h = h
step-IsExclusive registry k s (blocks machine lane) h = h

run-IsExclusive :
    (registry : Dict ℕ) (k : ℕ) (s : Scheduler) (cs : List Call)
    → IsExclusive registry s k
    → IsExclusive registry (run registry s cs) k
unfolding run
run-IsExclusive registry k s [] h = h
run-IsExclusive registry k s (c ∷ cs) h =
    run-IsExclusive registry k (step registry s c) cs (step-IsExclusive registry k s c h)

-- However the scheduler, the chat and transcription queues and the operator interleave, a machine
-- never carries two heavy jobs: its external lease and the batch items on its Studios are together
-- at most one.
pub one_job_per_machine :
    (registry : Dict ℕ) (cs : List Call) (machine : ℕ)
    → holders machine (busy_machines registry (run registry idle cs)) ≤ 1
unfolding busy_machines
one_job_per_machine registry cs machine =
    run-IsExclusive registry machine idle cs (unfold busy_machines machines_of in omega arith)

contains-keys-insert {ℓ} :
    {V : Type ℓ} (m : ℕ) (v : V) (d : Dict V) (rest : List ℕ)
    → contains m (keys (insert m v d) ++ rest) ≡ true
unfolding insert
contains-keys-insert m v [] rest = ground arith
contains-keys-insert m v ((j, w) ∷ d) rest = ground (arith, contains-keys-insert m v d rest)

acquire-parts :
    (busy held : Bool) (s new t : Scheduler)
    → let result : Scheduler × Bool =
        if busy then (s, false) else if held then (s, false) else (new, true) in
      result ≡ (t, true) → (busy ≡ false) × (t ≡ new)
acquire-parts true held s new t h = let no_lease : false ≡ true = ap (λ x. x.1) h in cc
acquire-parts false true s new t h = let no_lease : false ≡ true = ap (λ x. x.1) h in cc
acquire-parts false false s new t h = (refl, sym (ap (λ x. x.0) h))

-- A release leaves the owner no lease of the machine.
pub release-not_owner :
    (machine : ℕ) (owner : Owner) (s : Scheduler)
    → lookup machine (release_external_machine machine owner s).leases ≢ some owner
unfolding release_external_machine
release-not_owner machine owner s = elim (Option-cases (lookup machine s.leases)) [
  | inl p ↦ rw p (λ k. ground (arith, p, k))
  | inr (o, p) ↦ elim (Bool-cases (o.name == owner.name)) [
    | inl q ↦ rw (p, q) (λ k. ground (arith, lookup-remove_self machine s.leases, k))
    | inr q ↦
        rw (p, q)
          (λ k.
            let same : o ≡ owner = ground (arith, p, k) in
            let name : o.name ≡ owner.name = ap (λ x. x.name) same in ground arith)
  ]
]

-- A machine is leased only when nobody held it, the lease is the caller's, and only a caller of the
-- same name gives it back.
pub acquire_external_machine_lem :
    (registry : Dict ℕ) (queued : Bool) (studios : List Candidate) (machine : ℕ)
    (owner thief : Owner) (s t : Scheduler)
    → acquire_external_machine registry queued studios machine owner s ≡ (t, true)
    → (thief.name == owner.name) ≡ false
    → (holders machine (busy_machines registry s) ≡ 0)
      × (lookup machine t.leases ≡ some owner)
      × ((acquire_external_machine registry queued studios machine thief t).1 ≡ false)
      × (release_external_machine machine thief t ≡ t)
      × (lookup machine (release_external_machine machine owner t).leases ≡ none)
unfolding acquire_external_machine release_external_machine busy_machines
acquire_external_machine_lem registry queued studios machine owner thief s t h other =
    let (free, leased) =
      acquire-parts (contains machine (busy_machines registry s))
        (not owner.is_render && pending_render_for_machine queued studios machine) s
        (record s { leases = insert machine owner s.leases }) t h in
    let own : lookup machine t.leases ≡ some owner =
      rw leased (lookup-insert_self machine owner s.leases) in
    let taken : contains machine (busy_machines registry t) ≡ true =
      rw leased (contains-keys-insert machine owner s.leases (machines_of registry s.busy)) in
    (
      count-absent machine (busy_machines registry s) free,
      own,
      rw taken refl,
      rw own (ground arith),
      rw own (ground (arith, lookup-remove_self machine t.leases)),
    )
