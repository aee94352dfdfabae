-- ===== src/Broker/Memory.antt =====
-- app/backend/broker.py: the memory governor.
use studiohub_mac.Prelude.{
  ℕ, ◌+◌, ◌≤◌, ◌<◌, ◌≡◌, ◌↔◌, ◌⊎◌, inl, inr, refl, Bool, true, false, not, ◌&&◌, Option, none, some,
  arith, ltb, ◌==◌, if◌then◌else◌, or_else, Option-cases,
}

-- What `_admission_requirements` hands on, and what is known of a Mac.
pub record Requirements : Type 0 where
  pub min_total : Option ℕ
  pub min_free : Option ℕ

pub record Host : Type 0 where
  pub total : ℕ
  pub available : ℕ

pub data Decision : Type 0 where
  skip wait run : Decision

abbrev pub default_min_free_memory : ℕ
default_min_free_memory = 20

unfoldable pub required_free_memory : Requirements → ℕ
required_free_memory mem = or_else mem.min_free default_min_free_memory

-- `min_total and host["total_gb"] < min_total`
unfoldable pub too_small : Option ℕ → ℕ → Bool
too_small none total = false
too_small (some floor) total = not (floor == 0) && ltb total floor

-- `available - reserved < need`, where the difference may be negative.
unfoldable pub memory_gate : Requirements → Host → ℕ → Decision
unfolding required_free_memory too_small
memory_gate mem host reserved =
    if too_small mem.min_total host.total
    then skip
    else if ltb host.available (required_free_memory mem + reserved)
    then wait
    else run

-- What the release of idle siblings reports, and the fresh telemetry after it.
pub record Handoff : Type 0 where
  pub busy : Bool
  pub released : ℕ
  pub refreshed : Option Host

recheck : Requirements → ℕ → Option Host → Decision
recheck mem reserved none = wait
recheck mem reserved (some host) = memory_gate mem host reserved

after_handoff : Requirements → ℕ → Handoff → Decision
unfolding recheck
after_handoff mem reserved h =
    if h.busy then wait else if h.released == 0 then wait else recheck mem reserved h.refreshed

admit : Requirements → ℕ → Handoff → Decision → Decision
admit mem reserved h wait = after_handoff mem reserved h
admit mem reserved h decision = decision

-- `prepare_machine_memory`: the requirements are None for a cloud model, the host is None where there
-- is no telemetry; only a local Studio counts what is reserved.
unfoldable pub prepare_machine_memory :
    Option Requirements → Option Host → Bool → ℕ → Handoff → Decision
unfolding admit after_handoff
prepare_machine_memory none host local reserved h = run
prepare_machine_memory (some mem) none local reserved h = run
prepare_machine_memory (some mem) (some host) local reserved h =
    let held = if local then reserved else 0 in admit mem held h (memory_gate mem host held)

is_run : Decision → Bool
is_run run = true
is_run _ = false

-- `memory_admission_dispatchable`, at telemetry whose numbers parse: a total of 0 is unknown.
pub memory_admission_dispatchable : Option Requirements → Option Host → Bool → ℕ → Bool
unfolding is_run
memory_admission_dispatchable none host local reserved = true
memory_admission_dispatchable (some mem) none local reserved = true
memory_admission_dispatchable (some mem) (some host) local reserved =
    if host.total == 0 then true else is_run (memory_gate mem host (if local then reserved else 0))

-- The machine is large enough, and has the memory free beside what is reserved.
abbrev pub Fits : Requirements → Host → ℕ → Type 0
Fits mem host reserved =
    (or_else mem.min_total 0 ≤ host.total)
    × (or_else mem.min_free default_min_free_memory + reserved ≤ host.available)

-- The gate runs a model exactly where it fits, and gives a machine up exactly where it is too small.
pub memory_gate_iff :
    (mem : Requirements) (host : Host) (reserved : ℕ)
    → ((memory_gate mem host reserved ≡ run) ↔ Fits mem host reserved)
      × ((memory_gate mem host reserved ≡ skip) ↔ (host.total < or_else mem.min_total 0))
unfolding memory_gate
memory_gate_iff mem host reserved = elim (Option-cases mem.min_total) [
  | inl p ↦ ((λ h. ground arith, λ h. ground arith), (λ h. ground arith, λ h. ground arith))
  | inr (floor, p) ↦
      ((λ h. ground arith, λ h. ground arith), (λ h. ground arith, λ h. ground arith))
]

Decision-cases : (d : Decision) → (d ≡ skip) ⊎ ((d ≡ wait) ⊎ (d ≡ run))
Decision-cases skip = inl refl
Decision-cases wait = inr (inl refl)
Decision-cases run = inr (inr refl)

after_handoff-run :
    (mem : Requirements) (reserved : ℕ) (h : Handoff)
    → after_handoff mem reserved h ≡ run
    → (h.busy ≡ false)
      × (0 < h.released)
      × ((fresh : Host) × (h.refreshed ≡ some fresh) × (memory_gate mem fresh reserved ≡ run))
unfolding after_handoff
after_handoff-run mem reserved h p = elim (Option-cases h.refreshed) [
  | inl q ↦ absurd (ground arith)
  | inr (fresh, q) ↦ (ground arith, ground arith, (fresh, q, ground arith))
]

waits_fit :
    (mem : Requirements) (host : Host) (reserved : ℕ)
    → memory_gate mem host reserved ≡ wait
    → or_else mem.min_total 0 ≤ host.total
unfolding memory_gate
waits_fit mem host reserved h = elim (Option-cases mem.min_total) [
  | inl p ↦ ground arith
  | inr (floor, p) ↦ ground arith
]

is_run-run : (d : Decision) → is_run d ≡ true → d ≡ run
unfolding is_run
is_run-run skip h = cc
is_run-run wait h = cc
is_run-run run h = refl

-- Local work starts on a Mac with telemetry only if the model fits it, or fits the fresh telemetry
-- after siblings that were all idle gave their memory back; a Mac that is too small is given up.
pub prepare_machine_memory_lem :
    (mem : Requirements) (host : Host) (local : Bool) (reserved : ℕ) (h : Handoff)
    → prepare_machine_memory (some mem) (some host) local reserved h ≡ run
    → Fits mem host (if local then reserved else 0)
      ⊎ ((h.busy ≡ false)
          × (0 < h.released)
          × (or_else mem.min_total 0 ≤ host.total)
          × ((fresh : Host) × (h.refreshed ≡ some fresh)
              × Fits mem fresh (if local then reserved else 0)))
unfolding prepare_machine_memory
prepare_machine_memory_lem mem host local reserved h p =
    let held = if local then reserved else 0 in
    elim (Decision-cases (memory_gate mem host held)) [
      | inl q ↦ let refused = rw q at p in cc
      | inr (inl q) ↦
          let (idle, given, (fresh, seen, runs)) = after_handoff-run mem held h (rw q at p) in
          inr (
            idle,
            given,
            waits_fit mem host held q,
            (fresh, seen, (memory_gate_iff mem fresh held).0.0 runs),
          )
      | inr (inr q) ↦ inl ((memory_gate_iff mem host held).0.0 q)
    ]

-- What the turn arbiter sees as dispatchable is admitted with no sibling released.
pub dispatchable_runs :
    (mem : Requirements) (host : Host) (local : Bool) (reserved : ℕ) (h : Handoff)
    → 0 < host.total
    → memory_admission_dispatchable (some mem) (some host) local reserved ≡ true
    → prepare_machine_memory (some mem) (some host) local reserved h ≡ run
unfolding memory_admission_dispatchable prepare_machine_memory
dispatchable_runs mem host local reserved h pos d =
    let held = if local then reserved else 0 in
    rw (is_run-run (memory_gate mem host held) (ground arith)) refl
