-- ===== src/Repair/Created.antt =====
-- `create_or_adopt_batch` of app/backend/enrollment_repair_store.py: every target that is named is being
-- repaired, once.
use studiohub_mac.Prelude.{
  ℕ, ◌+◌, ◌≤◌, ◌<◌, ◌≡◌, ◌≢◌, inl, inr, refl, true, false, not, ◌&&◌, Option, none, some, List, [],
  ◌∷◌, arith, ◌==◌, if◌then◌else◌, length, count_if, Bool-cases, Option-cases, is_some, any,
  contains,
}
use studiohub_mac.Repair.Rows.{Request, no_targets, targets_already_active, integrity_error}
use studiohub_mac.Repair.Store.{Store, empty, is_active}
use studiohub_mac.Repair.Create.{
  include, ordered_targets, active_request, found, existing_of, new_requests, new_targets,
  keys_free, key_free, insert_batch, batch_of, create_raised, create_or_adopt,
  create_or_adopt_batch,
}
use studiohub_mac.Repair.Calls.{Call, run}
use studiohub_mac.Repair.Targets.{
  times, times-keep, active-count, active_request-OfMachine, existing-any, Ascends-times,
  ordered_targets-Ascends,
}
use studiohub_mac.Repair.Inserts.{new-count, count-append}
use studiohub_mac.Repair.Runs.{IsSound, run-IsSound}

include-times :
    (k m : ℕ) (xs : List ℕ)
    → (times k xs + (if m == k then 1 else 0)) ≤ times k (include m xs) + times k xs
unfolding include
include-times k m [] = ground arith
include-times k m (x ∷ xs) = ground (arith, include-times k m xs)

include-keeps : (k m : ℕ) (xs : List ℕ) → times k xs ≤ times k (include m xs)
unfolding include
include-keeps k m [] = omega arith
include-keeps k m (x ∷ xs) = ground (arith, include-keeps k m xs)

-- A name that is not blank is among the ordered ones.
ordered-times :
    (k : ℕ) (ms : List ℕ) → contains k ms ≡ true → k ≢ 0 → 0 < times k (ordered_targets ms)
unfolding ordered_targets
ordered-times k [] h n = cc
ordered-times k (m ∷ ms) h n = ground (
  arith,
  ordered-times k ms,
  include-times k m (ordered_targets ms),
  include-keeps k m (ordered_targets ms),
)

-- As many unresolved requests as targets: each target has one.
found-length :
    (o : Option Request) (rest : List Request)
    → length (found o rest) ≡ (if is_some o then 1 else 0) + length rest
unfolding found
found-length none rest = omega arith
found-length (some r) rest = omega arith

existing-le : (ms : List ℕ) (rows : List Request) → length (existing_of ms rows) ≤ length ms
unfolding existing_of
existing-le [] rows = omega arith
existing-le (m ∷ ms) rows =
    ground (arith, existing-le ms rows, found-length (active_request m rows) (existing_of ms rows))

all-active :
    (k : ℕ) (ms : List ℕ) (rows : List Request)
    → length (existing_of ms rows) ≡ length ms
    → 0 < times k ms
    → is_some (active_request k rows) ≡ true
unfolding existing_of
all-active k [] rows h p = absurd (ground arith)
all-active k (m ∷ ms) rows h p =
    let counted = found-length (active_request m rows) (existing_of ms rows) in
    let bound = existing-le ms rows in
    elim (Bool-cases (m == k)) [
      | inl e ↦ let same : m ≡ k = ground arith in rw (← same) (ground arith)
      | inr e ↦ all-active k ms rows (ground arith) (ground arith)
    ]

active-some :
    (k : ℕ) (rows : List Request)
    → is_some (active_request k rows) ≡ true
    → 0 < count_if (is_active k) rows
unfolding active_request
active-some k [] h = cc
active-some k (r ∷ rows) h = ground (arith, active-some k rows)

existing-only :
    (k : ℕ) (ms : List ℕ) (rows : List Request)
    → active_request k rows ≡ none
    → any (λ r. r.target_machine == k) (existing_of ms rows) ≡ false
unfolding existing_of found
existing-only k [] rows h = refl
existing-only k (m ∷ ms) rows h = elim (Option-cases (active_request m rows)) [
  | inl p ↦ rw p (existing-only k ms rows h)
  | inr (r, p) ↦
      let of_machine : r.target_machine ≡ m = rw p at (active_request-OfMachine m rows) in
      elim (Bool-cases (m == k)) [
        | inl e ↦
            let same : m ≡ k = ground arith in
            let lost : active_request m rows ≡ none = rw same h in absurd (ground arith)
        | inr e ↦ rw p (rw of_machine (rw e (existing-only k ms rows h)))
      ]
]

new-times :
    (k : ℕ) (machines : List ℕ) (rows : List Request)
    → 0 < times k (ordered_targets machines)
    → count_if (is_active k) rows ≤ 1
    → let ordered = ordered_targets machines in
      count_if (is_active k) rows + times k (new_targets ordered (existing_of ordered rows)) ≡ 1
unfolding new_targets
new-times k machines rows named one =
    let ordered = ordered_targets machines in
    let existing = existing_of ordered rows in
    let kept = times-keep k (λ m. not (any (λ r. r.target_machine == m) existing)) ordered in
    let once = Ascends-times k ordered (ordered_targets-Ascends machines) in
    elim (Option-cases (active_request k rows)) [
      | inl p ↦ ground (arith, active-count k rows p, existing-only k ordered rows p)
      | inr (r, p) ↦
          let active : is_some (active_request k rows) ≡ true = rw p refl in
          ground (arith, existing-any k ordered rows named active, active-some k rows active)
    ]

module _ (fresh : ℕ → ℕ) (batch now k : ℕ) (machines adopted : List ℕ) (b : ℕ) (s : Store)
    (h : IsSound s) (named : 0 < times k (ordered_targets machines)) where
  inserted-active :
      let ordered = ordered_targets machines in
      let existing = existing_of ordered s.requests in
      let t = insert_batch fresh batch now (new_targets ordered existing) existing s in
      count_if (is_active k) t.requests ≡ 1
  unfolding insert_batch
  inserted-active =
      let ordered = ordered_targets machines in
      let targets = new_targets ordered (existing_of ordered s.requests) in
      omega (
        arith,
        count-append (is_active k) s.requests (new_requests fresh batch now 0 targets),
        new-count fresh batch now k 0 targets,
        new-times k machines s.requests named (h.rows_sound.one_active k),
      )

  created-active :
      (create_or_adopt_batch fresh batch now machines s).1 ≡ batch_of b adopted
      → count_if (is_active k) (create_or_adopt_batch fresh batch now machines s).0.requests ≡ 1
  unfolding create_or_adopt_batch create_or_adopt
  created-active p =
      let ordered = ordered_targets machines in
      let existing = existing_of ordered s.requests in
      let targets = new_targets ordered existing in
      elim (Bool-cases (length ordered == 0)) [
        | inl a ↦ let e : create_raised no_targets ≡ batch_of b adopted = rw a at p in cc
        | inr a ↦ elim (Bool-cases (length existing == length ordered)) [
          | inl c ↦
              let active = all-active k ordered s.requests (ground arith) named in
              rw (a, c) (ground (arith, h.rows_sound.one_active k, active-some k s.requests active))
          | inr c ↦ elim (Bool-cases (length targets == 0)) [
            | inl d ↦
                let e : create_raised targets_already_active ≡ batch_of b adopted =
                  rw (a, c, d) at p in
                cc
            | inr d ↦
                elim (Bool-cases (
                  key_free batch s.batches
                  && keys_free (new_requests fresh batch now 0 targets) s.requests)) [
                    | inl e ↦ rw (a, c, d, e) inserted-active
                    | inr e ↦
                        let f : create_raised integrity_error ≡ batch_of b adopted =
                          rw (a, c, d, e) at p in
                        cc
                  ]
          ]
        ]
      ]

-- After any calls, when `create_or_adopt_batch` answers with a batch, new or old, every machine that
-- it was given by a name that is not blank has exactly one unresolved request.
pub create_or_adopt_batch_lem :
    (hash : ℕ → ℕ) (cs : List (ℕ × Call)) (fresh : ℕ → ℕ) (batch now machine b : ℕ)
    (machines adopted : List ℕ)
    → (create_or_adopt_batch fresh batch now machines (run hash empty cs)).1 ≡ batch_of b adopted
    → contains machine machines ≡ true
    → machine ≢ 0
    → count_if
        (is_active machine)
        (create_or_adopt_batch fresh batch now machines (run hash empty cs)).0.requests
      ≡ 1
create_or_adopt_batch_lem hash cs fresh batch now machine b machines adopted p named n =
    created-active fresh batch now machine machines adopted b (run hash empty cs)
      (run-IsSound hash cs) (ordered-times machine machines named n) p
