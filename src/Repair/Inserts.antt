-- ===== src/Repair/Inserts.antt =====
-- The rows that `create_or_adopt_batch` of app/backend/enrollment_repair_store.py inserts.
use studiohub_mac.Prelude.{
  ℕ, ◌+◌, ◌≤◌, ◌≡◌, inl, inr, refl, Bool, true, not, ◌||◌, none, List, [], ◌∷◌, ◌++◌, arith, ◌==◌,
  length, count_if, All, All-append, Bool-cases, Option-cases, is_some, any, contains,
}
use studiohub_mac.Repair.Rows.{Request}
use studiohub_mac.Repair.Phases.{stage}
use studiohub_mac.Repair.Sound.{RowIsSound}
use studiohub_mac.Repair.Store.{Store, Batch, find, is_active}
use studiohub_mac.Repair.Create.{
  ordered_targets, active_request, existing_of, new_requests, new_targets, keys_free, key_free,
  new_batch, insert_batch, create_or_adopt, create_or_adopt_batch,
}
use studiohub_mac.Repair.Invariant.{
  Distinct, StoreIsSound, IsKnown, ids, Advances, Advances-refl, IsNew, RowsMove, added, moved,
  Moves-refl,
}
use studiohub_mac.Repair.Targets.{
  times, ordered_targets-Ascends, Ascends-times, times-keep, active-count, existing-any,
}

-- Every new target is named once, and had no unresolved request.
pub new_targets_lem :
    (k : ℕ) (machines : List ℕ) (rows : List Request)
    → count_if (is_active k) rows ≤ 1
    → let ordered = ordered_targets machines in
      times k (new_targets ordered (existing_of ordered rows)) + count_if (is_active k) rows ≤ 1
unfolding new_targets
new_targets_lem k machines rows h =
    let ordered = ordered_targets machines in
    let existing = existing_of ordered rows in
    let kept = times-keep k (λ m. not (any (λ r. r.target_machine == m) existing)) ordered in
    let once = Ascends-times k ordered (ordered_targets-Ascends machines) in
    elim (Option-cases (active_request k rows)) [
      | inl p ↦ ground (arith, active-count k rows p, kept, once)
      | inr (r, p) ↦
          let active : is_some (active_request k rows) ≡ true = rw p refl in
          elim (Bool-cases (times k ordered == 0)) [
            | inl e ↦ ground (arith, kept)
            | inr e ↦ ground (arith, kept, existing-any k ordered rows (ground arith) active)
          ]
    ]

module _ (fresh : ℕ → ℕ) (batch now : ℕ) where
  pub new-count :
      (k ordinal : ℕ) (ms : List ℕ)
      → count_if (is_active k) (new_requests fresh batch now ordinal ms) ≡ times k ms
  unfolding new_requests is_active
  new-count k ordinal [] = refl
  new-count k ordinal (m ∷ ms) = ground (arith, new-count k (ordinal + 1) ms)

  new-slots :
      (ordinal : ℕ) (ms : List ℕ)
      → count_if (λ r. r.has_slot) (new_requests fresh batch now ordinal ms) ≡ 0
  unfolding new_requests
  new-slots ordinal [] = refl
  new-slots ordinal (m ∷ ms) = ground (arith, new-slots (ordinal + 1) ms)

  new_requests-IsNew :
      (ordinal : ℕ) (ms : List ℕ) → All IsNew (new_requests fresh batch now ordinal ms)
  unfolding new_requests stage
  new_requests-IsNew ordinal [] = tt
  new_requests-IsNew ordinal (m ∷ ms) = (
    record { is_sound = ground arith; waits = refl; unissued = refl },
    new_requests-IsNew (ordinal + 1) ms,
  )

All-sound : (qs : List Request) → All IsNew qs → All RowIsSound qs
All-sound [] h = tt
All-sound (q ∷ qs) h = (h.0.is_sound, All-sound qs h.1)

find-append :
    (k : ℕ) (xs ys : List Request) → find k xs ≡ none → find k ys ≡ none → find k (xs ++ ys) ≡ none
unfolding find
find-append k [] ys h p = p
find-append k (x ∷ xs) ys h p = ground (arith, find-append k xs ys)

keys-head :
    (r : Request) (new rows : List Request) → keys_free new (r ∷ rows) ≡ true → find r.id new ≡ none
unfolding keys_free find
keys-head r [] rows h = refl
keys-head r (q ∷ new) rows h = ground (arith, keys-head r new rows)

keys-tail :
    (r : Request) (new rows : List Request)
    → keys_free new (r ∷ rows) ≡ true
    → keys_free new rows ≡ true
unfolding keys_free find
keys-tail r [] rows h = refl
keys-tail r (q ∷ new) rows h = ground (arith, keys-tail r new rows)

Distinct-append :
    (rows new : List Request) → keys_free new rows ≡ true → Distinct rows → Distinct (rows ++ new)
unfolding keys_free find
Distinct-append [] [] h d = tt
Distinct-append [] (q ∷ new) h d = (ground arith, Distinct-append [] new (ground arith) tt)
Distinct-append (r ∷ rows) new h d = (
  find-append r.id rows new d.0 (keys-head r new rows h),
  Distinct-append rows new (keys-tail r new rows h) d.1,
)

RowsMove-append :
    (rows qs : List Request) → All RowIsSound rows → All IsNew qs → RowsMove rows (rows ++ qs)
RowsMove-append [] qs h n = added qs n
RowsMove-append (r ∷ rows) qs h n = moved (Moves-refl r h.0) (RowsMove-append rows qs h.1 n)

pub count-append :
    (p : Request → Bool) (xs ys : List Request)
    → count_if p (xs ++ ys) ≡ count_if p xs + count_if p ys
count-append p [] ys = omega arith
count-append p (x ∷ xs) ys = ground (arith, count-append p xs ys)

new_requests-IsKnown :
    (fresh : ℕ → ℕ) (batch now ordinal : ℕ) (batches : List Batch) (ms : List ℕ)
    → contains batch (ids batches) ≡ true
    → IsKnown batches (new_requests fresh batch now ordinal ms)
unfolding new_requests
new_requests-IsKnown fresh batch now ordinal batches [] h = tt
new_requests-IsKnown fresh batch now ordinal batches (m ∷ ms) h =
    (h, new_requests-IsKnown fresh batch now (ordinal + 1) batches ms h)

contains-ids-append :
    (k : ℕ) (batches : List Batch) (b : Batch)
    → contains k (ids (batches ++ b ∷ [])) ≡ (contains k (ids batches) || b.id == k)
contains-ids-append k [] b = ground arith
contains-ids-append k (x ∷ batches) b = ground (arith, contains-ids-append k batches b)

IsKnown-append :
    (batches : List Batch) (b : Batch) (rows : List Request)
    → IsKnown batches rows
    → IsKnown (batches ++ b ∷ []) rows
IsKnown-append batches b [] k = tt
IsKnown-append batches b (r ∷ rows) k =
    (ground (arith, k.0, contains-ids-append r.batch batches b), IsKnown-append batches b rows k.1)

insert_batch_sound :
    (fresh : ℕ → ℕ) (batch now : ℕ) (machines : List ℕ) (rows : List Request)
    → let ordered = ordered_targets machines in
      let new = new_requests fresh batch now 0 (new_targets ordered (existing_of ordered rows)) in
      keys_free new rows ≡ true → StoreIsSound rows → StoreIsSound (rows ++ new)
insert_batch_sound fresh batch now machines rows free h =
    let targets =
      new_targets (ordered_targets machines) (existing_of (ordered_targets machines) rows) in
    let new = new_requests fresh batch now 0 targets in
    let fits_in = new_requests-IsNew fresh batch now 0 targets in
    record {
      rows_ok = All-append RowIsSound rows new h.rows_ok (All-sound new fits_in);
      one_slot = omega (
        arith,
        h.one_slot,
        count-append (λ r. r.has_slot) rows new,
        new-slots fresh batch now 0 targets,
      );
      one_active = λ k. omega (
        arith,
        count-append (is_active k) rows new,
        new-count fresh batch now k 0 targets,
        new_targets_lem k machines rows (h.one_active k),
      );
      distinct = Distinct-append rows new free h.distinct;
    }

insert-Advances :
    (fresh : ℕ → ℕ) (batch now : ℕ) (machines : List ℕ) (s : Store)
    → let ordered = ordered_targets machines in
      let existing = existing_of ordered s.requests in
      let targets = new_targets ordered existing in
      keys_free (new_requests fresh batch now 0 targets) s.requests ≡ true
      → StoreIsSound s.requests
      → Advances s (insert_batch fresh batch now targets existing s)
unfolding insert_batch new_batch
insert-Advances fresh batch now machines s free h =
    let targets =
      new_targets (ordered_targets machines) (existing_of (ordered_targets machines) s.requests) in
    let new = new_requests fresh batch now 0 targets in
    let b = new_batch batch now targets in
    let stored : contains batch (ids (s.batches ++ b ∷ [])) ≡ true =
      ground (arith, contains-ids-append batch s.batches b) in
    record {
      store_ok = insert_batch_sound fresh batch now machines s.requests free h;
      rows_move =
          RowsMove-append s.requests new h.rows_ok (new_requests-IsNew fresh batch now 0 targets);
      known = λ k.
          All-append (λ r. contains r.batch (ids (s.batches ++ b ∷ [])) ≡ true) s.requests new
            (IsKnown-append s.batches b s.requests k)
            (new_requests-IsKnown fresh batch now 0 (s.batches ++ b ∷ []) targets stored);
    }

pub create-Advances :
    (fresh : ℕ → ℕ) (batch now : ℕ) (machines : List ℕ) (s : Store)
    → StoreIsSound s.requests
    → Advances s (create_or_adopt_batch fresh batch now machines s).0
unfolding create_or_adopt_batch create_or_adopt
create-Advances fresh batch now machines s h =
    let ordered = ordered_targets machines in
    let existing = existing_of ordered s.requests in
    let targets = new_targets ordered existing in
    let same = Advances-refl s h in
    elim (Bool-cases (length ordered == 0)) [
      | inl a ↦ rw a same
      | inr a ↦ elim (Bool-cases (length existing == length ordered)) [
        | inl b ↦ rw (a, b) same
        | inr b ↦ elim (Bool-cases (length targets == 0)) [
          | inl c ↦ rw (a, b, c) same
          | inr c ↦ elim (Bool-cases (key_free batch s.batches)) [
            | inr d ↦ rw (a, b, c, d) same
            | inl d ↦
                elim (Bool-cases (keys_free (new_requests fresh batch now 0 targets) s.requests)) [
                  | inr e ↦ rw (a, b, c, d, e) same
                  | inl e ↦ rw (a, b, c, d, e) (insert-Advances fresh batch now machines s e h)
                ]
          ]
        ]
      ]
    ]
