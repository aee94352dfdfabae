-- ===== src/Transcription/Restored.antt =====
-- app/backend/transcription_jobs.py after a restart, and what a batch reports of its items.
use studiohub_mac.Prelude.{
  ℕ, ◌+◌, ◌≡◌, refl, ap, Bool, true, false, ◌&&◌, ◌||◌, ◌⊎◌, inl, inr, none, some, Bool-cases, List,
  [], ◌∷◌, map, arith, if◌then◌else◌, count_if,
}
use studiohub_mac.Identity.{lease_expired}
use studiohub_mac.Transcription.{
  ItemState, queued, running, done, error, cancelled, restart, audio_missing, is_terminal, count,
  Item, Batch, is_queued, is_running, save, restore_item, restore_batch, expire_genstudio_batch,
}

-- The items that a restart leaves to be done: those not ended, whose audio is there.
abbrev pub resumable : (ℕ → Bool) → Item → Bool
resumable has_file i = (is_queued i.state || is_running i.state) && has_file i.index

-- What stays of an item whatever a restart does with it.
abbrev pub IsSameWork : Item → Item → Type 0
IsSameWork i j =
    (j.index ≡ i.index)
    × (j.tries ≡ i.tries)
    × (j.artifact ≡ i.artifact)
    × (j.attempt_history ≡ i.attempt_history)
    × (j.avoid_machines ≡ i.avoid_machines)

-- An item before and after: ended, or waiting with its audio, and as it was; waiting or at work
-- without its audio, and failed for that; or at work, and waiting anew without its Studio and task,
-- marked as interrupted.
abbrev pub IsRestored : (ℕ → Bool) → Item → Item → Type 0
IsRestored has_file i j =
    ((is_terminal i.state ≡ true) × (j ≡ i))
    ⊎ (((i.state ≡ queued) × (has_file i.index ≡ true) × (j ≡ i))
        ⊎ (((is_terminal i.state ≡ false)
              × (has_file i.index ≡ false)
              × (j.state ≡ error)
              × (j.note ≡ some audio_missing)
              × IsSameWork i j)
            ⊎ ((i.state ≡ running)
                × (has_file i.index ≡ true)
                × (j.state ≡ queued)
                × (j.studio ≡ none)
                × (j.task ≡ none)
                × (j.note ≡ some restart)
                × (j.interrupted ≡ true)
                × IsSameWork i j)))

-- The items before and after, one by one, in the same order.
pub AreRestored : (ℕ → Bool) → List Item → List Item → Type 0
AreRestored has_file [] [] = Unit
AreRestored has_file (i ∷ items) (j ∷ after) =
    IsRestored has_file i j × AreRestored has_file items after
AreRestored has_file [] (j ∷ after) = ⊥
AreRestored has_file (i ∷ items) [] = ⊥

state-cases : (s : ItemState) → (s ≡ queued) ⊎ ((s ≡ running) ⊎ (is_terminal s ≡ true))
state-cases queued = inl refl
state-cases running = inr (inl refl)
state-cases done = inr (inr refl)
state-cases error = inr (inr refl)
state-cases cancelled = inr (inr refl)

module _ (has_file : ℕ → Bool) where
  restore_item-IsRestored : (i : Item) → IsRestored has_file i (restore_item has_file i)
  unfolding restore_item
  restore_item-IsRestored i = elim (state-cases i.state) [
    | inl q ↦ elim (Bool-cases (has_file i.index)) [
      | inl there ↦ rw (q, there) (inr (inl (refl, refl, refl)))
      | inr gone ↦
          rw (q, gone) (inr (inr (inl (refl, refl, refl, refl, (refl, refl, refl, refl, refl)))))
    ]
    | inr other ↦ elim other [
      | inl r ↦ elim (Bool-cases (has_file i.index)) [
        | inl there ↦
            rw (r, there)
              (inr (
                inr
                  (inr (refl, refl, refl, refl, refl, refl, refl, (refl, refl, refl, refl, refl)))))
        | inr gone ↦
            rw (r, gone) (inr (inr (inl (refl, refl, refl, refl, (refl, refl, refl, refl, refl)))))
      ]
      | inr t ↦ inl (t, ground arith)
    ]
  ]

  map-AreRestored :
      (items : List Item) → AreRestored has_file items (map (restore_item has_file) items)
  unfolding AreRestored
  map-AreRestored [] = tt
  map-AreRestored (i ∷ items) = (restore_item-IsRestored i, map-AreRestored items)

  counted_one :
      (i : Item)
      → (is_running (restore_item has_file i).state ≡ false)
        × (is_queued (restore_item has_file i).state ≡ resumable has_file i)
  unfolding restore_item
  counted_one i = ground arith

  restored-counts :
      (items : List Item)
      → (count is_running (map (restore_item has_file) items) ≡ 0)
        × (count is_queued (map (restore_item has_file) items)
            ≡ count_if (resumable has_file) items)
  restored-counts [] = (refl, refl)
  restored-counts (i ∷ items) =
      let rest = restored-counts items in
      let (not_running, waits) = counted_one i in
      (
        rw not_running (omega (arith, rest.0)),
        rw waits (ap (λ n. (if resumable has_file i then 1 else 0) + n) rest.1),
      )

-- A restart of a batch whose lease is live: no item is at work any more, and exactly those queued or
-- at work whose audio is there are queued. Item by item, those that have ended and those queued with
-- their audio are as they were; those not ended whose audio is missing have failed for that, and
-- those at work with their audio wait anew, both with the index, tries, artifact, history and
-- avoided machines that they had. The batch is cancelled if it was.
pub restore_batch_lem :
    (has_file : ℕ → Bool) (now : ℕ) (b : Batch)
    → lease_expired b.lease now ≡ false
    → let after = restore_batch has_file now b in
      (count is_running after.items ≡ 0)
      × (count is_queued after.items ≡ count_if (resumable has_file) b.items)
      × AreRestored has_file b.items after.items
      × (after.is_cancelled ≡ b.is_cancelled)
unfolding restore_batch expire_genstudio_batch save
restore_batch_lem has_file now b live =
    let (quiet, waits) = restored-counts has_file b.items in
    rw live (quiet, waits, map-AreRestored has_file b.items, refl)
