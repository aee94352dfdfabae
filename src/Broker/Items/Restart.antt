-- ===== src/Broker/Items/Restart.antt =====
-- A restart of the Hub, and the fence of accepted Voice work: app/backend/broker.py.
use studiohub_mac.Prelude.{
  ℕ, ◌≤◌, ◌≡◌, ◌⊎◌, refl, true, false, Option, List, [], ◌∷◌, map, arith, any, All, count_if, ◌+◌,
  Bool-cases, inl, inr,
}
use studiohub_mac.Identity.{lease_expired}
use studiohub_mac.Broker.Items.{
  Item, Batch, Modality, is_open, is_voice, is_running, is_queued, expire_item, restore_item,
  restore_batch,
}

closed : (now : ℕ) (i : Item) → is_running (expire_item now i).state ≡ false
unfolding expire_item
closed now i = ground arith

restored_closed :
    (modality : Modality) (now : ℕ) (i : Item)
    → is_running (restore_item modality now i).state ≡ false
unfolding restore_item
restored_closed modality now i = ground arith

map-closed :
    (f : Item → Item)
    → ((i : Item) → is_running (f i).state ≡ false)
    → (items : List Item) → All (λ i. is_running i.state ≡ false) (map f items)
map-closed f h [] = tt
map-closed f h (i ∷ items) = (h i, map-closed f h items)

-- The items of a restored batch: all expired, or all restored.
restored_items :
    (now : ℕ) (b : Batch)
    → ((restore_batch now b).items ≡ map (expire_item now) b.items)
      ⊎ ((restore_batch now b).items ≡ map (restore_item b.modality now) b.items)
unfolding restore_batch
restored_items now b = elim (Bool-cases (lease_expired b.lease now)) [
  | inl p ↦ elim (Bool-cases (any (λ i. is_open i.state) b.items)) [
    | inl q ↦ inl (rw (p, q) refl)
    | inr q ↦ inr (rw (p, q) refl)
  ]
  | inr p ↦ inr (rw p refl)
]

-- After a restart of the Hub no item is running.
pub restart-not_running :
    (now : ℕ) (b : Batch) → All (λ i. is_running i.state ≡ false) (restore_batch now b).items
restart-not_running now b = elim (restored_items now b) [
  | inl p ↦ rw p (map-closed (expire_item now) (closed now) b.items)
  | inr p ↦ rw p (map-closed (restore_item b.modality now) (restored_closed b.modality now) b.items)
]

abbrev waiting : List Item → ℕ
waiting = count_if (λ i. is_queued i.state)

abbrev pub identity : Item → Option ℕ × Option ℕ
identity i = (i.studio, i.studio_job)

expire_waiting :
    (now : ℕ) (items : List Item) → waiting (map (expire_item now) items) ≤ waiting items
unfolding expire_item
expire_waiting now [] = omega arith
expire_waiting now (i ∷ items) = ground (arith, expire_waiting now items)

restore_waiting :
    (modality : Modality) (now : ℕ) (items : List Item)
    → is_voice modality ≡ true
    → waiting (map (restore_item modality now) items) ≤ waiting items
unfolding restore_item
restore_waiting modality now [] h = omega arith
restore_waiting modality now (i ∷ items) h = ground (arith, restore_waiting modality now items h)

expire_identity :
    (now : ℕ) (items : List Item) → map identity (map (expire_item now) items) ≡ map identity items
unfolding expire_item
expire_identity now [] = refl
expire_identity now (i ∷ items) = ground (arith, expire_identity now items)

restore_identity :
    (modality : Modality) (now : ℕ) (items : List Item)
    → is_voice modality ≡ true
    → map identity (map (restore_item modality now) items) ≡ map identity items
unfolding restore_item
restore_identity modality now [] h = refl
restore_identity modality now (i ∷ items) h = ground (arith, restore_identity modality now items h)

-- A restart never puts Voice work back on the queue: no more items are queued than before, and each
-- keeps the Studio and the worker job that it was accepted under.
pub restart-voice :
    (now : ℕ) (b : Batch)
    → is_voice b.modality ≡ true
    → (count_if (λ i. is_queued i.state) (restore_batch now b).items
        ≤ count_if (λ i. is_queued i.state) b.items)
      × (map identity (restore_batch now b).items ≡ map identity b.items)
restart-voice now b h = elim (restored_items now b) [
  | inl p ↦ rw p (expire_waiting now b.items, expire_identity now b.items)
  | inr p ↦
      rw p (restore_waiting b.modality now b.items h, restore_identity b.modality now b.items h)
]

restore_requeued :
    (modality : Modality) (now : ℕ) (items : List Item)
    → is_voice modality ≡ false
    → count_if (λ i. is_queued i.state) (map (restore_item modality now) items)
      ≡ count_if (λ i. is_queued i.state) items + count_if (λ i. is_running i.state) items
unfolding restore_item
restore_requeued modality now [] h = refl
restore_requeued modality now (i ∷ items) h = ground (arith, restore_requeued modality now items h)

-- Work of the other modalities that is within its lease loses nothing: each running item is queued
-- again beside those that were.
pub restart-requeues :
    (now : ℕ) (b : Batch)
    → is_voice b.modality ≡ false
    → lease_expired b.lease now ≡ false
    → count_if (λ i. is_queued i.state) (restore_batch now b).items
      ≡ count_if (λ i. is_queued i.state) b.items + count_if (λ i. is_running i.state) b.items
unfolding restore_batch
restart-requeues now b h alive = rw alive (restore_requeued b.modality now b.items h)
