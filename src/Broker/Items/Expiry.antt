-- ===== src/Broker/Items/Expiry.antt =====
-- The loss of a lease: app/backend/broker.py, `_expire_genstudio_batch`.
use studiohub_mac.Prelude.{
  ℕ, ◌≡◌, ◌⊎◌, refl, true, false, none, some, List, [], ◌∷◌, map, arith, any, Bool-cases, inl, inr,
}
use studiohub_mac.Identity.{lease_expired}
use studiohub_mac.Broker.Items.{
  cancelled, lease_lost, Item, Batch, is_open, expire_item, expire_genstudio_batch,
}

-- Two lists of items agree in every place that is not open, and the open ones are cancelled.
abbrev pub IsFenced : List Item → List Item → Type 0
IsFenced [] [] = Unit
IsFenced [] (j ∷ js) = ⊥
IsFenced (i ∷ is) [] = ⊥
IsFenced (i ∷ is) (j ∷ js) =
    (((is_open i.state ≡ true)
        × (j.state ≡ cancelled)
        × (j.error ≡ some lease_lost)
        × (j.retry_at ≡ none))
      ⊎ ((is_open i.state ≡ false) × (j ≡ i)))
    × IsFenced is js

expire-IsFenced : (now : ℕ) (items : List Item) → IsFenced items (map (expire_item now) items)
unfolding expire_item
expire-IsFenced now [] = tt
expire-IsFenced now (i ∷ items) = (
  elim (Bool-cases (is_open i.state)) [
    | inl h ↦ inl (h, rw h refl, rw h refl, rw h refl)
    | inr h ↦ inr (h, rw h refl)
  ],
  expire-IsFenced now items,
)

none_open :
    (now : ℕ) (items : List Item) → any (λ i. is_open i.state) (map (expire_item now) items) ≡ false
unfolding expire_item
none_open now [] = refl
none_open now (i ∷ items) = elim (Bool-cases (is_open i.state)) [
  | inl h ↦ rw h (none_open now items)
  | inr h ↦ rw h (rw h (none_open now items))
]

still :
    (later : ℕ) (b : Batch)
    → any (λ i. is_open i.state) b.items ≡ false
    → expire_genstudio_batch later b ≡ (b, false)
unfolding expire_genstudio_batch
still later b h = ground arith

-- A batch with open work whose lease has passed is fenced: each open item is cancelled, an item that
-- is done, failed, cancelled or uncertain keeps its record, and fencing it again changes nothing.
pub expire_genstudio_batch_lem :
    (now later : ℕ) (b : Batch)
    → lease_expired b.lease now ≡ true
    → any (λ i. is_open i.state) b.items ≡ true
    → let (fenced, expired) = expire_genstudio_batch now b in
      (expired ≡ true)
      × (fenced.cancelled_flag ≡ true)
      × (fenced.lease_expired_flag ≡ true)
      × IsFenced b.items fenced.items
      × (expire_genstudio_batch later fenced ≡ (fenced, false))
unfolding expire_genstudio_batch
expire_genstudio_batch_lem now later b lost work =
    let fenced : Batch = record b {
      cancelled_flag = true;
      lease_expired_flag = true;
      items = map (expire_item now) b.items;
    } in
    rw (lost, work)
      (refl, refl, refl, expire-IsFenced now b.items, still later fenced (none_open now b.items))
