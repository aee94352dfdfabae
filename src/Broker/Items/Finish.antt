-- ===== src/Broker/Items/Finish.antt =====
-- Cancelling, finishing and clearing a batch: app/backend/broker.py.
use studiohub_mac.Prelude.{
  ℕ, ◌≡◌, ◌⊎◌, ◌||◌, refl, ap, true, false, List, [], ◌∷◌, map, arith, any, keep, All, count_if,
  Bool-cases, inl, inr, length, length-keep, length-map, ◌∙◌,
}
use studiohub_mac.Broker.Items.{
  Item, Batch, is_active, is_queued, is_running, cancel_item, cancel_batch, clear_finished_batches,
  maybe_finish,
}

cancel_counts :
    (items : List Item)
    → (count_if (λ i. is_queued i.state) (map cancel_item items) ≡ 0)
      × (count_if (λ i. is_running i.state) (map cancel_item items)
          ≡ count_if (λ i. is_running i.state) items)
unfolding cancel_item
cancel_counts [] = (refl, refl)
cancel_counts (i ∷ items) = ground (arith, cancel_counts items)

finish_keeps :
    (now : ℕ) (b : Batch)
    → let after = (maybe_finish now b).0 in
      (after.items ≡ b.items) × (after.cancelled_flag ≡ b.cancelled_flag)
unfolding maybe_finish
finish_keeps now b = elim (Bool-cases (b.done_notified || any (λ i. is_active i.state) b.items)) [
  | inl h ↦ rw h (refl, refl)
  | inr h ↦ rw h (refl, refl)
]

-- Cancelling a batch leaves nothing queued, reports as many cancellations as items were queued, and
-- signals every running item; running work is not marked before its worker answers.
pub cancel_batch_lem :
    (now : ℕ) (b : Batch)
    → let (after, reported, signalled, sent) = cancel_batch now b in
      (count_if (λ i. is_queued i.state) after.items ≡ 0)
      × (reported ≡ count_if (λ i. is_queued i.state) b.items)
      × (length signalled ≡ count_if (λ i. is_running i.state) b.items)
      × (count_if (λ i. is_running i.state) after.items
          ≡ count_if (λ i. is_running i.state) b.items)
      × (after.cancelled_flag ≡ true)
      × (length after.items ≡ length b.items)
unfolding cancel_batch
cancel_batch_lem now b =
    let marked : Batch = record b { cancelled_flag = true; items = map cancel_item b.items } in
    let (a, c) = cancel_counts b.items in
    let (same, flag) = finish_keeps now marked in
    (
      ap (count_if (λ i. is_queued i.state)) same ∙ a,
      refl,
      length-keep _ (map cancel_item b.items) ∙ c,
      ap (count_if (λ i. is_running i.state)) same ∙ c,
      flag,
      ap (λ is. length is) same ∙ length-map cancel_item b.items,
    )

quiet :
    (now : ℕ) (b : Batch)
    → (b.done_notified ≡ true) ⊎ (any (λ i. is_active i.state) b.items ≡ true)
    → maybe_finish now b ≡ (b, [])
unfolding maybe_finish
quiet now b (inl d) = rw d refl
quiet now b (inr a) = elim (Bool-cases b.done_notified) [
  | inl d ↦ rw d refl
  | inr d ↦ rw (d, a) refl
]

notified :
    (now : ℕ) (b : Batch)
    → b.done_notified ≡ false
    → any (λ i. is_active i.state) b.items ≡ false
    → (maybe_finish now b).0.done_notified ≡ true
unfolding maybe_finish
notified now b d a = rw (d, a) refl

-- A batch is announced once: not while an item is active, and after it was announced nothing more
-- is sent and nothing changes.
pub maybe_finish_once :
    (now later : ℕ) (b : Batch)
    → let (after, sent) = maybe_finish now b in
      ((any (λ i. is_active i.state) b.items ≡ true) × (after ≡ b) × (sent ≡ []))
      ⊎ ((any (λ i. is_active i.state) b.items ≡ false)
          × (after.done_notified ≡ true)
          × (maybe_finish later after ≡ (after, [])))
maybe_finish_once now later b = elim (Bool-cases (any (λ i. is_active i.state) b.items)) [
  | inl a ↦ inl (a, ap (λ x. x.0) (quiet now b (inr a)), ap (λ x. x.1) (quiet now b (inr a)))
  | inr a ↦ elim (Bool-cases b.done_notified) [
    | inl d ↦ let same = quiet now b (inl d) in inr (a, rw same d, rw same (quiet later b (inl d)))
    | inr d ↦
        inr (a, notified now b d a, quiet later (maybe_finish now b).0 (inl (notified now b d a)))
  ]
]

-- Clearing the history removes the batches with no active item, all of them and no other.
pub clear_finished_batches_lem :
    (bs : List Batch)
    → All (λ b. any (λ i. is_active i.state) b.items ≡ true) (clear_finished_batches bs)
      × (length (clear_finished_batches bs)
          ≡ count_if (λ b. any (λ i. is_active i.state) b.items) bs)
unfolding clear_finished_batches
clear_finished_batches_lem bs = (kept bs, length-keep _ bs)
  where
    kept :
        (bs : List Batch)
        → All
            (λ b. any (λ i. is_active i.state) b.items ≡ true)
            (keep (λ b. any (λ i. is_active i.state) b.items) bs)
    kept [] = tt
    kept (b ∷ bs) = elim (Bool-cases (any (λ i. is_active i.state) b.items)) [
      | inl h ↦ rw h (h, kept bs)
      | inr h ↦ rw h (kept bs)
    ]
