-- ===== src/Transcription/Finished.antt =====
-- `summary` and `_save` of app/backend/transcription_jobs.py.
use studiohub_mac.Prelude.{
  ◌+◌, ◌<◌, ◌≡◌, ◌↔◌, refl, Bool, true, false, ◌&&◌, List, [], ◌∷◌, arith, ◌==◌, length, all, ℕ,
  Option, none, some, or_else, if◌then◌else◌,
}
use studiohub_mac.Transcription.{
  count, Item, Batch, is_queued, is_running, is_done, is_error, is_cancelled_state, is_terminal,
  Status, status_queued, status_running, status_done, status_error, status, save, stamp,
}

-- Each item is in one of five states.
counts_add :
    (items : List Item)
    → count is_queued items
        + count is_running items
        + count is_done items
        + count is_error items
        + count is_cancelled_state items
      ≡ length items
counts_add [] = refl
counts_add (i ∷ items) = ground (arith, counts_add items)

all-counts :
    (items : List Item)
    → all (λ i. is_terminal i.state) items
      ≡ ((count is_queued items == 0) && (count is_running items == 0))
all-counts [] = refl
all-counts (i ∷ items) = ground (arith, all-counts items)

abbrev pub is_over : Status → Bool
is_over status_queued = false
is_over status_running = false
is_over _ = true

over-all : (b : Batch) → is_over (status b) ≡ all (λ i. is_terminal i.state) b.items
unfolding status
over-all b = let added = counts_add b.items in let ended = all-counts b.items in ground arith

stamped-or_else :
    (now : ℕ) (over : Bool) (finished : Option ℕ)
    → stamp now over finished ≡ (if over then some (or_else finished now) else finished)
unfolding stamp
stamped-or_else now true none = refl
stamped-or_else now true (some t) = refl
stamped-or_else now false none = refl
stamped-or_else now false (some t) = refl

-- The status that a batch reports and the time that `_save` gives it: saving a batch stamps the time
-- exactly when the status that it reports is of a batch that has ended and it has no time yet, and
-- changes neither the items nor the status; it is done exactly when it has items and all of them
-- are; and it is an error exactly when some item failed, none is done and all have ended.
pub status_lem :
    (now : ℕ) (b : Batch)
    → ((save now b).finished_at
        ≡ (if is_over (status b) then some (or_else b.finished_at now) else b.finished_at))
      × ((save now b).items ≡ b.items)
      × (status (save now b) ≡ status b)
      × ((status b ≡ status_done)
          ↔ ((count is_done b.items ≡ length b.items) × (0 < length b.items)))
      × ((status b ≡ status_error) ↔ (
          (count is_error b.items + count is_cancelled_state b.items ≡ length b.items)
          × (0 < count is_error b.items)))
unfolding status save
status_lem now b = (
  rw (over-all b) (stamped-or_else now (all (λ i. is_terminal i.state) b.items) b.finished_at),
  refl,
  refl,
  let added = counts_add b.items in ground arith,
  let added = counts_add b.items in ground arith,
)
