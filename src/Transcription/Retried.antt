-- ===== src/Transcription/Retried.antt =====
-- `retry_batch` of app/backend/transcription_jobs.py after a restart, and the end of an item's retries.
use studiohub_mac.Prelude.{
  ℕ, ◌+◌, ◌-◌, ◌≤◌, ◌<◌, ◌≡◌, ◌⊎◌, inl, inr, refl, ap, ◌∙◌, Bool, true, false, Option, none, some,
  List, [], ◌∷◌, ◌++◌, map, arith, ◌==◌, ltb, if◌then◌else◌, length, drop, count_if, length-drop,
  Bool-cases,
}
use studiohub_mac.Identity.{lease_expired}
use studiohub_mac.Broker.Leases.{Owner, Scheduler}
use studiohub_mac.Transcription.{
  Item, Batch, queued, running, done, error, max_tries, save, restore_item, restore_batch,
  expire_genstudio_batch, is_retried, retry_item, retry_batch,
}
use studiohub_mac.Transcription.Dispatch.{
  Worker, answered, update_item, start_item, start_batch, done_item, answer, settle, run_item,
  fail_item,
}

abbrev pub find_item : ℕ → List Item → Option Item
find_item index [] = none
find_item index (i ∷ items) = if i.index == index then some i else find_item index items

find_item-map :
    (f : Item → Item) (k : ℕ) (items : List Item) (i : Item)
    → ((j : Item) → (f j).index ≡ j.index)
    → find_item k items ≡ some i
    → find_item k (map f items) ≡ some (f i)
find_item-map f k [] i kept h = cc
find_item-map f k (x ∷ items) i kept h = elim (Bool-cases (x.index == k)) [
  | inl e ↦
      let first : some x ≡ some i = rw e at h in
      let same : x ≡ i = cc in
      let there : ((f x).index == k) ≡ true = rw (kept x) e in rw there (ap (λ y. some (f y)) same)
  | inr e ↦
      let later : find_item k items ≡ some i = rw e at h in
      let there : ((f x).index == k) ≡ false = rw (kept x) e in
      rw there (find_item-map f k items i kept later)
]

find_item-index :
    (k : ℕ) (items : List Item) (i : Item) → find_item k items ≡ some i → (i.index == k) ≡ true
find_item-index k [] i h = cc
find_item-index k (x ∷ items) i h = elim (Bool-cases (x.index == k)) [
  | inl e ↦ let first : some x ≡ some i = rw e at h in let same : x ≡ i = cc in rw (← same) e
  | inr e ↦ find_item-index k items i (rw e at h)
]

pub update_item-find :
    (f : Item → Item) (k : ℕ) (items : List Item) (i : Item)
    → ((j : Item) → (f j).index ≡ j.index)
    → find_item k items ≡ some i
    → find_item k (update_item k f items) ≡ some (f i)
unfolding update_item
update_item-find f k items i kept h =
    find_item-map (λ j. if j.index == k then f j else j) k items i
      (λ j. kept_if j (Bool-cases (j.index == k))) h
    ∙ rw (find_item-index k items i h) refl
  where
    kept_if :
        (j : Item)
        → ((j.index == k) ≡ true) ⊎ ((j.index == k) ≡ false)
        → (if j.index == k then f j else j).index ≡ j.index
    kept_if j (inl p) = rw p (kept j)
    kept_if j (inr p) = rw p refl

restored_find :
    (has_file : ℕ → Bool) (now k : ℕ) (b : Batch) (i : Item)
    → lease_expired b.lease now ≡ false
    → find_item k b.items ≡ some i
    → find_item k (restore_batch has_file now b).items ≡ some (restore_item has_file i)
unfolding restore_batch expire_genstudio_batch save
restored_find has_file now k b i live h =
    rw live (
      find_item-map (restore_item has_file) k b.items i (λ j. unfold restore_item in ground arith)
        h)

retried_find :
    (now k : ℕ) (b : Batch) (i : Item)
    → b.storage_cleaned_at ≡ none
    → find_item k b.items ≡ some i
    → find_item k (retry_batch now b).0.items ≡ some (retry_item i)
unfolding retry_batch save
retried_find now k b i kept h =
    let found = find_item-map retry_item k b.items i (λ j. unfold retry_item in ground arith) h in
    elim (Bool-cases (count_if is_retried b.items == 0)) [
      | inl e ↦ rw (kept, e) found
      | inr e ↦ rw (kept, e) found
    ]

started_find :
    (studio index task now : ℕ) (b : Batch) (i : Item)
    → find_item index b.items ≡ some i
    → find_item index (start_batch studio index task now b).items
      ≡ some (start_item studio task now i)
unfolding start_batch save
started_find studio index task now b i h =
    update_item-find (start_item studio task now) index b.items i (λ j. unfold start_item in refl) h

answered_find :
    (owner : Owner) (w : Worker) (index t1 t2 artifact reply : ℕ) (s : Scheduler) (b : Batch)
    (i : Item)
    → lease_expired b.lease t1 ≡ false
    → lease_expired b.lease t2 ≡ false
    → find_item index b.items ≡ some i
    → (find_item index (run_item owner w index t1 (answered artifact reply) t2 b s).0.items
        ≡ some (done_item artifact reply i))
      × ((run_item owner w index t1 (answered artifact reply) t2 b s).0.storage_cleaned_at
          ≡ b.storage_cleaned_at)
unfolding run_item settle answer expire_genstudio_batch save
answered_find owner w index t1 t2 artifact reply s b i l1 l2 h =
    rw (l1, l2)
      (
        update_item-find (done_item artifact reply) index b.items i (λ j. unfold done_item in refl)
            h,
        refl,
      )

dispatched_lease :
    (has_file : ℕ → Bool) (t0 t1 index studio task : ℕ) (b : Batch)
    → lease_expired b.lease t0 ≡ false
    → let dispatched = start_batch studio index task t1 (restore_batch has_file t0 b) in
      (dispatched.lease ≡ b.lease) × (dispatched.storage_cleaned_at ≡ b.storage_cleaned_at)
unfolding start_batch restore_batch expire_genstudio_batch save
dispatched_lease has_file t0 t1 index studio task b l0 = rw l0 (refl, refl)

-- A batch whose lease is live throughout and whose files are kept goes through a restart while an
-- item is at work and its audio is there: the item is queued again, is dispatched and is
-- transcribed, and `retry_batch` then queues the finished item once more, since nothing but a retry
-- forgets the interruption.
pub retry_batch-repeats :
    (has_file : ℕ → Bool) (t0 t1 t2 t3 index studio task artifact reply : ℕ) (owner : Owner)
    (w : Worker) (s : Scheduler) (b : Batch) (i : Item)
    → find_item index b.items ≡ some i
    → i.state ≡ running
    → has_file i.index ≡ true
    → lease_expired b.lease t0 ≡ false
    → lease_expired b.lease t1 ≡ false
    → lease_expired b.lease t2 ≡ false
    → b.storage_cleaned_at ≡ none
    → let dispatched = start_batch studio index task t1 (restore_batch has_file t0 b) in
      let ended = (run_item owner w index t1 (answered artifact reply) t2 dispatched s).0 in
      (j : Item) × (k : Item) × (find_item index ended.items ≡ some j)
      × (j.state ≡ done)
      × (j.artifact ≡ some artifact)
      × (find_item index (retry_batch t3 ended).0.items ≡ some k)
      × (k.state ≡ queued)
      × (k.artifact ≡ some artifact)
retry_batch-repeats has_file t0 t1 t2 t3 index studio task artifact reply owner w s b i h r f l0 l1
      l2 c =
    let dispatched = start_batch studio index task t1 (restore_batch has_file t0 b) in
    let ended = (run_item owner w index t1 (answered artifact reply) t2 dispatched s).0 in
    let (lease_kept, stored) = dispatched_lease has_file t0 t1 index studio task b l0 in
    let began =
      started_find studio index task t1 (restore_batch has_file t0 b) (restore_item has_file i)
        (restored_find has_file t0 index b i l0 h) in
    let (found, files) =
      answered_find owner w index t1 t2 artifact reply s dispatched
        (start_item studio task t1 (restore_item has_file i)) (rw lease_kept l1) (rw lease_kept l2)
        began in
    let j = done_item artifact reply (start_item studio task t1 (restore_item has_file i)) in
    let kept : ended.storage_cleaned_at ≡ none = files ∙ stored ∙ c in
    (
      j,
      retry_item j,
      found,
      unfold done_item in refl,
      unfold done_item in refl,
      retried_find t3 index ended j kept found,
      unfold retry_item is_retried done_item start_item restore_item in rw (r, f) refl,
      unfold retry_item is_retried done_item start_item restore_item in rw (r, f) refl,
    )

-- A failed attempt: where, with what message, and when it began and ended.
pub record Failure : Type 0 where
  pub worker : Worker
  pub message : ℕ
  pub began : ℕ
  pub task : ℕ
  pub ended : ℕ

-- Dispatched and failed by a lost connection, once for each entry.
unfoldable pub attempts : List Failure → Item → Item
attempts [] i = i
attempts (f ∷ fs) i = attempts fs (
    fail_item f.worker f.message true false false f.ended
      (start_item f.worker.studio f.task f.began i))

fail_item-history :
    (w : Worker) (message now : ℕ) (transient capacity stopped_batch : Bool) (i : Item)
    → length (fail_item w message transient capacity stopped_batch now i).attempt_history ≤ 8
unfolding fail_item
fail_item-history w message now transient capacity stopped_batch i =
    let all =
      i.attempt_history
      ++ record { studio = w.studio; machine = w.machine; message = message; at = now } ∷ [] in
    let bound : length (drop (length all - 8) all) ≤ 8 =
      omega (arith, length-drop (length all - 8) all) in
    ground (arith, bound)

lost_connection :
    (f : Failure) (i : Item)
    → let next =
        fail_item f.worker f.message true false false f.ended
          (start_item f.worker.studio f.task f.began i) in
      (next.tries ≡ i.tries + 1)
      × (next.state ≡ (if ltb (i.tries + 1) max_tries then queued else error))
unfolding fail_item start_item
lost_connection f i = ground arith

-- An item of a batch that is not cancelled loses its connection at each of some attempts, which with
-- its earlier tries are at most three: each attempt counts as one try, the item is queued again as
-- long as the tries are fewer than three and fails at the third, and it keeps at most eight attempts
-- of its history.
pub attempts_end :
    (fs : List Failure) (f : Failure) (i : Item)
    → i.tries + length fs < max_tries
    → ((attempts (f ∷ fs) i).state
        ≡ (if i.tries + length fs + 1 == max_tries then error else queued))
      × ((attempts (f ∷ fs) i).tries ≡ i.tries + length fs + 1)
      × (length (attempts (f ∷ fs) i).attempt_history ≤ 8)
unfolding attempts
attempts_end [] f i h =
    let next = lost_connection f i in
    let history =
      fail_item-history f.worker f.message f.ended true false false
        (start_item f.worker.studio f.task f.began i) in
    (ground arith, ground arith, history)
attempts_end (g ∷ fs) f i h =
    let next = lost_connection f i in
    let rest =
      attempts_end fs g
        (fail_item f.worker f.message true false false f.ended
          (start_item f.worker.studio f.task f.began i))
        (omega (arith, next.0)) in
    (
      rest.0 ∙ ap (λ n. if n == max_tries then error else queued) (omega (arith, next.0)),
      omega (arith, next.0, rest.1),
      rest.2,
    )
