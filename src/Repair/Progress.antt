-- ===== src/Repair/Progress.antt =====
-- app/backend/enrollment_repair_store.py: work that waits is found, and a restart frees the slot.
use studiohub_mac.Prelude.{
  ℕ, ◌≡◌, inl, inr, refl, sym, ◌∙◌, Bool, true, false, not, ◌&&◌, ◌||◌, Option, none, some, List,
  [], ◌∷◌, arith, ◌==◌, count_if, Bool-cases, is_some, any, contains,
}
use studiohub_mac.Repair.Rows.{Request, is_queued}
use studiohub_mac.Repair.Store.{
  Store, Batch, empty, find, slot_taken, is_free, earlier, first_free, oldest, pair, next_claim,
  claim, claim_next_dispatch, has_dispatchable_request, recover_scheduling_slot,
}
use studiohub_mac.Repair.Calls.{Call, run}
use studiohub_mac.Repair.Invariant.{IsKnown, ids}
use studiohub_mac.Repair.Slot.{OffersClaim, next_claim-OffersClaim, recovered_lem}
use studiohub_mac.Repair.Runs.{IsSound, run-IsSound}

first_free-some :
    (batch : ℕ) (rows : List Request)
    → any (is_free batch) rows ≡ true
    → is_some (first_free batch rows) ≡ true
unfolding first_free
first_free-some batch [] h = cc
first_free-some batch (r ∷ rows) h = elim (Bool-cases (is_free batch r)) [
  | inl p ↦ rw p (kept (first_free batch rows))
  | inr p ↦ rw p (first_free-some batch rows (ground arith))
]
  where
    kept : (o : Option Request) → is_some (earlier r o) ≡ true
    kept none = refl
    kept (some q) = ground arith

pair-some :
    (b : Batch) (o : Option Request) (rest : Option (Batch × Request))
    → is_some (pair b o rest) ≡ (is_some o || is_some rest)
unfolding pair oldest
pair-some b none rest = refl
pair-some b (some r) none = refl
pair-some b (some r) (some (b', r')) = ground arith

-- Some batch offers the row, so a row is offered.
next_claim-some :
    (k : ℕ) (rows : List Request) (batches : List Batch)
    → contains k (ids batches) ≡ true
    → is_some (first_free k rows) ≡ true
    → is_some (next_claim rows batches) ≡ true
unfolding next_claim
next_claim-some k rows [] c h = cc
next_claim-some k rows (b ∷ batches) c h =
    pair-some b (first_free b.id rows) (next_claim rows batches) ∙ elim (Bool-cases (b.id == k)) [
      | inl e ↦ let same : b.id ≡ k = ground arith in rw (same, h) refl
      | inr e ↦
          let later = next_claim-some k rows batches (ground arith) h in rw later (ground arith)
    ]

waiting_batch :
    (rows : List Request) (batches : List Batch)
    → any (λ r. is_queued r.state && not r.has_slot) rows ≡ true
    → IsKnown batches rows
    → (k : ℕ) × (contains k (ids batches) ≡ true) × (any (is_free k) rows ≡ true)
unfolding is_free
waiting_batch [] batches h k = cc
waiting_batch (r ∷ rows) batches h k = elim (Bool-cases (is_queued r.state && not r.has_slot)) [
  | inl p ↦ (r.batch, k.0, ground arith)
  | inr p ↦
      let (b, stored, free) = waiting_batch rows batches (ground arith) k.1 in
      (b, stored, ground arith)
]

find-any :
    (id : ℕ) (p : Request → Bool) (rows : List Request) (r : Request)
    → find id rows ≡ some r
    → p r ≡ true
    → any p rows ≡ true
unfolding find
find-any id p [] r f h = cc
find-any id p (x ∷ rows) r f h = ground (arith, find-any id p rows r)

-- Some waiting row is free exactly when the query of the claim finds a row.
next_claim-any :
    (s : Store)
    → IsSound s
    → is_some (next_claim s.requests s.batches)
      ≡ any (λ r. is_queued r.state && not r.has_slot) s.requests
next_claim-any s h = elim (Bool-cases (any (λ r. is_queued r.state && not r.has_slot) s.requests)) [
  | inl p ↦
      let (k, stored, free) = waiting_batch s.requests s.batches p h.rows_known in
      next_claim-some k s.requests s.batches stored (first_free-some k s.requests free) ∙ sym p
  | inr p ↦
      none_waits (next_claim s.requests s.batches)
        (next_claim-OffersClaim s.requests s.batches h.rows_sound.distinct) p
      ∙ sym p
]
  where
    none_waits :
        (o : Option (Batch × Request))
        → OffersClaim s.requests o
        → any (λ r. is_queued r.state && not r.has_slot) s.requests ≡ false
        → is_some o ≡ false
    none_waits none k p = refl
    none_waits (some (b, r)) k p =
        let waits : any (λ r. is_queued r.state && not r.has_slot) s.requests ≡ true =
          find-any r.id (λ r. is_queued r.state && not r.has_slot) s.requests r k.stored
            (rw (k.is_queued_row, k.no_slot) refl) in
        cc

claim-some :
    (now : ℕ) (s : Store) (o : Option (Batch × Request)) → is_some (claim now s o).1 ≡ is_some o
unfolding claim
claim-some now s none = refl
claim-some now s (some (b, r)) = refl

-- After any calls, `has_dispatchable_request` answers yes exactly when `claim_next_dispatch` would
-- claim a request: the join with the batches and the order of the claims hide none.
pub has_dispatchable_request-claim :
    (hash : ℕ → ℕ) (cs : List (ℕ × Call)) (now : ℕ)
    → let s = run hash empty cs in
      has_dispatchable_request s ≡ is_some (claim_next_dispatch now s).1
unfolding has_dispatchable_request claim_next_dispatch
has_dispatchable_request-claim hash cs now =
    let s = run hash empty cs in
    let found = next_claim-any s (run-IsSound hash cs) in
    elim (Bool-cases (slot_taken s.requests)) [
      | inl p ↦ rw p refl
      | inr p ↦ rw p (sym (claim-some now s (next_claim s.requests s.batches) ∙ found))
    ]

slots_none : (rows : List Request) → count_if (λ r. r.has_slot) rows ≡ 0 → slot_taken rows ≡ false
unfolding slot_taken
slots_none [] h = refl
slots_none (r ∷ rows) h = ground (arith, slots_none rows)

waiting-any :
    (rows : List Request)
    → count_if (λ r. r.has_slot) rows ≡ 0
    → any (λ r. is_queued r.state && not r.has_slot) rows ≡ any (λ r. is_queued r.state) rows
waiting-any [] h = refl
waiting-any (r ∷ rows) h = ground (arith, waiting-any rows)

-- After any calls, `recover_scheduling_slot` is never refused: it frees every slot held, counts
-- them, and then a claim succeeds exactly when a request is queued.
pub recover_scheduling_slot_lem :
    (hash : ℕ → ℕ) (cs : List (ℕ × Call)) (now later : ℕ)
    → let s = run hash empty cs in
      (t : Store) × (n : ℕ) × (recover_scheduling_slot now s ≡ some (t, n))
      × (count_if (λ r. r.has_slot) t.requests ≡ 0)
      × (n ≡ count_if (λ r. r.has_slot) s.requests)
      × (is_some (claim_next_dispatch later t).1 ≡ any (λ r. is_queued r.state) t.requests)
unfolding claim_next_dispatch
recover_scheduling_slot_lem hash cs now later =
    let s = run hash empty cs in
    let sound = run-IsSound hash cs in
    let (t, n, p, a, none_held, counted) = recovered_lem now s sound.rows_sound in
    let after : IsSound t = record {
      rows_sound = a.store_ok;
      rows_known = a.known sound.rows_known;
    } in
    let claimed : is_some (next_claim t.requests t.batches)
        ≡ any (λ r. is_queued r.state) t.requests =
      next_claim-any t after ∙ waiting-any t.requests none_held in
    (
      t,
      n,
      p,
      none_held,
      counted,
      rw (slots_none t.requests none_held)
          (claim-some later t (next_claim t.requests t.batches) ∙ claimed),
    )
