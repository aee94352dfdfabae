-- ===== src/Repair/Slot.antt =====
-- The one scheduling slot: `claim_next_dispatch` and `recover_scheduling_slot` of
-- app/backend/enrollment_repair_store.py.
use studiohub_mac.Prelude.{
  ℕ, ◌+◌, ◌≤◌, ◌≡◌, inl, inr, refl, sym, true, false, Option, none, some, List, [], ◌∷◌, arith,
  ◌==◌, leb, count_if, All, Bool-cases,
}
use studiohub_mac.Repair.Rows.{Request, queued, is_unresolved}
use studiohub_mac.Repair.Outcomes.{claim_row, recover_row}
use studiohub_mac.Repair.Sound.{RowIsSound, Moves}
use studiohub_mac.Repair.Sound.Ends.{claim-Moves, recover-Moves}
use studiohub_mac.Repair.Store.{
  Store, Batch, find, replace, commit, slot_taken, is_free, earlier, first_free, oldest, pair,
  next_claim, claim, claim_next_dispatch, recover_next, recover_rows, recover_scheduling_slot,
}
use studiohub_mac.Repair.Invariant.{
  Distinct, StoreIsSound, Advances, Advances-refl, All-find, count-replace,
}
use studiohub_mac.Repair.Writes.{commit-Advances, active-replace_unresolved}

-- The row that its id finds, queued and without the slot.
pub record IsOffered (rows : List Request) (r : Request) : Type 0 where
  pub stored : find r.id rows ≡ some r
  pub is_queued_row : r.state ≡ queued
  pub no_slot : r.has_slot ≡ false

abbrev pub OffersRow : List Request → Option Request → Type 0
OffersRow rows none = Unit {0}
OffersRow rows (some r) = IsOffered rows r

abbrev pub OffersClaim : List Request → Option (Batch × Request) → Type 0
OffersClaim rows none = Unit {0}
OffersClaim rows (some (b, r)) = IsOffered rows r

find-later :
    (q r : Request) (rows : List Request)
    → find q.id rows ≡ none
    → find r.id rows ≡ some r
    → find r.id (q ∷ rows) ≡ some r
unfolding find
find-later q r rows e h = elim (Bool-cases (q.id == r.id)) [
  | inl p ↦
      let same : q.id ≡ r.id = ground arith in
      let lost : find r.id rows ≡ none = rw same at e in absurd (ground arith)
  | inr p ↦ rw p h
]

OffersRow-cons :
    (q : Request) (rows : List Request) (o : Option Request)
    → find q.id rows ≡ none
    → OffersRow rows o
    → OffersRow (q ∷ rows) o
OffersRow-cons q rows none e h = tt
OffersRow-cons q rows (some r) e h = record {
  stored = find-later q r rows e h.stored;
  is_queued_row = h.is_queued_row;
  no_slot = h.no_slot;
}

earlier-OffersRow :
    (q : Request) (rows : List Request) (o : Option Request)
    → IsOffered rows q
    → OffersRow rows o
    → OffersRow rows (earlier q o)
unfolding earlier
earlier-OffersRow q rows none p h = p
earlier-OffersRow q rows (some r) p h = elim (Bool-cases (leb q.ordinal r.ordinal)) [
  | inl e ↦ rw e p
  | inr e ↦ rw e h
]

free-IsOffered :
    (batch : ℕ) (q : Request) (rows : List Request)
    → is_free batch q ≡ true
    → IsOffered (q ∷ rows) q
unfolding is_free find
free-IsOffered batch q rows p = ground arith

first_free-OffersRow :
    (batch : ℕ) (rows : List Request) → Distinct rows → OffersRow rows (first_free batch rows)
unfolding first_free
first_free-OffersRow batch [] h = tt
first_free-OffersRow batch (q ∷ rows) h =
    let rest =
      OffersRow-cons q rows (first_free batch rows) h.0 (first_free-OffersRow batch rows h.1) in
    elim (Bool-cases (is_free batch q)) [
      | inl p ↦ rw p (
          earlier-OffersRow q (q ∷ rows) (first_free batch rows) (free-IsOffered batch q rows p)
            rest)
      | inr p ↦ rw p rest
    ]

pair-OffersClaim :
    (b : Batch) (rows : List Request) (o : Option Request) (rest : Option (Batch × Request))
    → OffersRow rows o
    → OffersClaim rows rest
    → OffersClaim rows (pair b o rest)
unfolding pair oldest
pair-OffersClaim b rows none rest h k = k
pair-OffersClaim b rows (some r) none h k = h
pair-OffersClaim b rows (some r) (some (b', r')) h k =
    elim (Bool-cases (leb b.created_at b'.created_at)) [ inl e ↦ rw e h | inr e ↦ rw e k ]

pub next_claim-OffersClaim :
    (rows : List Request) (batches : List Batch)
    → Distinct rows
    → OffersClaim rows (next_claim rows batches)
unfolding next_claim
next_claim-OffersClaim rows [] h = tt
next_claim-OffersClaim rows (b ∷ batches) h =
    pair-OffersClaim b rows (first_free b.id rows) (next_claim rows batches)
      (first_free-OffersRow b.id rows h) (next_claim-OffersClaim rows batches h)

no-slot_taken :
    (rows : List Request) → slot_taken rows ≡ false → count_if (λ r. r.has_slot) rows ≡ 0
unfolding slot_taken
no-slot_taken [] h = refl
no-slot_taken (r ∷ rows) h = ground (arith, no-slot_taken rows)

pub claim-Advances :
    (now : ℕ) (s : Store) (o : Option (Batch × Request))
    → StoreIsSound s.requests
    → slot_taken s.requests ≡ false
    → OffersClaim s.requests o
    → Advances s (claim now s o).0
unfolding claim claim_row
claim-Advances now s none h free k = Advances-refl s h
claim-Advances now s (some (b, r)) h free k =
    let sound = All-find RowIsSound r.id s.requests r k.stored h.rows_ok in
    let m = claim-Moves now r sound k.is_queued_row in
    commit-Advances r.id now (claim_row now r) r s k.stored m h
      (ground (
        arith,
        no-slot_taken s.requests free,
        count-replace (λ x. x.has_slot) r.id (claim_row now r) r s.requests k.stored,
      ))
      (active-replace_unresolved r.id (claim_row now r) r s.requests k.stored m h
        (rw k.is_queued_row refl))

pub claim_next_dispatch-Advances :
    (now : ℕ) (s : Store) → StoreIsSound s.requests → Advances s (claim_next_dispatch now s).0
unfolding claim_next_dispatch
claim_next_dispatch-Advances now s h = elim (Bool-cases (slot_taken s.requests)) [
  | inl p ↦ rw p (Advances-refl s h)
  | inr p ↦ rw p (
      claim-Advances now s (next_claim s.requests s.batches) h p
        (next_claim-OffersClaim s.requests s.batches h.distinct))
]

held_unresolved : (r : Request) → RowIsSound r → r.has_slot ≡ true → is_unresolved r.state ≡ true
held_unresolved r h held = ground arith

-- What a recovery finds in sound rows: no slot is held, or one is, and its row is set free.
pub data Recovers (now : ℕ) (rows : List Request) (s : Store) : Type 0 where
  idle :
      count_if (λ r. r.has_slot) rows ≡ 0
      → recover_rows now rows s ≡ some (s, 0)
      → Recovers now rows s
  frees :
      (r q : Request)
      → find r.id rows ≡ some r
      → r.has_slot ≡ true
      → Moves r q
      → q.has_slot ≡ false
      → count_if (λ r. r.has_slot) rows ≡ 1
      → recover_rows now rows s ≡ some (commit q.id q now s, 1)
      → Recovers now rows s

recover_rows-held :
    (now n : ℕ) (q new : Request) (rows : List Request) (s t : Store)
    → q.has_slot ≡ true
    → recover_row now q ≡ some new
    → recover_rows now rows s ≡ some (t, n)
    → recover_rows now (q ∷ rows) s ≡ some (commit new.id new now t, n + 1)
unfolding recover_rows recover_next
recover_rows-held now n q new rows s t held stored p = rw (held, stored, p) refl

recover-head :
    (now : ℕ) (q : Request) (rows : List Request) (s : Store)
    → RowIsSound q
    → count_if (λ r. r.has_slot) (q ∷ rows) ≤ 1
    → find q.id rows ≡ none
    → Recovers now rows s
    → Recovers now (q ∷ rows) s
unfolding recover_rows find
recover-head now q rows s h c e (idle none_held p) = elim (Bool-cases q.has_slot) [
  | inl held ↦
      let (new, stored, m, given_back) = recover-Moves now q h held in
      frees q new (ground arith) held m given_back (rw held (ground arith))
        (recover_rows-held now 0 q new rows s s held stored p)
  | inr free ↦ idle (ground arith) (rw free p)
]
recover-head now q rows s h c e (frees r new f held m given_back one p) =
    let free : q.has_slot ≡ false = ground arith in
    frees r new (find-later q r rows e f) held m given_back (ground arith) (rw free p)

pub recover_rows-Recovers :
    (now : ℕ) (rows : List Request) (s : Store)
    → All RowIsSound rows
    → count_if (λ r. r.has_slot) rows ≤ 1
    → Distinct rows
    → Recovers now rows s
unfolding recover_rows
recover_rows-Recovers now [] s h c d = idle refl refl
recover_rows-Recovers now (q ∷ rows) s h c d =
    recover-head now q rows s h.0 c d.0 (recover_rows-Recovers now rows s h.1 (ground arith) d.1)

-- A recovery of a sound store is never refused, and afterwards nobody holds the slot.
pub recovered_lem :
    (now : ℕ) (s : Store)
    → StoreIsSound s.requests
    → (t : Store) × (n : ℕ) × (recover_scheduling_slot now s ≡ some (t, n))
      × Advances s t
      × (count_if (λ r. r.has_slot) t.requests ≡ 0)
      × (n ≡ count_if (λ r. r.has_slot) s.requests)
unfolding recover_scheduling_slot
recovered_lem now s h =
    elim (recover_rows-Recovers now s.requests s h.rows_ok h.one_slot h.distinct) [
      | idle none_held p ↦ (s, 0, p, Advances-refl s h, none_held, sym none_held)
      | frees r q f held m given_back one p ↦
          let id_kept : find q.id s.requests ≡ some r = rw m.same_id f in
          let counted = count-replace (λ x. x.has_slot) q.id q r s.requests id_kept in
          let none_held : count_if (λ x. x.has_slot) (replace q.id q s.requests) ≡ 0 =
            ground (arith, counted) in
          let sound = All-find RowIsSound q.id s.requests r id_kept h.rows_ok in
          (
            commit q.id q now s,
            1,
            p,
            unfold commit in
                commit-Advances q.id now q r s id_kept m h (ground arith) (
                  active-replace_unresolved q.id q r s.requests id_kept m h
                    (held_unresolved r sound held)),
            unfold commit in none_held,
            sym one,
          )
    ]
