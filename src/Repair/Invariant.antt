-- ===== src/Repair/Invariant.antt =====
-- What every store of app/backend/enrollment_repair_store.py satisfies: sound rows, the primary key and
-- the two unique indexes.
use studiohub_mac.Prelude.{
  ℕ, ◌+◌, ◌≤◌, ◌≡◌, ◌⊎◌, inl, inr, refl, sym, subst, Bool, true, false, none, some, List, [], ◌∷◌,
  arith, ◌==◌, if◌then◌else◌, count_if, All, Bool-cases, contains,
}
use studiohub_mac.Repair.Rows.{Request}
use studiohub_mac.Repair.Phases.{waiting, stage, stay}
use studiohub_mac.Repair.Sound.{RowIsSound, Moves}
use studiohub_mac.Repair.Store.{Store, find, replace, is_active, Batch, refresh_batches, recount}

-- No two rows have one id.
abbrev pub Distinct : List Request → Type 0
Distinct [] = Unit {0}
Distinct (r ∷ rows) = (find r.id rows ≡ none) × Distinct rows

-- A row that was inserted.
pub record IsNew (q : Request) : Type 0 where
  pub is_sound : RowIsSound q
  pub waits : stage q.state ≡ waiting
  pub unissued : q.ticket_status ≡ none

-- Each row has moved along the protocol, in its place, and only new rows follow them.
pub data RowsMove : List Request → List Request → Type 0 where
  added : (qs : List Request) → All IsNew qs → RowsMove [] qs
  moved :
      {r q : Request} {rs qs : List Request}
      → Moves r q
      → RowsMove rs qs
      → RowsMove (r ∷ rs) (q ∷ qs)

pub record StoreIsSound (rows : List Request) : Type 0 where
  pub rows_ok : All RowIsSound rows
  pub one_slot : count_if (λ r. r.has_slot) rows ≤ 1
  pub one_active : (machine : ℕ) → count_if (is_active machine) rows ≤ 1
  pub distinct : Distinct rows

abbrev pub ids : List Batch → List ℕ
ids [] = []
ids (b ∷ batches) = b.id ∷ ids batches

-- The batch of each row is stored: the foreign key.
abbrev pub IsKnown : List Batch → List Request → Type 0
IsKnown batches = All (λ r. contains r.batch (ids batches) ≡ true)

-- A sound store that came from the other.
pub record Advances (s t : Store) : Type 0 where
  pub store_ok : StoreIsSound t.requests
  pub rows_move : RowsMove s.requests t.requests
  pub known : IsKnown s.batches s.requests → IsKnown t.batches t.requests

pub Moves-refl : (r : Request) → RowIsSound r → Moves r r
Moves-refl r h = record {
  is_sound = h;
  same_id = refl;
  same_target = refl;
  same_batch = refl;
  edge = stay _ _;
}

pub RowsMove-refl : (rows : List Request) → All RowIsSound rows → RowsMove rows rows
RowsMove-refl [] h = added [] tt
RowsMove-refl (r ∷ rows) h = moved (Moves-refl r h.0) (RowsMove-refl rows h.1)

pub Advances-refl : (s : Store) → StoreIsSound s.requests → Advances s s
Advances-refl s h = record {
  store_ok = h;
  rows_move = RowsMove-refl s.requests h.rows_ok;
  known = λ k. k;
}

pub find-cons :
    (id : ℕ) (q r : Request) (rows : List Request)
    → find id (q ∷ rows) ≡ some r
    → (((q.id == id) ≡ true) × (q ≡ r)) ⊎ (((q.id == id) ≡ false) × (find id rows ≡ some r))
unfolding find
find-cons id q r rows p = elim (Bool-cases (q.id == id)) [
  | inl e ↦ let first : some q ≡ some r = rw e at p in let same : q ≡ r = cc in inl (e, same)
  | inr e ↦ let later : find id rows ≡ some r = rw e at p in inr (e, later)
]

pub find-id : (id : ℕ) (rows : List Request) (r : Request) → find id rows ≡ some r → r.id ≡ id
unfolding find
find-id id [] r p = cc
find-id id (q ∷ rows) r p = elim (find-cons id q r rows p) [
  | inl (e, same) ↦ rw (← same) (ground arith)
  | inr (e, later) ↦ find-id id rows r later
]

pub All-find {κ} :
    (P : Request → Type κ) (id : ℕ) (rows : List Request) (r : Request)
    → find id rows ≡ some r
    → All P rows
    → P r
unfolding find
All-find P id [] r p h = cc
All-find P id (q ∷ rows) r p h = elim (find-cons id q r rows p) [
  | inl (e, same) ↦ subst P same h.0
  | inr (e, later) ↦ All-find P id rows r later h.1
]

pub count-replace :
    (p : Request → Bool) (id : ℕ) (q r : Request) (rows : List Request)
    → find id rows ≡ some r
    → count_if p (replace id q rows) + (if p r then 1 else 0)
      ≡ count_if p rows + (if p q then 1 else 0)
unfolding find replace
count-replace p id q r [] h = cc
count-replace p id q r (x ∷ rows) h = ground (arith, count-replace p id q r rows)

pub find-replace :
    (k id : ℕ) (q : Request) (rows : List Request)
    → q.id ≡ id
    → find k rows ≡ none
    → find k (replace id q rows) ≡ none
unfolding find replace
find-replace k id q [] e h = refl
find-replace k id q (x ∷ rows) e h = ground (arith, find-replace k id q rows)

pub Distinct-replace :
    (id : ℕ) (q : Request) (rows : List Request)
    → q.id ≡ id
    → Distinct rows
    → Distinct (replace id q rows)
unfolding replace
Distinct-replace id q [] e h = tt
Distinct-replace id q (x ∷ rows) e h = elim (Bool-cases (x.id == id)) [
  | inl p ↦ let same : q.id ≡ x.id = ground arith in rw p (rw (← same) at h.0, h.1)
  | inr p ↦ rw p (find-replace x.id id q rows e h.0, Distinct-replace id q rows e h.1)
]

pub All-replace {κ} :
    (P : Request → Type κ) (id : ℕ) (q : Request) (rows : List Request)
    → P q
    → All P rows
    → All P (replace id q rows)
unfolding replace
All-replace P id q [] e h = tt
All-replace P id q (x ∷ rows) e h = elim (Bool-cases (x.id == id)) [
  | inl p ↦ rw p (e, h.1)
  | inr p ↦ rw p (h.0, All-replace P id q rows e h.1)
]

pub RowsMove-replace :
    (id : ℕ) (q r : Request) (rows : List Request)
    → find id rows ≡ some r
    → Moves r q
    → All RowIsSound rows
    → RowsMove rows (replace id q rows)
unfolding find replace
RowsMove-replace id q r [] f m h = cc
RowsMove-replace id q r (x ∷ rows) f m h = elim (find-cons id x r rows f) [
  | inl (e, same) ↦
      let here : Moves x q = subst (λ y. Moves y q) (sym same) m in
      rw e (moved here (RowsMove-refl rows h.1))
  | inr (e, later) ↦ rw e (moved (Moves-refl x h.0) (RowsMove-replace id q r rows later m h.1))
]

pub refresh-ids :
    (batch now : ℕ) (rows : List Request) (batches : List Batch)
    → ids (refresh_batches batch now rows batches) ≡ ids batches
unfolding refresh_batches recount
refresh-ids batch now rows [] = refl
refresh-ids batch now rows (b ∷ batches) = ground (arith, refresh-ids batch now rows batches)
