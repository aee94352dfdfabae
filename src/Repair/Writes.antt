-- ===== src/Repair/Writes.antt =====
-- The writes of app/backend/enrollment_repair_store.py: a transaction keeps what every store satisfies.
use studiohub_mac.Prelude.{
  ℕ, ◌≤◌, ◌≡◌, inl, inr, refl, ◌∙◌, true, false, not, ◌||◌, some, List, arith, ◌==◌, count_if,
  Bool-cases, Option-cases, contains,
}
use studiohub_mac.Repair.Rows.{Request, RepairError, Decision, Evidence, is_unresolved}
use studiohub_mac.Repair.Phases.{stay}
use studiohub_mac.Repair.Sound.{
  RowIsSound, Moves, keeps_slot, DecisionMoves, refused, kept, written, written_raising, noted,
}
use studiohub_mac.Repair.Store.{
  Store, Reply, find, replace, commit, conflicts, is_active, update, settle, decide_row, transact,
  Batch, refresh_batches,
}
use studiohub_mac.Repair.Invariant.{
  StoreIsSound, ids, Advances, Advances-refl, find-id, All-find, count-replace, Distinct-replace,
  All-replace, RowsMove-replace, refresh-ids,
}

-- A row is replaced by one that it may become, and neither index breaks.
pub replace-Advances :
    (id : ℕ) (q r : Request) (s : Store) (batches : List Batch)
    → ids batches ≡ ids s.batches
    → find id s.requests ≡ some r
    → Moves r q
    → StoreIsSound s.requests
    → count_if (λ x. x.has_slot) (replace id q s.requests) ≤ 1
    → ((machine : ℕ) → count_if (is_active machine) (replace id q s.requests) ≤ 1)
    → Advances s (record s { requests = replace id q s.requests; batches = batches })
replace-Advances id q r s batches e f m h slot active =
    let same : q.id ≡ id = m.same_id ∙ find-id id s.requests r f in
    record {
      store_ok = record {
        rows_ok = All-replace RowIsSound id q s.requests m.is_sound h.rows_ok;
        one_slot = slot;
        one_active = active;
        distinct = Distinct-replace id q s.requests same h.distinct;
      };
      rows_move = RowsMove-replace id q r s.requests f m h.rows_ok;
      known = λ k.
          let stored =
            All-find (λ x. contains x.batch (ids s.batches) ≡ true) id s.requests r f k in
          rw e (
            All-replace (λ x. contains x.batch (ids s.batches) ≡ true) id q s.requests
              (rw m.same_batch stored) k);
    }

pub commit-Advances :
    (id now : ℕ) (q r : Request) (s : Store)
    → find id s.requests ≡ some r
    → Moves r q
    → StoreIsSound s.requests
    → count_if (λ x. x.has_slot) (replace id q s.requests) ≤ 1
    → ((machine : ℕ) → count_if (is_active machine) (replace id q s.requests) ≤ 1)
    → Advances s (commit id q now s)
unfolding commit
commit-Advances id now q r s =
    replace-Advances id q r s (refresh_batches q.batch now (replace id q s.requests) s.batches)
      (refresh-ids q.batch now (replace id q s.requests) s.batches)

module _ (id : ℕ) (q r : Request) (rows : List Request) (f : find id rows ≡ some r) (m : Moves r q)
    (h : StoreIsSound rows) where
  slot-replace : keeps_slot r q ≡ true → count_if (λ x. x.has_slot) (replace id q rows) ≤ 1
  slot-replace k = ground (arith, h.one_slot, count-replace (λ x. x.has_slot) id q r rows f)

  -- A row that stays active, or another machine's.
  active-replace_kept :
      (machine : ℕ)
      → (is_active machine r || not (is_active machine q)) ≡ true
      → count_if (is_active machine) (replace id q rows) ≤ 1
  active-replace_kept machine k =
      ground (arith, h.one_active machine, count-replace (is_active machine) id q r rows f)

  active-replace :
      conflicts id q rows ≡ false
      → (machine : ℕ) → count_if (is_active machine) (replace id q rows) ≤ 1
  unfolding conflicts
  active-replace c machine = elim (Bool-cases (q.target_machine == machine)) [
    | inl e ↦ let same : q.target_machine ≡ machine = ground arith in rw (← same) (ground arith)
    | inr e ↦ active-replace_kept machine (unfold is_active in rw e (ground arith))
  ]

-- An unresolved row may become another of the same target.
pub active-replace_unresolved :
    (id : ℕ) (q r : Request) (rows : List Request)
    → find id rows ≡ some r
    → Moves r q
    → StoreIsSound rows
    → is_unresolved r.state ≡ true
    → (machine : ℕ) → count_if (is_active machine) (replace id q rows) ≤ 1
unfolding is_active
active-replace_unresolved id q r rows f m h u machine =
    active-replace_kept id q r rows f m h machine (rw (m.same_target, u) (ground arith))

update-Advances :
    (id now : ℕ) (q r : Request) (reply : Reply) (s : Store)
    → find id s.requests ≡ some r
    → Moves r q
    → StoreIsSound s.requests
    → keeps_slot r q ≡ true
    → Advances s (update id q now reply s).0
unfolding update
update-Advances id now q r reply s f m h k = elim (Bool-cases (conflicts id q s.requests)) [
  | inl c ↦ rw c (Advances-refl s h)
  | inr c ↦ rw c (
      commit-Advances id now q r s f m h (slot-replace id q r s.requests f m h k)
        (active-replace id q r s.requests f m h c))
]

noted-Moves : (r : Request) (v : Evidence) → RowIsSound r → Moves r (record r { evidence = v })
noted-Moves r v h = record {
  is_sound = ground arith;
  same_id = refl;
  same_target = refl;
  same_batch = refl;
  edge = stay _ _;
}

settle-Advances :
    (id now : ℕ) (s : Store) (r : Request) (d : Decision)
    → find id s.requests ≡ some r
    → StoreIsSound s.requests
    → DecisionMoves r d
    → Advances s (settle id now s r d).0
unfolding settle
settle-Advances id now s r d f h (refused e) = Advances-refl s h
settle-Advances id now s r d f h kept = Advances-refl s h
settle-Advances id now s r d f h (written q m k) = update-Advances id now q r _ s f m h k
settle-Advances id now s r d f h (written_raising q e m k) = update-Advances id now q r _ s f m h k
settle-Advances id now s r d f h (noted v) =
    let m = noted-Moves r v (All-find RowIsSound id s.requests r f h.rows_ok) in
    replace-Advances id _ r s s.batches refl f m h
      (slot-replace id _ r s.requests f m h (ground arith))
      (λ machine.
        active-replace_kept id _ r s.requests f m h machine (unfold is_active in ground arith))

-- A transaction whose decisions move a sound row along the protocol.
pub transact-Advances :
    (missing : RepairError) (id now : ℕ) (decide : Request → Decision) (s : Store)
    → ((r : Request) → RowIsSound r → DecisionMoves r (decide r))
    → StoreIsSound s.requests
    → Advances s (transact missing id now decide s).0
unfolding transact decide_row
transact-Advances missing id now decide s moves h = elim (Option-cases (find id s.requests)) [
  | inl p ↦ rw p (Advances-refl s h)
  | inr (r, p) ↦ rw p (
      settle-Advances id now s r (decide r) p h
        (moves r (All-find RowIsSound id s.requests r p h.rows_ok)))
]
