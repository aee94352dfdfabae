-- ===== src/Repair/Runs.antt =====
-- Any sequence of calls on app/backend/enrollment_repair_store.py, from the empty database.
use studiohub_mac.Prelude.{ℕ, inl, inr, List, [], ◌∷◌, arith, ◌==◌, Bool-cases}
use studiohub_mac.Repair.Rows.{request_not_found, request_not_issuable}
use studiohub_mac.Repair.Guards.{issue_row, dispatch_row, redeem_row}
use studiohub_mac.Repair.Outcomes.{
  park_row, Status, adopt_row, fail_row, resolve_preclaim_row, resolve_expired_row, flag_row,
  refusal_row,
}
use studiohub_mac.Repair.Sound.{noted}
use studiohub_mac.Repair.Sound.Tickets.{issue-moves, dispatch-moves, redeem-moves}
use studiohub_mac.Repair.Sound.Ends.{
  park-moves, adopt-moves, fail-moves, resolve_preclaim-moves, resolve_expired-moves, flag-moves,
}
use studiohub_mac.Repair.Store.{Store, empty}
use studiohub_mac.Repair.Calls.{
  Call, creates, claims, recovers, issues, dispatches, redeems, parks, adopts, fails,
  resolves_preclaim, resolves_expired, flags, records_refusal, step, run, issue_ticket,
  mark_dispatched, redeem, park, adopt_status, fail_before_claim, resolve_preclaim_review,
  resolve_expired_unredeemed_review, flag_registry_changed, record_redemption_refusal, recovered,
}
use studiohub_mac.Repair.Invariant.{RowsMove, StoreIsSound, IsKnown, Advances, Advances-refl}
use studiohub_mac.Repair.Writes.{transact-Advances}
use studiohub_mac.Repair.Slot.{claim_next_dispatch-Advances, recovered_lem}
use studiohub_mac.Repair.Inserts.{create-Advances}

adopt_status-Advances :
    (id : ℕ) (status : Status) (now : ℕ) (s : Store)
    → StoreIsSound s.requests
    → Advances s (adopt_status id status now s).0
unfolding adopt_status
adopt_status-Advances id status now s h = elim (Bool-cases (status.request_id == id)) [
  | inl e ↦ rw e (
      transact-Advances request_not_found id now (adopt_row status now) s
        (λ r k. adopt-moves r k status now) h)
  | inr e ↦ rw e (Advances-refl s h)
]

pub step-Advances :
    (hash : ℕ → ℕ) (s : Store) (c : ℕ × Call) → StoreIsSound s.requests → Advances s (step hash s c)
unfolding step
step-Advances hash s (now, creates fresh batch machines) h =
    create-Advances fresh batch now machines s h
step-Advances hash s (now, claims) h = claim_next_dispatch-Advances now s h
step-Advances hash s (now, recovers) h =
    let (t, n, p, a, none_held, counted) = recovered_lem now s h in unfold recovered in rw p a
step-Advances hash s (now, issues id target controller fleet ticket expires) h =
    unfold issue_ticket in
    transact-Advances request_not_issuable id now
      (issue_row target controller fleet ticket expires now) s
      (λ r k. issue-moves r k target controller fleet ticket expires now) h
step-Advances hash s (now, dispatches id) h =
    unfold mark_dispatched in
    transact-Advances request_not_found id now (dispatch_row now) s (λ r k. dispatch-moves r k now)
      h
step-Advances hash s (now, redeems id d) h =
    unfold redeem in
    transact-Advances request_not_found id now (redeem_row hash d now s.requests) s
      (λ r k. redeem-moves r k hash d now s.requests) h
step-Advances hash s (now, parks id error) h =
    unfold park in
    transact-Advances request_not_found id now (park_row error now) s
      (λ r k. park-moves r k error now) h
step-Advances hash s (now, adopts id status) h = adopt_status-Advances id status now s h
step-Advances hash s (now, fails id to error) h =
    unfold fail_before_claim in
    transact-Advances request_not_found id now (fail_row to error now) s
      (λ r k. fail-moves r k to error now) h
step-Advances hash s (now, resolves_preclaim id evidence) h =
    unfold resolve_preclaim_review in
    transact-Advances request_not_found id now (resolve_preclaim_row evidence now) s
      (λ r k. resolve_preclaim-moves r k evidence now) h
step-Advances hash s (now, resolves_expired id) h =
    unfold resolve_expired_unredeemed_review in
    transact-Advances request_not_found id now (resolve_expired_row now) s
      (λ r k. resolve_expired-moves r k now) h
step-Advances hash s (now, flags id evidence) h =
    unfold flag_registry_changed in
    transact-Advances request_not_found id now (flag_row evidence now) s
      (λ r k. flag-moves r k evidence now) h
step-Advances hash s (now, records_refusal id entry) h =
    unfold record_redemption_refusal in
    transact-Advances request_not_found id now (refusal_row entry) s
      (λ r k. unfold refusal_row in noted _) h

-- A store that calls lead to: its rows are sound, and their batches are stored.
pub record IsSound (s : Store) : Type 0 where
  pub rows_sound : StoreIsSound s.requests
  pub rows_known : IsKnown s.batches s.requests

pub step-IsSound : (hash : ℕ → ℕ) (s : Store) (c : ℕ × Call) → IsSound s → IsSound (step hash s c)
step-IsSound hash s c h =
    let next = step-Advances hash s c h.rows_sound in
    record { rows_sound = next.store_ok; rows_known = next.known h.rows_known }

pub run_from-IsSound :
    (hash : ℕ → ℕ) (s : Store) (cs : List (ℕ × Call)) → IsSound s → IsSound (run hash s cs)
unfolding run
run_from-IsSound hash s [] h = h
run_from-IsSound hash s (c ∷ cs) h =
    run_from-IsSound hash (step hash s c) cs (step-IsSound hash s c h)

empty-IsSound : IsSound empty
empty-IsSound = record {
  rows_sound = record {
    rows_ok = tt;
    one_slot = omega arith;
    one_active = λ k. omega arith;
    distinct = tt;
  };
  rows_known = tt;
}

-- After any calls on an empty database, whatever their arguments and outcomes: each request's slot,
-- ticket, times and count of attempts agree with its state, at most one request holds the dispatch
-- slot, each target has at most one unresolved request, no id is used twice, and the batch of each
-- request is stored.
pub run-IsSound : (hash : ℕ → ℕ) (cs : List (ℕ × Call)) → IsSound (run hash empty cs)
run-IsSound hash cs = run_from-IsSound hash empty cs empty-IsSound

-- One more call: it moves each request along the protocol, in its place, or leaves it, and it adds
-- only waiting requests without a ticket.
pub step-RowsMove :
    (hash : ℕ → ℕ) (cs : List (ℕ × Call)) (c : ℕ × Call)
    → let before = run hash empty cs in RowsMove before.requests (step hash before c).requests
step-RowsMove hash cs c =
    (step-Advances hash (run hash empty cs) c (run-IsSound hash cs).rows_sound).rows_move
