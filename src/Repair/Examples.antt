-- ===== src/Repair/Examples.antt =====
-- Two machines are repaired: runs of app/backend/enrollment_repair_store.py, and its theorems at them.
use studiohub_mac.Prelude.{
  ℕ, ◌+◌, ◌≡◌, refl, none, some, List, [], ◌∷◌, arith, count_if, any, is_some, map, ◌<◌, ◌⊎◌, All,
  ◌==◌, if◌then◌else◌,
}
use studiohub_mac.Repair.Rows.{
  Request, RequestState, queued, ticket_issued, redeemed, spent, issued, dispatched, complete,
  Target, Controller, terminal_complete, ticket_replayed, is_queued,
}
use studiohub_mac.Repair.Guards.{Redemption, exact_target, exact_controller, already_complete}
use studiohub_mac.Repair.Outcomes.{
  to_retryable, preclaim_state, failed_row, claim_row, Status, from_address, expected_identity,
}
use studiohub_mac.Repair.Store.{
  Store, done, raised, empty, find, replace, next_claim, refresh_batches, recount, is_active,
  has_dispatchable_request, claim_next_dispatch, recover_scheduling_slot,
}
use studiohub_mac.Repair.Create.{new_request, batch_of, active_request, create_or_adopt_batch}
use studiohub_mac.Repair.Calls.{
  Call, creates, claims, issues, dispatches, redeems, parks, adopts, fails, fail_before_claim, step,
  run, redeem, issue_ticket, mark_dispatched, adopt_status,
}
use studiohub_mac.Repair.Invariant.{RowsMove}
use studiohub_mac.Repair.Runs.{IsSound, run-IsSound, step-RowsMove}
use studiohub_mac.Repair.Redeemed.{
  IsOwnTarget, IsOwnController, IsNoRepair, IsSameEffort, redeem_lem,
}
use studiohub_mac.Repair.Final.{redeem_once, ended_stays}
use studiohub_mac.Repair.Progress.{has_dispatchable_request-claim, recover_scheduling_slot_lem}
use studiohub_mac.Repair.Created.{create_or_adopt_batch_lem}

abbrev digest : ℕ → ℕ
digest x = x + 100

abbrev studio : Target
studio = record { machine = 5; registry_host = 21; resolved_address = 22; controller_url = 23 }

abbrev hub : Controller
hub = record { role = 31; site_id = 32; site_name = 33; controller_id = 34 }

abbrev fresh : ℕ → ℕ
fresh ordinal = ordinal + 10

-- The request 10 of machine 5 is claimed and sent out with ticket 8, to be redeemed before 60.
abbrev sent : List (ℕ × Call)
sent =
    (1, creates fresh 1 (7 ∷ 0 ∷ 5 ∷ []))
    ∷ (2, claims)
    ∷ (3, issues 10 studio hub 40 (digest 8) 60)
    ∷ (4, dispatches 10)
    ∷ []

abbrev presented : Redemption
presented = record {
  ticket = 8;
  expires = 60;
  machine = 5;
  source = 22;
  observed = 50;
  snapshot = studio;
  controller = hub;
  fleet = 40;
}

abbrev report : Status
report = record {
  terminal = terminal_complete;
  request_id = 10;
  source = 22;
  identity = some (record { site_id = 32; site_name = 33; controller_id = 5 });
  error = none;
  conflict = none;
  callback_error = none;
}

abbrev finished_run : List (ℕ × Call)
finished_run = (9, redeems 10 presented) ∷ (12, adopts 10 report) ∷ []

states : Store → List RequestState
states s = map (λ r. r.state) s.requests

sent-states : states (run digest empty sent) ≡ dispatched ∷ queued ∷ []
unfolding states run step create_or_adopt_batch claim_next_dispatch issue_ticket mark_dispatched
    find replace active_request next_claim
sent-states = refl

finished_states : states (run digest (run digest empty sent) finished_run) ≡ complete ∷ queued ∷ []
unfolding states run step create_or_adopt_batch claim_next_dispatch issue_ticket mark_dispatched
    redeem adopt_status find replace active_request next_claim exact_target exact_controller
    already_complete from_address expected_identity
finished_states = refl

run-IsSound_example : IsSound (run digest empty sent)
run-IsSound_example = run-IsSound digest sent

step-RowsMove_example :
    RowsMove
      (run digest empty sent).requests
      (step digest (run digest empty sent) (9, redeems 10 presented)).requests
step-RowsMove_example = step-RowsMove digest sent (9, redeems 10 presented)

redeemed_in_time : (redeem digest 10 presented 9 (run digest empty sent)).1 ≡ done
unfolding run step create_or_adopt_batch claim_next_dispatch issue_ticket mark_dispatched redeem
    find replace active_request next_claim exact_target exact_controller already_complete
redeemed_in_time = refl

redeem_lem_example :
    let s = run digest empty sent in
    (r : Request) × (q : Request) × (find 10 s.requests ≡ some r)
    × (r.ticket_status ≡ some issued)
    × ((r.state ≡ ticket_issued) ⊎ (r.state ≡ dispatched))
    × (r.redemption_expires_at ≡ some presented.expires)
    × (9 < presented.expires)
    × (r.ticket_digest ≡ some (digest presented.ticket))
    × (r.fleet_token_digest ≡ some presented.fleet)
    × IsOwnTarget presented r
    × IsOwnController presented.controller r
    × All (IsNoRepair r) s.requests
    × (find 11 (redeem digest 10 presented 9 s).0.requests
        ≡ (if 11 == 10 then some q else find 11 s.requests))
    × (q.ticket_status ≡ some spent)
    × (q.state ≡ redeemed)
    × (q.direct_source ≡ some presented.source)
    × (q.redeemed_at ≡ some 9)
    × (q.observed_identity ≡ some presented.observed)
    × (q.registry_snapshot ≡ some presented.snapshot)
    × IsSameEffort r q
redeem_lem_example = redeem_lem digest 10 9 11 presented (run digest empty sent) redeemed_in_time

redeem_once_example :
    redeem digest 10 presented 13 (
      run digest
        (redeem digest 10 presented 9 (run digest empty sent)).0
        ((10, parks 10 none) ∷ []))
    ≡ (
      run digest
          (redeem digest 10 presented 9 (run digest empty sent)).0
          ((10, parks 10 none) ∷ []),
      raised ticket_replayed,
    )
redeem_once_example =
    redeem_once digest 10 9 13 presented presented sent ((10, parks 10 none) ∷ []) redeemed_in_time

recover_scheduling_slot_lem_example :
    (t : Store) × (n : ℕ) × (recover_scheduling_slot 20 (run digest empty sent) ≡ some (t, n))
    × (count_if (λ r. r.has_slot) t.requests ≡ 0)
    × (n ≡ count_if (λ r. r.has_slot) (run digest empty sent).requests)
    × (is_some (claim_next_dispatch 21 t).1 ≡ any (λ r. is_queued r.state) t.requests)
recover_scheduling_slot_lem_example = recover_scheduling_slot_lem digest sent 20 21

has_dispatchable_request-claim_example :
    has_dispatchable_request (run digest empty ((1, creates fresh 1 (5 ∷ [])) ∷ []))
    ≡ is_some (claim_next_dispatch 2 (run digest empty ((1, creates fresh 1 (5 ∷ [])) ∷ []))).1
has_dispatchable_request-claim_example =
    has_dispatchable_request-claim digest ((1, creates fresh 1 (5 ∷ [])) ∷ []) 2

-- A second batch names machine 5 again, and adopts its request.
adopts_request :
    (create_or_adopt_batch (λ o. o + 90) 2 30 (9 ∷ 5 ∷ []) (run digest empty sent)).1
    ≡ batch_of 2 (10 ∷ [])
unfolding run step create_or_adopt_batch claim_next_dispatch issue_ticket mark_dispatched find
    replace active_request next_claim refresh_batches recount
adopts_request = refl

create_or_adopt_batch_lem_example :
    count_if
      (is_active 5)
      (create_or_adopt_batch (λ o. o + 90) 2 30 (9 ∷ 5 ∷ []) (run digest empty sent)).0.requests
    ≡ 1
create_or_adopt_batch_lem_example =
    create_or_adopt_batch_lem digest sent (λ o. o + 90) 2 30 5 2 (9 ∷ 5 ∷ []) (10 ∷ [])
      adopts_request refl (omega arith)

-- A request whose target does not answer before the ticket is made.
abbrev given_up : List (ℕ × Call)
given_up = (1, creates fresh 1 (5 ∷ [])) ∷ (2, claims) ∷ (3, fails 10 to_retryable none) ∷ []

abbrev failed : Request
failed = failed_row to_retryable none 3 (claim_row 2 (new_request 10 1 0 5 1))

stored_failed : find 10 (run digest empty given_up).requests ≡ some failed
unfolding run step create_or_adopt_batch claim_next_dispatch fail_before_claim find replace
    active_request next_claim failed_row claim_row new_request
stored_failed = refl

-- A new batch repairs the machine again, and the old request stays as it ended.
ended_stays_example :
    (q : Request) × (find 10
        (run digest
          (run digest empty given_up)
          ((4, creates (λ o. o + 90) 2 (5 ∷ [])) ∷ (5, claims) ∷ [])).requests
      ≡ some q)
    × (q.state ≡ failed.state)
    × (q.ticket_status ≡ failed.ticket_status)
ended_stays_example =
    ended_stays digest 10 given_up ((4, creates (λ o. o + 90) 2 (5 ∷ [])) ∷ (5, claims) ∷ []) failed
      stored_failed (unfold failed_row preclaim_state in refl)
