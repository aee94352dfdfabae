-- ===== src/Repair/Calls.antt =====
-- app/backend/enrollment_repair_store.py: the public operations, and any sequence of calls of them.
use studiohub_mac.Prelude.{ℕ, not, Option, none, some, List, [], ◌∷◌, ◌==◌, if◌then◌else◌}
use studiohub_mac.Repair.Rows.{
  Target, Controller, ErrorCode, Refusal, request_not_found, request_not_issuable,
  status_request_mismatch,
}
use studiohub_mac.Repair.Guards.{issue_row, dispatch_row, Redemption, redeem_row}
use studiohub_mac.Repair.Outcomes.{
  park_row, Status, adopt_row, Preclaim, fail_row, resolve_preclaim_row, resolve_expired_row,
  flag_row, refusal_row,
}
use studiohub_mac.Repair.Store.{
  Store, Reply, raised, transact, claim_next_dispatch, recover_scheduling_slot,
}
use studiohub_mac.Repair.Create.{create_or_adopt_batch}

-- `issue_ticket`: a row of another target is no row.
unfoldable pub issue_ticket : ℕ → Target → Controller → ℕ → ℕ → ℕ → ℕ → Store → Store × Reply
unfolding transact issue_row
issue_ticket id target controller fleet ticket expires now =
    transact request_not_issuable id now (issue_row target controller fleet ticket expires now)

unfoldable pub mark_dispatched : ℕ → ℕ → Store → Store × Reply
unfolding transact dispatch_row
mark_dispatched id now = transact request_not_found id now (dispatch_row now)

unfoldable pub redeem : (ℕ → ℕ) → ℕ → Redemption → ℕ → Store → Store × Reply
unfolding transact redeem_row
redeem hash id d now s = transact request_not_found id now (redeem_row hash d now s.requests) s

unfoldable pub park : ℕ → Option ErrorCode → ℕ → Store → Store × Reply
unfolding transact park_row
park id error now = transact request_not_found id now (park_row error now)

unfoldable pub adopt_status : ℕ → Status → ℕ → Store → Store × Reply
unfolding transact adopt_row
adopt_status id status now s =
    if not (status.request_id == id)
    then (s, raised status_request_mismatch)
    else transact request_not_found id now (adopt_row status now) s

unfoldable pub fail_before_claim : ℕ → Preclaim → Option ErrorCode → ℕ → Store → Store × Reply
unfolding transact fail_row
fail_before_claim id to error now = transact request_not_found id now (fail_row to error now)

unfoldable pub resolve_preclaim_review : ℕ → Option ℕ → ℕ → Store → Store × Reply
unfolding transact resolve_preclaim_row
resolve_preclaim_review id evidence now =
    transact request_not_found id now (resolve_preclaim_row evidence now)

unfoldable pub resolve_expired_unredeemed_review : ℕ → ℕ → Store → Store × Reply
unfolding transact resolve_expired_row
resolve_expired_unredeemed_review id now =
    transact request_not_found id now (resolve_expired_row now)

unfoldable pub flag_registry_changed : ℕ → Option ℕ → ℕ → Store → Store × Reply
unfolding transact flag_row
flag_registry_changed id evidence now = transact request_not_found id now (flag_row evidence now)

unfoldable pub record_redemption_refusal : ℕ → Refusal → ℕ → Store → Store × Reply
unfolding transact refusal_row
record_redemption_refusal id entry now = transact request_not_found id now (refusal_row entry)

pub data Call : Type 0 where
  creates : (fresh : ℕ → ℕ) → (batch : ℕ) → List ℕ → Call
  claims recovers : Call
  issues : ℕ → Target → Controller → (fleet ticket expires : ℕ) → Call
  dispatches : ℕ → Call
  redeems : ℕ → Redemption → Call
  parks : ℕ → Option ErrorCode → Call
  adopts : ℕ → Status → Call
  fails : ℕ → Preclaim → Option ErrorCode → Call
  resolves_preclaim : ℕ → Option ℕ → Call
  resolves_expired : ℕ → Call
  flags : ℕ → Option ℕ → Call
  records_refusal : ℕ → Refusal → Call

-- A recovery that raises rolls everything back.
unfoldable pub recovered : Store → Option (Store × ℕ) → Store
recovered s none = s
recovered s (some (t, n)) = t

-- The store after one call at a time; every exception leaves the transaction's result.
unfoldable pub step : (ℕ → ℕ) → Store → ℕ × Call → Store
unfolding recovered
step hash s (now, creates fresh batch machines) =
    (create_or_adopt_batch fresh batch now machines s).0
step hash s (now, claims) = (claim_next_dispatch now s).0
step hash s (now, recovers) = recovered s (recover_scheduling_slot now s)
step hash s (now, issues id target controller fleet ticket expires) =
    (issue_ticket id target controller fleet ticket expires now s).0
step hash s (now, dispatches id) = (mark_dispatched id now s).0
step hash s (now, redeems id d) = (redeem hash id d now s).0
step hash s (now, parks id error) = (park id error now s).0
step hash s (now, adopts id status) = (adopt_status id status now s).0
step hash s (now, fails id to error) = (fail_before_claim id to error now s).0
step hash s (now, resolves_preclaim id evidence) = (resolve_preclaim_review id evidence now s).0
step hash s (now, resolves_expired id) = (resolve_expired_unredeemed_review id now s).0
step hash s (now, flags id evidence) = (flag_registry_changed id evidence now s).0
step hash s (now, records_refusal id entry) = (record_redemption_refusal id entry now s).0

unfoldable pub run : (ℕ → ℕ) → Store → List (ℕ × Call) → Store
unfolding step
run hash s [] = s
run hash s (c ∷ cs) = run hash (step hash s c) cs
