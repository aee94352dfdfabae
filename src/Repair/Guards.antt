-- ===== src/Repair/Guards.antt =====
-- app/backend/enrollment_repair_store.py: the guards and the UPDATE of each operation, over its row.
-- A guard that an UPDATE repeats in its WHERE is written once: the transaction holds the write lock.
use studiohub_mac.Prelude.{
  ℕ, ◌+◌, Bool, false, not, ◌&&◌, Option, none, some, List, leb, ◌==◌, if◌then◌else◌, any, or_else,
  option_eq, is_some,
}
use studiohub_mac.Repair.Rows.{
  ticket_issued, dispatched, redeemed, confirmation_pending, issued, spent, expired,
  ticket_is_expired, Controller, Target, Request, request_not_issuable, request_not_dispatchable,
  ticket_replayed, ticket_expired, ticket_not_redeemable, redemption_expiry_mismatch,
  ticket_mismatch, fleet_token_mismatch, target_binding_mismatch, controller_snapshot_changed,
  repair_already_complete, Decision, refuses, keeps, writes, writes_and_raises, is_early,
  is_complete, is_dispatched, is_offered, is_ticket_issued, is_issued, is_spent, is_expired,
}

-- `issue_ticket`
unfoldable pub issue_row : Target → Controller → ℕ → ℕ → ℕ → ℕ → Request → Decision
issue_row target controller fleet ticket expires now r =
    if r.target_machine == target.machine && (is_early r.state && not (is_some r.ticket_status))
    then writes (record r {
      bound_target = some target;
      bound_controller = some controller;
      fleet_token_digest = some fleet;
      ticket_digest = some ticket;
      ticket_status = some issued;
      issued_at = some now;
      redemption_expires_at = some expires;
      state = ticket_issued;
      attempt = r.attempt + 1;
      updated_at = now;
      error_code = none;
    })
    else refuses request_not_issuable

-- `mark_dispatched`
unfoldable pub dispatch_row : ℕ → Request → Decision
dispatch_row now r =
    if is_dispatched r.state
    then keeps
    else if is_ticket_issued r.state && is_issued r.ticket_status
    then writes (record r { state = dispatched; dispatched_at = some now; updated_at = now })
    else refuses request_not_dispatchable

-- What a target presents with its ticket, and the snapshots of this Hub.
pub record Redemption : Type 0 where
  pub ticket : ℕ
  pub expires : ℕ
  pub machine : ℕ
  pub source : ℕ
  pub observed : ℕ
  pub snapshot : Target
  pub controller : Controller
  pub fleet : ℕ

unfoldable pub exact_target : Redemption → ℕ → Option Target → Bool
exact_target d machine none = false
exact_target d machine (some t) =
    machine == d.machine
    && (machine == d.snapshot.machine
        && (t.registry_host == d.snapshot.registry_host
            && (t.resolved_address == d.snapshot.resolved_address
                && (t.controller_url == d.snapshot.controller_url
                    && t.resolved_address == d.source))))

unfoldable pub exact_controller : Controller → Option Controller → Bool
exact_controller c none = false
exact_controller c (some b) =
    b.role == c.role
    && (b.site_id == c.site_id
        && (b.site_name == c.site_name && b.controller_id == c.controller_id))

-- Another request of the target was completed since this effort started.
unfoldable pub already_complete : Request → List Request → Bool
already_complete r = any λ q.
    q.target_machine == r.target_machine
    && (not (q.id == r.id) && (is_complete q.state && leb (or_else r.issued_at 0) q.updated_at))

unfoldable pub expire_row : ℕ → Request → Request
expire_row now r = record r {
  ticket_status = some expired;
  state = confirmation_pending;
  error_code = some ticket_is_expired;
  has_slot = false;
  updated_at = now;
}

unfoldable pub redeemed_row : Redemption → ℕ → Request → Request
redeemed_row d now r = record r {
  ticket_status = some spent;
  state = redeemed;
  direct_source = some d.source;
  redeemed_at = some now;
  observed_identity = some d.observed;
  registry_snapshot = some d.snapshot;
  updated_at = now;
  error_code = none;
}

-- `redeem`: the hash of the ticket and the other rows are arguments. An issued ticket has a deadline.
unfoldable pub redeem_row : (ℕ → ℕ) → Redemption → ℕ → List Request → Request → Decision
unfolding expire_row redeemed_row
redeem_row hash d now rows r =
    if is_spent r.ticket_status
    then refuses ticket_replayed
    else if is_expired r.ticket_status
    then refuses ticket_expired
    else if not (is_issued r.ticket_status && is_offered r.state)
    then refuses ticket_not_redeemable
    else if not (option_eq r.redemption_expires_at (some d.expires))
    then refuses redemption_expiry_mismatch
    else if leb d.expires now
    then writes_and_raises (expire_row now r) ticket_expired
    else if not (option_eq r.ticket_digest (some (hash d.ticket)))
    then refuses ticket_mismatch
    else if not (option_eq r.fleet_token_digest (some d.fleet))
    then refuses fleet_token_mismatch
    else if not (exact_target d r.target_machine r.bound_target)
    then refuses target_binding_mismatch
    else if not (exact_controller d.controller r.bound_controller)
    then refuses controller_snapshot_changed
    else if already_complete r rows
    then refuses repair_already_complete
    else writes (redeemed_row d now r)
