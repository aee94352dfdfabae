-- ===== src/Repair/Outcomes.antt =====
-- app/backend/enrollment_repair_store.py: how a request is parked, ended, reopened, claimed and
-- recovered: the guards and the UPDATE of each operation, over its row.
use studiohub_mac.Prelude.{
  ℕ, ◌-◌, Bool, true, false, not, ◌&&◌, Option, none, some, [], ◌∷◌, ◌++◌, leb, ◌==◌, if◌then◌else◌,
  drop, length, is_some,
}
use studiohub_mac.Repair.Rows.{
  RequestState, queued, checking, hub_update_required, confirmation_pending, complete, retryable,
  needs_review, TicketStatus, issued, spent, expired, ErrorCode, still_pending, Controller, Target,
  Terminal, terminal_complete, never_applied, terminal_review, Refusal, Evidence, no_evidence,
  Request, request_not_parkable, source_host_mismatch, terminal_status_conflict,
  status_not_adoptable, status_identity_mismatch, request_has_claim_authority, review_not_preclaim,
  review_not_expired, request_has_no_live_claim, Decision, refuses, keeps, writes, notes, in_flight,
  is_checking, is_unclaimed, is_parkable, is_review, is_closed, has_live_claim, is_spent,
}

-- `park`
unfoldable pub park_row : Option ErrorCode → ℕ → Request → Decision
park_row error now r =
    if is_parkable r.state
    then writes (record r {
      state = confirmation_pending;
      error_code = error;
      has_slot = false;
      updated_at = now;
    })
    else refuses request_not_parkable

-- The identity of a status; None in a status where it has other keys, or another role than "agent".
pub record AgentIdentity : Type 0 where
  pub site_id : ℕ
  pub site_name : ℕ
  pub controller_id : ℕ

-- The status that a target reports, as far as it is read; the error is the one that is stored for it,
-- with its default put in.
pub record Status : Type 0 where
  pub terminal : Terminal
  pub request_id : ℕ
  pub source : ℕ
  pub identity : Option AgentIdentity
  pub error : Option ErrorCode
  pub conflict : Option ℕ
  pub callback_error : Option ℕ

pub same_terminal : Terminal → Option Terminal → Bool
same_terminal terminal_complete (some terminal_complete) = true
same_terminal never_applied (some never_applied) = true
same_terminal terminal_review (some terminal_review) = true
same_terminal _ _ = false

unfoldable pub from_address : ℕ → Option Target → Bool
from_address source none = false
from_address source (some t) = source == t.resolved_address

unfoldable pub expected_identity : Option AgentIdentity → ℕ → Option Controller → Bool
expected_identity none machine c = false
expected_identity (some i) machine none = false
expected_identity (some i) machine (some c) =
    i.site_id == c.site_id && (i.site_name == c.site_name && i.controller_id == machine)

-- A later value of a key replaces the earlier one, no value keeps it.
keep_or : Option ℕ → Option ℕ → Option ℕ
keep_or none old = old
keep_or (some v) old = some v

adopted_evidence : Status → Evidence → Evidence
unfolding keep_or
adopted_evidence s e = record e {
  agent_terminal = some s.terminal;
  prior_repair = keep_or s.conflict e.prior_repair;
  agent_callback_error = keep_or s.callback_error e.agent_callback_error;
}

-- An issued ticket expires, any other status stays.
unfoldable pub lapse : Option TicketStatus → Option TicketStatus
lapse (some issued) = some expired
lapse t = t

unfoldable pub adopt_terminal : Terminal → Status → ℕ → Request → Decision
unfolding adopted_evidence lapse
adopt_terminal terminal_complete s now r =
    if expected_identity s.identity r.target_machine r.bound_controller && is_spent r.ticket_status
    then writes (record r {
      state = complete;
      ticket_status = some spent;
      error_code = none;
      evidence = adopted_evidence s r.evidence;
      has_slot = false;
      updated_at = now;
    })
    else refuses status_identity_mismatch
adopt_terminal never_applied s now r = writes (record r {
  state = retryable;
  ticket_status = lapse r.ticket_status;
  error_code = s.error;
  evidence = adopted_evidence s r.evidence;
  has_slot = false;
  updated_at = now;
})
adopt_terminal terminal_review s now r = writes (record r {
  state = needs_review;
  ticket_status = lapse r.ticket_status;
  error_code = s.error;
  evidence = adopted_evidence s r.evidence;
  has_slot = false;
  updated_at = now;
})

-- `adopt_status`
unfoldable pub adopt_row : Status → ℕ → Request → Decision
unfolding same_terminal adopt_terminal
adopt_row s now r =
    if not (from_address s.source r.bound_target)
    then refuses source_host_mismatch
    else if is_closed r.state
    then (if same_terminal s.terminal r.evidence.agent_terminal
        then keeps
        else refuses terminal_status_conflict)
    else if not (is_parkable r.state)
    then refuses status_not_adoptable
    else adopt_terminal s.terminal s now r

-- The states that `fail_before_claim` may be given; for another it raises before it reads.
pub data Preclaim : Type 0 where
  to_retryable to_review to_update_required : Preclaim

unfoldable pub preclaim_state : Preclaim → RequestState
preclaim_state to_retryable = retryable
preclaim_state to_review = needs_review
preclaim_state to_update_required = hub_update_required

unfoldable pub failed_row : Preclaim → Option ErrorCode → ℕ → Request → Request
unfolding preclaim_state
failed_row to error now r = record r {
  state = preclaim_state to;
  error_code = error;
  has_slot = false;
  updated_at = now;
}

-- `fail_before_claim`
unfoldable pub fail_row : Preclaim → Option ErrorCode → ℕ → Request → Decision
unfolding failed_row
fail_row to error now r =
    if not (is_some r.ticket_status)
      && (not (is_some r.issued_at) && (not (is_some r.redeemed_at) && is_unclaimed r.state))
    then writes (failed_row to error now r)
    else refuses request_has_claim_authority

unfoldable pub reopened_row : Option ℕ → ℕ → Request → Request
reopened_row evidence now r = record r {
  state = retryable;
  error_code = none;
  evidence = record no_evidence { preclaim_resolution = evidence };
  updated_at = now;
}

-- `resolve_preclaim_review`: the evidence is replaced.
unfoldable pub resolve_preclaim_row : Option ℕ → ℕ → Request → Decision
unfolding reopened_row
resolve_preclaim_row evidence now r =
    if is_review r.state
      && (not (is_some r.ticket_status)
          && (not (is_some r.ticket_digest)
              && (not (is_some r.issued_at) && not (is_some r.redeemed_at))))
    then writes (reopened_row evidence now r)
    else refuses review_not_preclaim

unfoldable pub deadline_passed : Option ℕ → ℕ → Bool
deadline_passed none now = false
deadline_passed (some t) now = leb t now

-- `resolve_expired_unredeemed_review`
unfoldable pub resolve_expired_row : ℕ → Request → Decision
resolve_expired_row now r =
    if is_review r.state
      && (not (is_some r.redeemed_at)
          && (is_some r.issued_at && deadline_passed r.redemption_expires_at now))
    then writes (record r {
      state = retryable;
      error_code = none;
      ticket_status = some expired;
      evidence = record r.evidence { expired_unredeemed = true; prior_error = r.error_code };
      updated_at = now;
    })
    else refuses review_not_expired

-- `flag_registry_changed`
unfoldable pub flag_row : Option ℕ → ℕ → Request → Decision
flag_row evidence now r =
    if has_live_claim r.state && is_spent r.ticket_status
    then writes (record r {
      evidence = record r.evidence { registry_changed = evidence };
      updated_at = now;
    })
    else refuses request_has_no_live_claim

abbrev pub refusal_limit : ℕ
refusal_limit = 5

-- `record_redemption_refusal`: the last five are kept.
unfoldable pub refusal_row : Refusal → Request → Decision
refusal_row entry r =
    let all = r.evidence.redemption_refusals ++ entry ∷ [] in
    notes (record r.evidence { redemption_refusals = drop (length all - refusal_limit) all })

-- One row of `recover_scheduling_slot`; None is the exception.
unfoldable pub recover_row : ℕ → Request → Option Request
recover_row now r =
    if in_flight r.state
    then some (record r {
      state = confirmation_pending;
      has_slot = false;
      error_code = some still_pending;
      updated_at = now;
    })
    else if is_checking r.state && not (is_some r.ticket_status)
    then some (record r { state = queued; has_slot = false; updated_at = now })
    else none

-- The UPDATE of `claim_next_dispatch`.
unfoldable pub claim_row : ℕ → Request → Request
claim_row now r = record r { state = checking; has_slot = true; updated_at = now }
