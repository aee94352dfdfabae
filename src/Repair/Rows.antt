-- ===== src/Repair/Rows.antt =====
-- app/backend/enrollment_repair_store.py: a row of enrollment_repair_requests, and what each operation
-- decides of the row that it has read. Texts and digests are numbers, compared for equality only; the
-- digests are canonical and the error codes short, as their checks require.
use studiohub_mac.Prelude.{ℕ, Bool, true, false, ◌||◌, Option, none, some, List, []}

-- REQUEST_STATES
pub data RequestState : Type 0 where
  queued checking hub_update_required updating_hub : RequestState
  ticket_issued dispatched redeemed verifying confirmation_pending : RequestState
  complete retryable needs_review : RequestState

-- TICKET_STATES
pub data TicketStatus : Type 0 where
  issued spent expired : TicketStatus

pub data ErrorCode : Type 0 where
  ticket_is_expired still_pending : ErrorCode
  code : ℕ → ErrorCode

pub record Controller : Type 0 where
  pub role : ℕ
  pub site_id : ℕ
  pub site_name : ℕ
  pub controller_id : ℕ

pub record Target : Type 0 where
  pub machine : ℕ
  pub registry_host : ℕ
  pub resolved_address : ℕ
  pub controller_url : ℕ

-- The "state" of an agent's status that may be adopted.
pub data Terminal : Type 0 where
  terminal_complete never_applied terminal_review : Terminal

pub record Refusal : Type 0 where
  pub at : ℕ
  pub refused_code : ℕ
  pub status : ℕ
  pub source : Option ℕ
  pub target_machine : Option ℕ

-- The evidence_json of a row, by its keys; what a target reports is kept as it was reduced.
pub record Evidence : Type 0 where
  pub agent_terminal : Option Terminal
  pub prior_repair : Option ℕ
  pub agent_callback_error : Option ℕ
  pub preclaim_resolution : Option ℕ
  pub expired_unredeemed : Bool
  pub prior_error : Option ErrorCode
  pub registry_changed : Option ℕ
  pub redemption_refusals : List Refusal

abbrev pub no_evidence : Evidence
no_evidence = record {
  agent_terminal = none;
  prior_repair = none;
  agent_callback_error = none;
  preclaim_resolution = none;
  expired_unredeemed = false;
  prior_error = none;
  registry_changed = none;
  redemption_refusals = [];
}

pub record Request : Type 0 where
  pub id : ℕ
  pub batch : ℕ
  pub ordinal : ℕ
  pub attempt : ℕ
  pub target_machine : ℕ
  pub bound_target : Option Target  -- registry_host, resolved_address, controller_url
  pub bound_controller : Option Controller
  pub fleet_token_digest : Option ℕ
  pub ticket_digest : Option ℕ
  pub ticket_status : Option TicketStatus
  pub issued_at : Option ℕ
  pub redemption_expires_at : Option ℕ
  pub dispatched_at : Option ℕ
  pub direct_source : Option ℕ
  pub redeemed_at : Option ℕ
  pub observed_identity : Option ℕ
  pub registry_snapshot : Option Target
  pub state : RequestState
  pub error_code : Option ErrorCode
  pub evidence : Evidence
  pub has_slot : Bool
  pub created_at : ℕ
  pub updated_at : ℕ

pub data RepairError : Type 0 where
  request_not_found request_not_issuable request_not_dispatchable : RepairError
  ticket_replayed ticket_expired ticket_not_redeemable redemption_expiry_mismatch : RepairError
  ticket_mismatch fleet_token_mismatch target_binding_mismatch : RepairError
  controller_snapshot_changed repair_already_complete request_not_parkable : RepairError
  status_request_mismatch source_host_mismatch terminal_status_conflict : RepairError
  status_not_adoptable status_identity_mismatch request_has_claim_authority : RepairError
  review_not_preclaim review_not_expired request_has_no_live_claim : RepairError
  dispatch_slot_state_invalid no_targets targets_already_active integrity_error : RepairError

-- What an operation does with the row that it has read: an exception before any write, nothing, a
-- write after which the batch is counted again (and perhaps an exception behind it), or a note only.
pub data Decision : Type 0 where
  refuses : RepairError → Decision
  keeps : Decision
  writes : Request → Decision
  writes_and_raises : Request → RepairError → Decision
  notes : Evidence → Decision

-- Sets of states that the guards name.
abbrev pub in_flight : RequestState → Bool
in_flight ticket_issued = true
in_flight dispatched = true
in_flight redeemed = true
in_flight verifying = true
in_flight _ = false

abbrev pub is_early : RequestState → Bool
is_early queued = true
is_early checking = true
is_early _ = false

abbrev pub is_unclaimed : RequestState → Bool
is_unclaimed queued = true
is_unclaimed checking = true
is_unclaimed hub_update_required = true
is_unclaimed updating_hub = true
is_unclaimed _ = false

abbrev pub is_checking : RequestState → Bool
is_checking checking = true
is_checking _ = false

abbrev pub is_queued : RequestState → Bool
is_queued queued = true
is_queued _ = false

abbrev pub is_pending : RequestState → Bool
is_pending confirmation_pending = true
is_pending _ = false

abbrev pub is_parkable : RequestState → Bool
is_parkable s = in_flight s || is_pending s

abbrev pub is_complete : RequestState → Bool
is_complete complete = true
is_complete _ = false

abbrev pub is_retryable : RequestState → Bool
is_retryable retryable = true
is_retryable _ = false

abbrev pub is_review : RequestState → Bool
is_review needs_review = true
is_review _ = false

abbrev pub needs_update : RequestState → Bool
needs_update hub_update_required = true
needs_update _ = false

abbrev pub is_closed : RequestState → Bool
is_closed s = is_complete s || (is_retryable s || is_review s)

-- The state is not one of those after which another repair of the target may be created.
abbrev pub is_unresolved : RequestState → Bool
is_unresolved complete = false
is_unresolved retryable = false
is_unresolved hub_update_required = false
is_unresolved _ = true

abbrev pub is_dispatched : RequestState → Bool
is_dispatched dispatched = true
is_dispatched _ = false

abbrev pub is_offered : RequestState → Bool
is_offered ticket_issued = true
is_offered dispatched = true
is_offered _ = false

abbrev pub is_ticket_issued : RequestState → Bool
is_ticket_issued ticket_issued = true
is_ticket_issued _ = false

abbrev pub has_live_claim : RequestState → Bool
has_live_claim redeemed = true
has_live_claim verifying = true
has_live_claim confirmation_pending = true
has_live_claim _ = false

abbrev pub is_issued : Option TicketStatus → Bool
is_issued (some issued) = true
is_issued _ = false

abbrev pub is_spent : Option TicketStatus → Bool
is_spent (some spent) = true
is_spent _ = false

abbrev pub is_expired : Option TicketStatus → Bool
is_expired (some expired) = true
is_expired _ = false
