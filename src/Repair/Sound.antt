-- ===== src/Repair/Sound.antt =====
-- What every stored request satisfies, and that each UPDATE of
-- app/backend/enrollment_repair_store.py keeps it and moves the request along the protocol.
pub mod Tickets
pub mod Ends
use studiohub_mac.Prelude.{
  ℕ, ◌≡◌, ◌≢◌, ◌⊎◌, inl, inr, refl, Bool, true, false, not, ◌&&◌, ◌||◌, Option, none, some, List,
  arith, ◌==◌, if◌then◌else◌, is_some, option_eq, leb, ap, Bool-cases,
}
use studiohub_mac.Repair.Rows.{
  RequestState, queued, checking, hub_update_required, updating_hub, ticket_issued, dispatched,
  redeemed, verifying, confirmation_pending, Terminal, terminal_complete, never_applied,
  terminal_review, complete, retryable, needs_review, TicketStatus, issued, spent, expired,
  still_pending, ErrorCode, Controller, Target, Refusal, Evidence, RepairError, Request, Decision,
  refuses, keeps, writes, writes_and_raises, notes, in_flight, is_checking, is_spent, is_early,
  is_parkable, is_unclaimed, is_review, is_issued, is_offered, is_queued, is_ticket_issued,
  has_live_claim, is_dispatched, is_expired, is_closed,
}
use studiohub_mac.Repair.Guards.{
  issue_row, dispatch_row, Redemption, redeem_row, expire_row, redeemed_row, exact_target,
  exact_controller, already_complete,
}
use studiohub_mac.Repair.Outcomes.{
  park_row, Status, adopt_row, adopt_terminal, Preclaim, to_retryable, to_review,
  to_update_required, preclaim_state, failed_row, reopened_row, fail_row, resolve_preclaim_row,
  resolve_expired_row, flag_row, refusal_row, recover_row, claim_row, lapse, deadline_passed,
  from_address, expected_identity, same_terminal,
}
use studiohub_mac.Repair.Phases.{
  Stage, waiting, offered, claimed, pending, reviewed, over, finished, stage, Live, offered_live,
  claimed_live, pending_live, Lapses, live, was_spent, was_expired, Edge, stay, offer, redeem,
  expire, park, finish, end, review, give_up, hold, reopen, reopen_lapsed,
}

-- The ticket that a state goes with.
abbrev pub fits : RequestState → Option TicketStatus → Bool
fits queued none = true
fits checking none = true
fits hub_update_required none = true
fits updating_hub none = true
fits ticket_issued (some issued) = true
fits dispatched (some issued) = true
fits redeemed (some spent) = true
fits verifying (some spent) = true
fits confirmation_pending (some t) = true
fits complete (some spent) = true
fits retryable t = true
fits needs_review t = true
fits _ _ = false

-- A row's scheduling slot, its ticket, its times and its attempts agree with its state.
pub record RowIsSound (r : Request) : Type 0 where
  pub slot_ok : (not r.has_slot || (in_flight r.state || is_checking r.state)) ≡ true
  pub ticket_ok : fits r.state r.ticket_status ≡ true
  pub redeemed_ok : is_some r.redeemed_at ≡ is_spent r.ticket_status
  pub issued_ok : is_some r.issued_at ≡ is_some r.ticket_status
  pub attempt_ok : r.attempt ≡ (if is_some r.ticket_status then 1 else 0)

-- The new row is sound, is the same request, gains no slot, and has moved along the protocol.
pub record Moves (r q : Request) : Type 0 where
  pub is_sound : RowIsSound q
  pub same_id : q.id ≡ r.id
  pub same_target : q.target_machine ≡ r.target_machine
  pub same_batch : q.batch ≡ r.batch
  pub edge : Edge (stage r.state) r.ticket_status (stage q.state) q.ticket_status

-- A slot is not gained.
abbrev pub keeps_slot : Request → Request → Bool
keeps_slot r q = r.has_slot || not q.has_slot

-- A decision writes only such rows.
pub data DecisionMoves (r : Request) : Decision → Type 0 where
  refused : (e : RepairError) → DecisionMoves r (refuses e)
  kept : DecisionMoves r keeps
  written : (q : Request) → Moves r q → keeps_slot r q ≡ true → DecisionMoves r (writes q)
  written_raising :
      (q : Request) (e : RepairError)
      → Moves r q
      → keeps_slot r q ≡ true
      → DecisionMoves r (writes_and_raises q e)
  noted : (v : Evidence) → DecisionMoves r (notes v)

pub DecisionMoves-if :
    (r : Request) (b : Bool) {d e : Decision}
    → (b ≡ true → DecisionMoves r d)
    → (b ≡ false → DecisionMoves r e)
    → DecisionMoves r (if b then d else e)
DecisionMoves-if r true f g = f refl
DecisionMoves-if r false f g = g refl

-- Behind an exception that is raised before a write.
pub DecisionMoves-unless :
    (r : Request) (b : Bool) (e : RepairError) {d : Decision}
    → DecisionMoves r d
    → DecisionMoves r (if b then refuses e else d)
DecisionMoves-unless r true e h = refused e
DecisionMoves-unless r false e h = h

-- What the guards say of the stage and the ticket.
pub early_lem :
    (s : RequestState) (t : Option TicketStatus)
    → (is_early s && not (is_some t)) ≡ true
    → (stage s ≡ waiting) × (t ≡ none)
unfolding stage
early_lem s t h = ground arith

pub unclaimed_lem :
    (s : RequestState) (t : Option TicketStatus) (b c : Bool)
    → (not (is_some t) && (b && (c && is_unclaimed s))) ≡ true
    → (stage s ≡ waiting) × (t ≡ none)
unfolding stage
unclaimed_lem s t b c h = ground arith

pub offered_lem :
    (s : RequestState) (t : Option TicketStatus)
    → (is_issued t && is_offered s) ≡ true
    → (stage s ≡ offered) × (t ≡ some issued)
unfolding stage
offered_lem s t h = ground arith

pub ticket_issued_lem :
    (s : RequestState) (t : Option TicketStatus)
    → (is_ticket_issued s && is_issued t) ≡ true
    → (stage s ≡ offered) × (t ≡ some issued)
unfolding stage
ticket_issued_lem s t h = ground arith

pub and_left : (a b : Bool) → (a && b) ≡ true → a ≡ true
and_left a b h = ground arith

pub and_right : (a b : Bool) → (a && b) ≡ true → b ≡ true
and_right a b h = ground arith

pub parkable-Live : (s : RequestState) → is_parkable s ≡ true → Live (stage s)
unfolding stage
parkable-Live ticket_issued h = offered_live
parkable-Live dispatched h = offered_live
parkable-Live redeemed h = claimed_live
parkable-Live verifying h = claimed_live
parkable-Live confirmation_pending h = pending_live
parkable-Live _ h = absurd (ground arith)

pub lapse-Lapses :
    (s : RequestState) (t : Option TicketStatus)
    → is_parkable s ≡ true
    → fits s t ≡ true
    → Lapses t (lapse t)
unfolding lapse
lapse-Lapses s none p h = absurd (ground arith)
lapse-Lapses s (some issued) p h = live
lapse-Lapses s (some spent) p h = was_spent
lapse-Lapses s (some expired) p h = was_expired

pub expired-Lapses :
    (t : Option TicketStatus) → is_some t ≡ true → is_spent t ≡ false → Lapses t (some expired)
expired-Lapses none p h = absurd (ground arith)
expired-Lapses (some issued) p h = live
expired-Lapses (some spent) p h = absurd (ground arith)
expired-Lapses (some expired) p h = was_expired

pub Edge-at :
    {s s' a : Stage} {t t' u : Option TicketStatus}
    → a ≡ s
    → t ≡ t'
    → Edge s t' s' u
    → Edge a t s' u
Edge-at p q e = rw (p, q) e
