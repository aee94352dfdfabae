-- ===== src/Repair/Phases.antt =====
-- The protocol of one repair request, without its rows: what app/backend/enrollment_repair_store.py
-- promises of a request's stage and of its one-use ticket.
use studiohub_mac.Prelude.{Option, none, some, ◌≢◌}
use studiohub_mac.Repair.Rows.{
  RequestState, queued, checking, hub_update_required, updating_hub, ticket_issued, dispatched,
  redeemed, verifying, confirmation_pending, complete, retryable, needs_review, TicketStatus,
  issued, spent, expired,
}

-- Waiting for a ticket, holding one, claimed by it, and how a request stands or ends.
pub data Stage : Type 0 where
  waiting offered claimed pending reviewed over finished : Stage

unfoldable pub stage : RequestState → Stage
stage queued = waiting
stage checking = waiting
stage hub_update_required = waiting
stage updating_hub = waiting
stage ticket_issued = offered
stage dispatched = offered
stage redeemed = claimed
stage verifying = claimed
stage confirmation_pending = pending
stage complete = finished
stage retryable = over
stage needs_review = reviewed

-- A request that is with its target.
pub data Live : Stage → Type 0 where
  offered_live : Live offered
  claimed_live : Live claimed
  pending_live : Live pending

-- What ending a request does to its ticket: a live one expires.
pub data Lapses : Option TicketStatus → Option TicketStatus → Type 0 where
  live : Lapses (some issued) (some expired)
  was_spent : Lapses (some spent) (some spent)
  was_expired : Lapses (some expired) (some expired)

-- The moves of a request: from a stage and a ticket, to a stage and a ticket.
pub data Edge : Stage → Option TicketStatus → Stage → Option TicketStatus → Type 0 where
  stay : (s : Stage) (t : Option TicketStatus) → Edge s t s t
  offer : Edge waiting none offered (some issued)
  redeem : Edge offered (some issued) claimed (some spent)
  expire : Edge offered (some issued) pending (some expired)
  park : (s : Stage) (t : Option TicketStatus) → Live s → Edge s t pending t
  finish : (s : Stage) → Live s → Edge s (some spent) finished (some spent)
  end : (s : Stage) (t u : Option TicketStatus) → Live s → Lapses t u → Edge s t over u
  review : (s : Stage) (t u : Option TicketStatus) → Live s → Lapses t u → Edge s t reviewed u
  give_up : Edge waiting none over none
  hold : Edge waiting none reviewed none
  reopen : Edge reviewed none over none
  reopen_lapsed : (t u : Option TicketStatus) → t ≢ some spent → Lapses t u → Edge reviewed t over u
