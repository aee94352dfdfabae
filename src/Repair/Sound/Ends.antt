-- ===== src/Repair/Sound/Ends.antt =====
-- How a request is parked, ended, reopened, claimed and recovered in
-- app/backend/enrollment_repair_store.py, on a sound row.
use studiohub_mac.Prelude.{
  ℕ, ◌≡◌, inl, inr, refl, true, false, not, ◌&&◌, Option, none, some, arith, is_some, ap,
  Bool-cases,
}
use studiohub_mac.Repair.Rows.{
  queued, checking, confirmation_pending, Terminal, terminal_complete, never_applied,
  terminal_review, needs_review, spent, still_pending, ErrorCode, Request, writes, in_flight,
  is_spent, is_parkable, is_unclaimed, is_review, has_live_claim, is_closed,
}
use studiohub_mac.Repair.Outcomes.{
  park_row, Status, adopt_row, adopt_terminal, Preclaim, to_retryable, to_review,
  to_update_required, preclaim_state, failed_row, reopened_row, fail_row, resolve_preclaim_row,
  resolve_expired_row, flag_row, recover_row, claim_row, deadline_passed, from_address,
  expected_identity, same_terminal,
}
use studiohub_mac.Repair.Phases.{
  waiting, stage, stay, park, finish, end, review, give_up, hold, reopen, reopen_lapsed,
}
use studiohub_mac.Repair.Sound.{
  RowIsSound, Moves, DecisionMoves, DecisionMoves-if, DecisionMoves-unless, unclaimed_lem,
  parkable-Live, lapse-Lapses, expired-Lapses, Edge-at, refused, kept, written,
}

module _ (r : Request) (h : RowIsSound r) where
  pub park-moves : (error : Option ErrorCode) (now : ℕ) → DecisionMoves r (park_row error now r)
  unfolding park_row stage
  park-moves error now =
      DecisionMoves-if r (is_parkable r.state)
        (λ p.
          written _
            (record {
              is_sound = ground arith;
              same_id = refl;
              same_target = refl;
              same_batch = refl;
              edge = park _ _ (parkable-Live r.state p);
            })
            (ground arith))
        (λ p. refused _)

  pub terminal-moves :
      (terminal : Terminal) (s : Status) (now : ℕ)
      → is_parkable r.state ≡ true
      → DecisionMoves r (adopt_terminal terminal s now r)
  unfolding adopt_terminal stage
  terminal-moves terminal_complete s now p =
      DecisionMoves-if r
        (expected_identity s.identity r.target_machine r.bound_controller
          && is_spent r.ticket_status)
        (λ q.
          let was : r.ticket_status ≡ some spent = ground arith in
          written _
            (record {
              is_sound = ground arith;
              same_id = refl;
              same_target = refl;
              same_batch = refl;
              edge = Edge-at refl was (finish _ (parkable-Live r.state p));
            })
            (ground arith))
        (λ q. refused _)
  terminal-moves never_applied s now p =
      let lapsed = lapse-Lapses r.state r.ticket_status p h.ticket_ok in
      written _
        (record {
          is_sound = ground arith;
          same_id = refl;
          same_target = refl;
          same_batch = refl;
          edge = end _ _ _ (parkable-Live r.state p) lapsed;
        })
        (ground arith)
  terminal-moves terminal_review s now p =
      let lapsed = lapse-Lapses r.state r.ticket_status p h.ticket_ok in
      written _
        (record {
          is_sound = ground arith;
          same_id = refl;
          same_target = refl;
          same_batch = refl;
          edge = review _ _ _ (parkable-Live r.state p) lapsed;
        })
        (ground arith)

  pub adopt-moves : (s : Status) (now : ℕ) → DecisionMoves r (adopt_row s now r)
  unfolding adopt_row
  adopt-moves s now = DecisionMoves-unless r (not (from_address s.source r.bound_target)) _ (
      DecisionMoves-if r (is_closed r.state)
        (λ p.
          DecisionMoves-if r (same_terminal s.terminal r.evidence.agent_terminal) (λ q. kept)
            (λ q. refused _))
        (λ p.
          DecisionMoves-if r (not (is_parkable r.state)) (λ q. refused _)
            (λ q. terminal-moves s.terminal s now (ground arith))))

  pub fail-moves :
      (to : Preclaim) (error : Option ErrorCode) (now : ℕ)
      → DecisionMoves r (fail_row to error now r)
  unfolding fail_row failed_row preclaim_state stage
  fail-moves to error now =
      DecisionMoves-if r
        (not (is_some r.ticket_status)
          && (not (is_some r.issued_at) && (not (is_some r.redeemed_at) && is_unclaimed r.state)))
        (λ p.
          let (early, fresh) = unclaimed_lem r.state r.ticket_status _ _ p in failed early fresh to)
        (λ p. refused _)
    where
      failed :
          stage r.state ≡ waiting
          → r.ticket_status ≡ none
          → (to : Preclaim) → DecisionMoves r (writes (failed_row to error now r))
      failed early fresh to_retryable =
          written (failed_row to_retryable error now r)
            (record {
              is_sound = ground arith;
              same_id = refl;
              same_target = refl;
              same_batch = refl;
              edge = rw (early, fresh) give_up;
            })
            (ground arith)
      failed early fresh to_review =
          written (failed_row to_review error now r)
            (record {
              is_sound = ground arith;
              same_id = refl;
              same_target = refl;
              same_batch = refl;
              edge = rw (early, fresh) hold;
            })
            (ground arith)
      failed early fresh to_update_required =
          written (failed_row to_update_required error now r)
            (record {
              is_sound = ground arith;
              same_id = refl;
              same_target = refl;
              same_batch = refl;
              edge = Edge-at early refl (stay waiting r.ticket_status);
            })
            (ground arith)

  pub resolve_preclaim-moves :
      (evidence : Option ℕ) (now : ℕ) → DecisionMoves r (resolve_preclaim_row evidence now r)
  unfolding resolve_preclaim_row reopened_row stage
  resolve_preclaim-moves evidence now =
      DecisionMoves-if r
        (is_review r.state
          && (not (is_some r.ticket_status)
              && (not (is_some r.ticket_digest)
                  && (not (is_some r.issued_at) && not (is_some r.redeemed_at)))))
        (λ p.
          let held : r.state ≡ needs_review = ground arith in
          let fresh : r.ticket_status ≡ none = ground arith in
          written (reopened_row evidence now r)
            (record {
              is_sound = ground arith;
              same_id = refl;
              same_target = refl;
              same_batch = refl;
              edge = rw (ap stage held, fresh) reopen;
            })
            (ground arith))
        (λ p. refused _)

  pub resolve_expired-moves : (now : ℕ) → DecisionMoves r (resolve_expired_row now r)
  unfolding resolve_expired_row stage
  resolve_expired-moves now =
      DecisionMoves-if r
        (is_review r.state
          && (not (is_some r.redeemed_at)
              && (is_some r.issued_at && deadline_passed r.redemption_expires_at now)))
        (λ p.
          let held : r.state ≡ needs_review = ground arith in
          let unspent : is_spent r.ticket_status ≡ false = ground arith in
          let lapsed = expired-Lapses r.ticket_status (ground arith) unspent in
          written _
            (record {
              is_sound = ground arith;
              same_id = refl;
              same_target = refl;
              same_batch = refl;
              edge = Edge-at (ap stage held) refl (reopen_lapsed _ _ (λ e. ground arith) lapsed);
            })
            (ground arith))
        (λ p. refused _)

  pub flag-moves : (evidence : Option ℕ) (now : ℕ) → DecisionMoves r (flag_row evidence now r)
  unfolding flag_row
  flag-moves evidence now =
      DecisionMoves-if r (has_live_claim r.state && is_spent r.ticket_status)
        (λ p.
          written _
            (record {
              is_sound = ground arith;
              same_id = refl;
              same_target = refl;
              same_batch = refl;
              edge = stay _ _;
            })
            (ground arith))
        (λ p. refused _)

-- The rows that `claim_next_dispatch` and `recover_scheduling_slot` write.
pub claim-Moves :
    (now : ℕ) (r : Request) → RowIsSound r → r.state ≡ queued → Moves r (claim_row now r)
unfolding claim_row stage
claim-Moves now r h p =
    let fresh : r.ticket_status ≡ none = ground arith in
    record {
      is_sound = ground arith;
      same_id = refl;
      same_target = refl;
      same_batch = refl;
      edge = Edge-at (ap stage p) refl (stay waiting r.ticket_status);
    }

-- Every row that holds the slot is recovered: it is given free.
pub recover-Moves :
    (now : ℕ) (r : Request)
    → RowIsSound r
    → r.has_slot ≡ true
    → (q : Request) × (recover_row now r ≡ some q) × Moves r q × (q.has_slot ≡ false)
unfolding recover_row stage
recover-Moves now r h p = elim (Bool-cases (in_flight r.state)) [
  | inl f ↦ (
    record r {
      state = confirmation_pending;
      has_slot = false;
      error_code = some still_pending;
      updated_at = now;
    },
    rw f,
    record {
      is_sound = ground arith;
      same_id = refl;
      same_target = refl;
      same_batch = refl;
      edge = park _ _ (parkable-Live r.state (ground arith));
    },
    refl,
  )
  | inr f ↦
      let early : r.state ≡ checking = ground arith in
      let fresh : r.ticket_status ≡ none = ground arith in
      (
        record r { state = queued; has_slot = false; updated_at = now },
        ground arith,
        record {
          is_sound = ground arith;
          same_id = refl;
          same_target = refl;
          same_batch = refl;
          edge = Edge-at (ap stage early) refl (stay waiting r.ticket_status);
        },
        refl,
      )
]
