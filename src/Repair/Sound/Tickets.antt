-- ===== src/Repair/Sound/Tickets.antt =====
-- `issue_ticket`, `mark_dispatched` and `redeem` of app/backend/enrollment_repair_store.py on a sound row.
use studiohub_mac.Prelude.{
  ℕ, ◌≡◌, refl, not, ◌&&◌, none, some, List, arith, ◌==◌, is_some, option_eq, leb,
}
use studiohub_mac.Repair.Rows.{
  Controller, Target, Request, is_spent, is_early, is_issued, is_offered, is_ticket_issued,
  is_dispatched, is_expired,
}
use studiohub_mac.Repair.Guards.{
  issue_row, dispatch_row, Redemption, redeem_row, exact_target, exact_controller, already_complete,
}
use studiohub_mac.Repair.Phases.{waiting, offered, stage, stay, offer, redeem, expire}
use studiohub_mac.Repair.Sound.{
  RowIsSound, DecisionMoves, DecisionMoves-if, DecisionMoves-unless, early_lem, offered_lem,
  ticket_issued_lem, Edge-at, refused, kept, written, written_raising,
}

module _ (r : Request) (h : RowIsSound r) where
  pub issue-moves :
      (target : Target) (controller : Controller) (fleet ticket expires now : ℕ)
      → DecisionMoves r (issue_row target controller fleet ticket expires now r)
  unfolding issue_row stage
  issue-moves target controller fleet ticket expires now =
      DecisionMoves-if r
        (r.target_machine == target.machine && (is_early r.state && not (is_some r.ticket_status)))
        (λ p.
          let waits = early_lem r.state r.ticket_status (ground arith) in
          let early : stage r.state ≡ waiting = waits.0 in
          let fresh : r.ticket_status ≡ none = waits.1 in
          written _
            (record {
              is_sound = ground arith;
              same_id = refl;
              same_target = refl;
              same_batch = refl;
              edge = Edge-at early fresh offer;
            })
            (ground arith))
        (λ p. refused _)

  pub dispatch-moves : (now : ℕ) → DecisionMoves r (dispatch_row now r)
  unfolding dispatch_row stage
  dispatch-moves now =
      DecisionMoves-if r (is_dispatched r.state) (λ p. kept)
        (λ q.
          DecisionMoves-if r (is_ticket_issued r.state && is_issued r.ticket_status)
            (λ p.
              let (with_target, valid) = ticket_issued_lem r.state r.ticket_status p in
              written _
                (record {
                  is_sound = ground arith;
                  same_id = refl;
                  same_target = refl;
                  same_batch = refl;
                  edge = Edge-at with_target refl (stay offered r.ticket_status);
                })
                (ground arith))
            (λ p. refused _))

  pub redeem-moves :
      (hash : ℕ → ℕ) (d : Redemption) (now : ℕ) (rows : List Request)
      → DecisionMoves r (redeem_row hash d now rows r)
  unfolding redeem_row stage
  redeem-moves hash d now rows = DecisionMoves-unless r (is_spent r.ticket_status) _ (
      DecisionMoves-unless r (is_expired r.ticket_status) _ (
        DecisionMoves-if r (not (is_issued r.ticket_status && is_offered r.state)) (λ p. refused _)
          (λ p.
            let (with_target, valid) = offered_lem r.state r.ticket_status (ground arith) in
            DecisionMoves-unless r (not (option_eq r.redemption_expires_at (some d.expires))) _ (
              DecisionMoves-if r (leb d.expires now)
                (λ late.
                  written_raising _ _
                    (record {
                      is_sound = ground arith;
                      same_id = refl;
                      same_target = refl;
                      same_batch = refl;
                      edge = Edge-at with_target valid expire;
                    })
                    (ground arith))
                (λ q.
                  (DecisionMoves-unless r (not (option_eq r.ticket_digest (some (hash d.ticket)))) _
                    (DecisionMoves-unless r (not (option_eq r.fleet_token_digest (some d.fleet))) _
                      (DecisionMoves-unless r (not (exact_target d r.target_machine r.bound_target))
                        _
                        (DecisionMoves-unless r
                          (not (exact_controller d.controller r.bound_controller)) _
                          (DecisionMoves-unless r (already_complete r rows) _ (
                            written _
                              (record {
                                is_sound = ground arith;
                                same_id = refl;
                                same_target = refl;
                                same_batch = refl;
                                edge = Edge-at with_target valid redeem;
                              })
                              (ground arith))))))))))))
