-- ===== src/Repair/Final.antt =====
-- app/backend/enrollment_repair_store.py: what stays of a request once its ticket is used or its repair has
-- ended.
use studiohub_mac.Prelude.{
  ℕ, ◌≡◌, ◌⊎◌, inl, inr, refl, ◌∙◌, subst, true, false, ◌||◌, Option, some, List, [], ◌∷◌, arith,
  ◌==◌,
}
use studiohub_mac.Repair.Rows.{
  Request, RequestState, complete, retryable, TicketStatus, spent, expired, ticket_replayed,
  ticket_expired, is_spent, is_expired, is_complete, is_retryable,
}
use studiohub_mac.Repair.Guards.{Redemption, redeem_row, redeemed_row}
use studiohub_mac.Repair.Phases.{
  Stage, stage, over, finished, Live, offered_live, claimed_live, pending_live, Lapses, live,
  was_spent, was_expired, Edge, stay, offer, expire, park, finish, end, review, give_up, hold,
  reopen, reopen_lapsed,
}
use studiohub_mac.Repair.Phases as Phases
use studiohub_mac.Repair.Sound.{Moves}
use studiohub_mac.Repair.Store.{
  Store, empty, done, raised, find, replace, commit, settle, decide_row, transact,
}
use studiohub_mac.Repair.Calls.{Call, redeems, redeem, step, run}
use studiohub_mac.Repair.Invariant.{RowsMove, added, moved, find-cons, find-id}
use studiohub_mac.Repair.Runs.{IsSound, run-IsSound, step-IsSound, step-Advances}
use studiohub_mac.Repair.Tickets.{redeem_stored}

not-Live : {s : Stage} → Live s → (s ≡ finished) ⊎ (s ≡ over) → ⊥
not-Live offered_live h = ground arith
not-Live claimed_live h = ground arith
not-Live pending_live h = ground arith

Lapses-used : {t u : Option TicketStatus} → Lapses t u → (is_spent t || is_expired t) ≡ true → u ≡ t
Lapses-used live h = absurd (ground arith)
Lapses-used was_spent h = refl
Lapses-used was_expired h = refl

-- The row of an id moves along the protocol with each call.
RowsMove-find :
    (id : ℕ) {rows new : List Request} (r : Request)
    → RowsMove rows new
    → find id rows ≡ some r
    → (q : Request) × (find id new ≡ some q) × Moves r q
unfolding find
RowsMove-find id r (added qs h) f = absurd (ground arith)
RowsMove-find id r (moved {r = x} {q = y} {rs = rs} {qs = qs} m rest) f =
    elim (find-cons id x r rs f) [
      | inl (e, same) ↦
          let kept : (y.id == id) ≡ true = rw m.same_id e in
          (y, rw kept refl, subst (λ z. Moves z y) same m)
      | inr (e, later) ↦
          let (q, stored, n) = RowsMove-find id r rest later in
          let kept : (y.id == id) ≡ false = rw m.same_id e in (q, rw kept stored, n)
    ]

-- A ticket that was spent or has expired stays so.
Edge-used :
    {s s' : Stage} {t t' : Option TicketStatus}
    → Edge s t s' t'
    → (is_spent t || is_expired t) ≡ true
    → t' ≡ t
Edge-used (stay s t) h = refl
Edge-used offer h = absurd (ground arith)
Edge-used Phases.redeem h = absurd (ground arith)
Edge-used expire h = absurd (ground arith)
Edge-used (park s t l) h = refl
Edge-used (finish s l) h = refl
Edge-used (end s t u l x) h = Lapses-used x h
Edge-used (review s t u l x) h = Lapses-used x h
Edge-used give_up h = absurd (ground arith)
Edge-used hold h = absurd (ground arith)
Edge-used reopen h = absurd (ground arith)
Edge-used (reopen_lapsed t u n x) h = Lapses-used x h

-- A repair that is complete or retryable has ended.
Edge-ended :
    {s s' : Stage} {t t' : Option TicketStatus}
    → Edge s t s' t'
    → (s ≡ finished) ⊎ (s ≡ over)
    → (s' ≡ s) × (t' ≡ t)
Edge-ended (stay s t) h = (refl, refl)
Edge-ended offer h = absurd (ground arith)
Edge-ended Phases.redeem h = absurd (ground arith)
Edge-ended expire h = absurd (ground arith)
Edge-ended (park s t l) h = absurd (not-Live l h)
Edge-ended (finish s l) h = absurd (not-Live l h)
Edge-ended (end s t u l x) h = absurd (not-Live l h)
Edge-ended (review s t u l x) h = absurd (not-Live l h)
Edge-ended give_up h = absurd (ground arith)
Edge-ended hold h = absurd (ground arith)
Edge-ended reopen h = absurd (ground arith)
Edge-ended (reopen_lapsed t u n x) h = absurd (ground arith)

run-used :
    (hash : ℕ → ℕ) (id : ℕ) (s : Store) (r : Request) (cs : List (ℕ × Call))
    → IsSound s
    → find id s.requests ≡ some r
    → (is_spent r.ticket_status || is_expired r.ticket_status) ≡ true
    → (q : Request) × (find id (run hash s cs).requests ≡ some q)
      × (q.ticket_status ≡ r.ticket_status)
unfolding run
run-used hash id s r [] h f u = (r, f, refl)
run-used hash id s r (c ∷ cs) h f u =
    let next = step-Advances hash s c h.rows_sound in
    let (x, stored, m) = RowsMove-find id r next.rows_move f in
    let same : x.ticket_status ≡ r.ticket_status = Edge-used m.edge u in
    let (q, found, kept) =
      run-used hash id (step hash s c) x cs (step-IsSound hash s c h) stored (rw same u) in
    (q, found, kept ∙ same)

pub find-replace_self :
    (id : ℕ) (q r : Request) (rows : List Request)
    → find id rows ≡ some r
    → (q.id == id) ≡ true
    → find id (replace id q rows) ≡ some q
unfolding find replace
find-replace_self id q r [] f h = cc
find-replace_self id q r (x ∷ rows) f h = ground (arith, find-replace_self id q r rows)

spent_refused :
    (hash : ℕ → ℕ) (id now : ℕ) (d : Redemption) (s : Store) (r : Request)
    → find id s.requests ≡ some r
    → r.ticket_status ≡ some spent
    → redeem hash id d now s ≡ (s, raised ticket_replayed)
unfolding redeem transact decide_row settle redeem_row
spent_refused hash id now d s r f p = rw (f, p) refl

expired_refused :
    (hash : ℕ → ℕ) (id now : ℕ) (d : Redemption) (s : Store) (r : Request)
    → find id s.requests ≡ some r
    → r.ticket_status ≡ some expired
    → redeem hash id d now s ≡ (s, raised ticket_expired)
unfolding redeem transact decide_row settle redeem_row
expired_refused hash id now d s r f p = rw (f, p) refl

-- After any calls, a redemption that succeeds is the last for its request: whatever is called then,
-- a later one with any ticket is refused as a replay and changes nothing.
pub redeem_once :
    (hash : ℕ → ℕ) (id now later : ℕ) (d e : Redemption) (before after : List (ℕ × Call))
    → (redeem hash id d now (run hash empty before)).1 ≡ done
    → redeem hash id e later (run hash (redeem hash id d now (run hash empty before)).0 after)
      ≡ (run hash (redeem hash id d now (run hash empty before)).0 after, raised ticket_replayed)
unfolding step
redeem_once hash id now later d e before after p =
    let s = run hash empty before in
    let sound = run-IsSound hash before in
    let (r, f, h, stored) = redeem_stored hash id now d s p in
    let same : r.id ≡ id = find-id id s.requests r f in
    let spent_row : find id (redeem hash id d now s).0.requests ≡ some (redeemed_row d now r) =
      rw stored (
        unfold commit redeemed_row in
        find-replace_self id (redeemed_row d now r) r s.requests f (ground arith)) in
    let (q, found, kept) =
      run-used hash id (redeem hash id d now s).0 (redeemed_row d now r) after
        (step-IsSound hash s (now, redeems id d) sound) spent_row (unfold redeemed_row in refl) in
    spent_refused hash id later e (run hash (redeem hash id d now s).0 after) q found
      (kept ∙ (unfold redeemed_row in refl))

-- A ticket that was presented too late, or expired with its request, opens nothing afterwards.
pub expired_stays :
    (hash : ℕ → ℕ) (id later : ℕ) (e : Redemption) (before after : List (ℕ × Call)) (r : Request)
    → find id (run hash empty before).requests ≡ some r
    → r.ticket_status ≡ some expired
    → redeem hash id e later (run hash (run hash empty before) after)
      ≡ (run hash (run hash empty before) after, raised ticket_expired)
expired_stays hash id later e before after r f p =
    let s = run hash empty before in
    let (q, found, kept) = run-used hash id s r after (run-IsSound hash before) f (rw p refl) in
    expired_refused hash id later e (run hash s after) q found (kept ∙ p)

stage_of_ended :
    (s : RequestState)
    → (is_complete s || is_retryable s) ≡ true
    → (stage s ≡ finished) ⊎ (stage s ≡ over)
unfolding stage
stage_of_ended complete h = inl refl
stage_of_ended retryable h = inr refl
stage_of_ended _ h = absurd (ground arith)

same_end :
    (s s' : RequestState) → (is_complete s || is_retryable s) ≡ true → stage s' ≡ stage s → s' ≡ s
unfolding stage
same_end s s' h p = ground arith

run-ended :
    (hash : ℕ → ℕ) (id : ℕ) (s : Store) (r : Request) (cs : List (ℕ × Call))
    → IsSound s
    → find id s.requests ≡ some r
    → (is_complete r.state || is_retryable r.state) ≡ true
    → (q : Request) × (find id (run hash s cs).requests ≡ some q)
      × (q.state ≡ r.state)
      × (q.ticket_status ≡ r.ticket_status)
unfolding run
run-ended hash id s r [] h f u = (r, f, refl, refl)
run-ended hash id s r (c ∷ cs) h f u =
    let next = step-Advances hash s c h.rows_sound in
    let (x, stored, m) = RowsMove-find id r next.rows_move f in
    let (at_end, ticket_kept) = Edge-ended m.edge (stage_of_ended r.state u) in
    let same : x.state ≡ r.state = same_end r.state x.state u at_end in
    let (q, found, kept, held) =
      run-ended hash id (step hash s c) x cs (step-IsSound hash s c h) stored (rw same u) in
    (q, found, kept ∙ same, held ∙ ticket_kept)

-- After any calls, a request that is complete or retryable stays so, and so does its ticket,
-- whatever is called then: no late status, review or expiry changes how a repair ended.
pub ended_stays :
    (hash : ℕ → ℕ) (id : ℕ) (before after : List (ℕ × Call)) (r : Request)
    → find id (run hash empty before).requests ≡ some r
    → (is_complete r.state || is_retryable r.state) ≡ true
    → (q : Request) × (find id (run hash (run hash empty before) after).requests ≡ some q)
      × (q.state ≡ r.state)
      × (q.ticket_status ≡ r.ticket_status)
ended_stays hash id before after r f u =
    run-ended hash id (run hash empty before) r after (run-IsSound hash before) f u
