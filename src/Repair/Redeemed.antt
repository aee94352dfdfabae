-- ===== src/Repair/Redeemed.antt =====
-- app/backend/enrollment_repair_store.py, `redeem`: who may use a ticket, and what is stored then.
use studiohub_mac.Prelude.{
  ℕ, ◌<◌, ◌≡◌, ◌≢◌, ◌⊎◌, inl, inr, refl, true, false, Option, none, some, List, [], ◌∷◌, arith,
  ◌==◌, if◌then◌else◌, All, or_else, Bool-cases,
}
use studiohub_mac.Repair.Rows.{
  Request, RequestState, ticket_issued, dispatched, redeemed, Controller, Target, spent, issued,
  is_offered, is_complete,
}
use studiohub_mac.Repair.Guards.{
  Redemption, redeemed_row, exact_target, exact_controller, already_complete,
}
use studiohub_mac.Repair.Store.{Store, done, find, replace, commit}
use studiohub_mac.Repair.Calls.{redeem}
use studiohub_mac.Repair.Invariant.{find-id}
use studiohub_mac.Repair.Tickets.{redeem_stored}
use studiohub_mac.Repair.Final.{find-replace_self}

-- The target, its address and this Hub's registry are those that the ticket was issued for.
abbrev pub IsOwnTarget : Redemption → Request → Type 0
IsOwnTarget d r =
    (t : Target) × (r.bound_target ≡ some t)
    × (r.target_machine ≡ d.machine)
    × (r.target_machine ≡ d.snapshot.machine)
    × (t.registry_host ≡ d.snapshot.registry_host)
    × (t.resolved_address ≡ d.snapshot.resolved_address)
    × (t.controller_url ≡ d.snapshot.controller_url)
    × (t.resolved_address ≡ d.source)

-- The controller is the one that the ticket was issued by.
abbrev pub IsOwnController : Controller → Request → Type 0
IsOwnController c r =
    (b : Controller) × (r.bound_controller ≡ some b)
    × (b.role ≡ c.role)
    × (b.site_id ≡ c.site_id)
    × (b.site_name ≡ c.site_name)
    × (b.controller_id ≡ c.controller_id)

-- The other request did not complete a repair of this target since this ticket was issued.
abbrev pub IsNoRepair : Request → Request → Type 0
IsNoRepair r q =
    (q.target_machine ≢ r.target_machine)
    ⊎ ((q.id ≡ r.id) ⊎ ((is_complete q.state ≡ false) ⊎ (q.updated_at < or_else r.issued_at 0)))

-- What stays of a request when its ticket is redeemed.
abbrev pub IsSameEffort : Request → Request → Type 0
IsSameEffort r q =
    (q.batch ≡ r.batch)
    × (q.attempt ≡ r.attempt)
    × (q.target_machine ≡ r.target_machine)
    × (q.bound_target ≡ r.bound_target)
    × (q.bound_controller ≡ r.bound_controller)
    × (q.ticket_digest ≡ r.ticket_digest)
    × (q.redemption_expires_at ≡ r.redemption_expires_at)
    × (q.has_slot ≡ r.has_slot)

exact_target-IsOwnTarget :
    (d : Redemption) (r : Request) (o : Option Target)
    → r.bound_target ≡ o
    → exact_target d r.target_machine o ≡ true
    → IsOwnTarget d r
unfolding exact_target
exact_target-IsOwnTarget d r none e h = cc
exact_target-IsOwnTarget d r (some t) e h =
    (t, e, ground arith, ground arith, ground arith, ground arith, ground arith, ground arith)

exact_controller-IsOwnController :
    (c : Controller) (r : Request) (o : Option Controller)
    → r.bound_controller ≡ o
    → exact_controller c o ≡ true
    → IsOwnController c r
unfolding exact_controller
exact_controller-IsOwnController c r none e h = cc
exact_controller-IsOwnController c r (some b) e h =
    (b, e, ground arith, ground arith, ground arith, ground arith)

not_repaired :
    (r : Request) (rows : List Request) → already_complete r rows ≡ false → All (IsNoRepair r) rows
unfolding already_complete
not_repaired r [] h = tt
not_repaired r (q ∷ rows) h =
    (no_repair, not_repaired r rows (unfold already_complete in ground (arith, h)))
  where
    no_repair : IsNoRepair r q
    no_repair = elim (Bool-cases (q.target_machine == r.target_machine)) [
      | inr other ↦ inl (ground arith)
      | inl same ↦ elim (Bool-cases (q.id == r.id)) [
        | inl own ↦ inr (inl (ground arith))
        | inr another ↦ elim (Bool-cases (is_complete q.state)) [
          | inr unended ↦ inr (inr (inl unended))
          | inl ended ↦ inr (inr (inr (ground arith)))
        ]
      ]
    ]

with_target : (s : RequestState) → is_offered s ≡ true → (s ≡ ticket_issued) ⊎ (s ≡ dispatched)
with_target ticket_issued h = inl refl
with_target dispatched h = inr refl
with_target _ h = cc

find-replace_other :
    (k id : ℕ) (q : Request) (rows : List Request)
    → q.id ≡ id
    → (k == id) ≡ false
    → find k (replace id q rows) ≡ find k rows
unfolding find replace
find-replace_other k id q [] e n = refl
find-replace_other k id q (x ∷ rows) e n = ground (arith, find-replace_other k id q rows e n)

find-replaced :
    (k id : ℕ) (q r : Request) (rows : List Request)
    → find id rows ≡ some r
    → q.id ≡ id
    → find k (replace id q rows) ≡ (if k == id then some q else find k rows)
find-replaced k id q r rows f e = elim (Bool-cases (k == id)) [
  | inl p ↦
      let same : k ≡ id = ground arith in
      rw (p, same) (find-replace_self id q r rows f (ground arith))
  | inr p ↦ rw p (find-replace_other k id q rows e p)
]

-- `redeem` succeeds only for a request that is stored with an issued ticket and is with its target,
-- at the agreed deadline and before it, for the very ticket, fleet token, target, address and
-- controller that the ticket was issued for, and if no other repair of the target was completed
-- since; then the row of the request is redeemed with a spent ticket, the source, the time, the
-- identity that was seen and the registry's snapshot, its batch, bindings, deadline and slot are as
-- before, and every other request is found as before.
pub redeem_lem :
    (hash : ℕ → ℕ) (id now k : ℕ) (d : Redemption) (s : Store)
    → (redeem hash id d now s).1 ≡ done
    → (r : Request) × (q : Request) × (find id s.requests ≡ some r)
      × (r.ticket_status ≡ some issued)
      × ((r.state ≡ ticket_issued) ⊎ (r.state ≡ dispatched))
      × (r.redemption_expires_at ≡ some d.expires)
      × (now < d.expires)
      × (r.ticket_digest ≡ some (hash d.ticket))
      × (r.fleet_token_digest ≡ some d.fleet)
      × IsOwnTarget d r
      × IsOwnController d.controller r
      × All (IsNoRepair r) s.requests
      × (find k (redeem hash id d now s).0.requests
          ≡ (if k == id then some q else find k s.requests))
      × (q.ticket_status ≡ some spent)
      × (q.state ≡ redeemed)
      × (q.direct_source ≡ some d.source)
      × (q.redeemed_at ≡ some now)
      × (q.observed_identity ≡ some d.observed)
      × (q.registry_snapshot ≡ some d.snapshot)
      × IsSameEffort r q
unfolding redeemed_row
redeem_lem hash id now k d s p =
    let (r, f, h, stored) = redeem_stored hash id now d s p in
    let same : r.id ≡ id = find-id id s.requests r f in
    let kept : IsSameEffort r (redeemed_row d now r) =
      (refl, refl, refl, refl, refl, refl, refl, refl) in
    (
      r,
      redeemed_row d now r,
      f,
      h.live_ticket,
      with_target r.state h.with_target,
      h.deadline,
      h.in_time,
      h.own_ticket,
      h.own_fleet,
      exact_target-IsOwnTarget d r r.bound_target refl h.own_target,
      exact_controller-IsOwnController d.controller r r.bound_controller refl h.own_controller,
      not_repaired r s.requests h.not_repaired,
      rw stored (
          unfold commit in
          find-replaced k id (redeemed_row d now r) r s.requests f (unfold redeemed_row in same)),
      refl,
      refl,
      refl,
      refl,
      refl,
      refl,
      kept,
    )
