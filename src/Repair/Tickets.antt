-- ===== src/Repair/Tickets.antt =====
-- app/backend/enrollment_repair_store.py: a ticket is redeemed by its own target, in time, and once.
use studiohub_mac.Prelude.{
  ℕ, ◌<◌, ◌≡◌, inl, inr, refl, Bool, true, false, not, ◌&&◌, some, List, arith, if◌then◌else◌, leb,
  option_eq, Option-cases,
}
use studiohub_mac.Repair.Rows.{
  Request, Decision, refuses, writes, writes_and_raises, issued, RepairError, ticket_expired,
  request_not_found, is_spent, is_expired, is_issued, is_offered,
}
use studiohub_mac.Repair.Guards.{
  Redemption, redeem_row, redeemed_row, expire_row, exact_target, exact_controller,
  already_complete,
}
use studiohub_mac.Repair.Store.{
  Store, done, raised, find, commit, settle, update, decide_row, transact,
}
use studiohub_mac.Repair.Calls.{redeem}

-- What a target has to present to redeem the ticket of a row.
pub record Presents (hash : ℕ → ℕ) (d : Redemption) (now : ℕ) (rows : List Request) (r : Request)
    : Type 0 where
  pub live_ticket : r.ticket_status ≡ some issued
  pub with_target : is_offered r.state ≡ true
  pub deadline : r.redemption_expires_at ≡ some d.expires
  pub in_time : now < d.expires
  pub own_ticket : r.ticket_digest ≡ some (hash d.ticket)
  pub own_fleet : r.fleet_token_digest ≡ some d.fleet
  pub own_target : exact_target d r.target_machine r.bound_target ≡ true
  pub own_controller : exact_controller d.controller r.bound_controller ≡ true
  pub not_repaired : already_complete r rows ≡ false

-- What `redeem` decides: an exception, the late expiry, or the only claim.
data Outcome (hash : ℕ → ℕ) (d : Redemption) (now : ℕ) (rows : List Request) (r : Request)
    : Decision → Type 0 where
  refused : (e : RepairError) → Outcome hash d now rows r (refuses e)
  late : Outcome hash d now rows r (writes_and_raises (expire_row now r) ticket_expired)
  accepted : Presents hash d now rows r → Outcome hash d now rows r (writes (redeemed_row d now r))

module _ (hash : ℕ → ℕ) (d : Redemption) (now : ℕ) (rows : List Request) (r : Request) where
  Outcome-unless :
      (b : Bool) (e : RepairError) {x : Decision}
      → (b ≡ false → Outcome hash d now rows r x)
      → Outcome hash d now rows r (if b then refuses e else x)
  Outcome-unless true e k = refused e
  Outcome-unless false e k = k refl

  Outcome-late :
      (b : Bool) {x : Decision}
      → (b ≡ false → Outcome hash d now rows r x)
      → Outcome hash d now rows r
          (if b then writes_and_raises (expire_row now r) ticket_expired else x)
  Outcome-late true k = late
  Outcome-late false k = k refl

  redeem_row-Outcome : Outcome hash d now rows r (redeem_row hash d now rows r)
  unfolding redeem_row
  redeem_row-Outcome = Outcome-unless (is_spent r.ticket_status) _ λ a.
      Outcome-unless (is_expired r.ticket_status) _ λ b.
        Outcome-unless (not (is_issued r.ticket_status && is_offered r.state)) _ λ c.
          Outcome-unless (not (option_eq r.redemption_expires_at (some d.expires))) _ λ e.
            Outcome-late (leb d.expires now) λ f.
              Outcome-unless (not (option_eq r.ticket_digest (some (hash d.ticket)))) _ λ g.
                Outcome-unless (not (option_eq r.fleet_token_digest (some d.fleet))) _ λ h.
                  Outcome-unless (not (exact_target d r.target_machine r.bound_target)) _ λ i.
                    Outcome-unless (not (exact_controller d.controller r.bound_controller)) _ λ j.
                      Outcome-unless (already_complete r rows) _ λ k. accepted (record {
                        live_ticket = ground arith;
                        with_target = ground arith;
                        deadline = ground arith;
                        in_time = ground arith;
                        own_ticket = ground arith;
                        own_fleet = ground arith;
                        own_target = ground arith;
                        own_controller = ground arith;
                        not_repaired = k;
                      })

settle-done :
    (hash : ℕ → ℕ) (id now : ℕ) (d : Redemption) (s : Store) (r : Request) (x : Decision)
    → Outcome hash d now s.requests r x
    → (settle id now s r x).1 ≡ done
    → Presents hash d now s.requests r
      × ((settle id now s r x).0 ≡ commit id (redeemed_row d now r) now s)
unfolding settle update
settle-done hash id now d s r x (refused e) p = absurd (ground arith)
settle-done hash id now d s r x late p = absurd (ground arith)
settle-done hash id now d s r x (accepted h) p = (h, ground arith)

-- The guards of a redemption that succeeds, and the row that it stores.
pub redeem_stored :
    (hash : ℕ → ℕ) (id now : ℕ) (d : Redemption) (s : Store)
    → (redeem hash id d now s).1 ≡ done
    → (r : Request) × (find id s.requests ≡ some r)
      × Presents hash d now s.requests r
      × ((redeem hash id d now s).0 ≡ commit id (redeemed_row d now r) now s)
unfolding redeem transact decide_row
redeem_stored hash id now d s p = elim (Option-cases (find id s.requests)) [
  | inl e ↦ let lost : raised request_not_found ≡ done = rw e at p in cc
  | inr (r, e) ↦
      let (h, stored) =
        settle-done hash id now d s r (redeem_row hash d now s.requests r)
          (redeem_row-Outcome hash d now s.requests r) (rw e at p) in
      (r, e, h, rw e stored)
]
