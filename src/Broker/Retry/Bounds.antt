-- ===== src/Broker/Retry/Bounds.antt =====
-- Retries end, and accepted Voice work is never sent twice: app/backend/broker.py, `_run_item`.
use studiohub_mac.Prelude.{
  ℕ, zero, suc, ◌+◌, ◌-◌, ◌≤◌, ◌<◌, ◌≡◌, ◌≢◌, ◌⊎◌, inl, inr, refl, Bool, true, false, ◌&&◌, ◌||◌,
  none, some, List, [], ◌∷◌, arith, ltb, is_some, or_else, Bool-cases, All, length,
  lookup-insert_self,
}
use studiohub_mac.Broker.Items.{State, queued, error, Item, voice}
use studiohub_mac.Broker.Retry.{
  Failure, nothing, max_infra_tries, infra_retry_window, failed_worker_avoid, heal_transport,
  settle, fail_item, assign, item_allows_machine, delay_at, infra_retry_delays,
}

delay_bounds : (n : ℕ) → (5 ≤ delay_at infra_retry_delays n) × (delay_at infra_retry_delays n ≤ 300)
unfolding delay_at
delay_bounds zero = omega arith
delay_bounds (suc zero) = omega arith
delay_bounds (suc (suc zero)) = omega arith
delay_bounds (suc (suc (suc zero))) = omega arith
delay_bounds (suc (suc (suc (suc zero)))) = omega arith
delay_bounds (suc (suc (suc (suc (suc zero))))) = omega arith
delay_bounds (suc (suc (suc (suc (suc (suc n)))))) = omega arith

-- A transport failure counts one more; the item waits between five seconds and five minutes if it is
-- below the eighth and within half an hour of the first, and fails otherwise. Either way the machine
-- is avoided for ninety seconds.
pub heal_transport_lem :
    (machine text now later : ℕ) (i : Item)
    → later < now + failed_worker_avoid
    → let j = heal_transport machine text now i in
      (j.infra_failures ≡ i.infra_failures + 1)
      × (item_allows_machine machine later j ≡ false)
      × (((j.state ≡ queued)
            × (j.infra_failures < max_infra_tries)
            × ((at : ℕ) × (j.retry_at ≡ some at) × (now + 5 ≤ at) × (at ≤ now + 300)))
          ⊎ ((j.state ≡ error)
              × (j.retry_at ≡ none)
              × ((max_infra_tries ≤ j.infra_failures)
                  ⊎ (or_else i.infra_started now + infra_retry_window ≤ now))))
unfolding heal_transport item_allows_machine
heal_transport_lem machine text now later i h =
    let kept = lookup-insert_self machine (now + failed_worker_avoid) i.avoid in
    let healthy =
      ltb (i.infra_failures + 1) max_infra_tries
      && ltb now (or_else i.infra_started now + infra_retry_window) in
    let (low, high) = delay_bounds (i.infra_failures + 1 - 1) in
    elim (Bool-cases healthy) [
      | inl p ↦ rw p (
        refl,
        rw kept (ground arith),
        inl (
          refl,
          ground arith,
          (
            now + delay_at infra_retry_delays (i.infra_failures + 1 - 1),
            refl,
            omega arith,
            omega arith,
          ),
        ),
      )
      | inr p ↦ rw p (refl, rw kept (ground arith), inr (refl, refl, exhausted_by p))
    ]
  where
    exhausted_by :
        (ltb (i.infra_failures + 1) max_infra_tries
            && ltb now (or_else i.infra_started now + infra_retry_window))
          ≡ false
        → (max_infra_tries ≤ i.infra_failures + 1)
          ⊎ (or_else i.infra_started now + infra_retry_window ≤ now)
    exhausted_by p = ground arith

-- An attempt that failed: the Studio and its machine, the failure, whether a sibling gave memory
-- back, and the time.
pub record Loss : Type 0 where
  pub studio : ℕ
  pub machine : ℕ
  pub failure : Failure
  pub released : Bool
  pub at : ℕ

-- The item is assigned to the Studio, and its failure is settled.
abbrev pub attempt : Loss → Item → Item
attempt l i = settle l.failure l.machine l.released l.at (assign l.studio i)

abbrev pub IsTransportLoss : Loss → Type 0
IsTransportLoss l =
    (l.failure.retryable ≡ true) × (l.failure.is_capacity ≡ false) × (l.failure.is_transport ≡ true)

abbrev pub IsCapacityLoss : Loss → Type 0
IsCapacityLoss l = (l.failure.retryable ≡ true) × (l.failure.is_capacity ≡ true)

-- The item after these attempts, and whether one of them left it in error.
is_error : State → Bool
is_error error = true
is_error _ = false

pub ends : List Loss → Item → Bool
unfolding is_error
ends [] i = false
ends (l ∷ losses) i = let j = attempt l i in is_error j.state || ends losses j

pub attempts : List Loss → Item → Item
attempts [] i = i
attempts (l ∷ losses) i = attempts losses (attempt l i)

or_right : (a b : Bool) → b ≡ true → (a || b) ≡ true
or_right a b h = ground arith

or_left : (a b : Bool) → a ≡ true → (a || b) ≡ true
or_left a b h = ground arith

attempt-transport :
    (l : Loss) (i : Item)
    → IsTransportLoss l
    → attempt l i ≡ heal_transport l.machine l.failure.message l.at (assign l.studio i)
unfolding settle
attempt-transport l i h = rw (h.0, h.1, h.2) refl

-- Retrying ends: an item whose attempts keep failing in transport, which may be retried and is no
-- capacity failure, each on a Studio, a machine, with an error text and at a time of its own, is
-- given up within eight failures, those counted that it had before, if it had fewer than eight.
pub transport_failures_end :
    (losses : List Loss) (i : Item)
    → All IsTransportLoss losses
    → i.infra_failures < max_infra_tries
    → max_infra_tries ≤ i.infra_failures + length losses
    → ends losses i ≡ true
unfolding ends assign
transport_failures_end [] i t h enough = absurd (omega arith)
transport_failures_end (l ∷ losses) i t h enough =
    let j = heal_transport l.machine l.failure.message l.at (assign l.studio i) in
    let (counted, avoided, outcome) =
      heal_transport_lem l.machine l.failure.message l.at l.at (assign l.studio i) (omega arith) in
    rw (attempt-transport l i t.0) (elim outcome [
      | inl (q, below, wait) ↦
          or_right (is_error j.state) (ends losses j)
            (transport_failures_end losses j t.1 below (omega arith))
      | inr (e, r, why) ↦ or_left (is_error j.state) (ends losses j) (rw e refl)
    ])

-- An accepted Voice job whose connection broke is never queued again, nor is one that recovery owns.
pub voice_not_resent :
    (f : Failure) (machine now : ℕ) (released cancelled_batch : Bool) (i : Item)
    → f.is_transport ≡ true
    → is_some i.studio_job ≡ true
    → i.state ≢ queued
    → (fail_item voice cancelled_batch f machine released nothing now i).state ≢ queued
unfolding fail_item
voice_not_resent f machine now released cancelled_batch i t j ne = ground arith
