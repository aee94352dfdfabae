-- ===== src/Broker/Circuit.antt =====
-- app/backend/broker.py: the circuit breaker of each machine after transport failures.
use studiohub_mac.Prelude.{
  ℕ, ◌+◌, ◌≡◌, ◌≢◌, refl, Bool, true, false, not, ◌&&◌, Option, none, some, arith, ltb, ◌==◌,
  if◌then◌else◌, or_else, is_some, Dict, lookup, insert, remove, lookup-insert_self,
  lookup-insert_ne, lookup-remove_self, lookup-remove,
}

pub record Protection : Type 0 where
  pub failures : ℕ
  pub cooldown_until : Option ℕ
  pub reason : Option ℕ
  pub last_failure_at : Option ℕ
  pub last_success_at : Option ℕ

abbrev pub machine_failure_threshold : ℕ
machine_failure_threshold = 2

abbrev pub machine_cooldown : ℕ
machine_cooldown = 120

abbrev pub fresh : Protection
fresh = record {
  failures = 0;
  cooldown_until = none;
  reason = none;
  last_failure_at = none;
  last_success_at = none;
}

unfoldable pub until_of : Option Protection → ℕ
until_of none = 0
until_of (some p) = or_else p.cooldown_until 0

pub machine_blocked : ℕ → ℕ → Dict Protection → Bool
unfolding until_of
machine_blocked machine now d = ltb now (until_of (lookup machine d))

-- The row after a failure. The reason is the message, cut to 240 characters.
unfoldable pub fail : ℕ → ℕ → Protection → Protection
fail message now p =
    let failures = p.failures + 1 in
    record {
      failures = failures;
      cooldown_until =
          if ltb failures machine_failure_threshold
          then p.cooldown_until
          else some (now + machine_cooldown);
      reason = some message;
      last_failure_at = some now;
      last_success_at = p.last_success_at;
    }

-- The state, and whether the alert "machine_quarantined" is sent.
pub mark_machine_failure : ℕ → ℕ → ℕ → Dict Protection → Dict Protection × Bool
unfolding fail machine_blocked
mark_machine_failure machine message now d =
    let p = or_else (lookup machine d) fresh in
    (
      insert machine (fail message now p) d,
      not (ltb (p.failures + 1) machine_failure_threshold) && not (machine_blocked machine now d),
    )

-- The row after a success, `had_cooldown` and `had_failures` read before; it is dropped where it
-- says nothing.
succeed : ℕ → ℕ → Option Protection → Dict Protection → Dict Protection × Bool
succeed machine now none d = (d, false)
succeed machine now (some p) d =
    let row = record p {
      failures = 0;
      cooldown_until = none;
      reason = none;
      last_success_at = some now;
    } in
    if is_some p.cooldown_until
    then (insert machine row d, true)
    else (if p.failures == 0 then (remove machine d, false) else (insert machine row d, false))

-- The state, and whether the alert "machine_recovered" is sent.
pub mark_machine_success : ℕ → ℕ → Dict Protection → Dict Protection × Bool
unfolding succeed
mark_machine_success machine now d = succeed machine now (lookup machine d) d

-- What a success leaves of the machine's row.
cleared_row :
    (machine now : ℕ) (o : Option Protection) (d : Dict Protection)
    → lookup machine d ≡ o
    → let row = or_else (lookup machine (succeed machine now o d).0) fresh in
      (row.failures ≡ 0) × (row.cooldown_until ≡ none)
unfolding succeed
cleared_row machine now none d e = rw e (refl, refl)
cleared_row machine now (some p) d e =
    let row = record p {
      failures = 0;
      cooldown_until = none;
      reason = none;
      last_success_at = some now;
    } in
    ground (arith, lookup-insert_self machine row d, lookup-remove_self machine d)

until_cleared : (o : Option Protection) → (or_else o fresh).cooldown_until ≡ none → until_of o ≡ 0
unfolding until_of
until_cleared none h = refl
until_cleared (some p) h = rw h refl

succeed-other :
    (machine other now : ℕ) (o : Option Protection) (d : Dict Protection)
    → other ≢ machine
    → lookup other (succeed machine now o d).0 ≡ lookup other d
unfolding succeed
succeed-other machine other now none d ne = refl
succeed-other machine other now (some p) d ne =
    let row = record p {
      failures = 0;
      cooldown_until = none;
      reason = none;
      last_success_at = some now;
    } in
    ground (arith, lookup-insert_ne machine other row d ne, lookup-remove machine other d)

-- A failure with another one on record, and no success in between, pauses the machine for exactly
-- the two minutes from it.
pub second_failure_blocks :
    (machine message first second later : ℕ) (d : Dict Protection)
    → let after =
        (mark_machine_failure machine message second
          (mark_machine_failure machine message first d).0).0 in
      machine_blocked machine later after ≡ ltb later (second + machine_cooldown)
unfolding machine_blocked mark_machine_failure
second_failure_blocks machine message first second later d =
    rw (lookup-insert_self machine) (rw (lookup-insert_self machine) (ground arith))

-- A success lifts the pause and forgets the failures: one failure after it does not pause the
-- machine.
pub success_clears :
    (machine message now again later : ℕ) (d : Dict Protection)
    → let cleared = (mark_machine_success machine now d).0 in
      (machine_blocked machine later cleared ≡ false)
      × (machine_blocked machine later (mark_machine_failure machine message again cleared).0
          ≡ false)
unfolding machine_blocked mark_machine_failure mark_machine_success
success_clears machine message now again later d =
    let cleared = (succeed machine now (lookup machine d) d).0 in
    let (failures, cooldown) = cleared_row machine now (lookup machine d) d refl in
    let row = or_else (lookup machine cleared) fresh in
    (
      rw (until_cleared (lookup machine cleared) cooldown) (ground arith),
      rw (lookup-insert_self machine (fail message again row) cleared)
          (single row failures cooldown),
    )
  where
    single :
        (row : Protection)
        → row.failures ≡ 0
        → row.cooldown_until ≡ none
        → ltb later (until_of (some (fail message again row))) ≡ false
    single row failures cooldown = ground arith

-- The circuit of one machine is not touched by another's.
pub circuits_apart :
    (machine other message now : ℕ) (d : Dict Protection)
    → other ≢ machine
    → (lookup other (mark_machine_failure machine message now d).0 ≡ lookup other d)
      × (lookup other (mark_machine_success machine now d).0 ≡ lookup other d)
unfolding mark_machine_failure mark_machine_success
circuits_apart machine other message now d ne =
    (lookup-insert_ne machine other _ d ne, succeed-other machine other now (lookup machine d) d ne)
