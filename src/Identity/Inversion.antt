-- ===== src/Identity/Inversion.antt =====
-- What a call of `prepare` or `renew_lease` that succeeds has passed, and what it has written.
use studiohub_mac.Prelude.{
  ℕ, ◌≡◌, refl, Bool, true, false, Option, none, some, List, arith, lookup, insert, leb, ltb,
  length, ◌==◌, ◌||◌,
}
use studiohub_mac.Identity.{
  Store, Fence, AttemptFence, Evidence, Assignment, Renewal, Result, ok, err, IdentityError,
  refuse_if, bad_key, already_expired, unknown_attempt, no_lease, lease_dead, max_key_length,
  passed, find, check_fence, check_attempt, check_acceptance, check_renewal, put_fence, put_attempt,
  put_acceptance, accept, prepare, renew_lease, evidence_of, require, ◌>>=◌,
}

-- The store that `accept` leaves when no guard refuses.
abbrev pub accepted_store : Evidence → ℕ → Store → Store
accepted_store e now s = record {
  fences = put_fence e now (lookup e.job s.fences) s.fences;
  attempts = put_attempt e now (lookup e.attempt s.attempts) s.attempts;
  accepted = put_acceptance e now s.accepted;
}

pub record Accepts (e : Evidence) (now : ℕ) (s : Store) (t : Store) (replay : Option ℕ)
    : Type 0 where
  pub fence_ok : check_fence e (lookup e.job s.fences) ≡ ok tt
  pub attempt_ok : check_attempt e now (lookup e.attempt s.attempts) ≡ ok tt
  pub replay_ok : check_acceptance e (find e.job e.idem_hash s.accepted) ≡ ok replay
  pub store_eq : t ≡ accepted_store e now s

bind_ok {ℓ μ} :
    {Value : Type ℓ} {Next : Type μ} (checked : Result Value) (rest : Value → Result Next)
    {n : Next}
    → (checked >>= rest) ≡ ok n
    → (v : Value) × (checked ≡ ok v) × (rest v ≡ ok n)
bind_ok (err raised) rest h = cc
bind_ok (ok v) rest h = (v, refl, h)

refuse_ok :
    (test : Bool) (e : IdentityError) {u : Unit {0}} → refuse_if test e ≡ ok u → test ≡ false
refuse_ok true e h = cc
refuse_ok false e h = refl

pub accept-Accepts :
    (e : Evidence) (now : ℕ) (s t : Store) (replay : Option ℕ)
    → accept e now s ≡ ok (t, replay)
    → Accepts e now s t replay
unfolding accept
accept-Accepts e now s t replay h =
    let (u, p, h1) = bind_ok (check_fence e (lookup e.job s.fences)) _ h in
    let (v, q, h2) = bind_ok (check_attempt e now (lookup e.attempt s.attempts)) _ h1 in
    let (w, r, h3) = bind_ok (check_acceptance e (find e.job e.idem_hash s.accepted)) _ h2 in
    record { fence_ok = p; attempt_ok = q; replay_ok = cc; store_eq = ground arith }

pub Accepts-accept :
    (e : Evidence) (now : ℕ) (s t : Store) (replay : Option ℕ)
    → Accepts e now s t replay
    → accept e now s ≡ ok (t, replay)
unfolding accept
Accepts-accept e now s t replay h = rw (h.fence_ok, h.attempt_ok, h.replay_ok, h.store_eq)

pub prepare-Accepts :
    (hash : List ℕ → ℕ) (a : Assignment) (now : ℕ) (s t : Store) (replay : Option ℕ)
    → prepare hash a now s ≡ ok (t, replay)
    → Accepts (evidence_of hash a) now s t replay
unfolding prepare
prepare-Accepts hash a now s t replay h =
    let long = length a.idempotency_key == 0 || ltb max_key_length (length a.idempotency_key) in
    let (u, p, h1) = bind_ok (refuse_if long bad_key) _ h in
    let (v, q, h2) = bind_ok (refuse_if (passed a.lease_expires_at now) already_expired) _ h1 in
    accept-Accepts (evidence_of hash a) now s t replay h2

prepare_of_guards :
    (hash : List ℕ → ℕ) (a : Assignment) (now : ℕ) (s : Store)
    → (length a.idempotency_key == 0 || ltb max_key_length (length a.idempotency_key)) ≡ false
    → passed a.lease_expires_at now ≡ false
    → prepare hash a now s ≡ accept (evidence_of hash a) now s
unfolding prepare
prepare_of_guards hash a now s p q = rw (p, q)

-- An assignment that was accepted once reaches the tables again while its deadline is ahead.
pub prepare-of_accept :
    (hash : List ℕ → ℕ) (a : Assignment) (now later : ℕ) (s t : Store) (x : Store × Option ℕ)
    → prepare hash a now s ≡ ok x
    → passed a.lease_expires_at later ≡ false
    → prepare hash a later t ≡ accept (evidence_of hash a) later t
unfolding prepare
prepare-of_accept hash a now later s t x p q =
    let long = length a.idempotency_key == 0 || ltb max_key_length (length a.idempotency_key) in
    let (u, g, h) = bind_ok (refuse_if long bad_key) _ p in
    prepare_of_guards hash a later t (refuse_ok long bad_key g) q

pub record Renews (job attempt token deadline now : ℕ) (s t : Store) : Type 0 where
  pub row : AttemptFence
  pub fence : Fence
  pub current : ℕ
  pub row_found : lookup attempt s.attempts ≡ some row
  pub fence_found : lookup job s.fences ≡ some fence
  pub matches : check_renewal job attempt token row fence ≡ ok tt
  pub leased : row.lease_expires_at ≡ some current
  pub alive : leb current now ≡ false
  pub future : leb deadline now ≡ false
  pub store_eq : t ≡ record s {
    attempts =
        insert attempt
          (record row { lease_expires_at = some deadline; updated_at = now })
          s.attempts;
  }

require_ok {ℓ} :
    {A : Type ℓ} (o : Option A) (e : IdentityError) {a : A} → require o e ≡ ok a → o ≡ some a
unfolding require
require_ok none e h = cc
require_ok (some a) e h = cc

pub renew_lease-Renews :
    (job attempt token deadline now : ℕ) (s t : Store) (r : Renewal)
    → renew_lease job attempt token deadline now s ≡ ok (t, r)
    → Renews job attempt token deadline now s t
unfolding renew_lease
renew_lease-Renews job attempt token deadline now s t r h =
    let (u, p, h1) = bind_ok (refuse_if (leb deadline now) already_expired) _ h in
    let (a, q, h2) = bind_ok (require (lookup attempt s.attempts) unknown_attempt) _ h1 in
    let (f, q', h3) = bind_ok (require (lookup job s.fences) unknown_attempt) _ h2 in
    let (v, m, h4) = bind_ok (check_renewal job attempt token a f) _ h3 in
    let (c, l, h5) = bind_ok (require a.lease_expires_at no_lease) _ h4 in
    let (w, alive, h6) = bind_ok (refuse_if (leb c now) lease_dead) _ h5 in
    record {
      row = a;
      fence = f;
      current = c;
      row_found = require_ok _ _ q;
      fence_found = require_ok _ _ q';
      matches = m;
      leased = require_ok _ _ l;
      alive = refuse_ok _ _ alive;
      future = refuse_ok _ _ p;
      store_eq = ground arith;
    }
