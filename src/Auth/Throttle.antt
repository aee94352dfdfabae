-- ===== src/Auth/Throttle.antt =====
-- app/backend/auth.py: the login throttle. The failures of each client are a dictionary of lists of
-- times in seconds, newest last; a client is its host, or the word "unknown".
use studiohub_mac.Prelude.{
  ℕ, suc, ◌+◌, ◌*◌, ◌≤◌, ◌<◌, ◌≡◌, refl, Bool, true, false, List, [], ◌∷◌, ◌++◌, arith, ltb, keep,
  length, length-keep, count_if, Dict, lookup, insert, remove, or_else, ◌≢◌, ◌∙◌, ap,
  lookup-insert_ne, lookup-remove, lookup-insert_self, lookup-remove_self, All,
}

abbrev pub login_window : ℕ
login_window = 15 * 60

abbrev pub max_login_failures : ℕ
max_login_failures = 5

-- `stamp > now - window`
unfoldable pub is_recent : ℕ → ℕ → Bool
is_recent now stamp = ltb now (stamp + login_window)

-- `[stamp for stamp in _login_failures.get(key, []) if …]`
pub recent : ℕ → ℕ → Dict (List ℕ) → List ℕ
unfolding is_recent
recent client now failures = keep (is_recent now) (or_else (lookup client failures) [])

pub login_allowed : ℕ → ℕ → Dict (List ℕ) → Bool × Dict (List ℕ)
unfolding recent
login_allowed client now failures = (
  ltb (length (recent client now failures)) max_login_failures,
  insert client (recent client now failures) failures,
)

pub record_login_failure : ℕ → ℕ → Dict (List ℕ) → Dict (List ℕ)
unfolding recent
record_login_failure client now failures =
    insert client (recent client now failures ++ now ∷ []) failures

pub clear_login_failures : ℕ → Dict (List ℕ) → Dict (List ℕ)
clear_login_failures client failures = remove client failures

-- The failures of one client at these times, one after the other.
pub failed_at : ℕ → List ℕ → Dict (List ℕ) → Dict (List ℕ)
unfolding record_login_failure
failed_at client [] failures = failures
failed_at client (now ∷ times) failures =
    failed_at client times (record_login_failure client now failures)

abbrev stamps : ℕ → Dict (List ℕ) → List ℕ
stamps client failures = or_else (lookup client failures) []

count_if-keep_recent :
    (now later : ℕ) (xs : List ℕ)
    → now ≤ later
    → count_if (is_recent later) (keep (is_recent now) xs) ≡ count_if (is_recent later) xs
unfolding is_recent
count_if-keep_recent now later [] le = refl
count_if-keep_recent now later (x ∷ xs) le = ground (arith, count_if-keep_recent now later xs le)

count_if-append_one :
    (p : ℕ → Bool) (xs : List ℕ) (x : ℕ)
    → p x ≡ true
    → count_if p (xs ++ x ∷ []) ≡ suc (count_if p xs)
count_if-append_one p [] x h = ground arith
count_if-append_one p (y ∷ xs) x h = ground (arith, count_if-append_one p xs x h)

-- A failure inside the window adds one to what a later check counts.
count-record :
    (client now later : ℕ) (failures : Dict (List ℕ))
    → now ≤ later
    → later < now + login_window
    → count_if (is_recent later) (stamps client (record_login_failure client now failures))
      ≡ suc (count_if (is_recent later) (stamps client failures))
unfolding record_login_failure
count-record client now later failures le h =
    let old = stamps client failures in
    rw (lookup-insert_self client (keep (is_recent now) old ++ now ∷ []) failures) (
      count_if-append_one (is_recent later) (keep (is_recent now) old) now
        (unfold is_recent in ground arith)
      ∙ ap suc (count_if-keep_recent now later old le))

count-failed_at :
    (client later : ℕ) (times : List ℕ) (failures : Dict (List ℕ))
    → All (λ now. (now ≤ later) × (later < now + login_window)) times
    → length times + count_if (is_recent later) (stamps client failures)
      ≡ count_if (is_recent later) (stamps client (failed_at client times failures))
unfolding failed_at
count-failed_at client later [] failures h = omega arith
count-failed_at client later (now ∷ times) failures h = omega (
  arith,
  count-record client now later failures h.0.0 h.0.1,
  count-failed_at client later times (record_login_failure client now failures) h.1,
)

-- Five failures of one client within fifteen minutes lock it out, whatever went before.
pub lockout :
    (client later : ℕ) (times : List ℕ) (failures : Dict (List ℕ))
    → max_login_failures ≤ length times
    → All (λ now. (now ≤ later) × (later < now + login_window)) times
    → (login_allowed client later (failed_at client times failures)).0 ≡ false
unfolding login_allowed
lockout client later times failures five within =
    let counted = length-keep (is_recent later) (stamps client (failed_at client times failures)) in
    ground (arith, count-failed_at client later times failures within, counted)

count-none :
    (later : ℕ) (xs : List ℕ)
    → All (λ now. now + login_window ≤ later) xs
    → keep (is_recent later) xs ≡ []
unfolding is_recent
count-none later [] h = refl
count-none later (x ∷ xs) h = ground (arith, count-none later xs h.1)

-- The throttle of a client opens again after a success, and once its failures are all older than
-- the window.
pub throttle_reopens :
    (client later : ℕ) (failures : Dict (List ℕ))
    → All (λ now. now + login_window ≤ later) (or_else (lookup client failures) [])
    → ((login_allowed client later (clear_login_failures client failures)).0 ≡ true)
      × ((login_allowed client later failures).0 ≡ true)
unfolding login_allowed clear_login_failures
throttle_reopens client later failures old = (
  rw (lookup-remove_self client failures) refl,
  rw (count-none later (stamps client failures) old) refl,
)

-- No operation on one client touches the failures of another.
pub throttle_apart :
    (client other now : ℕ) (failures : Dict (List ℕ))
    → other ≢ client
    → (lookup other (login_allowed client now failures).1 ≡ lookup other failures)
      × (lookup other (record_login_failure client now failures) ≡ lookup other failures)
      × (lookup other (clear_login_failures client failures) ≡ lookup other failures)
unfolding login_allowed clear_login_failures record_login_failure
throttle_apart client other now failures ne = (
  lookup-insert_ne client other _ failures ne,
  lookup-insert_ne client other _ failures ne,
  ground (arith, lookup-remove client other failures),
)
