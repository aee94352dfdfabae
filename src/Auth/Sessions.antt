-- ===== src/Auth/Sessions.antt =====
-- app/backend/auth.py: remembered browser sessions. The state is the list in the sessions file;
-- times are seconds, the digest of a session value is an argument, and values are compared by it.
use studiohub_mac.Prelude.{
  ℕ, zero, suc, ◌*◌, ◌+◌, ◌-◌, ◌≤◌, ◌<◌, ◌≢◌, ◌≡◌, refl, Bool, true, false, Option, none, some,
  List, [], ◌∷◌, ◌++◌, not, arith, ltb, ◌==◌, any, keep, drop, length, length-append, length-drop,
  length-keep, count_if-le, ==_self,
}

-- A row of the file: anything that is not a dict of a text and a number is unreadable.
pub data Row : Type 0 where
  unreadable : Row
  session : (hash expires_at : ℕ) → Row

abbrev pub session_ttl : ℕ
session_ttl = 90 * 24 * 60 * 60

abbrev pub max_sessions : ℕ
max_sessions = 20

unfoldable pub is_live : ℕ → Row → Bool
is_live now unreadable = false
is_live now (session hash expires_at) = ltb now expires_at

unfoldable pub has_hash : ℕ → Row → Bool
has_hash candidate unreadable = false
has_hash candidate (session hash expires_at) = candidate == hash

-- The live rows. The file is written when a row was dropped, so it holds these rows afterwards.
pub live_sessions : ℕ → List Row → List Row
unfolding is_live
live_sessions now rows = keep (is_live now) rows

-- `sessions[-20:]`
unfoldable pub last_sessions : List Row → List Row
last_sessions rows = drop (length rows - max_sessions) rows

-- The file after `create_browser_session` of the random `value`.
pub create_browser_session : (ℕ → ℕ) → ℕ → ℕ → List Row → List Row
unfolding live_sessions last_sessions
create_browser_session digest value now rows =
    last_sessions (live_sessions now rows ++ session (digest value) (now + session_ttl) ∷ [])

-- The answer, and the file. A missing or empty value reads nothing.
pub valid_browser_session : (ℕ → ℕ) → Option ℕ → ℕ → List Row → Bool × List Row
unfolding live_sessions has_hash
valid_browser_session digest none now rows = (false, rows)
valid_browser_session digest (some value) now rows =
    (any (has_hash (digest value)) (live_sessions now rows), live_sessions now rows)

pub forget_browser_session : (ℕ → ℕ) → Option ℕ → ℕ → List Row → List Row
unfolding live_sessions has_hash
forget_browser_session digest none now rows = rows
forget_browser_session digest (some value) now rows =
    keep (λ row. not (has_hash (digest value) row)) (live_sessions now rows)

unfoldable pub clear_browser_sessions : List Row → List Row
clear_browser_sessions rows = []

any-append_one {ℓ} :
    {A : Type ℓ} (p : A → Bool) (xs : List A) (x : A) → p x ≡ true → any p (xs ++ x ∷ []) ≡ true
any-append_one p [] x h = ground arith
any-append_one p (y ∷ xs) x h = ground (arith, any-append_one p xs x h)

drop-append_one {ℓ} :
    {A : Type ℓ} (n : ℕ) (xs : List A) (x : A)
    → n ≤ length xs
    → drop n (xs ++ x ∷ []) ≡ drop n xs ++ x ∷ []
drop-append_one zero xs x h = refl
drop-append_one (suc n) [] x h = absurd (omega arith)
drop-append_one (suc n) (y ∷ xs) x h = drop-append_one n xs x (omega arith)

keep-append_one {ℓ} :
    {A : Type ℓ} (p : A → Bool) (xs : List A) (x : A)
    → p x ≡ true
    → keep p (xs ++ x ∷ []) ≡ keep p xs ++ x ∷ []
keep-append_one p [] x h = rw h
keep-append_one p (y ∷ xs) x h = ground (arith, keep-append_one p xs x h)

-- A session that was just created is accepted at any time before its deadline of ninety days,
-- however many browsers were remembered before.
pub create-valid :
    (digest : ℕ → ℕ) (value now later : ℕ) (rows : List Row)
    → later < now + session_ttl
    → (valid_browser_session digest
        (some value)
        later
        (create_browser_session digest value now rows)).0
      ≡ true
unfolding valid_browser_session create_browser_session
create-valid digest value now later rows h =
    let live = keep (is_live now) rows in
    let fresh = session (digest value) (now + session_ttl) in
    let n = length (live ++ fresh ∷ []) - max_sessions in
    rw (drop-append_one n live fresh (omega (arith, length-append live (fresh ∷ [])))) (
      rw (keep-append_one (is_live later) (drop n live) fresh (ground arith)) (
        any-append_one (has_hash (digest value)) (keep (is_live later) (drop n live)) fresh
          (==_self (digest value))))

keep-none {ℓ} :
    {A : Type ℓ} (p q : A → Bool) (xs : List A) → any p (keep q (keep (λ x. not (p x)) xs)) ≡ false
keep-none p q [] = refl
keep-none p q (x ∷ xs) = ground (arith, keep-none p q xs)

-- A forgotten session is refused from then on.
pub forget-valid :
    (digest : ℕ → ℕ) (value now later : ℕ) (rows : List Row)
    → (valid_browser_session digest
        (some value)
        later
        (forget_browser_session digest (some value) now rows)).0
      ≡ false
unfolding valid_browser_session forget_browser_session
forget-valid digest value now later rows =
    keep-none (has_hash (digest value)) (is_live later) (keep (is_live now) rows)

valid_other :
    (now later mine other : ℕ) (rows : List Row)
    → now ≤ later
    → other ≢ mine
    → any
        (has_hash other)
        (keep (is_live later) (keep (λ row. not (has_hash mine row)) (keep (is_live now) rows)))
      ≡ any (has_hash other) (keep (is_live later) rows)
unfolding is_live has_hash
valid_other now later mine other [] le ne = refl
valid_other now later mine other (unreadable ∷ rows) le ne =
    valid_other now later mine other rows le ne
valid_other now later mine other (session hash expires_at ∷ rows) le ne =
    ground (arith, valid_other now later mine other rows)

-- Forgetting one session leaves what is answered for every other value.
pub forget-valid_other :
    (digest : ℕ → ℕ) (value other now later : ℕ) (rows : List Row)
    → now ≤ later
    → digest other ≢ digest value
    → (valid_browser_session digest
        (some other)
        later
        (forget_browser_session digest (some value) now rows)).0
      ≡ (valid_browser_session digest (some other) later rows).0
unfolding valid_browser_session forget_browser_session
forget-valid_other digest value other now later rows le ne =
    valid_other now later (digest value) (digest other) rows le ne

count_if-keep-le {ℓ} : {A : Type ℓ} (p : A → Bool) (xs : List A) → length (keep p xs) ≤ length xs
count_if-keep-le p xs = omega (arith, length-keep p xs, count_if-le p xs)

-- At most twenty browsers are remembered, and no operation on the file makes it longer than that.
pub sessions_bounded :
    (digest : ℕ → ℕ) (value now : ℕ) (o : Option ℕ) (rows : List Row)
    → (length (create_browser_session digest value now rows) ≤ max_sessions)
      × (length (valid_browser_session digest o now rows).1 ≤ length rows)
      × (length (forget_browser_session digest o now rows) ≤ length rows)
unfolding create_browser_session valid_browser_session forget_browser_session
sessions_bounded digest value now none rows =
    let grown = keep (is_live now) rows ++ session (digest value) (now + session_ttl) ∷ [] in
    (omega (arith, length-drop (length grown - max_sessions) grown), omega arith, omega arith)
sessions_bounded digest value now (some v) rows =
    let live = keep (is_live now) rows in
    let grown = live ++ session (digest value) (now + session_ttl) ∷ [] in
    (
      omega (arith, length-drop (length grown - max_sessions) grown),
      count_if-keep-le (is_live now) rows,
      omega (
        arith,
        count_if-keep-le (is_live now) rows,
        count_if-keep-le (λ row. not (has_hash (digest v) row)) live,
      ),
    )
