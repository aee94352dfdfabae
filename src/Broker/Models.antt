-- ===== src/Broker/Models.antt =====
-- app/backend/broker.py: models that are paused on one Studio after failures of the model itself.
pub mod Laws
use studiohub_mac.Prelude.{
  ℕ, ◌+◌, ◌≤◌, ◌<◌, ◌≡◌, ◌≢◌, refl, Bool, true, false, not, ◌&&◌, ◌||◌, Option, none, some, List,
  [], ◌∷◌, arith, ltb, leb, ◌==◌, if◌then◌else◌, or_else, is_some, option_eq, Option-cases, inl,
  inr, ◌⊎◌,
}

pub data Code : Type 0 where
  model_files_unavailable : Code
  other_code : ℕ → Code

pub record Row : Type 0 where
  pub studio : ℕ
  pub model : ℕ
  pub revision : Option ℕ
  pub reason : ℕ
  pub error_code : Code
  pub failures : ℕ
  pub last_failure_at : ℕ
  pub window_started_at : ℕ
  pub blocked : Bool
  pub blocked_at : Option ℕ

abbrev pub model_failure_window : ℕ
model_failure_window = 300

abbrev pub model_failure_threshold : ℕ
model_failure_threshold = 3

-- The dictionary `_model_protection`, keyed by the Studio and the model.
abbrev pub Rows : Type 0
Rows = List Row

abbrev is_key : ℕ → ℕ → Row → Bool
is_key studio model r = r.studio == studio && r.model == model

unfoldable pub find : ℕ → ℕ → Rows → Option Row
find studio model [] = none
find studio model (r ∷ rows) = if is_key studio model r then some r else find studio model rows

unfoldable pub put : Row → Rows → Rows
put q [] = q ∷ []
put q (r ∷ rows) = if is_key q.studio q.model r then q ∷ rows else r ∷ put q rows

unfoldable pub drop_key : ℕ → ℕ → Rows → Rows
drop_key studio model [] = []
drop_key studio model (r ∷ rows) =
    if is_key studio model r then drop_key studio model rows else r ∷ drop_key studio model rows

is_unavailable : Code → Bool
is_unavailable model_files_unavailable = true
is_unavailable (other_code c) = false

-- `0 <= now - window_started < 300`
recent : ℕ → ℕ → Bool
recent started now = leb started now && ltb now (started + model_failure_window)

or_now : Option ℕ → Bool → ℕ → Option ℕ
or_now (some t) blocked now = some t
or_now none blocked now = if blocked then some now else none

first_failure : ℕ → ℕ → Option ℕ → Code → ℕ → ℕ → Row
unfolding is_unavailable
first_failure studio model revision code reason now =
    let blocked = is_unavailable code || leb model_failure_threshold 1 in
    record {
      studio = studio;
      model = model;
      revision = revision;
      reason = reason;
      error_code = code;
      failures = 1;
      last_failure_at = now;
      window_started_at = now;
      blocked = blocked;
      blocked_at = if blocked then some now else none;
    }

next_failure : Row → Option ℕ → Code → ℕ → ℕ → Row
unfolding is_unavailable recent or_now
next_failure p revision code reason now =
    let same = recent p.window_started_at now && option_eq p.revision revision in
    let failures = if same then p.failures + 1 else 1 in
    let blocked = p.blocked || (is_unavailable code || leb model_failure_threshold failures) in
    record p {
      revision = revision;
      reason = reason;
      error_code = code;
      failures = failures;
      last_failure_at = now;
      window_started_at = if same then p.window_started_at else now;
      blocked = blocked;
      blocked_at = or_now p.blocked_at blocked now;
    }

failure : ℕ → ℕ → Option Row → Option ℕ → Code → ℕ → ℕ → Row
unfolding first_failure next_failure
failure studio model none revision code reason now =
    first_failure studio model revision code reason now
failure studio model (some p) revision code reason now =
    record (next_failure p revision code reason now) { studio = studio; model = model }

unfoldable pub was_blocked : Option Row → Bool
was_blocked none = false
was_blocked (some p) = p.blocked

-- The rows, and whether the alert "model_paused" is sent. The reason is the public text of the error.
pub mark_model_failure : ℕ → ℕ → Option ℕ → Code → ℕ → ℕ → Rows → Rows × Bool
unfolding failure was_blocked
mark_model_failure studio model revision code reason now rows =
    let row = failure studio model (find studio model rows) revision code reason now in
    (put row rows, row.blocked && not (was_blocked (find studio model rows)))

-- `_model_block_note`: whether there is a note. A verdict that the catalog does not give is None.
pub is_held : Option Bool → Option Bool → ℕ → ℕ → Rows → Bool
unfolding was_blocked
is_held (some false) execution studio model rows = true
is_held ready (some false) studio model rows = true
is_held ready execution studio model rows = was_blocked (find studio model rows)

-- The fresh catalog entry of a recheck, as far as it is read.
pub record Readiness : Type 0 where
  pub ready : Option Bool  -- None where `readiness` is not reported
  pub runtime_ready : Bool
  pub available : Bool
  pub cached : Bool
  pub execution_ready : Option Bool

is_false : Option Bool → Bool
is_false (some false) = true
is_false _ = false

engine_ready : Option Row → Readiness → Bool
engine_ready none r = r.runtime_ready && (r.available && r.cached)
engine_ready (some p) r =
    not (is_unavailable p.error_code) && (r.runtime_ready && (r.available && r.cached))

reported : Option Row → Option Bool → Readiness → Bool
reported previous (some b) r = b
reported previous none r = engine_ready previous r

-- A reported readiness decides; otherwise Voice's engine facts may, but never for missing files.
unfoldable pub verified : Option Row → Option Readiness → Bool
unfolding is_false engine_ready is_unavailable reported
verified previous none = false
verified previous (some r) = reported previous r.ready r && not (is_false r.execution_ready)

pub data Outcome : Type 0 where
  reopened : Rows → Outcome
  not_verified newer_failure : Outcome

code_eq : Code → Code → Bool
code_eq model_files_unavailable model_files_unavailable = true
code_eq (other_code c) (other_code d) = c == d
code_eq _ _ = false

bool_eq : Bool → Bool → Bool
bool_eq true b = b
bool_eq false b = not b

-- Equality of two rows of one key.
unfoldable pub same_row : Option Row → Option Row → Bool
unfolding code_eq bool_eq
same_row none none = true
same_row (some p) (some q) =
    option_eq p.revision q.revision
    && (p.reason == q.reason
        && (code_eq p.error_code q.error_code
            && (p.failures == q.failures
                && (p.last_failure_at == q.last_failure_at
                    && (p.window_started_at == q.window_started_at
                        && (bool_eq p.blocked q.blocked && option_eq p.blocked_at q.blocked_at))))))
same_row _ _ = false

-- `recheck_model_protection` of a registered Studio: the rows before the request to it, and after.
unfoldable pub recheck_model_protection : ℕ → ℕ → Option Readiness → Rows → Rows → Outcome
unfolding same_row
recheck_model_protection studio model entry before rows =
    if not (verified (find studio model before) entry)
    then not_verified
    else if not (same_row (find studio model rows) (find studio model before))
    then newer_failure
    else reopened (drop_key studio model rows)
