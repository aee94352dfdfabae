-- ===== src/Recovery.antt =====
-- app/backend/automatic_recovery.py: which stalled local jobs may be cancelled. Times are seconds;
-- texts (ids, models, reasons, the session of the observer) are numbers, the empty text is 0, and a
-- field that is missing is None. The fields of a job that the policy reads are numbers or None.
pub mod Policy
pub mod Restart
pub mod Watched
mod Examples
use studiohub_mac.Prelude.{
  ℕ, zero, suc, ◌+◌, ◌-◌, ◌*◌, ◌≡◌, Bool, true, false, not, ◌&&◌, ◌||◌, Option, none, some, List,
  [], ◌∷◌, leb, ltb, ◌==◌, if◌then◌else◌, any, Dict, lookup, insert, or_else, option_eq, is_some,
}

pub data Modality : Type 0 where
  image voice : Modality
  other_modality : ℕ → Modality

pub data JobState : Type 0 where
  running : JobState
  other_state : ℕ → JobState

pub record Job : Type 0 where
  pub id : ℕ
  pub model : ℕ
  pub state : JobState
  pub progress : Option ℕ
  pub current_step : Option ℕ
  pub total_steps : Option ℕ
  pub chunk_index : Option ℕ
  pub chunk_total : Option ℕ
  pub started_at : Option ℕ

pub data Phase : Type 0 where
  watching eligible cancel_requested manual_action_required : Phase
  other_phase : ℕ → Phase

pub record Signature : Type 0 where
  pub state : JobState
  pub progress : Option ℕ
  pub stage : Option ℕ
  pub total : Option ℕ

pub data Reason : Type 0 where
  hub_restarted : Reason
  given : ℕ → Reason

-- The last reading of a job, which a row that was only marked does not have.
pub record Reading : Type 0 where
  pub modality : Modality
  pub model : ℕ
  pub stall_after : ℕ
  pub elapsed : ℕ
  pub no_progress : ℕ
  pub stage_evidence : Bool

pub record Row : Type 0 where
  pub job : Option ℕ
  pub phase : Option Phase
  pub reason : Option Reason
  pub first_seen_at : Option ℕ
  pub last_meaningful_at : Option ℕ
  pub last_checked_at : Option ℕ
  pub signature : Option Signature
  pub observer_session : Option ℕ
  pub reading : Option Reading

pub record State : Type 0 where
  pub jobs : Dict Row
  pub updated_at : Option ℕ
  pub state_healthy : Bool

abbrev pub max_stall : ℕ
max_stall = 6 * 60 * 60

abbrev pub max_observation_gap : ℕ
max_observation_gap = 5 * 60

-- DEFAULT_STALL_S, and MAX_STALL_S for another modality
abbrev pub threshold : Modality → ℕ
threshold image = 60 * 60
threshold voice = 2 * 60 * 60
threshold (other_modality m) = max_stall

abbrev pub is_watched : Modality → Bool
is_watched (other_modality m) = false
is_watched _ = true

abbrev pub is_running : JobState → Bool
is_running running = true
is_running (other_state s) = false

-- IN_PROGRESS_PHASES
abbrev pub in_progress : Option Phase → Bool
in_progress (some cancel_requested) = true
in_progress _ = false

-- `phase not in {None, "watching", "eligible"}`
abbrev pub is_protected : Option Phase → Bool
is_protected none = false
is_protected (some watching) = false
is_protected (some eligible) = false
is_protected (some p) = true

abbrev pub stage_of : Modality → Job → Option ℕ
stage_of image j = j.current_step
stage_of m j = j.chunk_index

abbrev pub total_of : Modality → Job → Option ℕ
total_of image j = j.total_steps
total_of m j = j.chunk_total

unfoldable pub signature : Modality → Job → Signature
signature modality j = record {
  state = j.state;
  progress = j.progress;
  stage = stage_of modality j;
  total = total_of modality j;
}

state_eq : JobState → JobState → Bool
state_eq running running = true
state_eq (other_state a) (other_state b) = a == b
state_eq _ _ = false

unfoldable pub same_signature : Option Signature → Signature → Bool
unfolding state_eq
same_signature none s = false
same_signature (some r) s =
    state_eq r.state s.state
    && (option_eq r.progress s.progress && (option_eq r.stage s.stage && option_eq r.total s.total))

unfoldable pub has_evidence : Option ℕ → Option ℕ → Bool
has_evidence (some stage) (some total) = ltb 0 total && leb stage total
has_evidence _ _ = false

-- `0 <= now - last_checked <= MAX_OBSERVATION_GAP_S`
unfoldable pub within_gap : Option ℕ → ℕ → Bool
within_gap none now = false
within_gap (some checked) now = leb checked now && leb now (checked + max_observation_gap)

-- `value or now`, where 0 counts as missing
unfoldable pub or_now : Option ℕ → ℕ → ℕ
or_now none now = now
or_now (some zero) now = now
or_now (some (suc t)) now = suc t

unfoldable pub is_same : ℕ → Option Row → Bool
is_same job none = false
is_same job (some r) = option_eq r.job (some job)

unfoldable pub continuously_observed : ℕ → ℕ → ℕ → Option Row → Bool
unfolding within_gap
continuously_observed session job now none = false
continuously_observed session job now (some r) =
    option_eq r.job (some job)
    && (option_eq r.observer_session (some session) && within_gap r.last_checked_at now)

-- When the job last changed what it reports, as far as it was watched all along.
unfoldable pub meaningful_at : ℕ → ℕ → Signature → ℕ → Option Row → ℕ
unfolding continuously_observed same_signature or_now
meaningful_at session job s now none = now
meaningful_at session job s now (some r) =
    if continuously_observed session job now (some r) && same_signature r.signature s
    then or_now r.last_meaningful_at now
    else now

first_seen : ℕ → ℕ → Option Row → ℕ
unfolding or_now
first_seen job now none = now
first_seen job now (some r) = if option_eq r.job (some job) then or_now r.first_seen_at now else now

-- `elapsed >= threshold`, where a job without a start has run for no time
unfoldable pub ran_for : ℕ → Option ℕ → ℕ → Bool
ran_for limit none now = limit == 0
ran_for limit (some started) now = leb (started + limit) now

abbrev elapsed_since : Option ℕ → ℕ → ℕ
elapsed_since none now = 0
elapsed_since (some started) now = now - started

unfoldable pub protected_phase : ℕ → Option Row → Option Phase
protected_phase job none = none
protected_phase job (some r) =
    if option_eq r.job (some job) && is_protected r.phase then r.phase else none

kept_reason : ℕ → Option Row → Option Reason
kept_reason job none = none
kept_reason job (some r) =
    if option_eq r.job (some job) && is_protected r.phase then r.reason else none

unfoldable pub is_eligible : ℕ → ℕ → Modality → Job → ℕ → Bool → Option Row → Bool
unfolding has_evidence ran_for meaningful_at protected_phase
is_eligible session studio modality j now healthy previous =
    not (j.id == 0)
    && (is_watched modality
        && (is_running j.state
            && (healthy
                && (has_evidence (stage_of modality j) (total_of modality j)
                    && (ran_for (threshold modality) j.started_at now
                        && (leb
                              (meaningful_at session j.id (signature modality j) now previous
                                + threshold modality)
                              now
                            && not (is_some (protected_phase j.id previous))))))))

row_of : ℕ → Modality → Job → ℕ → Bool → Option Row → Row
unfolding protected_phase kept_reason first_seen
row_of session modality j now may previous =
    let meaningful = meaningful_at session j.id (signature modality j) now previous in
    record {
      job = some j.id;
      phase = some (or_else (protected_phase j.id previous) (if may then eligible else watching));
      reason = kept_reason j.id previous;
      first_seen_at = some (first_seen j.id now previous);
      last_meaningful_at = some meaningful;
      last_checked_at = some now;
      signature = some (signature modality j);
      observer_session = some session;
      reading = some (record {
        modality = modality;
        model = j.model;
        stall_after = threshold modality;
        elapsed = elapsed_since j.started_at now;
        no_progress = now - meaningful;
        stage_evidence = has_evidence (stage_of modality j) (total_of modality j);
      });
    }

-- The state, and whether the job is eligible. The session of the observer is the first argument.
pub observe : ℕ → ℕ → Modality → Job → ℕ → State → State × Bool
unfolding is_eligible row_of
observe session studio modality j now s =
    let previous = lookup studio s.jobs in
    let may = is_eligible session studio modality j now s.state_healthy previous in
    (
      record s {
        jobs = insert studio (row_of session modality j now may previous) s.jobs;
        updated_at = some now;
      },
      may,
    )

-- A reading of the Studio's job: the modality, the job and the time.
abbrev pub Observed : Type 0
Observed = Modality × Job × ℕ

-- The state after these readings by one run of the Hub, and whether one of them found the job
-- eligible. The session of the observer is the first argument; a new one exists only after `_load`.
pub observe_all : ℕ → ℕ → List Observed → State → State × Bool
observe_all session studio [] s = (s, false)
observe_all session studio ((m, j, now) ∷ readings) s =
    let (after, may) = observe session studio m j now s in
    let (end, later) = observe_all session studio readings after in (end, may || later)

abbrev bare_row : ℕ → Row
bare_row job = record {
  job = some job;
  phase = none;
  reason = none;
  first_seen_at = none;
  last_meaningful_at = none;
  last_checked_at = none;
  signature = none;
  observer_session = none;
  reading = none;
}

marked_row : ℕ → Phase → Reason → ℕ → Option Row → Row
marked_row job phase reason now none = record (bare_row job) {
  phase = some phase;
  reason = some reason;
  last_checked_at = some now;
}
marked_row job phase reason now (some r) =
    record (if option_eq r.job (some job) then r else bare_row job) {
      phase = some phase;
      reason = some reason;
      last_checked_at = some now;
    }

pub mark : ℕ → ℕ → Phase → Reason → ℕ → State → State
unfolding marked_row
mark studio job phase reason now s = record s {
  jobs = insert studio (marked_row job phase reason now (lookup studio s.jobs)) s.jobs;
  updated_at = some now;
}

-- The state file: absent, unreadable or of another shape, or a document with its own verdict.
pub data File : Type 0 where
  absent unreadable : File
  document : Dict Row → (updated_at : Option ℕ) → (healthy : Bool) → File

unfoldable pub restarted : Row → Row
restarted r =
    if in_progress r.phase
    then record r { phase = some manual_action_required; reason = some hub_restarted }
    else r

restarted_rows : Dict Row → Dict Row
unfolding restarted
restarted_rows [] = []
restarted_rows ((k, r) ∷ rows) = (k, restarted r) ∷ restarted_rows rows

-- `_load`
pub load : File → State
unfolding restarted_rows
load absent = record { jobs = []; updated_at = none; state_healthy = true }
load unreadable = record { jobs = []; updated_at = none; state_healthy = false }
load (document rows updated true) = record {
  jobs = restarted_rows rows;
  updated_at = updated;
  state_healthy = true;
}
load (document rows updated false) = record { jobs = []; updated_at = none; state_healthy = false }

pub data Summary : Type 0 where
  attention recovering quiet : Summary

needs_attention : Option Phase → Bool
needs_attention (some manual_action_required) = true
needs_attention _ = false

-- The "state" of `snapshot`.
pub snapshot : State → Summary
unfolding needs_attention
snapshot s =
    if not s.state_healthy
    then attention
    else if any (λ (k, r). needs_attention r.phase) s.jobs
    then attention
    else if any (λ (k, r). in_progress r.phase) s.jobs
    then recovering
    else quiet
