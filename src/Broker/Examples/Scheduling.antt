-- ===== src/Broker/Examples/Scheduling.antt =====
-- Concrete runs of leases, memory, circuits and paused models: app/backend/broker.py.
use studiohub_mac.Prelude.{
  ℕ, ◌≤◌, ◌<◌, ◌≡◌, ◌↔◌, refl, true, false, none, some, List, [], ◌∷◌, lookup, insert, Dict,
}
use studiohub_mac.Broker.Leases.{
  Owner, Scheduler, chat, transcription, idle, busy_machines, acquire_external_machine,
  note_external_dispatch, Call, acquires, releases, starts, run, external_dispatch_allowed,
}
use studiohub_mac.Broker.Leases.Exclusion.{holders, one_job_per_machine}
use studiohub_mac.Broker.Leases.Turns.{AllAllowed, Alternates, turns_alternate}
use studiohub_mac.Broker.Memory.{
  Requirements, Host, Handoff, Fits, memory_gate, prepare_machine_memory, memory_gate_iff,
}
use studiohub_mac.Broker.Memory.{skip, run as admitted}
use studiohub_mac.Broker.Models.{
  verified, drop_key, Row, Rows, Readiness, model_files_unavailable, find, was_blocked,
  recheck_model_protection, reopened,
}

-- Studios 1 and 2 share the machine 7.
abbrev registry : Dict ℕ
registry = (1, 7) ∷ (2, 7) ∷ []

abbrev chat_owner : Owner
chat_owner = record { name = 3; is_render = false }

abbrev other_owner : Owner
other_owner = record { name = 4; is_render = false }

abbrev calls : List Call
calls = acquires false [] 7 chat_owner ∷ starts 1 ∷ releases 7 chat_owner ∷ starts 2 ∷ starts 1 ∷ []

one_job_per_machine_example : holders 7 (busy_machines registry (run registry idle calls)) ≤ 1
one_job_per_machine_example = one_job_per_machine registry calls 7

abbrev leased : Scheduler
leased = record idle { leases = (7, chat_owner) ∷ [] }

acquired : acquire_external_machine registry false [] 7 chat_owner idle ≡ (leased, true)
unfolding acquire_external_machine insert
acquired = refl

taking_turns : AllAllowed 7 (note_external_dispatch 7 chat idle) (transcription ∷ chat ∷ [])
unfolding note_external_dispatch external_dispatch_allowed insert lookup
taking_turns = (refl, (refl, tt))

turns_alternate_example : Alternates chat (transcription ∷ chat ∷ [])
turns_alternate_example = turns_alternate 7 chat idle (transcription ∷ chat ∷ []) taking_turns

-- A model that needs a Mac of 16 GB with 4 GB free, and one Mac before and after its siblings slept.
abbrev needs : Requirements
needs = record { min_total = some 160; min_free = some 40 }

abbrev full : Host
full = record { total = 320; available = 30 }

abbrev emptied : Host
emptied = record { total = 320; available = 90 }

memory_gate_iff_example :
    ((memory_gate needs emptied 20 ≡ admitted) ↔ Fits needs emptied 20)
    × ((memory_gate needs emptied 20 ≡ skip) ↔ (320 < 160))
memory_gate_iff_example = memory_gate_iff needs emptied 20

abbrev slept : Handoff
slept = record { busy = false; released = 1; refreshed = some emptied }

handed_over : prepare_machine_memory (some needs) (some full) true 20 slept ≡ admitted
unfolding prepare_machine_memory memory_gate
handed_over = refl

-- The model 2 of the Studio 1 is paused for missing files.
abbrev paused : Row
paused = record {
  studio = 1;
  model = 2;
  revision = none;
  reason = 0;
  error_code = model_files_unavailable;
  failures = 1;
  last_failure_at = 10;
  window_started_at = 10;
  blocked = true;
  blocked_at = some 10;
}

abbrev rows : Rows
rows = paused ∷ []

is_paused : was_blocked (find 1 2 rows) ≡ true
unfolding was_blocked find
is_paused = refl

nothing_known : find 1 2 [] ≡ none
unfolding find
nothing_known = refl

abbrev ready_again : Readiness
ready_again = record {
  ready = some true;
  runtime_ready = true;
  available = true;
  cached = true;
  execution_ready = none;
}

found_paused : find 1 2 rows ≡ some paused
unfolding find
found_paused = refl

reopens : recheck_model_protection 1 2 (some ready_again) rows rows ≡ reopened []
unfolding recheck_model_protection verified find drop_key
reopens = refl
