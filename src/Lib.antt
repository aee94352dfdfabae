-- ===== src/Lib.antt =====
-- Studio Hub (app/backend/): a controller on one Mac that accepts batches of generation work, queues
-- them, and dispatches their items to the Studios of a fleet of Macs. This library models the parts
-- that decide, in functions that can be run, and leaves the parts that move bytes to arguments.
--
-- Identity: execution_identity.py. The three SQLite tables are the record `Store`; `prepare`,
--   `renew_lease` and `bind_local_batch` are functions of it and of the time, and `run` is any sequence
--   of them. An exception is an `err`, which rolls back. Replay, Fences and Lease hold the proofs.
-- Auth: auth.py. Sessions (`create_browser_session` and its kin), Throttle (`login_allowed`,
--   `record_login_failure`), Password (the owner password and the verifier of a controller) and Gate
--   (`make_middleware`, `require_exact_fleet_service_request`) with Gate.Access and Gate.Outcomes for its proofs.
-- Admission: workload_policy.py and memory_admission.py, the memory floors of a model.
-- Broker: broker.py, in eight parts that share the records of Broker.Items.
--   Memory: `_memory_gate`, `prepare_machine_memory`. Circuit: `_mark_machine_failure` and
--   `_mark_machine_success`. Models: `_mark_model_failure`, `recheck_model_protection`. Leases: who holds
--   a Mac, with the reservation of `_dispatch_loop` and the turns of two lanes; `run` is any interleaving
--   of these calls. Items: expiry, restart, recovery, cancellation and the end of a batch. Retry: what
--   `_run_item` does with a failure. Queue: `_queued_batches` and `_eligible_studios`. Dispatch: the pass of
--   `_dispatch_loop` over the workers of one batch.
-- Recovery: automatic_recovery.py. `observe`, `mark`, `_load` and the summary of `snapshot`; `observe_all`
--   is a history of readings in one run of the Hub. Policy, Watched and Restart hold the proofs.
-- Enrollment: enrollment.py, the codes by which a Mac joins a site. `run` is any sequence of calls.
--   Revoked and Rotated hold the proofs.
-- Repair: enrollment_repair_store.py, the transactions of `RepairStore`. Rows holds a row of the
--   requests and its states, Guards and Outcomes what each operation decides of its row, Store the
--   tables with `claim_next_dispatch` and `recover_scheduling_slot`, Create `create_or_adopt_batch`, and
--   Calls the public operations and any sequence of them. Phases states the protocol of a request
--   apart from the rows; Sound, Writes, Slot and Inserts show that each write follows it. Tickets and
--   Redeemed hold the proofs about `redeem`. `release_fence_after_verified_stop` of enrollment_repair.py,
--   which also writes the table and which only tests call, is not among the calls.
-- Transcription: transcription_jobs.py. The module holds a batch with its expiry, restart, cancellation,
--   retry and status; Dispatch holds the assignment of `dispatch_once` and `_run_item`, over the leases of
--   Broker.Leases. Retried, Restored, Finished and Leased hold the proofs.
-- Prelude: Boolean tests, lists, dictionaries and the stable sort that the parts share.
--
-- The broker asks Identity whether the lease of a batch has passed (`lease_expired`), admits a model by
-- the floors that Admission describes, and hands a Mac to one job at a time through Leases, which the
-- chat and transcription queues use as well. The repair store stands apart: its callers are the routes
-- and the coordinator of repairs.
--
-- Conventions. Times are seconds and memory is counted in a unit that makes the constants whole, both as
-- natural numbers; where the code subtracts, the model adds on the other side of the comparison.
-- Identifiers, hashes and messages are numbers, since the code only compares them, except where it
-- reads their characters. A Python dictionary is an association list. No function needs fuel: each
-- recursion is on a list. The retries of an item are a list of its failed attempts, each with its
-- Studio, machine, failure and time; eight that fail in transport are enough for the item to end.
-- Where a coroutine awaits between a test and an effect, what other tasks do meanwhile is an argument:
-- the worlds of a `Turn` of Transcription.Dispatch, the items that an `Offer` of Broker.Dispatch sees.
--
-- Not modelled: HTTP and JSON, the files and SQLite behind the state, worker processes, and the other
-- modules of app/backend (updates, the coordinator of repairs, chat, the ledger, the fleet registry).
-- What they answer is an argument: the hash of a payload, the parsed telemetry of a Mac, the catalog
-- entry of a model, the classification of a failure, the address that a text denotes.
pub mod Prelude
pub mod Identity
pub mod Auth
pub mod Admission
pub mod Broker
pub mod Recovery
pub mod Enrollment
pub mod Repair
pub mod Transcription
