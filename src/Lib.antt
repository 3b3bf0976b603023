-- ===== src/Lib.antt =====
-- Verification library of the portable coding orchestrator harness (v2), the Python package
-- orchestrator_harness with its worker helpers and its optional watcher.
--
-- The harness coordinates coding workers ("lanes"). A lane's controller holds leases on exclusive
-- resources while it lives. The monitor watches lanes and promotes events into the manager queue;
-- ROOT, the persistent manager, acknowledges and closes these events, and hooks and watch commands
-- add delivery receipts to them. All of them work on JSON record files, each under a short lock.
--
-- Base: names shared by all modules, Boolean tests, results, lists, dictionaries, JSON values and
--   `str.strip`. A Python dictionary read from JSON is `Fields`, an optional text is `Option String`.
-- ManagerQueue (orchestrator_harness/manager_queue.py, with the epoch marker of
--   orchestrator_harness/epochs.py): Event has the data, Operations the `mutate` functions, Runtime
--   the transactions `promote_event`, `acknowledge_event`, `close_event`, `append_delivery_history`
--   and `append_watch_delivery` on the files of one runtime. Moves states what one transaction may
--   do, Calls has sequences of calls, and the further modules the properties of such sequences.
--   A transaction holds the queue lock from its read to its write, so it is one step, and the
--   interleavings of the writers are the sequences of calls. A write replaces the file or fails and
--   leaves it, as `atomic_write_json` does. Times and fresh ids are arguments.
--   `promote_event` reads the queue once more for the detail log, outside of the lock: what it finds
--   then is an argument (`log_view` of `Env`), and an error of that read is raised.
-- LaneInbox (`append_assignment` of orchestrator_harness/manager_queue.py, and the worker's helper
--   super-cache/workspace/.agent-workspace/lane-queue.py): the inbox of one worker, with sequences of
--   ROOT's and the worker's calls. Both take the lock of the file, so each call is one step.
-- Epochs (`open_epoch` and `close_epoch` of orchestrator_harness/epochs.py): the epoch records as
--   files, each write of which may fail.
-- Processes: the process table that orchestrator_harness/processes.py asks, with
--   `identity_matches`. It does not change during one call.
-- Leases (orchestrator_harness/leases.py): Store has acquisition and release on a folder of lease
--   files, with writes and deletions that may fail; Recovery has the forced release with its audit
--   log. The SHA-256 digest that names a lease file is a parameter, of which nothing is assumed.
-- TaskCards (`validate_task_card` of orchestrator_harness/task_cards.py): the contract of a task card.
-- Review (orchestrator_harness/review.py, with `find_active_lane` of orchestrator_harness/lanes.py):
--   Chain has `validate_acceptance_chain`, Equality the comparison of records, Source what a review is
--   about, Publication `_write_pair` and `_replay_pair` with writes that may fail, Command
--   `run_completion_review` with the closing of the event. The digest of a record is a parameter, of
--   which a theorem assumes at most that equal records have one digest and that it is not empty. Git's
--   answer and `str` of a value that is no text come with the worktree; a lane's files are found by its
--   epoch and its name.
-- Monitor (orchestrator_harness/monitor.py): Status has `derive_lane_status` with what it reads,
--   Orphans the leases whose holder is not live, StatusPromotion the event that a status becomes,
--   Recovery the removal of broken review pairs, Requests the renewal of lost review requests, Outbox
--   the notices of a worker. What Python's `str` gives for a value that is no text is a parameter.
--   The activity log and diagnostics are left out.
-- BoundedPolicy (orchestrator_harness/codex_bounded_policy.py): Segments has the scanner of command
--   chains, Launchers and Covered the lookup of the launchers that the policy covers, Guard
--   `guard_pre_tool_use` after the reading of its input. A text is the list of its code points
--   there; the scanner takes one round per character, and characters taken ahead are counted. The
--   splitting into tokens (shlex), paths and git's answers are parameters, lower case and digits are
--   those of ASCII. `bounded_policy_status` and the working directory of a command are left out.
-- Watcher (harness_watcher_implementation/state.py): Alerts has the alert file with `save_alert`,
--   `acknowledge` and `transition`, Calls sequences of them. The digest of a verdict is a parameter,
--   of which nothing is assumed.
-- Config (orchestrator_harness/config.py): Manifest has the resource manifest, Contract what it must
--   meet, Legacy the reading of the first version's configuration, Bounds the ranges of its numbers.
-- Watch (orchestrator_harness/scan_watch.py): Duration has the parsing of durations, Snapshot the
--   scan of lanes and leases, Loop `run_watch`. The list of visits is the fuel of the loop; it is
--   enough if it has a visit past the deadline. Other writers act between the visits, in any order.
-- Records (orchestrator_harness/records.py): Log has `append_jsonl` and `read_jsonl` on the text of one
--   log, Replace `_replace_with_retry`, whose fuel is the number of attempts that may follow. JSON is a
--   pair of parameters, writing and reading; that a record is written as one line in braces and read
--   back with its keys sorted is assumed.
--
-- Not modelled: processes, worktrees, git and providers, which are outside of the sources, and the
-- parts that mostly call them (controller, launch, resume, shutdown, bootstrap), the watcher's
-- reading of sessions, the release tooling and the shipped second copies of the worker helpers.
pub mod Base
pub mod ManagerQueue
pub mod LaneInbox
pub mod Epochs
pub mod Processes
pub mod Leases
pub mod TaskCards
pub mod Review
pub mod Monitor
pub mod BoundedPolicy
pub mod Watcher
pub mod Config
pub mod Watch
pub mod Records
