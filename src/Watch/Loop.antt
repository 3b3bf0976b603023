-- ===== src/Watch/Loop.antt =====
-- `run_watch`: the loop over the manager queue, the leases and the lanes. Each visit begins with the
-- calls that the other writers made since the last one; the list of visits is the fuel.
use harness_single.Base.{
  ℕ, String, Bool, true, false, not, Option, none, some, List, [], ◌∷◌, ◌==◌, ◌&&◌, if◌then◌else◌,
  leb, ok, err, ◌+◌, RecordFile,
}
use harness_single.Base.Dict.{lookup}
use harness_single.Base.Json.{Fields}
use harness_single.Processes.{ProcessTable}
use harness_single.ManagerQueue.Event.{Event, Queue, is_open, any_watch_receipt}
use harness_single.ManagerQueue.Runtime.{Runtime, Env, append_watch_delivery, read_manager_queue}
use harness_single.ManagerQueue.Calls.{Call, run}
use harness_single.Monitor.Status.{Status}
use harness_single.Monitor.Orphans.{Orphan}
use harness_single.BoundedPolicy.Codes.{Code}
use harness_single.Epochs.Store.{EpochState, Files, read_current}
use harness_single.Watch.Duration.{parse_duration}
use harness_single.Watch.Snapshot.{LaneEntry, find_actionable}

-- `_active_epoch`, without its errors.
unfoldable pub active_epoch : Files → Option (String × EpochState)
active_epoch files = elim (read_current files.marker) [
  | none ↦ none
  | some m ↦ elim (lookup m.epoch_id files.states) [
    | some (RecordFile.readable s) ↦ if s.lifecycle == "active" then some (m.epoch_id, s) else none
    | _ ↦ none
  ]
]

-- The first name that the environment sets to something.
unfoldable pub first_set : (String → Option String) → List String → String → String
first_set environ [] default = default
first_set environ (name ∷ names) default = elim (environ name) [
  | none ↦ first_set environ names default
  | some v ↦ if v == "" then first_set environ names default else v
]

-- `process` is `root-process-` with the number of the process.
unfoldable pub root_session_id : Option String → (String → Option String) → String → String
unfolding first_set
root_session_id explicit environ process = elim explicit [
  | none ↦ first_set environ session_names process
  | some s ↦ if s == "" then first_set environ session_names process else s
]
  where
    session_names : List String
    session_names =
        "HARNESS_ROOT_SESSION_ID" ∷ "HARNESS_SESSION_ID" ∷ "CODEX_THREAD_ID" ∷ "CLAUDE_SESSION_ID"
        ∷ "QWEN_SESSION_ID" ∷ []

-- `requested_event_id is not None and event_id != requested_event_id` does not hold.
unfoldable pub is_requested : Option String → String → Bool
is_requested none id = true
is_requested (some r) id = id == r

-- The loop of `_watch_event`.
unfoldable pub first_undelivered :
    Option String → String → String → Option String → List Event → Option Event
unfolding is_open is_requested any_watch_receipt
first_undelivered queue_id session binding requested [] = none
first_undelivered queue_id session binding requested (e ∷ es) =
    if is_open e.state
      && not (e.event_id == "")
      && is_requested requested e.event_id
      && not (any_watch_receipt queue_id e.event_id session binding e.delivery_history)
    then some e
    else first_undelivered queue_id session binding requested es

unfoldable pub watch_event : String → String → Option String → Queue → Option Event
unfolding first_undelivered
watch_event session binding requested q =
    first_undelivered q.queue_id session binding requested q.events

-- One visit: the calls of others before it, the surroundings of its own delivery, what it reads of
-- leases and lanes, and the clock at its end.
pub record Visit : Type 0 where
  pub before : List (Env × Call)
  pub env : Env
  pub orphans : List Orphan
  pub entries : List LaneEntry
  pub now : ℕ

-- WATCH_EVENT, WATCH_ACTIONABLE, WATCH_TIMEOUT, or no visit left.
pub data Watched : Type 0 where
  event_present : String → Watched
  actionable : String → Status → Watched
  timed_out : Watched
  waiting : Watched

-- The variables that the loop of one run of `run_watch` reads: `managed`, `session_id`,
-- `watch_binding_id`, `until_event` and `deadline`, which `start_watch` computes.
pub record Watch : Type 0 where
  pub managed : Bool
  pub session : String
  pub binding : String
  pub requested : Option String
  pub deadline : Option ℕ

-- The delivery of the first undelivered event; an exception is taken as no event, or no delivery.
unfoldable pub deliver_event : Watch → Env → Runtime → Event → Option String × Runtime
deliver_event w env rt e =
    let d = append_watch_delivery env e.event_id w.session w.binding rt in
    elim d.0 [
      | ok delivered ↦ ((if delivered then some e.event_id else none), d.1)
      | err x ↦ (none, d.1)
    ]

unfoldable pub deliver : Watch → Env → Runtime → Option String × Runtime
unfolding watch_event deliver_event
deliver w env rt =
    if w.managed
    then elim (read_manager_queue rt) [
      | err x ↦ (none, rt)
      | ok q ↦ elim (watch_event w.session w.binding w.requested q) [
        | none ↦ (none, rt)
        | some e ↦ deliver_event w env rt e
      ]
    ]
    else (none, rt)

-- `deadline is not None and time.monotonic() >= deadline`
unfoldable pub is_past : Option ℕ → ℕ → Bool
is_past none now = false
is_past (some d) now = leb d now

-- What a visit returns, or else the rest of the loop: a delivered event comes first, then a finding,
-- then the deadline.
unfoldable pub settle :
    Option String
    → Option (String × Status)
    → Bool
    → Runtime
    → Watched × Runtime
    → Watched × Runtime
settle (some id) found past rt rest = (event_present id, rt)
settle none (some found) past rt rest = (actionable found.0 found.1, rt)
settle none none true rt rest = (timed_out, rt)
settle none none false rt rest = rest

module _ (digest : Fields → String) (os : ProcessTable) (w : Watch) where
  unfoldable pub watch : List Visit → Runtime → Watched × Runtime
  unfolding deliver find_actionable is_past settle
  watch [] rt = (waiting, rt)
  watch (v ∷ visits) rt =
      let d = deliver w v.env (run v.before rt) in
      let rest = watch visits d.1 in
      settle d.0 (find_actionable digest os v.orphans v.entries) (is_past w.deadline v.now) d.1 rest

-- The checks before the loop: the watch to make, or none where `run_watch` returns WATCH_TIMEOUT at
-- once. `started` is the clock then; `binding` is the given one, or that of HARNESS_BINDING_ID.
unfoldable pub start_watch :
    Files → Option Code → Option String → String → Option String → ℕ → Option Watch
unfolding active_epoch parse_duration
start_watch files timeout requested session binding started = elim (parse_duration timeout) [
  | err x ↦ none
  | ok duration ↦ elim (active_epoch files) [
    | none ↦ none
    | some found ↦ some (record {
      managed = found.1.lane_mode == "managed";
      session = session;
      binding = elim binding [ none ↦ "root" | some b ↦ if b == "" then "root" else b ];
      requested = requested;
      deadline = elim duration [ none ↦ none | some d ↦ some (started + d) ];
    })
  ]
]
