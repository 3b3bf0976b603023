-- ===== src/Watch/Examples.antt =====
-- Two watches of one session on a queue with one event, and the theorems at them.
use harness_single.Base.{
  String, true, false, List, [], ◌∷◌, ◌≡◌, ◌≢◌, ◌↔◌, refl, some, none, missing, readable,
}
use harness_single.Base.Json.{
  Fields, field, end, text, boolean, as_text, get, is_true, as_pid, as_object,
}
use harness_single.Processes.{ProcessTable, identity_matches}
use harness_single.ManagerQueue.Event.{pending, Event}
use harness_single.ManagerQueue.Operations.{entry, watch_mutate}
use harness_single.ManagerQueue.Runtime.{
  Runtime, append_watch_delivery, read_manager_queue, header_matches, finish,
}
use harness_single.ManagerQueue.Calls.{run}
use harness_single.Monitor.Status.{
  review_pending, derive_lane_status, lifecycle_is, accepted_status, launched_status, has_text,
  controller_alive, terminal_status,
}
use harness_single.Review.Chain.{is_one_of}
use harness_single.Monitor.Orphans.{Orphan}
use harness_single.Watch.Snapshot.{
  LaneEntry, find_actionable, first_actionable, lane_snapshot, IsQuiet, find_actionable-agrees,
}
use harness_single.Watch.Loop.{
  Visit, Watch, waiting, event_present, watch, deliver, deliver_event, watch_event,
  first_undelivered, settle, is_past, is_requested,
}
use harness_single.Watch.Ending.{any_past, watch_ends, watch_reports_once}

abbrev digest : Fields → String
digest r = "d1"

abbrev quiet : ProcessTable
quiet = record { alive = λ pid. false; creation_time = λ pid. none }

abbrev open_event : Event
open_event = record {
  event_id = "e1";
  kind = "LANE_STATUS_CHANGED";
  lane_id = "lane-a";
  run_id = "run-1";
  summary = "look";
  state = pending;
  history = entry pending "t1" ∷ [];
  delivery_history = [];
  actionable_status = none;
  event_class = none;
  severity = none;
  payload = [];
  dedup_key = none;
}

abbrev start : Runtime
start = record {
  queue_file =
      readable
        (record { epoch_id = some "epoch-1"; queue_id = some "queue-1"; events = open_event ∷ [] });
  marker = readable (record { epoch_id = "epoch-1"; queue_id = some "queue-1" });
  details = [];
}

abbrev visit : Visit
visit = record {
  before = [];
  env = record {
    now = "t2";
    fresh_id = "x";
    write_succeeds = true;
    detail_succeeds = true;
    log_view = λ rt. rt;
  };
  orphans = [];
  entries = record { lane_id = "lane-a"; read = none } ∷ [];
  now = 9;
}

abbrev session_watch : Watch
session_watch = record {
  managed = true;
  session = "session-1";
  binding = "root";
  requested = none;
  deadline = some 5;
}

reported : (watch digest quiet session_watch (visit ∷ []) start).0 ≡ event_present "e1"
unfolding watch deliver deliver_event watch_event first_undelivered settle is_past is_requested
    find_actionable first_actionable append_watch_delivery watch_mutate read_manager_queue
    header_matches finish run
reported = refl

-- A later watch of the session, which waits for that event and for longer.
abbrev later_watch : Watch
later_watch = record {
  managed = true;
  session = "session-1";
  binding = "root";
  requested = some "e1";
  deadline = some 60;
}

watch_reports_once_example :
    (watch digest quiet later_watch
      (visit ∷ visit ∷ [])
      (run [] (watch digest quiet session_watch (visit ∷ []) start).1)).0
    ≢ event_present "e1"
watch_reports_once_example =
    watch_reports_once digest quiet quiet session_watch later_watch refl refl (visit ∷ [])
      (visit ∷ visit ∷ []) [] start "e1" reported

visit_past : any_past session_watch.deadline (visit ∷ []) ≡ true
unfolding any_past is_past
visit_past = refl

watch_ends_example : (watch digest quiet session_watch (visit ∷ []) start).0 ≢ waiting
watch_ends_example = watch_ends digest quiet session_watch (visit ∷ []) start visit_past

abbrev no_orphans : List Orphan
no_orphans = []

-- A lane that cannot be read, and one that awaits its review.
abbrev entries : List LaneEntry
entries =
    record { lane_id = "lane-a"; read = none }
    ∷ record {
      lane_id = "lane-b";
      read = some (record {
        lane = field "lane_id" (text "lane-b") (field "lifecycle" (text "running") end);
        status = some (
            field "recorded_status" (text "review_pending")
              (field "cleanup_proven" (boolean true) end));
        acceptance = none;
        result = missing;
      });
    }
    ∷ []

found : find_actionable digest quiet no_orphans entries ≡ some ("lane-b", review_pending)
unfolding find_actionable derive_lane_status lifecycle_is is_one_of as_text get accepted_status
    is_true launched_status has_text controller_alive identity_matches as_pid as_object
    terminal_status
found = refl

find_actionable-agrees_example :
    (find_actionable digest quiet no_orphans entries ≡ none)
    ↔ ((no_orphans ≡ []) × IsQuiet digest quiet (lane_snapshot digest quiet no_orphans entries))
find_actionable-agrees_example = find_actionable-agrees digest quiet no_orphans entries
