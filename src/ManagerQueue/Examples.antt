-- ===== src/ManagerQueue/Examples.antt =====
-- Runs of the manager queue on a small runtime, and the theorems at it.
use harness_single.Base.{
  String, true, false, List, [], ◌∷◌, ◌≡◌, ◌≢◌, refl, some, none, readable, missing, ok, err, All,
  eq_iff, arith,
}
use mathlib.Core.Bool.{false≢true}
use harness_single.ManagerQueue.Event.{
  pending, acknowledged, complete, Event, Queue, queue_missing, already_acknowledged,
  already_closed, event_types,
}
use harness_single.ManagerQueue.Operations.{
  Promotion, promote_mutate, acknowledge_mutate, close_mutate, watch_mutate, delivery_mutate,
  close_request, entry,
}
use harness_single.ManagerQueue.Runtime.{
  Runtime, Env, promote_event, acknowledge_event, close_event, append_watch_delivery,
  append_delivery_history, read_manager_queue, header_matches, finish,
}
use harness_single.ManagerQueue.Calls.{Call, promote, acknowledge, close, hook_delivery, step, run}
use harness_single.ManagerQueue.Growth.{Succeeds, Evolves}
use harness_single.ManagerQueue.History.{IsLifecycle, run-Succeeds, run-IsLifecycle}
use harness_single.ManagerQueue.Dedup.{HasUniqueKeys, run-HasUniqueKeys}
use harness_single.ManagerQueue.Once.{watch_once}
use harness_single.ManagerQueue.Promotions.{promote_once}
use harness_single.ManagerQueue.Failures.{raises, IsLeft, failed_call-IsLeft}
use harness_single.ManagerQueue.Closing.{close_is_final}

abbrev at_time : String → String → Env
at_time id now = record {
  now = now;
  fresh_id = id;
  write_succeeds = true;
  detail_succeeds = true;
  log_view = λ rt. rt;
}

abbrev review : Promotion
review = record {
  event_type = "COMPLETION_REVIEW_REQUIRED";
  lane_id = "lane-a";
  run_id = "run-1";
  summary = "review";
  actionable_status = none;
  event_class = some "REVIEW_PENDING";
  severity = some "info";
  payload = [];
  dedup_key = some "lane-status:lane-a:run-1:review_pending";
}

abbrev first_event : Event
first_event = record {
  event_id = "e1";
  kind = "COMPLETION_REVIEW_REQUIRED";
  lane_id = "lane-a";
  run_id = "run-1";
  summary = "review";
  state = pending;
  history = entry pending "t1" ∷ [];
  delivery_history = [];
  actionable_status = none;
  event_class = some "REVIEW_PENDING";
  severity = some "info";
  payload = [];
  dedup_key = some "lane-status:lane-a:run-1:review_pending";
}

abbrev queue_of : List Event → Queue
queue_of events = record { epoch_id = some "epoch-1"; queue_id = some "queue-1"; events = events }

abbrev runtime_of : Queue → Runtime
runtime_of q = record {
  queue_file = readable q;
  marker = readable (record { epoch_id = "epoch-1"; queue_id = some "queue-1" });
  details = [];
}

abbrev start : Runtime
start = runtime_of (queue_of (first_event ∷ []))

abbrev calls : List (Env × Call)
calls =
    (at_time "e2" "t2", promote review)
    ∷ (at_time "e3" "t3", acknowledge "e1")
    ∷ (at_time "e4" "t4", hook_delivery "e1" "hook" none (some "session-1") none)
    ∷ (at_time "e5" "t5", close "e1" "COMPLETE" (some " done "))
    ∷ []

promoted : (promote_event (at_time "e1" "t1") review (runtime_of (queue_of []))).0 ≡ ok first_event
unfolding promote_event promote_mutate read_manager_queue header_matches finish event_types
promoted = refl

watched : (append_watch_delivery (at_time "x" "t6") "e1" "session-1" "root" start).0 ≡ ok true
unfolding append_watch_delivery watch_mutate read_manager_queue header_matches finish
watched = refl

closing : close_request "COMPLETE" (some " done ") ≡ ok (complete, "done")
unfolding close_request
closing = refl

closed_twice :
    (close_event (at_time "x" "t9") "e1" "BLOCKED" (some "no") (run calls start)).0
    ≡ err already_closed
unfolding run promote_event acknowledge_event close_event append_delivery_history promote_mutate
    close_mutate acknowledge_mutate delivery_mutate read_manager_queue header_matches finish
    event_types close_request
closed_twice = refl

run-Succeeds_example :
    (r : Queue) × ((run calls start).queue_file ≡ readable r)
    × Succeeds (queue_of (first_event ∷ [])) r
run-Succeeds_example = run-Succeeds calls start (queue_of (first_event ∷ [])) refl

run-IsLifecycle_example :
    (r : Queue) × ((run calls start).queue_file ≡ readable r) × All IsLifecycle r.events
run-IsLifecycle_example = run-IsLifecycle calls start (queue_of (first_event ∷ [])) refl (refl, tt)

one_key : HasUniqueKeys (queue_of (first_event ∷ []))
one_key key k = ground arith

run-HasUniqueKeys_example :
    (r : Queue) × ((run calls start).queue_file ≡ readable r) × HasUniqueKeys r
run-HasUniqueKeys_example = run-HasUniqueKeys calls start (queue_of (first_event ∷ [])) refl one_key

abbrev watched_start : Runtime
watched_start = (append_watch_delivery (at_time "x" "t6") "e1" "session-1" "root" start).1

watch_once_example :
    append_watch_delivery (at_time "y" "t7") "e1" "session-1" "root" (run calls watched_start)
    ≡ (ok false, run calls watched_start)
watch_once_example =
    watch_once "e1" "session-1" "root" (at_time "x" "t6") (at_time "y" "t7") calls start watched

abbrev review_key : String
review_key = "lane-status:lane-a:run-1:review_pending"

not_empty : review_key ≢ ""
not_empty h = false≢true ((eq_iff review_key "").1 h)

abbrev promoted_start : Runtime
promoted_start = (promote_event (at_time "e1" "t1") review (runtime_of (queue_of []))).1

promote_once_example :
    (e' : Event) × (promote_event (at_time "e9" "t9") review (run calls promoted_start)
      ≡ (ok e', run calls promoted_start))
    × Evolves first_event e'
unfolding event_types
promote_once_example =
    promote_once (at_time "e1" "t1") (at_time "e9" "t9") review review calls
      (runtime_of (queue_of [])) "lane-status:lane-a:run-1:review_pending" first_event not_empty
      refl refl refl promoted

-- A promotion after whose write another process has removed the queue file.
abbrev removed_after : Env
removed_after = record {
  now = "t1";
  fresh_id = "e1";
  write_succeeds = true;
  detail_succeeds = true;
  log_view = λ rt. record rt { queue_file = missing };
}

late_error : raises removed_after (promote review) (runtime_of (queue_of [])) ≡ some queue_missing
unfolding raises promote_event promote_mutate read_manager_queue header_matches finish event_types
late_error = refl

-- The event is in the queue all the same.
late_promotion :
    step removed_after (promote review) (runtime_of (queue_of []))
    ≡ runtime_of (queue_of (first_event ∷ []))
unfolding step promote_event promote_mutate read_manager_queue header_matches finish event_types
late_promotion = refl

failed_call-IsLeft_example :
    IsLeft removed_after (promote review) (runtime_of (queue_of [])) queue_missing
failed_call-IsLeft_example =
    failed_call-IsLeft removed_after (promote review) (runtime_of (queue_of [])) queue_missing
      late_error

abbrev acknowledged_start : Runtime
acknowledged_start = (acknowledge_event (at_time "x" "t2") "e1" start).1

abbrev closed_event : Event
closed_event = record first_event {
  summary = "done";
  state = complete;
  history =
      entry pending "t1"
      ∷ entry acknowledged "t2"
      ∷ record { state = complete; at = "t3"; summary = some "done" }
      ∷ [];
}

closed_once :
    (close_event (at_time "x" "t3") "e1" "COMPLETE" (some " done ") acknowledged_start).0
    ≡ ok closed_event
unfolding acknowledge_event close_event acknowledge_mutate close_mutate read_manager_queue
    header_matches finish close_request
closed_once = refl

abbrev closed_start : Runtime
closed_start = (close_event (at_time "x" "t3") "e1" "COMPLETE" (some " done ") acknowledged_start).1

close_is_final_example :
    (acknowledge_event (at_time "y" "t9") "e1" (run calls closed_start)
      ≡ (err already_acknowledged, run calls closed_start))
    × (close_event (at_time "y" "t9") "e1" "COMPLETE" (some " done ") (run calls closed_start)
        ≡ (err already_closed, run calls closed_start))
close_is_final_example =
    close_is_final (at_time "x" "t3") (at_time "y" "t9") "e1" "COMPLETE" "COMPLETE" "done" complete
      (some " done ") (some " done ") calls acknowledged_start closed_event closed_once closing
