-- ===== src/Monitor/Requests.antt =====
-- The recovery of lost review requests.
use Prim.Native.String.{◌++◌ as join_text}
use harness_single.Base.{
  String, Bool, true, false, not, Option, none, some, List, [], ◌∷◌, ◌==◌, ◌&&◌, ◌||◌, same_option,
  if◌then◌else◌, Result, ok, err, RecordFile,
}
use harness_single.Base.Json.{text, Fields, end, field, get, as_text, object}
use harness_single.ManagerQueue.Event.{Event, is_open, is_closed}
use harness_single.ManagerQueue.Operations.{Promotion}
use harness_single.ManagerQueue.Runtime.{Runtime, Env, Run, promote_event, read_manager_queue}
use harness_single.Review.Publication.{or_null}
use harness_single.Monitor.Status.{valid_current_result, lifecycle_is}
use harness_single.Monitor.Recovery.{
  LaneFolder, RecoveryError, Effects, update_lane, review_pair_is_valid, queue_error, other_error,
}

-- One round of the loop of `_has_open_review_event`.
unfoldable pub is_review_request : Fields → Event → Bool
unfolding is_open
is_review_request lane e =
    (e.kind == "COMPLETION_REVIEW_REQUIRED"
      || (e.kind == "LANE_STATUS_CHANGED"
          && same_option e.actionable_status (some "provider_exited_no_result")))
    && same_option (some e.lane_id) (as_text (get "lane_id" lane))
    && same_option (some e.run_id) (as_text (get "run_id" lane))
    && is_open e.state

unfoldable pub any_review_request : Fields → List Event → Bool
unfolding is_review_request
any_review_request lane [] = false
any_review_request lane (e ∷ es) =
    if is_review_request lane e then true else any_review_request lane es

unfoldable pub has_open_review_event : Runtime → Fields → Bool
unfolding any_review_request
has_open_review_event rt lane = elim (read_manager_queue rt) [
  | err x ↦ false
  | ok q ↦ any_review_request lane q.events
]

-- Some closed event has the key.
unfoldable pub any_closed_with : String → List Event → Bool
unfolding is_closed
any_closed_with key [] = false
any_closed_with key (e ∷ es) =
    if same_option e.dedup_key (some key) && is_closed e.state then true else any_closed_with key es

unfoldable pub review_key : String → String → String → String
review_key lane_id run_id epoch_id =
    join_text "review:"
      (join_text lane_id (join_text ":" (join_text run_id (join_text ":" epoch_id))))

unfoldable pub review_promotion : String → String → Option String → Promotion
review_promotion lane_id run_id key = record {
  event_type = "COMPLETION_REVIEW_REQUIRED";
  lane_id = lane_id;
  run_id = run_id;
  summary = "lane has a valid result and requires ROOT completion review";
  actionable_status = none;
  event_class = some "COMPLETION_REVIEW_REQUIRED";
  severity = some "info";
  payload = ("lane_id", lane_id) ∷ ("run_id", run_id) ∷ [];
  dedup_key = key;
}

-- What a recovery of a request leaves: the events that it promoted, or an error.
abbrev pub Recovered : Type 0
Recovered = Result RecoveryError (List Event) × Runtime × RecordFile Fields

unfoldable pub note_status : Effects → String → Runtime → RecordFile Fields → Recovered
unfolding update_lane
note_status x lane_id rt file =
    elim (update_lane x.lane_written lane_id
      (("last_reported_actionable_status", text "review_pending") ∷ []) file) [
        | err e ↦ (err e, rt, file)
        | ok file' ↦ (ok [], rt, file')
      ]

unfoldable pub note_request :
    Effects → String → Fields → String → Event → Runtime → RecordFile Fields → Recovered
unfolding update_lane
note_request x now lane lane_id event rt file =
    elim (update_lane x.lane_written lane_id
      ((
        "review_recovery",
        object (
            field "at" (text now) (
              field "reason" (text "missing_open_review_event") (
                field "run_id" (or_null (get "run_id" lane))
                  (field "event_id" (text event.event_id) end)))),
      )
        ∷ ("last_reported_actionable_status", text "review_pending")
        ∷ [])
      file) [ err e ↦ (err e, rt, file) | ok file' ↦ (ok (event ∷ []), rt, file') ]

unfoldable pub note_promoted :
    Effects → String → Fields → String → Run Event → RecordFile Fields → Recovered
unfolding note_request
note_promoted x now lane lane_id (err e, rt) file = (err (queue_error e), rt, file)
note_promoted x now lane lane_id (ok event, rt) file = note_request x now lane lane_id event rt file

-- `lane.get("run_id", "")`, where a run that is no text counts as missing.
unfoldable pub run_of : Fields → String
run_of lane = elim (as_text (get "run_id" lane)) [ none ↦ "" | some s ↦ s ]

unfoldable pub request_review :
    Env → Effects → String → Fields → String → Runtime → RecordFile Fields → Recovered
unfolding any_closed_with review_key review_promotion note_promoted run_of
request_review env x epoch_id lane lane_id rt file =
    let key = review_key lane_id (run_of lane) epoch_id in
    elim (read_manager_queue rt) [
      | err e ↦ (err (queue_error e), rt, file)
      | ok q ↦
          note_promoted x env.now lane lane_id
            (promote_event env
              (review_promotion lane_id (run_of lane)
                (if any_closed_with key q.events then none else some key))
              rt)
            file
    ]

module _ (digest : Fields → String) where
  unfoldable pub recover_lost_review_event :
      Env → Effects → String → Fields → RecordFile Fields → Runtime → LaneFolder → Recovered
  unfolding lifecycle_is review_pair_is_valid has_open_review_event note_status request_review
  recover_lost_review_event env x epoch_id lane result rt folder =
      if not (lifecycle_is lane ("review_pending" ∷ []))
        || not (valid_current_result digest lane result)
        || review_pair_is_valid digest lane folder.pair
      then (ok [], rt, folder.lane_file)
      else elim (as_text (get "lane_id" lane)) [
        | none ↦ (err other_error, rt, folder.lane_file)
        | some lane_id ↦
            if has_open_review_event rt lane
            then note_status x lane_id rt folder.lane_file
            else request_review env x epoch_id lane lane_id rt folder.lane_file
      ]
