-- ===== src/Monitor/StatusPromotion.antt =====
-- `_promote_status`: the event that a new status of a lane becomes.
use Prim.Native.String.{◌++◌ as join_text}
use harness_single.Base.{String, Option, none, some, [], ◌∷◌}
use harness_single.ManagerQueue.Event.{Event}
use harness_single.ManagerQueue.Operations.{Promotion}
use harness_single.ManagerQueue.Runtime.{Runtime, Env, Run, promote_event}
use harness_single.Monitor.Status.{
  Status, review_pending, result_invalid, controller_exited, provider_exited_no_result,
  status_transcript_contradiction, cleanup_unproven, orphaned_lease, resume_required,
}

unfoldable pub status_name : Status → String
status_name review_pending = "review_pending"
status_name result_invalid = "result_invalid"
status_name controller_exited = "controller_exited"
status_name provider_exited_no_result = "provider_exited_no_result"
status_name status_transcript_contradiction = "status_transcript_contradiction"
status_name cleanup_unproven = "cleanup_unproven"
status_name orphaned_lease = "orphaned_lease"
status_name resume_required = "resume_required"

-- `status.upper()`
unfoldable pub status_class : Status → String
status_class review_pending = "REVIEW_PENDING"
status_class result_invalid = "RESULT_INVALID"
status_class controller_exited = "CONTROLLER_EXITED"
status_class provider_exited_no_result = "PROVIDER_EXITED_NO_RESULT"
status_class status_transcript_contradiction = "STATUS_TRANSCRIPT_CONTRADICTION"
status_class cleanup_unproven = "CLEANUP_UNPROVEN"
status_class orphaned_lease = "ORPHANED_LEASE"
status_class resume_required = "RESUME_REQUIRED"

-- STATUS_TO_EVENT with its default
unfoldable pub event_type_of : Status → String
event_type_of review_pending = "COMPLETION_REVIEW_REQUIRED"
event_type_of result_invalid = "LANE_RESULT_INVALID"
event_type_of resume_required = "LANE_RESUME_REQUIRED"
event_type_of _ = "LANE_STATUS_CHANGED"

unfoldable pub status_summary : Status → String
status_summary review_pending = "lane finished with a structurally valid result; review required"
status_summary result_invalid = "lane result is missing or invalid"
status_summary resume_required = "lane was rejected; resume with a new task card"
status_summary controller_exited = "lane controller process exited before a terminal result"
status_summary provider_exited_no_result = "provider exited without producing a result"
status_summary status_transcript_contradiction =
    "recorded status contradicts the provider transcript"
status_summary cleanup_unproven = "lane result is terminal but cleanup is not proven"
status_summary orphaned_lease = "a lease is held by a dead or retired lane"

unfoldable pub status_severity : Status → String
status_severity review_pending = "info"
status_severity resume_required = "warning"
status_severity result_invalid = "error"
status_severity provider_exited_no_result = "error"
status_severity orphaned_lease = "error"
status_severity _ = "warning"

-- `status if event_type == "LANE_STATUS_CHANGED" else None`
unfoldable pub actionable_of : Status → Option String
actionable_of review_pending = none
actionable_of result_invalid = none
actionable_of resume_required = none
actionable_of controller_exited = some "controller_exited"
actionable_of provider_exited_no_result = some "provider_exited_no_result"
actionable_of status_transcript_contradiction = some "status_transcript_contradiction"
actionable_of cleanup_unproven = some "cleanup_unproven"
actionable_of orphaned_lease = some "orphaned_lease"

unfoldable pub status_key : String → String → Status → String
unfolding status_name
status_key lane_id run_id s =
    join_text "lane-status:"
      (join_text lane_id (join_text ":" (join_text run_id (join_text ":" (status_name s)))))

unfoldable pub status_promotion : String → String → Status → Promotion
unfolding status_class event_type_of status_summary status_severity actionable_of status_key
status_promotion lane_id run_id s = record {
  event_type = event_type_of s;
  lane_id = lane_id;
  run_id = run_id;
  summary = status_summary s;
  actionable_status = actionable_of s;
  event_class = some (status_class s);
  severity = some (status_severity s);
  payload = ("lane_id", lane_id) ∷ ("run_id", run_id) ∷ [];
  dedup_key = some (status_key lane_id run_id s);
}

unfoldable pub promote_status : Env → String → String → Status → Runtime → Run Event
promote_status env lane_id run_id s = promote_event env (status_promotion lane_id run_id s)
