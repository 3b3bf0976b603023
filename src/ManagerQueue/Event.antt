-- ===== src/ManagerQueue/Event.antt =====
-- The data of orchestrator_harness/manager_queue.py: events, their states and their receipts.
use harness_single.Base.{
  String, Bool, true, false, Option, none, some, List, [], ◌∷◌, ◌==◌, ◌&&◌, same_option,
  if◌then◌else◌, Result,
}

-- EVENT_STATES; a record read back from a file may hold any other text.
pub data State : Type 0 where
  pending acknowledged complete blocked : State
  other : String → State

unfoldable pub is_pending : State → Bool
is_pending pending = true
is_pending _ = false

-- `state in {"PENDING", "ACKNOWLEDGED"}`
unfoldable pub is_open : State → Bool
is_open pending = true
is_open acknowledged = true
is_open _ = false

-- `state in ("COMPLETE", "BLOCKED")`
unfoldable pub is_closed : State → Bool
is_closed complete = true
is_closed blocked = true
is_closed _ = false

pub record HistoryEntry : Type 0 where
  pub state : State
  pub at : String
  pub summary : Option String

-- The `outcome` of every receipt is "DELIVERED".
pub record Receipt : Type 0 where
  pub source : String
  pub event_id : String
  pub queue_id : Option String
  pub session_id : Option String
  pub binding_id : Option String
  pub at : String

pub record Event : Type 0 where
  pub event_id : String
  pub kind : String
  pub lane_id : String
  pub run_id : String
  pub summary : String
  pub state : State
  pub history : List HistoryEntry
  pub delivery_history : List Receipt
  pub actionable_status : Option String
  pub event_class : Option String
  pub severity : Option String
  pub payload : List (String × String)
  pub dedup_key : Option String

-- The manager queue record; its `schema` is what makes the file readable.
pub record Queue : Type 0 where
  pub epoch_id : Option String
  pub queue_id : Option String
  pub events : List Event

unfoldable pub event_types : List String
event_types =
    "COMPLETION_REVIEW_REQUIRED" ∷ "LANE_RESULT_INVALID" ∷ "LANE_RESUME_REQUIRED"
    ∷ "LANE_STATUS_CHANGED" ∷ []

unfoldable pub severities : List String
severities = "info" ∷ "warning" ∷ "error" ∷ "blocking" ∷ []

-- The codes of `ManagerQueueError`, and the `OSError` of a write that fails.
pub data QueueError : Type 0 where
  no_epoch queue_missing queue_invalid queue_replaced : QueueError
  invalid_event_type invalid_severity : QueueError
  event_not_found already_acknowledged not_acknowledged already_closed : QueueError
  invalid_outcome summary_required : QueueError
  write_failed : QueueError

abbrev pub Outcome : Type 0 → Type 0
Outcome A = Result QueueError A

-- The first event with the id, as `_find_event` returns it.
unfoldable pub find_event : String → List Event → Option Event
find_event id [] = none
find_event id (e ∷ es) = if e.event_id == id then some e else find_event id es

-- What a write through the reference that `_find_event` returned does to the list.
unfoldable pub update_event : String → (Event → Event) → List Event → List Event
update_event id f [] = []
update_event id f (e ∷ es) = if e.event_id == id then f e ∷ es else e ∷ update_event id f es

-- The first event with the deduplication key.
unfoldable pub find_dedup : String → List Event → Option Event
find_dedup key [] = none
find_dedup key (e ∷ es) = if same_option e.dedup_key (some key) then some e else find_dedup key es

-- The test of `append_watch_delivery` and `_watch_event` on one receipt.
unfoldable pub is_watch_receipt : Option String → String → String → String → Receipt → Bool
is_watch_receipt queue_id event_id session binding r =
    r.source == "watch"
    && same_option r.queue_id queue_id
    && r.event_id == event_id
    && same_option r.session_id (some session)
    && same_option r.binding_id (some binding)

unfoldable pub any_watch_receipt : Option String → String → String → String → List Receipt → Bool
any_watch_receipt q e s b [] = false
any_watch_receipt q e s b (r ∷ rs) =
    if is_watch_receipt q e s b r then true else any_watch_receipt q e s b rs
