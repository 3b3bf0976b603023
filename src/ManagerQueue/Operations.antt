-- ===== src/ManagerQueue/Operations.antt =====
-- The `mutate` functions of orchestrator_harness/manager_queue.py, each with the checks that stand
-- before its transaction: from a queue to a result, whether the queue changed, and the queue.
use harness_single.Base.{
  String, Bool, true, false, not, Option, none, some, List, [], ◌∷◌, ◌++◌, ◌==◌, ◌||◌, truthy,
  mem_text, if◌then◌else◌, ok, err, guard, ◌>>◌,
}
use harness_single.Base.Text.{strip}
use harness_single.ManagerQueue.Event.{
  State, pending, acknowledged, complete, blocked, is_pending, is_open, is_closed, HistoryEntry,
  Receipt, Event, Queue, severities, invalid_severity, event_not_found, already_acknowledged,
  not_acknowledged, already_closed, invalid_outcome, summary_required, Outcome, find_event,
  update_event, find_dedup, any_watch_receipt,
}

-- What `mutate` returns, with the record that it changed in place.
pub record Mutation (A : Type 0) : Type 0 where
  pub value : A
  pub changed : Bool
  pub queue : Queue

abbrev pub Mutate : Type 0 → Type 0
Mutate A = Queue → Outcome (Mutation A)

-- The keyword arguments of `promote_event`.
pub record Promotion : Type 0 where
  pub event_type : String
  pub lane_id : String
  pub run_id : String
  pub summary : String
  pub actionable_status : Option String
  pub event_class : Option String
  pub severity : Option String
  pub payload : List (String × String)
  pub dedup_key : Option String

-- An optional text that is stored only if it is not empty.
unfoldable pub stored : Option String → Option String
stored o = if truthy o then o else none

abbrev pub entry : State → String → HistoryEntry
entry s now = record { state = s; at = now; summary = none }

unfoldable pub new_event : String → String → Promotion → Event
unfolding stored
new_event id now p = record {
  event_id = id;
  kind = p.event_type;
  lane_id = p.lane_id;
  run_id = p.run_id;
  summary = p.summary;
  state = pending;
  history = entry pending now ∷ [];
  delivery_history = [];
  actionable_status = p.actionable_status;
  event_class = stored p.event_class;
  severity = stored p.severity;
  payload = p.payload;
  dedup_key = stored p.dedup_key;
}

-- `if dedup_key: for existing in ...`
unfoldable pub existing_event : Option String → List Event → Option Event
unfolding find_dedup
existing_event none es = none
existing_event (some key) es = if key == "" then none else find_dedup key es

unfoldable pub severity_allowed : Option String → Bool
unfolding severities
severity_allowed none = true
severity_allowed (some s) = s == "" || mem_text s severities

admit_new : String → String → Promotion → Mutate Event
unfolding new_event severity_allowed
admit_new id now p q = do
  guard (severity_allowed p.severity) invalid_severity
  ok (record {
    value = new_event id now p;
    changed = true;
    queue = record q { events = q.events ++ new_event id now p ∷ [] };
  })

-- `id` is the value of `new_id()`, `now` that of `iso_utc()`.
unfoldable pub promote_mutate : String → String → Promotion → Mutate Event
unfolding existing_event admit_new
promote_mutate id now p q = elim (existing_event p.dedup_key q.events) [
  | some e ↦ ok (record { value = e; changed = false; queue = q })
  | none ↦ admit_new id now p q
]

unfoldable pub set_state : State → String → Event → Event
set_state s now e = record e { state = s; history = e.history ++ entry s now ∷ [] }

acknowledge_found : String → String → Queue → Event → Outcome (Mutation Event)
unfolding update_event set_state is_pending
acknowledge_found id now q e = do
  guard (is_pending e.state) already_acknowledged
  ok (record {
    value = set_state acknowledged now e;
    changed = true;
    queue = record q { events = update_event id (set_state acknowledged now) q.events };
  })

unfoldable pub acknowledge_mutate : String → String → Mutate Event
unfolding find_event acknowledge_found
acknowledge_mutate now id q = elim (find_event id q.events) [
  | none ↦ err event_not_found
  | some e ↦ acknowledge_found id now q e
]

-- The outcomes that `close_event` takes.
unfoldable pub parse_outcome : String → Option State
parse_outcome outcome =
    if outcome == "COMPLETE"
    then some complete
    else if outcome == "BLOCKED"
    then some blocked
    else none

unfoldable pub set_closed : State → String → String → Event → Event
set_closed s now summary e = record e {
  state = s;
  history = e.history ++ record { state = s; at = now; summary = some summary } ∷ [];
  summary = summary;
}

close_found : State → String → String → String → Queue → Event → Outcome (Mutation Event)
unfolding update_event set_closed is_pending is_closed
close_found s now summary id q e = do
  guard (not (is_pending e.state)) not_acknowledged
  guard (not (is_closed e.state)) already_closed
  ok (record {
    value = set_closed s now summary e;
    changed = true;
    queue = record q { events = update_event id (set_closed s now summary) q.events };
  })

unfoldable pub close_mutate : State → String → String → String → Mutate Event
unfolding find_event close_found
close_mutate s now summary id q = elim (find_event id q.events) [
  | none ↦ err event_not_found
  | some e ↦ close_found s now summary id q e
]

-- `summary.strip() if isinstance(summary, str) else ""`
unfoldable pub normalized_summary : Option String → String
unfolding strip
normalized_summary none = ""
normalized_summary (some s) = strip s

-- The checks of `close_event` before its transaction: the state to close with, and the summary.
unfoldable pub close_request : String → Option String → Outcome (State × String)
unfolding parse_outcome normalized_summary
close_request outcome summary = elim (parse_outcome outcome) [
  | none ↦ err invalid_outcome
  | some s ↦ do
    guard (not (normalized_summary summary == "")) summary_required
    ok (s, normalized_summary summary)
]

unfoldable pub add_receipt : Receipt → Event → Event
add_receipt r e = record e { delivery_history = e.delivery_history ++ r ∷ [] }

-- `queue_id or record.get("queue_id")`, stored only if it is not empty.
unfoldable pub receipt_queue_id : Option String → Option String → Option String
unfolding stored
receipt_queue_id given own = if truthy given then given else stored own

unfoldable pub hook_receipt :
    String → String → String → Option String → Option String → Option String → Queue → Receipt
unfolding receipt_queue_id
hook_receipt now id source queue_id session binding q = record {
  source = source;
  event_id = id;
  queue_id = receipt_queue_id queue_id q.queue_id;
  session_id = stored session;
  binding_id = stored binding;
  at = now;
}

unfoldable pub delivery_mutate :
    String → String → String → Option String → Option String → Option String → Mutate Unit
unfolding find_event update_event add_receipt hook_receipt
delivery_mutate now id source queue_id session binding q = elim (find_event id q.events) [
  | none ↦ ok (record { value = tt; changed = false; queue = q })
  | some e ↦ ok (record {
    value = tt;
    changed = true;
    queue = record q {
      events =
          update_event id (add_receipt (hook_receipt now id source queue_id session binding q))
            q.events;
    };
  })
]

unfoldable pub watch_receipt : String → String → String → String → Queue → Receipt
watch_receipt now id session binding q = record {
  source = "watch";
  event_id = id;
  queue_id = q.queue_id;
  session_id = some session;
  binding_id = some binding;
  at = now;
}

watch_found : String → String → String → String → Queue → Event → Outcome (Mutation Bool)
unfolding is_open any_watch_receipt update_event add_receipt watch_receipt
watch_found now id session binding q e =
    if not (is_open e.state)
    then ok (record { value = false; changed = false; queue = q })
    else if any_watch_receipt q.queue_id id session binding e.delivery_history
    then ok (record { value = false; changed = false; queue = q })
    else ok (record {
      value = true;
      changed = true;
      queue = record q {
        events = update_event id (add_receipt (watch_receipt now id session binding q)) q.events;
      };
    })

unfoldable pub watch_mutate : String → String → String → String → Mutate Bool
unfolding find_event watch_found
watch_mutate now id session binding q = elim (find_event id q.events) [
  | none ↦ ok (record { value = false; changed = false; queue = q })
  | some e ↦ watch_found now id session binding q e
]
