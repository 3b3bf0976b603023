-- ===== src/LaneInbox/Inbox.antt =====
-- The inbox file, with the append of ROOT and the advance of the worker. Both hold the lock of the
-- file, so each is one step. `ManagerQueueError` and `ValueError` share one type of errors.
use harness_single.Base.{
  String, Bool, true, false, not, Option, none, some, List, [], ◌∷◌, ◌++◌, ◌==◌, same_option,
  if◌then◌else◌, Result, ok, err, RecordFile, missing, unreadable, readable,
}

-- ASSIGNMENT_STATES; a record read back from a file may hold any other text.
pub data State : Type 0 where
  pending acknowledged complete blocked : State
  other : String → State

pub record Step : Type 0 where
  pub state : State
  pub at : String

pub record Assignment : Type 0 where
  pub event_id : String
  pub lane_id : String
  pub run_id : String
  pub prompt : String
  pub created_at : String
  pub state : State
  pub history : List Step
  pub summary : Option String

pub record Inbox : Type 0 where
  pub lane_id : Option String
  pub run_id : Option String
  pub assignments : List Assignment

pub data InboxError : Type 0 where
  inbox_missing inbox_invalid stale_run not_found invalid_state cannot_move write_failed :
      InboxError

-- `read_lane_inbox`, and `_read_inbox` of the worker.
unfoldable pub read_inbox : RecordFile Inbox → Result InboxError Inbox
read_inbox missing = err inbox_missing
read_inbox unreadable = err inbox_invalid
read_inbox (readable inbox) = ok inbox

abbrev pub Run : Type 0 → Type 0
Run A = Result InboxError A × RecordFile Inbox

-- `atomic_write_json` replaces the file, or raises and leaves it.
unfoldable pub write_inbox : {A : Type 0} → Bool → Inbox → A → RecordFile Inbox → Run A
write_inbox writes inbox value file =
    if writes then (ok value, readable inbox) else (err write_failed, file)

-- The lane record that `append_assignment` is given.
pub record Lane : Type 0 where
  pub lane_id : String
  pub run_id : String

unfoldable pub new_assignment : String → String → Lane → String → Assignment
new_assignment id now lane prompt = record {
  event_id = id;
  lane_id = lane.lane_id;
  run_id = lane.run_id;
  prompt = prompt;
  created_at = now;
  state = pending;
  history = record { state = pending; at = now } ∷ [];
  summary = none;
}

-- `id` is the value of `new_id()`, `now` that of `iso_utc()`.
unfoldable pub append_assignment :
    Bool → String → String → Lane → String → RecordFile Inbox → Run Assignment
unfolding read_inbox new_assignment write_inbox
append_assignment writes id now lane prompt file = elim (read_inbox file) [
  | err e ↦ (err e, file)
  | ok inbox ↦
      if same_option inbox.run_id (some lane.run_id)
      then write_inbox writes
          (record inbox {
            assignments = inbox.assignments ++ new_assignment id now lane prompt ∷ [];
          })
          (new_assignment id now lane prompt) file
      else (err stale_run, file)
]

unfoldable pub find_assignment : String → List Assignment → Option Assignment
find_assignment id [] = none
find_assignment id (a ∷ rest) = if a.event_id == id then some a else find_assignment id rest

unfoldable pub update_assignment :
    String → (Assignment → Assignment) → List Assignment → List Assignment
update_assignment id f [] = []
update_assignment id f (a ∷ rest) =
    if a.event_id == id then f a ∷ rest else a ∷ update_assignment id f rest

-- The commands of the helper.
pub data Command : Type 0 where
  acknowledge_command complete_command block_command : Command

unfoldable pub new_state : Command → State
new_state acknowledge_command = acknowledged
new_state complete_command = complete
new_state block_command = blocked

-- `new_state in _ALLOWED_TRANSITIONS[current]`
unfoldable pub is_allowed : State → Command → Bool
is_allowed pending acknowledge_command = true
is_allowed acknowledged complete_command = true
is_allowed acknowledged block_command = true
is_allowed _ _ = false

unfoldable pub is_known : State → Bool
is_known (other name) = false
is_known _ = true

-- `if summary is not None: assignment["summary"] = summary`
unfoldable pub set_state : State → String → Option String → Assignment → Assignment
set_state s now summary a = record a {
  state = s;
  history = a.history ++ record { state = s; at = now } ∷ [];
  summary = elim summary [ none ↦ a.summary | some text ↦ some text ];
}

unfoldable pub advance :
    String → Command → String → Option String → Inbox → Result InboxError (Assignment × Inbox)
unfolding find_assignment update_assignment new_state is_allowed is_known set_state
advance id command now summary inbox = elim (find_assignment id inbox.assignments) [
  | none ↦ err not_found
  | some a ↦
      if not (is_known a.state)
      then err invalid_state
      else if is_allowed a.state command
      then ok (
        set_state (new_state command) now summary a,
        record inbox {
          assignments =
              update_assignment id (set_state (new_state command) now summary) inbox.assignments;
        },
      )
      else err cannot_move
]

-- `_run` of the helper; the binding gives the path of the inbox.
unfoldable pub run_command :
    Bool → String → Command → String → Option String → RecordFile Inbox → Run Assignment
unfolding read_inbox advance write_inbox
run_command writes id command now summary file = elim (read_inbox file) [
  | err e ↦ (err e, file)
  | ok inbox ↦ elim (advance id command now summary inbox) [
    | err e ↦ (err e, file)
    | ok (a, changed) ↦ write_inbox writes changed a file
  ]
]
