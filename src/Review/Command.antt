-- ===== src/Review/Command.antt =====
-- `run_completion_review` with the lane and the event that it selects, on the files of one runtime.
-- The reading of the configuration is left out, and so are the texts of the answer.
use harness_single.Base.{
  String, Bool, true, false, not, Option, none, some, List, [], ◌∷◌, ◌==◌, ◌&&◌, ◌||◌, same_option,
  mem_text, if◌then◌else◌, Result, ok, err, guard, ◌>>◌, ◌>>=◌, RecordFile, missing, unreadable,
  readable,
}
use Prim.Native.String.{◌++◌}
use harness_single.Base.Json.{Fields, get, as_text}
use harness_single.Base.Text.{is_blank}
use harness_single.ManagerQueue.Event.{State, acknowledged, complete, Event, find_event}
use harness_single.ManagerQueue.Runtime.{
  Runtime, Env, read_current_epoch, read_manager_queue, close_event,
}
use harness_single.Review.Chain.{approvals, review_outcomes, is_one_of}
use harness_single.Review.Source.{
  ReviewError, event_invalid, not_acknowledged, stale_source, force_reason_invalid, output_conflict,
  failed, Worktree, Finding,
}
use harness_single.Review.Publication.{
  Pair, PairWrites, Published, has_schema, replay_pair, write_pair,
}

-- The arguments of the command.
pub record ReviewRequest : Type 0 where
  pub event_id : Option String
  pub lane_id : Option String
  pub review_outcome : String
  pub approval : String
  pub review_summary : String
  pub evidence : List String
  pub force_accept : Bool
  pub force_reason : Option String

-- The lane records and the pairs are found by epoch and lane.
pub record World : Type 0 where
  pub runtime : Runtime
  pub lanes : String → String → RecordFile Fields
  pub folders : String → String → Pair

unfoldable pub read_lane : RecordFile Fields → Option Fields
unfolding has_schema
read_lane missing = none
read_lane unreadable = none
read_lane (readable r) = if has_schema "lane/v1" r then some r else none

unfoldable pub find_active_lane : World → String → Option (String × Fields)
unfolding read_lane read_current_epoch
find_active_lane world lane_id = elim (read_current_epoch world.runtime.marker) [
  | none ↦ none
  | some m ↦ elim (read_lane (world.lanes m.epoch_id lane_id)) [
    | none ↦ none
    | some lane ↦ some (m.epoch_id, lane)
  ]
]

-- A reason with text.
unfoldable pub is_reason : Option String → Bool
is_reason none = false
is_reason (some reason) = not (is_blank reason)

unfoldable pub needs_force : ReviewRequest → Bool
needs_force r = r.approval == "ACCEPTED" && not (r.review_outcome == "PASS")

unfoldable pub check_request : ReviewRequest → Result ReviewError Unit
unfolding review_outcomes approvals needs_force is_reason
check_request r = do
  guard (mem_text r.review_outcome review_outcomes) failed
  guard (mem_text r.approval approvals) failed
  guard (not (needs_force r) || r.force_accept) force_reason_invalid
  guard (not (needs_force r) || is_reason r.force_reason) force_reason_invalid

unfoldable pub finding_of : ReviewRequest → Finding
unfolding needs_force
finding_of r = record {
  review_outcome = r.review_outcome;
  review_summary = r.review_summary;
  evidence = r.evidence;
  approval = r.approval;
  force_accept_reason = if r.force_accept && needs_force r then r.force_reason else none;
}

-- The lane that is reviewed, with its epoch and the review event, if it is managed.
pub record Selected : Type 0 where
  pub epoch_id : String
  pub lane : Fields
  pub event : Option Event

unfoldable pub is_complete : State → Bool
is_complete complete = true
is_complete _ = false

unfoldable pub is_reviewable_state : State → Bool
is_reviewable_state acknowledged = true
is_reviewable_state complete = true
is_reviewable_state _ = false

unfoldable pub is_review_kind : String → Bool
is_review_kind kind = mem_text kind ("COMPLETION_REVIEW_REQUIRED" ∷ "LANE_RESULT_INVALID" ∷ [])

unfoldable pub resolve_event : World → Event → Result ReviewError Selected
unfolding is_review_kind is_reviewable_state find_active_lane
resolve_event world e = do
  guard (is_review_kind e.kind) event_invalid
  guard (is_reviewable_state e.state) not_acknowledged
  elim (find_active_lane world e.lane_id) [
    | none ↦ err failed
    | some found ↦
        if same_option (as_text (get "run_id" found.1)) (some e.run_id)
        then ok (record { epoch_id = found.0; lane = found.1; event = some e })
        else err event_invalid
  ]

unfoldable pub resolve_lane_managed : World → String → Result ReviewError Selected
unfolding resolve_event
resolve_lane_managed world id = elim (read_manager_queue world.runtime) [
  | err x ↦ err event_invalid
  | ok q ↦ elim (find_event id q.events) [
    | none ↦ err event_invalid
    | some e ↦ resolve_event world e
  ]
]

unfoldable pub select : World → ReviewRequest → Result ReviewError Selected
unfolding resolve_lane_managed find_active_lane
select world r = elim r.event_id [
  | some id ↦ resolve_lane_managed world id
  | none ↦ elim r.lane_id [
    | none ↦ err event_invalid
    | some lane_id ↦ elim (find_active_lane world lane_id) [
      | none ↦ err failed
      | some found ↦ ok (record { epoch_id = found.0; lane = found.1; event = none })
    ]
  ]
]

unfoldable pub is_there : RecordFile Fields → Bool
is_there missing = false
is_there unreadable = true
is_there (readable r) = true

-- Both files of the pair are there.
unfoldable pub has_both : Pair → Bool
unfolding is_there
has_both pair = is_there pair.review && is_there pair.acceptance

unfoldable pub is_completed : Option Event → Bool
unfolding is_complete
is_completed none = false
is_completed (some e) = is_complete e.state

unfoldable pub replay_lifecycles : Option Event → List String
replay_lifecycles none = "review_pending" ∷ "result_invalid" ∷ "accepted" ∷ []
replay_lifecycles (some e) = "review_pending" ∷ "result_invalid" ∷ "accepted" ∷ "retired" ∷ []

-- What a call meets: the writes of the pair, the surroundings of the closing of the event, and the
-- worktree of the lane.
pub record Meets : Type 0 where
  pub writes : PairWrites
  pub env : Env
  pub tree : Fields → Worktree

module _ (digest : Fields → String) where
  -- A published pair is replayed for its event, and made again to compare where there is no event.
  unfoldable pub review_again : Meets → ReviewRequest → Selected → String → Pair → Published
  unfolding replay_pair write_pair finding_of
  review_again m r s lane_id pair = elim s.event [
    | none ↦ write_pair digest m.writes (m.tree s.lane) s.lane (finding_of r) m.env.now pair
    | some e ↦ elim (as_text (get "run_id" s.lane)) [
      | none ↦ (err failed, pair)
      | some run_id ↦ (replay_pair digest (finding_of r) lane_id run_id pair, pair)
    ]
  ]

  unfoldable pub review_lane : Meets → ReviewRequest → Selected → String → Pair → Published
  unfolding review_again write_pair finding_of has_both is_completed replay_lifecycles
  review_lane m r s lane_id pair =
      if has_both pair
      then if is_one_of (replay_lifecycles s.event) (get "lifecycle" s.lane)
        then review_again m r s lane_id pair
        else (err stale_source, pair)
      else if is_completed s.event
      then (err output_conflict, pair)
      else if is_one_of ("review_pending" ∷ "result_invalid" ∷ []) (get "lifecycle" s.lane)
      then write_pair digest m.writes (m.tree s.lane) s.lane (finding_of r) m.env.now pair
      else (err stale_source, pair)

unfoldable pub close_summary : ReviewRequest → String
close_summary r = "completion review recorded: " ++ r.review_outcome ++ " / " ++ r.approval

unfoldable pub close_review :
    Env → ReviewRequest → Option Event → Runtime → Result ReviewError Unit × Runtime
unfolding is_completed close_summary
close_review env r none rt = (ok tt, rt)
close_review env r (some e) rt =
    if is_completed (some e)
    then (ok tt, rt)
    else let closed = close_event env e.event_id "COMPLETE" (some (close_summary r)) rt in
      elim closed.0 [ err x ↦ (err failed, closed.1) | ok event ↦ (ok tt, closed.1) ]

unfoldable pub put_pair : String → String → Pair → (String → String → Pair) → String → String → Pair
put_pair epoch lane pair folders e l = if e == epoch && l == lane then pair else folders e l

-- The closing of the event, if the pair is there.
unfoldable pub finish_review :
    Env → ReviewRequest → Selected → String → Published → World → Result ReviewError Unit × World
unfolding close_review put_pair
finish_review env r s lane_id published world =
    let folders' = put_pair s.epoch_id lane_id published.1 world.folders in
    elim published.0 [
      | err x ↦ (err x, record world { folders = folders' })
      | ok made ↦
          let closed = close_review env r s.event world.runtime in
          (closed.0, record world { runtime = closed.1; folders = folders' })
    ]

module _ (digest : Fields → String) where
  unfoldable pub review_selected :
      Meets → ReviewRequest → Selected → World → Result ReviewError Unit × World
  unfolding review_lane finish_review
  review_selected m r s world = elim (as_text (get "lane_id" s.lane)) [
    | none ↦ (err failed, world)
    | some lane_id ↦
        finish_review m.env r s lane_id
          (review_lane digest m r s lane_id (world.folders s.epoch_id lane_id)) world
  ]

  unfoldable pub run_completion_review :
      Meets → ReviewRequest → World → Result ReviewError Unit × World
  unfolding check_request select review_selected
  run_completion_review m r world = elim (check_request r >>= λ u. select world r) [
    | err x ↦ (err x, world)
    | ok s ↦ review_selected m r s world
  ]
