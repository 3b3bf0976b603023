-- ===== src/Monitor/Reviewed.antt =====
-- What the monitor does with the pair of a review.
use harness_single.Base.{
  String, Bool, true, false, not, some, List, [], ◌∷◌, ◌||◌, ◌≡◌, refl, if◌then◌else◌, Result, ok,
  RecordFile, Bool-cases, inl, inr,
}
use harness_single.Base.Json.{Fields, get, as_text}
use harness_single.ManagerQueue.Event.{Event}
use harness_single.ManagerQueue.Runtime.{Runtime, Env}
use harness_single.Review.Source.{Finding}
use harness_single.Review.Publication.{Pair}
use harness_single.Review.Honoured.{IsPublished}
use harness_single.Review.Recorded.{Surroundings, run_completion_review-IsPublished}
use harness_single.Review.Command.{
  ReviewRequest, World, Selected, Meets, is_there, run_completion_review, select, finding_of,
}
use harness_single.Monitor.Status.{valid_current_result, lifecycle_is}
use harness_single.Monitor.Recovery.{
  LaneFolder, Effects, RecoveryError, review_pair_is_valid, recover_broken_review_pair,
}
use harness_single.Monitor.Requests.{recover_lost_review_event}

last_holds :
    (a b : Bool) (first rest : Result RecoveryError (List Event) × Runtime × RecordFile Fields)
    → (if a || b || true then first else rest) ≡ first
last_holds true b first rest = refl
last_holds false true first rest = refl
last_holds false false first rest = refl

module _ (digest : Fields → String) where
  -- The folder of the lane after the review.
  abbrev pub left_by :
      Meets → ReviewRequest → World → Selected → String → RecordFile Fields → LaneFolder
  left_by m r world s lane_id lane_file = record {
    lane_file = lane_file;
    pair = (run_completion_review digest m r world).1.folders s.epoch_id lane_id;
  }

  published_is_valid :
      (f : Finding) (lane : Fields) (lane_id run_id : String) (pair : Pair)
      → IsPublished digest f lane_id run_id pair
      → as_text (get "lane_id" lane) ≡ some lane_id
      → as_text (get "run_id" lane) ≡ some run_id
      → review_pair_is_valid digest lane pair ≡ true
  unfolding review_pair_is_valid
  published_is_valid f lane lane_id run_id pair p of_lane of_run =
      rw
        (
          review_pair_is_valid, p.review_file, p.acceptance_file, of_lane, p.review_schema,
          p.acceptance_schema, of_run, p.honoured,
        )
        refl

  valid_pair_is_left :
      (x : Effects) (now : String) (lane : Fields) (result : RecordFile Fields)
      (folder : LaneFolder)
      → review_pair_is_valid digest lane folder.pair ≡ true
      → recover_broken_review_pair digest x now lane result folder ≡ (ok false, folder)
  unfolding recover_broken_review_pair
  valid_pair_is_left x now lane result folder h =
      elim (Bool-cases (is_there folder.pair.review || is_there folder.pair.acceptance)) [
        | inl there ↦ rw (recover_broken_review_pair, there, h) refl
        | inr gone ↦ rw (recover_broken_review_pair, gone) refl
      ]

  valid_pair_is_not_requested :
      (env : Env) (x : Effects) (epoch_id : String) (lane : Fields) (result : RecordFile Fields)
      (rt : Runtime) (folder : LaneFolder)
      → review_pair_is_valid digest lane folder.pair ≡ true
      → recover_lost_review_event digest env x epoch_id lane result rt folder
        ≡ (ok [], rt, folder.lane_file)
  unfolding recover_lost_review_event
  valid_pair_is_not_requested env x epoch_id lane result rt folder h =
      rw (recover_lost_review_event, h)
        (last_holds (not (lifecycle_is lane ("review_pending" ∷ [])))
          (not (valid_current_result digest lane result)) _ _)

  -- The two recoveries of the monitor leave a lane alone whose completion review succeeded:
  -- `_recover_broken_review_pair` removes nothing and `_recover_lost_review_event` requests nothing,
  -- and neither changes the pair, the lane's record or the queue. The conditions are those under which
  -- the review leaves an honoured pair; the lane's record, read again, still has its two identifiers.
  -- Nothing is said of the rest of a pass, which may go on to report a new status of the lane.
  pub recoveries_leave_reviewed_lane :
      (m : Meets) (r : ReviewRequest) (world : World) (s : Selected) (lane_id run_id : String)
      (env : Env) (x : Effects) (now : String) (lane : Fields) (result : RecordFile Fields)
      (rt : Runtime) (lane_file : RecordFile Fields)
      → Surroundings digest (m.tree s.lane) s.lane lane_id run_id
      → select world r ≡ ok s
      → (run_completion_review digest m r world).0 ≡ ok tt
      → as_text (get "lane_id" lane) ≡ some lane_id
      → as_text (get "run_id" lane) ≡ some run_id
      → (recover_broken_review_pair digest x now lane result (left_by m r world s lane_id lane_file)
          ≡ (ok false, left_by m r world s lane_id lane_file))
        × (recover_lost_review_event digest env x s.epoch_id lane result rt
              (left_by m r world s lane_id lane_file)
            ≡ (ok [], rt, lane_file))
  recoveries_leave_reviewed_lane m r world s lane_id run_id env x now lane result rt lane_file given
        chosen h of_lane of_run =
      let pair = (run_completion_review digest m r world).1.folders s.epoch_id lane_id in
      let valid : review_pair_is_valid digest lane pair ≡ true =
        published_is_valid (finding_of r) lane lane_id run_id pair
          (run_completion_review-IsPublished digest m r world s lane_id run_id given chosen h)
          of_lane of_run in
      (
        valid_pair_is_left x now lane result (left_by m r world s lane_id lane_file) valid,
        valid_pair_is_not_requested env x s.epoch_id lane result rt
            (left_by m r world s lane_id lane_file) valid,
      )
