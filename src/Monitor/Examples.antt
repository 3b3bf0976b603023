-- ===== src/Monitor/Examples.antt =====
-- A lane whose controller is gone, a lease folder, and the theorems at them.
use harness_single.Base.{
  String, true, false, [], ◌∷◌, ◌≡◌, ◌≢◌, refl, arith, some, none, missing, readable, ok, err,
  eq_iff,
}
use harness_single.Base.Json.{
  Fields, field, end, text, boolean, get, as_text, nonempty_text, as_pid, as_object, is_true,
  is_truthy,
}
use harness_single.Base.Dict.{lookup, remove}
use harness_single.Processes.{ProcessTable, identity_matches}
use harness_single.Leases.Store.{LeaseFiles, Disk, lease_record}
use harness_single.Leases.Recovery.{Resolver, force_release_lease}
use harness_single.Review.Chain.{is_one_of}
use harness_single.ManagerQueue.Event.{queue_missing, event_types}
use harness_single.ManagerQueue.Runtime.{Runtime, Env, read_manager_queue, promote_event}
use harness_single.Monitor.Status.{
  Facts, review_pending, derive_lane_status, prepared_or_launched, launched_status, accepted_status,
  terminal_status, lifecycle_is, controller_alive, transcript_contradicts, exit_code, has_text,
}
use harness_single.Monitor.Derivation.{
  IsReviewable, derive_lane_status-IsReviewable, dead_controller_is_noticed,
}
use harness_single.Monitor.Orphans.{IsReported, discover_orphaned_leases, releasable-IsReported}
use harness_single.Monitor.StatusPromotion.{promote_status, status_promotion}

abbrev digest : Fields → String
digest r = "d1"

abbrev quiet : ProcessTable
quiet = record { alive = λ pid. false; creation_time = λ pid. none }

abbrev lane : Fields
lane = field "lane_id" (text "lane-a") (field "lifecycle" (text "running") end)

abbrev finished : Fields
finished =
    field "recorded_status" (text "review_pending") (field "cleanup_proven" (boolean true) end)

abbrev facts : Facts
facts = record {
  lane = lane;
  status = some finished;
  has_orphan = false;
  acceptance = none;
  result = missing;
}

awaits_review : derive_lane_status digest quiet facts ≡ some review_pending
unfolding derive_lane_status prepared_or_launched launched_status accepted_status terminal_status
    lifecycle_is controller_alive transcript_contradicts exit_code has_text is_one_of get as_text
    as_object is_true is_truthy identity_matches as_pid
awaits_review = refl

derive_lane_status-IsReviewable_example : IsReviewable digest quiet facts
derive_lane_status-IsReviewable_example =
    derive_lane_status-IsReviewable digest quiet facts awaits_review

lifecycle_of_lane :
    (lifecycle_is lane ("accepted" ∷ "retired" ∷ "abandoned" ∷ []) ≡ false)
    × (lifecycle_is lane ("resuming" ∷ []) ≡ false)
    × (lifecycle_is lane ("prepared" ∷ []) ≡ false)
unfolding lifecycle_is is_one_of get as_text
lifecycle_of_lane = (refl, refl, refl)

not_pending : is_true (get "launch_pending" lane) ≡ false
unfolding is_true get
not_pending = refl

dead : controller_alive quiet lane ≡ false
unfolding controller_alive as_object get identity_matches as_pid
dead = refl

undecided : accepted_status none ≢ some none
unfolding accepted_status
undecided = ground arith

dead_controller_is_noticed_example : derive_lane_status digest quiet facts ≢ none
dead_controller_is_noticed_example =
    dead_controller_is_noticed digest quiet facts lifecycle_of_lane.0 lifecycle_of_lane.1
      lifecycle_of_lane.2 not_pending dead undecided

abbrev folder : LeaseFiles
folder =
    (
      "board",
      readable (
          lease_record "now" "board"
            (record { lane_id = "lane-a"; run_id = "run-1"; pid = 41; creation_time = "t41" })),
    )
    ∷ []

abbrev disk : Disk
disk = record { writes = λ p. true; unlinks = λ p. true }

abbrev no_lane : Resolver
no_lane lane_id = none

released : (force_release_lease (λ id. id) quiet disk no_lane "board" folder).0 ≡ ok tt
unfolding force_release_lease lease_record get as_text nonempty_text as_pid lookup remove
released = refl

abbrev board : String
board = "board"

named : board ≢ ""
named = ground (arith, eq_iff board "")

releasable-IsReported_example : IsReported "board" (discover_orphaned_leases quiet [] folder)
releasable-IsReported_example =
    releasable-IsReported (λ id. id) quiet disk no_lane [] "board" folder named released

abbrev no_queue : Runtime
no_queue = record { queue_file = missing; marker = missing; details = [] }

abbrev env : Env
env = record {
  now = "t";
  fresh_id = "e";
  write_succeeds = true;
  detail_succeeds = true;
  log_view = λ rt. rt;
}

unpromoted : (promote_status env "lane-a" "run-1" review_pending no_queue).0 ≡ err queue_missing
unfolding promote_status promote_event event_types status_promotion read_manager_queue
unpromoted = refl
