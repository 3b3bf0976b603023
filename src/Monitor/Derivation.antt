-- ===== src/Monitor/Derivation.antt =====
-- What a derived status says of the lane, and that a dead controller is noticed.
use harness_single.Base.{String, Bool, true, false, none, some, [], ◌∷◌, ◌≡◌, ◌≢◌, arith}
use harness_single.Base.Json.{Fields, get, is_truthy, is_true}
use harness_single.Processes.{ProcessTable}
use harness_single.Monitor.Status.{
  review_pending, Facts, has_text, lifecycle_is, controller_alive, transcript_contradicts,
  recorded_in, terminal_status, live_status, launched_status, accepted_status, prepared_or_launched,
  derive_lane_status,
}

-- What stands behind a lane that is reported as awaiting its review.
pub record IsReviewable (digest : Fields → String) (os : ProcessTable) (f : Facts) : Type 0 where
  pub recorded : has_text "recorded_status" "review_pending" (recorded_in f.status) ≡ true
  pub no_orphan : f.has_orphan ≡ false
  pub not_finished : lifecycle_is f.lane ("accepted" ∷ "retired" ∷ "abandoned" ∷ []) ≡ false
  pub undecided : accepted_status f.acceptance ≡ none
  pub cleaned :
      controller_alive os f.lane ≡ true
      → (is_truthy (get "cleanup_proven" (recorded_in f.status)) ≡ true)
        × (transcript_contradicts digest f.lane f.result f.status ≡ false)

launched_review_pending :
    (alive contradicts : Bool) (status : Fields)
    → launched_status alive contradicts status ≡ some review_pending
    → (has_text "recorded_status" "review_pending" status ≡ true)
      × (alive ≡ true → (is_truthy (get "cleanup_proven" status) ≡ true) × (contradicts ≡ false))
unfolding launched_status live_status terminal_status
launched_review_pending alive contradicts status h =
    (ground arith, λ a. (ground arith, ground arith))

module _ (digest : Fields → String) (os : ProcessTable) (f : Facts) where
  -- The monitor reports a lane as awaiting its review only if its controller recorded that status, no
  -- lease of it is orphaned, it is not accepted, retired or abandoned and no acceptance decides it,
  -- and, while the controller lives, cleanup is proven and the transcript does not contradict it.
  pub derive_lane_status-IsReviewable :
      derive_lane_status digest os f ≡ some review_pending → IsReviewable digest os f
  unfolding derive_lane_status
  derive_lane_status-IsReviewable h =
      let reached : prepared_or_launched digest os f ≡ some review_pending =
        unfold accepted_status in ground arith in
      let launched : launched_status (controller_alive os f.lane)
            (transcript_contradicts digest f.lane f.result f.status) (recorded_in f.status)
          ≡ some review_pending =
        unfold prepared_or_launched in ground arith in
      let k = launched_review_pending _ _ _ launched in
      record {
        recorded = k.0;
        no_orphan = ground arith;
        not_finished = ground arith;
        undecided = unfold accepted_status in ground arith;
        cleaned = k.1;
      }

  dead_launched :
      (contradicts : Bool) (status : Fields) → launched_status false contradicts status ≢ none
  unfolding launched_status
  dead_launched contradicts status = ground arith

  -- A lane that is launched (its lifecycle is none of accepted, retired, abandoned, resuming and
  -- prepared, and no launch is pending), whose controller is not alive, and that no acceptance has
  -- accepted, always has an actionable status.
  pub dead_controller_is_noticed :
      lifecycle_is f.lane ("accepted" ∷ "retired" ∷ "abandoned" ∷ []) ≡ false
      → lifecycle_is f.lane ("resuming" ∷ []) ≡ false
      → lifecycle_is f.lane ("prepared" ∷ []) ≡ false
      → is_true (get "launch_pending" f.lane) ≡ false
      → controller_alive os f.lane ≡ false
      → accepted_status f.acceptance ≢ some none
      → derive_lane_status digest os f ≢ none
  unfolding derive_lane_status prepared_or_launched
  dead_controller_is_noticed a b c d dead undecided = ground (
    arith,
    dead_launched (transcript_contradicts digest f.lane f.result f.status) (recorded_in f.status),
  )
