-- ===== src/Monitor/Status.antt =====
-- The status of one lane, derived from its record, its controller's status, the leases, the
-- acceptance and the process table.
use harness_single.Base.{
  zero, suc, String, Bool, true, false, not, Option, none, some, List, [], ◌∷◌, ◌&&◌, ◌||◌,
  same_option, if◌then◌else◌, RecordFile, readable,
}
use harness_single.Base.Text.{is_blank}
use harness_single.Base.Json.{
  Json, Fields, end, null, int, boolean, text, array, pos, get, as_text, as_object, is_truthy,
  is_true,
}
use harness_single.Processes.{ProcessTable, identity_matches}
use harness_single.Review.Chain.{
  has_content_hash, validate_acceptance_chain, is_one_of, review_outcomes,
}

-- ACTIONABLE_STATUSES
pub data Status : Type 0 where
  review_pending result_invalid controller_exited provider_exited_no_result : Status
  status_transcript_contradiction cleanup_unproven orphaned_lease resume_required : Status

-- `record.get(key) == "..."`
unfoldable pub has_text : String → String → Fields → Bool
has_text key value r = same_option (as_text (get key r)) (some value)

-- `a.get(key) == b.get(key)` of values that are texts or absent.
unfoldable pub same_text_field : String → Fields → Fields → Bool
same_text_field key a b = same_option (as_text (get key a)) (as_text (get key b))

-- `exit_code` is recorded, and is not 0.
unfoldable pub is_zero : Json → Bool
is_zero (int (pos n)) = elim n [ zero ↦ true | suc k ↦ false ]
is_zero (boolean b) = not b
is_zero _ = false

unfoldable pub exit_code : Fields → Option Json
exit_code status = elim (get "exit_code" (as_object (get "provider_state" status))) [
  | none ↦ none
  | some null ↦ none
  | some code ↦ some code
]

unfoldable pub is_text_with_content : Option Json → Bool
is_text_with_content (some (text s)) = not (is_blank s)
is_text_with_content _ = false

unfoldable pub is_array : Option Json → Bool
is_array (some (array items)) = true
is_array _ = false

module _ (digest : Fields → String) where
  -- The file is that at `result_path`, or RESULT.json in the worktree; readable with schema result/v1.
  unfoldable pub valid_current_result : Fields → RecordFile Fields → Bool
  valid_current_result lane (readable result) =
      same_text_field "lane_id" result lane
      && same_text_field "run_id" result lane
      && is_one_of review_outcomes (get "outcome" result)
      && is_text_with_content (get "summary" result)
      && is_array (get "evidence" result)
      && is_text_with_content (get "completed_at" result)
      && has_content_hash digest result
  valid_current_result lane f = false

  -- The two branches of `_transcript_contradicts` after the exit code is known.
  unfoldable pub transcript_contradicts : Fields → RecordFile Fields → Option Fields → Bool
  transcript_contradicts lane result none = false
  transcript_contradicts lane result (some status) = elim (exit_code status) [
    | none ↦ false
    | some code ↦
        if has_text "recorded_status" "review_pending" status && not (is_zero code)
        then not (has_text "result_state" "valid" status || valid_current_result lane result)
        else has_text "recorded_status" "result_invalid" status && is_zero code
  ]

  -- `_read_acceptance_chain` of the two files in the lane's folder.
  unfoldable pub read_acceptance_chain :
      Fields → RecordFile Fields → RecordFile Fields → Option Fields
  read_acceptance_chain lane (readable review) (readable acceptance) =
      elim (as_text (get "lane_id" lane)) [
        | none ↦ none
        | some lane_id ↦
            if validate_acceptance_chain digest review acceptance lane_id
              (as_text (get "run_id" lane))
            then some acceptance
            else none
      ]
  read_acceptance_chain lane review acceptance = none

-- The test on a lease record when no orphans are given.
unfoldable pub lease_is_orphan : ProcessTable → Fields → Fields → Bool
lease_is_orphan os lane lease =
    same_text_field "lane_id" lease lane
    && (not (same_text_field "run_id" lease lane)
        || not (identity_matches os (get "pid" lease) (get "creation_time" lease)))

unfoldable pub any_orphan : ProcessTable → Fields → List Fields → Bool
any_orphan os lane [] = false
any_orphan os lane (lease ∷ leases) =
    if lease_is_orphan os lane lease then true else any_orphan os lane leases

-- `status or {}`
abbrev pub recorded_in : Option Fields → Fields
recorded_in none = end
recorded_in (some r) = r

-- The recorded status where it is one of the two that end a run.
unfoldable pub terminal_status : Fields → Option Status
terminal_status status =
    if has_text "recorded_status" "review_pending" status
    then some review_pending
    else if has_text "recorded_status" "result_invalid" status
    then some result_invalid
    else none

unfoldable pub controller_alive : ProcessTable → Fields → Bool
controller_alive os lane =
    let process = as_object (get "process" lane) in
    identity_matches os (get "pid" process) (get "creation_time" process)

unfoldable pub lifecycle_is : Fields → List String → Bool
lifecycle_is lane names = is_one_of names (get "lifecycle" lane)

-- From a live controller on: `contradicts` is `_transcript_contradicts`.
unfoldable pub live_status : Bool → Fields → Option Status
live_status contradicts status = elim (terminal_status status) [
  | some s ↦
      if not (is_truthy (get "cleanup_proven" status))
      then some cleanup_unproven
      else if contradicts
      then some status_transcript_contradiction
      else some s
  | none ↦
      if has_text "state" "exited" (as_object (get "provider_state" status))
        && (has_text "result_state" "absent" status || has_text "result_state" "invalid" status)
      then some provider_exited_no_result
      else if contradicts
      then some status_transcript_contradiction
      else none
]

-- From the launch on, with whether the controller is alive.
unfoldable pub launched_status : Bool → Bool → Fields → Option Status
launched_status alive contradicts status =
    if has_text "recorded_status" "correction_pending" status
    then (if alive then none else some controller_exited)
    else if has_text "recorded_status" "provider_exited_no_result" status
    then some provider_exited_no_result
    else if alive
    then live_status contradicts status
    else elim (terminal_status status) [ some s ↦ some s | none ↦ some controller_exited ]

-- After the acceptance: `none` of the outer option goes on with the lane.
unfoldable pub accepted_status : Option Fields → Option (Option Status)
accepted_status none = none
accepted_status (some acceptance) =
    if has_text "approval" "ACCEPTED" acceptance
    then some none
    else if has_text "approval" "REJECTED" acceptance
    then some (some resume_required)
    else none

-- The facts that the derivation reads.
pub record Facts : Type 0 where
  pub lane : Fields
  pub status : Option Fields
  pub has_orphan : Bool
  pub acceptance : Option Fields
  pub result : RecordFile Fields

module _ (digest : Fields → String) (os : ProcessTable) where
  unfoldable pub prepared_or_launched : Facts → Option Status
  prepared_or_launched f =
      if lifecycle_is f.lane ("prepared" ∷ [])
      then none
      else if is_true (get "launch_pending" f.lane)
      then none
      else launched_status (controller_alive os f.lane)
          (transcript_contradicts digest f.lane f.result f.status) (recorded_in f.status)

  unfoldable pub derive_lane_status : Facts → Option Status
  unfolding prepared_or_launched
  derive_lane_status f =
      if lifecycle_is f.lane ("accepted" ∷ "retired" ∷ "abandoned" ∷ [])
      then none
      else if lifecycle_is f.lane ("resuming" ∷ [])
      then none
      else if f.has_orphan
      then some orphaned_lease
      else elim (accepted_status f.acceptance) [
        | some decided ↦ decided
        | none ↦ prepared_or_launched f
      ]
