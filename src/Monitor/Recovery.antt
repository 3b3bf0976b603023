-- ===== src/Monitor/Recovery.antt =====
-- The recovery of broken review pairs.
use harness_single.Base.{
  String, Bool, true, false, not, Option, none, some, List, [], ◌∷◌, ◌==◌, ◌&&◌, ◌||◌,
  if◌then◌else◌, Result, ok, err, RecordFile, missing, unreadable, readable,
}
use harness_single.Base.Json.{Json, null, text, Fields, end, field, get, as_text, object}
use harness_single.ManagerQueue.Event.{QueueError}
use harness_single.Review.Chain.{validate_acceptance_chain}
use harness_single.Review.Publication.{Pair, has_schema, or_null}
use harness_single.Review.Command.{is_there}
use harness_single.Monitor.Status.{valid_current_result}

-- `record[key] = value`
unfoldable pub put_field : String → Json → Fields → Fields
put_field key v end = field key v end
put_field key v (field k w rest) =
    let later = put_field key v rest in if k == key then field k v rest else field k w later

-- `{**record, ...}`
unfoldable pub put_all : List (String × Json) → Fields → Fields
unfolding put_field
put_all [] r = r
put_all ((key, v) ∷ rest) r = put_all rest (put_field key v r)

-- What stands in the folder of a lane.
pub record LaneFolder : Type 0 where
  pub lane_file : RecordFile Fields
  pub pair : Pair

-- An error of the queue, or one of the file system or of a record without its identifiers.
pub data RecoveryError : Type 0 where
  queue_error : QueueError → RecoveryError
  other_error : RecoveryError

-- What succeeds of the deletions and writes of one recovery.
pub record Effects : Type 0 where
  pub review_removed : Bool
  pub acceptance_removed : Bool
  pub lane_written : Bool

-- `current` is empty if the file cannot be read.
unfoldable pub current_lane : RecordFile Fields → Fields
current_lane (readable r) = r
current_lane _ = end

unfoldable pub update_lane :
    Bool
    → String
    → List (String × Json)
    → RecordFile Fields
    → Result RecoveryError (RecordFile Fields)
unfolding put_all current_lane
update_lane written lane_id changes file =
    if written
    then ok (
        readable (
          put_field "lane_id" (text lane_id)
            (put_field "schema" (text "lane/v1") (put_all changes (current_lane file)))))
    else err other_error

-- `path.unlink()`, where a file that is not there is no error.
unfoldable pub unlink : Bool → RecordFile Fields → Option (RecordFile Fields)
unlink removed missing = some missing
unlink removed _ = if removed then some missing else none

module _ (digest : Fields → String) where
  -- A record of a lane without its identifier counts as none; the code raises there.
  unfoldable pub review_pair_is_valid : Fields → Pair → Bool
  unfolding has_schema
  review_pair_is_valid lane pair = elim pair.review [
    | missing ↦ false
    | unreadable ↦ false
    | readable review ↦ elim pair.acceptance [
      | missing ↦ false
      | unreadable ↦ false
      | readable acceptance ↦ elim (as_text (get "lane_id" lane)) [
        | none ↦ false
        | some lane_id ↦
            has_schema "completion-review/v1" review
            && has_schema "orchestrator-acceptance/v1" acceptance
            && validate_acceptance_chain digest review acceptance lane_id
                (as_text (get "run_id" lane))
      ]
    ]
  ]

  -- The lane goes back to its review if its result is valid.
  unfoldable pub reopen_lane :
      Effects
      → String
      → Fields
      → String
      → RecordFile Fields
      → LaneFolder
      → Result RecoveryError Bool × LaneFolder
  unfolding update_lane
  reopen_lane x now lane lane_id result folder =
      if valid_current_result digest lane result
      then elim (update_lane x.lane_written lane_id
          (("lifecycle", text "review_pending")
            ∷ ("last_reported_actionable_status", null)
            ∷ ("acceptance_advancement", null)
            ∷ (
              "review_recovery",
              object (
                  field "at" (text now) (
                    field "reason" (text "malformed_or_incomplete_pair_removed")
                      (field "run_id" (or_null (get "run_id" lane)) end))),
            )
            ∷ [])
          folder.lane_file) [
            | err e ↦ (err e, folder)
            | ok file ↦ (ok true, record folder { lane_file = file })
          ]
      else (ok true, folder)

  unfoldable pub remove_pair :
      Effects
      → String
      → Fields
      → String
      → RecordFile Fields
      → LaneFolder
      → Result RecoveryError Bool × LaneFolder
  unfolding unlink reopen_lane
  remove_pair x now lane lane_id result folder = elim (unlink x.review_removed folder.pair.review) [
    | none ↦ (err other_error, folder)
    | some review ↦ elim (unlink x.acceptance_removed folder.pair.acceptance) [
      | none ↦ (
        err other_error,
        record folder { pair = record { review = review; acceptance = folder.pair.acceptance } },
      )
      | some acceptance ↦
          reopen_lane x now lane lane_id result
            (record folder { pair = record { review = review; acceptance = acceptance } })
    ]
  ]

  unfoldable pub recover_broken_review_pair :
      Effects
      → String
      → Fields
      → RecordFile Fields
      → LaneFolder
      → Result RecoveryError Bool × LaneFolder
  unfolding is_there review_pair_is_valid remove_pair
  recover_broken_review_pair x now lane result folder =
      if not (is_there folder.pair.review || is_there folder.pair.acceptance)
      then (ok false, folder)
      else if review_pair_is_valid lane folder.pair
      then (ok false, folder)
      else elim (as_text (get "lane_id" lane)) [
        | none ↦ (err other_error, folder)
        | some lane_id ↦ remove_pair x now lane lane_id result folder
      ]
