-- ===== src/Review/Publication.antt =====
-- `_write_pair` and `_replay_pair`: the writing of a review and its acceptance, or the finding of the
-- pair that an earlier call has left, whole or in part.
use harness_single.Base.{
  String, Bool, true, false, Option, none, some, ◌&&◌, same_option, if◌then◌else◌, Result, ok, err,
  ◌>>=◌, RecordFile, missing, unreadable, readable,
}
use harness_single.Base.Json.{Json, null, text, array, Fields, get, as_text}
use harness_single.Review.Chain.{validate_acceptance_chain}
use harness_single.Review.Equality.{same_json, same_fields}
use harness_single.Review.Source.{
  ReviewError, output_conflict, failed, Worktree, Link, Finding, texts, link_of, made_review,
  made_acceptance,
}

-- COMPLETION_REVIEW.json and ORCHESTRATOR_ACCEPTANCE.json of one lane.
pub record Pair : Type 0 where
  pub review : RecordFile Fields
  pub acceptance : RecordFile Fields

-- Whether the writes of this call succeed; one that fails leaves the file.
pub record PairWrites : Type 0 where
  pub review_written : Bool
  pub acceptance_written : Bool

-- The two records that are returned or the error, and the files that are left.
abbrev pub Published : Type 0
Published = Result ReviewError (Fields × Fields) × Pair

unfoldable pub or_null : Option Json → Json
or_null none = null
or_null (some v) = v

unfoldable pub has_schema : String → Fields → Bool
has_schema name r = same_option (as_text (get "schema" r)) (some name)

-- `record.get(key) == value`
unfoldable pub holds : Option Json → Json → Bool
unfolding same_json
holds none v = false
holds (some w) v = same_json w v

-- `acceptance.get("force_accept_reason") == force_accept_reason`
unfoldable pub reason_agrees : Option Json → Option String → Bool
unfolding holds same_json
reason_agrees none none = true
reason_agrees none (some reason) = false
reason_agrees (some v) none = same_json v null
reason_agrees (some v) (some reason) = same_json v (text reason)

unfoldable pub write_review : PairWrites → Fields → Fields → Pair → Published
write_review w review acceptance pair =
    if w.review_written
    then (ok (review, acceptance), record pair { review = readable review })
    else (err failed, pair)

unfoldable pub write_acceptance : PairWrites → Fields → Fields → Pair → Published
write_acceptance w review acceptance pair =
    if w.acceptance_written
    then (ok (review, acceptance), record pair { acceptance = readable acceptance })
    else (err failed, pair)

module _ (digest : Fields → String) where
  unfoldable pub replays : Finding → String → String → Fields → Fields → Bool
  unfolding has_schema holds reason_agrees texts
  replays f lane_id run_id review acceptance =
      has_schema "completion-review/v1" review
      && has_schema "orchestrator-acceptance/v1" acceptance
      && validate_acceptance_chain digest review acceptance lane_id (some run_id)
      && holds (get "review_outcome" review) (text f.review_outcome)
      && holds (get "review_summary" review) (text f.review_summary)
      && holds (get "evidence" review) (array (texts f.evidence))
      && holds (get "approval" acceptance) (text f.approval)
      && reason_agrees (get "force_accept_reason" acceptance) f.force_accept_reason

  unfoldable pub replay_pair :
      Finding → String → String → Pair → Result ReviewError (Fields × Fields)
  unfolding replays
  replay_pair f lane_id run_id pair = elim pair.review [
    | missing ↦ err output_conflict
    | unreadable ↦ err output_conflict
    | readable review ↦ elim pair.acceptance [
      | missing ↦ err output_conflict
      | unreadable ↦ err output_conflict
      | readable acceptance ↦
          if replays f lane_id run_id review acceptance
          then ok (review, acceptance)
          else err output_conflict
    ]
  ]

  -- Both files are there: the pair is what this call would write at the time of the review.
  unfoldable pub confirm_pair :
      Finding → Link → Fields × Fields → Result ReviewError (Fields × Fields)
  unfolding made_review made_acceptance same_fields
  confirm_pair f l (review, acceptance) = elim (get "reviewed_at" review) [
    | none ↦ err failed
    | some at ↦
        if same_fields review (made_review digest f l at)
          && same_fields acceptance (made_acceptance digest f l at)
        then ok (review, acceptance)
        else err output_conflict
  ]

  unfoldable pub made_chain_is_valid : Finding → Link → Json → Bool
  made_chain_is_valid f l at =
      validate_acceptance_chain digest (made_review digest f l at) (made_acceptance digest f l at)
        l.lane_id (some l.run_id)

  -- Only the acceptance is there.
  unfoldable pub adopt_orphan : PairWrites → Finding → Link → Fields → Pair → Published
  unfolding made_review made_acceptance same_fields or_null has_schema made_chain_is_valid
      write_review
  adopt_orphan w f l existing pair =
      let at = or_null (get "decided_at" existing) in
      if has_schema "orchestrator-acceptance/v1" existing
        && same_fields existing (made_acceptance digest f l at)
        && made_chain_is_valid f l at
      then write_review w (made_review digest f l at) existing pair
      else (err output_conflict, pair)

  -- Only the review is there.
  unfoldable pub complete_review : PairWrites → Finding → Link → Fields → Pair → Published
  unfolding made_review made_acceptance same_fields or_null has_schema made_chain_is_valid
      write_acceptance
  complete_review w f l existing pair =
      let at = or_null (get "reviewed_at" existing) in
      if has_schema "completion-review/v1" existing
        && same_fields existing (made_review digest f l at)
        && made_chain_is_valid f l at
      then write_acceptance w (made_review digest f l at) (made_acceptance digest f l at) pair
      else (err output_conflict, pair)

  -- Neither is there: two writes, the review first.
  unfoldable pub write_fresh : PairWrites → Finding → Link → String → Pair → Published
  unfolding made_review made_acceptance write_review write_acceptance
  write_fresh w f l now pair =
      let review = made_review digest f l (text now) in
      let acceptance = made_acceptance digest f l (text now) in
      let first = write_review w review acceptance pair in
      elim first.0 [
        | err x ↦ (err x, first.1)
        | ok made ↦ write_acceptance w review acceptance first.1
      ]

  unfoldable pub publish : PairWrites → Finding → Link → String → Pair → Published
  unfolding replay_pair confirm_pair adopt_orphan complete_review write_fresh
  publish w f l now pair = elim pair.acceptance [
    | missing ↦ elim pair.review [
      | missing ↦ write_fresh w f l now pair
      | unreadable ↦ (err output_conflict, pair)
      | readable review ↦ complete_review w f l review pair
    ]
    | unreadable ↦ (err output_conflict, pair)
    | readable acceptance ↦ elim pair.review [
      | missing ↦ adopt_orphan w f l acceptance pair
      | unreadable ↦ (err output_conflict, pair)
      | readable review ↦ (replay_pair f l.lane_id l.run_id pair >>= confirm_pair f l, pair)
    ]
  ]

  unfoldable pub write_pair : PairWrites → Worktree → Fields → Finding → String → Pair → Published
  unfolding link_of publish
  write_pair w tree lane f now pair = elim (link_of digest tree lane) [
    | err x ↦ (err x, pair)
    | ok l ↦ publish w f l now pair
  ]
