-- ===== src/Review/Source.antt =====
-- What a completion review is about: the task card, the result and the commit of a lane's worktree,
-- and the pair of records that is made from them.
use harness_single.Base.{
  String, Bool, true, false, not, Option, none, some, List, [], ◌∷◌, ◌==◌, same_option,
  if◌then◌else◌, Result, ok, err, guard, ◌>>◌, ◌>>=◌, RecordFile, missing, unreadable, readable,
}
use harness_single.Base.Json.{
  Json, text, array, Items, nil, cons, Fields, end, field, get, as_text, nonempty_text, if_truthy,
  str_of,
}
use harness_single.Base.Text.{is_blank}
use harness_single.TaskCards.Contract.{validate_task_card}
use harness_single.Review.Chain.{content_hash, is_one_of, review_outcomes}

-- The codes of `ReviewError`. `failed` is COMPLETION_REVIEW_WRITE_FAILED, which every other exception
-- gets too.
pub data ReviewError : Type 0 where
  event_invalid not_acknowledged stale_source force_reason_invalid : ReviewError
  output_conflict failed : ReviewError

-- What is read of the worktree: the two files, the stripped output of `git rev-parse HEAD`, if git
-- returned 0, and what Python's `str` gives for a value of the files that is no text.
pub record Worktree : Type 0 where
  pub task_card : RecordFile Fields
  pub result : RecordFile Fields
  pub head : Option String
  pub str : Json → String

unfoldable pub read_task_card : Worktree → Result ReviewError Fields
unfolding validate_task_card
read_task_card w = elim w.task_card [
  | missing ↦ err stale_source
  | unreadable ↦ err stale_source
  | readable r ↦ elim (validate_task_card r) [ err x ↦ err stale_source | ok u ↦ ok r ]
]

unfoldable pub is_filled_text : Option Json → Bool
is_filled_text value = elim (as_text value) [ none ↦ false | some s ↦ not (is_blank s) ]

unfoldable pub is_list : Option Json → Bool
is_list (some (array items)) = true
is_list _ = false

module _ (digest : Fields → String) where
  unfoldable pub check_result : Fields → Fields → Result ReviewError Fields
  unfolding is_filled_text is_list
  check_result lane r = do
    guard (same_option (as_text (get "schema" r)) (some "result/v1")) stale_source
    guard (same_option (as_text (get "lane_id" r)) (as_text (get "lane_id" lane))) stale_source
    guard (same_option (as_text (get "run_id" r)) (as_text (get "run_id" lane))) stale_source
    guard (is_one_of review_outcomes (get "outcome" r)) stale_source
    guard (is_filled_text (get "summary" r)) stale_source
    guard (is_list (get "evidence" r)) stale_source
    guard (is_filled_text (get "completed_at" r)) stale_source
    guard (same_option (as_text (get "content_hash" r)) (some (content_hash digest r))) stale_source
    ok r

  unfoldable pub read_result : Worktree → Fields → Result ReviewError Fields
  unfolding check_result
  read_result w lane = elim w.result [
    | missing ↦ err stale_source
    | unreadable ↦ err stale_source
    | readable r ↦ check_result lane r
  ]

  -- `str(task_card.get("card_id") or task_card.get("id") or "")`
  unfoldable pub given_card_id : (Json → String) → Fields → String
  unfolding if_truthy str_of
  given_card_id str card = elim (if_truthy (get "card_id" card)) [
    | some v ↦ str_of str v
    | none ↦ elim (if_truthy (get "id" card)) [ some v ↦ str_of str v | none ↦ "" ]
  ]

  -- The identifier that the card gives, or else its hash.
  unfoldable pub card_id : (Json → String) → Fields → String
  unfolding given_card_id
  card_id str card =
      if given_card_id str card == "" then content_hash digest card else given_card_id str card

unfoldable pub worktree_commit : Worktree → Fields → String
worktree_commit w card = elim w.head [
  | none ↦ base_commit card
  | some s ↦ if s == "" then base_commit card else s
]
  where
    base_commit : Fields → String
    base_commit card = elim (nonempty_text (get "base_commit" card)) [ none ↦ "" | some s ↦ s ]

-- The values that both records carry.
pub record Link : Type 0 where
  pub lane_id : String
  pub run_id : String
  pub task_card_id : String
  pub task_card_hash : String
  pub result_id : String
  pub result_hash : String
  pub commit : String

-- What ROOT says: `force_accept_reason` is the one that is recorded.
pub record Finding : Type 0 where
  pub review_outcome : String
  pub review_summary : String
  pub evidence : List String
  pub approval : String
  pub force_accept_reason : Option String

unfoldable pub texts : List String → Items
texts [] = nil
texts (s ∷ rest) = cons (text s) (texts rest)

-- `record[key] = value` for a key that the record does not have: it goes to the end.
unfoldable pub add_field : String → Json → Fields → Fields
add_field key v end = field key v end
add_field key v (field k w rest) = field k w (add_field key v rest)

-- The two records without their hashes.
unfoldable pub review_fields : Finding → Link → Json → Fields
unfolding texts
review_fields f l at = field "schema" (text "completion-review/v1") (
    field "lane_id" (text l.lane_id) (
      field "run_id" (text l.run_id) (
        field "review_outcome" (text f.review_outcome) (
          field "review_summary" (text f.review_summary) (
            field "evidence" (array (texts f.evidence)) (
              field "task_card_id" (text l.task_card_id) (
                field "task_card_hash" (text l.task_card_hash) (
                  field "result_id" (text l.result_id) (
                    field "result_hash" (text l.result_hash)
                      (field "commit" (text l.commit) (field "reviewed_at" at end)))))))))))

unfoldable pub force_field : Option String → Fields
force_field none = end
force_field (some reason) = field "force_accept_reason" (text reason) end

unfoldable pub acceptance_fields : Finding → Link → String → Json → Fields
unfolding force_field
acceptance_fields f l review_ref at = field "schema" (text "orchestrator-acceptance/v1") (
    field "lane_id" (text l.lane_id) (
      field "run_id" (text l.run_id) (
        field "approval" (text f.approval) (
          field "accepted_by" (text "ROOT") (
            field "review_ref" (text review_ref) (
              field "task_card_id" (text l.task_card_id) (
                field "task_card_hash" (text l.task_card_hash) (
                  field "result_id" (text l.result_id) (
                    field "result_hash" (text l.result_hash) (
                      field "commit" (text l.commit)
                        (field "decided_at" at (force_field f.force_accept_reason))))))))))))

module _ (digest : Fields → String) where
  -- What `_write_pair` finds out before its lock; a lane without the two identifiers raises.
  unfoldable pub link_of : Worktree → Fields → Result ReviewError Link
  unfolding read_task_card read_result card_id worktree_commit content_hash
  link_of w lane = elim (as_text (get "lane_id" lane)) [
    | none ↦ err failed
    | some lane_id ↦ do
      card ← read_task_card w
      result ← read_result digest w lane
      elim (as_text (get "run_id" lane)) [
        | none ↦ err failed
        | some run_id ↦ ok (record {
          lane_id = lane_id;
          run_id = run_id;
          task_card_id = card_id digest w.str card;
          task_card_hash = content_hash digest card;
          result_id = run_id;
          result_hash = content_hash digest result;
          commit = worktree_commit w card;
        })
      ]
  ]

  -- `record["content_hash"] = content_hash(record)`
  unfoldable pub seal : Fields → Fields
  unfolding add_field content_hash
  seal r = add_field "content_hash" (text (content_hash digest r)) r

  -- The review with its hash. Setting `reviewed_at` and the hash anew in it gives the same record as
  -- making it with the other time.
  unfoldable pub made_review : Finding → Link → Json → Fields
  unfolding seal review_fields
  made_review f l at = seal (review_fields f l at)

  -- The acceptance with its hash, whose `review_ref` is the hash of the review of that time.
  unfoldable pub made_acceptance : Finding → Link → Json → Fields
  unfolding seal made_review acceptance_fields content_hash
  made_acceptance f l at =
      seal (acceptance_fields f l (content_hash digest (made_review f l at)) at)
