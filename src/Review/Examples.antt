-- ===== src/Review/Examples.antt =====
-- A review and an acceptance of it, and the theorem at them. The digest is a constant.
use harness_single.Base.{String, true, some, ◌≡◌, refl}
use harness_single.Base.Json.{Fields, field, end, text, get, as_text, nonempty_text}
use harness_single.Review.Chain.{
  validate_acceptance_chain, has_content_hash, content_hash, fields_agree, field_agrees,
  linked_fields, run_agrees, is_one_of, approvals, review_outcomes, IsLinked,
  validate_acceptance_chain-IsLinked,
}

abbrev digest : Fields → String
digest r = "d1"

-- The slots that both records have.
abbrev common : Fields → Fields
common rest = field "lane_id" (text "lane-a") (
    field "run_id" (text "run-1") (
      field "task_card_id" (text "card") (
        field "task_card_hash" (text "h1") (
          field "result_id" (text "r1") (
            field "result_hash" (text "h2")
              (field "commit" (text "c0") (field "content_hash" (text "d1") rest)))))))

abbrev review : Fields
review = common (field "review_outcome" (text "PASS") end)

abbrev acceptance : Fields
acceptance = common (
    field "review_ref" (text "d1")
      (field "approval" (text "ACCEPTED") (field "accepted_by" (text "root") end)))

valid : validate_acceptance_chain digest review acceptance "lane-a" (some "run-1") ≡ true
unfolding validate_acceptance_chain has_content_hash content_hash fields_agree field_agrees
    linked_fields run_agrees is_one_of approvals review_outcomes get as_text nonempty_text
valid = refl

validate_acceptance_chain-IsLinked_example :
    IsLinked digest review acceptance "lane-a" (some "run-1")
validate_acceptance_chain-IsLinked_example =
    validate_acceptance_chain-IsLinked digest review acceptance "lane-a" (some "run-1") valid
