-- ===== src/TaskCards/Examples.antt =====
-- A complete task card.
use harness_single.Base.{◌≡◌, ◌↔◌, ok}
use harness_single.Base.Json.{Fields, field, end, text, array, cons, nil}
use harness_single.TaskCards.Contract.{
  validate_task_card, IsTaskCard, validate_task_card-IsTaskCard,
}

abbrev card : Fields
card = field "schema" (text "project-task-card/v1") (
    field "task" (text "port") (
      field "acceptance_criteria" (array (cons (text "builds") nil)) (
        field "deliverables" (array (cons (text "patch") nil))
          (field "reason_for_acceptance_and_deliverables" (text "small") end))))

validate_task_card-IsTaskCard_example : (validate_task_card card ≡ ok tt) ↔ IsTaskCard card
validate_task_card-IsTaskCard_example = validate_task_card-IsTaskCard card
