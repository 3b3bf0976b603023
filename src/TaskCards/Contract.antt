-- ===== src/TaskCards/Contract.antt =====
-- `validate_task_card`, and the contract that it checks.
use harness_single.Base.{
  String, Bool, true, false, not, Option, none, some, ◌≡◌, ◌↔◌, refl, arith, same_option,
  same_option_iff_to, if◌then◌else◌, Result, ok, guard, ◌>>◌,
}
use harness_single.Base.Text.{is_blank}
use harness_single.Base.Json.{Json, text, array, Items, nil, cons, Fields, get, as_text}

pub data CardError : Type 0 where
  wrong_schema no_task no_acceptance_criteria no_deliverables no_reason : CardError

-- `isinstance(item, str) and item.strip()`
unfoldable pub is_filled : Json → Bool
is_filled (text s) = not (is_blank s)
is_filled _ = false

unfoldable pub is_filled_field : Option Json → Bool
unfolding is_filled
is_filled_field none = false
is_filled_field (some v) = is_filled v

unfoldable pub all_filled : Items → Bool
all_filled nil = true
all_filled (cons v rest) = if is_filled v then all_filled rest else false

-- A list that is not empty, of filled texts.
unfoldable pub is_filled_list : Option Json → Bool
unfolding all_filled
is_filled_list (some (array nil)) = false
is_filled_list (some (array (cons v rest))) = all_filled (cons v rest)
is_filled_list _ = false

unfoldable pub validate_task_card : Fields → Result CardError Unit
unfolding is_filled_field is_filled_list
validate_task_card r = do
  guard (same_option (as_text (get "schema" r)) (some "project-task-card/v1")) wrong_schema
  guard (is_filled_field (get "task" r)) no_task
  guard (is_filled_list (get "acceptance_criteria" r)) no_acceptance_criteria
  guard (is_filled_list (get "deliverables" r)) no_deliverables
  guard (is_filled_field (get "reason_for_acceptance_and_deliverables" r)) no_reason
  ok tt

-- The value is a text with something else than white space in it.
abbrev pub IsFilled : Json → Type 0
IsFilled v = (s : String) × (v ≡ text s) × (is_blank s ≡ false)

abbrev pub AllFilled : Items → Type 0
AllFilled nil = Unit
AllFilled (cons v rest) = IsFilled v × AllFilled rest

abbrev pub HasText : String → Fields → Type 0
HasText key r = (v : Json) × (get key r ≡ some v) × IsFilled v

abbrev pub HasTexts : String → Fields → Type 0
HasTexts key r =
    (first : Json) × (rest : Items) × (get key r ≡ some (array (cons first rest)))
    × AllFilled (cons first rest)

-- The contract of a task card.
pub record IsTaskCard (r : Fields) : Type 0 where
  pub schema : as_text (get "schema" r) ≡ some "project-task-card/v1"
  pub task : HasText "task" r
  pub acceptance_criteria : HasTexts "acceptance_criteria" r
  pub deliverables : HasTexts "deliverables" r
  pub reason : HasText "reason_for_acceptance_and_deliverables" r

is_filled_to : (v : Json) → is_filled v ≡ true → IsFilled v
unfolding is_filled
is_filled_to (text s) h = (s, refl, ground arith)
is_filled_to _ h = absurd (ground arith)

all_filled_to : (items : Items) → all_filled items ≡ true → AllFilled items
unfolding all_filled
all_filled_to nil h = tt
all_filled_to (cons v rest) h = (is_filled_to v (ground arith), all_filled_to rest (ground arith))

field_of_value :
    (o : Option Json) → is_filled_field o ≡ true → (v : Json) × (o ≡ some v) × IsFilled v
unfolding is_filled_field
field_of_value none h = absurd (ground arith)
field_of_value (some v) h = (v, refl, is_filled_to v h)

list_of_value :
    (o : Option Json)
    → is_filled_list o ≡ true
    → (first : Json) × (rest : Items) × (o ≡ some (array (cons first rest)))
      × AllFilled (cons first rest)
unfolding is_filled_list
list_of_value (some (array (cons v rest))) h = (v, rest, refl, all_filled_to (cons v rest) h)
list_of_value _ h = absurd (ground arith)

from_is_filled : (v : Json) → IsFilled v → is_filled v ≡ true
unfolding is_filled
from_is_filled v (s, e, b) = rw (e, is_filled, b) refl

from_all_filled : (items : Items) → AllFilled items → all_filled items ≡ true
unfolding all_filled
from_all_filled nil h = refl
from_all_filled (cons v rest) (now, later) = rw (from_is_filled v now) (from_all_filled rest later)

from_field : (key : String) (r : Fields) → HasText key r → is_filled_field (get key r) ≡ true
unfolding is_filled_field
from_field key r (v, e, f) = rw e (from_is_filled v f)

from_list : (key : String) (r : Fields) → HasTexts key r → is_filled_list (get key r) ≡ true
unfolding is_filled_list
from_list key r (first, rest, e, f) = rw e (from_all_filled (cons first rest) f)

-- A record is accepted exactly if it meets the contract: the schema, a task and a reason with text,
-- and acceptance criteria and deliverables that are lists, not empty, of such texts.
pub validate_task_card-IsTaskCard : (r : Fields) → (validate_task_card r ≡ ok tt) ↔ IsTaskCard r
unfolding validate_task_card
validate_task_card-IsTaskCard r = (
  λ h. record {
    schema =
        same_option_iff_to (as_text (get "schema" r)) (some "project-task-card/v1") (ground arith);
    task = field_of_value (get "task" r) (ground arith);
    acceptance_criteria = list_of_value (get "acceptance_criteria" r) (ground arith);
    deliverables = list_of_value (get "deliverables" r) (ground arith);
    reason = field_of_value (get "reason_for_acceptance_and_deliverables" r) (ground arith);
  },
  λ c.
      rw
        (
          c.schema,
          from_field "task" r c.task,
          from_list "acceptance_criteria" r c.acceptance_criteria,
          from_list "deliverables" r c.deliverables,
          from_field "reason_for_acceptance_and_deliverables" r c.reason,
        )
        refl,
)
