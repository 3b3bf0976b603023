-- ===== src/LaneInbox/Examples.antt =====
-- An inbox to which ROOT assigns once, and the theorems at it.
use harness_single.Base.{true, none, some, List, [], ◌∷◌, ◌≡◌, refl, readable}
use harness_single.LaneInbox.Inbox.{
  acknowledged, Inbox, Lane, acknowledge_command, complete_command, find_assignment, is_allowed,
}
use harness_single.LaneInbox.Advancing.{Call, append_call, command_call, run, stored}
use harness_single.LaneInbox.Growth.{Grows, run-Grows}

abbrev inbox : Inbox
inbox = record { lane_id = some "lane-a"; run_id = some "run-1"; assignments = [] }

abbrev lane : Lane
lane = record { lane_id = "lane-a"; run_id = "run-1" }

-- The second completion is refused.
abbrev calls : List Call
calls =
    append_call true "e1" "t0" lane "do it"
    ∷ command_call true "e1" acknowledge_command "t1" none
    ∷ command_call true "e1" complete_command "t2" (some "done")
    ∷ command_call true "e1" complete_command "t3" none
    ∷ []

run-Grows_example : Grows (stored (readable inbox)) (stored (run calls (readable inbox)))
run-Grows_example = run-Grows calls (readable inbox)

may_complete : is_allowed acknowledged complete_command ≡ true
unfolding is_allowed
may_complete = refl

no_assignment : find_assignment "e1" inbox.assignments ≡ none
unfolding find_assignment
no_assignment = refl
