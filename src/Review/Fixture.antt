-- ===== src/Review/Fixture.antt =====
-- A managed lane that awaits its review, and ROOT's request of one. The digest is a constant.
use harness_single.Base.{String, true, false, some, none, [], ◌∷◌, ◌≡◌, refl, ok, readable}
use harness_single.Base.Json.{Fields, field, end, text, array, cons, nil, get, as_text}
use harness_single.ManagerQueue.Event.{acknowledged, Event, find_event}
use harness_single.ManagerQueue.Operations.{entry, close_request, close_mutate}
use harness_single.ManagerQueue.Runtime.{read_manager_queue, close_event}
use harness_single.Base.Text.{is_blank}
use harness_single.Review.Chain.{is_one_of}
use harness_single.Review.Source.{Worktree}
use harness_single.Review.Recorded.{Surroundings}
use harness_single.Review.Retry.{unpublished}
use harness_single.Review.Command.{
  ReviewRequest, World, Selected, Meets, run_completion_review, select,
}

abbrev pub digest : Fields → String
digest r = "d1"

abbrev pub card : Fields
card = field "schema" (text "project-task-card/v1") (
    field "task" (text "port") (
      field "acceptance_criteria" (array (cons (text "builds") nil)) (
        field "deliverables" (array (cons (text "patch") nil))
          (field "reason_for_acceptance_and_deliverables" (text "small") end))))

abbrev pub result : Fields
result = field "schema" (text "result/v1") (
    field "lane_id" (text "lane-a") (
      field "run_id" (text "run-1") (
        field "outcome" (text "PASS") (
          field "summary" (text "done") (
            field "evidence" (array nil)
              (field "completed_at" (text "t0") (field "content_hash" (text "d1") end)))))))

abbrev pub tree : Worktree
tree = record {
  task_card = readable card;
  result = readable result;
  head = some "c0";
  str = λ v. "";
}

abbrev pub lane : Fields
lane = field "schema" (text "lane/v1") (
    field "lane_id" (text "lane-a")
      (field "run_id" (text "run-1") (field "lifecycle" (text "review_pending") end)))

abbrev pub review_event : Event
review_event = record {
  event_id = "e1";
  kind = "COMPLETION_REVIEW_REQUIRED";
  lane_id = "lane-a";
  run_id = "run-1";
  summary = "review it";
  state = acknowledged;
  history = entry acknowledged "t1" ∷ [];
  delivery_history = [];
  actionable_status = none;
  event_class = none;
  severity = none;
  payload = [];
  dedup_key = none;
}

abbrev pub world : World
world = record {
  runtime = record {
    queue_file = readable (record {
      epoch_id = some "epoch-1";
      queue_id = some "queue-1";
      events = review_event ∷ [];
    });
    marker = readable (record { epoch_id = "epoch-1"; queue_id = some "queue-1" });
    details = [];
  };
  lanes = λ epoch lane_id. readable lane;
  folders = λ epoch lane_id. unpublished;
}

abbrev pub meets : Meets
meets = record {
  writes = record { review_written = true; acceptance_written = true };
  env = record {
    now = "t2";
    fresh_id = "x";
    write_succeeds = true;
    detail_succeeds = true;
    log_view = λ rt. rt;
  };
  tree = λ lane. tree;
}

abbrev pub request : ReviewRequest
request = record {
  event_id = some "e1";
  lane_id = none;
  review_outcome = "PASS";
  approval = "ACCEPTED";
  review_summary = "good";
  evidence = "log" ∷ [];
  force_accept = false;
  force_reason = none;
}

abbrev pub selected : Selected
selected = record { epoch_id = "epoch-1"; lane = lane; event = some review_event }

pub is_selected : select world request ≡ ok selected
unfolding select read_manager_queue find_event as_text get
is_selected = refl

pub succeeds : (run_completion_review digest meets request world).0 ≡ ok tt
unfolding run_completion_review read_manager_queue find_event as_text get is_one_of is_blank
    close_event close_request close_mutate
succeeds = refl

pub surroundings : Surroundings digest tree lane "lane-a" "run-1"
unfolding get as_text
surroundings = record {
  canonical = λ a b h. refl;
  digests = λ r. refl;
  of_lane = refl;
  of_run = refl;
  named_lane = refl;
  named_run = refl;
  commit = "c0";
  head = refl;
  named_commit = refl;
}
