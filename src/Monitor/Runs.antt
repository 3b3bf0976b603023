-- ===== src/Monitor/Runs.antt =====
-- The monitor at a reviewed lane, and at one whose request was lost.
use harness_single.Base.{
  String, All, List, unreadable, true, false, some, [], ◌∷◌, ◌≡◌, refl, ok, readable, arith,
}
use harness_single.Base.Json.{Json, int, pos, field, end, text, get, as_text}
use harness_single.ManagerQueue.Event.{Event, Queue, event_types, find_dedup}
use harness_single.ManagerQueue.Operations.{new_event, promote_mutate}
use harness_single.ManagerQueue.Runtime.{Runtime, read_manager_queue, promote_event}
use harness_single.Base.Text.{is_blank}
use harness_single.Review.Chain.{is_one_of, review_outcomes, has_content_hash, content_hash}
use harness_single.Review.Retry.{unpublished}
use harness_single.Review.Fixture.{
  digest, result, lane, world, meets, request, selected, is_selected, succeeds, surroundings,
}
use harness_single.Monitor.Status.{
  valid_current_result, same_text_field, is_text_with_content, is_array, lifecycle_is,
}
use harness_single.Monitor.Recovery.{
  LaneFolder, Effects, review_pair_is_valid, recover_broken_review_pair,
}
use harness_single.Monitor.Requests.{
  has_open_review_event, recover_lost_review_event, review_key, review_promotion,
}
use harness_single.Monitor.Recovered.{AreClosed, recovered_review_is_requested}
use harness_single.Monitor.Outbox.{Round, consume_outbox}
use harness_single.Monitor.Consumed.{IsKept, consumed-IsKept}
use harness_single.Monitor.Reviewed.{left_by, recoveries_leave_reviewed_lane}

abbrev effects : Effects
effects = record { review_removed = true; acceptance_removed = true; lane_written = true }

of_lane : as_text (get "lane_id" lane) ≡ some "lane-a"
unfolding get as_text
of_lane = refl

of_run : as_text (get "run_id" lane) ≡ some "run-1"
unfolding get as_text
of_run = refl

recoveries_leave_reviewed_lane_example :
    (recover_broken_review_pair digest effects "t3" lane
        (readable result)
        (left_by digest meets request world selected "lane-a" (readable lane))
      ≡ (ok false, left_by digest meets request world selected "lane-a" (readable lane)))
    × (recover_lost_review_event digest meets.env effects "epoch-1" lane
          (readable result)
          world.runtime
          (left_by digest meets request world selected "lane-a" (readable lane))
        ≡ (ok [], world.runtime, readable lane))
recoveries_leave_reviewed_lane_example =
    recoveries_leave_reviewed_lane digest meets request world selected "lane-a" "run-1" meets.env
      effects "t3" lane (readable result) world.runtime (readable lane) surroundings is_selected
      succeeds of_lane of_run

-- The queue without the request.
abbrev empty_queue : Queue
empty_queue = record { epoch_id = some "epoch-1"; queue_id = some "queue-1"; events = [] }

abbrev lost : Runtime
lost = record {
  queue_file = readable empty_queue;
  marker = readable (record { epoch_id = "epoch-1"; queue_id = some "queue-1" });
  details = [];
}

abbrev folder : LaneFolder
folder = record { lane_file = readable lane; pair = unpublished }

is_pending_lane : lifecycle_is lane ("review_pending" ∷ []) ≡ true
unfolding lifecycle_is is_one_of get as_text
is_pending_lane = refl

has_result : valid_current_result digest lane (readable result) ≡ true
unfolding valid_current_result same_text_field as_text get is_one_of review_outcomes
    is_text_with_content is_blank is_array has_content_hash content_hash
has_result = refl

has_no_pair : review_pair_is_valid digest lane folder.pair ≡ false
unfolding review_pair_is_valid
has_no_pair = refl

is_read : read_manager_queue lost ≡ ok empty_queue
unfolding read_manager_queue
is_read = refl

none_with_key : AreClosed (review_key "lane-a" "run-1" "epoch-1") empty_queue.events
unfolding find_dedup
none_with_key e h = absurd (ground arith)

abbrev new_request_event : Event
new_request_event =
    new_event "x" "t2"
      (review_promotion "lane-a" "run-1" (some (review_key "lane-a" "run-1" "epoch-1")))

returned :
    (recover_lost_review_event digest meets.env effects "epoch-1" lane
      (readable result)
      lost
      folder).0
    ≡ ok (new_request_event ∷ [])
unfolding recover_lost_review_event is_one_of as_text get valid_current_result same_text_field
    review_outcomes is_text_with_content is_blank is_array has_content_hash content_hash
    read_manager_queue promote_event event_types promote_mutate
returned = refl

recovered_review_is_requested_example :
    has_open_review_event
      (recover_lost_review_event digest meets.env effects "epoch-1" lane
        (readable result)
        lost
        folder).1
      lane
    ≡ true
recovered_review_is_requested_example =
    recovered_review_is_requested digest meets.env effects "epoch-1" lane (readable result) lost
      folder "lane-a" "run-1" empty_queue (new_request_event ∷ []) is_pending_lane has_result
      has_no_pair of_lane of_run is_read none_with_key returned

-- A worker's notice, and one that cannot be read.
abbrev rounds : List Round
rounds =
    record {
      notice = record {
        stem = "n1";
        content = readable (field "summary" (text "stuck") (field "signal_id" (int (pos 3)) end));
      };
      env = meets.env;
      is_moved = true;
    }
    ∷ record {
      notice = record { stem = "n2"; content = unreadable };
      env = meets.env;
      is_moved = true;
    }
    ∷ []

-- How a value that is no text is printed.
abbrev prints : Json → String
prints v = "3"

consumed-IsKept_example :
    All
      (IsKept prints "lane-a" "run-1"
        (consume_outbox prints "lane-a" "run-1" rounds lost).0
        (consume_outbox prints "lane-a" "run-1" rounds lost).1)
      rounds
consumed-IsKept_example = consumed-IsKept prints "lane-a" "run-1" rounds lost
