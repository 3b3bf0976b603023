-- ===== src/Review/Runs.antt =====
-- The theorems on completion reviews, at a managed lane.
use harness_single.Base.{String, true, false, none, [], ◌∷◌, ◌≡◌, refl, ok, readable}
use harness_single.Base.Json.{text}
use harness_single.Review.Chain.{approvals, review_outcomes}
use harness_single.Review.Source.{Link, Finding, made_review, made_acceptance}
use harness_single.Review.Publication.{Pair, PairWrites, publish, made_chain_is_valid}
use harness_single.Review.Published.{IsNamed, IsDecided}
use harness_single.Review.Honoured.{IsPublished}
use harness_single.Review.Recorded.{run_completion_review-IsPublished}
use harness_single.Review.Retry.{
  unpublished, interrupted_publication_completes, publication_without_commit,
}
use harness_single.Review.Final.{run, published_pair_is_final}
use harness_single.Review.Command.{World, has_both, run_completion_review, finding_of}
use harness_single.Review.Fixture.{
  digest, world, meets, request, selected, is_selected, succeeds, surroundings,
}

run_completion_review-IsPublished_example :
    IsPublished digest
      (finding_of request)
      "lane-a"
      "run-1"
      ((run_completion_review digest meets request world).1.folders "epoch-1" "lane-a")
run_completion_review-IsPublished_example =
    run_completion_review-IsPublished digest meets request world selected "lane-a" "run-1"
      surroundings is_selected succeeds

abbrev finding : Finding
finding = record {
  review_outcome = "PASS";
  review_summary = "good";
  evidence = "log" ∷ [];
  approval = "ACCEPTED";
  force_accept_reason = none;
}

abbrev link_with : String → Link
link_with commit = record {
  lane_id = "lane-a";
  run_id = "run-1";
  task_card_id = "card";
  task_card_hash = "h1";
  result_id = "run-1";
  result_hash = "h2";
  commit = commit;
}

abbrev link : Link
link = link_with "c0"

link-IsNamed : IsNamed link
link-IsNamed = record {
  lane_id = refl;
  run_id = refl;
  task_card_id = refl;
  task_card_hash = refl;
  result_id = refl;
  result_hash = refl;
  commit = refl;
}

abbrev writes_both : PairWrites
writes_both = record { review_written = true; acceptance_written = true }

abbrev writes_review : PairWrites
writes_review = record { review_written = true; acceptance_written = false }

abbrev published : Pair
published = record {
  review = readable (made_review digest finding link (text "t1"));
  acceptance = readable (made_acceptance digest finding link (text "t1"));
}

finding-IsDecided : IsDecided finding
unfolding review_outcomes approvals
finding-IsDecided = (refl, refl)

interrupted_publication_completes_example :
    publish digest writes_both finding link "t9"
      (publish digest writes_review finding link "t1" unpublished).1
    ≡ (
      ok (
        made_review digest finding link (text "t1"),
        made_acceptance digest finding link (text "t1"),
      ),
      published,
    )
interrupted_publication_completes_example =
    interrupted_publication_completes digest finding link writes_review writes_both "t1" "t9"
      link-IsNamed finding-IsDecided refl refl refl

publication_without_commit_example :
    (publish digest writes_both finding (link_with "") "t1" unpublished ≡ (
      ok (
        made_review digest finding (link_with "") (text "t1"),
        made_acceptance digest finding (link_with "") (text "t1"),
      ),
      record {
        review = readable (made_review digest finding (link_with "") (text "t1"));
        acceptance = readable (made_acceptance digest finding (link_with "") (text "t1"));
      },
    ))
    × (made_chain_is_valid digest finding (link_with "") (text "t1") ≡ false)
publication_without_commit_example =
    publication_without_commit digest finding (link_with "") writes_both "t1" refl refl refl

abbrev reviewed_world : World
reviewed_world = record world { folders = λ epoch lane_id. published }

both_are_there : has_both published ≡ true
unfolding has_both
both_are_there = refl

published_pair_is_final_example :
    (run digest ((meets, request) ∷ (meets, request) ∷ []) reviewed_world).folders "epoch-1"
      "lane-a"
    ≡ published
published_pair_is_final_example =
    published_pair_is_final digest ((meets, request) ∷ (meets, request) ∷ []) reviewed_world
      "epoch-1" "lane-a" both_are_there
