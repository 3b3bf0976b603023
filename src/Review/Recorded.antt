-- ===== src/Review/Recorded.antt =====
-- What a completion review that succeeds leaves.
use harness_single.Base.{
  Bool-cases, String, Bool, true, false, some, ◌==◌, ◌≡◌, ◌≢◌, refl, sym, ap, ◌∙◌, subst, arith,
  eq_refl, if◌then◌else◌, Result, ok, err, Option-cases, Result-cases, inl, inr, ◌⊎◌,
}
use harness_single.Base.Json.{Fields, get, as_text}
use harness_single.Review.Chain.{content_hash}
use harness_single.Review.Equality.{IsCanonical}
use harness_single.Review.Source.{
  ReviewError, stale_source, output_conflict, Worktree, Link, Finding, read_task_card, read_result,
  given_card_id, card_id, worktree_commit, link_of,
}
use harness_single.Review.Publication.{
  Pair, PairWrites, Published, publish, replay_pair, write_pair,
}
use harness_single.Review.Published.{IsNamed, IsDecided}
use harness_single.Review.Honoured.{IsPublished, replay_pair-IsPublished, publish-IsPublished}
use harness_single.Review.Command.{
  ReviewRequest, World, Selected, Meets, has_both, review_again, review_lane, put_pair,
  finish_review, review_selected, run_completion_review, check_request, select, finding_of,
}

-- The branches of `review_lane`.
abbrev branch : Bool → Bool → Bool → Bool → Pair → Published → Published → Published
branch there replays closed pending pair again write =
    if there
    then if replays then again else (err stale_source, pair)
    else if closed
    then (err output_conflict, pair)
    else if pending
    then write
    else (err stale_source, pair)

branch_taken :
    (there replays closed pending : Bool) (pair : Pair) (again write : Published)
    (made : Fields × Fields)
    → (branch there replays closed pending pair again write).0 ≡ ok made
    → (branch there replays closed pending pair again write ≡ again)
      ⊎ (branch there replays closed pending pair again write ≡ write)
branch_taken true true closed pending pair again write made h = inl refl
branch_taken true false closed pending pair again write made h = absurd (ground arith)
branch_taken false replays true pending pair again write made h = absurd (ground arith)
branch_taken false replays false true pair again write made h = inr refl
branch_taken false replays false false pair again write made h = absurd (ground arith)

put_pair_here :
    (folders : _) (epoch lane : String) (pair : Pair)
    → put_pair epoch lane pair folders epoch lane ≡ pair
unfolding put_pair
put_pair_here folders epoch lane pair = rw (put_pair, eq_refl epoch, eq_refl lane) refl

check_request-IsDecided :
    (r : ReviewRequest) (u : Unit) → check_request r ≡ ok u → IsDecided (finding_of r)
unfolding check_request finding_of
check_request-IsDecided r u h = (ground arith, ground arith)

refused : (x : ReviewError) → Path (Result ReviewError Unit) (err x) (ok tt) → ⊥
refused x h = ground arith

no_ok : (x : ReviewError) (l : Link) → err x ≢ ok l
no_ok x l h = ground arith

ok_same : (k l : Link) → Path (Result ReviewError Link) (ok k) (ok l) → k ≡ l
ok_same k l h = ground arith

-- What the surroundings of a review give: digests are not empty and agree on equal records, the lane
-- has its two identifiers, and git knows a commit of its worktree.
pub record Surroundings (digest : Fields → String) (tree : Worktree) (lane : Fields)
    (lane_id run_id : String) : Type 0 where
  pub canonical : IsCanonical digest
  pub digests : (r : Fields) → (digest r == "") ≡ false
  pub of_lane : as_text (get "lane_id" lane) ≡ some lane_id
  pub of_run : as_text (get "run_id" lane) ≡ some run_id
  pub named_lane : (lane_id == "") ≡ false
  pub named_run : (run_id == "") ≡ false
  pub commit : String
  pub head : tree.head ≡ some commit
  pub named_commit : (commit == "") ≡ false

module _ (digest : Fields → String) (tree : Worktree) (lane : Fields) (lane_id run_id : String)
    (s : Surroundings digest tree lane lane_id run_id) where
  linked : Fields → Fields → Link
  linked card result = record {
    lane_id = lane_id;
    run_id = run_id;
    task_card_id = card_id digest tree.str card;
    task_card_hash = content_hash digest card;
    result_id = run_id;
    result_hash = content_hash digest result;
    commit = worktree_commit tree card;
  }

  card_id_named : (card : Fields) → (card_id digest tree.str card == "") ≡ false
  unfolding card_id content_hash
  card_id_named card = elim (Bool-cases (given_card_id digest tree.str card == "")) [
    | inl empty ↦ rw (card_id, empty) (s.digests _)
    | inr filled ↦ rw (card_id, filled) filled
  ]

  linked-IsNamed : (card result : Fields) → IsNamed (linked card result)
  unfolding content_hash worktree_commit linked
  linked-IsNamed card result = record {
    lane_id = s.named_lane;
    run_id = s.named_run;
    task_card_id = card_id_named card;
    task_card_hash = s.digests _;
    result_id = s.named_run;
    result_hash = s.digests _;
    commit = rw (worktree_commit, s.head, s.named_commit) s.named_commit;
  }

  link_of_shape :
      (l : Link)
      → link_of digest tree lane ≡ ok l
      → (card : Fields) × (result : Fields) × (l ≡ linked card result)
  unfolding link_of linked
  link_of_shape l h = elim (Result-cases (read_task_card tree)) [
    | inr (x, c) ↦ absurd (no_ok x l (sym (rw (link_of, s.of_lane, c) refl) ∙ h))
    | inl (card, c) ↦ elim (Result-cases (read_result digest tree lane)) [
      | inr (x, r) ↦ absurd (no_ok x l (sym (rw (link_of, s.of_lane, c, r) refl) ∙ h))
      | inl (result, r) ↦ (
        card,
        result,
        ok_same l (linked card result) (sym h ∙ rw (link_of, s.of_lane, c, r, s.of_run) refl),
      )
    ]
  ]

  write_pair-IsPublished :
      (w : PairWrites) (f : Finding) (now : String) (pair : Pair) (m : Fields × Fields)
      → IsDecided f
      → (write_pair digest w tree lane f now pair).0 ≡ ok m
      → IsPublished digest f lane_id run_id (write_pair digest w tree lane f now pair).1
  unfolding write_pair linked
  write_pair-IsPublished w f now pair m decided h = elim (Result-cases (link_of digest tree lane)) [
    | inr (x, e) ↦ absurd (ground arith)
    | inl (l, e) ↦
        let (card, result, shape) = link_of_shape l e in
        let e' : link_of digest tree lane ≡ ok (linked card result) = e ∙ ap ok shape in
        let step : write_pair digest w tree lane f now pair
            ≡ publish digest w f (linked card result) now pair =
          rw (write_pair, e') refl in
        subst (λ t. IsPublished digest f lane_id run_id t.1) (sym step)
          (publish-IsPublished digest f (linked card result) s.canonical
            (linked-IsNamed card result) decided w now pair m (ap (λ t. t.0) (sym step) ∙ h))
  ]

module _ (digest : Fields → String) (m : Meets) (r : ReviewRequest) (s : Selected)
    (lane_id run_id : String) (x : Surroundings digest (m.tree s.lane) s.lane lane_id run_id) where
  review_again-IsPublished :
      (pair : Pair) (made : Fields × Fields)
      → IsDecided (finding_of r)
      → (review_again digest m r s lane_id pair).0 ≡ ok made
      → IsPublished digest (finding_of r) lane_id run_id (review_again digest m r s lane_id pair).1
  unfolding review_again
  review_again-IsPublished pair made decided h = elim (Option-cases s.event) [
    | inl e ↦
        let step : review_again digest m r s lane_id pair
            ≡ write_pair digest m.writes (m.tree s.lane) s.lane (finding_of r) m.env.now pair =
          rw (review_again, e) refl in
        subst (λ t. IsPublished digest (finding_of r) lane_id run_id t.1) (sym step)
          (write_pair-IsPublished digest (m.tree s.lane) s.lane lane_id run_id x m.writes
            (finding_of r) m.env.now pair made decided (ap (λ t. t.0) (sym step) ∙ h))
    | inr (event, e) ↦
        let step : review_again digest m r s lane_id pair
            ≡ (replay_pair digest (finding_of r) lane_id run_id pair, pair) =
          rw (review_again, e, x.of_run) refl in
        subst (λ t. IsPublished digest (finding_of r) lane_id run_id t.1) (sym step)
          (replay_pair-IsPublished digest (finding_of r) lane_id run_id pair made
            (ap (λ t. t.0) (sym step) ∙ h))
  ]

  review_lane_cases :
      (pair : Pair) (made : Fields × Fields)
      → (review_lane digest m r s lane_id pair).0 ≡ ok made
      → (review_lane digest m r s lane_id pair ≡ review_again digest m r s lane_id pair)
        ⊎ (review_lane digest m r s lane_id pair
            ≡ write_pair digest m.writes (m.tree s.lane) s.lane (finding_of r) m.env.now pair)
  unfolding review_lane
  review_lane_cases pair made h =
      branch_taken (has_both pair) _ _ _ pair (review_again digest m r s lane_id pair) _ made h

  review_lane-IsPublished :
      (pair : Pair) (made : Fields × Fields)
      → IsDecided (finding_of r)
      → (review_lane digest m r s lane_id pair).0 ≡ ok made
      → IsPublished digest (finding_of r) lane_id run_id (review_lane digest m r s lane_id pair).1
  unfolding review_lane
  review_lane-IsPublished pair made decided h = elim (review_lane_cases pair made h) [
    | inl step ↦
        subst (λ t. IsPublished digest (finding_of r) lane_id run_id t.1) (sym step)
          (review_again-IsPublished pair made decided (ap (λ t. t.0) (sym step) ∙ h))
    | inr step ↦
        subst (λ t. IsPublished digest (finding_of r) lane_id run_id t.1) (sym step)
          (write_pair-IsPublished digest (m.tree s.lane) s.lane lane_id run_id x m.writes
            (finding_of r) m.env.now pair made decided (ap (λ t. t.0) (sym step) ∙ h))
  ]

-- A completion review that succeeds leaves, in the folder of the lane that it selected, a review and an
-- acceptance that the acceptance chain honours for the lane and its run, with the finding and the
-- decision that were asked for: if digests are not empty and agree on equal records, the identifiers of
-- the lane are not empty, and git knows a commit of its worktree.
pub run_completion_review-IsPublished :
    (digest : Fields → String) (m : Meets) (r : ReviewRequest) (world : World) (s : Selected)
    (lane_id run_id : String)
    → Surroundings digest (m.tree s.lane) s.lane lane_id run_id
    → select world r ≡ ok s
    → (run_completion_review digest m r world).0 ≡ ok tt
    → IsPublished digest
        (finding_of r)
        lane_id
        run_id
        ((run_completion_review digest m r world).1.folders s.epoch_id lane_id)
unfolding run_completion_review review_selected finish_review
run_completion_review-IsPublished digest m r world s lane_id run_id x chosen h =
    elim (Result-cases (check_request r)) [
      | inr (error, c) ↦
          let fails : (run_completion_review digest m r world).0 ≡ err error =
            rw (run_completion_review, c) refl in
          absurd (refused error (sym fails ∙ h))
      | inl (u, c) ↦
          let p = review_lane digest m r s lane_id (world.folders s.epoch_id lane_id) in
          let step : run_completion_review digest m r world
              ≡ finish_review m.env r s lane_id p world =
            rw (run_completion_review, c, chosen, review_selected, x.of_lane) refl in
          elim (Result-cases p.0) [
            | inr (error, e) ↦
                let fails : (finish_review m.env r s lane_id p world).0 ≡ err error =
                  rw (finish_review, e) refl in
                absurd (refused error (sym (ap (λ t. t.0) step ∙ fails) ∙ h))
            | inl (made, e) ↦
                let left : (finish_review m.env r s lane_id p world).1.folders s.epoch_id lane_id
                    ≡ p.1 =
                  rw (finish_review, e) (put_pair_here world.folders s.epoch_id lane_id p.1) in
                subst (IsPublished digest (finding_of r) lane_id run_id)
                  (sym (ap (λ t. t.1.folders s.epoch_id lane_id) step ∙ left))
                  (review_lane-IsPublished digest m r s lane_id run_id x
                    (world.folders s.epoch_id lane_id) made (check_request-IsDecided r u c) e)
          ]
    ]
