-- ===== src/Review/Final.antt =====
-- A published pair stays as it is.
use harness_single.Base.{
  String, true, List, [], ◌∷◌, ◌==◌, ◌≡◌, refl, sym, ap, ◌∙◌, subst, arith, ◌>>=◌, Bool-cases,
  Option-cases, Result-cases, inl, inr, eq_iff,
}
use harness_single.Base.Json.{Fields, get, as_text}
use harness_single.Review.Source.{Worktree, Link, Finding, link_of}
use harness_single.Review.Publication.{Pair, PairWrites, publish, write_pair}
use harness_single.Review.Chain.{is_one_of}
use harness_single.Review.Command.{
  ReviewRequest, World, Selected, Meets, is_there, has_both, replay_lifecycles, review_again,
  review_lane, put_pair, finish_review, review_selected, run_completion_review, check_request,
  select, finding_of,
}

-- One call: what it meets, and what ROOT asks.
abbrev pub Call : Type 0
Call = Meets × ReviewRequest

module _ (digest : Fields → String) where
  unfoldable pub run : List Call → World → World
  unfolding run_completion_review
  run [] world = world
  run ((m, r) ∷ calls) world = run calls (run_completion_review digest m r world).1

  publish_keeps :
      (w : PairWrites) (f : Finding) (l : Link) (now : String) (pair : Pair)
      → has_both pair ≡ true
      → (publish digest w f l now pair).1 ≡ pair
  unfolding publish has_both is_there
  publish_keeps w f l now pair h = ground arith

  write_pair_keeps :
      (w : PairWrites) (tree : Worktree) (lane : Fields) (f : Finding) (now : String) (pair : Pair)
      → has_both pair ≡ true
      → (write_pair digest w tree lane f now pair).1 ≡ pair
  unfolding write_pair
  write_pair_keeps w tree lane f now pair h = elim (Result-cases (link_of digest tree lane)) [
    | inl (l, e) ↦ rw (write_pair, e) (publish_keeps w f l now pair h)
    | inr (x, e) ↦ rw (write_pair, e) refl
  ]

  review_again_keeps :
      (m : Meets) (r : ReviewRequest) (s : Selected) (lane_id : String) (pair : Pair)
      → has_both pair ≡ true
      → (review_again digest m r s lane_id pair).1 ≡ pair
  unfolding review_again
  review_again_keeps m r s lane_id pair h = elim (Option-cases s.event) [
    | inl e ↦
        rw (review_again, e)
          (write_pair_keeps m.writes (m.tree s.lane) s.lane (finding_of r) m.env.now pair h)
    | inr (event, e) ↦ elim (Option-cases (as_text (get "run_id" s.lane))) [
      | inl x ↦ rw (review_again, e, x) refl
      | inr (run_id, x) ↦ rw (review_again, e, x) refl
    ]
  ]

  review_lane_keeps :
      (m : Meets) (r : ReviewRequest) (s : Selected) (lane_id : String) (pair : Pair)
      → has_both pair ≡ true
      → (review_lane digest m r s lane_id pair).1 ≡ pair
  unfolding review_lane
  review_lane_keeps m r s lane_id pair h =
      elim (Bool-cases (is_one_of (replay_lifecycles s.event) (get "lifecycle" s.lane))) [
        | inl e ↦ rw (review_lane, h, e) (review_again_keeps m r s lane_id pair h)
        | inr e ↦ rw (review_lane, h, e) refl
      ]

  put_pair_keeps :
      (folders : String → String → Pair) (epoch lane e l : String) (new : Pair)
      → (has_both (folders epoch lane) ≡ true → new ≡ folders epoch lane)
      → has_both (folders e l) ≡ true
      → put_pair epoch lane new folders e l ≡ folders e l
  unfolding put_pair
  put_pair_keeps folders epoch lane e l new k h = elim (Bool-cases (e == epoch)) [
    | inr other ↦ rw (put_pair, other) refl
    | inl same ↦ elim (Bool-cases (l == lane)) [
      | inr other ↦ rw (put_pair, same, other) refl
      | inl here ↦
          let a : e ≡ epoch = (eq_iff e epoch).0 same in
          let b : l ≡ lane = (eq_iff l lane).0 here in
          let at : folders e l ≡ folders epoch lane =
            ap (λ t. folders t l) a ∙ ap (folders epoch) b in
          rw (put_pair, same, here) (k (subst (λ t. has_both t ≡ true) at h) ∙ sym at)
    ]
  ]

  review_selected_keeps :
      (m : Meets) (r : ReviewRequest) (s : Selected) (world : World) (e l : String)
      → has_both (world.folders e l) ≡ true
      → (review_selected digest m r s world).1.folders e l ≡ world.folders e l
  unfolding review_selected finish_review
  review_selected_keeps m r s world e l h = elim (Option-cases (as_text (get "lane_id" s.lane))) [
    | inl x ↦ rw (review_selected, x) refl
    | inr (lane_id, x) ↦
        let here = world.folders s.epoch_id lane_id in
        let p = review_lane digest m r s lane_id here in
        let kept =
          put_pair_keeps world.folders s.epoch_id lane_id e l p.1
            (review_lane_keeps m r s lane_id here) h in
        elim (Result-cases p.0) [
          | inl (made, y) ↦ rw (review_selected, x, finish_review, y) kept
          | inr (error, y) ↦ rw (review_selected, x, finish_review, y) kept
        ]
  ]

  run_completion_review_keeps :
      (m : Meets) (r : ReviewRequest) (world : World) (e l : String)
      → has_both (world.folders e l) ≡ true
      → (run_completion_review digest m r world).1.folders e l ≡ world.folders e l
  unfolding run_completion_review
  run_completion_review_keeps m r world e l h =
      elim (Result-cases (check_request r >>= λ u. select world r)) [
        | inr (x, k) ↦ rw (run_completion_review, k) refl
        | inl (s, k) ↦ rw (run_completion_review, k) (review_selected_keeps m r s world e l h)
      ]

  -- Once both files of a pair are there, no sequence of completion reviews, of whatever lanes and
  -- findings and with whatever writes failing, changes either of them.
  pub published_pair_is_final :
      (calls : List Call) (world : World) (e l : String)
      → has_both (world.folders e l) ≡ true
      → (run calls world).folders e l ≡ world.folders e l
  unfolding run
  published_pair_is_final [] world e l h = refl
  published_pair_is_final ((m, r) ∷ calls) world e l h =
      let kept = run_completion_review_keeps m r world e l h in
      published_pair_is_final calls (run_completion_review digest m r world).1 e l
        (subst (λ t. has_both t ≡ true) (sym kept) h)
      ∙ kept
