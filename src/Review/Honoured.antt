-- ===== src/Review/Honoured.antt =====
-- What a publication that succeeds leaves on disk, and what becomes of one that was interrupted.
use harness_single.Base.{
  ap, same_option, String, Bool, true, false, some, ◌&&◌, ◌≡◌, refl, ◌∙◌, arith, if◌then◌else◌, ok,
  err, RecordFile, missing, readable, Bool-cases, Result-cases, inl, inr,
}
use harness_single.Base.Json.{Json, text, array, Fields, get, as_text}
use harness_single.Review.Chain.{validate_acceptance_chain}
use harness_single.Review.Equality.{same_fields, IsCanonical}
use harness_single.Review.Source.{
  output_conflict, texts, Link, Finding, add_field, seal, review_fields, acceptance_fields,
  made_review, made_acceptance,
}
use harness_single.Review.Publication.{
  Pair, PairWrites, Published, or_null, has_schema, holds, reason_agrees, replays, replay_pair,
  made_chain_is_valid, write_review, write_acceptance, adopt_orphan, complete_review, write_fresh,
  publish,
}
use harness_single.Review.Published.{IsNamed, IsDecided, made_chain}
use harness_single.Review.Transfer.{
  holds-text, IsAlike, self-IsAlike, same_fields-IsAlike, validate_acceptance_chain_alike,
}

conjuncts :
    (a b c d e f g h : Bool)
    → a && b && c && d && e && f && g && h ≡ true
    → (a ≡ true) × (b ≡ true) × (c ≡ true) × (d ≡ true) × (g ≡ true)
conjuncts a b c d e f g h x = (ground arith, ground arith, ground arith, ground arith, ground arith)

tests_held :
    (a b c : Bool) (t : Published) (pair : Pair) (m : Fields × Fields)
    → (if a && b && c then t else (err output_conflict, pair)).0 ≡ ok m
    → (a ≡ true) × (b ≡ true) × (t.0 ≡ ok m)
tests_held true true true t pair m h = (refl, refl, h)
tests_held true true false t pair m h = absurd (ground arith)
tests_held true false c t pair m h = absurd (ground arith)
tests_held false b c t pair m h = absurd (ground arith)

write_review_hit :
    (w : PairWrites) (r a : Fields) (pair : Pair) (m : Fields × Fields)
    → (write_review w r a pair).0 ≡ ok m
    → (write_review w r a pair).1 ≡ record pair { review = readable r }
unfolding write_review
write_review_hit w r a pair m h = ground arith

write_acceptance_hit :
    (w : PairWrites) (r a : Fields) (pair : Pair) (m : Fields × Fields)
    → (write_acceptance w r a pair).0 ≡ ok m
    → (write_acceptance w r a pair).1 ≡ record pair { acceptance = readable a }
unfolding write_acceptance
write_acceptance_hit w r a pair m h = ground arith

module _ (digest : Fields → String) where
  -- Both files are there, the chain of the two is honoured for the lane and the run, and they carry
  -- the finding and the decision.
  pub record IsPublished (f : Finding) (lane_id run_id : String) (pair : Pair) : Type 0 where
    pub review : Fields
    pub acceptance : Fields
    pub review_file : pair.review ≡ readable review
    pub acceptance_file : pair.acceptance ≡ readable acceptance
    pub review_schema : has_schema "completion-review/v1" review ≡ true
    pub acceptance_schema : has_schema "orchestrator-acceptance/v1" acceptance ≡ true
    pub honoured : validate_acceptance_chain digest review acceptance lane_id (some run_id) ≡ true
    pub outcome : as_text (get "review_outcome" review) ≡ some f.review_outcome
    pub approval : as_text (get "approval" acceptance) ≡ some f.approval

  review_outcome_of :
      (f : Finding) (l : Link) (at : Json)
      → as_text (get "review_outcome" (made_review digest f l at)) ≡ some f.review_outcome
  unfolding made_review review_fields seal add_field get as_text
  review_outcome_of f l at = refl

  made_schemas :
      (f : Finding) (l : Link) (at : Json)
      → (has_schema "completion-review/v1" (made_review digest f l at) ≡ true)
        × (has_schema "orchestrator-acceptance/v1" (made_acceptance digest f l at) ≡ true)
  unfolding has_schema made_review made_acceptance review_fields acceptance_fields seal add_field
      get as_text
  made_schemas f l at = (refl, refl)

  schema_alike :
      (name : String) (a b : Fields)
      → IsAlike digest a b
      → has_schema name b ≡ true
      → has_schema name a ≡ true
  unfolding has_schema
  schema_alike name a b k h = ap (λ t. same_option t (some name)) (k.texts "schema") ∙ h

  approval_of :
      (f : Finding) (l : Link) (at : Json)
      → as_text (get "approval" (made_acceptance digest f l at)) ≡ some f.approval
  unfolding made_acceptance acceptance_fields seal add_field get as_text
  approval_of f l at = refl

  replays_parts :
      (f : Finding) (lane_id run_id : String) (r a : Fields)
      → replays digest f lane_id run_id r a ≡ true
      → (has_schema "completion-review/v1" r ≡ true)
        × (has_schema "orchestrator-acceptance/v1" a ≡ true)
        × (validate_acceptance_chain digest r a lane_id (some run_id) ≡ true)
        × (holds (get "review_outcome" r) (text f.review_outcome) ≡ true)
        × (holds (get "approval" a) (text f.approval) ≡ true)
  unfolding replays
  replays_parts f lane_id run_id r a h =
      conjuncts (has_schema "completion-review/v1" r) (has_schema "orchestrator-acceptance/v1" a)
        (validate_acceptance_chain digest r a lane_id (some run_id))
        (holds (get "review_outcome" r) (text f.review_outcome))
        (holds (get "review_summary" r) (text f.review_summary))
        (holds (get "evidence" r) (array (texts f.evidence)))
        (holds (get "approval" a) (text f.approval))
        (reason_agrees (get "force_accept_reason" a) f.force_accept_reason) h

  replayed :
      (f : Finding) (lane_id run_id : String) (review acceptance : RecordFile Fields)
      (m : Fields × Fields)
      → replay_pair digest f lane_id run_id (record { review = review; acceptance = acceptance })
        ≡ ok m
      → IsPublished f lane_id run_id (record { review = review; acceptance = acceptance })
  unfolding replay_pair
  replayed f lane_id run_id (readable r) (readable a) m h =
      elim (Bool-cases (replays digest f lane_id run_id r a)) [
        | inr miss ↦ absurd (ground arith)
        | inl hit ↦
            let (of_review, of_acceptance, chain, outcome, approval) =
              replays_parts f lane_id run_id r a hit in
            record {
              review = r;
              acceptance = a;
              review_file = refl;
              acceptance_file = refl;
              review_schema = of_review;
              acceptance_schema = of_acceptance;
              honoured = chain;
              outcome = holds-text _ _ outcome;
              approval = holds-text _ _ approval;
            }
      ]
  replayed f lane_id run_id _ _ m h = absurd (ground arith)

  -- A pair that is replayed is published.
  pub replay_pair-IsPublished :
      (f : Finding) (lane_id run_id : String) (pair : Pair) (m : Fields × Fields)
      → replay_pair digest f lane_id run_id pair ≡ ok m
      → IsPublished f lane_id run_id pair
  replay_pair-IsPublished f lane_id run_id pair m h =
      replayed f lane_id run_id pair.review pair.acceptance m h

  module _ (f : Finding) (l : Link) (canonical : IsCanonical digest) (named : IsNamed l)
      (decided : IsDecided f) where
    alike-IsPublished :
        (at : Json) (r a : Fields)
        → IsAlike digest r (made_review digest f l at)
        → IsAlike digest a (made_acceptance digest f l at)
        → IsPublished f l.lane_id l.run_id (record { review = readable r; acceptance = readable a })
    unfolding made_chain_is_valid
    alike-IsPublished at r a h k = record {
      review = r;
      acceptance = a;
      review_file = refl;
      acceptance_file = refl;
      review_schema = schema_alike _ r _ h (made_schemas f l at).0;
      acceptance_schema = schema_alike _ a _ k (made_schemas f l at).1;
      honoured =
          validate_acceptance_chain_alike digest r _ a _ h k l.lane_id (some l.run_id)
            (made_chain digest f l at named decided);
      outcome = h.texts "review_outcome" ∙ review_outcome_of f l at;
      approval = k.texts "approval" ∙ approval_of f l at;
    }

    fresh-IsPublished :
        (w : PairWrites) (now : String) (pair : Pair) (m : Fields × Fields)
        → (write_fresh digest w f l now pair).0 ≡ ok m
        → IsPublished f l.lane_id l.run_id (write_fresh digest w f l now pair).1
    unfolding write_fresh write_review write_acceptance
    fresh-IsPublished w now pair m h = elim (Bool-cases w.review_written) [
      | inr miss ↦ absurd (ground arith)
      | inl hit ↦ elim (Bool-cases w.acceptance_written) [
        | inr miss ↦ absurd (ground arith)
        | inl stored ↦
            rw (write_fresh, write_review, hit, write_acceptance, stored, write_review, hit)
              (alike-IsPublished (text now) _ _ (self-IsAlike digest _) (self-IsAlike digest _))
      ]
    ]

    completed-IsPublished :
        (w : PairWrites) (r : Fields) (pair : Pair) (m : Fields × Fields)
        → pair.review ≡ readable r
        → (complete_review digest w f l r pair).0 ≡ ok m
        → IsPublished f l.lane_id l.run_id (complete_review digest w f l r pair).1
    unfolding complete_review
    completed-IsPublished w r pair m e h =
        let at = or_null (get "reviewed_at" r) in
        let a = made_acceptance digest f l at in
        let (schema, same, t) =
          tests_held (has_schema "completion-review/v1" r)
            (same_fields r (made_review digest f l at)) (made_chain_is_valid digest f l at)
            (write_acceptance w (made_review digest f l at) a pair) pair m h in
        rw
          (
            complete_review,
            schema,
            same,
            made_chain digest f l at named decided,
            write_acceptance_hit w (made_review digest f l at) a pair m t,
            e,
          )
          (alike-IsPublished at r a (same_fields-IsAlike digest canonical r _ same)
            (self-IsAlike digest _))

    adopted-IsPublished :
        (w : PairWrites) (a : Fields) (pair : Pair) (m : Fields × Fields)
        → pair.acceptance ≡ readable a
        → (adopt_orphan digest w f l a pair).0 ≡ ok m
        → IsPublished f l.lane_id l.run_id (adopt_orphan digest w f l a pair).1
    unfolding adopt_orphan
    adopted-IsPublished w a pair m e h =
        let at = or_null (get "decided_at" a) in
        let r = made_review digest f l at in
        let (schema, same, t) =
          tests_held (has_schema "orchestrator-acceptance/v1" a)
            (same_fields a (made_acceptance digest f l at)) (made_chain_is_valid digest f l at)
            (write_review w r a pair) pair m h in
        rw
          (
            adopt_orphan,
            schema,
            same,
            made_chain digest f l at named decided,
            write_review_hit w r a pair m t,
            e,
          )
          (alike-IsPublished at r a (self-IsAlike digest _)
            (same_fields-IsAlike digest canonical a _ same))

    publish_files-IsPublished :
        (w : PairWrites) (now : String) (review acceptance : RecordFile Fields)
        (m : Fields × Fields)
        → (publish digest w f l now (record { review = review; acceptance = acceptance })).0 ≡ ok m
        → IsPublished f l.lane_id l.run_id
            (publish digest w f l now (record { review = review; acceptance = acceptance })).1
    unfolding publish
    publish_files-IsPublished w now missing missing m h = fresh-IsPublished w now _ m h
    publish_files-IsPublished w now (readable r) missing m h = completed-IsPublished w r _ m refl h
    publish_files-IsPublished w now missing (readable a) m h = adopted-IsPublished w a _ m refl h
    publish_files-IsPublished w now (readable r) (readable a) m h =
        elim (Result-cases (
          replay_pair digest f l.lane_id l.run_id
            (record { review = readable r; acceptance = readable a }))) [
              | inl (made, e) ↦ replay_pair-IsPublished f l.lane_id l.run_id _ made e
              | inr (x, e) ↦ absurd (ground arith)
            ]
    publish_files-IsPublished w now _ _ m h = absurd (ground arith)

    -- A publication that succeeds leaves a pair that is honoured, whichever of the two files an earlier
    -- call had left, if the values that both records carry are not empty, the outcome and the approval
    -- are known ones, and equal records have one digest.
    pub publish-IsPublished :
        (w : PairWrites) (now : String) (pair : Pair) (m : Fields × Fields)
        → (publish digest w f l now pair).0 ≡ ok m
        → IsPublished f l.lane_id l.run_id (publish digest w f l now pair).1
    publish-IsPublished w now pair m h =
        publish_files-IsPublished w now pair.review pair.acceptance m h
