-- ===== src/Review/Retry.antt =====
-- A publication that was interrupted between its two writes, and one without a commit.
use harness_single.Base.{
  String, Bool, true, false, Option, some, ◌≡◌, ◌≢◌, refl, sym, ◌∙◌, arith, eq_refl, if◌then◌else◌,
  ok, err, missing, readable, List, [], ◌∷◌, Bool-cases, inl, inr,
}
use harness_single.Base.Json.{Json, text, Fields, get, as_text, nonempty_text}
use harness_single.Review.Chain.{
  content_hash, has_content_hash, linked_fields, field_agrees, fields_agree,
  validate_acceptance_chain,
}
use harness_single.Review.Equality.{same_json, same_items, has_keys, same_fields}
use harness_single.Review.Source.{
  failed, Link, Finding, texts, add_field, seal, review_fields, made_review, made_acceptance,
}
use harness_single.Review.Publication.{
  Pair, PairWrites, or_null, has_schema, made_chain_is_valid, write_review, write_acceptance,
  complete_review, write_fresh, publish,
}
use harness_single.Review.Published.{IsNamed, IsDecided, made_chain}

-- No file of the pair.
abbrev pub unpublished : Pair
unpublished = record { review = missing; acceptance = missing }

same_items-texts : (evidence : List String) → same_items (texts evidence) (texts evidence) ≡ true
unfolding same_json texts
same_items-texts [] = refl
same_items-texts (s ∷ rest) = rw (eq_refl s, same_items-texts rest) refl

valid_agrees :
    (digest : Fields → String) (r a : Fields) (lane_id : String) (run_id : Option String)
    → validate_acceptance_chain digest r a lane_id run_id ≡ true
    → fields_agree r a linked_fields ≡ true
unfolding validate_acceptance_chain
valid_agrees digest r a lane_id run_id h = ground arith

true_not_false : true ≢ false
true_not_false e = ground arith

module _ (digest : Fields → String) (f : Finding) (l : Link) where
  made_review_same :
      (now : String)
      → same_fields (made_review digest f l (text now)) (made_review digest f l (text now)) ≡ true
  unfolding same_fields same_json has_keys made_review review_fields seal add_field get
  made_review_same now =
      rw
        (
          eq_refl (content_hash digest (review_fields f l (text now))),
          eq_refl now,
          eq_refl l.commit,
          eq_refl l.result_hash,
          eq_refl l.result_id,
          eq_refl l.task_card_hash,
          eq_refl l.task_card_id,
          same_items-texts f.evidence,
          eq_refl f.review_summary,
          eq_refl f.review_outcome,
          eq_refl l.run_id,
          eq_refl l.lane_id,
        )
        refl

  interrupted_leaves :
      (w : PairWrites) (now : String)
      → w.review_written ≡ true
      → w.acceptance_written ≡ false
      → publish digest w f l now unpublished ≡ (
        err failed,
        record { review = readable (made_review digest f l (text now)); acceptance = missing },
      )
  unfolding publish write_fresh write_review write_acceptance
  interrupted_leaves w now a b =
      rw (publish, write_fresh, write_review, a, write_acceptance, b, write_review, a) refl

  review_keeps_time :
      (now : String)
      → (or_null (get "reviewed_at" (made_review digest f l (text now))) ≡ text now)
        × (has_schema "completion-review/v1" (made_review digest f l (text now)) ≡ true)
  unfolding made_review review_fields seal add_field get as_text or_null has_schema
  review_keeps_time now = (refl, refl)

  -- If the identifiers and hashes of lane, run, task card and result and the commit are not empty, and
  -- the outcome and the approval are known ones, a publication that wrote the review and failed on the
  -- acceptance is completed by the same request at a later time whose write of the acceptance
  -- succeeds: the pair is the one of the first time.
  pub interrupted_publication_completes :
      (w w' : PairWrites) (now later : String)
      → IsNamed l
      → IsDecided f
      → w.review_written ≡ true
      → w.acceptance_written ≡ false
      → w'.acceptance_written ≡ true
      → publish digest w' f l later (publish digest w f l now unpublished).1 ≡ (
        ok (made_review digest f l (text now), made_acceptance digest f l (text now)),
        record {
          review = readable (made_review digest f l (text now));
          acceptance = readable (made_acceptance digest f l (text now));
        },
      )
  unfolding publish complete_review write_acceptance validate_acceptance_chain has_content_hash
      as_text get
  interrupted_publication_completes w w' now later named decided a b c =
      let (time, schema) = review_keeps_time now in
      rw
        (
          interrupted_leaves w now a b,
          complete_review,
          time,
          schema,
          made_review_same now,
          made_chain digest f l (text now) named decided,
          write_acceptance,
          c,
        )
        refl

  made_without_commit :
      (at : Json)
      → l.commit ≡ ""
      → fields_agree (made_review digest f l at) (made_acceptance digest f l at) linked_fields
        ≡ false
  unfolding fields_agree linked_fields field_agrees made_review review_fields seal add_field get
      nonempty_text
  made_without_commit at e =
      let r = made_review digest f l at in
      let a = made_acceptance digest f l at in
      let missed : field_agrees r a "commit" ≡ false = rw (field_agrees, e) refl in
      rw missed (
        ends (field_agrees r a "lane_id") (field_agrees r a "run_id")
          (field_agrees r a "task_card_id") (field_agrees r a "task_card_hash")
          (field_agrees r a "result_id") (field_agrees r a "result_hash"))
    where
      ends :
          (a b c d e f : Bool)
          → (if a
              then if b
                then if c
                  then if d then if e then if f then false else false else false else false
                  else false
                else false
              else false)
            ≡ false
      ends a b c d e f = ground arith

  not_agreeing :
      (at : Json)
      → fields_agree (made_review digest f l at) (made_acceptance digest f l at) linked_fields
        ≡ false
      → made_chain_is_valid digest f l at ≡ false
  unfolding made_chain_is_valid
  not_agreeing at h = elim (Bool-cases (made_chain_is_valid digest f l at)) [
    | inr invalid ↦ invalid
    | inl valid ↦
        let agree : fields_agree (made_review digest f l at) (made_acceptance digest f l at)
              linked_fields
            ≡ true =
          valid_agrees digest _ _ l.lane_id (some l.run_id) valid in
        absurd (true_not_false (sym agree ∙ h))
  ]

  -- Without a commit a first publication still succeeds if its writes do, and leaves a pair that is not
  -- honoured.
  pub publication_without_commit :
      (w : PairWrites) (now : String)
      → l.commit ≡ ""
      → w.review_written ≡ true
      → w.acceptance_written ≡ true
      → (publish digest w f l now unpublished ≡ (
        ok (made_review digest f l (text now), made_acceptance digest f l (text now)),
        record {
          review = readable (made_review digest f l (text now));
          acceptance = readable (made_acceptance digest f l (text now));
        },
      ))
        × (made_chain_is_valid digest f l (text now) ≡ false)
  unfolding publish write_fresh
  publication_without_commit w now e a b = (
    rw (publish, write_fresh, write_review, a, write_acceptance, b, write_review, a) refl,
    not_agreeing (text now) (made_without_commit (text now) e),
  )
