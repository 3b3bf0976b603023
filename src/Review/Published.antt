-- ===== src/Review/Published.antt =====
-- What a publication that succeeds leaves: a pair that the acceptance chain honours.
use harness_single.Base.{
  String, true, false, Option, none, some, ◌==◌, ◌≡◌, refl, arith, same_option, same_option_iff_to,
  same_option_refl, mem_text, Bool-cases, inl, inr,
}
use harness_single.Base.Json.{Json, text, Fields, field, end, get, as_text, nonempty_text}
use harness_single.Review.Chain.{
  without_hash, content_hash, has_content_hash, field_agrees, fields_agree, linked_fields,
  approvals, review_outcomes, is_one_of, run_agrees, validate_acceptance_chain,
}
use harness_single.Review.Source.{
  Link, Finding, add_field, seal, force_field, review_fields, acceptance_fields, made_review,
  made_acceptance,
}
use harness_single.Review.Publication.{made_chain_is_valid}

-- No value that both records carry is empty.
pub record IsNamed (l : Link) : Type 0 where
  pub lane_id : (l.lane_id == "") ≡ false
  pub run_id : (l.run_id == "") ≡ false
  pub task_card_id : (l.task_card_id == "") ≡ false
  pub task_card_hash : (l.task_card_hash == "") ≡ false
  pub result_id : (l.result_id == "") ≡ false
  pub result_hash : (l.result_hash == "") ≡ false
  pub commit : (l.commit == "") ≡ false

-- The outcome and the approval are known ones.
abbrev pub IsDecided : Finding → Type 0
IsDecided f =
    (mem_text f.review_outcome review_outcomes ≡ true) × (mem_text f.approval approvals ≡ true)

field_agrees_text :
    (review acceptance : Fields) (key value : String)
    → get key review ≡ some (text value)
    → get key acceptance ≡ some (text value)
    → (value == "") ≡ false
    → field_agrees review acceptance key ≡ true
unfolding field_agrees nonempty_text as_text
field_agrees_text review acceptance key value r a n =
    rw (field_agrees, r, n, a) (same_option_refl (some value))

without_hash-add :
    (v : Json) (r : Fields) → without_hash (add_field "content_hash" v r) ≡ without_hash r
unfolding without_hash add_field
without_hash-add v end = refl
without_hash-add v (field k w rest) = rw (without_hash-add v rest) refl

get-add :
    (v : Json) (r : Fields)
    → get "content_hash" r ≡ none
    → get "content_hash" (add_field "content_hash" v r) ≡ some v
unfolding get add_field
get-add v end h = refl
get-add v (field k w rest) h = elim (Bool-cases (k == "content_hash")) [
  | inl hit ↦ absurd (ground arith)
  | inr miss ↦ rw miss (get-add v rest (ground arith))
]

force_field-get : (reason : Option String) → get "content_hash" (force_field reason) ≡ none
unfolding get force_field
force_field-get none = refl
force_field-get (some reason) = refl

module _ (digest : Fields → String) where
  seal-has_hash :
      (r : Fields) → get "content_hash" r ≡ none → has_content_hash digest (seal digest r) ≡ true
  unfolding has_content_hash content_hash seal as_text
  seal-has_hash r h =
      let v = text (digest (without_hash r)) in
      rw (has_content_hash, seal, get-add v r h, without_hash-add v r)
        (same_option_refl (some (digest (without_hash r))))

  has_hash-get :
      (r : Fields)
      → has_content_hash digest r ≡ true
      → as_text (get "content_hash" r) ≡ some (content_hash digest r)
  unfolding has_content_hash
  has_hash-get r h = same_option_iff_to _ _ h

  made_fields_agree :
      (f : Finding) (l : Link) (at : Json)
      → IsNamed l
      → fields_agree (made_review digest f l at) (made_acceptance digest f l at) linked_fields
        ≡ true
  unfolding fields_agree linked_fields made_review made_acceptance review_fields acceptance_fields
      seal add_field get
  made_fields_agree f l at n =
      let agrees = field_agrees_text (made_review digest f l at) (made_acceptance digest f l at) in
      rw
        (
          agrees "lane_id" l.lane_id refl refl n.lane_id,
          agrees "run_id" l.run_id refl refl n.run_id,
          agrees "task_card_id" l.task_card_id refl refl n.task_card_id,
          agrees "task_card_hash" l.task_card_hash refl refl n.task_card_hash,
          agrees "result_id" l.result_id refl refl n.result_id,
          agrees "result_hash" l.result_hash refl refl n.result_hash,
          agrees "commit" l.commit refl refl n.commit,
        )
        refl

  made_texts :
      (f : Finding) (l : Link) (at : Json)
      → IsDecided f
      → (same_option
            (as_text (get "review_ref" (made_acceptance digest f l at)))
            (some (content_hash digest (made_review digest f l at)))
          ≡ true)
        × (same_option (as_text (get "lane_id" (made_review digest f l at))) (some l.lane_id)
            ≡ true)
        × (same_option (as_text (get "lane_id" (made_acceptance digest f l at))) (some l.lane_id)
            ≡ true)
        × (run_agrees (made_review digest f l at) (some l.run_id) ≡ true)
        × (is_one_of approvals (get "approval" (made_acceptance digest f l at)) ≡ true)
        × (nonempty_text (get "accepted_by" (made_acceptance digest f l at)) ≡ some "ROOT")
        × (is_one_of review_outcomes (get "review_outcome" (made_review digest f l at)) ≡ true)
  unfolding made_review made_acceptance review_fields acceptance_fields seal add_field get as_text
      run_agrees is_one_of nonempty_text
  made_texts f l at d = (
    same_option_refl (some (content_hash digest (made_review digest f l at))),
    same_option_refl (some l.lane_id),
    same_option_refl (some l.lane_id),
    same_option_refl (some l.run_id),
    d.1,
    refl,
    d.0,
  )

  pub made_chain :
      (f : Finding) (l : Link) (at : Json)
      → IsNamed l
      → IsDecided f
      → made_chain_is_valid digest f l at ≡ true
  unfolding made_chain_is_valid validate_acceptance_chain made_review made_acceptance
  made_chain f l at n d =
      let ref = content_hash digest (made_review digest f l at) in
      let own : has_content_hash digest (made_review digest f l at) ≡ true =
        seal-has_hash (review_fields f l at) (unfold review_fields get in refl) in
      let own' : has_content_hash digest (made_acceptance digest f l at) ≡ true =
        seal-has_hash (acceptance_fields f l ref at)
          (unfold acceptance_fields get in force_field-get f.force_accept_reason) in
      let agrees = made_fields_agree f l at n in
      let (a, b, c, d', e, g, h) = made_texts f l at d in
      rw
        (
          made_chain_is_valid,
          validate_acceptance_chain,
          own,
          own',
          has_hash-get _ own,
          a,
          agrees,
          b,
          c,
          d',
          e,
          g,
          h,
        )
        refl
