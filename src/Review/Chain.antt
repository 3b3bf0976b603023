-- ===== src/Review/Chain.antt =====
-- When a review and an acceptance are linked.
use harness_single.Base.{
  String, Bool, true, false, Option, none, some, List, [], ◌∷◌, ◌==◌, ◌&&◌, ◌≡◌, arith, mem_text,
  same_option, if◌then◌else◌, same_option_iff_to, Bool-cases, Option-cases, ◌∙◌, inl, inr, eq_iff,
}
use harness_single.Base.Json.{Fields, field, end, Json, get, as_text, nonempty_text}

-- The record without the slot of its own digest.
unfoldable pub without_hash : Fields → Fields
without_hash end = end
without_hash (field key value rest) =
    let others = without_hash rest in
    if key == "content_hash" then others else field key value others

unfoldable pub approvals : List String
approvals = "ACCEPTED" ∷ "REJECTED" ∷ []

unfoldable pub review_outcomes : List String
review_outcomes = "PASS" ∷ "FAIL" ∷ "BLOCKED" ∷ []

unfoldable pub linked_fields : List String
linked_fields =
    "lane_id" ∷ "run_id" ∷ "task_card_id" ∷ "task_card_hash" ∷ "result_id" ∷ "result_hash"
    ∷ "commit" ∷ []

-- One round of the loop over the required fields.
unfoldable pub field_agrees : Fields → Fields → String → Bool
field_agrees review acceptance key = elim (nonempty_text (get key review)) [
  | none ↦ false
  | some value ↦ same_option (as_text (get key acceptance)) (some value)
]

unfoldable pub fields_agree : Fields → Fields → List String → Bool
fields_agree review acceptance [] = true
fields_agree review acceptance (key ∷ keys) =
    if field_agrees review acceptance key then fields_agree review acceptance keys else false

unfoldable pub is_one_of : List String → Option Json → Bool
is_one_of names value = elim (as_text value) [ none ↦ false | some s ↦ mem_text s names ]

-- `run_id is not None and review.get("run_id") != run_id`
unfoldable pub run_agrees : Fields → Option String → Bool
run_agrees review none = true
run_agrees review (some run) = same_option (as_text (get "run_id" review)) (some run)

-- `digest` is the SHA-256 of the canonical JSON of a record, in hexadecimal digits.
module _ (digest : Fields → String) where
  unfoldable pub content_hash : Fields → String
  unfolding without_hash
  content_hash r = digest (without_hash r)

  unfoldable pub has_content_hash : Fields → Bool
  has_content_hash r = same_option (as_text (get "content_hash" r)) (some (content_hash r))

  unfoldable pub validate_acceptance_chain : Fields → Fields → String → Option String → Bool
  validate_acceptance_chain review acceptance lane_id run_id =
      has_content_hash review
      && has_content_hash acceptance
      && same_option (as_text (get "review_ref" acceptance)) (as_text (get "content_hash" review))
      && fields_agree review acceptance linked_fields
      && same_option (as_text (get "lane_id" review)) (some lane_id)
      && same_option (as_text (get "lane_id" acceptance)) (some lane_id)
      && run_agrees review run_id
      && is_one_of approvals (get "approval" acceptance)
      && (elim (nonempty_text (get "accepted_by" acceptance)) [ none ↦ false | some s ↦ true ])
      && is_one_of review_outcomes (get "review_outcome" review)

  fields_agree_at :
      (review acceptance : Fields) (keys : List String) (key : String)
      → fields_agree review acceptance keys ≡ true
      → mem_text key keys ≡ true
      → (value : String) × (nonempty_text (get key review) ≡ some value)
        × (as_text (get key acceptance) ≡ some value)
  unfolding fields_agree field_agrees
  fields_agree_at review acceptance [] key h m = absurd (ground arith)
  fields_agree_at review acceptance (k ∷ ks) key h m = elim (Bool-cases (key == k)) [
    | inr miss ↦ fields_agree_at review acceptance ks key (ground arith) (ground arith)
    | inl hit ↦
        let e : key ≡ k = (eq_iff key k).0 hit in
        rw e (elim (Option-cases (nonempty_text (get k review))) [
          | inl absent ↦ absurd (ground arith)
          | inr (value, x) ↦ (
            value,
            x,
            same_option_iff_to (as_text (get k acceptance)) (some value) (ground arith),
          )
        ])
  ]

  run_agrees_at :
      (review : Fields) (run_id : Option String) (run : String)
      → run_agrees review run_id ≡ true
      → run_id ≡ some run
      → as_text (get "run_id" review) ≡ some run
  unfolding run_agrees
  run_agrees_at review none run h e = absurd (ground arith)
  run_agrees_at review (some r) run h e =
      same_option_iff_to (as_text (get "run_id" review)) (some r) h ∙ e

  -- What a valid link says of its two records.
  pub record IsLinked (review acceptance : Fields) (lane_id : String) (run_id : Option String)
      : Type 0 where
    -- the acceptance refers to the digest of the review as it stands
    pub refers : as_text (get "review_ref" acceptance) ≡ some (content_hash review)
    pub review_intact : as_text (get "content_hash" review) ≡ some (content_hash review)
    pub acceptance_intact : as_text (get "content_hash" acceptance) ≡ some (content_hash acceptance)
    pub agrees :
        (key : String)
        → mem_text key linked_fields ≡ true
        → (value : String) × (nonempty_text (get key review) ≡ some value)
          × (as_text (get key acceptance) ≡ some value)
    pub of_lane : as_text (get "lane_id" review) ≡ some lane_id
    pub of_run : (run : String) → run_id ≡ some run → as_text (get "run_id" review) ≡ some run
    pub decided : is_one_of approvals (get "approval" acceptance) ≡ true

  -- A chain that is honoured refers to the review by its actual digest, both records carry their own
  -- digests, every linked field is the same text in both and not empty, lane and run are those asked
  -- for, and the approval is ACCEPTED or REJECTED.
  pub validate_acceptance_chain-IsLinked :
      (review acceptance : Fields) (lane_id : String) (run_id : Option String)
      → validate_acceptance_chain review acceptance lane_id run_id ≡ true
      → IsLinked review acceptance lane_id run_id
  unfolding validate_acceptance_chain
  validate_acceptance_chain-IsLinked review acceptance lane_id run_id h =
      let own : as_text (get "content_hash" review) ≡ some (content_hash review) =
        same_option_iff_to _ _ (unfold has_content_hash in ground arith) in
      let ref : as_text (get "review_ref" acceptance) ≡ as_text (get "content_hash" review) =
        same_option_iff_to _ _ (ground arith) in
      let all_agree : fields_agree review acceptance linked_fields ≡ true = ground arith in
      let run_ok : run_agrees review run_id ≡ true = ground arith in
      record {
        refers = ref ∙ own;
        review_intact = own;
        acceptance_intact = same_option_iff_to _ _ (unfold has_content_hash in ground arith);
        agrees = λ key m. fields_agree_at review acceptance linked_fields key all_agree m;
        of_lane = same_option_iff_to _ _ (ground arith);
        of_run = λ run e. run_agrees_at review run_id run run_ok e;
        decided = ground arith;
      }
