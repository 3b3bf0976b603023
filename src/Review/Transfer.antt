-- ===== src/Review/Transfer.antt =====
-- Equal records are honoured alike.
use harness_single.Base.{
  String, Bool, true, false, Option, none, some, List, [], ◌∷◌, ◌==◌, ◌≡◌, refl, sym, ap, ◌∙◌,
  arith, same_option, if◌then◌else◌, eq_iff,
}
use harness_single.Base.Json.{Json, text, Fields, get, as_text, nonempty_text}
use harness_single.Review.Chain.{
  content_hash, has_content_hash, field_agrees, fields_agree, linked_fields, approvals,
  review_outcomes, is_one_of, run_agrees, validate_acceptance_chain,
}
use harness_single.Review.Equality.{
  same_json, same_fields, same_fields-text, same_fields-content_hash, IsCanonical,
}
use harness_single.Review.Publication.{holds}

nonempty_of : Option String → Option String
nonempty_of none = none
nonempty_of (some s) = if s == "" then none else some s

abbrev agrees_on : Option String → Option String → Bool
agrees_on n t = elim n [ none ↦ false | some value ↦ same_option t (some value) ]

nonempty_text-as_text : (o : Option Json) → nonempty_text o ≡ nonempty_of (as_text o)
unfolding nonempty_text as_text nonempty_of
nonempty_text-as_text none = refl
nonempty_text-as_text (some (text s)) = refl
nonempty_text-as_text (some _) = refl

-- Two records with the same texts and the same digest.
pub record IsAlike (digest : Fields → String) (a b : Fields) : Type 0 where
  pub texts : (key : String) → as_text (get key a) ≡ as_text (get key b)
  pub hash : content_hash digest a ≡ content_hash digest b

pub self-IsAlike : (digest : Fields → String) (a : Fields) → IsAlike digest a a
self-IsAlike digest a = record { texts = λ key. refl; hash = refl }

pub same_fields-IsAlike :
    (digest : Fields → String)
    → IsCanonical digest
    → (a b : Fields) → same_fields a b ≡ true
    → IsAlike digest a b
same_fields-IsAlike digest canonical a b h = record {
  texts = λ key. same_fields-text a b key h;
  hash = same_fields-content_hash digest canonical a b h;
}

nonempty_alike :
    (a b : Fields) (key : String)
    → as_text (get key a) ≡ as_text (get key b)
    → nonempty_text (get key a) ≡ nonempty_text (get key b)
nonempty_alike a b key h =
    nonempty_text-as_text (get key a) ∙ ap nonempty_of h ∙ sym (nonempty_text-as_text (get key b))

is_one_of_alike :
    (a b : Fields) (key : String) (names : List String)
    → as_text (get key a) ≡ as_text (get key b)
    → is_one_of names (get key a) ≡ is_one_of names (get key b)
unfolding is_one_of
is_one_of_alike a b key names h = rw (is_one_of, h) refl

-- A text field that is equal to a given text holds it.
pub holds-text : (o : Option Json) (s : String) → holds o (text s) ≡ true → as_text o ≡ some s
unfolding holds same_json as_text
holds-text none s h = absurd (ground arith)
holds-text (some (text t)) s h = ap some ((eq_iff t s).0 h)
holds-text (some _) s h = absurd (ground arith)

module _ (digest : Fields → String) (r r' a a' : Fields) (h : IsAlike digest r r')
    (k : IsAlike digest a a') where
  field_agrees_alike : (key : String) → field_agrees r a key ≡ field_agrees r' a' key
  unfolding field_agrees
  field_agrees_alike key =
      ap (λ n. agrees_on n (as_text (get key a))) (nonempty_alike r r' key (h.texts key))
      ∙ ap (agrees_on (nonempty_text (get key r'))) (k.texts key)

  fields_agree_alike : (keys : List String) → fields_agree r a keys ≡ fields_agree r' a' keys
  unfolding fields_agree
  fields_agree_alike [] = refl
  fields_agree_alike (key ∷ keys) = rw (field_agrees_alike key, fields_agree_alike keys) refl

  run_agrees_alike : (run_id : Option String) → run_agrees r run_id ≡ run_agrees r' run_id
  unfolding run_agrees
  run_agrees_alike none = refl
  run_agrees_alike (some run) = rw (run_agrees, h.texts "run_id") refl

  -- A pair that is like an honoured one is honoured.
  pub validate_acceptance_chain_alike :
      (lane_id : String) (run_id : Option String)
      → validate_acceptance_chain digest r' a' lane_id run_id ≡ true
      → validate_acceptance_chain digest r a lane_id run_id ≡ true
  unfolding validate_acceptance_chain has_content_hash
  validate_acceptance_chain_alike lane_id run_id valid =
      let alike : validate_acceptance_chain digest r a lane_id run_id
          ≡ validate_acceptance_chain digest r' a' lane_id run_id =
        rw
          (
            validate_acceptance_chain,
            has_content_hash,
            h.texts "content_hash",
            k.texts "content_hash",
            h.hash,
            k.hash,
            k.texts "review_ref",
            fields_agree_alike linked_fields,
            h.texts "lane_id",
            k.texts "lane_id",
            run_agrees_alike run_id,
            is_one_of_alike a a' "approval" approvals (k.texts "approval"),
            nonempty_alike a a' "accepted_by" (k.texts "accepted_by"),
            is_one_of_alike r r' "review_outcome" review_outcomes (h.texts "review_outcome"),
          )
          refl in
      alike ∙ valid
