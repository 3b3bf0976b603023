-- ===== src/Review/Equality.antt =====
-- Python's `==` on parsed JSON: the order of the keys of an object does not matter. The keys of an
-- object are distinct, and numbers of different types are told apart.
use harness_single.Base.{
  String, Bool, true, false, none, some, ◌==◌, ◌&&◌, ◌≡◌, refl, sym, subst, ap, ◌∙◌, arith, eqb,
  if◌then◌else◌, Option-cases, Bool-cases, inl, inr, eq_iff,
}
use harness_single.Base.Json.{
  ℤ, pos, negsuc, Json, null, boolean, int, float, text, array, object, Items, nil, cons, Fields,
  end, field, get, as_text,
}
use harness_single.Review.Chain.{without_hash, content_hash}

unfoldable pub same_int : ℤ → ℤ → Bool
same_int (pos m) (pos n) = eqb m n
same_int (negsuc m) (negsuc n) = eqb m n
same_int _ _ = false

unfoldable pub same_bool : Bool → Bool → Bool
same_bool true b = b
same_bool false b = if b then false else true

-- Every key of the second object is one of the first.
unfoldable pub has_keys : Fields → Fields → Bool
has_keys a end = true
has_keys a (field k v rest) = elim (get k a) [ none ↦ false | some w ↦ has_keys a rest ]

unfoldable mutual
  unfolding same_int same_bool has_keys

  pub same_json : Json → Json → Bool
  same_json null null = true
  same_json (boolean a) (boolean b) = same_bool a b
  same_json (int a) (int b) = same_int a b
  same_json (float a) (float b) = a == b
  same_json (text a) (text b) = a == b
  same_json (array a) (array b) = same_items a b
  same_json (object a) (object b) = same_values a b && has_keys a b
  same_json _ _ = false

  pub same_items : Items → Items → Bool
  same_items nil nil = true
  same_items (cons v a) (cons w b) = same_json v w && same_items a b
  same_items _ _ = false

  -- Every key of the first object is one of the second, with an equal value.
  pub same_values : Fields → Fields → Bool
  same_values end b = true
  same_values (field k v rest) b =
      same_values rest b && (elim (get k b) [ none ↦ false | some w ↦ same_json v w ])

unfoldable pub same_fields : Fields → Fields → Bool
unfolding same_values has_keys
same_fields a b = same_values a b && has_keys a b

same_json-text : (v w : Json) → same_json v w ≡ true → as_text (some v) ≡ as_text (some w)
unfolding same_json as_text
same_json-text null null h = refl
same_json-text (boolean a) (boolean b) h = refl
same_json-text (int a) (int b) h = refl
same_json-text (float a) (float b) h = refl
same_json-text (text a) (text b) h = ap some ((eq_iff a b).0 h)
same_json-text (array a) (array b) h = refl
same_json-text (object a) (object b) h = refl
same_json-text _ _ h = absurd (ground arith)

same_values-get :
    (a b : Fields) (key : String) (v : Json)
    → same_values a b ≡ true
    → get key a ≡ some v
    → (w : Json) × (get key b ≡ some w) × (same_json v w ≡ true)
unfolding same_json get
same_values-get end b key v h g = absurd (ground arith)
same_values-get (field k u rest) b key v h g = elim (Bool-cases (k == key)) [
  | inr miss ↦ same_values-get rest b key v (ground arith) (ground arith)
  | inl hit ↦
      let e : k ≡ key = (eq_iff k key).0 hit in
      let same : u ≡ v = ground arith in
      elim (Option-cases (get k b)) [
        | inl absent ↦ absurd (ground arith)
        | inr (w, x) ↦ (
          w,
          subst (λ t. get t b ≡ some w) e x,
          subst (λ t. same_json t w ≡ true) same (ground arith),
        )
      ]
]

has_keys-get :
    (a b : Fields) (key : String) → has_keys a b ≡ true → get key a ≡ none → get key b ≡ none
unfolding has_keys get
has_keys-get a end key h g = refl
has_keys-get a (field k w rest) key h g = elim (Bool-cases (k == key)) [
  | inr miss ↦ rw miss (has_keys-get a rest key (ground arith) g)
  | inl hit ↦
      let e : k ≡ key = (eq_iff k key).0 hit in
      let absent : get k a ≡ none = ap (λ t. get t a) e ∙ g in absurd (ground arith)
]

-- Equal records hold the same texts.
pub same_fields-text :
    (a b : Fields) (key : String)
    → same_fields a b ≡ true
    → as_text (get key a) ≡ as_text (get key b)
unfolding same_fields
same_fields-text a b key h = elim (Option-cases (get key a)) [
  | inl absent ↦ rw (absent, has_keys-get a b key (ground arith) absent) refl
  | inr (v, x) ↦
      let (w, y, e) = same_values-get a b key v (ground arith) x in rw (x, y) (same_json-text v w e)
]

get-without_hash :
    (r : Fields) (key : String)
    → (key == "content_hash") ≡ false
    → get key (without_hash r) ≡ get key r
unfolding without_hash get
get-without_hash end key h = refl
get-without_hash (field k v rest) key h = elim (Bool-cases (k == "content_hash")) [
  | inr other ↦ elim (Bool-cases (k == key)) [
    | inl hit ↦ rw (other, hit) refl
    | inr miss ↦ rw (other, miss) (get-without_hash rest key h)
  ]
  | inl slot ↦
      let e : k ≡ "content_hash" = (eq_iff k "content_hash").0 slot in
      elim (Bool-cases (k == key)) [
        | inl hit ↦
            let same : k ≡ key = (eq_iff k key).0 hit in
            let no : (k == "content_hash") ≡ false =
              subst (λ t. (t == "content_hash") ≡ false) (sym same) h in
            absurd (ground arith)
        | inr miss ↦ rw (slot, miss) (get-without_hash rest key h)
      ]
]

same_values-without_hash :
    (a b : Fields) → same_values a b ≡ true → same_values (without_hash a) (without_hash b) ≡ true
unfolding same_json without_hash
same_values-without_hash end b h = refl
same_values-without_hash (field k v rest) b h =
    let later = same_values-without_hash rest b (ground arith) in
    elim (Bool-cases (k == "content_hash")) [
      | inl slot ↦ rw slot later
      | inr other ↦
          let here : get k (without_hash b) ≡ get k b = get-without_hash b k other in
          rw (other, same_values, later, here) (ground arith)
    ]

has_keys-without_hash :
    (a b : Fields) → has_keys a b ≡ true → has_keys (without_hash a) (without_hash b) ≡ true
unfolding has_keys without_hash
has_keys-without_hash a end h = refl
has_keys-without_hash a (field k v rest) h =
    let later : has_keys (without_hash a) (without_hash rest) ≡ true =
      has_keys-without_hash a rest (ground arith) in
    elim (Bool-cases (k == "content_hash")) [
      | inl slot ↦ rw slot later
      | inr other ↦ elim (Option-cases (get k a)) [
        | inl absent ↦ absurd (ground arith)
        | inr (w, x) ↦
            let here : get k (without_hash a) ≡ some w = get-without_hash a k other ∙ x in
            rw (other, has_keys, here) later
      ]
    ]

-- The digest of a record is a function of its canonical JSON, so equal records have one digest.
abbrev pub IsCanonical : (Fields → String) → Type 0
IsCanonical digest = (a b : Fields) → same_fields a b ≡ true → digest a ≡ digest b

pub same_fields-content_hash :
    (digest : Fields → String)
    → IsCanonical digest
    → (a b : Fields) → same_fields a b ≡ true
    → content_hash digest a ≡ content_hash digest b
unfolding content_hash same_fields
same_fields-content_hash digest canonical a b h =
    let values : same_values (without_hash a) (without_hash b) ≡ true =
      same_values-without_hash a b (ground arith) in
    let keys : has_keys (without_hash a) (without_hash b) ≡ true =
      has_keys-without_hash a b (ground arith) in
    canonical (without_hash a) (without_hash b) (rw (values, keys) refl)
