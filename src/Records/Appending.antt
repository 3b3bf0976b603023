-- ===== src/Records/Appending.antt =====
-- What is read from a log after an append.
use harness_single.Base.{
  ℕ, Bool, true, false, Option, none, some, List, [], ◌∷◌, ◌++◌, ◌&&◌, ◌≡◌, refl, sym, ap, ◌∙◌,
  arith, map, if◌then◌else◌, Bool-cases, Option-cases, inl, inr, ◌⊎◌,
}
use mathlib.Core.List.{append-nil, append_assoc}
use harness_single.Base.Text.{is_space_code}
use harness_single.Base.Json.{Json, object, Fields}
use harness_single.BoundedPolicy.Codes.{
  Code, is_empty, strip_left, strip_right, strip_code, line_feed,
}
use harness_single.Records.Log.{
  is_line_end, push, lines, as_record, read_line, read_lines, read_jsonl, content_of, line_of,
  with_header, append_jsonl,
}

unfoldable pub has_line_end : Code → Bool
unfolding is_line_end
has_line_end [] = false
has_line_end (c ∷ s) = if is_line_end c then true else has_line_end s

push-append :
    (c : ℕ) (p : Code) (ps qs : List Code) → push c ((p ∷ ps) ++ qs) ≡ push c (p ∷ ps) ++ qs
unfolding push
push-append c p ps qs = refl

lines-first : (s : Code) → (p : Code) × (ps : List Code) × (lines s ≡ p ∷ ps)
unfolding lines push
lines-first [] = ([], [], refl)
lines-first (c ∷ s) = elim (Bool-cases (is_line_end c)) [
  | inl end_here ↦ ([], lines s, rw end_here refl)
  | inr inside ↦ let (p, ps, e) = lines-first s in (c ∷ p, ps, rw (inside, e) refl)
]

-- A line feed separates the lines before it from those after it.
lines-append : (a b : Code) → lines (a ++ line_feed ∷ b) ≡ lines a ++ lines b
unfolding lines push is_line_end
lines-append [] b = refl
lines-append (c ∷ a) b = elim (Bool-cases (is_line_end c)) [
  | inl end_here ↦ rw (lines, end_here, lines-append a b) refl
  | inr inside ↦ let (p, ps, e) = lines-first a in rw (lines, inside, lines-append a b, e) refl
]

lines-line : (s : Code) → has_line_end s ≡ false → lines s ≡ s ∷ []
unfolding lines has_line_end push
lines-line [] h = refl
lines-line (c ∷ s) h = elim (Bool-cases (is_line_end c)) [
  | inl end_here ↦ absurd (ground arith)
  | inr inside ↦ rw (inside, lines-line s (ground arith)) refl
]

braced : (s : Code) → is_empty (s ++ 125 ∷ []) ≡ false
unfolding is_empty
braced [] = refl
braced (c ∷ s) = refl

and_false : (b : Bool) → b && false ≡ false
and_false b = ground arith

strip_right-brace : (s : Code) → strip_right (s ++ 125 ∷ []) ≡ s ++ 125 ∷ []
unfolding strip_right is_space_code is_empty
strip_right-brace [] = refl
strip_right-brace (c ∷ s) = rw (strip_right-brace s, braced s, and_false (is_space_code c)) refl

-- What the log relies on of JSON: the text of a record is one line in braces, and reading it gives the
-- record with its keys in the canonical order.
pub record IsCodec (dumps : Fields → Code) (loads : Code → Option Json)
    (canonical : Fields → Fields) : Type 0 where
  pub in_braces : (r : Fields) → (body : Code) × (dumps r ≡ 123 ∷ (body ++ 125 ∷ []))
  pub one_line : (r : Fields) → has_line_end (dumps r) ≡ false
  pub reads_back : (r : Fields) → loads (dumps r) ≡ some (object (canonical r))

ended : (c : Code) → is_empty (c ++ line_feed ∷ []) ≡ false
unfolding is_empty
ended [] = refl
ended (x ∷ c) = refl

joined :
    (a b : Code) → has_line_end a ≡ false → has_line_end b ≡ false → has_line_end (a ++ b) ≡ false
unfolding has_line_end
joined [] b h k = k
joined (c ∷ a) b h k = elim (Bool-cases (is_line_end c)) [
  | inl end_here ↦ absurd (ground arith)
  | inr inside ↦ rw inside (joined a b (ground arith) k)
]

-- The records are appended one after the other.
unfoldable pub append_all :
    (Fields → Code) → Option Fields → List Fields → Option Code → Option Code
unfolding append_jsonl
append_all dumps header [] file = file
append_all dumps header (r ∷ rs) file =
    append_all dumps header rs (append_jsonl dumps header r file)

-- A file that an append left: empty, or ended by a line feed.
abbrev pub IsWhole : Code → Type 0
IsWhole content = (content ≡ []) ⊎ ((c : Code) × (content ≡ c ++ line_feed ∷ []))

module _ (dumps : Fields → Code) (loads : Code → Option Json) (canonical : Fields → Fields)
    (codec : IsCodec dumps loads canonical) where
  strip_code-dumps : (r : Fields) → strip_code (dumps r) ≡ dumps r
  unfolding strip_code strip_left is_space_code
  strip_code-dumps r = let (body, e) = codec.in_braces r in rw e (strip_right-brace (123 ∷ body))

  is_empty-dumps : (r : Fields) → is_empty (dumps r) ≡ false
  unfolding is_empty
  is_empty-dumps r = let (body, e) = codec.in_braces r in rw e refl

  read_line-dumps : (r : Fields) → read_line loads (dumps r) ≡ some (canonical r)
  unfolding read_line as_record
  read_line-dumps r = rw (read_line, strip_code-dumps r, is_empty-dumps r, codec.reads_back r) refl

  read_lines-append :
      (xs ys : List Code) → read_lines loads (xs ++ ys) ≡ read_lines loads xs ++ read_lines loads ys
  unfolding read_lines
  read_lines-append [] ys = refl
  read_lines-append (x ∷ xs) ys = elim (Option-cases (read_line loads x)) [
    | inl nothing ↦ rw (read_lines, nothing, read_lines-append xs ys) refl
    | inr (r, e) ↦ rw (read_lines, e, read_lines-append xs ys) refl
  ]

  read_lines-blank : read_lines loads ([] ∷ []) ≡ []
  unfolding read_lines read_line strip_code strip_left strip_right is_empty
  read_lines-blank = refl

  read_ended :
      (c : Code) → read_lines loads (lines (c ++ line_feed ∷ [])) ≡ read_lines loads (lines c)
  unfolding lines
  read_ended c =
      ap (read_lines loads) (lines-append c [])
      ∙ read_lines-append (lines c) ([] ∷ [])
      ∙ ap (λ t. read_lines loads (lines c) ++ t) read_lines-blank
      ∙ append-nil (read_lines loads (lines c))

  read_one : (r : Fields) → read_lines loads (lines (line_of dumps r)) ≡ canonical r ∷ []
  unfolding read_lines
  read_one r =
      read_ended (dumps r)
      ∙ ap (read_lines loads) (lines-line (dumps r) (codec.one_line r))
      ∙ rw (read_lines, read_line-dumps r) refl

  -- What stands after a whole file is read on its own.
  read_after :
      (content more : Code)
      → IsWhole content
      → read_lines loads (lines (content ++ more))
        ≡ read_lines loads (lines content) ++ read_lines loads (lines more)
  unfolding lines
  read_after content more (inl e) =
      rw e (sym (ap (λ t. t ++ read_lines loads (lines more)) read_lines-blank))
  read_after content more (inr (c, e)) = rw e (
      ap (λ t. read_lines loads (lines t)) (append_assoc c (line_feed ∷ []) more)
      ∙ ap (read_lines loads) (lines-append c more)
      ∙ read_lines-append (lines c) (lines more)
      ∙ ap (λ t. t ++ read_lines loads (lines more)) (sym (read_ended c)))

  read_appended :
      (content : Code) (r : Fields)
      → IsWhole content
      → read_lines loads (lines (content ++ line_of dumps r))
        ≡ read_lines loads (lines content) ++ canonical r ∷ []
  read_appended content r whole =
      read_after content (line_of dumps r) whole
      ∙ ap (λ t. read_lines loads (lines content) ++ t) (read_one r)

  appended-IsWhole : (content : Code) (r : Fields) → IsWhole (content ++ line_of dumps r)
  appended-IsWhole content r =
      inr (content ++ dumps r, sym (append_assoc content (dumps r) (line_feed ∷ [])))

  append_more :
      (h : Fields) (rs : List Fields) (c : Code)
      → read_jsonl loads (append_all dumps (some h) rs (some (c ++ line_feed ∷ [])))
        ≡ read_jsonl loads (some (c ++ line_feed ∷ [])) ++ map canonical rs
  unfolding append_all append_jsonl with_header content_of read_jsonl
  append_more h [] c = sym (append-nil _)
  append_more h (r ∷ rs) c =
      let content = c ++ line_feed ∷ [] in
      let again : content ++ line_of dumps r ≡ (content ++ dumps r) ++ line_feed ∷ [] =
        sym (append_assoc content (dumps r) (line_feed ∷ [])) in
      let step : append_jsonl dumps (some h) r (some content)
          ≡ some ((content ++ dumps r) ++ line_feed ∷ []) =
        rw (ended c) (ap some again) in
      ap (λ t. read_jsonl loads (append_all dumps (some h) rs t)) step
      ∙ append_more h rs (content ++ dumps r)
      ∙ ap (λ t. read_lines loads (lines t) ++ map canonical rs) (sym again)
      ∙ ap (λ t. t ++ map canonical rs) (read_appended content r (inr (c, refl)))
      ∙ append_assoc (read_lines loads (lines content)) (canonical r ∷ []) (map canonical rs)

  -- A log that was begun with a header and appended to gives back the header and all records, in their
  -- order and with their keys in the canonical order.
  pub log_round_trip :
      (h r : Fields) (rs : List Fields)
      → read_jsonl loads (append_all dumps (some h) (r ∷ rs) none)
        ≡ canonical h ∷ canonical r ∷ map canonical rs
  unfolding append_all append_jsonl with_header content_of read_jsonl is_empty
  log_round_trip h r rs =
      let content = line_of dumps h ++ dumps r in
      let again : line_of dumps h ++ line_of dumps r ≡ content ++ line_feed ∷ [] =
        sym (append_assoc (line_of dumps h) (dumps r) (line_feed ∷ [])) in
      ap (λ t. read_jsonl loads (append_all dumps (some h) rs (some t))) again
      ∙ append_more h rs content
      ∙ ap (λ t. read_lines loads (lines t) ++ map canonical rs) (sym again)
      ∙ ap (λ t. t ++ map canonical rs) (read_appended (line_of dumps h) r (inr (dumps h, refl)))
      ∙ ap (λ t. (t ++ canonical r ∷ []) ++ map canonical rs) (read_one h)

  -- A record that is appended after a line that was torn is lost with it, if the two together are no
  -- JSON object: the log reads as it did before the torn line.
  pub torn_line_swallows :
      (content torn : Code) (r : Fields)
      → IsWhole content
      → has_line_end torn ≡ false
      → read_line loads (torn ++ dumps r) ≡ none
      → read_jsonl loads (append_jsonl dumps none r (some (content ++ torn)))
        ≡ read_jsonl loads (some content)
  unfolding append_jsonl with_header content_of read_jsonl read_lines
  torn_line_swallows content torn r whole inside unread =
      ap (λ t. read_lines loads (lines t))
        (append_assoc content torn (line_of dumps r)
          ∙ ap (λ t. content ++ t) (sym (append_assoc torn (dumps r) (line_feed ∷ []))))
      ∙ read_after content ((torn ++ dumps r) ++ line_feed ∷ []) whole
      ∙ ap (λ t. read_lines loads (lines content) ++ t)
          (read_ended (torn ++ dumps r)
            ∙ ap (read_lines loads)
                (lines-line (torn ++ dumps r) (joined torn (dumps r) inside (codec.one_line r)))
            ∙ rw (read_lines, unread) refl)
      ∙ append-nil _
