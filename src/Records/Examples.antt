-- ===== src/Records/Examples.antt =====
-- A log with a torn line, a replacement that fails once, and the theorems at them. A record is
-- written in braces, with one mark per field.
use harness_single.Base.{
  ℕ, zero, suc, true, false, Option, none, some, [], ◌∷◌, ◌++◌, ◌&&◌, ◌≡◌, refl, eqb, if◌then◌else◌,
  inl, map,
}
use harness_single.Base.Json.{Json, null, object, Fields, field, end}
use harness_single.Base.Text.{is_space_code}
use harness_single.BoundedPolicy.Codes.{Code, is_empty, strip_left, strip_right, strip_code}
use harness_single.Records.Log.{is_line_end, read_line, read_jsonl, append_jsonl, as_record}
use harness_single.Records.Replace.{Attempt, done, fails, replace_with_retry}
use harness_single.Records.Attempts.{IsPatient, replace_with_retry-IsPatient}
use harness_single.Records.Appending.{
  has_line_end, IsCodec, append_all, log_round_trip, torn_line_swallows,
}

abbrev marks : Fields → Code
marks end = []
marks (field k v r) = 97 ∷ marks r

abbrev dumps : Fields → Code
dumps r = 123 ∷ (marks r ++ 125 ∷ [])

abbrev unmark : Code → Option Fields
unmark [] = none
unmark (c ∷ s) =
    let rest = unmark s in
    if eqb c 97
    then elim rest [ none ↦ none | some r ↦ some (field "a" null r) ]
    else if eqb c 125 && is_empty s
    then some end
    else none

abbrev loads : Code → Option Json
loads [] = none
loads (c ∷ s) =
    if eqb c 123 then elim (unmark s) [ none ↦ none | some r ↦ some (object r) ] else none

abbrev canonical : Fields → Fields
canonical end = end
canonical (field k v r) = field "a" null (canonical r)

unmark-marks : (r : Fields) → unmark (marks r ++ 125 ∷ []) ≡ some (canonical r)
unfolding is_empty
unmark-marks end = refl
unmark-marks (field k v r) = rw (unmark-marks r) refl

marks_inside : (r : Fields) → has_line_end (marks r ++ 125 ∷ []) ≡ false
unfolding has_line_end is_line_end
marks_inside end = refl
marks_inside (field k v r) = marks_inside r

codec : IsCodec dumps loads canonical
unfolding has_line_end is_line_end
codec = record {
  in_braces = λ r. (marks r, refl);
  one_line = λ r. marks_inside r;
  reads_back = λ r. rw (unmark-marks r) refl;
}

abbrev one_field : Fields
one_field = field "a" null end

abbrev two_fields : Fields
two_fields = field "a" null one_field

log_round_trip_example :
    read_jsonl loads (append_all dumps (some end) (one_field ∷ two_fields ∷ []) none)
    ≡ canonical end ∷ canonical one_field ∷ map canonical (two_fields ∷ [])
log_round_trip_example = log_round_trip dumps loads canonical codec end one_field (two_fields ∷ [])

torn_is_inside : has_line_end (123 ∷ []) ≡ false
unfolding has_line_end is_line_end
torn_is_inside = refl

joined_is_unread : read_line loads ((123 ∷ []) ++ dumps end) ≡ none
unfolding read_line strip_code strip_left strip_right is_space_code is_empty as_record
joined_is_unread = refl

torn_line_swallows_example :
    read_jsonl loads (append_jsonl dumps none end (some ([] ++ 123 ∷ [])))
    ≡ read_jsonl loads (some [])
torn_line_swallows_example =
    torn_line_swallows dumps loads canonical codec [] (123 ∷ []) end (inl refl) torn_is_inside
      joined_is_unread

-- The first attempt fails with a sharing violation, the next one succeeds.
abbrev answer : ℕ → Attempt
answer zero = fails 32
answer (suc n) = done

replace_with_retry-IsPatient_example : IsPatient answer 4 0 (replace_with_retry true answer)
replace_with_retry-IsPatient_example = replace_with_retry-IsPatient answer
