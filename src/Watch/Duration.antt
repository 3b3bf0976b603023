-- ===== src/Watch/Duration.antt =====
-- `_parse_duration`, on code points. Digits are those of ASCII; a float of whole seconds is its number.
use harness_single.Base.{
  ℕ, ◌+◌, ◌-◌, ◌*◌, Bool, true, false, not, Option, none, some, [], ◌∷◌, ◌&&◌, leb, eqb,
  if◌then◌else◌, Result, ok, err,
}
use harness_single.BoundedPolicy.Codes.{Code, strip_code}

unfoldable pub is_digit : ℕ → Bool
is_digit c = leb 48 c && leb c 57

-- `str.lower`, as far as a unit letter is concerned.
unfoldable pub lower : ℕ → ℕ
lower c = if leb 65 c && leb c 90 then c + 32 else c

-- The number that digits stand for, behind `n`.
unfoldable pub value_from : ℕ → Code → ℕ
value_from n [] = n
value_from n (c ∷ s) = value_from (n * 10 + (c - 48)) s

unfoldable pub all_digits : Code → Bool
unfolding is_digit
all_digits [] = true
all_digits (c ∷ s) = if is_digit c then all_digits s else false

-- `text.isdigit()`, which holds of no empty text.
unfoldable pub is_number : Code → Bool
unfolding all_digits
is_number [] = false
is_number (c ∷ s) = all_digits (c ∷ s)

-- `value[:-1]` and `value[-1]` of a text that is not empty.
unfoldable pub initial : ℕ → Code → Code
initial c [] = []
initial c (d ∷ s) = c ∷ initial d s

unfoldable pub last : ℕ → Code → ℕ
last c [] = c
last c (d ∷ s) = last d s

pub data DurationError : Type 0 where
  invalid_duration invalid_unit : DurationError

unfoldable pub multiplier : ℕ → Option ℕ
multiplier c =
    if eqb c 115
    then some 1
    else if eqb c 109
    then some 60
    else if eqb c 104
    then some 3600
    else none

unfoldable pub parse_value : Code → Result DurationError (Option ℕ)
unfolding is_number value_from initial last lower multiplier
parse_value [] = ok none
parse_value (c ∷ s) =
    if is_number (c ∷ s)
    then ok (some (value_from 0 (c ∷ s)))
    else if not (is_number (initial c s))
    then err invalid_duration
    else elim (multiplier (lower (last c s))) [
      | none ↦ err invalid_unit
      | some m ↦ ok (some (value_from 0 (initial c s) * m))
    ]

unfoldable pub parse_duration : Option Code → Result DurationError (Option ℕ)
unfolding parse_value
parse_duration none = ok none
parse_duration (some text) = parse_value (strip_code text)
