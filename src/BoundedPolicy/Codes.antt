-- ===== src/BoundedPolicy/Codes.antt =====
-- Texts as lists of code points: stripping, and the characters that the scanner knows.
use harness_single.Base.{
  ℕ, zero, suc, Bool, true, false, List, [], ◌∷◌, ◌++◌, ◌&&◌, if◌then◌else◌, Bool-cases, inl, inr,
}
use harness_single.Base.Text.{is_space_code}

abbrev pub Code : Type 0
Code = List ℕ

unfoldable pub is_empty : Code → Bool
is_empty [] = true
is_empty (c ∷ s) = false

unfoldable pub strip_left : Code → Code
strip_left [] = []
strip_left (c ∷ s) = let rest = strip_left s in if is_space_code c then rest else c ∷ s

unfoldable pub strip_right : Code → Code
unfolding is_empty
strip_right [] = []
strip_right (c ∷ s) =
    let rest = strip_right s in if is_space_code c && is_empty rest then [] else c ∷ rest

-- `text.strip()`
unfoldable pub strip_code : Code → Code
strip_code s = strip_right (strip_left s)

-- Backtick, quotes, separators.
abbrev pub backtick : ℕ
backtick = 96

abbrev pub double_quote : ℕ
double_quote = 34

abbrev pub single_quote : ℕ
single_quote = 39

abbrev pub semicolon : ℕ
semicolon = 59

abbrev pub bar : ℕ
bar = 124

abbrev pub ampersand : ℕ
ampersand = 38

abbrev pub carriage_return : ℕ
carriage_return = 13

abbrev pub line_feed : ℕ
line_feed = 10

module _ {ℓ} {A : Type ℓ} where
  abbrev pub drop : ℕ → List A → List A
  drop zero xs = xs
  drop (suc n) [] = []
  drop (suc n) (x ∷ xs) = drop n xs

-- `s` arises from `t` by leaving characters out.
pub data IsPart : Code → Code → Type 0 where
  done : IsPart [] []
  skip : {s t : Code} (c : ℕ) → IsPart s t → IsPart s (c ∷ t)
  keep : {s t : Code} (c : ℕ) → IsPart s t → IsPart (c ∷ s) (c ∷ t)

pub IsPart-refl : (s : Code) → IsPart s s
IsPart-refl [] = done
IsPart-refl (c ∷ s) = keep c (IsPart-refl s)

pub IsPart-nil : (s : Code) → IsPart [] s
IsPart-nil [] = done
IsPart-nil (c ∷ s) = skip c (IsPart-nil s)

pub IsPart-trans : {r s t : Code} → IsPart r s → IsPart s t → IsPart r t
IsPart-trans p done = p
IsPart-trans p (skip c q) = skip c (IsPart-trans p q)
IsPart-trans (skip c p) (keep c' q) = skip c' (IsPart-trans p q)
IsPart-trans (keep c p) (keep c' q) = keep c' (IsPart-trans p q)

pub IsPart-append : {r s t u : Code} → IsPart r s → IsPart t u → IsPart (r ++ t) (s ++ u)
IsPart-append done q = q
IsPart-append (skip c p) q = skip c (IsPart-append p q)
IsPart-append (keep c p) q = keep c (IsPart-append p q)

strip_left-IsPart : (s : Code) → IsPart (strip_left s) s
unfolding strip_left
strip_left-IsPart [] = done
strip_left-IsPart (c ∷ s) = elim (Bool-cases (is_space_code c)) [
  | inl e ↦ rw e (skip c (strip_left-IsPart s))
  | inr e ↦ rw e (IsPart-refl (c ∷ s))
]

strip_right-IsPart : (s : Code) → IsPart (strip_right s) s
unfolding strip_right
strip_right-IsPart [] = done
strip_right-IsPart (c ∷ s) = elim (Bool-cases (is_space_code c && is_empty (strip_right s))) [
  | inl e ↦ rw e (IsPart-nil (c ∷ s))
  | inr e ↦ rw e (keep c (strip_right-IsPart s))
]

pub strip_code-IsPart : (s : Code) → IsPart (strip_code s) s
unfolding strip_code
strip_code-IsPart s = IsPart-trans (strip_right-IsPart (strip_left s)) (strip_left-IsPart s)
