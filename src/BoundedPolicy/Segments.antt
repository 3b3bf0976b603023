-- ===== src/BoundedPolicy/Segments.antt =====
-- `command_segments`: one PowerShell command chain split at its unquoted separators.
use harness_single.Base.{
  ℕ, zero, suc, subst, ap, ◌∙◌, Bool, true, false, Option, none, some, List, [], ◌∷◌, ◌++◌, ◌≡◌,
  refl, arith, eqb, ◌&&◌, ◌||◌, if◌then◌else◌, Bool-cases, inl, inr,
}
use mathlib.Core.List.{append_assoc}
use harness_single.BoundedPolicy.Codes.{
  Code, is_empty, strip_code, backtick, double_quote, single_quote, semicolon, bar, ampersand,
  carriage_return, line_feed, IsPart, IsPart-nil, IsPart-refl, done, skip, drop, IsPart-trans,
  IsPart-append, strip_code-IsPart,
}

-- `if part := "".join(current).strip(): parts.append(part)`
unfoldable pub flush : Code → List Code → List Code
unfolding is_empty
flush current parts = if is_empty (strip_code current) then parts else strip_code current ∷ parts

-- What one round of the loop does with a character: what it appends, the quote that is open then,
-- whether it ends a part, and how many further characters it takes.
pub record Round : Type 0 where
  pub taken : Code
  pub quote : Option ℕ
  pub splits : Bool
  pub extra : ℕ

abbrev pub takes : Code → Option ℕ → ℕ → Round
takes s q n = record { taken = s; quote = q; splits = false; extra = n }

abbrev pub separates : ℕ → Round
separates n = record { taken = []; quote = none; splits = true; extra = n }

-- `quote is not None`
inside : ℕ → ℕ → Code → Round
inside q c [] = takes (c ∷ []) (if eqb c q then none else some q) 0
inside q c (d ∷ s) =
    if eqb q double_quote && eqb c backtick
    then takes (c ∷ d ∷ []) (some q) 1
    else takes (c ∷ []) (if eqb c q then none else some q) 0

-- A backtick and the character that it escapes; an escaped CR takes its LF along.
escape : ℕ → ℕ → Code → Round
escape c d [] = takes (c ∷ d ∷ []) none 1
escape c d (e ∷ s) =
    if eqb d carriage_return && eqb e line_feed
    then takes (c ∷ d ∷ e ∷ []) none 2
    else takes (c ∷ d ∷ []) none 1

unfoldable pub is_quote : ℕ → Bool
is_quote c = eqb c single_quote || eqb c double_quote

unfoldable pub is_separator : ℕ → Bool
is_separator c = eqb c semicolon || eqb c bar || eqb c carriage_return || eqb c line_feed

-- The text begins with the character.
starts : ℕ → Code → Bool
starts d [] = false
starts d (e ∷ s) = eqb e d

unquoted : ℕ → Code → Round
unfolding is_quote is_separator starts
unquoted c s =
    if is_quote c
    then takes (c ∷ []) (some c) 0
    else if is_separator c
    then separates (if eqb c bar && starts bar s then 1 else 0)
    else if eqb c ampersand && starts ampersand s
    then separates 1
    else takes (c ∷ []) none 0

outside : ℕ → Code → Round
unfolding escape unquoted
outside c [] = unquoted c []
outside c (d ∷ s) = if eqb c backtick then escape c d s else unquoted c (d ∷ s)

unfoldable pub round : Option ℕ → ℕ → Code → Round
unfolding inside outside
round (some q) c s = inside q c s
round none c s = outside c s

-- The loop, with the number of characters that the last round has taken already.
unfoldable pub scan : ℕ → Option ℕ → Code → Code → List Code
scan k quote current [] = flush current []
scan (suc k) quote current (c ∷ s) = scan k quote current s
scan zero quote current (c ∷ s) =
    let r = round quote c s in
    let rest = scan r.extra r.quote (if r.splits then [] else current ++ r.taken) s in
    if r.splits then flush current rest else rest

unfoldable pub command_segments : Code → List Code
unfolding scan round flush
command_segments command = scan 0 none [] command

-- A round that ends no part appends the characters that it takes.
round_takes :
    (quote : Option ℕ) (c : ℕ) (s : Code)
    → (round quote c s).splits ≡ false
    → (round quote c s).taken ++ drop (round quote c s).extra s ≡ c ∷ s
unfolding round
round_takes (some q) c [] h = refl
round_takes (some q) c (d ∷ s) h = ground arith
round_takes none c [] h = ground arith
round_takes none c (d ∷ []) h = ground arith
round_takes none c (d ∷ e ∷ s) h = ground arith

abbrev pub concat : List Code → Code
concat [] = []
concat (p ∷ ps) = p ++ concat ps

flush-IsPart :
    (current s : Code) (parts : List Code)
    → IsPart (concat parts) s
    → IsPart (concat (flush current parts)) (current ++ s)
unfolding flush
flush-IsPart current s parts h = elim (Bool-cases (is_empty (strip_code current))) [
  | inl e ↦ rw e (IsPart-append (IsPart-nil current) h)
  | inr e ↦ rw e (IsPart-append (strip_code-IsPart current) h)
]

drop-IsPart : (k : ℕ) (s : Code) → IsPart (drop k s) s
drop-IsPart zero s = IsPart-refl s
drop-IsPart (suc k) [] = done
drop-IsPart (suc k) (c ∷ s) = skip c (drop-IsPart k s)

pub scan-IsPart :
    (k : ℕ) (quote : Option ℕ) (current s : Code)
    → IsPart (concat (scan k quote current s)) (current ++ drop k s)
unfolding scan
scan-IsPart zero quote current [] = flush-IsPart current [] [] done
scan-IsPart (suc k) quote current [] = flush-IsPart current [] [] done
scan-IsPart (suc k) quote current (c ∷ s) = scan-IsPart k quote current s
scan-IsPart zero quote current (c ∷ s) = elim (Bool-cases (round quote c s).splits) [
  | inl e ↦
      let ih = scan-IsPart (round quote c s).extra (round quote c s).quote [] s in
      rw e (
        flush-IsPart current (c ∷ s) _
          (IsPart-trans ih (skip c (drop-IsPart (round quote c s).extra s))))
  | inr e ↦
      let r = round quote c s in
      let ih = scan-IsPart r.extra r.quote (current ++ r.taken) s in
      rw e (
        subst (λ t. IsPart (concat (scan r.extra r.quote (current ++ r.taken) s)) t)
          (append_assoc current r.taken (drop r.extra s)
            ∙ ap (λ t. current ++ t) (round_takes quote c s e))
          ih)
]
