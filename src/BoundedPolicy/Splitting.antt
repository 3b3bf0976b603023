-- ===== src/BoundedPolicy/Splitting.antt =====
-- What the parts of a command chain are.
use harness_single.Base.{
  ℕ, zero, suc, ap, sym, ◌∙◌, Bool, true, false, not, Option, none, some, List, [], ◌∷◌, ◌++◌, ◌≡◌,
  refl, arith, eqb, ◌&&◌, if◌then◌else◌, Bool-cases, inl, inr, All,
}
use mathlib.Core.List.{append_assoc, append-nil}
use harness_single.BoundedPolicy.Codes.{
  Code, is_empty, strip_code, strip_right, strip_left, backtick, semicolon, ampersand, IsPart,
}
use harness_single.BoundedPolicy.Segments.{
  flush, scan, round, takes, separates, is_quote, is_separator, command_segments, concat,
  scan-IsPart,
}

-- The parts of a command hold characters of the command only, in their order: the parts, one after
-- the other, arise from the command by leaving characters out.
pub command_segments-IsPart : (command : Code) → IsPart (concat (command_segments command)) command
unfolding command_segments
command_segments-IsPart command = scan-IsPart 0 none [] command

abbrev pub IsNotEmpty : Code → Type 0
IsNotEmpty p = is_empty p ≡ false

flush-All :
    (current : Code) (parts : List Code)
    → All IsNotEmpty parts
    → All IsNotEmpty (flush current parts)
unfolding flush
flush-All current parts h = elim (Bool-cases (is_empty (strip_code current))) [
  | inl e ↦ rw e h
  | inr e ↦ rw e (e, h)
]

scan-All : (k : ℕ) (quote : Option ℕ) (current s : Code) → All IsNotEmpty (scan k quote current s)
unfolding scan
scan-All zero quote current [] = flush-All current [] tt
scan-All (suc k) quote current [] = flush-All current [] tt
scan-All (suc k) quote current (c ∷ s) = scan-All k quote current s
scan-All zero quote current (c ∷ s) = elim (Bool-cases (round quote c s).splits) [
  | inl e ↦
      rw e (flush-All current _ (scan-All (round quote c s).extra (round quote c s).quote [] s))
  | inr e ↦ rw e (scan-All (round quote c s).extra (round quote c s).quote _ s)
]

-- No part of a command is empty.
pub command_segments-All : (command : Code) → All IsNotEmpty (command_segments command)
unfolding command_segments
command_segments-All command = scan-All 0 none [] command

-- No quote, backtick, separator or ampersand.
unfoldable pub is_plain : ℕ → Bool
unfolding is_quote is_separator
is_plain c =
    not (is_quote c) && not (is_separator c) && not (eqb c ampersand) && not (eqb c backtick)

-- Neither the quote nor a backtick.
unfoldable pub is_body : ℕ → Code → Bool
is_body q [] = true
is_body q (c ∷ s) = not (eqb c q) && not (eqb c backtick) && is_body q s

-- A text of plain characters and of quoted stretches, in which anything but the quote and the
-- backtick may stand, separators too.
pub data IsClosed : Code → Type 0 where
  stop : IsClosed []
  plain : (c : ℕ) {s : Code} → is_plain c ≡ true → IsClosed s → IsClosed (c ∷ s)
  quoted :
      (q : ℕ) (body : Code) {s : Code}
      → is_quote q ≡ true
      → is_body q body ≡ true
      → IsClosed s
      → IsClosed (q ∷ (body ++ q ∷ s))

-- Rounds that take a character, or end a part.
takes_step :
    (quote : Option ℕ) {quote' : Option ℕ} (c : ℕ) (s current : Code)
    → round quote c s ≡ takes (c ∷ []) quote' 0
    → scan 0 quote current (c ∷ s) ≡ scan 0 quote' (current ++ c ∷ []) s
unfolding scan
takes_step quote c s current e = rw e refl

separates_step :
    (quote : Option ℕ) (c : ℕ) (s current : Code) {n : ℕ}
    → round quote c s ≡ separates n
    → scan 0 quote current (c ∷ s) ≡ flush current (scan n none [] s)
unfolding scan
separates_step quote c s current e = rw e refl

closing_quote :
    (q : ℕ) (s : Code) → eqb q backtick ≡ false → round (some q) q s ≡ takes (q ∷ []) none 0
unfolding round
closing_quote q [] h = ground arith
closing_quote q (d ∷ s) h = ground arith

body_round :
    (q c : ℕ) (s : Code)
    → eqb c q ≡ false
    → eqb c backtick ≡ false
    → round (some q) c s ≡ takes (c ∷ []) (some q) 0
unfolding round
body_round q c [] h k = ground arith
body_round q c (d ∷ s) h k = ground arith

scan_body :
    (q : ℕ) (body current rest : Code)
    → eqb q backtick ≡ false
    → is_body q body ≡ true
    → scan 0 (some q) current (body ++ q ∷ rest) ≡ scan 0 none (current ++ (body ++ q ∷ [])) rest
unfolding is_body
scan_body q [] current rest k h = takes_step (some q) q rest current (closing_quote q rest k)
scan_body q (c ∷ body) current rest k h =
    takes_step (some q) c (body ++ q ∷ rest) current
      (body_round q c (body ++ q ∷ rest) (ground arith) (ground arith))
    ∙ scan_body q body (current ++ c ∷ []) rest k (ground arith)
    ∙ ap (λ t. scan 0 none t rest) (append_assoc current (c ∷ []) (body ++ q ∷ []))

plain_round : (c : ℕ) (s : Code) → is_plain c ≡ true → round none c s ≡ takes (c ∷ []) none 0
unfolding round is_plain
plain_round c [] h = ground arith
plain_round c (d ∷ s) h = ground arith

opening_quote : (q : ℕ) (s : Code) → is_quote q ≡ true → round none q s ≡ takes (q ∷ []) (some q) 0
unfolding round is_quote
opening_quote q [] h = ground arith
opening_quote q (d ∷ s) h = ground arith

quote_is_no_backtick : (q : ℕ) → is_quote q ≡ true → eqb q backtick ≡ false
unfolding is_quote
quote_is_no_backtick q h = ground arith

scan_closed :
    {s : Code}
    → IsClosed s
    → (current rest : Code) → scan 0 none current (s ++ rest) ≡ scan 0 none (current ++ s) rest
scan_closed stop current rest = ap (λ t. scan 0 none t rest) (sym (append-nil current))
scan_closed (plain c {s} h k) current rest =
    takes_step none c (s ++ rest) current (plain_round c (s ++ rest) h)
    ∙ scan_closed k (current ++ c ∷ []) rest
    ∙ ap (λ t. scan 0 none t rest) (append_assoc current (c ∷ []) s)
scan_closed (quoted q body {s} h b k) current rest =
    takes_step none q _ current (opening_quote q _ h)
    ∙ ap (λ t. scan 0 (some q) (current ++ q ∷ []) t) (append_assoc body (q ∷ s) rest)
    ∙ scan_body q body (current ++ q ∷ []) (s ++ rest) (quote_is_no_backtick q h) b
    ∙ scan_closed k ((current ++ q ∷ []) ++ (body ++ q ∷ [])) rest
    ∙ ap (λ t. scan 0 none t rest)
        (append_assoc (current ++ q ∷ []) (body ++ q ∷ []) s
          ∙ append_assoc current (q ∷ []) ((body ++ q ∷ []) ++ s)
          ∙ ap (λ t. current ++ q ∷ t) (append_assoc body (q ∷ []) s))

-- The parts with a semicolon between neighbours, and the stripped parts that are not empty.
unfoldable pub chain : List Code → Code
chain [] = []
chain (p ∷ []) = p
chain (p ∷ r ∷ ps) = p ++ semicolon ∷ chain (r ∷ ps)

abbrev pub stripped : List Code → List Code
stripped [] = []
stripped (p ∷ ps) =
    let rest = stripped ps in if is_empty (strip_code p) then rest else strip_code p ∷ rest

semicolon-round : (s : Code) → round none semicolon s ≡ separates 0
unfolding round
semicolon-round [] = refl
semicolon-round (d ∷ s) = refl

scan_part :
    (p rest : Code)
    → IsClosed p
    → scan 0 none [] (p ++ semicolon ∷ rest) ≡ flush p (scan 0 none [] rest)
scan_part p rest h =
    scan_closed h [] (semicolon ∷ rest)
    ∙ separates_step none semicolon rest p (semicolon-round rest)

scan_last : (p : Code) → IsClosed p → scan 0 none [] p ≡ flush p []
unfolding scan
scan_last p h = ap (scan 0 none []) (sym (append-nil p)) ∙ scan_closed h [] []

-- A chain of closed texts with a semicolon between neighbours is split into these texts, each
-- stripped, the blank ones left out: a separator inside quotes does not split, and each semicolon
-- outside does.
pub command_segments-chain :
    (parts : List Code) → All IsClosed parts → command_segments (chain parts) ≡ stripped parts
unfolding command_segments chain scan flush strip_code strip_right strip_left
command_segments-chain [] h = refl
command_segments-chain (p ∷ []) h = unfold flush in scan_last p h.0
command_segments-chain (p ∷ r ∷ ps) h =
    scan_part p _ h.0 ∙ ap (flush p) (command_segments-chain (r ∷ ps) h.1)
