-- ===== src/Records/Attempts.antt =====
-- When a replacement is given up.
use harness_single.Base.{
  ℕ, zero, suc, true, false, ◌+◌, ◌≤◌, ◌<◌, ◌≡◌, refl, sym, subst, arith, ltb, ◌⊎◌, Bool-cases, inl,
  inr,
}
use harness_single.Records.Replace.{
  Attempt, done, fails, is_retry_error, Replaced, attempts_from, replace_with_retry,
}

-- The attempt fails with an error for which Windows tries again.
abbrev pub IsTransient : Attempt → Type 0
IsTransient a = (code : ℕ) × (a ≡ fails code) × (is_retry_error code ≡ true)

-- The last call decides, each call before it failed transiently, and a transient failure is the
-- result only of the last attempt that is allowed.
pub record IsPatient (answer : ℕ → Attempt) (last : ℕ) (first : ℕ) (r : Replaced) : Type 0 where
  pub final : ℕ
  pub counted : r.calls ≡ final + 1
  pub decided : r.result ≡ answer final
  pub started : first ≤ final
  pub bounded : final ≤ last
  pub waited : (n : ℕ) → first ≤ n → n < final → IsTransient (answer n)
  pub exhausted : IsTransient (answer final) → final ≡ last

Attempt-cases : (a : Attempt) → (a ≡ done) ⊎ ((code : ℕ) × (a ≡ fails code))
Attempt-cases done = inl refl
Attempt-cases (fails code) = inr (code, refl)

not_both : {a : Attempt} → a ≡ done → IsTransient a → ⊥
not_both h (code, e, r) = ground arith

other_error :
    {a : Attempt} {code : ℕ} → a ≡ fails code → is_retry_error code ≡ false → IsTransient a → ⊥
other_error h other (code', e, r) = ground arith

at_or_after : (first n : ℕ) → first ≤ n → (n ≡ first) ⊎ (first + 1 ≤ n)
at_or_after first n h = elim (Bool-cases (ltb first n)) [
  | inl above ↦ inr (ground arith)
  | inr there ↦ inl (ground arith)
]

ends_at :
    (answer : ℕ → Attempt) (first last : ℕ) (r : Replaced)
    → first ≤ last
    → r.calls ≡ first + 1
    → r.result ≡ answer first
    → (IsTransient (answer first) → ⊥)
    → IsPatient answer last first r
ends_at answer first last r bounded counted decided permanent = record {
  final = first;
  counted = counted;
  decided = decided;
  started = omega arith;
  bounded = bounded;
  waited = λ n h k. absurd (omega arith);
  exhausted = λ t. absurd (permanent t);
}

attempts_from-IsPatient :
    (answer : ℕ → Attempt) (left first last : ℕ)
    → first + left ≡ last
    → IsPatient answer last first (attempts_from true answer left first)
unfolding attempts_from
attempts_from-IsPatient answer zero first last e = record {
  final = first;
  counted = refl;
  decided = refl;
  started = omega arith;
  bounded = omega arith;
  waited = λ n h k. absurd (omega arith);
  exhausted = λ t. omega arith;
}
attempts_from-IsPatient answer (suc left) first last e = elim (Attempt-cases (answer first)) [
  | inl a ↦
      ends_at answer first last _ (omega arith) (rw (attempts_from, a) refl)
        (rw (attempts_from, a) refl) (λ t. absurd (not_both a t))
  | inr (code, a) ↦ elim (Bool-cases (is_retry_error code)) [
    | inr other ↦
        ends_at answer first last _ (omega arith) (rw (attempts_from, a, other) refl)
          (rw (attempts_from, a, other) refl) (λ t. absurd (other_error a other t))
    | inl retry ↦
        let k = attempts_from-IsPatient answer left (first + 1) last (omega arith) in
        let step : attempts_from true answer (suc left) first
            ≡ attempts_from true answer left (first + 1) =
          rw (attempts_from, a, retry) refl in
        subst (IsPatient answer last first) (sym step) (record {
          final = k.final;
          counted = k.counted;
          decided = k.decided;
          started = let s = k.started in omega arith;
          bounded = k.bounded;
          waited = λ n h b. elim (at_or_after first n h) [
            | inl same ↦ subst (λ t. IsTransient (answer t)) (sym same) (code, a, retry)
            | inr after ↦ k.waited n after b
          ];
          exhausted = k.exhausted;
        })
  ]
]

-- On Windows a replacement makes at most five calls: it ends with the answer to the last of them, every
-- call before that failed transiently, and a transient failure is its result only after five calls.
pub replace_with_retry-IsPatient :
    (answer : ℕ → Attempt) → IsPatient answer 4 0 (replace_with_retry true answer)
unfolding replace_with_retry
replace_with_retry-IsPatient answer = attempts_from-IsPatient answer 4 0 4 refl
