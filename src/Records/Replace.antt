-- ===== src/Records/Replace.antt =====
-- `_replace_with_retry`: the attempts to replace a file, on Windows more than one.
use harness_single.Base.{ℕ, zero, suc, Bool, not, ◌||◌, ◌+◌, eqb, if◌then◌else◌}

-- What the system answers to one call of `os.replace`: it is done, or fails with an error number.
pub data Attempt : Type 0 where
  done : Attempt
  fails : ℕ → Attempt

-- ERROR_ACCESS_DENIED and ERROR_SHARING_VIOLATION
unfoldable pub is_retry_error : ℕ → Bool
is_retry_error code = eqb code 5 || eqb code 32

-- How the function ends, and the number of calls that it made.
pub record Replaced : Type 0 where
  pub result : Attempt
  pub calls : ℕ

-- The rounds from `attempt` on, of which `left` more may follow this one.
unfoldable pub attempts_from : Bool → (ℕ → Attempt) → ℕ → ℕ → Replaced
unfolding is_retry_error
attempts_from windows answer zero attempt = record { result = answer attempt; calls = attempt + 1 }
attempts_from windows answer (suc left) attempt =
    let later = attempts_from windows answer left (attempt + 1) in
    elim (answer attempt) [
      | done ↦ record { result = done; calls = attempt + 1 }
      | fails code ↦
          if not windows || not (is_retry_error code)
          then record { result = fails code; calls = attempt + 1 }
          else later
    ]

-- `answer attempt` is the answer to the call of that round.
unfoldable pub replace_with_retry : Bool → (ℕ → Attempt) → Replaced
unfolding attempts_from
replace_with_retry windows answer = attempts_from windows answer 4 0
