-- ===== src/Processes.antt =====
-- What the lease code asks of the operating system through orchestrator_harness/processes.py.
use harness_single.Base.{ℕ, String, Bool, false, Option, none, some, ◌==◌, if◌then◌else◌}
use harness_single.Base.Json.{Json, as_pid, nonempty_text}

-- The process table: whether a process with the number is alive, and its creation time, if the
-- system can prove it.
pub record ProcessTable : Type 0 where
  pub alive : ℕ → Bool
  pub creation_time : ℕ → Option String

-- `current is not None and current["creation_time"] == creation_time`
unfoldable pub created_at : Option String → String → Bool
created_at none t = false
created_at (some c) t = c == t

-- `identity_matches` of a number and a creation time that have their required form.
unfoldable pub same_process : ProcessTable → ℕ → String → Bool
unfolding created_at
same_process os pid t = if os.alive pid then created_at (os.creation_time pid) t else false

-- `identity_matches` of recorded values: whether they name a live incarnation of a process.
unfoldable pub identity_matches : ProcessTable → Option Json → Option Json → Bool
unfolding same_process
identity_matches os pid creation = elim (as_pid pid) [
  | none ↦ false
  | some n ↦ elim (nonempty_text creation) [ none ↦ false | some t ↦ same_process os n t ]
]
