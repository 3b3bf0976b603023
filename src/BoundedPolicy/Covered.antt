-- ===== src/BoundedPolicy/Covered.antt =====
-- `_covered_segment`: the script that a part of a command runs through a covered launcher.
use harness_single.Base.{
  ℕ, Bool, true, false, Option, none, some, List, [], ◌∷◌, ◌||◌, eqb, if◌then◌else◌,
}
use harness_single.BoundedPolicy.Codes.{Code}
use harness_single.BoundedPolicy.Launchers.{
  codes_of, same_code, is_in, casefold, strip_quotes, launcher_name, Launchers,
}

unfoldable pub starts_with : Code → Code → Bool
starts_with [] s = true
starts_with (c ∷ p) [] = false
starts_with (c ∷ p) (d ∷ s) = if eqb c d then starts_with p s else false

unfoldable pub contains : ℕ → Code → Bool
contains c [] = false
contains c (d ∷ s) = if eqb c d then true else contains c s

unfoldable pub head : List Code → Option Code
head [] = none
head (s ∷ rest) = some s

-- `-c` and `-m` run something else than a script.
unfoldable pub runs_no_script : Code → Bool
unfolding starts_with
runs_no_script lowered = starts_with (codes_of "-c") lowered || starts_with (codes_of "-m") lowered

-- The loop of `_python_script`: `-w` and `-x` take the next argument along.
unfoldable pub python_script : List Code → Option Code
unfolding casefold runs_no_script starts_with
python_script [] = none
python_script (a ∷ []) = if starts_with (codes_of "-") (casefold a) then none else some a
python_script (a ∷ b ∷ rest) =
    let next = python_script (b ∷ rest) in
    let behind = python_script rest in
    let lowered = casefold a in
    if runs_no_script lowered
    then none
    else if is_in lowered (codes_of "-w" ∷ codes_of "-x" ∷ [])
    then behind
    else if same_code lowered (codes_of "--")
    then some b
    else if starts_with (codes_of "-") lowered
    then next
    else some a

-- `"c" in lowered[1:]` of an option.
unfoldable pub takes_command : Code → Bool
unfolding contains
takes_command [] = false
takes_command (c ∷ s) = contains 99 s

unfoldable pub shell_script : List Code → Option Code
unfolding casefold starts_with takes_command
shell_script [] = none
shell_script (a ∷ rest) =
    let next = shell_script rest in
    let lowered = casefold a in
    if same_code lowered (codes_of "--")
    then next
    else if starts_with (codes_of "-") lowered
    then if takes_command lowered then none else next
    else some a

-- `while values and values[0] in {"&", "."}: values.pop(0)`
unfoldable pub drop_call_operators : List Code → List Code
drop_call_operators [] = []
drop_call_operators (v ∷ values) =
    let rest = drop_call_operators values in
    if is_in v (codes_of "&" ∷ codes_of "." ∷ []) then rest else v ∷ values

-- What stands behind the first `run`.
unfoldable pub behind_run : List Code → Option (List Code)
unfolding casefold
behind_run [] = none
behind_run (v ∷ values) =
    let rest = behind_run values in
    if same_code (casefold v) (codes_of "run") then some values else rest

-- The invocation through the first Python launcher among the values.
unfoldable pub python_among : List Code → List Code → Option (Option Code)
unfolding python_script launcher_name
python_among names [] = none
python_among names (v ∷ values) =
    let rest = python_among names values in
    if is_in (launcher_name v) names then some (python_script values) else rest

-- The operand of `-file` or `-f`.
unfoldable pub file_operand : List Code → Option (Option Code)
unfolding casefold head
file_operand [] = none
file_operand (v ∷ values) =
    let rest = file_operand values in
    if is_in (casefold v) (codes_of "-file" ∷ codes_of "-f" ∷ []) then some (head values) else rest

unfoldable pub ends_with : Code → Code → Bool
unfolding same_code
ends_with suffix [] = same_code suffix []
ends_with suffix (c ∷ s) = if same_code suffix (c ∷ s) then true else ends_with suffix s

-- The shell launcher, and its arguments.
unfoldable pub shell_at : Launchers → Code → List Code → Option (Option Code)
unfolding shell_script launcher_name
shell_at l v values =
    if is_in (launcher_name v) l.posix_shell then some (shell_script values) else none

unfoldable pub shell_covered : Launchers → Code → List Code → Option (Option Code)
unfolding shell_at
shell_covered l v [] = shell_at l v []
shell_covered l v (w ∷ values) =
    if same_code (launcher_name v) (codes_of "wsl")
    then shell_at l w values
    else shell_at l v (w ∷ values)

-- From the test on Python launchers on.
unfoldable pub covered_values : Launchers → Code → List Code → Option (Option Code)
unfolding python_script file_operand shell_covered ends_with launcher_name
covered_values l v values =
    let first = launcher_name v in
    if is_in first l.python_script
    then some (python_script values)
    else if is_in first l.powershell_file
    then file_operand values
    else if ends_with (codes_of ".ps1") (casefold v)
    then some (some v)
    else shell_covered l v values

-- `uv run`: the first Python launcher behind `run`.
unfoldable pub uv_covered : Launchers → Code → List Code → Option (Option Code)
unfolding behind_run python_among
uv_covered l v values =
    if same_code (launcher_name v) (codes_of "uv")
    then elim (behind_run values) [ none ↦ none | some rest ↦ python_among l.python_script rest ]
    else none

unfoldable pub covered_tokens : Launchers → List Code → Option (Option Code)
unfolding uv_covered covered_values
covered_tokens l [] = none
covered_tokens l (v ∷ values) = elim (uv_covered l v values) [
  | some invocation ↦ some invocation
  | none ↦ covered_values l v values
]

unfoldable pub unquoted_tokens : List Code → List Code
unfolding strip_quotes
unquoted_tokens [] = []
unquoted_tokens (v ∷ values) = strip_quotes v ∷ unquoted_tokens values

-- `split` is `shlex.split(segment, posix=False)`, with none where it raises.
unfoldable pub covered_segment :
    (Code → Option (List Code)) → Launchers → Code → Option (Option Code)
unfolding unquoted_tokens drop_call_operators covered_tokens
covered_segment split l segment = elim (split segment) [
  | none ↦ none
  | some values ↦ covered_tokens l (drop_call_operators (unquoted_tokens values))
]
