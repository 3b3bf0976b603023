-- ===== src/BoundedPolicy/Guard.antt =====
-- `is_excluded` and `guard_pre_tool_use`. Git and the file system are parameters: what `git check-ignore`
-- answers, and where a script lies.
use harness_single.Base.{
  Bool, true, false, not, Option, none, some, List, [], ◌∷◌, ◌&&◌, if◌then◌else◌, ok, err,
}
use harness_single.Base.Json.{Fields, get, as_object, as_text}
use harness_single.BoundedPolicy.Codes.{Code}
use harness_single.BoundedPolicy.Segments.{command_segments}
use harness_single.BoundedPolicy.Launchers.{
  codes_of, Launchers, LaunchersFile, policy_error, decode_error, load_launchers,
}
use harness_single.BoundedPolicy.Covered.{covered_segment, starts_with}

-- What became of one run of `git check-ignore --verbose`: the source and the pattern of its match.
pub data GitAnswer : Type 0 where
  not_started failed no_match unreadable_match : GitAnswer
  matched : (source pattern : Code) → GitAnswer

-- The surroundings of one guard call.
pub record Policy : Type 0 where
  -- `shlex.split(segment, posix=False)`, none where it raises
  pub split : Code → Option (List Code)
  -- the resolved path relative to the policy root, none outside of it
  pub relative : Code → Option Code
  pub git : Code → GitAnswer
  -- whether a source is the provider's exclusion file
  pub is_exclusion_file : Code → Bool
  pub launchers_file : LaunchersFile
  pub exclusions_readable : Bool

unfoldable pub judge : Policy → GitAnswer → Option Bool
unfolding starts_with
judge p not_started = none
judge p failed = none
judge p no_match = some false
judge p unreadable_match = none
judge p (matched source pattern) =
    some (p.is_exclusion_file source && not (starts_with (codes_of "!") pattern))

-- `is_excluded`; `none` is its BoundedPolicyError.
unfoldable pub is_excluded : Policy → Code → Option Bool
unfolding judge
is_excluded p script = elim (p.relative script) [
  | none ↦ some false
  | some path ↦ judge p (p.git path)
]

-- The invocations of the covered parts.
unfoldable pub covered_invocations : Policy → Launchers → List Code → List (Option Code)
unfolding covered_segment
covered_invocations p l [] = []
covered_invocations p l (segment ∷ segments) =
    let rest = covered_invocations p l segments in
    elim (covered_segment p.split l segment) [ none ↦ rest | some script ↦ script ∷ rest ]

-- `all(...)` of the invocations, which stops at the first that is not excluded.
unfoldable pub all_excluded : Policy → List (Option Code) → Option Bool
unfolding is_excluded
all_excluded p [] = some true
all_excluded p (none ∷ rest) = some false
all_excluded p (some script ∷ rest) =
    let others = all_excluded p rest in
    elim (is_excluded p script) [ none ↦ none | some b ↦ if b then others else some false ]

-- An empty object, a denial for one of the two reasons, or an exception that leaves the guard.
pub data Decision : Type 0 where
  pass deny_configuration deny_uncovered raised : Decision

unfoldable pub decide : Policy → List (Option Code) → Decision
unfolding all_excluded
decide p [] = pass
decide p (script ∷ scripts) = elim (all_excluded p (script ∷ scripts)) [
  | none ↦ deny_configuration
  | some b ↦ if b then pass else deny_uncovered
]

unfoldable pub guard_command : Policy → Code → Decision
unfolding covered_invocations decide
guard_command p command = elim (load_launchers p.launchers_file) [
  | err policy_error ↦ deny_configuration
  | err decode_error ↦ raised
  | ok l ↦
      if not p.exclusions_readable
      then deny_configuration
      else decide p (covered_invocations p l (command_segments command))
]

-- The payload's `tool_input.command`, if it is a text.
unfoldable pub guard_pre_tool_use : Policy → Fields → Decision
unfolding guard_command
guard_pre_tool_use p payload =
    elim (as_text (get "command" (as_object (get "tool_input" payload)))) [
      | none ↦ pass
      | some command ↦ guard_command p (codes_of command)
    ]
