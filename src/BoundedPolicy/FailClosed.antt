-- ===== src/BoundedPolicy/FailClosed.antt =====
-- What the guard lets pass.
use harness_single.Base.{
  true, false, Option, none, some, List, [], ◌∷◌, ◌≡◌, ◌↔◌, refl, subst, arith, All, Bool-cases,
  Option-cases, inl, inr, ok, err, Result-cases, ◌≢◌,
}
use harness_single.BoundedPolicy.Codes.{Code}
use harness_single.BoundedPolicy.Segments.{command_segments}
use harness_single.BoundedPolicy.Launchers.{
  Launchers, LaunchersFile, unusable, undecodable, of_object, policy_error, decode_error,
  launchers_of, load_launchers,
}
use harness_single.BoundedPolicy.Covered.{covered_segment}
use harness_single.BoundedPolicy.Guard.{
  Policy, is_excluded, covered_invocations, all_excluded, pass, raised, decide, guard_command,
}

-- The script of an invocation is known, lies in the policy root, and its match is one of the provider's
-- exclusion file and not negated.
abbrev pub IsExcluded : Policy → Option Code → Type 0
IsExcluded p invocation =
    (script : Code) × (invocation ≡ some script) × (is_excluded p script ≡ some true)

-- A part of a command that runs no covered script, or an excluded one.
abbrev pub IsPermitted : Policy → Launchers → Code → Type 0
IsPermitted p l segment =
    (invocation : Option Code)
    → covered_segment p.split l segment ≡ some invocation
    → IsExcluded p invocation

-- The policy files can be read, and each part of the command is permitted.
pub record IsAllowed (p : Policy) (command : Code) : Type 0 where
  pub launchers : Launchers
  pub loaded : load_launchers p.launchers_file ≡ ok launchers
  pub exclusions : p.exclusions_readable ≡ true
  pub permitted : All (IsPermitted p launchers) (command_segments command)

undecodable_only :
    (file : LaunchersFile) → load_launchers file ≡ err decode_error → file ≡ undecodable
unfolding load_launchers
undecodable_only unusable h = absurd (ground arith)
undecodable_only undecodable h = refl
undecodable_only (of_object r) h = elim (Option-cases (launchers_of r)) [
  | inl e ↦ absurd (ground arith)
  | inr (l, e) ↦ absurd (ground arith)
]

module _ (p : Policy) where
  all_excluded_to :
      (scripts : List (Option Code))
      → all_excluded p scripts ≡ some true
      → All (IsExcluded p) scripts
  unfolding all_excluded
  all_excluded_to [] h = tt
  all_excluded_to (none ∷ rest) h = absurd (ground arith)
  all_excluded_to (some script ∷ rest) h = elim (Option-cases (is_excluded p script)) [
    | inl e ↦ absurd (ground arith)
    | inr (true, e) ↦ ((script, refl, e), all_excluded_to rest (ground arith))
    | inr (false, e) ↦ absurd (ground arith)
  ]

  all_excluded_from :
      (scripts : List (Option Code))
      → All (IsExcluded p) scripts
      → all_excluded p scripts ≡ some true
  unfolding all_excluded
  all_excluded_from [] h = refl
  all_excluded_from (invocation ∷ rest) ((script, e, k), later) =
      rw (e, all_excluded, k) (all_excluded_from rest later)

  decide_to : (scripts : List (Option Code)) → decide p scripts ≡ pass → All (IsExcluded p) scripts
  unfolding decide
  decide_to [] h = tt
  decide_to (script ∷ scripts) h = elim (Option-cases (all_excluded p (script ∷ scripts))) [
    | inl e ↦ absurd (ground arith)
    | inr (true, e) ↦ all_excluded_to (script ∷ scripts) e
    | inr (false, e) ↦ absurd (ground arith)
  ]

  decide_from :
      (scripts : List (Option Code)) → All (IsExcluded p) scripts → decide p scripts ≡ pass
  unfolding decide
  decide_from [] h = refl
  decide_from (script ∷ scripts) h = rw (decide, all_excluded_from (script ∷ scripts) h) refl

  module _ (l : Launchers) where
    covered_to :
        (segments : List Code)
        → All (IsExcluded p) (covered_invocations p l segments)
        → All (IsPermitted p l) segments
    unfolding covered_invocations
    covered_to [] h = tt
    covered_to (segment ∷ segments) h = elim (Option-cases (covered_segment p.split l segment)) [
      | inl e ↦
          let rest : covered_invocations p l (segment ∷ segments)
              ≡ covered_invocations p l segments =
            rw (covered_invocations, e) refl in
          (
            λ invocation k. absurd (ground arith),
            covered_to segments (subst (All (IsExcluded p)) rest h),
          )
      | inr (script, e) ↦
          let rest : covered_invocations p l (segment ∷ segments)
              ≡ script ∷ covered_invocations p l segments =
            rw (covered_invocations, e) refl in
          let (now, later) = subst (All (IsExcluded p)) rest h in
          (λ invocation k. subst (IsExcluded p) (ground arith) now, covered_to segments later)
    ]

    covered_from :
        (segments : List Code)
        → All (IsPermitted p l) segments
        → All (IsExcluded p) (covered_invocations p l segments)
    unfolding covered_invocations
    covered_from [] h = tt
    covered_from (segment ∷ segments) (now, later) =
        elim (Option-cases (covered_segment p.split l segment)) [
          | inl e ↦ rw (covered_invocations, e) (covered_from segments later)
          | inr (script, e) ↦
              rw (covered_invocations, e) (now script e, covered_from segments later)
        ]

  passes_only : (command : Code) → guard_command p command ≡ pass → IsAllowed p command
  unfolding guard_command
  passes_only command h = elim (Result-cases (load_launchers p.launchers_file)) [
    | inr (policy_error, e) ↦ absurd (ground arith)
    | inr (decode_error, e) ↦ absurd (ground arith)
    | inl (l, e) ↦ elim (Bool-cases p.exclusions_readable) [
      | inr x ↦ absurd (ground arith)
      | inl x ↦ record {
        launchers = l;
        loaded = e;
        exclusions = x;
        permitted =
            covered_to l (command_segments command)
              (decide_to (covered_invocations p l (command_segments command)) (ground arith));
      }
    ]
  ]

  decides : (scripts : List (Option Code)) → decide p scripts ≢ raised
  unfolding decide
  decides [] h = ground arith
  decides (script ∷ scripts) h = elim (Option-cases (all_excluded p (script ∷ scripts))) [
    | inl e ↦ absurd (ground arith)
    | inr (true, e) ↦ absurd (ground arith)
    | inr (false, e) ↦ absurd (ground arith)
  ]

  raises_only : (command : Code) → guard_command p command ≡ raised → p.launchers_file ≡ undecodable
  unfolding guard_command
  raises_only command h = elim (Result-cases (load_launchers p.launchers_file)) [
    | inr (policy_error, e) ↦ absurd (ground arith)
    | inr (decode_error, e) ↦ undecodable_only p.launchers_file e
    | inl (l, e) ↦ elim (Bool-cases p.exclusions_readable) [
      | inr x ↦ absurd (ground arith)
      | inl x ↦ absurd (decides (covered_invocations p l (command_segments command)) (ground arith))
    ]
  ]

  pub guard_command-IsAllowed :
      (command : Code)
      → ((guard_command p command ≡ pass) ↔ IsAllowed p command)
        × ((guard_command p command ≡ raised) ↔ (p.launchers_file ≡ undecodable))
  unfolding guard_command load_launchers
  guard_command-IsAllowed command = (
    (
      passes_only command,
      λ a.
          simp (guard_command, a.loaded, a.exclusions)
            (decide_from (covered_invocations p a.launchers (command_segments command))
              (covered_from a.launchers (command_segments command) a.permitted)),
    ),
    (raises_only command, λ e. rw (guard_command, e, load_launchers) refl),
  )
