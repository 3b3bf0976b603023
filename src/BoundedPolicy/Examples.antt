-- ===== src/BoundedPolicy/Examples.antt =====
-- A command chain with a separator inside quotes, and the theorems at it.
use harness_single.Base.{String, List, some, true, eqb, if◌then◌else◌, [], ◌∷◌, ◌≡◌, refl}
use harness_single.Base.Json.{
  get, as_text, Json, Fields, Items, field, end, object, text, array, cons, nil,
}
use harness_single.BoundedPolicy.Launchers.{codes_of, same_code, of_object, load_launchers, is_in}
use harness_single.Config.Manifest.{keys_among}
use harness_single.Base.Text.{is_space_code, is_blank}
use harness_single.BoundedPolicy.Codes.{Code, strip_code, strip_left, strip_right, is_empty}
use harness_single.BoundedPolicy.Segments.{command_segments}
use harness_single.BoundedPolicy.Guard.{
  Policy, GitAnswer, matched, no_match, pass, deny_uncovered, guard_command,
}
use harness_single.BoundedPolicy.FailClosed.{IsAllowed, guard_command-IsAllowed}
use harness_single.BoundedPolicy.Splitting.{
  IsClosed, stop, plain, quoted, is_plain, is_body, chain, stripped, command_segments-chain,
}

-- `a ';' `
abbrev first : Code
first = 97 ∷ 32 ∷ 39 ∷ 59 ∷ 39 ∷ 32 ∷ []

-- ` b`
abbrev second : Code
second = 32 ∷ 98 ∷ []

first-IsClosed : IsClosed first
unfolding is_plain is_body
first-IsClosed = plain 97 refl (plain 32 refl (quoted 39 (59 ∷ []) refl refl (plain 32 refl stop)))

second-IsClosed : IsClosed second
unfolding is_plain
second-IsClosed = plain 32 refl (plain 98 refl stop)

parts_of_first : stripped (first ∷ []) ≡ (97 ∷ 32 ∷ 39 ∷ 59 ∷ 39 ∷ []) ∷ []
unfolding strip_code strip_left strip_right is_empty is_space_code
parts_of_first = refl

command_segments-chain_example :
    command_segments (chain (first ∷ [] ∷ second ∷ [])) ≡ stripped (first ∷ [] ∷ second ∷ [])
command_segments-chain_example =
    command_segments-chain (first ∷ [] ∷ second ∷ [])
      (first-IsClosed, (stop, (second-IsClosed, tt)))

abbrev names : String → Items → Json
names s rest = array (cons (text s) rest)

abbrev launchers : Fields
launchers = field "schema" (text "bounded-launchers/v1") (
    field "launcher_categories"
      (object (
        field "python_script" (names "python" nil) (
          field "powershell_file" (names "pwsh" nil) (field "posix_shell" (names "bash" nil) end))))
      end)

-- The tokens of a text without quotes, split at its spaces.
abbrev words : Code → List Code
words [] = [] ∷ []
words (c ∷ s) =
    let rest = words s in
    if eqb c 32 then [] ∷ rest else elim rest [ [] ↦ (c ∷ []) ∷ [] | w ∷ ws ↦ (c ∷ w) ∷ ws ]

-- A repository whose exclusion file names `a.py`; another rule of the repository ignores `b.py`.
abbrev git_answer : Code → GitAnswer
git_answer path =
    if same_code path (codes_of "a.py")
    then matched (codes_of "exclusions") (codes_of "a.py")
    else if same_code path (codes_of "b.py")
    then matched (codes_of ".gitignore") (codes_of "b.py")
    else no_match

abbrev policy : Policy
policy = record {
  split = λ s. some (words s);
  relative = λ s. some s;
  git = git_answer;
  is_exclusion_file = λ s. same_code s (codes_of "exclusions");
  launchers_file = of_object launchers;
  exclusions_readable = true;
}

-- An excluded script, and a part that runs none.
abbrev excluded_command : Code
excluded_command = codes_of "python -u a.py; ls"

passed : guard_command policy excluded_command ≡ pass
unfolding guard_command load_launchers keys_among as_text get is_blank command_segments codes_of
    strip_code strip_right strip_left is_in
passed = refl

-- A script that only another rule ignores.
denied : guard_command policy (codes_of "ls; python b.py") ≡ deny_uncovered
unfolding guard_command load_launchers keys_among as_text get is_blank command_segments codes_of
    strip_code strip_right strip_left is_in
denied = refl

allowed : IsAllowed policy excluded_command
allowed = (guard_command-IsAllowed policy excluded_command).0.0 passed
