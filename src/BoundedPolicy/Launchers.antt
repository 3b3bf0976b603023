-- ===== src/BoundedPolicy/Launchers.antt =====
-- `load_launchers` and `_launcher_name`. `str.casefold` folds the letters of ASCII here.
use Prim.Native.Char.{code}
use Prim.Native.String.{[] as empty, ◌∷◌ as char_then}
use harness_single.Base.{
  ℕ, ◌+◌, String, Bool, true, false, Option, none, some, List, [], ◌∷◌, ◌&&◌, ◌||◌, eqb, leb,
  if◌then◌else◌, same_option, Result, ok, err,
}
use harness_single.Base.Text.{is_blank}
use harness_single.Base.Json.{Json, text, array, object, Items, nil, cons, Fields, get, as_text}
use harness_single.BoundedPolicy.Codes.{Code, single_quote, double_quote, is_empty}
use harness_single.Config.Manifest.{keys_among}

-- The code points of a text.
unfoldable pub codes_of : String → Code
codes_of empty = []
codes_of (char_then c s) = code c ∷ codes_of s

unfoldable pub same_code : Code → Code → Bool
same_code [] [] = true
same_code (c ∷ s) (d ∷ t) = if eqb c d then same_code s t else false
same_code _ _ = false

unfoldable pub is_in : Code → List Code → Bool
unfolding same_code
is_in s [] = false
is_in s (t ∷ ts) = if same_code s t then true else is_in s ts

unfoldable pub casefold : Code → Code
casefold [] = []
casefold (c ∷ s) = (if leb 65 c && leb c 90 then c + 32 else c) ∷ casefold s

unfoldable pub is_quote_mark : ℕ → Bool
is_quote_mark c = eqb c double_quote || eqb c single_quote

unfoldable pub strip_left_quotes : Code → Code
unfolding is_quote_mark
strip_left_quotes [] = []
strip_left_quotes (c ∷ s) =
    let rest = strip_left_quotes s in if is_quote_mark c then rest else c ∷ s

unfoldable pub strip_right_quotes : Code → Code
unfolding is_quote_mark
strip_right_quotes [] = []
strip_right_quotes (c ∷ s) =
    let rest = strip_right_quotes s in if is_quote_mark c && is_empty rest then [] else c ∷ rest

-- `text.strip("\"'")`
unfoldable pub strip_quotes : Code → Code
unfolding strip_left_quotes strip_right_quotes
strip_quotes s = strip_right_quotes (strip_left_quotes s)

-- `text.replace("\\", "/").rsplit("/", 1)[-1]`: what stands behind the last slash of either kind.
unfoldable pub has_slash : Code → Bool
has_slash [] = false
has_slash (c ∷ s) = if eqb c 47 || eqb c 92 then true else has_slash s

unfoldable pub base_name : Code → Code
unfolding has_slash
base_name [] = []
base_name (c ∷ s) =
    let rest = base_name s in
    if eqb c 47 || eqb c 92 then rest else if has_slash s then rest else c ∷ s

-- `name[:-4] if name.endswith(".exe") else name`
unfoldable pub drop_exe : Code → Code
unfolding same_code
drop_exe [] = []
drop_exe (c ∷ s) =
    let rest = drop_exe s in if same_code (c ∷ s) (codes_of ".exe") then [] else c ∷ rest

unfoldable pub launcher_name : Code → Code
unfolding strip_quotes base_name casefold drop_exe
launcher_name token = drop_exe (casefold (base_name (strip_quotes token)))

-- The three categories.
pub record Launchers : Type 0 where
  pub python_script : List Code
  pub powershell_file : List Code
  pub posix_shell : List Code

-- The names of one category; `none` raises.
unfoldable pub launcher_names : Items → Option (List Code)
unfolding launcher_name
launcher_names nil = some []
launcher_names (cons (text s) rest) =
    let others = launcher_names rest in
    if is_blank s
    then none
    else elim others [ none ↦ none | some names ↦ some (launcher_name (codes_of s) ∷ names) ]
launcher_names (cons _ rest) = none

unfoldable pub category : String → Fields → Option (List Code)
unfolding launcher_names
category key categories = elim (get key categories) [
  | none ↦ none
  | some v ↦ elim v [ array items ↦ launcher_names items | _ ↦ none ]
]

unfoldable pub as_fields : Option Json → Option Fields
as_fields (some (object r)) = some r
as_fields _ = none

unfoldable pub read_categories : Fields → Option Launchers
unfolding category
read_categories categories =
    if keys_among ("python_script" ∷ "powershell_file" ∷ "posix_shell" ∷ []) categories
    then elim (category "python_script" categories) [
      | none ↦ none
      | some python ↦ elim (category "powershell_file" categories) [
        | none ↦ none
        | some powershell ↦ elim (category "posix_shell" categories) [
          | none ↦ none
          | some posix ↦
              some (record {
                python_script = python;
                powershell_file = powershell;
                posix_shell = posix;
              })
        ]
      ]
    ]
    else none

-- The checks of the value that was read; `none` is a BoundedPolicyError.
unfoldable pub launchers_of : Fields → Option Launchers
unfolding as_fields read_categories
launchers_of r =
    if keys_among ("schema" ∷ "launcher_categories" ∷ []) r
      && same_option (as_text (get "schema" r)) (some "bounded-launchers/v1")
    then elim (as_fields (get "launcher_categories" r)) [
      | none ↦ none
      | some categories ↦ read_categories categories
    ]
    else none

-- What reading the launcher file gives: no JSON object (an OSError, malformed JSON or another
-- value), bytes that are no UTF-8, or an object.
pub data LaunchersFile : Type 0 where
  unusable undecodable : LaunchersFile
  of_object : Fields → LaunchersFile

-- BoundedPolicyError, or the UnicodeDecodeError of `path.read_text`, which is not caught.
pub data LoadError : Type 0 where
  policy_error decode_error : LoadError

unfoldable pub load_launchers : LaunchersFile → Result LoadError Launchers
unfolding launchers_of
load_launchers unusable = err policy_error
load_launchers undecodable = err decode_error
load_launchers (of_object r) = elim (launchers_of r) [ none ↦ err policy_error | some l ↦ ok l ]
