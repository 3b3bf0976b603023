-- ===== src/Base/Dict.antt =====
-- A dictionary with text keys, or a folder of files by name.
use harness_single.Base.Tests.{if◌then◌else◌, ◌==◌}
use Prim.Native.String.{String}
use mathlib.Core.Path.{◌≡◌}
use mathlib.Core.Option.{Option, none, some}
use mathlib.Core.List.{List, [], ◌∷◌}
use native.Mathlib.Omega.{arith}
use text.Mathlib.TextEquality.{eq_iff}

abbrev pub Dict {ℓ} : Type ℓ → Type ℓ
Dict V = List (String × V)

module _ {ℓ} {V : Type ℓ} where
  unfoldable pub lookup : String → Dict V → Option V
  lookup name [] = none
  lookup name (entry ∷ rest) = if entry.0 == name then some entry.1 else lookup name rest

  -- Writes an entry: in its place if the name is there, else at the end.
  unfoldable pub insert : String → V → Dict V → Dict V
  insert name content [] = (name, content) ∷ []
  insert name content (entry ∷ rest) =
      let kept = entry ∷ insert name content rest in
      if entry.0 == name then (name, content) ∷ rest else kept

  unfoldable pub remove : String → Dict V → Dict V
  remove name [] = []
  remove name (entry ∷ rest) =
      let others = remove name rest in if entry.0 == name then others else entry ∷ others

  -- What a write and a deletion of one name do to the entry of any name.
  module _ (name asked : String) where
    pub lookup-insert :
        (content : V) (files : Dict V)
        → lookup asked (insert name content files)
          ≡ (if name == asked then some content else lookup asked files)
    unfolding insert lookup
    lookup-insert content [] = ground arith
    lookup-insert content (entry ∷ rest) = ground (
      arith,
      lookup-insert content rest,
      eq_iff entry.0 name,
      eq_iff entry.0 asked,
      eq_iff name asked,
    )

    pub lookup-remove :
        (files : Dict V)
        → lookup asked (remove name files) ≡ (if name == asked then none else lookup asked files)
    unfolding remove lookup
    lookup-remove [] = ground arith
    lookup-remove (entry ∷ rest) =
        ground
          (arith, lookup-remove rest, eq_iff entry.0 name, eq_iff entry.0 asked, eq_iff name asked)
