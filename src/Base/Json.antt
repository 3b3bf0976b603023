-- ===== src/Base/Json.antt =====
-- Parsed JSON values, as Python's `json` gives them to the code.
use harness_single.Base.Tests.{ltb, if◌then◌else◌, ◌==◌}
use mathlib.Core.Bool.{◌||◌}
use Prim.Native.Nat.{ℕ, zero}
use Prim.Native.String.{String}
use mathlib.Core.Bool.{Bool, true, false, not}
use mathlib.Core.Option.{Option, none, some}

-- `negsuc n` is -(n + 1).
pub data ℤ : Type 0 where
  pos : ℕ → ℤ
  negsuc : ℕ → ℤ

-- A float keeps what `repr` gives for it.
mutual
  pub data Json : Type 0 where
    null : Json
    boolean : Bool → Json
    int : ℤ → Json
    float : String → Json
    text : String → Json
    array : Items → Json
    object : Fields → Json

  pub data Items : Type 0 where
    nil : Items
    cons : Json → Items → Items

  pub data Fields : Type 0 where
    end : Fields
    field : String → Json → Fields → Fields

-- `record.get(key)`
unfoldable pub get : String → Fields → Option Json
get key end = none
get key (field k v rest) = if k == key then some v else get key rest

-- The text that a value is, if it is one: `isinstance(value, str)`.
unfoldable pub as_text : Option Json → Option String
as_text (some (text s)) = some s
as_text _ = none

-- A value that `_valid_pid` accepts: an int, no bool, above 0.
unfoldable pub as_pid : Option Json → Option ℕ
as_pid (some (int (pos n))) = if ltb 0 n then some n else none
as_pid _ = none

-- A text that is not empty: `isinstance(value, str) and value`.
unfoldable pub nonempty_text : Option Json → Option String
nonempty_text (some (text s)) = if s == "" then none else some s
nonempty_text _ = none

-- `isinstance(value, dict)`, and `value or {}` where a value that is no object is empty.
unfoldable pub as_object : Option Json → Fields
as_object (some (object r)) = r
as_object _ = end

-- Python's truth value of `record.get(key)`.
unfoldable pub is_truthy : Option Json → Bool
is_truthy none = false
is_truthy (some null) = false
is_truthy (some (boolean b)) = b
is_truthy (some (int (pos zero))) = false
is_truthy (some (int _)) = true
is_truthy (some (float s)) = not (s == "0.0" || s == "-0.0")
is_truthy (some (text s)) = not (s == "")
is_truthy (some (array nil)) = false
is_truthy (some (array (cons _ _))) = true
is_truthy (some (object end)) = false
is_truthy (some (object (field _ _ _))) = true

-- `record.get(key) or ...`: the value that is taken, if it is true.
unfoldable pub if_truthy : Option Json → Option Json
unfolding is_truthy
if_truthy none = none
if_truthy (some v) = if is_truthy (some v) then some v else none

-- `str(value)`: a text is itself, and `str` prints a value that is no text.
unfoldable pub str_of : (Json → String) → Json → String
str_of str (text s) = s
str_of str v = str v

-- `value is True`
unfoldable pub is_true : Option Json → Bool
is_true (some (boolean b)) = b
is_true _ = false
