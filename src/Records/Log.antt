-- ===== src/Records/Log.antt =====
-- `append_jsonl` and `read_jsonl` on the text of one log file. `dumps` is the canonical JSON of a record
-- as a text, `loads` the reading of one value, which fails where it raises.
use harness_single.Base.{ℕ, Bool, Option, none, some, List, [], ◌∷◌, ◌++◌, ◌||◌, eqb, if◌then◌else◌}
use harness_single.Base.Json.{Json, object, Fields}
use harness_single.BoundedPolicy.Codes.{Code, is_empty, strip_code, line_feed, carriage_return}

-- What ends a line where Python reads a text file; the empty line that the pair of both makes is blank.
unfoldable pub is_line_end : ℕ → Bool
is_line_end c = eqb c line_feed || eqb c carriage_return

unfoldable pub push : ℕ → List Code → List Code
push c [] = (c ∷ []) ∷ []
push c (p ∷ ps) = (c ∷ p) ∷ ps

-- The lines of a text, with an empty one at its end.
unfoldable pub lines : Code → List Code
unfolding is_line_end push
lines [] = [] ∷ []
lines (c ∷ s) = let rest = lines s in if is_line_end c then [] ∷ rest else push c rest

-- A JSON value that is an object.
unfoldable pub as_record : Option Json → Option Fields
as_record (some (object r)) = some r
as_record _ = none

module _ (loads : Code → Option Json) where
  -- One round of the loop: the record of a line, if it has one.
  unfoldable pub read_line : Code → Option Fields
  unfolding as_record is_empty strip_code
  read_line line = if is_empty (strip_code line) then none else as_record (loads (strip_code line))

  unfoldable pub read_lines : List Code → List Fields
  unfolding read_line
  read_lines [] = []
  read_lines (line ∷ rest) =
      let others = read_lines rest in elim (read_line line) [ none ↦ others | some r ↦ r ∷ others ]

  -- A file that does not exist is an empty log.
  unfoldable pub read_jsonl : Option Code → List Fields
  unfolding read_lines lines
  read_jsonl none = []
  read_jsonl (some content) = read_lines (lines content)

unfoldable pub content_of : Option Code → Code
content_of none = []
content_of (some content) = content

module _ (dumps : Fields → Code) where
  abbrev pub line_of : Fields → Code
  line_of r = dumps r ++ line_feed ∷ []

  -- The header goes first into a file that is absent or empty.
  unfoldable pub with_header : Option Fields → Code → Code
  unfolding is_empty
  with_header none content = content
  with_header (some header) content =
      if is_empty content then content ++ line_of header else content

  unfoldable pub append_jsonl : Option Fields → Fields → Option Code → Option Code
  unfolding with_header content_of
  append_jsonl header r file = some (with_header header (content_of file) ++ line_of r)
