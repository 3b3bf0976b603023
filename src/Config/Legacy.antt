-- ===== src/Config/Legacy.antt =====
-- `_load_legacy_config` with `_integer`, `_number` and `_declared_relative_paths`. Paths stay as
-- they are written in the file: their resolution is the file system's.
use harness_single.Base.{
  ℕ, String, Bool, true, false, not, Option, none, some, List, [], ◌∷◌, ◌||◌, if◌then◌else◌, ltb,
  leb, Result, ok, err, ◌>>=◌, ◌>>◌, guard, RecordFile, missing, unreadable, readable,
}
use harness_single.Base.Text.{is_blank, strip}
use harness_single.Base.Json.{
  ℤ, pos, negsuc, Json, null, int, float, text, array, Items, nil, cons, Fields, get, nonempty_text,
}

pub data LegacyError : Type 0 where
  cannot_load text_setting_invalid run_globs_invalid run_globs_unsafe : LegacyError
  workspace_unsafe paths_invalid : LegacyError
  not_numeric not_finite not_integer below_minimum : LegacyError
  critical_not_below_warning tolerance_too_large : LegacyError

-- `value < minimum` of integers, and the value where it is at least the minimum.
unfoldable pub at_least : ℕ → ℤ → Result LegacyError ℕ
at_least minimum (pos n) = if ltb n minimum then err below_minimum else ok n
at_least minimum (negsuc n) = err below_minimum

-- `_integer`; a bool is no integer here.
unfoldable pub integer : Fields → String → ℕ → ℕ → Result LegacyError ℕ
unfolding at_least
integer raw key default minimum = elim (get key raw) [
  | none ↦ at_least minimum (pos default)
  | some v ↦ elim v [ int n ↦ at_least minimum n | _ ↦ err not_integer ]
]

-- `raw.get(key, default)` that has to be a text, not empty.
unfoldable pub text_setting : Fields → String → String → Result LegacyError String
text_setting raw key default = elim (get key raw) [
  | none ↦ ok default
  | some v ↦ elim (nonempty_text (some v)) [ none ↦ err text_setting_invalid | some s ↦ ok s ]
]

-- A list of texts, none empty.
unfoldable pub texts_of : Items → Option (List String)
texts_of nil = some []
texts_of (cons v rest) = elim (nonempty_text (some v)) [
  | none ↦ none
  | some s ↦ elim (texts_of rest) [ none ↦ none | some others ↦ some (s ∷ others) ]
]

unfoldable pub run_globs_setting : Option Json → Result LegacyError (List String)
unfolding texts_of
run_globs_setting none = ok ("worktrees/*" ∷ [])
run_globs_setting (some (array nil)) = err run_globs_invalid
run_globs_setting (some (array (cons v rest))) = elim (texts_of (cons v rest)) [
  | none ↦ err run_globs_invalid
  | some globs ↦ ok globs
]
run_globs_setting (some _) = err run_globs_invalid

-- `raw.get(key)`, or the value of the alias where that is `None`.
unfoldable pub value_or_alias : Fields → String → String → Option Json
value_or_alias raw key alias = elim (get key raw) [
  | none ↦ get alias raw
  | some null ↦ get alias raw
  | some v ↦ some v
]

unfoldable pub removed_keys : List String
removed_keys =
    "manager_heartbeat_timeout_seconds" ∷ "attention_logging_enabled" ∷ "attention_epoch_id"
    ∷ "attention_sprint_lifetime_seconds" ∷ "attention_tolerance_seconds"
    ∷ "manager_review_interval_seconds" ∷ "lane_no_progress_seconds" ∷ "watcher_ack_policy"
    ∷ "managed_runtime_path" ∷ "pending_notification_path" ∷ []

-- The removed keys that the file still has, each of which becomes one diagnostic.
unfoldable pub present_keys : List String → Fields → List String
present_keys [] raw = []
present_keys (key ∷ keys) raw =
    let rest = present_keys keys raw in elim (get key raw) [ none ↦ rest | some v ↦ key ∷ rest ]

-- Python's floats, as far as `_number` asks of them: the float of a JSON number.
pub record Floats (F : Type 0) : Type 0 where
  pub of_int : ℤ → F
  pub of_float : String → F
  pub is_finite : F → Bool
  pub is_below : F → F → Bool

-- The settings that are texts, those that are integers, and those that are floats.
pub record Places : Type 0 where
  pub suite_root : String
  pub run_globs : List String
  pub workspace_relpath : String
  pub record_paths : List String
  pub record_manifests : List String
  pub output_dir : String

pub record Counts : Type 0 where
  pub request_warning_seconds : ℕ
  pub request_critical_seconds : ℕ
  pub process_start_tolerance_seconds : ℕ
  pub max_json_bytes : ℕ
  pub max_jsonl_tail_bytes : ℕ
  pub stable_read_retries : ℕ

pub record Intervals (F : Type 0) : Type 0 where
  pub poll_interval_seconds : F
  pub watch_timeout_seconds : F
  pub stable_read_delay_seconds : F

pub record LegacyConfig (F : Type 0) : Type 0 where
  pub places : Places
  pub counts : Counts
  pub intervals : Intervals F
  pub legacy_config_diagnostics : List String

unfoldable pub read_counts : Fields → Result LegacyError Counts
unfolding integer
read_counts raw = do
  warning ← integer raw "request_warning_seconds" 120 1
  critical ← integer raw "request_critical_seconds" 30 0
  guard (ltb critical warning) critical_not_below_warning
  tolerance ← integer raw "process_start_tolerance_seconds" 2 0
  guard (leb tolerance 2) tolerance_too_large
  json_bytes ← integer raw "max_json_bytes" 4000000 1024
  tail_bytes ← integer raw "max_jsonl_tail_bytes" 512000 1024
  retries ← integer raw "stable_read_retries" 4 1
  ok (record {
    request_warning_seconds = warning;
    request_critical_seconds = critical;
    process_start_tolerance_seconds = tolerance;
    max_json_bytes = json_bytes;
    max_jsonl_tail_bytes = tail_bytes;
    stable_read_retries = retries;
  })

-- `is_unsafe` is `Path(item).is_absolute() or ".." in Path(item).parts`.
module _ (is_unsafe : String → Bool) where
  unfoldable pub any_unsafe : List String → Bool
  any_unsafe [] = false
  any_unsafe (s ∷ rest) = if is_unsafe s then true else any_unsafe rest

  unfoldable pub safe_paths : Items → Option (List String)
  safe_paths nil = some []
  safe_paths (cons (text s) rest) =
      let others = safe_paths rest in
      if is_blank s || is_unsafe s
      then none
      else elim others [ none ↦ none | some ps ↦ some (strip s ∷ ps) ]
  safe_paths (cons _ rest) = none

  unfoldable pub declared_relative_paths :
      Fields → String → String → Result LegacyError (List String)
  unfolding value_or_alias safe_paths
  declared_relative_paths raw key alias = elim (value_or_alias raw key alias) [
    | none ↦ ok []
    | some v ↦ elim v [
      | null ↦ ok []
      | array items ↦ elim (safe_paths items) [ none ↦ err paths_invalid | some ps ↦ ok ps ]
      | _ ↦ err paths_invalid
    ]
  ]

  unfoldable pub read_places : Fields → Result LegacyError Places
  unfolding text_setting run_globs_setting any_unsafe declared_relative_paths
  read_places raw = do
    suite ← text_setting raw "suite_root" ".."
    globs ← run_globs_setting (get "run_globs" raw)
    guard (not (any_unsafe globs)) run_globs_unsafe
    workspace ← text_setting raw "workspace_relpath" ".agent-workspace"
    guard (not (is_unsafe workspace)) workspace_unsafe
    paths ← declared_relative_paths raw "record_paths" "observation_paths"
    manifests ← declared_relative_paths raw "record_manifests" "record_manifest_paths"
    output ← text_setting raw "output_dir" ".state"
    ok (record {
      suite_root = suite;
      run_globs = globs;
      workspace_relpath = workspace;
      record_paths = paths;
      record_manifests = manifests;
      output_dir = output;
    })

module _ {F : Type 0} (floats : Floats F) where
  -- `float(value)` of a number that is no bool.
  unfoldable pub as_number : Json → Option F
  as_number (int n) = some (floats.of_int n)
  as_number (float s) = some (floats.of_float s)
  as_number _ = none

  unfoldable pub given_number : Option Json → F → Result LegacyError F
  unfolding as_number
  given_number none default = ok default
  given_number (some v) default = elim (as_number v) [ none ↦ err not_numeric | some x ↦ ok x ]

  unfoldable pub number : Fields → String → F → F → Result LegacyError F
  unfolding given_number
  number raw key default minimum = do
    x ← given_number (get key raw) default
    guard (floats.is_finite x) not_finite
    guard (not (floats.is_below x minimum)) below_minimum
    ok x

  unfoldable pub read_intervals : Fields → Result LegacyError (Intervals F)
  unfolding number
  read_intervals raw = do
    poll ← number raw "poll_interval_seconds" (floats.of_float "1.0") (floats.of_float "0.05")
    watch ← number raw "watch_timeout_seconds" (floats.of_float "60.0") (floats.of_float "0.1")
    delay ← number raw "stable_read_delay_seconds" (floats.of_float "0.03") (floats.of_int (pos 0))
    ok (record {
      poll_interval_seconds = poll;
      watch_timeout_seconds = watch;
      stable_read_delay_seconds = delay;
    })

  unfoldable pub load_legacy_config :
      (String → Bool) → RecordFile Fields → Result LegacyError (LegacyConfig F)
  unfolding read_places read_counts read_intervals removed_keys present_keys
  load_legacy_config is_unsafe missing = err cannot_load
  load_legacy_config is_unsafe unreadable = err cannot_load
  load_legacy_config is_unsafe (readable raw) = do
    places ← read_places is_unsafe raw
    counts ← read_counts raw
    intervals ← read_intervals raw
    ok (record {
      places = places;
      counts = counts;
      intervals = intervals;
      legacy_config_diagnostics = present_keys removed_keys raw;
    })
