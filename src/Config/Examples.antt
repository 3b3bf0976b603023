-- ===== src/Config/Examples.antt =====
-- A manifest, a legacy configuration with defaults, and the theorems at them.
use harness_single.Base.{
  ℕ, String, Bool, true, false, [], ◌∷◌, ◌≡◌, ◌↔◌, refl, ok, RecordFile, readable, ltb,
}
use harness_single.Base.Json.{
  pos, Fields, field, end, text, array, object, boolean, int, cons, nil, get,
}
use harness_single.Config.Manifest.{load_resource_manifest}
use harness_single.Config.Contract.{IsManifest, load_resource_manifest-IsManifest}
use harness_single.Config.Legacy.{
  Floats, LegacyConfig, load_legacy_config, read_places, read_counts, read_intervals, text_setting,
  run_globs_setting, any_unsafe, declared_relative_paths, value_or_alias, integer, at_least, number,
  given_number, present_keys, removed_keys,
}
use harness_single.Config.Bounds.{IsBounded, load_legacy_config-IsBounded}

abbrev entry : String → Fields
entry id = field "id" (text id) (field "exclusive" (boolean true) end)

abbrev manifest : RecordFile Fields
manifest = readable (
    field "schema" (text "resource-manifest/v1") (
      field "resources" (array (cons (object (entry "board")) (cons (object (entry "probe")) nil)))
        end))

load_resource_manifest-IsManifest_example :
    (load_resource_manifest manifest ≡ ok ("board" ∷ "probe" ∷ []))
    ↔ IsManifest manifest ("board" ∷ "probe" ∷ [])
load_resource_manifest-IsManifest_example =
    load_resource_manifest-IsManifest manifest ("board" ∷ "probe" ∷ [])

-- Floats as numbers of hundredths, each text one.
abbrev hundredths : Floats ℕ
hundredths = record {
  of_int = λ z. 0;
  of_float = λ s. 100;
  is_finite = λ x. true;
  is_below = λ x y. ltb x y;
}

abbrev no_path_unsafe : String → Bool
no_path_unsafe s = false

-- A file that sets one threshold.
abbrev settings : RecordFile Fields
settings = readable (field "request_critical_seconds" (int (pos 60)) end)

abbrev config : LegacyConfig ℕ
config = record {
  places = record {
    suite_root = "..";
    run_globs = "worktrees/*" ∷ [];
    workspace_relpath = ".agent-workspace";
    record_paths = [];
    record_manifests = [];
    output_dir = ".state";
  };
  counts = record {
    request_warning_seconds = 120;
    request_critical_seconds = 60;
    process_start_tolerance_seconds = 2;
    max_json_bytes = 4000000;
    max_jsonl_tail_bytes = 512000;
    stable_read_retries = 4;
  };
  intervals = record {
    poll_interval_seconds = 100;
    watch_timeout_seconds = 100;
    stable_read_delay_seconds = 100;
  };
  legacy_config_diagnostics = [];
}

loaded : load_legacy_config hundredths no_path_unsafe settings ≡ ok config
unfolding load_legacy_config read_places read_counts read_intervals text_setting run_globs_setting
    any_unsafe declared_relative_paths value_or_alias integer at_least number given_number
    present_keys removed_keys get
loaded = refl

load_legacy_config-IsBounded_example : IsBounded hundredths no_path_unsafe config
load_legacy_config-IsBounded_example =
    load_legacy_config-IsBounded hundredths no_path_unsafe settings config loaded
