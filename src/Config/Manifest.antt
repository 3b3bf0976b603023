-- ===== src/Config/Manifest.antt =====
-- `load_resource_manifest` and `_load_v2_config`. The paths of files are left out of the errors.
use harness_single.Base.{
  String, Bool, true, false, not, Option, none, some, List, [], ◌∷◌, ◌==◌, if◌then◌else◌, mem_text,
  same_option, Result, ok, err, ◌>>=◌, ◌>>◌, guard, RecordFile, missing, unreadable, readable,
}
use harness_single.Base.Json.{
  Json, array, object, Items, nil, cons, Fields, field, end, get, as_text, nonempty_text, is_true,
}

pub data ConfigError : Type 0 where
  file_missing file_unreadable unknown_key wrong_schema : ConfigError
  resources_not_a_list entry_not_an_object entry_unknown_key : ConfigError
  id_missing duplicate_id not_exclusive : ConfigError
  root_workspace_missing root_workspace_not_absolute root_workspace_is_a_link : ConfigError
  managed_coordination_invalid : ConfigError

-- `not (set(record) - keys)`
unfoldable pub keys_among : List String → Fields → Bool
keys_among keys end = true
keys_among keys (field k v rest) = if mem_text k keys then keys_among keys rest else false

unfoldable pub read_config_file : RecordFile Fields → Result ConfigError Fields
read_config_file missing = err file_missing
read_config_file unreadable = err file_unreadable
read_config_file (readable r) = ok r

-- One round of the loop over the entries, with the identifiers seen before: the identifier.
unfoldable pub check_entry : List String → Json → Result ConfigError String
unfolding keys_among
check_entry seen (object item) = do
  guard (keys_among ("id" ∷ "exclusive" ∷ []) item) entry_unknown_key
  id ← (elim (nonempty_text (get "id" item)) [ none ↦ err id_missing | some s ↦ ok s ])
  guard (not (mem_text id seen)) duplicate_id
  guard (is_true (get "exclusive" item)) not_exclusive
  ok id
check_entry seen _ = err entry_not_an_object

unfoldable pub check_entries : List String → Items → Result ConfigError (List String)
unfolding check_entry
check_entries seen nil = ok []
check_entries seen (cons v rest) = do
  id ← check_entry seen v
  ids ← check_entries (id ∷ seen) rest
  ok (id ∷ ids)

-- `isinstance(resources, list)`
unfoldable pub as_items : Option Json → Option Items
as_items (some (array items)) = some items
as_items _ = none

-- The validated manifest is the list of its identifiers: each entry is exclusive.
unfoldable pub load_resource_manifest : RecordFile Fields → Result ConfigError (List String)
unfolding read_config_file keys_among as_items check_entries
load_resource_manifest file = do
  r ← read_config_file file
  guard (keys_among ("schema" ∷ "resources" ∷ []) r) unknown_key
  guard (same_option (as_text (get "schema" r)) (some "resource-manifest/v1")) wrong_schema
  items ← (elim (as_items (get "resources" r)) [ none ↦ err resources_not_a_list | some i ↦ ok i ])
  check_entries [] items

-- `is_declared`
unfoldable pub is_declared : List String → String → Bool
is_declared ids id = mem_text id ids

pub record V2Config : Type 0 where
  pub root_workspace : String
  pub managed_coordination : String

-- `record.get("managed_coordination", "enabled")`, where the code looks it up in a tuple.
unfoldable pub managed_text : Option Json → Option String
managed_text none = some "enabled"
managed_text (some v) = as_text (some v)

-- What `Path` says of a text: whether the expanded path is absolute, and a symbolic link.
module _ (expand : String → String) (is_absolute is_symlink : String → Bool) where
  unfoldable pub load_v2_config : RecordFile Fields → Result ConfigError V2Config
  unfolding read_config_file keys_among managed_text
  load_v2_config file = do
    r ← read_config_file file
    guard (keys_among ("root_workspace" ∷ "managed_coordination" ∷ []) r) unknown_key
    raw ← (elim (nonempty_text (get "root_workspace" r)) [
      | none ↦ err root_workspace_missing
      | some s ↦ ok s
    ])
    guard (is_absolute (expand raw)) root_workspace_not_absolute
    guard (not (is_symlink (expand raw))) root_workspace_is_a_link
    managed ← (elim (managed_text (get "managed_coordination" r)) [
      | none ↦ err managed_coordination_invalid
      | some s ↦ ok s
    ])
    guard (mem_text managed ("enabled" ∷ "disabled" ∷ [])) managed_coordination_invalid
    ok (record { root_workspace = expand raw; managed_coordination = managed })

-- `HarnessConfig.profile`
unfoldable pub profile : V2Config → String
profile c = if c.managed_coordination == "enabled" then "managed" else "plain"
