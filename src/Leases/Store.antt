-- ===== src/Leases/Store.antt =====
-- The lease files, and how a launch acquires and a lane releases them.
use harness_single.Base.{
  ℕ, String, Bool, true, false, none, some, List, [], ◌∷◌, ◌++◌, ◌&&◌, same_option, if◌then◌else◌,
  Result, ok, err, RecordFile, readable,
}
use harness_single.Base.Json.{Fields, text, int, end, field, pos, get, as_text}
use harness_single.Base.Dict.{Dict, lookup, insert, remove}

pub data LeaseError : Type 0 where
  lease_busy : LeaseError
  lease_missing lease_invalid holder_live holder_unproven delete_failed : LeaseError
  audit_start_failed : LeaseError
  -- FORCE_RELEASE_AUDIT_TERMINAL_FAILED after the operation's own error, or after a release
  audit_failed_after : LeaseError → LeaseError
  audit_failed_released : LeaseError
  write_failed : LeaseError

-- The files of resources/leases by the digest of their resource.
abbrev pub LeaseFiles : Type 0
LeaseFiles = Dict (RecordFile Fields)

-- Which writes and which deletions of a file succeed.
pub record Disk : Type 0 where
  pub writes : String → Bool
  pub unlinks : String → Bool

pub record Holder : Type 0 where
  pub lane_id : String
  pub run_id : String
  pub pid : ℕ
  pub creation_time : String

unfoldable pub lease_schema : String
lease_schema = "resource-lease/v1"

unfoldable pub lease_record : String → String → Holder → Fields
lease_record now resource_id h = field "schema" (text "resource-lease/v1") (
    field "resource_id" (text resource_id) (
      field "lane_id" (text h.lane_id) (
        field "run_id" (text h.run_id) (
          field "pid" (int (pos h.pid))
            (field "creation_time" (text h.creation_time) (field "acquired_at" (text now) end))))))

-- `path.is_file()`
unfoldable pub is_file : String → LeaseFiles → Bool
is_file path files = elim (lookup path files) [ none ↦ false | some f ↦ true ]

-- `path.unlink()` with `OSError` passed over.
unfoldable pub try_unlink : Disk → String → LeaseFiles → LeaseFiles
try_unlink disk path files = if disk.unlinks path then remove path files else files

unfoldable pub unlink_all : Disk → List String → LeaseFiles → LeaseFiles
unfolding try_unlink
unlink_all disk [] files = files
unlink_all disk (p ∷ ps) files = unlink_all disk ps (try_unlink disk p files)

-- The lease files with what a call returns or raises.
abbrev pub LeaseRun : Type 0
LeaseRun = Result LeaseError Unit × LeaseFiles

-- `digest` is the SHA-256 of the resource's name, in hexadecimal digits.
module _ (digest : String → String) where
  unfoldable pub any_held : List String → LeaseFiles → Bool
  any_held [] files = false
  any_held (id ∷ ids) files = if is_file (digest id) files then true else any_held ids files

  -- The second loop of `acquire_leases`, with the paths acquired so far; a write that fails undoes
  -- them and raises.
  unfoldable pub write_leases :
      Disk → String → Holder → List String → List String → LeaseFiles → LeaseRun
  unfolding unlink_all
  write_leases disk now h acquired [] files = (ok tt, files)
  write_leases disk now h acquired (id ∷ ids) files =
      let rest =
        write_leases disk now h (acquired ++ digest id ∷ []) ids
          (insert (digest id) (readable (lease_record now id h)) files) in
      if disk.writes (digest id) then rest else (err write_failed, unlink_all disk acquired files)

  unfoldable pub acquire_leases : Disk → String → Holder → List String → LeaseFiles → LeaseRun
  unfolding write_leases any_held
  acquire_leases disk now h ids files =
      if any_held ids files then (err lease_busy, files) else write_leases disk now h [] ids files

unfoldable pub names_text : Fields → String → String → Bool
names_text record_fields key value = same_option (as_text (get key record_fields)) (some value)

-- One round of the loops of the two release functions: a readable lease that the test picks is
-- unlinked.
unfoldable pub release_one : Disk → (Fields → Bool) → String → LeaseFiles → LeaseFiles
unfolding try_unlink
release_one disk picks path files = elim (lookup path files) [
  | some (readable lease) ↦ if picks lease then try_unlink disk path files else files
  | _ ↦ files
]

unfoldable pub release_paths : Disk → (Fields → Bool) → List String → LeaseFiles → LeaseFiles
release_paths disk picks [] files = files
release_paths disk picks (p ∷ ps) files =
    release_paths disk picks ps (release_one disk picks p files)

unfoldable pub paths : LeaseFiles → List String
paths [] = []
paths ((p, f) ∷ files) = p ∷ paths files

-- The order of the paths does not matter: the source sorts them.
unfoldable pub release_where : Disk → (Fields → Bool) → LeaseFiles → LeaseFiles
unfolding release_one release_paths paths
release_where disk picks files = release_paths disk picks (paths files) files

unfoldable pub release_leases : Disk → String → String → LeaseFiles → LeaseFiles
release_leases disk lane_id run_id =
    release_where disk
      (λ lease. names_text lease "lane_id" lane_id && names_text lease "run_id" run_id)

unfoldable pub force_release_leases : Disk → String → LeaseFiles → LeaseFiles
force_release_leases disk lane_id = release_where disk (λ lease. names_text lease "lane_id" lane_id)
