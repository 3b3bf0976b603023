-- ===== src/Leases/Recovery.antt =====
-- Forced release of one orphaned lease, and its audit log.
use harness_single.Base.{
  ℕ, String, Bool, true, false, not, Option, none, some, List, [], ◌∷◌, ◌++◌, ◌==◌, ◌||◌,
  same_option, if◌then◌else◌, Result, ok, err, guard, ◌>>◌, RecordFile, readable,
}
use harness_single.Base.Json.{Json, Fields, get, as_text, as_pid, nonempty_text}
use harness_single.Base.Dict.{lookup, remove}
use harness_single.Processes.{ProcessTable, same_process}
use harness_single.Leases.Store.{
  LeaseError, lease_missing, lease_invalid, holder_live, holder_unproven, delete_failed,
  audit_start_failed, audit_failed_after, audit_failed_released, LeaseFiles, Disk, LeaseRun,
  is_file,
}

-- The recorded holder of a lease, with every field in its required form.
pub record Identity : Type 0 where
  pub lane_id : String
  pub run_id : String
  pub pid : ℕ
  pub creation_time : String

-- The check of the four fields; `none` is "lease identity incomplete".
unfoldable pub read_identity : Fields → Option Identity
read_identity lease = elim (nonempty_text (get "lane_id" lease)) [
  | none ↦ none
  | some lane_id ↦ elim (nonempty_text (get "run_id" lease)) [
    | none ↦ none
    | some run_id ↦ elim (as_pid (get "pid" lease)) [
      | none ↦ none
      | some pid ↦ elim (nonempty_text (get "creation_time" lease)) [
        | none ↦ none
        | some creation_time ↦ some (record {
          lane_id = lane_id;
          run_id = run_id;
          pid = pid;
          creation_time = creation_time;
        })
      ]
    ]
  ]
]

-- No process has the number, or another incarnation provably has it.
unfoldable pub holder_is_dead : ProcessTable → Identity → Bool
holder_is_dead os h =
    if not (os.alive h.pid)
    then true
    else elim (os.creation_time h.pid) [ none ↦ false | some t ↦ not (t == h.creation_time) ]

-- The lane of the lease is retired or abandoned, or runs another run.
unfoldable pub lane_releases : Option Fields → Identity → Bool
lane_releases none h = false
lane_releases (some lane) h =
    if same_option (as_text (get "lane_id" lane)) (some h.lane_id)
    then if same_option (as_text (get "lifecycle" lane)) (some "retired")
        || same_option (as_text (get "lifecycle" lane)) (some "abandoned")
      then true
      else elim (nonempty_text (get "run_id" lane)) [
        | none ↦ false
        | some run ↦ not (run == h.run_id)
      ]
    else false

-- `lane_resolver(lane_id)`; without a resolver it is the given lane for every name.
abbrev pub Resolver : Type 0
Resolver = String → Option Fields

unfoldable pub check_holder : ProcessTable → Resolver → Option Identity → Result LeaseError Identity
unfolding same_process holder_is_dead lane_releases
check_holder os resolve none = err lease_invalid
check_holder os resolve (some h) = do
  guard (not (same_process os h.pid h.creation_time)) holder_live
  guard (holder_is_dead os h || lane_releases (resolve h.lane_id) h) holder_unproven
  ok h

-- Everything that is checked before the file is deleted.
unfoldable pub check_release :
    ProcessTable → Resolver → String → Option (RecordFile Fields) → Result LeaseError Identity
unfolding check_holder read_identity
check_release os resolve resource_id none = err lease_missing
check_release os resolve resource_id (some (readable lease)) = do
  guard (same_option (as_text (get "resource_id" lease)) (some resource_id)) lease_invalid
  check_holder os resolve (read_identity lease)
check_release os resolve resource_id (some f) = err lease_invalid

-- `path.unlink()` and the look whether the file is still there.
unfoldable pub delete_lease : Disk → String → LeaseFiles → LeaseRun
unfolding is_file
delete_lease disk path files =
    if disk.unlinks path
    then if is_file path (remove path files)
      then (err delete_failed, remove path files)
      else (ok tt, remove path files)
    else (err delete_failed, files)

-- What `force_release_lease` does at one path.
unfoldable pub force_release_at :
    ProcessTable → Disk → Resolver → String → String → LeaseFiles → LeaseRun
unfolding check_release delete_lease
force_release_at os disk resolve resource_id path files =
    elim (check_release os resolve resource_id (lookup path files)) [
      | err e ↦ (err e, files)
      | ok h ↦ delete_lease disk path files
    ]

-- `_audit_holder`: the four fields as they are recorded, if all are there.
pub record AuditHolder : Type 0 where
  pub lane_id : Json
  pub run_id : Json
  pub pid : Json
  pub creation_time : Json

unfoldable pub audit_holder : Option (RecordFile Fields) → Option AuditHolder
audit_holder (some (readable lease)) = elim (get "lane_id" lease) [
  | none ↦ none
  | some lane_id ↦ elim (get "run_id" lease) [
    | none ↦ none
    | some run_id ↦ elim (get "pid" lease) [
      | none ↦ none
      | some pid ↦ elim (get "creation_time" lease) [
        | none ↦ none
        | some creation_time ↦ some (record {
          lane_id = lane_id;
          run_id = run_id;
          pid = pid;
          creation_time = creation_time;
        })
      ]
    ]
  ]
]
audit_holder _ = none

-- The outcome of an audit entry with its code.
pub data AuditOutcome : Type 0 where
  started : AuditOutcome
  failed : LeaseError → AuditOutcome
  succeeded : AuditOutcome

pub record AuditEntry : Type 0 where
  pub at : String
  pub resource_id : String
  pub outcome : AuditOutcome
  pub holder : Option AuditHolder
  pub lease_absent : Option Bool

-- The lease folder with its audit log.
pub record Resources : Type 0 where
  pub files : LeaseFiles
  pub audit : List AuditEntry

-- The times of the two audit entries, and whether they can be written.
pub record AuditEnv : Type 0 where
  pub started_at : String
  pub ended_at : String
  pub started_written : Bool
  pub ended_written : Bool

unfoldable pub append_audit : Bool → AuditEntry → Resources → Resources
append_audit written entry r = if written then record r { audit = r.audit ++ entry ∷ [] } else r

-- The terminal entry after the operation, and what the call raises or returns.
unfoldable pub end_audit :
    AuditEnv
    → String
    → String
    → Option AuditHolder
    → Result LeaseError Unit
    → Resources
    → Result LeaseError Bool × Resources
unfolding append_audit is_file
end_audit env resource_id path holder (err e) r = (
  if env.ended_written then err e else err (audit_failed_after e),
  append_audit env.ended_written
      (record {
        at = env.ended_at;
        resource_id = resource_id;
        outcome = failed e;
        holder = holder;
        lease_absent = some false;
      })
      r,
)
end_audit env resource_id path holder (ok _) r =
    let absent = not (is_file path r.files) in
    (
      if env.ended_written then ok absent else err audit_failed_released,
      append_audit env.ended_written
          (record {
            at = env.ended_at;
            resource_id = resource_id;
            outcome = succeeded;
            holder = holder;
            lease_absent = some absent;
          })
          r,
    )

unfoldable pub start_entry : AuditEnv → String → Option AuditHolder → AuditEntry
start_entry env resource_id holder = record {
  at = env.started_at;
  resource_id = resource_id;
  outcome = started;
  holder = holder;
  lease_absent = none;
}

unfoldable pub operate :
    ProcessTable
    → Disk
    → Resolver
    → String
    → String
    → Resources
    → Result LeaseError Unit × Resources
operate os disk resolve resource_id path r =
    let (result, files) = force_release_at os disk resolve resource_id path r.files in
    (result, record r { files = files })

-- What `force_release_lease_audited` does, with the path of the resource.
unfoldable pub release_audited_at :
    ProcessTable
    → Disk
    → AuditEnv
    → Resolver
    → String
    → String
    → Resources
    → Result LeaseError Bool × Resources
unfolding append_audit operate end_audit start_entry
release_audited_at os disk env resolve resource_id path r =
    let holder = audit_holder (lookup path r.files) in
    if env.started_written
    then (let (result, r') =
          operate os disk resolve resource_id path
            (append_audit true (start_entry env resource_id holder) r) in
        end_audit env resource_id path holder result r')
    else (err audit_start_failed, r)

module _ (digest : String → String) where
  unfoldable pub force_release_lease :
      ProcessTable → Disk → Resolver → String → LeaseFiles → LeaseRun
  unfolding force_release_at
  force_release_lease os disk resolve resource_id =
      force_release_at os disk resolve resource_id (digest resource_id)

  unfoldable pub force_release_lease_audited :
      ProcessTable
      → Disk
      → AuditEnv
      → Resolver
      → String
      → Resources
      → Result LeaseError Bool × Resources
  unfolding release_audited_at
  force_release_lease_audited os disk env resolve resource_id =
      release_audited_at os disk env resolve resource_id (digest resource_id)
