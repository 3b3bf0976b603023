-- ===== src/Monitor/Orphans.antt =====
-- Leases whose holder is not live: `_lease_files` and `_discover_orphaned_leases`.
use harness_single.Base.{
  String, false, Option, none, some, List, [], ◌∷◌, ◌==◌, ◌≡◌, ◌≢◌, refl, arith, same_option,
  if◌then◌else◌, missing, unreadable, readable, Bool-cases, Option-cases, inl, inr, eq_iff, ◌⊎◌, ok,
}
use harness_single.Base.Json.{Json, Fields, get, as_text, nonempty_text, as_pid}
use harness_single.Base.Dict.{Dict, lookup}
use harness_single.Processes.{ProcessTable, identity_matches, same_process}
use harness_single.Leases.Store.{LeaseFiles, Disk}
use harness_single.Leases.Recovery.{Identity, read_identity, Resolver, force_release_lease}
use harness_single.Leases.Safety.{force_release_lease_done}
use harness_single.Monitor.Status.{has_text}

pub data Reason : Type 0 where
  lane_missing lane_retired lane_abandoned lease_run_is_not_current holder_not_live : Reason

pub record Orphan : Type 0 where
  pub resource_id : String
  pub lane_id : Option Json
  pub run_id : Option Json
  pub pid : Option Json
  pub creation_time : Option Json
  pub reason : Reason

-- The readable records among the files of the folder; the source sorts the files by name.
unfoldable pub lease_records : LeaseFiles → List Fields
lease_records [] = []
lease_records ((path, readable lease) ∷ files) = lease ∷ lease_records files
lease_records ((path, f) ∷ files) = lease_records files

-- `lane.get("run_id") != run_id` of texts.
unfoldable pub orphan_reason : Option Fields → Fields → Reason
orphan_reason none lease = lane_missing
orphan_reason (some lane) lease =
    if has_text "lifecycle" "retired" lane
    then lane_retired
    else if has_text "lifecycle" "abandoned" lane
    then lane_abandoned
    else if same_option (as_text (get "run_id" lane)) (as_text (get "run_id" lease))
    then holder_not_live
    else lease_run_is_not_current

-- `retained.get(lane_id) if isinstance(lane_id, str) else None`
unfoldable pub lane_of : Dict Fields → Fields → Option Fields
lane_of retained lease = elim (as_text (get "lane_id" lease)) [
  | none ↦ none
  | some lane_id ↦ lookup lane_id retained
]

-- One round of the loop over the lease records: nothing for a lease with no resource or with a live
-- holder.
unfoldable pub orphan_of : ProcessTable → Dict Fields → Fields → Option Orphan
unfolding orphan_reason lane_of
orphan_of os retained lease = elim (nonempty_text (get "resource_id" lease)) [
  | none ↦ none
  | some resource_id ↦
      if identity_matches os (get "pid" lease) (get "creation_time" lease)
      then none
      else some (record {
        resource_id = resource_id;
        lane_id = get "lane_id" lease;
        run_id = get "run_id" lease;
        pid = get "pid" lease;
        creation_time = get "creation_time" lease;
        reason = orphan_reason (lane_of retained lease) lease;
      })
]

add_orphan : Option Orphan → List Orphan → List Orphan
add_orphan none rest = rest
add_orphan (some o) rest = o ∷ rest

unfoldable pub discover : ProcessTable → Dict Fields → List Fields → List Orphan
unfolding add_orphan
discover os retained [] = []
discover os retained (lease ∷ leases) =
    add_orphan (orphan_of os retained lease) (discover os retained leases)

unfoldable pub discover_orphaned_leases : ProcessTable → Dict Fields → LeaseFiles → List Orphan
unfolding discover lease_records
discover_orphaned_leases os retained files = discover os retained (lease_records files)

-- The resource is among the orphans.
abbrev pub IsReported : String → List Orphan → Type 0
IsReported id [] = ⊥
IsReported id (o ∷ rest) = (o.resource_id ≡ id) ⊎ IsReported id rest

-- What is reported about each orphan: its holder is not the live process that the lease names.
abbrev pub AllUnheld : ProcessTable → List Orphan → Type 0
AllUnheld os [] = Unit
AllUnheld os (o ∷ rest) = (identity_matches os o.pid o.creation_time ≡ false) × AllUnheld os rest

discover-AllUnheld :
    (os : ProcessTable) (retained : Dict Fields) (leases : List Fields)
    → AllUnheld os (discover os retained leases)
unfolding discover orphan_of
discover-AllUnheld os retained [] = tt
discover-AllUnheld os retained (lease ∷ leases) =
    elim (Option-cases (nonempty_text (get "resource_id" lease))) [
      | inl e ↦ rw (e, orphan_of) (discover-AllUnheld os retained leases)
      | inr (id, e) ↦
          elim (Bool-cases (identity_matches os (get "pid" lease) (get "creation_time" lease))) [
            | inl live ↦ rw (e, orphan_of, live) (discover-AllUnheld os retained leases)
            | inr dead ↦ rw (e, orphan_of, dead) (dead, discover-AllUnheld os retained leases)
          ]
    ]

identity_fields :
    (lease : Fields) (h : Identity)
    → read_identity lease ≡ some h
    → (as_pid (get "pid" lease) ≡ some h.pid)
      × (nonempty_text (get "creation_time" lease) ≡ some h.creation_time)
unfolding read_identity
identity_fields lease h x = (ground arith, ground arith)

not_live_unmatched :
    (os : ProcessTable) (lease : Fields) (h : Identity)
    → read_identity lease ≡ some h
    → same_process os h.pid h.creation_time ≡ false
    → identity_matches os (get "pid" lease) (get "creation_time" lease) ≡ false
unfolding identity_matches
not_live_unmatched os lease h x n =
    let k = identity_fields lease h x in rw (k.0, k.1, identity_matches) n

nonempty_of_text :
    (v : Option Json) (id : String) → id ≢ "" → as_text v ≡ some id → nonempty_text v ≡ some id
unfolding as_text nonempty_text
nonempty_of_text v id n h = ground (arith, eq_iff id "")

IsReported-add :
    (id : String) (o : Option Orphan) (rest : List Orphan)
    → IsReported id rest
    → IsReported id (add_orphan o rest)
unfolding add_orphan
IsReported-add id none rest h = h
IsReported-add id (some o) rest h = inr h

orphan_of-IsReported :
    (os : ProcessTable) (retained : Dict Fields) (id : String) (lease : Fields) (rest : List Orphan)
    → nonempty_text (get "resource_id" lease) ≡ some id
    → identity_matches os (get "pid" lease) (get "creation_time" lease) ≡ false
    → IsReported id (add_orphan (orphan_of os retained lease) rest)
unfolding add_orphan orphan_of
orphan_of-IsReported os retained id lease rest r n = rw (r, orphan_of, n) (inl refl)

module _ (os : ProcessTable) (retained : Dict Fields) (id : String) (lease : Fields)
    (path : String) where
  IsReported-lease :
      (files : LeaseFiles)
      → nonempty_text (get "resource_id" lease) ≡ some id
      → identity_matches os (get "pid" lease) (get "creation_time" lease) ≡ false
      → lookup path files ≡ some (readable lease)
      → IsReported id (discover os retained (lease_records files))
  unfolding discover lease_records lookup
  IsReported-lease [] r n l = absurd (ground arith)
  IsReported-lease ((p, readable x) ∷ files) r n l = elim (Bool-cases (p == path)) [
    | inl hit ↦
        let e : x ≡ lease = ground arith in
        rw e (
          orphan_of-IsReported os retained id lease (discover os retained (lease_records files)) r
            n)
    | inr miss ↦ IsReported-add id _ _ (IsReported-lease files r n (ground arith))
  ]
  IsReported-lease ((p, missing) ∷ files) r n l = IsReported-lease files r n (ground arith)
  IsReported-lease ((p, unreadable) ∷ files) r n l = IsReported-lease files r n (ground arith)

-- Every lease that a forced release would release (of a resource with a name) is among the orphans
-- that the monitor reports, whatever lanes it retained.
pub releasable-IsReported :
    (digest : String → String) (os : ProcessTable) (disk : Disk) (resolve : Resolver)
    (retained : Dict Fields) (id : String) (files : LeaseFiles)
    → id ≢ ""
    → (force_release_lease digest os disk resolve id files).0 ≡ ok tt
    → IsReported id (discover_orphaned_leases os retained files)
unfolding discover_orphaned_leases
releasable-IsReported digest os disk resolve retained id files n x =
    let k = (force_release_lease_done digest os disk resolve id files x).0 in
    IsReported-lease os retained id k.lease (digest id) files
      (nonempty_of_text _ id n k.of_resource)
      (not_live_unmatched os k.lease k.holder k.has_identity k.not_live) k.readable_lease

-- No reported orphan has its holder alive: the process that its lease names, by number and creation
-- time, is not live.
pub discover_orphaned_leases-AllUnheld :
    (os : ProcessTable) (retained : Dict Fields) (files : LeaseFiles)
    → AllUnheld os (discover_orphaned_leases os retained files)
unfolding discover_orphaned_leases
discover_orphaned_leases-AllUnheld os retained files =
    discover-AllUnheld os retained (lease_records files)
