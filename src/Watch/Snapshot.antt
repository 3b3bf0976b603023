-- ===== src/Watch/Snapshot.antt =====
-- The lanes of a scan, and the first actionable one.
use Prim.Native.String.{◌++◌ as join_text}
use harness_single.Base.{
  String, Bool, true, false, Option, none, some, List, [], ◌∷◌, ◌≡◌, ◌↔◌, refl, subst, arith,
  same_option, mem_text, if◌then◌else◌, RecordFile, All, Option-cases, inl, inr,
}
use harness_single.Base.Json.{Json, Fields, get, as_text}
use harness_single.Processes.{ProcessTable}
use harness_single.Monitor.Status.{
  Status, Facts, derive_lane_status, review_pending, result_invalid, controller_exited,
  provider_exited_no_result, status_transcript_contradiction, cleanup_unproven, orphaned_lease,
  resume_required,
}
use harness_single.Monitor.StatusPromotion.{status_name}
use harness_single.Monitor.Orphans.{Orphan}

-- What is read of one lane: its record, its controller's status, its acceptance and its result.
pub record LaneRead : Type 0 where
  pub lane : Fields
  pub status : Option Fields
  pub acceptance : Option Fields
  pub result : RecordFile Fields

-- An entry of the index, and its lane unless `read_lane` raises.
pub record LaneEntry : Type 0 where
  pub lane_id : String
  pub read : Option LaneRead

-- `any(lease.get("lane_id") == lane.get("lane_id") for lease in orphaned_leases)`
unfoldable pub any_orphan_of : Fields → List Orphan → Bool
any_orphan_of lane [] = false
any_orphan_of lane (o ∷ rest) =
    if same_option (as_text o.lane_id) (as_text (get "lane_id" lane))
    then true
    else any_orphan_of lane rest

unfoldable pub facts_of : List Orphan → LaneRead → Facts
unfolding any_orphan_of
facts_of orphans r = record {
  lane = r.lane;
  status = r.status;
  has_orphan = any_orphan_of r.lane orphans;
  acceptance = r.acceptance;
  result = r.result;
}

-- ACTIONABLE_STATUSES of monitor.py.
abbrev pub actionable_statuses : List String
actionable_statuses =
    "review_pending" ∷ "result_invalid" ∷ "controller_exited" ∷ "provider_exited_no_result"
    ∷ "status_transcript_contradiction" ∷ "cleanup_unproven" ∷ "orphaned_lease" ∷ "resume_required"
    ∷ []

-- `derived in ACTIONABLE_STATUSES`
unfoldable pub is_actionable : Status → Bool
unfolding status_name
is_actionable s = mem_text (status_name s) actionable_statuses

-- Every status that the derivation can give is in the set.
actionable_all : (s : Status) → is_actionable s ≡ true
unfolding is_actionable status_name
actionable_all review_pending = refl
actionable_all result_invalid = refl
actionable_all controller_exited = refl
actionable_all provider_exited_no_result = refl
actionable_all status_transcript_contradiction = refl
actionable_all cleanup_unproven = refl
actionable_all orphaned_lease = refl
actionable_all resume_required = refl

pub record SnapshotLane : Type 0 where
  pub lane_id : String
  pub run_id : Option Json
  pub lifecycle : Option Json
  pub actionable_status : Option Status

module _ (digest : Fields → String) (os : ProcessTable) where
  unfoldable pub lane_snapshot : List Orphan → List LaneEntry → List SnapshotLane
  unfolding facts_of
  lane_snapshot orphans [] = []
  lane_snapshot orphans (entry ∷ rest) =
      let others = lane_snapshot orphans rest in
      elim entry.read [
        | none ↦ others
        | some r ↦
            record {
              lane_id = entry.lane_id;
              run_id = get "run_id" r.lane;
              lifecycle = get "lifecycle" r.lane;
              actionable_status = derive_lane_status digest os (facts_of orphans r);
            }
            ∷ others
      ]

  -- The loop of `_find_actionable`, with its test `derived in ACTIONABLE_STATUSES`.
  unfoldable pub first_actionable : List Orphan → List LaneEntry → Option (String × Status)
  unfolding facts_of is_actionable
  first_actionable orphans [] = none
  first_actionable orphans (entry ∷ rest) =
      let others = first_actionable orphans rest in
      elim entry.read [
        | none ↦ others
        | some r ↦ elim (derive_lane_status digest os (facts_of orphans r)) [
          | none ↦ others
          | some s ↦ if is_actionable s then some (entry.lane_id, s) else others
        ]
      ]

  unfoldable pub find_actionable : List Orphan → List LaneEntry → Option (String × Status)
  unfolding first_actionable
  find_actionable [] entries = first_actionable [] entries
  find_actionable (o ∷ rest) entries = some (join_text "resource:" o.resource_id, orphaned_lease)

  -- Nothing in the snapshot asks for an action.
  abbrev pub IsQuiet : List SnapshotLane → Type 0
  IsQuiet lanes = All (λ (l : SnapshotLane). l.actionable_status ≡ none) lanes

  first_actionable-IsQuiet :
      (entries : List LaneEntry)
      → first_actionable [] entries ≡ none
      → IsQuiet (lane_snapshot [] entries)
  unfolding first_actionable lane_snapshot
  first_actionable-IsQuiet [] h = tt
  first_actionable-IsQuiet (entry ∷ rest) h = elim (Option-cases entry.read) [
    | inl e ↦ rw (e) (first_actionable-IsQuiet rest (ground arith))
    | inr (r, e) ↦ elim (Option-cases (derive_lane_status digest os (facts_of [] r))) [
      | inl d ↦ rw (e) (d, first_actionable-IsQuiet rest (ground arith))
      | inr (s, d) ↦ absurd (ground (arith, actionable_all s))
    ]
  ]

  snapshot_skips :
      (entry : LaneEntry) (rest : List LaneEntry)
      → entry.read ≡ none
      → lane_snapshot [] (entry ∷ rest) ≡ lane_snapshot [] rest
  unfolding lane_snapshot
  snapshot_skips entry rest e = rw e refl

  snapshot_keeps :
      (entry : LaneEntry) (rest : List LaneEntry) (r : LaneRead)
      → entry.read ≡ some r
      → IsQuiet (lane_snapshot [] (entry ∷ rest))
      → (derive_lane_status digest os (facts_of [] r) ≡ none) × IsQuiet (lane_snapshot [] rest)
  unfolding lane_snapshot
  snapshot_keeps entry rest r e h = subst IsQuiet (shown entry rest r e) h
    where
      shown :
          (entry : LaneEntry) (rest : List LaneEntry) (r : LaneRead)
          → entry.read ≡ some r
          → lane_snapshot [] (entry ∷ rest)
            ≡ record {
              lane_id = entry.lane_id;
              run_id = get "run_id" r.lane;
              lifecycle = get "lifecycle" r.lane;
              actionable_status = derive_lane_status digest os (facts_of [] r);
            }
              ∷ lane_snapshot [] rest
      shown entry rest r e = rw e refl

  quiet_from :
      (entries : List LaneEntry)
      → IsQuiet (lane_snapshot [] entries)
      → first_actionable [] entries ≡ none
  unfolding first_actionable lane_snapshot
  quiet_from [] h = refl
  quiet_from (entry ∷ rest) h = elim (Option-cases entry.read) [
    | inl e ↦ rw e (quiet_from rest (subst IsQuiet (snapshot_skips entry rest e) h))
    | inr (r, e) ↦ let k = snapshot_keeps entry rest r e h in rw (e, k.0) (quiet_from rest k.1)
  ]

  -- A watch finds nothing to act on exactly if a scan of the same lanes and leases shows no orphaned
  -- lease and no actionable status.
  pub find_actionable-agrees :
      (orphans : List Orphan) (entries : List LaneEntry)
      → (find_actionable orphans entries ≡ none)
        ↔ ((orphans ≡ []) × IsQuiet (lane_snapshot orphans entries))
  unfolding find_actionable
  find_actionable-agrees [] entries =
      (λ h. (refl, first_actionable-IsQuiet entries h), λ h. quiet_from entries h.1)
  find_actionable-agrees (o ∷ rest) entries =
      (λ h. absurd (ground arith), λ h. absurd (ground (arith, h.0)))
