-- ===== src/Leases/Examples.antt =====
-- Runs on a small lease folder, and the theorems at it. The digest is the name itself with a suffix.
use harness_single.Base.{
  String, true, false, List, [], ◌∷◌, ◌≡◌, refl, some, none, readable, ok, err, ◌==◌, if◌then◌else◌,
  ◌&&◌,
}
use Prim.Native.String.{◌++◌ as join_text}
use harness_single.Base.Json.{get, as_text, nonempty_text, as_pid}
use harness_single.Base.Dict.{lookup, remove}
use harness_single.Processes.{ProcessTable}
use harness_single.Leases.Store.{
  lease_missing, write_failed, LeaseFiles, Disk, Holder, lease_record, acquire_leases, is_file,
  release_leases, force_release_leases,
}
use harness_single.Leases.Recovery.{
  Resolver, AuditEnv, Resources, start_entry, failed, succeeded, force_release_lease,
  force_release_lease_audited, force_release_at,
}
use harness_single.Leases.Acquisition.{
  SameFiles, IsAcquired, acquire_leases_failed, acquire_leases_done,
}
use harness_single.Leases.Safety.{IsReleasable, force_release_lease_done}
use harness_single.Leases.Release.{lookup-release, is_held_by}
use harness_single.Leases.Audit.{audited_deletion, audit_denies_absence, logged, end_entry}

abbrev digest : String → String
digest id = join_text id ".lease"

abbrev disk : Disk
disk = record { writes = λ p. true; unlinks = λ p. true }

-- The second path cannot be written.
abbrev full_disk : Disk
full_disk = record { writes = λ p. p == "board.lease"; unlinks = λ p. true }

abbrev holder_a : Holder
holder_a = record { lane_id = "lane-a"; run_id = "run-1"; pid = 41; creation_time = "t41" }

abbrev holder_b : Holder
holder_b = record { lane_id = "lane-b"; run_id = "run-2"; pid = 42; creation_time = "t42" }

abbrev two : List String
two = "board" ∷ "probe" ∷ []

acquired : (acquire_leases digest disk "now" holder_a two []).0 ≡ ok tt
unfolding acquire_leases is_file lookup
acquired = refl

rolled_back : (acquire_leases digest full_disk "now" holder_a two []).0 ≡ err write_failed
unfolding acquire_leases is_file lookup
rolled_back = refl

acquire_leases_failed_example :
    SameFiles [] (acquire_leases digest full_disk "now" holder_a two []).1
acquire_leases_failed_example =
    acquire_leases_failed digest full_disk "now" holder_a two [] write_failed (λ p. refl)
      rolled_back

acquire_leases_done_example :
    IsAcquired digest "now" holder_a two [] (acquire_leases digest disk "now" holder_a two []).1
acquire_leases_done_example = acquire_leases_done digest disk "now" holder_a two [] acquired

-- One lease, of a process that is gone.
abbrev folder : LeaseFiles
folder = ("board.lease", readable (lease_record "now" "board" holder_a)) ∷ []

abbrev quiet : ProcessTable
quiet = record { alive = λ pid. false; creation_time = λ pid. none }

abbrev no_lane : Resolver
no_lane lane_id = none

lookup-release_example :
    (lookup "board.lease" (release_leases disk "lane-a" "run-1" folder) ≡ (
      if is_held_by "lane-a" (some "run-1") (lookup "board.lease" folder) && true
      then none
      else lookup "board.lease" folder))
    × (lookup "board.lease" (force_release_leases disk "lane-a" folder) ≡ (
        if is_held_by "lane-a" none (lookup "board.lease" folder) && true
        then none
        else lookup "board.lease" folder))
lookup-release_example = lookup-release disk "lane-a" "run-1" "board.lease" folder

released : (force_release_lease digest quiet disk no_lane "board" folder).0 ≡ ok tt
unfolding force_release_lease lease_record get as_text nonempty_text as_pid lookup remove
released = refl

force_release_lease_done_example :
    IsReleasable quiet no_lane "board" (lookup "board.lease" folder)
    × ((j : String)
        → lookup j (force_release_lease digest quiet disk no_lane "board" folder).1
          ≡ (if "board.lease" == j then none else lookup j folder))
force_release_lease_done_example =
    force_release_lease_done digest quiet disk no_lane "board" folder released

not_there : (force_release_lease digest quiet disk no_lane "probe" folder).0 ≡ err lease_missing
unfolding force_release_lease lookup
not_there = refl

abbrev audited : AuditEnv
audited = record {
  started_at = "t1";
  ended_at = "t2";
  started_written = true;
  ended_written = true;
}

abbrev resources : Resources
resources = record { files = folder; audit = [] }

board_lease : lookup (digest "board") folder ≡ some (readable (lease_record "now" "board" holder_a))
unfolding lookup
board_lease = refl

board_gone :
    lookup
      (digest "board")
      (force_release_lease_audited digest quiet disk audited no_lane "board" resources).1.files
    ≡ none
unfolding force_release_lease_audited force_release_at lease_record get as_text nonempty_text as_pid
    lookup remove
board_gone = refl

audited_deletion_example :
    IsReleasable quiet no_lane "board" (some (readable (lease_record "now" "board" holder_a)))
    × (audited.started_written ≡ true)
    × ((force_release_lease_audited digest quiet disk audited no_lane "board" resources).1.audit
        ≡ logged quiet disk audited no_lane "board" "board.lease" resources
            (end_entry quiet disk audited no_lane "board" "board.lease" resources succeeded true))
    × ((force_release_lease_audited digest quiet disk audited no_lane "board" resources).0
        ≡ ok true)
audited_deletion_example =
    audited_deletion digest quiet disk audited no_lane "board" resources
      (readable (lease_record "now" "board" holder_a)) board_lease board_gone

probe_missing :
    (force_release_lease_audited digest quiet disk audited no_lane "probe" resources).0
    ≡ err lease_missing
unfolding force_release_lease_audited force_release_at lookup
probe_missing = refl

no_probe : lookup (digest "probe") folder ≡ none
unfolding lookup
no_probe = refl

audit_denies_absence_example :
    ((force_release_lease_audited digest quiet disk audited no_lane "probe" resources).0
      ≡ err lease_missing)
    × ((force_release_lease_audited digest quiet disk audited no_lane "probe" resources).1.audit
        ≡ start_entry audited "probe" none
          ∷ record {
            at = "t2";
            resource_id = "probe";
            outcome = failed lease_missing;
            holder = none;
            lease_absent = some false;
          }
          ∷ [])
audit_denies_absence_example =
    audit_denies_absence digest quiet disk audited no_lane "probe" resources no_probe refl refl
