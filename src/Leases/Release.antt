-- ===== src/Leases/Release.antt =====
-- Releasing unlinks the leases that the test picks, and no others.
use harness_single.Base.{
  String, Bool, false, Option, none, some, List, [], ◌∷◌, ◌==◌, ◌&&◌, mem_text, if◌then◌else◌,
  RecordFile, readable, ◌≡◌, refl, arith, eq_iff,
}
use harness_single.Base.Json.{Fields}
use harness_single.Base.Dict.{lookup, lookup-remove}
use harness_single.Leases.Store.{
  LeaseFiles, Disk, names_text, release_one, release_paths, paths, release_where, release_leases,
  force_release_leases,
}

-- What a release loop leaves of the content of one path.
abbrev pub after_release :
    Bool → (Fields → Bool) → Option (RecordFile Fields) → Option (RecordFile Fields)
after_release unlinks picks (some (readable lease)) =
    if picks lease && unlinks then none else some (readable lease)
after_release unlinks picks f = f

lookup-release_one :
    (disk : Disk) (picks : Fields → Bool) (path j : String) (files : LeaseFiles)
    → lookup j (release_one disk picks path files) ≡ (
        if path == j then after_release (disk.unlinks j) picks (lookup j files) else lookup j files)
unfolding release_one
lookup-release_one disk picks path j files =
    ground (arith, eq_iff path j, lookup-remove path j files)

after_release_twice :
    (b : Bool) (picks : Fields → Bool) (f : Option (RecordFile Fields))
    → after_release b picks (after_release b picks f) ≡ after_release b picks f
after_release_twice b picks f = ground arith

lookup-release_paths :
    (disk : Disk) (picks : Fields → Bool) (ps : List String) (j : String) (files : LeaseFiles)
    → lookup j (release_paths disk picks ps files) ≡ (
        if mem_text j ps
        then after_release (disk.unlinks j) picks (lookup j files)
        else lookup j files)
unfolding release_paths
lookup-release_paths disk picks [] j files = refl
lookup-release_paths disk picks (p ∷ ps) j files = ground (
  arith,
  lookup-release_paths disk picks ps j (release_one disk picks p files),
  lookup-release_one disk picks p j files,
  after_release_twice (disk.unlinks j) picks (lookup j files),
  eq_iff p j,
  eq_iff j p,
)

lookup-absent :
    (j : String) (files : LeaseFiles) → mem_text j (paths files) ≡ false → lookup j files ≡ none
unfolding lookup paths
lookup-absent j [] n = refl
lookup-absent j ((p, f) ∷ files) n = ground (arith, eq_iff p j, eq_iff j p, lookup-absent j files)

lookup-release_where :
    (disk : Disk) (picks : Fields → Bool) (j : String) (files : LeaseFiles)
    → lookup j (release_where disk picks files)
      ≡ after_release (disk.unlinks j) picks (lookup j files)
unfolding release_where
lookup-release_where disk picks j files =
    ground (arith, lookup-release_paths disk picks (paths files) j files, lookup-absent j files)

-- The lease is readable and names the lane, and the run if one is asked for.
abbrev pub is_held_by : String → Option String → Option (RecordFile Fields) → Bool
is_held_by lane none (some (readable lease)) = names_text lease "lane_id" lane
is_held_by lane (some run) (some (readable lease)) =
    names_text lease "lane_id" lane && names_text lease "run_id" run
is_held_by lane run f = false

-- A release of a lane's run leaves exactly the files that are no readable lease of that lane and
-- run, or that could not be deleted; a forced release of a lane does so whatever the run.
pub lookup-release :
    (disk : Disk) (lane run j : String) (files : LeaseFiles)
    → (lookup j (release_leases disk lane run files) ≡ (
        if is_held_by lane (some run) (lookup j files) && disk.unlinks j
        then none
        else lookup j files))
      × (lookup j (force_release_leases disk lane files) ≡ (
          if is_held_by lane none (lookup j files) && disk.unlinks j then none else lookup j files))
unfolding release_leases force_release_leases
lookup-release disk lane run j files = (
  ground (
    arith,
    lookup-release_where disk
        (λ (lease : Fields). names_text lease "lane_id" lane && names_text lease "run_id" run) j
        files,
  ),
  ground (
    arith,
    lookup-release_where disk (λ (lease : Fields). names_text lease "lane_id" lane) j files,
  ),
)
