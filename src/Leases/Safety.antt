-- ===== src/Leases/Safety.antt =====
-- A forced release never takes a lease from a live holder, and its audit log tells what happened.
use harness_single.Base.{
  same_option_iff_to, String, true, false, Option, none, some, List, ◌==◌, ◌||◌, if◌then◌else◌, ok,
  err, RecordFile, missing, unreadable, readable, ◌≡◌, refl, arith, Result-cases, inl, inr, eq_refl,
}
use harness_single.Base.Json.{Fields, get, as_text}
use harness_single.Base.Dict.{lookup, remove, lookup-remove}
use harness_single.Processes.{ProcessTable, same_process}
use harness_single.Leases.Store.{LeaseError, LeaseFiles, Disk, is_file}
use harness_single.Leases.Recovery.{
  Identity, read_identity, holder_is_dead, lane_releases, Resolver, check_holder, check_release,
  delete_lease, force_release_at, force_release_lease,
}

-- Grounds on which a forced release may take the lease at a path.
pub record IsReleasable (os : ProcessTable) (resolve : Resolver) (id : String)
    (f : Option (RecordFile Fields)) : Type 0 where
  pub lease : Fields
  pub holder : Identity
  pub readable_lease : f ≡ some (readable lease)
  pub of_resource : as_text (get "resource_id" lease) ≡ some id
  pub has_identity : read_identity lease ≡ some holder
  pub not_live : same_process os holder.pid holder.creation_time ≡ false
  pub proven : (holder_is_dead os holder || lane_releases (resolve holder.lane_id) holder) ≡ true

check_holder_ok :
    (os : ProcessTable) (resolve : Resolver) (o : Option Identity) (h : Identity)
    → check_holder os resolve o ≡ ok h
    → (o ≡ some h)
      × (same_process os h.pid h.creation_time ≡ false)
      × ((holder_is_dead os h || lane_releases (resolve h.lane_id) h) ≡ true)
unfolding check_holder
check_holder_ok os resolve none h x = absurd (ground arith)
check_holder_ok os resolve (some i) h x =
    let e : i ≡ h = ground arith in rw (← e) (refl, ground arith, ground arith)

check_release_ok :
    (os : ProcessTable) (resolve : Resolver) (id : String) (f : Option (RecordFile Fields))
    (h : Identity)
    → check_release os resolve id f ≡ ok h
    → IsReleasable os resolve id f
unfolding check_release
check_release_ok os resolve id none h x = absurd (ground arith)
check_release_ok os resolve id (some (readable lease)) h x =
    let (a, b, c) =
      check_holder_ok os resolve (read_identity lease) h (unfold check_holder in ground arith) in
    record {
      lease = lease;
      holder = h;
      readable_lease = refl;
      of_resource = same_option_iff_to _ _ (ground arith);
      has_identity = a;
      not_live = b;
      proven = c;
    }
check_release_ok os resolve id (some missing) h x = absurd (ground arith)
check_release_ok os resolve id (some unreadable) h x = absurd (ground arith)

pub is_file-remove :
    (path : String) (files : List (String × RecordFile Fields))
    → is_file path (remove path files) ≡ false
unfolding is_file
is_file-remove path files = ground (arith, lookup-remove path path files, eq_refl path)

module _ (os : ProcessTable) (disk : Disk) (resolve : Resolver) (id path : String)
    (files : LeaseFiles) where
  pub at_ok :
      (force_release_at os disk resolve id path files).0 ≡ ok tt
      → IsReleasable os resolve id (lookup path files)
        × ((force_release_at os disk resolve id path files).1 ≡ remove path files)
  unfolding force_release_at
  at_ok x = elim (Result-cases (check_release os resolve id (lookup path files))) [
    | inr (e, c) ↦ absurd (ground arith)
    | inl (h, c) ↦ (
      check_release_ok os resolve id (lookup path files) h c,
      unfold delete_lease in ground (arith, is_file-remove path files),
    )
  ]

  pub at_err :
      (e : LeaseError)
      → (force_release_at os disk resolve id path files).0 ≡ err e
      → (force_release_at os disk resolve id path files).1 ≡ files
  unfolding force_release_at
  at_err e x = elim (Result-cases (check_release os resolve id (lookup path files))) [
    | inr (e', c) ↦ ground arith
    | inl (h, c) ↦ unfold delete_lease in ground (arith, is_file-remove path files)
  ]

-- A forced release that returns found at the resource's path a readable lease with a complete
-- identity, whose holder is no live process, and is provably dead or belongs to a lane that is
-- retired, abandoned or in another run; it deleted that file and no other.
pub force_release_lease_done :
    (digest : String → String) (os : ProcessTable) (disk : Disk) (resolve : Resolver) (id : String)
    (files : LeaseFiles)
    → (force_release_lease digest os disk resolve id files).0 ≡ ok tt
    → IsReleasable os resolve id (lookup (digest id) files)
      × ((j : String)
          → lookup j (force_release_lease digest os disk resolve id files).1
            ≡ (if digest id == j then none else lookup j files))
unfolding force_release_lease
force_release_lease_done digest os disk resolve id files x =
    let (r, e) = at_ok os disk resolve id (digest id) files x in
    (r, λ j. rw e (lookup-remove (digest id) j files))

-- A forced release that raises, with whatever error, deletes nothing.
pub force_release_lease_failed :
    (digest : String → String) (os : ProcessTable) (disk : Disk) (resolve : Resolver) (id : String)
    (files : LeaseFiles) (e : LeaseError)
    → (force_release_lease digest os disk resolve id files).0 ≡ err e
    → (force_release_lease digest os disk resolve id files).1 ≡ files
unfolding force_release_lease
force_release_lease_failed digest os disk resolve id files =
    at_err os disk resolve id (digest id) files
