-- ===== src/Leases/Acquisition.antt =====
-- Acquiring leases is all or nothing; releasing touches the right leases only.
use harness_single.Base.{
  String, true, false, Option, none, some, List, [], ◌∷◌, ◌++◌, ◌==◌, ◌||◌, mem_text, if◌then◌else◌,
  ok, err, RecordFile, readable, ◌≡◌, refl, ◌∙◌, ap, arith, Bool-cases, inl, inr, eq_iff, eq_refl,
}
use harness_single.Base.Json.{Fields}
use harness_single.Base.Dict.{lookup, insert, remove, lookup-insert, lookup-remove}
use harness_single.Leases.Store.{
  LeaseError, lease_busy, LeaseFiles, Disk, Holder, lease_record, is_file, unlink_all, any_held,
  write_leases, acquire_leases,
}

abbrev pub SameFiles : LeaseFiles → LeaseFiles → Type 0
SameFiles files files' = (path : String) → lookup path files' ≡ lookup path files

-- The paths of some resources.
abbrev pub digests : (String → String) → List String → List String
digests digest [] = []
digests digest (id ∷ ids) = digest id ∷ digests digest ids

lookup-unlink_all :
    (disk : Disk) (ps : List String) (files : LeaseFiles) (j : String)
    → ((p : String) → disk.unlinks p ≡ true)
    → lookup j (unlink_all disk ps files) ≡ (if mem_text j ps then none else lookup j files)
unfolding unlink_all
lookup-unlink_all disk [] files j h = refl
lookup-unlink_all disk (p ∷ ps) files j h = ground (
  arith,
  h p,
  lookup-unlink_all disk ps (remove p files) j h,
  lookup-remove p j files,
  eq_iff p j,
  eq_iff j p,
)

mem_text-append :
    (j p : String) (ps : List String) → mem_text j (ps ++ p ∷ []) ≡ (mem_text j ps || j == p)
mem_text-append j p [] = ground arith
mem_text-append j p (q ∷ ps) = ground (arith, mem_text-append j p ps)

module _ (digest : String → String) where
  -- A write that fails: `base` is what the path held before the first write.
  write_leases_failed :
      (disk : Disk) (now : String) (h : Holder) (acquired ids : List String) (files : LeaseFiles)
      (e : LeaseError) (j : String) (base : Option (RecordFile Fields))
      → ((p : String) → disk.unlinks p ≡ true)
      → (mem_text j acquired ≡ false → lookup j files ≡ base)
      → (mem_text j acquired ≡ true → base ≡ none)
      → (mem_text j (digests digest ids) ≡ true → base ≡ none)
      → (write_leases digest disk now h acquired ids files).0 ≡ err e
      → lookup j (write_leases digest disk now h acquired ids files).1 ≡ base
  unfolding write_leases
  write_leases_failed disk now h acquired [] files e j base u kept gone todo x =
      absurd (ground arith)
  write_leases_failed disk now h acquired (id ∷ ids) files e j base u kept gone todo x =
      elim (Bool-cases (disk.writes (digest id))) [
        | inr fails ↦ rw fails (ground (arith, lookup-unlink_all disk acquired files j u))
        | inl works ↦
            let record_file : RecordFile Fields = readable (lease_record now id h) in
            rw works (
              write_leases_failed disk now h (acquired ++ digest id ∷ []) ids
                (insert (digest id) record_file files) e j base u
                (λ m. ground (
                  arith,
                  mem_text-append j (digest id) acquired,
                  lookup-insert (digest id) j record_file files,
                  eq_iff (digest id) j,
                  eq_iff j (digest id),
                ))
                (λ m. ground (arith, mem_text-append j (digest id) acquired)) (λ m. ground arith)
                (ground arith))
      ]

  any_held-absent :
      (ids : List String) (files : LeaseFiles) (j : String)
      → any_held digest ids files ≡ false
      → mem_text j (digests digest ids) ≡ true
      → lookup j files ≡ none
  unfolding any_held is_file
  any_held-absent [] files j h m = absurd (ground arith)
  any_held-absent (id ∷ ids) files j h m =
      ground (arith, eq_iff j (digest id), any_held-absent ids files j)

  -- If every deletion succeeds, an acquisition that raises leaves every path of the lease folder
  -- with the content that it had.
  pub acquire_leases_failed :
      (disk : Disk) (now : String) (h : Holder) (ids : List String) (files : LeaseFiles)
      (e : LeaseError)
      → ((p : String) → disk.unlinks p ≡ true)
      → (acquire_leases digest disk now h ids files).0 ≡ err e
      → SameFiles files (acquire_leases digest disk now h ids files).1
  unfolding acquire_leases
  acquire_leases_failed disk now h ids files e u x j =
      elim (Bool-cases (any_held digest ids files)) [
        | inl busy ↦ rw busy
        | inr idle ↦ rw idle (
            write_leases_failed disk now h [] ids files e j (lookup j files) u (λ m. refl)
              (λ m. absurd (ground arith)) (any_held-absent ids files j idle) (ground arith))
      ]

  -- The lease of a resource among `ids`, found by its path, after the writes.
  abbrev pub written :
      String
      → Holder
      → List String
      → String
      → Option (RecordFile Fields)
      → Option (RecordFile Fields)
  written now h [] j old = old
  written now h (id ∷ ids) j old =
      written now h ids j (if digest id == j then some (readable (lease_record now id h)) else old)

  write_leases_done :
      (disk : Disk) (now : String) (h : Holder) (acquired ids : List String) (files : LeaseFiles)
      (j : String)
      → (write_leases digest disk now h acquired ids files).0 ≡ ok tt
      → lookup j (write_leases digest disk now h acquired ids files).1
        ≡ written now h ids j (lookup j files)
  unfolding write_leases
  write_leases_done disk now h acquired [] files j x = refl
  write_leases_done disk now h acquired (id ∷ ids) files j x =
      elim (Bool-cases (disk.writes (digest id))) [
        | inr fails ↦ absurd (ground arith)
        | inl works ↦
            let record_file : RecordFile Fields = readable (lease_record now id h) in
            rw works (
              write_leases_done disk now h (acquired ++ digest id ∷ []) ids
                (insert (digest id) record_file files) j (ground arith)
              ∙ ap (written now h ids j) (lookup-insert (digest id) j record_file files))
      ]

  written-other :
      (now : String) (h : Holder) (ids : List String) (j : String)
      (old : Option (RecordFile Fields))
      → mem_text j (digests digest ids) ≡ false
      → written now h ids j old ≡ old
  written-other now h [] j old n = refl
  written-other now h (id ∷ ids) j old n =
      let miss : (digest id == j) ≡ false =
        ground (arith, eq_iff (digest id) j, eq_iff j (digest id)) in
      rw miss (written-other now h ids j old (ground arith))

  -- The path holds a lease of the holder for a resource with that path.
  abbrev pub IsLeased : String → Holder → String → Option (RecordFile Fields) → Type 0
  IsLeased now h j f =
      (id : String) × (digest id ≡ j) × (f ≡ some (readable (lease_record now id h)))

  written-kept :
      (now : String) (h : Holder) (ids : List String) (j : String)
      (old : Option (RecordFile Fields))
      → IsLeased now h j old
      → IsLeased now h j (written now h ids j old)
  written-kept now h [] j old l = l
  written-kept now h (id ∷ ids) j old l = elim (Bool-cases (digest id == j)) [
    | inl hit ↦ rw hit (written-kept now h ids j _ (id, (eq_iff (digest id) j).0 hit, refl))
    | inr miss ↦ rw miss (written-kept now h ids j old l)
  ]

  written-mem :
      (now : String) (h : Holder) (ids : List String) (id : String)
      (old : Option (RecordFile Fields))
      → mem_text id ids ≡ true
      → IsLeased now h (digest id) (written now h ids (digest id) old)
  written-mem now h [] id old m = absurd (ground arith)
  written-mem now h (x ∷ xs) id old m = elim (Bool-cases (id == x)) [
    | inl hit ↦
        let e : id ≡ x = (eq_iff id x).0 hit in
        rw (e, eq_refl (digest x)) (written-kept now h xs (digest x) _ (x, refl, refl))
    | inr miss ↦ written-mem now h xs id _ (ground arith)
  ]

  acquired_absent :
      (disk : Disk) (now : String) (h : Holder) (ids : List String) (files : LeaseFiles)
      → (acquire_leases digest disk now h ids files).0 ≡ ok tt
      → (any_held digest ids files ≡ false)
        × (acquire_leases digest disk now h ids files ≡ write_leases digest disk now h [] ids files)
  unfolding acquire_leases
  acquired_absent disk now h ids files x = (ground arith, ground arith)

  -- What an acquisition did: every resource was free and is now leased by the holder, and the paths
  -- of other resources hold what they held.
  pub record IsAcquired (now : String) (h : Holder) (ids : List String) (files files' : LeaseFiles)
      : Type 0 where
    pub was_free :
        (id : String)
        → mem_text (digest id) (digests digest ids) ≡ true
        → lookup (digest id) files ≡ none
    pub leased :
        (id : String)
        → mem_text id ids ≡ true
        → IsLeased now h (digest id) (lookup (digest id) files')
    pub others :
        (j : String) → mem_text j (digests digest ids) ≡ false → lookup j files' ≡ lookup j files

  -- An acquisition that returns found every resource free, wrote for each a lease of the holder at
  -- its path, and left every other path as it was.
  pub acquire_leases_done :
      (disk : Disk) (now : String) (h : Holder) (ids : List String) (files : LeaseFiles)
      → (acquire_leases digest disk now h ids files).0 ≡ ok tt
      → IsAcquired now h ids files (acquire_leases digest disk now h ids files).1
  acquire_leases_done disk now h ids files x =
      let (idle, e) = acquired_absent disk now h ids files x in
      let done = λ (j : String). write_leases_done disk now h [] ids files j (rw (← e) x) in
      rw e (record {
        was_free = λ id m. any_held-absent ids files (digest id) idle m;
        leased = λ id m. rw (done (digest id)) (written-mem now h ids id _ m);
        others = λ j n. rw (done j) (written-other now h ids j _ n);
      })

  any_held-mem :
      (ids : List String) (files : LeaseFiles) (id : String) (f : RecordFile Fields)
      → lookup (digest id) files ≡ some f
      → mem_text id ids ≡ true
      → any_held digest ids files ≡ true
  unfolding any_held is_file
  any_held-mem [] files id f l m = absurd (ground arith)
  any_held-mem (x ∷ xs) files id f l m = elim (Bool-cases (id == x)) [
    | inl hit ↦
        let e : lookup (digest x) files ≡ some f = rw (← (eq_iff id x).0 hit) l in ground arith
    | inr miss ↦ ground (arith, any_held-mem xs files id f l)
  ]

  -- After an acquisition that returned, an acquisition by any holder of resources among which is one
  -- of those acquired raises `lease_busy` and changes nothing.
  pub acquire_leases_excludes :
      (disk disk' : Disk) (now now' : String) (h h' : Holder) (ids ids' : List String) (id : String)
      (files : LeaseFiles)
      → (acquire_leases digest disk now h ids files).0 ≡ ok tt
      → mem_text id ids ≡ true
      → mem_text id ids' ≡ true
      → acquire_leases digest disk' now' h' ids' (acquire_leases digest disk now h ids files).1
        ≡ (err lease_busy, (acquire_leases digest disk now h ids files).1)
  acquire_leases_excludes disk disk' now now' h h' ids ids' id files x m m' =
      let (k, d, l) = (acquire_leases_done disk now h ids files x).leased id m in
      let held =
        any_held-mem ids' (acquire_leases digest disk now h ids files).1 id
          (readable (lease_record now k h)) l m' in
      unfold acquire_leases in ground arith
