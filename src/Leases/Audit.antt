-- ===== src/Leases/Audit.antt =====
-- What the audit log of a forced release tells.
use harness_single.Base.{
  String, Bool, true, false, none, some, List, [], ◌∷◌, ◌++◌, if◌then◌else◌, Result, ok, err,
  RecordFile, ◌≡◌, arith, Bool-cases, Result-cases, inl, inr, ◌⊎◌,
}
use harness_single.Base.Json.{Fields}
use harness_single.Base.Dict.{lookup, remove}
use harness_single.Processes.{ProcessTable}
use harness_single.Leases.Store.{
  LeaseError, lease_missing, audit_failed_after, audit_failed_released, Disk,
}
use harness_single.Leases.Recovery.{
  Resolver, check_release, force_release_at, AuditEntry, AuditEnv, Resources, AuditOutcome, failed,
  succeeded, audit_holder, append_audit, end_audit, start_entry, operate, release_audited_at,
  force_release_lease_audited,
}
use harness_single.Leases.Safety.{IsReleasable, at_ok, at_err, is_file-remove}

module _ (os : ProcessTable) (disk : Disk) (env : AuditEnv) (resolve : Resolver) (id path : String)
    (r : Resources) where
  abbrev pub outcome : Result LeaseError Bool × Resources
  outcome = release_audited_at os disk env resolve id path r

  abbrev operation : Result LeaseError Unit
  operation = (force_release_at os disk resolve id path r.files).0

  abbrev pub start : AuditEntry
  start = start_entry env id (audit_holder (lookup path r.files))

  abbrev pub end_entry : AuditOutcome → Bool → AuditEntry
  end_entry o absent = record {
    at = env.ended_at;
    resource_id = id;
    outcome = o;
    holder = audit_holder (lookup path r.files);
    lease_absent = some absent;
  }

  -- The log after a call whose first entry was written.
  abbrev pub logged : AuditEntry → List AuditEntry
  logged last =
      if env.ended_written then (r.audit ++ start ∷ []) ++ last ∷ [] else r.audit ++ start ∷ []

  when_ok :
      env.started_written ≡ true
      → operation ≡ ok tt
      → (outcome.1.files ≡ remove path r.files)
        × (outcome.1.audit ≡ logged (end_entry succeeded true))
        × (outcome.0 ≡ (if env.ended_written then ok true else err audit_failed_released))
  unfolding release_audited_at operate end_audit append_audit
  when_ok w x =
      let k = (at_ok os disk resolve id path r.files x).1 in
      (
        ground (arith, k),
        ground (arith, k, is_file-remove path r.files),
        ground (arith, k, is_file-remove path r.files),
      )

  when_err :
      (e : LeaseError)
      → env.started_written ≡ true
      → operation ≡ err e
      → (outcome.1.files ≡ r.files)
        × (outcome.1.audit ≡ logged (end_entry (failed e) false))
        × (outcome.0 ≡ err (if env.ended_written then e else audit_failed_after e))
  unfolding release_audited_at operate end_audit append_audit
  when_err e w x =
      (ground (arith, at_err os disk resolve id path r.files e x), ground arith, ground arith)

-- An audited forced release that makes a lease file disappear had the grounds for it, had written its
-- STARTED entry to the log before, and then, if the terminal entry can be written, ends the log with
-- an entry of the outcome SUCCEEDED that says the lease is absent, and returns true; if it cannot, it
-- raises the error that says the lease was released.
pub audited_deletion :
    (digest : String → String) (os : ProcessTable) (disk : Disk) (env : AuditEnv)
    (resolve : Resolver) (id : String) (r : Resources) (f : RecordFile Fields)
    → lookup (digest id) r.files ≡ some f
    → lookup (digest id) (force_release_lease_audited digest os disk env resolve id r).1.files
      ≡ none
    → IsReleasable os resolve id (some f)
      × (env.started_written ≡ true)
      × ((force_release_lease_audited digest os disk env resolve id r).1.audit
          ≡ logged os disk env resolve id
              (digest id)
              r
              (end_entry os disk env resolve id (digest id) r succeeded true))
      × ((force_release_lease_audited digest os disk env resolve id r).0
          ≡ (if env.ended_written then ok true else err audit_failed_released))
unfolding force_release_lease_audited
audited_deletion digest os disk env resolve id r f was gone =
    elim (Bool-cases env.started_written) [
      | inr w ↦ unfold release_audited_at in absurd (ground arith)
      | inl w ↦ elim (Result-cases (operation os disk env resolve id (digest id) r)) [
        | inr (e, x) ↦ absurd (ground (arith, when_err os disk env resolve id (digest id) r e w x))
        | inl (u, x) ↦
            let k = when_ok os disk env resolve id (digest id) r w x in
            (rw (← was) (at_ok os disk resolve id (digest id) r.files x).0, w, k.1, k.2)
      ]
    ]

-- An audited forced release that raises leaves every lease file where it was, unless it raises the
-- error that says the lease was released.
pub audited_error :
    (digest : String → String) (os : ProcessTable) (disk : Disk) (env : AuditEnv)
    (resolve : Resolver) (id : String) (r : Resources) (e : LeaseError)
    → (force_release_lease_audited digest os disk env resolve id r).0 ≡ err e
    → (e ≡ audit_failed_released)
      ⊎ ((force_release_lease_audited digest os disk env resolve id r).1.files ≡ r.files)
unfolding force_release_lease_audited
audited_error digest os disk env resolve id r e x = elim (Bool-cases env.started_written) [
  | inr w ↦ inr (unfold release_audited_at in ground arith)
  | inl w ↦ elim (Result-cases (operation os disk env resolve id (digest id) r)) [
    | inr (e', y) ↦ inr (when_err os disk env resolve id (digest id) r e' w y).0
    | inl (u, y) ↦ inl (ground (arith, when_ok os disk env resolve id (digest id) r w y))
  ]
]

-- Where there is no lease file and both entries can be written, the audited forced release raises
-- `lease_missing`, and ends its log with an entry that says the lease is not absent.
pub audit_denies_absence :
    (digest : String → String) (os : ProcessTable) (disk : Disk) (env : AuditEnv)
    (resolve : Resolver) (id : String) (r : Resources)
    → lookup (digest id) r.files ≡ none
    → env.started_written ≡ true
    → env.ended_written ≡ true
    → ((force_release_lease_audited digest os disk env resolve id r).0 ≡ err lease_missing)
      × ((force_release_lease_audited digest os disk env resolve id r).1.audit
          ≡ (r.audit ++ start_entry env id none ∷ [])
            ++ record {
              at = env.ended_at;
              resource_id = id;
              outcome = failed lease_missing;
              holder = none;
              lease_absent = some false;
            }
              ∷ [])
unfolding force_release_lease_audited
audit_denies_absence digest os disk env resolve id r gone w w' =
    let x : operation os disk env resolve id (digest id) r ≡ err lease_missing =
      unfold force_release_at check_release in ground arith in
    let k = when_err os disk env resolve id (digest id) r lease_missing w x in
    let h : audit_holder (lookup (digest id) r.files) ≡ none =
      unfold audit_holder in ground arith in
    (ground (arith, k), ground (arith, k, h))
