-- ===== src/Epochs/Opening.antt =====
-- What an opened epoch is, and what an opening that was interrupted leaves.
use harness_single.Base.{
  String, true, some, ◌∷◌, ◌==◌, ◌≡◌, refl, sym, ap, subst, ◌∙◌, arith, ok, missing, unreadable,
  readable, Bool-cases, Option-cases, inl, inr, eq_iff, eq_refl,
}
use harness_single.Base.Dict.{lookup, insert, lookup-insert}
use harness_single.Epochs.Store.{
  EpochState, EpochMarker, Files, Writes, Request, new_state, new_marker, read_current, reuse_epoch,
  activate, announce, open_new, open_epoch,
}

-- The marker names an epoch whose stored state is `s`, active and of the configuration.
pub record IsOpened (identity : String) (s : EpochState) (files : Files) : Type 0 where
  pub current : EpochMarker
  pub marks : read_current files.marker ≡ some current
  pub stored : lookup current.epoch_id files.states ≡ some (readable s)
  pub of_identity : s.config_identity ≡ identity
  pub is_active : s.lifecycle ≡ "active"

module _ (r : Request) where
  reuse_done :
      (m : EpochMarker) (files : Files) (s : EpochState)
      → reuse_epoch r m files ≡ ok s
      → (lookup m.epoch_id files.states ≡ some (readable s))
        × (s.config_identity ≡ r.identity)
        × (s.lifecycle ≡ "active")
  unfolding reuse_epoch
  reuse_done m files s h = elim (Option-cases (lookup m.epoch_id files.states)) [
    | inl e ↦ absurd (ground arith)
    | inr (missing, e) ↦ absurd (ground arith)
    | inr (unreadable, e) ↦ absurd (ground arith)
    | inr (readable t, e) ↦
        let same : t ≡ s = ground arith in
        (
          e ∙ ap (λ x. some (readable x)) same,
          subst (λ x. x.config_identity ≡ r.identity) same
              ((eq_iff t.config_identity r.identity).0 (ground arith)),
          subst (λ x. x.lifecycle ≡ "active") same ((eq_iff t.lifecycle "active").0 (ground arith)),
        )
  ]

  -- The files after all writes from the opening record on.
  abbrev announced : Files → Files
  announced files = record files {
    marker = readable (new_marker r);
    states =
        insert r.new_epoch (readable (new_state "active" r))
          (insert r.new_epoch (readable (new_state "opening" r)) files.states);
    lane_lists = r.new_epoch ∷ files.lane_lists;
  }

  announced-IsOpened :
      (files : Files) → IsOpened r.identity (new_state "active" r) (announced files)
  unfolding new_state new_marker read_current
  announced-IsOpened files = record {
    current = new_marker r;
    marks = refl;
    stored =
        lookup-insert r.new_epoch r.new_epoch (readable (new_state "active" r))
          (insert r.new_epoch (readable (new_state "opening" r)) files.states)
        ∙ rw (eq_refl r.new_epoch) refl;
    of_identity = refl;
    is_active = refl;
  }

  announce_writes :
      (w : Writes) (files : Files) (s : EpochState)
      → (announce w r files).0 ≡ ok s
      → announce w r files ≡ (ok (new_state "active" r), announced files)
  unfolding announce activate new_state
  announce_writes w files s h =
      let opening : w.opening_written ≡ true = ground arith in
      let marked : w.marker_written ≡ true = ground arith in
      let active : w.active_written ≡ true = ground arith in
      let lanes : w.lanes_written ≡ true = ground arith in rw (opening, marked, active, lanes) refl

  announce_done :
      (w : Writes) (files : Files) (s : EpochState)
      → (announce w r files).0 ≡ ok s
      → IsOpened r.identity s (announce w r files).1
  announce_done w files s h =
      let written = announce_writes w files s h in
      let returned : ok (new_state "active" r) ≡ ok s = ap (λ x. x.0) (sym written) ∙ h in
      let same : new_state "active" r ≡ s = ground arith in
      subst (λ x. IsOpened r.identity s x.1) (sym written)
        (subst (λ t. IsOpened r.identity t (announced files)) same (announced-IsOpened files))

  open_new_announces :
      (w : Writes) (files : Files) (s : EpochState)
      → (open_new w r files).0 ≡ ok s
      → (from : Files) × (open_new w r files ≡ announce w r from)
  unfolding open_new
  open_new_announces w files s h = elim (Bool-cases (r.profile == "managed")) [
    | inr n ↦ (files, rw (open_new, n) refl)
    | inl n ↦ elim (Bool-cases w.queue_written) [
      | inr q ↦ absurd (ground arith)
      | inl q ↦ (record files { queue = some (r.new_epoch, r.new_queue) }, rw (open_new, n, q) refl)
    ]
  ]

  open_new_done :
      (w : Writes) (files : Files) (s : EpochState)
      → (open_new w r files).0 ≡ ok s
      → IsOpened r.identity s (open_new w r files).1
  open_new_done w files s h =
      let (from, e) = open_new_announces w files s h in
      subst (λ x. IsOpened r.identity s x.1) (sym e)
        (announce_done w from s (ap (λ x. x.0) (sym e) ∙ h))

  -- An opening that returns a state leaves it as the stored state of the epoch that the marker names,
  -- active and with the identity of the configuration that was asked for, whether it was opened now
  -- or reused.
  pub open_epoch_done :
      (w : Writes) (files : Files) (s : EpochState)
      → (open_epoch w r files).0 ≡ ok s
      → IsOpened r.identity s (open_epoch w r files).1
  unfolding open_epoch
  open_epoch_done w files s h = elim (Option-cases (read_current files.marker)) [
    | inl e ↦ rw (open_epoch, e) (open_new_done w files s (ground arith))
    | inr (m, e) ↦
        let k = reuse_done m files s (ground arith) in
        rw (open_epoch, e)
          (record { current = m; marks = e; stored = k.0; of_identity = k.1; is_active = k.2 })
  ]

IsOpened-reuse :
    (identity : String) (s : EpochState) (files : Files) (w : Writes) (r : Request)
    → r.identity ≡ identity
    → IsOpened identity s files
    → open_epoch w r files ≡ (ok s, files)
unfolding open_epoch reuse_epoch
IsOpened-reuse identity s files w r e o =
    rw (open_epoch, o.marks, reuse_epoch, o.stored, o.of_identity, e, eq_refl identity, o.is_active)
      refl

-- After an opening that returned a state, every further opening with the same configuration returns
-- the same state and changes no file, whatever its fresh identifiers and its writes.
pub open_epoch_again :
    (w again : Writes) (r later : Request) (files : Files) (s : EpochState)
    → (open_epoch w r files).0 ≡ ok s
    → later.identity ≡ r.identity
    → open_epoch again later (open_epoch w r files).1 ≡ (ok s, (open_epoch w r files).1)
open_epoch_again w again r later files s h e =
    IsOpened-reuse r.identity s (open_epoch w r files).1 again later e
      (open_epoch_done r w files s h)
