-- ===== src/Epochs/Interrupted.antt =====
-- What an opening that raises leaves.
use harness_single.Base.{
  String, none, some, ◌==◌, ◌≡◌, refl, sym, ap, subst, ◌∙◌, arith, ◌⊎◌, err, readable, Bool-cases,
  inl, inr, eq_refl,
}
use harness_single.Base.Dict.{lookup, insert, lookup-insert}
use harness_single.Epochs.Store.{
  Files, EpochError, not_active, write_failed, Writes, Request, new_state, new_marker, read_current,
  reuse_epoch, put_state, activate, announce, open_new, open_epoch,
}
use harness_single.Epochs.Opening.{IsOpened}

-- Every further opening with the configuration raises, and changes no file.
abbrev pub IsBlocked : String → Files → Type 0
IsBlocked identity files =
    (again : Writes) (later : Request)
    → later.identity ≡ identity
    → open_epoch again later files ≡ (err not_active, files)

-- No marker, an epoch that can be reused, or a blocked runtime.
abbrev pub IsLeft : Request → Files → Type 0
IsLeft r files =
    (read_current files.marker ≡ none)
    ⊎ IsOpened r.identity (new_state "active" r) files
    ⊎ IsBlocked r.identity files

module _ (r : Request) where
  abbrev marked : Files → Files
  marked files = record (put_state (new_state "opening" r) files) {
    marker = readable (new_marker r);
  }

  opening_stored :
      (files : Files)
      → lookup r.new_epoch (insert r.new_epoch (readable (new_state "opening" r)) files.states)
        ≡ some (readable (new_state "opening" r))
  opening_stored files =
      lookup-insert r.new_epoch r.new_epoch (readable (new_state "opening" r)) files.states
      ∙ rw (eq_refl r.new_epoch) refl

  marked-IsBlocked : (files : Files) → IsBlocked r.identity (marked files)
  unfolding open_epoch reuse_epoch new_state new_marker read_current
  marked-IsBlocked files again later e =
      rw (reuse_epoch, opening_stored files, e, eq_refl r.identity) refl

  activated-IsOpened :
      (files : Files)
      → IsOpened r.identity (new_state "active" r) (put_state (new_state "active" r) (marked files))
  unfolding new_state new_marker read_current
  activated-IsOpened files = record {
    current = new_marker r;
    marks = refl;
    stored =
        lookup-insert r.new_epoch r.new_epoch (readable (new_state "active" r))
          (insert r.new_epoch (readable (new_state "opening" r)) files.states)
        ∙ rw (eq_refl r.new_epoch) refl;
    of_identity = refl;
    is_active = refl;
  }

  activate-IsLeft :
      (w : Writes) (files : Files) (e : EpochError)
      → (activate w r (marked files)).0 ≡ err e
      → IsLeft r (activate w r (marked files)).1
  unfolding activate
  activate-IsLeft w files e h = elim (Bool-cases w.active_written) [
    | inr a ↦ rw (activate, a) (inr (inr (marked-IsBlocked files)))
    | inl a ↦ elim (Bool-cases w.lanes_written) [
      | inr l ↦ rw (activate, a, l) (inr (inl (activated-IsOpened files)))
      | inl l ↦ absurd (ground arith)
    ]
  ]

  announce-IsLeft :
      (w : Writes) (files : Files) (e : EpochError)
      → read_current files.marker ≡ none
      → (announce w r files).0 ≡ err e
      → IsLeft r (announce w r files).1
  unfolding announce new_state
  announce-IsLeft w files e n h = elim (Bool-cases w.opening_written) [
    | inr o ↦ rw (announce, o) (inl n)
    | inl o ↦ elim (Bool-cases w.marker_written) [
      | inr m ↦ rw (announce, o, m) (inl n)
      | inl m ↦ rw (announce, o, m) (activate-IsLeft w files e (ground arith))
    ]
  ]

  open_new-IsLeft :
      (w : Writes) (files : Files) (e : EpochError)
      → read_current files.marker ≡ none
      → (open_new w r files).0 ≡ err e
      → IsLeft r (open_new w r files).1
  unfolding open_new announce
  open_new-IsLeft w files e n h = elim (Bool-cases (r.profile == "managed")) [
    | inr p ↦
        let same : open_new w r files ≡ announce w r files = rw (open_new, p) refl in
        subst (λ x. IsLeft r x.1) (sym same)
          (announce-IsLeft w files e n (ap (λ x. x.0) (sym same) ∙ h))
    | inl p ↦ elim (Bool-cases w.queue_written) [
      | inr q ↦
          let same : open_new w r files ≡ (err write_failed, files) = rw (open_new, p, q) refl in
          subst (λ x. IsLeft r x.1) (sym same) (inl n)
      | inl q ↦
          let from = record files { queue = some (r.new_epoch, r.new_queue) } in
          let same : open_new w r files ≡ announce w r from = rw (open_new, p, q) refl in
          subst (λ x. IsLeft r x.1) (sym same)
            (announce-IsLeft w from e n (ap (λ x. x.0) (sym same) ∙ h))
    ]
  ]

  -- An opening that raises, where no epoch was active, leaves one of three: no readable marker; the
  -- new epoch, active and behind the marker; or a marker of an epoch that is still opening, behind
  -- which every further opening with the configuration raises that the epoch is not active.
  pub failed_open-IsLeft :
      (w : Writes) (files : Files) (e : EpochError)
      → read_current files.marker ≡ none
      → (open_epoch w r files).0 ≡ err e
      → IsLeft r (open_epoch w r files).1
  unfolding open_epoch open_new
  failed_open-IsLeft w files e n h =
      let same : open_epoch w r files ≡ open_new w r files = rw (open_epoch, n) refl in
      subst (λ x. IsLeft r x.1) (sym same)
        (open_new-IsLeft w files e n (ap (λ x. x.0) (sym same) ∙ h))
