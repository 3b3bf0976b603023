-- ===== src/Watcher/Invariant.antt =====
-- The alert file stays consistent: recoveries go in order, and a defect has one open alert.
use harness_single.Base.{
  String, Bool, true, false, Option, none, some, List, [], ◌∷◌, ◌++◌, ◌≡◌, refl, subst, sym, ap,
  ◌∙◌, arith, All-append, ok, err, missing, unreadable, readable, Bool-cases, Option-cases, inl,
  inr,
}
use harness_single.Base.Json.{Fields}
use harness_single.Watcher.Alerts.{
  Recovery, Run, save_signed, acknowledge_found, transition_found, stop_assigning,
  checkpoint_requested, paused, repaired, resumed, resolved, Entry, Alert, Verdict, AlertFile, load,
  save, is_resolved, new_alert, find_alert, update_alert, is_open_with, save_alert, has_event,
  set_acknowledged, acknowledge, has_id, set_recovery, next_recovery, same_recovery, is_expected,
  transition, parse_recovery,
}
use harness_single.Watcher.Calls.{
  path_to, states, IsOrdered, IsConsistent, Call, save_call, acknowledge_call, transition_call,
  step, run,
}
use harness_single.Watcher.Updates.{Keeps, IsGood, IsGood-update, IsOpenOnce-append}

states-append : (es fs : List Entry) → states (es ++ fs) ≡ states es ++ states fs
states-append [] fs = refl
states-append (e ∷ es) fs = ap (λ t. e.state ∷ t) (states-append es fs)

same_recovery_to : (s t : Recovery) → same_recovery s t ≡ true → s ≡ t
unfolding same_recovery
same_recovery_to stop_assigning stop_assigning h = refl
same_recovery_to checkpoint_requested checkpoint_requested h = refl
same_recovery_to paused paused h = refl
same_recovery_to repaired repaired h = refl
same_recovery_to resumed resumed h = refl
same_recovery_to resolved resolved h = refl
same_recovery_to _ _ h = absurd (ground arith)

path_moves :
    (current : Option Recovery) {t s : Recovery}
    → path_to (some t) ≡ path_to current ++ t ∷ []
    → t ≡ s
    → path_to (some s) ≡ path_to current ++ s ∷ []
path_moves current p e = subst (λ x. path_to (some x) ≡ path_to current ++ x ∷ []) e p

path_next :
    (current : Option Recovery) (s : Recovery)
    → next_recovery current ≡ some s
    → path_to (some s) ≡ path_to current ++ s ∷ []
unfolding next_recovery
path_next none s h = path_moves none {t = stop_assigning} refl (ground arith)
path_next (some stop_assigning) s h =
    path_moves (some stop_assigning) {t = checkpoint_requested} refl (ground arith)
path_next (some checkpoint_requested) s h =
    path_moves (some checkpoint_requested) {t = paused} refl (ground arith)
path_next (some paused) s h = path_moves (some paused) {t = repaired} refl (ground arith)
path_next (some repaired) s h = path_moves (some repaired) {t = resumed} refl (ground arith)
path_next (some resumed) s h = path_moves (some resumed) {t = resolved} refl (ground arith)
path_next (some resolved) s h = absurd (ground arith)

expected_next :
    (current : Option Recovery) (s : Recovery)
    → is_expected current s ≡ true
    → next_recovery current ≡ some s
unfolding is_expected
expected_next current s h = elim (Option-cases (next_recovery current)) [
  | inl e ↦ absurd (ground arith)
  | inr (t, e) ↦ e ∙ ap some (same_recovery_to t s (ground arith))
]

not_resolved_before :
    (current : Option Recovery) (s : Recovery)
    → next_recovery current ≡ some s
    → is_resolved current ≡ false
unfolding next_recovery is_resolved
not_resolved_before (some resolved) s h = absurd (ground arith)
not_resolved_before _ s h = refl

IsConsistent-save :
    {A : Type 0} (writes : Bool) (alerts : List Alert) (value : A) (file : AlertFile)
    → IsGood alerts
    → IsConsistent file
    → IsConsistent (save writes alerts value file).1
unfolding save
IsConsistent-save true alerts value file g c = g
IsConsistent-save false alerts value file g c = c

IsOrdered-set_recovery :
    (s : Recovery) (now : String) (a : Alert)
    → next_recovery a.recovery_state ≡ some s
    → IsOrdered a
    → IsOrdered (set_recovery s now a)
unfolding set_recovery
IsOrdered-set_recovery s now a h o =
    states-append a.recovery_history (record { state = s; at_utc = now } ∷ [])
    ∙ ap (λ t. t ++ s ∷ []) o
    ∙ sym (path_next a.recovery_state s h)

transition-Keeps :
    (s : Recovery) (now : String) (a : Alert)
    → next_recovery a.recovery_state ≡ some s
    → Keeps a (set_recovery s now a)
unfolding set_recovery
transition-Keeps s now a h =
    (refl, λ r. absurd (ground (arith, not_resolved_before a.recovery_state s h)))

transition_found-IsConsistent :
    (writes : Bool) (now alert_id : String) (s : Recovery) (file : AlertFile) (alerts : List Alert)
    → IsGood alerts
    → IsConsistent file
    → IsConsistent (transition_found writes now alert_id s file alerts).1
unfolding transition_found
transition_found-IsConsistent writes now alert_id s file alerts g c =
    elim (Option-cases (find_alert (has_id alert_id) alerts)) [
      | inl n ↦ rw (IsConsistent, n) c
      | inr (a, n) ↦ elim (Bool-cases (is_expected a.recovery_state s)) [
        | inr b ↦ rw (IsConsistent, n, b) c
        | inl b ↦
            let next = expected_next a.recovery_state s b in
            rw (IsConsistent, n, b)
              (IsConsistent-save writes (update_alert (has_id alert_id) (set_recovery s now) alerts)
                (set_recovery s now a) file
                (IsGood-update (has_id alert_id) (set_recovery s now) alerts a n
                  (transition-Keeps s now a next) (IsOrdered-set_recovery s now a next) g)
                c)
      ]
    ]

transition-IsConsistent :
    (writes : Bool) (now alert_id name : String) (file : AlertFile)
    → IsConsistent file
    → IsConsistent (transition writes now alert_id name file).1
unfolding transition load
transition-IsConsistent writes now alert_id name file c =
    elim (Option-cases (parse_recovery name)) [
      | inl e ↦ rw (IsConsistent, e) c
      | inr (s, e) ↦ rw (IsConsistent, e) (parsed s file c)
    ]
  where
    parsed :
        (s : Recovery) (file : AlertFile)
        → IsConsistent file
        → IsConsistent
            (elim (load file) as (λ _. Run Alert) [
              | err x ↦ (err x, file)
              | ok alerts ↦ transition_found writes now alert_id s file alerts
            ]).1
    parsed s missing c = transition_found-IsConsistent writes now alert_id s missing [] (tt, tt) c
    parsed s unreadable c = c
    parsed s (readable alerts) c =
        transition_found-IsConsistent writes now alert_id s (readable alerts) alerts c c

acknowledge_found-IsConsistent :
    (writes : Bool) (event_id : String) (file : AlertFile) (alerts : List Alert)
    → IsGood alerts
    → IsConsistent file
    → IsConsistent (acknowledge_found writes event_id file alerts).1
unfolding acknowledge_found set_acknowledged
acknowledge_found-IsConsistent writes event_id file alerts g c =
    elim (Option-cases (find_alert (has_event event_id) alerts)) [
      | inl n ↦ rw (IsConsistent, n) c
      | inr (a, n) ↦
          rw (IsConsistent, n)
            (IsConsistent-save writes (update_alert (has_event event_id) set_acknowledged alerts)
              true file
              (IsGood-update (has_event event_id) set_acknowledged alerts a n (refl, λ r. r)
                (λ o. o) g)
              c)
    ]

acknowledge-IsConsistent :
    (writes : Bool) (event_id : String) (file : AlertFile)
    → IsConsistent file
    → IsConsistent (acknowledge writes event_id file).1
unfolding acknowledge load
acknowledge-IsConsistent writes event_id missing c =
    acknowledge_found-IsConsistent writes event_id missing [] (tt, tt) c
acknowledge-IsConsistent writes event_id unreadable c = c
acknowledge-IsConsistent writes event_id (readable alerts) c =
    acknowledge_found-IsConsistent writes event_id (readable alerts) alerts c c

save_signed-IsConsistent :
    (writes : Bool) (signature : String) (v : Verdict) (packet_id : String)
    (identity : List (String × String)) (file : AlertFile) (alerts : List Alert)
    → IsGood alerts
    → IsConsistent file
    → IsConsistent (save_signed writes signature v packet_id identity file alerts).1
unfolding save_signed new_alert
save_signed-IsConsistent writes signature v packet_id identity file alerts g c =
    elim (Option-cases (find_alert (is_open_with signature) alerts)) [
      | inr (a, n) ↦ rw (IsConsistent, n) c
      | inl n ↦
          let a = new_alert signature v packet_id identity in
          rw (IsConsistent, n)
            (IsConsistent-save writes (alerts ++ a ∷ []) (some a) file
              (
                All-append IsOrdered alerts (a ∷ []) g.0 (refl, tt),
                IsOpenOnce-append alerts a n g.1,
              )
              c)
    ]

module _ (digest : Option String → String → List Fields → String) where
  -- The part of `save_alert` behind its first return.
  saved :
      (writes : Bool) (v : Verdict) (packet_id : String) (identity : List (String × String))
      (file : AlertFile)
      → IsConsistent file
      → IsConsistent
          (elim (load file) as (λ _. Run (Option Alert)) [
            | err e ↦ (err e, file)
            | ok alerts ↦
                save_signed writes
                  (digest v.kind v.summary v.evidence)
                  v
                  packet_id
                  identity
                  file
                  alerts
          ]).1
  unfolding load
  saved writes v packet_id identity missing c =
      save_signed-IsConsistent writes (digest v.kind v.summary v.evidence) v packet_id identity
        missing [] (tt, tt) c
  saved writes v packet_id identity unreadable c = c
  saved writes v packet_id identity (readable alerts) c =
      save_signed-IsConsistent writes (digest v.kind v.summary v.evidence) v packet_id identity
        (readable alerts) alerts c c

  save_alert-IsConsistent :
      (writes : Bool) (v : Verdict) (packet_id : String) (identity : List (String × String))
      (file : AlertFile)
      → IsConsistent file
      → IsConsistent (save_alert digest writes v packet_id identity file).1
  unfolding save_alert load
  save_alert-IsConsistent writes v packet_id identity file c = elim (Bool-cases v.defect) [
    | inr d ↦ rw (IsConsistent, d) c
    | inl d ↦ rw (IsConsistent, d) (saved writes v packet_id identity file c)
  ]

  step-IsConsistent :
      (c : Call) (file : AlertFile) → IsConsistent file → IsConsistent (step digest c file)
  unfolding step
  step-IsConsistent (save_call writes v packet_id identity) file h =
      save_alert-IsConsistent writes v packet_id identity file h
  step-IsConsistent (acknowledge_call writes event_id) file h =
      acknowledge-IsConsistent writes event_id file h
  step-IsConsistent (transition_call writes now alert_id name) file h =
      transition-IsConsistent writes now alert_id name file h

  -- From a consistent alert file (a missing one is), any sequence of saved verdicts,
  -- acknowledgements and transitions, failing writes among them, leaves a consistent file: the
  -- history of each alert lists the recovery states up to its own, in order and none twice, and no
  -- two alerts that are not resolved have the same signature.
  pub run-IsConsistent :
      (cs : List Call) (file : AlertFile) → IsConsistent file → IsConsistent (run digest cs file)
  unfolding run
  run-IsConsistent [] file h = h
  run-IsConsistent (c ∷ cs) file h =
      run-IsConsistent cs (step digest c file) (step-IsConsistent c file h)
