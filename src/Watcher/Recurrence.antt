-- ===== src/Watcher/Recurrence.antt =====
-- Defects that are reported more than once.
use harness_single.Base.{
  String, Bool, true, false, Option, none, some, List, [], ◌∷◌, ◌++◌, ◌≡◌, refl, sym, ap, ◌∙◌,
  arith, ok, readable, Bool-cases, Option-cases, Result-cases, inl, inr, eq_refl,
}
use harness_single.Base.Json.{Fields}
use harness_single.Watcher.Alerts.{
  save_signed, transition_found, Recovery, resolved, Alert, Verdict, AlertFile, load, save,
  is_resolved, new_alert, find_alert, is_open_with, save_alert, has_id, next_recovery, is_expected,
  transition, parse_recovery,
}

find_alert-first :
    (test : Alert → Bool) (alerts : List Alert) (a b : Alert)
    → find_alert test alerts ≡ some a
    → find_alert test (alerts ++ b ∷ []) ≡ some a
unfolding find_alert
find_alert-first test [] a b h = absurd (ground arith)
find_alert-first test (x ∷ alerts) a b h = elim (Bool-cases (test x)) [
  | inl e ↦ rw e (ground arith)
  | inr e ↦ rw e (find_alert-first test alerts a b (ground arith))
]

find_alert-last :
    (test : Alert → Bool) (alerts : List Alert) (b : Alert)
    → find_alert test alerts ≡ none
    → test b ≡ true
    → find_alert test (alerts ++ b ∷ []) ≡ some b
unfolding find_alert
find_alert-last test [] b h t = rw t refl
find_alert-last test (x ∷ alerts) b h t = elim (Bool-cases (test x)) [
  | inl e ↦ absurd (ground arith)
  | inr e ↦ rw e (find_alert-last test alerts b (ground arith) t)
]

resolved_expects_nothing :
    (current : Option Recovery) (s : Recovery)
    → is_resolved current ≡ true
    → is_expected current s ≡ false
unfolding is_expected is_resolved next_recovery
resolved_expects_nothing (some resolved) s h = refl
resolved_expects_nothing _ s h = absurd (ground arith)

-- A transition of an identifier whose first alert is resolved leaves the file.
stuck :
    (writes : Bool) (now alert_id name : String) (alerts : List Alert) (a : Alert)
    → find_alert (has_id alert_id) alerts ≡ some a
    → is_resolved a.recovery_state ≡ true
    → (transition writes now alert_id name (readable alerts)).1 ≡ readable alerts
unfolding transition load transition_found
stuck writes now alert_id name alerts a h r = elim (Option-cases (parse_recovery name)) [
  | inl e ↦ rw (transition, e) refl
  | inr (s, e) ↦
      rw (transition, e, transition_found, h, resolved_expects_nothing a.recovery_state s r) refl
]

new_is_open :
    (signature : String) (v : Verdict) (packet_id : String) (identity : List (String × String))
    → is_open_with signature (new_alert signature v packet_id identity) ≡ true
unfolding is_open_with new_alert is_resolved
new_is_open signature v packet_id identity = rw (eq_refl signature) refl

saved_new :
    (signature : String) (v : Verdict) (packet_id : String) (identity : List (String × String))
    (file : AlertFile) (alerts : List Alert)
    → find_alert (is_open_with signature) alerts ≡ none
    → save_signed true signature v packet_id identity file alerts ≡ (
      ok (some (new_alert signature v packet_id identity)),
      readable (alerts ++ new_alert signature v packet_id identity ∷ []),
    )
unfolding save_signed save
saved_new signature v packet_id identity file alerts h = rw (save_signed, h) refl

signed_found :
    (writes : Bool) (signature : String) (v : Verdict) (packet_id : String)
    (identity : List (String × String)) (file : AlertFile) (alerts : List Alert) (a : Alert)
    → load file ≡ ok alerts
    → (save_signed writes signature v packet_id identity file alerts).0 ≡ ok (some a)
    → (stored : List Alert) × (load
          (save_signed writes signature v packet_id identity file alerts).1
        ≡ ok stored)
      × (find_alert (is_open_with signature) stored ≡ some a)
unfolding save_signed save load
signed_found writes signature v packet_id identity file alerts a l h =
    elim (Option-cases (find_alert (is_open_with signature) alerts)) [
      | inr (b, e) ↦
          let same : b ≡ a = unfold save_signed in ground arith in
          (alerts, rw (save_signed, e) l, e ∙ ap some same)
      | inl e ↦
          let new = new_alert signature v packet_id identity in
          let wrote : writes ≡ true = unfold save_signed in unfold save in ground arith in
          let same : new ≡ a = unfold save_signed in unfold save in ground arith in
          (
            alerts ++ new ∷ [],
            rw (save_signed, e, save, wrote) refl,
            find_alert-last (is_open_with signature) alerts new e
                  (new_is_open signature v packet_id identity)
                ∙ ap some same,
          )
    ]

module _ (digest : Option String → String → List Fields → String) where
  abbrev pub signature_of : Verdict → String
  signature_of v = digest v.kind v.summary v.evidence

  -- A defect that recurs after its alert was resolved gets a new alert with the identifier of the
  -- resolved one, and from then on no transition under that identifier changes the file: the new
  -- alert cannot be moved on. Conditions: the file is readable, the first alert with the identifier is
  -- resolved, no alert with the signature is open, and the new alert is written.
  pub recurring_alert_is_stuck :
      (v : Verdict) (packet_id : String) (identity : List (String × String)) (alerts : List Alert)
      (old : Alert)
      → v.defect ≡ true
      → find_alert (has_id (new_alert (signature_of v) v packet_id identity).alert_id) alerts
        ≡ some old
      → is_resolved old.recovery_state ≡ true
      → find_alert (is_open_with (signature_of v)) alerts ≡ none
      → ((save_alert digest true v packet_id identity (readable alerts)).0
          ≡ ok (some (new_alert (signature_of v) v packet_id identity)))
        × ((writes : Bool) (now name : String)
            → (transition writes now
                (new_alert (signature_of v) v packet_id identity).alert_id
                name
                (save_alert digest true v packet_id identity (readable alerts)).1).1
              ≡ (save_alert digest true v packet_id identity (readable alerts)).1)
  unfolding save_alert load
  recurring_alert_is_stuck v packet_id identity alerts old d f r n =
      let new = new_alert (signature_of v) v packet_id identity in
      rw (d, saved_new (signature_of v) v packet_id identity (readable alerts) alerts n)
        (
          refl,
          λ writes now name.
              stuck writes now new.alert_id name (alerts ++ new ∷ []) old
                (find_alert-first (has_id new.alert_id) alerts old new f) r,
        )

  -- Saving the same defect again, with whatever packet and evaluator, returns the alert that the
  -- first save returned and leaves the file that the first save left.
  pub save_alert_once :
      (writes again : Bool) (v : Verdict) (packet_id later_packet : String)
      (identity later : List (String × String)) (file : AlertFile) (a : Alert)
      → v.defect ≡ true
      → (save_alert digest writes v packet_id identity file).0 ≡ ok (some a)
      → save_alert digest again v later_packet later
          (save_alert digest writes v packet_id identity file).1
        ≡ (ok (some a), (save_alert digest writes v packet_id identity file).1)
  unfolding save_alert load
  save_alert_once writes again v packet_id later_packet identity later file a d h =
      elim (Result-cases (load file)) [
        | inr (x, l) ↦ absurd (unfold save_alert in ground arith)
        | inl (alerts, l) ↦
            let first : save_alert digest writes v packet_id identity file
                ≡ save_signed writes (signature_of v) v packet_id identity file alerts =
              rw (save_alert, d, l) refl in
            let (stored, reads, found) =
              signed_found writes (signature_of v) v packet_id identity file alerts a l
                (ap (λ r. r.0) (sym first) ∙ h) in
            rw (first, save_alert, d, reads, save_signed, found)
              (ap (λ r. (ok (some a), r.1)) first)
      ]
