-- ===== src/Watcher/Alerts.antt =====
-- The alert file of the watcher, with the three operations on it. Recovery states that this module
-- never writes do not occur in the file.
use Prim.Native.String.{[] as empty, ◌∷◌ as char_then, ◌++◌ as join_text}
use harness_single.Base.{
  ℕ, zero, suc, String, Bool, true, false, not, Option, none, some, List, [], ◌∷◌, ◌++◌, ◌==◌, ◌&&◌,
  if◌then◌else◌, Result, ok, err, RecordFile, missing, unreadable, readable,
}
use harness_single.Base.Json.{Fields}

-- ORDER
pub data Recovery : Type 0 where
  stop_assigning checkpoint_requested paused repaired resumed resolved : Recovery

-- `state_name in ORDER`
unfoldable pub parse_recovery : String → Option Recovery
parse_recovery name =
    if name == "STOP_ASSIGNING"
    then some stop_assigning
    else if name == "CHECKPOINT_REQUESTED"
    then some checkpoint_requested
    else if name == "PAUSED"
    then some paused
    else if name == "REPAIRED"
    then some repaired
    else if name == "RESUMED"
    then some resumed
    else if name == "RESOLVED"
    then some resolved
    else none

-- `expected` in `transition`
unfoldable pub next_recovery : Option Recovery → Option Recovery
next_recovery none = some stop_assigning
next_recovery (some stop_assigning) = some checkpoint_requested
next_recovery (some checkpoint_requested) = some paused
next_recovery (some paused) = some repaired
next_recovery (some repaired) = some resumed
next_recovery (some resumed) = some resolved
next_recovery (some resolved) = none

unfoldable pub same_recovery : Recovery → Recovery → Bool
same_recovery stop_assigning stop_assigning = true
same_recovery checkpoint_requested checkpoint_requested = true
same_recovery paused paused = true
same_recovery repaired repaired = true
same_recovery resumed resumed = true
same_recovery resolved resolved = true
same_recovery _ _ = false

pub record Entry : Type 0 where
  pub state : Recovery
  pub at_utc : String

pub record Alert : Type 0 where
  pub alert_id : String
  pub event_id : String
  pub signature : String
  pub severity : String
  pub summary : String
  pub kind : Option String
  pub implicated : List String
  pub evidence : List Fields
  pub packet_id : String
  pub evaluator_identity : List (String × String)
  pub acknowledged : Bool
  pub recovery_state : Option Recovery
  pub recovery_history : List Entry

-- `Verdict` of harness_watcher_implementation/evaluator.py
pub record Verdict : Type 0 where
  pub defect : Bool
  pub kind : Option String
  pub severity : String
  pub summary : String
  pub implicated : List String
  pub evidence : List Fields

pub data AlertError : Type 0 where
  invalid_state unknown_recovery_state out_of_order unknown_alert write_failed : AlertError

abbrev pub AlertFile : Type 0
AlertFile = RecordFile (List Alert)

-- `_load`; a file that is no JSON, or has another shape, raises.
unfoldable pub load : AlertFile → Result AlertError (List Alert)
load missing = ok []
load unreadable = err invalid_state
load (readable alerts) = ok alerts

-- A result, and the file that the call leaves.
abbrev pub Run : Type 0 → Type 0
Run A = Result AlertError A × AlertFile

-- `_save`, whose replacement of the file happens or raises; then `return value`.
unfoldable pub save : {A : Type 0} → Bool → List Alert → A → AlertFile → Run A
save writes alerts value file =
    if writes then (ok value, readable alerts) else (err write_failed, file)

-- `text[:n]`
unfoldable pub prefix : ℕ → String → String
prefix zero s = empty
prefix (suc n) empty = empty
prefix (suc n) (char_then c s) = char_then c (prefix n s)

unfoldable pub is_resolved : Option Recovery → Bool
is_resolved (some resolved) = true
is_resolved _ = false

-- `signature` is the digest of the verdict's kind, summary and evidence.
unfoldable pub new_alert : String → Verdict → String → List (String × String) → Alert
unfolding prefix
new_alert signature v packet_id identity = record {
  alert_id = join_text "hwa-" (prefix 24 signature);
  event_id = join_text "hwa-" signature;
  signature = signature;
  severity = v.severity;
  summary = v.summary;
  kind = v.kind;
  implicated = v.implicated;
  evidence = v.evidence;
  packet_id = packet_id;
  evaluator_identity = identity;
  acknowledged = false;
  recovery_state = none;
  recovery_history = [];
}

-- The first alert that a test holds for, and that alert changed in place.
unfoldable pub find_alert : (Alert → Bool) → List Alert → Option Alert
find_alert test [] = none
find_alert test (a ∷ alerts) = if test a then some a else find_alert test alerts

unfoldable pub update_alert : (Alert → Bool) → (Alert → Alert) → List Alert → List Alert
update_alert test f [] = []
update_alert test f (a ∷ alerts) = if test a then f a ∷ alerts else a ∷ update_alert test f alerts

unfoldable pub is_open_with : String → Alert → Bool
unfolding is_resolved
is_open_with signature a = a.signature == signature && not (is_resolved a.recovery_state)

unfoldable pub save_signed :
    Bool
    → String
    → Verdict
    → String
    → List (String × String)
    → AlertFile
    → List Alert
    → Run (Option Alert)
unfolding find_alert is_open_with new_alert save
save_signed writes signature v packet_id identity file alerts =
    elim (find_alert (is_open_with signature) alerts) [
      | some a ↦ (ok (some a), file)
      | none ↦
          let a = new_alert signature v packet_id identity in
          save writes (alerts ++ a ∷ []) (some a) file
    ]

-- `digest` is the SHA-256 of the canonical JSON of the three values.
unfoldable pub save_alert :
    (Option String → String → List Fields → String)
    → Bool
    → Verdict
    → String
    → List (String × String)
    → AlertFile
    → Run (Option Alert)
unfolding load save_signed
save_alert digest writes v packet_id identity file =
    if not v.defect then (ok none, file) else elim (load file) [
      | err e ↦ (err e, file)
      | ok alerts ↦
          save_signed writes (digest v.kind v.summary v.evidence) v packet_id identity file alerts
    ]

unfoldable pub has_event : String → Alert → Bool
has_event event_id a = a.event_id == event_id

unfoldable pub set_acknowledged : Alert → Alert
set_acknowledged a = record a { acknowledged = true }

unfoldable pub acknowledge_found : Bool → String → AlertFile → List Alert → Run Bool
unfolding find_alert update_alert has_event set_acknowledged save
acknowledge_found writes event_id file alerts = elim (find_alert (has_event event_id) alerts) [
  | none ↦ (ok false, file)
  | some a ↦ save writes (update_alert (has_event event_id) set_acknowledged alerts) true file
]

unfoldable pub acknowledge : Bool → String → AlertFile → Run Bool
unfolding load acknowledge_found
acknowledge writes event_id file = elim (load file) [
  | err e ↦ (err e, file)
  | ok alerts ↦ acknowledge_found writes event_id file alerts
]

unfoldable pub has_id : String → Alert → Bool
has_id alert_id a = a.alert_id == alert_id

unfoldable pub set_recovery : Recovery → String → Alert → Alert
set_recovery s now a = record a {
  recovery_state = some s;
  recovery_history = a.recovery_history ++ record { state = s; at_utc = now } ∷ [];
}

-- `expected == state_name`
unfoldable pub is_expected : Option Recovery → Recovery → Bool
unfolding next_recovery same_recovery
is_expected current s = elim (next_recovery current) [ none ↦ false | some e ↦ same_recovery e s ]

unfoldable pub transition_found :
    Bool → String → String → Recovery → AlertFile → List Alert → Run Alert
unfolding find_alert update_alert has_id set_recovery save is_expected
transition_found writes now alert_id s file alerts = elim (find_alert (has_id alert_id) alerts) [
  | none ↦ (err unknown_alert, file)
  | some a ↦
      if is_expected a.recovery_state s
      then save writes (update_alert (has_id alert_id) (set_recovery s now) alerts)
          (set_recovery s now a) file
      else (err out_of_order, file)
]

unfoldable pub transition : Bool → String → String → String → AlertFile → Run Alert
unfolding load parse_recovery transition_found
transition writes now alert_id name file = elim (parse_recovery name) [
  | none ↦ (err unknown_recovery_state, file)
  | some s ↦ elim (load file) [
    | err e ↦ (err e, file)
    | ok alerts ↦ transition_found writes now alert_id s file alerts
  ]
]

-- `unresolved_alerts`, which takes a file that cannot be read as empty.
unfoldable pub open_alerts : List Alert → List Alert
unfolding is_resolved
open_alerts [] = []
open_alerts (a ∷ alerts) =
    let rest = open_alerts alerts in if is_resolved a.recovery_state then rest else a ∷ rest

unfoldable pub unresolved_alerts : AlertFile → List Alert
unfolding load open_alerts
unresolved_alerts file = elim (load file) [ err e ↦ [] | ok alerts ↦ open_alerts alerts ]
