-- ===== src/Watcher/Calls.antt =====
-- Sequences of calls on the alert file, and what the file is to hold between them.
use harness_single.Base.{
  String, Bool, false, Option, none, some, List, [], ◌∷◌, ◌≡◌, All, missing, unreadable, readable,
}
use harness_single.Base.Json.{Fields}
use harness_single.Watcher.Alerts.{
  Recovery, stop_assigning, checkpoint_requested, paused, repaired, resumed, resolved, Entry, Alert,
  Verdict, AlertFile, is_resolved, find_alert, is_open_with, save_alert, acknowledge, transition,
}

-- The states that lead to a recovery state, in the order in which an alert takes them.
abbrev pub path_to : Option Recovery → List Recovery
path_to none = []
path_to (some stop_assigning) = stop_assigning ∷ []
path_to (some checkpoint_requested) = stop_assigning ∷ checkpoint_requested ∷ []
path_to (some paused) = stop_assigning ∷ checkpoint_requested ∷ paused ∷ []
path_to (some repaired) = stop_assigning ∷ checkpoint_requested ∷ paused ∷ repaired ∷ []
path_to (some resumed) = stop_assigning ∷ checkpoint_requested ∷ paused ∷ repaired ∷ resumed ∷ []
path_to (some resolved) =
    stop_assigning ∷ checkpoint_requested ∷ paused ∷ repaired ∷ resumed ∷ resolved ∷ []

abbrev pub states : List Entry → List Recovery
states [] = []
states (e ∷ es) = e.state ∷ states es

-- The history of an alert is the path to its state.
abbrev pub IsOrdered : Alert → Type 0
IsOrdered a = states a.recovery_history ≡ path_to a.recovery_state

-- No two alerts that are not resolved have the same signature.
abbrev pub IsOpenOnce : List Alert → Type 0
IsOpenOnce [] = Unit
IsOpenOnce (a ∷ alerts) =
    (is_resolved a.recovery_state ≡ false → find_alert (is_open_with a.signature) alerts ≡ none)
    × IsOpenOnce alerts

abbrev pub IsConsistent : AlertFile → Type 0
IsConsistent missing = Unit
IsConsistent unreadable = Unit
IsConsistent (readable alerts) = All IsOrdered alerts × IsOpenOnce alerts

-- One call, with its arguments and whether the file can be replaced.
pub data Call : Type 0 where
  save_call : Bool → Verdict → String → List (String × String) → Call
  acknowledge_call : Bool → String → Call
  transition_call : Bool → String → String → String → Call

module _ (digest : Option String → String → List Fields → String) where
  -- The file that the call leaves.
  unfoldable pub step : Call → AlertFile → AlertFile
  step (save_call writes v packet_id identity) file =
      (save_alert digest writes v packet_id identity file).1
  step (acknowledge_call writes event_id) file = (acknowledge writes event_id file).1
  step (transition_call writes now alert_id name) file =
      (transition writes now alert_id name file).1

  unfoldable pub run : List Call → AlertFile → AlertFile
  run [] file = file
  run (c ∷ cs) file = run cs (step c file)
