-- ===== src/Watcher/Examples.antt =====
-- One defect that is reported, resolved and reported again, and the theorems at it. The digest is
-- the summary itself.
use harness_single.Base.{
  String, Bool, true, Option, none, some, List, [], ◌∷◌, ◌≡◌, refl, ok, readable, missing,
}
use harness_single.Base.Json.{Fields}
use harness_single.Watcher.Alerts.{
  Alert, Verdict, resolved, load, save, save_signed, save_alert, transition, new_alert,
  set_recovery, find_alert, is_open_with, has_id, is_resolved, prefix,
}
use harness_single.Watcher.Calls.{
  Call, save_call, acknowledge_call, transition_call, run, IsConsistent,
}
use harness_single.Watcher.Invariant.{run-IsConsistent}
use harness_single.Watcher.Recurrence.{recurring_alert_is_stuck}

abbrev digest : Option String → String → List Fields → String
digest kind summary evidence = summary

abbrev verdict : Verdict
verdict = record {
  defect = true;
  kind = some "loop";
  severity = "error";
  summary = "s1";
  implicated = [];
  evidence = [];
}

abbrev resolution : List Call
resolution =
    save_call true verdict "p1" []
    ∷ transition_call true "t1" "hwa-s1" "STOP_ASSIGNING"
    ∷ transition_call true "t2" "hwa-s1" "PAUSED"
    ∷ acknowledge_call true "hwa-s1"
    ∷ []

run-IsConsistent_example : IsConsistent (run digest resolution missing)
run-IsConsistent_example = run-IsConsistent digest resolution missing tt

abbrev fresh : Alert
fresh = new_alert "s1" verdict "p1" []

saved_first : (save_alert digest true verdict "p1" [] missing).0 ≡ ok (some fresh)
unfolding save_alert save_signed save load find_alert new_alert
saved_first = refl

-- The alert after its last transition.
abbrev old : Alert
old = set_recovery resolved "t9" fresh

old_found : find_alert (has_id (new_alert "s1" verdict "p2" []).alert_id) (old ∷ []) ≡ some old
unfolding find_alert has_id new_alert set_recovery prefix
old_found = refl

old_resolved : is_resolved old.recovery_state ≡ true
unfolding is_resolved set_recovery
old_resolved = refl

none_open : find_alert (is_open_with "s1") (old ∷ []) ≡ none
unfolding find_alert is_open_with set_recovery new_alert is_resolved
none_open = refl

recurring_alert_is_stuck_example :
    ((save_alert digest true verdict "p2" [] (readable (old ∷ []))).0
      ≡ ok (some (new_alert "s1" verdict "p2" [])))
    × ((writes : Bool) (now name : String)
        → (transition writes now
            (new_alert "s1" verdict "p2" []).alert_id
            name
            (save_alert digest true verdict "p2" [] (readable (old ∷ []))).1).1
          ≡ (save_alert digest true verdict "p2" [] (readable (old ∷ []))).1)
recurring_alert_is_stuck_example =
    recurring_alert_is_stuck digest verdict "p2" [] (old ∷ []) old refl old_found old_resolved
      none_open
