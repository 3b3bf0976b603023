-- ===== src/Epochs/Examples.antt =====
-- An epoch that is opened twice, and the theorems at it.
use harness_single.Base.{true, false, err, none, [], ◌≡◌, refl, ok, missing}
use harness_single.Epochs.Store.{
  write_failed, Files, Writes, Request, new_state, open_epoch, open_new, announce, activate,
  read_current,
}
use harness_single.Epochs.Opening.{IsOpened, open_epoch_done}
use harness_single.Epochs.Interrupted.{IsLeft, failed_open-IsLeft}

abbrev fresh : Files
fresh = record { marker = missing; states = []; queue = none; lane_lists = [] }

abbrev all_written : Writes
all_written = record {
  queue_written = true;
  opening_written = true;
  marker_written = true;
  active_written = true;
  lanes_written = true;
}

abbrev request : Request
request = record {
  identity = "c1";
  profile = "managed";
  new_epoch = "e1";
  new_queue = "q1";
  now = "t1";
}

abbrev later : Request
later = record request { new_epoch = "e2"; new_queue = "q2"; now = "t2" }

opened : (open_epoch all_written request fresh).0 ≡ ok (new_state "active" request)
unfolding open_epoch open_new announce activate read_current
opened = refl

open_epoch_done_example :
    IsOpened "c1" (new_state "active" request) (open_epoch all_written request fresh).1
open_epoch_done_example =
    open_epoch_done request all_written fresh (new_state "active" request) opened

-- The write of the active state fails.
abbrev interrupted : Writes
interrupted = record all_written { active_written = false }

raised : (open_epoch interrupted request fresh).0 ≡ err write_failed
unfolding open_epoch open_new announce activate read_current
raised = refl

no_marker : read_current fresh.marker ≡ none
unfolding read_current
no_marker = refl

failed_open-IsLeft_example : IsLeft request (open_epoch interrupted request fresh).1
failed_open-IsLeft_example =
    failed_open-IsLeft request interrupted fresh write_failed no_marker raised
