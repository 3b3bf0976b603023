-- ===== src/Epochs/Store.antt =====
-- The records of the epochs, with `open_epoch` and `close_epoch`. Each write replaces its file or
-- raises and leaves it; the identity of the configuration is an argument.
use harness_single.Base.{
  String, Bool, not, Option, none, some, List, ◌∷◌, ◌==◌, if◌then◌else◌, Result, ok, err,
  RecordFile, missing, unreadable, readable,
}
use harness_single.Base.Dict.{Dict, lookup, insert}

-- epoch-state.json
pub record EpochState : Type 0 where
  pub epoch_id : String
  pub config_identity : String
  pub lane_mode : String
  pub lifecycle : String
  pub opened_at : String
  pub closed_at : Option String

-- CURRENT_EPOCH.json
pub record EpochMarker : Type 0 where
  pub epoch_id : String
  pub lane_mode : String
  pub opened_at : String
  pub queue_id : Option String

-- The files: the marker, the state of each epoch, the header of the fresh manager queue, and
-- the epochs whose list of active lanes was written.
pub record Files : Type 0 where
  pub marker : RecordFile EpochMarker
  pub states : Dict (RecordFile EpochState)
  pub queue : Option (String × String)
  pub lane_lists : List String

pub data EpochError : Type 0 where
  configuration_changed not_active state_unreadable write_failed : EpochError

-- Whether each write of `open_epoch` happens, in the order of the code.
pub record Writes : Type 0 where
  pub queue_written : Bool
  pub opening_written : Bool
  pub marker_written : Bool
  pub active_written : Bool
  pub lanes_written : Bool

-- The arguments of `open_epoch`, with its fresh identifiers and the time.
pub record Request : Type 0 where
  pub identity : String
  pub profile : String
  pub new_epoch : String
  pub new_queue : String
  pub now : String

abbrev pub Run : Type 0 → Type 0
Run A = Result EpochError A × Files

unfoldable pub new_state : String → Request → EpochState
new_state lifecycle r = record {
  epoch_id = r.new_epoch;
  config_identity = r.identity;
  lane_mode = r.profile;
  lifecycle = lifecycle;
  opened_at = r.now;
  closed_at = none;
}

unfoldable pub new_marker : Request → EpochMarker
new_marker r = record {
  epoch_id = r.new_epoch;
  lane_mode = r.profile;
  opened_at = r.now;
  queue_id = if r.profile == "managed" then some r.new_queue else none;
}

-- The marker is read back only if its file can be read.
unfoldable pub read_current : RecordFile EpochMarker → Option EpochMarker
read_current (readable m) = some m
read_current _ = none

-- `open_epoch` with an active epoch.
unfoldable pub reuse_epoch : Request → EpochMarker → Files → Result EpochError EpochState
reuse_epoch r m files = elim (lookup m.epoch_id files.states) [
  | some (readable s) ↦
      if not (s.config_identity == r.identity)
      then err configuration_changed
      else if not (s.lifecycle == "active")
      then err not_active
      else ok s
  | _ ↦ err state_unreadable
]

abbrev pub put_state : EpochState → Files → Files
put_state s files = record files { states = insert s.epoch_id (readable s) files.states }

-- From the activation of the epoch on.
unfoldable pub activate : Writes → Request → Files → Run EpochState
unfolding new_state
activate w r files =
    if not w.active_written
    then (err write_failed, files)
    else if not w.lanes_written
    then (err write_failed, put_state (new_state "active" r) files)
    else (
      ok (new_state "active" r),
      record (put_state (new_state "active" r) files) {
        lane_lists = r.new_epoch ∷ files.lane_lists;
      },
    )

-- From the record of the opening epoch on.
unfoldable pub announce : Writes → Request → Files → Run EpochState
unfolding activate new_state new_marker
announce w r files =
    if not w.opening_written
    then (err write_failed, files)
    else if not w.marker_written
    then (err write_failed, put_state (new_state "opening" r) files)
    else activate w r
        (record (put_state (new_state "opening" r) files) { marker = readable (new_marker r) })

-- `open_epoch` with no active epoch; a managed one stages a fresh queue first.
unfoldable pub open_new : Writes → Request → Files → Run EpochState
unfolding announce
open_new w r files =
    if not (r.profile == "managed")
    then announce w r files
    else if not w.queue_written
    then (err write_failed, files)
    else announce w r (record files { queue = some (r.new_epoch, r.new_queue) })

unfoldable pub open_epoch : Writes → Request → Files → Run EpochState
unfolding read_current reuse_epoch open_new
open_epoch w r files = elim (read_current files.marker) [
  | some m ↦ (reuse_epoch r m files, files)
  | none ↦ open_new w r files
]

-- The state file that `close_epoch` writes. From a file that cannot be read it makes a record with no
-- schema, which `read_epoch_state` refuses; a record of another schema counts as such a file here.
unfoldable pub closed_file : String → Option (RecordFile EpochState) → RecordFile EpochState
closed_file now (some (readable s)) =
    readable (record s { lifecycle = "closed"; closed_at = some now })
closed_file now _ = unreadable

-- `unlinked` says whether the marker is gone after the unlink, `written` whether the state is
-- replaced.
unfoldable pub close_epoch : Bool → Bool → String → String → Files → Run Unit
unfolding closed_file
close_epoch unlinked written now id files =
    if not unlinked
    then (err write_failed, files)
    else if not written
    then (err write_failed, record files { marker = missing })
    else (
      ok tt,
      record files {
        marker = missing;
        states = insert id (closed_file now (lookup id files.states)) files.states;
      },
    )
