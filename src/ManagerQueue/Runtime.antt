-- ===== src/ManagerQueue/Runtime.antt =====
-- The transactions of orchestrator_harness/manager_queue.py on the files of one runtime: the queue
-- file, the epoch marker (`read_current_epoch` of orchestrator_harness/epochs.py) and the entries
-- that `append_detail` adds to the detail log.
-- A transaction holds the queue lock, so it is one step here; what `promote_event` reads after it is
-- not part of the step, and may be anything.
use harness_single.Base.{
  String, Bool, true, false, Option, none, some, List, [], ◌∷◌, ◌++◌, ◌&&◌, same_option, mem_text,
  if◌then◌else◌, ok, err, guard, ◌>>◌, RecordFile, missing, unreadable, readable,
}
use harness_single.ManagerQueue.Event.{
  State, Event, Queue, event_types, no_epoch, queue_missing, queue_invalid, queue_replaced,
  invalid_event_type, write_failed, Outcome,
}
use harness_single.ManagerQueue.Operations.{
  Mutation, Mutate, Promotion, promote_mutate, acknowledge_mutate, close_request, close_mutate,
  delivery_mutate, watch_mutate,
}

-- CURRENT_EPOCH.json
pub record Marker : Type 0 where
  pub epoch_id : String
  pub queue_id : Option String

-- The "queue.manager.added" entries of the detail log.
pub record Detail : Type 0 where
  pub added_event : Event
  pub queue_snapshot : Queue

pub record Runtime : Type 0 where
  pub queue_file : RecordFile Queue
  pub marker : RecordFile Marker
  pub details : List Detail

-- What the surroundings give to one call: the time, a fresh id, whether the write of the queue and
-- of the detail log succeed, and the files as `promote_event` finds them when it reads the queue
-- again for the log. That read is outside of the lock: other processes may have changed or removed
-- the files since the write, and they may not be readable then.
pub record Env : Type 0 where
  pub now : String
  pub fresh_id : String
  pub write_succeeds : Bool
  pub detail_succeeds : Bool
  pub log_view : Runtime → Runtime

unfoldable pub read_current_epoch : RecordFile Marker → Option Marker
read_current_epoch (readable m) = some m
read_current_epoch _ = none

-- `str(marker.get("queue_id") or "")`
abbrev pub header_queue_id : Marker → String
header_queue_id m = elim m.queue_id [ none ↦ "" | some s ↦ s ]

unfoldable pub header_matches : Marker → Queue → Bool
header_matches m q =
    same_option q.epoch_id (some m.epoch_id) && same_option q.queue_id (some (header_queue_id m))

check_header : Option Marker → Queue → Outcome Queue
unfolding header_matches
check_header none q = err no_epoch
check_header (some m) q = do guard (header_matches m q) queue_replaced; ok q

unfoldable pub read_manager_queue : Runtime → Outcome Queue
unfolding check_header read_current_epoch
read_manager_queue rt = elim rt.queue_file [
  | missing ↦ err queue_missing
  | unreadable ↦ err queue_invalid
  | readable q ↦ check_header (read_current_epoch rt.marker) q
]

-- What a call returns or raises, and the runtime that it leaves.
abbrev pub Run : Type 0 → Type 0
Run A = Outcome A × Runtime

-- `if changed: _write_manager_queue(rt, record)`; the write replaces the file or leaves it.
unfoldable pub write_back : {A : Type 0} → Bool → Runtime → Mutation A → Run A
write_back write_succeeds rt m =
    if m.changed
    then if write_succeeds
      then (ok m.value, record rt { queue_file = readable m.queue })
      else (err write_failed, rt)
    else (ok m.value, rt)

unfoldable pub finish : {A : Type 0} → Bool → Runtime → Outcome (Mutation A) → Run A
unfolding write_back
finish w rt (err e) = (err e, rt)
finish w rt (ok m) = write_back w rt m

transact : {A : Type 0} → Bool → Mutate A → Runtime → Outcome Queue → Run A
unfolding finish
transact w mutate rt (err e) = (err e, rt)
transact w mutate rt (ok q) = finish w rt (mutate q)

unfoldable pub update_manager_queue : {A : Type 0} → Bool → Mutate A → Runtime → Run A
unfolding transact
update_manager_queue w mutate rt = transact w mutate rt (read_manager_queue rt)

-- The promotion as one transaction, with whether an event was admitted.
abbrev pub with_flag : {A : Type 0} → Mutate A → Mutate (A × Bool)
with_flag mutate q = elim (mutate q) [
  | err e ↦ err e
  | ok m ↦ ok (record { value = (m.value, m.changed); changed = m.changed; queue = m.queue })
]

-- `append_detail` of an admitted event, with the queue that is read for it: an error of that read is
-- raised with the event in the queue, an `OSError` of the log is swallowed.
unfoldable pub log_added : Env → Run (Event × Bool) → Run Event
log_added env (err e, rt) = (err e, rt)
log_added env (ok (event, false), rt) = (ok event, rt)
log_added env (ok (event, true), rt) = elim (read_manager_queue (env.log_view rt)) [
  | err e ↦ (err e, rt)
  | ok q ↦ (
    ok event,
    if env.detail_succeeds
        then record rt {
          details = rt.details ++ record { added_event = event; queue_snapshot = q } ∷ [];
        }
        else rt,
  )
]

unfoldable pub promote_event : Env → Promotion → Runtime → Run Event
unfolding update_manager_queue log_added
promote_event env p rt =
    if mem_text p.event_type event_types
    then log_added env (
        update_manager_queue env.write_succeeds (with_flag (promote_mutate env.fresh_id env.now p))
          rt)
    else (err invalid_event_type, rt)

unfoldable pub acknowledge_event : Env → String → Runtime → Run Event
unfolding update_manager_queue
acknowledge_event env id = update_manager_queue env.write_succeeds (acknowledge_mutate env.now id)

unfoldable pub close_with : Env → String → Runtime → Outcome (State × String) → Run Event
unfolding update_manager_queue
close_with env id rt (err e) = (err e, rt)
close_with env id rt (ok (s, summary)) =
    update_manager_queue env.write_succeeds (close_mutate s env.now summary id) rt

unfoldable pub close_event : Env → String → String → Option String → Runtime → Run Event
unfolding close_with
close_event env id outcome summary rt = close_with env id rt (close_request outcome summary)

unfoldable pub append_delivery_history :
    Env → String → String → Option String → Option String → Option String → Runtime → Run Unit
unfolding update_manager_queue
append_delivery_history env id source queue_id session binding =
    update_manager_queue env.write_succeeds
      (delivery_mutate env.now id source queue_id session binding)

unfoldable pub append_watch_delivery : Env → String → String → String → Runtime → Run Bool
unfolding update_manager_queue
append_watch_delivery env id session binding =
    update_manager_queue env.write_succeeds (watch_mutate env.now id session binding)
