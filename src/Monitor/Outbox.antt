-- ===== src/Monitor/Outbox.antt =====
-- `_consume_outbox`: the notices of one worker become events of the manager queue. What Python's
-- `str` gives for a value that is no text is a parameter.
use Prim.Native.String.{◌++◌ as join_text}
use harness_single.Base.{
  String, Bool, false, none, some, List, [], ◌∷◌, if◌then◌else◌, ok, err, RecordFile, missing,
  unreadable, readable,
}
use harness_single.Base.Json.{Json, Fields, get, if_truthy, str_of}
use harness_single.ManagerQueue.Operations.{Promotion}
use harness_single.ManagerQueue.Runtime.{Runtime, Env, promote_event}

-- A file of the outbox: its name without the suffix, and its content.
pub record Notice : Type 0 where
  pub stem : String
  pub content : RecordFile Fields

-- What one round of the loop meets: the file, the surroundings of the promotion, and whether the file
-- can be moved to the processed ones.
pub record Round : Type 0 where
  pub notice : Notice
  pub env : Env
  pub is_moved : Bool

unfoldable pub notice_key : String → String → String → String
notice_key lane_id run_id signal =
    join_text "worker-notice:"
      (join_text lane_id (join_text ":" (join_text run_id (join_text ":" signal))))

module _ (str : Json → String) where
  -- `str(notice.get(key) or default)`
  unfoldable pub text_or : String → String → Fields → String
  unfolding if_truthy str_of
  text_or key default r = elim (if_truthy (get key r)) [ none ↦ default | some v ↦ str_of str v ]

  unfoldable pub summary_of : Fields → String
  unfolding text_or
  summary_of r = text_or "summary" (text_or "message" "worker escalation" r) r

  unfoldable pub notice_id : String → Fields → String
  unfolding text_or
  notice_id stem r = text_or "notice_id" stem r

  unfoldable pub signal_id : String → Fields → String
  unfolding text_or notice_id
  signal_id stem r = text_or "signal_id" (notice_id stem r) r

  unfoldable pub notice_promotion : String → String → String → Fields → Promotion
  unfolding text_or summary_of notice_id signal_id notice_key
  notice_promotion lane_id run_id stem r = record {
    event_type = "LANE_STATUS_CHANGED";
    lane_id = lane_id;
    run_id = run_id;
    summary = summary_of r;
    actionable_status = some "worker_escalation";
    event_class = some (text_or "event_class" "WORKER_ESCALATION" r);
    severity = some (text_or "severity" "blocking" r);
    payload =
        ("signal_id", signal_id stem r)
        ∷ ("notice_id", notice_id stem r)
        ∷ ("lane_id", lane_id)
        ∷ ("run_id", run_id)
        ∷ [];
    dedup_key = some (notice_key lane_id run_id (signal_id stem r));
  }

  -- Whether the file leaves the outbox, and the runtime that the round leaves.
  unfoldable pub consume_notice : String → String → Round → Runtime → Bool × Runtime
  unfolding notice_promotion
  consume_notice lane_id run_id round rt = elim round.notice.content [
    | missing ↦ (false, rt)
    | unreadable ↦ (false, rt)
    | readable r ↦
        let promoted =
          promote_event round.env (notice_promotion lane_id run_id round.notice.stem r) rt in
        elim promoted.0 [ err x ↦ (false, promoted.1) | ok event ↦ (round.is_moved, promoted.1) ]
  ]

  -- The notices that stay in the outbox, and the runtime in the end.
  unfoldable pub consume_outbox : String → String → List Round → Runtime → List Notice × Runtime
  unfolding consume_notice
  consume_outbox lane_id run_id [] rt = ([], rt)
  consume_outbox lane_id run_id (round ∷ rounds) rt =
      let one = consume_notice lane_id run_id round rt in
      let later = consume_outbox lane_id run_id rounds one.1 in
      ((if one.0 then later.0 else round.notice ∷ later.0), later.1)
