-- ===== src/ManagerQueue/Closing.antt =====
-- Acknowledging and closing: progress, and that a close is final.
use harness_single.Base.{
  String, true, List, ◌≡◌, refl, ◌∙◌, arith, some, Option, Option-cases, Result-cases, inl, inr, ap,
  ok, err,
}
use harness_single.ManagerQueue.Event.{
  State, acknowledged, is_pending, is_closed, Event, Queue, find_event, update_event,
  already_acknowledged, already_closed,
}
use harness_single.ManagerQueue.Operations.{
  Mutation, close_request, close_mutate, acknowledge_mutate, set_closed, set_state,
}
use harness_single.ManagerQueue.Moves.{close-IsSound, acknowledge-IsSound, close_request-IsClosed}
use harness_single.ManagerQueue.Runtime.{
  Runtime, Env, close_event, close_with, acknowledge_event, read_manager_queue,
  update_manager_queue, finish,
}
use harness_single.ManagerQueue.Calls.{Call, run}
use harness_single.ManagerQueue.Dedup.{find_event-Grows}
use harness_single.ManagerQueue.Once.{run_reads, find_event-update}
use harness_single.ManagerQueue.Failures.{update_reads}

-- The first event with the id is closed.
abbrev HasClosed : String → Queue → Type 0
HasClosed id q = (e : Event) × (find_event id q.events ≡ some e) × (is_closed e.state ≡ true)

close_mutate-HasClosed :
    (s : State) (now summary id : String) (q : Queue) (m : Mutation Event)
    → is_closed s ≡ true
    → close_mutate s now summary id q ≡ ok m
    → HasClosed id m.queue
unfolding close_mutate
close_mutate-HasClosed s now summary id q m c h = elim (Option-cases (find_event id q.events)) [
  | inl e ↦ absurd (ground arith)
  | inr (x, e) ↦
      let k : m.queue ≡ record q { events = update_event id (set_closed s now summary) q.events } =
        ground arith in
      (
        set_closed s now summary x,
        rw k (find_event-update id (set_closed s now summary) q.events x (λ y. refl) e),
        c,
      )
]

closed_is_stored :
    (env : Env) (id outcome : String) (summary : Option String) (rt : Runtime) (e : Event)
    → (close_event env id outcome summary rt).0 ≡ ok e
    → (q : Queue) × (read_manager_queue (close_event env id outcome summary rt).1 ≡ ok q)
      × HasClosed id q
unfolding close_event close_with
closed_is_stored env id outcome summary rt e h =
    elim (Result-cases (close_request outcome summary)) [
      | inr (e', x) ↦ absurd (ground arith)
      | inl ((s, text), x) ↦
          let c = close_request-IsClosed outcome summary x in
          let (q, m, r, y, v, z) =
            update_reads env.write_succeeds (close_mutate s env.now text id) rt e
              (close-IsSound s env.now text id c) (ground arith) in
          rw x (m.queue, z, close_mutate-HasClosed s env.now text id q m c y)
    ]

closed_refuses :
    (env : Env) (id outcome text : String) (s : State) (summary : Option String) (rt : Runtime)
    (q : Queue)
    → close_request outcome summary ≡ ok (s, text)
    → read_manager_queue rt ≡ ok q
    → HasClosed id q
    → (acknowledge_event env id rt ≡ (err already_acknowledged, rt))
      × (close_event env id outcome summary rt ≡ (err already_closed, rt))
unfolding acknowledge_event close_event close_with acknowledge_mutate close_mutate finish
closed_refuses env id outcome text s summary rt q x r (e, f, c) =
    (unfold is_pending is_closed in ground arith, unfold is_pending is_closed in ground arith)

-- After a close that returned, and after any calls that follow it, the event with that id can be
-- neither acknowledged nor closed again: both raise, `already_acknowledged` and `already_closed`,
-- and change nothing. (The later close names a known outcome and a summary that is not blank.)
pub close_is_final :
    (first later : Env) (id outcome outcome' text : String) (s : State)
    (summary summary' : Option String) (calls : List (Env × Call)) (rt : Runtime) (e : Event)
    → (close_event first id outcome summary rt).0 ≡ ok e
    → close_request outcome' summary' ≡ ok (s, text)
    → (acknowledge_event later id (run calls (close_event first id outcome summary rt).1)
        ≡ (err already_acknowledged, run calls (close_event first id outcome summary rt).1))
      × (close_event later id outcome' summary'
            (run calls (close_event first id outcome summary rt).1)
          ≡ (err already_closed, run calls (close_event first id outcome summary rt).1))
close_is_final first later id outcome outcome' text s summary summary' calls rt e h x =
    let rt' = (close_event first id outcome summary rt).1 in
    let (q, y, (c, f, k)) = closed_is_stored first id outcome summary rt e h in
    let (r, z, g) = run_reads calls rt' q y in
    let (c', f', ev) = find_event-Grows id q.events r.events c g.grows f in
    closed_refuses later id outcome' text s summary' (run calls rt') r x z
      (c', f', ap is_closed (ev.final k).0 ∙ k)

acknowledged_is_stored :
    (env : Env) (id : String) (rt : Runtime) (q : Queue) (e : Event)
    → read_manager_queue rt ≡ ok q
    → find_event id q.events ≡ some e
    → is_pending e.state ≡ true
    → env.write_succeeds ≡ true
    → (r : Queue) × (read_manager_queue (acknowledge_event env id rt).1 ≡ ok r)
      × (find_event id r.events ≡ some (set_state acknowledged env.now e))
unfolding acknowledge_event
acknowledged_is_stored env id rt q e r f p w =
    let x : (update_manager_queue env.write_succeeds (acknowledge_mutate env.now id) rt).0
        ≡ ok (set_state acknowledged env.now e) =
      unfold update_manager_queue finish acknowledge_mutate in ground arith in
    let (q', m, r', y, v, z) =
      update_reads env.write_succeeds (acknowledge_mutate env.now id) rt _
        (acknowledge-IsSound env.now id) x in
    let k : m.queue
        ≡ record q { events = update_event id (set_state acknowledged env.now) q.events } =
      unfold acknowledge_mutate in ground arith in
    (
      m.queue,
      z,
      rw k (
          find_event-update id (set_state acknowledged env.now) q.events e
            (λ y. unfold set_state in refl) f),
    )

-- If the queue can be read, its first event with the id is pending, the outcome is known, the summary
-- not blank and both writes succeed, then acknowledging and closing the event returns it with the
-- outcome as its state, the stripped summary, and the two transitions at the end of its history.
pub acknowledge_then_close :
    (first second : Env) (id outcome text : String) (s : State) (summary : Option String)
    (rt : Runtime) (q : Queue) (e : Event)
    → read_manager_queue rt ≡ ok q
    → find_event id q.events ≡ some e
    → is_pending e.state ≡ true
    → first.write_succeeds ≡ true
    → second.write_succeeds ≡ true
    → close_request outcome summary ≡ ok (s, text)
    → (close_event second id outcome summary (acknowledge_event first id rt).1).0
      ≡ ok (set_closed s second.now text (set_state acknowledged first.now e))
unfolding close_event close_with
acknowledge_then_close first second id outcome text s summary rt q e r f p w w' x =
    let (q', r', f') = acknowledged_is_stored first id rt q e r f p w in
    rw x (
      unfold update_manager_queue finish close_mutate set_state is_pending is_closed in
      ground arith)
