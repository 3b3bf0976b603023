-- ===== src/ManagerQueue/Failures.antt =====
-- A call on the manager queue that raises, and promotions with a key that is known.
use harness_single.Base.{
  String, Bool, true, false, ◌≡◌, arith, some, none, Option, readable, Bool-cases, Result-cases,
  inl, inr, ap, ok, err, mem_text, refl, sym, ◌∙◌, ◌⊎◌,
}
use harness_single.ManagerQueue.Event.{Event, Queue, QueueError, event_types}
use harness_single.ManagerQueue.Operations.{
  Promotion, promote_mutate, Mutation, Mutate, close_request,
}
use harness_single.ManagerQueue.Moves.{IsSound, promote-IsSound}
use harness_single.ManagerQueue.Growth.{Move-Succeeds}
use harness_single.ManagerQueue.Runtime.{
  Runtime, Env, Run, promote_event, acknowledge_event, close_event, close_with,
  append_delivery_history, append_watch_delivery, read_manager_queue, update_manager_queue, finish,
  with_flag, log_added,
}
use harness_single.ManagerQueue.Calls.{
  Call, promote, acknowledge, close, hook_delivery, watch_delivery, step, with_flag-IsSound,
}
use harness_single.ManagerQueue.Once.{reads_after}

abbrev error_of : {A : Type 0} → Run A → Option QueueError
error_of (ok a, rt) = none
error_of (err e, rt) = some e

-- The error that a call raises.
unfoldable pub raises : Env → Call → Runtime → Option QueueError
raises env (promote p) rt = error_of (promote_event env p rt)
raises env (acknowledge id) rt = error_of (acknowledge_event env id rt)
raises env (close id outcome summary) rt = error_of (close_event env id outcome summary rt)
raises env (hook_delivery id source queue session binding) rt =
    error_of (append_delivery_history env id source queue session binding rt)
raises env (watch_delivery id session binding) rt =
    error_of (append_watch_delivery env id session binding rt)

update_failed :
    {A : Type 0} (w : Bool) (mutate : Mutate A) (rt : Runtime) (e : QueueError)
    → error_of (update_manager_queue w mutate rt) ≡ some e
    → (update_manager_queue w mutate rt).1 ≡ rt
unfolding update_manager_queue finish
update_failed w mutate rt e h = ground arith

-- Where the transaction returned, the queue can be read again.
pub update_reads :
    {A : Type 0} (w : Bool) (mutate : Mutate A) (rt : Runtime) (a : A)
    → IsSound mutate
    → (update_manager_queue w mutate rt).0 ≡ ok a
    → (q : Queue) × (m : Mutation A) × (read_manager_queue rt ≡ ok q)
      × (mutate q ≡ ok m)
      × (m.value ≡ a)
      × (read_manager_queue (update_manager_queue w mutate rt).1 ≡ ok m.queue)
unfolding update_manager_queue
update_reads w mutate rt a sound h = elim (Result-cases (read_manager_queue rt)) [
  | inr (e, x) ↦ absurd (ground arith)
  | inl (q, x) ↦ elim (Result-cases (mutate q)) [
    | inr (e, y) ↦ unfold finish in absurd (ground arith)
    | inl (m, y) ↦ elim (Bool-cases m.changed) [
      | inr c ↦
          let s = sound.unchanged q m y c in
          let k : (update_manager_queue w mutate rt).1 ≡ rt = unfold finish in ground arith in
          (q, m, x, y, unfold finish in ground arith, rw (k, s) x)
      | inl c ↦
          let s = Move-Succeeds q m.queue (sound.moves q m y) in
          let k : (update_manager_queue w mutate rt).1
              ≡ record rt { queue_file = readable m.queue } =
            unfold finish in ground arith in
          (
            q,
            m,
            x,
            y,
            unfold finish in ground arith,
            reads_after rt _ q m.queue x (ap (λ (t : Runtime). t.queue_file) k)
                (ap (λ (t : Runtime). t.marker) k) s.same_epoch s.same_queue,
          )
    ]
  ]
]

-- A transaction that returned after a change wrote the queue.
update_writes :
    {A : Type 0} (w : Bool) (mutate : Mutate A) (rt : Runtime) (a : A) (q : Queue) (m : Mutation A)
    → (update_manager_queue w mutate rt).0 ≡ ok a
    → read_manager_queue rt ≡ ok q
    → mutate q ≡ ok m
    → m.changed ≡ true
    → (update_manager_queue w mutate rt).1 ≡ record rt { queue_file = readable m.queue }
unfolding update_manager_queue finish
update_writes w mutate rt a q m h x y c = ground arith

-- Where the log returns an event, it is that of the transaction.
pub log_added_returns :
    (env : Env) (x : Run (Event × Bool)) (event e : Event) (b : Bool)
    → x.0 ≡ ok (event, b)
    → (log_added env x).0 ≡ ok e
    → event ≡ e
unfolding log_added
log_added_returns env (err x, rt) event e b h k = absurd (ground arith)
log_added_returns env (ok (event', false), rt) event e b h k = ground arith
log_added_returns env (ok (event', true), rt) event e b h k =
    elim (Result-cases (read_manager_queue (env.log_view rt))) [
      | inl (q, r) ↦ ground arith
      | inr (x, r) ↦ absurd (ground arith)
    ]

-- Where the log raises after the transaction returned, an event was admitted and the read failed.
log_added_failed :
    (env : Env) (x : Run (Event × Bool)) (event : Event) (b : Bool) (e : QueueError)
    → x.0 ≡ ok (event, b)
    → error_of (log_added env x) ≡ some e
    → (b ≡ true) × ((log_added env x).1 ≡ x.1) × (read_manager_queue (env.log_view x.1) ≡ err e)
unfolding log_added
log_added_failed env (err y, rt) event b e h k = absurd (ground arith)
log_added_failed env (ok (event', false), rt) event b e h k = absurd (ground arith)
log_added_failed env (ok (event', true), rt) event b e h k =
    elim (Result-cases (read_manager_queue (env.log_view rt))) [
      | inl (q, r) ↦ absurd (ground arith)
      | inr (x, r) ↦ (ground arith, ground arith, ground arith)
    ]

module _ (env : Env) (p : Promotion) (rt : Runtime) where
  abbrev pub transaction : Run (Event × Bool)
  transaction =
      update_manager_queue env.write_succeeds (with_flag (promote_mutate env.fresh_id env.now p)) rt

  pub transaction_reads :
      (a : Event × Bool)
      → transaction.0 ≡ ok a
      → (q : Queue) × (m : Mutation (Event × Bool)) × (read_manager_queue rt ≡ ok q)
        × (with_flag (promote_mutate env.fresh_id env.now p) q ≡ ok m)
        × (m.value ≡ a)
        × (read_manager_queue transaction.1 ≡ ok m.queue)
  transaction_reads a h =
      update_reads env.write_succeeds _ rt a
        (with_flag-IsSound _ (promote-IsSound env.fresh_id env.now p)) h

  -- An event was admitted and written, and the read of the queue for the log raised the error.
  pub record IsUnlogged (e : QueueError) : Type 0 where
    pub queue : Queue
    pub mutation : Mutation Event
    pub reads : read_manager_queue rt ≡ ok queue
    pub mutates : promote_mutate env.fresh_id env.now p queue ≡ ok mutation
    pub admitted : mutation.changed ≡ true
    pub written : (promote_event env p rt).1 ≡ record rt { queue_file = readable mutation.queue }
    pub log_fails :
        read_manager_queue (env.log_view (record rt { queue_file = readable mutation.queue }))
        ≡ err e

  -- The mutation of a promotion, from that with its flag.
  pub unflagged :
      (q : Queue) (m : Mutation (Event × Bool)) (e : Event) (b : Bool)
      → with_flag (promote_mutate env.fresh_id env.now p) q ≡ ok m
      → m.value ≡ (e, b)
      → (m' : Mutation Event) × (promote_mutate env.fresh_id env.now p q ≡ ok m')
        × (m'.value ≡ e)
        × (m'.queue ≡ m.queue)
        × (m'.changed ≡ b)
        × (m.changed ≡ b)
  unflagged q m e b y v = elim (Result-cases (promote_mutate env.fresh_id env.now p q)) [
    | inr (e', x) ↦ absurd (ground arith)
    | inl (m', x) ↦ (m', x, ground arith, ground arith, ground arith, ground arith)
  ]

  unlogged :
      (event : Event) (b : Bool) (e : QueueError)
      → mem_text p.event_type event_types ≡ true
      → transaction.0 ≡ ok (event, b)
      → error_of (log_added env transaction) ≡ some e
      → IsUnlogged e
  unfolding promote_event
  unlogged event b e known x h =
      let (q, m, r, y, v, s) = transaction_reads (event, b) x in
      let (m', z, w, same, c, c') = unflagged q m event b y v in
      let (is_true, left, fails) = log_added_failed env transaction event b e x h in
      let wrote : transaction.1 ≡ record rt { queue_file = readable m'.queue } =
        update_writes env.write_succeeds _ rt (event, b) q m x r y (c' ∙ is_true)
        ∙ ap (λ (t : Queue). record rt { queue_file = readable t }) (sym same) in
      record {
        queue = q;
        mutation = m';
        reads = r;
        mutates = z;
        admitted = c ∙ is_true;
        written = rw known (left ∙ wrote);
        log_fails = ap (λ (t : Runtime). read_manager_queue (env.log_view t)) (sym wrote) ∙ fails;
      }

  promote_failed :
      (e : QueueError)
      → error_of (promote_event env p rt) ≡ some e
      → ((promote_event env p rt).1 ≡ rt) ⊎ IsUnlogged e
  unfolding promote_event
  promote_failed e h = elim (Bool-cases (mem_text p.event_type event_types)) [
    | inr no_type ↦ inl (rw no_type refl)
    | inl known ↦ elim (Result-cases transaction.0) [
      | inr (e', x) ↦
          let k : transaction.1 ≡ rt = update_failed env.write_succeeds _ rt e' (ground arith) in
          inl (rw known (unfold log_added in ground arith))
      | inl ((event, b), x) ↦
          let late : error_of (log_added env transaction) ≡ some e = ground arith in
          inr (unlogged event b e known x late)
    ]
  ]

close_failed :
    (env : Env) (id outcome : String) (summary : Option String) (rt : Runtime) (e : QueueError)
    → error_of (close_event env id outcome summary rt) ≡ some e
    → (close_event env id outcome summary rt).1 ≡ rt
unfolding close_event close_with
close_failed env id outcome summary rt e h = elim (Result-cases (close_request outcome summary)) [
  | inr (e', x) ↦ rw x
  | inl ((s, text), x) ↦ rw x (update_failed env.write_succeeds _ rt e (ground arith))
]

-- What a call that raises leaves: the files as they were, except that a promotion may have admitted
-- its event when the read of the queue for the log raised the error.
abbrev pub IsLeft : Env → Call → Runtime → QueueError → Type 0
IsLeft env c rt e =
    (step env c rt ≡ rt) ⊎ ((p : Promotion) × (c ≡ promote p) × IsUnlogged env p rt e)

-- A call that raises leaves the queue file, the marker and the log as they were, unless it is a
-- promotion that admitted its event and then could not read the queue for the log: it raises the
-- error of that read, and the event is in the queue and not in the log.
pub failed_call-IsLeft :
    (env : Env) (c : Call) (rt : Runtime) (e : QueueError)
    → raises env c rt ≡ some e
    → IsLeft env c rt e
unfolding raises step acknowledge_event append_delivery_history append_watch_delivery
failed_call-IsLeft env (promote p) rt e h = elim (promote_failed env p rt e h) [
  | inl same ↦ inl same
  | inr late ↦ inr (p, refl, late)
]
failed_call-IsLeft env (acknowledge id) rt e h = inl (update_failed env.write_succeeds _ rt e h)
failed_call-IsLeft env (close id outcome summary) rt e h =
    inl (close_failed env id outcome summary rt e h)
failed_call-IsLeft env (hook_delivery id source queue session binding) rt e h =
    inl (update_failed env.write_succeeds _ rt e h)
failed_call-IsLeft env (watch_delivery id session binding) rt e h =
    inl (update_failed env.write_succeeds _ rt e h)
