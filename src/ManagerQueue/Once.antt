-- ===== src/ManagerQueue/Once.antt =====
-- Promotions with one key give one event, and a watching session gets each event once, whatever
-- calls come between.
use harness_single.Base.{
  String, Bool, true, false, List, [], ◌∷◌, ◌++◌, ◌≡◌, refl, ◌∙◌, arith, some, Option, readable,
  Option-cases, Result-cases, inl, inr, ap, same_option_refl, eq_refl, ok,
}
use harness_single.ManagerQueue.Event.{
  Receipt, Event, Queue, find_event, update_event, is_watch_receipt, any_watch_receipt,
}
use harness_single.ManagerQueue.Operations.{add_receipt, watch_receipt, watch_mutate, Mutation}
use harness_single.ManagerQueue.Moves.{watch-IsSound}
use harness_single.ManagerQueue.Growth.{Succeeds, Succeeds-refl, Succeeds-trans, Move-Succeeds}
use harness_single.ManagerQueue.Runtime.{
  Runtime, Env, append_watch_delivery, read_manager_queue, update_manager_queue, header_matches,
  finish,
}
use harness_single.ManagerQueue.Calls.{
  Call, step, run, Effect, untouched, moved, step-Effect, read-queue_file,
}
use harness_single.ManagerQueue.Dedup.{find_event-Grows}

-- A queue whose header matches is still read after a change of its events only.
pub reads_after :
    (rt rt' : Runtime) (q r : Queue)
    → read_manager_queue rt ≡ ok q
    → rt'.queue_file ≡ readable r
    → rt'.marker ≡ rt.marker
    → r.epoch_id ≡ q.epoch_id
    → r.queue_id ≡ q.queue_id
    → read_manager_queue rt' ≡ ok r
unfolding read_manager_queue header_matches
reads_after rt rt' q r h f m e i = rw (f, m) (ground arith)

step_reads :
    (rt rt' : Runtime) (q : Queue)
    → Effect rt rt'
    → read_manager_queue rt ≡ ok q
    → (r : Queue) × (read_manager_queue rt' ≡ ok r) × Succeeds q r
step_reads rt rt' q (untouched a b) h =
    (q, reads_after rt rt' q q h (a ∙ read-queue_file rt q h) b refl refl, Succeeds-refl q)
step_reads rt rt' q (moved q' r x a b m mv) h =
    let e : q' ≡ q = ground arith in
    let s : Succeeds q r = rw (← e) (Move-Succeeds q' r mv) in
    (r, reads_after rt rt' q r h b m s.same_epoch s.same_queue, s)

-- A queue that can be read stays so under any calls.
pub run_reads :
    (calls : List (Env × Call)) (rt : Runtime) (q : Queue)
    → read_manager_queue rt ≡ ok q
    → (r : Queue) × (read_manager_queue (run calls rt) ≡ ok r) × Succeeds q r
unfolding run
run_reads [] rt q h = (q, h, Succeeds-refl q)
run_reads ((env, c) ∷ calls) rt q h =
    let (r, g, s) = step_reads rt (step env c rt) q (step-Effect env c rt) h in
    let (r', g', s') = run_reads calls (step env c rt) r g in (r', g', Succeeds-trans s s')

any_watch_receipt-append :
    (q : Option String) (id session binding : String) (xs ys : List Receipt)
    → any_watch_receipt q id session binding xs ≡ true
    → any_watch_receipt q id session binding (xs ++ ys) ≡ true
unfolding any_watch_receipt
any_watch_receipt-append q id session binding [] ys h = absurd (ground arith)
any_watch_receipt-append q id session binding (x ∷ xs) ys h =
    ground (arith, any_watch_receipt-append q id session binding xs ys)

any_watch_receipt-added :
    (q : Option String) (id session binding : String) (r : Receipt) (xs : List Receipt)
    → is_watch_receipt q id session binding r ≡ true
    → any_watch_receipt q id session binding (xs ++ r ∷ []) ≡ true
unfolding any_watch_receipt
any_watch_receipt-added q id session binding r [] h = rw h
any_watch_receipt-added q id session binding r (x ∷ xs) h =
    ground (arith, any_watch_receipt-added q id session binding r xs h)

pub find_event-update :
    (id : String) (f : Event → Event) (xs : List Event) (e : Event)
    → ((x : Event) → (f x).event_id ≡ x.event_id)
    → find_event id xs ≡ some e
    → find_event id (update_event id f xs) ≡ some (f e)
unfolding find_event update_event
find_event-update id f [] e k h = absurd (ground arith)
find_event-update id f (x ∷ xs) e k h = ground (arith, k x, find_event-update id f xs e k)

-- The receipt that a delivery writes is the one that it looks for.
watch_receipt-found :
    (now id session binding : String) (q : Queue)
    → is_watch_receipt q.queue_id id session binding (watch_receipt now id session binding q) ≡ true
unfolding is_watch_receipt watch_receipt
watch_receipt-found now id session binding q = simp (same_option_refl, eq_refl)

module _ (id session binding : String) where
  -- The first event with the id holds a watch receipt for the session.
  HasReceipt : Queue → Type 0
  HasReceipt q =
      (e : Event) × (find_event id q.events ≡ some e)
      × (any_watch_receipt q.queue_id id session binding e.delivery_history ≡ true)

  Succeeds-HasReceipt : (q r : Queue) → Succeeds q r → HasReceipt q → HasReceipt r
  unfolding HasReceipt
  Succeeds-HasReceipt q r s (e, f, h) =
      let (e', f', ev) = find_event-Grows id q.events r.events e s.grows f in
      (
        e',
        f',
        rw (s.same_queue, ev.more_receipts.1)
            (any_watch_receipt-append q.queue_id id session binding e.delivery_history _ h),
      )

  watch_mutate-HasReceipt :
      (now : String) (q : Queue) (m : Mutation Bool)
      → watch_mutate now id session binding q ≡ ok m
      → m.value ≡ true
      → HasReceipt m.queue × (m.changed ≡ true)
  unfolding HasReceipt watch_mutate
  watch_mutate-HasReceipt now q m h v = elim (Option-cases (find_event id q.events)) [
    | inl e ↦ absurd (ground arith)
    | inr (x, e) ↦
        let r : Receipt = watch_receipt now id session binding q in
        let k : m.queue ≡ record q { events = update_event id (add_receipt r) q.events } =
          ground arith in
        (
          (
            add_receipt r x,
            rw k (find_event-update id (add_receipt r) q.events x (λ y. refl) e),
            rw k (
                any_watch_receipt-added q.queue_id id session binding r x.delivery_history
                  (watch_receipt-found now id session binding q)),
          ),
          ground arith,
        )
  ]

  watch_again :
      (env : Env) (rt : Runtime) (q : Queue)
      → read_manager_queue rt ≡ ok q
      → HasReceipt q
      → append_watch_delivery env id session binding rt ≡ (ok false, rt)
  unfolding HasReceipt append_watch_delivery watch_mutate
  watch_again env rt q h (e, f, w) = unfold finish in ground arith

  watch_leaves_receipt :
      (env : Env) (rt : Runtime)
      → (append_watch_delivery env id session binding rt).0 ≡ ok true
      → (r : Queue) × (read_manager_queue (append_watch_delivery env id session binding rt).1
          ≡ ok r)
        × HasReceipt r
  unfolding append_watch_delivery update_manager_queue
  watch_leaves_receipt env rt h = elim (Result-cases (read_manager_queue rt)) [
    | inr (e, x) ↦ absurd (ground arith)
    | inl (q, x) ↦ elim (Result-cases (watch_mutate env.now id session binding q)) [
      | inr (e, y) ↦ absurd (ground arith)
      | inl (m, y) ↦
          let v : m.value ≡ true = unfold finish in ground arith in
          let k = watch_mutate-HasReceipt env.now q m y v in
          let e : (append_watch_delivery env id session binding rt).1
              ≡ record rt { queue_file = readable m.queue } =
            unfold finish in ground (arith, k.1) in
          let s =
            Move-Succeeds q m.queue ((watch-IsSound env.now id session binding).moves q m y) in
          (
            m.queue,
            reads_after rt _ q m.queue x (ap (λ (t : Runtime). t.queue_file) e)
                (ap (λ (t : Runtime). t.marker) e) s.same_epoch s.same_queue,
            k.0,
          )
    ]
  ]

  -- After a delivery to a watching session that returned true, and after any calls that follow it, a
  -- further delivery of the same event to the same session and binding returns false and changes
  -- nothing.
  pub watch_once :
      (first later : Env) (calls : List (Env × Call)) (rt : Runtime)
      → (append_watch_delivery first id session binding rt).0 ≡ ok true
      → append_watch_delivery later id session binding
          (run calls (append_watch_delivery first id session binding rt).1)
        ≡ (ok false, run calls (append_watch_delivery first id session binding rt).1)
  watch_once first later calls rt h =
      let rt' = (append_watch_delivery first id session binding rt).1 in
      let (q, x, k) = watch_leaves_receipt first rt h in
      let (r, y, s) = run_reads calls rt' q x in
      watch_again later (run calls rt') r y (Succeeds-HasReceipt q r s k)
