-- ===== src/ManagerQueue/Promotions.antt =====
-- Promotions with one deduplication key give one event, whatever calls come between.
use harness_single.Base.{
  String, true, List, [], ◌∷◌, ◌++◌, ◌≡◌, ◌≢◌, refl, ◌∙◌, arith, some, none, Bool-cases,
  Option-cases, Result-cases, inl, inr, ap, eq_iff, eq_refl, ok, mem_text,
}
use harness_single.ManagerQueue.Event.{Event, Queue, find_dedup, event_types}
use harness_single.ManagerQueue.Operations.{new_event, Promotion, stored, promote_mutate, Mutation}
use harness_single.ManagerQueue.Growth.{Evolves}
use harness_single.ManagerQueue.Runtime.{
  Runtime, Env, promote_event, read_manager_queue, finish, log_added,
}
use harness_single.ManagerQueue.Calls.{Call, run, log_added-files, read-queue_file}
use harness_single.ManagerQueue.Dedup.{find_dedup-Grows}
use harness_single.ManagerQueue.Once.{reads_after, run_reads}
use harness_single.ManagerQueue.Failures.{
  transaction, transaction_reads, log_added_returns, unflagged,
}

find_dedup-append :
    (key : String) (xs : List Event) (e : Event)
    → find_dedup key xs ≡ none
    → e.dedup_key ≡ some key
    → find_dedup key (xs ++ e ∷ []) ≡ some e
unfolding find_dedup
find_dedup-append key [] e h k = rw (k, (eq_iff key key).1 refl)
find_dedup-append key (x ∷ xs) e h k = ground (arith, find_dedup-append key xs e, eq_refl key)

promote_mutate-dedup :
    (id now key : String) (p : Promotion) (q : Queue) (m : Mutation Event)
    → key ≢ ""
    → p.dedup_key ≡ some key
    → promote_mutate id now p q ≡ ok m
    → find_dedup key m.queue.events ≡ some m.value
unfolding promote_mutate stored
promote_mutate-dedup id now key p q m n k h = elim (Option-cases (find_dedup key q.events)) [
  | inl e ↦ ground (arith, eq_iff key "", find_dedup-append key q.events (new_event id now p) e)
  | inr (x, e) ↦ ground (arith, eq_iff key "")
]

module _ (env : Env) (p : Promotion) (rt : Runtime) where
  -- A promotion that returns an event wrote what its `mutate` made of the queue that it read.
  pub promotion_stores :
      (e : Event)
      → (promote_event env p rt).0 ≡ ok e
      → (q : Queue) × (m : Mutation Event) × (read_manager_queue rt ≡ ok q)
        × (promote_mutate env.fresh_id env.now p q ≡ ok m)
        × (m.value ≡ e)
        × (read_manager_queue (promote_event env p rt).1 ≡ ok m.queue)
  unfolding promote_event
  promotion_stores e h = elim (Bool-cases (mem_text p.event_type event_types)) [
    | inr no_type ↦ absurd (ground arith)
    | inl known ↦ elim (Result-cases (transaction env p rt).0) [
      | inr (e', x) ↦ unfold log_added in absurd (ground arith)
      | inl ((event, b), x) ↦
          let (q, m, r, y, v, s) = transaction_reads env p rt (event, b) x in
          let (m', z, w, same, c, c') = unflagged env p rt q m event b y v in
          let f = log_added-files env (transaction env p rt) in
          let t : event ≡ e =
            log_added_returns env (transaction env p rt) event e b x (ground arith) in
          let g : read_manager_queue (log_added env (transaction env p rt)).1 ≡ ok m.queue =
            reads_after (transaction env p rt).1 _ m.queue m.queue s
              (f.0 ∙ read-queue_file _ m.queue s) f.1 refl refl in
          (q, m', r, z, w ∙ t, rw (known, same) g)
    ]
  ]

  pub promoted_is_stored :
      (key : String) (e : Event)
      → key ≢ ""
      → p.dedup_key ≡ some key
      → (promote_event env p rt).0 ≡ ok e
      → (q : Queue) × (read_manager_queue (promote_event env p rt).1 ≡ ok q)
        × (find_dedup key q.events ≡ some e)
  promoted_is_stored key e n k h =
      let (q, m, r, y, v, s) = promotion_stores e h in
      (m.queue, s, promote_mutate-dedup env.fresh_id env.now key p q m n k y ∙ ap some v)

  promote_known :
      (key : String) (q : Queue) (e : Event)
      → key ≢ ""
      → p.dedup_key ≡ some key
      → mem_text p.event_type event_types ≡ true
      → read_manager_queue rt ≡ ok q
      → find_dedup key q.events ≡ some e
      → promote_event env p rt ≡ (ok e, rt)
  unfolding promote_event promote_mutate log_added finish
  promote_known key q e n k t r f = ground (arith, eq_iff key "")

-- After a promotion that returned an event for a key that is not empty, and after any calls that
-- follow it, a further promotion with that key and a known event type changes nothing, and returns
-- the same event as it then stands.
pub promote_once :
    (first later : Env) (p p' : Promotion) (calls : List (Env × Call)) (rt : Runtime) (key : String)
    (e : Event)
    → key ≢ ""
    → p.dedup_key ≡ some key
    → p'.dedup_key ≡ some key
    → mem_text p'.event_type event_types ≡ true
    → (promote_event first p rt).0 ≡ ok e
    → (e' : Event) × (promote_event later p' (run calls (promote_event first p rt).1)
        ≡ (ok e', run calls (promote_event first p rt).1))
      × Evolves e e'
promote_once first later p p' calls rt key e n k k' t h =
    let rt' = (promote_event first p rt).1 in
    let (q, x, f) = promoted_is_stored first p rt key e n k h in
    let (r, y, s) = run_reads calls rt' q x in
    let (e', g, ev) = find_dedup-Grows key q.events r.events e s.grows f in
    (e', promote_known later p' (run calls rt') key r e' n k' t y g, ev)
