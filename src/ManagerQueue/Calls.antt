-- ===== src/ManagerQueue/Calls.antt =====
-- The calls that the monitor, ROOT and the hooks make on the manager queue, and their sequences;
-- each call is one transaction, so any interleaving of the three writers is such a sequence.
use harness_single.Base.{
  String, Bool, true, false, Option, List, [], ◌∷◌, ◌++◌, ◌≡◌, refl, arith, ok, err, readable,
  Result-cases, inl, inr, Bool-cases, subst, sym, ◌∙◌, mem_text,
}
use harness_single.ManagerQueue.Event.{Event, Queue, event_types}
use harness_single.ManagerQueue.Operations.{Mutate, Promotion, promote_mutate, close_request}
use harness_single.ManagerQueue.Runtime.{
  Runtime, Env, Run, promote_event, acknowledge_event, close_event, append_delivery_history,
  append_watch_delivery, update_manager_queue, read_manager_queue, with_flag, log_added, finish,
  close_with,
}
use harness_single.ManagerQueue.Moves.{
  Move, IsSound, promote-IsSound, acknowledge-IsSound, close-IsSound, close_request-IsClosed,
  delivery-IsSound, watch-IsSound,
}

pub data Call : Type 0 where
  promote : Promotion → Call
  acknowledge : String → Call
  close : String → String → Option String → Call
  hook_delivery : String → String → Option String → Option String → Option String → Call
  watch_delivery : String → String → String → Call

-- The runtime that a call leaves.
unfoldable pub step : Env → Call → Runtime → Runtime
step env (promote p) rt = (promote_event env p rt).1
step env (acknowledge id) rt = (acknowledge_event env id rt).1
step env (close id outcome summary) rt = (close_event env id outcome summary rt).1
step env (hook_delivery id source queue session binding) rt =
    (append_delivery_history env id source queue session binding rt).1
step env (watch_delivery id session binding) rt =
    (append_watch_delivery env id session binding rt).1

-- A call that fails leaves its error to its caller, and the next call goes on from there.
unfoldable pub run : List (Env × Call) → Runtime → Runtime
unfolding step
run [] rt = rt
run ((env, c) ∷ calls) rt = run calls (step env c rt)

pub run-append :
    (front back : List (Env × Call)) (rt : Runtime)
    → run (front ++ back) rt ≡ run back (run front rt)
unfolding run
run-append [] back rt = refl
run-append ((env, c) ∷ front) back rt = run-append front back (step env c rt)

-- What a call did to the queue file: nothing, or one move of a queue that its header let it read.
pub data Effect (rt rt' : Runtime) : Type 0 where
  untouched : rt'.queue_file ≡ rt.queue_file → rt'.marker ≡ rt.marker → Effect rt rt'
  moved :
      (q r : Queue)
      → read_manager_queue rt ≡ ok q
      → rt.queue_file ≡ readable q
      → rt'.queue_file ≡ readable r
      → rt'.marker ≡ rt.marker
      → Move q r
      → Effect rt rt'

pub read-queue_file :
    (rt : Runtime) (q : Queue) → read_manager_queue rt ≡ ok q → rt.queue_file ≡ readable q
unfolding read_manager_queue
read-queue_file rt q h = ground arith

finish-Effect :
    {A : Type 0} (w : Bool) (mutate : Mutate A) (rt : Runtime) (q : Queue)
    → IsSound mutate
    → read_manager_queue rt ≡ ok q
    → Effect rt (finish w rt (mutate q)).1
unfolding finish
finish-Effect w mutate rt q sound h = elim (Result-cases (mutate q)) [
  | inr (e, x) ↦ untouched (ground arith) (ground arith)
  | inl (m, x) ↦ elim (Bool-cases m.changed) [
    | inr c ↦ untouched (ground arith) (ground arith)
    | inl c ↦ elim (Bool-cases w) [
      | inr d ↦ untouched (ground arith) (ground arith)
      | inl d ↦
          moved q m.queue h (read-queue_file rt q h) (ground arith) (ground arith)
            (sound.moves q m x)
    ]
  ]
]

pub update-Effect :
    {A : Type 0} (w : Bool) (mutate : Mutate A) (rt : Runtime)
    → IsSound mutate
    → Effect rt (update_manager_queue w mutate rt).1
unfolding update_manager_queue
update-Effect w mutate rt sound = elim (Result-cases (read_manager_queue rt)) [
  | inr (e, x) ↦ rw x (untouched refl refl)
  | inl (q, x) ↦ rw x (finish-Effect w mutate rt q sound x)
]

pub with_flag-IsSound :
    {A : Type 0} (mutate : Mutate A) → IsSound mutate → IsSound (with_flag mutate)
with_flag-IsSound mutate sound = record {
  moves = λ q m h. elim (Result-cases (mutate q)) [
    | inl (n, x) ↦ let e : n.queue ≡ m.queue = ground arith in subst (Move q) e (sound.moves q n x)
    | inr (e, x) ↦ absurd (ground arith)
  ];
  unchanged = λ q m h c. elim (Result-cases (mutate q)) [
    | inl (n, x) ↦ ground (arith, sound.unchanged q n x)
    | inr (e, x) ↦ absurd (ground arith)
  ];
}

pub log_added-files :
    (env : Env) (x : Run (Event × Bool))
    → ((log_added env x).1.queue_file ≡ x.1.queue_file) × ((log_added env x).1.marker ≡ x.1.marker)
unfolding log_added
log_added-files env (err e, rt) = (refl, refl)
log_added-files env (ok (event, false), rt) = (refl, refl)
log_added-files env (ok (event, true), rt) = (ground arith, ground arith)

-- Neither the queue file nor the marker depends on what is logged.
Effect-files :
    (rt x y : Runtime)
    → y.queue_file ≡ x.queue_file
    → y.marker ≡ x.marker
    → Effect rt x
    → Effect rt y
Effect-files rt x y f m (untouched a b) = untouched (ground arith) (ground arith)
Effect-files rt x y f m (moved q r h a b c mv) = moved q r h a (ground arith) (ground arith) mv

promote-Effect : (env : Env) (p : Promotion) (rt : Runtime) → Effect rt (promote_event env p rt).1
unfolding promote_event
promote-Effect env p rt = elim (Bool-cases (mem_text p.event_type event_types)) [
  | inr no_type ↦ rw no_type (untouched refl refl)
  | inl known ↦
      let x : Run (Event × Bool) =
        update_manager_queue env.write_succeeds (with_flag (promote_mutate env.fresh_id env.now p))
          rt in
      rw known (
        Effect-files rt x.1 (log_added env x).1 (log_added-files env x).0 (log_added-files env x).1
          (update-Effect env.write_succeeds _ rt
            (with_flag-IsSound _ (promote-IsSound env.fresh_id env.now p))))
]

close-Effect :
    (env : Env) (id outcome : String) (summary : Option String) (rt : Runtime)
    → Effect rt (close_event env id outcome summary rt).1
unfolding close_event close_with
close-Effect env id outcome summary rt = elim (Result-cases (close_request outcome summary)) [
  | inr (e, x) ↦ rw x (untouched refl refl)
  | inl ((s, text), x) ↦ rw x (
      update-Effect env.write_succeeds _ rt
        (close-IsSound s env.now text id (close_request-IsClosed outcome summary x)))
]

-- Every call is at most one move of the queue.
pub step-Effect : (env : Env) (c : Call) (rt : Runtime) → Effect rt (step env c rt)
unfolding step acknowledge_event append_delivery_history append_watch_delivery
step-Effect env (promote p) rt = promote-Effect env p rt
step-Effect env (acknowledge id) rt =
    update-Effect env.write_succeeds _ rt (acknowledge-IsSound env.now id)
step-Effect env (close id outcome summary) rt = close-Effect env id outcome summary rt
step-Effect env (hook_delivery id source queue session binding) rt =
    update-Effect env.write_succeeds _ rt (delivery-IsSound env.now id source queue session binding)
step-Effect env (watch_delivery id session binding) rt =
    update-Effect env.write_succeeds _ rt (watch-IsSound env.now id session binding)

module _ (P : Queue → Type 0) (keep : (q r : Queue) → Move q r → P q → P r) where
  Effect-keeps :
      (rt rt' : Runtime) (q : Queue)
      → Effect rt rt'
      → rt.queue_file ≡ readable q
      → P q
      → (r : Queue) × (rt'.queue_file ≡ readable r) × P r
  Effect-keeps rt rt' q (untouched a b) f h = (q, a ∙ f, h)
  Effect-keeps rt rt' q (moved q' r x a b m mv) f h =
      let e : q' ≡ q = ground arith in (r, b, keep q' r mv (subst P (sym e) h))

  -- A readable queue file stays readable, and keeps what every move keeps.
  pub run_induction :
      (calls : List (Env × Call)) (rt : Runtime) (q : Queue)
      → rt.queue_file ≡ readable q
      → P q
      → (r : Queue) × ((run calls rt).queue_file ≡ readable r) × P r
  unfolding run
  run_induction [] rt q f h = (q, f, h)
  run_induction ((env, c) ∷ calls) rt q f h =
      let (r, g, k) = Effect-keeps rt (step env c rt) q (step-Effect env c rt) f h in
      run_induction calls (step env c rt) r g k
