-- ===== src/ManagerQueue/History.antt =====
-- Whatever calls are made on the manager queue, in whatever order the writers come.
use harness_single.Base.{
  String, true, false, List, [], ◌∷◌, map, ◌≡◌, refl, arith, ◌==◌, some, none, Option, readable,
  Bool-cases, inl, inr, All, All-append,
}
use mathlib.Core.List.{map-append}
use harness_single.ManagerQueue.Event.{
  State, pending, acknowledged, complete, blocked, other, is_pending, is_closed, HistoryEntry,
  Event, Queue, find_event, update_event,
}
use harness_single.ManagerQueue.Operations.{set_state, set_closed, add_receipt, new_event}
use harness_single.ManagerQueue.Moves.{Move, stays, admits, acknowledges, closes, delivers}
use harness_single.ManagerQueue.Growth.{Succeeds, Succeeds-refl, Succeeds-trans, Move-Succeeds}
use harness_single.ManagerQueue.Runtime.{Runtime, Env}
use harness_single.ManagerQueue.Calls.{Call, run, run_induction}

-- From a readable queue file, any sequence of calls, failed ones included, leaves a readable queue
-- file with the same header, in which every event that was there stands in its place with its
-- identity, its history and its receipts extended only at the end, its state no further back, and
-- its state, summary and history unchanged if it was closed.
pub run-Succeeds :
    (calls : List (Env × Call)) (rt : Runtime) (q : Queue)
    → rt.queue_file ≡ readable q
    → (r : Queue) × ((run calls rt).queue_file ≡ readable r) × Succeeds q r
run-Succeeds calls rt q f =
    run_induction (Succeeds q) (λ a b mv h. Succeeds-trans h (Move-Succeeds a b mv)) calls rt q f
      (Succeeds-refl q)

-- The states that an event in this state went through.
abbrev path : State → Option (List State)
path pending = some (pending ∷ [])
path acknowledged = some (pending ∷ acknowledged ∷ [])
path complete = some (pending ∷ acknowledged ∷ complete ∷ [])
path blocked = some (pending ∷ acknowledged ∷ blocked ∷ [])
path (other s) = none

-- The history is PENDING, ACKNOWLEDGED, then COMPLETE or BLOCKED, up to the current state.
abbrev pub IsLifecycle : Event → Type 0
IsLifecycle e = path e.state ≡ some (map (λ (h : HistoryEntry). h.state) e.history)

All-update :
    (P : Event → Type 0) (id : String) (f : Event → Event) (xs : List Event)
    → ((e : Event) → find_event id xs ≡ some e → P e → P (f e))
    → All P xs
    → All P (update_event id f xs)
unfolding find_event update_event
All-update P id f [] h a = tt
All-update P id f (x ∷ xs) h a = elim (Bool-cases (x.event_id == id)) [
  | inl hit ↦ rw hit (h x (rw hit) a.0, a.1)
  | inr miss ↦ rw miss (a.0, All-update P id f xs (λ e p. h e (rw miss p)) a.1)
]

acknowledge-IsLifecycle :
    (now : String) (e : Event)
    → is_pending e.state ≡ true
    → IsLifecycle e
    → IsLifecycle (set_state acknowledged now e)
unfolding set_state is_pending
acknowledge-IsLifecycle now e p h = rw map-append (ground arith)

close-IsLifecycle :
    (s : State) (now summary : String) (e : Event)
    → is_pending e.state ≡ false
    → is_closed e.state ≡ false
    → is_closed s ≡ true
    → IsLifecycle e
    → IsLifecycle (set_closed s now summary e)
unfolding set_closed is_pending is_closed
close-IsLifecycle s now summary e p c k h = rw map-append (ground arith)

Move-IsLifecycle : (q r : Queue) → Move q r → All IsLifecycle q.events → All IsLifecycle r.events
unfolding new_event
Move-IsLifecycle q r (stays e) a = rw e a
Move-IsLifecycle q r (admits id now p h e) a = rw e (All-append IsLifecycle q.events _ a (refl, tt))
Move-IsLifecycle q r (acknowledges id now x f h e) a =
    rw e
      (All-update IsLifecycle id _ q.events (λ y p. acknowledge-IsLifecycle now y (ground arith)) a)
Move-IsLifecycle q r (closes id now summary s x f h k c e) a = rw e (
    All-update IsLifecycle id _ q.events
      (λ y p. close-IsLifecycle s now summary y (ground arith) (ground arith) c) a)
Move-IsLifecycle q r (delivers id receipt h e) a =
    rw e (All-update IsLifecycle id _ q.events (λ y p l. unfold add_receipt in l) a)

-- If every event's history is the path PENDING, ACKNOWLEDGED, COMPLETE or BLOCKED up to its state,
-- then any sequence of calls leaves a queue of which the same holds.
pub run-IsLifecycle :
    (calls : List (Env × Call)) (rt : Runtime) (q : Queue)
    → rt.queue_file ≡ readable q
    → All IsLifecycle q.events
    → (r : Queue) × ((run calls rt).queue_file ≡ readable r) × All IsLifecycle r.events
run-IsLifecycle = run_induction (λ q. All IsLifecycle q.events) Move-IsLifecycle
