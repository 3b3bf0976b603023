-- ===== src/ManagerQueue/Moves.antt =====
-- What one transaction may do to the queue, as a relation, and that each `mutate` function of
-- orchestrator_harness/manager_queue.py does no more.
use harness_single.Base.{
  String, Bool, true, false, Option, none, some, [], ◌∷◌, ◌++◌, ◌≡◌, inl, inr, arith, Option-cases,
  Bool-cases, ok,
}
use harness_single.ManagerQueue.Event.{
  State, acknowledged, is_pending, is_closed, Receipt, Event, Queue, find_event, update_event,
}
use harness_single.ManagerQueue.Operations.{
  Mutation, Mutate, Promotion, promote_mutate, acknowledge_mutate, close_request, close_mutate,
  delivery_mutate, watch_mutate, new_event, existing_event, set_state, set_closed, add_receipt,
  hook_receipt, watch_receipt,
}

pub data Move (q r : Queue) : Type 0 where
  stays : r ≡ q → Move q r
  admits :
      (id now : String) (p : Promotion)
      → existing_event p.dedup_key q.events ≡ none
      → r ≡ record q { events = q.events ++ new_event id now p ∷ [] }
      → Move q r
  acknowledges :
      (id now : String) (e : Event)
      → find_event id q.events ≡ some e
      → is_pending e.state ≡ true
      → r ≡ record q { events = update_event id (set_state acknowledged now) q.events }
      → Move q r
  closes :
      (id now summary : String) (s : State) (e : Event)
      → find_event id q.events ≡ some e
      → is_pending e.state ≡ false
      → is_closed e.state ≡ false
      → is_closed s ≡ true
      → r ≡ record q { events = update_event id (set_closed s now summary) q.events }
      → Move q r
  delivers :
      (id : String) (receipt : Receipt)
      → receipt.event_id ≡ id
      → r ≡ record q { events = update_event id (add_receipt receipt) q.events }
      → Move q r

-- Every queue that the function returns is one move away, and unchanged where it says so.
pub record IsSound {A : Type 0} (mutate : Mutate A) : Type 0 where
  pub moves : (q : Queue) (m : Mutation A) → mutate q ≡ ok m → Move q m.queue
  pub unchanged : (q : Queue) (m : Mutation A) → mutate q ≡ ok m → m.changed ≡ false → m.queue ≡ q

promote-moves :
    (id now : String) (p : Promotion) (q : Queue) (m : Mutation Event)
    → promote_mutate id now p q ≡ ok m
    → Move q m.queue
unfolding promote_mutate
promote-moves id now p q m h = elim (Option-cases (existing_event p.dedup_key q.events)) [
  | inl e ↦ admits id now p e (ground arith)
  | inr (x, e) ↦ stays (ground arith)
]

promote-unchanged :
    (id now : String) (p : Promotion) (q : Queue) (m : Mutation Event)
    → promote_mutate id now p q ≡ ok m
    → m.changed ≡ false
    → m.queue ≡ q
unfolding promote_mutate
promote-unchanged id now p q m h c = ground arith

pub promote-IsSound : (id now : String) (p : Promotion) → IsSound (promote_mutate id now p)
promote-IsSound id now p = record {
  moves = promote-moves id now p;
  unchanged = promote-unchanged id now p;
}

acknowledge-moves :
    (now id : String) (q : Queue) (m : Mutation Event)
    → acknowledge_mutate now id q ≡ ok m
    → Move q m.queue
unfolding acknowledge_mutate
acknowledge-moves now id q m h = elim (Option-cases (find_event id q.events)) [
  | inl e ↦ absurd (ground arith)
  | inr (x, e) ↦ acknowledges id now x e (ground arith) (ground arith)
]

acknowledge-unchanged :
    (now id : String) (q : Queue) (m : Mutation Event)
    → acknowledge_mutate now id q ≡ ok m
    → m.changed ≡ false
    → m.queue ≡ q
unfolding acknowledge_mutate
acknowledge-unchanged now id q m h c = ground arith

pub acknowledge-IsSound : (now id : String) → IsSound (acknowledge_mutate now id)
acknowledge-IsSound now id = record {
  moves = acknowledge-moves now id;
  unchanged = acknowledge-unchanged now id;
}

close-moves :
    (s : State) (now summary id : String) (q : Queue) (m : Mutation Event)
    → is_closed s ≡ true
    → close_mutate s now summary id q ≡ ok m
    → Move q m.queue
unfolding close_mutate
close-moves s now summary id q m c h = elim (Option-cases (find_event id q.events)) [
  | inl e ↦ absurd (ground arith)
  | inr (x, e) ↦ closes id now summary s x e (ground arith) (ground arith) c (ground arith)
]

close-unchanged :
    (s : State) (now summary id : String) (q : Queue) (m : Mutation Event)
    → close_mutate s now summary id q ≡ ok m
    → m.changed ≡ false
    → m.queue ≡ q
unfolding close_mutate
close-unchanged s now summary id q m h c = ground arith

pub close-IsSound :
    (s : State) (now summary id : String)
    → is_closed s ≡ true
    → IsSound (close_mutate s now summary id)
close-IsSound s now summary id c = record {
  moves = λ q m h. close-moves s now summary id q m c h;
  unchanged = close-unchanged s now summary id;
}

-- `close_event` closes with COMPLETE or BLOCKED only, and with a summary that is not blank.
pub close_request-IsClosed :
    (outcome : String) (summary : Option String) {s : State} {text : String}
    → close_request outcome summary ≡ ok (s, text)
    → is_closed s ≡ true
unfolding close_request is_closed
close_request-IsClosed outcome summary h = ground arith

delivery-moves :
    (now id source : String) (given session binding : Option String) (q : Queue) (m : Mutation Unit)
    → delivery_mutate now id source given session binding q ≡ ok m
    → Move q m.queue
unfolding delivery_mutate
delivery-moves now id source given session binding q m h =
    elim (Option-cases (find_event id q.events)) [
      | inl e ↦ stays (ground arith)
      | inr (x, e) ↦
          delivers id (hook_receipt now id source given session binding q) (ground arith)
            (ground arith)
    ]

delivery-unchanged :
    (now id source : String) (given session binding : Option String) (q : Queue) (m : Mutation Unit)
    → delivery_mutate now id source given session binding q ≡ ok m
    → m.changed ≡ false
    → m.queue ≡ q
unfolding delivery_mutate
delivery-unchanged now id source given session binding q m h c = ground arith

pub delivery-IsSound :
    (now id source : String) (given session binding : Option String)
    → IsSound (delivery_mutate now id source given session binding)
delivery-IsSound now id source given session binding = record {
  moves = delivery-moves now id source given session binding;
  unchanged = delivery-unchanged now id source given session binding;
}

watch-unchanged :
    (now id session binding : String) (q : Queue) (m : Mutation Bool)
    → watch_mutate now id session binding q ≡ ok m
    → m.changed ≡ false
    → m.queue ≡ q
unfolding watch_mutate
watch-unchanged now id session binding q m h c = ground arith

watch-moves :
    (now id session binding : String) (q : Queue) (m : Mutation Bool)
    → watch_mutate now id session binding q ≡ ok m
    → Move q m.queue
unfolding watch_mutate
watch-moves now id session binding q m h = elim (Bool-cases m.changed) [
  | inl c ↦ delivers id (watch_receipt now id session binding q) (ground arith) (ground arith)
  | inr c ↦ stays (watch-unchanged now id session binding q m h c)
]

pub watch-IsSound :
    (now id session binding : String) → IsSound (watch_mutate now id session binding)
watch-IsSound now id session binding = record {
  moves = watch-moves now id session binding;
  unchanged = watch-unchanged now id session binding;
}
