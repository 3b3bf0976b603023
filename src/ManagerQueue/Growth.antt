-- ===== src/ManagerQueue/Growth.antt =====
-- What no call undoes: events keep their place, identity, history and receipts, states move
-- forward only, and a closed event is final.
use harness_single.Base.{
  ℕ, ◌≤◌, String, true, false, List, [], ◌∷◌, ◌++◌, ◌≡◌, refl, sym, ◌∙◌, arith, ◌==◌, some,
  Bool-cases, inl, inr, ap,
}
use mathlib.Core.List.{append-nil, append_assoc}
use harness_single.ManagerQueue.Event.{
  State, pending, acknowledged, complete, blocked, other, is_pending, is_closed, HistoryEntry,
  Receipt, Event, Queue, find_event, update_event,
}
use harness_single.ManagerQueue.Operations.{set_state, set_closed, add_receipt, new_event}
use harness_single.ManagerQueue.Moves.{Move, stays, admits, acknowledges, closes, delivers}

-- How far a state has come; a state that the code does not know can still be closed.
unfoldable pub rank : State → ℕ
rank pending = 0
rank acknowledged = 1
rank (other s) = 1
rank complete = 2
rank blocked = 2

-- `e'` is a later form of `e`.
pub record Evolves (e e' : Event) : Type 0 where
  pub same_id : e'.event_id ≡ e.event_id
  pub same_kind : e'.kind ≡ e.kind
  pub same_lane : e'.lane_id ≡ e.lane_id
  pub same_run : e'.run_id ≡ e.run_id
  pub same_key : e'.dedup_key ≡ e.dedup_key
  pub forward : rank e.state ≤ rank e'.state
  pub more_history : (h : List HistoryEntry) × (e'.history ≡ e.history ++ h)
  pub more_receipts : (r : List Receipt) × (e'.delivery_history ≡ e.delivery_history ++ r)
  pub final :
      is_closed e.state ≡ true
      → (e'.state ≡ e.state) × (e'.summary ≡ e.summary) × (e'.history ≡ e.history)

pub Evolves-refl : (e : Event) → Evolves e e
Evolves-refl e = record {
  same_id = refl;
  same_kind = refl;
  same_lane = refl;
  same_run = refl;
  same_key = refl;
  forward = omega arith;
  more_history = ([], sym (append-nil e.history));
  more_receipts = ([], sym (append-nil e.delivery_history));
  final = λ c. (refl, refl, refl);
}

Evolves-trans : {a b c : Event} → Evolves a b → Evolves b c → Evolves a c
Evolves-trans {a} {b} {c} p q = record {
  same_id = q.same_id ∙ p.same_id;
  same_kind = q.same_kind ∙ p.same_kind;
  same_lane = q.same_lane ∙ p.same_lane;
  same_run = q.same_run ∙ p.same_run;
  same_key = q.same_key ∙ p.same_key;
  forward = omega (arith, p.forward, q.forward);
  more_history = (
    p.more_history.0 ++ q.more_history.0,
    q.more_history.1
        ∙ ap (λ h. h ++ q.more_history.0) p.more_history.1
        ∙ append_assoc a.history p.more_history.0 q.more_history.0,
  );
  more_receipts = (
    p.more_receipts.0 ++ q.more_receipts.0,
    q.more_receipts.1
        ∙ ap (λ h. h ++ q.more_receipts.0) p.more_receipts.1
        ∙ append_assoc a.delivery_history p.more_receipts.0 q.more_receipts.0,
  );
  final = λ h.
      let first = p.final h in
      let second = q.final (ap is_closed first.0 ∙ h) in
      (second.0 ∙ first.0, second.1 ∙ first.1, second.2 ∙ first.2);
}

-- Every event of the first list stands in its place in the second, evolved.
abbrev pub Grows : List Event → List Event → Type 0
Grows [] ys = Unit
Grows (x ∷ xs) [] = ⊥
Grows (x ∷ xs) (y ∷ ys) = Evolves x y × Grows xs ys

pub Grows-refl : (xs : List Event) → Grows xs xs
Grows-refl [] = tt
Grows-refl (x ∷ xs) = (Evolves-refl x, Grows-refl xs)

pub Grows-trans : (xs ys zs : List Event) → Grows xs ys → Grows ys zs → Grows xs zs
Grows-trans [] ys zs p q = tt
Grows-trans (x ∷ xs) [] zs p q = absurd p
Grows-trans (x ∷ xs) (y ∷ ys) [] p q = absurd q
Grows-trans (x ∷ xs) (y ∷ ys) (z ∷ zs) p q = (Evolves-trans p.0 q.0, Grows-trans xs ys zs p.1 q.1)

Grows-append : (xs ys : List Event) → Grows xs (xs ++ ys)
Grows-append [] ys = tt
Grows-append (x ∷ xs) ys = (Evolves-refl x, Grows-append xs ys)

-- The write through the first event with the id only needs that event to evolve.
Grows-update :
    (id : String) (f : Event → Event) (xs : List Event)
    → ((e : Event) → find_event id xs ≡ some e → Evolves e (f e))
    → Grows xs (update_event id f xs)
unfolding find_event update_event
Grows-update id f [] h = tt
Grows-update id f (x ∷ xs) h = elim (Bool-cases (x.event_id == id)) [
  | inl hit ↦ rw hit (h x (rw hit), Grows-refl xs)
  | inr miss ↦ rw miss (Evolves-refl x, Grows-update id f xs (λ e p. h e (rw miss p)))
]

acknowledge-Evolves :
    (now : String) (e : Event)
    → is_pending e.state ≡ true
    → Evolves e (set_state acknowledged now e)
unfolding set_state
acknowledge-Evolves now e h = record {
  same_id = refl;
  same_kind = refl;
  same_lane = refl;
  same_run = refl;
  same_key = refl;
  forward = unfold is_pending rank in ground arith;
  more_history = (_, refl);
  more_receipts = ([], sym (append-nil e.delivery_history));
  final = λ c. unfold is_pending is_closed in absurd (ground arith);
}

close-Evolves :
    (s : State) (now summary : String) (e : Event)
    → is_closed e.state ≡ false
    → is_closed s ≡ true
    → Evolves e (set_closed s now summary e)
unfolding set_closed
close-Evolves s now summary e h k = record {
  same_id = refl;
  same_kind = refl;
  same_lane = refl;
  same_run = refl;
  same_key = refl;
  forward = unfold is_closed rank in ground arith;
  more_history = (_, refl);
  more_receipts = ([], sym (append-nil e.delivery_history));
  final = λ c. absurd (ground arith);
}

receipt-Evolves : (r : Receipt) (e : Event) → Evolves e (add_receipt r e)
unfolding add_receipt
receipt-Evolves r e = record {
  same_id = refl;
  same_kind = refl;
  same_lane = refl;
  same_run = refl;
  same_key = refl;
  forward = omega arith;
  more_history = ([], sym (append-nil e.history));
  more_receipts = (_, refl);
  final = λ c. (refl, refl, refl);
}

-- Every move lets the list of events grow, and keeps the header of the queue.
pub record Succeeds (q r : Queue) : Type 0 where
  pub grows : Grows q.events r.events
  pub same_epoch : r.epoch_id ≡ q.epoch_id
  pub same_queue : r.queue_id ≡ q.queue_id

same_header :
    (q r : Queue) (es : List Event)
    → r ≡ record q { events = es }
    → Grows q.events es
    → Succeeds q r
same_header q r es e g = record {
  grows = rw e g;
  same_epoch = ap (λ (x : Queue). x.epoch_id) e;
  same_queue = ap (λ (x : Queue). x.queue_id) e;
}

pub Move-Succeeds : (q r : Queue) → Move q r → Succeeds q r
Move-Succeeds q r (stays e) = same_header q r q.events e (Grows-refl q.events)
Move-Succeeds q r (admits id now p h e) =
    same_header q r (q.events ++ new_event id now p ∷ []) e (Grows-append q.events _)
Move-Succeeds q r (acknowledges id now x f h e) = same_header q r _ e (
    Grows-update id _ q.events
      (λ y p. acknowledge-Evolves now y (unfold is_pending in ground arith)))
Move-Succeeds q r (closes id now summary s x f h k c e) =
    same_header q r _ e
      (Grows-update id _ q.events (λ y p. close-Evolves s now summary y (ground arith) c))
Move-Succeeds q r (delivers id receipt h e) =
    same_header q r _ e (Grows-update id _ q.events (λ y p. receipt-Evolves receipt y))

pub Succeeds-trans : {p q r : Queue} → Succeeds p q → Succeeds q r → Succeeds p r
Succeeds-trans {p} {q} {r} a b = record {
  grows = Grows-trans p.events q.events r.events a.grows b.grows;
  same_epoch = b.same_epoch ∙ a.same_epoch;
  same_queue = b.same_queue ∙ a.same_queue;
}

pub Succeeds-refl : (q : Queue) → Succeeds q q
Succeeds-refl q = record { grows = Grows-refl q.events; same_epoch = refl; same_queue = refl }
