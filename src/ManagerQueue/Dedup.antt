-- ===== src/ManagerQueue/Dedup.antt =====
-- Deduplication of promotions, and the single delivery to a watching session.
use harness_single.Base.{
  ℕ, suc, ◌+◌, ◌≤◌, String, List, [], ◌∷◌, ◌++◌, ◌≡◌, ◌≢◌, refl, arith, ◌==◌, if◌then◌else◌, some,
  none, readable, Bool-cases, Option-cases, inl, inr, same_option, eq_iff,
}
use harness_single.ManagerQueue.Event.{
  acknowledged, Event, Queue, find_event, update_event, find_dedup,
}
use harness_single.ManagerQueue.Operations.{
  set_state, set_closed, add_receipt, new_event, Promotion, existing_event, stored,
}
use harness_single.ManagerQueue.Moves.{Move, stays, admits, acknowledges, closes, delivers}
use harness_single.ManagerQueue.Growth.{Evolves, Grows}
use harness_single.ManagerQueue.Runtime.{Runtime, Env}
use harness_single.ManagerQueue.Calls.{Call, run, run_induction}

-- How many events carry the key.
abbrev pub count_key : String → List Event → ℕ
count_key key [] = 0
count_key key (e ∷ es) =
    let rest = count_key key es in if same_option e.dedup_key (some key) then suc rest else rest

count_key-append :
    (key : String) (xs ys : List Event)
    → count_key key (xs ++ ys) ≡ count_key key xs + count_key key ys
count_key-append key [] ys = omega arith
count_key-append key (x ∷ xs) ys = ground (arith, count_key-append key xs ys)

count_key-update :
    (key id : String) (f : Event → Event) (xs : List Event)
    → ((e : Event) → (f e).dedup_key ≡ e.dedup_key)
    → count_key key (update_event id f xs) ≡ count_key key xs
unfolding update_event
count_key-update key id f [] h = refl
count_key-update key id f (x ∷ xs) h = ground (arith, h x, count_key-update key id f xs h)

count_key-zero : (key : String) (xs : List Event) → find_dedup key xs ≡ none → count_key key xs ≡ 0
unfolding find_dedup
count_key-zero key [] h = refl
count_key-zero key (x ∷ xs) h = ground (arith, count_key-zero key xs)

-- No two events carry the same key that is not empty.
abbrev pub HasUniqueKeys : Queue → Type 0
HasUniqueKeys q = (key : String) → key ≢ "" → count_key key q.events ≤ 1

new_key_fresh :
    (id now : String) (p : Promotion) (es : List Event) (key : String)
    → key ≢ ""
    → existing_event p.dedup_key es ≡ none
    → count_key key es ≤ 1
    → count_key key (es ++ new_event id now p ∷ []) ≤ 1
unfolding existing_event new_event stored
new_key_fresh id now p es key k h c = elim (Option-cases p.dedup_key) [
  | inl e ↦ ground (arith, count_key-append key es (new_event id now p ∷ []))
  | inr (x, e) ↦ ground (
    arith,
    count_key-append key es (new_event id now p ∷ []),
    count_key-zero key es,
    eq_iff x "",
    eq_iff x key,
  )
]

Move-HasUniqueKeys : (q r : Queue) → Move q r → HasUniqueKeys q → HasUniqueKeys r
unfolding set_state set_closed add_receipt
Move-HasUniqueKeys q r (stays e) u = rw e u
Move-HasUniqueKeys q r (admits id now p h e) u =
    rw e (λ key k. new_key_fresh id now p q.events key k h (u key k))
Move-HasUniqueKeys q r (acknowledges id now x f h e) u = rw e (λ key k.
    rw (count_key-update key id (set_state acknowledged now) q.events (λ y. refl)) (u key k))
Move-HasUniqueKeys q r (closes id now summary s x f h k c e) u = rw e (λ key k.
    rw (count_key-update key id (set_closed s now summary) q.events (λ y. refl)) (u key k))
Move-HasUniqueKeys q r (delivers id receipt h e) u =
    rw e
      (λ key k. rw (count_key-update key id (add_receipt receipt) q.events (λ y. refl)) (u key k))

-- If no two events carry the same deduplication key (the empty key aside), then any sequence of
-- calls leaves a queue of which the same holds.
pub run-HasUniqueKeys :
    (calls : List (Env × Call)) (rt : Runtime) (q : Queue)
    → rt.queue_file ≡ readable q
    → HasUniqueKeys q
    → (r : Queue) × ((run calls rt).queue_file ≡ readable r) × HasUniqueKeys r
run-HasUniqueKeys = run_induction HasUniqueKeys Move-HasUniqueKeys

-- The first event with a key or an id stays first, and only evolves.
pub find_event-Grows :
    (id : String) (xs ys : List Event) (e : Event)
    → Grows xs ys
    → find_event id xs ≡ some e
    → (e' : Event) × (find_event id ys ≡ some e') × Evolves e e'
unfolding find_event
find_event-Grows id [] ys e g h = absurd (ground arith)
find_event-Grows id (x ∷ xs) [] e g h = absurd g
find_event-Grows id (x ∷ xs) (y ∷ ys) e g h = elim (Bool-cases (x.event_id == id)) [
  | inl hit ↦ let p : x ≡ e = ground arith in (y, rw (g.0.same_id, hit), rw (← p) g.0)
  | inr miss ↦ rw (g.0.same_id, miss) (find_event-Grows id xs ys e g.1 (ground arith))
]

pub find_dedup-Grows :
    (key : String) (xs ys : List Event) (e : Event)
    → Grows xs ys
    → find_dedup key xs ≡ some e
    → (e' : Event) × (find_dedup key ys ≡ some e') × Evolves e e'
unfolding find_dedup
find_dedup-Grows key [] ys e g h = absurd (ground arith)
find_dedup-Grows key (x ∷ xs) [] e g h = absurd g
find_dedup-Grows key (x ∷ xs) (y ∷ ys) e g h =
    elim (Bool-cases (same_option x.dedup_key (some key))) [
      | inl hit ↦ let p : x ≡ e = ground arith in (y, rw (g.0.same_key, hit), rw (← p) g.0)
      | inr miss ↦ rw (g.0.same_key, miss) (find_dedup-Grows key xs ys e g.1 (ground arith))
    ]
