-- ===== src/LaneInbox/Growth.antt =====
-- Nothing that ROOT assigned and nothing that the worker reported is lost or rewritten.
use harness_single.Base.{
  String, Bool, true, false, Option, some, List, [], ◌∷◌, ◌++◌, ◌==◌, ◌≡◌, refl, sym, ap, subst,
  ◌∙◌, arith, RecordFile, Bool-cases, inl, inr,
}
use mathlib.Core.List.{append-nil, append_assoc}
use harness_single.LaneInbox.Inbox.{
  State, pending, acknowledged, complete, blocked, Step, Assignment, Inbox, Command, new_assignment,
  find_assignment, update_assignment, new_state, is_allowed, set_state,
}
use harness_single.LaneInbox.Advancing.{
  Call, step, run, stored, Effect, same, added, advanced, step-Effect,
}

-- COMPLETE or BLOCKED.
unfoldable pub is_finished : State → Bool
is_finished complete = true
is_finished blocked = true
is_finished _ = false

-- `b` is a later version of the assignment `a`.
pub record Continues (a b : Assignment) : Type 0 where
  pub same_event : b.event_id ≡ a.event_id
  pub same_lane : b.lane_id ≡ a.lane_id
  pub same_run : b.run_id ≡ a.run_id
  pub same_prompt : b.prompt ≡ a.prompt
  pub more : List Step
  pub extends : b.history ≡ a.history ++ more
  pub final : is_finished a.state ≡ true → b ≡ a

-- Each assignment of the first list stands at its place in the second, in a later version.
abbrev pub Grows : List Assignment → List Assignment → Type 0
Grows [] ys = Unit
Grows (x ∷ xs) [] = ⊥
Grows (x ∷ xs) (y ∷ ys) = Continues x y × Grows xs ys

Continues-refl : (a : Assignment) → Continues a a
Continues-refl a = record {
  same_event = refl;
  same_lane = refl;
  same_run = refl;
  same_prompt = refl;
  more = [];
  extends = sym (append-nil a.history);
  final = λ h. refl;
}

Continues-trans : {a b c : Assignment} → Continues a b → Continues b c → Continues a c
Continues-trans {a} {b} {c} p q = record {
  same_event = q.same_event ∙ p.same_event;
  same_lane = q.same_lane ∙ p.same_lane;
  same_run = q.same_run ∙ p.same_run;
  same_prompt = q.same_prompt ∙ p.same_prompt;
  more = p.more ++ q.more;
  extends = q.extends ∙ ap (λ t. t ++ q.more) p.extends ∙ append_assoc a.history p.more q.more;
  final = λ h. q.final (subst (λ t. is_finished t.state ≡ true) (sym (p.final h)) h) ∙ p.final h;
}

Grows-refl : (xs : List Assignment) → Grows xs xs
Grows-refl [] = tt
Grows-refl (x ∷ xs) = (Continues-refl x, Grows-refl xs)

Grows-trans : (xs ys zs : List Assignment) → Grows xs ys → Grows ys zs → Grows xs zs
Grows-trans [] ys zs p q = tt
Grows-trans (x ∷ xs) [] zs p q = elim p [ ]
Grows-trans (x ∷ xs) (y ∷ ys) [] p q = elim q [ ]
Grows-trans (x ∷ xs) (y ∷ ys) (z ∷ zs) (p, ps) (q, qs) =
    (Continues-trans p q, Grows-trans xs ys zs ps qs)

Grows-append : (xs : List Assignment) (a : Assignment) → Grows xs (xs ++ a ∷ [])
Grows-append [] a = tt
Grows-append (x ∷ xs) a = (Continues-refl x, Grows-append xs a)

Grows-update :
    (id : String) (f : Assignment → Assignment) (xs : List Assignment) (a : Assignment)
    → find_assignment id xs ≡ some a
    → Continues a (f a)
    → Grows xs (update_assignment id f xs)
unfolding find_assignment update_assignment
Grows-update id f [] a h k = tt
Grows-update id f (x ∷ xs) a h k = elim (Bool-cases (x.event_id == id)) [
  | inl e ↦
      let found : a ≡ x = ground arith in
      rw e (subst (λ t. Continues t (f t)) found k, Grows-refl xs)
  | inr e ↦ rw e (Continues-refl x, Grows-update id f xs a (ground arith) k)
]

allowed_unfinished :
    (s : State) (command : Command) → is_allowed s command ≡ true → is_finished s ≡ false
unfolding is_allowed is_finished
allowed_unfinished pending command h = refl
allowed_unfinished acknowledged command h = refl
allowed_unfinished _ command h = absurd (ground arith)

set_state-Continues :
    (a : Assignment) (command : Command) (now : String) (summary : Option String)
    → is_allowed a.state command ≡ true
    → Continues a (set_state (new_state command) now summary a)
unfolding set_state
set_state-Continues a command now summary h = record {
  same_event = refl;
  same_lane = refl;
  same_run = refl;
  same_prompt = refl;
  more = record { state = new_state command; at = now } ∷ [];
  extends = refl;
  final = λ finished. absurd (ground (arith, allowed_unfinished a.state command h));
}

Effect-Grows : {xs ys : List Assignment} → Effect xs ys → Grows xs ys
Effect-Grows (same {xs}) = Grows-refl xs
Effect-Grows (added {xs} id now lane prompt) = Grows-append xs (new_assignment id now lane prompt)
Effect-Grows (advanced {xs} id a command now summary n e) =
    Grows-update id (set_state (new_state command) now summary) xs a n
      (set_state-Continues a command now summary e)

-- After any calls of ROOT and of the worker, in whatever order and with whatever failing writes,
-- each assignment that the inbox held stands at its place, with its identifier, lane, run and
-- prompt, with a history that begins with the history it had; one that was COMPLETE or BLOCKED is
-- the same in all its fields.
pub run-Grows :
    (cs : List Call) (file : RecordFile Inbox) → Grows (stored file) (stored (run cs file))
unfolding run
run-Grows [] file = Grows-refl (stored file)
run-Grows (c ∷ cs) file =
    Grows-trans (stored file) (stored (step c file)) (stored (run cs (step c file)))
      (Effect-Grows (step-Effect c file)) (run-Grows cs (step c file))
