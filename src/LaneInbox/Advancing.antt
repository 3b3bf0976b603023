-- ===== src/LaneInbox/Advancing.antt =====
-- What sequences of appends and advances do to the inbox, in any order.
use harness_single.Base.{
  String, Bool, true, Option, some, List, [], ◌∷◌, ◌++◌, ◌==◌, ◌≡◌, refl, sym, ap, subst, ◌∙◌,
  arith, All, All-append, same_option, RecordFile, missing, unreadable, readable, Bool-cases,
  Option-cases, inl, inr,
}
use harness_single.LaneInbox.Inbox.{
  State, pending, acknowledged, complete, blocked, other, Step, Assignment, Inbox, Lane, Command,
  acknowledge_command, complete_command, block_command, read_inbox, write_inbox, new_assignment,
  append_assignment, find_assignment, update_assignment, new_state, is_allowed, is_known, set_state,
  advance, run_command,
}

-- ROOT's call and the worker's, with their arguments and whether the file can be replaced.
pub data Call : Type 0 where
  append_call : Bool → String → String → Lane → String → Call
  command_call : Bool → String → Command → String → Option String → Call

unfoldable pub step : Call → RecordFile Inbox → RecordFile Inbox
step (append_call writes id now lane prompt) file =
    (append_assignment writes id now lane prompt file).1
step (command_call writes id command now summary) file =
    (run_command writes id command now summary file).1

unfoldable pub run : List Call → RecordFile Inbox → RecordFile Inbox
run [] file = file
run (c ∷ cs) file = run cs (step c file)

-- What one call may do to the assignments.
pub data Effect : List Assignment → List Assignment → Type 0 where
  same : {xs : List Assignment} → Effect xs xs
  added :
      {xs : List Assignment} (id now : String) (lane : Lane) (prompt : String)
      → Effect xs (xs ++ new_assignment id now lane prompt ∷ [])
  advanced :
      {xs : List Assignment} (id : String) (a : Assignment) (command : Command) (now : String)
      (summary : Option String)
      → find_assignment id xs ≡ some a
      → is_allowed a.state command ≡ true
      → Effect xs (update_assignment id (set_state (new_state command) now summary) xs)

-- The assignments of a file that can be read.
abbrev pub stored : RecordFile Inbox → List Assignment
stored missing = []
stored unreadable = []
stored (readable inbox) = inbox.assignments

append-Effect :
    (writes : Bool) (id now : String) (lane : Lane) (prompt : String) (file : RecordFile Inbox)
    → Effect (stored file) (stored (append_assignment writes id now lane prompt file).1)
unfolding append_assignment read_inbox write_inbox
append-Effect writes id now lane prompt missing = same
append-Effect writes id now lane prompt unreadable = same
append-Effect writes id now lane prompt (readable inbox) =
    elim (Bool-cases (same_option inbox.run_id (some lane.run_id))) [
      | inr e ↦ rw (stored, e) same
      | inl e ↦ elim (Bool-cases writes) [
        | inl w ↦ rw (stored, e, w) (added id now lane prompt)
        | inr w ↦ rw (stored, e, w) same
      ]
    ]

command-Effect :
    (writes : Bool) (id : String) (command : Command) (now : String) (summary : Option String)
    (file : RecordFile Inbox)
    → Effect (stored file) (stored (run_command writes id command now summary file).1)
unfolding run_command read_inbox write_inbox advance
command-Effect writes id command now summary missing = same
command-Effect writes id command now summary unreadable = same
command-Effect writes id command now summary (readable inbox) =
    elim (Option-cases (find_assignment id inbox.assignments)) [
      | inl n ↦ rw (stored, n) same
      | inr (a, n) ↦ elim (Bool-cases (is_known a.state)) [
        | inr k ↦ rw (stored, n, k) same
        | inl k ↦ elim (Bool-cases (is_allowed a.state command)) [
          | inr e ↦ rw (stored, n, k, e) same
          | inl e ↦ elim (Bool-cases writes) [
            | inl w ↦ rw (stored, n, k, e, w) (advanced id a command now summary n e)
            | inr w ↦ rw (stored, n, k, e, w) same
          ]
        ]
      ]
    ]

pub step-Effect : (c : Call) (file : RecordFile Inbox) → Effect (stored file) (stored (step c file))
unfolding step
step-Effect (append_call writes id now lane prompt) file =
    append-Effect writes id now lane prompt file
step-Effect (command_call writes id command now summary) file =
    command-Effect writes id command now summary file

-- The states that lead to a state.
abbrev pub path_to : State → List State
path_to pending = pending ∷ []
path_to acknowledged = pending ∷ acknowledged ∷ []
path_to complete = pending ∷ acknowledged ∷ complete ∷ []
path_to blocked = pending ∷ acknowledged ∷ blocked ∷ []
path_to (other name) = []

abbrev pub states : List Step → List State
states [] = []
states (s ∷ rest) = s.state ∷ states rest

-- The history of an assignment is the path to its state.
abbrev pub IsLifecycle : Assignment → Type 0
IsLifecycle a = states a.history ≡ path_to a.state

states-append : (xs ys : List Step) → states (xs ++ ys) ≡ states xs ++ states ys
states-append [] ys = refl
states-append (x ∷ xs) ys = ap (λ t. x.state ∷ t) (states-append xs ys)

allowed_path :
    (s : State) (command : Command)
    → is_allowed s command ≡ true
    → path_to (new_state command) ≡ path_to s ++ new_state command ∷ []
unfolding is_allowed new_state
allowed_path pending acknowledge_command h = refl
allowed_path acknowledged complete_command h = refl
allowed_path acknowledged block_command h = refl
allowed_path _ _ h = absurd (ground arith)

IsLifecycle-update :
    (id : String) (f : Assignment → Assignment) (xs : List Assignment) (a : Assignment)
    → find_assignment id xs ≡ some a
    → (IsLifecycle a → IsLifecycle (f a))
    → All IsLifecycle xs
    → All IsLifecycle (update_assignment id f xs)
unfolding find_assignment update_assignment
IsLifecycle-update id f [] a h k p = absurd (ground arith)
IsLifecycle-update id f (x ∷ xs) a h k (now, later) = elim (Bool-cases (x.event_id == id)) [
  | inl e ↦
      let found : a ≡ x = ground arith in
      rw e (subst (λ t. IsLifecycle t → IsLifecycle (f t)) found k now, later)
  | inr e ↦ rw e (now, IsLifecycle-update id f xs a (ground arith) k later)
]

Effect-IsLifecycle :
    {xs ys : List Assignment} → Effect xs ys → All IsLifecycle xs → All IsLifecycle ys
unfolding new_assignment set_state
Effect-IsLifecycle same p = p
Effect-IsLifecycle (added {xs} id now lane prompt) p =
    All-append IsLifecycle xs (new_assignment id now lane prompt ∷ []) p (refl, tt)
Effect-IsLifecycle (advanced {xs} id a command now summary n e) p =
    IsLifecycle-update id (set_state (new_state command) now summary) xs a n
      (λ o.
        states-append a.history (record { state = new_state command; at = now } ∷ [])
        ∙ ap (λ t. t ++ new_state command ∷ []) o
        ∙ sym (allowed_path a.state command e))
      p

-- Whatever ROOT appends and the worker advances, in whatever order, and with whatever failing
-- writes: if the history of every assignment in the inbox is the path PENDING, ACKNOWLEDGED,
-- COMPLETE or BLOCKED to its state, this holds afterwards too.
pub run-AllLifecycle :
    (cs : List Call) (file : RecordFile Inbox)
    → All IsLifecycle (stored file)
    → All IsLifecycle (stored (run cs file))
unfolding run
run-AllLifecycle [] file h = h
run-AllLifecycle (c ∷ cs) file h =
    run-AllLifecycle cs (step c file) (Effect-IsLifecycle (step-Effect c file) h)
