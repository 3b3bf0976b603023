-- ===== src/LaneInbox/Finishing.antt =====
-- An assignment that ROOT appended can be acknowledged and finished.
use harness_single.Base.{
  String, true, Option, none, some, List, [], ◌∷◌, ◌++◌, ◌==◌, ◌≡◌, refl, ap, arith, same_option,
  ok, RecordFile, readable, Bool-cases, inl, inr, eq_refl,
}
use harness_single.LaneInbox.Inbox.{
  acknowledged, Assignment, Inbox, Lane, Command, acknowledge_command, read_inbox, write_inbox,
  new_assignment, append_assignment, find_assignment, update_assignment, new_state, is_allowed,
  is_known, set_state, advance, run_command,
}

module _ (id : String) where
  find_assignment-last :
      (xs : List Assignment) (a : Assignment)
      → find_assignment id xs ≡ none
      → a.event_id ≡ id
      → find_assignment id (xs ++ a ∷ []) ≡ some a
  unfolding find_assignment
  find_assignment-last [] a h e = rw (e, eq_refl id) refl
  find_assignment-last (x ∷ xs) a h e = elim (Bool-cases (x.event_id == id)) [
    | inl k ↦ absurd (ground arith)
    | inr k ↦ rw k (find_assignment-last xs a (ground arith) e)
  ]

  update_assignment-last :
      (f : Assignment → Assignment) (xs : List Assignment) (a : Assignment)
      → find_assignment id xs ≡ none
      → a.event_id ≡ id
      → update_assignment id f (xs ++ a ∷ []) ≡ xs ++ f a ∷ []
  unfolding find_assignment update_assignment
  update_assignment-last f [] a h e = rw (e, eq_refl id) refl
  update_assignment-last f (x ∷ xs) a h e = elim (Bool-cases (x.event_id == id)) [
    | inl k ↦ absurd (ground arith)
    | inr k ↦ rw k (ap (λ t. x ∷ t) (update_assignment-last f xs a (ground arith) e))
  ]

  abbrev with_last : Inbox → List Assignment → Assignment → RecordFile Inbox
  with_last inbox xs a = readable (record inbox { assignments = xs ++ a ∷ [] })

  advance_last :
      (inbox : Inbox) (xs : List Assignment) (a : Assignment) (command : Command) (now : String)
      (summary : Option String)
      → find_assignment id xs ≡ none
      → a.event_id ≡ id
      → is_known a.state ≡ true
      → is_allowed a.state command ≡ true
      → run_command true id command now summary (with_last inbox xs a) ≡ (
        ok (set_state (new_state command) now summary a),
        with_last inbox xs (set_state (new_state command) now summary a),
      )
  unfolding run_command read_inbox write_inbox
  advance_last inbox xs a command now summary n e k h =
      rw
        (
          run_command,
          with_last,
          read_inbox,
          advance,
          find_assignment-last xs a n e,
          k,
          h,
          update_assignment-last (set_state (new_state command) now summary) xs a n e,
        )
        refl

  -- If the inbox of the lane's run can be read and holds no assignment with the fresh identifier, and
  -- the writes happen, then the worker acknowledges what ROOT appended and then completes or
  -- blocks it: the last call returns the assignment with its three history entries and the summary,
  -- and the inbox holds it behind the earlier assignments.
  pub appended_is_finished :
      (inbox : Inbox) (lane : Lane) (prompt t0 t1 t2 : String) (command : Command)
      (summary : Option String)
      → same_option inbox.run_id (some lane.run_id) ≡ true
      → find_assignment id inbox.assignments ≡ none
      → is_allowed acknowledged command ≡ true
      → run_command true id command t2 summary
          (run_command true id acknowledge_command t1 none
            (append_assignment true id t0 lane prompt (readable inbox)).1).1
        ≡ (
          ok (
              set_state
                (new_state command)
                t2
                summary
                (set_state acknowledged t1 none (new_assignment id t0 lane prompt))),
          readable (record inbox {
            assignments =
                inbox.assignments
                ++ set_state
                    (new_state command)
                    t2
                    summary
                    (set_state acknowledged t1 none (new_assignment id t0 lane prompt))
                  ∷ [];
          }),
        )
  unfolding append_assignment read_inbox write_inbox new_assignment set_state is_known is_allowed
      new_state
  appended_is_finished inbox lane prompt t0 t1 t2 command summary r n h =
      let a = new_assignment id t0 lane prompt in
      rw
        (
          append_assignment,
          r,
          advance_last inbox inbox.assignments a acknowledge_command t1 none n refl refl refl,
        )
        (advance_last inbox inbox.assignments (set_state acknowledged t1 none a) command t2 summary
          n refl refl h)
