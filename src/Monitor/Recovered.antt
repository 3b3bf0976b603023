-- ===== src/Monitor/Recovered.antt =====
-- What the recoveries leave: an open review request, and a published review as it was.
use harness_single.Base.{
  String, true, false, Option, none, some, List, [], ◌∷◌, ◌++◌, ◌≡◌, refl, sym, ap, ◌∙◌, subst,
  arith, same_option_refl, if◌then◌else◌, ok, err, RecordFile, Bool-cases, Option-cases, inl, inr,
}
use harness_single.Base.Json.{Fields, get, as_text}
use harness_single.ManagerQueue.Event.{Event, Queue, is_closed, is_open, find_dedup, Outcome}
use harness_single.ManagerQueue.Operations.{
  Promotion, Mutation, new_event, promote_mutate, existing_event,
}
use harness_single.ManagerQueue.Runtime.{Runtime, Env, Run, promote_event, read_manager_queue}
use harness_single.ManagerQueue.Promotions.{promotion_stores}
use harness_single.Monitor.Status.{valid_current_result, lifecycle_is}
use harness_single.Monitor.Recovery.{LaneFolder, Effects, review_pair_is_valid, update_lane}
use harness_single.Monitor.Requests.{
  is_review_request, any_review_request, has_open_review_event, any_closed_with, review_key,
  review_promotion, note_status, note_request, note_promoted, run_of, request_review,
  recover_lost_review_event,
}

any_review_request-append :
    (lane : Fields) (es : List Event) (e : Event)
    → is_review_request lane e ≡ true
    → any_review_request lane (es ++ e ∷ []) ≡ true
unfolding any_review_request
any_review_request-append lane [] e h = rw h refl
any_review_request-append lane (x ∷ es) e h = elim (Bool-cases (is_review_request lane x)) [
  | inl hit ↦ rw hit refl
  | inr miss ↦ rw miss (any_review_request-append lane es e h)
]

any_closed-find :
    (key : String) (es : List Event) (e : Event)
    → find_dedup key es ≡ some e
    → is_closed e.state ≡ true
    → any_closed_with key es ≡ true
unfolding find_dedup any_closed_with
any_closed-find key [] e f c = absurd (ground arith)
any_closed-find key (x ∷ es) e f c = ground (arith, any_closed-find key es e)

admitted :
    (id now : String) (p : Promotion) (q : Queue) (m : Mutation Event)
    → existing_event p.dedup_key q.events ≡ none
    → promote_mutate id now p q ≡ ok m
    → m.queue.events ≡ q.events ++ new_event id now p ∷ []
unfolding promote_mutate
admitted id now p q m none_there h = ground arith

note_request_runtime :
    (x : Effects) (now : String) (lane : Fields) (lane_id : String) (event : Event) (rt : Runtime)
    (file : RecordFile Fields)
    → (note_request x now lane lane_id event rt file).1 ≡ rt
unfolding note_request update_lane
note_request_runtime x now lane lane_id event rt file = elim (Bool-cases x.lane_written) [
  | inl w ↦ rw (note_request, update_lane, w) refl
  | inr w ↦ rw (note_request, update_lane, w) refl
]

noted_runtime :
    (x : Effects) (lane_id : String) (rt : Runtime) (file : RecordFile Fields)
    → (note_status x lane_id rt file).1 ≡ rt
unfolding note_status update_lane
noted_runtime x lane_id rt file = elim (Bool-cases x.lane_written) [
  | inl w ↦ rw (note_status, update_lane, w) refl
  | inr w ↦ rw (note_status, update_lane, w) refl
]

promoted_runtime :
    (x : Effects) (now : String) (lane : Fields) (lane_id : String) (promoted : Run Event)
    (file : RecordFile Fields)
    → (note_promoted x now lane lane_id promoted file).1 ≡ promoted.1
unfolding note_promoted
promoted_runtime x now lane lane_id (err e, rt) file = refl
promoted_runtime x now lane lane_id (ok event, rt) file =
    note_request_runtime x now lane lane_id event rt file

promoted_event :
    (x : Effects) (now : String) (lane : Fields) (lane_id : String) (promoted : Run Event)
    (file : RecordFile Fields) (events : List Event)
    → (note_promoted x now lane lane_id promoted file).0 ≡ ok events
    → (event : Event) × (promoted.0 ≡ ok event)
unfolding note_promoted
promoted_event x now lane lane_id (err e, rt) file events h = absurd (ground arith)
promoted_event x now lane lane_id (ok event, rt) file events h = (event, refl)

same_queue : (a b : Queue) → Path (Outcome Queue) (ok a) (ok b) → a ≡ b
same_queue a b h = ground arith

-- The events with the key are closed ones.
abbrev pub AreClosed : String → List Event → Type 0
AreClosed key es = (e : Event) → find_dedup key es ≡ some e → is_closed e.state ≡ true

nothing_existing :
    (key : String) (es : List Event)
    → AreClosed key es
    → existing_event (if any_closed_with key es then none else some key) es ≡ none
unfolding existing_event
nothing_existing key es closed = elim (Bool-cases (any_closed_with key es)) [
  | inl c ↦ rw c refl
  | inr c ↦ elim (Option-cases (find_dedup key es)) [
    | inl absent ↦ rw (c, existing_event, absent) (ground arith)
    | inr (e, found) ↦
        let hit : any_closed_with key es ≡ true = any_closed-find key es e found (closed e found) in
        absurd (ground arith)
  ]
]

module _ (lane : Fields) (lane_id run_id : String)
    (of_lane : as_text (get "lane_id" lane) ≡ some lane_id)
    (of_run : as_text (get "run_id" lane) ≡ some run_id) where
  new_request :
      (id now : String) (key : Option String)
      → is_review_request lane (new_event id now (review_promotion lane_id run_id key)) ≡ true
  unfolding is_review_request new_event review_promotion is_open
  new_request id now key =
      rw
        (
          is_review_request,
          of_lane,
          of_run,
          same_option_refl (some lane_id),
          same_option_refl (some run_id),
        )
        refl

  run_of_lane : run_of lane ≡ run_id
  unfolding run_of
  run_of_lane = rw (run_of, of_run) refl

  requested :
      (env : Env) (x : Effects) (epoch_id : String) (rt : Runtime) (file : RecordFile Fields)
      (q : Queue) (events : List Event)
      → read_manager_queue rt ≡ ok q
      → AreClosed (review_key lane_id run_id epoch_id) q.events
      → (request_review env x epoch_id lane lane_id rt file).0 ≡ ok events
      → has_open_review_event (request_review env x epoch_id lane lane_id rt file).1 lane ≡ true
  unfolding request_review has_open_review_event
  requested env x epoch_id rt file q events r closed h =
      let key = review_key lane_id run_id epoch_id in
      let p =
        review_promotion lane_id run_id (if any_closed_with key q.events then none else some key) in
      let step : request_review env x epoch_id lane lane_id rt file
          ≡ note_promoted x env.now lane lane_id (promote_event env p rt) file =
        rw (request_review, r, run_of_lane) refl in
      let (event, k) =
        promoted_event x env.now lane lane_id (promote_event env p rt) file events
          (ap (λ t. t.0) (sym step) ∙ h) in
      let runtime : (request_review env x epoch_id lane lane_id rt file).1
          ≡ (promote_event env p rt).1 =
        ap (λ t. t.1) step
        ∙ promoted_runtime x env.now lane lane_id (promote_event env p rt) file in
      let (q', m, r', y, v, z) = promotion_stores env p rt event k in
      let left : m.queue.events ≡ q'.events ++ new_event env.fresh_id env.now p ∷ [] =
        admitted env.fresh_id env.now p q' m
          (subst (λ t. existing_event p.dedup_key t.events ≡ none) (same_queue q q' (sym r ∙ r'))
            (nothing_existing key q.events closed))
          y in
      subst (λ t. has_open_review_event t lane ≡ true) (sym runtime)
        (rw (has_open_review_event, z, left)
          (any_review_request-append lane q'.events (new_event env.fresh_id env.now p)
            (new_request env.fresh_id env.now p.dedup_key)))

-- A lane that awaits its review, with a valid result and no valid pair, has an open review request
-- once the recovery returned: if its two identifiers are there, the queue can be read, and no event that
-- is still open carries the key of the recovery.
pub recovered_review_is_requested :
    (digest : Fields → String) (env : Env) (x : Effects) (epoch_id : String) (lane : Fields)
    (result : RecordFile Fields) (rt : Runtime) (folder : LaneFolder) (lane_id run_id : String)
    (q : Queue) (events : List Event)
    → lifecycle_is lane ("review_pending" ∷ []) ≡ true
    → valid_current_result digest lane result ≡ true
    → review_pair_is_valid digest lane folder.pair ≡ false
    → as_text (get "lane_id" lane) ≡ some lane_id
    → as_text (get "run_id" lane) ≡ some run_id
    → read_manager_queue rt ≡ ok q
    → AreClosed (review_key lane_id run_id epoch_id) q.events
    → (recover_lost_review_event digest env x epoch_id lane result rt folder).0 ≡ ok events
    → has_open_review_event
        (recover_lost_review_event digest env x epoch_id lane result rt folder).1
        lane
      ≡ true
unfolding recover_lost_review_event
recovered_review_is_requested digest env x epoch_id lane result rt folder lane_id run_id q events
      pending_lane valid broken of_lane of_run r closed h =
    elim (Bool-cases (has_open_review_event rt lane)) [
      | inl asked ↦
          let step : recover_lost_review_event digest env x epoch_id lane result rt folder
              ≡ note_status x lane_id rt folder.lane_file =
            rw (recover_lost_review_event, pending_lane, valid, broken, of_lane, asked) refl in
          subst (λ t. has_open_review_event t lane ≡ true)
            (sym (ap (λ t. t.1) step ∙ noted_runtime x lane_id rt folder.lane_file)) asked
      | inr lost ↦
          let step : recover_lost_review_event digest env x epoch_id lane result rt folder
              ≡ request_review env x epoch_id lane lane_id rt folder.lane_file =
            rw (recover_lost_review_event, pending_lane, valid, broken, of_lane, lost) refl in
          subst (λ t. has_open_review_event t.1 lane ≡ true) (sym step)
            (requested lane lane_id run_id of_lane of_run env x epoch_id rt folder.lane_file q
              events r closed (ap (λ t. t.0) (sym step) ∙ h))
    ]
