-- ===== src/Watch/Ending.antt =====
-- A watch ends, and no two watches of a session report the same event.
use harness_single.Base.{
  ℕ, String, Bool, true, false, Option, none, some, List, [], ◌∷◌, ◌++◌, ◌≡◌, ◌≢◌, refl, subst, sym,
  ap, ◌∙◌, arith, if◌then◌else◌, ok, Bool-cases, Option-cases, Result-cases, inl, inr, ◌⊎◌,
}
use harness_single.Base.Json.{Fields}
use harness_single.Processes.{ProcessTable}
use harness_single.ManagerQueue.Event.{Event}
use harness_single.ManagerQueue.Runtime.{Runtime, Env, append_watch_delivery, read_manager_queue}
use harness_single.ManagerQueue.Calls.{Call, watch_delivery, run, step, run-append}
use harness_single.ManagerQueue.Once.{watch_once}
use harness_single.Monitor.Status.{Status}
use harness_single.Watch.Snapshot.{find_actionable}
use harness_single.Watch.Loop.{
  Visit, Watched, event_present, waiting, Watch, watch_event, deliver_event, deliver, is_past,
  settle, watch,
}

-- Some visit ends at the deadline, or after it.
unfoldable pub any_past : Option ℕ → List Visit → Bool
any_past deadline [] = false
any_past deadline (v ∷ visits) = if is_past deadline v.now then true else any_past deadline visits

settle_ends :
    (delivered : Option String) (found : Option (String × Status)) (past : Bool) (rt : Runtime)
    (rest : Watched × Runtime)
    → (past ≡ false → rest.0 ≢ waiting)
    → (settle delivered found past rt rest).0 ≢ waiting
unfolding settle
settle_ends (some id) found past rt rest h = ground arith
settle_ends none (some found) past rt rest h = ground arith
settle_ends none none true rt rest h = ground arith
settle_ends none none false rt rest h = h refl

settle_event :
    (delivered : Option String) (found : Option (String × Status)) (past : Bool) (rt : Runtime)
    (rest : Watched × Runtime) (id : String)
    → (settle delivered found past rt rest).0 ≡ event_present id
    → ((delivered ≡ some id) × ((settle delivered found past rt rest).1 ≡ rt))
      ⊎ (settle delivered found past rt rest ≡ rest)
unfolding settle
settle_event (some x) found past rt rest id h = inl (ground arith, refl)
settle_event none (some found) past rt rest id h = absurd (ground arith)
settle_event none none true rt rest id h = absurd (ground arith)
settle_event none none false rt rest id h = inr refl

module _ (session binding : String) where
  -- What one visit's delivery did: the calls that it stands for, and the delivery if it reports one.
  record Delivers (env : Env) (rt : Runtime) (d : Option String × Runtime) : Type 0 where
    calls : List (Env × Call)
    made : d.1 ≡ run calls rt
    reported :
        (id : String)
        → d.0 ≡ some id
        → ((append_watch_delivery env id session binding rt).0 ≡ ok true)
          × (d.1 ≡ (append_watch_delivery env id session binding rt).1)

  idle-Delivers : (env : Env) (rt : Runtime) → Delivers env rt (none, rt)
  unfolding run
  idle-Delivers env rt = record {
    calls = [];
    made = refl;
    reported = λ id h. absurd (ground arith);
  }

  -- A delivery that reports nothing.
  silent-Delivers :
      (env : Env) (id : String) (rt : Runtime)
      → Delivers env rt (none, (append_watch_delivery env id session binding rt).1)
  unfolding run step
  silent-Delivers env id rt = record {
    calls = (env, watch_delivery id session binding) ∷ [];
    made = refl;
    reported = λ other h. absurd (ground arith);
  }

  -- An event was delivered under the identifier, after some calls.
  pub record Delivered (id : String) (rt final : Runtime) : Type 0 where
    pub calls : List (Env × Call)
    pub env : Env
    pub succeeded : (append_watch_delivery env id session binding (run calls rt)).0 ≡ ok true
    pub left : final ≡ (append_watch_delivery env id session binding (run calls rt)).1

deliver_event-Delivers :
    (w : Watch) (env : Env) (rt : Runtime) (e : Event)
    → Delivers w.session w.binding env rt (deliver_event w env rt e)
unfolding deliver_event run step
deliver_event-Delivers w env rt e =
    elim (Result-cases (append_watch_delivery env e.event_id w.session w.binding rt).0) [
      | inr (x, k) ↦ rw (deliver_event, k) (silent-Delivers w.session w.binding env e.event_id rt)
      | inl (true, k) ↦
          rw (deliver_event, k)
            (record {
              calls = (env, watch_delivery e.event_id w.session w.binding) ∷ [];
              made = refl;
              reported = λ id h.
                  let same : e.event_id ≡ id = ground arith in
                  subst
                    (λ t.
                      ((append_watch_delivery env t w.session w.binding rt).0 ≡ ok true)
                      × ((append_watch_delivery env e.event_id w.session w.binding rt).1
                          ≡ (append_watch_delivery env t w.session w.binding rt).1))
                    same (k, refl);
            })
      | inl (false, k) ↦
          rw (deliver_event, k) (silent-Delivers w.session w.binding env e.event_id rt)
    ]

deliver-Delivers :
    (w : Watch) (env : Env) (rt : Runtime) → Delivers w.session w.binding env rt (deliver w env rt)
unfolding deliver
deliver-Delivers w env rt = elim (Bool-cases w.managed) [
  | inr m ↦ rw (deliver, m) (idle-Delivers w.session w.binding env rt)
  | inl m ↦ elim (Result-cases (read_manager_queue rt)) [
    | inr (x, r) ↦ rw (deliver, m, r) (idle-Delivers w.session w.binding env rt)
    | inl (q, r) ↦ elim (Option-cases (watch_event w.session w.binding w.requested q)) [
      | inl e ↦ rw (deliver, m, r, e) (idle-Delivers w.session w.binding env rt)
      | inr (event, e) ↦ rw (deliver, m, r, e) (deliver_event-Delivers w env rt event)
    ]
  ]
]

module _ (digest : Fields → String) (os : ProcessTable) (w : Watch) where
  -- A watch with a deadline ends: if some visit ends at the deadline or later, it does not wait on.
  pub watch_ends :
      (visits : List Visit) (rt : Runtime)
      → any_past w.deadline visits ≡ true
      → (watch digest os w visits rt).0 ≢ waiting
  unfolding any_past watch
  watch_ends [] rt h = absurd (ground arith)
  watch_ends (v ∷ visits) rt h =
      let d = deliver w v.env (run v.before rt) in
      settle_ends d.0 (find_actionable digest os v.orphans v.entries) (is_past w.deadline v.now) d.1
        (watch digest os w visits d.1) (λ p. watch_ends visits d.1 (ground arith))

  watch_delivers :
      (visits : List Visit) (rt : Runtime) (id : String)
      → (watch digest os w visits rt).0 ≡ event_present id
      → Delivered w.session w.binding id rt (watch digest os w visits rt).1
  unfolding watch
  watch_delivers [] rt id h = absurd (ground arith)
  watch_delivers (v ∷ visits) rt id h =
      let here = run v.before rt in
      let d = deliver w v.env here in
      let k = deliver-Delivers w v.env here in
      let rest = watch digest os w visits d.1 in
      elim (settle_event d.0 (find_actionable digest os v.orphans v.entries)
        (is_past w.deadline v.now) d.1 rest id h) [
          | inl (e, s) ↦ record {
            calls = v.before;
            env = v.env;
            succeeded = (k.reported id e).0;
            left = s ∙ (k.reported id e).1;
          }
          | inr s ↦
              let later = watch_delivers visits d.1 id (ap (λ x. x.0) (sym s) ∙ h) in
              let path : run later.calls d.1 ≡ run ((v.before ++ k.calls) ++ later.calls) rt =
                ap (run later.calls) (k.made ∙ sym (run-append v.before k.calls rt))
                ∙ sym (run-append (v.before ++ k.calls) later.calls rt) in
              record {
                calls = (v.before ++ k.calls) ++ later.calls;
                env = later.env;
                succeeded =
                    subst
                      (λ t. (append_watch_delivery later.env id w.session w.binding t).0 ≡ ok true)
                      path later.succeeded;
                left =
                    ap (λ x. x.1) s
                    ∙ later.left
                    ∙ ap (λ t. (append_watch_delivery later.env id w.session w.binding t).1) path;
              }
        ]

module _ (digest : Fields → String) (os os' : ProcessTable) (w w' : Watch) where
  -- No two watches of one session and binding report the same event: if a watch reported it, then
  -- after any further calls a watch of the same session and binding does not report it, whatever its
  -- own deadline and requested event are and however many visits and calls of others it goes
  -- through.
  pub watch_reports_once :
      w'.session ≡ w.session
      → w'.binding ≡ w.binding
      → (first later : List Visit) (between : List (Env × Call)) (rt : Runtime) (id : String)
      → (watch digest os w first rt).0 ≡ event_present id
      → (watch digest os' w' later (run between (watch digest os w first rt).1)).0
        ≢ event_present id
  watch_reports_once same_session same_binding first later between rt id h again =
      let a = watch_delivers digest os w first rt id h in
      let middle = run between (watch digest os w first rt).1 in
      let b =
        subst (λ s. Delivered s w.binding id middle (watch digest os' w' later middle).1)
          same_session
          (subst (λ t. Delivered w'.session t id middle (watch digest os' w' later middle).1)
            same_binding (watch_delivers digest os' w' later middle id again)) in
      let delivered = append_watch_delivery a.env id w.session w.binding (run a.calls rt) in
      let path : run b.calls middle ≡ run (between ++ b.calls) delivered.1 =
        ap (λ t. run b.calls (run between t)) a.left
        ∙ sym (run-append between b.calls delivered.1) in
      let refused =
        watch_once id w.session w.binding a.env b.env (between ++ b.calls) (run a.calls rt)
          a.succeeded in
      let yes : (append_watch_delivery b.env id w.session w.binding
            (run (between ++ b.calls) delivered.1)).0
          ≡ ok true =
        subst (λ t. (append_watch_delivery b.env id w.session w.binding t).0 ≡ ok true) path
          b.succeeded in
      let no : (append_watch_delivery b.env id w.session w.binding
            (run (between ++ b.calls) delivered.1)).0
          ≡ ok false =
        ap (λ x. x.0) refused in
      absurd (ground arith)
