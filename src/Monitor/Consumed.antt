-- ===== src/Monitor/Consumed.antt =====
-- No notice of a worker is lost.
use Prim.Native.String.append
use text.Mathlib.TextLemmas.{cons-ne-nil}
use mathlib.Core.Option.{some-injective}
use mathlib.Core.List.{Mem, mem-cons_self, mem-cons_of_mem}
use harness_single.Base.{
  String, Bool, true, false, some, List, [], ◌∷◌, ◌++◌, ◌≡◌, ◌≢◌, refl, sym, ap, ◌∙◌, subst, arith,
  if◌then◌else◌, ok, RecordFile, missing, unreadable, readable, All, Bool-cases, Result-cases, inl,
  inr, ◌⊎◌,
}
use harness_single.Base.Json.{Json, Fields}
use harness_single.ManagerQueue.Event.{Event, Queue, find_dedup}
use harness_single.ManagerQueue.Runtime.{Runtime, Env, promote_event, read_manager_queue}
use harness_single.ManagerQueue.Calls.{Call, promote, run, step, run-append}
use harness_single.ManagerQueue.Once.{run_reads}
use harness_single.ManagerQueue.Dedup.{find_dedup-Grows}
use harness_single.ManagerQueue.Promotions.{promoted_is_stored}
use harness_single.Monitor.Outbox.{
  Notice, Round, signal_id, notice_key, notice_promotion, consume_notice, consume_outbox,
}
use harness_single.Monitor.Signals.{
  find_dedup-Mem, expected_key, expected_key_injective, IsSignal, signal_id-IsSignal,
}

File-cases :
    (f : RecordFile Fields) → ((f ≡ missing) ⊎ (f ≡ unreadable)) ⊎ ((r : Fields) × (f ≡ readable r))
File-cases missing = inl (inl refl)
File-cases unreadable = inl (inr refl)
File-cases (readable r) = inr (r, refl)

true_not_false : true ≢ false
true_not_false e = ground arith

module _ (str : Json → String) (lane_id run_id : String) where
  key_is_filled : (signal : String) → notice_key lane_id run_id signal ≢ ""
  unfolding notice_key
  key_is_filled signal h = cons-ne-nil "w" _ (sym (append.cons "w" "orker-notice:" _) ∙ h)

  has_key :
      (stem : String) (r : Fields)
      → (notice_promotion str lane_id run_id stem r).dedup_key
        ≡ some (notice_key lane_id run_id (signal_id str stem r))
  unfolding notice_promotion
  has_key stem r = refl

  -- The queue has an event for the notice: its key is that of the notice's signal, and of no other
  -- signal of the lane and run.
  pub record IsPromoted (rt : Runtime) (notice : Notice) : Type 0 where
    pub content : Fields
    pub of_file : notice.content ≡ readable content
    pub signal : String
    pub of_signal : IsSignal str notice.stem content signal
    pub queue : Queue
    pub reads : read_manager_queue rt ≡ ok queue
    pub event : Event
    pub there : Mem event queue.events
    pub keyed : event.dedup_key ≡ some (expected_key lane_id run_id signal)
    pub alone :
        (other : String)
        → event.dedup_key ≡ some (expected_key lane_id run_id other)
        → other ≡ signal

  -- The queue that is read then has an event with the key of the notice.
  abbrev HasEvent : Runtime → Notice → Type 0
  HasEvent rt notice =
      (r : Fields) × (q : Queue) × (e : Event) × (notice.content ≡ readable r)
      × (read_manager_queue rt ≡ ok q)
      × (find_dedup (notice_key lane_id run_id (signal_id str notice.stem r)) q.events ≡ some e)

  HasEvent-IsPromoted : (rt : Runtime) (notice : Notice) → HasEvent rt notice → IsPromoted rt notice
  unfolding notice_key
  HasEvent-IsPromoted rt notice (r, q, e, c, x, f) =
      let s = signal_id str notice.stem r in
      let (there, k) = find_dedup-Mem (expected_key lane_id run_id s) q.events e f in
      record {
        content = r;
        of_file = c;
        signal = s;
        of_signal = signal_id-IsSignal str notice.stem r;
        queue = q;
        reads = x;
        event = e;
        there = there;
        keyed = k;
        alone = λ other h.
            let same : some (expected_key lane_id run_id other)
                ≡ some (expected_key lane_id run_id s) =
              sym h ∙ k in
            expected_key_injective lane_id run_id other s (some-injective _ _ same);
      }

  HasEvent-run :
      (calls : List (Env × Call)) (rt : Runtime) (notice : Notice)
      → HasEvent rt notice
      → HasEvent (run calls rt) notice
  HasEvent-run calls rt notice (r, q, e, c, x, f) =
      let (q', y, s) = run_reads calls rt q x in
      let (e', g, ev) = find_dedup-Grows _ q.events q'.events e s.grows f in (r, q', e', c, y, g)

  consume_notice_runs :
      (round : Round) (rt : Runtime)
      → (calls : List (Env × Call)) × ((consume_notice str lane_id run_id round rt).1
          ≡ run calls rt)
  unfolding consume_notice run step
  consume_notice_runs round rt = elim (File-cases round.notice.content) [
    | inl (inl e) ↦ ([], rw (consume_notice, e) refl)
    | inl (inr e) ↦ ([], rw (consume_notice, e) refl)
    | inr (r, e) ↦
        let p = notice_promotion str lane_id run_id round.notice.stem r in
        elim (Result-cases (promote_event round.env p rt).0) [
          | inr (x, k) ↦ ((round.env, promote p) ∷ [], rw (consume_notice, e, k) refl)
          | inl (event, k) ↦ ((round.env, promote p) ∷ [], rw (consume_notice, e, k) refl)
        ]
  ]

  archived-HasEvent :
      (round : Round) (rt : Runtime)
      → (consume_notice str lane_id run_id round rt).0 ≡ true
      → HasEvent (consume_notice str lane_id run_id round rt).1 round.notice
  unfolding consume_notice
  archived-HasEvent round rt h = elim (File-cases round.notice.content) [
    | inl (inl e) ↦
        let kept : (consume_notice str lane_id run_id round rt).0 ≡ false =
          rw (consume_notice, e) refl in
        absurd (true_not_false (sym h ∙ kept))
    | inl (inr e) ↦
        let kept : (consume_notice str lane_id run_id round rt).0 ≡ false =
          rw (consume_notice, e) refl in
        absurd (true_not_false (sym h ∙ kept))
    | inr (r, e) ↦
        let p = notice_promotion str lane_id run_id round.notice.stem r in
        let key = notice_key lane_id run_id (signal_id str round.notice.stem r) in
        elim (Result-cases (promote_event round.env p rt).0) [
          | inr (x, k) ↦
              let kept : (consume_notice str lane_id run_id round rt).0 ≡ false =
                rw (consume_notice, e, k) refl in
              absurd (true_not_false (sym h ∙ kept))
          | inl (event, k) ↦
              let (q, x, f) =
                promoted_is_stored round.env p rt key event (key_is_filled _)
                  (has_key round.notice.stem r) k in
              let left : (consume_notice str lane_id run_id round rt).1
                  ≡ (promote_event round.env p rt).1 =
                rw (consume_notice, e, k) refl in
              (r, q, event, e, ap read_manager_queue left ∙ x, f)
        ]
  ]

  consume_outbox_runs :
      (rounds : List Round) (rt : Runtime)
      → (calls : List (Env × Call)) × ((consume_outbox str lane_id run_id rounds rt).1
          ≡ run calls rt)
  unfolding consume_outbox run
  consume_outbox_runs [] rt = ([], refl)
  consume_outbox_runs (round ∷ rounds) rt =
      let (one, a) = consume_notice_runs round rt in
      let (more, b) = consume_outbox_runs rounds (consume_notice str lane_id run_id round rt).1 in
      (one ++ more, b ∙ ap (run more) a ∙ sym (run-append one more rt))

  -- The notice is still in the outbox, or has its event in the queue.
  abbrev pub IsKept : List Notice → Runtime → Round → Type 0
  IsKept left rt round = Mem round.notice left ⊎ IsPromoted rt round.notice

  All-IsKept :
      (is_archived : Bool) (notice : Notice) (left : List Notice) (rt : Runtime)
      (rounds : List Round)
      → All (IsKept left rt) rounds
      → All (IsKept (if is_archived then left else notice ∷ left) rt) rounds
  All-IsKept true notice left rt rounds h = h
  All-IsKept false notice left rt [] h = tt
  All-IsKept false notice left rt (round ∷ rounds) (inl there, later) =
      (inl (mem-cons_of_mem notice there), All-IsKept false notice left rt rounds later)
  All-IsKept false notice left rt (round ∷ rounds) (inr promoted, later) =
      (inr promoted, All-IsKept false notice left rt rounds later)

  -- No notice is lost: after the outbox was consumed, each file of it is still there, or the queue has
  -- an event whose key names the lane, the run and the signal of its notice, and which is that of no
  -- other signal of the lane and run, whatever promotions, writes and moves failed.
  pub consumed-IsKept :
      (rounds : List Round) (rt : Runtime)
      → All
          (IsKept
            (consume_outbox str lane_id run_id rounds rt).0
            (consume_outbox str lane_id run_id rounds rt).1)
          rounds
  unfolding consume_outbox
  consumed-IsKept [] rt = tt
  consumed-IsKept (round ∷ rounds) rt =
      let one = consume_notice str lane_id run_id round rt in
      let later = consume_outbox str lane_id run_id rounds one.1 in
      let (calls, b) = consume_outbox_runs rounds one.1 in
      (
        elim (Bool-cases one.0) [
          | inl out ↦ inr (
              HasEvent-IsPromoted _ round.notice (
                subst (λ t. HasEvent t round.notice) (sym b)
                  (HasEvent-run calls one.1 round.notice (archived-HasEvent round rt out))))
          | inr stays ↦ inl (
              subst (λ t. Mem round.notice (if t then later.0 else round.notice ∷ later.0))
                (sym stays) (mem-cons_self))
        ],
        All-IsKept one.0 round.notice later.0 later.1 rounds (consumed-IsKept rounds one.1),
      )
