-- ===== src/Monitor/Signals.antt =====
-- The signal of a worker's notice, the key of the event that carries it, and what is found by a key.
use text.Mathlib.TextLemmas.{append_cancel_left}
use Prim.Native.String.{◌++◌ as join_text}
use mathlib.Core.List.{Mem, mem-cons_self, mem-cons_of_mem}
use harness_single.Base.{
  String, true, false, some, List, [], ◌∷◌, ◌≡◌, refl, sym, ap, ◌∙◌, subst, arith, Bool-cases, inl,
  inr, ◌⊎◌, Option-cases, same_option, same_option_iff_to,
}
use harness_single.Base.Json.{Json, Fields, get, is_truthy, if_truthy, str_of}
use harness_single.ManagerQueue.Event.{Event, find_dedup}
use harness_single.Monitor.Outbox.{text_or, notice_id, signal_id}

pub find_dedup-Mem :
    (key : String) (es : List Event) (e : Event)
    → find_dedup key es ≡ some e
    → Mem e es × (e.dedup_key ≡ some key)
unfolding find_dedup
find_dedup-Mem key [] e h = absurd (ground arith)
find_dedup-Mem key (x ∷ es) e h = elim (Bool-cases (same_option x.dedup_key (some key))) [
  | inl y ↦
      let same : x ≡ e = ground arith in
      (
        subst (λ t. Mem t (x ∷ es)) same mem-cons_self,
        ap (λ (t : Event). t.dedup_key) (sym same) ∙ same_option_iff_to x.dedup_key (some key) y,
      )
  | inr n ↦ let (there, k) = find_dedup-Mem key es e (ground arith) in (mem-cons_of_mem x there, k)
]

-- The key that the event of a signal carries, `worker-notice:<lane>:<run>:<signal>`.
abbrev pub expected_key : String → String → String → String
expected_key lane_id run_id signal =
    join_text "worker-notice:"
      (join_text lane_id (join_text ":" (join_text run_id (join_text ":" signal))))

-- Keys of one lane and run tell the signals apart.
pub expected_key_injective :
    (lane_id run_id s t : String)
    → expected_key lane_id run_id s ≡ expected_key lane_id run_id t
    → s ≡ t
expected_key_injective lane_id run_id s t h = append_cancel_left ":" s t (
    append_cancel_left run_id _ _ (
      append_cancel_left ":" _ _
        (append_cancel_left lane_id _ _ (append_cancel_left "worker-notice:" _ _ h))))

module _ (str : Json → String) where
  -- The field is set to something, which prints as the text.
  abbrev pub IsGiven : String → Fields → String → Type 0
  IsGiven key r s =
      (v : Json) × (get key r ≡ some v) × (is_truthy (some v) ≡ true) × (str_of str v ≡ s)

  -- The signal of a notice: its `signal_id`, or else its `notice_id`, or else the name of the file.
  abbrev pub IsSignal : String → Fields → String → Type 0
  IsSignal stem r s =
      IsGiven "signal_id" r s
      ⊎ ((is_truthy (get "signal_id" r) ≡ false)
          × (IsGiven "notice_id" r s ⊎ ((is_truthy (get "notice_id" r) ≡ false) × (s ≡ stem))))

  text_or-cases :
      (key default : String) (r : Fields)
      → IsGiven key r (text_or str key default r)
        ⊎ ((is_truthy (get key r) ≡ false) × (text_or str key default r ≡ default))
  unfolding text_or if_truthy
  text_or-cases key default r = elim (Option-cases (get key r)) [
    | inl e ↦ inr (rw (e, is_truthy) refl, rw (text_or, e, if_truthy) refl)
    | inr (v, e) ↦ elim (Bool-cases (is_truthy (some v))) [
      | inl true_value ↦ inl (v, e, true_value, rw (text_or, e, if_truthy, true_value) refl)
      | inr false_value ↦
          inr (rw (e, false_value) refl, rw (text_or, e, if_truthy, false_value) refl)
    ]
  ]

  pub signal_id-IsSignal : (stem : String) (r : Fields) → IsSignal stem r (signal_id str stem r)
  unfolding signal_id notice_id
  signal_id-IsSignal stem r = elim (text_or-cases "signal_id" (notice_id str stem r) r) [
    | inl given ↦ inl given
    | inr (absent, e) ↦ elim (text_or-cases "notice_id" stem r) [
      | inl given ↦ inr (absent, inl (subst (IsGiven "notice_id" r) (sym e) given))
      | inr (none_given, k) ↦ inr (absent, inr (none_given, e ∙ k))
    ]
  ]
