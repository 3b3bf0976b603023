-- ===== src/Watcher/Updates.antt =====
-- What changing one alert, or adding one, leaves of the alert list's properties.
use harness_single.Base.{
  String, Bool, true, false, none, some, List, [], ◌∷◌, ◌++◌, ◌≡◌, refl, subst, arith, All,
  Bool-cases, inl, inr, eq_iff,
}
use harness_single.Watcher.Alerts.{Alert, is_resolved, find_alert, update_alert, is_open_with}
use harness_single.Watcher.Calls.{IsOrdered, IsOpenOnce}

-- A changed alert keeps its signature, and is not opened again.
abbrev pub Keeps : Alert → Alert → Type 0
Keeps a b =
    (b.signature ≡ a.signature)
    × (is_resolved a.recovery_state ≡ true → is_resolved b.recovery_state ≡ true)

is_open_with-Keeps :
    (signature : String) (a b : Alert)
    → Keeps a b
    → is_open_with signature a ≡ false
    → is_open_with signature b ≡ false
unfolding is_open_with
is_open_with-Keeps signature a b (k, r) h = rw k (ground arith)

none_head :
    (test : Alert → Bool) (a : Alert) (alerts : List Alert)
    → find_alert test (a ∷ alerts) ≡ none
    → (test a ≡ false) × (find_alert test alerts ≡ none)
unfolding find_alert
none_head test a alerts h = (ground arith, ground arith)

none_cons :
    (test : Alert → Bool) (a : Alert) (alerts : List Alert)
    → test a ≡ false
    → find_alert test alerts ≡ none
    → find_alert test (a ∷ alerts) ≡ none
unfolding find_alert
none_cons test a alerts h n = rw h n

other_signature :
    (a b : Alert)
    → is_resolved a.recovery_state ≡ false
    → is_open_with b.signature a ≡ false
    → is_open_with a.signature b ≡ false
unfolding is_open_with
other_signature a b u h =
    ground (arith, eq_iff a.signature b.signature, eq_iff b.signature a.signature)

find_alert-append :
    (test : Alert → Bool) (alerts : List Alert) (b : Alert)
    → find_alert test alerts ≡ none
    → test b ≡ false
    → find_alert test (alerts ++ b ∷ []) ≡ none
unfolding find_alert
find_alert-append test [] b h n = rw n refl
find_alert-append test (a ∷ alerts) b h n = elim (Bool-cases (test a)) [
  | inl e ↦ absurd (ground arith)
  | inr e ↦ rw e (find_alert-append test alerts b (ground arith) n)
]

still_open :
    (a b : Alert)
    → Keeps a b
    → is_resolved b.recovery_state ≡ false
    → is_resolved a.recovery_state ≡ false
still_open a b (k, r) h = elim (Bool-cases (is_resolved a.recovery_state)) [
  | inl e ↦ absurd (ground (arith, r e))
  | inr e ↦ e
]

module _ (test : Alert → Bool) (f : Alert → Alert) where
  find_alert-update :
      (signature : String) (alerts : List Alert) (a : Alert)
      → find_alert test alerts ≡ some a
      → Keeps a (f a)
      → find_alert (is_open_with signature) alerts ≡ none
      → find_alert (is_open_with signature) (update_alert test f alerts) ≡ none
  unfolding find_alert update_alert
  find_alert-update signature [] a h k n = absurd (ground arith)
  find_alert-update signature (x ∷ alerts) a h k n =
      let open_none = none_head (is_open_with signature) x alerts n in
      elim (Bool-cases (test x)) [
        | inl e ↦
            let same : a ≡ x = ground arith in
            rw e (
              none_cons (is_open_with signature) (f x) alerts
                (is_open_with-Keeps signature x (f x) (subst (λ t. Keeps t (f t)) same k)
                  open_none.0)
                open_none.1)
        | inr e ↦ rw e (
            none_cons (is_open_with signature) x (update_alert test f alerts) open_none.0
              (find_alert-update signature alerts a (ground arith) k open_none.1))
      ]

  IsOpenOnce-update :
      (alerts : List Alert) (a : Alert)
      → find_alert test alerts ≡ some a
      → Keeps a (f a)
      → IsOpenOnce alerts
      → IsOpenOnce (update_alert test f alerts)
  unfolding find_alert update_alert
  IsOpenOnce-update [] a h k o = absurd (ground arith)
  IsOpenOnce-update (x ∷ alerts) a h k (now, later) = elim (Bool-cases (test x)) [
    | inl e ↦
        let same : a ≡ x = ground arith in
        let kept : Keeps x (f x) = subst (λ t. Keeps t (f t)) same k in
        rw e (λ u. rw (kept.0) (now (still_open x (f x) kept u)), later)
    | inr e ↦ rw e (
      λ u. find_alert-update x.signature alerts a (ground arith) k (now u),
      IsOpenOnce-update alerts a (ground arith) k later,
    )
  ]

  All-update {ℓ} :
      (P : Alert → Type ℓ) (alerts : List Alert) (a : Alert)
      → find_alert test alerts ≡ some a
      → All P alerts
      → (P a → P (f a))
      → All P (update_alert test f alerts)
  unfolding find_alert update_alert
  All-update P [] a h p k = absurd (ground arith)
  All-update P (x ∷ alerts) a h (now, later) k = elim (Bool-cases (test x)) [
    | inl e ↦ let same : a ≡ x = ground arith in rw e (subst (λ t. P t → P (f t)) same k now, later)
    | inr e ↦ rw e (now, All-update P alerts a (ground arith) later k)
  ]

pub IsOpenOnce-append :
    (alerts : List Alert) (b : Alert)
    → find_alert (is_open_with b.signature) alerts ≡ none
    → IsOpenOnce alerts
    → IsOpenOnce (alerts ++ b ∷ [])
unfolding find_alert
IsOpenOnce-append [] b n o = (λ u. refl, tt)
IsOpenOnce-append (a ∷ alerts) b n (now, later) =
    let k = none_head (is_open_with b.signature) a alerts n in
    (
      λ u.
          find_alert-append (is_open_with a.signature) alerts b (now u) (other_signature a b u k.0),
      IsOpenOnce-append alerts b k.1 later,
    )

pub found_holds {ℓ} :
    (P : Alert → Type ℓ) (test : Alert → Bool) (alerts : List Alert) (a : Alert)
    → find_alert test alerts ≡ some a
    → All P alerts
    → P a
unfolding find_alert
found_holds P test [] a h p = absurd (ground arith)
found_holds P test (x ∷ alerts) a h (now, later) = elim (Bool-cases (test x)) [
  | inl e ↦ subst P (ground arith) now
  | inr e ↦ found_holds P test alerts a (ground arith) later
]

abbrev pub IsGood : List Alert → Type 0
IsGood alerts = All IsOrdered alerts × IsOpenOnce alerts

pub IsGood-update :
    (test : Alert → Bool) (f : Alert → Alert) (alerts : List Alert) (a : Alert)
    → find_alert test alerts ≡ some a
    → Keeps a (f a)
    → (IsOrdered a → IsOrdered (f a))
    → IsGood alerts
    → IsGood (update_alert test f alerts)
IsGood-update test f alerts a h k o (p, q) =
    (All-update test f IsOrdered alerts a h p o, IsOpenOnce-update test f alerts a h k q)
