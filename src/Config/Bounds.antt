-- ===== src/Config/Bounds.antt =====
-- What the numbers of an accepted configuration are.
use harness_single.Base.{
  ℕ, String, Bool, true, false, Option, none, some, ◌≡◌, ◌≤◌, ◌<◌, subst, arith, Result, ok, err,
  RecordFile, missing, unreadable, readable, Result-cases, inl, inr,
}
use harness_single.Base.Json.{ℤ, pos, negsuc, Json, int, Fields, get}
use harness_single.Config.Legacy.{
  LegacyError, LegacyConfig, Counts, Places, Intervals, read_counts, read_places, read_intervals,
  given_number, Floats, at_least, integer, any_unsafe, number, load_legacy_config,
}

-- The bounds of the integers.
pub record AreBounded (c : Counts) : Type 0 where
  pub critical : c.request_critical_seconds < c.request_warning_seconds
  pub tolerance : c.process_start_tolerance_seconds ≤ 2
  pub json_bytes : 1024 ≤ c.max_json_bytes
  pub tail_bytes : 1024 ≤ c.max_jsonl_tail_bytes
  pub retries : 1 ≤ c.stable_read_retries

-- A finite float that is not below the minimum.
abbrev pub IsAtLeast : (F : Type 0) → Floats F → F → F → Type 0
IsAtLeast F floats minimum x = (floats.is_finite x ≡ true) × (floats.is_below x minimum ≡ false)

at_least_bound : (minimum : ℕ) (z : ℤ) (n : ℕ) → at_least minimum z ≡ ok n → minimum ≤ n
unfolding at_least
at_least_bound minimum (pos k) n h = ground arith
at_least_bound minimum (negsuc k) n h = absurd (ground arith)

integer_bound :
    (raw : Fields) (key : String) (default minimum n : ℕ)
    → integer raw key default minimum ≡ ok n
    → minimum ≤ n
unfolding integer
integer_bound raw key default minimum n h = of_value (get key raw) h
  where
    of_value :
        (o : Option Json)
        → (elim o as (λ _. Result LegacyError ℕ) [
          | none ↦ at_least minimum (pos default)
          | some v ↦ elim v as (λ _. Result LegacyError ℕ) [
            | int z ↦ at_least minimum z
            | _ ↦ err LegacyError.not_integer
          ]
        ])
          ≡ ok n
        → minimum ≤ n
    of_value none h = at_least_bound minimum (pos default) n h
    of_value (some (int z)) h = at_least_bound minimum z n h
    of_value (some _) h = absurd (ground arith)

counts_bounded : (raw : Fields) (c : Counts) → read_counts raw ≡ ok c → AreBounded c
unfolding read_counts
counts_bounded raw c h = record {
  critical = ground arith;
  tolerance = ground arith;
  json_bytes = ground (arith, integer_bound raw "max_json_bytes" 4000000 1024);
  tail_bytes = ground (arith, integer_bound raw "max_jsonl_tail_bytes" 512000 1024);
  retries = ground (arith, integer_bound raw "stable_read_retries" 4 1);
}

module _ {F : Type 0} (floats : Floats F) where
  number_bound :
      (raw : Fields) (key : String) (default minimum x : F)
      → number floats raw key default minimum ≡ ok x
      → IsAtLeast F floats minimum x
  unfolding number
  number_bound raw key default minimum x h =
      elim (Result-cases (given_number floats (get key raw) default)) [
        | inr (e, g) ↦ absurd (ground arith)
        | inl (y, g) ↦
            let same : y ≡ x = ground arith in
            subst (IsAtLeast F floats minimum) same (ground arith, ground arith)
      ]

  intervals_bounded :
      (raw : Fields) (i : Intervals F)
      → read_intervals floats raw ≡ ok i
      → IsAtLeast F floats (floats.of_float "0.05") i.poll_interval_seconds
        × IsAtLeast F floats (floats.of_float "0.1") i.watch_timeout_seconds
        × IsAtLeast F floats (floats.of_int (pos 0)) i.stable_read_delay_seconds
  unfolding read_intervals
  intervals_bounded raw i h =
      elim (Result-cases (
        number floats raw "poll_interval_seconds" (floats.of_float "1.0")
          (floats.of_float "0.05"))) [
            | inr (e, a) ↦ absurd (ground arith)
            | inl (poll, a) ↦
                elim (Result-cases (
                  number floats raw "watch_timeout_seconds" (floats.of_float "60.0")
                    (floats.of_float "0.1"))) [
                      | inr (e, b) ↦ absurd (ground arith)
                      | inl (watch, b) ↦
                          elim (Result-cases (
                            number floats raw "stable_read_delay_seconds" (floats.of_float "0.03")
                              (floats.of_int (pos 0)))) [
                                | inr (e, c) ↦ absurd (ground arith)
                                | inl (delay, c) ↦
                                    let first : poll ≡ i.poll_interval_seconds = ground arith in
                                    let second : watch ≡ i.watch_timeout_seconds = ground arith in
                                    let third : delay ≡ i.stable_read_delay_seconds =
                                      ground arith in
                                    (
                                      subst (IsAtLeast F floats (floats.of_float "0.05")) first
                                          (number_bound raw _ _ _ poll a),
                                      subst (IsAtLeast F floats (floats.of_float "0.1")) second
                                          (number_bound raw _ _ _ watch b),
                                      subst (IsAtLeast F floats (floats.of_int (pos 0))) third
                                          (number_bound raw _ _ _ delay c),
                                    )
                              ]
                    ]
          ]

  places_safe :
      (is_unsafe : String → Bool) (raw : Fields) (p : Places)
      → read_places is_unsafe raw ≡ ok p
      → (any_unsafe is_unsafe p.run_globs ≡ false) × (is_unsafe p.workspace_relpath ≡ false)
  unfolding read_places
  places_safe is_unsafe raw p h = (ground arith, ground arith)

  -- What an accepted legacy configuration satisfies.
  pub record IsBounded (is_unsafe : String → Bool) (c : LegacyConfig F) : Type 0 where
    pub integers : AreBounded c.counts
    pub poll : IsAtLeast F floats (floats.of_float "0.05") c.intervals.poll_interval_seconds
    pub watch : IsAtLeast F floats (floats.of_float "0.1") c.intervals.watch_timeout_seconds
    pub delay : IsAtLeast F floats (floats.of_int (pos 0)) c.intervals.stable_read_delay_seconds
    pub globs : any_unsafe is_unsafe c.places.run_globs ≡ false
    pub workspace : is_unsafe c.places.workspace_relpath ≡ false

  -- A legacy configuration that is accepted has its critical threshold below its warning threshold, a
  -- process tolerance of at most 2, byte limits of at least 1024, at least one retry, intervals that
  -- are finite and not below their minimum, and no unsafe glob or workspace path.
  pub load_legacy_config-IsBounded :
      (is_unsafe : String → Bool) (file : RecordFile Fields) (c : LegacyConfig F)
      → load_legacy_config floats is_unsafe file ≡ ok c
      → IsBounded is_unsafe c
  unfolding load_legacy_config
  load_legacy_config-IsBounded is_unsafe missing c h = absurd (ground arith)
  load_legacy_config-IsBounded is_unsafe unreadable c h = absurd (ground arith)
  load_legacy_config-IsBounded is_unsafe (readable raw) c h =
      elim (Result-cases (read_places is_unsafe raw)) [
        | inr (e, a) ↦ absurd (ground arith)
        | inl (p, a) ↦ elim (Result-cases (read_counts raw)) [
          | inr (e, b) ↦ absurd (ground arith)
          | inl (n, b) ↦ elim (Result-cases (read_intervals floats raw)) [
            | inr (e, d) ↦ absurd (ground arith)
            | inl (i, d) ↦
                let places : p ≡ c.places = ground arith in
                let counts : n ≡ c.counts = ground arith in
                let times : i ≡ c.intervals = ground arith in
                let safe = places_safe is_unsafe raw p a in
                let bounded = intervals_bounded raw i d in
                record {
                  integers = subst AreBounded counts (counts_bounded raw n b);
                  poll =
                      subst
                        (λ t. IsAtLeast F floats (floats.of_float "0.05") t.poll_interval_seconds)
                        times bounded.0;
                  watch =
                      subst
                        (λ t. IsAtLeast F floats (floats.of_float "0.1") t.watch_timeout_seconds)
                        times bounded.1;
                  delay =
                      subst
                        (λ t.
                          IsAtLeast F floats (floats.of_int (pos 0)) t.stable_read_delay_seconds)
                        times bounded.2;
                  globs = subst (λ t. any_unsafe is_unsafe t.run_globs ≡ false) places safe.0;
                  workspace = subst (λ t. is_unsafe t.workspace_relpath ≡ false) places safe.1;
                }
          ]
        ]
      ]
