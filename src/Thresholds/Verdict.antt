-- ===== src/Thresholds/Verdict.antt =====
-- src/thresholds.rs: when a run is aborted, and by what.
use tak_bench.Prelude.{
  ℕ, ◌+◌, ◌≤◌, ◌<◌, ◌≡◌, ◌↔◌, refl, true, false, Option, none, some, min, max, unwrap_or, arith,
  ◌⊎◌, inl, inr,
}
use tak_bench.Prelude.Float.{Float}
use tak_bench.Prelude.Time.{Duration, u64_max}
use tak_bench.Config.Types.{AbortConfig}
use tak_bench.Metrics.{MetricsSnapshot}
use tak_bench.Thresholds.Evaluate.{
  ThresholdViolation, connection_error_rate, message_error_rate, p95_latency, p99_latency,
  dropped_messages, ratio, too_few_samples, connection_rate, message_rate, exceeds_rate,
  exceeds_latency, exceeds_count, evaluate,
}

-- What a limit demands, where it is configured
abbrev pub Keeps : {L : Type 0} → (L → Type 0) → Option L → Type 0
Keeps P none = Unit
Keeps P (some limit) = P limit

-- There is a value and what is said of it holds.
abbrev pub Passes : {L : Type 0} → (L → Type 0) → Option L → Type 0
Passes P none = ⊥
Passes P (some limit) = P limit

module _ (f : Float) where
  open f use {F64, gt, mul, as_secs, literal}

  -- A latency limit in milliseconds
  abbrev pub millis : Duration → F64
  millis limit = mul (as_secs limit) (literal 1000 1)

  -- Timeouts and drops, which together count as errors, for the messages sent
  abbrev pub errors_per_sent : MetricsSnapshot F64 → F64
  errors_per_sent s =
      ratio f (min (s.message_timeouts + s.dropped_messages) u64_max) s.sent_messages

  -- No configured limit is passed.
  pub record IsWithinLimits (config : AbortConfig F64) (s : MetricsSnapshot F64) : Type 0 where
    pub connections :
        Keeps
          (λ limit. gt (ratio f s.connection_failures s.connection_attempts) limit ≡ false)
          config.connection_error_rate
    pub messages : Keeps (λ limit. gt (errors_per_sent s) limit ≡ false) config.message_error_rate
    pub p95 :
        Keeps
          (λ limit. Keeps (λ ms. gt ms (millis limit) ≡ false) s.delivery_p95_ms)
          config.p95_latency
    pub p99 :
        Keeps
          (λ limit. Keeps (λ ms. gt ms (millis limit) ≡ false) s.delivery_p99_ms)
          config.p99_latency
    pub drops : Keeps (λ limit. s.dropped_messages ≤ limit) config.max_dropped_messages

  rate_iff :
      (limit : Option F64) (rate : F64)
      → (exceeds_rate f limit rate ≡ false) ↔ Keeps (λ l. gt rate l ≡ false) limit
  unfolding exceeds_rate
  rate_iff none rate = (λ h. tt, λ h. refl)
  rate_iff (some limit) rate = (λ h. h, λ h. h)

  latency_iff :
      (limit : Option Duration) (value : Option F64)
      → (exceeds_latency f limit value ≡ false)
        ↔ Keeps (λ l. Keeps (λ ms. gt ms (millis l) ≡ false) value) limit
  unfolding exceeds_latency
  latency_iff none value = (λ h. tt, λ h. refl)
  latency_iff (some limit) none = (λ h. tt, λ h. refl)
  latency_iff (some limit) (some ms) = (λ h. h, λ h. h)

  count_iff :
      (limit : Option ℕ) (n : ℕ) → (exceeds_count f limit n ≡ false) ↔ Keeps (λ l. n ≤ l) limit
  unfolding exceeds_count
  count_iff none n = (λ h. tt, λ h. refl)
  count_iff (some limit) n = (λ h. ground (arith, h), λ h. ground (arith, h))

  -- No test of a limit succeeds.
  abbrev IsQuiet : AbortConfig F64 → MetricsSnapshot F64 → Type 0
  IsQuiet config s =
      (exceeds_rate f config.connection_error_rate (connection_rate f s) ≡ false)
      × (exceeds_rate f config.message_error_rate (message_rate f s) ≡ false)
      × (exceeds_latency f config.p95_latency s.delivery_p95_ms ≡ false)
      × (exceeds_latency f config.p99_latency s.delivery_p99_ms ≡ false)
      × (exceeds_count f config.max_dropped_messages s.dropped_messages ≡ false)

  IsQuiet-iff :
      (config : AbortConfig F64) (s : MetricsSnapshot F64)
      → IsQuiet config s ↔ IsWithinLimits config s
  unfolding connection_rate message_rate
  IsQuiet-iff config s =
      let connections = rate_iff config.connection_error_rate (connection_rate f s) in
      let messages = rate_iff config.message_error_rate (message_rate f s) in
      let p95 = latency_iff config.p95_latency s.delivery_p95_ms in
      let p99 = latency_iff config.p99_latency s.delivery_p99_ms in
      let drops = count_iff config.max_dropped_messages s.dropped_messages in
      (
        λ q. record {
          connections = connections.0 q.0;
          messages = messages.0 q.1;
          p95 = p95.0 q.2;
          p99 = p99.0 q.3;
          drops = drops.0 q.4;
        },
        λ w. (
          connections.1 w.connections,
          messages.1 w.messages,
          p95.1 w.p95,
          p99.1 w.p99,
          drops.1 w.drops,
        ),
      )

  tests-none_iff :
      (config : AbortConfig F64) (s : MetricsSnapshot F64)
      → (evaluate f config s ≡ none) ↔ (
          (max s.connection_attempts s.sent_messages < unwrap_or config.min_samples 1)
          ⊎ IsQuiet config s)
  unfolding evaluate too_few_samples
  tests-none_iff config s = (λ h. ground arith, λ h. ground arith)

  -- A run goes on exactly when there are too few samples yet, one where none is configured, or every
  -- configured limit is kept: by the failures for each connection attempt, by the timeouts and drops for
  -- each message sent, by the two latencies where they are measured, and by the dropped messages.
  pub evaluate-none_iff :
      (config : AbortConfig F64) (s : MetricsSnapshot F64)
      → (evaluate f config s ≡ none) ↔ (
          (max s.connection_attempts s.sent_messages < unwrap_or config.min_samples 1)
          ⊎ IsWithinLimits config s)
  evaluate-none_iff config s =
      let tests = tests-none_iff config s in
      let quiet = IsQuiet-iff config s in
      (
        λ h. elim (tests.0 h) [ inl few ↦ inl few | inr kept ↦ inr (quiet.0 kept) ],
        λ h. elim h [ inl few ↦ tests.1 (inl few) | inr kept ↦ tests.1 (inr (quiet.1 kept)) ],
      )

  rate-Passes :
      (limit : Option F64) (rate : F64)
      → exceeds_rate f limit rate ≡ true
      → Passes (λ l. gt rate l ≡ true) limit
  unfolding exceeds_rate
  rate-Passes none rate h = cc
  rate-Passes (some limit) rate h = h

  latency-Passes :
      (limit : Option Duration) (ms : F64)
      → exceeds_latency f limit (some ms) ≡ true
      → Passes (λ l. gt ms (millis l) ≡ true) limit
  unfolding exceeds_latency
  latency-Passes none ms h = cc
  latency-Passes (some limit) ms h = h

  count-Passes :
      (limit : Option ℕ) (n : ℕ) → exceeds_count f limit n ≡ true → Passes (λ l. l < n) limit
  unfolding exceeds_count
  count-Passes none n h = cc
  count-Passes (some limit) n h = ground (arith, h)

  -- The violation that is reported is one of the snapshot, with the measured value.
  abbrev pub Holds : AbortConfig F64 → MetricsSnapshot F64 → ThresholdViolation f → Type 0
  Holds config s (connection_error_rate rate) =
      (rate ≡ ratio f s.connection_failures s.connection_attempts)
      × Passes (λ limit. gt rate limit ≡ true) config.connection_error_rate
  Holds config s (message_error_rate rate) =
      (rate ≡ errors_per_sent s) × Passes (λ limit. gt rate limit ≡ true) config.message_error_rate
  Holds config s (p95_latency ms) =
      (s.delivery_p95_ms ≡ some ms)
      × Passes (λ limit. gt ms (millis limit) ≡ true) config.p95_latency
  Holds config s (p99_latency ms) =
      (s.delivery_p99_ms ≡ some ms)
      × Passes (λ limit. gt ms (millis limit) ≡ true) config.p99_latency
  Holds config s (dropped_messages n) =
      (n ≡ s.dropped_messages) × Passes (λ limit. limit < n) config.max_dropped_messages

  -- The test that has reported a violation
  abbrev Reported : AbortConfig F64 → MetricsSnapshot F64 → ThresholdViolation f → Type 0
  Reported config s (connection_error_rate rate) =
      (rate ≡ connection_rate f s) × (exceeds_rate f config.connection_error_rate rate ≡ true)
  Reported config s (message_error_rate rate) =
      (rate ≡ message_rate f s) × (exceeds_rate f config.message_error_rate rate ≡ true)
  Reported config s (p95_latency ms) =
      (s.delivery_p95_ms ≡ some ms) × (exceeds_latency f config.p95_latency (some ms) ≡ true)
  Reported config s (p99_latency ms) =
      (s.delivery_p99_ms ≡ some ms) × (exceeds_latency f config.p99_latency (some ms) ≡ true)
  Reported config s (dropped_messages n) =
      (n ≡ s.dropped_messages) × (exceeds_count f config.max_dropped_messages n ≡ true)

  evaluate-Reported :
      (config : AbortConfig F64) (s : MetricsSnapshot F64) (v : ThresholdViolation f)
      → evaluate f config s ≡ some v
      → (unwrap_or config.min_samples 1 ≤ max s.connection_attempts s.sent_messages)
        × Reported config s v
  unfolding evaluate too_few_samples exceeds_latency
  evaluate-Reported config s (connection_error_rate rate) h = ground arith
  evaluate-Reported config s (message_error_rate rate) h = ground arith
  evaluate-Reported config s (p95_latency ms) h = ground arith
  evaluate-Reported config s (p99_latency ms) h = ground arith
  evaluate-Reported config s (dropped_messages n) h = ground arith

  Reported-Holds :
      (config : AbortConfig F64) (s : MetricsSnapshot F64) (v : ThresholdViolation f)
      → Reported config s v
      → Holds config s v
  unfolding connection_rate message_rate
  Reported-Holds config s (connection_error_rate rate) (same, h) =
      (same, rate-Passes config.connection_error_rate rate h)
  Reported-Holds config s (message_error_rate rate) (same, h) =
      (same, rate-Passes config.message_error_rate rate h)
  Reported-Holds config s (p95_latency ms) (same, h) =
      (same, latency-Passes config.p95_latency ms h)
  Reported-Holds config s (p99_latency ms) (same, h) =
      (same, latency-Passes config.p99_latency ms h)
  Reported-Holds config s (dropped_messages n) (same, h) =
      (same, count-Passes config.max_dropped_messages n h)

  -- A reported violation is a violation: its value is the measured one, a rate, a latency or a count, and
  -- greater than the configured limit. It is reported only with enough samples.
  pub evaluate-Holds :
      (config : AbortConfig F64) (s : MetricsSnapshot F64) (v : ThresholdViolation f)
      → evaluate f config s ≡ some v
      → (unwrap_or config.min_samples 1 ≤ max s.connection_attempts s.sent_messages)
        × Holds config s v
  evaluate-Holds config s v h =
      let (enough, reported) = evaluate-Reported config s v h in
      (enough, Reported-Holds config s v reported)
