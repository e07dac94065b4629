-- ===== src/Metrics.antt =====
-- src/metrics.rs: the counters, the latency histograms, and the snapshot of both. The histograms are
-- a parameter; a counter wraps at 2 ^ 64.
use tak_bench.Prelude.{ℕ, ◌+◌, ◌-◌, ◌/◌, ◌%◌, Bool, Option, none, some, min, max, if◌then◌else◌}
use tak_bench.Prelude.Float.{Float}
use tak_bench.Prelude.Time.{Duration, u32_max, u64_max, u64_mod}

-- A histogram of microseconds with the bounds of `Metrics::default`
pub record Histograms : Type 1 where
  pub Histogram : Type 0
  pub fresh : Histogram
  pub record_value : Histogram → ℕ → Histogram
  pub is_empty : Histogram → Bool
  -- quantiles 0.5, 0.95 and 0.99, in hundredths
  pub value_at_quantile : Histogram → ℕ → ℕ

pub record MetricsSnapshot (F64 : Type 0) : Type 0 where
  pub connection_attempts : ℕ
  pub connection_successes : ℕ
  pub connection_failures : ℕ
  pub tls_failures : ℕ
  pub sent_messages : ℕ
  pub received_messages : ℕ
  pub duplicate_messages : ℕ
  pub dropped_messages : ℕ
  pub message_timeouts : ℕ
  pub reconnects : ℕ
  pub reconnect_failures : ℕ
  pub local_dropped_messages : ℕ
  pub active_connections : ℕ
  pub handshake_p50_ms : Option F64
  pub handshake_p95_ms : Option F64
  pub delivery_p50_ms : Option F64
  pub delivery_p95_ms : Option F64
  pub delivery_p99_ms : Option F64
  pub recovery_p95_ms : Option F64

-- `MetricsSnapshot::default()`
abbrev pub no_snapshot : {F64 : Type 0} → MetricsSnapshot F64
no_snapshot = record {
  connection_attempts = 0;
  connection_successes = 0;
  connection_failures = 0;
  tls_failures = 0;
  sent_messages = 0;
  received_messages = 0;
  duplicate_messages = 0;
  dropped_messages = 0;
  message_timeouts = 0;
  reconnects = 0;
  reconnect_failures = 0;
  local_dropped_messages = 0;
  active_connections = 0;
  handshake_p50_ms = none;
  handshake_p95_ms = none;
  delivery_p50_ms = none;
  delivery_p95_ms = none;
  delivery_p99_ms = none;
  recovery_p95_ms = none;
}

-- `fetch_add` and `fetch_sub` on an `AtomicU64`
abbrev pub fetch_add : ℕ → ℕ → ℕ
fetch_add counter n = (counter + n) % u64_mod

abbrev pub fetch_sub : ℕ → ℕ → ℕ
fetch_sub counter n = (counter + u64_mod - n) % u64_mod

-- The counters alone
pub record Counters : Type 0 where
  pub connection_attempts : ℕ
  pub connection_successes : ℕ
  pub connection_failures : ℕ
  pub tls_failures : ℕ
  pub sent_messages : ℕ
  pub received_messages : ℕ
  pub duplicate_messages : ℕ
  pub dropped_messages : ℕ
  pub message_timeouts : ℕ
  pub reconnects : ℕ
  pub reconnect_failures : ℕ
  pub local_dropped_messages : ℕ
  pub active_connections : ℕ

abbrev pub no_counts : Counters
no_counts = record {
  connection_attempts = 0;
  connection_successes = 0;
  connection_failures = 0;
  tls_failures = 0;
  sent_messages = 0;
  received_messages = 0;
  duplicate_messages = 0;
  dropped_messages = 0;
  message_timeouts = 0;
  reconnects = 0;
  reconnect_failures = 0;
  local_dropped_messages = 0;
  active_connections = 0;
}

-- `u64::try_from(elapsed.as_micros()).unwrap_or(u64::MAX).max(1)`
unfoldable pub micros_of : Duration → ℕ
micros_of elapsed = max (min (elapsed / 1000) u64_max) 1

module _ (h : Histograms) where
  open h use {Histogram, fresh, record_value, is_empty, value_at_quantile}

  pub record Metrics : Type 0 where
    pub counters : Counters
    pub handshake_us : Histogram
    pub delivery_us : Histogram
    pub recovery_us : Histogram

  -- `Metrics::default`
  unfoldable pub new : Metrics
  new = record {
    counters = no_counts;
    handshake_us = fresh;
    delivery_us = fresh;
    recovery_us = fresh;
  }

  unfoldable pub record_handshake : Duration → Metrics → Metrics
  record_handshake elapsed m = record m {
    handshake_us = record_value m.handshake_us (micros_of elapsed);
  }

  unfoldable pub record_delivery : Duration → Metrics → Metrics
  record_delivery elapsed m = record m {
    delivery_us = record_value m.delivery_us (micros_of elapsed);
  }

  unfoldable pub record_recovery : Duration → Metrics → Metrics
  record_recovery elapsed m = record m {
    recovery_us = record_value m.recovery_us (micros_of elapsed);
  }

  module _ (f : Float) where
    open f use {F64, literal, from_u32, div}

    -- The closure `percentile`
    unfoldable pub percentile : Histogram → ℕ → Option F64
    percentile histogram q =
        if is_empty histogram
        then none
        else some (div (from_u32 (min (value_at_quantile histogram q) u32_max)) (literal 1000 1))

    unfoldable pub snapshot : Metrics → MetricsSnapshot F64
    snapshot m = record {
      connection_attempts = m.counters.connection_attempts;
      connection_successes = m.counters.connection_successes;
      connection_failures = m.counters.connection_failures;
      tls_failures = m.counters.tls_failures;
      sent_messages = m.counters.sent_messages;
      received_messages = m.counters.received_messages;
      duplicate_messages = m.counters.duplicate_messages;
      dropped_messages = m.counters.dropped_messages;
      message_timeouts = m.counters.message_timeouts;
      reconnects = m.counters.reconnects;
      reconnect_failures = m.counters.reconnect_failures;
      local_dropped_messages = m.counters.local_dropped_messages;
      active_connections = m.counters.active_connections;
      handshake_p50_ms = percentile m.handshake_us 50;
      handshake_p95_ms = percentile m.handshake_us 95;
      delivery_p50_ms = percentile m.delivery_us 50;
      delivery_p95_ms = percentile m.delivery_us 95;
      delivery_p99_ms = percentile m.delivery_us 99;
      recovery_p95_ms = percentile m.recovery_us 95;
    }
