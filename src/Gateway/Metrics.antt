-- ===== src/Gateway/Metrics.antt =====
-- The metrics (internal/adapters/metrics.go): counters and gauges by name, the time of the last
-- delivery, the moving average of the latency, and what /metrics answers. An int64 is kept as its
-- 64 bits, and a duration in nanoseconds; the times at hand are not before 1970.
pub mod Laws
pub mod Average
use edge_gw_project.Prelude.{
  ℕ, ◌+◌, ◌/◌, ◌%◌, ◌^◌, Bool, true, false, ◌&&◌, Option, none, some, List, [], ◌∷◌, Text, codes,
  text_eq, ltb, ◌==◌, if◌then◌else◌,
}

-- A Go map from names.
abbrev pub Table : Type 0 → Type 0
Table A = List (Text × A)

module _ {A : Type 0} where
  unfoldable pub value_in : Text → Table A → Option A
  value_in name [] = none
  value_in name ((n, v) ∷ t) = let rest = value_in name t in if text_eq name n then some v else rest

  unfoldable pub store : Text → A → Table A → Table A
  store name v [] = (name, v) ∷ []
  store name v ((n, u) ∷ t) =
      let rest = store name v t in if text_eq name n then (n, v) ∷ t else (n, u) ∷ rest

abbrev pub or_zero : Option ℕ → ℕ
or_zero none = 0
or_zero (some v) = v

abbrev pub int64_range : ℕ
int64_range = 2 ^ 64

-- float64, as far as this file uses it: the conversion of an int64, the sum, product and quotient,
-- and the constants deliveryLatencyEWMAAlpha and 1 - deliveryLatencyEWMAAlpha.
pub record Reals (F : Type 0) : Type 0 where
  pub of_int64 : ℕ → F
  pub plus : F → F → F
  pub times : F → F → F
  pub over : F → F → F
  pub alpha : F
  pub one_minus_alpha : F
  pub zero_value : F

pub record Metrics (F : Type 0) : Type 0 where
  pub counters : Table ℕ
  pub gauges : Table ℕ
  pub last_delivery : ℕ
  pub ewma_initialized : Bool
  pub ewma_value : F

-- What a key of the answer holds.
pub data Value (F : Type 0) : Type 0 where
  integer : ℕ → Value F
  float : F → Value F
  text : Text → Value F
  null : Value F

module _ {F : Type 0} (r : Reals F) where
  abbrev pub fresh : Metrics F
  fresh = record {
    counters = [];
    gauges = [];
    last_delivery = 0;
    ewma_initialized = false;
    ewma_value = r.zero_value;
  }

  abbrev pub count_of : Text → Metrics F → ℕ
  count_of name m = or_zero (value_in name m.counters)

  -- RecordMetric
  unfoldable pub record_metric : Text → ℕ → Metrics F → Metrics F
  record_metric name value m = record m {
    counters = store name ((count_of name m + value) % int64_range) m.counters;
  }

  -- SetGauge
  unfoldable pub set_gauge : Text → ℕ → Metrics F → Metrics F
  set_gauge name value m = record m { gauges = store name (value % int64_range) m.gauges }

  abbrev pub blend : F → F → F
  blend sample value = r.plus (r.times r.alpha sample) (r.times r.one_minus_alpha value)

  -- updateDeliveryLatencyEWMA
  unfoldable pub update_ewma : F → Metrics F → Metrics F
  update_ewma sample m =
      if m.ewma_initialized
      then record m { ewma_value = blend sample m.ewma_value }
      else record m { ewma_value = sample; ewma_initialized = true }

  -- The latency of one delivery in milliseconds, from its whole microseconds.
  abbrev pub sample_of : ℕ → F
  sample_of queue_time = r.over (r.of_int64 (queue_time / 1000)) (r.of_int64 1000)

  -- RecordDelivery, at the time `now`. A queue time below 0 is a 0 here: the code only asks
  -- whether it is above 0.
  unfoldable pub record_delivery : ℕ → ℕ → Metrics F → Metrics F
  unfolding record_metric update_ewma
  record_delivery queue_time now m =
      let forwarded =
        record_metric (codes "signals_forwarded") 1 (record m { last_delivery = now }) in
      if ltb 0 queue_time
      then update_ewma (sample_of queue_time) (
          record_metric (codes "delivery_latency_count") 1
            (record_metric (codes "delivery_latency_ms_sum") (queue_time / 1000000) forwarded))
      else forwarded

  unfoldable pub put_all : Table ℕ → Table (Value F) → Table (Value F)
  put_all [] t = t
  put_all ((n, v) ∷ rest) t = put_all rest (store n (integer v) t)

  -- An int64 above 0.
  abbrev pub is_above_zero : ℕ → Bool
  is_above_zero v = ltb 0 v && ltb v (2 ^ 63)

  unfoldable pub with_latency : Metrics F → Table (Value F) → Table (Value F)
  with_latency m t =
      let sum = count_of (codes "delivery_latency_ms_sum") m in
      let count = count_of (codes "delivery_latency_count") m in
      let average =
        store (codes "delivery_latency_ms_lifetime_avg")
          (float (r.over (r.of_int64 sum) (r.of_int64 count))) t in
      if is_above_zero count
      then if m.ewma_initialized
        then store (codes "delivery_latency_ms_ewma") (float m.ewma_value) average
        else average
      else t

  -- MetricsHandler, given the process's uptime and start, and the seconds since a time.
  unfoldable pub metrics_handler : ℕ → Text → (ℕ → F) → Metrics F → Table (Value F)
  unfolding put_all with_latency
  metrics_handler uptime started_at seconds_since m =
      let first =
        store (codes "started_at") (text started_at)
          (store (codes "uptime_seconds") (integer uptime) []) in
      let named = put_all m.gauges (put_all m.counters first) in
      with_latency m (
        store (codes "seconds_since_last_delivery")
          (if m.last_delivery == 0 then null else float (seconds_since m.last_delivery)) named)
