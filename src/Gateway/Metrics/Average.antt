-- ===== src/Gateway/Metrics/Average.antt =====
-- The moving average that /metrics reports (internal/adapters/metrics.go).
use edge_gw_project.Prelude.{
  ℕ, ◌≡◌, refl, Option, none, some, List, [], ◌∷◌, Text, codes, ltb, if◌then◌else◌,
}
use edge_gw_project.Gateway.Metrics.{
  value_in, Reals, Metrics, Value, float, record_metric, blend, sample_of,
}

module _ {F : Type 0} (r : Reals F) where
  -- The latencies of the deliveries whose time in the queue is known.
  abbrev pub samples_of : List (ℕ × ℕ) → List F
  samples_of [] = []
  samples_of ((queue_time, now) ∷ ds) =
      if ltb 0 queue_time then sample_of r queue_time ∷ samples_of ds else samples_of ds

  abbrev pub blend_all : F → List F → F
  blend_all v [] = v
  blend_all v (x ∷ xs) = blend_all (blend r x v) xs

  -- The first sample, with the later ones blended in; none without a sample.
  abbrev pub average_of : List F → Option F
  average_of [] = none
  average_of (x ∷ xs) = some (blend_all x xs)

  abbrev held : Metrics F → Option F
  held m = if m.ewma_initialized then some m.ewma_value else none

  abbrev onward : Option F → List F → Option F
  onward none xs = average_of xs
  onward (some v) xs = some (blend_all v xs)

  held-record_metric : (n : Text) (v : ℕ) (m : Metrics F) → held (record_metric r n v m) ≡ held m
  unfolding record_metric
  held-record_metric n v m = refl

  abbrev ewma_key : Text
  ewma_key = codes "delivery_latency_ms_ewma"

  -- The deliveries name no counter after the average, and set no gauge.
  abbrev IsPlain : Metrics F → Type 0
  IsPlain m = (value_in ewma_key m.counters ≡ none) × (m.gauges ≡ [])

  abbrev pub reported : Option F → Option (Value F)
  reported none = none
  reported (some v) = some (float v)
