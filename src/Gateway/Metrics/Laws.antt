-- ===== src/Gateway/Metrics/Laws.antt =====
-- What /metrics tells of the deliveries (internal/adapters/metrics.go).
use edge_gw_project.Prelude.{
  ℕ, ◌+◌, ◌/◌, ◌%◌, ◌≡◌, refl, ◌∙◌, false, some, List, [], ◌∷◌, Text, codes, text_eq, text_eq→eq,
  text_eq_refl, ltb, if◌then◌else◌, arith, length, Bool-cases, inl, inr,
}
use edge_gw_project.Gateway.Metrics.{
  Table, value_in, store, int64_range, Reals, Metrics, fresh, count_of, record_metric, update_ewma,
  sample_of, record_delivery,
}

module _ {A : Type 0} where
  pub value-store_self : (n : Text) (v : A) (t : Table A) → value_in n (store n v t) ≡ some v
  unfolding value_in store
  value-store_self n v [] = rw (text_eq_refl n) refl
  value-store_self n v ((m, u) ∷ t) = elim (Bool-cases (text_eq n m)) [
    | inl e ↦ rw (e, e) refl
    | inr e ↦ rw (e, e) (value-store_self n v t)
  ]

  pub value-store_other :
      (n m : Text) (v : A) (t : Table A)
      → text_eq m n ≡ false
      → value_in m (store n v t) ≡ value_in m t
  unfolding value_in store
  value-store_other n m v [] h = rw h refl
  value-store_other n m v ((k, u) ∷ t) h = elim (Bool-cases (text_eq n k)) [
    | inl e ↦ rw (e, ← text_eq→eq n k e, h) refl
    | inr e ↦ rw (e, value_in) (rw (value-store_other n m v t h) refl)
  ]

module _ {F : Type 0} (r : Reals F) where
  wraps : (a b k : ℕ) → ((a + b) % int64_range + k) % int64_range ≡ (a + (b + k)) % int64_range
  wraps a b k = omega arith

  count-record_metric :
      (n : Text) (v : ℕ) (m : Metrics F)
      → count_of r n (record_metric r n v m) ≡ (count_of r n m + v) % int64_range
  unfolding record_metric
  count-record_metric n v m =
      rw (value-store_self n ((count_of r n m + v) % int64_range) m.counters) refl

  count-record_metric_other :
      (n k : Text) (v : ℕ) (m : Metrics F)
      → text_eq k n ≡ false
      → count_of r k (record_metric r n v m) ≡ count_of r k m
  unfolding record_metric
  count-record_metric_other n k v m h =
      rw (value-store_other n k ((count_of r n m + v) % int64_range) m.counters h) refl

  count-update_ewma :
      (n : Text) (x : F) (m : Metrics F) → count_of r n (update_ewma r x m) ≡ count_of r n m
  unfolding update_ewma
  count-update_ewma n x m = elim (Bool-cases m.ewma_initialized) [
    | inl e ↦ rw e refl
    | inr e ↦ rw e refl
  ]

  -- The three counters of the deliveries: signals_forwarded, delivery_latency_count and
  -- delivery_latency_ms_sum.
  abbrev pub Totals : Metrics F → ℕ → ℕ → ℕ → Type 0
  Totals m forwarded timed milliseconds =
      (count_of r (codes "signals_forwarded") m ≡ forwarded % int64_range)
      × (count_of r (codes "delivery_latency_count") m ≡ timed % int64_range)
      × (count_of r (codes "delivery_latency_ms_sum") m ≡ milliseconds % int64_range)

  -- A delivery counts as timed if its time in the queue is known, that is, above 0.
  abbrev pub timed_count : List (ℕ × ℕ) → ℕ
  timed_count [] = 0
  timed_count ((queue_time, now) ∷ ds) = (if ltb 0 queue_time then 1 else 0) + timed_count ds

  abbrev pub milliseconds_of : List (ℕ × ℕ) → ℕ
  milliseconds_of [] = 0
  milliseconds_of ((queue_time, now) ∷ ds) = queue_time / 1000000 + milliseconds_of ds

  unfoldable pub record_deliveries : List (ℕ × ℕ) → Metrics F → Metrics F
  record_deliveries [] m = m
  record_deliveries ((queue_time, now) ∷ ds) m =
      record_deliveries ds (record_delivery r queue_time now m)

  added :
      (n : Text) (v k : ℕ) (m : Metrics F)
      → count_of r n m ≡ k % int64_range
      → count_of r n (record_metric r n v m) ≡ (k + v) % int64_range
  added n v k m e = count-record_metric n v m ∙ omega (arith, e)

  other :
      (n k : Text) (v a : ℕ) (m : Metrics F)
      → text_eq k n ≡ false
      → count_of r k m ≡ a % int64_range
      → count_of r k (record_metric r n v m) ≡ a % int64_range
  other n k v a m h e = count-record_metric_other n k v m h ∙ e

  module _ (a b c v : ℕ) (m : Metrics F) (t : Totals m a b c) where
    Totals-forwarded : Totals (record_metric r (codes "signals_forwarded") v m) (a + v) b c
    unfolding text_eq
    Totals-forwarded = (
      added (codes "signals_forwarded") v a m t.0,
      other (codes "signals_forwarded") (codes "delivery_latency_count") v b m refl t.1,
      other (codes "signals_forwarded") (codes "delivery_latency_ms_sum") v c m refl t.2,
    )

    Totals-timed : Totals (record_metric r (codes "delivery_latency_count") v m) a (b + v) c
    unfolding text_eq
    Totals-timed = (
      other (codes "delivery_latency_count") (codes "signals_forwarded") v a m refl t.0,
      added (codes "delivery_latency_count") v b m t.1,
      other (codes "delivery_latency_count") (codes "delivery_latency_ms_sum") v c m refl t.2,
    )

    Totals-milliseconds : Totals (record_metric r (codes "delivery_latency_ms_sum") v m) a b (c + v)
    unfolding text_eq
    Totals-milliseconds = (
      other (codes "delivery_latency_ms_sum") (codes "signals_forwarded") v a m refl t.0,
      other (codes "delivery_latency_ms_sum") (codes "delivery_latency_count") v b m refl t.1,
      added (codes "delivery_latency_ms_sum") v c m t.2,
    )

  Totals-ewma :
      (a b c : ℕ) (x : F) (m : Metrics F) → Totals m a b c → Totals (update_ewma r x m) a b c
  Totals-ewma a b c x m (e, f, g) = (
    count-update_ewma (codes "signals_forwarded") x m ∙ e,
    count-update_ewma (codes "delivery_latency_count") x m ∙ f,
    count-update_ewma (codes "delivery_latency_ms_sum") x m ∙ g,
  )

  abbrev after_forwarded : ℕ → Metrics F → Metrics F
  after_forwarded now m =
      record_metric r (codes "signals_forwarded") 1 (record m { last_delivery = now })

  record_delivery-Totals :
      (q now a b c : ℕ) (m : Metrics F)
      → Totals m a b c
      → Totals
          (record_delivery r q now m)
          (a + 1)
          (b + (if ltb 0 q then 1 else 0))
          (c + q / 1000000)
  unfolding record_delivery
  record_delivery-Totals q now a b c m t =
      let first = after_forwarded now m in
      let u : Totals first (a + 1) b c =
        Totals-forwarded a b c 1 (record m { last_delivery = now }) t in
      let summed = record_metric r (codes "delivery_latency_ms_sum") (q / 1000000) first in
      elim (Bool-cases (ltb 0 q)) [
        | inl e ↦ rw e (
            Totals-ewma (a + 1) (b + 1) (c + q / 1000000) (sample_of r q)
              (record_metric r (codes "delivery_latency_count") 1 summed)
              (Totals-timed (a + 1) b (c + q / 1000000) 1 summed
                (Totals-milliseconds (a + 1) b c (q / 1000000) first u)))
        | inr e ↦ rw e (u.0, u.1 ∙ omega arith, u.2 ∙ ground (arith, e))
      ]

  record_deliveries-Totals :
      (ds : List (ℕ × ℕ)) (a b c : ℕ) (m : Metrics F)
      → Totals m a b c
      → Totals
          (record_deliveries ds m)
          (a + length ds)
          (b + timed_count ds)
          (c + milliseconds_of ds)
  unfolding record_deliveries
  record_deliveries-Totals [] a b c m (x, y, z) =
      (x ∙ omega arith, y ∙ omega arith, z ∙ omega arith)
  record_deliveries-Totals ((q, now) ∷ ds) a b c m t =
      let (x, y, z) =
        record_deliveries-Totals ds (a + 1) (b + (if ltb 0 q then 1 else 0)) (c + q / 1000000)
          (record_delivery r q now m) (record_delivery-Totals q now a b c m t) in
      (x ∙ omega arith, y ∙ omega arith, z ∙ omega arith)

  -- From fresh metrics, after any deliveries: the three counters are the number of deliveries, the
  -- number of those with a known time in the queue, and the sum of their whole milliseconds, each
  -- modulo 2^64.
  pub record_deliveries_count :
      (ds : List (ℕ × ℕ))
      → Totals (record_deliveries ds (fresh r)) (length ds) (timed_count ds) (milliseconds_of ds)
  unfolding value_in
  record_deliveries_count ds =
      let (x, y, z) = record_deliveries-Totals ds 0 0 0 (fresh r) (refl, refl, refl) in
      (x ∙ omega arith, y ∙ omega arith, z ∙ omega arith)
