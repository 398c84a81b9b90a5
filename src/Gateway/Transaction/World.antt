-- ===== src/Gateway/Transaction/World.antt =====
-- What the handler of /process does to the world around the spool (cmd/gateway/main.go).
use edge_gw_project.Prelude.{
  arith, Bool, Option, none, some, Text, Bool-cases, Option-cases, inl, inr,
}
use edge_gw_project.Processor.Outside.{Floats, Toolkit}
use edge_gw_project.Processor.Signal.{Settings, anonymize_signal}
use edge_gw_project.Spool.Queue.{Hook, Spool, EnqueueError, enqueue}
use edge_gw_project.Spool.World.{enqueue_keeps}
use edge_gw_project.Gateway.Transaction.{
  Counters, Gateway, Wire, Request, process_inbound_request, fallback_of, note_sentinel,
  after_enqueue, queue_signal, process_valid, process_transaction,
}

module _ {F W E : Type 0} (fl : Floats F) (t : Toolkit) (wire : Wire F) (hooks : Hook → W → W)
    (is_permanent : E → Bool) (forward : Text → W → Option E × W) (s : Settings F) (P : W → Type 0)
    (hooks-P : (h : Hook) (w : W) → P w → P (hooks h w))
    (forward-P : (p : Text) (w : W) → P w → P (forward p w).1) where
  after_enqueue_keeps :
      (id : Text) (c : Counters) (r : Option EnqueueError × Spool W)
      → P r.1.world
      → P (after_enqueue fl t wire hooks s id c r).1.spool.world
  unfolding after_enqueue
  after_enqueue_keeps id c (none, sp) k = k
  after_enqueue_keeps id c (some e, sp) k = ground (arith, k)

  -- What the hooks keep, a request keeps.
  pub process_transaction_keeps :
      (q : Request) (g : Gateway W)
      → P g.spool.world
      → P (process_transaction fl t wire hooks s q g).1.spool.world
  unfolding process_transaction process_valid queue_signal
  process_transaction_keeps q g k = elim (Bool-cases q.is_post) [
    | inr m ↦ rw m k
    | inl m ↦ elim (Option-cases (process_inbound_request fl t wire q.body)) [
      | inl e ↦ rw (m, e, process_transaction) k
      | inr (r, e) ↦ elim (Option-cases (fallback_of fl t wire q.fresh_id r)) [
        | inl f ↦ rw (m, e, process_transaction, f, process_valid) k
        | inr (fallback, f) ↦
            let a = anonymize_signal fl t s r fallback in
            elim (Option-cases (wire.encode a)) [
              | inl d ↦ rw (m, e, process_transaction, f, process_valid, d, queue_signal) k
              | inr (payload, d) ↦
                  rw (m, e, process_transaction, f, process_valid, d, queue_signal)
                    (after_enqueue_keeps a.signal_id (note_sentinel fl t wire a g.counters)
                      (enqueue hooks q.faults q.now payload g.spool)
                      (enqueue_keeps hooks is_permanent forward P hooks-P forward-P q.faults q.now
                        payload g.spool k))
            ]
      ]
    ]
  ]
