-- ===== src/Gateway/Transaction/Sync.antt =====
-- What an answer of 200 means without a spool (cmd/gateway/main.go, processTransaction).
use edge_gw_project.Prelude.{
  ◌≡◌, refl, inl, inr, arith, Option, none, some, Text, Bool-cases, Option-cases,
}
use edge_gw_project.Processor.Outside.{Floats, Toolkit}
use edge_gw_project.Processor.Signal.{RawData, AnonymizedSignal, Settings, anonymize_signal}
use edge_gw_project.Gateway.Transaction.{
  Counters, Wire, Request, Response, process_inbound_request, fallback_of, note_sentinel,
  after_sync, deliver_valid, process_transaction_sync,
}

module _ {F D E : Type 0} (fl : Floats F) (t : Toolkit) (wire : Wire F)
    (sync_forward : AnonymizedSignal → D → Option E × D) (s : Settings F) where
  after_sync-accepted :
      (id : Text) (c : Counters) (r : Option E × D)
      → (after_sync fl t wire sync_forward s id c r).0.status ≡ 200
      → (r.0 ≡ none) × ((after_sync fl t wire sync_forward s id c r).1.0 ≡ r.1)
  unfolding after_sync
  after_sync-accepted id c (none, d) h = (refl, refl)
  after_sync-accepted id c (some e, d) h = absurd (omega (arith, h))

  -- The signal of a valid event, delivered with this result.
  abbrev pub IsForwarded : Request → D × Counters → Response × (D × Counters) → Type 0
  IsForwarded q g out =
      (r : RawData F) × (fallback : Text) × (process_inbound_request fl t wire q.body ≡ some r)
      × ((sync_forward (anonymize_signal fl t s r fallback) g.0).0 ≡ none)
      × (out.1.0 ≡ (sync_forward (anonymize_signal fl t s r fallback) g.0).1)

  pub sync_accepted-IsForwarded :
      (q : Request) (g : D × Counters)
      → (process_transaction_sync fl t wire sync_forward s q g).0.status ≡ 200
      → IsForwarded q g (process_transaction_sync fl t wire sync_forward s q g)
  unfolding process_transaction_sync deliver_valid
  sync_accepted-IsForwarded q (d, c) h = elim (Bool-cases q.is_post) [
    | inr m ↦ absurd (omega (arith, rw (m, process_transaction_sync) at h))
    | inl m ↦ elim (Option-cases (process_inbound_request fl t wire q.body)) [
      | inl e ↦ absurd (omega (arith, rw (m, e, process_transaction_sync) at h))
      | inr (r, e) ↦ elim (Option-cases (fallback_of fl t wire q.fresh_id r)) [
        | inl f ↦ absurd (omega (arith, rw (m, e, f, process_transaction_sync, deliver_valid) at h))
        | inr (fallback, f) ↦
            let a = anonymize_signal fl t s r fallback in
            let (ok, same) =
              after_sync-accepted a.signal_id (note_sentinel fl t wire a c) (sync_forward a d)
                (rw (m, e, f, process_transaction_sync, deliver_valid) at h) in
            rw (m, e, f, process_transaction_sync, deliver_valid) (r, fallback, refl, ok, same)
      ]
    ]
  ]
