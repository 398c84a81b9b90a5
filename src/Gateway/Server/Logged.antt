-- ===== src/Gateway/Server/Logged.antt =====
-- The status in the log (internal/middleware/middleware.go, RequestLogger and statusWriter).
use edge_gw_project.Prelude.{ℕ, ◌≡◌, ◌≢◌, refl, Option, none, Text}
use edge_gw_project.Processor.Outside.{Floats, Toolkit}
use edge_gw_project.Processor.Signal.{AnonymizedSignal, Settings}
use edge_gw_project.Spool.Queue.{Hook}
use edge_gw_project.Gateway.Readiness.{Thresholds}
use edge_gw_project.Gateway.Transaction.{Counters, Gateway}
use edge_gw_project.Gateway.Server.{
  status_sent, Incoming, respond, StreamWire, process_queueing, check_queueing, serve_queueing,
  process_at_once, check_at_once, serve_at_once,
}
use edge_gw_project.Gateway.Server.Served.{serve-logged, check_readiness-ne-202}
use edge_gw_project.Gateway.Server.Laws.{ready-ne-202}

module _ {F : Type 0} (fl : Floats F) (t : Toolkit) (wire : StreamWire F) (settings : Settings F)
    (thresholds : Thresholds) (clean_path : Text → Text) (key : Text) {W D E : Type 0}
    (hooks : Hook → W → W) (audit : W → Option ℕ)
    (sync_forward : AnonymizedSignal → D → Option E × D) (sync_audit : D → Option ℕ) where
  queueing_answers :
      (q : Incoming) (g : Gateway W)
      → (n : ℕ) × ((process_queueing fl t wire settings thresholds hooks audit q g).0 ≡ respond n)
  unfolding process_queueing
  queueing_answers q g = (_, refl)

  at_once_answers :
      (q : Incoming) (g : D × Counters)
      → (n : ℕ) × ((process_at_once fl t wire settings thresholds sync_forward sync_audit q g).0
          ≡ respond n)
  unfolding process_at_once
  at_once_answers q g = (_, refl)

  at_once-ne-202 :
      (q : Incoming) (g : D × Counters)
      → check_at_once fl t wire settings thresholds sync_forward sync_audit q g ≢ 202
  unfolding check_at_once
  at_once-ne-202 q (d, c) = check_readiness-ne-202 thresholds none (sync_audit d)

  -- With a spool and without one: the status in the log line of a request is the status that its
  -- client is sent.
  pub logged_status_is_sent :
      (q : Incoming) (g : Gateway W) (d : D × Counters)
      → let out = serve_queueing fl t wire settings thresholds hooks audit clean_path key q g in
        let sync =
          serve_at_once fl t wire settings thresholds sync_forward sync_audit clean_path key q d in
        (out.0.1.status ≡ status_sent out.0.0) × (sync.0.1.status ≡ status_sent sync.0.0)
  unfolding serve_queueing serve_at_once
  logged_status_is_sent q g d = (
    serve-logged clean_path (check_queueing fl t wire settings thresholds hooks audit)
        (ready-ne-202 fl t wire settings thresholds clean_path key hooks audit) key
        (process_queueing fl t wire settings thresholds hooks audit) queueing_answers q g,
    serve-logged clean_path (check_at_once fl t wire settings thresholds sync_forward sync_audit)
        at_once-ne-202 key (process_at_once fl t wire settings thresholds sync_forward sync_audit)
        at_once_answers q d,
  )
