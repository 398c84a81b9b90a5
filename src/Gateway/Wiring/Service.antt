-- ===== src/Gateway/Wiring/Service.antt =====
-- The whole service (cmd/gateway/main.go): the server, the handler of /process, the spool, the
-- audit trail and the destination of either mode.
use mathlib.Core.Path.{subst}
use edge_gw_project.Prelude.{
  ℕ, ◌+◌, ◌≡◌, sym, Bool, true, Option, none, some, List, Text, codes, take, if◌then◌else◌,
}
use edge_gw_project.AuditLog.{Codec}
use edge_gw_project.Processor.Outside.{Floats, Toolkit}
use edge_gw_project.Processor.Signal.{RawData, Settings, anonymize_signal}
use edge_gw_project.Outbound.{Request, classify}
use edge_gw_project.Spool.Name.{spool_name}
use edge_gw_project.Spool.System.{Job, System}
use edge_gw_project.Spool.Life.{Life}
use edge_gw_project.Gateway.Audit.{is_permanent_audited}
use edge_gw_project.Gateway.Metrics.{Reals}
use edge_gw_project.Gateway.Readiness.{Thresholds}
use edge_gw_project.Gateway.Transaction.{Gateway, process_inbound_request}
use edge_gw_project.Gateway.Server.{
  Write, LogLine, Incoming, StreamWire, wire_at, transaction_request, status_sent, body_limit,
  limited,
}
use edge_gw_project.Gateway.Server.Served.{HasKey}
use edge_gw_project.Gateway.Server.Laws.{served, served_202-IsQueued}
use edge_gw_project.Gateway.Wiring.{
  Routing, Surroundings, is_audited, is_permanent_delivery, spool_forward, hooks, reborn,
}
use edge_gw_project.Gateway.Wiring.Accounting.{IsSound}
use edge_gw_project.Gateway.Wiring.EndToEnd.{IsSafe, accepted_is_accounted_for}

-- The count of the audit log's consecutive failures, if there is a log, as main registers it.
unfoldable pub audit_status : {P F : Type 0} → Routing → Surroundings P F → Option ℕ
audit_status s w = if is_audited s then some w.trail.failures else none

module _ {P F : Type 0} (r : Reals F) (c : Codec) (hmac_hex : Text → Text → Text)
    (builds : Text → Bool) (send : Request → P → Option ℕ × P) (Received : Text → P → Type 0)
    (receives : (q : Request) (p : P) (status : ℕ)
      → (send q p).0 ≡ some status
      → classify status ≡ none
      → Received q.body (send q p).1)
    (send-Received : (q : Request) (b : Text) (p : P) → Received b p → Received b (send q p).1)
    (s : Routing) (audited : is_audited s ≡ true) {G : Type 0} (fl : Floats G) (tools : Toolkit)
    (wire : StreamWire G) (settings : Settings G) (thresholds : Thresholds)
    (clean_path : Text → Text) (key : Text) where
  abbrev pub service :
      Incoming → Gateway (Surroundings P F) → (List Write × LogLine) × Gateway (Surroundings P F)
  service = served fl tools wire settings thresholds clean_path key (hooks r s) (audit_status s)

  -- Let the platform have bytes once it has answered with success, and keep them, and let there be
  -- an audit log. If the server of a gateway that starts sound sends 202, then the request came to
  -- /process with the key, if one is configured, and the encoded signal of the valid event in the
  -- first mebibyte of its body is safe: after any further steps of concurrent requests and of the
  -- forwarder, and any restarts of the process that leave the signals' files and may leave
  -- temporary ones, whichever system calls and deliveries fail, as long as names stay fresh, it
  -- waits in the spool, or lies in `dead`, or its record stands in the audit log and bytes of its
  -- digest have arrived at the platform or in the sink.
  pub served_is_accounted_for :
      (q : Incoming) (g : Gateway (Surroundings P F)) (jobs : List Job)
      {t : System (Surroundings P F)}
      → IsSound c s Received g.spool.world
      → status_sent (service q g).0.0 ≡ 202
      → Life
          (hooks r s)
          (is_permanent_audited is_permanent_delivery)
          (spool_forward c hmac_hex builds send s)
          (reborn r)
          (record { spool = (service q g).1.spool; in_flight = jobs })
          t
      → (q.path ≡ codes "/process")
        × HasKey key q
        × ((raw : RawData G) × (fallback : Text) × (payload : Text) × (process_inbound_request fl
                tools
                (wire_at wire (limited body_limit q))
                (take body_limit q.body)
              ≡ some raw)
            × (wire.encode (anonymize_signal fl tools settings raw fallback) ≡ some payload)
            × IsSafe c s Received (spool_name q.now (g.spool.seq + 1)) payload t)
  unfolding limited
  served_is_accounted_for q g jobs {t} k ok life =
      let (path, has, status, same, queued) =
        served_202-IsQueued fl tools wire settings thresholds clean_path key (hooks r s)
          (audit_status s) q g ok in
      (
        path,
        has,
        accepted_is_accounted_for r c hmac_hex builds send Received receives send-Received s audited
            fl tools (wire_at wire (limited body_limit q)) settings
            (transaction_request (limited body_limit q)) g jobs k status
            (subst
              (λ z.
                Life (hooks r s) (is_permanent_audited is_permanent_delivery)
                  (spool_forward c hmac_hex builds send s) (reborn r)
                  (record { spool = z.spool; in_flight = jobs }) t)
              (sym same) life),
      )
