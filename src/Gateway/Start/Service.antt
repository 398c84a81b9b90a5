-- ===== src/Gateway/Start/Service.antt =====
-- From the start of the process to the delivery of a signal (cmd/gateway/main.go).
use edge_gw_project.Prelude.{
  ℕ, ◌+◌, ◌≡◌, inr, Bool, true, Option, none, some, List, [], Text, codes, take,
}
use edge_gw_project.AuditLog.{Codec}
use edge_gw_project.Processor.Outside.{Floats, Toolkit}
use edge_gw_project.Processor.Signal.{RawData, anonymize_signal}
use edge_gw_project.Outbound.{Request, classify}
use edge_gw_project.Spool.Name.{spool_name}
use edge_gw_project.Spool.System.{Job, System}
use edge_gw_project.Spool.Life.{Life, Life_keep}
use edge_gw_project.Gateway.Audit.{is_permanent_audited}
use edge_gw_project.Gateway.Startup.Keys.{settings_of}
use edge_gw_project.Gateway.Limits.{Ratios, configure}
use edge_gw_project.Gateway.Metrics.{Reals}
use edge_gw_project.Gateway.Transaction.{Counters, Gateway, process_inbound_request}
use edge_gw_project.Gateway.Server.{
  Write, LogLine, Incoming, StreamWire, wire_at, status_sent, body_limit, limited,
}
use edge_gw_project.Gateway.Server.Served.{HasKey}
use edge_gw_project.Gateway.Wiring.{
  Surroundings, is_audited, is_permanent_delivery, spool_forward, hooks, reborn,
}
use edge_gw_project.Gateway.Wiring.Accounting.{IsSound, accounting, reborn-IsSound}
use edge_gw_project.Gateway.Wiring.EndToEnd.{IsSafe}
use edge_gw_project.Gateway.Wiring.Service.{service, served_is_accounted_for}
use edge_gw_project.Gateway.Start.{Boot, with_spool, config_of, routing_of, start}
use edge_gw_project.Gateway.Start.Sound.{start-IsSound}

module _ {G R P F : Type 0} (fl : Floats G) (tools : Toolkit) (r : Reals F) (ratios : Ratios R)
    (parse_bool : Text → Option Bool) (get : Text → Option ℕ) (wire : StreamWire G)
    (clean_path : Text → Text) (c : Codec) (builds : Text → Bool)
    (send : Request → P → Option ℕ × P) (Received : Text → P → Type 0)
    (receives : (q : Request) (p : P) (status : ℕ)
      → (send q p).0 ≡ some status
      → classify status ≡ none
      → Received q.body (send q p).1)
    (send-Received : (q : Request) (b : Text) (p : P) → Received b p → Received b (send q p).1)
    (b : Boot G R) (audited : is_audited (routing_of fl tools.to_lower b) ≡ true) where
  -- The server of the process that starts as `b` tells.
  abbrev pub serving :
      Incoming → Gateway (Surroundings P F) → (List Write × LogLine) × Gateway (Surroundings P F)
  serving =
      service r c tools.hmac_hex builds send Received receives send-Received
        (routing_of fl tools.to_lower b) audited fl tools wire
        (settings_of (config_of fl tools.to_lower b) b.secrets) (configure ratios b.limits)
        clean_path b.inbound_api_key

  abbrev pub Lives : System (Surroundings P F) → System (Surroundings P F) → Type 0
  Lives =
      Life (hooks r (routing_of fl tools.to_lower b)) (is_permanent_audited is_permanent_delivery)
        (spool_forward c tools.hmac_hex builds send (routing_of fl tools.to_lower b)) (reborn r)

  -- Let the platform have bytes once it has answered with success, and keep them. Let main start
  -- with an audit log and a spool, whatever the last process has left. After any steps of concurrent
  -- requests and of the forwarder and any restarts, let the server send 202 for a request. Then the
  -- request came to /process with the key, if one is configured, and the encoded signal of the valid
  -- event in the first mebibyte of its body, anonymized by the configuration, is safe: after any
  -- further such steps and restarts, which leave the signals' files and may leave temporary ones,
  -- whichever system calls and deliveries fail, as long as names stay fresh, it waits in the spool,
  -- or lies in `dead`, or its record stands in the audit log and bytes of its digest have arrived at
  -- the platform or in the sink.
  pub accounted_for_from_start :
      (left : Surroundings P F) (g : Gateway (Surroundings P F)) (counters : Counters)
      (q : Incoming) (jobs : List Job) {t u : System (Surroundings P F)}
      → start fl tools.to_lower r get ratios parse_bool b left ≡ inr (with_spool g)
      → Lives (record { spool = g.spool; in_flight = [] }) t
      → status_sent (serving q (record { spool = t.spool; counters = counters })).0.0 ≡ 202
      → Lives
          (record {
            spool = (serving q (record { spool = t.spool; counters = counters })).1.spool;
            in_flight = jobs;
          })
          u
      → (q.path ≡ codes "/process")
        × HasKey b.inbound_api_key q
        × ((raw : RawData G) × (fallback : Text) × (payload : Text) × (process_inbound_request fl
                tools
                (wire_at wire (limited body_limit q))
                (take body_limit q.body)
              ≡ some raw)
            × (wire.encode (
                  anonymize_signal fl tools
                    (settings_of (config_of fl tools.to_lower b) b.secrets)
                    raw
                    fallback)
                ≡ some payload)
            × IsSafe c
                (routing_of fl tools.to_lower b)
                Received
                (spool_name q.now (t.spool.seq + 1))
                payload
                u)
  accounted_for_from_start left g counters q jobs {t} {u} started before ok after =
      let s = routing_of fl tools.to_lower b in
      let (_, _, _, _, sound) =
        start-IsSound fl tools.to_lower r ratios parse_bool b c tools.hmac_hex builds send Received
          receives send-Received audited get left g started in
      let law =
        accounting r c tools.hmac_hex builds send Received receives send-Received s audited in
      let still =
        Life_keep (hooks r s) (is_permanent_audited is_permanent_delivery)
          (spool_forward c tools.hmac_hex builds send s) (reborn r) (IsSound c s Received)
          law.hooks_keep law.forward_keeps
          (reborn-IsSound r c tools.hmac_hex builds send Received receives send-Received s audited)
          before sound in
      served_is_accounted_for r c tools.hmac_hex builds send Received receives send-Received s
        audited fl tools wire (settings_of (config_of fl tools.to_lower b) b.secrets)
        (configure ratios b.limits) clean_path b.inbound_api_key q
        (record { spool = t.spool; counters = counters }) jobs still ok after
