-- ===== src/Gateway/Wiring/EndToEnd.antt =====
-- The gateway put together as main does it (cmd/gateway/main.go): the handler of /process, the
-- spool, the audit trail, and the destination of either mode.
use mathlib.Core.Path.{subst}
use edge_gw_project.Prelude.{
  ℕ, ◌+◌, ◌≡◌, sym, ap, ◌∙◌, ◌⊎◌, inl, inr, Bool, true, Option, none, some, List, Text,
}
use edge_gw_project.AuditLog.{Codec}
use edge_gw_project.Processor.Outside.{Floats, Toolkit}
use edge_gw_project.Processor.Signal.{RawData, Settings, anonymize_signal}
use edge_gw_project.Outbound.{Request, classify}
use edge_gw_project.Spool.Name.{spool_name}
use edge_gw_project.Spool.System.{Job, System}
use edge_gw_project.Spool.World.{Moves, Moves_keep}
use edge_gw_project.Spool.Commit.{spool_name_json}
use edge_gw_project.Spool.Kept.{Confirmation, Kept}
use edge_gw_project.Spool.Life.{Life, Life-Kept}
use edge_gw_project.Gateway.Audit.{not_delivered, is_permanent_audited}
use edge_gw_project.Gateway.Audit.Trail.{IsVouched}
use edge_gw_project.Gateway.Metrics.{Reals}
use edge_gw_project.Gateway.Transaction.{
  Gateway, Wire, Response, process_inbound_request, process_transaction,
}
use edge_gw_project.Gateway.Transaction.Laws.{accepted-IsQueued}
use edge_gw_project.Gateway.Transaction.World.{process_transaction_keeps}
use edge_gw_project.Gateway.Transaction
use edge_gw_project.Gateway.Wiring.{
  DeliveryError, Routing, Surroundings, is_audited, is_permanent_delivery, spool_forward, hooks,
  reborn,
}
use edge_gw_project.Gateway.Wiring.Arrival.{HasArrived}
use edge_gw_project.Gateway.Wiring.Accounting.{
  IsSound, IsAccountedFor, accounting, reborn-IsSound, reborn-IsAccountedFor, truthful,
  forwarded_as,
}

-- A signal is safe: it waits, it lies in `dead`, or it has its audit record and has arrived.
abbrev pub IsSafe :
    {P F : Type 0}
    → Codec
    → Routing
    → (Text → P → Type 0)
    → Text
    → Text
    → System (Surroundings P F)
    → Type 0
IsSafe c s Received name payload t = Kept (IsAccountedFor c s Received) name payload t.spool

module _ {P F : Type 0} (r : Reals F) (c : Codec) (hmac_hex : Text → Text → Text)
    (builds : Text → Bool) (send : Request → P → Option ℕ × P) (Received : Text → P → Type 0)
    (receives : (q : Request) (p : P) (status : ℕ)
      → (send q p).0 ≡ some status
      → classify status ≡ none
      → Received q.body (send q p).1)
    (send-Received : (q : Request) (b : Text) (p : P) → Received b p → Received b (send q p).1)
    (s : Routing) (audited : is_audited s ≡ true) where
  abbrev law : Confirmation (hooks r s) (spool_forward c hmac_hex builds send s)
  law = accounting r c hmac_hex builds send Received receives send-Received s audited

  -- Let the platform have bytes once it has answered with success, and keep them, and let there be
  -- an audit log. From a sound start (the open files of the log and of the sink are those of their
  -- noted days, and the guard holds no digest but of bytes that have arrived), after any calls of
  -- the spool's hooks and of its forward function: a further call either leaves the log as it was
  -- and answers that the destination has not accepted, or bytes of that payload's digest have
  -- arrived. No record is written for bytes that were not delivered.
  pub no_false_record :
      {w v : Surroundings P F}
      → Moves (hooks r s) (spool_forward c hmac_hex builds send s) w v
      → IsSound c s Received w
      → (payload : Text)
      → (((spool_forward c hmac_hex builds send s payload v).1.trail.logger ≡ v.trail.logger)
          × ((f : DeliveryError) × ((spool_forward c hmac_hex builds send s payload v).0
                ≡ some (not_delivered f))))
        ⊎ IsVouched c
            (HasArrived c.format_day Received s)
            (c.sha256_hex payload)
            (spool_forward c hmac_hex builds send s payload v).1.trail.dest
  no_false_record {w} {v} m k payload =
      let (a, t) =
        forwarded_as r c hmac_hex builds send Received receives send-Received s audited payload v in
      elim (truthful r c hmac_hex builds send Received receives send-Received s audited payload v
        (Moves_keep (IsSound c s Received) law.hooks_keep law.forward_keeps m k)).1 [
          | inl (same, (f, e)) ↦ inl (ap (λ u. u.logger) t ∙ same, (f, a ∙ e))
          | inr o ↦ inr (
              subst
                (λ u.
                  IsVouched c (HasArrived c.format_day Received s) (c.sha256_hex payload) u.dest)
                (sym t) o)
        ]

  module _ {G : Type 0} (fl : Floats G) (tools : Toolkit) (wire : Wire G)
      (settings : Settings G) where
    -- Let the platform have bytes once it has answered with success, and keep them, and let there
    -- be an audit log. If a request to a gateway that starts sound is answered with 202, then the
    -- encoded signal of a valid event is safe: after any further steps of concurrent requests and of
    -- the forwarder, and any restarts of the process that leave the signals' files and may leave
    -- temporary ones, whichever system calls and deliveries fail, as long as names stay fresh, it
    -- waits in the spool, or lies in `dead`, or its record stands in the audit log and bytes of its
    -- digest have arrived at the platform or in the sink.
    pub accepted_is_accounted_for :
        (q : Transaction.Request) (g : Gateway (Surroundings P F)) (jobs : List Job)
        {t : System (Surroundings P F)}
        → IsSound c s Received g.spool.world
        → (process_transaction fl tools wire (hooks r s) settings q g).0.status ≡ 202
        → Life
            (hooks r s)
            (is_permanent_audited is_permanent_delivery)
            (spool_forward c hmac_hex builds send s)
            (reborn r)
            (record {
              spool = (process_transaction fl tools wire (hooks r s) settings q g).1.spool;
              in_flight = jobs;
            })
            t
        → (raw : RawData G) × (fallback : Text) × (payload : Text) × (process_inbound_request fl
              tools wire q.body
            ≡ some raw)
          × (wire.encode (anonymize_signal fl tools settings raw fallback) ≡ some payload)
          × IsSafe c s Received (spool_name q.now (g.spool.seq + 1)) payload t
    accepted_is_accounted_for q g jobs k ok life =
        let (raw, fallback, payload, valid, encoded, _, found) =
          accepted-IsQueued fl tools wire (hooks r s) settings q g ok in
        let start =
          process_transaction_keeps fl tools wire (hooks r s)
            (is_permanent_audited is_permanent_delivery) (spool_forward c hmac_hex builds send s)
            settings (IsSound c s Received) law.hooks_keep law.forward_keeps q g k in
        let (_, safe) =
          Life-Kept (hooks r s) (is_permanent_audited is_permanent_delivery)
            (spool_forward c hmac_hex builds send s) (reborn r) law
            (reborn-IsSound r c hmac_hex builds send Received receives send-Received s audited)
            (reborn-IsAccountedFor r c hmac_hex builds send Received receives send-Received s
              audited)
            (spool_name q.now (g.spool.seq + 1)) payload (spool_name_json q.now (g.spool.seq + 1))
            life start (inl found) in
        (raw, fallback, payload, valid, encoded, safe)
