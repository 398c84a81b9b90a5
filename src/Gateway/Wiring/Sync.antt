-- ===== src/Gateway/Wiring/Sync.antt =====
-- The gateway without a spool (cmd/gateway/main.go, syncForward): each request waits for its own
-- delivery.
use mathlib.Core.Path.{subst}
use edge_gw_project.Prelude.{
  ℕ, ◌≡◌, refl, sym, ap, ◌∙◌, inl, inr, Bool, true, Option, none, some, Text, Option-cases,
}
use edge_gw_project.AuditLog.{Codec}
use edge_gw_project.Processor.Outside.{Floats, Toolkit}
use edge_gw_project.Processor.Signal.{RawData, Settings, AnonymizedSignal, anonymize_signal}
use edge_gw_project.Outbound.{
  ForwardError, Tried, Request, classify, forward_payload, forward_with_retry,
}
use edge_gw_project.Outbound.Laws.{
  EndsWith, delivered, refused, exhausted, cancelled, forward_with_retry-IsRun,
}
use edge_gw_project.Gateway.Audit.{AuditWorld, AuditedError, auditing_sync_forward}
use edge_gw_project.Gateway.Audit.Laws.{IsRecorded, auditing_sync_forward-IsRecorded}
use edge_gw_project.Gateway.Audit.Growth.{IsLogHandled, auditing_sync_forward-dest}
use edge_gw_project.Gateway.Transaction.{
  Counters, Wire, process_inbound_request, process_transaction_sync,
}
use edge_gw_project.Gateway.Transaction.Sync.{sync_accepted-IsForwarded}
use edge_gw_project.Gateway.Transaction
use edge_gw_project.Gateway.Wiring.{
  Places, DeliveryError, Routing, Surroundings, is_standalone, is_audited, sink_dir, destination,
  deliver_to_sink, sync_deliver, sync_forward, sync_forward_signal, around, as_sync,
}
use edge_gw_project.Gateway.Wiring.Arrival.{
  HasArrived, IsReady, in_both, IsInSink, sunk, sunk-IsInSink, to_sink_lem, to_vendor_lem,
  forward_payload-Received,
}

module _ {S : Type 0} (attempt : S → Option ForwardError × S) (is_cancelled : ℕ → Bool) where
  -- A run that ends without an error ends with an attempt that succeeded.
  last_attempt :
      {max n : ℕ} {s u : S} {e : Option ForwardError}
      → EndsWith attempt is_cancelled max s e u n
      → e ≡ none
      → (v : S) × (attempt v ≡ (none, u))
  last_attempt (delivered {u = v} h f a) q = (v, a)
  last_attempt (refused h f a p) q = cc
  last_attempt (exhausted f) q = cc
  last_attempt (cancelled h f p) q = cc

module _ {P : Type 0} (c : Codec) (hmac_hex : Text → Text → Text) (builds : Text → Bool)
    (send : Request → P → Option ℕ × P) (Received : Text → P → Type 0)
    (receives : (q : Request) (p : P) (status : ℕ)
      → (send q p).0 ≡ some status
      → classify status ≡ none
      → Received q.body (send q p).1)
    (send-Received : (q : Request) (b : Text) (p : P) → Received b p → Received b (send q p).1)
    (s : Routing) (is_cancelled : ℕ → Bool) where
  sync_deliver-HasArrived :
      (payload : Text) (d : Places P)
      → IsReady s d
      → (sync_deliver c hmac_hex builds send is_cancelled s payload d).0 ≡ none
      → HasArrived c.format_day Received s payload
          (sync_deliver c hmac_hex builds send is_cancelled s payload d).1
  unfolding sync_deliver deliver_to_sink
  sync_deliver-HasArrived payload d h =
      in_both {A = Option DeliveryError × Places P}
        (λ a. (a.0 ≡ none → HasArrived c.format_day Received s payload a.1)) (is_standalone s)
        (λ ok.
          let (e, _, a) =
            to_sink_lem c hmac_hex builds send Received receives send-Received s
              (sunk c hmac_hex builds send Received receives send-Received s payload d) _ in
          inr (
            subst (IsInSink c.format_day (sink_dir s) payload) (sym e) (
              sunk-IsInSink c hmac_hex builds send Received receives send-Received s payload d h
                (a ok))))
        (λ ok.
          let (_, e, a) =
            to_vendor_lem c hmac_hex builds send Received receives send-Received s
              (tried.error, tried.state) d in
          inl (subst (Received payload) (sym e) (received (a ok))))
    where
      attempt : P → Option ForwardError × P
      attempt = forward_payload hmac_hex builds send s.vendor payload

      tried : Tried P
      tried = forward_with_retry attempt is_cancelled 2 d.platform

      received : tried.error ≡ none → Received payload tried.state
      received e =
          let (v, last) =
            last_attempt attempt is_cancelled
              (forward_with_retry-IsRun attempt is_cancelled 2 d.platform).0 e in
          subst (λ a. Received payload a.1) last
            (forward_payload-Received c hmac_hex builds send Received receives send-Received
              s.vendor payload v (subst (λ a. a.0 ≡ none) (sym last) refl))

  module _ {F : Type 0} (audited : is_audited s ≡ true) where
    abbrev passes :
        Text → Surroundings P F → Option (AuditedError DeliveryError) × AuditWorld (Places P)
    passes payload w =
        auditing_sync_forward c (sync_deliver c hmac_hex builds send is_cancelled s) (destination s)
          payload w.trail

    forwarded_as :
        (payload : Text) (w : Surroundings P F)
        → ((sync_forward c hmac_hex builds send is_cancelled s payload w).0 ≡ (passes payload w).0)
          × ((sync_forward c hmac_hex builds send is_cancelled s payload w).1.trail
              ≡ (passes payload w).1)
    unfolding sync_forward around
    forwarded_as payload w = rw audited (refl, refl)

    as_sync-none :
        (a : Option (AuditedError DeliveryError) × Surroundings P F)
        → (as_sync c hmac_hex builds send a).0 ≡ none
        → (a.0 ≡ none) × ((as_sync c hmac_hex builds send a).1 ≡ a.1)
    unfolding as_sync
    as_sync-none (none, w) h = (refl, refl)
    as_sync-none (some e, w) h = cc

    -- The delivery of one request: its encoded signal, and what a success leaves behind.
    signal_forwarded :
        (encode : AnonymizedSignal → Option Text) (a : AnonymizedSignal) (w : Surroundings P F)
        → IsLogHandled w.trail.logger
        → IsReady s w.trail.dest
        → (sync_forward_signal c hmac_hex builds send encode is_cancelled s a w).0 ≡ none
        → (payload : Text) × (encode a ≡ some payload)
          × IsRecorded c
              (destination s)
              payload
              w.trail.weather.now
              w.trail.logger
              (sync_forward_signal c hmac_hex builds send encode is_cancelled s a w).1.trail.logger
          × HasArrived c.format_day Received s payload
              (sync_forward_signal c hmac_hex builds send encode is_cancelled s a w).1.trail.dest
    unfolding sync_forward_signal
    signal_forwarded encode a w h ready ok = elim (Option-cases (encode a)) [
      | inl e ↦ cc (rw (e, sync_forward_signal) at ok)
      | inr (payload, e) ↦
          let (sent, same) = as_sync-none _ (rw (e, sync_forward_signal) at ok) in
          let (answer, trail) = forwarded_as payload w in
          let deliver = sync_deliver c hmac_hex builds send is_cancelled s in
          let (arrived, recorded, _) =
            auditing_sync_forward-IsRecorded c deliver (destination s) payload w.trail h
              (sym answer ∙ sent) in
          let after = ap (λ u. u.trail) same ∙ trail in
          rw (e, sync_forward_signal)
            (
              payload,
              refl,
              subst
                  (λ t.
                    IsRecorded c (destination s) payload w.trail.weather.now w.trail.logger
                      t.logger)
                  (sym after) recorded,
              subst (λ t. HasArrived c.format_day Received s payload t.dest) (sym after)
                  (subst (HasArrived c.format_day Received s payload)
                    (sym (auditing_sync_forward-dest c deliver (destination s) payload w.trail))
                    (sync_deliver-HasArrived payload w.trail.dest ready arrived)),
            )
    ]

    module _ {G : Type 0} (fl : Floats G) (tools : Toolkit) (wire : Wire G)
        (settings : Settings G) where
      -- Let the platform have bytes once it has answered with success, and keep them, and let
      -- there be an audit log; the open files of the log and of the sink are those of their noted
      -- days. If a request to a gateway without a spool is answered with 200, then the encoded signal of a valid event
      -- has arrived at the platform or in the sink, and its record ends the audit file of the
      -- day, all of whose bytes an fsync has covered (its directory entry need not be durable).
      pub sync_accepted_is_accounted_for :
          (q : Transaction.Request) (w : Surroundings P F) (counters : Counters)
          → IsLogHandled w.trail.logger
          → IsReady s w.trail.dest
          → (process_transaction_sync fl tools wire
              (sync_forward_signal c hmac_hex builds send wire.encode is_cancelled s)
              settings
              q
              (w, counters)).0.status
            ≡ 200
          → let after =
              (process_transaction_sync fl tools wire
                (sync_forward_signal c hmac_hex builds send wire.encode is_cancelled s)
                settings
                q
                (w, counters)).1.0 in
            (raw : RawData G) × (fallback : Text) × (payload : Text) × (process_inbound_request fl
                tools wire q.body
              ≡ some raw)
            × (wire.encode (anonymize_signal fl tools settings raw fallback) ≡ some payload)
            × IsRecorded c
                (destination s)
                payload
                w.trail.weather.now
                w.trail.logger
                after.trail.logger
            × HasArrived c.format_day Received s payload after.trail.dest
      sync_accepted_is_accounted_for q w counters h ready ok =
          let forward = sync_forward_signal c hmac_hex builds send wire.encode is_cancelled s in
          let (raw, fallback, valid, sent, same) =
            sync_accepted-IsForwarded fl tools wire forward settings q (w, counters) ok in
          let a = anonymize_signal fl tools settings raw fallback in
          let (payload, encoded, recorded, arrived) =
            signal_forwarded wire.encode a w h ready sent in
          (
            raw,
            fallback,
            payload,
            valid,
            encoded,
            subst
                (λ u.
                  IsRecorded c (destination s) payload w.trail.weather.now w.trail.logger
                    u.trail.logger)
                (sym same) recorded,
            subst (λ u. HasArrived c.format_day Received s payload u.trail.dest) (sym same) arrived,
          )
