-- ===== src/Gateway/Wiring.antt =====
-- What main puts together (cmd/gateway/main.go): where deliveries go in each mode, with and without
-- the audit trail, and what the spool's hooks do. Times are in nanoseconds.
pub mod Arrival
pub mod Accounting
pub mod EndToEnd
pub mod Unrecorded
pub mod Sync
pub mod Service
use edge_gw_project.Prelude.{
  [], ℕ, ◌+◌, ◌-◌, ◌/◌, Bool, false, Option, none, some, List, Text, codes, ◌++◌, not, is_empty,
  text_eq, leb, ◌%◌, if◌then◌else◌,
}
use edge_gw_project.DayLog.{DayLog, DayError}
use edge_gw_project.AuditLog.{Codec}
use edge_gw_project.Outbound.{
  ForwardError, is_permanent, Vendor, Request, or_text, forward_payload, forward_with_retry,
}
use edge_gw_project.Processor.Signal.{AnonymizedSignal}
use edge_gw_project.Spool.Queue.{
  Hook, on_delivered, on_dead, on_failed, on_depth, on_oldest_pending_age, on_dir_fsync_failure,
}
use edge_gw_project.Gateway.Audit.{
  Weather, AuditWorld, AuditedError, not_delivered, clear, advance, auditing_forward,
  auditing_sync_forward,
}
use edge_gw_project.Gateway.Sink.{sink_forward}
use edge_gw_project.Gateway.Metrics.{
  int64_range, Reals, Metrics, fresh, record_metric, set_gauge, record_delivery,
}

-- The destinations: the vendor's platform, the local sink, and what the sink's next write meets.
pub record Places (P : Type 0) : Type 0 where
  pub platform : P
  pub sink : DayLog
  pub weather : Weather
  pub later : List Weather

pub data DeliveryError : Type 0 where
  by_vendor : ForwardError → DeliveryError
  by_sink : DayError → DeliveryError

-- adapters.IsPermanent of such an error: the sink has no permanent one.
unfoldable pub is_permanent_delivery : DeliveryError → Bool
is_permanent_delivery (by_vendor e) = is_permanent e
is_permanent_delivery (by_sink e) = false

-- An error of the delivery of a request without a spool.
pub data SyncError : Type 0 where
  signal_not_encoded : SyncError
  not_forwarded : AuditedError DeliveryError → SyncError

-- The settings that decide where signals go. The variables are as os.Getenv has them.
pub record Routing : Type 0 where
  pub mode : Text
  pub vendor : Vendor
  pub standalone_sink_dir : Text
  pub egress_audit_dir : Text

-- IsStandalone (internal/config/config.go)
abbrev pub is_standalone : Routing → Bool
is_standalone s = text_eq s.mode (codes "standalone")

-- Whether there is an egress audit log.
abbrev pub is_audited : Routing → Bool
is_audited s = not (is_empty s.egress_audit_dir)

unfoldable pub sink_dir : Routing → Text
sink_dir s = or_text s.standalone_sink_dir (codes "./sink")

-- The destination that the audit records name.
unfoldable pub destination : Routing → Text
unfolding sink_dir
destination s =
    if is_standalone s then codes "local-sink:" ++ sink_dir s else s.vendor.hub_endpoint_url

-- The world around the spool: the audit trail with the destinations, and the metrics.
pub record Surroundings (P F : Type 0) : Type 0 where
  pub trail : AuditWorld (Places P)
  pub metrics : Metrics F

module _ {P : Type 0} (c : Codec) (hmac_hex : Text → Text → Text) (builds : Text → Bool)
    (send : Request → P → Option ℕ × P) where
  unfoldable pub to_vendor : Option ForwardError × P → Places P → Option DeliveryError × Places P
  to_vendor (none, p) d = (none, record d { platform = p })
  to_vendor (some e, p) d = (some (by_vendor e), record d { platform = p })

  unfoldable pub to_sink : Option DayError × DayLog → Places P → Option DeliveryError × Places P
  to_sink (none, l) d = (none, record d { sink = l })
  to_sink (some e, l) d = (some (by_sink e), record d { sink = l })

  -- sink.Forward, at the next weather.
  unfoldable pub deliver_to_sink : Routing → Text → Places P → Option DeliveryError × Places P
  unfolding to_sink
  deliver_to_sink s payload d =
      let (next, later) = advance d.weather d.later in
      to_sink (sink_forward c.format_day (sink_dir s) d.weather.faults d.weather.now payload d.sink)
        (record d { weather = next; later = later })

  -- `deliver`, which the spool's forwarder calls.
  unfoldable pub deliver : Routing → Text → Places P → Option DeliveryError × Places P
  deliver s payload d =
      if is_standalone s
      then deliver_to_sink s payload d
      else to_vendor (forward_payload hmac_hex builds send s.vendor payload d.platform) d

  -- `syncDeliverBytes`, which a request without a spool calls. `is_cancelled` is the request's
  -- context.
  unfoldable pub sync_deliver :
      (ℕ → Bool) → Routing → Text → Places P → Option DeliveryError × Places P
  sync_deliver is_cancelled s payload d =
      let tried =
        forward_with_retry (forward_payload hmac_hex builds send s.vendor payload) is_cancelled 2
          d.platform in
      if is_standalone s
      then deliver_to_sink s payload d
      else to_vendor (tried.error, tried.state) d

  unfoldable pub unaudited :
      Option DeliveryError × Places P
      → AuditWorld (Places P)
      → Option (AuditedError DeliveryError) × AuditWorld (Places P)
  unaudited (none, d) w = (none, record w { dest = d })
  unaudited (some e, d) w = (some (not_delivered e), record w { dest = d })

  unfoldable pub around :
      {F : Type 0}
      → Option (AuditedError DeliveryError) × AuditWorld (Places P)
      → Surroundings P F
      → Option (AuditedError DeliveryError) × Surroundings P F
  around (a, t) w = (a, record w { trail = t })

  -- The spool's ForwardFunc: `deliver`, wrapped if there is an audit log.
  unfoldable pub spool_forward :
      {F : Type 0}
      → Routing
      → Text
      → Surroundings P F
      → Option (AuditedError DeliveryError) × Surroundings P F
  unfolding around
  spool_forward s payload w =
      if is_audited s
      then around (auditing_forward c (deliver s) (destination s) payload w.trail) w
      else around (unaudited (deliver s payload w.trail.dest) w.trail) w

  -- The delivery of a request without a spool.
  unfoldable pub sync_forward :
      {F : Type 0}
      → (ℕ → Bool)
      → Routing
      → Text
      → Surroundings P F
      → Option (AuditedError DeliveryError) × Surroundings P F
  unfolding around
  sync_forward is_cancelled s payload w =
      if is_audited s
      then around
          (auditing_sync_forward c (sync_deliver is_cancelled s) (destination s) payload w.trail) w
      else around (unaudited (sync_deliver is_cancelled s payload w.trail.dest) w.trail) w

  unfoldable pub as_sync :
      {F : Type 0}
      → Option (AuditedError DeliveryError) × Surroundings P F
      → Option SyncError × Surroundings P F
  as_sync (none, w) = (none, w)
  as_sync (some e, w) = (some (not_forwarded e), w)

  -- `syncForward`, which marshals the signal once.
  unfoldable pub sync_forward_signal :
      {F : Type 0}
      → (AnonymizedSignal → Option Text)
      → (ℕ → Bool)
      → Routing
      → AnonymizedSignal
      → Surroundings P F
      → Option SyncError × Surroundings P F
  unfolding as_sync
  sync_forward_signal encode is_cancelled s a w = elim (encode a) [
    | none ↦ (some signal_not_encoded, w)
    | some payload ↦ as_sync (sync_forward is_cancelled s payload w)
  ]

-- The time from an enqueue, 0 if it is not known. Where it lies ahead, RecordDelivery takes the
-- negative time as it takes 0.
unfoldable pub time_since : Option ℕ → ℕ → ℕ
time_since none now = 0
time_since (some t) now = now - t

-- `int64(ageSeconds)` of the head, 0 if nothing waits, as the 64 bits of an int64: it is negative if
-- the clock has been set back by a second or more.
unfoldable pub age_seconds : Option ℕ → ℕ → ℕ
age_seconds none now = 0
age_seconds (some t) now =
    if leb t now
    then (now - t) / 1000000000
    else (int64_range - (t - now) / 1000000000) % int64_range

module _ {P F : Type 0} (r : Reals F) where
  -- spool.Hooks as main fills them.
  unfoldable pub hooks : Routing → Hook → Surroundings P F → Surroundings P F
  hooks s (on_delivered t now) w = record w {
    metrics = record_delivery r (time_since t now) now w.metrics;
  }
  hooks s on_dead w = record w {
    trail = if is_audited s then clear w.trail else w.trail;
    metrics = record_metric r (codes "signals_dead_lettered") 1 w.metrics;
  }
  hooks s on_failed w = record w {
    metrics = record_metric r (codes "delivery_attempt_failures") 1 w.metrics;
  }
  hooks s (on_depth d) w = record w { metrics = set_gauge r (codes "spool_depth") d w.metrics }
  hooks s (on_oldest_pending_age t now) w = record w {
    metrics = set_gauge r (codes "spool_oldest_pending_age_seconds") (age_seconds t now) w.metrics;
  }
  hooks s on_dir_fsync_failure w = record w {
    metrics = record_metric r (codes "spool_dir_fsync_failures") 1 w.metrics;
  }

  -- What a new process makes of what the last one has left: the files and the destinations, no open
  -- file, and nothing else.
  unfoldable pub reborn : Surroundings P F → Surroundings P F
  reborn w = record {
    trail = record w.trail {
      dest = record w.trail.dest { sink = record w.trail.dest.sink { handle = none } };
      logger = record w.trail.logger { log = record w.trail.logger.log { handle = none } };
      digest = [];
      failures = 0;
      write_failures = 0;
    };
    metrics = fresh r;
  }
