-- ===== src/Gateway/Transaction.antt =====
-- The handler of /process (cmd/gateway/main.go, processTransaction) with the reading of a request
-- (internal/adapters/inbound.go, ProcessInboundRequest) and the counters that it moves.
pub mod Laws
pub mod World
pub mod Sync
use edge_gw_project.Prelude.{ℕ, ◌+◌, Bool, Option, none, some, [], Text, text_eq, if◌then◌else◌}
use edge_gw_project.Processor.Outside.{Floats, Toolkit}
use edge_gw_project.Processor.Signal.{
  RawData, AnonymizedSignal, Settings, anonymize_signal, needs_fallback_signal_id,
  missing_signal_id_sentinel,
}
use edge_gw_project.Processor.Validate.{ValidationError, validate}
use edge_gw_project.Spool.Queue.{Hook, Spool, EnqueueFaults, EnqueueError, spool_full, enqueue}

-- The counters of internal/adapters/metrics.go that the handler moves by RecordMetric, but for
-- processing_time_ms_total, the time that a request without a spool has taken.
pub record Counters : Type 0 where
  pub signals_processed : ℕ
  pub spool_rejects : ℕ
  pub signal_id_generation_failures : ℕ
  pub signal_id_missing_fallback : ℕ
  pub forward_failures : ℕ

-- Where signals go: into the spool, or to the destination at once.
pub record Gateway (W : Type 0) : Type 0 where
  pub spool : Spool W
  pub counters : Counters

-- The status of the response, with the signal_id of the body of an accepted one.
pub record Response : Type 0 where
  pub status : ℕ
  pub signal_id : Option Text

abbrev pub refuse : ℕ → Response
refuse status = record { status = status; signal_id = none }

-- Outside code: the JSON decoder and encoder.
pub record Wire (F : Type 0) : Type 0 where
  pub decode : Text → Option (RawData F)
  pub encode : AnonymizedSignal → Option Text

-- A request: its method and body; and what its run meets: the answer of genSignalID, the clock
-- and the system calls of Enqueue.
pub record Request : Type 0 where
  pub is_post : Bool
  pub body : Text
  pub fresh_id : Option Text
  pub now : ℕ
  pub faults : EnqueueFaults

module _ {F : Type 0} (fl : Floats F) (t : Toolkit) (wire : Wire F) where
  unfoldable pub accept_valid : Option ValidationError × RawData F → Option (RawData F)
  accept_valid (none, r) = some r
  accept_valid (some e, r) = none

  -- ProcessInboundRequest
  unfoldable pub process_inbound_request : Text → Option (RawData F)
  process_inbound_request body = elim (wire.decode body) [
    | none ↦ none
    | some r ↦ accept_valid (validate fl t r)
  ]

  -- The fallback: empty if the reference is there, none if its generation fails.
  unfoldable pub fallback_of : Option Text → RawData F → Option Text
  fallback_of fresh_id r = if needs_fallback_signal_id r.transaction_ref then fresh_id else some []

  -- The counter of the guard against the sentinel.
  unfoldable pub note_sentinel : AnonymizedSignal → Counters → Counters
  note_sentinel a c =
      if text_eq a.signal_id missing_signal_id_sentinel
      then record c { signal_id_missing_fallback = c.signal_id_missing_fallback + 1 }
      else c

  module _ {W : Type 0} (hooks : Hook → W → W) (s : Settings F) where
    unfoldable pub after_enqueue :
        Text → Counters → Option EnqueueError × Spool W → Response × Gateway W
    after_enqueue id c (none, sp) = (
      record { status = 202; signal_id = some id },
      record { spool = sp; counters = record c { signals_processed = c.signals_processed + 1 } },
    )
    after_enqueue id c (some spool_full, sp) = (
      refuse 503,
      record { spool = sp; counters = record c { spool_rejects = c.spool_rejects + 1 } },
    )
    after_enqueue id c (some e, sp) = (
      refuse 500,
      record { spool = sp; counters = record c { spool_rejects = c.spool_rejects + 1 } },
    )

    -- The spool's branch.
    unfoldable pub queue_signal : Request → AnonymizedSignal → Gateway W → Response × Gateway W
    queue_signal q a g = elim (wire.encode a) [
      | none ↦ (refuse 500, g)
      | some payload ↦
          after_enqueue a.signal_id g.counters (enqueue hooks q.faults q.now payload g.spool)
    ]

    unfoldable pub process_valid : Request → RawData F → Gateway W → Response × Gateway W
    process_valid q r g = elim (fallback_of q.fresh_id r) [
      | none ↦ (
        refuse 500,
        record g {
          counters = record g.counters {
            signal_id_generation_failures = g.counters.signal_id_generation_failures + 1;
          };
        },
      )
      | some fallback ↦
          let a = anonymize_signal fl t s r fallback in
          queue_signal q a (record g { counters = note_sentinel a g.counters })
    ]

    -- processTransaction with a spool.
    unfoldable pub process_transaction : Request → Gateway W → Response × Gateway W
    process_transaction q g =
        if q.is_post
        then elim (process_inbound_request q.body) [
          | none ↦ (refuse 400, g)
          | some r ↦ process_valid q r g
        ]
        else (refuse 405, g)

  module _ {D E : Type 0} (sync_forward : AnonymizedSignal → D → Option E × D)
      (s : Settings F) where
    unfoldable pub after_sync : Text → Counters → Option E × D → Response × (D × Counters)
    after_sync id c (none, d) = (
      record { status = 200; signal_id = some id },
      (d, record c { signals_processed = c.signals_processed + 1 }),
    )
    after_sync id c (some e, d) =
        (refuse 502, (d, record c { forward_failures = c.forward_failures + 1 }))

    unfoldable pub deliver_valid : Request → RawData F → D × Counters → Response × (D × Counters)
    deliver_valid q r (d, c) = elim (fallback_of q.fresh_id r) [
      | none ↦ (
        refuse 500,
        (d, record c { signal_id_generation_failures = c.signal_id_generation_failures + 1 }),
      )
      | some fallback ↦
          let a = anonymize_signal fl t s r fallback in
          after_sync a.signal_id (note_sentinel a c) (sync_forward a d)
    ]

    -- processTransaction without a spool.
    unfoldable pub process_transaction_sync : Request → D × Counters → Response × (D × Counters)
    process_transaction_sync q g =
        if q.is_post
        then elim (process_inbound_request q.body) [
          | none ↦ (refuse 400, g)
          | some r ↦ deliver_valid q r g
        ]
        else (refuse 405, g)
