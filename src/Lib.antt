-- ===== src/Lib.antt =====
-- The edge gateway: a bank's transaction events are validated, anonymized, kept in a durable
-- spool and forwarded one way to a vendor or to a local file, with an audit record of each
-- delivery.
--
-- The parts and their files:
-- * Spool.antt, the durable queue of internal/spool/spool.go. Spool/Name: the file names that
--   Enqueue formats and parseSpoolTime reads. Spool/Dir: the directory and listPending.
--   Spool/Queue: the struct Spool, and New, Enqueue, forwardOldest, deadLetter and what they call;
--   `enqueue` is made of `reserve` (the first locked section), `commit` (the temporary file and the
--   rename) and `sync_directory` (the fsync of the directory). Spool/System: a step relation in
--   which requests between these sections and the one forwarder interleave. Spool/World: what its
--   steps do to the world outside. Spool/Kept, Spool/Commit, Spool/Durability, Spool/Within,
--   Spool/Counted, Spool/Capacity, Spool/Outcome: what the steps keep. Spool/Fifo: the queue of
--   names and payloads that a directory stands for, and what the answers tell it. Spool/Life: restarts of the
--   process between the steps. Spool/Run: the loop Run and its backoff. Spool/Drain: the loop while
--   the destination is up. Spool/Disk: Enqueue as its system calls, what a power loss may bring
--   back, and how this refines Spool/Queue.
-- * DayLog.antt, files of newline-delimited records for each UTC day: internal/dirsync/dirsync.go
--   and the part that cmd/gateway/sink.go and internal/auditlog/auditlog.go share.
--   DayLog/PowerLoss: what is durable, and what a power loss may leave; DayLog/Survival: what an
--   append makes durable.
-- * AuditLog.antt, the egress audit log of internal/auditlog/auditlog.go.
-- * Processor.antt, internal/processor/anonymizer.go: Normalize (NormalizeID, NormalizeName,
--   mosaicKeyMaterial), Feature (MapToTier, Geohash, BucketTimestamp), Signal (RawData,
--   AnonymizeSignal), Validate (RawData.Validate), FreshId (newSignalIDFrom), and what they promise
--   in Mosaic, Privacy, SignalId, Geohash, FreshId/Laws and Validate/Laws. Geohash/Decode is the
--   decoder of the geohash scheme, which the repository does not have.
-- * Outbound.antt, internal/adapters/outbound.go: ForwardPayload and forwardWithRetry.
-- * Gateway.antt, cmd/gateway. Audit: auditingForward and auditingSyncForward of audit.go. Sink:
--   localSink of sink.go. Startup: validateStartup of main.go, and in Startup/Keys what it and
--   AnonymizeSignal read of one configuration. Gate: RequireAPIKey of
--   internal/middleware/middleware.go. Transaction: processTransaction of main.go with
--   ProcessInboundRequest. Readiness: ReadinessCheckHandler of internal/adapters/inbound.go.
--   Limits: the thresholds and the limit of the spool from the environment, and what the check
--   is told of the spool. Server: the mux of main.go in the handlers of
--   internal/middleware/middleware.go. Start: main of main.go up to its server. Shutdown: its
--   goroutines and how they end. Healthcheck: the self-probe of main.go. Metrics:
--   internal/adapters/metrics.go. Wiring: what main of main.go chooses for its mode, the audit
--   trail and the spool's hooks, and a restart of it (`reborn`); Wiring/Arrival: what a delivery
--   leaves behind; Wiring/Unrecorded: which delivery a record is of; Wiring/EndToEnd: all of these
--   with a spool; Wiring/Sync: without one;
--   Wiring/Service: behind the server.
-- * Config.antt, Load of internal/config/config.go.
-- * Examples.antt, small inputs.
--
-- Conventions. A Go string is the list of its code points. A system call takes its outcome from a
-- record of Booleans (EnqueueFaults, ForwardFaults, DayFaults), so that a theorem about all of them
-- covers every failure. A destination and the hooks of the spool act on a world of any type.
-- Times are numbers of nanoseconds. Outside code is a parameter: float64, case mapping, time and
-- HMAC (Processor/Outside), SHA-256 and JSON (Codec of AuditLog, Wire of Gateway/Transaction), and
-- the platform that answers a request (Outbound).
--
-- Fuel. The loop of Geohash takes five bisections for each character; `forward_with_retry` counts
-- down the attempts that are allowed; `Spool.Run` runs over a finite list of rounds, any prefix of
-- the endless loop.
--
-- Not modelled: states of the spool within a round of the forwarder; the counters
-- signals_forwarded of a retried delivery and processing_time_ms_total; sockets, TLS and the
-- server's time limits in main; the text of log lines; the parsing of numbers and JSON; tests,
-- documents and deployment files.
pub mod Prelude
pub mod Spool
pub mod DayLog
pub mod AuditLog
pub mod Gateway
pub mod Processor
pub mod Outbound
pub mod Config
pub mod Examples
