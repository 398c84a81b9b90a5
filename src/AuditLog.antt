-- ===== src/AuditLog.antt =====
-- The egress audit log (internal/auditlog/auditlog.go) over the day files of DayLog.antt.
-- SHA-256, the JSON encoder and the formats of time are parameters.
use edge_gw_project.Prelude.{ℕ, Bool, false, Option, none, some, [], ◌∷◌, ◌++◌}
use edge_gw_project.Prelude.{Text, codes, length, if◌then◌else◌}
use edge_gw_project.DayLog.{DayLog, DayFaults, DayError, append, close}

-- The struct Record; `payload` is there only if it is stored.
pub record AuditRecord : Type 0 where
  pub timestamp : Text
  pub destination : Text
  pub signal_id : Text
  pub mosaic_version : ℕ
  pub feature_version : ℕ
  pub mosaic_scope : Text
  pub mosaic_basis : Text
  pub payload_sha256 : Text
  pub payload_bytes : ℕ
  pub payload : Option Text

-- What the record copies from the delivered signal (signalAuditFields of cmd/gateway/audit.go).
pub record SignalAuditFields : Type 0 where
  pub signal_id : Text
  pub mosaic_version : ℕ
  pub feature_version : ℕ
  pub mosaic_scope : Text
  pub mosaic_basis : Text

-- The standard library, as far as the log uses it. Times are in nanoseconds.
pub record Codec : Type 0 where
  pub sha256_hex : Text → Text
  pub encode : AuditRecord → Option Text
  pub parse_fields : Text → Option SignalAuditFields
  pub format_nano : ℕ → Text
  pub format_day : ℕ → Text

pub data RecordError : Type 0 where
  encode_failed : RecordError
  parse_failed : RecordError
  day_failed : DayError → RecordError

pub record Logger : Type 0 where
  pub dir : Text
  pub store_payload : Bool
  pub log : DayLog

-- `filepath.Join(l.dir, "audit-"+day+".ndjson")`
unfoldable pub audit_path : Text → Text → Text
audit_path dir day = dir ++ (codes "/audit-" ++ (day ++ codes ".ndjson"))

-- The outcomes of the system calls on the probe file.
pub record ProbeFaults : Type 0 where
  pub create_ok : Bool
  pub write_ok : Bool
  pub sync_ok : Bool
  pub close_ok : Bool

-- probeWritable: whether it returns no error.
unfoldable pub probe_writable : ProbeFaults → Bool
probe_writable x =
    if x.create_ok
    then if x.write_ok then if x.sync_ok then x.close_ok else false else false
    else false

-- New, given whether the directory can be made.
unfoldable pub new_logger : Bool → ProbeFaults → Text → Bool → DayLog → Option Logger
unfolding probe_writable
new_logger mkdir_ok probe dir store_payload log =
    if mkdir_ok
    then if probe_writable probe
      then some
          (record { dir = dir; store_payload = store_payload; log = record log { handle = none } })
      else none
    else none

-- Close: whether the file closes without an error, and the logger.
unfoldable pub close_logger : Bool → Logger → Bool × Logger
close_logger close_ok l =
    let (answer, log) = close close_ok l.log in (answer, record l { log = log })

module _ (c : Codec) where
  unfoldable pub audit_record : Bool → Text → SignalAuditFields → Text → ℕ → AuditRecord
  audit_record store_payload destination fields payload now = record {
    timestamp = c.format_nano now;
    destination = destination;
    signal_id = fields.signal_id;
    mosaic_version = fields.mosaic_version;
    feature_version = fields.feature_version;
    mosaic_scope = fields.mosaic_scope;
    mosaic_basis = fields.mosaic_basis;
    payload_sha256 = c.sha256_hex payload;
    payload_bytes = length payload;
    payload = if store_payload then some payload else none;
  }

  abbrev pub day_answer : Option DayError → Option RecordError
  day_answer none = none
  day_answer (some e) = some (day_failed e)

  -- Logger.Record
  unfoldable pub record_entry :
      DayFaults → Text → SignalAuditFields → Text → ℕ → Logger → Option RecordError × Logger
  record_entry x destination fields payload now l =
      elim (c.encode (audit_record l.store_payload destination fields payload now)) [
        | none ↦ (some encode_failed, l)
        | some line ↦
            let day = c.format_day now in
            let (answer, log) = append x (audit_path l.dir day) day (line ++ (b'\n' ∷ [])) l.log in
            (day_answer answer, record l { log = log })
      ]
