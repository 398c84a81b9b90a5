-- ===== src/Gateway/Audit.antt =====
-- The audit trail around delivery (cmd/gateway/audit.go): auditHealth, redeliveryGuard,
-- auditingForward and auditingSyncForward.
pub mod Laws
pub mod Retry
pub mod Growth
pub mod Trail
use edge_gw_project.Prelude.{ℕ, ◌+◌, Bool, false, not, ◌&&◌, Option, none, some, List}
use edge_gw_project.Prelude.{[], ◌∷◌, Text, text_eq, is_empty, if◌then◌else◌}
use edge_gw_project.DayLog.{DayFaults}
use edge_gw_project.AuditLog.{Codec, Logger, RecordError, parse_failed, record_entry}

-- The clock and the outcomes of the system calls that the next audit write meets.
pub record Weather : Type 0 where
  pub now : ℕ
  pub faults : DayFaults

-- The destination's state, the log, the guard's digest (empty if nothing is pending), the
-- consecutive failures, the counter audit_write_failures, and the weather to come.
pub record AuditWorld (D : Type 0) : Type 0 where
  pub dest : D
  pub logger : Logger
  pub digest : Text
  pub failures : ℕ
  pub write_failures : ℕ
  pub weather : Weather
  pub later : List Weather

-- An error of a wrapped delivery. An audit failure carries the consecutive failures.
pub data AuditedError (E : Type 0) : Type 0 where
  not_delivered : E → AuditedError E
  not_recorded : ℕ → RecordError → AuditedError E

-- An audit failure wraps no permanent error.
unfoldable pub is_permanent_audited : {E : Type 0} → (E → Bool) → AuditedError E → Bool
is_permanent_audited p (not_delivered e) = p e
is_permanent_audited p (not_recorded n e) = false

-- redeliveryGuard.matches
unfoldable pub matches : Text → Text → Bool
matches held digest = not (is_empty held) && text_eq held digest

-- redeliveryGuard.clear, which the hook OnDead calls too.
unfoldable pub clear : {D : Type 0} → AuditWorld D → AuditWorld D
clear w = record w { digest = [] }

abbrev pub advance : Weather → List Weather → Weather × List Weather
advance now [] = (now, [])
advance now (x ∷ later) = (x, later)

module _ {D E : Type 0} (c : Codec) (deliver : Text → D → Option E × D) (destination : Text) where
  -- writeAuditFromPayload
  unfoldable pub write_audit_from_payload : Text → AuditWorld D → Option RecordError × AuditWorld D
  write_audit_from_payload payload w = elim (c.parse_fields payload) [
    | none ↦ (some parse_failed, w)
    | some fields ↦
        let (next, later) = advance w.weather w.later in
        let (answer, logger) =
          record_entry c w.weather.faults destination fields payload w.weather.now w.logger in
        (answer, record w { logger = logger; weather = next; later = later })
  ]

  -- The end of auditingForward, given the answer of the audit write.
  unfoldable pub account :
      Option RecordError × AuditWorld D → Option (AuditedError E) × AuditWorld D
  unfolding clear
  account (some e, w) = (
    some (not_recorded (w.failures + 1) e),
    record w { failures = w.failures + 1; write_failures = w.write_failures + 1 },
  )
  account (none, w) = (none, record (clear w) { failures = 0 })

  unfoldable pub after_delivery :
      Text → Option E × D → AuditWorld D → Option (AuditedError E) × AuditWorld D
  after_delivery payload (some e, d) w = (some (not_delivered e), record w { dest = d })
  after_delivery payload (none, d) w =
      account
        (write_audit_from_payload payload (record w { dest = d; digest = c.sha256_hex payload }))

  -- auditingForward
  unfoldable pub auditing_forward : Text → AuditWorld D → Option (AuditedError E) × AuditWorld D
  auditing_forward payload w =
      if matches w.digest (c.sha256_hex payload)
      then account (write_audit_from_payload payload w)
      else after_delivery payload (deliver payload w.dest) w

  -- The end of auditingSyncForward: no guard.
  unfoldable pub sync_account :
      Option RecordError × AuditWorld D → Option (AuditedError E) × AuditWorld D
  sync_account (some e, w) = (
    some (not_recorded (w.failures + 1) e),
    record w { failures = w.failures + 1; write_failures = w.write_failures + 1 },
  )
  sync_account (none, w) = (none, record w { failures = 0 })

  unfoldable pub sync_after_delivery :
      Text → Option E × D → AuditWorld D → Option (AuditedError E) × AuditWorld D
  sync_after_delivery payload (some e, d) w = (some (not_delivered e), record w { dest = d })
  sync_after_delivery payload (none, d) w =
      sync_account (write_audit_from_payload payload (record w { dest = d }))

  -- auditingSyncForward
  unfoldable pub auditing_sync_forward :
      Text → AuditWorld D → Option (AuditedError E) × AuditWorld D
  auditing_sync_forward payload w = sync_after_delivery payload (deliver payload w.dest) w
