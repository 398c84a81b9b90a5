-- ===== src/Gateway/Audit/Laws.antt =====
-- What the audited deliveries promise (cmd/gateway/audit.go).
use mathlib.Core.Path.{subst}
use edge_gw_project.Prelude.{ℕ, ◌≡◌, refl, sym, inl}
use edge_gw_project.Prelude.{inr, Option, none, some, [], ◌∷◌, ◌++◌, arith, Text, length}
use edge_gw_project.Prelude.{Bool-cases, Option-cases}
use edge_gw_project.DayLog.{DayFile, DayFaults, DayError, find_file}
use edge_gw_project.DayLog.Files.{bytes_of}
use edge_gw_project.DayLog.Laws.{IsHandled, append_recorded}
use edge_gw_project.AuditLog.{
  Codec, Logger, SignalAuditFields, RecordError, audit_path, audit_record, record_entry, day_answer,
}
use edge_gw_project.Gateway.Audit.{
  AuditWorld, matches, clear, write_audit_from_payload, account, after_delivery, auditing_forward,
  sync_account, sync_after_delivery, auditing_sync_forward,
}

-- The record of a payload, as a line at the end of its day's file, all of whose bytes an fsync has
-- covered.
abbrev pub IsRecorded : Codec → Text → Text → ℕ → Logger → Logger → Type 0
IsRecorded c destination payload now before after =
    (fields : SignalAuditFields) × (line : Text) × (g : DayFile) × (c.parse_fields payload
      ≡ some fields)
    × (c.encode (audit_record c before.store_payload destination fields payload now) ≡ some line)
    × (find_file (audit_path before.dir (c.format_day now)) after.log.files ≡ some g)
    × (g.bytes
        ≡ bytes_of (audit_path before.dir (c.format_day now)) before.log.files
          ++ (line ++ (b'\n' ∷ [])))
    × (g.synced ≡ length g.bytes)

record_entry_recorded :
    (c : Codec) (x : DayFaults) (destination : Text) (fields : SignalAuditFields) (payload : Text)
    (now : ℕ) (l : Logger)
    → IsHandled (audit_path l.dir) l.log
    → (record_entry c x destination fields payload now l).0 ≡ none
    → (line : Text) × (g : DayFile) × (c.encode
          (audit_record c l.store_payload destination fields payload now)
        ≡ some line)
      × (find_file
            (audit_path l.dir (c.format_day now))
            (record_entry c x destination fields payload now l).1.log.files
          ≡ some g)
      × (g.bytes
          ≡ bytes_of (audit_path l.dir (c.format_day now)) l.log.files ++ (line ++ (b'\n' ∷ [])))
      × (g.synced ≡ length g.bytes)
unfolding record_entry
record_entry_recorded c x destination fields payload now l h ok =
    elim (Option-cases (c.encode (audit_record c l.store_payload destination fields payload now))) [
      | inl e ↦ cc (rw (e, record_entry) at ok)
      | inr (line, e) ↦
          let day = c.format_day now in
          let (g, found, ends, durable) =
            append_recorded (audit_path l.dir) x day (line ++ (b'\n' ∷ [])) l.log h
              (no_day_error _ (rw (e, record_entry) at ok)) in
          rw (e, record_entry) (line, g, refl, found, ends, durable)
    ]
  where
    no_day_error : (o : Option DayError) → day_answer c o ≡ none → o ≡ none
    no_day_error none e = refl
    no_day_error (some d) e = cc

module _ {D E : Type 0} (c : Codec) (deliver : Text → D → Option E × D) (destination : Text) where
  pub write_audit_keeps :
      (payload : Text) (w : AuditWorld D)
      → ((write_audit_from_payload c deliver destination payload w).1.dest ≡ w.dest)
        × ((write_audit_from_payload c deliver destination payload w).1.digest ≡ w.digest)
  unfolding write_audit_from_payload
  write_audit_keeps payload w = ground arith

  write_audit-IsRecorded :
      (payload : Text) (w : AuditWorld D)
      → IsHandled (audit_path w.logger.dir) w.logger.log
      → (write_audit_from_payload c deliver destination payload w).0 ≡ none
      → IsRecorded c destination payload w.weather.now w.logger
          (write_audit_from_payload c deliver destination payload w).1.logger
  unfolding write_audit_from_payload
  write_audit-IsRecorded payload w h ok = elim (Option-cases (c.parse_fields payload)) [
    | inl e ↦ cc (rw (e, write_audit_from_payload) at ok)
    | inr (fields, e) ↦
        let (line, g, f, found, ends, durable) =
          record_entry_recorded c w.weather.faults destination fields payload w.weather.now w.logger
            h (rw (e, write_audit_from_payload) at ok) in
        rw (e, write_audit_from_payload) (fields, line, g, refl, f, found, ends, durable)
  ]

  -- The world once the bytes are delivered and marked.
  abbrev pub after_sent : Text → AuditWorld D → AuditWorld D
  after_sent payload w = record w {
    dest = (deliver payload w.dest).1;
    digest = c.sha256_hex payload;
  }

  account-none :
      (o : Option RecordError) (u : AuditWorld D)
      → (account c deliver destination (o, u)).0 ≡ none
      → (o ≡ none)
        × ((account c deliver destination (o, u)).1.logger ≡ u.logger)
        × ((account c deliver destination (o, u)).1.digest ≡ [])
        × ((account c deliver destination (o, u)).1.failures ≡ 0)
  unfolding account clear
  account-none none u h = (refl, refl, refl, refl)
  account-none (some e) u h = cc

  accounted :
      (payload : Text) (w : AuditWorld D)
      → IsHandled (audit_path w.logger.dir) w.logger.log
      → (account c deliver destination (write_audit_from_payload c deliver destination payload w)).0
        ≡ none
      → IsRecorded c destination payload w.weather.now w.logger
          (account c deliver destination
            (write_audit_from_payload c deliver destination payload w)).1.logger
        × ((account c deliver destination
              (write_audit_from_payload c deliver destination payload w)).1.digest
            ≡ [])
        × ((account c deliver destination
              (write_audit_from_payload c deliver destination payload w)).1.failures
            ≡ 0)
  accounted payload w h ok =
      let written = write_audit_from_payload c deliver destination payload w in
      let (none_left, same, empty, zero_left) = account-none written.0 written.1 ok in
      (
        subst (IsRecorded c destination payload w.weather.now w.logger) (sym same)
            (write_audit-IsRecorded payload w h none_left),
        empty,
        zero_left,
      )

  pub auditing_forward-IsRecorded :
      (payload : Text) (w : AuditWorld D)
      → IsHandled (audit_path w.logger.dir) w.logger.log
      → (auditing_forward c deliver destination payload w).0 ≡ none
      → IsRecorded c destination payload w.weather.now w.logger
          (auditing_forward c deliver destination payload w).1.logger
        × ((auditing_forward c deliver destination payload w).1.digest ≡ [])
        × ((auditing_forward c deliver destination payload w).1.failures ≡ 0)
  unfolding auditing_forward after_delivery
  auditing_forward-IsRecorded payload w h ok =
      elim (Bool-cases (matches w.digest (c.sha256_hex payload))) [
        | inl m ↦ rw m (accounted payload w h (rw m at ok))
        | inr m ↦ elim (Option-cases (deliver payload w.dest).0) [
          | inl e ↦
              rw (m, e, after_delivery)
                (accounted payload (after_sent payload w) h (rw (m, e, after_delivery) at ok))
          | inr (f, e) ↦ cc (rw (m, e, after_delivery) at ok)
        ]
      ]

  sync_account-none :
      (o : Option RecordError) (u : AuditWorld D)
      → (sync_account c deliver destination (o, u)).0 ≡ none
      → (o ≡ none)
        × ((sync_account c deliver destination (o, u)).1.logger ≡ u.logger)
        × ((sync_account c deliver destination (o, u)).1.failures ≡ 0)
  unfolding sync_account
  sync_account-none none u h = (refl, refl, refl)
  sync_account-none (some e) u h = cc

  sync_accounted :
      (payload : Text) (w : AuditWorld D)
      → IsHandled (audit_path w.logger.dir) w.logger.log
      → (sync_account c deliver destination
          (write_audit_from_payload c deliver destination payload w)).0
        ≡ none
      → IsRecorded c destination payload w.weather.now w.logger
          (sync_account c deliver destination
            (write_audit_from_payload c deliver destination payload w)).1.logger
        × ((sync_account c deliver destination
              (write_audit_from_payload c deliver destination payload w)).1.failures
            ≡ 0)
  sync_accounted payload w h ok =
      let written = write_audit_from_payload c deliver destination payload w in
      let (none_left, same, zero_left) = sync_account-none written.0 written.1 ok in
      (
        subst (IsRecorded c destination payload w.weather.now w.logger) (sym same)
            (write_audit-IsRecorded payload w h none_left),
        zero_left,
      )

  -- If auditingSyncForward reports success, then the delivery of these bytes has succeeded, a
  -- record with their digest stands at the end of the file of the day, all of whose bytes an fsync
  -- has covered, and the count of consecutive failures is 0. The log's open file is that of the noted day.
  pub auditing_sync_forward-IsRecorded :
      (payload : Text) (w : AuditWorld D)
      → IsHandled (audit_path w.logger.dir) w.logger.log
      → (auditing_sync_forward c deliver destination payload w).0 ≡ none
      → ((deliver payload w.dest).0 ≡ none)
        × IsRecorded c destination payload w.weather.now w.logger
            (auditing_sync_forward c deliver destination payload w).1.logger
        × ((auditing_sync_forward c deliver destination payload w).1.failures ≡ 0)
  unfolding auditing_sync_forward sync_after_delivery
  auditing_sync_forward-IsRecorded payload w h ok = elim (Option-cases (deliver payload w.dest).0) [
    | inl e ↦
        let delivered = record w { dest = (deliver payload w.dest).1 } in
        rw (e, sync_after_delivery)
          (let (recorded, zero_left) =
              sync_accounted payload delivered h (rw (e, sync_after_delivery) at ok) in
            (refl, recorded, zero_left))
    | inr (f, e) ↦ cc (rw (e, sync_after_delivery) at ok)
  ]
