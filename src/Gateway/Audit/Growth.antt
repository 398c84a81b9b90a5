-- ===== src/Gateway/Audit/Growth.antt =====
-- What one delivery does to the audit log, the guard and the destination (cmd/gateway/audit.go).
use mathlib.Core.Path.{subst}
use mathlib.Core.List.{append_assoc, append-nil}
use edge_gw_project.Prelude.{
  ℕ, ◌≡◌, refl, sym, ap, ◌∙◌, ◌⊎◌, inl, inr, Option, none, some, [], ◌∷◌, ◌++◌, Text, Bool-cases,
  Option-cases,
}
use edge_gw_project.DayLog.{DayFaults}
use edge_gw_project.DayLog.Files.{bytes_of, bytes_in}
use edge_gw_project.DayLog.Laws.{IsHandled, append-IsHandled}
use edge_gw_project.DayLog.Growth.{Grows, Grows-refl, append-Grows}
use edge_gw_project.AuditLog.{
  Codec, Logger, SignalAuditFields, RecordError, audit_path, audit_record, record_entry,
}
use edge_gw_project.Gateway.Audit.{
  AuditWorld, matches, clear, write_audit_from_payload, account, after_delivery, auditing_forward,
  sync_account, sync_after_delivery, auditing_sync_forward,
}
use edge_gw_project.Gateway.Audit.Laws.{IsRecorded, write_audit_keeps, after_sent}

abbrev pub IsLogHandled : Logger → Type 0
IsLogHandled l = IsHandled (audit_path l.dir) l.log

-- A later state of a log: its settings are the same, its open file is that of the noted day, and
-- its files have only grown.
abbrev pub IsLater : Logger → Logger → Type 0
IsLater l m =
    (m.dir ≡ l.dir)
    × (m.store_payload ≡ l.store_payload)
    × IsHandled (audit_path l.dir) m.log
    × ((p : Text) → Grows p l.log m.log)

pub IsLater-refl : (l : Logger) → IsLogHandled l → IsLater l l
IsLater-refl l h = (refl, refl, h, λ p. Grows-refl p l.log)

pub IsLater-IsLogHandled : (l m : Logger) → IsLater l m → IsLogHandled m
IsLater-IsLogHandled l m (d, _, h, _) = subst (λ z. IsHandled (audit_path z) m.log) (sym d) h

-- A record of the payload stands in the log, on a line of its own end.
abbrev pub HasRecord : Codec → Text → Text → Logger → Type 0
HasRecord c destination payload l =
    (now : ℕ) × (fields : SignalAuditFields) × (line : Text) × (before : Text) × (more : Text)
    × (c.parse_fields payload ≡ some fields)
    × (c.encode (audit_record c l.store_payload destination fields payload now) ≡ some line)
    × (bytes_of (audit_path l.dir (c.format_day now)) l.log.files
        ≡ (before ++ (line ++ (b'\n' ∷ []))) ++ more)

pub HasRecord-IsLater :
    (c : Codec) (destination payload : Text) (l m : Logger)
    → IsLater l m
    → HasRecord c destination payload l
    → HasRecord c destination payload m
HasRecord-IsLater c destination payload l m (d, s, _, g)
      (now, fields, line, before, more, p, e, b) =
    let (extra, f) = g (audit_path l.dir (c.format_day now)) in
    (
      now,
      fields,
      line,
      before,
      more ++ extra,
      p,
      subst (λ z. c.encode (audit_record c z destination fields payload now) ≡ some line) (sym s) e,
      subst
          (λ z.
            bytes_of (audit_path z (c.format_day now)) m.log.files
            ≡ (before ++ (line ++ (b'\n' ∷ []))) ++ (more ++ extra))
          (sym d)
          (f ∙ ap (λ z. z ++ extra) b ∙ append_assoc (before ++ (line ++ (b'\n' ∷ []))) more extra),
    )

record_entry-IsLater :
    (c : Codec) (x : DayFaults) (destination : Text) (fields : SignalAuditFields) (payload : Text)
    (now : ℕ) (l : Logger)
    → IsLogHandled l
    → IsLater l (record_entry c x destination fields payload now l).1
unfolding record_entry
record_entry-IsLater c x destination fields payload now l h =
    elim (Option-cases (c.encode (audit_record c l.store_payload destination fields payload now))) [
      | inl e ↦ rw (e, record_entry) (IsLater-refl l h)
      | inr (line, e) ↦
          let day = c.format_day now in
          rw (e, record_entry)
            (
              refl,
              refl,
              append-IsHandled (audit_path l.dir) x day (line ++ (b'\n' ∷ [])) l.log h,
              λ p. append-Grows (audit_path l.dir) x day (line ++ (b'\n' ∷ [])) l.log p h,
            )
    ]

module _ {D E : Type 0} (c : Codec) (deliver : Text → D → Option E × D) (destination : Text) where
  pub write_audit-IsLater :
      (payload : Text) (w : AuditWorld D)
      → IsLogHandled w.logger
      → IsLater w.logger (write_audit_from_payload c deliver destination payload w).1.logger
  unfolding write_audit_from_payload
  write_audit-IsLater payload w h = elim (Option-cases (c.parse_fields payload)) [
    | inl e ↦ rw (e, write_audit_from_payload) (IsLater-refl w.logger h)
    | inr (fields, e) ↦
        rw (e, write_audit_from_payload)
          (record_entry-IsLater c w.weather.faults destination fields payload w.weather.now w.logger
            h)
  ]

  pub account_logger :
      (r : Option RecordError × AuditWorld D)
      → ((account c deliver destination r).1.logger ≡ r.1.logger)
        × ((account c deliver destination r).1.dest ≡ r.1.dest)
  unfolding account clear
  account_logger (none, w) = (refl, refl)
  account_logger (some e, w) = (refl, refl)

  pub account_digest :
      (r : Option RecordError × AuditWorld D)
      → ((account c deliver destination r).1.digest ≡ [])
        ⊎ ((account c deliver destination r).1.digest ≡ r.1.digest)
  unfolding account clear
  account_digest (none, w) = inl refl
  account_digest (some e, w) = inr refl

  -- The destination is reached at most once, with the bytes.
  pub auditing_forward-dest :
      (payload : Text) (w : AuditWorld D)
      → ((auditing_forward c deliver destination payload w).1.dest ≡ w.dest)
        ⊎ ((auditing_forward c deliver destination payload w).1.dest ≡ (deliver payload w.dest).1)
  unfolding auditing_forward after_delivery
  auditing_forward-dest payload w = elim (Bool-cases (matches w.digest (c.sha256_hex payload))) [
    | inl m ↦ rw m (inl (written payload w))
    | inr m ↦ elim (Option-cases (deliver payload w.dest).0) [
      | inl e ↦
          rw (m, e, after_delivery)
            (inr (written payload (after_sent c deliver destination payload w)))
      | inr (f, e) ↦ rw (m, e, after_delivery) (inr refl)
    ]
  ]
    where
      written :
          (p : Text) (u : AuditWorld D)
          → (account c deliver destination
              (write_audit_from_payload c deliver destination p u)).1.dest
            ≡ u.dest
      written p u =
          (account_logger (write_audit_from_payload c deliver destination p u)).1
          ∙ (write_audit_keeps c deliver destination p u).0

  pub IsRecorded-HasRecord :
      (payload : Text) (w : AuditWorld D)
      → IsLater w.logger (auditing_forward c deliver destination payload w).1.logger
      → IsRecorded c destination payload w.weather.now w.logger
          (auditing_forward c deliver destination payload w).1.logger
      → HasRecord c destination payload (auditing_forward c deliver destination payload w).1.logger
  IsRecorded-HasRecord payload w (d, s, _, _) (fields, line, g, p, e, found, bytes, _) =
      let l = (auditing_forward c deliver destination payload w).1.logger in
      let path = audit_path w.logger.dir (c.format_day w.weather.now) in
      (
        w.weather.now,
        fields,
        line,
        bytes_of path w.logger.log.files,
        [],
        p,
        subst
            (λ z. c.encode (audit_record c z destination fields payload w.weather.now) ≡ some line)
            (sym s) e,
        subst
            (λ z.
              bytes_of (audit_path z (c.format_day w.weather.now)) l.log.files
              ≡ (bytes_of path w.logger.log.files ++ (line ++ (b'\n' ∷ []))) ++ [])
            (sym d) (ap bytes_in found ∙ bytes ∙ sym (append-nil _)),
      )

  sync_account_dest :
      (r : Option RecordError × AuditWorld D)
      → (sync_account c deliver destination r).1.dest ≡ r.1.dest
  unfolding sync_account
  sync_account_dest (none, w) = refl
  sync_account_dest (some e, w) = refl

  -- auditingSyncForward reaches the destination exactly once.
  pub auditing_sync_forward-dest :
      (payload : Text) (w : AuditWorld D)
      → (auditing_sync_forward c deliver destination payload w).1.dest ≡ (deliver payload w.dest).1
  unfolding auditing_sync_forward sync_after_delivery
  auditing_sync_forward-dest payload w = elim (Option-cases (deliver payload w.dest).0) [
    | inl e ↦
        let sent = record w { dest = (deliver payload w.dest).1 } in
        rw (e, sync_after_delivery)
          (sync_account_dest (write_audit_from_payload c deliver destination payload sent)
            ∙ (write_audit_keeps c deliver destination payload sent).0)
    | inr (f, e) ↦ rw (e, sync_after_delivery) refl
  ]
