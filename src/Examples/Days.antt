-- ===== src/Examples/Days.antt =====
-- Day files, the local sink and the audit trail on small inputs (cmd/gateway/sink.go,
-- cmd/gateway/audit.go, internal/auditlog/auditlog.go).
use edge_gw_project.Prelude.{
  ne_of_text_eq, inr, ℕ, ◌≡◌, ◌≢◌, refl, inl, true, false, Option, none, some, List, [], ◌∷◌, ◌++◌,
  Text, codes, text_eq,
}
use edge_gw_project.DayLog.{
  DayFile, DayFaults, DayLog, dir_sync_failed, find_file, append, is_open_for, open_append_file,
  after_open, write_line, sync_file, set_file, link_all,
}
use edge_gw_project.DayLog.Retry.{retry_leaves_unlinked}
use edge_gw_project.AuditLog.{SignalAuditFields, Codec, day_failed, audit_path, record_entry}
use edge_gw_project.Gateway.Sink.{sink_path, sink_forward}
use edge_gw_project.Gateway.Sink.Laws.{deliver_all}
use edge_gw_project.DayLog.PowerLoss.{Fate, power_loss}
use edge_gw_project.Gateway.Sink.Survival.{delivered_survives}
use edge_gw_project.Gateway.Audit.{
  AuditWorld, not_recorded, auditing_forward, after_delivery, account, write_audit_from_payload,
  matches, clear,
}
use edge_gw_project.Gateway.Audit.{auditing_sync_forward, sync_after_delivery, sync_account}
use edge_gw_project.Gateway.Audit.Retry.{retry, retry_sends_nothing}

abbrev pub all_good : DayFaults
all_good = record {
  create_ok = true;
  append_ok = true;
  sync_dir_ok = true;
  write_ok = true;
  torn = [];
  sync_ok = true;
}

abbrev pub bad_dir : DayFaults
bad_dir = record all_good { sync_dir_ok = false }

abbrev pub bad_write : DayFaults
bad_write = record all_good { write_ok = false; torn = codes "{" }

abbrev pub nothing : DayLog
nothing = record { files = []; day = []; handle = none }

abbrev path : Text → Text
path day = codes "/s/" ++ day

abbrev day : Text
day = codes "2026-01-15"

-- The file of the day before is open.
abbrev yesterday : DayLog
yesterday = record { files = []; day = codes "y"; handle = some (codes "/y") }

other_day : codes "y" ≢ day
unfolding text_eq
other_day = ne_of_text_eq (codes "y") day refl

retry_leaves_unlinked_example :
    let first = append bad_dir (path day) day (codes "{}") yesterday in
    let second = append all_good (path day) day (codes "{}") first.1 in
    (first.0 ≡ some dir_sync_failed)
    × (second.0 ≡ none)
    × ((f : DayFile) × (find_file (path day) second.1.files ≡ some f)
        × (f.bytes ≡ codes "{}")
        × (f.linked ≡ false))
unfolding find_file
retry_leaves_unlinked_example =
    retry_leaves_unlinked bad_dir all_good (path day) day (codes "{}") yesterday (inr other_day)
      refl refl refl refl refl

-- One day for all readings of the clock.
abbrev same_day : ℕ → Text
same_day now = day

sunk : (sink_forward same_day (codes "/s") all_good 1 (codes "{}") nothing).0 ≡ none
unfolding sink_forward sink_path append is_open_for open_append_file after_open write_line sync_file
    set_file link_all find_file text_eq
sunk = refl

abbrev fields : SignalAuditFields
fields = record {
  signal_id = codes "s1";
  mosaic_version = 3;
  feature_version = 1;
  mosaic_scope = codes "bank";
  mosaic_basis = codes "national_id";
}

abbrev pub codec : Codec
codec = record {
  sha256_hex = λ p. b'h' ∷ p;
  encode = λ r. some r.payload_sha256;
  parse_fields = λ p. some fields;
  format_nano = λ n. day;
  format_day = λ n. day;
}

-- The destination keeps what it was sent.
abbrev keep : Text → List Text → Option ℕ × List Text
keep p d = (none, p ∷ d)

abbrev world_of : DayFaults → AuditWorld (List Text)
world_of x = record {
  dest = [];
  logger = record { dir = codes "/a"; store_payload = false; log = nothing };
  digest = [];
  failures = 2;
  write_failures = 2;
  weather = record { now = 1; faults = x };
  later = record { now = 2; faults = all_good } ∷ [];
}

missed :
    (auditing_forward codec keep (codes "sink") (codes "{}") (world_of bad_dir)).0
    ≡ some (not_recorded 3 (day_failed dir_sync_failed))
unfolding auditing_forward after_delivery account write_audit_from_payload matches clear
    record_entry audit_path append is_open_for open_append_file after_open write_line sync_file
    set_file link_all find_file text_eq
missed = refl

digest_there : codec.sha256_hex (codes "{}") ≢ []
digest_there e = cc e

retry_sends_nothing_example :
    (retry codec keep
      (codes "sink")
      5
      (codes "{}")
      (auditing_forward codec keep (codes "sink") (codes "{}") (world_of bad_dir)).1).dest
    ≡ (auditing_forward codec keep (codes "sink") (codes "{}") (world_of bad_dir)).1.dest
retry_sends_nothing_example =
    retry_sends_nothing codec keep (codes "sink") (codes "{}") (world_of bad_dir) 3
      (day_failed dir_sync_failed) 5 digest_there missed

noted_at_once :
    (auditing_sync_forward codec keep (codes "sink") (codes "{}") (world_of all_good)).0 ≡ none
unfolding auditing_sync_forward sync_after_delivery sync_account write_audit_from_payload matches
    clear record_entry audit_path append is_open_for open_append_file after_open write_line
    sync_file set_file link_all find_file text_eq
noted_at_once = refl

-- Nothing that is not durable remains.
abbrev worst : Fate
worst p = (false, 0)

delivered_survives_example :
    let p = sink_path (codes "/s") day in
    let later =
      deliver_all same_day
        (codes "/s")
        ((bad_write, 2, codes "{}") ∷ [])
        (sink_forward same_day (codes "/s") all_good 1 (codes "{}") nothing).1 in
    (f : DayFile) × (more : Text) × (find_file p (power_loss worst later.files) ≡ some f)
    × (f.bytes ≡ codes "{}\n" ++ more)
unfolding find_file
delivered_survives_example =
    delivered_survives same_day (codes "/s") all_good 1 (codes "{}") nothing
      ((bad_write, 2, codes "{}") ∷ []) worst (inl refl) (inl refl) sunk
