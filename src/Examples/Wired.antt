-- ===== src/Examples/Wired.antt =====
-- The metrics and the gateway put together on small inputs (internal/adapters/metrics.go,
-- cmd/gateway/main.go).
use edge_gw_project.Prelude.{
  none, Bool, ℕ, ◌+◌, ◌*◌, ◌/◌, ◌≡◌, refl, ◌⊎◌, inl, inr, false, some, List, [], ◌∷◌, Text, codes,
  text_eq, Among,
}
use edge_gw_project.Prelude.{trim_space, trim_left, trim_right, is_space}
use edge_gw_project.Spool.World.{still, sent}
use edge_gw_project.Processor.Signal.{
  RawData, anonymize_signal, signal_id_of, needs_fallback_signal_id,
}
use edge_gw_project.Processor.Validate.{
  validate, check_fields, check_types, check_endpoint_type, check_location, canonical_in, is_listed,
  is_bad_ref, is_bad_time, is_bad_latitude, is_bad_longitude, matches_ref_pattern, is_ref_char,
}
use edge_gw_project.Gateway.Audit.{not_delivered}
use edge_gw_project.Gateway.Transaction.{
  Gateway, process_transaction, process_valid, process_inbound_request, accept_valid, fallback_of,
  queue_signal, after_enqueue,
}
use edge_gw_project.Gateway.Metrics.{Reals, fresh}
use edge_gw_project.Gateway.Wiring.{DeliveryError, Routing, Surroundings, spool_forward}
use edge_gw_project.Gateway.Wiring.Arrival.{HasArrived}
use edge_gw_project.Gateway.Wiring.Unrecorded.{IsUnrecorded, record_has_own_delivery}
use edge_gw_project.Gateway.Wiring.{deliver}
use edge_gw_project.Gateway.Wiring.Sync.{sync_accepted_is_accounted_for}
use edge_gw_project.Gateway.Wiring.{
  destination, sink_dir, sync_forward_signal, sync_forward, sync_deliver, deliver_to_sink, to_sink,
  around, as_sync,
}
use edge_gw_project.Gateway.Audit.Laws.{IsRecorded}
use edge_gw_project.Gateway.Audit.{
  auditing_sync_forward, sync_after_delivery, sync_account, write_audit_from_payload,
}
use edge_gw_project.AuditLog.{record_entry, audit_path}
use edge_gw_project.DayLog.{
  append, is_open_for, open_append_file, after_open, write_line, sync_file, set_file, link_all,
  find_file,
}
use edge_gw_project.Gateway.Sink.{sink_forward, sink_path}
use edge_gw_project.Gateway.Transaction
use edge_gw_project.Gateway.Transaction.{process_transaction_sync, deliver_valid, after_sync}
use edge_gw_project.Examples.Signals.{whole, tools, settings}
use edge_gw_project.Examples.Days.{codec, nothing, all_good, bad_write}
use edge_gw_project.Examples.Gates.{mac, accepts, answers, wire, gateway, post}

-- Whole numbers for floats.
abbrev pub reals : Reals ℕ
reals = record {
  of_int64 = λ n. n;
  plus = λ a b. a + b;
  times = λ a b. a * b / 5;
  over = λ a b. a / b;
  alpha = 1;
  one_minus_alpha = 4;
  zero_value = 0;
}

-- Three deliveries; the second has waited for less than a microsecond, the third for an unknown time.
abbrev three : List (ℕ × ℕ)
three = (2000000, 5) ∷ (10, 6) ∷ (0, 7) ∷ []

-- A standalone gateway with an audit log.
abbrev pub standalone : Routing
standalone = record {
  mode = codes "standalone";
  vendor = record {
    hub_endpoint_url = [];
    config_api_key = [];
    env_api_key = [];
    hmac_secret = [];
  };
  standalone_sink_dir = [];
  egress_audit_dir = codes "/a";
}

abbrev pub surroundings : Surroundings (List Text) ℕ
surroundings = record {
  trail = record {
    dest = record {
      platform = [];
      sink = nothing;
      weather = record { now = 1; faults = all_good };
      later = [];
    };
    logger = record { dir = codes "/a"; store_payload = false; log = nothing };
    digest = [];
    failures = 0;
    write_failures = 0;
    weather = record { now = 1; faults = bad_write };
    later = record { now = 2; faults = all_good } ∷ [];
  };
  metrics = fresh reals;
}

abbrev pub HasBody : Text → List Text → Type 0
HasBody b p = Among b p

-- The first delivery has been made and not recorded; then it is recorded without another.
abbrev pending : Surroundings (List Text) ℕ
pending = (spool_forward codec mac accepts answers standalone (codes "{}") surroundings).1

record_has_own_delivery_example :
    (((spool_forward codec mac accepts answers standalone (codes "{}") pending).1.trail.logger
        ≡ pending.trail.logger)
      × ((f : DeliveryError) × ((spool_forward codec mac accepts answers standalone
              (codes "{}")
              pending).0
            ≡ some (not_delivered f))))
    ⊎ (((deliver codec mac accepts answers standalone (codes "{}") pending.trail.dest).0 ≡ none)
        ⊎ IsUnrecorded reals codec mac accepts answers standalone refl
            (codec.sha256_hex (codes "{}"))
            {w = surroundings}
            {v = pending}
            (sent (codes "{}") still))
record_has_own_delivery_example =
    record_has_own_delivery reals codec mac accepts answers standalone refl
      (sent (codes "{}") still) refl (codes "{}")

-- No spool: the audit write succeeds at once.
abbrev at_once : Surroundings (List Text) ℕ
at_once = record surroundings {
  trail = record surroundings.trail { weather = record { now = 3; faults = all_good } };
}

abbrev never : ℕ → Bool
never i = false

abbrev sync_run : Transaction.Response × (Surroundings (List Text) ℕ × Transaction.Counters)
sync_run =
    process_transaction_sync whole tools wire
      (sync_forward_signal codec mac accepts answers wire.encode never standalone) settings post
      (at_once, gateway.counters)

answered_200 : sync_run.0.status ≡ 200
unfolding process_transaction_sync deliver_valid after_sync process_inbound_request accept_valid
    fallback_of validate check_fields check_types check_endpoint_type check_location canonical_in
    is_listed is_bad_ref is_bad_time is_bad_latitude is_bad_longitude matches_ref_pattern
    is_ref_char trim_space trim_left trim_right is_space text_eq needs_fallback_signal_id
    anonymize_signal signal_id_of sync_forward_signal sync_forward sync_deliver deliver_to_sink
    to_sink around as_sync auditing_sync_forward sync_after_delivery sync_account
    write_audit_from_payload record_entry audit_path append is_open_for open_append_file after_open
    write_line sync_file set_file link_all find_file sink_forward sink_path sink_dir
answered_200 = refl

sync_accepted_is_accounted_for_example :
    (raw : RawData ℕ) × (fallback : Text) × (payload : Text) × (process_inbound_request whole tools
        wire post.body
      ≡ some raw)
    × (wire.encode (anonymize_signal whole tools settings raw fallback) ≡ some payload)
    × IsRecorded codec
        (destination standalone)
        payload
        3
        at_once.trail.logger
        sync_run.1.0.trail.logger
    × HasArrived codec.format_day HasBody standalone payload sync_run.1.0.trail.dest
sync_accepted_is_accounted_for_example =
    sync_accepted_is_accounted_for codec mac accepts answers HasBody (λ q p status e f. inl refl)
      (λ q b p k. inr k) standalone never refl whole tools wire settings post at_once
      gateway.counters (inl refl) (inl refl) answered_200
