-- ===== src/Examples/Serving.antt =====
-- The server on small requests (cmd/gateway/main.go, internal/middleware/middleware.go).
use edge_gw_project.Prelude.{
  ℕ, zero, suc, ◌+◌, ◌≡◌, refl, ap, ◌⊎◌, true, false, Option, none, some, [], ◌∷◌, ◌++◌, Text,
  codes, text_eq, trim_prefix, cut_prefix, trim_space, trim_left, trim_right, is_space, take,
  length,
}
use edge_gw_project.Spool.Queue.{
  Hook, enqueue, reserve, after_reserve, commit, after_commit, sync_directory, write_temp_file,
}
use edge_gw_project.Processor.Signal.{
  RawData, needs_fallback_signal_id, anonymize_signal, signal_id_of, AnonymizedSignal,
}
use edge_gw_project.Processor.Validate.{
  validate, check_fields, check_types, check_endpoint_type, check_location, canonical_in, is_listed,
  is_bad_ref, is_bad_time, is_bad_latitude, is_bad_longitude, matches_ref_pattern, is_ref_char,
}
use edge_gw_project.Gateway.Gate.{is_let_through, presented_key}
use edge_gw_project.Gateway.Transaction.{
  process_transaction, process_valid, process_inbound_request, accept_valid, fallback_of,
  queue_signal, after_enqueue,
}
use edge_gw_project.Gateway.Server.{
  Incoming, StreamWire, wire_at, status_sent, body_limit, limited, serve_queueing, serve,
  serve_at_once, request_logger, max_body_size, mux, require_api_key, process_queueing,
}
use edge_gw_project.Gateway.Server.Served.{HasKey}
use edge_gw_project.Gateway.Server.Laws.{served, stranger_changes_nothing}
use edge_gw_project.Gateway.Server.Reading.{reads_at_most_limit}
use edge_gw_project.Gateway.Server.Logged.{logged_status_is_sent}
use edge_gw_project.Examples.Signals.{whole, tools, settings, event}
use edge_gw_project.Examples.Gates.{gateway, thresholds}

abbrev no_hooks : Hook → ℕ → ℕ
no_hooks h w = w

-- The decoder is content with any body that is not cut.
abbrev pub stream : StreamWire ℕ
stream = record {
  decode = λ is_cut body. elim is_cut [ true ↦ none | false ↦ some event ];
  encode = λ a. some a.signal_id;
}

abbrev pub clean : Text → Text
clean path = path

abbrev pub key : Text
key = codes "k"

abbrev pub incoming : Incoming
incoming = record {
  path = codes "/process";
  is_post = true;
  authorization = codes "Bearer k";
  gateway_key = [];
  body = codes "{}";
  is_cut = false;
  fresh_id = none;
  now = 7;
  faults = record {
    open_ok = true;
    write_ok = true;
    sync_file_ok = true;
    close_ok = true;
    rename_ok = true;
    sync_dir_ok = true;
  };
}

abbrev no_audit : ℕ → Option ℕ
no_audit w = none

accepted :
    status_sent
      (served whole tools stream settings thresholds clean key no_hooks no_audit incoming
        gateway).0.0
    ≡ 202
unfolding status_sent serve_queueing serve request_logger max_body_size limited mux require_api_key
    process_queueing is_let_through presented_key trim_prefix cut_prefix process_transaction
    process_valid process_inbound_request accept_valid fallback_of queue_signal after_enqueue
    validate check_fields check_types check_endpoint_type check_location canonical_in is_listed
    is_bad_ref is_bad_time is_bad_latitude is_bad_longitude matches_ref_pattern is_ref_char
    trim_space trim_left trim_right is_space text_eq needs_fallback_signal_id anonymize_signal
    signal_id_of enqueue reserve after_reserve commit after_commit sync_directory write_temp_file
accepted = refl

-- The same request with another key.
abbrev stranger : Incoming
stranger = record incoming { authorization = codes "Bearer x" }

stranger_changes_nothing_example :
    ((served whole tools stream settings thresholds clean key no_hooks no_audit stranger gateway).1
      ≡ gateway)
    ⊎ ((codes "/process" ≡ codes "/process")
        × (true ≡ true)
        × HasKey key stranger
        × ((r : RawData ℕ) × (process_inbound_request whole tools
                (wire_at stream (limited body_limit stranger))
                (take body_limit stranger.body)
              ≡ some r)))
stranger_changes_nothing_example =
    stranger_changes_nothing whole tools stream settings thresholds clean key no_hooks no_audit
      stranger gateway

blanks : ℕ → Text
blanks zero = []
blanks (suc n) = b' ' ∷ blanks n

length-blanks : (n : ℕ) → length (blanks n) ≡ n
unfolding blanks
length-blanks zero = refl
length-blanks (suc n) = ap suc (length-blanks n)

-- A mebibyte of blanks, and then one byte or another.
reads_at_most_limit_example :
    served whole tools stream settings thresholds clean key no_hooks no_audit
      (record incoming { body = blanks body_limit ++ (b'{' ∷ []) })
      gateway
    ≡ served whole tools stream settings thresholds clean key no_hooks no_audit
        (record incoming { body = blanks body_limit ++ (b'x' ∷ codes "yz") })
        gateway
reads_at_most_limit_example =
    reads_at_most_limit whole tools stream settings thresholds clean key no_hooks no_audit incoming
      gateway (blanks body_limit) b'{' b'x' [] (codes "yz") (length-blanks body_limit)

abbrev sends : AnonymizedSignal → ℕ → Option ℕ × ℕ
sends a d = (none, d + 1)

logged_status_is_sent_example :
    ((serve_queueing whole tools stream settings thresholds no_hooks no_audit clean key stranger
        gateway).0.1.status
      ≡ status_sent
          (serve_queueing whole tools stream settings thresholds no_hooks no_audit clean key
            stranger gateway).0.0)
    × ((serve_at_once whole tools stream settings thresholds sends no_audit clean key stranger
          (4, gateway.counters)).0.1.status
        ≡ status_sent
            (serve_at_once whole tools stream settings thresholds sends no_audit clean key stranger
              (4, gateway.counters)).0.0)
logged_status_is_sent_example =
    logged_status_is_sent whole tools stream settings thresholds clean key no_hooks no_audit sends
      no_audit stranger gateway (4, gateway.counters)
