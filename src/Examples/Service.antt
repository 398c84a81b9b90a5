-- ===== src/Examples/Service.antt =====
-- The whole service on a small run: a request, a round of the forwarder and a restart
-- (cmd/gateway/main.go).
use edge_gw_project.Prelude.{
  ℕ, ◌+◌, ◌≡◌, refl, inl, inr, Option, none, some, List, [], Text, codes, text_eq, trim_prefix,
  cut_prefix, trim_space, trim_left, trim_right, is_space, take, true, false,
}
use edge_gw_project.Spool.Name.{spool_name}
use edge_gw_project.Spool.Dir.{list_pending}
use edge_gw_project.Spool.Queue.{
  Spool, forward_oldest, new, enqueue, reserve, after_reserve, commit, after_commit, sync_directory,
  write_temp_file,
}
use edge_gw_project.Spool.System.{System, here, next, forwarded}
use edge_gw_project.Spool.Life.{runs, restarts}
use edge_gw_project.Spool.Outcome.{all_well}
use edge_gw_project.Processor.Signal.{
  RawData, anonymize_signal, signal_id_of, needs_fallback_signal_id,
}
use edge_gw_project.Processor.Validate.{
  validate, check_fields, check_types, check_endpoint_type, check_location, canonical_in, is_listed,
  is_bad_ref, is_bad_time, is_bad_latitude, is_bad_longitude, matches_ref_pattern, is_ref_char,
}
use edge_gw_project.Gateway.Audit.{is_permanent_audited}
use edge_gw_project.Gateway.Gate.{is_let_through, presented_key}
use edge_gw_project.Gateway.Transaction.{
  Gateway, process_transaction, process_valid, process_inbound_request, accept_valid, fallback_of,
  queue_signal, after_enqueue,
}
use edge_gw_project.Gateway.Server.{
  Write, LogLine, wire_at, status_sent, body_limit, limited, serve_queueing, serve, request_logger,
  max_body_size, mux, require_api_key, process_queueing,
}
use edge_gw_project.Gateway.Server.Served.{HasKey}
use edge_gw_project.Gateway.Wiring.{
  Routing, Surroundings, spool_forward, hooks, reborn, is_permanent_delivery,
}
use edge_gw_project.Gateway.Wiring.EndToEnd.{IsSafe}
use edge_gw_project.Gateway.Start.{
  start, routing_of, config_of, checked, and_then, open_sink, put_sink, open_audit, put_logger,
  open_spool, put_spool, fsync_enabled_from_env, no_counts,
}
use edge_gw_project.Gateway.Start.Service.{serving, accounted_for_from_start}
use edge_gw_project.Config.{
  load, with_defaults, from_environment, from_file, override, override_number, normal_word,
  positive_days, positive_threshold,
}
use edge_gw_project.Gateway.Startup.{validate_startup, mode_problems, keying_problems, pepper_env}
use edge_gw_project.Gateway.Startup.Keys.{startup_of, settings_of}
use edge_gw_project.Gateway.Limits.{max_depth_of, positive_or}
use edge_gw_project.AuditLog.{new_logger, probe_writable}
use edge_gw_project.Gateway.Sink.{new_local_sink}
use edge_gw_project.Examples.Limits.{ratios}
use edge_gw_project.Examples.Signals.{whole, tools}
use edge_gw_project.Examples.Days.{codec}
use edge_gw_project.Examples.Gates.{accepts, answers}
use edge_gw_project.Examples.Serving.{stream, clean, key, incoming}
use edge_gw_project.Examples.Wired.{reals, surroundings, HasBody}
use edge_gw_project.Examples.Boots.{boot, no_bool, no_answer, audited, started, goes_on}

abbrev served_here : (List Write × LogLine) × Gateway (Surroundings (List Text) ℕ)
served_here =
    serving whole tools reals ratios no_bool no_answer stream clean codec accepts answers HasBody
      (λ q p status e f. inl refl) (λ q b p k. inr k) boot audited incoming
      (record { spool = started.spool; counters = no_counts })

accepted : status_sent served_here.0.0 ≡ 202
unfolding status_sent serve_queueing serve request_logger max_body_size limited mux require_api_key
    process_queueing is_let_through presented_key trim_prefix cut_prefix process_transaction
    process_valid process_inbound_request accept_valid fallback_of queue_signal after_enqueue
    validate check_fields check_types check_endpoint_type check_location canonical_in is_listed
    is_bad_ref is_bad_time is_bad_latitude is_bad_longitude matches_ref_pattern is_ref_char
    trim_space trim_left trim_right is_space text_eq needs_fallback_signal_id anonymize_signal
    signal_id_of enqueue reserve after_reserve commit after_commit sync_directory write_temp_file
    start validate_startup mode_problems keying_problems pepper_env startup_of load with_defaults
    from_environment from_file override override_number normal_word positive_days positive_threshold
    checked and_then open_sink put_sink open_audit put_logger open_spool put_spool
    fsync_enabled_from_env routing_of new_local_sink new_logger probe_writable max_depth_of
    positive_or new list_pending
accepted = refl

abbrev routing : Routing
routing = routing_of whole tools.to_lower boot

abbrev once_forwarded : System (Surroundings (List Text) ℕ)
once_forwarded = record {
  spool =
      (forward_oldest (hooks reals routing) (is_permanent_audited is_permanent_delivery)
        (spool_forward codec tools.hmac_hex accepts answers routing) all_well 9
        served_here.1.spool).1;
  in_flight = [];
}

-- The process is restarted, and a round of the forwarder follows.
abbrev reopened : Option (Spool (Surroundings (List Text) ℕ))
reopened =
    new (hooks reals routing) true once_forwarded.spool.dir once_forwarded.spool.dead 2 false 20
      (reborn reals once_forwarded.spool.world)

abbrev again : Spool (Surroundings (List Text) ℕ)
again = elim reopened [ none ↦ started.spool | some s ↦ s ]

taken_up : reopened ≡ some again
unfolding new
taken_up = refl

accounted_for_from_start_example :
    (codes "/process" ≡ codes "/process")
    × HasKey key incoming
    × ((raw : RawData ℕ) × (fallback : Text) × (payload : Text) × (process_inbound_request whole
            tools
            (wire_at stream (limited body_limit incoming))
            (take body_limit incoming.body)
          ≡ some raw)
        × (stream.encode (
              anonymize_signal whole tools
                (settings_of (config_of whole tools.to_lower boot) boot.secrets)
                raw
                fallback)
            ≡ some payload)
        × IsSafe codec routing HasBody
            (spool_name 7 (started.spool.seq + 1))
            payload
            (record { spool = again; in_flight = [] }))
accounted_for_from_start_example =
    accounted_for_from_start whole tools reals ratios no_bool no_answer stream clean codec accepts
      answers HasBody (λ q p status e f. inl refl) (λ q b p k. inr k) boot audited surroundings
      started no_counts incoming [] goes_on (runs here) accepted
      (restarts once_forwarded.spool.dir 2 false 20 (runs (next here (forwarded all_well 9 refl)))
        (λ n j. refl) taken_up here)
