-- ===== src/Examples/Boots.antt =====
-- The start of a small gateway (cmd/gateway/main.go).
use edge_gw_project.Prelude.{
  ℕ, ◌+◌, ◌≤◌, length, ◌≡◌, ◌⊎◌, ◌↔◌, refl, Bool, inl, inr, Option, none, List, [], Text, codes,
  text_eq, trim_space, trim_left, trim_right, is_space, true, false,
}
use edge_gw_project.Spool.Dir.{list_pending}
use edge_gw_project.Spool.Queue.{Spool, forward_oldest, new}
use edge_gw_project.Spool.System.{here, next, forwarded}
use edge_gw_project.Spool.Outcome.{all_well}
use edge_gw_project.Gateway.Audit.{is_permanent_audited}
use edge_gw_project.Gateway.Transaction.{Gateway}
use edge_gw_project.Gateway.Wiring.{
  Routing, Surroundings, spool_forward, hooks, is_permanent_delivery,
}
use edge_gw_project.Gateway.Start.{
  Boot, Started, Exit, with_spool, without_spool, start, routing_of, checked, and_then, open_sink,
  put_sink, open_audit, put_logger, open_spool, put_spool, fsync_enabled_from_env, no_counts,
}
use edge_gw_project.Gateway.Start.Exactly.{IsStartable, start_iff}
use edge_gw_project.Gateway.Start.Sound.{depth_from_start}
use edge_gw_project.Examples.Spools.{filled_spool, alone}
use edge_gw_project.Config.{
  load, with_defaults, from_environment, from_file, override, override_number, normal_word,
  positive_days, positive_threshold,
}
use edge_gw_project.Gateway.Startup.{validate_startup, mode_problems, keying_problems, pepper_env}
use edge_gw_project.Gateway.Startup.Keys.{startup_of}
use edge_gw_project.Gateway.Limits.{max_depth_of, positive_or}
use edge_gw_project.AuditLog.{new_logger, probe_writable}
use edge_gw_project.Gateway.Sink.{new_local_sink}
use edge_gw_project.Examples.Limits.{ratios}
use edge_gw_project.Gateway.Wiring.{is_audited}
use edge_gw_project.Examples.Signals.{whole, tools}
use edge_gw_project.Examples.Days.{codec}
use edge_gw_project.Examples.Gates.{mac, accepts, answers}
use edge_gw_project.Examples.Serving.{key}
use edge_gw_project.Examples.Wired.{reals, surroundings}

-- A standalone gateway with an audit log and a spool, which finds nothing of an earlier process.
abbrev pub boot : Boot ℕ ℕ
boot = record {
  is_probe = false;
  probe_env = record { gateway_port = []; tls_cert_file = []; tls_key_file = [] };
  file = none;
  environment = record {
    gateway_mode = codes "standalone";
    mosaic_keying = [];
    institution_id = codes "BNK";
    api_key = [];
    hub_api_url = [];
    bank_salt = codes "salt";
    local_log_retention_days = none;
    reporting_threshold = none;
  };
  secrets = record { hmac_secret = []; mosaic_pepper = []; regional_pepper = [] };
  inbound_api_key = key;
  standalone_sink_dir = [];
  egress_audit_dir = codes "/a";
  egress_audit_store_payload = [];
  spool_dir = codes "/s";
  spool_fsync = [];
  limits = record {
    readiness_max_depth_ratio = none;
    readiness_max_staleness_seconds = none;
    readiness_max_audit_failures = none;
    readiness_max_spool_fsync_failures = none;
    spool_max_depth = none;
  };
  sink_mkdir_ok = true;
  audit_mkdir_ok = true;
  probe = record { create_ok = true; write_ok = true; sync_ok = true; close_ok = true };
  spool_mkdir_ok = true;
  read_dir_ok = true;
  dir = [];
  dead = [];
  now = 5;
}

abbrev pub no_bool : Text → Option Bool
no_bool v = none

abbrev pub no_answer : Text → Option ℕ
no_answer url = none

pub audited : is_audited (routing_of whole tools.to_lower boot) ≡ true
unfolding routing_of
audited = refl

abbrev outcome : Boot ℕ ℕ → Exit ⊎ Started (Surroundings (List Text) ℕ)
outcome b = start whole tools.to_lower reals no_answer ratios no_bool b surroundings

abbrev gateway_of :
    Exit ⊎ Started (Surroundings (List Text) ℕ) → Gateway (Surroundings (List Text) ℕ)
gateway_of o = elim o [
  | inl e ↦ record { spool = bare; counters = no_counts }
  | inr s ↦ elim s [ with_spool g ↦ g | without_spool w k ↦ record { spool = bare; counters = k } ]
]
  where
    bare : Spool (Surroundings (List Text) ℕ)
    bare = record {
      dir = [];
      dead = [];
      max_depth = 2;
      depth = 0;
      seq = 0;
      oldest_pending_at = none;
      wake = false;
      dir_fsync_failures = 0;
      fsync_enabled = false;
      world = surroundings;
    }

abbrev pub started : Gateway (Surroundings (List Text) ℕ)
started = gateway_of (outcome boot)

pub goes_on : outcome boot ≡ inr (with_spool started)
unfolding start validate_startup mode_problems keying_problems pepper_env startup_of load
    with_defaults from_environment from_file override override_number normal_word positive_days
    positive_threshold trim_space trim_left trim_right is_space text_eq checked and_then open_sink
    put_sink open_audit put_logger open_spool put_spool fsync_enabled_from_env routing_of
    new_local_sink new_logger probe_writable max_depth_of positive_or new list_pending
goes_on = refl

-- The same gateway finds a signal that waits.
abbrev boot_again : Boot ℕ ℕ
boot_again = record boot { dir = filled_spool.dir }

abbrev resumed : Gateway (Surroundings (List Text) ℕ)
resumed = gateway_of (outcome boot_again)

resumes : outcome boot_again ≡ inr (with_spool resumed)
unfolding start validate_startup mode_problems keying_problems pepper_env startup_of load
    with_defaults from_environment from_file override override_number normal_word positive_days
    positive_threshold trim_space trim_left trim_right is_space text_eq checked and_then open_sink
    put_sink open_audit put_logger open_spool put_spool fsync_enabled_from_env routing_of
    new_local_sink new_logger probe_writable max_depth_of positive_or new list_pending
resumes = refl

abbrev resumed_routing : Routing
resumed_routing = routing_of whole tools.to_lower boot_again

abbrev sent_on : Spool (Surroundings (List Text) ℕ)
sent_on =
    (forward_oldest (hooks reals resumed_routing) (is_permanent_audited is_permanent_delivery)
      (spool_forward codec mac accepts answers resumed_routing) all_well 9 resumed.spool).1

depth_from_start_example :
    (sent_on.depth ≡ length (list_pending sent_on.dir) + 0)
    × ((length (list_pending sent_on.dir) ≤ max_depth_of ratios boot.limits)
        ⊎ (length (list_pending sent_on.dir) ≤ length (list_pending filled_spool.dir)))
depth_from_start_example =
    depth_from_start whole tools.to_lower reals ratios no_bool boot_again codec mac accepts answers
      no_answer surroundings resumed {u = record { spool = sent_on; in_flight = [] }} resumes alone
      (next here (forwarded all_well 9 refl)) (tt, refl)

start_iff_example :
    ((s : Started (Surroundings (List Text) ℕ)) × (outcome boot ≡ inr s))
    ↔ IsStartable whole tools.to_lower boot
start_iff_example = start_iff whole tools.to_lower reals boot ratios no_bool no_answer surroundings
