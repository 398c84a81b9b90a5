-- ===== src/Gateway/Start.antt =====
-- The start of the process (cmd/gateway/main.go, main up to its server): the checks, and what it
-- opens, each of which may end it with os.Exit. The log lines are left out.
pub mod Laws
pub mod Service
pub mod Exactly
pub mod Sound
use edge_gw_project.Prelude.{
  ℕ, ◌⊎◌, inl, inr, Bool, true, Option, none, some, List, [], ◌∷◌, Text, codes, text_eq, is_empty,
  if◌then◌else◌,
}
use edge_gw_project.Config.{GatewayConfig, Environment, load}
use edge_gw_project.Processor.Outside.{Floats}
use edge_gw_project.DayLog.{DayLog}
use edge_gw_project.AuditLog.{Logger, ProbeFaults, new_logger}
use edge_gw_project.Outbound.{Vendor}
use edge_gw_project.Spool.Dir.{DirEntry}
use edge_gw_project.Spool.Queue.{Hook, Spool, new}
use edge_gw_project.Gateway.Sink.{new_local_sink}
use edge_gw_project.Gateway.Startup.{Problem, validate_startup}
use edge_gw_project.Gateway.Startup.Keys.{Secrets, startup_of}
use edge_gw_project.Gateway.Healthcheck.{ProbeEnv, healthcheck}
use edge_gw_project.Gateway.Limits.{Limits, Ratios, max_depth_of}
use edge_gw_project.Gateway.Metrics.{Reals, set_gauge}
use edge_gw_project.Gateway.Transaction.{Counters, Gateway}
use edge_gw_project.Gateway.Wiring.{Routing, Surroundings, is_standalone, is_audited, hooks, reborn}

-- Why a start ends the process.
pub data Exit : Type 0 where
  probed : ℕ → Exit
  refused : List Problem → Exit
  no_sink no_audit_log no_spool : Exit

-- What main goes by: its argument, the file of the configuration, the environment, the files of the
-- spool, the outcomes of the system calls, and the clock. The configuration's variables and the
-- limits are as Config and Limits have them.
pub record Boot (G R : Type 0) : Type 0 where
  pub is_probe : Bool
  pub probe_env : ProbeEnv
  pub file : Option (GatewayConfig G)
  pub environment : Environment G
  pub secrets : Secrets
  pub inbound_api_key : Text
  pub standalone_sink_dir : Text
  pub egress_audit_dir : Text
  pub egress_audit_store_payload : Text
  pub spool_dir : Text
  pub spool_fsync : Text
  pub limits : Limits R
  pub sink_mkdir_ok : Bool
  pub audit_mkdir_ok : Bool
  pub probe : ProbeFaults
  pub spool_mkdir_ok : Bool
  pub read_dir_ok : Bool
  pub dir : List DirEntry
  pub dead : List DirEntry
  pub now : ℕ

-- A process that goes on to its server, with a spool or without one.
pub data Started (W : Type 0) : Type 0 where
  with_spool : Gateway W → Started W
  without_spool : W → Counters → Started W

abbrev pub no_counts : Counters
no_counts = record {
  signals_processed = 0;
  spool_rejects = 0;
  signal_id_generation_failures = 0;
  signal_id_missing_fallback = 0;
  forward_failures = 0;
}

-- fsyncEnabledFromEnv (internal/spool/spool.go), given strconv.ParseBool.
unfoldable pub fsync_enabled_from_env : (Text → Option Bool) → Text → Bool
fsync_enabled_from_env parse_bool v =
    if is_empty v then true else elim (parse_bool v) [ none ↦ true | some b ↦ b ]

-- A step of the start that may end the process, and what comes after it.
unfoldable pub and_then : {A B : Type 0} → Exit ⊎ A → (A → Exit ⊎ B) → Exit ⊎ B
and_then (inl e) f = inl e
and_then (inr a) f = f a

-- `if problems := validateStartup(cfg); len(problems) > 0`
unfoldable pub checked : {A : Type 0} → List Problem → Exit ⊎ A → Exit ⊎ A
checked [] k = k
checked (p ∷ ps) k = inl (refused (p ∷ ps))

unfoldable pub put_sink :
    {P F : Type 0} → Surroundings P F → Option DayLog → Exit ⊎ Surroundings P F
put_sink w none = inl no_sink
put_sink w (some l) =
    inr (record w { trail = record w.trail { dest = record w.trail.dest { sink = l } } })

unfoldable pub put_logger :
    {P F : Type 0} → Surroundings P F → Option Logger → Exit ⊎ Surroundings P F
put_logger w none = inl no_audit_log
put_logger w (some l) = inr (record w { trail = record w.trail { logger = l } })

unfoldable pub put_spool :
    {P F : Type 0}
    → Reals F
    → ℕ
    → Option (Spool (Surroundings P F))
    → Exit ⊎ Started (Surroundings P F)
put_spool r max_depth none = inl no_spool
put_spool r max_depth (some s) = inr (
    with_spool (record {
      spool = record s {
        world = record s.world {
          metrics = set_gauge r (codes "spool_max_depth") max_depth s.world.metrics;
        };
      };
      counters = no_counts;
    }))

module _ {G R : Type 0} (fl : Floats G) (to_lower : ℕ → ℕ) where
  abbrev pub config_of : Boot G R → GatewayConfig G
  config_of b = load fl to_lower none b.file b.environment

  unfoldable pub routing_of : Boot G R → Routing
  routing_of b = record {
    mode = (config_of b).mode;
    vendor = record {
      hub_endpoint_url = (config_of b).hub_endpoint_url;
      config_api_key = (config_of b).api_key;
      env_api_key = b.environment.api_key;
      hmac_secret = b.secrets.hmac_secret;
    };
    standalone_sink_dir = b.standalone_sink_dir;
    egress_audit_dir = b.egress_audit_dir;
  }

  module _ {P F : Type 0} (r : Reals F) where
    unfoldable pub open_sink : Boot G R → Surroundings P F → Exit ⊎ Surroundings P F
    unfolding put_sink
    open_sink b w =
        if is_standalone (routing_of b)
        then put_sink w (new_local_sink b.sink_mkdir_ok w.trail.dest.sink.files)
        else inr w

    unfoldable pub open_audit : Boot G R → Surroundings P F → Exit ⊎ Surroundings P F
    unfolding put_logger
    open_audit b w =
        if is_audited (routing_of b)
        then put_logger w (
            new_logger b.audit_mkdir_ok b.probe b.egress_audit_dir
              (text_eq b.egress_audit_store_payload (codes "true")) w.trail.logger.log)
        else inr w

    -- spool.New makes the directory first.
    unfoldable pub open_spool :
        Ratios R
        → (Text → Option Bool)
        → Boot G R
        → Surroundings P F
        → Exit ⊎ Started (Surroundings P F)
    unfolding put_spool
    open_spool ratios parse_bool b w =
        let max_depth = max_depth_of ratios b.limits in
        let opened =
          new (hooks r (routing_of b)) b.read_dir_ok b.dir b.dead max_depth
            (fsync_enabled_from_env parse_bool b.spool_fsync) b.now w in
        if is_empty b.spool_dir
        then inr (without_spool w no_counts)
        else if b.spool_mkdir_ok
        then put_spool r max_depth opened
        else inl no_spool

    -- main, from what the last process has left.
    unfoldable pub start :
        (Text → Option ℕ)
        → Ratios R
        → (Text → Option Bool)
        → Boot G R
        → Surroundings P F
        → Exit ⊎ Started (Surroundings P F)
    start get ratios parse_bool b left =
        if b.is_probe
        then inl (probed (healthcheck get b.probe_env))
        else checked (validate_startup (startup_of (config_of b) b.secrets)) (
            and_then (open_sink b (reborn r left))
              (λ w. and_then (open_audit b w) (open_spool ratios parse_bool b)))
