-- ===== src/Examples/Gates.antt =====
-- The checks at start, the gate, the readiness check and the handler of /process on small inputs
-- (cmd/gateway/main.go, internal/middleware/middleware.go, internal/adapters/inbound.go).
use edge_gw_project.Prelude.{
  ℕ, ◌≡◌, ◌≢◌, ◌↔◌, refl, Bool, true, false, Option, none, some, List, [], ◌∷◌, ◌++◌, Text, codes,
  text_eq,
}
use edge_gw_project.Prelude.{
  trim_prefix, cut_prefix, leb, trim_space, trim_left, trim_right, is_space,
}
use edge_gw_project.Outbound.{Request, forward_payload, answer_of}
use edge_gw_project.Gateway.Gate.{is_let_through, presented_key}
use edge_gw_project.Config.{
  negsuc, Environment, load, with_defaults, from_environment, from_file, override, normal_word,
}
use edge_gw_project.Gateway.Startup.Keys.{
  Secrets, startup_of, settings_of, HasKey, HasKeyIfAny, started_has_keys,
}
use edge_gw_project.Gateway.Startup.{
  Startup, pepper_env, validate_startup, mode_problems, keying_problems,
}
use edge_gw_project.Gateway.Startup.Laws.{vendor_of, ready_forwards}
use edge_gw_project.Gateway.Readiness.{
  SpoolStatus, Thresholds, check_readiness, IsKeepingUp, check_readiness_iff,
}
use edge_gw_project.Spool.Dir.{subdir}
use edge_gw_project.Spool.Queue.{
  Hook, enqueue, reserve, after_reserve, commit, after_commit, sync_directory, write_temp_file,
}
use edge_gw_project.Processor.Signal.{needs_fallback_signal_id, anonymize_signal, signal_id_of}
use edge_gw_project.Processor.Validate.{
  validate, check_fields, check_types, check_endpoint_type, check_location, canonical_in, is_listed,
  is_bad_ref, is_bad_time, is_bad_latitude, is_bad_longitude, matches_ref_pattern, is_ref_char,
}
use edge_gw_project.Gateway.Transaction.{
  Counters, Gateway, Wire, process_transaction, process_valid, process_inbound_request,
  accept_valid, fallback_of, queue_signal, after_enqueue,
}
use edge_gw_project.Gateway.Transaction
use edge_gw_project.Examples.Signals.{whole, tools, settings, event}
use edge_gw_project.Gateway.Transaction.Laws.{
  IsQueued, accepted-IsQueued, IsUnqueuedOr, transaction_all_or_nothing,
}

abbrev ready : Startup
ready = record {
  institution_id = codes "BNK";
  bank_salt = codes "salt";
  mode = codes "middleware";
  api_key = codes "k";
  hub_endpoint_url = codes "u";
  mosaic_keying = codes "bank";
  hmac_secret = codes "s";
  mosaic_pepper = [];
  regional_pepper = [];
}

no_problem : validate_startup ready ≡ []
unfolding validate_startup mode_problems keying_problems text_eq
no_problem = refl

abbrev pub mac : Text → Text → Text
mac k m = k ++ m

abbrev pub accepts : Text → Bool
accepts url = true

-- The platform answers 200 and keeps the bodies.
abbrev pub answers : Request → List Text → Option ℕ × List Text
answers q p = (some 200, q.body ∷ p)

ready_forwards_example :
    forward_payload mac accepts answers (vendor_of ready []) (codes "{}") []
    ≡ answer_of mac accepts answers (
        answers
          (record {
            url = codes "u";
            authorization = codes "Bearer k";
            signature = codes "s{}";
            body = codes "{}";
          })
          [])
ready_forwards_example =
    ready_forwards mac accepts answers ready [] (codes "{}") [] no_problem refl refl

key_there : codes "k" ≢ []
key_there e = cc e

let_in : is_let_through (codes "k") (codes "Bearer k") [] ≡ true
unfolding is_let_through presented_key trim_prefix cut_prefix text_eq
let_in = refl

abbrev pub thresholds : Thresholds
thresholds = record {
  is_ratio_reached = λ d m. leb m d;
  max_staleness = 900;
  max_audit_failures = 3;
  max_spool_fsync_failures = 3;
}

abbrev stale : SpoolStatus
stale = record {
  depth = 1;
  max_depth = 10;
  oldest_pending_age = 901;
  has_pending = true;
  consecutive_dir_fsync_failures = 0;
}

check_readiness_iff_example :
    ((check_readiness thresholds (some stale) (some 2)).0 ≡ 200)
    ↔ IsKeepingUp thresholds (some stale) (some 2)
check_readiness_iff_example = check_readiness_iff thresholds (some stale) (some 2)

abbrev pub wire : Wire ℕ
wire = record { decode = λ body. some event; encode = λ a. some a.signal_id }

abbrev no_hooks : Hook → ℕ → ℕ
no_hooks h w = w

abbrev pub gateway : Gateway ℕ
gateway = record {
  spool = record {
    dir = subdir (codes "dead") ∷ [];
    dead = [];
    max_depth = 2;
    depth = 0;
    seq = 0;
    oldest_pending_at = none;
    wake = false;
    dir_fsync_failures = 0;
    fsync_enabled = false;
    world = 0;
  };
  counters = record {
    signals_processed = 0;
    spool_rejects = 0;
    signal_id_generation_failures = 0;
    signal_id_missing_fallback = 0;
    forward_failures = 0;
  };
}

abbrev pub post : Transaction.Request
post = record {
  is_post = true;
  body = codes "{}";
  fresh_id = none;
  now = 7;
  faults = record {
    open_ok = true;
    write_ok = true;
    sync_file_ok = true;
    close_ok = true;
    rename_ok = true;
    sync_dir_ok = true;
  };
}

accepted : (process_transaction whole tools wire no_hooks settings post gateway).0.status ≡ 202
unfolding process_transaction process_valid process_inbound_request accept_valid fallback_of
    queue_signal after_enqueue validate check_fields check_types check_endpoint_type check_location
    canonical_in is_listed is_bad_ref is_bad_time is_bad_latitude is_bad_longitude
    matches_ref_pattern is_ref_char trim_space trim_left trim_right is_space text_eq
    needs_fallback_signal_id anonymize_signal signal_id_of enqueue reserve after_reserve commit
    after_commit sync_directory write_temp_file
accepted = refl

accepted-IsQueued_example :
    IsQueued whole tools wire no_hooks settings post gateway
      (process_transaction whole tools wire no_hooks settings post gateway)
accepted-IsQueued_example =
    accepted-IsQueued whole tools wire no_hooks settings post gateway accepted

abbrev silent : Environment ℕ
silent = record {
  gateway_mode = codes " ";
  mosaic_keying = [];
  institution_id = [];
  api_key = [];
  hub_api_url = [];
  bank_salt = codes "salt";
  local_log_retention_days = some (negsuc 4);
  reporting_threshold = none;
}

-- The configuration of a gateway that starts: a regional one, in standalone mode.
abbrev regional : Environment ℕ
regional = record {
  gateway_mode = codes "standalone";
  mosaic_keying = codes "regional";
  institution_id = codes "BNK";
  api_key = [];
  hub_api_url = [];
  bank_salt = codes "salt";
  local_log_retention_days = none;
  reporting_threshold = none;
}

abbrev secrets : Secrets
secrets = record { hmac_secret = []; mosaic_pepper = []; regional_pepper = codes "p" }

starts : validate_startup (startup_of (load whole tools.to_lower none none regional) secrets) ≡ []
unfolding validate_startup mode_problems keying_problems pepper_env text_eq startup_of load
    with_defaults from_environment from_file override normal_word trim_space trim_left trim_right
    is_space
starts = refl

started_has_keys_example :
    HasKey whole tools
      (anonymize_signal whole tools
        (settings_of (load whole tools.to_lower none none regional) secrets)
        event
        []).identity
    × HasKeyIfAny whole tools
        (anonymize_signal whole tools
          (settings_of (load whole tools.to_lower none none regional) secrets)
          event
          []).destination
started_has_keys_example =
    started_has_keys whole tools (load whole tools.to_lower none none regional) secrets starts event
      []

transaction_all_or_nothing_example :
    IsUnqueuedOr whole tools wire no_hooks settings post gateway
      (process_transaction whole tools wire no_hooks settings post gateway).1
transaction_all_or_nothing_example =
    transaction_all_or_nothing whole tools wire no_hooks settings post gateway
