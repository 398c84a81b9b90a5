-- ===== src/Examples/Limits.antt =====
-- The readiness check on a small spool, and limits from the environment (cmd/gateway/main.go,
-- internal/adapters/inbound.go).
use edge_gw_project.Prelude.{ℕ, ◌≡◌, refl, true, none, some, [], Among, arith, leb}
use edge_gw_project.Config.{pos}
use edge_gw_project.Spool.Name.{spool_name, parse_spool_time}
use edge_gw_project.Spool.Name.Laws.{parse-spool_name}
use edge_gw_project.Spool.Queue.{forward_oldest}
use edge_gw_project.Spool.Outcome.{all_well}
use edge_gw_project.Gateway.Readiness.{too_stale, check_readiness, set_max_audit_failures}
use edge_gw_project.Gateway.Limits.{
  Ratios, configure, set_thresholds, set_max_spool_fsync_failures, positive_or, seconds,
  ratio_or_default, spool_status,
}
use edge_gw_project.Gateway.Limits.Stale.{stale_head_is_reported}
use edge_gw_project.Examples.Spools.{no_hooks, never_permanent, accept, filled_spool, one_listed}
use edge_gw_project.Examples.Gates.{thresholds}

time_there : parse_spool_time (spool_name 7 1) ≡ some 7
time_there = parse-spool_name 7 1 (omega arith)

stale_head_is_reported_example :
    ((check_readiness thresholds
        (some (
          spool_status 1000
            (forward_oldest no_hooks never_permanent accept all_well 9 filled_spool).1))
        none).0
      ≡ 503)
    × Among too_stale
        (check_readiness thresholds
          (some (
            spool_status 1000
              (forward_oldest no_hooks never_permanent accept all_well 9 filled_spool).1))
          none).1
stale_head_is_reported_example =
    stale_head_is_reported no_hooks never_permanent accept all_well 9 1000 7 (spool_name 7 1) []
      filled_spool thresholds none refl one_listed time_there (omega arith)

abbrev pub ratios : Ratios ℕ
ratios = record {
  is_above_zero = λ f. true;
  is_at_most_one = λ f. true;
  is_reached = λ f d m. leb f d;
  default_ratio = 1;
}

-- A number of seconds whose nanoseconds do not fit an int64 gives a limit of 0.29 seconds.
overflowing :
    (configure ratios (record {
      readiness_max_depth_ratio = none;
      readiness_max_staleness_seconds = some (pos 18446744074);
      readiness_max_audit_failures = none;
      readiness_max_spool_fsync_failures = none;
      spool_max_depth = none;
    })).max_staleness
    ≡ 290448384
unfolding configure set_thresholds set_max_spool_fsync_failures set_max_audit_failures positive_or
    seconds ratio_or_default
overflowing = refl
