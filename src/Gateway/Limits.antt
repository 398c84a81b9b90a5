-- ===== src/Gateway/Limits.antt =====
-- The limits that main reads from the environment (cmd/gateway/main.go), the setters of the
-- readiness check (internal/adapters/inbound.go), and what the check is told of the spool.
-- A variable is what strconv makes of it, none if it is not set or no number. Times are in
-- nanoseconds.
pub mod Stale
use edge_gw_project.Prelude.{
  ℕ, zero, suc, ◌-◌, ◌*◌, ◌%◌, ◌^◌, Bool, true, false, ◌&&◌, Option, none, some, ltb, if◌then◌else◌,
}
use edge_gw_project.Config.{ℤ, pos, negsuc}
use edge_gw_project.Spool.Queue.{Spool}
use edge_gw_project.Gateway.Readiness.{SpoolStatus, Thresholds, set_max_audit_failures}

-- The variables of the limits.
pub record Limits (F : Type 0) : Type 0 where
  pub readiness_max_depth_ratio : Option F
  pub readiness_max_staleness_seconds : Option ℤ
  pub readiness_max_audit_failures : Option ℤ
  pub readiness_max_spool_fsync_failures : Option ℤ
  pub spool_max_depth : Option ℤ

-- `err == nil && n > 0`, or the value that is kept.
unfoldable pub positive_or : ℕ → Option ℤ → ℕ
positive_or kept none = kept
positive_or kept (some (pos zero)) = kept
positive_or kept (some (pos (suc n))) = suc n
positive_or kept (some (negsuc n)) = kept

-- `time.Duration(n) * time.Second`, the 64 bits of an int64.
unfoldable pub seconds : ℕ → ℕ
seconds n = n * 1000000000 % 2 ^ 64

-- SetReadinessMaxSpoolFsyncFailures
unfoldable pub set_max_spool_fsync_failures : ℕ → Thresholds → Thresholds
set_max_spool_fsync_failures n t = if ltb 0 n then record t { max_spool_fsync_failures = n } else t

-- float64, as far as the limits use it: the comparison with a constant or another number, the
-- test `depth / max_depth >= ratio`, and DefaultReadinessMaxDepthRatio.
pub record Ratios (F : Type 0) : Type 0 where
  pub is_above_zero : F → Bool
  pub is_at_most_one : F → Bool
  pub is_reached : F → ℕ → ℕ → Bool
  pub default_ratio : F

module _ {F : Type 0} (fl : Ratios F) where
  -- SetReadinessThresholds: what is not positive is ignored.
  unfoldable pub set_thresholds : F → ℕ → Thresholds → Thresholds
  set_thresholds ratio staleness t = record t {
    is_ratio_reached = if fl.is_above_zero ratio then fl.is_reached ratio else t.is_ratio_reached;
    max_staleness =
        if ltb 0 staleness && ltb staleness (2 ^ 63) then staleness else t.max_staleness;
  }

  unfoldable pub ratio_or_default : Option F → F
  ratio_or_default none = fl.default_ratio
  ratio_or_default (some f) =
      if fl.is_above_zero f && fl.is_at_most_one f then f else fl.default_ratio

  abbrev pub default_thresholds : Thresholds
  default_thresholds = record {
    is_ratio_reached = fl.is_reached fl.default_ratio;
    max_staleness = 900000000000;
    max_audit_failures = 3;
    max_spool_fsync_failures = 3;
  }

  -- main's lines on the readiness thresholds.
  unfoldable pub configure : Limits F → Thresholds
  unfolding set_thresholds positive_or
  configure v = set_max_spool_fsync_failures (positive_or 0 v.readiness_max_spool_fsync_failures) (
      set_max_audit_failures (positive_or 0 v.readiness_max_audit_failures) (
        set_thresholds (ratio_or_default v.readiness_max_depth_ratio)
          (seconds (positive_or 900 v.readiness_max_staleness_seconds)) default_thresholds))

  -- The limit of the spool, 10000 unless a positive one is set.
  unfoldable pub max_depth_of : Limits F → ℕ
  max_depth_of v = positive_or 10000 v.spool_max_depth

-- OldestPendingAge at a time: the age, and whether anything waits.
unfoldable pub oldest_pending_age : {W : Type 0} → ℕ → Spool W → ℕ × Bool
oldest_pending_age now s = elim s.oldest_pending_at [ none ↦ (0, false) | some t ↦ (now - t, true) ]

-- The snapshot that main registers with SetReadinessSpoolStatus.
unfoldable pub spool_status : {W : Type 0} → ℕ → Spool W → SpoolStatus
unfolding oldest_pending_age
spool_status now s = record {
  depth = s.depth;
  max_depth = s.max_depth;
  oldest_pending_age = (oldest_pending_age now s).0;
  has_pending = (oldest_pending_age now s).1;
  consecutive_dir_fsync_failures = s.dir_fsync_failures;
}
