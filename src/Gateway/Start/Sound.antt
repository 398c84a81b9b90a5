-- ===== src/Gateway/Start/Sound.antt =====
-- The gateway that main starts is in order (cmd/gateway/main.go).
use edge_gw_project.Prelude.{
  ℕ, ◌+◌, ◌≤◌, arith, leb, ◌≡◌, sym, ap, ◌∙◌, ◌⊎◌, inl, inr, Bool, true, Option, none, some, [],
  Text, length, Bool-cases,
}
use mathlib.Core.Path.{subst}
use edge_gw_project.Processor.Outside.{Floats}
use edge_gw_project.AuditLog.{Codec}
use edge_gw_project.Spool.Dir.{pending_names, list_pending}
use edge_gw_project.Spool.Queue.{Hook, on_oldest_pending_age, on_depth, oldest_of}
use edge_gw_project.Spool.Life.{opened}
use edge_gw_project.Gateway.Startup.{validate_startup}
use edge_gw_project.Gateway.Startup.Keys.{startup_of}
use edge_gw_project.Gateway.Limits.{Ratios, max_depth_of}
use edge_gw_project.Gateway.Audit.{is_permanent_audited}
use edge_gw_project.Gateway.Metrics.{Reals}
use edge_gw_project.Gateway.Transaction.{Gateway}
use edge_gw_project.Outbound.{Request, classify}
use edge_gw_project.Gateway.Wiring.Accounting.{IsSound, hooks-IsSound}
use edge_gw_project.Gateway.Wiring.{
  Surroundings, is_audited, hooks, reborn, spool_forward, is_permanent_delivery,
}
use edge_gw_project.Gateway.Start.{
  Boot, with_spool, config_of, routing_of, start, fsync_enabled_from_env,
}
use edge_gw_project.Spool.Dir.Laws.{HasUniqueNames, length-list_pending}
use edge_gw_project.Spool.System.{System, Reach}
use edge_gw_project.Spool.Capacity.{AllRemove, IsCounted, depth_is_exact}
use edge_gw_project.Gateway.Start.Laws.{open_spool-made, start-opened}

module _ {G R : Type 0} (fl : Floats G) (to_lower : ℕ → ℕ) {P F : Type 0} (r : Reals F)
    (ratios : Ratios R) (parse_bool : Text → Option Bool) (b : Boot G R) (c : Codec)
    (hmac_hex : Text → Text → Text) (builds : Text → Bool) (send : Request → P → Option ℕ × P)
    (Received : Text → P → Type 0)
    (receives : (q : Request) (p : P) (status : ℕ)
      → (send q p).0 ≡ some status
      → classify status ≡ none
      → Received q.body (send q p).1)
    (send-Received : (q : Request) (b : Text) (p : P) → Received b p → Received b (send q p).1)
    (audited : is_audited (routing_of fl to_lower b) ≡ true) where
  -- A process with an audit log that goes on to its server with a spool: its configuration has
  -- passed the checks; the spool has the files that were there and counts those that wait; and
  -- the audit trail is in order, whatever the last process has left.
  pub start-IsSound :
      (get : Text → Option ℕ) (left : Surroundings P F) (g : Gateway (Surroundings P F))
      → start fl to_lower r get ratios parse_bool b left ≡ inr (with_spool g)
      → (validate_startup (startup_of (config_of fl to_lower b) b.secrets) ≡ [])
        × (g.spool.dir ≡ b.dir)
        × (g.spool.dead ≡ b.dead)
        × (g.spool.depth ≡ length (list_pending b.dir))
        × IsSound c (routing_of fl to_lower b) Received g.spool.world
  start-IsSound get left g e =
      let (fine, (w, (l, d, n), o)) = start-opened fl to_lower r ratios parse_bool b get left g e in
      let (s, m, dir, dead, depth, trail, limit) =
        open_spool-made fl to_lower r ratios parse_bool b w g o in
      let (sdir, sdead, sdepth, world, smax) =
        opened (hooks r (routing_of fl to_lower b)) (is_permanent_audited is_permanent_delivery)
          (spool_forward c hmac_hex builds send (routing_of fl to_lower b)) (reborn r) b.dir b.dead
          (max_depth_of ratios b.limits) (fsync_enabled_from_env parse_bool b.spool_fsync) b.now w s
          m in
      (
        fine,
        dir ∙ sdir,
        dead ∙ sdead,
        depth ∙ sdepth,
        subst (λ t. IsSound c (routing_of fl to_lower b) Received (record w { trail = t }))
            (sym trail)
            (subst (IsSound c (routing_of fl to_lower b) Received) (sym world) (
              keep (on_oldest_pending_age (oldest_of (list_pending b.dir)) b.now) _
                (keep (on_depth (length (list_pending b.dir))) w (inl l, inl d, inl n)))),
      )
    where
      keep :
          (h : Hook) (v : Surroundings P F)
          → IsSound c (routing_of fl to_lower b) Received v
          → IsSound c (routing_of fl to_lower b) Received (hooks r (routing_of fl to_lower b) h v)
      keep =
          hooks-IsSound r c hmac_hex builds send Received receives send-Received
            (routing_of fl to_lower b) audited

module _ {G R : Type 0} (fl : Floats G) (to_lower : ℕ → ℕ) {P F : Type 0} (r : Reals F)
    (ratios : Ratios R) (parse_bool : Text → Option Bool) (b : Boot G R) (c : Codec)
    (hmac_hex : Text → Text → Text) (builds : Text → Bool) (send : Request → P → Option ℕ × P) where
  abbrev pub Runs : System (Surroundings P F) → System (Surroundings P F) → Type 0
  Runs =
      Reach (hooks r (routing_of fl to_lower b)) (is_permanent_audited is_permanent_delivery)
        (spool_forward c hmac_hex builds send (routing_of fl to_lower b))

  -- Let main start with a spool whose files have different names. As long as names stay fresh and
  -- every removal of a delivered file succeeds, for any order of the requests' sections and the
  -- forwarder's rounds and any other failures, and whenever no round is under way (one that is between
  -- the removal of a file and the subtraction has the counter one higher), the counter of the depth is the number of signals that wait, those of earlier
  -- processes among them, and of reservations; and no more signals wait than the limit from the
  -- environment allows, or than there were at the start.
  pub depth_from_start :
      (get : Text → Option ℕ) (left : Surroundings P F) (g : Gateway (Surroundings P F))
      {u : System (Surroundings P F)}
      → start fl to_lower r get ratios parse_bool b left ≡ inr (with_spool g)
      → HasUniqueNames b.dir
      → (run : Runs (record { spool = g.spool; in_flight = [] }) u)
      → AllRemove
          (hooks r (routing_of fl to_lower b))
          (is_permanent_audited is_permanent_delivery)
          (spool_forward c hmac_hex builds send (routing_of fl to_lower b))
          run
      → (u.spool.depth ≡ length (list_pending u.spool.dir) + length u.in_flight)
        × ((length (list_pending u.spool.dir) ≤ max_depth_of ratios b.limits)
            ⊎ (length (list_pending u.spool.dir) ≤ length (list_pending b.dir)))
  depth_from_start get left g {u} e unique run removes =
      let (_, (w, _, o)) = start-opened fl to_lower r ratios parse_bool b get left g e in
      let (s, m, dir, _, depth, _, limit) =
        open_spool-made fl to_lower r ratios parse_bool b w g o in
      let (sdir, _, sdepth, _, smax) =
        opened (hooks r (routing_of fl to_lower b)) (is_permanent_audited is_permanent_delivery)
          (spool_forward c hmac_hex builds send (routing_of fl to_lower b)) (reborn r) b.dir b.dead
          (max_depth_of ratios b.limits) (fsync_enabled_from_env parse_bool b.spool_fsync) b.now w s
          m in
      let bound = max_depth_of ratios b.limits in
      let there = length (list_pending b.dir) in
      let at = depth ∙ sdepth in
      let most = limit ∙ smax in
      let files = dir ∙ sdir in
      let counted : IsCounted (hooks r (routing_of fl to_lower b))
          (is_permanent_audited is_permanent_delivery)
          (spool_forward c hmac_hex builds send (routing_of fl to_lower b))
          (record { spool = g.spool; in_flight = [] }) =
        (
          subst HasUniqueNames (sym files) unique,
          omega (arith, at, length-list_pending b.dir, ap (λ z. length (pending_names z)) files),
        ) in
      elim (Bool-cases (leb there bound)) [
        | inl small ↦
            let (exact, few) =
              depth_is_exact (hooks r (routing_of fl to_lower b))
                (is_permanent_audited is_permanent_delivery)
                (spool_forward c hmac_hex builds send (routing_of fl to_lower b)) bound run removes
                counted (omega (arith, most), ground (arith, at, small)) in
            (exact, inl few)
        | inr large ↦
            let (exact, few) =
              depth_is_exact (hooks r (routing_of fl to_lower b))
                (is_permanent_audited is_permanent_delivery)
                (spool_forward c hmac_hex builds send (routing_of fl to_lower b)) there run removes
                counted (ground (arith, most, large), omega (arith, at)) in
            (exact, inr few)
      ]
