-- ===== src/Gateway/Start/Exactly.antt =====
-- When main goes on to its server (cmd/gateway/main.go).
use edge_gw_project.Prelude.{
  ℕ, ◌≡◌, refl, ◌⊎◌, inl, inr, ◌↔◌, Bool, true, false, Option, Text, Bool-cases, arith, is_empty,
}
use edge_gw_project.Processor.Outside.{Floats}
use edge_gw_project.AuditLog.{ProbeFaults, new_logger, probe_writable}
use edge_gw_project.Spool.Queue.{new}
use edge_gw_project.Gateway.Sink.{new_local_sink}
use edge_gw_project.Gateway.Startup.Keys.{startup_of}
use edge_gw_project.Gateway.Startup.Laws.{IsReady, validate_startup_iff}
use edge_gw_project.Gateway.Limits.{Ratios}
use edge_gw_project.Gateway.Metrics.{Reals}
use edge_gw_project.Gateway.Wiring.{Surroundings, is_standalone, is_audited, reborn}
use edge_gw_project.Gateway.Start.{
  Exit, Boot, Started, checked, and_then, put_sink, put_logger, put_spool, config_of, routing_of,
  open_sink, open_audit, open_spool, start,
}
use edge_gw_project.Gateway.Start.Laws.{and_then-inr, checked-inr}

-- A step of the start goes on.
abbrev Passes : {A : Type 0} → Exit ⊎ A → Type 0
Passes {A} x = (a : A) × (x ≡ inr a)

-- All system calls on the probe file succeed.
abbrev pub IsProbed : ProbeFaults → Type 0
IsProbed x = (x.create_ok ≡ true) × (x.write_ok ≡ true) × (x.sync_ok ≡ true) × (x.close_ok ≡ true)

probe_iff : (x : ProbeFaults) → (probe_writable x ≡ true) ↔ IsProbed x
unfolding probe_writable
probe_iff x = (λ h. ground (arith, h), λ h. ground (arith, h))

and_then-Passes :
    {A B : Type 0} (x : Exit ⊎ A) (f : A → Exit ⊎ B)
    → Passes x
    → ((a : A) → Passes (f a))
    → Passes (and_then x f)
unfolding and_then
and_then-Passes (inl e) f (a, h) k = absurd (cc h)
and_then-Passes (inr a) f h k = k a

-- What the start needs: no probe, a configuration that passes, and for what is configured, that it
-- can be opened.
abbrev pub IsStartable : {G R : Type 0} → Floats G → (ℕ → ℕ) → Boot G R → Type 0
IsStartable fl to_lower b =
    (b.is_probe ≡ false)
    × IsReady (startup_of (config_of fl to_lower b) b.secrets)
    × (is_standalone (routing_of fl to_lower b) ≡ true → b.sink_mkdir_ok ≡ true)
    × (is_audited (routing_of fl to_lower b) ≡ true → (b.audit_mkdir_ok ≡ true) × IsProbed b.probe)
    × (is_empty b.spool_dir ≡ false → (b.spool_mkdir_ok ≡ true) × (b.read_dir_ok ≡ true))

module _ {G R : Type 0} (fl : Floats G) (to_lower : ℕ → ℕ) {P F : Type 0} (r : Reals F)
    (b : Boot G R) where
  sink_iff :
      (w : Surroundings P F)
      → Passes (open_sink fl to_lower r b w)
        ↔ (is_standalone (routing_of fl to_lower b) ≡ true → b.sink_mkdir_ok ≡ true)
  unfolding open_sink put_sink new_local_sink
  sink_iff w = elim (Bool-cases (is_standalone (routing_of fl to_lower b))) [
    | inr m ↦ (λ h n. cc (m, n), λ h. simp m (w, refl))
    | inl m ↦ elim (Bool-cases b.sink_mkdir_ok) [
      | inl o ↦ (λ h n. o, λ h. simp (m, o) (_, refl))
      | inr o ↦ (λ h n. absurd (cc (simp (m, o) at h.1)), λ h. absurd (cc (h m, o)))
    ]
  ]

  audit_iff :
      (w : Surroundings P F)
      → Passes (open_audit fl to_lower r b w) ↔ (
          is_audited (routing_of fl to_lower b) ≡ true
          → (b.audit_mkdir_ok ≡ true) × IsProbed b.probe)
  unfolding open_audit put_logger new_logger
  audit_iff w = elim (Bool-cases (is_audited (routing_of fl to_lower b))) [
    | inr m ↦ (λ h n. absurd (cc (m, n)), λ h. simp m (w, refl))
    | inl m ↦ elim (Bool-cases b.audit_mkdir_ok) [
      | inr o ↦ (λ h n. absurd (cc (simp (m, o) at h.1)), λ h. absurd (cc ((h m).0, o)))
      | inl o ↦ elim (Bool-cases (probe_writable b.probe)) [
        | inl v ↦ (λ h n. (o, (probe_iff b.probe).0 v), λ h. simp (m, o, v) (_, refl))
        | inr v ↦ (
          λ h n. absurd (cc (simp (m, o, v) at h.1)),
          λ h. absurd (cc ((probe_iff b.probe).1 (h m).1, v)),
        )
      ]
    ]
  ]

  module _ (ratios : Ratios R) (parse_bool : Text → Option Bool) where
    spool_iff :
        (w : Surroundings P F)
        → Passes (open_spool fl to_lower r ratios parse_bool b w)
          ↔ (is_empty b.spool_dir ≡ false → (b.spool_mkdir_ok ≡ true) × (b.read_dir_ok ≡ true))
    unfolding open_spool put_spool new
    spool_iff w = elim (Bool-cases (is_empty b.spool_dir)) [
      | inl m ↦ (λ h n. absurd (cc (m, n)), λ h. simp m (_, refl))
      | inr m ↦ elim (Bool-cases b.spool_mkdir_ok) [
        | inr o ↦ (λ h n. absurd (cc (simp (m, o) at h.1)), λ h. absurd (cc ((h m).0, o)))
        | inl o ↦ elim (Bool-cases b.read_dir_ok) [
          | inl v ↦ (λ h n. (o, v), λ h. simp (m, o, v) (_, refl))
          | inr v ↦ (λ h n. absurd (cc (simp (m, o, v) at h.1)), λ h. absurd (cc ((h m).1, v)))
        ]
      ]
    ]

    -- main goes on to its server exactly if it is not started as a probe, its configuration has what
    -- validateStartup asks for (the institution and the bank's salt, a mode and a keying that are
    -- known, and what they need), and what it opens can be opened: in standalone mode the sink's
    -- directory can be made; if an audit directory is set, it can be made and every call on the probe
    -- file succeeds; if a spool directory is set, it can be made and listed.
    pub start_iff :
        (get : Text → Option ℕ) (left : Surroundings P F)
        → ((s : Started (Surroundings P F)) × (start fl to_lower r get ratios parse_bool b left
              ≡ inr s))
          ↔ IsStartable fl to_lower b
    unfolding start
    start_iff get left = (on, back)
      where
        on :
            ((s : Started (Surroundings P F)) × (start fl to_lower r get ratios parse_bool b left
                ≡ inr s))
            → IsStartable fl to_lower b
        on (s, e) = elim (Bool-cases b.is_probe) [
          | inl p ↦ absurd (cc (simp p at e))
          | inr p ↦
              let (fine, opened) = checked-inr _ _ s (simp p at e) in
              let (w, sunk, logging) = and_then-inr _ _ s opened in
              let (v, logged, spooling) = and_then-inr _ _ s logging in
              (
                p,
                (validate_startup_iff (startup_of (config_of fl to_lower b) b.secrets)).0 fine,
                (sink_iff (reborn r left)).0 (w, sunk),
                (audit_iff w).0 (v, logged),
                (spool_iff v).0 (s, spooling),
              )
        ]

        back :
            IsStartable fl to_lower b
            → (s : Started (Surroundings P F)) × (start fl to_lower r get ratios parse_bool b left
                ≡ inr s)
        back (p, ready, sink, audit, spool) =
            let all =
              and_then-Passes (open_sink fl to_lower r b (reborn r left))
                (λ w.
                  and_then (open_audit fl to_lower r b w)
                    (open_spool fl to_lower r ratios parse_bool b))
                ((sink_iff (reborn r left)).1 sink)
                (λ w.
                  and_then-Passes (open_audit fl to_lower r b w)
                    (open_spool fl to_lower r ratios parse_bool b) ((audit_iff w).1 audit)
                    (λ v. (spool_iff v).1 spool)) in
            simp p (
              unfold checked in
              (rw ((validate_startup_iff (startup_of (config_of fl to_lower b) b.secrets)).1 ready)
                all))
