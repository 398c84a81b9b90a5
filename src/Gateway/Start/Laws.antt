-- ===== src/Gateway/Start/Laws.antt =====
-- What a process that goes on to its server with a spool has made sure of (cmd/gateway/main.go).
use edge_gw_project.Prelude.{
  ℕ, ◌≡◌, refl, sym, ap, ◌⊎◌, inl, inr, Bool, true, false, Option, none, some, List, [], ◌∷◌, Text,
  Bool-cases, Option-cases, is_empty, codes, text_eq,
}
use mathlib.Core.Path.{subst}
use edge_gw_project.Processor.Outside.{Floats}
use edge_gw_project.DayLog.{Files}
use edge_gw_project.AuditLog.{Logger, ProbeFaults, new_logger, probe_writable}
use edge_gw_project.Spool.Dir.{DirEntry}
use edge_gw_project.Spool.Queue.{Hook, Spool, new}
use edge_gw_project.Gateway.Sink.{new_local_sink}
use edge_gw_project.Gateway.Startup.{Problem, validate_startup}
use edge_gw_project.Gateway.Startup.Keys.{startup_of}
use edge_gw_project.Gateway.Limits.{Ratios, max_depth_of}
use edge_gw_project.Gateway.Metrics.{Reals}
use edge_gw_project.Gateway.Transaction.{Gateway}
use edge_gw_project.Gateway.Wiring.{Surroundings, is_standalone, is_audited, hooks, reborn}
use edge_gw_project.Gateway.Start.{
  Exit, Boot, Started, with_spool, checked, and_then, put_sink, put_logger, put_spool, config_of,
  routing_of, open_sink, open_audit, open_spool, start, fsync_enabled_from_env,
}

pub and_then-inr :
    {A B : Type 0} (x : Exit ⊎ A) (f : A → Exit ⊎ B) (b : B)
    → and_then x f ≡ inr b
    → (a : A) × (x ≡ inr a) × (f a ≡ inr b)
unfolding and_then
and_then-inr (inl e) f b h = absurd (cc h)
and_then-inr (inr a) f b h = (a, refl, h)

pub checked-inr :
    {A : Type 0} (ps : List Problem) (k : Exit ⊎ A) (a : A)
    → checked ps k ≡ inr a
    → (ps ≡ []) × (k ≡ inr a)
unfolding checked
checked-inr [] k a h = (refl, h)
checked-inr (p ∷ ps) k a h = absurd (cc h)

of_inr : {A : Type 0} {x : Exit ⊎ A} {a c : A} → x ≡ inr a → x ≡ inr c → a ≡ c
of_inr h e = cc (h, e)

of_spool :
    {W : Type 0} {x : Exit ⊎ Started W} {a c : Gateway W}
    → x ≡ inr (with_spool a)
    → x ≡ inr (with_spool c)
    → a ≡ c
of_spool h e = cc (h, e)

new-readable :
    {W : Type 0} (hooks : Hook → W → W) (ok : Bool) (dir dead : List DirEntry) (m : ℕ) (f : Bool)
    (now : ℕ) (w : W) (s : Spool W)
    → new hooks ok dir dead m f now w ≡ some s
    → new hooks true dir dead m f now w ≡ some s
unfolding new
new-readable hooks true dir dead m f now w s e = e
new-readable hooks false dir dead m f now w s e = absurd (cc e)

-- No file is open, and the guard holds no digest.
abbrev pub IsFresh : {P F : Type 0} → Surroundings P F → Type 0
IsFresh w =
    (w.trail.logger.log.handle ≡ none) × (w.trail.dest.sink.handle ≡ none) × (w.trail.digest ≡ [])

module _ {P F : Type 0} where
  put_sink-IsFresh :
      (w v : Surroundings P F) (ok : Bool) (files : Files)
      → put_sink w (new_local_sink ok files) ≡ inr v
      → IsFresh w
      → IsFresh v
  unfolding put_sink new_local_sink
  put_sink-IsFresh w v true files e (l, s, d) = subst IsFresh (of_inr refl e) (l, refl, d)
  put_sink-IsFresh w v false files e k = absurd (cc e)

  put_logger-IsFresh :
      (w v : Surroundings P F) (ok : Bool) (probe : ProbeFaults) (dir : Text) (store : Bool)
      → put_logger w (new_logger ok probe dir store w.trail.logger.log) ≡ inr v
      → IsFresh w
      → IsFresh v
  unfolding put_logger new_logger
  put_logger-IsFresh w v false probe dir store e k = absurd (cc e)
  put_logger-IsFresh w v true probe dir store e (l, s, d) =
      elim (Bool-cases (probe_writable probe)) [
        | inl good ↦
            let l : Logger = record {
              dir = dir;
              store_payload = store;
              log = record w.trail.logger.log { handle = none };
            } in
            subst IsFresh {x = record w { trail = record w.trail { logger = l } }} {y = v}
              (of_inr (simp good refl) e) (refl, s, d)
        | inr bad ↦ absurd (cc (simp bad at e))
      ]

  put_spool-some :
      (r : Reals F) (m : ℕ) (s : Spool (Surroundings P F)) (g : Gateway (Surroundings P F))
      → put_spool r m (some s) ≡ inr (with_spool g)
      → (g.spool.dir ≡ s.dir)
        × (g.spool.dead ≡ s.dead)
        × (g.spool.depth ≡ s.depth)
        × (g.spool.world.trail ≡ s.world.trail)
        × (g.spool.max_depth ≡ s.max_depth)
  unfolding put_spool
  put_spool-some r m s g h =
      let same = of_spool refl h in
      (
        ap (λ a. a.spool.dir) (sym same),
        ap (λ a. a.spool.dead) (sym same),
        ap (λ a. a.spool.depth) (sym same),
        ap (λ a. a.spool.world.trail) (sym same),
        ap (λ a. a.spool.max_depth) (sym same),
      )

module _ {G R : Type 0} (fl : Floats G) (to_lower : ℕ → ℕ) {P F : Type 0} (r : Reals F) where
  open_sink-IsFresh :
      (b : Boot G R) (w v : Surroundings P F)
      → open_sink fl to_lower r b w ≡ inr v
      → IsFresh w
      → IsFresh v
  unfolding open_sink
  open_sink-IsFresh b w v e k = elim (Bool-cases (is_standalone (routing_of fl to_lower b))) [
    | inl m ↦ put_sink-IsFresh w v b.sink_mkdir_ok w.trail.dest.sink.files (simp m at e) k
    | inr m ↦ subst IsFresh {x = w} {y = v} (of_inr (simp m refl) e) k
  ]

  open_audit-IsFresh :
      (b : Boot G R) (w v : Surroundings P F)
      → open_audit fl to_lower r b w ≡ inr v
      → IsFresh w
      → IsFresh v
  unfolding open_audit
  open_audit-IsFresh b w v e k = elim (Bool-cases (is_audited (routing_of fl to_lower b))) [
    | inl m ↦
        put_logger-IsFresh w v b.audit_mkdir_ok b.probe b.egress_audit_dir
          (text_eq b.egress_audit_store_payload (codes "true")) (simp m at e) k
    | inr m ↦ subst IsFresh {x = w} {y = v} (of_inr (simp m refl) e) k
  ]

  module _ (ratios : Ratios R) (parse_bool : Text → Option Bool) (b : Boot G R) where
    -- What spool.New gets from main.
    abbrev pub made : Surroundings P F → Option (Spool (Surroundings P F))
    made w =
        new (hooks r (routing_of fl to_lower b)) true b.dir b.dead (max_depth_of ratios b.limits)
          (fsync_enabled_from_env parse_bool b.spool_fsync) b.now w

    pub open_spool-made :
        (w : Surroundings P F) (g : Gateway (Surroundings P F))
        → open_spool fl to_lower r ratios parse_bool b w ≡ inr (with_spool g)
        → (s : Spool (Surroundings P F)) × (made w ≡ some s)
          × (g.spool.dir ≡ s.dir)
          × (g.spool.dead ≡ s.dead)
          × (g.spool.depth ≡ s.depth)
          × (g.spool.world.trail ≡ s.world.trail)
          × (g.spool.max_depth ≡ s.max_depth)
    unfolding open_spool put_spool
    open_spool-made w g e = elim (Bool-cases (is_empty b.spool_dir)) [
      | inl none_set ↦ absurd (cc (simp none_set at e))
      | inr set ↦ elim (Bool-cases b.spool_mkdir_ok) [
        | inr bad ↦ absurd (cc (simp (set, bad) at e))
        | inl good ↦ put (simp (set, good) at e)
      ]
    ]
      where
        got : Option (Spool (Surroundings P F))
        got =
            new (hooks r (routing_of fl to_lower b)) b.read_dir_ok b.dir b.dead
              (max_depth_of ratios b.limits) (fsync_enabled_from_env parse_bool b.spool_fsync) b.now
              w

        put :
            put_spool r (max_depth_of ratios b.limits) got ≡ inr (with_spool g)
            → (s : Spool (Surroundings P F)) × (made w ≡ some s)
              × (g.spool.dir ≡ s.dir)
              × (g.spool.dead ≡ s.dead)
              × (g.spool.depth ≡ s.depth)
              × (g.spool.world.trail ≡ s.world.trail)
              × (g.spool.max_depth ≡ s.max_depth)
        put h = elim (Option-cases got) [
          | inl none_made ↦ absurd (cc (simp none_made at h))
          | inr (s, e) ↦
              let (dir, dead, depth, trail, limit) =
                put_spool-some r (max_depth_of ratios b.limits) s g (simp e at h) in
              let readable =
                new-readable (hooks r (routing_of fl to_lower b)) b.read_dir_ok b.dir b.dead
                  (max_depth_of ratios b.limits) (fsync_enabled_from_env parse_bool b.spool_fsync)
                  b.now w s e in
              (s, readable, dir, dead, depth, trail, limit)
        ]

    pub start-opened :
        (get : Text → Option ℕ) (left : Surroundings P F) (g : Gateway (Surroundings P F))
        → start fl to_lower r get ratios parse_bool b left ≡ inr (with_spool g)
        → (validate_startup (startup_of (config_of fl to_lower b) b.secrets) ≡ [])
          × ((w : Surroundings P F) × IsFresh w
              × (open_spool fl to_lower r ratios parse_bool b w ≡ inr (with_spool g)))
    unfolding start
    start-opened get left g e = elim (Bool-cases b.is_probe) [
      | inl p ↦ absurd (cc (simp p at e))
      | inr p ↦
          let (fine, rest) = checked-inr _ _ (with_spool g) (simp p at e) in
          let (w, sunk, rest) = and_then-inr _ _ (with_spool g) rest in
          let (v, logged, last) = and_then-inr _ _ (with_spool g) rest in
          (
            fine,
            (
              v,
              open_audit-IsFresh b w v logged (
                  open_sink-IsFresh b (reborn r left) w sunk (unfold reborn in (refl, refl, refl))),
              last,
            ),
          )
    ]
