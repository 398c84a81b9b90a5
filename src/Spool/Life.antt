-- ===== src/Spool/Life.antt =====
-- The spool over restarts of the process (internal/spool/spool.go, New): what waits in the
-- directory is taken up again.
use mathlib.Core.Path.{subst}
use edge_gw_project.Prelude.{
  length, false, ℕ, ◌≡◌, sym, ap, ◌∙◌, Bool, true, Option, some, none, List, [], Text, inr,
}
use edge_gw_project.Spool.Name.{spool_name}
use edge_gw_project.Spool.Commit.{spool_name_json}
use edge_gw_project.Spool.Dir.{DirEntry, is_json, read_file, list_pending}
use edge_gw_project.Spool.Queue.{
  Hook, on_depth, on_oldest_pending_age, Spool, oldest_of, update_oldest_pending, report_depth, new,
}
use edge_gw_project.Spool.System.{System, Reach}
use edge_gw_project.Spool.Kept.{Confirmation, Kept, Kept-same}
use edge_gw_project.Spool.Kept.Steps.{Reach-Kept}

-- The same signals in a directory in which a crash may have left temporary files.
abbrev pub HasSameSignals : List DirEntry → List DirEntry → Type 0
HasSameSignals d e = (n : Text) → is_json n ≡ true → read_file n e ≡ read_file n d

module _ {W E : Type 0} (hooks : Hook → W → W) (is_permanent : E → Bool)
    (forward : Text → W → Option E × W) (reborn : W → W) where
  -- Runs of the process and restarts between them; `reborn` is what a restart does to the world.
  pub data Life (t : System W) : System W → Type 0 where
    runs : {u : System W} → Reach hooks is_permanent forward t u → Life t u
    restarts :
        {u v : System W} {s : Spool W} (dir : List DirEntry) (max_depth : ℕ) (fsync_enabled : Bool)
        (now : ℕ)
        → Life t u
        → HasSameSignals u.spool.dir dir
        → new hooks true dir u.spool.dead max_depth fsync_enabled now (reborn u.spool.world)
          ≡ some s
        → Reach hooks is_permanent forward (record { spool = s; in_flight = [] }) v
        → Life t v

  pub opened :
      (dir dead : List DirEntry) (m : ℕ) (f : Bool) (now : ℕ) (w : W) (s : Spool W)
      → new hooks true dir dead m f now w ≡ some s
      → (s.dir ≡ dir)
        × (s.dead ≡ dead)
        × (s.depth ≡ length (list_pending dir))
        × (s.world
            ≡ hooks
                (on_oldest_pending_age (oldest_of (list_pending dir)) now)
                (hooks (on_depth (length (list_pending dir))) w))
        × (s.max_depth ≡ m)
  unfolding new update_oldest_pending report_depth
  opened dir dead m f now w s e = (
    sym (ap (λ x. x.dir) made),
    sym (ap (λ x. x.dead) made),
    sym (ap (λ x. x.depth) made),
    sym (ap (λ x. x.world) made),
    sym (ap (λ x. x.max_depth) made),
  )
    where
      first : Spool W
      first = record {
        dir = dir;
        dead = dead;
        max_depth = m;
        depth = length (list_pending dir);
        seq = 0;
        oldest_pending_at = none;
        wake = false;
        dir_fsync_failures = 0;
        fsync_enabled = f;
        world = w;
      }

      made : update_oldest_pending hooks (list_pending dir) now (report_depth hooks first) ≡ s
      made = cc e

  module _ (law : Confirmation hooks forward)
      (reborn_keeps : (w : W) → law.Good w → law.Good (reborn w))
      (reborn_confirmed : (p : Text) (w : W) → law.Confirmed p w → law.Confirmed p (reborn w))
      (name payload : Text) (json : is_json name ≡ true) where
    -- Over any runs and restarts, a signal stays where it can be.
    pub Life-Kept :
        {t u : System W}
        → Life t u
        → law.Good t.spool.world
        → Kept law.Confirmed name payload t.spool
        → law.Good u.spool.world × Kept law.Confirmed name payload u.spool
    Life-Kept (runs reach) g k =
        Reach-Kept hooks is_permanent forward law name payload json reach g k
    Life-Kept (restarts {u} {v} {s} dir m f now life same e reach) g k =
        let (good, kept) = Life-Kept life g k in
        let (d, dd, n, w, limit) = opened dir u.spool.dead m f now (reborn u.spool.world) s e in
        Reach-Kept hooks is_permanent forward law name payload json reach
          (subst law.Good (sym w)
            (law.hooks_keep _ _ (law.hooks_keep _ _ (reborn_keeps u.spool.world good))))
          (Kept-same law.Confirmed name payload u.spool.dir s.dir u.spool.dead s.dead u.spool.world
            s.world (ap (read_file name) d ∙ same name json) (ap (read_file name) dd)
            (λ c. subst (law.Confirmed payload) (sym w) (
              law.hooks_confirmed payload _ _
                (law.hooks_confirmed payload _ _ (reborn_confirmed payload u.spool.world c))))
            kept)

  -- What the hooks, `forward` and a restart keep holds over any runs and restarts.
  pub Life_keep :
      (P : W → Type 0)
      → ((h : Hook) (w : W) → P w → P (hooks h w))
      → ((p : Text) (w : W) → P w → P (forward p w).1)
      → ((w : W) → P w → P (reborn w))
      → {t u : System W} → Life t u
      → P t.spool.world
      → P u.spool.world
  Life_keep P hooks_keep forward_keeps reborn_keeps life k =
      let law : Confirmation hooks forward = record {
        Good = P;
        hooks_keep = hooks_keep;
        forward_keeps = forward_keeps;
        Confirmed = λ p w. Unit;
        confirms = λ p w g e. tt;
        forward_confirmed = λ p q w g c. tt;
        hooks_confirmed = λ p h w c. tt;
      } in
      (Life-Kept law reborn_keeps (λ p w c. tt) (spool_name 0 0) [] (spool_name_json 0 0) life k
        (inr (inr tt))).0
