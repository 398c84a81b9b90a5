-- ===== src/Spool/Kept/Steps.antt =====
-- No step of requests and of the forwarder loses a signal (internal/spool/spool.go).
use edge_gw_project.Prelude.{◌≡◌, Bool, true}
use edge_gw_project.Prelude.{Option, Text}
use edge_gw_project.Spool.Dir.{is_json}
use edge_gw_project.Spool.Queue.{Hook, reserve}
use edge_gw_project.Spool.System.{
  System, job_name, Step, Reach, reserved, committed, synced, forwarded,
}
use edge_gw_project.Spool.System.{here, next}
use edge_gw_project.Spool.World.{Moves_keep, Step-Moves}
use edge_gw_project.Spool.Kept.{Confirmation, Kept}
use edge_gw_project.Spool.Kept.Enqueue.{commit-Kept, sync_directory-Kept}
use edge_gw_project.Spool.Kept.Forward.{forward_oldest-Kept}

module _ {W E : Type 0} (hooks : Hook → W → W) (is_permanent : E → Bool)
    (forward : Text → W → Option E × W) (law : Confirmation hooks forward) (name payload : Text)
    (json : is_json name ≡ true) where
  Step-Kept :
      {t u : System W}
      → Step hooks is_permanent forward t u
      → law.Good t.spool.world
      → Kept law.Confirmed name payload t.spool
      → Kept law.Confirmed name payload u.spool
  unfolding reserve
  Step-Kept {t} (reserved now p room e) g k = rw (e, room) k
  Step-Kept {t} (committed x j before after _ fresh e) g k =
      rw e
        (commit-Kept hooks forward law name payload json x (job_name j) j.payload t.spool fresh k)
  Step-Kept {t} (synced x e) g k =
      rw e (sync_directory-Kept hooks forward law name payload json x t.spool k)
  Step-Kept {t} (forwarded x now e) g k =
      rw e (forward_oldest-Kept hooks is_permanent forward law name payload json x now t.spool g k)

  pub Reach-Kept :
      {t u : System W}
      → Reach hooks is_permanent forward t u
      → law.Good t.spool.world
      → Kept law.Confirmed name payload t.spool
      → law.Good u.spool.world × Kept law.Confirmed name payload u.spool
  Reach-Kept here g k = (g, k)
  Reach-Kept (next r st) g k =
      let (h, kept) = Reach-Kept r g k in
      (
        Moves_keep law.Good law.hooks_keep law.forward_keeps
            (Step-Moves hooks is_permanent forward st) h,
        Step-Kept st h kept,
      )
