-- ===== src/Spool/Durability.antt =====
-- A signal that Enqueue has committed is never lost (internal/spool/spool.go).
use edge_gw_project.Prelude.{ℕ, ◌+◌, ◌≡◌, inl, Bool, true}
use edge_gw_project.Prelude.{Option, none, List, Text}
use edge_gw_project.Spool.Name.{spool_name}
use edge_gw_project.Spool.Queue.{Hook, Spool, EnqueueFaults, enqueue}
use edge_gw_project.Spool.System.{Job, System, Reach}
use edge_gw_project.Spool.Kept.{Kept}
use edge_gw_project.Spool.Kept.Steps.{Reach-Kept}
use edge_gw_project.Spool.Commit.{is_committed, enqueue-read, spool_name_json}
use edge_gw_project.Spool.World.{enqueue_keeps}

module _ {W E : Type 0} (hooks : Hook → W → W) (is_permanent : E → Bool)
    (forward : Text → W → Option E × W) (Good : W → Type 0)
    (hooks-Good : (h : Hook) (w : W) → Good w → Good (hooks h w))
    (forward-Good : (p : Text) (w : W) → Good w → Good (forward p w).1)
    (Confirmed : Text → W → Type 0)
    (confirms : (p : Text) (w : W) → Good w → (forward p w).0 ≡ none → Confirmed p (forward p w).1)
    (forward-Confirmed : (p q : Text) (w : W)
      → Good w
      → Confirmed p w
      → Confirmed p (forward q w).1)
    (hooks-Confirmed : (p : Text) (h : Hook) (w : W)
      → Confirmed p w
      → Confirmed p (hooks h w)) where
  -- Let the hooks and `forward` keep a property of the world that holds at first, let `forward`,
  -- wherever it holds, answer with success only where the world then has the confirmation of that
  -- payload, and let a confirmation never go away. Then a signal that Enqueue has committed (its
  -- answer is success, or a failed fsync of the directory) still waits with its payload, or lies
  -- with its payload in `dead`, or is confirmed, after any further steps of concurrent requests
  -- and of the forwarder, whichever system calls fail, as long as names stay fresh.
  pub accepted_never_lost :
      (x : EnqueueFaults) (now : ℕ) (payload : Text) (s : Spool W) (jobs : List Job) {t : System W}
      → is_committed (enqueue hooks x now payload s).0 ≡ true
      → Reach hooks is_permanent forward
          (record { spool = (enqueue hooks x now payload s).1; in_flight = jobs })
          t
      → Good s.world
      → Kept Confirmed (spool_name now (s.seq + 1)) payload t.spool
  accepted_never_lost x now payload s jobs h r g =
      (Reach-Kept hooks is_permanent forward
        (record {
          Good = Good;
          hooks_keep = hooks-Good;
          forward_keeps = forward-Good;
          Confirmed = Confirmed;
          confirms = confirms;
          forward_confirmed = forward-Confirmed;
          hooks_confirmed = hooks-Confirmed;
        })
        (spool_name now (s.seq + 1)) payload (spool_name_json now (s.seq + 1)) r
        (enqueue_keeps hooks is_permanent forward Good hooks-Good forward-Good x now payload s g)
        (inl (enqueue-read hooks x now payload s h))).1
