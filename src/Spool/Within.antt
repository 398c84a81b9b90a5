-- ===== src/Spool/Within.antt =====
-- A bound on the depth counter of the spool that every operation keeps (internal/spool/spool.go).
use edge_gw_project.Prelude.{ℕ, ◌≤◌, inl, inr, Bool}
use edge_gw_project.Prelude.{Option, none, some, List, [], ◌∷◌, arith, Text, Bool-cases}
use edge_gw_project.Spool.Dir.{list_pending}
use edge_gw_project.Spool.Queue.{
  Hook, Spool, EnqueueFaults, ForwardFaults, commit, sync_directory, dead_letter, settle, send,
  read_head, forward_head, forward_oldest, update_oldest_pending,
}

abbrev pub IsWithin : {W : Type 0} → ℕ → Spool W → Type 0
IsWithin b s = (s.max_depth ≤ b) × (s.depth ≤ b)

module _ {W : Type 0} (hooks : Hook → W → W) (b : ℕ) where
  pub commit-IsWithin :
      (x : EnqueueFaults) (n p : Text) (s : Spool W)
      → IsWithin b s
      → IsWithin b (commit hooks x n p s).1
  unfolding commit
  commit-IsWithin x n p s w = ground arith

  pub sync-IsWithin :
      (x : EnqueueFaults) (s : Spool W) → IsWithin b s → IsWithin b (sync_directory hooks x s).1
  unfolding sync_directory
  sync-IsWithin x s w = ground arith

  dead-IsWithin :
      (x : ForwardFaults) (n : Text) (s : Spool W)
      → IsWithin b s
      → IsWithin b (dead_letter hooks x n s)
  unfolding dead_letter
  dead-IsWithin x n s w = ground arith

module _ {W E : Type 0} (hooks : Hook → W → W) (is_permanent : E → Bool)
    (forward : Text → W → Option E × W) (b : ℕ) where
  send-IsWithin :
      (x : ForwardFaults) (now : ℕ) (n : Text) (o : Option Text) (s : Spool W)
      → IsWithin b s
      → IsWithin b (send hooks is_permanent forward x now n o s).1
  unfolding send settle
  send-IsWithin x now n none s w = dead-IsWithin hooks b x n s w
  send-IsWithin x now n (some p) s w =
      ground (arith, dead-IsWithin hooks b x n (record s { world = (forward p s.world).1 }) w)

  head-IsWithin :
      (x : ForwardFaults) (now : ℕ) (names : List Text) (s : Spool W)
      → IsWithin b s
      → IsWithin b (forward_head hooks is_permanent forward x now names s).1
  unfolding forward_head
  head-IsWithin x now [] s w = w
  head-IsWithin x now (n ∷ names) s w = send-IsWithin x now n (read_head x n s) s w

  pub forward-IsWithin :
      (x : ForwardFaults) (now : ℕ) (s : Spool W)
      → IsWithin b s
      → IsWithin b (forward_oldest hooks is_permanent forward x now s).1
  unfolding forward_oldest
  forward-IsWithin x now s w = elim (Bool-cases x.read_dir_ok) [
    | inl r ↦ simp r (
        head-IsWithin x now (list_pending s.dir)
          (update_oldest_pending hooks (list_pending s.dir) now s) w)
    | inr r ↦ simp r w
  ]
