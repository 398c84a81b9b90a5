-- ===== src/Spool/World.antt =====
-- What the spool does to the world outside: calls of its hooks and of `forward`, and nothing else
-- (internal/spool/spool.go).
use edge_gw_project.Prelude.{
  ℕ, ◌+◌, leb, inl, inr, Bool, Option, none, some, List, [], ◌∷◌, Text, Bool-cases, Option-cases,
}
use edge_gw_project.Spool.Name.{spool_name}
use edge_gw_project.Spool.Dir.{read_file, list_pending}
use edge_gw_project.Spool.Queue.{
  Hook, Spool, EnqueueFaults, ForwardFaults, write_temp_file, reserve, commit, sync_directory,
  dec_depth, report_depth, dead_letter, settle, send, forward_head, forward_oldest,
  update_oldest_pending, enqueue, after_commit, after_reserve, EnqueueError,
}
use edge_gw_project.Spool.System.{System, job_name, Step, reserved, committed, synced, forwarded}

-- The worlds that calls of the hooks and of `forward` lead to.
pub data Moves {W E : Type 0} (hooks : Hook → W → W) (forward : Text → W → Option E × W) (w : W)
    : W → Type 0 where
  still : Moves hooks forward w w
  hooked : (h : Hook) {v : W} → Moves hooks forward w v → Moves hooks forward w (hooks h v)
  sent : (p : Text) {v : W} → Moves hooks forward w v → Moves hooks forward w (forward p v).1

-- What hooks and `forward` keep, every such world has.
pub Moves_keep :
    {W E : Type 0} {hooks : Hook → W → W} {forward : Text → W → Option E × W} (P : W → Type 0)
    → ((h : Hook) (w : W) → P w → P (hooks h w))
    → ((p : Text) (w : W) → P w → P (forward p w).1)
    → {w v : W} → Moves hooks forward w v
    → P w
    → P v
Moves_keep P a b still k = k
Moves_keep P a b (hooked h {v} m) k = a h v (Moves_keep P a b m k)
Moves_keep P a b (sent p {v} m) k = b p v (Moves_keep P a b m k)

module _ {W E : Type 0} (hooks : Hook → W → W) (is_permanent : E → Bool)
    (forward : Text → W → Option E × W) where
  abbrev Shifts : Spool W → Spool W → Type 0
  Shifts s t = Moves hooks forward s.world t.world

  dead_letter-Moves :
      (w : W) (x : ForwardFaults) (n : Text) (s : Spool W)
      → Moves hooks forward w s.world
      → Moves hooks forward w (dead_letter hooks x n s).world
  unfolding dead_letter dec_depth report_depth
  dead_letter-Moves w x n s m = elim (Bool-cases x.bury_ok) [
    | inl b ↦ elim (Option-cases (read_file n s.dir)) [
      | inl r ↦ rw (b, r, dead_letter) m
      | inr (bytes, r) ↦ rw (b, r, dead_letter) (hooked _ (hooked _ m))
    ]
    | inr b ↦ rw (b, dead_letter) m
  ]

  settle-Moves :
      (w : W) (x : ForwardFaults) (now : ℕ) (n : Text) (a : Option E) (s : Spool W)
      → Moves hooks forward w s.world
      → Moves hooks forward w (settle hooks is_permanent forward x now n (a, s)).1.world
  unfolding settle dec_depth report_depth
  settle-Moves w x now n none s m = elim (Bool-cases x.remove_ok) [
    | inl r ↦ rw r (hooked _ (hooked _ m))
    | inr r ↦ rw r (hooked _ (hooked _ m))
  ]
  settle-Moves w x now n (some f) s m = elim (Bool-cases (is_permanent f)) [
    | inl p ↦ rw (p, settle) (dead_letter-Moves w x n s m)
    | inr p ↦ rw (p, settle) (hooked _ m)
  ]

  forward_oldest-Moves :
      (x : ForwardFaults) (now : ℕ) (s : Spool W)
      → Shifts s (forward_oldest hooks is_permanent forward x now s).1
  unfolding forward_oldest update_oldest_pending forward_head send
  forward_oldest-Moves x now s = elim (Bool-cases x.read_dir_ok) [
    | inr r ↦ simp r still
    | inl r ↦ simp r (at_head (list_pending s.dir))
  ]
    where
      sends :
          (n : Text) (o : Option Text) (t : Spool W)
          → Moves hooks forward s.world t.world
          → Moves hooks forward s.world (send hooks is_permanent forward x now n o t).1.world
      sends n none t m = (dead_letter-Moves s.world x n t m)
      sends n (some p) t m =
          (settle-Moves s.world x now n (forward p t.world).0
            (record t { world = (forward p t.world).1 }) (sent p m))

      at_head :
          (names : List Text)
          → Moves hooks forward s.world
              (forward_head hooks is_permanent forward x now names
                (update_oldest_pending hooks names now s)).1.world
      at_head [] = hooked _ still
      at_head (n ∷ names) =
          sends n _ (update_oldest_pending hooks (n ∷ names) now s) (hooked _ still)

  commit-Moves : (x : EnqueueFaults) (n p : Text) (s : Spool W) → Shifts s (commit hooks x n p s).1
  unfolding commit report_depth dec_depth
  commit-Moves x n p s = elim (Option-cases (write_temp_file x s.fsync_enabled)) [
    | inl e ↦ elim (Bool-cases x.rename_ok) [
      | inl r ↦ rw (e, r, commit) (hooked _ still)
      | inr r ↦ rw (e, r, commit) (hooked _ still)
    ]
    | inr (f, e) ↦ rw (e, commit) (hooked _ still)
  ]

  sync_directory-Moves : (x : EnqueueFaults) (s : Spool W) → Shifts s (sync_directory hooks x s).1
  unfolding sync_directory
  sync_directory-Moves x s = elim (Bool-cases s.fsync_enabled) [
    | inl b ↦ elim (Bool-cases x.sync_dir_ok) [
      | inl d ↦ rw (b, d, sync_directory) still
      | inr d ↦ rw (b, d, sync_directory) (hooked _ still)
    ]
    | inr b ↦ rw b still
  ]

  pub Step-Moves : {t u : System W} → Step hooks is_permanent forward t u → Shifts t.spool u.spool
  unfolding reserve
  Step-Moves {t} (reserved now p room e) = rw (e, room) still
  Step-Moves {t} (committed x j before after i fresh e) =
      rw e (commit-Moves x (job_name j) j.payload t.spool)
  Step-Moves {t} (synced x e) = rw e (sync_directory-Moves x t.spool)
  Step-Moves {t} (forwarded x now e) = rw e (forward_oldest-Moves x now t.spool)

  module _ (P : W → Type 0) (hooks-P : (h : Hook) (w : W) → P w → P (hooks h w))
      (forward-P : (p : Text) (w : W) → P w → P (forward p w).1) where
    after_commit_keeps :
        (x : EnqueueFaults) (r : Option EnqueueError × Spool W)
        → P r.1.world
        → P (after_commit hooks x r).1.world
    unfolding after_commit
    after_commit_keeps x (some e, s) k = k
    after_commit_keeps x (none, s) k = Moves_keep P hooks-P forward-P (sync_directory-Moves x s) k

    -- Enqueue, whatever its answer.
    pub enqueue_keeps :
        (x : EnqueueFaults) (now : ℕ) (payload : Text) (s : Spool W)
        → P s.world
        → P (enqueue hooks x now payload s).1.world
    unfolding enqueue reserve after_reserve
    enqueue_keeps x now payload s k = elim (Bool-cases (leb s.max_depth s.depth)) [
      | inl full ↦ rw full k
      | inr room ↦
          let name = spool_name now (s.seq + 1) in
          let taken = record s { depth = s.depth + 1; seq = s.seq + 1 } in
          rw (room, after_reserve)
            (after_commit_keeps x (commit hooks x name payload taken)
              (Moves_keep P hooks-P forward-P (commit-Moves x name payload taken) k))
    ]
