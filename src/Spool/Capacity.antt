-- ===== src/Spool/Capacity.antt =====
-- What the depth counter of the spool counts (internal/spool/spool.go): the signals that wait and
-- the requests that have reserved their room.
use edge_gw_project.Prelude.{ℕ, ◌+◌, ◌≤◌, ◌≡◌, ap, inl, inr, Bool, true}
use edge_gw_project.Prelude.{Option, arith, Text}
use edge_gw_project.Prelude.{length}
use edge_gw_project.Spool.Dir.{list_pending}
use edge_gw_project.Spool.Dir.Laws.{length-list_pending}
use edge_gw_project.Spool.Queue.{Hook, reserve}
use edge_gw_project.Spool.System.{
  System, job_name, Step, Reach, reserved, committed, synced, forwarded, here, next,
}
use edge_gw_project.Spool.Within.{IsWithin, commit-IsWithin, sync-IsWithin, forward-IsWithin}
use edge_gw_project.Spool.Counted.{
  Counted, commit-Counts, sync_counts, forward_oldest_counts, job_json, shrinks,
}

module _ {W E : Type 0} (hooks : Hook → W → W) (is_permanent : E → Bool)
    (forward : Text → W → Option E × W) where
  -- The removal of a delivered file is the one system call whose failure the code passes over.
  abbrev pub Removes : {t u : System W} → Step hooks is_permanent forward t u → Type 0
  Removes (reserved now p room e) = Unit
  Removes (committed x j before after i fresh e) = Unit
  Removes (synced x e) = Unit
  Removes (forwarded x now e) = x.remove_ok ≡ true

  abbrev pub AllRemove : {t u : System W} → Reach hooks is_permanent forward t u → Type 0
  AllRemove here = Unit
  AllRemove (next r st) = AllRemove r × Removes st

  abbrev pub IsCounted : System W → Type 0
  IsCounted t = Counted (length t.in_flight) t.spool

  Step-IsCounted :
      {t u : System W} (st : Step hooks is_permanent forward t u)
      → Removes st
      → IsCounted t
      → IsCounted u
  unfolding reserve
  Step-IsCounted {t} (reserved now p room e) ok (u, c) = rw (e, room) (u, omega arith)
  Step-IsCounted {t} (committed x j before after i (fresh, _) e) ok (u, c) =
      rw e (elim (commit-Counts hooks x (job_name j) j.payload t.spool (job_json j) fresh u) [
        | inl (v, w, d) ↦ (v, omega (arith, shrinks before j after, ap length i))
        | inr (v, w, d) ↦ (v, omega (arith, shrinks before j after, ap length i))
      ])
  Step-IsCounted {t} (synced x e) ok c = rw e (sync_counts hooks x t.spool (length t.in_flight) c)
  Step-IsCounted {t} (forwarded x now e) ok c =
      rw e
        (forward_oldest_counts hooks is_permanent forward x now t.spool (length t.in_flight) ok c)

  Step-IsWithin :
      (b : ℕ) {t u : System W}
      → Step hooks is_permanent forward t u
      → IsWithin b t.spool
      → IsWithin b u.spool
  unfolding reserve
  Step-IsWithin b {t} (reserved now p room e) (m, d) = ground arith
  Step-IsWithin b {t} (committed x j before after i fresh e) w =
      rw e (commit-IsWithin hooks b x (job_name j) j.payload t.spool w)
  Step-IsWithin b {t} (synced x e) w = rw e (sync-IsWithin hooks b x t.spool w)
  Step-IsWithin b {t} (forwarded x now e) w =
      rw e (forward-IsWithin hooks is_permanent forward b x now t.spool w)

  Reach-IsWithin :
      (b : ℕ) {t u : System W}
      → Reach hooks is_permanent forward t u
      → IsWithin b t.spool
      → IsWithin b u.spool
  Reach-IsWithin b here w = w
  Reach-IsWithin b (next r st) w = Step-IsWithin b st (Reach-IsWithin b r w)

  Reach-IsCounted :
      {t u : System W} (r : Reach hooks is_permanent forward t u)
      → AllRemove r
      → IsCounted t
      → IsCounted u
  Reach-IsCounted here ok c = c
  Reach-IsCounted (next r st) (ok, o) c = Step-IsCounted st o (Reach-IsCounted r ok c)

  -- From a start with a counter that is right and at most `b`, a limit of at most `b` too, and as
  -- long as every removal of a delivered file succeeds: the counter stays the number of
  -- waiting signals and of reservations, under any interleaving and any other failures, and the
  -- signals that wait are at most `b`.
  pub depth_is_exact :
      (b : ℕ) {t u : System W} (r : Reach hooks is_permanent forward t u)
      → AllRemove r
      → IsCounted t
      → IsWithin b t.spool
      → (u.spool.depth ≡ length (list_pending u.spool.dir) + length u.in_flight)
        × (length (list_pending u.spool.dir) ≤ b)
  depth_is_exact b {u} r ok c w =
      let (_, exact) = Reach-IsCounted r ok c in
      let (_, bound) = Reach-IsWithin b r w in
      rw (length-list_pending u.spool.dir) (exact, omega arith)
