-- ===== src/Spool/Fifo/Steps.antt =====
-- Every step of the spool keeps the names of its directory apart, and at most one signal comes or
-- the first leaves (internal/spool/spool.go).
use mathlib.Core.Path.{subst}
use edge_gw_project.Prelude.{
  ℕ, ◌≡◌, refl, sym, ap, arith, ◌∙◌, inl, inr, Bool, true, Option, none, some, List, [], ◌∷◌, Text,
  Bool-cases, Option-cases,
}
use edge_gw_project.Spool.Dir.{DirEntry, is_json, read_file, remove_file, put_file, list_pending}
use edge_gw_project.Spool.Name.{spool_name}
use edge_gw_project.Spool.Dir.Laws.{
  HasUniqueNames, remove_file-HasUniqueNames, put_file-HasUniqueNames, temp_not_json,
  read-remove_file,
}
use edge_gw_project.Spool.Queue.{
  Hook, Spool, EnqueueFaults, ForwardFaults, write_temp_file, temp_name, reserve, commit,
  sync_directory, dec_depth, dead_letter, settle, send, forward_head, forward_oldest,
  update_oldest_pending,
}
use edge_gw_project.Spool.System.{System, job_name, Step, reserved, committed, synced, forwarded}
use edge_gw_project.Spool.Kept.{ne_of_json}
use edge_gw_project.Spool.Commit.{spool_name_json}
use edge_gw_project.Spool.Fifo.{contents, queue_of, QueueStep, stays, offers, takes}
use edge_gw_project.Spool.Fifo.Sorting.{queue_of-remove, queue_of-remove_other, queue_of-put}

-- A directory that keeps its names apart, after a step of its queue.
abbrev IsMoved : List DirEntry → List DirEntry → Type 0
IsMoved d e = HasUniqueNames e × QueueStep (queue_of d) (queue_of e)

module _ {W : Type 0} (hooks : Hook → W → W) where
  commit-IsMoved :
      (x : EnqueueFaults) (n p : Text) (s : Spool W)
      → is_json n ≡ true
      → read_file n s.dir ≡ none
      → HasUniqueNames s.dir
      → IsMoved s.dir (commit hooks x n p s).1.dir
  unfolding commit
  commit-IsMoved x n p s j fresh u = elim (Option-cases (write_temp_file x s.fsync_enabled)) [
    | inl e ↦ elim (Bool-cases x.rename_ok) [
      | inl r ↦
          rw (e, r, commit)
            (
              put_file-HasUniqueNames n p _ cleaned,
              subst (λ q. QueueStep q (queue_of (put_file n p (remove_file (temp_name n) s.dir))))
                  same (subst (QueueStep _) (sym (queue_of-put n p _ j absent)) (offers (n, p))),
            )
      | inr r ↦ rw (e, r, commit) (cleaned, unmoved)
    ]
    | inr (f, e) ↦ rw (e, commit) (cleaned, unmoved)
  ]
    where
      cleaned : HasUniqueNames (remove_file (temp_name n) s.dir)
      cleaned = remove_file-HasUniqueNames (temp_name n) s.dir u

      same : queue_of (remove_file (temp_name n) s.dir) ≡ queue_of s.dir
      same = queue_of-remove_other (temp_name n) s.dir (temp_not_json n)

      unmoved : QueueStep (queue_of s.dir) (queue_of (remove_file (temp_name n) s.dir))
      unmoved = subst (QueueStep (queue_of s.dir)) (sym same) stays

      absent : read_file n (remove_file (temp_name n) s.dir) ≡ none
      absent =
          read-remove_file (temp_name n) n s.dir (ne_of_json n (temp_name n) j (temp_not_json n))
          ∙ fresh

  pub sync-dir : (x : EnqueueFaults) (s : Spool W) → (sync_directory hooks x s).1.dir ≡ s.dir
  unfolding sync_directory
  sync-dir x s = ground arith

  -- The head leaves.
  taken :
      (n : Text) (names : List Text) (dir : List DirEntry)
      → HasUniqueNames dir
      → list_pending dir ≡ n ∷ names
      → IsMoved dir (remove_file n dir)
  unfolding queue_of contents
  taken n names dir u e = (
    remove_file-HasUniqueNames n dir u,
    subst (QueueStep (queue_of dir)) (sym (queue_of-remove n names dir u e))
        (takes (ap (λ ns. contents ns dir) e)),
  )

  dead_letter-IsMoved :
      (x : ForwardFaults) (n : Text) (names : List Text) (s : Spool W)
      → HasUniqueNames s.dir
      → list_pending s.dir ≡ n ∷ names
      → IsMoved s.dir (dead_letter hooks x n s).dir
  unfolding dead_letter dec_depth
  dead_letter-IsMoved x n names s u e = elim (Bool-cases x.bury_ok) [
    | inr b ↦ rw (b, dead_letter) (u, stays)
    | inl b ↦ elim (Option-cases (read_file n s.dir)) [
      | inl r ↦ rw (b, r, dead_letter) (u, stays)
      | inr (bytes, r) ↦ rw (b, r, dead_letter) (taken n names s.dir u e)
    ]
  ]

  module _ {E : Type 0} (is_permanent : E → Bool) (forward : Text → W → Option E × W) where
    settle-IsMoved :
        (x : ForwardFaults) (now : ℕ) (n : Text) (names : List Text) (a : Option E) (s : Spool W)
        → HasUniqueNames s.dir
        → list_pending s.dir ≡ n ∷ names
        → IsMoved s.dir (settle hooks is_permanent forward x now n (a, s)).1.dir
    unfolding settle dec_depth
    settle-IsMoved x now n names (some f) s u e = elim (Bool-cases (is_permanent f)) [
      | inl p ↦ rw (p, settle) (dead_letter-IsMoved x n names s u e)
      | inr p ↦ rw (p, settle) (u, stays)
    ]
    settle-IsMoved x now n names none s u e = elim (Bool-cases x.remove_ok) [
      | inl r ↦ rw (r, settle) (taken n names s.dir u e)
      | inr r ↦ rw (r, settle) (u, stays)
    ]

    send-IsMoved :
        (x : ForwardFaults) (now : ℕ) (n : Text) (names : List Text) (o : Option Text) (s : Spool W)
        → HasUniqueNames s.dir
        → list_pending s.dir ≡ n ∷ names
        → IsMoved s.dir (send hooks is_permanent forward x now n o s).1.dir
    unfolding send
    send-IsMoved x now n names none s u e = dead_letter-IsMoved x n names s u e
    send-IsMoved x now n names (some p) s u e =
        settle-IsMoved x now n names (forward p s.world).0
          (record s { world = (forward p s.world).1 }) u e

    pub forward_oldest-IsMoved :
        (x : ForwardFaults) (now : ℕ) (s : Spool W)
        → HasUniqueNames s.dir
        → IsMoved s.dir (forward_oldest hooks is_permanent forward x now s).1.dir
    unfolding forward_oldest update_oldest_pending dead_letter
    forward_oldest-IsMoved x now s u = elim (Bool-cases x.read_dir_ok) [
      | inr r ↦ rw (r, forward_oldest) (u, stays)
      | inl r ↦ rw (r, forward_oldest) (head_moves (list_pending s.dir) refl)
    ]
      where
        head_moves :
            (names : List Text)
            → list_pending s.dir ≡ names
            → IsMoved s.dir
                (forward_head hooks is_permanent forward x now names
                  (update_oldest_pending hooks names now s)).1.dir
        head_moves [] e = (u, stays)
        head_moves (n ∷ names) e =
            send-IsMoved x now n names _ (update_oldest_pending hooks (n ∷ names) now s) u e

    pub Step-IsMoved :
        {t v : System W}
        → Step hooks is_permanent forward t v
        → HasUniqueNames t.spool.dir
        → IsMoved t.spool.dir v.spool.dir
    unfolding reserve job_name spool_name
    Step-IsMoved {t} (reserved now p room e) u = rw (e, room) (u, stays)
    Step-IsMoved {t} (committed x j before later i (fresh, _) e) u =
        rw e (
          commit-IsMoved x (job_name j) j.payload t.spool (spool_name_json j.nanos j.number) fresh
            u)
    Step-IsMoved {t} (synced x e) u = rw e (rw (sync-dir x t.spool) (u, stays))
    Step-IsMoved {t} (forwarded x now e) u = rw e (forward_oldest-IsMoved x now t.spool u)
