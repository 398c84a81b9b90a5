-- ===== src/Spool/Commit.antt =====
-- What Enqueue has done when it answers (internal/spool/spool.go).
use mathlib.Core.List.{append_assoc}
use edge_gw_project.Prelude.{ℕ, ◌+◌, ◌≡◌, inl, inr, Bool, true, false}
use edge_gw_project.Prelude.{Option, none, some, ◌∷◌, ◌++◌, arith, Text, codes, leb, Bool-cases}
use edge_gw_project.Prelude.{Option-cases}
use edge_gw_project.Spool.Name.{spool_name, pad_decimal}
use edge_gw_project.Spool.Dir.{read_file, remove_file, is_json}
use edge_gw_project.Spool.Dir.Laws.{has_suffix-append, read-put_file_self}
use edge_gw_project.Spool.Queue.{
  Hook, Spool, EnqueueFaults, EnqueueError, spool_full, dir_fsync_failed, after_commit, enqueue,
  after_reserve, write_temp_file, temp_name, reserve, commit, sync_directory,
}

-- Whether an answer of Enqueue leaves the signal in the queue.
unfoldable pub is_committed : Option EnqueueError → Bool
is_committed none = true
is_committed (some (dir_fsync_failed n)) = true
is_committed (some _) = false

not_committed_write :
    (x : EnqueueFaults) (fsync : Bool) (e : EnqueueError)
    → write_temp_file x fsync ≡ some e
    → is_committed (some e) ≡ false
unfolding write_temp_file is_committed
not_committed_write x fsync e h = ground arith

module _ {W : Type 0} (hooks : Hook → W → W) where
  pub sync_directory-dir :
      (x : EnqueueFaults) (s : Spool W) → (sync_directory hooks x s).1.dir ≡ s.dir
  unfolding sync_directory
  sync_directory-dir x s = ground arith

  pub reserve_room :
      (now : ℕ) (s : Spool W)
      → leb s.max_depth s.depth ≡ false
      → reserve hooks now s
        ≡ (some (spool_name now (s.seq + 1)), record s { depth = s.depth + 1; seq = s.seq + 1 })
  unfolding reserve
  reserve_room now s room = rw room

  committed_read :
      (x : EnqueueFaults) (name payload : Text) (s : Spool W)
      → is_committed (after_commit hooks x (commit hooks x name payload s)).0 ≡ true
      → read_file name (after_commit hooks x (commit hooks x name payload s)).1.dir ≡ some payload
  unfolding after_commit commit is_committed
  committed_read x name payload s h = elim (Option-cases (write_temp_file x s.fsync_enabled)) [
    | inl e ↦ ground (
      arith,
      sync_directory-dir x (commit hooks x name payload s).1,
      read-put_file_self name payload (remove_file (temp_name name) s.dir),
    )
    | inr (f, e) ↦ ground (arith, not_committed_write x s.fsync_enabled f e)
  ]

  pub refused_full :
      (x : EnqueueFaults) (now : ℕ) (payload : Text) (s : Spool W)
      → leb s.max_depth s.depth ≡ true
      → enqueue hooks x now payload s ≡ (some spool_full, s)
  unfolding enqueue reserve after_reserve
  refused_full x now payload s full = rw full

  -- An accepted signal lies in the directory under its name.
  pub enqueue-read :
      (x : EnqueueFaults) (now : ℕ) (payload : Text) (s : Spool W)
      → is_committed (enqueue hooks x now payload s).0 ≡ true
      → read_file (spool_name now (s.seq + 1)) (enqueue hooks x now payload s).1.dir ≡ some payload
  unfolding enqueue after_reserve is_committed
  enqueue-read x now payload s h = elim (Bool-cases (leb s.max_depth s.depth)) [
    | inl full ↦ cc (rw (refused_full x now payload s full) at h)
    | inr room ↦
        let e = reserve_room now s room in
        rw (e, after_reserve)
          (committed_read x (spool_name now (s.seq + 1)) payload _ (rw (e, after_reserve) at h))
  ]

pub spool_name_json : (nanos number : ℕ) → is_json (spool_name nanos number) ≡ true
unfolding spool_name
spool_name_json nanos number =
    rw (← append_assoc (pad_decimal 20 nanos) (b'-' ∷ pad_decimal 6 number) (codes ".json"))
      (has_suffix-append (pad_decimal 20 nanos ++ (b'-' ∷ pad_decimal 6 number)) (codes ".json"))
