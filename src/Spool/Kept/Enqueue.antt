-- ===== src/Spool/Kept/Enqueue.antt =====
-- Enqueue moves no signal but its own (internal/spool/spool.go).
use edge_gw_project.Prelude.{◌≡◌, refl, ◌∙◌, ◌≢◌, inl, inr, true}
use edge_gw_project.Prelude.{Option, Text, Bool-cases}
use edge_gw_project.Prelude.{Option-cases}
use edge_gw_project.Spool.Dir.{read_file, remove_file, put_file, is_json}
use edge_gw_project.Spool.Dir.Laws.{read-remove_file, read-put_file, temp_not_json}
use edge_gw_project.Spool.Queue.{
  Hook, Spool, EnqueueFaults, write_temp_file, temp_name, commit, sync_directory, report_depth,
}
use edge_gw_project.Spool.System.{IsFresh}
use edge_gw_project.Spool.Kept.{Confirmation, Kept, Kept-same, ne_of_json}

module _ {W E : Type 0} (hooks : Hook → W → W) (forward : Text → W → Option E × W)
    (law : Confirmation hooks forward) (name payload : Text) (json : is_json name ≡ true) where
  pub commit-Kept :
      (x : EnqueueFaults) (n p : Text) (s : Spool W)
      → IsFresh n s
      → Kept law.Confirmed name payload s
      → Kept law.Confirmed name payload (commit hooks x n p s).1
  unfolding commit
  commit-Kept x n p s (new, bare) k = elim (Option-cases (write_temp_file x s.fsync_enabled)) [
    | inl e ↦ elim (Bool-cases x.rename_ok) [
      | inl r ↦ rw (e, r, commit) (stored k)
      | inr r ↦
          rw (e, r, commit)
            (Kept-same law.Confirmed name payload s.dir _ s.dead _ s.world _ apart refl
              (law.hooks_confirmed payload _ s.world) k)
    ]
    | inr (f, e) ↦
        rw (e, commit)
          (Kept-same law.Confirmed name payload s.dir _ s.dead _ s.world _ apart refl
            (law.hooks_confirmed payload _ s.world) k)
  ]
    where
      apart : read_file name (remove_file (temp_name n) s.dir) ≡ read_file name s.dir
      apart =
          read-remove_file (temp_name n) name s.dir
            (ne_of_json name (temp_name n) json (temp_not_json n))

      put :
          name ≢ n
          → read_file name (put_file n p (remove_file (temp_name n) s.dir)) ≡ read_file name s.dir
      put h = read-put_file n name p (remove_file (temp_name n) s.dir) h ∙ apart

      stored :
          Kept law.Confirmed name payload s
          → Kept law.Confirmed name payload
              (record (report_depth hooks
                (record s { dir = put_file n p (remove_file (temp_name n) s.dir) })) {
                  wake = true;
                })
      stored (inl e) = inl (put (λ h. cc (rw h at e)) ∙ e)
      stored (inr (inl (e, d))) = inr (inl (put (λ h. cc (rw h at d)) ∙ e, d))
      stored (inr (inr f)) = inr (inr (law.hooks_confirmed payload _ s.world f))

  pub sync_directory-Kept :
      (x : EnqueueFaults) (s : Spool W)
      → Kept law.Confirmed name payload s
      → Kept law.Confirmed name payload (sync_directory hooks x s).1
  unfolding sync_directory
  sync_directory-Kept x s k = elim (Bool-cases s.fsync_enabled) [
    | inl b ↦ elim (Bool-cases x.sync_dir_ok) [
      | inl c ↦ rw (b, c, sync_directory) k
      | inr c ↦
          rw (b, c, sync_directory)
            (Kept-same law.Confirmed name payload s.dir s.dir s.dead s.dead s.world _ refl refl
              (law.hooks_confirmed payload _ s.world) k)
    ]
    | inr b ↦ rw b k
  ]
