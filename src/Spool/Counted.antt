-- ===== src/Spool/Counted.antt =====
-- What each locked section of the spool does to the number of waiting signals and to the counter
-- (internal/spool/spool.go).
use edge_gw_project.Prelude.{ℕ, suc, ◌+◌, ◌-◌, ◌≡◌, refl, ap, ◌∙◌, ◌⊎◌, inl, inr, Bool, true}
use edge_gw_project.Prelude.{Option, none, some, List, [], ◌∷◌, ◌++◌, arith, Text, Bool-cases}
use edge_gw_project.Prelude.{Option-cases, length}
use edge_gw_project.Spool.Dir.{DirEntry, read_file, remove_file, put_file, is_json, pending_names}
use edge_gw_project.Spool.Dir.{list_pending}
use edge_gw_project.Spool.Dir.Laws.{
  HasUniqueNames, remove_file-HasUniqueNames, put_file-HasUniqueNames, temp_not_json,
  read-remove_file, remove_file_absent, pending-remove_other, pending-remove_count, head_of_listing,
}
use edge_gw_project.Spool.Queue.{
  Hook, Spool, EnqueueFaults, ForwardFaults, write_temp_file, temp_name, commit, sync_directory,
  dec_depth, dead_letter, settle, send, read_head, forward_head, forward_oldest,
  update_oldest_pending,
}
use edge_gw_project.Spool.System.{Job, job_name}
use edge_gw_project.Spool.Kept.{ne_of_json}
use edge_gw_project.Spool.Commit.{spool_name_json}

-- What one locked section does to the number of waiting signals and to the counter.
abbrev Counts : {W : Type 0} → ℕ → ℕ → Spool W → Type 0
Counts waiting depth t =
    HasUniqueNames t.dir × (length (pending_names t.dir) ≡ waiting) × (t.depth ≡ depth)

-- The counter is the number of waiting signals and of `k` reservations.
abbrev pub Counted : {W : Type 0} → ℕ → Spool W → Type 0
Counted k s = HasUniqueNames s.dir × (s.depth ≡ length (pending_names s.dir) + k)

module _ {W : Type 0} (hooks : Hook → W → W) where
  pending-put_fresh :
      (n p : Text) (dir : List DirEntry)
      → is_json n ≡ true
      → read_file n dir ≡ none
      → length (pending_names (put_file n p (remove_file (temp_name n) dir)))
        ≡ suc (length (pending_names dir))
  unfolding put_file pending_names
  pending-put_fresh n p dir j fresh =
      let apart =
        read-remove_file (temp_name n) n dir (ne_of_json n (temp_name n) j (temp_not_json n)) in
      rw (
        j,
        remove_file_absent n (remove_file (temp_name n) dir) (apart ∙ fresh),
        pending-remove_other (temp_name n) dir (temp_not_json n),
      )

  -- A commit either adds one signal, or gives the reserved room back.
  pub commit-Counts :
      (x : EnqueueFaults) (n p : Text) (s : Spool W)
      → is_json n ≡ true
      → read_file n s.dir ≡ none
      → HasUniqueNames s.dir
      → Counts (length (pending_names s.dir) + 1) s.depth (commit hooks x n p s).1
        ⊎ Counts (length (pending_names s.dir)) (s.depth - 1) (commit hooks x n p s).1
  unfolding commit
  commit-Counts x n p s j fresh u = elim (Option-cases (write_temp_file x s.fsync_enabled)) [
    | inl e ↦ elim (Bool-cases x.rename_ok) [
      | inl r ↦ inl (
          rw (e, r, commit)
            (
              put_file-HasUniqueNames n p _ cleaned,
              pending-put_fresh n p s.dir j fresh ∙ omega arith,
              refl,
            ))
      | inr r ↦ inr (rw (e, r, commit) (cleaned, same, refl))
    ]
    | inr (f, e) ↦ inr (rw (e, commit) (cleaned, same, refl))
  ]
    where
      cleaned : HasUniqueNames (remove_file (temp_name n) s.dir)
      cleaned = remove_file-HasUniqueNames (temp_name n) s.dir u

      same : length (pending_names (remove_file (temp_name n) s.dir)) ≡ length (pending_names s.dir)
      same = ap length (pending-remove_other (temp_name n) s.dir (temp_not_json n))

  -- Burying the head takes one signal from the count, or changes nothing.
  dead_letter_counts :
      (x : ForwardFaults) (n bytes : Text) (s : Spool W) (k : ℕ)
      → is_json n ≡ true
      → read_file n s.dir ≡ some bytes
      → Counted k s
      → Counted k (dead_letter hooks x n s)
  unfolding dead_letter dec_depth
  dead_letter_counts x n bytes s k j r (u, c) = elim (Bool-cases x.bury_ok) [
    | inl b ↦
        rw (b, r, dead_letter)
          (remove_file-HasUniqueNames n s.dir u, omega (arith, pending-remove_count n s.dir u j r))
    | inr b ↦ rw b (u, c)
  ]

  pub sync_counts :
      (x : EnqueueFaults) (s : Spool W) (k : ℕ)
      → Counted k s
      → Counted k (sync_directory hooks x s).1
  unfolding sync_directory
  sync_counts x s k c = elim (Bool-cases s.fsync_enabled) [
    | inl f ↦ elim (Bool-cases x.sync_dir_ok) [
      | inl d ↦ rw (f, d, sync_directory) c
      | inr d ↦ rw (f, d, sync_directory) c
    ]
    | inr f ↦ rw f c
  ]

pub job_json : (j : Job) → is_json (job_name j) ≡ true
unfolding job_name
job_json j = spool_name_json j.nanos j.number

pub shrinks :
    (before : List Job) (j : Job) (after : List Job)
    → length (before ++ (j ∷ after)) ≡ suc (length (before ++ after))
shrinks [] j after = refl
shrinks (i ∷ before) j after = ap suc (shrinks before j after)

module _ {W E : Type 0} (hooks : Hook → W → W) (is_permanent : E → Bool)
    (forward : Text → W → Option E × W) where
  send_counts :
      (x : ForwardFaults) (now : ℕ) (n bytes : Text) (o : Option Text) (s : Spool W) (k : ℕ)
      → x.remove_ok ≡ true
      → is_json n ≡ true
      → read_file n s.dir ≡ some bytes
      → Counted k s
      → Counted k (send hooks is_permanent forward x now n o s).1
  unfolding send settle dec_depth
  send_counts x now n bytes none s k ok j r c = dead_letter_counts hooks x n bytes s k j r c
  send_counts x now n bytes (some p) s k ok j r (u, c) = elim (Option-cases (forward p s.world).0) [
    | inl e ↦
        simp (e, ok)
          (remove_file-HasUniqueNames n s.dir u, omega (arith, pending-remove_count n s.dir u j r))
    | inr (f, e) ↦ elim (Bool-cases (is_permanent f)) [
      | inl b ↦
          rw (e, settle, b)
            (dead_letter_counts hooks x n bytes (record s { world = (forward p s.world).1 }) k j r
              (u, c))
      | inr b ↦ rw (e, settle, b) (u, c)
    ]
  ]

  pub forward_oldest_counts :
      (x : ForwardFaults) (now : ℕ) (s : Spool W) (k : ℕ)
      → x.remove_ok ≡ true
      → Counted k s
      → Counted k (forward_oldest hooks is_permanent forward x now s).1
  unfolding forward_oldest
  forward_oldest_counts x now s k ok c = elim (Bool-cases x.read_dir_ok) [
    | inl b ↦ simp b (go (list_pending s.dir) refl)
    | inr b ↦ simp b c
  ]
    where
      go :
          (names : List Text)
          → list_pending s.dir ≡ names
          → Counted k
              (forward_head hooks is_permanent forward x now names
                (update_oldest_pending hooks names now s)).1
      go [] e = c
      go (n ∷ names) e =
          let (j, (bytes, r)) = head_of_listing s.dir n names e in
          send_counts x now n bytes (read_head x n (update_oldest_pending hooks (n ∷ names) now s))
            (update_oldest_pending hooks (n ∷ names) now s) k ok j r c
