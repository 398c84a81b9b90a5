-- ===== src/Spool/Outcome.antt =====
-- What Enqueue and forwardOldest leave behind on each branch (internal/spool/spool.go).
use edge_gw_project.Prelude.{ℕ, ◌+◌, ◌-◌, ◌≡◌, refl, ap, ◌∙◌, inl, inr, Bool, true, false}
use edge_gw_project.Prelude.{Option, none, some, List, ◌∷◌, arith, Text, Bool-cases}
use edge_gw_project.Prelude.{leb}
use edge_gw_project.Spool.Dir.{read_file, pending_names, list_pending}
use edge_gw_project.Spool.Dir.Laws.{
  temp_not_json, pending-remove_other, read-remove_file_self, read-put_file_self,
}
use edge_gw_project.Spool.Queue.{
  Hook, Spool, EnqueueFaults, ForwardFaults, RunError, forward_failed, temp_name, commit,
  after_commit, after_reserve, enqueue, sync_directory, dec_depth, dead_letter, settle, send,
  read_head, forward_head, forward_oldest, update_oldest_pending, on_oldest_pending_age, oldest_of,
}
use edge_gw_project.Spool.Commit.{is_committed, refused_full, reserve_room}
use edge_gw_project.Spool.Name.{spool_name}

-- The three fates of the head, by the answer of `forward` and its class.
abbrev pub HeadFate :
    {W E : Type 0}
    → Bool
    → Option E
    → Text
    → Text
    → Spool W
    → (Bool × Option (RunError E)) × Spool W
    → Type 0
HeadFate permanent none name payload s (r, t) =
    (r ≡ (true, none)) × (read_file name t.dir ≡ none) × (t.dead ≡ s.dead) × (t.depth ≡ s.depth - 1)
HeadFate true (some e) name payload s (r, t) =
    (r ≡ (true, none))
    × (read_file name t.dir ≡ none)
    × (read_file name t.dead ≡ some payload)
    × (t.depth ≡ s.depth - 1)
HeadFate false (some e) name payload s (r, t) =
    (r ≡ (false, some (forward_failed e)))
    × (t.dir ≡ s.dir)
    × (t.dead ≡ s.dead)
    × (t.depth ≡ s.depth)

abbrev pub permanent_of : {E : Type 0} → (E → Bool) → Option E → Bool
permanent_of is_permanent none = false
permanent_of is_permanent (some e) = is_permanent e

abbrev pub all_well : ForwardFaults
all_well = record { read_dir_ok = true; read_file_ok = true; remove_ok = true; bury_ok = true }

module _ {W E : Type 0} (hooks : Hook → W → W) (is_permanent : E → Bool)
    (forward : Text → W → Option E × W) where
  -- The answer that the destination gives for the head, once the age of the queue is reported.
  abbrev pub answer_for : ℕ → List Text → Text → Spool W → Option E
  answer_for now names payload s =
      (forward payload (hooks (on_oldest_pending_age (oldest_of names) now) s.world)).0

  settle-HeadFate :
      (now : ℕ) (n p : Text) (a : Option E) (s t : Spool W)
      → t.dir ≡ s.dir
      → t.dead ≡ s.dead
      → t.depth ≡ s.depth
      → read_file n s.dir ≡ some p
      → HeadFate
          (permanent_of is_permanent a)
          a
          n
          p
          s
          (settle hooks is_permanent forward all_well now n (a, t))
  unfolding settle dec_depth dead_letter
  settle-HeadFate now n p none s t d e k r =
      (refl, rw d (read-remove_file_self n s.dir), e, ap (λ (x : ℕ). x - 1) k)
  settle-HeadFate now n p (some f) s t d e k r =
      let found : read_file n t.dir ≡ some p = rw d r in
      elim (Bool-cases (is_permanent f)) [
        | inl b ↦
            rw (b, found)
              (
                refl,
                read-remove_file_self n t.dir,
                read-put_file_self n p t.dead,
                ap (λ (x : ℕ). x - 1) k,
              )
        | inr b ↦ rw b (refl, d, e, k)
      ]

  -- When no system call fails and a signal is at the head with its payload: an accepted one
  -- leaves the directory and the counter falls by one; one that is refused for good lies in
  -- `dead` with its payload and the queue advances; after any other error the queue and the
  -- counter are as they were, and the error is returned.
  pub forward_oldest-HeadFate :
      (now : ℕ) (n p : Text) (rest : List Text) (s : Spool W)
      → list_pending s.dir ≡ n ∷ rest
      → read_file n s.dir ≡ some p
      → HeadFate
          (permanent_of is_permanent (answer_for now (n ∷ rest) p s))
          (answer_for now (n ∷ rest) p s)
          n
          p
          s
          (forward_oldest hooks is_permanent forward all_well now s)
  unfolding forward_oldest forward_head send read_head update_oldest_pending
  forward_oldest-HeadFate now n p rest s e r =
      rw (e, forward_head, r, send)
        (settle-HeadFate now n p (answer_for now (n ∷ rest) p s) s
          (record (update_oldest_pending hooks (n ∷ rest) now s) {
            world = (forward p (update_oldest_pending hooks (n ∷ rest) now s).world).1;
          })
          refl refl refl r)

module _ {W : Type 0} (hooks : Hook → W → W) where
  restored :
      (x : EnqueueFaults) (name payload : Text) (s : Spool W)
      → is_committed (after_commit hooks x (commit hooks x name payload s)).0 ≡ false
      → (pending_names (after_commit hooks x (commit hooks x name payload s)).1.dir
          ≡ pending_names s.dir)
        × ((after_commit hooks x (commit hooks x name payload s)).1.depth ≡ s.depth - 1)
  unfolding commit after_commit is_committed sync_directory
  restored x name payload s h =
      ground (arith, pending-remove_other (temp_name name) s.dir (temp_not_json name))

  -- If Enqueue answers with an error other than a failed fsync of the directory, the waiting
  -- signals and the counter are what they were.
  pub enqueue_failed_unchanged :
      (x : EnqueueFaults) (now : ℕ) (payload : Text) (s : Spool W)
      → is_committed (enqueue hooks x now payload s).0 ≡ false
      → (pending_names (enqueue hooks x now payload s).1.dir ≡ pending_names s.dir)
        × ((enqueue hooks x now payload s).1.depth ≡ s.depth)
  unfolding enqueue after_reserve
  enqueue_failed_unchanged x now payload s h = elim (Bool-cases (leb s.max_depth s.depth)) [
    | inl full ↦ rw (refused_full hooks x now payload s full) (refl, refl)
    | inr room ↦
        let e = reserve_room hooks now s room in
        let taken = record s { depth = s.depth + 1; seq = s.seq + 1 } in
        let (names, depth) =
          restored x (spool_name now (s.seq + 1)) payload taken (rw (e, after_reserve) at h) in
        rw (e, after_reserve) (names, depth ∙ omega arith)
  ]
