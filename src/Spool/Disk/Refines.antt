-- ===== src/Spool/Disk/Refines.antt =====
-- The system calls of Enqueue show the directory that the spool's model has
-- (internal/spool/spool.go).
use edge_gw_project.Prelude.{
  ℕ, ◌≡◌, ◌≢◌, refl, sym, ap, ◌∙◌, inl, inr, Bool, true, false, Option, none, some, List, [], ◌∷◌,
  ◌++◌, Text, text_eq, text_eq→eq, ne_of_text_eq, Bool-cases, Option-cases, arith, if◌then◌else◌,
}
use edge_gw_project.Spool.Dir.{DirEntry, read_file, remove_file, put_file}
use edge_gw_project.Spool.Dir.Laws.{
  read-remove_file, read-remove_file_self, read-put_file, read-put_file_self,
}
use edge_gw_project.Spool.Queue.{
  Hook, Spool, EnqueueFaults, EnqueueError, write_temp_file, temp_name, commit, after_commit,
  sync_directory,
}
use edge_gw_project.Spool.Commit.{sync_directory-dir}
use edge_gw_project.Spool.Disk.{
  Node, Entries, find, drop, put, Call, create, write, sync_file, rename, remove, change, Disk,
  perform, perform_all, write_temp_calls, sync_dir_calls, enqueue_calls,
}
use edge_gw_project.Spool.Disk.Laws.{
  find-drop, find-drop_self, find-put, find-put_self, AllAvoid, find-perform_all, find-write,
  find-sync_file, find-rename, perform_all-append,
}

abbrev pub bytes_of : Option Node → Option Text
bytes_of none = none
bytes_of (some f) = some f.bytes

-- The directory shows the bytes of the entries.
abbrev pub IsShown : Entries → List DirEntry → Type 0
IsShown e dir = (m : Text) → bytes_of (find m e) ≡ read_file m dir

temp_error :
    (x : EnqueueFaults) (fsync : Bool) (tmp payload part : Text)
    → (write_temp_calls x fsync tmp payload part).0 ≡ write_temp_file x fsync
unfolding write_temp_calls write_temp_file
temp_error x fsync tmp payload part = ground arith

either : {A : Type 0} (P : A → Type 0) (b : Bool) (x y : A) → P x → P y → P (if b then x else y)
either P true x y p q = p
either P false x y p q = q

temp_avoids :
    (m : Text) (x : EnqueueFaults) (fsync : Bool) (tmp payload part : Text)
    → m ≢ tmp
    → AllAvoid m (write_temp_calls x fsync tmp payload part).1
unfolding write_temp_calls
temp_avoids m x fsync tmp payload part h =
    let P = λ (r : Option EnqueueError × List Call). AllAvoid m r.1 in
    either P x.open_ok _ _
      (either P x.write_ok _ _
        (either P fsync _ _ (either P x.sync_file_ok _ _ (h, (h, (h, tt))) (h, (h, tt)))
          (h, (h, tt)))
        (h, (h, tt)))
      tt

-- The calls of a temporary file that is whole.
temp_calls :
    (x : EnqueueFaults) (fsync : Bool) (tmp payload part : Text)
    → write_temp_file x fsync ≡ none
    → (write_temp_calls x fsync tmp payload part).1 ≡ (
        if fsync
        then create tmp ∷ write tmp payload ∷ sync_file tmp ∷ []
        else create tmp ∷ write tmp payload ∷ [])
unfolding write_temp_calls write_temp_file
temp_calls x fsync tmp payload part h = ground arith

temp_written :
    (x : EnqueueFaults) (fsync : Bool) (tmp payload part : Text) (d : Disk)
    → write_temp_file x fsync ≡ none
    → (f : Node) × (find tmp (perform_all (write_temp_calls x fsync tmp payload part).1 d).entries
        ≡ some f)
      × (f.bytes ≡ payload)
unfolding perform_all
temp_written x true tmp payload part d ok = (
  record { bytes = payload; synced = true },
  ap (λ c. find tmp (perform_all c d).entries) (temp_calls x true tmp payload part ok)
      ∙ find-sync_file tmp payload (perform (create tmp) d),
  refl,
)
temp_written x false tmp payload part d ok = (
  record { bytes = payload; synced = false },
  ap (λ c. find tmp (perform_all c d).entries) (temp_calls x false tmp payload part ok)
      ∙ find-write tmp payload (perform (create tmp) d),
  refl,
)

sync_dir-entries :
    (x : EnqueueFaults) (fsync : Bool) (failures : ℕ) (d : Disk)
    → (perform_all (sync_dir_calls x fsync failures).1 d).entries ≡ d.entries
unfolding perform_all perform sync_dir_calls
sync_dir-entries x true failures d = elim (Bool-cases x.sync_dir_ok) [
  | inl b ↦ rw b refl
  | inr b ↦ rw b refl
]
sync_dir-entries x false failures d = refl

-- The file is gone, and the others are as they were.
IsShown-remove :
    (tmp : Text) (calls : List Call) (d : Disk) (dir : List DirEntry)
    → ((m : Text) → m ≢ tmp → AllAvoid m calls)
    → IsShown d.entries dir
    → IsShown (drop tmp (perform_all calls d).entries) (remove_file tmp dir)
IsShown-remove tmp calls d dir apart shown m = elim (Bool-cases (text_eq m tmp)) [
  | inl e ↦
      let same = text_eq→eq m tmp e in
      rw same (
        ap bytes_of (find-drop_self tmp (perform_all calls d).entries)
        ∙ sym (read-remove_file_self tmp dir))
  | inr e ↦
      let other = ne_of_text_eq m tmp e in
      ap bytes_of (
        find-drop tmp m (perform_all calls d).entries other
        ∙ find-perform_all m calls d (apart m other))
      ∙ shown m
      ∙ sym (read-remove_file tmp m dir other)
]

IsShown-put :
    (n bytes : Text) (f : Node) (e : Entries) (dir : List DirEntry)
    → f.bytes ≡ bytes
    → IsShown e dir
    → IsShown (put n f e) (put_file n bytes dir)
IsShown-put n bytes f e dir holds shown m = elim (Bool-cases (text_eq m n)) [
  | inl p ↦
      let same = text_eq→eq m n p in
      rw same
        (ap bytes_of (find-put_self n f e) ∙ ap some holds ∙ sym (read-put_file_self n bytes dir))
  | inr p ↦
      let other = ne_of_text_eq m n p in
      ap bytes_of (find-put n m f e other) ∙ shown m ∙ sym (read-put_file n m bytes dir other)
]

module _ {W : Type 0} (hooks : Hook → W → W) (x : EnqueueFaults) (name payload part : Text)
    (s : Spool W) where
  abbrev temp : List Call
  temp = (write_temp_calls x s.fsync_enabled (temp_name name) payload part).1

  abbrev calls_made : Option EnqueueError × List Call
  calls_made = enqueue_calls x s.fsync_enabled s.dir_fsync_failures name payload part

  abbrev answered : Option EnqueueError × Spool W
  answered = after_commit hooks x (commit hooks x name payload s)

  abbrev sync_made : Option EnqueueError × List Call
  sync_made = sync_dir_calls x s.fsync_enabled s.dir_fsync_failures

  sync_answer :
      (t : Spool W)
      → t.fsync_enabled ≡ s.fsync_enabled
      → t.dir_fsync_failures ≡ s.dir_fsync_failures
      → sync_made.0 ≡ (sync_directory hooks x t).0
  unfolding sync_dir_calls sync_directory
  sync_answer t e f = ground arith

  pub enqueue_calls-answer : calls_made.0 ≡ answered.0
  unfolding enqueue_calls after_commit commit
  enqueue_calls-answer =
      let error = temp_error x s.fsync_enabled (temp_name name) payload part in
      elim (Option-cases (write_temp_file x s.fsync_enabled)) [
        | inr (f, e) ↦ let failed = error ∙ e in rw (failed, e, enqueue_calls, commit) refl
        | inl e ↦
            let fine = error ∙ e in
            elim (Bool-cases x.rename_ok) [
              | inr r ↦ rw (fine, e, enqueue_calls, commit) (simp r refl)
              | inl r ↦ rw (fine, e, enqueue_calls, commit) (simp r (sync_answer _ refl refl))
            ]
      ]

  module _ (d : Disk) where
    cleaned :
        IsShown d.entries s.dir
        → IsShown
            (perform_all (temp ++ remove (temp_name name) ∷ []) d).entries
            (remove_file (temp_name name) s.dir)
    unfolding perform_all perform change
    cleaned shown = rw (perform_all-append temp (remove (temp_name name) ∷ []) d) (
        IsShown-remove (temp_name name) temp d s.dir
          (λ m h. temp_avoids m x s.fsync_enabled (temp_name name) payload part h) shown)

    moved :
        write_temp_file x s.fsync_enabled ≡ none
        → IsShown d.entries s.dir
        → IsShown
            (perform_all (temp ++ rename (temp_name name) name ∷ sync_made.1) d).entries
            (put_file name payload (remove_file (temp_name name) s.dir))
    unfolding perform_all
    moved ok shown =
        let (f, there, bytes) = temp_written x s.fsync_enabled (temp_name name) payload part d ok in
        rw
          (
            perform_all-append temp (rename (temp_name name) name ∷ sync_made.1) d,
            sync_dir-entries x s.fsync_enabled s.dir_fsync_failures
                (perform (rename (temp_name name) name) (perform_all temp d)),
            find-rename (temp_name name) name f (perform_all temp d) there,
          )
          (IsShown-put name payload f (drop (temp_name name) (perform_all temp d).entries)
            (remove_file (temp_name name) s.dir) bytes
            (IsShown-remove (temp_name name) temp d s.dir
              (λ m h. temp_avoids m x s.fsync_enabled (temp_name name) payload part h) shown))

    shown_after :
        IsShown d.entries s.dir → IsShown (perform_all calls_made.1 d).entries answered.1.dir
    unfolding enqueue_calls after_commit commit
    shown_after shown =
        let error = temp_error x s.fsync_enabled (temp_name name) payload part in
        elim (Option-cases (write_temp_file x s.fsync_enabled)) [
          | inr (f, e) ↦
              let failed = error ∙ e in rw (failed, e, enqueue_calls, commit) (cleaned shown)
          | inl e ↦
              let fine = error ∙ e in
              elim (Bool-cases x.rename_ok) [
                | inr r ↦ rw (fine, e, enqueue_calls, commit) (simp r (cleaned shown))
                | inl r ↦
                    rw (fine, e, enqueue_calls, commit)
                      (simp r (λ m.
                        moved e shown m ∙ sym (ap (read_file m) (sync_directory-dir hooks x _))))
              ]
        ]

    -- The system calls of Enqueue give the answer that the spool's model gives, and leave a disk
    -- that shows the directory that the model has then, whichever of them fail.
    pub enqueue_calls_refine :
        IsShown d.entries s.dir
        → (calls_made.0 ≡ answered.0) × IsShown (perform_all calls_made.1 d).entries answered.1.dir
    enqueue_calls_refine shown = (enqueue_calls-answer, shown_after shown)
