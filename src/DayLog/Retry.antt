-- ===== src/DayLog/Retry.antt =====
-- What becomes of the directory entry of a new day's file when its fsync fails: a retry finds the
-- file there, does not fsync the directory, and reports success (cmd/gateway/sink.go,
-- internal/auditlog/auditlog.go, internal/dirsync/dirsync.go).
use edge_gw_project.Prelude.{
  ◌≡◌, ◌≢◌, ◌⊎◌, inl, inr, refl, true, false, none, some, text_eq, text_eq→eq, Bool-cases,
  Option-cases,
}
use edge_gw_project.Prelude.{Text, text_eq_refl, length}
use edge_gw_project.DayLog.{
  DayFile, Files, find_file, set_file, DayFaults, DayLog, dir_sync_failed, new_file,
  open_append_file, sync_file, write_line, after_open, is_open_for, append,
}
use edge_gw_project.DayLog.Files.{find-set_file_self}

abbrev stranded : Text → Text → Files → DayLog
stranded p day files = record { files = set_file p new_file files; day = day; handle = some p }

abbrev written : Text → DayFile
written line = record { bytes = line; synced = length line; linked = false }

not_open : (day : Text) (d : DayLog) → (d.handle ≡ none) ⊎ (d.day ≢ day) → is_open_for day d ≡ false
unfolding is_open_for
not_open day d (inl shut) = simp (shut, is_open_for)
not_open day d (inr other) = elim (Option-cases d.handle) [
  | inl e ↦ simp (e, is_open_for)
  | inr (p, e) ↦ elim (Bool-cases (text_eq d.day day)) [
    | inl same ↦ absurd (other (text_eq→eq d.day day same))
    | inr apart ↦ simp (e, apart, is_open_for)
  ]
]

first_fails :
    (x : DayFaults) (p day line : Text) (d : DayLog)
    → (d.handle ≡ none) ⊎ (d.day ≢ day)
    → find_file p d.files ≡ none
    → x.create_ok ≡ true
    → x.sync_dir_ok ≡ false
    → append x p day line d ≡ (some dir_sync_failed, stranded p day d.files)
unfolding append open_append_file after_open
first_fails x p day line d shut absent c s =
    simp (not_open day d shut, absent, c, s, open_append_file, after_open)

second_succeeds :
    (y : DayFaults) (p day line : Text) (files : Files)
    → y.write_ok ≡ true
    → y.sync_ok ≡ true
    → append y p day line (stranded p day files) ≡ (
      none,
      record (stranded p day files) {
        files = set_file p (written line) (set_file p new_file files);
      },
    )
unfolding append write_line sync_file
second_succeeds y p day line files w k =
    simp (text_eq_refl day, find-set_file_self p new_file files, w, k, write_line, sync_file)

-- For a day whose file does not exist, with no file open or that of another day: if the directory's fsync fails after the
-- creation, the append fails, and a repetition in which no system call fails succeeds and has the
-- record in the file, while the file's directory entry has still not been made durable.
pub retry_leaves_unlinked :
    (x y : DayFaults) (p day line : Text) (d : DayLog)
    → (d.handle ≡ none) ⊎ (d.day ≢ day)
    → find_file p d.files ≡ none
    → x.create_ok ≡ true
    → x.sync_dir_ok ≡ false
    → y.write_ok ≡ true
    → y.sync_ok ≡ true
    → let first = append x p day line d in
      let second = append y p day line first.1 in
      (first.0 ≡ some dir_sync_failed)
      × (second.0 ≡ none)
      × ((f : DayFile) × (find_file p second.1.files ≡ some f)
          × (f.bytes ≡ line)
          × (f.linked ≡ false))
retry_leaves_unlinked x y p day line d shut absent c s w k =
    let e = first_fails x p day line d shut absent c s in
    let f = second_succeeds y p day line d.files w k in
    rw (e, f) (refl, refl, (written line, find-set_file_self p (written line) _, refl, refl))
