-- ===== src/DayLog/Survival.antt =====
-- A record that an append has reported written survives a power loss (cmd/gateway/sink.go,
-- internal/auditlog/auditlog.go), where its file's directory entry was durable or is new.
use edge_gw_project.Prelude.{
  ◌≡◌, refl, sym, ap, ◌∙◌, ◌⊎◌, inl, inr, Bool, true, false, Option, none, some, [], ◌++◌, arith,
  Text, length, Bool-cases,
}
use mathlib.Core.List.{append-nil}
use edge_gw_project.DayLog.{
  DayFile, Files, find_file, DayFaults, DayLog, new_file, open_append_file, write_line, after_open,
  is_open_for, append,
}
use edge_gw_project.DayLog.Files.{bytes_of, find-set_file_self, find-link_all, linked}
use edge_gw_project.DayLog.Writes.{write_line-Written}
use edge_gw_project.DayLog.Laws.{IsHandled, opened, append_recorded}
use edge_gw_project.DayLog.PowerLoss.{IsDurable}

-- The file is there, with a durable directory entry.
abbrev IsLinked : Text → Files → Type 0
IsLinked p files = (f : DayFile) × (find_file p files ≡ some f) × (f.linked ≡ true)

-- No file of this path is there without a durable directory entry.
abbrev pub IsLinkedIfAny : Text → Files → Type 0
IsLinkedIfAny p files = (find_file p files ≡ none) ⊎ IsLinked p files

module _ (x : DayFaults) (p line : Text) where
  write_line-IsLinked :
      (d : DayLog) → IsLinked p d.files → IsLinked p (write_line x p line d).1.files
  write_line-IsLinked d (f, e, l) =
      let ((g, found, _, same, _), _) = write_line-Written x p line d f e in (g, found, same ∙ l)

  -- What an open file needs for a durable entry.
  abbrev IsOpenedLinked : Option (Files × Bool) → Type 0
  IsOpenedLinked none = Unit
  IsOpenedLinked (some (files, false)) = IsLinked p files
  IsOpenedLinked (some (files, true)) = (f : DayFile) × (find_file p files ≡ some f)

  open_append_file-IsLinked :
      (files : Files) → IsLinkedIfAny p files → IsOpenedLinked (open_append_file x p files)
  unfolding open_append_file
  open_append_file-IsLinked files (inl e) = elim (Bool-cases x.create_ok) [
    | inl c ↦ rw (e, open_append_file) (simp c (new_file, find-set_file_self p new_file files))
    | inr c ↦ rw (e, open_append_file) (simp c tt)
  ]
  open_append_file-IsLinked files (inr (f, e, l)) = elim (Bool-cases x.append_ok) [
    | inl a ↦ rw (e, open_append_file) (simp a (f, e, l))
    | inr a ↦ rw (e, open_append_file) (simp a tt)
  ]

  after_open-IsLinked :
      (day : Text) (o : Option (Files × Bool)) (d : DayLog)
      → IsOpenedLinked o
      → (after_open x p day line o d).0 ≡ none
      → IsLinked p (after_open x p day line o d).1.files
  unfolding after_open linked
  after_open-IsLinked day none d o ok = cc
  after_open-IsLinked day (some (files, false)) d o ok = write_line-IsLinked _ o
  after_open-IsLinked day (some (files, true)) d (f, e) ok = elim (Bool-cases x.sync_dir_ok) [
    | inl s ↦ simp s (
        write_line-IsLinked _
          (record f { linked = true }, find-link_all p files ∙ ap linked e, refl))
    | inr s ↦ cc (simp s at ok)
  ]

append-IsLinked :
    (path : Text → Text) (x : DayFaults) (day line : Text) (d : DayLog)
    → IsHandled path d
    → IsLinkedIfAny (path day) d.files
    → (append x (path day) day line d).0 ≡ none
    → IsLinked (path day) (append x (path day) day line d).1.files
unfolding append
append-IsLinked path x day line d h l ok = elim (Bool-cases (is_open_for day d)) [
  | inl o ↦
      let (_, _, (f, e)) = opened path x day line d h o in
      rw o (write_line-IsLinked x (path day) line d (there f e l))
  | inr o ↦ rw o (
      after_open-IsLinked x (path day) line day (open_append_file x (path day) d.files) d
        (open_append_file-IsLinked x (path day) line d.files l) (rw o at ok))
]
  where
    there :
        (f : DayFile)
        → find_file (path day) d.files ≡ some f
        → IsLinkedIfAny (path day) d.files
        → IsLinked (path day) d.files
    there f e (inl n) = cc
    there f e (inr k) = k

-- With the open file that of the noted day, and no day's file without a durable entry: after an
-- append that succeeds, what the file held and the record are durable.
pub append_recorded-IsDurable :
    (path : Text → Text) (x : DayFaults) (day line : Text) (d : DayLog)
    → IsHandled path d
    → IsLinkedIfAny (path day) d.files
    → (append x (path day) day line d).0 ≡ none
    → IsDurable
        (path day)
        (bytes_of (path day) d.files ++ line)
        (append x (path day) day line d).1.files
append_recorded-IsDurable path x day line d h l ok =
    let (g, found, bytes, synced) = append_recorded path x day line d h ok in
    let (f, e, k) = append-IsLinked path x day line d h l ok in
    let same : f ≡ g = cc (e, found) in
    (
      g,
      [],
      found,
      sym (ap (λ z. z.linked) same) ∙ k,
      bytes ∙ sym (append-nil _),
      omega (arith, synced, ap length bytes),
    )
