-- ===== src/DayLog/Laws.antt =====
-- What an append to a day's file does to the directory.
use mathlib.Core.Path.{subst}
use edge_gw_project.Prelude.{◌≡◌, refl, sym, ap, ◌∙◌, ◌⊎◌, inl, inr, Bool, true, false}
use edge_gw_project.Prelude.{Option, none, some, ◌++◌, arith, Text, text_eq, length}
use edge_gw_project.Prelude.{text_eq→eq, ne_of_text_eq, Bool-cases}
use edge_gw_project.DayLog.{
  DayFile, Files, find_file, DayFaults, DayLog, open_append_file, sync_file, write_line, after_open,
  is_open_for, append,
}
use edge_gw_project.DayLog.Files.{bytes_of, find-link_all, linked}
use edge_gw_project.DayLog.Writes.{
  write_line-Written, open_append_file-Opened, Appended, Opened, write_line-Appended,
  after_open-Appended,
}

-- The open file is the one of the day that is noted, and it is there.
abbrev pub IsHandled : (Text → Text) → DayLog → Type 0
IsHandled path d =
    (d.handle ≡ none)
    ⊎ ((d.handle ≡ some (path d.day)) × ((f : DayFile) × (find_file (path d.day) d.files ≡ some f)))

write_line-handle :
    (x : DayFaults) (p line : Text) (d : DayLog)
    → ((write_line x p line d).1.handle ≡ d.handle) × ((write_line x p line d).1.day ≡ d.day)
unfolding write_line sync_file
write_line-handle x p line d = ground arith

module _ (path : Text → Text) (x : DayFaults) (day line : Text) (d : DayLog) where
  pub opened :
      IsHandled path d
      → is_open_for day d ≡ true
      → (d.handle ≡ some (path day))
        × (d.day ≡ day)
        × ((f : DayFile) × (find_file (path day) d.files ≡ some f))
  unfolding is_open_for
  opened (inl e) o = cc (rw e at o)
  opened (inr (e, (f, g))) o =
      let same : d.day ≡ day = text_eq→eq d.day day (rw (e, is_open_for) at o) in
      (e ∙ ap (λ t. some (path t)) same, same, (f, rw same at g))

  append-Appended :
      IsHandled path d
      → Appended
          (append x (path day) day line d).0
          (path day)
          line
          d.files
          (append x (path day) day line d).1.files
  unfolding append
  append-Appended h = elim (Bool-cases (is_open_for day d)) [
    | inl o ↦
        let (_, _, (f, e)) = opened h o in
        rw o (write_line-Appended x (path day) line d.files d f e (λ q. refl))
    | inr o ↦ rw o (
        after_open-Appended x (path day) line day d (open_append_file x (path day) d.files)
          (open_append_file-Opened x (path day) line d.files))
  ]

  write_line-IsHandled :
      (e : DayLog) (f : DayFile)
      → e.handle ≡ some (path day)
      → e.day ≡ day
      → find_file (path day) e.files ≡ some f
      → IsHandled path (write_line x (path day) line e).1
  write_line-IsHandled e f h same found =
      let ((g, there, _, _, _), _) = write_line-Written x (path day) line e f found in
      let (kept, noted) = write_line-handle x (path day) line e in
      inr (
        kept ∙ h ∙ ap (λ t. some (path t)) (sym (noted ∙ same)),
        (
          g,
          subst (λ t. find_file (path t) (write_line x (path day) line e).1.files ≡ some g)
              (sym (noted ∙ same)) there,
        ),
      )

  after_open-IsHandled :
      (o : Option (Files × Bool))
      → Opened x (path day) line d.files o
      → IsHandled path (after_open x (path day) day line o d).1
  unfolding after_open linked
  after_open-IsHandled none o = inl refl
  after_open-IsHandled (some (files, false)) (_, (f, e)) = write_line-IsHandled _ f refl refl e
  after_open-IsHandled (some (files, true)) (_, (f, e)) = elim (Bool-cases x.sync_dir_ok) [
    | inl s ↦ simp s (
        write_line-IsHandled _ (record f { linked = true }) refl refl
          (find-link_all (path day) files ∙ ap linked e))
    | inr s ↦ simp s (inr (refl, (f, e)))
  ]

  -- Every append keeps the open file that of the noted day.
  pub append-IsHandled : IsHandled path d → IsHandled path (append x (path day) day line d).1
  unfolding append
  append-IsHandled h = elim (Bool-cases (is_open_for day d)) [
    | inl o ↦
        let (handled, same, (f, e)) = opened h o in rw o (write_line-IsHandled d f handled same e)
    | inr o ↦ rw o (
        after_open-IsHandled (open_append_file x (path day) d.files)
          (open_append_file-Opened x (path day) line d.files))
  ]

  -- With the open file that of the noted day: an append, whatever fails in it, only adds bytes to
  -- the end of its day's file, and any path is that of this file or has the bytes that it had.
  pub append_only :
      (q : Text)
      → IsHandled path d
      → ((rest : Text) × (bytes_of (path day) (append x (path day) day line d).1.files
            ≡ bytes_of (path day) d.files ++ rest))
        × ((q ≡ path day)
            ⊎ (bytes_of q (append x (path day) day line d).1.files ≡ bytes_of q d.files))
  append_only q h =
      let (a, b, _) = append-Appended h in
      (
        a,
        elim (Bool-cases (text_eq q (path day))) [
          | inl e ↦ inl (text_eq→eq q (path day) e)
          | inr e ↦ inr (b q (ne_of_text_eq q (path day) e))
        ],
      )

  -- With the open file that of the noted day: an append that succeeds has added exactly its record
  -- to the day's file, and an fsync has made all of that file durable.
  pub append_recorded :
      IsHandled path d
      → (append x (path day) day line d).0 ≡ none
      → (g : DayFile) × (find_file (path day) (append x (path day) day line d).1.files ≡ some g)
        × (g.bytes ≡ bytes_of (path day) d.files ++ line)
        × (g.synced ≡ length g.bytes)
  append_recorded h ok = let (_, _, c) = append-Appended h in c ok
