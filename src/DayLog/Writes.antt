-- ===== src/DayLog/Writes.antt =====
-- What one write, and the opening before it, do to the files of a directory.
use mathlib.Core.List.{append-nil}
use mathlib.Core.Path.{subst}
use edge_gw_project.Prelude.{◌≡◌, refl, sym, ap, ◌∙◌, ◌≢◌, inl, inr, Bool, true, false}
use edge_gw_project.Prelude.{Option, none, some, [], ◌++◌, Text, text_eq, length}
use edge_gw_project.Prelude.{text_eq→eq, text_eq_refl, Bool-cases, Option-cases}
use edge_gw_project.DayLog.{
  DayFile, Files, find_file, set_file, DayFaults, DayLog, DayError, new_file, open_append_file,
  sync_file, write_line, after_open,
}
use edge_gw_project.DayLog.Files.{
  find-set_file_self, bytes_in, bytes_of, find-set_file_other, find-link_all, bytes-link_all,
  linked,
}

-- A write adds to the end of its file, all of the record if it succeeds, and then the whole file
-- is durable.
abbrev pub Written : Option DayError → Text → Text → DayFile → Files → Files → Type 0
Written answer p line f before after =
    ((g : DayFile) × (find_file p after ≡ some g)
      × ((rest : Text) × (g.bytes ≡ f.bytes ++ rest))
      × (g.linked ≡ f.linked)
      × (answer ≡ none → (g.bytes ≡ f.bytes ++ line) × (g.synced ≡ length g.bytes)))
    × ((q : Text) → q ≢ p → find_file q after ≡ find_file q before)

module _ (x : DayFaults) (p line : Text) (d : DayLog) where
  pub write_line-Written :
      (f : DayFile)
      → find_file p d.files ≡ some f
      → Written (write_line x p line d).0 p line f d.files (write_line x p line d).1.files
  unfolding write_line sync_file
  write_line-Written f e = elim (Bool-cases x.write_ok) [
    | inl w ↦ elim (Bool-cases x.sync_ok) [
      | inl s ↦
          rw (e, write_line, w, s)
            (
              (
                record f { bytes = f.bytes ++ line; synced = length (f.bytes ++ line) },
                find-set_file_self p _ d.files,
                (line, refl),
                refl,
                λ _. (refl, refl),
              ),
              λ q h. find-set_file_other p q _ d.files h,
            )
      | inr s ↦
          rw (e, write_line, w, s)
            (
              (
                record f { bytes = f.bytes ++ line },
                find-set_file_self p _ d.files,
                (line, refl),
                refl,
                λ bad. cc,
              ),
              λ q h. find-set_file_other p q _ d.files h,
            )
    ]
    | inr w ↦
        rw (e, write_line, w)
          (
            (
              record f { bytes = f.bytes ++ x.torn },
              find-set_file_self p _ d.files,
              (x.torn, refl),
              refl,
              λ bad. cc,
            ),
            λ q h. find-set_file_other p q _ d.files h,
          )
  ]

-- What one append may do to the bytes of the files.
abbrev pub Appended : Option DayError → Text → Text → Files → Files → Type 0
Appended answer p line before after =
    ((rest : Text) × (bytes_of p after ≡ bytes_of p before ++ rest))
    × ((q : Text) → q ≢ p → bytes_of q after ≡ bytes_of q before)
    × (answer ≡ none
        → (g : DayFile) × (find_file p after ≡ some g)
          × (g.bytes ≡ bytes_of p before ++ line)
          × (g.synced ≡ length g.bytes))

module _ (x : DayFaults) (p line : Text) where
  -- An append that gets to its write, from files with the same bytes as before.
  pub write_line-Appended :
      (before : Files) (d : DayLog) (f : DayFile)
      → find_file p d.files ≡ some f
      → ((q : Text) → bytes_of q d.files ≡ bytes_of q before)
      → Appended (write_line x p line d).0 p line before (write_line x p line d).1.files
  write_line-Appended before d f e same =
      let ((g, found, (rest, more), _, done), others) = write_line-Written x p line d f e in
      let start : f.bytes ≡ bytes_of p before = sym (ap bytes_in e) ∙ same p in
      (
        (rest, ap bytes_in found ∙ more ∙ ap (λ b. b ++ rest) start),
        (λ q h. ap bytes_in (others q h) ∙ same q),
        λ ok. (g, found, (done ok).0 ∙ ap (λ b. b ++ line) start, (done ok).1),
      )

  -- What an opening leaves: the bytes of every file as they were, and the file there.
  abbrev pub Opened : Files → Option (Files × Bool) → Type 0
  Opened before none = Unit
  Opened before (some (files, created)) =
      ((q : Text) → bytes_of q files ≡ bytes_of q before)
      × ((f : DayFile) × (find_file p files ≡ some f))

  opens_new :
      (before : Files)
      → find_file p before ≡ none
      → x.create_ok ≡ true
      → open_append_file x p before ≡ some (set_file p new_file before, true)
  unfolding open_append_file
  opens_new before e c = rw (e, open_append_file) (simp c)

  opens_none :
      (before : Files)
      → find_file p before ≡ none
      → x.create_ok ≡ false
      → open_append_file x p before ≡ none
  unfolding open_append_file
  opens_none before e c = rw (e, open_append_file) (simp c)

  opens_old :
      (before : Files) {f : DayFile}
      → find_file p before ≡ some f
      → x.append_ok ≡ true
      → open_append_file x p before ≡ some (before, false)
  unfolding open_append_file
  opens_old before e c = rw (e, open_append_file) (simp c)

  opens_not :
      (before : Files) {f : DayFile}
      → find_file p before ≡ some f
      → x.append_ok ≡ false
      → open_append_file x p before ≡ none
  unfolding open_append_file
  opens_not before e c = rw (e, open_append_file) (simp c)

  pub open_append_file-Opened : (before : Files) → Opened before (open_append_file x p before)
  open_append_file-Opened before = elim (Option-cases (find_file p before)) [
    | inl e ↦ elim (Bool-cases x.create_ok) [
      | inl c ↦
          subst (Opened before) (sym (opens_new before e c))
            (made e, (new_file, find-set_file_self p new_file before))
      | inr c ↦ subst (Opened before) (sym (opens_none before e c)) tt
    ]
    | inr (f, e) ↦ elim (Bool-cases x.append_ok) [
      | inl a ↦ subst (Opened before) (sym (opens_old before e a)) ((λ q. refl), (f, e))
      | inr a ↦ subst (Opened before) (sym (opens_not before e a)) tt
    ]
  ]
    where
      made :
          find_file p before ≡ none
          → (q : Text) → bytes_of q (set_file p new_file before) ≡ bytes_of q before
      made e q = elim (Bool-cases (text_eq q p)) [
        | inl s ↦
            rw (text_eq→eq q p s)
              (ap bytes_in (find-set_file_self p new_file before) ∙ sym (ap bytes_in e))
        | inr s ↦
            ap bytes_in
              (find-set_file_other p q new_file before (λ r. cc (rw r at s, text_eq_refl p)))
      ]

  pub after_open-Appended :
      (day : Text) (d : DayLog) (o : Option (Files × Bool))
      → Opened d.files o
      → Appended
          (after_open x p day line o d).0
          p
          line
          d.files
          (after_open x p day line o d).1.files
  unfolding after_open linked
  after_open-Appended day d none o = (([], sym (append-nil _)), (λ q h. refl), λ bad. cc)
  after_open-Appended day d (some (files, false)) (same, (f, e)) =
      write_line-Appended d.files _ f e same
  after_open-Appended day d (some (files, true)) (same, (f, e)) = elim (Bool-cases x.sync_dir_ok) [
    | inl s ↦ simp s (
        write_line-Appended d.files _ (record f { linked = true })
          (find-link_all p files ∙ ap linked e) (λ q. bytes-link_all q files ∙ same q))
    | inr s ↦ simp s (([], same p ∙ sym (append-nil _)), (λ q h. same q), λ bad. cc)
  ]
