-- ===== src/DayLog/PowerLoss.antt =====
-- What a power loss leaves of the files (internal/dirsync/dirsync.go says why directories are
-- fsynced): a file whose directory entry is durable keeps at least the bytes that an fsync has
-- covered, and of what is not durable, chance decides.
use Prim.Native.Nat.{max}
use edge_gw_project.Prelude.{
  ℕ, zero, suc, ◌≤◌, ◌≡◌, refl, ap, ◌∙◌, ◌⊎◌, inl, inr, Bool, true, false, ◌||◌, Option, none, some,
  [], ◌∷◌, ◌++◌, arith, Text, text_eq, text_eq→eq, ne_of_text_eq, length, length-append, take,
  if◌then◌else◌, Bool-cases, Option-cases,
}
use mathlib.Core.List.{append_assoc}
use edge_gw_project.DayLog.{
  DayFile, Files, find_file, set_file, link_all, DayFaults, DayLog, new_file, open_append_file,
  sync_file, write_line, after_open, is_open_for, append,
}
use edge_gw_project.DayLog.Files.{find-set_file_self, find-set_file_other, find-link_all, linked}

-- Whether an entry that is not durable is there, and how many bytes are, for each path.
abbrev pub Fate : Type 0
Fate = Text → Bool × ℕ

abbrev remains : DayFile → ℕ → DayFile
remains f k = record { bytes = take (max f.synced k) f.bytes; synced = f.synced; linked = true }

unfoldable pub power_loss : Fate → Files → Files
power_loss fate [] = []
power_loss fate ((p, f) ∷ files) =
    let rest = power_loss fate files in
    if f.linked || (fate p).0 then (p, remains f (fate p).1) ∷ rest else rest

-- The file of this path begins with these bytes, and they and its entry are durable.
abbrev pub IsDurable : Text → Text → Files → Type 0
IsDurable p text files =
    (f : DayFile) × (more : Text) × (find_file p files ≡ some f)
    × (f.linked ≡ true)
    × (f.bytes ≡ text ++ more)
    × (length text ≤ f.synced)

take-append :
    (k : ℕ) (text more : Text)
    → length text ≤ k
    → (rest : Text) × (take k (text ++ more) ≡ text ++ rest)
take-append k [] more h = (take k more, refl)
take-append zero (x ∷ text) more h = absurd (omega (arith, h))
take-append (suc k) (x ∷ text) more h =
    let (rest, e) = take-append k text more (omega (arith, h)) in (rest, ap (λ z. x ∷ z) e)

-- What is durable, a power loss leaves.
pub power_loss-IsDurable :
    (fate : Fate) (p text : Text) (files : Files)
    → IsDurable p text files
    → (f : DayFile) × (rest : Text) × (find_file p (power_loss fate files) ≡ some f)
      × (f.bytes ≡ text ++ rest)
unfolding find_file power_loss
power_loss-IsDurable fate p text [] (f, more, e, _, _, _) = cc
power_loss-IsDurable fate p text ((q, g) ∷ files) (f, more, e, l, b, n) =
    elim (Bool-cases (text_eq p q)) [
      | inl s ↦
          let same : g ≡ f = cc (rw s at e) in
          let kept : g.linked ≡ true = ap (λ x. x.linked) same ∙ l in
          let (rest, t) =
            take-append (max g.synced (fate q).1) text more
              (omega (arith, n, ap (λ x. x.synced) same)) in
          rw (kept, s)
            (
              remains g (fate q).1,
              rest,
              refl,
              ap (take (max g.synced (fate q).1)) (ap (λ x. x.bytes) same ∙ b) ∙ t,
            )
      | inr s ↦ elim (Bool-cases (g.linked || (fate q).0)) [
        | inl k ↦ rw (k, s) (power_loss-IsDurable fate p text files (f, more, rw s at e, l, b, n))
        | inr k ↦ rw k (power_loss-IsDurable fate p text files (f, more, rw s at e, l, b, n))
      ]
    ]

pub set_file-IsDurable :
    (p q text : Text) (f g : DayFile) (r : Text) (files : Files)
    → find_file q files ≡ some f
    → g.linked ≡ f.linked
    → g.bytes ≡ f.bytes ++ r
    → (f.synced ≤ g.synced) ⊎ (g.synced ≡ length g.bytes)
    → IsDurable p text files
    → IsDurable p text (set_file q g files)
set_file-IsDurable p q text f g r files found same grown synced (h, more, e, l, b, n) =
    elim (Bool-cases (text_eq p q)) [
      | inr s ↦ (h, more, find-set_file_other q p g files (ne_of_text_eq p q s) ∙ e, l, b, n)
      | inl s ↦
          let eq = text_eq→eq p q s in
          let one : f ≡ h = cc (rw eq at e, found) in
          let bytes : g.bytes ≡ text ++ (more ++ r) =
            grown ∙ ap (λ z. z ++ r) (ap (λ x. x.bytes) one ∙ b) ∙ append_assoc text more r in
          (
            g,
            more ++ r,
            rw eq (find-set_file_self q g files),
            same ∙ ap (λ x. x.linked) one ∙ l,
            bytes,
            covered bytes (ap (λ x. x.synced) one),
          )
    ]
  where
    covered : g.bytes ≡ text ++ (more ++ r) → f.synced ≡ h.synced → length text ≤ g.synced
    covered bytes eq = elim synced [
      | inl a ↦ omega (arith, n, a, eq)
      | inr a ↦ omega (arith, a, ap length bytes, length-append text (more ++ r))
    ]

module _ (x : DayFaults) (p text : Text) where
  sync_file-IsDurable :
      (q : Text) (f g : DayFile) (r : Text) (d : DayLog)
      → find_file q d.files ≡ some f
      → g.linked ≡ f.linked
      → g.bytes ≡ f.bytes ++ r
      → g.synced ≡ f.synced
      → IsDurable p text d.files
      → IsDurable p text (sync_file x q g d).1.files
  unfolding sync_file
  sync_file-IsDurable q f g r d found l b n k = elim (Bool-cases x.sync_ok) [
    | inl o ↦ rw o (
        set_file-IsDurable p q text f (record g { synced = length g.bytes }) r d.files found l b
          (inr refl) k)
    | inr o ↦ rw o (set_file-IsDurable p q text f g r d.files found l b (inl (omega (arith, n))) k)
  ]

  write_line-IsDurable :
      (q line : Text) (d : DayLog)
      → IsDurable p text d.files
      → IsDurable p text (write_line x q line d).1.files
  unfolding write_line sync_file
  write_line-IsDurable q line d k = elim (Option-cases (find_file q d.files)) [
    | inl e ↦ rw (e, write_line) k
    | inr (f, e) ↦ elim (Bool-cases x.write_ok) [
      | inl o ↦
          rw (e, o, write_line)
            (sync_file-IsDurable q f (record f { bytes = f.bytes ++ line }) line d e refl refl refl
              k)
      | inr o ↦
          rw (e, o, write_line)
            (set_file-IsDurable p q text f (record f { bytes = f.bytes ++ x.torn }) x.torn d.files e
              refl refl (inl (omega arith)) k)
    ]
  ]

  link_all-IsDurable : (files : Files) → IsDurable p text files → IsDurable p text (link_all files)
  unfolding linked
  link_all-IsDurable files (f, more, e, l, b, n) =
      (record f { linked = true }, more, find-link_all p files ∙ ap linked e, refl, b, n)

  new_file-IsDurable :
      (q : Text) (files : Files)
      → find_file q files ≡ none
      → IsDurable p text files
      → IsDurable p text (set_file q new_file files)
  new_file-IsDurable q files absent (f, more, e, l, b, n) =
      (f, more, find-set_file_other q p new_file files (λ s. cc (rw s at e, absent)) ∙ e, l, b, n)

  abbrev IsOpenedDurable : Option (Files × Bool) → Type 0
  IsOpenedDurable none = Unit
  IsOpenedDurable (some (files, created)) = IsDurable p text files

  open_append_file-IsDurable :
      (q : Text) (files : Files)
      → IsDurable p text files
      → IsOpenedDurable (open_append_file x q files)
  unfolding open_append_file
  open_append_file-IsDurable q files k = elim (Option-cases (find_file q files)) [
    | inl e ↦ elim (Bool-cases x.create_ok) [
      | inl c ↦ rw (e, open_append_file) (simp c (new_file-IsDurable q files e k))
      | inr c ↦ rw (e, open_append_file) (simp c tt)
    ]
    | inr (f, e) ↦ elim (Bool-cases x.append_ok) [
      | inl a ↦ rw (e, open_append_file) (simp a k)
      | inr a ↦ rw (e, open_append_file) (simp a tt)
    ]
  ]

  after_open-IsDurable :
      (q day line : Text) (o : Option (Files × Bool)) (d : DayLog)
      → IsOpenedDurable o
      → IsDurable p text d.files
      → IsDurable p text (after_open x q day line o d).1.files
  unfolding after_open
  after_open-IsDurable q day line none d o k = k
  after_open-IsDurable q day line (some (files, false)) d o k = write_line-IsDurable q line _ o
  after_open-IsDurable q day line (some (files, true)) d o k = elim (Bool-cases x.sync_dir_ok) [
    | inl s ↦ simp s (write_line-IsDurable q line _ (link_all-IsDurable files o))
    | inr s ↦ simp s o
  ]

  -- Once durable, bytes stay durable through any append to any day's file.
  pub append-IsDurable :
      (q day line : Text) (d : DayLog)
      → IsDurable p text d.files
      → IsDurable p text (append x q day line d).1.files
  unfolding append
  append-IsDurable q day line d k = elim (Bool-cases (is_open_for day d)) [
    | inl o ↦ rw o (write_line-IsDurable q line d k)
    | inr o ↦ rw o (
        after_open-IsDurable q day line (open_append_file x q d.files) d
          (open_append_file-IsDurable q d.files k) k)
  ]
