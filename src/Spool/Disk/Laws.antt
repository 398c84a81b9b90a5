-- ===== src/Spool/Disk/Laws.antt =====
-- Laws of the entries of Spool/Disk.antt.
use edge_gw_project.Prelude.{
  ◌≡◌, ◌≢◌, refl, ap, ◌∙◌, inl, inr, true, false, none, some, [], ◌∷◌, Text, text_eq, text_eq→eq,
  text_eq_refl, text_eq_of_ne, Bool-cases, List, ◌++◌, Option,
}
use edge_gw_project.Spool.Disk.{
  Node, Entries, find, drop, put, Call, create, write, sync_file, rename, remove, sync_dir, change,
  Disk, perform, perform_all,
}

module _ (n : Text) where
  pub find-drop_self : (e : Entries) → find n (drop n e) ≡ none
  unfolding find drop
  find-drop_self [] = refl
  find-drop_self ((m, f) ∷ e) = elim (Bool-cases (text_eq n m)) [
    | inl p ↦ rw p (find-drop_self e)
    | inr p ↦ rw (p, find) (rw p (find-drop_self e))
  ]

  pub find-drop : (m : Text) (e : Entries) → m ≢ n → find m (drop n e) ≡ find m e
  unfolding find drop
  find-drop m [] h = refl
  find-drop m ((k, f) ∷ e) h = elim (Bool-cases (text_eq n k)) [
    | inl p ↦ rw (p, ← text_eq→eq n k p, text_eq_of_ne m n h) (find-drop m e h)
    | inr p ↦ rw (p, find-drop m e h)
  ]

  pub find-put_self : (f : Node) (e : Entries) → find n (put n f e) ≡ some f
  unfolding find put
  find-put_self f e = rw (text_eq_refl n)

  pub find-put : (m : Text) (f : Node) (e : Entries) → m ≢ n → find m (put n f e) ≡ find m e
  unfolding find put
  find-put m f e h = rw (text_eq_of_ne m n h) (find-drop m e h)

-- A call that does not name the file.
abbrev pub Avoids : Text → Call → Type 0
Avoids n (create m) = n ≢ m
Avoids n (write m bytes) = n ≢ m
Avoids n (sync_file m) = n ≢ m
Avoids n (rename m k) = (n ≢ m) × (n ≢ k)
Avoids n (remove m) = n ≢ m
Avoids n sync_dir = Unit

abbrev pub AllAvoid : Text → List Call → Type 0
AllAvoid n [] = Unit
AllAvoid n (c ∷ cs) = Avoids n c × AllAvoid n cs

pub find-change : (n : Text) (c : Call) (e : Entries) → Avoids n c → find n (change c e) ≡ find n e
unfolding change
find-change n (create m) e h = find-put m n _ e h
find-change n (write m bytes) e h = find-put m n _ e h
find-change n (sync_file m) e h = go (find m e)
  where
    go :
        (o : Option Node)
        → find n
            (elim o [ none ↦ e | some f ↦ put m (record { bytes = f.bytes; synced = true }) e ])
          ≡ find n e
    go none = refl
    go (some f) = find-put m n _ e h
find-change n (rename m k) e (h, h') = go (find m e)
  where
    go : (o : Option Node) → find n (elim o [ none ↦ e | some f ↦ put k f (drop m e) ]) ≡ find n e
    go none = refl
    go (some f) = find-put k n f (drop m e) h' ∙ find-drop m n e h
find-change n (remove m) e h = find-drop m n e h
find-change n sync_dir e h = refl

pub perform-entries : (c : Call) (d : Disk) → (perform c d).entries ≡ change c d.entries
unfolding perform change
perform-entries (create m) d = refl
perform-entries (write m bytes) d = refl
perform-entries (sync_file m) d = refl
perform-entries (rename m k) d = refl
perform-entries (remove m) d = refl
perform-entries sync_dir d = refl

pub find-perform_all :
    (n : Text) (calls : List Call) (d : Disk)
    → AllAvoid n calls
    → find n (perform_all calls d).entries ≡ find n d.entries
unfolding perform_all
find-perform_all n [] d a = refl
find-perform_all n (c ∷ calls) d (a, b) =
    find-perform_all n calls (perform c d) b
    ∙ ap (find n) (perform-entries c d)
    ∙ find-change n c d.entries a

pub perform_all-append :
    (before after : List Call) (d : Disk)
    → perform_all (before ++ after) d ≡ perform_all after (perform_all before d)
unfolding perform_all
perform_all-append [] after d = refl
perform_all-append (c ∷ before) after d = perform_all-append before after (perform c d)

-- A file that has been written, and one that has been written and synced.
pub find-write :
    (n bytes : Text) (d : Disk)
    → find n (perform_all (write n bytes ∷ []) d).entries
      ≡ some (record { bytes = bytes; synced = false })
unfolding perform_all perform change
find-write n bytes d = find-put_self n (record { bytes = bytes; synced = false }) d.entries

pub find-sync_file :
    (n bytes : Text) (d : Disk)
    → find n (perform_all (write n bytes ∷ sync_file n ∷ []) d).entries
      ≡ some (record { bytes = bytes; synced = true })
unfolding perform_all perform change
find-sync_file n bytes d =
    rw (find-write n bytes d, change)
      (find-put_self n (record { bytes = bytes; synced = true })
        (perform (write n bytes) d).entries)

pub find-rename :
    (n m : Text) (f : Node) (d : Disk)
    → find n d.entries ≡ some f
    → (perform (rename n m) d).entries ≡ put m f (drop n d.entries)
unfolding perform change
find-rename n m f d h = rw (h, change)
